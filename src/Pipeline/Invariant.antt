-- ===== src/Pipeline/Invariant.antt =====
-- No task of a pipeline fails, and no step changes what the consumer will have consumed at the end.
use columbo.Base.{
  if◌then◌else◌, ℕ, zero, suc, ◌≡◌, refl, ap, Bool, true, false, List, [], ◌∷◌, ◌++◌, append_assoc,
  inl, inr,
}
use columbo.Channel.Buffered.{Channel}
use columbo.Channel.Buffered.Storage.{contents}
use columbo.Channel.CoroBounded.Links.{IsLink, push_cases, pop_cases, close_lem}
use columbo.Pipeline.{
  Pc, taking, closing, finished, handling, pushing, is_finished, Handler, Rest, consumer, handler,
  Pipeline, attempt_map, push_to, close_to, pop_from, consume, handle, run_task, produce, join,
  mark_joined, step, Actor, producer, task, waiter,
}
use columbo.Pipeline.Log.{held, sending, emit, outs, log_with, final_log}
use columbo.Pipeline.Ok.{
  After, After-map, ProducerOk, JoinOk, RestOk, IsOk, Becomes, fresh-IsLink, consumer_open,
  handler_open, consumer_closed, handler_closed, join_closed,
}

module _ {A S : Type 0} where
  push_to-Becomes :
      (rest : Rest A S) (v : A)
      → RestOk false rest
      → After (Becomes false rest (◌∷◌ v)) (push_to rest v)
  unfolding push_to
  push_to-Becomes (consumer j c pc log) v (l, jok, pok) = elim (push_cases c (contents c) v l) [
    | inl (e, _) ↦ rw e tt
    | inr (c', e, l') ↦ rw e (
      (fresh-IsLink c' false _ l', jok, consumer_open c c' pc pok),
      λ xs. ap (λ t. log ++ (held pc ++ t)) (rw l'.holds (append_assoc (contents c) (v ∷ []) xs)),
    )
  ]
  push_to-Becomes (handler j c h pc rest) v (l, jok, pok, rok) =
      elim (push_cases c (contents c) v l) [
        | inl (e, _) ↦ rw e tt
        | inr (c', e, l') ↦ rw e (
          (fresh-IsLink c' false _ l', jok, handler_open c c' pc pok, rok),
          λ xs.
              ap (λ t. log_with rest (sending pc ++ outs h (held pc ++ t)))
                (rw l'.holds (append_assoc (contents c) (v ∷ []) xs)),
        )
      ]

  -- `CloseChannel` on an open channel, or once more on a closed one.
  close_to-Becomes :
      (w : Bool) (rest : Rest A S)
      → RestOk w rest
      → After (Becomes true rest (λ xs. xs)) (close_to rest)
  unfolding close_to
  close_to-Becomes w (consumer j c pc log) (l, jok, pok) =
      let (d, e, m) = close_lem c w (contents c) l in
      rw e (
        (fresh-IsLink d true _ m, join_closed j w jok, consumer_closed w c d pc m.holds pok),
        λ xs. ap (λ t. log ++ (held pc ++ (t ++ xs))) m.holds,
      )
  close_to-Becomes w (handler j c h pc rest) (l, jok, pok, rok) =
      let (d, e, m) = close_lem c w (contents c) l in
      rw e (
        (fresh-IsLink d true _ m, join_closed j w jok, handler_closed w c d pc m.holds pok, rok),
        λ xs. ap (λ t. log_with rest (sending pc ++ outs h (held pc ++ (t ++ xs)))) m.holds,
      )

  -- A step that leaves what is to come alone.
  abbrev pub Same : Bool → Rest A S → Rest A S → Type 0
  Same w rest = Becomes w rest (λ xs. xs)

-- The value at the front of a channel, taken out of it.
front_taken :
    {A : Type 0} (x : A) (xs ys before after : List A)
    → before ≡ x ∷ ys
    → after ≡ ys
    → x ∷ (after ++ xs) ≡ before ++ xs
front_taken x xs ys before after e f = rw (e, f)

module _ {A : Type 0} (S : Type 0) where
  consume-Same :
      (w j : Bool) (c : Channel A) (pc : Pc A) (log : List A)
      → RestOk {S = S} w (consumer j c pc log)
      → After (Same {S = S} w (consumer j c pc log)) (consume j c pc log)
  unfolding consume pop_from
  consume-Same w j c taking log (l, jok, pok) = elim (pop_cases c w (contents c) l) [
    | inl (e, _, _) ↦ rw e tt
    | inr (inl (e, gone, shut)) ↦ rw e ((l, jok, (shut, gone)), λ xs. refl)
    | inr (inr (x, ys, c', e, front, l')) ↦
        rw e ((fresh-IsLink c' w _ l', jok, tt), λ xs. ap (λ t. log ++ t) (rw (front, l'.holds)))
  ]
  consume-Same w j c (handling v) log (l, jok, pok) =
      ((l, jok, tt), λ xs. append_assoc log (v ∷ []) (contents c ++ xs))
  consume-Same w j c (pushing v) log (l, jok, pok) = absurd pok
  consume-Same w j c closing log (l, jok, pok) = absurd pok
  consume-Same w j c finished log (l, jok, pok) = tt

module _ {A S : Type 0} where
  handled-Same :
      (w j pass_on : Bool) (c : Channel A) (h' : Handler A S) (v' : A) (rest : Rest A S)
      → IsLink c w (contents c)
      → JoinOk j w
      → RestOk false rest
      → RestOk w (handler j c h' (if pass_on then pushing v' else taking) rest)
        × ((xs : List A)
            → log_with (handler j c h' (if pass_on then pushing v' else taking) rest) xs
              ≡ log_with rest (emit pass_on v' ++ outs h' (contents c ++ xs)))
  handled-Same w j true c h' v' rest l jok rok = ((l, jok, tt, rok), λ xs. refl)
  handled-Same w j false c h' v' rest l jok rok = ((l, jok, tt, rok), λ xs. refl)

  handle-Same :
      (w j : Bool) (c : Channel A) (h : Handler A S) (pc : Pc A) (rest : Rest A S)
      → RestOk w (handler j c h pc rest)
      → After (Same w (handler j c h pc rest)) (handle j c h pc rest)
  unfolding handle pop_from
  handle-Same w j c h taking rest (l, jok, pok, rok) = elim (pop_cases c w (contents c) l) [
    | inl (e, _, _) ↦ rw e tt
    | inr (inl (e, gone, shut)) ↦ rw e ((l, jok, (shut, gone), rok), λ xs. refl)
    | inr (inr (x, ys, c', e, front, l')) ↦ rw e (
      (fresh-IsLink c' w _ l', jok, tt, rok),
      λ xs.
          ap (λ t. log_with rest (outs h t))
            (front_taken x xs ys (contents c) (contents c') front l'.holds),
    )
  ]
  handle-Same w j c h (handling v) rest (l, jok, pok, rok) =
      let out = h.handel h.state v in
      handled-Same w j out.1 c (record h { state = out.0 }) out.2 rest l jok rok
  handle-Same w j c h (pushing v) rest (l, jok, pok, rok) =
      After-map (Becomes false rest (◌∷◌ v)) (Same w (handler j c h (pushing v) rest))
        (handler j c h taking) (push_to rest v)
        (λ r b. ((l, jok, tt, b.0), λ xs. b.1 (outs h (contents c ++ xs))))
        (push_to-Becomes rest v rok)
  handle-Same w j c h closing rest (l, jok, pok, rok) =
      After-map (Becomes true rest (λ xs. xs)) (Same w (handler j c h closing rest))
        (handler j c h finished) (close_to rest)
        (λ r b. ((l, jok, pok, b.0), λ xs. b.1 (outs h (contents c ++ xs))))
        (close_to-Becomes false rest rok)
  handle-Same w j c h finished rest ok = tt

  run_task-Same :
      (k : ℕ) (w : Bool) (rest : Rest A S) → RestOk w rest → After (Same w rest) (run_task k rest)
  unfolding run_task
  run_task-Same zero w (consumer j c pc log) ok = consume-Same S w j c pc log ok
  run_task-Same zero w (handler j c h pc rest) ok = handle-Same w j c h pc rest ok
  run_task-Same (suc k) w (consumer j c pc log) ok = tt
  run_task-Same (suc k) w (handler j c h pc rest) (l, jok, pok, rok) =
      After-map (Same (is_finished pc) rest) (Same w (handler j c h pc rest)) (handler j c h pc)
        (run_task k rest)
        (λ r b.
          ((l, jok, pok, b.0), λ xs. b.1 (sending pc ++ outs h (held pc ++ (contents c ++ xs)))))
        (run_task-Same k (is_finished pc) rest rok)

  mark_joined-Same :
      (rest r : Rest A S) → Becomes true rest (λ xs. xs) r → Same true rest (mark_joined r)
  mark_joined-Same rest (consumer j c pc log) ((l, jok, pok), e) = ((l, refl, pok), e)
  mark_joined-Same rest (handler j c h pc r) ((l, jok, pok, rok), e) = ((l, refl, pok, rok), e)

  join_behind :
      (w : Bool) (c : Channel A) (h : Handler A S) (pc : Pc A) (rest : Rest A S)
      → After (Same (is_finished pc) rest) (join (is_finished pc) rest)
      → RestOk w (handler true c h pc rest)
      → After
          (Same w (handler true c h pc rest))
          (attempt_map (handler true c h pc) (join (is_finished pc) rest))
  join_behind w c h pc rest a (l, jok, pok, rok) =
      After-map (Same (is_finished pc) rest) (Same w (handler true c h pc rest))
        (handler true c h pc) (join (is_finished pc) rest)
        (λ r b.
          ((l, jok, pok, b.0), λ xs. b.1 (sending pc ++ outs h (held pc ++ (contents c ++ xs)))))
        a

  join-Same : (w : Bool) (rest : Rest A S) → RestOk w rest → After (Same w rest) (join w rest)
  unfolding join
  join-Same true (consumer false c pc log) ok =
      After-map (Same true (consumer false c pc log)) (Same true (consumer false c pc log))
        mark_joined (close_to (consumer false c pc log))
        (mark_joined-Same (consumer false c pc log))
        (close_to-Becomes true (consumer false c pc log) ok)
  join-Same true (handler false c h pc rest) ok =
      After-map (Same true (handler false c h pc rest)) (Same true (handler false c h pc rest))
        mark_joined (close_to (handler false c h pc rest))
        (mark_joined-Same (handler false c h pc rest))
        (close_to-Becomes true (handler false c h pc rest) ok)
  join-Same false (consumer false c pc log) ok = tt
  join-Same false (handler false c h pc rest) ok = tt
  join-Same true (consumer true c pc log) ok = tt
  join-Same false (consumer true c pc log) ok = tt
  join-Same true (handler true c h pc rest) ok =
      join_behind true c h pc rest (join-Same (is_finished pc) rest ok.3) ok
  join-Same false (handler true c h pc rest) ok =
      join_behind false c h pc rest (join-Same (is_finished pc) rest ok.3) ok

  produce-Same :
      (vs : List A) (pc : Pc A) (rest : Rest A S)
      → ProducerOk vs pc
      → RestOk (is_finished pc) rest
      → After (λ p. IsOk p × (final_log p ≡ log_with rest (sending pc ++ vs))) (produce vs pc rest)
  unfolding produce
  produce-Same [] taking rest pok ok = ((refl, ok), refl)
  produce-Same (v ∷ vs) taking rest pok ok = ((tt, ok), refl)
  produce-Same vs (pushing v) rest pok ok =
      After-map (Becomes false rest (◌∷◌ v)) _ _ (push_to rest v) (λ r b. ((tt, b.0), b.1 vs))
        (push_to-Becomes rest v ok)
  produce-Same vs closing rest pok ok =
      After-map (Becomes true rest (λ xs. xs)) _ _ (close_to rest) (λ r b. ((pok, b.0), b.1 vs))
        (close_to-Becomes false rest ok)
  produce-Same vs (handling v) rest pok ok = tt
  produce-Same vs finished rest pok ok = tt

-- Whichever task runs next, it does not fail, it keeps the invariant, and it leaves the log that the
-- consumer has at the end as it was.
pub step-IsOk :
    {A S : Type 0} (who : Actor) (p : Pipeline A S)
    → IsOk p
    → After (λ q. IsOk q × (final_log q ≡ final_log p)) (step who p)
unfolding step
step-IsOk producer p (pok, ok) = produce-Same p.todo p.pc p.rest pok ok
step-IsOk (task k) p (pok, ok) =
    After-map (Same (is_finished p.pc) p.rest) _ _ (run_task k p.rest)
      (λ r b. ((pok, b.0), b.1 (sending p.pc ++ p.todo)))
      (run_task-Same k (is_finished p.pc) p.rest ok)
step-IsOk waiter p (pok, ok) =
    After-map (Same (is_finished p.pc) p.rest) _ _ (join (is_finished p.pc) p.rest)
      (λ r b. ((pok, b.0), b.1 (sending p.pc ++ p.todo))) (join-Same (is_finished p.pc) p.rest ok)
