-- ===== src/Pipeline/Termination.antt =====
-- Every run of a pipeline of include/sync/corobelt.h ends: each step makes a number smaller.
use columbo.Base.{
  ℕ, zero, suc, ◌+◌, ◌*◌, ◌<◌, ◌≡◌, refl, ◌∙◌, ap, Bool, true, false, List, [], ◌∷◌, ◌++◌, inl, inr,
  length, length-append, arith, if◌then◌else◌,
}
use columbo.Channel.Buffered.{Channel}
use columbo.Channel.Buffered.Storage.{contents}
use columbo.Channel.CoroBounded.Links.{push_cases, pop_cases, close_lem}
use columbo.Pipeline.{
  Pc, taking, closing, finished, handling, pushing, is_finished, Handler, Rest, consumer, handler,
  Pipeline, attempt_map, push_to, close_to, pop_from, consume, handle, run_task, produce, join,
  step, Actor, producer, task, waiter,
}
use columbo.Pipeline.Ok.{After, After-map, RestOk, IsOk}

module _ {A S : Type 0} where
  -- The steps that one value still makes, from the moment it is in the channel of a rest.
  abbrev cost : Rest A S → ℕ
  cost (consumer j c pc log) = 2
  cost (handler j c h pc rest) = cost rest + 3

abbrev unjoined : Bool → ℕ
unjoined true = 0
unjoined false = 1

-- The steps of a task that stands at `pc`, with `n` values in its channel; one it passes on makes `k`.
abbrev loop_steps : {A : Type 0} → ℕ → ℕ → Pc A → ℕ
loop_steps k n taking = n * (k + 3) + 2
loop_steps k n (handling v) = n * (k + 3) + k + 4
loop_steps k n (pushing v) = n * (k + 3) + k + 3
loop_steps k n closing = n * (k + 3) + 1
loop_steps k n finished = n * (k + 3)

abbrev consumer_steps : {A : Type 0} → ℕ → Pc A → ℕ
consumer_steps n taking = n * 2 + 1
consumer_steps n (handling v) = n * 2 + 2
consumer_steps n _ = n * 2

module _ {A S : Type 0} where
  -- A bound on the steps that a rest can make.
  abbrev steps : Rest A S → ℕ
  steps (consumer j c pc log) = unjoined j + consumer_steps (length (contents c)) pc
  steps (handler j c h pc rest) =
      unjoined j + steps rest + loop_steps (cost rest) (length (contents c)) pc

  abbrev pub steps_left : Pipeline A S → ℕ
  steps_left p = steps p.rest + loop_steps (cost p.rest) (length p.todo) p.pc

  abbrev Grows : ℕ → Rest A S → Rest A S → Type 0
  Grows n rest r = (cost r ≡ cost rest) × (steps r ≡ steps rest + n)

  abbrev Shrinks : Rest A S → Rest A S → Type 0
  Shrinks rest r = (cost r ≡ cost rest) × (steps r < steps rest)

loop_steps-suc :
    {A : Type 0} (k n : ℕ) (pc : Pc A) → loop_steps k (n + 1) pc ≡ loop_steps k n pc + (k + 3)
loop_steps-suc k n taking = omega arith
loop_steps-suc k n (handling v) = omega arith
loop_steps-suc k n (pushing v) = omega arith
loop_steps-suc k n closing = omega arith
loop_steps-suc k n finished = omega arith

consumer_steps-suc :
    {A : Type 0} (n : ℕ) (pc : Pc A) → consumer_steps (n + 1) pc ≡ consumer_steps n pc + 2
consumer_steps-suc n taking = omega arith
consumer_steps-suc n (handling v) = omega arith
consumer_steps-suc n (pushing v) = omega arith
consumer_steps-suc n closing = omega arith
consumer_steps-suc n finished = omega arith

module _ {A : Type 0} where
  one_more :
      (c c' : Channel A) (v : A)
      → contents c' ≡ contents c ++ v ∷ []
      → length (contents c') ≡ length (contents c) + 1
  one_more c c' v e = ap length e ∙ length-append (contents c) (v ∷ []) ∙ omega arith

  one_less :
      (c c' : Channel A) (x : A) (ys : List A)
      → contents c ≡ x ∷ ys
      → contents c' ≡ ys
      → length (contents c) ≡ length (contents c') + 1
  one_less c c' x ys e f = ap length e ∙ omega (arith, ap length f)

module _ {A S : Type 0} where
  push_to-Grows :
      (rest : Rest A S) (v : A)
      → RestOk false rest
      → After (Grows (cost rest) rest) (push_to rest v)
  unfolding push_to
  push_to-Grows (consumer j c pc log) v ok = elim (push_cases c (contents c) v ok.0) [
    | inl (e, _) ↦ rw e tt
    | inr (c', e, l) ↦ rw e (
      refl,
      rw (one_more c c' v l.holds) (omega (arith, consumer_steps-suc (length (contents c)) pc)),
    )
  ]
  push_to-Grows (handler j c h pc rest) v ok = elim (push_cases c (contents c) v ok.0) [
    | inl (e, _) ↦ rw e tt
    | inr (c', e, l) ↦ rw e (
      refl,
      rw (one_more c c' v l.holds)
          (omega (arith, loop_steps-suc (cost rest) (length (contents c)) pc)),
    )
  ]

  close_to-Grows :
      (w : Bool) (rest : Rest A S) → RestOk w rest → After (Grows 0 rest) (close_to rest)
  unfolding close_to
  close_to-Grows w (consumer j c pc log) ok =
      let (d, e, m) = close_lem c w (contents c) ok.0 in rw e (refl, rw m.holds (omega arith))
  close_to-Grows w (handler j c h pc rest) ok =
      let (d, e, m) = close_lem c w (contents c) ok.0 in rw e (refl, rw m.holds (omega arith))

module _ {A : Type 0} (S : Type 0) where
  consume-Shrinks :
      (w j : Bool) (c : Channel A) (pc : Pc A) (log : List A)
      → RestOk {S = S} w (consumer j c pc log)
      → After (Shrinks {S = S} (consumer j c pc log)) (consume j c pc log)
  unfolding consume pop_from
  consume-Shrinks w j c taking log ok = elim (pop_cases c w (contents c) ok.0) [
    | inl (e, _, _) ↦ rw e tt
    | inr (inl (e, _, _)) ↦ rw e (refl, omega arith)
    | inr (inr (x, ys, c', e, front, l)) ↦
        rw e (refl, omega (arith, one_less c c' x ys front l.holds))
  ]
  consume-Shrinks w j c (handling v) log ok = (refl, omega arith)
  consume-Shrinks w j c (pushing v) log ok = tt
  consume-Shrinks w j c closing log ok = tt
  consume-Shrinks w j c finished log ok = tt

module _ {A S : Type 0} where
  handled-Shrinks :
      (j pass_on : Bool) (c : Channel A) (h h' : Handler A S) (v v' : A) (rest : Rest A S)
      → Shrinks
          (handler j c h (handling v) rest)
          (handler j c h' (if pass_on then pushing v' else taking) rest)
  handled-Shrinks j true c h h' v v' rest = (refl, omega arith)
  handled-Shrinks j false c h h' v v' rest = (refl, omega arith)

  handle-Shrinks :
      (w j : Bool) (c : Channel A) (h : Handler A S) (pc : Pc A) (rest : Rest A S)
      → RestOk w (handler j c h pc rest)
      → After (Shrinks (handler j c h pc rest)) (handle j c h pc rest)
  unfolding handle pop_from
  handle-Shrinks w j c h taking rest ok = elim (pop_cases c w (contents c) ok.0) [
    | inl (e, _, _) ↦ rw e tt
    | inr (inl (e, _, _)) ↦ rw e (refl, omega arith)
    | inr (inr (x, ys, c', e, front, l)) ↦
        rw e (refl, rw (one_less c c' x ys front l.holds) (omega arith))
  ]
  handle-Shrinks w j c h (handling v) rest ok =
      handled-Shrinks j (h.handel h.state v).1 c h (record h { state = (h.handel h.state v).0 }) v
        (h.handel h.state v).2 rest
  handle-Shrinks w j c h (pushing v) rest ok =
      After-map (Grows (cost rest) rest) (Shrinks (handler j c h (pushing v) rest))
        (handler j c h taking) (push_to rest v)
        (λ r b. (ap (λ k. k + 3) b.0, rw b.0 (omega (arith, b.1)))) (push_to-Grows rest v ok.3)
  handle-Shrinks w j c h closing rest ok =
      After-map (Grows 0 rest) (Shrinks (handler j c h closing rest)) (handler j c h finished)
        (close_to rest) (λ r b. (ap (λ k. k + 3) b.0, rw b.0 (omega (arith, b.1))))
        (close_to-Grows false rest ok.3)
  handle-Shrinks w j c h finished rest ok = tt

  -- A step behind a node is a step of the rest from the node on.
  behind-Shrinks :
      (j : Bool) (c : Channel A) (h : Handler A S) (pc : Pc A) (rest r : Rest A S)
      → Shrinks rest r
      → Shrinks (handler j c h pc rest) (handler j c h pc r)
  behind-Shrinks j c h pc rest r (e, l) = (ap (λ k. k + 3) e, rw e (omega arith))

  run_task-Shrinks :
      (k : ℕ) (w : Bool) (rest : Rest A S) → RestOk w rest → After (Shrinks rest) (run_task k rest)
  unfolding run_task
  run_task-Shrinks zero w (consumer j c pc log) ok = consume-Shrinks S w j c pc log ok
  run_task-Shrinks zero w (handler j c h pc rest) ok = handle-Shrinks w j c h pc rest ok
  run_task-Shrinks (suc k) w (consumer j c pc log) ok = tt
  run_task-Shrinks (suc k) w (handler j c h pc rest) ok =
      After-map (Shrinks rest) (Shrinks (handler j c h pc rest)) (handler j c h pc)
        (run_task k rest) (behind-Shrinks j c h pc rest)
        (run_task-Shrinks k (is_finished pc) rest ok.3)

  join_behind-Shrinks :
      (c : Channel A) (h : Handler A S) (pc : Pc A) (rest : Rest A S)
      → After (Shrinks rest) (join (is_finished pc) rest)
      → After
          (Shrinks (handler true c h pc rest))
          (attempt_map (handler true c h pc) (join (is_finished pc) rest))
  join_behind-Shrinks c h pc rest a =
      After-map (Shrinks rest) (Shrinks (handler true c h pc rest)) (handler true c h pc)
        (join (is_finished pc) rest) (behind-Shrinks true c h pc rest) a

  join-Shrinks : (w : Bool) (rest : Rest A S) → RestOk w rest → After (Shrinks rest) (join w rest)
  unfolding join
  join-Shrinks true (consumer false c pc log) ok =
      let (d, e, m) = close_lem c true (contents c) ok.0 in rw e (refl, rw m.holds (omega arith))
  join-Shrinks true (handler false c h pc rest) ok =
      let (d, e, m) = close_lem c true (contents c) ok.0 in rw e (refl, rw m.holds (omega arith))
  join-Shrinks false (consumer false c pc log) ok = tt
  join-Shrinks false (handler false c h pc rest) ok = tt
  join-Shrinks true (consumer true c pc log) ok = tt
  join-Shrinks false (consumer true c pc log) ok = tt
  join-Shrinks true (handler true c h pc rest) ok =
      join_behind-Shrinks c h pc rest (join-Shrinks (is_finished pc) rest ok.3)
  join-Shrinks false (handler true c h pc rest) ok =
      join_behind-Shrinks c h pc rest (join-Shrinks (is_finished pc) rest ok.3)

  produce-Shrinks :
      (vs : List A) (pc : Pc A) (rest : Rest A S)
      → RestOk (is_finished pc) rest
      → After
          (λ q. steps_left q < steps rest + loop_steps (cost rest) (length vs) pc)
          (produce vs pc rest)
  unfolding produce
  produce-Shrinks [] taking rest ok = omega arith
  produce-Shrinks (v ∷ vs) taking rest ok = omega arith
  produce-Shrinks vs (pushing v) rest ok =
      After-map (Grows (cost rest) rest) _ _ (push_to rest v) (λ r b. rw b.0 (omega (arith, b.1)))
        (push_to-Grows rest v ok)
  produce-Shrinks vs closing rest ok =
      After-map (Grows 0 rest) _ _ (close_to rest) (λ r b. rw b.0 (omega (arith, b.1)))
        (close_to-Grows false rest ok)
  produce-Shrinks vs (handling v) rest ok = tt
  produce-Shrinks vs finished rest ok = tt

-- Whoever runs, if it moves, fewer steps are left.
pub step-steps_left :
    {A S : Type 0} (who : Actor) (p : Pipeline A S)
    → IsOk p
    → After (λ q. steps_left q < steps_left p) (step who p)
unfolding step
step-steps_left producer p ok = produce-Shrinks p.todo p.pc p.rest ok.1
step-steps_left (task k) p ok =
    After-map (Shrinks p.rest) _ _ (run_task k p.rest) (λ r b. rw b.0 (omega (arith, b.1)))
      (run_task-Shrinks k (is_finished p.pc) p.rest ok.1)
step-steps_left waiter p ok =
    After-map (Shrinks p.rest) _ _ (join (is_finished p.pc) p.rest)
      (λ r b. rw b.0 (omega (arith, b.1))) (join-Shrinks (is_finished p.pc) p.rest ok.1)
