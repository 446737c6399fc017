-- ===== src/Pipeline/Progress.antt =====
-- A pipeline of include/sync/corobelt.h never deadlocks: until it is complete, somebody can run.
use columbo.Base.{ℕ, zero, suc, ◌≡◌, ◌≢◌, refl, ap, Bool, true, false, List, [], ◌∷◌, ◌⊎◌, inl, inr}
use columbo.Channel.Buffered.{Channel}
use columbo.Channel.Buffered.Storage.{contents}
use columbo.Channel.CoroBounded.Links.{push_cases, pop_cases, close_lem}
use columbo.Pipeline.{
  Pc, taking, closing, finished, handling, pushing, is_finished, Handler, Rest, consumer, handler,
  Pipeline, Attempt, moves, attempt_map, push_to, close_to, source, pop_from, consume, handle,
  run_task, produce, join, mark_joined, step, Actor, producer, task, waiter,
}
use columbo.Pipeline.Ok.{RestOk, IsOk}

abbrev pub Moves : {S : Type 0} → Attempt S → Type 0
Moves {S} a = (s : S) × (a ≡ moves s)

Moves-map : {S T : Type 0} (f : S → T) (a : Attempt S) → Moves a → Moves (attempt_map f a)
Moves-map f a (s, e) = (f s, ap (attempt_map f) e)

module _ {A S : Type 0} where
  -- All tasks from here on have ended.
  abbrev pub AllFinished : Rest A S → Type 0
  AllFinished (consumer j c pc log) = pc ≡ finished
  AllFinished (handler j c h pc rest) = (pc ≡ finished) × AllFinished rest

  -- `RunPipelineImpl` has waited for all tasks but the last.
  abbrev pub AllJoined : Rest A S → Type 0
  AllJoined (consumer j c pc log) = j ≡ true
  AllJoined (handler j c h pc rest) = (j ≡ true) × AllJoined rest

  abbrev pub IsComplete : Pipeline A S → Type 0
  IsComplete p = (p.pc ≡ finished) × AllFinished p.rest × AllJoined p.rest

  push_to-Moves :
      (rest : Rest A S) (v : A)
      → RestOk false rest
      → Moves (push_to rest v) ⊎ (contents (source rest) ≢ [])
  unfolding push_to
  push_to-Moves (consumer j c pc log) v ok = elim (push_cases c (contents c) v ok.0) [
    | inl (_, full) ↦ inr full
    | inr (c', e, _) ↦ inl (rw e (consumer j c' pc log, refl))
  ]
  push_to-Moves (handler j c h pc rest) v ok = elim (push_cases c (contents c) v ok.0) [
    | inl (_, full) ↦ inr full
    | inr (c', e, _) ↦ inl (rw e (handler j c' h pc rest, refl))
  ]

  close_to-Moves : (w : Bool) (rest : Rest A S) → RestOk w rest → Moves (close_to rest)
  unfolding close_to
  close_to-Moves w (consumer j c pc log) ok =
      let (d, e, _) = close_lem c w (contents c) ok.0 in rw e (consumer j d pc log, refl)
  close_to-Moves w (handler j c h pc rest) ok =
      let (d, e, _) = close_lem c w (contents c) ok.0 in rw e (handler j d h pc rest, refl)

  finished_closed : (w : Bool) (rest : Rest A S) → RestOk w rest → AllFinished rest → w ≡ true
  finished_closed w (consumer j c taking log) ok f = cc
  finished_closed w (consumer j c (handling v) log) ok f = cc
  finished_closed w (consumer j c (pushing v) log) ok f = cc
  finished_closed w (consumer j c closing log) ok f = cc
  finished_closed w (consumer j c finished log) ok f = ok.2.0
  finished_closed w (handler j c h taking rest) ok f = cc
  finished_closed w (handler j c h (handling v) rest) ok f = cc
  finished_closed w (handler j c h (pushing v) rest) ok f = cc
  finished_closed w (handler j c h closing rest) ok f = ok.2.0
  finished_closed w (handler j c h finished rest) ok f = ok.2.0

  -- Some task of the rest can run, or the first one waits for a value, or all have ended.
  abbrev Status : Bool → Rest A S → Type 0
  Status w rest =
      ((k : ℕ) × Moves (run_task k rest))
      ⊎ ((contents (source rest) ≡ []) × (w ≡ false))
      ⊎ AllFinished rest

  consumer-Status :
      (w j : Bool) (c : Channel A) (pc : Pc A) (log : List A)
      → RestOk {S = S} w (consumer j c pc log)
      → Status w (consumer j c pc log)
  unfolding run_task consume pop_from
  consumer-Status w j c taking log ok = elim (pop_cases c w (contents c) ok.0) [
    | inl (e, gone, open_) ↦ inr (inl (gone, open_))
    | inr (inl (e, _, _)) ↦ inl (zero, rw e (consumer j c finished log, refl))
    | inr (inr (x, ys, c', e, _, _)) ↦ inl (zero, rw e (consumer j c' (handling x) log, refl))
  ]
  consumer-Status w j c (handling v) log ok = inl (zero, (_, refl))
  consumer-Status w j c (pushing v) log ok = absurd ok.2
  consumer-Status w j c closing log ok = absurd ok.2
  consumer-Status w j c finished log ok = inr (inr refl)

  -- A task behind this node that can run.
  behind :
      (j : Bool) (c : Channel A) (h : Handler A S) (pc : Pc A) (rest : Rest A S)
      → (k : ℕ) × Moves (run_task k rest)
      → (k : ℕ) × Moves (run_task k (handler j c h pc rest))
  unfolding run_task
  behind j c h pc rest (k, m) = (suc k, Moves-map (handler j c h pc) (run_task k rest) m)

  handler-Status :
      (w j : Bool) (c : Channel A) (h : Handler A S) (pc : Pc A) (rest : Rest A S)
      → RestOk w (handler j c h pc rest)
      → Status (is_finished pc) rest
      → Status w (handler j c h pc rest)
  unfolding run_task handle pop_from
  handler-Status w j c h taking rest ok s = elim (pop_cases c w (contents c) ok.0) [
    | inl (e, gone, open_) ↦ inr (inl (gone, open_))
    | inr (inl (e, _, _)) ↦ inl (zero, rw e (handler j c h closing rest, refl))
    | inr (inr (x, ys, c', e, _, _)) ↦ inl (zero, rw e (handler j c' h (handling x) rest, refl))
  ]
  handler-Status w j c h (handling v) rest ok s = inl (zero, (_, refl))
  handler-Status w j c h (pushing v) rest ok s = elim (push_to-Moves rest v ok.3) [
    | inl m ↦ inl (zero, Moves-map (handler j c h taking) (push_to rest v) m)
    | inr full ↦ elim s [
      | inl m ↦ inl (behind j c h (pushing v) rest m)
      | inr (inl (gone, _)) ↦ absurd (full gone)
      | inr (inr f) ↦ absurd (let e = finished_closed false rest ok.3 f in cc)
    ]
  ]
  handler-Status w j c h closing rest ok s =
      inl
        (zero, Moves-map (handler j c h finished) (close_to rest) (close_to-Moves false rest ok.3))
  handler-Status w j c h finished rest ok s = elim s [
    | inl m ↦ inl (behind j c h finished rest m)
    | inr (inl (_, open_)) ↦ absurd cc
    | inr (inr f) ↦ inr (inr (refl, f))
  ]

  rest-Status : (w : Bool) (rest : Rest A S) → RestOk w rest → Status w rest
  rest-Status w (consumer j c pc log) ok = consumer-Status w j c pc log ok
  rest-Status w (handler j c h pc rest) ok =
      handler-Status w j c h pc rest ok (rest-Status (is_finished pc) rest ok.3)

  marked : (c : Rest A S) → Moves (close_to c) → Moves (attempt_map mark_joined (close_to c))
  marked c = Moves-map mark_joined (close_to c)

  -- With all tasks at an end, the loop of `RunPipelineImpl` goes on until it has joined them.
  join-Moves :
      (rest : Rest A S)
      → RestOk true rest
      → AllFinished rest
      → Moves (join true rest) ⊎ AllJoined rest
  unfolding join
  join-Moves (consumer false c pc log) ok f =
      inl (marked (consumer false c pc log) (close_to-Moves true (consumer false c pc log) ok))
  join-Moves (consumer true c pc log) ok f = inr refl
  join-Moves (handler false c h pc rest) ok f =
      inl (marked (handler false c h pc rest) (close_to-Moves true (handler false c h pc rest) ok))
  join-Moves (handler true c h finished rest) ok f = elim (join-Moves rest ok.3 f.1) [
    | inl m ↦ inl (Moves-map (handler true c h finished) (join true rest) m)
    | inr d ↦ inr (refl, d)
  ]
  join-Moves (handler true c h taking rest) ok f = absurd (let e = f.0 in cc)
  join-Moves (handler true c h closing rest) ok f = absurd (let e = f.0 in cc)
  join-Moves (handler true c h (handling v) rest) ok f = absurd (let e = f.0 in cc)
  join-Moves (handler true c h (pushing v) rest) ok f = absurd (let e = f.0 in cc)

  abbrev pub CanRun : Pipeline A S → Type 0
  CanRun p = (who : Actor) × Moves (step who p)

  task_runs : (p : Pipeline A S) → (k : ℕ) × Moves (run_task k p.rest) → CanRun p
  unfolding step
  task_runs p (k, m) = (task k, Moves-map (λ r. record p { rest = r }) (run_task k p.rest) m)

  produces : (p : Pipeline A S) → Moves (produce p.todo p.pc p.rest) → CanRun p
  unfolding step
  produces p m = (producer, m)

  waits_on : (p : Pipeline A S) → Moves (join (is_finished p.pc) p.rest) → CanRun p
  unfolding step
  waits_on p m = (waiter, Moves-map (λ r. record p { rest = r }) (join (is_finished p.pc) p.rest) m)

  progress_at :
      (vs : List A) (pc : Pc A) (rest : Rest A S)
      → IsOk (record { todo = vs; pc = pc; rest = rest })
      → CanRun (record { todo = vs; pc = pc; rest = rest })
        ⊎ IsComplete (record { todo = vs; pc = pc; rest = rest })
  unfolding produce
  progress_at [] taking rest ok = inl (produces _ (_, refl))
  progress_at (v ∷ vs) taking rest ok = inl (produces _ (_, refl))
  progress_at vs (handling v) rest ok = absurd ok.0
  progress_at vs closing rest ok =
      inl (produces _ (Moves-map _ (close_to rest) (close_to-Moves false rest ok.1)))
  progress_at vs (pushing v) rest ok = elim (push_to-Moves rest v ok.1) [
    | inl m ↦ inl (produces _ (Moves-map _ (push_to rest v) m))
    | inr full ↦ elim (rest-Status false rest ok.1) [
      | inl m ↦ inl (task_runs _ m)
      | inr (inl (gone, _)) ↦ absurd (full gone)
      | inr (inr f) ↦ absurd (let e = finished_closed false rest ok.1 f in cc)
    ]
  ]
  progress_at vs finished rest ok = elim (rest-Status true rest ok.1) [
    | inl m ↦ inl (task_runs _ m)
    | inr (inl (_, open_)) ↦ absurd cc
    | inr (inr f) ↦ elim (join-Moves rest ok.1 f) [
      | inl m ↦ inl (waits_on _ m)
      | inr d ↦ inr (refl, f, d)
    ]
  ]

-- In a well-formed pipeline some task or the waiting coroutine can run, or the pipeline is complete.
pub progress : {A S : Type 0} (p : Pipeline A S) → IsOk p → CanRun p ⊎ IsComplete p
progress p ok = progress_at p.todo p.pc p.rest ok
