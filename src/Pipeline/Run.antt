-- ===== src/Pipeline/Run.antt =====
-- Runs of a pipeline of include/sync/corobelt.h from its start, under any schedule.
use columbo.Base.{
  ℕ, zero, suc, ◌+◌, ◌≤◌, ◌<◌, ◌≡◌, ◌≢◌, refl, sym, ◌∙◌, ap, subst, Bool, true, false, List, [],
  ◌∷◌, ◌++◌, append-nil, ◌⊎◌, inl, inr, arith,
}
use columbo.Channel.Buffered.Storage.{contents}
use columbo.Channel.CoroBounded.Links.{init-IsLink}
use columbo.Pipeline.{
  Pc, taking, closing, finished, handling, pushing, Handler, Rest, consumer, handler, Pipeline,
  Attempt, fails, moves, step, Actor, chain, start,
}
use columbo.Pipeline.Log.{
  held, sending, outs, process, log_with, final_log, consumed, final_log-start,
}
use columbo.Pipeline.Ok.{After, RestOk, IsOk}
use columbo.Pipeline.Invariant.{step-IsOk}
use columbo.Pipeline.Progress.{CanRun, AllFinished, IsComplete, progress}
use columbo.Pipeline.Termination.{steps_left, step-steps_left}

module _ {A S : Type 0} where
  -- `n` steps from `p`, each by whoever the executor chooses.
  pub data Runs (p : Pipeline A S) : ℕ → Pipeline A S → Type 0 where
    here : Runs p zero p
    next :
        {n : ℕ} {q r : Pipeline A S} (who : Actor)
        → Runs p n q
        → step who q ≡ moves r
        → Runs p (suc n) r

  chain-RestOk : (hs : List (Handler A S)) → RestOk false (chain hs)
  unfolding chain
  chain-RestOk [] = (init-IsLink, tt, tt)
  chain-RestOk (h ∷ hs) = (init-IsLink, tt, tt, chain-RestOk hs)

  start-IsOk : (vs : List A) (hs : List (Handler A S)) → IsOk (start vs hs)
  unfolding start
  start-IsOk vs hs = (tt, chain-RestOk hs)

  moved :
      (P : Pipeline A S → Type 0) (a : Attempt (Pipeline A S)) {q : Pipeline A S}
      → After P a
      → a ≡ moves q
      → P q
  moved P a h e = subst (After P) e h

  record Reached (p : Pipeline A S) (n : ℕ) (q : Pipeline A S) : Type 0 where
    ok : IsOk q
    log : final_log q ≡ final_log p
    bound : n + steps_left q ≤ steps_left p

  Runs-Reached : {p q : Pipeline A S} {n : ℕ} → IsOk p → Runs p n q → Reached p n q
  Runs-Reached o here = record { ok = o; log = refl; bound = omega arith }
  Runs-Reached o (next {q = q} who r e) =
      let before = Runs-Reached o r in
      let (o', l) = moved _ (step who q) (step-IsOk who q before.ok) e in
      let fewer = moved _ (step who q) (step-steps_left who q before.ok) e in
      record { ok = o'; log = l ∙ before.log; bound = omega (arith, before.bound, fewer) }

  complete_log :
      (w : Bool) (rest : Rest A S)
      → RestOk w rest
      → AllFinished rest
      → log_with rest [] ≡ consumed rest
  complete_log w (consumer j c finished log) ok f =
      ap (λ t. log ++ (t ++ [])) ok.2.1 ∙ append-nil log
  complete_log w (consumer j c taking log) ok f = cc
  complete_log w (consumer j c closing log) ok f = cc
  complete_log w (consumer j c (handling v) log) ok f = cc
  complete_log w (consumer j c (pushing v) log) ok f = cc
  complete_log w (handler j c h finished rest) ok f =
      ap (λ t. log_with rest (outs h (t ++ []))) ok.2.1 ∙ complete_log true rest ok.3 f.1
  complete_log w (handler j c h taking rest) ok f = absurd (let e = f.0 in cc)
  complete_log w (handler j c h closing rest) ok f = absurd (let e = f.0 in cc)
  complete_log w (handler j c h (handling v) rest) ok f = absurd (let e = f.0 in cc)
  complete_log w (handler j c h (pushing v) rest) ok f = absurd (let e = f.0 in cc)

  final_at :
      (vs : List A) (pc : Pc A) (rest : Rest A S)
      → IsOk (record { todo = vs; pc = pc; rest = rest })
      → pc ≡ finished
      → AllFinished rest
      → log_with rest (sending pc ++ vs) ≡ consumed rest
  final_at vs finished rest (gone, ok) f all =
      ap (log_with rest) gone ∙ complete_log true rest ok all
  final_at vs taking rest ok f all = cc
  final_at vs closing rest ok f all = cc
  final_at vs (handling v) rest ok f all = cc
  final_at vs (pushing v) rest ok f all = cc

  complete_final : (p : Pipeline A S) → IsOk p → IsComplete p → final_log p ≡ consumed p.rest
  complete_final p ok (f, all, _) = final_at p.todo p.pc p.rest ok f all

  -- However the tasks take turns: a run of the pipeline ends after at most `steps_left` steps, no step
  -- of it fails, and until the pipeline is complete somebody can run. Once it is complete, the consumer
  -- has consumed what the handlers, one after the other, make of the produced values, in order.
  pub run_delivers :
      (vs : List A) (hs : List (Handler A S)) {n : ℕ} {q : Pipeline A S}
      → Runs (start vs hs) n q
      → (n + steps_left q ≤ steps_left (start vs hs))
        × ((who : Actor) → step who q ≢ fails)
        × (CanRun q ⊎ (IsComplete q × (consumed q.rest ≡ process hs vs)))
  run_delivers vs hs {q = q} r =
      let d = Runs-Reached (start-IsOk vs hs) r in
      (
        d.bound,
        λ who e. subst (After _) e (step-IsOk who q d.ok),
        elim (progress q d.ok) [
          | inl c ↦ inl c
          | inr c ↦ inr (c, sym (complete_final q d.ok c) ∙ d.log ∙ final_log-start vs hs)
        ],
      )

  completes_from :
      (fuel : ℕ) (vs : List A) (hs : List (Handler A S)) (n k : ℕ) (p q : Pipeline A S)
      → steps_left q < fuel
      → Runs (start vs hs) n q
      → Runs p k q
      → (m : ℕ) × (r : Pipeline A S) × Runs p m r × IsComplete r × (consumed r.rest ≡ process hs vs)
  completes_from zero vs hs n k p q h r on = absurd (omega arith)
  completes_from (suc fuel) vs hs n k p q h r on = elim (run_delivers vs hs r).2 [
    | inr (c, e) ↦ (k, q, on, c, e)
    | inl (who, (q', e)) ↦
        completes_from fuel vs hs (suc n) (suc k) p q'
          (let fewer =
              moved _ (step who q) (step-steps_left who q (Runs-Reached (start-IsOk vs hs) r).ok)
                e in
            omega (arith, fewer))
          (next who r e) (next who on e)
  ]

  -- From every state that a pipeline reaches, a run on from that state takes it to the end, with the handlers'
  -- output consumed.
  pub run_completes :
      (vs : List A) (hs : List (Handler A S)) {n : ℕ} {q : Pipeline A S}
      → Runs (start vs hs) n q
      → (m : ℕ) × (r : Pipeline A S) × Runs q m r × IsComplete r × (consumed r.rest ≡ process hs vs)
  run_completes vs hs {n} {q} r =
      completes_from (suc (steps_left q)) vs hs n 0 q q (omega arith) r here

  prefix_log :
      (rest : Rest A S) (xs : List A) → (ys : List A) × (consumed rest ++ ys ≡ log_with rest xs)
  prefix_log (consumer j c pc log) xs = (held pc ++ (contents c ++ xs), refl)
  prefix_log (handler j c h pc rest) xs =
      prefix_log rest (sending pc ++ outs h (held pc ++ (contents c ++ xs)))

  -- At every moment of a run the consumer has consumed a first part of the handlers' output.
  pub consumed_prefix :
      (vs : List A) (hs : List (Handler A S)) {n : ℕ} {q : Pipeline A S}
      → Runs (start vs hs) n q
      → (ys : List A) × (consumed q.rest ++ ys ≡ process hs vs)
  consumed_prefix vs hs {q = q} r =
      let d = Runs-Reached (start-IsOk vs hs) r in
      let (ys, e) = prefix_log q.rest (sending q.pc ++ q.todo) in
      (ys, e ∙ d.log ∙ final_log-start vs hs)
