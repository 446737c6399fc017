-- ===== src/Pipeline/Tests.antt =====
-- Runs of a small pipeline: it doubles each number, and drops what is above 10.
use columbo.Base.{ℕ, suc, ◌+◌, ◌≡◌, refl, true, List, [], ◌∷◌, leb, ◌≤◌, ◌≢◌, ◌⊎◌, ◌++◌}
use columbo.Pipeline.{Handler, Pipeline, fails, Actor, producer, step, start, produce}
use columbo.Pipeline.{Pc}
use columbo.Pipeline.Log.{process, consumed}
use columbo.Pipeline.Progress.{CanRun, IsComplete}
use columbo.Pipeline.Termination.{steps_left}
use columbo.Pipeline.Run.{Runs, run_delivers, run_completes, consumed_prefix}

-- The state counts the values that the handler saw.
abbrev double : Handler ℕ ℕ
double = record { state = 0; handel = λ s x. (suc s, true, x + x) }

abbrev small : Handler ℕ ℕ
small = record { state = 0; handel = λ s x. (suc s, leb x 10, x) }

abbrev handlers : List (Handler ℕ ℕ)
handlers = double ∷ small ∷ []

abbrev values : List ℕ
values = 3 ∷ 7 ∷ 4 ∷ []

process-values : process handlers values ≡ 6 ∷ 8 ∷ []
process-values = refl

one_step :
    Runs
      (start values handlers)
      1
      (record (start values handlers) { todo = 7 ∷ 4 ∷ []; pc = Pc.pushing 3 })
unfolding start step produce
one_step = Runs.next producer Runs.here refl

run_delivers_example :
    let q = record (start values handlers) { todo = 7 ∷ 4 ∷ []; pc = Pc.pushing 3 } in
    (1 + steps_left q ≤ steps_left (start values handlers))
    × ((who : Actor) → step who q ≢ fails)
    × (CanRun q ⊎ (IsComplete q × (consumed q.rest ≡ process handlers values)))
run_delivers_example = run_delivers values handlers one_step

run_completes_example :
    let q = record (start values handlers) { todo = 7 ∷ 4 ∷ []; pc = Pc.pushing 3 } in
    (m : ℕ) × (r : Pipeline ℕ ℕ) × Runs q m r × IsComplete r × (consumed r.rest ≡ 6 ∷ 8 ∷ [])
run_completes_example = run_completes values handlers one_step

consumed_prefix_example : (ys : List ℕ) × (consumed (start values handlers).rest ++ ys ≡ 6 ∷ 8 ∷ [])
consumed_prefix_example = consumed_prefix values handlers one_step
