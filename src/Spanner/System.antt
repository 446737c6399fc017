-- ===== src/Spanner/System.antt =====
-- Spanners beside each other (trace.cc starts one for each simulator), with one tracer that all of them use.
pub mod Shares
pub mod SystemOnce
use columbo.Base.{ℕ, ◌≡◌, ◌++◌, Bool, Option, none, some, List, [], ◌∷◌, get_elem?, set}
use columbo.Channel.Queue.{Executor}
use columbo.Span.{EventType, Event}
use columbo.Span.Call.{TraceEnvironment}
use columbo.Tracer.Start.{World}
use columbo.Spanner.{Prog, finish, ◌>>=◌, consume_all}
use columbo.Spanner.Nic.{new_nic_spanner, handler}
use columbo.Spanner.Host.{new_host_spanner}
use columbo.Spanner.Host.Interrupts.{host_handler}
use columbo.Spanner.Network.{new_network_spanner, network_handler}
use columbo.Spanner.Runs.{Acts}

-- A spanner of the system, with what its pipeline delivers.
pub data Part : Type 0 where
  nic : Executor → List (Option Event) → Part
  host : TraceEnvironment → List ℕ → ℕ → Executor → List (Option Event) → Part
  network : List (ℕ × ℕ) → List (ℕ × ℕ) → List (ℕ × ℕ) → Executor → List (Option Event) → Part

abbrev pub program : Part → Prog (Unit {0})
program (nic executor values) =
    consume_all handler executor values new_nic_spanner >>= λ n. finish tt
program (host env pci_write_indicators fuel executor values) =
    consume_all (host_handler env pci_write_indicators fuel) executor values new_host_spanner
    >>= λ n. finish tt
program (network from_host to_host filter executor values) =
    consume_all network_handler executor values (new_network_spanner from_host to_host filter)
    >>= λ n. finish tt

abbrev pub programs : List Part → List (Prog (Unit {0}))
programs [] = []
programs (part ∷ parts) = program part ∷ programs parts

-- What the spanners marked as done so far, in this order; any of them may act next.
pub data SystemRuns : List (Prog (Unit {0})) → World → List ℕ → Type 0 where
  so_far : {ms : List (Prog (Unit {0}))} {w : World} → SystemRuns ms w []
  turn :
      {ms : List (Prog (Unit {0}))} {w w' : World} {news marks marks' : List ℕ} (i : ℕ)
      (m m' : Prog (Unit {0}))
      → get_elem? ms i ≡ some m
      → Acts m w news marks m' w'
      → SystemRuns (set ms i m') w' marks'
      → SystemRuns ms w (marks ++ marks')
