-- ===== src/Channel/Client.antt =====
-- A channel as a client of include/sync/channel.h sees it: any class that keeps the promised queue.
-- The client's calls come one after the other, in the order in which they get the lock.
pub mod Refine
pub mod Order
pub mod Wakeup
pub mod Shutdown
pub mod Instances
use columbo.Base.{ℕ, zero, suc, ◌≡◌, Bool, true, List, [], ◌∷◌, ◌++◌, Option, none, some}
use columbo.Channel.Queue.{
  Outcome, waits, aborts, throws, returns, Done, Call, Reply, Queue, Kind, promised, seen, Ensures,
}

-- A class of channels with its laws. `Fits n c`: the count of `c` does not wrap in `n` calls.
pub record Implements (W A : Type 0) : Type 1 where
  pub State : Type 0
  pub step : State → Call W A → Outcome (Done State (Reply A))
  pub kind : State → Kind
  pub view : State → Queue A
  pub IsValid : State → Type 0
  pub Fits : ℕ → State → Type 0
  pub refines :
      (c : State) (call : Call W A)
      → IsValid c
      → seen view (step c call) ≡ promised (kind c) (view c) call
  pub fits_fewer : (n : ℕ) (c : State) → Fits (suc n) c → Fits n c
  pub keeps :
      (n : ℕ) (c : State) (call : Call W A)
      → IsValid c
      → Fits (suc n) c
      → Ensures (λ d. IsValid d × Fits n d × (kind d ≡ kind c)) (step c call)

-- What a call came to: it is still blocked, or it has its reply. A failed assert or a null executor
-- ends the history.
pub data Event (W A : Type 0) : Type 0 where
  blocked : Call W A → Event W A
  replied : Call W A → Reply A → Event W A

pub record History (W A S : Type 0) : Type 0 where
  pub events : List (Event W A)
  pub last : S

-- One event before the rest of a history.
abbrev pub noted : {W A S : Type 0} → Event W A → Option (History W A S) → Option (History W A S)
noted e none = none
noted e (some h) = some (record { events = e ∷ h.events; last = h.last })

module _ {W A S : Type 0} where
  -- The rest of a history after a call, whose outcome is known, where `go` runs the rest.
  abbrev pub after :
      S
      → Call W A
      → (S → Option (History W A S))
      → Outcome (Done S (Reply A))
      → Option (History W A S)
  after c call go waits = noted (blocked call) (go c)
  after c call go aborts = none
  after c call go throws = none
  after c call go (returns d) = noted (replied call d.result) (go d.chan)

  -- A history of calls; `none` if one of them aborts or throws.
  unfoldable pub run :
      (S → Call W A → Outcome (Done S (Reply A))) → S → List (Call W A) → Option (History W A S)
  run step c [] = some (record { events = []; last = c })
  run step c (call ∷ calls) = after c call (λ d. run step d calls) (step c call)
