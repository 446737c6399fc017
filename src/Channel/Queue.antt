-- ===== src/Channel/Queue.antt =====
-- What the channels of include/sync/channel.h promise their clients: a first-in first-out queue
-- with a bound, a closed flag and a poisened flag, and who has to be woken after each call.
-- A call runs under the channel's lock, so it is one atomic function of the state; a call whose
-- condition variable must wait leaves the state alone and is tried again.
use columbo.Base.{
  ℕ, Bool, true, false, ◌&&◌, ◌||◌, not, Option, none, some, List, [], ◌∷◌, ◌++◌, length, ltb,
  if◌then◌else◌,
}

-- `waits`: the predicate of the condition variable is false. `aborts`: an assert fails, or a slot
-- without a value is read. `throws`: `throw_if_empty` finds a null executor.
pub data Outcome {ℓ} (R : Type ℓ) : Type ℓ where
  waits aborts throws : Outcome R
  returns : R → Outcome R

-- The channel after a call, the call's result, and whether the call notified all waiters.
pub record Done {ℓ κ} (C : Type ℓ) (R : Type κ) : Type (ℓ ⊔ κ) where
  pub chan : C
  pub result : R
  pub notified : Bool

-- The calls of a client. The predicate of `try_pop_on_true` takes its value by reference, so it
-- returns the value as it leaves it. Only some classes have `wait_till_value`: `W` is the unit type for these, and
-- empty for the others.
pub data Call {ℓ} (W : Type 0) (A : Type ℓ) : Type ℓ where
  push try_push : A → Call W A
  pop try_pop : Call W A
  try_pop_on_true : (A → Bool × A) → Call W A
  close poisen is_empty get_size : Call W A
  wait_till_value : W → Call W A

pub data Reply {ℓ} (A : Type ℓ) : Type ℓ where
  flag : Bool → Reply A
  value : Option A → Reply A
  amount : ℕ → Reply A
  unit : Reply A

pub record Queue {ℓ} (A : Type ℓ) : Type ℓ where
  pub items : List A
  pub closed : Bool
  pub poisened : Bool

-- A channel without a bound has `none`.
abbrev pub has_room {ℓ} : {A : Type ℓ} → Option ℕ → List A → Bool
has_room none xs = true
has_room (some cap) xs = ltb (length xs) cap

-- How a channel treats what differs between the classes: its bound, whether a refused `TryPush`
-- notifies, and whether `TryPopOnTrue` shows the predicate the stored value or a copy.
pub record Kind : Type 0 where
  pub bound : Option ℕ
  pub notify_refused : Bool
  pub by_copy : Bool

module _ {ℓ} {A : Type ℓ} where
  abbrev ret : Queue A → Reply A → Bool → Outcome (Done (Queue A) (Reply A))
  ret q r n = returns (record { chan = q; result = r; notified = n })

  -- The first item of the list, for a queue that may be read.
  abbrev take_first : Queue A → List A → Outcome (Done (Queue A) (Reply A))
  take_first q [] = ret q (value none) true
  take_first q (x ∷ xs) = ret (record q { items = xs }) (value (some x)) true

  abbrev take_if : Bool → Queue A → List A → (A → Bool × A) → Outcome (Done (Queue A) (Reply A))
  take_if copy q [] p = ret q (value none) true
  take_if copy q (x ∷ xs) p =
      if (p x).0
      then ret (record q { items = xs }) (value (some (p x).1)) true
      else ret (record q { items = (if copy then x else (p x).1) ∷ xs }) (value none) false

  abbrev pub none_left : List A → Bool
  none_left [] = true
  none_left (x ∷ xs) = false

  -- The promised behaviour of each call.
  abbrev pub promised :
      {W : Type 0} → Kind → Queue A → Call W A → Outcome (Done (Queue A) (Reply A))
  promised k q (push x) =
      if q.closed || q.poisened
      then ret q (flag false) true
      else if has_room k.bound q.items
      then ret (record q { items = q.items ++ x ∷ [] }) (flag true) true
      else waits
  promised k q (try_push x) =
      if q.closed || q.poisened || not (has_room k.bound q.items)
      then ret q (flag false) k.notify_refused
      else ret (record q { items = q.items ++ x ∷ [] }) (flag true) true
  promised k q pop =
      if q.poisened
      then ret q (value none) true
      else if none_left q.items && not q.closed
      then waits
      else take_first q q.items
  promised k q try_pop = if q.poisened then ret q (value none) true else take_first q q.items
  promised k q (try_pop_on_true p) =
      if q.poisened then ret q (value none) true else take_if k.by_copy q q.items p
  promised k q (wait_till_value w) =
      if q.poisened
      then ret q (flag false) true
      else if none_left q.items && not q.closed
      then waits
      else ret q (flag (not (none_left q.items))) false
  promised k q close = ret (record q { closed = true }) unit true
  promised k q poisen = ret (record q { poisened = true }) unit true
  promised k q is_empty = ret q (flag (none_left q.items)) false
  promised k q get_size = ret q (amount (length q.items)) false

-- An outcome seen through a view of the channel's state.
abbrev pub seen {ℓ κ ν} :
    {C : Type ℓ} {D : Type κ} {R : Type ν} → (C → D) → Outcome (Done C R) → Outcome (Done D R)
seen view waits = waits
seen view aborts = aborts
seen view throws = throws
seen view (returns d) =
    returns (record { chan = view d.chan; result = d.result; notified = d.notified })

-- A property of the channel after a call that returns.
abbrev pub Ensures {ℓ κ ν} : {C : Type ℓ} {R : Type κ} → (C → Type ν) → Outcome (Done C R) → Type ν
Ensures P waits = Unit
Ensures P aborts = Unit
Ensures P throws = Unit
Ensures P (returns d) = P d.chan

-- The executor that a coroutine resumes on; only whether the pointer is null matters here.
pub data Executor : Type 0 where
  null running : Executor

-- `throw_if_empty` at the head of a method.
abbrev pub throw_if_empty {ℓ} : {R : Type ℓ} → Executor → Outcome R → Outcome R
throw_if_empty null o = throws
throw_if_empty running o = o

pub Ensures-map {ℓ κ ν μ} :
    {C : Type ℓ} {R : Type κ} {P : C → Type ν} {Q : C → Type μ}
    → ((c : C) → P c → Q c)
    → (o : Outcome (Done C R)) → Ensures P o
    → Ensures Q o
Ensures-map f waits e = tt
Ensures-map f aborts e = tt
Ensures-map f throws e = tt
Ensures-map f (returns d) e = f d.chan e
