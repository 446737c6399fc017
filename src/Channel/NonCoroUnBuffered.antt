-- ===== src/Channel/NonCoroUnBuffered.antt =====
-- NonCoroUnBufferedChannel (include/sync/channel.h), with the fields of its base class
-- NonCoroChannel. The list grows without a bound, so `Push` never waits.
pub mod Fifo
use columbo.Base.{
  ℕ, ◌-◌, Bool, true, false, ◌||◌, none, some, List, [], ◌∷◌, ◌++◌, ltb, ◌==◌, add_size,
  if◌then◌else◌,
}
use columbo.Channel.Queue.{
  Outcome, waits, aborts, returns, Done, Call, Reply, flag, value, amount, unit,
}

pub record Channel {ℓ} (A : Type ℓ) : Type ℓ where
  pub closed : Bool
  pub poisened : Bool
  pub size : ℕ
  pub buffer : List A

-- The outcome of a method.
abbrev pub Result {ℓ} : Type ℓ → Type ℓ
Result A = Outcome (Done (Channel A) (Reply A))

module _ {ℓ} {A : Type ℓ} where
  abbrev pub return : Channel A → Reply A → Bool → Result A
  return c r n = returns (record { chan = c; result = r; notified = n })

  unfoldable pub init : Channel A
  init = record { closed = false; poisened = false; size = 0; buffer = [] }

  unfoldable pub empty : Channel A → Result A
  empty c = return c (flag (c.size == 0)) false

  unfoldable pub get_size : Channel A → Result A
  get_size c = return c (amount c.size) false

  unfoldable pub close_channel : Channel A → Result A
  close_channel c = return (record c { closed = true }) unit true

  unfoldable pub poisen_channel : Channel A → Result A
  poisen_channel c = return (record c { poisened = true }) unit true

  unfoldable pub push : Channel A → A → Result A
  push c v =
      if c.closed || c.poisened
      then return c (flag false) true
      else return (record c { buffer = c.buffer ++ v ∷ []; size = add_size c.size 1 }) (flag true)
          true

  unfoldable pub try_push : Channel A → A → Result A
  unfolding push
  try_push c v = push c v

  -- `front`, `pop_front` and `--size_`, which runs only at `0 < size_`; the front of an empty list
  -- is no value.
  abbrev pub pop_front : Channel A → List A → Result A
  pop_front c [] = aborts
  pop_front c (x ∷ xs) = return (record c { buffer = xs; size = c.size - 1 }) (value (some x)) true

  unfoldable pub pop : Channel A → Result A
  pop c =
      if c.poisened || c.closed || ltb 0 c.size
      then if c.poisened
        then return c (value none) true
        else if c.size == 0
        then return c (value none) true
        else pop_front c c.buffer
      else waits

  unfoldable pub try_pop : Channel A → Result A
  try_pop c = if c.poisened || c.size == 0 then return c (value none) true else pop_front c c.buffer

  -- The predicate has a reference to the front of the list.
  abbrev pub offer : Channel A → (A → Bool × A) → List A → Result A
  offer c p [] = aborts
  offer c p (x ∷ xs) =
      let changed = (p x).1 ∷ xs in
      if (p x).0
      then pop_front (record c { buffer = changed }) changed
      else return (record c { buffer = changed }) (value none) false

  unfoldable pub try_pop_on_true : Channel A → (A → Bool × A) → Result A
  try_pop_on_true c p =
      if c.poisened || c.size == 0 then return c (value none) true else offer c p c.buffer

  -- The method that a call names.
  abbrev pub step : Channel A → Call ⊥ A → Result A
  step c (Call.push v) = push c v
  step c (Call.try_push v) = try_push c v
  step c Call.pop = pop c
  step c Call.try_pop = try_pop c
  step c (Call.try_pop_on_true p) = try_pop_on_true c p
  step c (Call.wait_till_value none_has) = absurd none_has
  step c Call.close = close_channel c
  step c Call.poisen = poisen_channel c
  step c Call.is_empty = empty c
  step c Call.get_size = get_size c
