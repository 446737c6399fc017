-- ===== src/Channel/CoroBounded.antt =====
-- CoroBoundedChannel (include/sync/channel.h), with the methods of its base class CoroChannel. The
-- methods are coroutines; each runs under the async lock, and first throws on a null executor.
-- `Empty` and `GetSize` have no such test of their own, and stand here for an executor that runs.
pub mod Fifo
pub mod Links
pub mod Valid
use columbo.Base.{
  Bool, true, false, ◌||◌, Option, none, some, get_or, set, ltb, leb, ◌==◌, if◌then◌else◌,
}
use columbo.Channel.Queue.{
  Outcome, waits, aborts, returns, Done, Executor, throw_if_empty, Call, Reply, flag, value, amount,
  unit,
}
use columbo.Channel.Buffered.{Channel, perform_write, perform_read}

-- The outcome of a method.
abbrev pub Result {ℓ} : Type ℓ → Type ℓ
Result A = Outcome (Done (Channel A) (Reply A))

module _ {ℓ} {A : Type ℓ} where
  abbrev pub return : Channel A → Reply A → Bool → Result A
  return c r n = returns (record { chan = c; result = r; notified = n })

  unfoldable pub empty : Channel A → Result A
  empty c = return c (flag (c.size == 0)) false

  unfoldable pub get_size : Channel A → Result A
  get_size c = return c (amount c.size) false

  unfoldable pub close_channel : Executor → Channel A → Result A
  close_channel resume c = throw_if_empty resume (return (record c { closed = true }) unit true)

  unfoldable pub poisen_channel : Executor → Channel A → Result A
  poisen_channel resume c = throw_if_empty resume (return (record c { poisened = true }) unit true)

  abbrev pub written : Option (Channel A) → Result A
  written none = aborts
  written (some c) = return c (flag true) true

  abbrev pub read : Option (A × Channel A) → Result A
  read none = aborts
  read (some (v, c)) = return c (value (some v)) true

  unfoldable pub push : Executor → Channel A → A → Result A
  push resume c v = throw_if_empty resume (
      if c.closed || c.poisened || ltb c.size c.capacity
      then if c.closed || c.poisened
        then return c (flag false) true
        else written (perform_write c v)
      else waits)

  unfoldable pub try_push : Executor → Channel A → A → Result A
  try_push resume c v = throw_if_empty resume (
      if c.closed || c.poisened || leb c.capacity c.size
      then return c (flag false) true
      else written (perform_write c v))

  unfoldable pub pop : Executor → Channel A → Result A
  pop resume c = throw_if_empty resume (
      if c.poisened || c.closed || ltb 0 c.size
      then if c.poisened
        then return c (value none) true
        else if c.size == 0
        then return c (value none) true
        else read (perform_read c)
      else waits)

  unfoldable pub try_pop : Executor → Channel A → Result A
  try_pop resume c = throw_if_empty resume (
      if c.poisened
      then return c (value none) true
      else if c.size == 0
      then return c (value none) true
      else read (perform_read c))

  -- The predicate has a reference to the stored value, so what it leaves there is what is read.
  abbrev pub offer : Channel A → (A → Bool × A) → Option A → Result A
  offer c p none = aborts
  offer c p (some v) =
      let c' = record c { buffer = set c.buffer c.read_index (some (p v).1) } in
      if (p v).0 then read (perform_read c') else return c' (value none) false

  unfoldable pub try_pop_on_true : Executor → Channel A → (A → Bool × A) → Result A
  try_pop_on_true resume c p = throw_if_empty resume (
      if c.poisened || c.size == 0
      then return c (value none) true
      else if ltb c.read_index c.capacity
      then offer c p (get_or c.buffer c.read_index none)
      else aborts)

  -- The method that a call names.
  abbrev pub step : Executor → Channel A → Call ⊥ A → Result A
  step e c (Call.push v) = push e c v
  step e c (Call.try_push v) = try_push e c v
  step e c Call.pop = pop e c
  step e c Call.try_pop = try_pop e c
  step e c (Call.try_pop_on_true p) = try_pop_on_true e c p
  step e c (Call.wait_till_value none_has) = absurd none_has
  step e c Call.close = close_channel e c
  step e c Call.poisen = poisen_channel e c
  step e c Call.is_empty = empty c
  step e c Call.get_size = get_size c
