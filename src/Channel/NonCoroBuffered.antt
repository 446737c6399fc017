-- ===== src/Channel/NonCoroBuffered.antt =====
-- NonCoroChannel and NonCoroBufferedChannel (include/sync/channel.h). A call that blocks on the
-- condition variable `waits`; any other runs to its end under the lock.
pub mod Fifo
pub mod Valid
use columbo.Base.{
  Bool, true, false, ◌||◌, Option, none, some, get_or, set, ltb, leb, ◌==◌, if◌then◌else◌,
}
use columbo.Channel.Queue.{
  Outcome, waits, aborts, returns, Done, Call, Reply, flag, value, amount, unit,
}
use columbo.Channel.Buffered.{Channel, perform_write, perform_read}

-- The outcome of a method.
abbrev pub Result {ℓ} : Type ℓ → Type ℓ
Result A = Outcome (Done (Channel A) (Reply A))

module _ {ℓ} {A : Type ℓ} where
  abbrev pub return : Channel A → Reply A → Bool → Result A
  return c r n = returns (record { chan = c; result = r; notified = n })

  unfoldable pub empty : Channel A → Result A
  empty c = return c (flag (c.size == 0)) false

  unfoldable pub get_size : Channel A → Result A
  get_size c = return c (amount c.size) false

  unfoldable pub close_channel : Channel A → Result A
  close_channel c = return (record c { closed = true }) unit true

  unfoldable pub poisen_channel : Channel A → Result A
  poisen_channel c = return (record c { poisened = true }) unit true

  abbrev pub written : Option (Channel A) → Result A
  written none = aborts
  written (some c) = return c (flag true) true

  abbrev pub read : Option (A × Channel A) → Result A
  read none = aborts
  read (some (v, c)) = return c (value (some v)) true

  unfoldable pub push : Channel A → A → Result A
  push c v =
      if c.closed || c.poisened || ltb c.size c.capacity
      then if c.closed || c.poisened
        then return c (flag false) true
        else written (perform_write c v)
      else waits

  -- A refusal does not notify.
  unfoldable pub try_push : Channel A → A → Result A
  try_push c v =
      if c.closed || c.poisened || leb c.capacity c.size
      then return c (flag false) false
      else written (perform_write c v)

  unfoldable pub pop : Channel A → Result A
  pop c =
      if c.poisened || c.closed || ltb 0 c.size
      then if c.poisened
        then return c (value none) true
        else if c.size == 0
        then return c (value none) true
        else read (perform_read c)
      else waits

  -- Whether a value can be read, once the wait is over.
  unfoldable pub wait_till_value : Channel A → Result A
  wait_till_value c =
      if c.poisened || c.closed || ltb 0 c.size
      then if c.poisened then return c (flag false) true else return c (flag (ltb 0 c.size)) false
      else waits

  unfoldable pub try_pop : Channel A → Result A
  try_pop c =
      if c.poisened || c.size == 0 then return c (value none) true else read (perform_read c)

  -- The predicate has a reference to the stored value, so what it leaves there is what is read.
  abbrev pub offer : Channel A → (A → Bool × A) → Option A → Result A
  offer c p none = aborts
  offer c p (some v) =
      let c' = record c { buffer = set c.buffer c.read_index (some (p v).1) } in
      if (p v).0 then read (perform_read c') else return c' (value none) false

  unfoldable pub try_pop_on_true : Channel A → (A → Bool × A) → Result A
  try_pop_on_true c p =
      if c.poisened || c.size == 0
      then return c (value none) true
      else if ltb c.read_index c.capacity
      then offer c p (get_or c.buffer c.read_index none)
      else aborts

  -- The method that a call names.
  abbrev pub step : Channel A → Call (Unit {0}) A → Result A
  step c (Call.push v) = push c v
  step c (Call.try_push v) = try_push c v
  step c Call.pop = pop c
  step c Call.try_pop = try_pop c
  step c (Call.try_pop_on_true p) = try_pop_on_true c p
  step c (Call.wait_till_value w) = wait_till_value c
  step c Call.close = close_channel c
  step c Call.poisen = poisen_channel c
  step c Call.is_empty = empty c
  step c Call.get_size = get_size c
