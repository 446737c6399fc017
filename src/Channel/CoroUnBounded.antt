-- ===== src/Channel/CoroUnBounded.antt =====
-- CoroUnBoundedChannel (include/sync/channel.h), with the methods of its base class CoroChannel. Each
-- method runs under the async lock, and first throws on a null executor, as in `CoroBounded`.
pub mod Fifo
use columbo.Base.{
  ℕ, ◌-◌, Bool, true, false, ◌||◌, none, some, List, [], ◌∷◌, ◌++◌, ltb, ◌==◌, add_size,
  if◌then◌else◌,
}
use columbo.Channel.Queue.{
  Outcome, waits, aborts, returns, Done, Executor, throw_if_empty, Call, Reply, flag, value, amount,
  unit,
}

pub record Channel {ℓ} (A : Type ℓ) : Type ℓ where
  pub closed : Bool
  pub poisened : Bool
  pub size : ℕ
  pub buffer : List A

-- The outcome of a method.
abbrev pub Result {ℓ} : Type ℓ → Type ℓ
Result A = Outcome (Done (Channel A) (Reply A))

module _ {ℓ} {A : Type ℓ} where
  abbrev pub return : Channel A → Reply A → Bool → Result A
  return c r n = returns (record { chan = c; result = r; notified = n })

  unfoldable pub init : Channel A
  init = record { closed = false; poisened = false; size = 0; buffer = [] }

  unfoldable pub empty : Channel A → Result A
  empty c = return c (flag (c.size == 0)) false

  unfoldable pub get_size : Channel A → Result A
  get_size c = return c (amount c.size) false

  unfoldable pub close_channel : Executor → Channel A → Result A
  close_channel resume c = throw_if_empty resume (return (record c { closed = true }) unit true)

  unfoldable pub poisen_channel : Executor → Channel A → Result A
  poisen_channel resume c = throw_if_empty resume (return (record c { poisened = true }) unit true)

  unfoldable pub push : Executor → Channel A → A → Result A
  push resume c v = throw_if_empty resume (
      if c.closed || c.poisened
      then return c (flag false) true
      else return (record c { buffer = c.buffer ++ v ∷ []; size = add_size c.size 1 }) (flag true)
          true)

  unfoldable pub try_push : Executor → Channel A → A → Result A
  unfolding push
  try_push resume c v = throw_if_empty resume (push resume c v)

  -- `front`, `pop_front` and `--size_`, which runs only at `0 < size_`; the front of an empty list
  -- is no value.
  abbrev pub pop_front : Channel A → List A → Result A
  pop_front c [] = aborts
  pop_front c (x ∷ xs) = return (record c { buffer = xs; size = c.size - 1 }) (value (some x)) true

  unfoldable pub pop : Executor → Channel A → Result A
  pop resume c = throw_if_empty resume (
      if c.poisened || c.closed || ltb 0 c.size
      then if c.poisened
        then return c (value none) true
        else if c.size == 0
        then return c (value none) true
        else pop_front c c.buffer
      else waits)

  unfoldable pub try_pop : Executor → Channel A → Result A
  try_pop resume c =
      throw_if_empty resume
        (if c.poisened || c.size == 0 then return c (value none) true else pop_front c c.buffer)

  -- The predicate has a copy of the front of the list. The copy is what is returned, as the
  -- predicate leaves it.
  abbrev pub offer : Channel A → (A → Bool × A) → List A → Result A
  offer c p [] = aborts
  offer c p (x ∷ xs) =
      if (p x).0
      then return (record c { buffer = xs; size = c.size - 1 }) (value (some (p x).1)) true
      else return c (value none) false

  unfoldable pub try_pop_on_true : Executor → Channel A → (A → Bool × A) → Result A
  try_pop_on_true resume c p =
      throw_if_empty resume
        (if c.poisened || c.size == 0 then return c (value none) true else offer c p c.buffer)

  -- The method that a call names.
  abbrev pub step : Executor → Channel A → Call ⊥ A → Result A
  step e c (Call.push v) = push e c v
  step e c (Call.try_push v) = try_push e c v
  step e c Call.pop = pop e c
  step e c Call.try_pop = try_pop e c
  step e c (Call.try_pop_on_true p) = try_pop_on_true e c p
  step e c (Call.wait_till_value none_has) = absurd none_has
  step e c Call.close = close_channel e c
  step e c Call.poisen = poisen_channel e c
  step e c Call.is_empty = empty c
  step e c Call.get_size = get_size c
