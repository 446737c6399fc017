-- ===== src/Channel/CoroBounded/Valid.antt =====
-- The methods of CoroBoundedChannel keep the representation invariant and the capacity.
use columbo.Base.{◌≡◌, Bool, arith, ltb, ltb→lt, Bool-cases, inl, inr}
use columbo.Channel.Queue.{running, Call, Ensures}
use columbo.Channel.Buffered.{Channel}
use columbo.Channel.Buffered.Storage.{
  IsValid, perform_write-Wrote, perform_read-Reads, first_slot, touched-IsValid, touched-Reads,
}
use columbo.Channel.CoroBounded.{
  push, try_push, pop, try_pop, try_pop_on_true, step, empty, get_size, close_channel,
  poisen_channel,
}

-- A valid channel of the same capacity.
abbrev pub Keeps : {A : Type 0} → Channel A → Channel A → Type 0
Keeps c d = IsValid d × (d.capacity ≡ c.capacity)

module _ {A : Type 0} (c : Channel A) (v : IsValid c) where
  push-Keeps : (x : A) → Ensures (Keeps c) (push running c x)
  unfolding push
  push-Keeps x = ground (arith, perform_write-Wrote c x v)

  try_push-Keeps : (x : A) → Ensures (Keeps c) (try_push running c x)
  unfolding try_push
  try_push-Keeps x = ground (arith, perform_write-Wrote c x v)

  pop-Keeps : Ensures (Keeps c) (pop running c)
  unfolding pop
  pop-Keeps = elim (Bool-cases (ltb 0 c.size)) [
    | inl h ↦
        let (x, e) = first_slot c v (ltb→lt _ _ h) in
        ground (arith, perform_read-Reads c x v (ltb→lt _ _ h) e)
    | inr h ↦ ground arith
  ]

  try_pop-Keeps : Ensures (Keeps c) (try_pop running c)
  unfolding try_pop
  try_pop-Keeps = elim (Bool-cases (ltb 0 c.size)) [
    | inl h ↦
        let (x, e) = first_slot c v (ltb→lt _ _ h) in
        ground (arith, perform_read-Reads c x v (ltb→lt _ _ h) e)
    | inr h ↦ ground arith
  ]

  try_pop_on_true-Keeps : (p : A → Bool × A) → Ensures (Keeps c) (try_pop_on_true running c p)
  unfolding try_pop_on_true
  try_pop_on_true-Keeps p = elim (Bool-cases (ltb 0 c.size)) [
    | inl h ↦
        let (x, e) = first_slot c v (ltb→lt _ _ h) in
        ground (
          arith,
          touched-IsValid c x (p x).1 v (ltb→lt _ _ h) e,
          touched-Reads c x (p x).1 v (ltb→lt _ _ h) e,
        )
    | inr h ↦ ground arith
  ]

  -- Every method keeps the invariant and the capacity.
  pub step-Keeps : (call : Call ⊥ A) → Ensures (Keeps c) (step running c call)
  unfolding empty get_size close_channel poisen_channel
  step-Keeps (Call.push x) = push-Keeps x
  step-Keeps (Call.try_push x) = try_push-Keeps x
  step-Keeps Call.pop = pop-Keeps
  step-Keeps Call.try_pop = try_pop-Keeps
  step-Keeps (Call.try_pop_on_true p) = try_pop_on_true-Keeps p
  step-Keeps (Call.wait_till_value none_has) = absurd none_has
  step-Keeps Call.close = ground arith
  step-Keeps Call.poisen = ground arith
  step-Keeps Call.is_empty = ground arith
  step-Keeps Call.get_size = ground arith
