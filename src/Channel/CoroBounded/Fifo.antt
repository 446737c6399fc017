-- ===== src/Channel/CoroBounded/Fifo.antt =====
-- The methods of CoroBoundedChannel against the promised queue.
use columbo.Base.{ℕ, ◌≡◌, refl, Bool, true, false, some, arith, ltb, ltb→lt, Bool-cases, inl, inr}
use columbo.Channel.Queue.{running, Kind, Call, promised, seen}
use columbo.Channel.Buffered.{Channel}
use columbo.Channel.Buffered.Storage.{
  IsValid, view, length-contents, perform_write-Wrote, perform_read-Reads, first_slot,
  contents-touched, touched-Reads,
}
use columbo.Channel.CoroBounded.{
  push, try_push, pop, try_pop, try_pop_on_true, step, empty, get_size, close_channel,
  poisen_channel,
}

abbrev pub kind : ℕ → Kind
kind capacity = record { bound = some capacity; notify_refused = true; by_copy = false }

module _ {A : Type 0} (c : Channel A) (v : IsValid c) where
  push_refines :
      (x : A)
      → seen view (push running c x) ≡ promised {W = ⊥} (kind c.capacity) (view c) (Call.push x)
  unfolding push
  push_refines x = ground (arith, length-contents v, perform_write-Wrote c x v)

  try_push_refines :
      (x : A)
      → seen view (try_push running c x)
        ≡ promised {W = ⊥} (kind c.capacity) (view c) (Call.try_push x)
  unfolding try_push
  try_push_refines x = ground (arith, length-contents v, perform_write-Wrote c x v)

  pop_refines : seen view (pop running c) ≡ promised {W = ⊥} (kind c.capacity) (view c) Call.pop
  unfolding pop
  pop_refines = elim (Bool-cases (ltb 0 c.size)) [
    | inl h ↦
        let (x, e) = first_slot c v (ltb→lt _ _ h) in
        ground (arith, length-contents v, perform_read-Reads c x v (ltb→lt _ _ h) e)
    | inr h ↦ ground (arith, length-contents v)
  ]

  try_pop_refines :
      seen view (try_pop running c) ≡ promised {W = ⊥} (kind c.capacity) (view c) Call.try_pop
  unfolding try_pop
  try_pop_refines = elim (Bool-cases (ltb 0 c.size)) [
    | inl h ↦
        let (x, e) = first_slot c v (ltb→lt _ _ h) in
        ground (arith, length-contents v, perform_read-Reads c x v (ltb→lt _ _ h) e)
    | inr h ↦ ground (arith, length-contents v)
  ]

  try_pop_on_true_refines :
      (p : A → Bool × A)
      → seen view (try_pop_on_true running c p)
        ≡ promised {W = ⊥} (kind c.capacity) (view c) (Call.try_pop_on_true p)
  unfolding try_pop_on_true
  try_pop_on_true_refines p = elim (Bool-cases (ltb 0 c.size)) [
    | inl h ↦
        let (x, e) = first_slot c v (ltb→lt _ _ h) in
        ground (
          arith,
          length-contents v,
          perform_read-Reads c x v (ltb→lt _ _ h) e,
          contents-touched c (p x).1 v (ltb→lt _ _ h),
          touched-Reads c x (p x).1 v (ltb→lt _ _ h) e,
        )
    | inr h ↦ ground (arith, length-contents v)
  ]

  -- Every method behaves as the promised queue of the values that the channel holds.
  pub step_refines :
      (call : Call ⊥ A) → seen view (step running c call) ≡ promised (kind c.capacity) (view c) call
  unfolding empty get_size close_channel poisen_channel
  step_refines (Call.push x) = push_refines x
  step_refines (Call.try_push x) = try_push_refines x
  step_refines Call.pop = pop_refines
  step_refines Call.try_pop = try_pop_refines
  step_refines (Call.try_pop_on_true p) = try_pop_on_true_refines p
  step_refines (Call.wait_till_value none_has) = absurd none_has
  step_refines Call.close = refl
  step_refines Call.poisen = refl
  step_refines Call.is_empty = ground (arith, length-contents v)
  step_refines Call.get_size = ground (arith, length-contents v)
