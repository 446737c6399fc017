-- ===== src/Channel/CoroUnBounded/Fifo.antt =====
-- The methods of CoroUnBoundedChannel against the promised queue.
use columbo.Base.{
  ap, ◌≤◌, ◌≡◌, refl, ◌^◌, ◌+◌, ◌<◌, Bool, true, none, List, [], ◌∷◌, length, length-append, arith,
}
use columbo.Channel.Queue.{running, Queue, Kind, Call, promised, seen, Ensures}
use columbo.Channel.CoroUnBounded.{
  Channel, push, try_push, pop, try_pop, try_pop_on_true, step, empty, get_size, close_channel,
  poisen_channel,
}

abbrev pub kind : Kind
kind = record { bound = none; notify_refused = true; by_copy = true }

-- `size_` counts the list.
abbrev pub IsValid : {A : Type 0} → Channel A → Type 0
IsValid c = c.size ≡ length c.buffer

abbrev pub view : {A : Type 0} → Channel A → Queue A
view c = record { items = c.buffer; closed = c.closed; poisened = c.poisened }

module _ {A : Type 0} where
  pop_refines :
      (c : Channel A) (xs : List A)
      → c.buffer ≡ xs
      → IsValid c
      → seen view (pop running c) ≡ promised {W = ⊥} kind (view c) Call.pop
  unfolding pop
  pop_refines c [] e v = ground arith
  pop_refines c (x ∷ xs) e v = ground arith

  try_pop_refines :
      (c : Channel A) (xs : List A)
      → c.buffer ≡ xs
      → IsValid c
      → seen view (try_pop running c) ≡ promised {W = ⊥} kind (view c) Call.try_pop
  unfolding try_pop
  try_pop_refines c [] e v = ground arith
  try_pop_refines c (x ∷ xs) e v = ground arith

  try_pop_on_true_refines :
      (p : A → Bool × A) (c : Channel A) (xs : List A)
      → c.buffer ≡ xs
      → IsValid c
      → seen view (try_pop_on_true running c p)
        ≡ promised {W = ⊥} kind (view c) (Call.try_pop_on_true p)
  unfolding try_pop_on_true
  try_pop_on_true_refines p c [] e v = ground arith
  try_pop_on_true_refines p c (x ∷ xs) e v = ground arith

  -- Every method behaves as the promised queue of the list.
  pub step_refines :
      (c : Channel A) (call : Call ⊥ A)
      → IsValid c
      → seen view (step running c call) ≡ promised kind (view c) call
  unfolding push try_push empty get_size close_channel poisen_channel
  step_refines c (Call.push x) v = ground arith
  step_refines c (Call.try_push x) v = ground arith
  step_refines c Call.pop v = pop_refines c c.buffer refl v
  step_refines c Call.try_pop v = try_pop_refines c c.buffer refl v
  step_refines c (Call.try_pop_on_true p) v = try_pop_on_true_refines p c c.buffer refl v
  step_refines c (Call.wait_till_value none_has) v = absurd none_has
  step_refines c Call.close v = refl
  step_refines c Call.poisen v = refl
  step_refines c Call.is_empty v = ground arith
  step_refines c Call.get_size v = ground arith

  abbrev Keeps : Channel A → Channel A → Type 0
  Keeps c d = IsValid d × (length d.buffer ≤ length c.buffer + 1)

  pops-Keeps :
      (c : Channel A) (xs : List A)
      → c.buffer ≡ xs
      → IsValid c
      → (p : A → Bool × A)
      → Ensures (Keeps c) (pop running c)
        × Ensures (Keeps c) (try_pop running c)
        × Ensures (Keeps c) (try_pop_on_true running c p)
  unfolding pop try_pop try_pop_on_true
  pops-Keeps c [] e v p = ground (arith, ap length e)
  pops-Keeps c (x ∷ xs) e v p = ground (arith, ap length e)

  -- Every method keeps the count, as long as it does not wrap, and adds one value at most.
  pub step-Keeps :
      (c : Channel A) (call : Call ⊥ A)
      → IsValid c
      → length c.buffer + 1 < 2 ^ 64
      → Ensures (Keeps c) (step running c call)
  unfolding push try_push empty get_size close_channel poisen_channel
  step-Keeps c (Call.push x) v h = ground (arith, length-append c.buffer (x ∷ []))
  step-Keeps c (Call.try_push x) v h = ground (arith, length-append c.buffer (x ∷ []))
  step-Keeps c Call.pop v h = (pops-Keeps c c.buffer refl v (λ x. (true, x))).0
  step-Keeps c Call.try_pop v h = (pops-Keeps c c.buffer refl v (λ x. (true, x))).1
  step-Keeps c (Call.try_pop_on_true p) v h = (pops-Keeps c c.buffer refl v p).2
  step-Keeps c (Call.wait_till_value none_has) v h = absurd none_has
  step-Keeps c Call.close v h = (v, omega arith)
  step-Keeps c Call.poisen v h = (v, omega arith)
  step-Keeps c Call.is_empty v h = (v, omega arith)
  step-Keeps c Call.get_size v h = (v, omega arith)
