-- ===== src/Spanner.antt =====
-- Spanners (include/analytics/spanner.h, source/analytics/spanner.cpp) as programs: what a coroutine of a spanner does
-- until its next `co_await`, and how it goes on with the answer.
pub mod Nic
pub mod Network
pub mod Host
pub mod Fresh
pub mod Runs
pub mod Own
pub mod Keeps
pub mod Consume
pub mod Owns
pub mod Iterate
pub mod Once
pub mod System
mod Tests
use columbo.Base.{
  ℕ, Bool, true, false, not, Option, none, some, List, [], ◌∷◌, ◌++◌, if◌then◌else◌, get_elem?,
  length, add_size,
}
use columbo.Channel.Queue.{Executor, running}
use columbo.Span.{EventType, Event, Base, code, is_type}
use columbo.Tracer.{Span, Heap}
use columbo.Tracer.Outcomes.{Result, returns, aborts, exhausted, deref}
use columbo.Tracer.Start.{
  World, Context, Expectation, AddToSpan, create_pass_on_context, start_span_by_parent,
  start_span_by_parent_pass_on_context, start_span, copy_span,
}
use columbo.Tracer.Calls.{Call, mark_done, add_events}

-- The channels of contexts that a spanner holds; a NetworkSpanner has some by node and device.
pub data Queue : Type 0 where
  to_network from_network to_host from_host to_host_receives : Queue
  to_nic from_nic from_nic_receives : Queue
  to_host_at from_host_at : ℕ → ℕ → Queue

-- What makes a span: the tracer, or the copy of one that is there.
pub data Start : Type 0 where
  by_parent : AddToSpan → Executor → Option ℕ → Option Event → Start
  by_context : AddToSpan → Executor → Option Context → Option Event → Start
  first : AddToSpan → Executor → Option Event → Start
  copies : ℕ → Start

unfoldable pub begin : Start → World → Result (ℕ × World)
unfolding start_span_by_parent start_span_by_parent_pass_on_context start_span copy_span
begin (by_parent add executor p e) w = start_span_by_parent add executor p e w
begin (by_context add executor c e) w = start_span_by_parent_pass_on_context add executor c e w
begin (first add executor e) w = start_span add executor e w
begin (copies p) w = copy_span p w

-- `fails` is a failed assert or throw_on, which ends the program; `tries` is `TryPopOnTrue` of a channel. The other actions are `Pop` and `Push` of a channel,
-- the start of a span, a call of the tracer or `AddToSpan` of a span, and the reading of the shared objects.
pub data Prog (A : Type 0) : Type 0 where
  finish : A → Prog A
  fails : Prog A
  out_of_fuel : Prog A
  pops : Queue → (Option (Option Context) → Prog A) → Prog A
  pushes : Queue → Context → (Bool → Prog A) → Prog A
  starts : Start → (ℕ → Prog A) → Prog A
  calls : Call → Prog A → Prog A
  tries : Queue → (Context → Bool) → (Option Context → Prog A) → Prog A
  reads : (Heap → Prog A) → Prog A

infixl 5 ◌>>=◌ ◌>>◌
abbrev pub ◌>>=◌ : {A B : Type 0} → Prog A → (A → Prog B) → Prog B
finish a >>= f = f a
fails >>= f = fails
out_of_fuel >>= f = out_of_fuel
tries q test k >>= f = tries q test (λ c. k c >>= f)
pops q k >>= f = pops q (λ v. k v >>= f)
pushes q c k >>= f = pushes q c (λ b. k b >>= f)
starts s k >>= f = starts s (λ p. k p >>= f)
calls c k >>= f = calls c (k >>= f)
reads k >>= f = reads (λ h. k h >>= f)

abbrev pub ◌>>◌ : {B : Type 0} → Prog (Unit {0}) → Prog B → Prog B
m >> k = m >>= λ _. k

-- `assert`, `throw_on_false`.
abbrev pub needs : Bool → Prog (Unit {0})
needs true = finish tt
needs false = fails

abbrev pub when : Bool → Prog (Unit {0}) → Prog (Unit {0})
when b m = if b then m else finish tt

-- `throw_if_empty`, `OrElseThrow`.
abbrev pub unless_empty : {A : Type 0} → Option A → Prog A
unless_empty none = fails
unless_empty (some a) = finish a

-- What is computed from the shared objects in one go.
abbrev pub computed : {A : Type 0} → Result A → Prog A
computed (returns a) = finish a
computed aborts = fails
computed exhausted = fails

abbrev pub start_span_with : Start → Prog ℕ
start_span_with s = starts s finish

abbrev pub call : Call → Prog (Unit {0})
call c = calls c (finish tt)

abbrev pub pop : Queue → Prog (Option (Option Context))
pop q = pops q finish

unfoldable pub pop_propagate_context : Queue → Prog Context
pop_propagate_context from = do con_opt ← pop from; con ← unless_empty con_opt; unless_empty con

unfoldable pub push_propagate_context : Expectation → Queue → ℕ → Prog (Unit {0})
unfolding create_pass_on_context
push_propagate_context exp to parent = do
  context ← reads (λ h. computed (create_pass_on_context exp h (some parent)))
  could_push ← pushes to context finish
  needs could_push

-- `MarkSpanAsDone` of a span that is there, and what `AddToSpan` does to the span that others see.
abbrev pub mark_span : Executor → ℕ → Prog (Unit {0})
mark_span executor p = call (mark_done executor (some p))

abbrev pub change_base : ℕ → Base → Prog (Unit {0})
change_base p base = call (add_events p base)

-- A pending span: the pointer to it, and its own state.
module _ {S : Type 0} (add : S → Option Event → S × Bool) (base : S → Base) where
  -- `iterate_add_erase` on what the spanner holds: the list as it leaves it, and the span that took the event.
  unfoldable pub iterate_add_erase : List (ℕ × S) → Event → List (ℕ × S) × Option (ℕ × S)
  iterate_add_erase [] e = ([], none)
  iterate_add_erase ((p, s) ∷ pending) e =
      let rest = iterate_add_erase pending e in
      let (s', added) = add s (some e) in
      if added
      then (if (base s').is_pending then (p, s') ∷ pending else pending, some (p, s'))
      else ((p, s') ∷ rest.0, rest.1)

  unfoldable pub add_to_pending : List (ℕ × S) → Event → Prog (List (ℕ × S) × Option (ℕ × S))
  unfolding iterate_add_erase
  add_to_pending pending e =
      let (pending', taken) = iterate_add_erase pending e in
      elim taken [
        | none ↦ finish (pending', none)
        | some (p, s) ↦ do change_base p (base s); finish (pending', some (p, s))
      ]

  -- What `AddToSpan` makes of a new span with its first event.
  abbrev pub first_of : S → AddToSpan
  first_of new e = let (s, added) = add new (some e) in (base s, added)

  abbrev pub started : S → Event → S
  started new e = (add new (some e)).0

-- `Spanner::consume`, of one value and of all the values that a pipeline delivers; `handler` is the map of handlers.
module _ {S : Type 0} (handler : EventType → Option (S → Executor → Event → Prog (S × Bool))) where
  unfoldable pub consume : S → Executor → Option Event → Prog S
  consume n executor value = do
    e ← unless_empty value
    elim (handler e.type) [
      | none ↦ finish n
      | some handel ↦ do (n', added) ← handel n executor e; finish n'
    ]

  unfoldable pub consume_all : Executor → List (Option Event) → S → Prog S
  unfolding consume
  consume_all executor [] n = finish n
  consume_all executor (value ∷ values) n = do
    n' ← consume n executor value
    consume_all executor values n'
