-- ===== src/Tracer/Start.antt =====
-- The spans that the Tracer starts, and the parents that it gives them (include/analytics/tracer.h), with the contexts
-- that are passed on (include/analytics/context.h) and the ids of source/env/traceEnvironment.h.
use columbo.Base.{
  ℕ, ◌-◌, ◌^◌, Bool, true, false, Option, none, some, List, [], ◌∷◌, ◌++◌, ◌==◌, if◌then◌else◌,
  get_elem?, length, add_size,
}
use columbo.Channel.Queue.{Executor, null, running}
use columbo.Span.{Event, Base}
use columbo.Tracer.{
  TraceContext, Span, Heap, Trace, Tracer, is_valid_id, get_valid_id, find, get_trace,
}
use columbo.Tracer.Outcomes.{Result, returns, aborts, ◌>>=◌, ◌>>◌, check, deref}

-- The objects, the tracer, and the ids that come next.
pub record World : Type 0 where
  pub heap : Heap
  pub tracer : Tracer
  pub next_span_id : ℕ
  pub next_trace_id : ℕ
  pub next_trace_context_id : ℕ

abbrev pub resumes : Executor → Result (Unit {0})
resumes null = aborts
resumes running = returns tt

-- What Context (include/analytics/context.h) tells the span that it is passed on to.
pub data Expectation : Type 0 where
  tx rx dma msix mmio : Expectation

pub record Context : Type 0 where
  pub trace_id : ℕ
  pub expectation : Expectation
  pub parent_id : ℕ
  pub parent_start_ts : ℕ

unfoldable pub new_context : ℕ → Expectation → ℕ → ℕ → Result Context
new_context trace_id exp parent_id ts = do
  check (is_valid_id trace_id)
  check (is_valid_id parent_id)
  returns (record {
    trace_id = trace_id;
    expectation = exp;
    parent_id = parent_id;
    parent_start_ts = ts;
  })

abbrev pub invalid_ts : ℕ
invalid_ts = 2 ^ 64 - 1

-- `EventSpan::GetStartingTs`.
abbrev pub first_ts : List Event → ℕ
first_ts [] = invalid_ts
first_ts (e ∷ es) = e.timestamp

abbrev pub get_starting_ts : Span → ℕ
get_starting_ts s = first_ts s.base.events

-- `EventSpan::GetTraceId` of a span with this context, and `GetValidTraceId`.
abbrev pub get_trace_id : Heap → Option ℕ → Result ℕ
get_trace_id h none = returns 0
get_trace_id h (some p) = do c ← deref (get_elem? h.contexts p); returns c.trace_id

unfoldable pub get_valid_trace_id : Heap → Span → Result ℕ
get_valid_trace_id h s = do
  trace_id ← get_trace_id h s.context
  check (is_valid_id trace_id)
  returns trace_id

unfoldable pub create_pass_on_context : Expectation → Heap → Option ℕ → Result Context
unfolding get_valid_trace_id get_valid_id new_context
create_pass_on_context exp h parent_span = do
  p ← deref parent_span
  span ← deref (get_elem? h.spans p)
  trace_id ← get_valid_trace_id h span
  parent_id ← get_valid_id span
  new_context trace_id exp parent_id (get_starting_ts span)

-- `Trace::AddSpan`: the map takes no id twice.
unfoldable pub add_span : ℕ → ℕ → Trace → Result Trace
add_span span_id p t = elim (find t.spans span_id) [
  | none ↦ returns (record t { spans = t.spans ++ (span_id, p) ∷ [] })
  | some q ↦ aborts
]

abbrev pub put_trace : ℕ → Trace → List (ℕ × Trace) → List (ℕ × Trace)
put_trace k v [] = []
put_trace k v ((j, t) ∷ m) = if j == k then (j, v) ∷ m else (j, t) ∷ put_trace k v m

abbrev pub with_traces : World → List (ℕ × Trace) → World
with_traces w traces = record w { tracer = record w.tracer { traces = traces } }

unfoldable pub add_span_to_trace_if_trace_exists : ℕ → ℕ → World → Result World
unfolding add_span
add_span_to_trace_if_trace_exists trace_id p w = elim (get_trace w.tracer trace_id) [
  | none ↦ returns w
  | some trace ↦ do
    span ← deref (get_elem? w.heap.spans p)
    trace' ← add_span span.id p trace
    returns (with_traces w (put_trace trace_id trace' w.tracer.traces))
]

-- A new context; the pointer to it is its place.
abbrev pub new_trace_context : TraceContext → World → World
new_trace_context c w = record w { heap = record w.heap { contexts = w.heap.contexts ++ c ∷ [] } }

abbrev pub next_context : World → ℕ
next_context w = length w.heap.contexts

abbrev pub take_context_id : World → World
take_context_id w = record w { next_trace_context_id = add_size w.next_trace_context_id 1 }

unfoldable pub register_create_context_parent : ℕ → ℕ → ℕ → World → Result (ℕ × World)
register_create_context_parent trace_id parent_id ts w = do
  check (is_valid_id trace_id)
  check (is_valid_id parent_id)
  returns (
    next_context w,
    new_trace_context
        (record {
          trace_id = trace_id;
          id = w.next_trace_context_id;
          parent_id = parent_id;
          has_parent = true;
          parent_start_ts = ts;
        })
        (take_context_id w),
  )

abbrev pub context_without_parent : ℕ → ℕ → TraceContext
context_without_parent trace_id context_id = record {
  trace_id = trace_id;
  id = context_id;
  parent_id = 0;
  has_parent = false;
  parent_start_ts = invalid_ts;
}

unfoldable pub register_create_context : ℕ → World → ℕ × World
register_create_context trace_id w = (
  next_context w,
  new_trace_context (context_without_parent trace_id w.next_trace_context_id) (take_context_id w),
)

-- A new span of some type, with `added` what `AddToSpan` makes of it with the first event.
unfoldable pub create_span : Base × Bool → ℕ → World → Result (ℕ × World)
create_span added c w = do
  check added.1
  returns (
    length w.heap.spans,
    record w {
      heap = record w.heap {
        spans =
            w.heap.spans ++ (record { id = w.next_span_id; base = added.0; context = some c }) ∷ [];
      };
      next_span_id = add_size w.next_span_id 1;
    },
  )

unfoldable pub start_span_by_parent_internal : ℕ → ℕ → ℕ → Base × Bool → World → Result (ℕ × World)
unfolding register_create_context_parent create_span add_span_to_trace_if_trace_exists
start_span_by_parent_internal trace_id parent_id ts added w = do
  check (is_valid_id trace_id)
  check (is_valid_id parent_id)
  (c, w1) ← register_create_context_parent trace_id parent_id ts w
  (p, w2) ← create_span added c w1
  w3 ← add_span_to_trace_if_trace_exists trace_id p w2
  returns (p, w3)

-- The event that a span starts with, null or not, and what `AddToSpan` of a new span makes of it.
abbrev pub AddToSpan : Type 0
AddToSpan = Event → Base × Bool

unfoldable pub start_span_by_parent :
    AddToSpan → Executor → Option ℕ → Option Event → World → Result (ℕ × World)
unfolding start_span_by_parent_internal get_valid_trace_id get_valid_id
start_span_by_parent add executor parent_span starting_event w = do
  resumes executor
  event ← deref starting_event
  p ← deref parent_span
  parent ← deref (get_elem? w.heap.spans p)
  trace_id ← get_valid_trace_id w.heap parent
  parent_id ← get_valid_id parent
  start_span_by_parent_internal trace_id parent_id (get_starting_ts parent) (add event) w

unfoldable pub start_span_by_parent_pass_on_context :
    AddToSpan → Executor → Option Context → Option Event → World → Result (ℕ × World)
unfolding start_span_by_parent_internal
start_span_by_parent_pass_on_context add executor parent_context starting_event w = do
  resumes executor
  c ← deref parent_context
  event ← deref starting_event
  start_span_by_parent_internal c.trace_id c.parent_id c.parent_start_ts (add event) w

unfoldable pub new_trace : ℕ → ℕ → Heap → Result Trace
unfolding add_span
new_trace ident p h = do
  span ← deref (get_elem? h.spans p)
  add_span span.id p (record { ident = ident; parent_span = p; spans = [] })

unfoldable pub insert_trace : Trace → World → Result World
insert_trace trace w = elim (get_trace w.tracer trace.ident) [
  | none ↦ returns (with_traces w ((trace.ident, trace) ∷ w.tracer.traces))
  | some other ↦ aborts
]

-- `StartSpan`, with `StartSpanInternal`.
unfoldable pub start_span : AddToSpan → Executor → Option Event → World → Result (ℕ × World)
unfolding register_create_context create_span new_trace insert_trace
start_span add executor starting_event w = do
  resumes executor
  event ← deref starting_event
  let trace_id = w.next_trace_id
  let registered =
      register_create_context trace_id (record w { next_trace_id = add_size w.next_trace_id 1 })
  (p, w2) ← create_span (add event) registered.0 registered.1
  trace ← new_trace trace_id p w2.heap
  w3 ← insert_trace trace w2
  returns (p, w3)

unfoldable pub start_orphan_span : AddToSpan → Option Event → World → Result (ℕ × World)
unfolding create_span
start_orphan_span add starting_event w = do
  event ← deref starting_event
  create_span (add event) (next_context w) (new_trace_context (context_without_parent 0 0) w)

-- The copy constructor of a span, which gets an id of its own and shares the context.
unfoldable pub copy_span : ℕ → World → Result (ℕ × World)
copy_span p w = do
  other ← deref (get_elem? w.heap.spans p)
  returns (
    length w.heap.spans,
    record w {
      heap = record w.heap { spans = w.heap.spans ++ (record other { id = w.next_span_id }) ∷ [] };
      next_span_id = add_size w.next_span_id 1;
    },
  )
