-- ===== src/Tracer/Parent.antt =====
-- The Tracer gives a span its parent later on: StartSpanSetParentContext and AddParentLazily
-- (include/analytics/tracer.h), SetContext (source/analytics/span.cpp).
use columbo.Base.{
  ℕ, Bool, true, false, ◌&&◌, not, Option, none, some, List, [], ◌∷◌, ◌==◌, ltb, if◌then◌else◌,
  get_elem?, set,
}
use columbo.Channel.Queue.{Executor}
use columbo.Tracer.{Span, Heap, is_valid_id, context_has_parent, get_trace, remove_trace}
use columbo.Tracer.Outcomes.{Result, returns, ◌>>=◌, ◌>>◌, check, deref}
use columbo.Tracer.Start.{
  World, resumes, Context, get_starting_ts, put_trace, with_traces,
  add_span_to_trace_if_trace_exists, register_create_context_parent,
}

abbrev pub is_there : Option ℕ → Bool
is_there none = false
is_there (some p) = true

abbrev pub with_context : ℕ → Span → ℕ → Heap → Heap
with_context p s c h = record h { spans = set h.spans p (record s { context = some c }) }

-- The context is set where it has a parent that started no later than the span.
unfoldable pub set_context : ℕ → Option ℕ → Bool → Heap → Result (Bool × Heap)
unfolding context_has_parent
set_context p trace_context override_existing h = do
  s ← deref (get_elem? h.spans p)
  if not override_existing && is_there s.context then returns (false, h) else do
    c ← deref trace_context
    context ← deref (get_elem? h.contexts c)
    parent ← context_has_parent context
    if not parent then returns (false, h) else do
      check (is_valid_id context.parent_id)
      returns (
          if ltb (get_starting_ts s) context.parent_start_ts
          then (false, h)
          else (true, with_context p s c h))

unfoldable pub start_span_set_parent_context : Executor → ℕ → Option Context → World → Result World
unfolding register_create_context_parent set_context add_span_to_trace_if_trace_exists
start_span_set_parent_context executor p parent_context w = do
  resumes executor
  context ← deref parent_context
  (c, w1) ←
      register_create_context_parent context.trace_id context.parent_id context.parent_start_ts w
  (could_set, h) ← set_context p (some c) true w1.heap
  check could_set
  add_span_to_trace_if_trace_exists context.trace_id p (record w1 { heap = h })

-- `SetTraceId`, and `SetParentIdAndTs`.
unfoldable pub set_trace_id : ℕ → ℕ → Heap → Result Heap
set_trace_id c new_id h = do
  context ← deref (get_elem? h.contexts c)
  returns (record h { contexts = set h.contexts c (record context { trace_id = new_id }) })

unfoldable pub set_parent_id_and_ts : ℕ → ℕ → ℕ → Heap → Result Heap
set_parent_id_and_ts c parent_id ts h = do
  context ← deref (get_elem? h.contexts c)
  check (is_valid_id parent_id)
  returns (record h {
    contexts =
        set h.contexts c
          (record context { parent_id = parent_id; has_parent = true; parent_start_ts = ts });
  })

-- `iter->GetContext()->SetTraceId(new_trace_id)`.
unfoldable pub move_to_trace : ℕ → ℕ → World → Result World
unfolding set_trace_id
move_to_trace p new_trace_id w = do
  span ← deref (get_elem? w.heap.spans p)
  c ← deref span.context
  h ← set_trace_id c new_trace_id w.heap
  returns (record w { heap = h })

-- The loop over the spans that were in the old trace, but for the span itself.
unfoldable pub move_children : ℕ → ℕ → List (ℕ × ℕ) → World → Result World
unfolding move_to_trace add_span_to_trace_if_trace_exists
move_children root new_trace_id [] w = returns w
move_children root new_trace_id ((span_id, p) ∷ children) w =
    let moved = do
      w1 ← move_to_trace p new_trace_id w
      w2 ← add_span_to_trace_if_trace_exists new_trace_id p w1
      move_children root new_trace_id children w2
    in let skipped = move_children root new_trace_id children w in
      if span_id == root then skipped else moved

-- `GetSpansAndRemoveSpans` of the trace that a pointer of the map names: every span, by its own id.
unfoldable pub get_spans_and_remove_spans : ℕ → World → Result (List (ℕ × ℕ) × World)
get_spans_and_remove_spans trace_id w = do
  trace ← deref (get_trace w.tracer trace_id)
  returns (
    trace.spans,
    with_traces w (put_trace trace_id (record trace { spans = [] }) w.tracer.traces),
  )

unfoldable pub add_parent_lazily : Executor → Option ℕ → Option Context → World → Result World
unfolding set_trace_id set_parent_id_and_ts add_span_to_trace_if_trace_exists
    get_spans_and_remove_spans move_children remove_trace
add_parent_lazily executor span_ptr parent_context w = do
  resumes executor
  p ← deref span_ptr
  parent ← deref parent_context
  span ← deref (get_elem? w.heap.spans p)
  c ← deref span.context
  old_context ← deref (get_elem? w.heap.contexts c)
  old_trace ← deref (get_trace w.tracer old_context.trace_id)
  h1 ← set_trace_id c parent.trace_id w.heap
  h2 ← set_parent_id_and_ts c parent.parent_id parent.parent_start_ts h1
  w1 ← add_span_to_trace_if_trace_exists parent.trace_id p (record w { heap = h2 })
  (children, w2) ← get_spans_and_remove_spans old_context.trace_id w1
  w3 ← move_children span.id parent.trace_id children w2
  tracer ← remove_trace old_trace.ident w3.tracer
  returns (record w3 { tracer = tracer })
