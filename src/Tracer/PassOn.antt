-- ===== src/Tracer/PassOn.antt =====
-- How a trace goes on from one spanner to the next: the Tracer starts a span from the context that it got, and
-- CreatePassOnContext (include/analytics/context.h) makes the next context from that span.
use columbo.Base.{
  ℕ, ◌≡◌, refl, true, none, some, List, [], ◌∷◌, ◌++◌, get_elem?, length, inl, inr, Option-cases,
  add_size,
}
use columbo.Channel.Queue.{running}
use columbo.Span.{Event, Base}
use columbo.Tracer.{Span, TraceContext, Trace, find, get_trace, is_valid_id, get_valid_id}
use columbo.Tracer.Outcomes.{returns, ◌>>=◌, check}
use columbo.Tracer.Start.{
  World, Context, Expectation, AddToSpan, first_ts, create_pass_on_context, new_context,
  get_valid_trace_id, add_span, add_span_to_trace_if_trace_exists, create_span,
  register_create_context_parent, start_span_by_parent_internal,
  start_span_by_parent_pass_on_context, with_traces, put_trace,
}

get_elem?-last : {A : Type 0} (xs : List A) (x : A) → get_elem? (xs ++ x ∷ []) (length xs) ≡ some x
get_elem?-last [] x = refl
get_elem?-last (y ∷ ys) x = get_elem?-last ys x

-- With ids that are valid, and a span id that its trace does not have yet.
pub record IsReady (c : Context) (w : World) : Type 0 where
  pub trace : is_valid_id c.trace_id ≡ true
  pub parent : is_valid_id c.parent_id ≡ true
  pub id : is_valid_id w.next_span_id ≡ true
  pub fresh :
      (t : Trace) → get_trace w.tracer c.trace_id ≡ some t → find t.spans w.next_span_id ≡ none

abbrev new_span : Base → World → Span
new_span base w = record {
  id = w.next_span_id;
  base = base;
  context = some (length w.heap.contexts);
}

abbrev from_context : Context → World → TraceContext
from_context c w = record {
  trace_id = c.trace_id;
  id = w.next_trace_context_id;
  parent_id = c.parent_id;
  has_parent = true;
  parent_start_ts = c.parent_start_ts;
}

-- The world with the new span and its context, where the trace does not have it yet.
abbrev with_span : Context → Base → World → World
with_span c base w = record w {
  heap = record {
    spans = w.heap.spans ++ new_span base w ∷ [];
    contexts = w.heap.contexts ++ from_context c w ∷ [];
  };
  next_span_id = add_size w.next_span_id 1;
  next_trace_context_id = add_size w.next_trace_context_id 1;
}

started_from :
    (add : AddToSpan) (c : Context) (e : Event) (w : World)
    → IsReady c w
    → (add e).1 ≡ true
    → start_span_by_parent_pass_on_context add running (some c) (some e) w ≡ (
        add_span_to_trace_if_trace_exists c.trace_id (length w.heap.spans) (with_span c (add e).0 w)
        >>= λ w3. returns (length w.heap.spans, w3))
unfolding start_span_by_parent_pass_on_context start_span_by_parent_internal
    register_create_context_parent create_span
started_from add c e w ready added = rw (ready.trace, ready.parent, ◌>>=◌, check, added) refl

added_to_trace :
    (c : Context) (base : Base) (w : World)
    → IsReady c w
    → (w3 : World) × (add_span_to_trace_if_trace_exists c.trace_id
          (length w.heap.spans)
          (with_span c base w)
        ≡ returns w3)
      × (w3.heap ≡ (with_span c base w).heap)
unfolding add_span_to_trace_if_trace_exists add_span
added_to_trace c base w ready = elim (Option-cases (get_trace w.tracer c.trace_id)) [
  | inl missing ↦ (with_span c base w, rw (add_span_to_trace_if_trace_exists, missing) refl, refl)
  | inr (t, there) ↦ (
    with_traces (with_span c base w) (
        put_trace c.trace_id
          (record t { spans = t.spans ++ (w.next_span_id, length w.heap.spans) ∷ [] })
          w.tracer.traces),
    rw
        (
          add_span_to_trace_if_trace_exists,
          there,
          get_elem?-last w.heap.spans (new_span base w),
          ◌>>=◌,
          add_span,
          ready.fresh t there,
        )
        refl,
    refl,
  )
]

new_context_lem :
    (trace_id parent_id ts : ℕ) (exp : Expectation)
    → is_valid_id trace_id ≡ true
    → is_valid_id parent_id ≡ true
    → new_context trace_id exp parent_id ts
      ≡ returns (record {
        trace_id = trace_id;
        expectation = exp;
        parent_id = parent_id;
        parent_start_ts = ts;
      })
unfolding new_context
new_context_lem trace_id parent_id ts exp v v' = rw (new_context, v, ◌>>=◌, check, v') refl

context_of :
    (exp : Expectation) (c : Context) (base : Base) (w : World)
    → IsReady c w
    → create_pass_on_context exp (with_span c base w).heap (some (length w.heap.spans))
      ≡ returns (record {
        trace_id = c.trace_id;
        expectation = exp;
        parent_id = w.next_span_id;
        parent_start_ts = first_ts base.events;
      })
unfolding create_pass_on_context get_valid_trace_id get_valid_id new_context
context_of exp c base w ready =
    rw
      (
        get_elem?-last w.heap.spans (new_span base w),
        ◌>>=◌,
        get_elem?-last w.heap.contexts (from_context c w),
        ready.trace,
        ready.id,
      )
      (new_context_lem c.trace_id w.next_span_id (first_ts base.events) exp ready.trace ready.id)

-- A span that is started from a context whose ids are valid, with a first event that it takes, and an id that its
-- trace does not have yet: nothing ends the program, and the context that is made from the span has the trace of
-- the context that came, the id of the new span as that of the parent, and the time stamp of its first event.
pub pass_on :
    (exp : Expectation) (add : AddToSpan) (c : Context) (e : Event) (w : World)
    → IsReady c w
    → (add e).1 ≡ true
    → (start_span_by_parent_pass_on_context add running (some c) (some e) w >>= λ (p, w').
        create_pass_on_context exp w'.heap (some p))
      ≡ returns (record {
        trace_id = c.trace_id;
        expectation = exp;
        parent_id = w.next_span_id;
        parent_start_ts = first_ts (add e).0.events;
      })
pass_on exp add c e w ready added =
    let (w3, goes, same) = added_to_trace c (add e).0 w ready in
    rw (started_from add c e w ready added, goes, same) (context_of exp c (add e).0 w ready)
