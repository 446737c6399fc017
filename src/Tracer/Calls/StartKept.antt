-- ===== src/Tracer/Calls/StartKept.antt =====
-- Starting a span exports nothing.
use columbo.Base.{
  ℕ, refl, Bool, Option, none, some, [], ◌∷◌, get_elem?, inl, inr, Option-cases, add_size,
}
use columbo.Channel.Queue.{Executor, null, running}
use columbo.Span.{Event, Base}
use columbo.Tracer.{TraceContext, Span, Heap, Trace, find, get_valid_id, is_valid_id}
use columbo.Tracer.Outcomes.{
  Result, returns, ◌>>=◌, ◌>>◌, Ends, Ends->>=, Ends-check, Ends-deref, Ends-map, IsFinite,
}
use columbo.Tracer.Start.{
  World, resumes, Context, add_span_to_trace_if_trace_exists, new_trace_context, create_span,
  get_trace_id, get_valid_trace_id, register_create_context_parent, register_create_context,
  context_without_parent, next_context, start_span_by_parent_internal, start_span_by_parent,
  start_span_by_parent_pass_on_context, start_span, new_trace, insert_trace, start_orphan_span,
  AddToSpan, get_starting_ts,
}
use columbo.Tracer.Calls.Kept.{
  Kept, KeptWith, KeepsIds-refl, Kept-trans, with_traces-Kept, add_span-IsFinite, create_span-Kept,
  add_span_to_trace_if_trace_exists-Kept,
}

-- Any state with the same tracer and the same spans.
pub new_trace_context-Kept : (c : TraceContext) (w : World) → Kept w (new_trace_context c w)
new_trace_context-Kept c w = record {
  exported = refl;
  waiting = refl;
  exporter = refl;
  ids = KeepsIds-refl w.heap.spans;
}

pub register_create_context_parent-Kept :
    (k i ts : ℕ) (w : World) → Ends (KeptWith w) (register_create_context_parent k i ts w)
unfolding register_create_context_parent
register_create_context_parent-Kept k i ts w = Ends-check (KeptWith w) (is_valid_id k) _ (λ v.
    Ends-check (KeptWith w) (is_valid_id i) _ (λ v'. record {
      exported = refl;
      waiting = refl;
      exporter = refl;
      ids = KeepsIds-refl w.heap.spans;
    }))

pub resumes-IsFinite : (executor : Executor) → IsFinite (resumes executor)
resumes-IsFinite null = tt
resumes-IsFinite running = tt

internal-Kept :
    (k i ts : ℕ) (added : Base × Bool) (w : World)
    → Ends (KeptWith w) (start_span_by_parent_internal k i ts added w)
unfolding start_span_by_parent_internal
internal-Kept k i ts added w = Ends-check (KeptWith w) (is_valid_id k) _ (λ v.
    Ends-check (KeptWith w) (is_valid_id i) _ (λ v'.
      Ends->>= (KeptWith w) (KeptWith w) (register_create_context_parent k i ts w) _
        (register_create_context_parent-Kept k i ts w)
        (λ (c, w1) a.
          Ends->>= (KeptWith w1) (KeptWith w) (create_span added c w1) _
            (create_span-Kept added c w1)
            (λ (p, w2) b.
              Ends->>= (Kept w2) (KeptWith w) (add_span_to_trace_if_trace_exists k p w2) _
                (add_span_to_trace_if_trace_exists-Kept k p w2)
                (λ w3 d. Kept-trans w w1 w3 a (Kept-trans w1 w2 w3 b d))))))

get_trace_id-IsFinite : (h : Heap) (o : Option ℕ) → IsFinite (get_trace_id h o)
get_trace_id-IsFinite h none = tt
get_trace_id-IsFinite h (some p) = Ends-deref (λ k. Unit {0}) (get_elem? h.contexts p) _ (λ c e. tt)

pub get_valid_trace_id-IsFinite : (h : Heap) (s : Span) → IsFinite (get_valid_trace_id h s)
unfolding get_valid_trace_id
get_valid_trace_id-IsFinite h s =
    Ends->>= (λ k. Unit {0}) (λ k. Unit {0}) (get_trace_id h s.context) _
      (get_trace_id-IsFinite h s.context)
      (λ k u. Ends-check (λ (j : ℕ). Unit {0}) (is_valid_id k) (returns k) (λ v. tt))

pub get_valid_id-IsFinite : (s : Span) → IsFinite (get_valid_id s)
unfolding get_valid_id
get_valid_id-IsFinite s =
    Ends-check (λ (j : ℕ). Unit {0}) (is_valid_id s.id) (returns s.id) (λ v. tt)

-- Behind the test of the executor.
pub resumed :
    {A : Type 0} (P : A → Type 0) (executor : Executor) (m : Result A)
    → Ends P m
    → Ends P (resumes executor >> m)
resumed P null m k = tt
resumed P running m k = k

pub start_span_by_parent-Kept :
    (add : AddToSpan) (executor : Executor) (parent : Option ℕ) (e : Option Event) (w : World)
    → Ends (KeptWith w) (start_span_by_parent add executor parent e w)
unfolding start_span_by_parent
start_span_by_parent-Kept add executor parent e w = resumed (KeptWith w) executor _ (
    Ends-deref (KeptWith w) e _ (λ event ee. Ends-deref (KeptWith w) parent _ (λ p ep.
      Ends-deref (KeptWith w) (get_elem? w.heap.spans p) _ (λ s es.
        Ends->>= (λ k. Unit {0}) (KeptWith w) (get_valid_trace_id w.heap s) _
          (get_valid_trace_id-IsFinite w.heap s)
          (λ k u.
            Ends->>= (λ i. Unit {0}) (KeptWith w) (get_valid_id s) _ (get_valid_id-IsFinite s)
              (λ i u'. internal-Kept k i (get_starting_ts s) (add event) w))))))

pub start_by_context-Kept :
    (add : AddToSpan) (executor : Executor) (context : Option Context) (e : Option Event)
    (w : World)
    → Ends (KeptWith w) (start_span_by_parent_pass_on_context add executor context e w)
unfolding start_span_by_parent_pass_on_context
start_by_context-Kept add executor context e w = resumed (KeptWith w) executor _ (
    Ends-deref (KeptWith w) context _ (λ c ec.
      Ends-deref (KeptWith w) e _
        (λ event ee. internal-Kept c.trace_id c.parent_id c.parent_start_ts (add event) w)))

pub new_trace-IsFinite : (k p : ℕ) (h : Heap) → IsFinite (new_trace k p h)
unfolding new_trace
new_trace-IsFinite k p h =
    Ends-deref (λ t. Unit {0}) (get_elem? h.spans p) _
      (λ s e. add_span-IsFinite s.id p (record { ident = k; parent_span = p; spans = [] }))

pub insert_trace-Kept : (trace : Trace) (w : World) → Ends (Kept w) (insert_trace trace w)
unfolding insert_trace
insert_trace-Kept trace w = elim (Option-cases (find w.tracer.traces trace.ident)) [
  | inl n ↦ rw (n, Ends, ◌>>=◌) (with_traces-Kept w ((trace.ident, trace) ∷ w.tracer.traces))
  | inr (other, f) ↦ rw (f, Ends, ◌>>=◌) tt
]

abbrev pub registered_world : World → ℕ → World
unfolding register_create_context
registered_world w k =
    (register_create_context k (record w { next_trace_id = add_size w.next_trace_id 1 })).1

registered_world-Kept : (w : World) (k : ℕ) → Kept w (registered_world w k)
unfolding register_create_context
registered_world-Kept w k = record {
  exported = refl;
  waiting = refl;
  exporter = refl;
  ids = KeepsIds-refl w.heap.spans;
}

pub start_span-Kept :
    (add : AddToSpan) (executor : Executor) (e : Option Event) (w : World)
    → Ends (KeptWith w) (start_span add executor e w)
unfolding start_span
start_span-Kept add executor e w = resumed (KeptWith w) executor _ (
    Ends-deref (KeptWith w) e _ (λ event ee.
      let w1 = registered_world w w.next_trace_id in
      Ends->>= (KeptWith w1) (KeptWith w) (create_span (add event) _ w1) _
        (create_span-Kept (add event) _ w1)
        (λ (p, w2) b.
          Ends->>= (λ t. Unit {0}) (KeptWith w) (new_trace w.next_trace_id p w2.heap) _
            (new_trace-IsFinite w.next_trace_id p w2.heap)
            (λ trace u.
              Ends->>= (Kept w2) (KeptWith w) (insert_trace trace w2) _ (insert_trace-Kept trace w2)
                (λ w3 d.
                  Kept-trans w w1 w3 (registered_world-Kept w w.next_trace_id)
                    (Kept-trans w1 w2 w3 b d))))))

pub start_orphan_span-Kept :
    (add : AddToSpan) (e : Option Event) (w : World) → Ends (KeptWith w) (start_orphan_span add e w)
unfolding start_orphan_span
start_orphan_span-Kept add e w = Ends-deref (KeptWith w) e _ (λ event ee.
    let w1 = new_trace_context (context_without_parent 0 0) w in
    Ends-map (KeptWith w1) (KeptWith w) (create_span (add event) (next_context w) w1)
      (create_span-Kept (add event) (next_context w) w1)
      (λ r. Kept-trans w w1 r.1 (new_trace_context-Kept (context_without_parent 0 0) w)))
