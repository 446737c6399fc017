-- ===== src/Tracer/Calls/ParentKept.antt =====
-- Giving a span its parent exports nothing, and moves no span.
use columbo.Base.{
  ℕ, ◌≡◌, refl, Bool, true, false, ◌&&◌, not, Option, some, List, [], ◌∷◌, get_elem?, inl, inr,
  ◌==◌, Bool-cases, ltb, Option-cases, if◌then◌else◌,
}
use columbo.Channel.Queue.{Executor}
use columbo.Span.{Base}
use columbo.Tracer.{
  Heap, Trace, Tracer, find, remove_trace, context_has_parent, is_valid_id, get_trace,
}
use columbo.Tracer.Outcomes.{
  Result, returns, ◌>>=◌, Ends, Ends->>=, Ends-check, Ends-deref, Ends-map,
}
use columbo.Tracer.Exports.{context_has_parent-IsFinite}
use columbo.Tracer.Start.{
  World, Context, put_trace, add_span_to_trace_if_trace_exists, register_create_context_parent,
  get_starting_ts,
}
use columbo.Tracer.Parent.{
  is_there, with_context, set_context, start_span_set_parent_context, set_trace_id,
  set_parent_id_and_ts, move_to_trace, move_children, get_spans_and_remove_spans, add_parent_lazily,
}
use columbo.Tracer.Calls.{change_events}
use columbo.Tracer.Calls.Kept.{
  Kept, KeptWith, KeepsIds, KeepsIds-refl, KeepsIds-trans, KeepsIds-set, Kept-trans, Kept-refl,
  with_traces-Kept, add_span_to_trace_if_trace_exists-Kept,
}
use columbo.Tracer.Calls.StartKept.{register_create_context_parent-Kept, resumed}

-- What a change of the contexts leaves alone.
abbrev pub SameSpans : Heap → Heap → Type 0
SameSpans h h' = KeepsIds h.spans h'.spans

set_trace_id-SameSpans : (c k : ℕ) (h : Heap) → Ends (SameSpans h) (set_trace_id c k h)
unfolding set_trace_id
set_trace_id-SameSpans c k h =
    Ends-deref (SameSpans h) (get_elem? h.contexts c) _ (λ x e. KeepsIds-refl h.spans)

set_parent_id_and_ts-SameSpans :
    (c i ts : ℕ) (h : Heap) → Ends (SameSpans h) (set_parent_id_and_ts c i ts h)
unfolding set_parent_id_and_ts
set_parent_id_and_ts-SameSpans c i ts h =
    Ends-deref (SameSpans h) (get_elem? h.contexts c) _
      (λ x e. Ends-check (SameSpans h) (is_valid_id i) _ (λ v. KeepsIds-refl h.spans))

with_heap-Kept : (w : World) (h : Heap) → SameSpans w.heap h → Kept w (record w { heap = h })
with_heap-Kept w h k = record { exported = refl; waiting = refl; exporter = refl; ids = k }

move_to_trace-Kept : (p k : ℕ) (w : World) → Ends (Kept w) (move_to_trace p k w)
unfolding move_to_trace
move_to_trace-Kept p k w = Ends-deref (Kept w) (get_elem? w.heap.spans p) _ (λ s e.
    Ends-deref (Kept w) s.context _ (λ c ec.
      Ends->>= (SameSpans w.heap) (Kept w) (set_trace_id c k w.heap) _
        (set_trace_id-SameSpans c k w.heap) (λ h same. with_heap-Kept w h same)))

move_children-Kept :
    (root k : ℕ) (children : List (ℕ × ℕ)) (w : World)
    → Ends (Kept w) (move_children root k children w)
unfolding move_children
move_children-Kept root k [] w = Kept-refl w
move_children-Kept root k ((i, p) ∷ children) w = elim (Bool-cases (i == root)) [
  | inl same ↦ rw same (move_children-Kept root k children w)
  | inr other ↦ rw other (
      Ends->>= (Kept w) (Kept w) (move_to_trace p k w) _ (move_to_trace-Kept p k w) (λ w1 a.
        Ends->>= (Kept w1) (Kept w) (add_span_to_trace_if_trace_exists k p w1) _
          (add_span_to_trace_if_trace_exists-Kept k p w1)
          (λ w2 b.
            Ends-map (Kept w2) (Kept w) (move_children root k children w2)
              (move_children-Kept root k children w2)
              (λ w3 d. Kept-trans w w1 w3 a (Kept-trans w1 w2 w3 b d)))))
]

abbrev SameTracer : Tracer → Tracer → Type 0
SameTracer t t' =
    (t'.exported_spans ≡ t.exported_spans)
    × (t'.waiting_list ≡ t.waiting_list)
    × (t'.exporter ≡ t.exporter)

remove_trace-SameTracer : (k : ℕ) (t : Tracer) → Ends (SameTracer t) (remove_trace k t)
unfolding remove_trace
remove_trace-SameTracer k t = elim (Option-cases (find t.traces k)) [
  | inl n ↦ rw (n, Ends, ◌>>=◌) tt
  | inr (trace, f) ↦ rw (f, Ends, ◌>>=◌) (refl, refl, refl)
]

get_spans-Kept :
    (k : ℕ) (w : World)
    → Ends (λ (r : List (ℕ × ℕ) × World). Kept w r.1) (get_spans_and_remove_spans k w)
unfolding get_spans_and_remove_spans
get_spans-Kept k w =
    Ends-deref (λ (r : List (ℕ × ℕ) × World). Kept w r.1) (get_trace w.tracer k) _
      (λ trace e. with_traces-Kept w (put_trace k (record trace { spans = [] }) w.tracer.traces))

-- The traces of the children, behind the change of the contexts.
children_moved :
    (w w0 : World) (p : ℕ) (x : Context) (root old : ℕ) (trace : Trace)
    → Kept w w0
    → Ends (Kept w) (do
      w1 ← add_span_to_trace_if_trace_exists x.trace_id p w0
      (children, w2) ← get_spans_and_remove_spans old w1
      w3 ← move_children root x.trace_id children w2
      tracer ← remove_trace trace.ident w3.tracer
      returns (record w3 { tracer = tracer }))
children_moved w w0 p x root old trace a =
    Ends->>= (Kept w0) (Kept w) (add_span_to_trace_if_trace_exists x.trace_id p w0) _
      (add_span_to_trace_if_trace_exists-Kept x.trace_id p w0)
      (λ w1 b.
        Ends->>= (λ (r : List (ℕ × ℕ) × World). Kept w1 r.1) (Kept w)
          (get_spans_and_remove_spans old w1) _ (get_spans-Kept old w1)
          (λ (children, w2) d.
            Ends->>= (Kept w2) (Kept w) (move_children root x.trace_id children w2) _
              (move_children-Kept root x.trace_id children w2)
              (λ w3 f.
                Ends->>= (SameTracer w3.tracer) (Kept w) (remove_trace trace.ident w3.tracer) _
                  (remove_trace-SameTracer trace.ident w3.tracer)
                  (λ tracer (ex, wl, log).
                    Kept-trans w w3 (record w3 { tracer = tracer })
                      (Kept-trans w w0 w3 a (Kept-trans w0 w1 w3 b (Kept-trans w1 w2 w3 d f)))
                      (record {
                        exported = ex;
                        waiting = wl;
                        exporter = log;
                        ids = KeepsIds-refl w3.heap.spans;
                      })))))

moved_parent :
    (w : World) (p : ℕ) (x : Context) (c root old : ℕ) (trace : Trace)
    → Ends (Kept w) (do
      h1 ← set_trace_id c x.trace_id w.heap
      h2 ← set_parent_id_and_ts c x.parent_id x.parent_start_ts h1
      w1 ← add_span_to_trace_if_trace_exists x.trace_id p (record w { heap = h2 })
      (children, w2) ← get_spans_and_remove_spans old w1
      w3 ← move_children root x.trace_id children w2
      tracer ← remove_trace trace.ident w3.tracer
      returns (record w3 { tracer = tracer }))
moved_parent w p x c root old trace =
    Ends->>= (SameSpans w.heap) (Kept w) (set_trace_id c x.trace_id w.heap) _
      (set_trace_id-SameSpans c x.trace_id w.heap)
      (λ h1 a.
        Ends->>= (SameSpans h1) (Kept w) (set_parent_id_and_ts c x.parent_id x.parent_start_ts h1) _
          (set_parent_id_and_ts-SameSpans c x.parent_id x.parent_start_ts h1)
          (λ h2 b.
            children_moved w (record w { heap = h2 }) p x root old trace
              (with_heap-Kept w h2 (KeepsIds-trans w.heap.spans h1.spans h2.spans a b))))

pub add_parent_lazily-Kept :
    (executor : Executor) (span : Option ℕ) (context : Option Context) (w : World)
    → Ends (Kept w) (add_parent_lazily executor span context w)
unfolding add_parent_lazily
add_parent_lazily-Kept executor span context w = resumed (Kept w) executor _ (
    Ends-deref (Kept w) span _ (λ p ep. Ends-deref (Kept w) context _ (λ x ex.
      Ends-deref (Kept w) (get_elem? w.heap.spans p) _ (λ s es.
        Ends-deref (Kept w) s.context _ (λ c ec.
          Ends-deref (Kept w) (get_elem? w.heap.contexts c) _ (λ old eo.
            Ends-deref (Kept w) (get_trace w.tracer old.trace_id) _
              (λ trace et. moved_parent w p x c s.id old.trace_id trace)))))))

-- `SetContext` past the test of an existing context.
abbrev pub SetSpans : Heap → Bool × Heap → Type 0
SetSpans h r = SameSpans h r.1

if-SetSpans :
    (h : Heap) (b : Bool) (x y : Result (Bool × Heap))
    → Ends (SetSpans h) x
    → Ends (SetSpans h) y
    → Ends (SetSpans h) (if b then x else y)
if-SetSpans h true x y a c = a
if-SetSpans h false x y a c = c

if_pair-SetSpans :
    (h : Heap) (b : Bool) (x y : Bool × Heap)
    → SetSpans h x
    → SetSpans h y
    → SetSpans h (if b then x else y)
if_pair-SetSpans h true x y a c = a
if_pair-SetSpans h false x y a c = c

set_context-SetSpans :
    (p : ℕ) (trace_context : Option ℕ) (override_existing : Bool) (h : Heap)
    → Ends (SetSpans h) (set_context p trace_context override_existing h)
unfolding set_context
set_context-SetSpans p trace_context override_existing h =
    Ends-deref (SetSpans h) (get_elem? h.spans p) _ (λ s e.
      if-SetSpans h (not override_existing && is_there s.context) _ _ (KeepsIds-refl h.spans) (
        Ends-deref (SetSpans h) trace_context _ (λ c ec.
          Ends-deref (SetSpans h) (get_elem? h.contexts c) _ (λ x ex.
            Ends->>= (λ b. Unit {0}) (SetSpans h) (context_has_parent x) _
              (context_has_parent-IsFinite x)
              (λ parent u. if-SetSpans h (not parent) _ _ (KeepsIds-refl h.spans) (
                Ends-check (SetSpans h) (is_valid_id x.parent_id) _ (λ v.
                  if_pair-SetSpans h (ltb (get_starting_ts s) x.parent_start_ts) (false, h)
                    (true, with_context p s c h) (KeepsIds-refl h.spans)
                    (KeepsIds-set h.spans p s (record s { context = some c }) e refl))))))))

pub start_span_set_parent_context-Kept :
    (executor : Executor) (p : ℕ) (context : Option Context) (w : World)
    → Ends (Kept w) (start_span_set_parent_context executor p context w)
unfolding start_span_set_parent_context
start_span_set_parent_context-Kept executor p context w = resumed (Kept w) executor _ (
    Ends-deref (Kept w) context _ (λ x ex.
      Ends->>= (KeptWith w) (Kept w)
        (register_create_context_parent x.trace_id x.parent_id x.parent_start_ts w) _
        (register_create_context_parent-Kept x.trace_id x.parent_id x.parent_start_ts w)
        (λ (c, w1) a.
          Ends->>= (SetSpans w1.heap) (Kept w) (set_context p (some c) true w1.heap) _
            (set_context-SetSpans p (some c) true w1.heap)
            (λ (could_set, h) b. Ends-check (Kept w) could_set _ (λ done.
              let w2 = record w1 { heap = h } in
              Ends-map (Kept w2) (Kept w) (add_span_to_trace_if_trace_exists x.trace_id p w2)
                (add_span_to_trace_if_trace_exists-Kept x.trace_id p w2)
                (λ w3 d. Kept-trans w w1 w3 a (Kept-trans w1 w2 w3 (with_heap-Kept w1 h b) d)))))))

pub change_events-Kept : (p : ℕ) (base : Base) (w : World) → Ends (Kept w) (change_events p base w)
unfolding change_events
change_events-Kept p base w =
    Ends-deref (Kept w) (get_elem? w.heap.spans p) _
      (λ s e. with_heap-Kept w _ (KeepsIds-set w.heap.spans p s (record s { base = base }) e refl))
