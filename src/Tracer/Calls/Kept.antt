-- ===== src/Tracer/Calls/Kept.antt =====
-- What the calls that export nothing leave alone.
use columbo.Base.{
  ℕ, zero, suc, ◌≡◌, refl, sym, ◌∙◌, Bool, some, List, [], ◌∷◌, ◌++◌, get_elem?, set, inl, inr,
  Option-cases, length, add_size,
}
use columbo.Span.{Base}
use columbo.Tracer.{Span, Trace, find}
use columbo.Tracer.Outcomes.{
  Result, returns, ◌>>=◌, Ends, Ends->>=, Ends-check, Ends-deref, Ends-map, IsFinite,
}
use columbo.Tracer.Start.{
  World, with_traces, put_trace, add_span, add_span_to_trace_if_trace_exists, create_span,
}

abbrev pub KeepsIds : List Span → List Span → Type 0
KeepsIds ss ss' =
    (p : ℕ) (s : Span)
    → get_elem? ss p ≡ some s
    → (s' : Span) × (get_elem? ss' p ≡ some s') × (s'.id ≡ s.id)

pub KeepsIds-refl : (ss : List Span) → KeepsIds ss ss
KeepsIds-refl ss p s e = (s, e, refl)

pub KeepsIds-trans : (a b c : List Span) → KeepsIds a b → KeepsIds b c → KeepsIds a c
KeepsIds-trans a b c f g p s e =
    let (s', e', i) = f p s e in let (s'', e'', j) = g p s' e' in (s'', e'', j ∙ i)

pub KeepsIds-++ : (ss new : List Span) → KeepsIds ss (ss ++ new)
KeepsIds-++ [] new p s e = absurd (cc e)
KeepsIds-++ (x ∷ ss) new zero s e = (s, e, refl)
KeepsIds-++ (x ∷ ss) new (suc p) s e = KeepsIds-++ ss new p s e

some_id : (a b : Span) → some a ≡ some b → a.id ≡ b.id
some_id a b e = cc e

pub KeepsIds-set :
    (ss : List Span) (p : ℕ) (s s' : Span)
    → get_elem? ss p ≡ some s
    → s'.id ≡ s.id
    → KeepsIds ss (set ss p s')
KeepsIds-set [] p s s' e i q t f = absurd (cc f)
KeepsIds-set (x ∷ ss) zero s s' e i zero t f = (s', refl, i ∙ some_id s t (sym e ∙ f))
KeepsIds-set (x ∷ ss) zero s s' e i (suc q) t f = (t, f, refl)
KeepsIds-set (x ∷ ss) (suc p) s s' e i zero t f = (t, f, refl)
KeepsIds-set (x ∷ ss) (suc p) s s' e i (suc q) t f = KeepsIds-set ss p s s' e i q t f

pub record Kept (w w' : World) : Type 0 where
  pub exported : w'.tracer.exported_spans ≡ w.tracer.exported_spans
  pub waiting : w'.tracer.waiting_list ≡ w.tracer.waiting_list
  pub exporter : w'.tracer.exporter ≡ w.tracer.exporter
  pub ids : KeepsIds w.heap.spans w'.heap.spans

pub Kept-trans : (u v w : World) → Kept u v → Kept v w → Kept u w
Kept-trans u v w a b = record {
  exported = b.exported ∙ a.exported;
  waiting = b.waiting ∙ a.waiting;
  exporter = b.exporter ∙ a.exporter;
  ids = KeepsIds-trans u.heap.spans v.heap.spans w.heap.spans a.ids b.ids;
}

-- One call after another.
pub Kept-then : (u v : World) (m : Result World) → Kept u v → Ends (Kept v) m → Ends (Kept u) m
Kept-then u v m a b = Ends-map (Kept v) (Kept u) m b (λ w. Kept-trans u v w a)

pub Kept-refl : (w : World) → Kept w w
Kept-refl w = record {
  exported = refl;
  waiting = refl;
  exporter = refl;
  ids = KeepsIds-refl w.heap.spans;
}

pub with_traces-Kept : (w : World) (traces : List (ℕ × Trace)) → Kept w (with_traces w traces)
with_traces-Kept w traces = record {
  exported = refl;
  waiting = refl;
  exporter = refl;
  ids = KeepsIds-refl w.heap.spans;
}

pub add_span-IsFinite : (i p : ℕ) (t : Trace) → IsFinite (add_span i p t)
unfolding add_span
add_span-IsFinite i p t = elim (Option-cases (find t.spans i)) [
  | inl n ↦ rw (n, Ends, ◌>>=◌) tt
  | inr (q, f) ↦ rw (f, Ends, ◌>>=◌) tt
]

pub add_span_to_trace_if_trace_exists-Kept :
    (k p : ℕ) (w : World) → Ends (Kept w) (add_span_to_trace_if_trace_exists k p w)
unfolding add_span_to_trace_if_trace_exists
add_span_to_trace_if_trace_exists-Kept k p w = elim (Option-cases (find w.tracer.traces k)) [
  | inl n ↦ rw (n, Ends, ◌>>=◌) (Kept-refl w)
  | inr (trace, f) ↦
      rw (f, Ends, ◌>>=◌)
        (Ends-deref (Kept w) (get_elem? w.heap.spans p) _ (λ s e.
          Ends->>= (λ t. Unit {0}) (Kept w) (add_span s.id p trace) _
            (add_span-IsFinite s.id p trace)
            (λ trace' u. with_traces-Kept w (put_trace k trace' w.tracer.traces))))
]

abbrev pub KeptWith : World → ℕ × World → Type 0
KeptWith w r = Kept w r.1

pub create_span-Kept :
    (added : Base × Bool) (c : ℕ) (w : World) → Ends (KeptWith w) (create_span added c w)
unfolding create_span
create_span-Kept added c w =
    Ends-check (KeptWith w) added.1
      (returns (
        length w.heap.spans,
        record w {
          heap = record w.heap {
            spans =
                w.heap.spans
                ++ (record { id = w.next_span_id; base = added.0; context = some c }) ∷ [];
          };
          next_span_id = add_size w.next_span_id 1;
        },
      ))
      (λ ok. record {
        exported = refl;
        waiting = refl;
        exporter = refl;
        ids = KeepsIds-++ w.heap.spans _;
      })
