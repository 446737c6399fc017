-- ===== src/Tracer/Exports.antt =====
-- What marking spans as done does step by step: a span is exported, the list of the spans that waited for one is
-- dropped, a span begins to wait, or a trace is removed.
use columbo.Base.{
  ℕ, ◌≡◌, refl, sym, ◌∙◌, ap, Bool, true, false, ◌&&◌, ◌||◌, not, Option, none, some, List, [], ◌∷◌,
  ◌==◌, if◌then◌else◌, get_elem?, arith,
}
use columbo.Tracer.{
  has_parent_in, get_parent_id_in, TraceContext, Heap, Span, context_has_parent, Tracer, Exported,
  contains, find, erase, push_back, is_valid_id, has_parent, get_parent_id, get_valid_parent_id,
  entry, export_span, insert_exported_span, export_marked,
}
use columbo.Tracer.Outcomes.{
  returns, Ends, Ends->>=, Ends-check, Ends-returned, Ends-deref, IsFinite,
}

-- The parent of an exported span is one of these ids.
abbrev pub IsEarlier : List ℕ → Option ℕ → Type 0
IsEarlier ids none = Unit {0}
IsEarlier ids (some parent) = contains ids parent ≡ true

abbrev pub with_export : Tracer → Exported → Tracer
with_export t e = record t { exported_spans = e.id ∷ t.exported_spans; exporter = e ∷ t.exporter }

abbrev pub without : Tracer → ℕ → Tracer
without t k = record t { waiting_list = erase t.waiting_list k }

-- The span that a pointer names is exported, if it names one.
abbrev pub IsExported : Heap → List ℕ → ℕ → Type 0
IsExported h ids p = (s : Span) → get_elem? h.spans p ≡ some s → contains ids s.id ≡ true

abbrev pub AllExported : Heap → List ℕ → List ℕ → Type 0
AllExported h ids [] = Unit {0}
AllExported h ids (p ∷ ps) = IsExported h ids p × AllExported h ids ps

pub data Step (h : Heap) : Tracer → Tracer → Type 0 where
  export :
      (t : Tracer) (s : Span) (e : Exported)
      → get_elem? h.spans e.span ≡ some s
      → s.id ≡ e.id
      → is_valid_id e.id ≡ true
      → contains t.exported_spans e.id ≡ false
      → IsEarlier t.exported_spans e.parent
      → Step h t (with_export t e)
  drop_waiting :
      (t : Tracer) (k : ℕ)
      → ((ps : List ℕ) → find t.waiting_list k ≡ some ps → AllExported h t.exported_spans ps)
      → Step h t (without t k)
  wait_for_parent :
      (t : Tracer) (p : ℕ) (s : Span) (i : ℕ)
      → get_elem? h.spans p ≡ some s
      → get_valid_parent_id h s ≡ returns i
      → contains t.exported_spans i ≡ false
      → Step h t (record t { waiting_list = push_back i p t.waiting_list })
  drop_trace : (t : Tracer) (k : ℕ) → Step h t (record t { traces = erase t.traces k })

pub data Steps (h : Heap) (t : Tracer) : Tracer → Type 0 where
  here : Steps h t t
  next : {u v : Tracer} → Steps h t u → Step h u v → Steps h t v

pub Steps-trans : {h : Heap} {t u v : Tracer} → Steps h t u → Steps h u v → Steps h t v
Steps-trans r here = r
Steps-trans r (next q s) = next (Steps-trans r q) s

-- No id is ever taken out.
abbrev pub Grows : List ℕ → List ℕ → Type 0
Grows ids ids' = (k : ℕ) → contains ids k ≡ true → contains ids' k ≡ true

pub Grows-cons : (ids : List ℕ) (i : ℕ) → Grows ids (i ∷ ids)
Grows-cons ids i k h = ground arith

pub Step-Grows : {h : Heap} {t u : Tracer} → Step h t u → Grows t.exported_spans u.exported_spans
Step-Grows (export t s e g i v f p) = Grows-cons t.exported_spans e.id
Step-Grows (drop_waiting t k a) = λ k h. h
Step-Grows (wait_for_parent t p s i e v f) = λ k h. h
Step-Grows (drop_trace t k) = λ k h. h

pub Steps-Grows : {h : Heap} {t u : Tracer} → Steps h t u → Grows t.exported_spans u.exported_spans
Steps-Grows here k c = c
Steps-Grows (next r s) k c = Step-Grows s k (Steps-Grows r k c)

pub AllExported-Grows :
    (h : Heap) (ids ids' : List ℕ) (ps : List ℕ)
    → Grows ids ids'
    → AllExported h ids ps
    → AllExported h ids' ps
AllExported-Grows h ids ids' [] g a = tt
AllExported-Grows h ids ids' (p ∷ ps) g a =
    (λ s e. g s.id (a.0 s e), AllExported-Grows h ids ids' ps g a.1)

-- Every list of one map is in the other at its key.
abbrev pub IsPart : List (ℕ × List ℕ) → List (ℕ × List ℕ) → Type 0
IsPart m all = (k : ℕ) (ps : List ℕ) → find m k ≡ some ps → find all k ≡ some ps

pub find-erase :
    {A : Type 0} (m : List (ℕ × A)) (k j : ℕ)
    → find (erase m k) j ≡ (if k == j then none else find m j)
find-erase [] k j = ground arith
find-erase {A} ((i, w) ∷ m) k j = ground (arith, find-erase {A = A} m k j)

some_of_if :
    {A : Type 0} (b : Bool) (o : Option A) (v : A) → (if b then none else o) ≡ some v → o ≡ some v
some_of_if true o v e = absurd (cc e)
some_of_if false o v e = e

pub erase-IsPart : (m all : List (ℕ × List ℕ)) (k : ℕ) → IsPart m all → IsPart (erase m k) all
erase-IsPart m all k p j ps e =
    p j ps (some_of_if (k == j) (find m j) ps (sym (find-erase m k j) ∙ e))

-- What a span's parent has to be when it is exported: exported before.
abbrev pub ParentWas : Heap → Span → List ℕ → Type 0
ParentWas h s ids =
    (i : ℕ) → has_parent h s ≡ returns true → get_parent_id h s ≡ returns i → contains ids i ≡ true

-- `export_marked` is one step.
abbrev pub Marked : Heap → ℕ → Span → Tracer → Tracer → Type 0
Marked h p s t t' =
    (parent : Option ℕ) × (t' ≡ with_export t (entry p s.id parent))
    × (contains t.exported_spans s.id ≡ false)
    × (is_valid_id s.id ≡ true)
    × IsEarlier t.exported_spans parent

parent-IsEarlier :
    (h : Heap) (s : Span) (ids : List ℕ) (b : Bool) (i : ℕ)
    → ParentWas h s ids
    → has_parent h s ≡ returns b
    → get_parent_id h s ≡ returns i
    → IsEarlier ids (if b then some i else none)
parent-IsEarlier h s ids true i w e f = w i e f
parent-IsEarlier h s ids false i w e f = tt

-- An id that the set takes is valid, and new.
abbrev pub Inserted : ℕ → Tracer → Tracer → Type 0
Inserted i t t' =
    (t' ≡ record t { exported_spans = i ∷ t.exported_spans })
    × (contains t.exported_spans i ≡ false)
    × (is_valid_id i ≡ true)

negated : (b : Bool) → not b ≡ true → b ≡ false
negated true e = absurd (cc e)
negated false e = refl

pub insert_exported_span-Inserted :
    (i : ℕ) (t : Tracer) → Ends (Inserted i t) (insert_exported_span i t)
unfolding insert_exported_span
insert_exported_span-Inserted i t = Ends-check (Inserted i t) (is_valid_id i) _ (λ v.
    Ends-check (Inserted i t) (not (contains t.exported_spans i)) _ (λ f. (refl, negated _ f, v)))

pub context_has_parent-IsFinite : (c : TraceContext) → IsFinite (context_has_parent c)
unfolding context_has_parent
context_has_parent-IsFinite c =
    Ends-check (λ (b : Bool). Unit {0})
      ((c.has_parent && not (c.parent_id == 0)) || (not c.has_parent && c.parent_id == 0))
      (returns c.has_parent) (λ e. tt)

has_parent_in-IsFinite : (h : Heap) (o : Option ℕ) → IsFinite (has_parent_in h o)
unfolding has_parent_in
has_parent_in-IsFinite h none = tt
has_parent_in-IsFinite h (some p) =
    Ends-deref (λ b. Unit {0}) (get_elem? h.contexts p) _ (λ c e. context_has_parent-IsFinite c)

pub has_parent-IsFinite : (h : Heap) (s : Span) → IsFinite (has_parent h s)
unfolding has_parent
has_parent-IsFinite h s = has_parent_in-IsFinite h s.context

get_parent_id_in-IsFinite : (h : Heap) (o : Option ℕ) → IsFinite (get_parent_id_in h o)
unfolding get_parent_id_in
get_parent_id_in-IsFinite h none = tt
get_parent_id_in-IsFinite h (some p) =
    Ends-deref (λ i. Unit {0}) (get_elem? h.contexts p) _
      (λ c e.
        Ends->>= (λ b. Unit {0}) (λ i. Unit {0}) (context_has_parent c) _
          (context_has_parent-IsFinite c) (λ b f. tt))

pub get_parent_id-IsFinite : (h : Heap) (s : Span) → IsFinite (get_parent_id h s)
unfolding get_parent_id
get_parent_id-IsFinite h s = get_parent_id_in-IsFinite h s.context

checked_step :
    (h : Heap) (p : ℕ) (s : Span) (t t' : Tracer)
    → ParentWas h s t.exported_spans
    → Inserted s.id t t'
    → (b : Bool) → has_parent h s ≡ returns b
    → (i : ℕ) → get_parent_id h s ≡ returns i
    → Marked h p s t (export_span (entry p s.id (if b then some i else none)) t')
checked_step h p s t t' w (e, f, v) b eb i ei = (
  if b then some i else none,
  ap (export_span (entry p s.id (if b then some i else none))) e,
  f,
  v,
  parent-IsEarlier h s t.exported_spans b i w eb ei,
)

pub export_marked-Marked :
    (h : Heap) (p : ℕ) (s : Span) (t : Tracer)
    → ParentWas h s t.exported_spans
    → Ends (Marked h p s t) (export_marked h p s t)
unfolding export_marked
export_marked-Marked h p s t w =
    Ends->>= (Inserted s.id t) (Marked h p s t) (insert_exported_span s.id t) _
      (insert_exported_span-Inserted s.id t)
      (λ t' ins.
        Ends-returned (Marked h p s t) (has_parent h s) _ (has_parent-IsFinite h s) (λ b eb.
          Ends-returned (Marked h p s t) (get_parent_id h s) _ (get_parent_id-IsFinite h s) (λ i ei.
            Ends-check (Marked h p s t) (not b || contains t'.exported_spans i)
              (returns (export_span (entry p s.id (if b then some i else none)) t'))
              (λ c. checked_step h p s t t' w ins b eb i ei))))
