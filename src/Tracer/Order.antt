-- ===== src/Tracer/Order.antt =====
-- What marking spans as done keeps: the order of the exports, and that every span marked is exported or waits.
use columbo.Base.{
  ℕ, ◌≡◌, sym, ◌∙◌, ap, subst, true, false, some, List, [], ◌∷◌, ◌++◌, ◌==◌, get_elem?, Bool-cases,
  ◌⊎◌, inl, inr, arith, ==→eq,
}
use columbo.Tracer.{Heap, Span, Exported, Tracer, contains, find, erase, push_back, is_valid_id}
use columbo.Tracer.Exports.{
  Step, Steps, export, drop_waiting, wait_for_parent, drop_trace, here, next, Grows-cons,
  AllExported, IsEarlier, find-erase,
}
use columbo.Tracer.Mark.{Waits, Accounted}
use columbo.Tracer.Wait.{with_back, find-push_back_self, find-push_back_ne}

abbrev pub ids : List Exported → List ℕ
ids [] = []
ids (e ∷ es) = e.id ∷ ids es

-- The exports, the last one first: no id twice, and each behind that of its parent.
abbrev pub InOrder : List Exported → Type 0
InOrder [] = Unit {0}
InOrder (e ∷ es) =
    (is_valid_id e.id ≡ true)
    × (contains (ids es) e.id ≡ false)
    × IsEarlier (ids es) e.parent
    × InOrder es

pub record IsLogged (t : Tracer) : Type 0 where
  pub same : ids t.exporter ≡ t.exported_spans
  pub in_order : InOrder t.exporter

pub Step-IsLogged : {h : Heap} {t u : Tracer} → Step h t u → IsLogged t → IsLogged u
Step-IsLogged (export t s e g i v f p) l = record {
  same = ap (◌∷◌ e.id) l.same;
  in_order = (
    v,
    ap (λ is. contains is e.id) l.same ∙ f,
    subst (λ is. IsEarlier is e.parent) (sym l.same) p,
    l.in_order,
  );
}
Step-IsLogged (drop_waiting t k a) l = record { same = l.same; in_order = l.in_order }
Step-IsLogged (wait_for_parent t p s i e v f) l = record { same = l.same; in_order = l.in_order }
Step-IsLogged (drop_trace t k) l = record { same = l.same; in_order = l.in_order }

pub Steps-IsLogged : {h : Heap} {t u : Tracer} → Steps h t u → IsLogged t → IsLogged u
Steps-IsLogged here l = l
Steps-IsLogged (next r s) l = Step-IsLogged s (Steps-IsLogged r l)

exported_in :
    (h : Heap) (is ps : List ℕ) (p : ℕ) (s : Span)
    → AllExported h is ps
    → contains ps p ≡ true
    → get_elem? h.spans p ≡ some s
    → contains is s.id ≡ true
exported_in h is [] p s a c e = absurd (cc c)
exported_in h is (q ∷ ps) p s a c e = elim (Bool-cases (q == p)) [
  | inl same ↦ a.0 s (ap (get_elem? h.spans) (==→eq q p same) ∙ e)
  | inr other ↦ exported_in h is ps p s a.1 (rw other at c) e
]

contains_more : (vs : List ℕ) (v p : ℕ) → contains vs p ≡ true → contains (vs ++ v ∷ []) p ≡ true
contains_more [] v p c = absurd (cc c)
contains_more (w ∷ vs) v p c = ground (arith, contains_more vs v p)

dropped :
    (h : Heap) (t : Tracer) (k j p : ℕ) (s : Span)
    → ((ps : List ℕ) → find t.waiting_list k ≡ some ps → AllExported h t.exported_spans ps)
    → get_elem? h.spans p ≡ some s
    → Waits t j p
    → (contains t.exported_spans s.id ≡ true)
      ⊎ Waits (record t { waiting_list = erase t.waiting_list k }) j p
dropped h t k j p s a e (ps, f, c) = elim (Bool-cases (k == j)) [
  | inl same ↦ inl (
      exported_in h t.exported_spans ps p s (a ps (ap (find t.waiting_list) (==→eq k j same) ∙ f)) c
        e)
  | inr other ↦ inr (ps, rw other at (find-erase t.waiting_list k j) ∙ f, c)
]

pushed-Waits :
    (t : Tracer) (i q j p : ℕ)
    → Waits t j p
    → Waits (record t { waiting_list = push_back i q t.waiting_list }) j p
pushed-Waits t i q j p (ps, f, c) = elim (Bool-cases (i == j)) [
  | inl same ↦ (
    ps ++ q ∷ [],
    ap (find (push_back i q t.waiting_list)) (sym (==→eq i j same))
        ∙ find-push_back_self i q t.waiting_list
        ∙ ap (λ o. some (with_back o q)) (ap (find t.waiting_list) (==→eq i j same) ∙ f),
    contains_more ps q p c,
  )
  | inr other ↦ (ps, find-push_back_ne i j q t.waiting_list other ∙ f, c)
]

pub Step-Accounted :
    {h : Heap} {t u : Tracer} (j p : ℕ) → Step h t u → Accounted h t j p → Accounted h u j p
Step-Accounted j p (export t s e g i v f q) (x, ex, inl c) =
    (x, ex, inl (Grows-cons t.exported_spans e.id x.id c))
Step-Accounted j p (export t s e g i v f q) (x, ex, inr w) = (x, ex, inr w)
Step-Accounted j p (drop_waiting t k a) (x, ex, inl c) = (x, ex, inl c)
Step-Accounted {h} j p (drop_waiting t k a) (x, ex, inr w) = (x, ex, dropped h t k j p x a ex w)
Step-Accounted j p (wait_for_parent t q s i e v f) (x, ex, inl c) = (x, ex, inl c)
Step-Accounted j p (wait_for_parent t q s i e v f) (x, ex, inr w) =
    (x, ex, inr (pushed-Waits t i q j p w))
Step-Accounted j p (drop_trace t k) (x, ex, inl c) = (x, ex, inl c)
Step-Accounted j p (drop_trace t k) (x, ex, inr w) = (x, ex, inr w)

pub Steps-Accounted :
    {h : Heap} {t u : Tracer} (j p : ℕ) → Steps h t u → Accounted h t j p → Accounted h u j p
Steps-Accounted j p here a = a
Steps-Accounted j p (next r s) a = Step-Accounted j p s (Steps-Accounted j p r a)
