-- ===== src/Tracer/Done.antt =====
-- MarkSpanAsDone: it comes to an end in every state, its steps, and where the span is afterwards.
use columbo.Base.{
  ℕ, zero, suc, ◌≡◌, ◌≢◌, sym, ◌∙◌, ap, subst, true, none, some, List, [], ◌∷◌, ◌++◌, ◌==◌,
  get_elem?, Bool-cases, Option-cases, ◌⊎◌, inl, inr, arith, ==→eq,
}
use columbo.Tracer.{
  Heap, Span, Tracer, contains, find, erase, export_waiters, export_waiting_for_parent_vec,
}
use columbo.Tracer.Outcomes.{returns, Ends->>=, Ends-deref}
use columbo.Tracer.Exports.{drop_waiting, here, next, AllExported, IsPart, erase-IsPart, find-erase}
use columbo.Tracer.Ends.{
  all_waiting, Exporting, Ready, Waited, Goes, export_waiters-Waited, some-inj,
}

none≢some : {A : Type 0} (a : A) → none ≢ some a
none≢some a e = cc e

-- A list of the map is part of all that wait.
contains-++ :
    (xs ys : List ℕ) (q : ℕ)
    → (contains xs q ≡ true) ⊎ (contains ys q ≡ true)
    → contains (xs ++ ys) q ≡ true
contains-++ [] ys q (inl c) = absurd (cc c)
contains-++ [] ys q (inr c) = c
contains-++ (x ∷ xs) ys q c = ground (arith, contains-++ xs ys q)

find-all_waiting :
    (m : List (ℕ × List ℕ)) (k : ℕ) (ps : List ℕ) (q : ℕ)
    → find m k ≡ some ps
    → contains ps q ≡ true
    → contains (all_waiting m) q ≡ true
find-all_waiting [] k ps q e c = absurd (cc e)
find-all_waiting ((j, vs) ∷ m) k ps q e c = elim (Bool-cases (j == k)) [
  | inl same ↦
      contains-++ vs (all_waiting m) q
        (inl (subst (λ l. contains l q ≡ true) (some-inj ps vs (sym (rw same at e))) c))
  | inr other ↦ contains-++ vs (all_waiting m) q (inr (find-all_waiting m k ps q (rw other at e) c))
]

not_found :
    (ids : List ℕ) (i : ℕ) (t : Tracer)
    → find t.waiting_list i ≡ none
    → Ready (i ∷ ids) t
    → Ready ids t
not_found ids i t n r k ps f c = elim (Bool-cases (i == k)) [
  | inl same ↦ absurd (none≢some ps (sym n ∙ ap (find t.waiting_list) (==→eq i k same) ∙ f))
  | inr other ↦ rw other at (r k ps f c)
]

Ready-without :
    (ids : List ℕ) (i : ℕ) (t : Tracer)
    → Ready (i ∷ ids) t
    → Ready ids (record t { waiting_list = erase t.waiting_list i })
Ready-without ids i t r k ps f c = elim (Bool-cases (i == k)) [
  | inl same ↦ absurd (none≢some ps (sym (rw same at (find-erase t.waiting_list i k)) ∙ f))
  | inr other ↦ rw other at (r k ps (sym (rw other at (find-erase t.waiting_list i k)) ∙ f) c)
]

pub returns-inj : {A : Type 0} (i j : A) → returns i ≡ returns j → i ≡ j
returns-inj i j e = cc e

waiting_done :
    (h : Heap) (all : List (ℕ × List ℕ)) (p : ℕ) (s : Span) (t : Tracer) (ps : List ℕ)
    → get_elem? h.spans p ≡ some s
    → find all s.id ≡ some ps
    → (t' : Tracer) → Waited h all ps t t'
    → Exporting h all p t (record t' { waiting_list = erase t'.waiting_list s.id })
waiting_done h all p s t ps e f t' (st, part, done, ready) = (
  next st (
      drop_waiting t' s.id (λ qs g.
        subst (λ l. AllExported h t'.exported_spans l) (some-inj ps qs (sym f ∙ part s.id qs g))
          done)),
  erase-IsPart t'.waiting_list all s.id part,
  λ s' ids e' r. Ready-without ids s.id t' (
      ready (s.id ∷ ids)
        (subst (λ (o : Span). Ready (o.id ∷ ids) t) (some-inj s' s (sym e' ∙ e)) r)),
)

none_done :
    (h : Heap) (all : List (ℕ × List ℕ)) (p : ℕ) (s : Span) (t : Tracer)
    → get_elem? h.spans p ≡ some s
    → IsPart t.waiting_list all
    → find t.waiting_list s.id ≡ none
    → Exporting h all p t t
none_done h all p s t e part n = (
  here,
  part,
  λ s' ids e' r.
      not_found ids s.id t n
        (subst (λ (o : Span). Ready (o.id ∷ ids) t) (some-inj s' s (sym e' ∙ e)) r),
)

pub export_waiting-Goes :
    (h : Heap) (all : List (ℕ × List ℕ)) (fuel : ℕ)
    → Goes h all fuel (export_waiting_for_parent_vec fuel h)
unfolding export_waiting_for_parent_vec
export_waiting-Goes h all zero p t part less = absurd (omega arith)
export_waiting-Goes h all (suc fuel) p t part less =
    Ends-deref (Exporting h all p t) (get_elem? h.spans p) _ (λ s e.
      elim (Option-cases (find t.waiting_list s.id)) [
        | inl n ↦ rw n (none_done h all p s t e part n)
        | inr (ps, f) ↦ rw f (
            Ends->>= (Waited h all ps t) (Exporting h all p t)
              (export_waiters h (export_waiting_for_parent_vec fuel h) ps t) _
              (export_waiters-Waited h all fuel (export_waiting_for_parent_vec fuel h)
                (export_waiting-Goes h all fuel) ps t
                (λ q c. find-all_waiting all s.id ps q (part s.id ps f) c) part less)
              (waiting_done h all p s t ps e (part s.id ps f)))
      ])
