-- ===== src/Tracer/Mark.antt =====
-- MarkSpanAsDone comes to an end in every state; its steps, and where the span is afterwards.
use columbo.Base.{
  ℕ, ◌≡◌, refl, sym, ◌∙◌, ap, subst, Bool, true, false, Option, some, List, [], get_elem?,
  Bool-cases, Option-cases, ◌⊎◌, inl, inr, arith,
}
use columbo.Tracer.{
  Heap, Span, Tracer, entry, contains, find, has_parent, get_valid_parent_id, export_marked,
  export_waiting_for_parent_vec, enough, was_parent_exported, delete_trace_if_safe,
  safe_to_delete_trace, remove_trace, export_done,
}
use columbo.Tracer.Outcomes.{returns, ◌>>=◌, Ends, Ends->>=, Ends-returned, Ends-map}
use columbo.Tracer.Exports.{
  Step, Steps, export, drop_trace, here, next, Steps-trans, Steps-Grows, ParentWas, Marked,
  export_marked-Marked, has_parent-IsFinite, with_export,
}
use columbo.Tracer.Ends.{
  all_waiting, pending-le-length, count_waiting-all, Exporting, Ready, Ready-export, found_parent,
  get_valid_parent_id-IsFinite, contains_head,
}
use columbo.Tracer.Done.{export_waiting-Goes, returns-inj}

-- A span that is in the waiting list of the parent with this id.
abbrev pub Waits : Tracer → ℕ → ℕ → Type 0
Waits t k p = (ps : List ℕ) × (find t.waiting_list k ≡ some ps) × (contains ps p ≡ true)

-- A span that is exported or waits for this parent.
abbrev pub Accounted : Heap → Tracer → ℕ → ℕ → Type 0
Accounted h t k p =
    (s : Span) × (get_elem? h.spans p ≡ some s)
    × ((contains t.exported_spans s.id ≡ true) ⊎ Waits t k p)

-- The id of the parent that a span has, as `GetValidParentId` gives it.
abbrev pub ParentOf : Heap → ℕ → ℕ → Type 0
ParentOf h p k = (s : Span) × (get_elem? h.spans p ≡ some s) × (get_valid_parent_id h s ≡ returns k)

-- A span that is exported.
abbrev pub HasLeft : Heap → Tracer → ℕ → Type 0
HasLeft h t p =
    (s : Span) × (get_elem? h.spans p ≡ some s) × (contains t.exported_spans s.id ≡ true)

-- A span that is exported, or waits for the parent that it has.
abbrev pub Handled : Heap → Tracer → ℕ → Type 0
Handled h t p = HasLeft h t p ⊎ ((k : ℕ) × ParentOf h p k × Waits t k p)

-- What marking a span as done comes to.
abbrev pub DoneAs : Heap → ℕ → Tracer → Tracer → Type 0
DoneAs h p t t' = Steps h t t' × (Ready [] t → Ready [] t') × Handled h t' p

-- Deleting a trace changes nothing but the traces.
abbrev pub SameSpans : Heap → Tracer → Tracer → Type 0
SameSpans h t t' =
    Steps h t t' × (t'.exported_spans ≡ t.exported_spans) × (t'.waiting_list ≡ t.waiting_list)

remove_trace-SameSpans : (h : Heap) (k : ℕ) (t : Tracer) → Ends (SameSpans h t) (remove_trace k t)
unfolding remove_trace
remove_trace-SameSpans h k t = elim (Option-cases (find t.traces k)) [
  | inl n ↦ rw (n, Ends, ◌>>=◌) tt
  | inr (trace, f) ↦ rw (f, Ends, ◌>>=◌) (next here (drop_trace t k), refl, refl)
]

delete_trace_if_safe-SameSpans :
    (h : Heap) (k : ℕ) (t : Tracer) → Ends (SameSpans h t) (delete_trace_if_safe k t)
unfolding delete_trace_if_safe
delete_trace_if_safe-SameSpans h k t = elim (Bool-cases (safe_to_delete_trace t k)) [
  | inl safe ↦ rw safe (remove_trace-SameSpans h k t)
  | inr not_yet ↦ rw not_yet (here, refl, refl)
]

enough_fuel :
    (h : Heap) (p : ℕ) (t : Tracer)
    → Ends (Exporting h t.waiting_list p t) (export_waiting_for_parent_vec (enough t) h p t)
enough_fuel h p t =
    export_waiting-Goes h t.waiting_list (enough t) p t (λ k ps f. f)
      (omega (
        arith,
        pending-le-length h t.exported_spans (all_waiting t.waiting_list),
        count_waiting-all t.waiting_list,
      ))

-- A span that is exported, and with it those that waited for it.
exported_done :
    (h : Heap) (p : ℕ) (s : Span) (t : Tracer) (k : ℕ) (parent : Option ℕ)
    → get_elem? h.spans p ≡ some s
    → Step h t (with_export t (entry p s.id parent))
    → Ends (DoneAs h p t) (do
      t2 ←
          export_waiting_for_parent_vec
            (enough (with_export t (entry p s.id parent)))
            h
            p
            (with_export t (entry p s.id parent))
      delete_trace_if_safe k t2)
exported_done h p s t k parent e st =
    let u = with_export t (entry p s.id parent) in
    Ends->>= (Exporting h u.waiting_list p u) (DoneAs h p t)
      (export_waiting_for_parent_vec (enough u) h p u) _ (enough_fuel h p u)
      (λ t2 (st2, part2, ready2).
        Ends-map (SameSpans h t2) (DoneAs h p t) (delete_trace_if_safe k t2)
          (delete_trace_if_safe-SameSpans h k t2)
          (λ t3 (st3, ex3, wl3). (
            Steps-trans (Steps-trans (next here st) st2) st3,
            (λ r k' ps f c.
                ready2 s [] e (Ready-export s.id p parent [] t r) k' ps
                  (ap (λ m. find m k') (sym wl3) ∙ f) (ap (λ l. contains l k') (sym ex3) ∙ c)),
            inl (
              s,
              e,
              Steps-Grows st3 s.id (Steps-Grows st2 s.id (contains_head s.id t.exported_spans)),
            ),
          )))

pub export_done-DoneAs :
    (h : Heap) (p : ℕ) (s : Span) (k : ℕ) (t : Tracer)
    → get_elem? h.spans p ≡ some s
    → ParentWas h s t.exported_spans
    → Ends (DoneAs h p t) (export_done h p s k t)
unfolding export_done
export_done-DoneAs h p s k t e w =
    Ends->>= (Marked h p s t) (DoneAs h p t) (export_marked h p s t) _
      (export_marked-Marked h p s t w)
      (λ t1 (parent, eq, new, valid, earlier).
        subst
          (λ u.
            Ends (DoneAs h p t)
              (do t2 ← export_waiting_for_parent_vec (enough u) h p u; delete_trace_if_safe k t2))
          (sym eq)
          (exported_done h p s t k parent e
            (export t s (entry p s.id parent) e refl valid new earlier)))

-- What the test of `MarkSpanAsDone` says.
abbrev pub WasExported : Heap → Span → Tracer → Bool → Type 0
WasExported h s t true = ParentWas h s t.exported_spans
WasExported h s t false =
    (i : ℕ) × (get_valid_parent_id h s ≡ returns i) × (contains t.exported_spans i ≡ false)

valid_parent_was :
    (h : Heap) (s : Span) (t : Tracer) (i : ℕ)
    → get_valid_parent_id h s ≡ returns i
    → (b : Bool) → contains t.exported_spans i ≡ b
    → WasExported h s t b
valid_parent_was h s t i e true c = found_parent h s t.exported_spans i e c
valid_parent_was h s t i e false c = (i, e, c)

no_parent_was :
    (h : Heap) (s : Span) (t : Tracer) → has_parent h s ≡ returns false → WasExported h s t true
no_parent_was h s t e i f g = absurd (cc (returns-inj false true (sym e ∙ f)))

pub was_parent_exported-WasExported :
    (h : Heap) (s : Span) (t : Tracer) → Ends (WasExported h s t) (was_parent_exported h s t)
unfolding was_parent_exported
was_parent_exported-WasExported h s t =
    Ends-returned (WasExported h s t) (has_parent h s) _ (has_parent-IsFinite h s)
      (parent_split h s t)
  where
    parent_split :
        (h : Heap) (s : Span) (t : Tracer) (b : Bool)
        → has_parent h s ≡ returns b
        → Ends (WasExported h s t) (elim b [
          | false ↦ returns true
          | true ↦ do
            parent_id ← get_valid_parent_id h s
            returns (contains t.exported_spans parent_id)
        ])
    parent_split h s t false e = no_parent_was h s t e
    parent_split h s t true e =
        Ends-returned (WasExported h s t) (get_valid_parent_id h s) _
          (get_valid_parent_id-IsFinite h s)
          (λ i f. valid_parent_was h s t i f (contains t.exported_spans i) refl)
