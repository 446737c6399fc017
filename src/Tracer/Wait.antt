-- ===== src/Tracer/Wait.antt =====
-- A span that has to wait for its parent, and MarkSpanAsDone as a whole.
use columbo.Base.{
  ℕ, ◌≡◌, ◌≢◌, refl, sym, ◌∙◌, ap, subst, Bool, true, false, Option, none, some, List, [], ◌∷◌,
  ◌++◌, ◌==◌, if◌then◌else◌, get_elem?, Bool-cases, inl, inr, arith, ==→eq, ==_refl,
}
use columbo.Tracer.{
  Heap, Span, Tracer, contains, find, push_back, has_parent, get_valid_parent_id,
  was_parent_exported, export_done, wait_done, mark_span_as_done, mark_span_as_waiting_for_parent,
}
use columbo.Tracer.Outcomes.{
  returns, exhausted, ◌>>=◌, deref, Ends, Ends->>=, Ends-check, Ends-deref, Ends-returned,
}
use columbo.Tracer.Exports.{wait_for_parent, here, next, has_parent-IsFinite}
use columbo.Tracer.Ends.{Ready}
use columbo.Tracer.Mark.{DoneAs, WasExported, was_parent_exported-WasExported, export_done-DoneAs}

-- The list of a key after a span was put at its end.
abbrev pub with_back : Option (List ℕ) → ℕ → List ℕ
with_back none v = v ∷ []
with_back (some vs) v = vs ++ v ∷ []

pub find-push_back_self :
    (k v : ℕ) (m : List (ℕ × List ℕ)) → find (push_back k v m) k ≡ some (with_back (find m k) v)
find-push_back_self k v [] = rw (==_refl k) refl
find-push_back_self k v ((j, vs) ∷ m) = elim (Bool-cases (j == k)) [
  | inl same ↦ rw same (rw same refl)
  | inr other ↦ rw other (rw other (find-push_back_self k v m))
]

pub find-push_back_ne :
    (k j v : ℕ) (m : List (ℕ × List ℕ)) → (k == j) ≡ false → find (push_back k v m) j ≡ find m j
find-push_back_ne k j v [] ne = rw ne refl
find-push_back_ne k j v ((i, vs) ∷ m) ne = elim (Bool-cases (i == k)) [
  | inl same ↦ ground (arith, same, ne)
  | inr other ↦ ground (arith, other, find-push_back_ne k j v m ne)
]

pub contains_back : (vs : List ℕ) (v : ℕ) → contains (vs ++ v ∷ []) v ≡ true
contains_back [] v = ground arith
contains_back (w ∷ vs) v = ground (arith, contains_back vs v)

pub contains-with_back : (o : Option (List ℕ)) (v : ℕ) → contains (with_back o v) v ≡ true
contains-with_back none v = ground arith
contains-with_back (some vs) v = contains_back vs v

-- One more list, of a parent that is not exported.
Ready-push_back :
    (i p : ℕ) (t : Tracer)
    → contains t.exported_spans i ≡ false
    → Ready [] t
    → Ready [] (record t { waiting_list = push_back i p t.waiting_list })
Ready-push_back i p t new r k ps f c = elim (Bool-cases (i == k)) [
  | inl same ↦
      absurd (true≢false (sym c ∙ sym (ap (contains t.exported_spans) (==→eq i k same)) ∙ new))
  | inr other ↦ r k ps (sym (find-push_back_ne i k p t.waiting_list other) ∙ f) c
]
  where
    true≢false : true ≢ false
    true≢false e = cc e

waiting :
    (h : Heap) (p : ℕ) (s : Span) (t : Tracer) (i : ℕ)
    → get_elem? h.spans p ≡ some s
    → get_valid_parent_id h s ≡ returns i
    → contains t.exported_spans i ≡ false
    → DoneAs h p t (record t { waiting_list = push_back i p t.waiting_list })
waiting h p s t i e f new = (
  next here (wait_for_parent t p s i e f new),
  Ready-push_back i p t new,
  inr (
    i,
    (s, e, f),
    (
      with_back (find t.waiting_list i) p,
      find-push_back_self i p t.waiting_list,
      contains-with_back (find t.waiting_list i) p,
    ),
  ),
)

mark_span_as_waiting-DoneAs :
    (h : Heap) (p : ℕ) (s : Span) (t : Tracer) (i : ℕ)
    → get_elem? h.spans p ≡ some s
    → has_parent h s ≡ returns true
    → get_valid_parent_id h s ≡ returns i
    → contains t.exported_spans i ≡ false
    → Ends (DoneAs h p t) (mark_span_as_waiting_for_parent h p t)
unfolding mark_span_as_waiting_for_parent
mark_span_as_waiting-DoneAs h p s t i e b f new =
    rw (e, b, f, Ends, ◌>>=◌, deref) (waiting h p s t i e f new)

wait_done-DoneAs :
    (h : Heap) (p : ℕ) (s : Span) (t : Tracer) (i : ℕ)
    → get_elem? h.spans p ≡ some s
    → get_valid_parent_id h s ≡ returns i
    → contains t.exported_spans i ≡ false
    → Ends (DoneAs h p t) (wait_done h p s t)
unfolding wait_done
wait_done-DoneAs h p s t i e f new =
    Ends-returned (DoneAs h p t) (has_parent h s) _ (has_parent-IsFinite h s) (λ b eb.
      Ends-check (DoneAs h p t) b (mark_span_as_waiting_for_parent h p t)
        (λ yes_it. mark_span_as_waiting-DoneAs h p s t i e (eb ∙ ap returns yes_it) f new))

after_test :
    (h : Heap) (p : ℕ) (s : Span) (k : ℕ) (t : Tracer)
    → get_elem? h.spans p ≡ some s
    → (b : Bool) → WasExported h s t b
    → Ends (DoneAs h p t) (if b then export_done h p s k t else wait_done h p s t)
after_test h p s k t e true w = export_done-DoneAs h p s k t e w
after_test h p s k t e false (i, f, new) = wait_done-DoneAs h p s t i e f new

pub mark_span_as_done-DoneAs :
    (h : Heap) (p : ℕ) (t : Tracer) → Ends (DoneAs h p t) (mark_span_as_done h p t)
unfolding mark_span_as_done
mark_span_as_done-DoneAs h p t = Ends-deref (DoneAs h p t) (get_elem? h.spans p) _ (λ s e.
    Ends-deref (DoneAs h p t) s.context _ (λ c ec.
      Ends-deref (DoneAs h p t) (get_elem? h.contexts c) _ (λ context ex.
        Ends->>= (WasExported h s t) (DoneAs h p t) (was_parent_exported h s t) _
          (was_parent_exported-WasExported h s t) (after_test h p s context.trace_id t e))))

-- In every state, whatever span it gets, MarkSpanAsDone comes to an end: a call of ExportWaitingForParentVec for
-- each waiting span and one more are enough fuel.
pub mark_ends : (h : Heap) (p : ℕ) (t : Tracer) → mark_span_as_done h p t ≢ exhausted
mark_ends h p t e = subst (Ends (DoneAs h p t)) e (mark_span_as_done-DoneAs h p t)
