-- ===== src/Tracer/Ends.antt =====
-- Exporting the spans that wait comes to an end: each call of ExportWaitingForParentVec exports a span that was not
-- exported before.
use columbo.Base.{
  ℕ, suc, ◌+◌, ◌≤◌, ◌<◌, ◌≡◌, refl, sym, ◌∙◌, ap, subst, true, false, Option, none, some, List, [],
  ◌∷◌, ◌++◌, ◌==◌, if◌then◌else◌, get_elem?, length, length-append, Bool-cases, inl, inr, arith,
  ==→eq,
}
use columbo.Tracer.{
  Heap, Span, Tracer, entry, contains, find, get_parent_id, get_valid_parent_id, is_valid_id,
  export_marked, export_waiters, count_waiting,
}
use columbo.Tracer.Outcomes.{
  Result, returns, ◌>>=◌, Ends, Ends->>=, Ends-check, Ends-deref, Ends-returned, Ends-map,
  returned_value, IsFinite,
}
use columbo.Tracer.Exports.{
  Steps, export, here, next, Steps-trans, Grows, Grows-cons, Steps-Grows, AllExported, IsPart,
  ParentWas, Marked, export_marked-Marked, get_parent_id-IsFinite, with_export,
}

-- All the spans that wait, and how many of those in a list are not exported yet.
abbrev pub all_waiting : List (ℕ × List ℕ) → List ℕ
all_waiting [] = []
all_waiting ((k, ps) ∷ m) = ps ++ all_waiting m

abbrev pub still_in : List ℕ → Option Span → ℕ
still_in ids none = 0
still_in ids (some s) = if contains ids s.id then 0 else 1

abbrev pub pending : Heap → List ℕ → List ℕ → ℕ
pending h ids [] = 0
pending h ids (p ∷ ps) = still_in ids (get_elem? h.spans p) + pending h ids ps

still_in-Grows :
    (ids ids' : List ℕ) (o : Option Span) → Grows ids ids' → still_in ids' o ≤ still_in ids o
still_in-Grows ids ids' none g = omega arith
still_in-Grows ids ids' (some s) g = ground (arith, g s.id)

pub pending-Grows :
    (h : Heap) (ids ids' ps : List ℕ) → Grows ids ids' → pending h ids' ps ≤ pending h ids ps
pending-Grows h ids ids' [] g = omega arith
pending-Grows h ids ids' (p ∷ ps) g =
    omega (arith, still_in-Grows ids ids' (get_elem? h.spans p) g, pending-Grows h ids ids' ps g)

still_in_new :
    (ids : List ℕ) (o : Option Span) (s : Span)
    → o ≡ some s
    → contains ids s.id ≡ false
    → still_in (s.id ∷ ids) o + 1 ≤ still_in ids o
still_in_new ids none s e f = absurd (cc e)
still_in_new ids (some t) s e f = ground (arith, e, f)

-- A span that waits and is exported now does not count any more.
pub pending_less :
    (h : Heap) (ids ps : List ℕ) (p : ℕ) (s : Span)
    → contains ps p ≡ true
    → get_elem? h.spans p ≡ some s
    → contains ids s.id ≡ false
    → pending h (s.id ∷ ids) ps < pending h ids ps
pending_less h ids [] p s c e f = absurd (cc c)
pending_less h ids (q ∷ ps) p s c e f = elim (Bool-cases (q == p)) [
  | inl same ↦ omega (
    arith,
    still_in_new ids (get_elem? h.spans q) s (ap (get_elem? h.spans) (==→eq q p same) ∙ e) f,
    pending-Grows h ids (s.id ∷ ids) ps (Grows-cons ids s.id),
  )
  | inr other ↦ omega (
    arith,
    still_in-Grows ids (s.id ∷ ids) (get_elem? h.spans q) (Grows-cons ids s.id),
    pending_less h ids ps p s (rw other at c) e f,
  )
]

still_in-le-one : (ids : List ℕ) (o : Option Span) → still_in ids o ≤ 1
still_in-le-one ids none = omega arith
still_in-le-one ids (some s) = ground arith

pub pending-le-length : (h : Heap) (ids ps : List ℕ) → pending h ids ps ≤ length ps
pending-le-length h ids [] = omega arith
pending-le-length h ids (p ∷ ps) =
    omega (arith, still_in-le-one ids (get_elem? h.spans p), pending-le-length h ids ps)

pub count_waiting-all : (m : List (ℕ × List ℕ)) → length (all_waiting m) ≡ count_waiting m
count_waiting-all [] = refl
count_waiting-all ((k, ps) ∷ m) =
    length-append ps (all_waiting m) ∙ ap (◌+◌ (length ps)) (count_waiting-all m)

-- Of the spans that others wait for, only those in the list are exported.
abbrev pub Ready : List ℕ → Tracer → Type 0
Ready ids t =
    (k : ℕ) (ps : List ℕ)
    → find t.waiting_list k ≡ some ps
    → contains t.exported_spans k ≡ true
    → contains ids k ≡ true

-- What exporting the spans that wait for one comes to; `all` is the waiting list at first.
abbrev pub Exporting : Heap → List (ℕ × List ℕ) → ℕ → Tracer → Tracer → Type 0
Exporting h all p t t' =
    Steps h t t'
    × IsPart t'.waiting_list all
    × ((s : Span) (ids : List ℕ)
        → get_elem? h.spans p ≡ some s
        → Ready (s.id ∷ ids) t
        → Ready ids t')

valid_parent :
    (h : Heap) (s : Span) (i : ℕ)
    → get_valid_parent_id h s ≡ returns i
    → get_parent_id h s ≡ returns i
unfolding get_valid_parent_id
valid_parent h s i e = returned_value (get_parent_id h s) is_valid_id i e

returns-inj : {A : Type 0} (i j : A) → returns i ≡ returns j → i ≡ j
returns-inj i j e = cc e

pub get_valid_parent_id-IsFinite : (h : Heap) (s : Span) → IsFinite (get_valid_parent_id h s)
unfolding get_valid_parent_id
get_valid_parent_id-IsFinite h s =
    Ends->>= (λ i. Unit {0}) (λ i. Unit {0}) (get_parent_id h s) _ (get_parent_id-IsFinite h s)
      (λ i u. Ends-check (λ (j : ℕ). Unit {0}) (is_valid_id i) (returns i) (λ v. tt))

-- A parent that was found exported.
pub found_parent :
    (h : Heap) (s : Span) (ids : List ℕ) (i : ℕ)
    → get_valid_parent_id h s ≡ returns i
    → contains ids i ≡ true
    → ParentWas h s ids
found_parent h s ids i e c j b f =
    subst (λ k. contains ids k ≡ true) (returns-inj i j (sym (valid_parent h s i e) ∙ f)) c

pub some-inj : {A : Type 0} (a b : A) → some a ≡ some b → a ≡ b
some-inj a b e = cc e

pub contains_head : (i : ℕ) (ids : List ℕ) → contains (i ∷ ids) i ≡ true
contains_head i ids = ground arith

contains_tail : (i : ℕ) (ids : List ℕ) (k : ℕ) → contains ids k ≡ true → contains (i ∷ ids) k ≡ true
contains_tail i ids k c = ground arith

pub Ready-export :
    (i p : ℕ) (parent : Option ℕ) (ids : List ℕ) (t : Tracer)
    → Ready ids t
    → Ready (i ∷ ids) (with_export t (entry p i parent))
Ready-export i p parent ids t r k ps f c = ground (arith, r k ps f)

module _ (h : Heap) (all : List (ℕ × List ℕ)) where
  -- The recursive call does what it should in a state with fewer than `n` pending spans.
  abbrev pub Goes : ℕ → (ℕ → Tracer → Result Tracer) → Type 0
  Goes n again =
      (p : ℕ) (t : Tracer)
      → IsPart t.waiting_list all
      → pending h t.exported_spans (all_waiting all) < n
      → Ends (Exporting h all p t) (again p t)

  abbrev pub Waited : List ℕ → Tracer → Tracer → Type 0
  Waited ps t t' =
      Steps h t t'
      × IsPart t'.waiting_list all
      × AllExported h t'.exported_spans ps
      × ((ids : List ℕ) → Ready ids t → Ready ids t')

  loop_rest :
      (n : ℕ) (again : ℕ → Tracer → Result Tracer)
      → Goes n again
      → (p : ℕ) (ps : List ℕ) (s : Span) (t : Tracer) (parent : Option ℕ)
      → get_elem? h.spans p ≡ some s
      → Steps h t (with_export t (entry p s.id parent))
      → IsPart t.waiting_list all
      → pending h (s.id ∷ t.exported_spans) (all_waiting all) < n
      → ((t2 : Tracer)
          → IsPart t2.waiting_list all
          → pending h t2.exported_spans (all_waiting all) < n
          → Ends (Waited ps t2) (export_waiters h again ps t2))
      → Ends
          (Waited (p ∷ ps) t)
          (do t2 ← again p (with_export t (entry p s.id parent)); export_waiters h again ps t2)
  loop_rest n again go p ps s t parent e st part less more =
      let u = with_export t (entry p s.id parent) in
      Ends->>= (Exporting h all p u) (Waited (p ∷ ps) t) (again p u) _ (go p u part less)
        (λ t2 (st2, part2, ready2).
          Ends-map (Waited ps t2) (Waited (p ∷ ps) t) (export_waiters h again ps t2)
            (more t2 part2 (
              omega (
                arith,
                less,
                pending-Grows h u.exported_spans t2.exported_spans (all_waiting all)
                    (Steps-Grows st2),
              )))
            (λ t3 (st3, part3, done, ready3). (
              Steps-trans (Steps-trans st st2) st3,
              part3,
              (
                (λ s' e'. Steps-Grows st3 s'.id (
                    Steps-Grows st2 s'.id (
                      subst (λ (o : Span). contains (s.id ∷ t.exported_spans) o.id ≡ true)
                        (some-inj s s' (sym e ∙ e')) (contains_head s.id t.exported_spans)))),
                done,
              ),
              λ ids r. ready3 ids (ready2 s ids e (Ready-export s.id p parent ids t r)),
            )))

  pub export_waiters-Waited :
      (n : ℕ) (again : ℕ → Tracer → Result Tracer)
      → Goes n again
      → (ps : List ℕ) (t : Tracer)
      → ((q : ℕ) → contains ps q ≡ true → contains (all_waiting all) q ≡ true)
      → IsPart t.waiting_list all
      → pending h t.exported_spans (all_waiting all) < suc n
      → Ends (Waited ps t) (export_waiters h again ps t)
  unfolding export_waiters
  export_waiters-Waited n again go [] t listed part less = (here, part, tt, λ ids r. r)
  export_waiters-Waited n again go (p ∷ ps) t listed part less =
      Ends-deref (Waited (p ∷ ps) t) (get_elem? h.spans p) _ (λ s e.
        Ends-returned (Waited (p ∷ ps) t) (get_valid_parent_id h s) _
          (get_valid_parent_id-IsFinite h s)
          (λ i ei.
            Ends-check (Waited (p ∷ ps) t) (contains t.exported_spans i)
              (do t1 ← export_marked h p s t; t2 ← again p t1; export_waiters h again ps t2)
              (λ c.
                Ends->>= (Marked h p s t) (Waited (p ∷ ps) t) (export_marked h p s t) _
                  (export_marked-Marked h p s t (found_parent h s t.exported_spans i ei c))
                  (λ t1 (parent, eq, new, valid, earlier).
                    subst
                      (λ u.
                        Ends (Waited (p ∷ ps) t) (do t2 ← again p u; export_waiters h again ps t2))
                      (sym eq)
                      (loop_rest n again go p ps s t parent e
                        (next here (export t s (entry p s.id parent) e refl valid new earlier)) part
                        (omega (
                          arith,
                          pending_less h t.exported_spans (all_waiting all) p s
                              (listed p (contains_head p ps)) e new,
                        ))
                        (λ t2 part2 less2.
                          export_waiters-Waited n again go ps t2
                            (λ q c'. listed q (contains_tail p ps q c')) part2 (omega arith)))))))
