-- ===== src/Spanner/Iterate.antt =====
-- Which pending spans `iterate_add_erase` leaves (include/analytics/spanner.h).
use columbo.Base.{
  ℕ, Bool, true, false, ◌++◌, ◌∷◌, Option, none, some, List, [], Bool-cases, inl, inr,
}
use columbo.Span.{Event, Base}
use columbo.Spanner.{Prog, finish, ◌>>=◌, ◌>>◌, change_base, iterate_add_erase, add_to_pending}
use columbo.Spanner.Runs.{MayMark, Safe}
use columbo.Spanner.Keeps.{Holds, marked_one}

abbrev pub pointers : {S : Type 0} → List (ℕ × S) → List ℕ
pointers [] = []
pointers ((p, s) ∷ pending) = p ∷ pointers pending

-- The pointers before and after, the span that took the event, and whether it still is pending.
pub data Iterated : List ℕ → List ℕ → Option (ℕ × Bool) → Type 0 where
  untaken : (ps : List ℕ) → Iterated ps ps none
  stays : (ps : List ℕ) (p : ℕ) → Iterated ps ps (some (p, true))
  erased :
      (before behind : List ℕ) (p : ℕ)
      → Iterated (before ++ p ∷ behind) (before ++ behind) (some (p, false))

behind_another :
    (q : ℕ) {ps qs : List ℕ} {taken : Option (ℕ × Bool)}
    → Iterated ps qs taken
    → Iterated (q ∷ ps) (q ∷ qs) taken
behind_another q (untaken ps) = untaken (q ∷ ps)
behind_another q (stays ps p) = stays (q ∷ ps) p
behind_another q (erased before behind p) = erased (q ∷ before) behind p

module _ {S : Type 0} (add : S → Option Event → S × Bool) (base : S → Base) where
  abbrev pub taken_by : Option (ℕ × S) → Option (ℕ × Bool)
  taken_by none = none
  taken_by (some (p, s)) = some (p, (base s).is_pending)

  pub iterate_add_erase-Iterated :
      (pending : List (ℕ × S)) (e : Event)
      → let r = iterate_add_erase add base pending e in
        Iterated (pointers pending) (pointers r.0) (taken_by r.1)
  unfolding iterate_add_erase
  iterate_add_erase-Iterated [] e = untaken []
  iterate_add_erase-Iterated ((p, s) ∷ pending) e = elim (Bool-cases (add s (some e)).1) [
    | inr other ↦ rw other (behind_another p (iterate_add_erase-Iterated pending e))
    | inl took ↦ rw took (elim (Bool-cases (base (add s (some e)).0).is_pending) [
      | inl more ↦ rw more (stays (p ∷ pointers pending) p)
      | inr complete ↦ rw complete (erased [] (pointers pending) p)
    ])
  ]

  -- What `add_to_pending` hands on: where the span is complete, it is no pending span, and may be marked.
  abbrev pub Handed : List ℕ → Option (ℕ × Bool) → List ℕ → List ℕ → Type 0
  Handed ps none own ms = Holds ps own ms
  Handed ps (some (p, true)) own ms = Holds ps own ms
  Handed ps (some (p, false)) own ms = MayMark own ms (p ∷ []) × Holds ps own (p ∷ ms)

  Iterated-Handed :
      {ps qs : List ℕ} {taken : Option (ℕ × Bool)} (own ms : List ℕ)
      → Iterated ps qs taken
      → Holds ps own ms
      → Handed qs taken own ms
  Iterated-Handed own ms (untaken ps) h = h
  Iterated-Handed own ms (stays ps p) h = h
  Iterated-Handed own ms (erased before behind p) h = marked_one before behind own p ms h

  pub changed :
      {B : Type 0} (Q : B → List ℕ → List ℕ → Type 0) (r : List (ℕ × S) × Option (ℕ × S))
      (f : List (ℕ × S) × Option (ℕ × S) → Prog B) (own ms : List ℕ)
      → Safe Q (f r) own ms
      → Safe Q
          (elim r.1 [
            | none ↦ finish (r.0, none)
            | some (p, s) ↦ do change_base p (base s); finish (r.0, some (p, s))
          ]
            >>= f)
          own
          ms
  changed Q (pending, none) f own ms s = s
  changed Q (pending, some (p, t)) f own ms s = (tt, s)

  pub add_to_pending-Safe :
      {B : Type 0} (Q : B → List ℕ → List ℕ → Type 0) (pending : List (ℕ × S)) (e : Event)
      (f : List (ℕ × S) × Option (ℕ × S) → Prog B) (own ms : List ℕ)
      → Holds (pointers pending) own ms
      → ((pending' : List (ℕ × S)) (taken : Option (ℕ × S))
          → Handed (pointers pending') (taken_by taken) own ms
          → Safe Q (f (pending', taken)) own ms)
      → Safe Q (add_to_pending add base pending e >>= f) own ms
  unfolding add_to_pending
  add_to_pending-Safe Q pending e f own ms h k =
      let r = iterate_add_erase add base pending e in
      changed Q r f own ms
        (k r.0 r.1 (Iterated-Handed own ms (iterate_add_erase-Iterated pending e) h))
