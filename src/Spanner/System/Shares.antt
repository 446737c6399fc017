-- ===== src/Spanner/System/Shares.antt =====
-- Which spanner of a system started a span, and which marked it.
use columbo.Base.{
  ℕ, ◌≡◌, refl, sym, ap, ◌∙◌, ◌++◌, ◌∷◌, ◌==◌, true, false, List, [], Bool-cases, inl, inr, ==→eq,
  ==_refl, subst, if◌then◌else◌, arith,
}
use columbo.Tracer.{contains}
use columbo.Spanner.Runs.{Once, IsAmong, MayMark}
use columbo.Spanner.Own.{contains-++, among_more}

-- The spans of one spanner among all of them, each with the place of its spanner.
abbrev pub of : ℕ → List (ℕ × ℕ) → List ℕ
of i [] = []
of i ((p, j) ∷ os) = if j == i then p ∷ of i os else of i os

abbrev pub spans : List (ℕ × ℕ) → List ℕ
spans [] = []
spans ((p, j) ∷ os) = p ∷ spans os

abbrev pub tag : ℕ → List ℕ → List (ℕ × ℕ) → List (ℕ × ℕ)
tag i [] os = os
tag i (p ∷ ps) os = (p, i) ∷ tag i ps os

pub spans-tag : (i : ℕ) (ps : List ℕ) (os : List (ℕ × ℕ)) → spans (tag i ps os) ≡ ps ++ spans os
spans-tag i [] os = refl
spans-tag i (p ∷ ps) os = ap (λ qs. p ∷ qs) (spans-tag i ps os)

pub of-tag : (i : ℕ) (ps : List ℕ) (os : List (ℕ × ℕ)) → of i (tag i ps os) ≡ ps ++ of i os
of-tag i [] os = refl
of-tag i (p ∷ ps) os = rw (==_refl i) (ap (λ qs. p ∷ qs) (of-tag i ps os))

pub of_other :
    (i j : ℕ) (ps : List ℕ) (os : List (ℕ × ℕ)) → (i == j) ≡ false → of j (tag i ps os) ≡ of j os
of_other i j [] os other = refl
of_other i j (p ∷ ps) os other = rw other (of_other i j ps os other)

pub of-IsAmong : (i : ℕ) (os : List (ℕ × ℕ)) → IsAmong (of i os) (spans os)
of-IsAmong i [] p c = c
of-IsAmong i ((q, j) ∷ os) p c = elim (Bool-cases (j == i)) [
  | inr other ↦ among_more (spans os) q p (of-IsAmong i os p (rw other at c))
  | inl mine ↦ elim (Bool-cases (q == p)) [
    | inl same ↦ rw same refl
    | inr another ↦ rw another (of-IsAmong i os p (rw another at (rw mine at c)))
  ]
]

-- Every span is some spanner's.
of_some :
    (os : List (ℕ × ℕ)) (p : ℕ)
    → contains (spans os) p ≡ true
    → (i : ℕ) × (contains (of i os) p ≡ true)
of_some [] p c = absurd (cc c)
of_some ((q, j) ∷ os) p c = elim (Bool-cases (q == p)) [
  | inl same ↦ (j, rw (==_refl j, same) refl)
  | inr another ↦
      let (i, there) = of_some os p (rw another at c) in
      elim (Bool-cases (j == i)) [
        | inl mine ↦ (i, rw mine (among_more (of i os) q p there))
        | inr other ↦ (i, rw other there)
      ]
]

not_there :
    (i : ℕ) (os : List (ℕ × ℕ)) (p : ℕ)
    → contains (spans os) p ≡ false
    → contains (of i os) p ≡ false
not_there i os p out = elim (Bool-cases (contains (of i os) p)) [
  | inl c ↦ absurd (let b = of-IsAmong i os p c in cc (b, out))
  | inr c ↦ c
]

of_later :
    (i k q p : ℕ) (os : List (ℕ × ℕ))
    → (q == p) ≡ false
    → contains (of i ((q, k) ∷ os)) p ≡ true
    → contains (of i os) p ≡ true
of_later i k q p os another c = elim (Bool-cases (k == i)) [
  | inl mine ↦ rw another at (rw mine at c)
  | inr other ↦ rw other at c
]

of_first :
    (i k q p : ℕ) (os : List (ℕ × ℕ))
    → (q == p) ≡ true
    → contains (spans os) q ≡ false
    → contains (of i ((q, k) ∷ os)) p ≡ true
    → k ≡ i
of_first i k q p os same out c = elim (Bool-cases (k == i)) [
  | inl mine ↦ ==→eq k i mine
  | inr other ↦ absurd (
      let gone =
        not_there i os p (subst (λ r. contains (spans os) r ≡ false) (==→eq q p same) out) in
      let there = rw other at c in cc (there, gone))
]

-- No span has two spanners.
of_unique :
    (os : List (ℕ × ℕ)) (i j p : ℕ)
    → Once (spans os)
    → contains (of i os) p ≡ true
    → contains (of j os) p ≡ true
    → i ≡ j
of_unique [] i j p once a b = absurd (cc a)
of_unique ((q, k) ∷ os) i j p (out, once) a b = elim (Bool-cases (q == p)) [
  | inr another ↦
      of_unique os i j p once (of_later i k q p os another a) (of_later j k q p os another b)
  | inl same ↦ sym (of_first i k q p os same out a) ∙ of_first j k q p os same out b
]

-- What a spanner may mark, nobody marked.
nobody_marked :
    (os gm : List (ℕ × ℕ)) (i p : ℕ)
    → Once (spans os)
    → ((j : ℕ) → IsAmong (of j gm) (of j os))
    → contains (of i os) p ≡ true
    → contains (of i gm) p ≡ false
    → contains (spans gm) p ≡ false
nobody_marked os gm i p once mine own unmarked = elim (Bool-cases (contains (spans gm) p)) [
  | inr c ↦ c
  | inl c ↦ absurd (
      let (j, there) = of_some gm p c in
      let same = of_unique os j i p once (mine j p there) own in
      let here = subst (λ k. contains (of k gm) p ≡ true) same there in cc (here, unmarked))
]

pub may_mark_all :
    (os gm : List (ℕ × ℕ)) (i : ℕ) (ps : List ℕ)
    → Once (spans os)
    → ((j : ℕ) → IsAmong (of j gm) (of j os))
    → MayMark (of i os) (of i gm) ps
    → MayMark (of i os) (spans gm) ps
may_mark_all os gm i [] once mine may = tt
may_mark_all os gm i (p ∷ ps) once mine (own, new, may) = (
  own,
  (let out = nobody_marked os gm i p once mine own (grind (arith, contains-++ ps (of i gm) p)) in
      grind (arith, contains-++ ps (of i gm) p, contains-++ ps (spans gm) p)),
  may_mark_all os gm i ps once mine may,
)
