-- ===== src/SymsFilter/Table.antt =====
-- The symbol table of SymsFilter (source/env/symtable.cc) as a map.
use columbo.Base.{
  ℕ, ◌+◌, ◌≤◌, ◌<◌, ◌≡◌, refl, sym, Bool, true, false, Option, none, some, List, [], ◌∷◌, ltb, ◌==◌,
  ==→eq, ltb→lt, arith, if◌then◌else◌, Bool-cases, inl, inr,
}
use columbo.SymsFilter.{Entry, insert, find}

-- The keys go up, from a lowest one on.
abbrev pub Sorted : ℕ → List Entry → Type 0
Sorted low [] = Unit {0}
Sorted low ((k, s) ∷ es) = (low ≤ k) × Sorted (k + 1) es

pub Sorted-find :
    (low : ℕ) (es : List Entry) (k s : ℕ) → Sorted low es → find es k ≡ some s → low ≤ k
unfolding find
Sorted-find low [] k s d e = absurd (cc e)
Sorted-find low ((k0, s0) ∷ es) k s d e = elim (Bool-cases (k0 == k)) [
  | inl t ↦ omega (arith, ==→eq k0 k t, d.0)
  | inr f ↦ omega (arith, Sorted-find (k0 + 1) es k s d.1 (rw f at e), d.0)
]

find_below : (low : ℕ) (es : List Entry) (k : ℕ) → Sorted low es → k < low → find es k ≡ none
unfolding find
find_below low [] k d l = refl
find_below low ((k0, s0) ∷ es) k d l =
    let other : (k0 == k) ≡ false = ground (arith, d.0) in
    rw other (find_below (k0 + 1) es k d.1 (omega (arith, d.0)))

pub insert-Sorted :
    (low : ℕ) (es : List Entry) (address sym : ℕ)
    → Sorted low es
    → low ≤ address
    → Sorted low (insert es address sym).0
unfolding insert
insert-Sorted low [] address sym d l = (l, tt)
insert-Sorted low ((k, s) ∷ es) address sym d l = elim (Bool-cases (ltb address k)) [
  | inl t ↦ rw t (l, (omega (arith, ltb→lt _ _ t), d.1))
  | inr f ↦ rw f (elim (Bool-cases (address == k)) [
    | inl e ↦ rw e d
    | inr n ↦ rw n (d.0, insert-Sorted (k + 1) es address sym d.1 (ground (arith, f, n)))
  ])
]

-- The first symbol of an address stays.
abbrev pub kept : Option ℕ → ℕ → Option ℕ
kept none sym = some sym
kept (some s) sym = some s

abbrev pub is_none : Option ℕ → Bool
is_none none = true
is_none (some s) = false

-- An insertion makes the address lead to its first symbol, changes nothing of the others, and says whether
-- the address was new.
pub insert-find :
    (low : ℕ) (es : List Entry) (address sym other : ℕ)
    → Sorted low es
    → (find (insert es address sym).0 other
        ≡ (if address == other then kept (find es address) sym else find es other))
      × ((insert es address sym).1 ≡ is_none (find es address))
unfolding insert find
insert-find low [] address sym other d = (refl, refl)
insert-find low ((k, s) ∷ es) address sym other d = elim (Bool-cases (ltb address k)) [
  | inl t ↦
      let absent : (k == address) ≡ false = ground (arith, t) in
      let gone = find_below (k + 1) es address d.1 (omega (arith, ltb→lt _ _ t)) in
      rw (t, absent, gone) (refl, refl)
  | inr f ↦ rw f (elim (Bool-cases (address == k)) [
    | inl e ↦
        let same : (k == address) ≡ true = ground (arith, e) in
        rw (e, same)
          (elim (Bool-cases (address == other)) [
            | inl o ↦
                let at_k : (k == other) ≡ true = ground (arith, e, o) in rw (o, at_k) (refl, refl)
            | inr o ↦ rw o (refl, refl)
          ])
    | inr n ↦
        let apart : (k == address) ≡ false = ground (arith, n) in
        let ih = insert-find (k + 1) es address sym other d.1 in
        rw (n, apart)
          (elim (Bool-cases (k == other)) [
            | inl o ↦
                let past : (address == other) ≡ false = ground (arith, n, o) in
                rw (o, past) (refl, ih.1)
            | inr o ↦ rw o ih
          ])
  ])
]
