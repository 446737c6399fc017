-- ===== src/SymsFilter/Nearest.antt =====
-- FilterNearestAddressUpper and FilterNearestAddressLower of SymsFilter (source/env/symtable.cc).
use columbo.Base.{
  ℕ, ◌+◌, ◌≤◌, ◌<◌, ◌≡◌, ◌⊎◌, refl, sym, ◌∙◌, ap, Bool, true, false, ◌||◌, Option, none, some, List,
  [], ◌∷◌, ltb, leb, leb→le, leb-false→lt, ◌==◌, ==→eq, ==_refl, arith, if◌then◌else◌, Bool-cases,
  inl, inr, subst,
}
use columbo.SymsFilter.{
  SymsFilter, Entry, find, first_not, previous, at_or_before, filter_nearest_address_upper,
  filter_nearest_address_lower,
}
use columbo.SymsFilter.Table.{Sorted, Sorted-find}

-- The last symbol at or below an address, or else `best`.
abbrev floor : Option ℕ → List Entry → ℕ → Option ℕ
floor best [] address = best
floor best ((k, s) ∷ es) address =
    let more = floor (some s) es address in if leb k address then more else best

upper-floor :
    (seen es : List Entry) (address : ℕ)
    → previous (first_not (λ k. leb k address) seen es).0 ≡ floor (previous seen) es address
unfolding first_not
upper-floor seen [] address = refl
upper-floor seen ((k, s) ∷ es) address = elim (Bool-cases (leb k address)) [
  | inl t ↦ rw t (upper-floor ((k, s) ∷ seen) es address)
  | inr f ↦ rw f refl
]

floor_above :
    (low : ℕ) (best : Option ℕ) (es : List Entry) (address : ℕ)
    → Sorted low es
    → address < low
    → floor best es address ≡ best
floor_above low best [] address d l = refl
floor_above low best ((k, s) ∷ es) address d l =
    let above : leb k address ≡ false = ground (arith, d.0) in rw above refl

-- Whether a key of the table is at or above an address.
abbrev pub reaches : List Entry → ℕ → Bool
reaches [] address = false
reaches ((k, s) ∷ es) address = leb address k || reaches es address

abbrev pub if_reached : Bool → Option ℕ → Option (Option ℕ)
if_reached true r = some r
if_reached false r = none

lower-floor :
    (low : ℕ) (seen es : List Entry) (address : ℕ)
    → Sorted low es
    → at_or_before address (first_not (λ k. ltb k address) seen es)
      ≡ if_reached (reaches es address) (floor (previous seen) es address)
unfolding first_not
lower-floor low seen [] address d = refl
lower-floor low seen ((k, s) ∷ es) address d = elim (Bool-cases (ltb k address)) [
  | inl t ↦
      let below : leb k address ≡ true = ground (arith, t) in
      let past : leb address k ≡ false = ground (arith, t) in
      rw (t, below, past) (lower-floor (k + 1) ((k, s) ∷ seen) es address d.1)
  | inr f ↦
      let reached : leb address k ≡ true = ground (arith, f) in
      rw (f, reached)
        (elim (Bool-cases (k == address)) [
          | inl e ↦
              let at : leb k address ≡ true = ground (arith, e) in
              rw
                (
                  e,
                  at,
                  floor_above (k + 1) (some s) es address d.1 (omega (arith, ==→eq k address e)),
                )
                refl
          | inr n ↦
              let above : leb k address ≡ false = ground (arith, f, n) in
              let less : ltb address k ≡ true = ground (arith, f, n) in rw (n, above, less) refl
        ])
]

-- The symbol of the greatest address of a table that is not above the one asked for, or none if they all are.
abbrev pub IsNearest : List Entry → ℕ → Option ℕ → Type 0
IsNearest es address none = (k s : ℕ) → find es k ≡ some s → address < k
IsNearest es address (some s) =
    (k : ℕ) × (find es k ≡ some s)
    × (k ≤ address)
    × ((k' s' : ℕ) → find es k' ≡ some s' → k' ≤ address → k' ≤ k)

abbrev Found : List Entry → ℕ → Option ℕ → Option ℕ → Type 0
Found es address best r =
    ((r ≡ best) × ((k s : ℕ) → find es k ≡ some s → address < k))
    ⊎ ((k : ℕ) × (s : ℕ) × (r ≡ some s)
        × (find es k ≡ some s)
        × (k ≤ address)
        × ((k' s' : ℕ) → find es k' ≡ some s' → k' ≤ address → k' ≤ k))

floor-Found :
    (low : ℕ) (best : Option ℕ) (es : List Entry) (address : ℕ)
    → Sorted low es
    → Found es address best (floor best es address)
unfolding find
floor-Found low best [] address d = inl (refl, λ k s e. absurd (cc e))
floor-Found low best ((k0, s0) ∷ es) address d = elim (Bool-cases (leb k0 address)) [
  | inl t ↦ rw t (elim (floor-Found (k0 + 1) (some s0) es address d.1) [
    | inl (e, above) ↦ inr (
      k0,
      s0,
      e,
      rw (==_refl k0) refl,
      leb→le _ _ t,
      λ k s f l. elim (Bool-cases (k0 == k)) [
        | inl same ↦ omega (arith, ==→eq k0 k same)
        | inr other ↦ absurd (omega (arith, above k s (rw other at f), l))
      ],
    )
    | inr (k, s, e, found, l, greatest) ↦
        let after = Sorted-find (k0 + 1) es k s d.1 found in
        let other : (k0 == k) ≡ false = ground (arith, after) in
        inr (
          k,
          s,
          e,
          rw other found,
          l,
          λ k' s' f' l'. elim (Bool-cases (k0 == k')) [
            | inl same ↦ omega (arith, ==→eq k0 k' same, after)
            | inr apart ↦ greatest k' s' (rw apart at f') l'
          ],
        )
  ])
  | inr f ↦
      let above = leb-false→lt _ _ f in
      rw f (
        inl (
          refl,
          λ k s e. elim (Bool-cases (k0 == k)) [
            | inl same ↦ omega (arith, ==→eq k0 k same, above)
            | inr other ↦ omega (arith, Sorted-find (k0 + 1) es k s d.1 (rw other at e), above)
          ],
        ))
]

Found-IsNearest :
    (es : List Entry) (address : ℕ) (r : Option ℕ)
    → Found es address none r
    → IsNearest es address r
Found-IsNearest es address r (inl (e, above)) = subst (IsNearest es address) (sym e) above
Found-IsNearest es address r (inr (k, s, e, found, l, greatest)) =
    subst (IsNearest es address) (sym e) (k, found, l, greatest)

-- `FilterNearestAddressUpper` gives the symbol of the greatest address that is not above the one asked for,
-- and none where they all are above it; `FilterNearestAddressLower` gives the same where an address of the
-- table is at or above the one asked for, and reads behind the table where none is.
pub filter_nearest_address_upper_lem :
    (f : SymsFilter) (address : ℕ)
    → Sorted 0 f.symbol_table
    → IsNearest f.symbol_table address (filter_nearest_address_upper f address)
      × (filter_nearest_address_lower f address
          ≡ if_reached (reaches f.symbol_table address) (filter_nearest_address_upper f address))
unfolding filter_nearest_address_upper filter_nearest_address_lower
filter_nearest_address_upper_lem f address d =
    let up = upper-floor [] f.symbol_table address in
    (
      subst (IsNearest f.symbol_table address) (sym up)
          (Found-IsNearest f.symbol_table address _ (floor-Found 0 none f.symbol_table address d)),
      lower-floor 0 [] f.symbol_table address d
          ∙ ap (if_reached (reaches f.symbol_table address)) (sym up),
    )
