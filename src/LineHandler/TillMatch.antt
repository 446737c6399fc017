-- ===== src/LineHandler/TillMatch.antt =====
-- The first occurrence of a text in a list of bytes, and what one try of ConsumeAndTrimTillString
-- (source/reader/cReader.cpp) goes over.
use columbo.Base.{
  ℕ, suc, ◌+◌, ◌-◌, ◌≤◌, ◌<◌, ◌≡◌, refl, sym, ◌∙◌, ap, Bool, true, false, not, Option, none, some,
  List, [], ◌∷◌, length, get_or, ◌==◌, ==→eq, arith, if◌then◌else◌, Bool-cases, Option-cases, inl,
  inr, ◌||◌, subst,
}
use columbo.LineHandler.Rest.{slice, slice_eq, drop_while}
use columbo.LineHandler.Consume.{strip_prefix, strip_prefix_short}
use columbo.LineHandler.Till.{match_from}

abbrev pub first_of : Option (List ℕ) → Option (List ℕ) → Option (List ℕ)
first_of none o = o
first_of (some ys) o = some ys

-- What is behind the first occurrence of a text, if there is one.
abbrev pub after_first : List ℕ → List ℕ → Option (List ℕ)
after_first text [] = none
after_first text (x ∷ xs) = first_of (strip_prefix text (x ∷ xs)) (after_first text xs)

abbrev pub occurs : ℕ → List ℕ → Bool
occurs c [] = false
occurs c (x ∷ xs) = (c == x) || occurs c xs

-- A byte that is not the first of the text begins no occurrence.
pub after_first-skip :
    (c : ℕ) (cs xs : List ℕ)
    → after_first (c ∷ cs) xs ≡ after_first (c ∷ cs) (drop_while (λ b. not (c == b)) xs)
after_first-skip c cs [] = refl
after_first-skip c cs (x ∷ xs) = elim (Bool-cases (c == x)) [
  | inl e ↦ rw e (rw e refl)
  | inr n ↦ rw n (after_first-skip c cs xs)
]

pub after_first-short : (text xs : List ℕ) → length xs < length text → after_first text xs ≡ none
after_first-short text [] h = refl
after_first-short text (x ∷ xs) h =
    rw (strip_prefix_short text (x ∷ xs) h) (after_first-short text xs (omega arith))

-- What is left of the line behind index `i`.
abbrev pub left : List ℕ → ℕ → ℕ → List ℕ
left m size i = slice m i (size - i)

pub left_cons :
    (m : List ℕ) (size i : ℕ) → i < size → left m size i ≡ get_or m i 0 ∷ left m size (i + 1)
left_cons m size i l = slice_eq m i i (size - i) (suc (size - (i + 1))) refl (omega arith)

-- A try that the end of the line stops: there is less left than the text.
pub match_from-none :
    (m : List ℕ) (size i : ℕ) (text : List ℕ)
    → i ≤ size
    → match_from m size i text ≡ none
    → size < i + length text
unfolding match_from
match_from-none m size i [] l e = absurd (cc e)
match_from-none m size i (c ∷ cs) l e = elim (Bool-cases (i == size)) [
  | inl t ↦ omega (arith, ==→eq _ _ t)
  | inr f ↦ elim (Bool-cases (c == get_or m i 0)) [
    | inl same ↦ elim (Option-cases (match_from m size (i + 1) cs)) [
      | inl n ↦ omega (arith, match_from-none m size (i + 1) cs (ground (arith, f)) n)
      | inr (k, s) ↦ absurd (cc (rw (f, same, s) at e))
    ]
    | inr other ↦ absurd (cc (rw (f, other) at e))
  ]
]

-- What a try that matches `n` bytes has gone over.
pub record Matched (m : List ℕ) (size i : ℕ) (text : List ℕ) (n : ℕ) : Type 0 where
  pub in_line : i + n ≤ size
  pub no_longer : n ≤ length text
  pub prefix :
      strip_prefix text (left m size i)
      ≡ (if n == length text then some (left m size (i + n)) else none)
  pub over :
      (c : ℕ) (cs : List ℕ)
      → occurs c text ≡ false
      → after_first (c ∷ cs) (left m size i) ≡ after_first (c ∷ cs) (left m size (i + n))

pub suc_eq : (k l : ℕ) → (suc k == suc l) ≡ (k == l)
suc_eq k l = ground arith

neither : (a b : Bool) → (a || b) ≡ false → (a ≡ false) × (b ≡ false)
neither true b e = absurd (cc e)
neither false b e = (refl, e)

pub left_eq : (m : List ℕ) (size i j : ℕ) → i ≡ j → left m size i ≡ left m size j
left_eq m size i j e = ap (left m size) e

nil-Matched : (m : List ℕ) (size i : ℕ) → i ≤ size → Matched m size i [] 0
nil-Matched m size i l = record {
  in_line = omega arith;
  no_longer = omega arith;
  prefix = ap some (left_eq m size i (i + 0) (omega arith));
  over = λ c cs o. ap (after_first (c ∷ cs)) (left_eq m size i (i + 0) (omega arith));
}

none-Matched :
    (m : List ℕ) (size i x : ℕ) (xs : List ℕ)
    → i < size
    → (x == get_or m i 0) ≡ false
    → Matched m size i (x ∷ xs) 0
none-Matched m size i x xs l other = record {
  in_line = omega arith;
  no_longer = omega arith;
  prefix =
      let e : (0 == suc (length xs)) ≡ false = ground arith in
      rw (left_cons m size i l, other, e) refl;
  over = λ c cs o. ap (after_first (c ∷ cs)) (left_eq m size i (i + 0) (omega arith));
}

one-Matched :
    (m : List ℕ) (size i x : ℕ) (xs : List ℕ) (k : ℕ)
    → i < size
    → (x == get_or m i 0) ≡ true
    → Matched m size (i + 1) xs k
    → Matched m size i (x ∷ xs) (suc k)
one-Matched m size i x xs k l same r =
    let shift = left_eq m size (i + 1 + k) (i + suc k) (omega arith) in
    record {
      in_line = omega (arith, r.in_line);
      no_longer = omega (arith, r.no_longer);
      prefix = rw (left_cons m size i l, same, sym shift, suc_eq k (length xs)) r.prefix;
      over = λ c cs o.
          let differs : (c == get_or m i 0) ≡ false =
            ap (◌==◌ c) (sym (==→eq _ _ same)) ∙ (neither (c == x) (occurs c xs) o).0 in
          rw (left_cons m size i l, differs, sym shift)
            (r.over c cs (neither (c == x) (occurs c xs) o).1);
    }

pub match_from-Matched :
    (m : List ℕ) (size i : ℕ) (text : List ℕ) (n : ℕ)
    → i ≤ size
    → match_from m size i text ≡ some n
    → Matched m size i text n
unfolding match_from
match_from-Matched m size i [] n l e = subst (Matched m size i []) (cc e) (nil-Matched m size i l)
match_from-Matched m size i (x ∷ xs) n l e = elim (Bool-cases (i == size)) [
  | inl t ↦ absurd (cc (rw t at e))
  | inr f ↦
      let more : i < size = ground (arith, f) in
      elim (Bool-cases (x == get_or m i 0)) [
        | inl same ↦ elim (Option-cases (match_from m size (i + 1) xs)) [
          | inl none_left ↦ absurd (cc (rw (f, same, none_left) at e))
          | inr (k, s) ↦ subst (Matched m size i (x ∷ xs)) (cc (rw (f, same, s) at e)) (
              one-Matched m size i x xs k more same
                (match_from-Matched m size (i + 1) xs k (omega arith) s))
        ]
        | inr other ↦
            subst (Matched m size i (x ∷ xs)) (cc (rw (f, other) at e))
              (none-Matched m size i x xs more other)
      ]
]
