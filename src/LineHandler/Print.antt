-- ===== src/LineHandler/Print.antt =====
-- ParseUintTrim of LineHandler (source/reader/cReader.cpp) on the numbers that a printer of base 10 or 16
-- writes.
use columbo.Base.{
  ℕ, zero, suc, ◌+◌, ◌-◌, ◌*◌, ◌/◌, ◌%◌, ◌^◌, ◌≤◌, ◌<◌, ◌≡◌, refl, ◌∙◌, ap, true, false, some, List,
  [], ◌∷◌, ◌++◌, length, ltb, ltb→lt, ◌&&◌, ◌==◌, arith, if◌then◌else◌, Bool-cases, inl, inr, ◌⊎◌,
  subst,
}
use columbo.Chars.{
  is_num, is_alnum, digit_of, digits_value, strtoul, ulong_max, has_prefix, saturate,
}
use columbo.LineHandler.{LineHandler, parse_uint_trim, number_class, is_nil}
use columbo.LineHandler.Rest.{rest, IsValid, take_while}
use columbo.LineHandler.Number.{Ends, stopper, number, taken, strtoul-++, parse_uint_trim_lem}
use native.Mathlib.Nat.{div-add-mod', mod-lt, mul-le-mul_left, div-mul-le_self, pow-suc}

-- The character of a digit, small letters standing for 10 and more.
abbrev pub digit_char : ℕ → ℕ
digit_char d = if ltb d 10 then d + b'0' else d - 10 + b'a'

-- The digits of a number, the most significant first; a number below 2 ^ 64 has at most 64.
abbrev pub print : ℕ → ℕ → ℕ → List ℕ
print zero base n = []
print (suc fuel) base n =
    let front = print fuel base (n / base) in
    if ltb n base then digit_char n ∷ [] else front ++ (digit_char (n % base) ∷ [])

abbrev pub Digits : ℕ → List ℕ → Type 0
Digits base [] = Unit {0}
Digits base (c ∷ cs) = (digit_of c < base) × Digits base cs

Digits-++ : (base : ℕ) (xs ys : List ℕ) → Digits base xs → Digits base ys → Digits base (xs ++ ys)
Digits-++ base [] ys d e = e
Digits-++ base (x ∷ xs) ys d e = (d.0, Digits-++ base xs ys d.1 e)

digits_value-Digits :
    (base acc : ℕ) (xs ys : List ℕ)
    → Digits base xs
    → digits_value base acc (xs ++ ys) ≡ digits_value base (digits_value base acc xs) ys
unfolding digits_value
digits_value-Digits base acc [] ys d = refl
digits_value-Digits base acc (x ∷ xs) ys d =
    let t : ltb (digit_of x) base ≡ true = ground (arith, d.0) in
    rw t (digits_value-Digits base (acc * base + digit_of x) xs ys d.1)

digit_of-digit_char : (d : ℕ) → d < 16 → digit_of (digit_char d) ≡ d
unfolding digit_of
digit_of-digit_char d l = ground arith

pub print-Digits : (fuel base n : ℕ) → 0 < base → base ≤ 16 → Digits base (print fuel base n)
print-Digits zero base n l h = tt
print-Digits (suc fuel) base n l h = elim (Bool-cases (ltb n base)) [
  | inl t ↦
      rw t (omega (arith, ltb→lt _ _ t, digit_of-digit_char n (omega (arith, ltb→lt _ _ t))), tt)
  | inr f ↦ rw f (
      Digits-++ base (print fuel base (n / base)) (digit_char (n % base) ∷ [])
        (print-Digits fuel base (n / base) l h)
        (omega (arith, mod-lt n l, digit_of-digit_char (n % base) (omega (arith, mod-lt n l))), tt))
]

digits_value_one :
    (base acc d : ℕ)
    → d < base
    → base ≤ 16
    → digits_value base acc (digit_char d ∷ []) ≡ acc * base + d
unfolding digits_value
digits_value_one base acc d l h =
    let e = digit_of-digit_char d (omega arith) in
    let t : ltb (digit_of (digit_char d)) base ≡ true = ground (arith, e) in
    rw t (ap (◌+◌ (acc * base)) e)

halved : (n base fuel : ℕ) → 1 < base → n < 2 ^ suc fuel → n / base < 2 ^ fuel
halved n base fuel l b =
    omega (arith, mul-le-mul_left (n / base) l, div-mul-le_self n base, pow-suc 2 fuel, b)

print-value :
    (fuel base n : ℕ)
    → 1 < base
    → base ≤ 16
    → n < 2 ^ fuel
    → digits_value base 0 (print fuel base n) ≡ n
unfolding digits_value
print-value zero base n l h b = omega (arith)
print-value (suc fuel) base n l h b = elim (Bool-cases (ltb n base)) [
  | inl t ↦ rw t (digits_value_one base 0 n (ltb→lt _ _ t) h ∙ omega arith)
  | inr f ↦
      let ih = print-value fuel base (n / base) l h (halved n base fuel l b) in
      rw
        (
          f,
          digits_value-Digits base 0 (print fuel base (n / base)) (digit_char (n % base) ∷ [])
              (print-Digits fuel base (n / base) (omega arith) h),
          ih,
        )
        (digits_value_one base (n / base) (n % base) (mod-lt n (omega arith)) h
          ∙ div-add-mod' n base)
]

-- The digits pass the test of ParseUintTrim.
digit_class :
    (base c : ℕ) → (base ≡ 10) ⊎ (base ≡ 16) → digit_of c < base → number_class base c ≡ true
unfolding digit_of is_num is_alnum
digit_class base c (inl e) l = ground (arith, e, l)
digit_class base c (inr e) l = ground (arith, e, l)

-- What is behind the digits goes on with none.
abbrev pub Stops : ℕ → List ℕ → Type 0
Stops base [] = Unit {0}
Stops base (c ∷ cs) = Ends base c

take_while-Digits :
    (base : ℕ) (xs ys : List ℕ)
    → (base ≡ 10) ⊎ (base ≡ 16)
    → Digits base xs
    → Stops base ys
    → take_while (number_class base) (xs ++ ys) ≡ xs
take_while-Digits base [] [] b d s = refl
take_while-Digits base [] (y ∷ ys) b d s = rw s refl
take_while-Digits base (x ∷ xs) ys b d s =
    rw (digit_class base x b d.0) (ap (◌∷◌ x) (take_while-Digits base xs ys b d.1 s))

has_prefix-Digits : (xs : List ℕ) → Digits 16 xs → has_prefix xs ≡ false
unfolding digit_of
has_prefix-Digits [] d = refl
has_prefix-Digits (a ∷ []) d = refl
has_prefix-Digits (a ∷ b ∷ []) d = refl
has_prefix-Digits (a ∷ b ∷ c ∷ xs) d = ground (arith, d.1.0)

saturate_small : (n : ℕ) → n < ulong_max → saturate ulong_max n ≡ n
saturate_small n l = ground (arith, l)

no_prefix :
    (base : ℕ) (xs : List ℕ)
    → (base ≡ 10) ⊎ (base ≡ 16)
    → Digits base xs
    → (base == 16 && has_prefix xs) ≡ false
no_prefix base xs (inl e) d = rw e refl
no_prefix base xs (inr e) d = rw (e, has_prefix-Digits xs (subst (λ b. Digits b xs) e d)) refl

strtoul-Digits :
    (base : ℕ) (xs : List ℕ)
    → (base ≡ 10) ⊎ (base ≡ 16)
    → Digits base xs
    → digits_value base 0 xs < ulong_max
    → strtoul base xs ≡ digits_value base 0 xs
unfolding strtoul
strtoul-Digits base xs b d l =
    rw (no_prefix base xs b d) (saturate_small (digits_value base 0 xs) l)

append_nil : (xs : List ℕ) → xs ++ [] ≡ xs
append_nil [] = refl
append_nil (x ∷ xs) = ap (◌∷◌ x) (append_nil xs)

strtoul-Stops :
    (base : ℕ) (xs ys : List ℕ)
    → (base ≡ 10) ⊎ (base ≡ 16)
    → Stops base ys
    → strtoul base (xs ++ ys) ≡ strtoul base xs
strtoul-Stops base xs [] b s = ap (strtoul base) (append_nil xs)
strtoul-Stops base xs (y ∷ ys) b s = strtoul-++ base xs ys y b s

append_not_nil : (xs : List ℕ) (x : ℕ) → is_nil (xs ++ (x ∷ [])) ≡ false
append_not_nil [] x = refl
append_not_nil (y ∷ ys) x = refl

base_bounds : (base : ℕ) → (base ≡ 10) ⊎ (base ≡ 16) → (1 < base) × (base ≤ 16)
base_bounds base b = (ground (arith, b), ground (arith, b))

pub print-length : (fuel base n : ℕ) → is_nil (print (suc fuel) base n) ≡ false
print-length fuel base n = elim (Bool-cases (ltb n base)) [
  | inl t ↦ rw t refl
  | inr f ↦ rw f (append_not_nil (print fuel base (n / base)) (digit_char (n % base)))
]

number-print :
    (base n : ℕ) (tail : List ℕ) (fuel : ℕ)
    → (base ≡ 10) ⊎ (base ≡ 16)
    → Stops base tail
    → n < ulong_max
    → n < 2 ^ suc fuel
    → number base (print (suc fuel) base n ++ tail) ≡ some (length (print (suc fuel) base n), n)
number-print base n tail fuel b s l f =
    let text = print (suc fuel) base n in
    let large = base_bounds base b in
    let d = print-Digits (suc fuel) base n (omega (arith, large.0)) large.1 in
    let value = print-value (suc fuel) base n large.0 large.1 f in
    let read : strtoul base (text ++ tail) ≡ n =
      strtoul-Stops base text tail b s
      ∙ strtoul-Digits base text b d (omega (arith, value))
      ∙ value in
    let small : (n == ulong_max) ≡ false = ground (arith, l) in
    rw (take_while-Digits base text tail b d s, print-length fuel base n, read, small) refl

-- `ParseUintTrim` reads back a number below ULONG_MAX that was printed in its base, and stops behind it,
-- where something follows that is no digit and no letter.
pub parse_uint_trim-print :
    (h : LineHandler) (base n : ℕ) (tail : List ℕ)
    → IsValid h
    → (base ≡ 10) ⊎ (base ≡ 16)
    → h.size < length h.memory
    → Ends base (stopper h)
    → n < ulong_max
    → Stops base tail
    → rest h ≡ print 64 base n ++ tail
    → parse_uint_trim h base ≡ some (record h { pos = h.pos + length (print 64 base n) }, some n)
parse_uint_trim-print h base n tail v b l f small s e =
    parse_uint_trim_lem h base v b l f
    ∙ ap (λ o. some (taken h o))
        (ap (number base) e ∙ number-print base n tail 63 b s small (omega arith))
