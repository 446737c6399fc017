-- ===== src/LineHandler/Number.antt =====
-- ParseUintTrim of LineHandler (source/reader/cReader.cpp) on a line with a byte behind it that is no
-- letter and no digit, like the line feed that ReaderBuffer cuts the lines at.
use columbo.Base.{
  ℕ, zero, suc, ◌+◌, ◌-◌, ◌*◌, ◌≤◌, ◌<◌, ◌≡◌, refl, sym, ◌∙◌, ap, Bool, true, false, not, Option,
  none, some, List, [], ◌∷◌, ◌++◌, length, get_or, drop, leb, leb→le, ltb, ◌||◌, ◌&&◌, ◌==◌, arith,
  if◌then◌else◌, Bool-cases, inl, inr, ◌⊎◌, subst,
}
use columbo.Chars.{
  is_num, is_alnum, digit_of, digits_value, strtoul, ulong_max, has_prefix, skip_two, saturate,
}
use columbo.LineHandler.{LineHandler, parse_uint_trim, span_length, take_uint, number_class, is_nil}
use columbo.LineHandler.Rest.{
  slice, rest, rest_done, IsValid, is_empty_lem, take_while, length-slice,
}

drop_more : (m : List ℕ) (i : ℕ) → i < length m → drop i m ≡ get_or m i 0 ∷ drop (i + 1) m
drop_more [] i h = absurd (omega arith)
drop_more (x ∷ m) zero h = refl
drop_more (x ∷ m) (suc i) h =
    let e : suc (i + 1) ≡ suc i + 1 = omega arith in
    drop_more m i (omega arith) ∙ ap (λ j. get_or m i 0 ∷ drop j (x ∷ m)) e

-- The memory from the cursor on is what is left of the line, and what is behind the line.
drop-slice : (m : List ℕ) (i n : ℕ) → i + n ≤ length m → drop i m ≡ slice m i n ++ drop (i + n) m
drop-slice m i zero h = ap (λ j. drop j m) (omega arith)
drop-slice m i (suc n) h =
    drop_more m i (omega arith)
    ∙ ap (◌∷◌ (get_or m i 0)) (
        drop-slice m (i + 1) n (omega arith)
        ∙ ap (λ j. slice m (i + 1) n ++ drop j m) (omega arith))

-- The measuring loop stops at the first byte that does not pass the test.
span_length-++ :
    (p : ℕ → Bool) (xs ys : List ℕ) (stop : ℕ)
    → p stop ≡ false
    → span_length p (xs ++ (stop ∷ ys)) ≡ some (length (take_while p xs))
unfolding span_length
span_length-++ p [] ys stop e = rw e refl
span_length-++ p (x ∷ xs) ys stop e = elim (Bool-cases (p x)) [
  | inl t ↦ rw (t, span_length-++ p xs ys stop e) refl
  | inr f ↦ rw f refl
]

-- A byte that is no letter and no digit is no digit of any base up to 16.
no_digit : (c : ℕ) → is_alnum c ≡ false → 16 ≤ digit_of c
unfolding is_alnum digit_of
no_digit c e = ground arith

digits_value-++ :
    (base acc : ℕ) (xs ys : List ℕ) (stop : ℕ)
    → base ≤ digit_of stop
    → digits_value base acc (xs ++ (stop ∷ ys)) ≡ digits_value base acc xs
unfolding digits_value
digits_value-++ base acc [] ys stop l = ground arith
digits_value-++ base acc (x ∷ xs) ys stop l =
    rw (digits_value-++ base (acc * base + digit_of x) xs ys stop l) refl

-- A byte that is no digit of base 10 or 16 ends a number.
abbrev pub Ends : ℕ → ℕ → Type 0
Ends base stop = number_class base stop ≡ false

pub Ends-number :
    (base stop : ℕ) → (base ≡ 10) ⊎ (base ≡ 16) → Ends base stop → base ≤ digit_of stop
unfolding digit_of is_num is_alnum
Ends-number base stop (inl e) f = ground (arith, e, f)
Ends-number base stop (inr e) f = ground (arith, e, f)

-- The bytes behind a number do not make it start with 0x.
pub has_prefix-++ :
    (xs ys : List ℕ) (stop : ℕ)
    → is_alnum stop ≡ false
    → has_prefix (xs ++ (stop ∷ ys)) ≡ has_prefix xs
unfolding is_alnum digit_of
has_prefix-++ [] [] stop f = refl
has_prefix-++ [] (y ∷ []) stop f = refl
has_prefix-++ [] (y ∷ z ∷ ys) stop f = ground (arith, f)
has_prefix-++ (a ∷ []) [] stop f = refl
has_prefix-++ (a ∷ []) (y ∷ ys) stop f = ground (arith, f)
has_prefix-++ (a ∷ b ∷ []) ys stop f = ground (arith, f)
has_prefix-++ (a ∷ b ∷ c ∷ xs) ys stop f = refl

-- What a line's number is: its value, unless it has no digit or its value is not below ULONG_MAX.
abbrev pub number : ℕ → List ℕ → Option (ℕ × ℕ)
number base xs =
    let digits = take_while (number_class base) xs in
    if is_nil digits || strtoul base xs == ulong_max
    then none
    else some (length digits, strtoul base xs)

strtoul_decimal :
    (xs ys : List ℕ) (stop : ℕ) → Ends 10 stop → strtoul 10 (xs ++ (stop ∷ ys)) ≡ strtoul 10 xs
unfolding strtoul
strtoul_decimal xs ys stop f =
    ap (saturate ulong_max) (digits_value-++ 10 0 xs ys stop (Ends-number 10 stop (inl refl) f))

skip_two-++ : (xs ys : List ℕ) → has_prefix xs ≡ true → skip_two (xs ++ ys) ≡ skip_two xs ++ ys
skip_two-++ [] ys h = absurd (cc h)
skip_two-++ (a ∷ []) ys h = absurd (cc h)
skip_two-++ (a ∷ b ∷ []) ys h = refl
skip_two-++ (a ∷ b ∷ c ∷ xs) ys h = refl

strtoul_hexadecimal :
    (xs ys : List ℕ) (stop : ℕ) → Ends 16 stop → strtoul 16 (xs ++ (stop ∷ ys)) ≡ strtoul 16 xs
unfolding strtoul
strtoul_hexadecimal xs ys stop f =
    let l = Ends-number 16 stop (inr refl) f in
    elim (Bool-cases (has_prefix xs)) [
      | inl t ↦
          rw (has_prefix-++ xs ys stop f, t, skip_two-++ xs (stop ∷ ys) t)
            (ap (saturate ulong_max) (digits_value-++ 16 0 (skip_two xs) ys stop l))
      | inr e ↦
          rw (has_prefix-++ xs ys stop f, e)
            (ap (saturate ulong_max) (digits_value-++ 16 0 xs ys stop l))
    ]

pub strtoul-++ :
    (base : ℕ) (xs ys : List ℕ) (stop : ℕ)
    → (base ≡ 10) ⊎ (base ≡ 16)
    → Ends base stop
    → strtoul base (xs ++ (stop ∷ ys)) ≡ strtoul base xs
strtoul-++ base xs ys stop (inl e) f =
    subst (λ b. Ends b stop → strtoul b (xs ++ (stop ∷ ys)) ≡ strtoul b xs) (sym e)
      (strtoul_decimal xs ys stop) f
strtoul-++ base xs ys stop (inr e) f =
    subst (λ b. Ends b stop → strtoul b (xs ++ (stop ∷ ys)) ≡ strtoul b xs) (sym e)
      (strtoul_hexadecimal xs ys stop) f

-- The byte behind the line.
abbrev pub stopper : LineHandler → ℕ
stopper h = get_or h.memory h.size 0

pub memory_split :
    (h : LineHandler)
    → IsValid h
    → h.size < length h.memory
    → drop h.pos h.memory ≡ rest h ++ (stopper h ∷ drop (h.size + 1) h.memory)
memory_split h v l =
    let e : h.pos + (h.size - h.pos) ≡ h.size = omega (arith, v.in_line) in
    drop-slice h.memory h.pos (h.size - h.pos) (omega (arith, e))
    ∙ ap (λ j. rest h ++ drop j h.memory) e
    ∙ ap (◌++◌ (rest h)) (drop_more h.memory h.size l)

abbrev pub taken : LineHandler → Option (ℕ × ℕ) → LineHandler × Option ℕ
taken h none = (h, none)
taken h (some (n, value)) = (record h { pos = h.pos + n }, some value)

length-take_while : (p : ℕ → Bool) (xs : List ℕ) → length (take_while p xs) ≤ length xs
length-take_while p [] = omega arith
length-take_while p (x ∷ xs) = ground (arith, length-take_while p xs)

pub known_base :
    (base : ℕ) → (base ≡ 10) ⊎ (base ≡ 16) → (not (base == 10) && not (base == 16)) ≡ false
known_base base (inl e) = ground (arith, e)
known_base base (inr e) = ground (arith, e)

length-is_nil : (xs : List ℕ) → (length xs == 0) ≡ is_nil xs
length-is_nil [] = refl
length-is_nil (x ∷ xs) = ground arith

take_uint-taken :
    (h : LineHandler) (base : ℕ)
    → IsValid h
    → strtoul base (drop h.pos h.memory) ≡ strtoul base (rest h)
    → take_uint h base (some (length (take_while (number_class base) (rest h))))
      ≡ some (taken h (number base (rest h)))
take_uint-taken h base v e =
    let digits = take_while (number_class base) (rest h) in
    let fits : ltb h.size (h.pos + length digits) ≡ false = ground (
      arith,
      length-take_while (number_class base) (rest h),
      length-slice h.memory h.pos (h.size - h.pos),
      v.in_line,
    ) in
    rw (length-is_nil digits, fits, e)
      (elim (Bool-cases (is_nil digits)) [
        | inl t ↦ rw t refl
        | inr f ↦ rw f (elim (Bool-cases (strtoul base (rest h) == ulong_max)) [
          | inl t ↦ rw t refl
          | inr g ↦ rw g refl
        ])
      ])

-- On a line with a byte behind it that is no digit (in base 16: no digit and no letter), `ParseUintTrim` returns the number that the line
-- goes on with and takes its digits off, and fails without moving where there is none below ULONG_MAX.
pub parse_uint_trim_lem :
    (h : LineHandler) (base : ℕ)
    → IsValid h
    → (base ≡ 10) ⊎ (base ≡ 16)
    → h.size < length h.memory
    → Ends base (stopper h)
    → parse_uint_trim h base ≡ some (taken h (number base (rest h)))
unfolding parse_uint_trim
parse_uint_trim_lem h base v b l f =
    let split = memory_split h v l in
    let tail = drop (h.size + 1) h.memory in
    elim (Bool-cases (leb h.size h.pos)) [
      | inl done ↦ rw (is_empty_lem h v, done) (rw (rest_done h (leb→le _ _ done)) refl)
      | inr more ↦
          rw
            (
              is_empty_lem h v,
              more,
              known_base base b,
              ap (span_length (number_class base)) split,
              span_length-++ (number_class base) (rest h) tail (stopper h) f,
            )
            (take_uint-taken h base v
              (ap (strtoul base) split ∙ strtoul-++ base (rest h) tail (stopper h) b f))
    ]
