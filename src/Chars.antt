-- ===== src/Chars.antt =====
-- The character classes of include/util/string_util.h, in the C locale, and the digits that `strtoul`
-- and `strtol` read.
use columbo.Base.{
  ℕ, ◌+◌, ◌-◌, ◌*◌, ◌^◌, Bool, false, ◌&&◌, ◌||◌, List, [], ◌∷◌, leb, ltb, ◌==◌, if◌then◌else◌,
}

abbrev pub between : ℕ → ℕ → ℕ → Bool
between lo hi c = leb lo c && leb c hi

-- `isspace`: tab, line feed, vertical tab, form feed, carriage return and blank.
unfoldable pub is_space : ℕ → Bool
is_space c = between 9 13 c || c == 32

-- `isdigit`.
unfoldable pub is_num : ℕ → Bool
is_num c = between b'0' b'9' c

-- `isalnum`.
unfoldable pub is_alnum : ℕ → Bool
is_alnum c = between b'0' b'9' c || between b'A' b'Z' c || between b'a' b'z' c

unfoldable pub is_alnum_dot_bar : ℕ → Bool
unfolding is_alnum
is_alnum_dot_bar c = is_alnum c || c == b'_' || c == b'.'

-- The digit that a character stands for, in any base up to 36; 36 if it is none.
unfoldable pub digit_of : ℕ → ℕ
digit_of c =
    if between b'0' b'9' c
    then c - b'0'
    else if between b'A' b'Z' c
    then c - b'A' + 10
    else if between b'a' b'z' c
    then c - b'a' + 10
    else 36

-- The number that the leading digits of a text make, read after those that make `acc`.
unfoldable pub digits_value : ℕ → ℕ → List ℕ → ℕ
unfolding digit_of
digits_value base acc [] = acc
digits_value base acc (c ∷ cs) =
    let rest = digits_value base (acc * base + digit_of c) cs in
    if ltb (digit_of c) base then rest else acc

-- `strtoul` on a text without leading blanks or sign: in base 16 a prefix 0x before a digit is skipped;
-- a number that does not fit becomes ULONG_MAX.
abbrev pub has_prefix : List ℕ → Bool
has_prefix (a ∷ b ∷ c ∷ cs) = a == b'0' && (b == b'x' || b == b'X') && ltb (digit_of c) 16
has_prefix _ = false

abbrev pub skip_two : List ℕ → List ℕ
skip_two (a ∷ b ∷ cs) = cs
skip_two cs = cs

abbrev pub ulong_max : ℕ
ulong_max = 2 ^ 64 - 1

abbrev pub saturate : ℕ → ℕ → ℕ
saturate limit n = if ltb limit n then limit else n

unfoldable pub strtoul : ℕ → List ℕ → ℕ
unfolding digits_value
strtoul base cs =
    saturate ulong_max
      (digits_value base 0 (if base == 16 && has_prefix cs then skip_two cs else cs))

-- `strtol` in base 10, on a text without leading blanks or sign: the limit is LONG_MAX.
unfoldable pub strtol : List ℕ → ℕ
unfolding digits_value
strtol cs = saturate (2 ^ 63 - 1) (digits_value 10 0 cs)
