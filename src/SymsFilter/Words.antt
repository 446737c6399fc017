-- ===== src/SymsFilter/Words.antt =====
-- What the lines of symbol tables that SymsFilter (source/env/symtable.cc) reads are made of: addresses, names,
-- words and blanks.
use columbo.Base.{
  ℕ, ◌<◌, ◌≡◌, refl, ap, Bool, true, false, not, some, List, [], ◌∷◌, ◌++◌, length, ltb,
  length-append, arith, subst,
}
use columbo.Chars.{is_space, is_alnum, is_alnum_dot_bar, digit_of, ulong_max}
use columbo.LineHandler.{
  LineHandler, cur_length, move_forward, is_nil, trim_l, trim_till_whitespace,
  extract_and_substr_until,
}
use columbo.LineHandler.Rest.{take_while, drop_while}
use columbo.LineHandler.Behind.{AllPass}
use columbo.LineHandler.Print.{print, Stops, Digits, print-Digits, print-length}
use columbo.LineHandler.View.{
  At, trim_l-At, trim_till_whitespace-At, extract-At, parse_uint-At, move_forward-At, At-length,
}
use columbo.StringInternalizer.{Text}
use columbo.SymsFilter.{parse_address, parse_name, skip_syms_flags}

-- What follows a text begins with a byte that fails a test, if with any.
abbrev pub Breaks : (ℕ → Bool) → List ℕ → Type 0
Breaks p [] = Unit {0}
Breaks p (c ∷ cs) = p c ≡ false

-- A text that begins with no blank.
abbrev pub Starts : List ℕ → Type 0
Starts xs = Breaks is_space xs

pub Starts-trim : (xs : List ℕ) → Starts xs → drop_while is_space xs ≡ xs
Starts-trim [] s = refl
Starts-trim (c ∷ cs) s = rw s refl

pub trim_nothing : (h : LineHandler) (xs : List ℕ) → At h xs → Starts xs → At (trim_l h) xs
trim_nothing h xs v s = subst (At (trim_l h)) (Starts-trim xs s) (trim_l-At h xs v)

pub digit_Starts : (c : ℕ) → digit_of c < 16 → is_space c ≡ false
unfolding digit_of is_space
digit_Starts c l = ground (arith, l)

pub Digits-Starts : (xs tail : List ℕ) → Digits 16 xs → is_nil xs ≡ false → Starts (xs ++ tail)
Digits-Starts [] tail d n = absurd (cc n)
Digits-Starts (x ∷ xs) tail d n = digit_Starts x d.0

pub print-Starts : (n : ℕ) (tail : List ℕ) → Starts (print 64 16 n ++ tail)
print-Starts n tail =
    Digits-Starts (print 64 16 n) tail (print-Digits 64 16 n (omega arith) (omega arith))
      (print-length 63 16 n)

-- A name, and what ends it.
pub record IsName (name : Text) : Type 0 where
  pub not_empty : is_nil name ≡ false
  pub letters : AllPass is_alnum_dot_bar name

pub take_while-all :
    (p : ℕ → Bool) (xs ys : List ℕ)
    → AllPass p xs
    → Breaks p ys
    → (take_while p (xs ++ ys) ≡ xs) × (drop_while p (xs ++ ys) ≡ ys)
take_while-all p [] [] a e = (refl, refl)
take_while-all p [] (c ∷ ys) a e = rw e (refl, refl)
take_while-all p (x ∷ xs) ys a e =
    let ih = take_while-all p xs ys a.1 e in rw a.0 (ap (◌∷◌ x) ih.0, ih.1)

pub letter_Starts : (c : ℕ) → is_alnum_dot_bar c ≡ true → is_space c ≡ false
unfolding is_alnum_dot_bar is_alnum is_space
letter_Starts c e = ground (arith, e)

pub name-Starts :
    (name : Text) (tail : List ℕ)
    → is_nil name ≡ false
    → AllPass is_alnum_dot_bar name
    → Starts (name ++ tail)
name-Starts [] tail n a = absurd (cc n)
name-Starts (c ∷ cs) tail n a = letter_Starts c a.0

-- `ParseName` before a name that ends where `tail` begins.
pub parse_name-At :
    (h : LineHandler) (name : Text) (tail : List ℕ)
    → At (trim_l h) (name ++ tail)
    → IsName name
    → Breaks is_alnum_dot_bar tail
    → ((parse_name h).1 ≡ some name) × At (parse_name h).0 tail
unfolding parse_name
parse_name-At h name tail w n e =
    let x = extract-At (trim_l h) is_alnum_dot_bar (name ++ tail) w in
    let t = take_while-all is_alnum_dot_bar name tail n.letters e in
    rw (x.0, t.0, n.not_empty)
      (refl, subst (At (extract_and_substr_until (trim_l h) is_alnum_dot_bar).0) t.1 x.1)

-- `ParseAddress` before an address in base 16.
pub parse_address-At :
    (h : LineHandler) (address : ℕ) (tail : List ℕ)
    → At h (print 64 16 address ++ tail)
    → address < ulong_max
    → Stops 16 tail
    → (h' : LineHandler) × (parse_address h ≡ some (h', some address)) × At h' tail
unfolding parse_address
parse_address-At h address tail v l s =
    let w = trim_nothing h (print 64 16 address ++ tail) v (print-Starts address tail) in
    let r = parse_uint-At (trim_l h) address tail w l s in (_, r.0, r.1)

-- Blanks, and a word between blanks.
abbrev pub is_mark : ℕ → Bool
is_mark c = not (is_space c)

pub record IsBlank (gap : List ℕ) : Type 0 where
  pub some_blank : is_nil gap ≡ false
  pub blank : AllPass is_space gap

pub record IsWord (word : List ℕ) : Type 0 where
  pub some_mark : is_nil word ≡ false
  pub marks : AllPass is_mark word

pub blank_Breaks : (gap ys : List ℕ) → IsBlank gap → Breaks is_mark (gap ++ ys)
blank_Breaks [] ys b = absurd (let e = b.some_blank in cc e)
blank_Breaks (c ∷ cs) ys b = rw b.blank.0 refl

pub not-false : (b : Bool) → not b ≡ true → b ≡ false
not-false true e = cc e
not-false false e = refl

pub word_Breaks : (word ys : List ℕ) → IsWord word → Breaks is_space (word ++ ys)
word_Breaks [] ys w = absurd (let e = w.some_mark in cc e)
word_Breaks (c ∷ cs) ys w = not-false _ w.marks.0

pub trim_gap :
    (h : LineHandler) (gap ys : List ℕ)
    → At h (gap ++ ys)
    → IsBlank gap
    → Breaks is_space ys
    → At (trim_l h) ys
trim_gap h gap ys v b s =
    subst (At (trim_l h)) (take_while-all is_space gap ys b.blank s).1 (trim_l-At h (gap ++ ys) v)

-- `SkipSymsSection` and `SkipSymsAlignment`.
pub skip_word :
    (h : LineHandler) (gap word gap' ys : List ℕ)
    → At h (gap ++ (word ++ (gap' ++ ys)))
    → IsBlank gap
    → IsWord word
    → IsBlank gap'
    → At (trim_till_whitespace (trim_l h)) (gap' ++ ys)
skip_word h gap word gap' ys v b w b' =
    let at_word = trim_gap h gap (word ++ (gap' ++ ys)) v b (word_Breaks word (gap' ++ ys) w) in
    subst (At (trim_till_whitespace (trim_l h)))
      (take_while-all is_mark word (gap' ++ ys) w.marks (blank_Breaks gap' ys b')).1
      (trim_till_whitespace-At (trim_l h) (word ++ (gap' ++ ys)) at_word)

pub not_nil : (xs : List ℕ) → is_nil xs ≡ false → 0 < length xs
not_nil [] e = absurd (cc e)
not_nil (x ∷ xs) e = omega arith

-- `SkipSymsFags` before seven flags the first of which is set, and something behind them.
pub skip_flags :
    (h : LineHandler) (gap flags ys : List ℕ)
    → At h (gap ++ (flags ++ ys))
    → IsBlank gap
    → Breaks is_space (flags ++ ys)
    → length flags ≡ 7
    → is_nil ys ≡ false
    → ((skip_syms_flags h).1 ≡ true) × At (skip_syms_flags h).0 ys
unfolding skip_syms_flags
skip_flags h gap flags ys v b s seven more =
    let w = trim_gap h gap (flags ++ ys) v b s in
    let moved =
      subst (λ n. At (move_forward (trim_l h) n).0 ys) seven
        (move_forward-At (trim_l h) flags ys w (omega (arith, seven))).1 in
    let long : ltb (cur_length (trim_l h)) 8 ≡ false = ground (
      arith,
      At-length (trim_l h) (flags ++ ys) w,
      length-append flags ys,
      seven,
      not_nil ys more,
    ) in
    rw long (refl, moved)
