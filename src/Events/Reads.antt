-- ===== src/Events/Reads.antt =====
-- What the steps of EventStreamParser read off the front of a line.
use columbo.Base.{
  ℕ, ◌+◌, ◌<◌, ◌%◌, ◌^◌, ◌≡◌, refl, ◌∙◌, ap, ap₂, subst, drop, ltb, ◌||◌, ◌==◌, Bool, true, false,
  Option, none, some, List, [], ◌∷◌, ◌++◌, length, ◌⊎◌, inl, inr, arith, Bool-cases, ==_refl,
}
use columbo.Chars.{is_alnum, is_num, ulong_max, strtoul, strtol}
use columbo.LineHandler.{
  LineHandler, MayFault, parse_uint_trim, parse_int, take_uint, take_int, is_empty, span_length,
  parse_bool_from_string_repr, true_text, false_text, number_class, consume_and_trim_string,
  extract_and_substr_until, extract_and_substr_until_into,
}
use columbo.LineHandler.Number.{stopper}
use columbo.LineHandler.Behind.{AllPass}
use columbo.LineHandler.Rest.{rest, take_while, drop_while}
use columbo.LineHandler.Consume.{strip_prefix, stripped, Strips, consume_and_trim_string_lem}
use columbo.LineHandler.Print.{print, Stops, parse_uint_trim-print}
use columbo.LineHandler.View.{At, over-At, consume_string-At, extract-At}
use columbo.Events.{bool_to_string}
use columbo.Events.Parse.{
  Parser, returns, after_step, ◌>>=◌, skip_text, uint, int, boolean, word, field,
}

-- From any line that goes on with `xs`, the step reads `a` and leaves `ys`.
abbrev pub Goes : {A : Type 0} → Parser A → List ℕ → A → List ℕ → Type 0
Goes p xs a ys =
    (h : LineHandler) → At h xs → (h' : LineHandler) × (p h ≡ some (h', some a)) × At h' ys

pub Goes-returns : {A : Type 0} (a : A) (xs : List ℕ) → Goes (returns a) xs a xs
Goes-returns a xs h v = (h, refl, v)

pub Goes-bind :
    {A B : Type 0} (p : Parser A) (f : A → Parser B) (xs ys zs : List ℕ) (a : A) (b : B)
    → Goes p xs a ys
    → Goes (f a) ys b zs
    → Goes (p >>= f) xs b zs
Goes-bind p f xs ys zs a b g k h v =
    let (h1, e, v1) = g h v in
    let (h2, e2, v2) = k h1 v1 in (h2, ap (λ r. after_step r f) e ∙ e2, v2)

-- What follows a field: the end of the line, or a comma.
abbrev pub IsClean : List ℕ → Type 0
IsClean [] = Unit {0}
IsClean (c ∷ cs) = c ≡ b','

-- The first byte, if there is one, fails a test.
abbrev pub FailsFirst : (ℕ → Bool) → List ℕ → Type 0
FailsFirst p [] = Unit {0}
FailsFirst p (c ∷ cs) = p c ≡ false

strip_prefix-++ : (t ys : List ℕ) → strip_prefix t (t ++ ys) ≡ some ys
strip_prefix-++ [] ys = refl
strip_prefix-++ (c ∷ t) ys = rw (==_refl c) (strip_prefix-++ t ys)

pub skip_text-Goes : (c : ℕ) (t ys : List ℕ) → Goes (skip_text (c ∷ t)) ((c ∷ t) ++ ys) tt ys
unfolding skip_text
skip_text-Goes c t ys h v =
    let (found, v') =
      consume_string-At h (c ∷ t) ((c ∷ t) ++ ys) ys v (strip_prefix-++ (c ∷ t) ys) in
    ((consume_and_trim_string h (c ∷ t)).0, rw found refl, v')

pub Clean-class : (p : ℕ → Bool) (ys : List ℕ) → p b',' ≡ false → IsClean ys → FailsFirst p ys
Clean-class p [] f c = tt
Clean-class p (y ∷ ys) f c = ap p c ∙ f

comma_ends : (base : ℕ) → (base ≡ 10) ⊎ (base ≡ 16) → number_class base b',' ≡ false
unfolding is_num is_alnum
comma_ends base (inl e) = ground (arith, e)
comma_ends base (inr e) = ground (arith, e)

IsClean-Stops : (base : ℕ) (ys : List ℕ) → (base ≡ 10) ⊎ (base ≡ 16) → IsClean ys → Stops base ys
IsClean-Stops base [] b c = tt
IsClean-Stops base (y ∷ ys) b c = ap (number_class base) c ∙ comma_ends base b

behind_ends :
    (base s : ℕ) → (base ≡ 10) ⊎ (base ≡ 16) → is_alnum s ≡ false → number_class base s ≡ false
unfolding is_num is_alnum
behind_ends base s (inl e) f = ground (arith, e, f)
behind_ends base s (inr e) f = ground (arith, e, f)

pub uint-Goes :
    (base n : ℕ) (ys : List ℕ)
    → (base ≡ 10) ⊎ (base ≡ 16)
    → n < ulong_max
    → IsClean ys
    → Goes (uint base) (print 64 base n ++ ys) n ys
unfolding uint
uint-Goes base n ys b small c h v = (
  record h { pos = h.pos + length (print 64 base n) },
  parse_uint_trim-print h base n ys v.valid b v.behind (behind_ends base (stopper h) b v.ends) small
      (IsClean-Stops base ys b c) v.left,
  over-At h (print 64 base n) ys v,
)

pub field-Goes :
    (k : ℕ) (t : List ℕ) (base n : ℕ) (ys : List ℕ)
    → (base ≡ 10) ⊎ (base ≡ 16)
    → n < ulong_max
    → IsClean ys
    → Goes (field (k ∷ t) base) ((k ∷ t) ++ (print 64 base n ++ ys)) n ys
unfolding field
field-Goes k t base n ys b small c =
    Goes-bind (skip_text (k ∷ t)) (λ u. uint base) ((k ∷ t) ++ (print 64 base n ++ ys))
      (print 64 base n ++ ys) ys tt n (skip_text-Goes k t (print 64 base n ++ ys))
      (uint-Goes base n ys b small c)

take_while-++ :
    (p : ℕ → Bool) (w ys : List ℕ) → AllPass p w → FailsFirst p ys → take_while p (w ++ ys) ≡ w
take_while-++ p [] [] a f = refl
take_while-++ p [] (y ∷ ys) a f = rw f refl
take_while-++ p (x ∷ w) ys a f = rw a.0 (ap (◌∷◌ x) (take_while-++ p w ys a.1 f))

drop_while-++ :
    (p : ℕ → Bool) (w ys : List ℕ) → AllPass p w → FailsFirst p ys → drop_while p (w ++ ys) ≡ ys
drop_while-++ p [] [] a f = refl
drop_while-++ p [] (y ∷ ys) a f = rw f refl
drop_while-++ p (x ∷ w) ys a f = rw a.0 (drop_while-++ p w ys a.1 f)

pub extract-front :
    (h : LineHandler) (p : ℕ → Bool) (w ys : List ℕ)
    → At h (w ++ ys)
    → AllPass p w
    → FailsFirst p ys
    → ((extract_and_substr_until h p).1 ≡ w) × At (extract_and_substr_until h p).0 ys
extract-front h p w ys v a f =
    let (e, v') = extract-At h p (w ++ ys) v in
    (
      e ∙ take_while-++ p w ys a f,
      subst (At (extract_and_substr_until h p).0) (drop_while-++ p w ys a f) v',
    )

pub word-Goes :
    (p : ℕ → Bool) (x : ℕ) (w ys : List ℕ)
    → AllPass p (x ∷ w)
    → FailsFirst p ys
    → Goes (word p) ((x ∷ w) ++ ys) (x ∷ w) ys
unfolding word extract_and_substr_until_into
word-Goes p x w ys a f h v =
    let (e, v') = extract-front h p (x ∷ w) ys v a f in
    ((extract_and_substr_until h p).0, rw e refl, v')

-- A small number is the same to `strtol` as to `strtoul`.
strtol-strtoul : (cs : List ℕ) (n : ℕ) → strtoul 10 cs ≡ n → n < 2 ^ 31 → strtol cs % 2 ^ 32 ≡ n
unfolding strtoul strtol
strtol-strtoul cs n e l = ground arith

abbrev moved_to : LineHandler → ℕ → ℕ → MayFault (Option ℕ)
moved_to h l m = some (record h { pos = h.pos + l }, some m)

abbrev read_at : LineHandler → ℕ → MayFault (Option ℕ)
read_at h' n = some (h', some n)

taken_same :
    (h h' : LineHandler) (m n l : ℕ)
    → moved_to h l m ≡ read_at h' n
    → (record h { pos = h.pos + l } ≡ h') × (m ≡ n)
taken_same h h' m n l e = (cc e, cc e)

take_int-take_uint :
    (h h' : LineHandler) (n : ℕ) (o : Option ℕ)
    → take_uint h 10 o ≡ some (h', some n)
    → n < 2 ^ 31
    → take_int h o ≡ some (h', some n)
take_int-take_uint h h' n none e l = absurd (cc e)
take_int-take_uint h h' n (some k) e l = elim (Bool-cases (k == 0 || ltb h.size (h.pos + k))) [
  | inl stop ↦ absurd (cc (rw stop at e))
  | inr more ↦ rw more (elim (Bool-cases (strtoul 10 (drop h.pos h.memory) == ulong_max)) [
    | inl full ↦ absurd (cc (rw (more, full) at e))
    | inr fits ↦
        let (eh, en) =
          taken_same h h' (strtoul 10 (drop h.pos h.memory)) n k (rw (more, fits) at e) in
        ap₂ read_at eh (strtol-strtoul (drop h.pos h.memory) n en l)
  ])
]

parse_int-parse_uint_trim :
    (h h' : LineHandler) (n : ℕ)
    → parse_uint_trim h 10 ≡ some (h', some n)
    → n < 2 ^ 31
    → parse_int h ≡ some (h', some n)
unfolding parse_uint_trim parse_int
parse_int-parse_uint_trim h h' n e l = elim (Bool-cases (is_empty h)) [
  | inl done ↦ absurd (cc (rw done at e))
  | inr more ↦
      rw more
        (take_int-take_uint h h' n (span_length is_num (drop h.pos h.memory)) (rw more at e) l)
]

pub int-Goes : (n : ℕ) (ys : List ℕ) → n < 2 ^ 31 → IsClean ys → Goes int (print 64 10 n ++ ys) n ys
unfolding int uint
int-Goes n ys small c h v =
    let (h', e, v') = uint-Goes 10 n ys (inl refl) (omega arith) c h v in
    (h', parse_int-parse_uint_trim h h' n e small, v')

-- `BoolToString` is read back.
pub boolean-Goes : (b : Bool) (ys : List ℕ) → Goes boolean (bool_to_string b ++ ys) b ys
unfolding boolean parse_bool_from_string_repr
boolean-Goes true ys h v =
    let (found, v') =
      consume_string-At h true_text (true_text ++ ys) ys v (strip_prefix-++ true_text ys) in
    ((consume_and_trim_string h true_text).0, rw found refl, v')
boolean-Goes false ys h v =
    let (found, v') =
      consume_string-At h false_text (false_text ++ ys) ys v (strip_prefix-++ false_text ys) in
    let lem =
      subst (λ xs. Strips (rest h) (stripped true_text xs) (consume_and_trim_string h true_text))
        v.left (consume_and_trim_string_lem h true_text v.valid) in
    ((consume_and_trim_string h false_text).0, rw (lem.0, found) refl, v')
