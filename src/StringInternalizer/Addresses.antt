-- ===== src/StringInternalizer/Addresses.antt =====
-- The addresses that StringInternalizer (include/env/stringInternalizer.h) gives out.
use columbo.Base.{
  ℕ, zero, suc, ◌+◌, ◌≡◌, ◌≢◌, ◌↔◌, refl, sym, ◌∙◌, ap, ap₂, true, false, List, [], ◌∷◌, some, ◌==◌,
  ==→eq, ==_refl, arith, Bool-cases, inl, inr,
}
use columbo.StringInternalizer.{Text, text_eq, deref, internalize}

some-injective : {s t : Text} → some s ≡ some t → s ≡ t
some-injective e = cc e

pub text_eq-≡ : (s t : Text) → text_eq s t ≡ true → s ≡ t
unfolding text_eq
text_eq-≡ [] [] e = refl
text_eq-≡ [] (d ∷ ds) e = absurd (cc e)
text_eq-≡ (c ∷ cs) [] e = absurd (cc e)
text_eq-≡ (c ∷ cs) (d ∷ ds) e = elim (Bool-cases (c == d)) [
  | inl t ↦ ap₂ (◌∷◌) (==→eq c d t) (text_eq-≡ cs ds (rw t at e))
  | inr f ↦ absurd (cc (rw f at e))
]

pub text_eq_refl : (s : Text) → text_eq s s ≡ true
unfolding text_eq
text_eq_refl [] = refl
text_eq_refl (c ∷ cs) = rw (==_refl c) (text_eq_refl cs)

deref_next : (s : Text) (ss : List Text) (i : ℕ) → deref (s ∷ ss) (i + 1) ≡ deref ss i
unfolding deref
deref_next s ss i = let e : i + 1 ≡ suc i = omega arith in ap (deref (s ∷ ss)) e

-- The address leads to the string.
pub internalize-deref :
    (set : List Text) (s : Text) → deref (internalize set s).0 (internalize set s).1 ≡ some s
unfolding internalize deref
internalize-deref [] s = refl
internalize-deref (t ∷ ts) s = elim (Bool-cases (text_eq t s)) [
  | inl e ↦ rw e (ap some (text_eq-≡ t s e))
  | inr f ↦ rw f (deref_next t (internalize ts s).0 (internalize ts s).1 ∙ internalize-deref ts s)
]

-- The addresses given out before stay valid.
pub internalize_keeps :
    (set : List Text) (s t : Text) (i : ℕ)
    → deref set i ≡ some t
    → deref (internalize set s).0 i ≡ some t
unfolding internalize deref
internalize_keeps [] s t i e = absurd (cc e)
internalize_keeps (u ∷ us) s t zero e = elim (Bool-cases (text_eq u s)) [
  | inl y ↦ rw y e
  | inr n ↦ rw n e
]
internalize_keeps (u ∷ us) s t (suc i) e = elim (Bool-cases (text_eq u s)) [
  | inl y ↦ rw y e
  | inr n ↦ rw n (internalize_keeps us s t i e)
]

-- A set with no string twice.
abbrev Avoids : Text → List Text → Type 0
Avoids s [] = Unit {0}
Avoids s (t ∷ ts) = (text_eq s t ≡ false) × Avoids s ts

abbrev pub IsDistinct : List Text → Type 0
IsDistinct [] = Unit {0}
IsDistinct (s ∷ ss) = Avoids s ss × IsDistinct ss

internalize-Avoids :
    (set : List Text) (s t : Text)
    → text_eq t s ≡ false
    → Avoids t set
    → Avoids t (internalize set s).0
unfolding internalize
internalize-Avoids [] s t n a = (n, tt)
internalize-Avoids (u ∷ us) s t n a = elim (Bool-cases (text_eq u s)) [
  | inl y ↦ rw y a
  | inr f ↦ rw f (a.0, internalize-Avoids us s t n a.1)
]

pub internalize-IsDistinct :
    (set : List Text) (s : Text) → IsDistinct set → IsDistinct (internalize set s).0
unfolding internalize
internalize-IsDistinct [] s d = (tt, tt)
internalize-IsDistinct (u ∷ us) s d = elim (Bool-cases (text_eq u s)) [
  | inl y ↦ rw y d
  | inr f ↦ rw f (internalize-Avoids us s u f d.0, internalize-IsDistinct us s d.1)
]

Avoids-deref : (s : Text) (ss : List Text) (i : ℕ) → Avoids s ss → deref ss i ≢ some s
unfolding deref
Avoids-deref s [] i a e = absurd (cc e)
Avoids-deref s (t ∷ ts) zero a e =
    absurd (cc (sym a.0, ap (text_eq s) (some-injective e), text_eq_refl s))
Avoids-deref s (t ∷ ts) (suc i) a e = Avoids-deref s ts i a.1 e

IsDistinct-deref :
    (ss : List Text) (i j : ℕ) (s : Text)
    → IsDistinct ss
    → deref ss i ≡ some s
    → deref ss j ≡ some s
    → i ≡ j
unfolding deref
IsDistinct-deref [] i j s d e f = absurd (cc e)
IsDistinct-deref (u ∷ us) zero zero s d e f = refl
IsDistinct-deref (u ∷ us) zero (suc j) s d e f = absurd (Avoids-deref u us j d.0 (f ∙ sym e))
IsDistinct-deref (u ∷ us) (suc i) zero s d e f = absurd (Avoids-deref u us i d.0 (e ∙ sym f))
IsDistinct-deref (u ∷ us) (suc i) (suc j) s d e f = ap suc (IsDistinct-deref us i j s d.1 e f)

-- The set after more strings.
unfoldable pub internalize_all : List Text → List Text → List Text
unfolding internalize
internalize_all set [] = set
internalize_all set (s ∷ ss) = internalize_all (internalize set s).0 ss

pub internalize_all_keeps :
    (ss set : List Text) (t : Text) (i : ℕ)
    → deref set i ≡ some t
    → deref (internalize_all set ss) i ≡ some t
unfolding internalize_all
internalize_all_keeps [] set t i e = e
internalize_all_keeps (s ∷ ss) set t i e =
    internalize_all_keeps ss (internalize set s).0 t i (internalize_keeps set s t i e)

internalize_all-IsDistinct :
    (ss set : List Text) → IsDistinct set → IsDistinct (internalize_all set ss)
unfolding internalize_all
internalize_all-IsDistinct [] set d = d
internalize_all-IsDistinct (s ∷ ss) set d =
    internalize_all-IsDistinct ss (internalize set s).0 (internalize-IsDistinct set s d)

-- The address that `Internalize` gives a string stays the string's: whatever is taken in between, the
-- address it gives for another string is the same exactly if the strings are the same.
pub internalize_addresses :
    (set between : List Text) (s t : Text)
    → IsDistinct set
    → let first = internalize set s in
      let second = internalize (internalize_all first.0 between) t in
      (deref second.0 first.1 ≡ some s) × ((first.1 ≡ second.1) ↔ (s ≡ t))
internalize_addresses set between s t d =
    let first = internalize set s in
    let middle = internalize_all first.0 between in
    let second = internalize middle t in
    let kept =
      internalize_keeps middle t s first.1
        (internalize_all_keeps between first.0 s first.1 (internalize-deref set s)) in
    let found = internalize-deref middle t in
    let distinct =
      internalize-IsDistinct middle t
        (internalize_all-IsDistinct between first.0 (internalize-IsDistinct set s d)) in
    (
      kept,
      (
        λ e. some-injective (sym kept ∙ ap (deref second.0) e ∙ found),
        λ e. IsDistinct-deref second.0 first.1 second.1 s distinct kept (found ∙ ap some (sym e)),
      ),
    )
