-- ===== src/LineHandler/Behind.antt =====
-- ParseUintTrim of LineHandler (source/reader/cReader.cpp) where digits stand in the memory behind the line.
use mathlib.Core.Option
use columbo.Base.{
  ℕ, suc, ◌+◌, ◌-◌, ◌<◌, ◌≡◌, refl, sym, Bool, true, not, Option, none, some, List, [], ◌∷◌, ◌++◌,
  length, drop, ltb, ◌||◌, ◌&&◌, ◌==◌, arith, Bool-cases, inl, inr, ◌⊎◌, subst,
}
use columbo.LineHandler.{
  LineHandler, parse_uint_trim, number_class, span_length, is_empty, take_uint,
}
use columbo.LineHandler.Rest.{rest, IsValid, length-slice}
use columbo.LineHandler.Number.{stopper, memory_split}

-- An option whose value, if there is one, is above a bound.
abbrev Above : ℕ → Option ℕ → Type 0
Above n none = Unit {0}
Above n (some k) = n < k

Above-suc : (n : ℕ) (o : Option ℕ) → Above n o → Above (suc n) (Option.map suc o)
Above-suc n none a = tt
Above-suc n (some k) a = omega (arith, a)

Above-suc_zero : (o : Option ℕ) → Above 0 (Option.map suc o)
Above-suc_zero none = tt
Above-suc_zero (some k) = omega arith

abbrev pub AllPass : (ℕ → Bool) → List ℕ → Type 0
AllPass p [] = Unit {0}
AllPass p (x ∷ xs) = (p x ≡ true) × AllPass p xs

-- The measuring loop runs past a text that passes the test, and the byte behind it.
span_length-Above :
    (p : ℕ → Bool) (xs ys : List ℕ) (next : ℕ)
    → AllPass p xs
    → p next ≡ true
    → Above (length xs) (span_length p (xs ++ (next ∷ ys)))
unfolding span_length
span_length-Above p [] ys next all t = rw t (Above-suc_zero (span_length p ys))
span_length-Above p (x ∷ xs) ys next all t =
    rw all.0 (Above-suc (length xs) _ (span_length-Above p xs ys next all.1 t))

-- A read behind the memory, or a failure that leaves the handler as it was.
abbrev pub Rejects : LineHandler → Option (LineHandler × Option ℕ) → Type 0
Rejects h o = (o ≡ none) ⊎ (o ≡ some (h, none))

take_uint-Rejects :
    (h : LineHandler) (base : ℕ) (o : Option ℕ)
    → IsValid h
    → Above (length (rest h)) o
    → Rejects h (take_uint h base o)
take_uint-Rejects h base none v a = inl refl
take_uint-Rejects h base (some n) v a =
    let past : ltb h.size (h.pos + n) ≡ true =
      ground (arith, a, length-slice h.memory h.pos (h.size - h.pos), v.in_line) in
    let wide : (n == 0 || ltb h.size (h.pos + n)) ≡ true = ground (arith, past) in
    rw wide (inr refl)

-- Where every byte left of the line is a digit and so is the byte behind it, `ParseUintTrim` does not see where
-- the line ends: it fails without moving, unless it reads behind the memory.
pub parse_uint_trim_behind :
    (h : LineHandler) (base : ℕ)
    → IsValid h
    → h.size < length h.memory
    → AllPass (number_class base) (rest h)
    → number_class base (stopper h) ≡ true
    → Rejects h (parse_uint_trim h base)
unfolding parse_uint_trim
parse_uint_trim_behind h base v l all more =
    let p = number_class base in
    let long = span_length-Above p (rest h) (drop (h.size + 1) h.memory) (stopper h) all more in
    let measured : Above (length (rest h)) (span_length p (drop h.pos h.memory)) =
      subst (λ xs. Above (length (rest h)) (span_length p xs)) (sym (memory_split h v l)) long in
    elim (Bool-cases (is_empty h || (not (base == 10) && not (base == 16)))) [
      | inl t ↦ rw t (inr refl)
      | inr f ↦ rw f (take_uint-Rejects h base _ v measured)
    ]
