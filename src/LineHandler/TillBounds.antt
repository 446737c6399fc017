-- ===== src/LineHandler/TillBounds.antt =====
-- How far ConsumeAndTrimTillString of LineHandler (source/reader/cReader.cpp) can move the cursor.
use columbo.Base.{
  ℕ, zero, suc, ◌+◌, ◌-◌, ◌≤◌, ◌≡◌, refl, Bool, true, false, not, Option, none, some, List, [], ◌∷◌,
  length, leb, ◌==◌, arith, if◌then◌else◌,
}
use columbo.LineHandler.{count_while}
use columbo.LineHandler.Rest.{count_while-le}
use columbo.LineHandler.Till.{match_from, tried, till_loop}
use columbo.LineHandler.TillMatch.{match_from-Matched}

-- What a search consumed from `pos` on ends in the line.
abbrev pub IsWithin : ℕ → ℕ → Option (Option ℕ) → Type 0
IsWithin size pos none = Unit {0}
IsWithin size pos (some none) = Unit {0}
IsWithin size pos (some (some n)) = pos + n ≤ size

if-IsWithin :
    (size pos : ℕ) (x : Bool) (t e : Option (Option ℕ))
    → IsWithin size pos t
    → IsWithin size pos e
    → IsWithin size pos (if x then t else e)
if-IsWithin size pos true t e p q = p
if-IsWithin size pos false t e p q = q

tried-IsWithin :
    (m : List ℕ) (size pos start done : ℕ) (text : List ℕ) (r : Option ℕ)
    (again : ℕ → Option (Option ℕ))
    → start ≡ pos + done
    → start ≤ size
    → match_from m size start text ≡ r
    → ((n : ℕ) → start + n ≤ size → IsWithin size pos (again n))
    → IsWithin size pos (tried r (length text) done again)
tried-IsWithin m size pos start done text none again e l s go_on = tt
tried-IsWithin m size pos start done text (some n) again e l s go_on =
    let r = match_from-Matched m size start text n l s in
    if-IsWithin size pos (n == length text) _ _ (omega (arith, e, r.in_line)) (go_on n r.in_line)

pub till_loop-IsWithin :
    (fuel : ℕ) (m : List ℕ) (size : ℕ) (text : List ℕ) (i pos consumed : ℕ)
    → i ≡ pos + consumed
    → i ≤ size
    → IsWithin size pos (till_loop fuel m size text i consumed)
unfolding till_loop
till_loop-IsWithin zero m size text i pos consumed e l = tt
till_loop-IsWithin (suc fuel) m size [] i pos consumed e l = tt
till_loop-IsWithin (suc fuel) m size (c ∷ cs) i pos consumed e l =
    let k = count_while (λ b. not (c == b)) m i (size - i) in
    let b = count_while-le (λ b. not (c == b)) m (size - i) i in
    if-IsWithin size pos (i == size) _ _ tt (
      if-IsWithin size pos (i + k == size) _ _
        (if-IsWithin size pos (leb (length m) size) _ _ tt tt)
        (tried-IsWithin m size pos (i + k) (consumed + k) (c ∷ cs)
          (match_from m size (i + k) (c ∷ cs)) _ (omega (arith, e)) (omega (arith, b, l)) refl
          (λ n nl.
            till_loop-IsWithin fuel m size (c ∷ cs) (i + k + n) pos (consumed + k + n)
              (omega (arith, e)) nl)))
