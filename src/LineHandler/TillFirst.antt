-- ===== src/LineHandler/TillFirst.antt =====
-- What ConsumeAndTrimTillString of LineHandler (source/reader/cReader.cpp) finds.
use columbo.Base.{
  ℕ, zero, suc, ◌+◌, ◌-◌, ◌≤◌, ◌<◌, ◌≡◌, refl, sym, ◌∙◌, ap, Bool, true, false, not, Option, none,
  some, List, ◌∷◌, length, get_or, leb, ltb, ◌==◌, ==→eq, arith, if◌then◌else◌, Bool-cases,
  Option-cases, inl, inr, ◌||◌, subst,
}
use columbo.LineHandler.{LineHandler, Returning, count_while}
use columbo.LineHandler.Rest.{
  slice_eq, rest, IsValid, is_empty_lem, cur_length_lem, drop_while-slice, count_while-le,
  length-slice,
}
use columbo.LineHandler.Consume.{strip_prefix, Strips}
use columbo.LineHandler.Till.{match_from, tried, till_loop, moved, consume_and_trim_till_string}
use columbo.LineHandler.TillMatch.{
  first_of, after_first, occurs, left, left_eq, left_cons, suc_eq, after_first-skip,
  after_first-short, match_from-none, match_from-Matched,
}

-- What a search comes to that started at `pos`, where `o` is behind the first occurrence of the text: the text is
-- not there, or so many bytes are consumed.
data Searches (m : List ℕ) (size pos : ℕ) (o : Option (List ℕ)) : Option (Option ℕ) → Type 0 where
  missing : o ≡ none → Searches m size pos o (some none)
  found :
      (n : ℕ)
      → pos + n ≤ size
      → o ≡ some (left m size (pos + n))
      → Searches m size pos o (some (some n))

count_while-stops :
    (p : ℕ → Bool) (m : List ℕ) (n i : ℕ)
    → count_while p m i n < n
    → p (get_or m (i + count_while p m i n) 0) ≡ false
unfolding count_while
count_while-stops p m zero i l = absurd (omega arith)
count_while-stops p m (suc n) i l = elim (Bool-cases (p (get_or m i 0))) [
  | inl t ↦
      let e : i + suc (count_while p m (i + 1) n) ≡ i + 1 + count_while p m (i + 1) n =
        omega arith in
      rw (t, e) (count_while-stops p m n (i + 1) (ground (arith, l, t)))
  | inr f ↦ let e : i + 0 ≡ i = omega arith in rw (f, e) f
]

after_first-here :
    (m : List ℕ) (size c : ℕ) (cs : List ℕ) (start : ℕ)
    → start < size
    → (c == get_or m start 0) ≡ true
    → after_first (c ∷ cs) (left m size start)
      ≡ first_of
          (strip_prefix cs (left m size (start + 1)))
          (after_first (c ∷ cs) (left m size (start + 1)))
after_first-here m size c cs start l same = rw (left_cons m size start l, same) refl

-- A try at a place where the first byte of the text stands.
try-Searches :
    (m : List ℕ) (size c : ℕ) (cs : List ℕ) (start pos done : ℕ) (again : ℕ → Option (Option ℕ))
    → start < size
    → start ≡ pos + done
    → (c == get_or m start 0) ≡ true
    → occurs c cs ≡ false
    → ((n : ℕ)
        → 0 < n
        → start + n ≤ size
        → Searches m size pos (after_first (c ∷ cs) (left m size (start + n))) (again n))
    → Searches m size pos
        (after_first (c ∷ cs) (left m size start))
        (tried (match_from m size start (c ∷ cs)) (suc (length cs)) done again)
unfolding match_from
try-Searches m size c cs start pos done again l at_start same once go_on =
    let inside : (start == size) ≡ false = ground arith in
    let next : start + 1 ≤ size = omega arith in
    elim (Option-cases (match_from m size (start + 1) cs)) [
      | inl e ↦
          rw (inside, same, e)
            (missing (
              after_first-short (c ∷ cs) (left m size start) (
                omega (
                  arith,
                  length-slice m start (size - start),
                  match_from-none m size (start + 1) cs next e,
                ))))
      | inr (n, e) ↦
          let r = match_from-Matched m size (start + 1) cs n next e in
          let here = after_first-here m size c cs start l same in
          elim (Bool-cases (n == length cs)) [
            | inl t ↦
                rw (inside, same, e, suc_eq n (length cs), t)
                  (found (done + suc n) (omega (arith, r.in_line)) (
                    here
                    ∙ rw (r.prefix, t) (ap some (left_eq m size _ _ (omega (arith, at_start))))))
            | inr f ↦
                rw (inside, same, e, suc_eq n (length cs), f)
                  (subst (λ o. Searches m size pos o (again (suc n)))
                    (sym (
                      here
                      ∙ rw (r.prefix, f)
                          (r.over c cs once
                            ∙ ap (after_first (c ∷ cs))
                                (left_eq m size (start + 1 + n) (start + suc n) (omega arith)))))
                    (go_on (suc n) (omega arith) (omega (arith, r.in_line))))
          ]
    ]

holds : (b : Bool) → not b ≡ false → b ≡ true
holds true e = refl
holds false e = absurd (cc e)

neither-Searches :
    (m : List ℕ) (size pos : ℕ) (o : Option (List ℕ)) (x y : Bool) (r s t : Option (Option ℕ))
    → x ≡ false
    → y ≡ false
    → Searches m size pos o t
    → Searches m size pos o (if x then r else if y then s else t)
neither-Searches m size pos o x y r s t e f v = rw (e, f) v

-- Enough rounds, and a byte behind the line: the loop ends, with the first occurrence.
till_loop-Searches :
    (fuel : ℕ) (m : List ℕ) (size c : ℕ) (cs : List ℕ) (i pos consumed : ℕ)
    → i ≡ pos + consumed
    → i ≤ size
    → size - i ≤ fuel
    → size < length m
    → occurs c cs ≡ false
    → Searches m size pos
        (after_first (c ∷ cs) (left m size i))
        (till_loop fuel m size (c ∷ cs) i consumed)
unfolding till_loop
till_loop-Searches zero m size c cs i pos consumed e l enough behind once =
    missing (ap (after_first (c ∷ cs)) (slice_eq m i i (size - i) 0 refl (omega arith)))
till_loop-Searches (suc fuel) m size c cs i pos consumed e l enough behind once =
    let p : ℕ → Bool = λ b. not (c == b) in
    let k = count_while p m i (size - i) in
    let b = count_while-le p m (size - i) i in
    let skip : after_first (c ∷ cs) (left m size i) ≡ after_first (c ∷ cs) (left m size (i + k)) =
      after_first-skip c cs (left m size i)
      ∙ ap (after_first (c ∷ cs)) (
          drop_while-slice p m (size - i) i
          ∙ slice_eq m (i + k) (i + k) (size - i - k) (size - (i + k)) refl (omega arith)) in
    elim (Bool-cases (i == size)) [
      | inl t ↦ rw t (
          missing (
            ap (after_first (c ∷ cs))
              (slice_eq m i i (size - i) 0 refl (omega (arith, ==→eq _ _ t)))))
      | inr f ↦ elim (Bool-cases (i + k == size)) [
        | inl t ↦
            let readable : leb (length m) size ≡ false = ground (arith, behind) in
            rw (f, t, readable)
              (missing (
                skip
                ∙ ap (after_first (c ∷ cs)) (
                    slice_eq m (i + k) (i + k) (size - (i + k)) 0 refl
                      (omega (arith, ==→eq _ _ t)))))
        | inr inside ↦
            let l' : i + k < size = ground (arith, inside, b) in
            neither-Searches m size pos _ (i == size) (i + k == size) _ _ _ f inside (
              rw skip (
                try-Searches m size c cs (i + k) pos (consumed + k) _ l' (omega (arith, e))
                  (holds _ (count_while-stops p m (size - i) i (omega (arith, l')))) once
                  (λ n n0 nl.
                    till_loop-Searches fuel m size c cs (i + k + n) pos (consumed + k + n)
                      (omega (arith, e)) nl (omega (arith, enough, n0)) behind once)))
      ]
    ]

moved-Strips :
    (h : LineHandler) (o : Option (List ℕ)) (r : Option (Option ℕ))
    → Searches h.memory h.size h.pos o r
    → (z : Returning Bool) × (moved h r ≡ some z) × Strips (rest h) o z
moved-Strips h o r (missing e) = ((h, false), refl, rw e (refl, refl))
moved-Strips h o r (found n l e) = ((record h { pos = h.pos + n }, true), refl, rw e (refl, refl))

-- On a valid handler with a byte behind its line, and for a text that is not empty and whose first byte does not
-- occur in it again: ConsumeAndTrimTillString does not read behind the memory, and succeeds exactly where the text
-- occurs in what is left of the line; it then leaves what is behind the first occurrence, and otherwise everything.
pub consume_and_trim_till_string_lem :
    (h : LineHandler) (c : ℕ) (cs : List ℕ)
    → IsValid h
    → h.size < length h.memory
    → occurs c cs ≡ false
    → (r : Returning Bool) × (consume_and_trim_till_string h (c ∷ cs) ≡ some r)
      × Strips (rest h) (after_first (c ∷ cs) (rest h)) r
unfolding consume_and_trim_till_string
consume_and_trim_till_string_lem h c cs v behind once =
    elim (Bool-cases (leb h.size h.pos || ltb (h.size - h.pos) (suc (length cs)))) [
      | inl t ↦
          let short : length (rest h) < suc (length cs) =
            ground (arith, t, length-slice h.memory h.pos (h.size - h.pos)) in
          rw (is_empty_lem h v, cur_length_lem h v, t)
            ((h, false), refl, rw (after_first-short (c ∷ cs) (rest h) short) (refl, refl))
      | inr f ↦
          rw (is_empty_lem h v, cur_length_lem h v, f)
            (moved-Strips h _ _ (
              till_loop-Searches (h.size - h.pos) h.memory h.size c cs h.pos h.pos 0 (omega arith)
                v.in_line (omega arith) behind once))
    ]
