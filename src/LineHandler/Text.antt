-- ===== src/LineHandler/Text.antt =====
-- The trimming, extracting and consuming methods of LineHandler (source/reader/cReader.cpp) on the list
-- of the bytes that are left.
use columbo.Base.{
  ℕ, zero, suc, ◌+◌, ◌-◌, ◌≤◌, ◌<◌, ◌≡◌, refl, sym, ◌∙◌, ap, Bool, not, ◌∷◌, get_or, leb, leb→le,
  leb-false→lt, arith, if◌then◌else◌, Bool-cases, inl, inr,
}
use columbo.Chars.{is_space}
use columbo.LineHandler.{
  LineHandler, is_empty, count_while, trim_l, trim_till_whitespace, extract_loop,
  extract_and_substr_until,
}
use columbo.LineHandler.Rest.{
  slice_eq, rest, rest_done, rest_more, IsValid, is_empty_lem, take_while, drop_while,
  drop_while-slice,
}

-- Moving the cursor over what passes a test.
skipped :
    (p : ℕ → Bool) (h : LineHandler)
    → rest (record h { pos = h.pos + count_while p h.memory h.pos (h.size - h.pos) })
      ≡ drop_while p (rest h)
skipped p h =
    slice_eq h.memory _ _ _ _ refl (omega arith)
    ∙ sym (drop_while-slice p h.memory (h.size - h.pos) h.pos)

trimmed :
    (p : ℕ → Bool) (h : LineHandler)
    → IsValid h
    → rest (
        if is_empty h
        then h
        else record h { pos = h.pos + count_while p h.memory h.pos (h.size - h.pos) })
      ≡ drop_while p (rest h)
trimmed p h v = elim (Bool-cases (leb h.size h.pos)) [
  | inl done ↦ rw (is_empty_lem h v, done) (rw (rest_done h (leb→le _ _ done)))
  | inr more ↦ rw (is_empty_lem h v, more) (skipped p h)
]

-- `TrimL` leaves what is left of the line from its first byte that is no blank on, and
-- `TrimTillWhitespace` what is left from its first blank on.
pub trim_lem :
    (h : LineHandler)
    → IsValid h
    → (rest (trim_l h) ≡ drop_while is_space (rest h))
      × (rest (trim_till_whitespace h) ≡ drop_while (λ c. not (is_space c)) (rest h))
unfolding trim_l trim_till_whitespace
trim_lem h v = (trimmed is_space h v, trimmed (λ c. not (is_space c)) h v)

step-IsValid :
    (h : LineHandler) → IsValid h → h.pos < h.size → IsValid (record h { pos = h.pos + 1 })
step-IsValid h v l = record { in_line = omega arith; in_memory = v.in_memory; small = v.small }

extract_loop_lem :
    (fuel : ℕ) (h : LineHandler) (p : ℕ → Bool)
    → IsValid h
    → h.size - h.pos ≤ fuel
    → ((extract_loop fuel h p).1 ≡ take_while p (rest h))
      × (rest (extract_loop fuel h p).0 ≡ drop_while p (rest h))
unfolding extract_loop
extract_loop_lem zero h p v f = rw (rest_done h (omega arith)) (refl, refl)
extract_loop_lem (suc fuel) h p v f = elim (Bool-cases (leb h.size h.pos)) [
  | inl done ↦ rw (is_empty_lem h v, done) (rw (rest_done h (leb→le _ _ done)) (refl, refl))
  | inr more ↦
      let l = leb-false→lt _ _ more in
      let ih =
        extract_loop_lem fuel (record h { pos = h.pos + 1 }) p (step-IsValid h v l) (omega arith) in
      rw (is_empty_lem h v, more)
        (rw (rest_more h l) (elim (Bool-cases (p (get_or h.memory h.pos 0))) [
          | inl t ↦ rw t (ap (◌∷◌ (get_or h.memory h.pos 0)) ih.0, ih.1)
          | inr e ↦ rw e (refl, rest_more h l)
        ]))
]

-- `ExtractAndSubstrUntil` returns the leading bytes that pass the predicate, and leaves the others.
pub extract_and_substr_until_lem :
    (h : LineHandler) (p : ℕ → Bool)
    → IsValid h
    → ((extract_and_substr_until h p).1 ≡ take_while p (rest h))
      × (rest (extract_and_substr_until h p).0 ≡ drop_while p (rest h))
unfolding extract_and_substr_until
extract_and_substr_until_lem h p v = extract_loop_lem (h.size - h.pos) h p v (omega arith)
