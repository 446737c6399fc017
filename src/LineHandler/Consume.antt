-- ===== src/LineHandler/Consume.antt =====
-- The methods of LineHandler (source/reader/cReader.cpp) that succeed or fail, on the list of the
-- bytes that are left.
use columbo.Base.{
  ℕ, suc, ◌+◌, ◌-◌, ◌≤◌, ◌<◌, ◌≡◌, refl, ◌∙◌, ap, Bool, true, false, not, Option, none, some, List,
  [], ◌∷◌, length, get_or, leb, leb→le, leb-false→lt, ltb, ltb→lt, ltb-false→le, ◌==◌, ==→eq, arith,
  if◌then◌else◌, Bool-cases, inl, inr,
}
use columbo.LineHandler.{
  LineHandler, Returning, count_while, skip_till, matches_at, consume_and_trim_string,
  consume_and_trim_char,
}
use columbo.LineHandler.Rest.{
  slice, slice_eq, rest, rest_done, rest_more, IsValid, is_empty_lem, cur_length_lem, drop_while,
  drop_while-slice, count_while-le, length-slice,
}

-- What is left behind a text that the bytes begin with.
abbrev pub strip_prefix : List ℕ → List ℕ → Option (List ℕ)
strip_prefix [] xs = some xs
strip_prefix (c ∷ cs) [] = none
strip_prefix (c ∷ cs) (x ∷ xs) = if c == x then strip_prefix cs xs else none

-- The result of a method, and what it leaves to read, where it strips what `o` says or fails.
abbrev pub Strips : List ℕ → Option (List ℕ) → Returning Bool → Type 0
Strips xs none r = (r.1 ≡ false) × (rest r.0 ≡ xs)
Strips xs (some ys) r = (r.1 ≡ true) × (rest r.0 ≡ ys)

abbrev matched : Bool → List ℕ → Option (List ℕ)
matched true ys = some ys
matched false ys = none

matches_at_lem :
    (m : List ℕ) (size i : ℕ) (text : List ℕ)
    → i ≤ size
    → strip_prefix text (slice m i (size - i))
      ≡ matched (matches_at m size i text) (slice m (i + length text) (size - (i + length text)))
unfolding matches_at
matches_at_lem m size i [] h =
    ap some (slice_eq m i (i + 0) (size - i) (size - (i + 0)) (omega arith) (omega arith))
matches_at_lem m size i (c ∷ cs) h = elim (Bool-cases (i == size)) [
  | inl e ↦ rw (e, slice_eq m i i (size - i) 0 refl (omega (arith, ==→eq _ _ e))) refl
  | inr ne ↦
      rw (ne, slice_eq m i i (size - i) (suc (size - (i + 1))) refl (ground arith))
        (elim (Bool-cases (c == get_or m i 0)) [
          | inl same ↦ rw same (
              matches_at_lem m size (i + 1) cs (ground arith)
              ∙ ap (matched (matches_at m size (i + 1) cs)) (
                  slice_eq m (i + 1 + length cs) (i + suc (length cs)) (size - (i + 1 + length cs))
                    (size - (i + suc (length cs))) (omega arith) (omega arith)))
          | inr other ↦ rw other refl
        ])
]

-- `ConsumeAndTrimString` succeeds where what is left is not empty and begins with the text, and takes the
-- text off; otherwise it leaves the cursor.
abbrev pub stripped : List ℕ → List ℕ → Option (List ℕ)
stripped text [] = none
stripped text (x ∷ xs) = strip_prefix text (x ∷ xs)

pub strip_prefix_short : (text xs : List ℕ) → length xs < length text → strip_prefix text xs ≡ none
strip_prefix_short [] xs h = absurd (omega arith)
strip_prefix_short (c ∷ cs) [] h = refl
strip_prefix_short (c ∷ cs) (x ∷ xs) h = ground (arith, strip_prefix_short cs xs)

stripped_more :
    (h : LineHandler) (text : List ℕ)
    → h.pos < h.size
    → stripped text (rest h) ≡ strip_prefix text (rest h)
stripped_more h text l = rw (rest_more h l) refl

-- `ConsumeAndTrimString` succeeds exactly where what is left is not empty and begins with the text; it then
-- leaves what is behind the text, and otherwise everything.
pub consume_and_trim_string_lem :
    (h : LineHandler) (text : List ℕ)
    → IsValid h
    → Strips (rest h) (stripped text (rest h)) (consume_and_trim_string h text)
unfolding consume_and_trim_string
consume_and_trim_string_lem h text v = elim (Bool-cases (leb h.size h.pos)) [
  | inl done ↦
      rw (is_empty_lem h v, done)
        (rw (rest_done h (leb→le _ _ done)) (refl, rest_done h (leb→le _ _ done)))
  | inr more ↦
      let l = leb-false→lt _ _ more in
      rw (is_empty_lem h v, more, cur_length_lem h v, stripped_more h text l)
        (elim (Bool-cases (ltb (h.size - h.pos) (length text))) [
          | inl short ↦
              let none_left : length (rest h) < length text =
                omega (arith, ltb→lt _ _ short, length-slice h.memory h.pos (h.size - h.pos)) in
              rw (short, strip_prefix_short text (rest h) none_left) (refl, refl)
          | inr enough ↦
              rw (enough, matches_at_lem h.memory h.size h.pos text v.in_line)
                (elim (Bool-cases (matches_at h.memory h.size h.pos text)) [
                  | inl t ↦ rw t (refl, refl)
                  | inr f ↦ rw f (refl, refl)
                ])
        ])
]

abbrev pub stripped_char : ℕ → List ℕ → Option (List ℕ)
stripped_char c [] = none
stripped_char c (x ∷ xs) = if x == c then some xs else none

-- `ConsumeAndTrimChar` succeeds exactly where the next byte is the one asked for, and takes it off.
pub consume_and_trim_char_lem :
    (h : LineHandler) (c : ℕ)
    → IsValid h
    → Strips (rest h) (stripped_char c (rest h)) (consume_and_trim_char h c)
unfolding consume_and_trim_char
consume_and_trim_char_lem h c v = elim (Bool-cases (leb h.size h.pos)) [
  | inl done ↦
      rw (is_empty_lem h v, done)
        (rw (rest_done h (leb→le _ _ done)) (refl, rest_done h (leb→le _ _ done)))
  | inr more ↦
      let e = rest_more h (leb-false→lt _ _ more) in
      rw (is_empty_lem h v, more, ap (stripped_char c) e)
        (elim (Bool-cases (get_or h.memory h.pos 0 == c)) [
          | inl t ↦ rw t (refl, refl)
          | inr f ↦ rw f (refl, refl)
        ])
]

-- What is left from the first byte on that passes a test, if there is one.
abbrev pub non_empty : List ℕ → Option (List ℕ)
non_empty [] = none
non_empty (x ∷ xs) = some (x ∷ xs)

-- `SkipTill` goes to the next byte that passes the predicate, and fails without moving where there is none.
pub skip_till_lem :
    (h : LineHandler) (p : ℕ → Bool)
    → IsValid h
    → Strips (rest h) (non_empty (drop_while (λ c. not (p c)) (rest h))) (skip_till h p)
unfolding skip_till
skip_till_lem h p v =
    let q : ℕ → Bool = λ c. not (p c) in
    let k = count_while q h.memory h.pos (h.size - h.pos) in
    let b = count_while-le q h.memory (h.size - h.pos) h.pos in
    let e = drop_while-slice q h.memory (h.size - h.pos) h.pos in
    elim (Bool-cases (leb h.size h.pos)) [
      | inl done ↦
          rw (is_empty_lem h v, done)
            (rw (rest_done h (leb→le _ _ done)) (refl, rest_done h (leb→le _ _ done)))
      | inr more ↦
          rw (is_empty_lem h v, more, e)
            (elim (Bool-cases (ltb (h.pos + k) h.size)) [
              | inl found ↦
                  rw
                    (
                      found,
                      slice_eq h.memory (h.pos + k) (h.pos + k) (h.size - h.pos - k)
                          (suc (h.size - (h.pos + k) - 1)) refl (omega (arith, ltb→lt _ _ found)),
                    )
                    (
                      refl,
                      slice_eq h.memory (h.pos + k) (h.pos + k) (h.size - (h.pos + k))
                          (suc (h.size - (h.pos + k) - 1)) refl (omega (arith, ltb→lt _ _ found)),
                    )
              | inr gone ↦
                  rw
                    (
                      gone,
                      slice_eq h.memory (h.pos + k) (h.pos + k) (h.size - h.pos - k) 0 refl
                          (omega (arith, ltb-false→le _ _ gone)),
                    )
                    (refl, refl)
            ])
    ]
