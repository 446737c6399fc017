-- ===== src/LineHandler/Till.antt =====
-- ConsumeAndTrimTillString of LineHandler (source/reader/cReader.cpp).
use columbo.Base.{
  ℕ, zero, suc, ◌+◌, ◌-◌, Bool, true, false, ◌||◌, not, Option, none, some, List, [], ◌∷◌, length,
  get_or, ltb, leb, ◌==◌, if◌then◌else◌,
}
use mathlib.Core.Option
use columbo.LineHandler.{LineHandler, MayFault, is_empty, cur_length, count_while}

-- The loop that tries to match: how many bytes of the text stand at index `i`, or that the line ends before the
-- text does and before a byte differs.
unfoldable pub match_from : List ℕ → ℕ → ℕ → List ℕ → Option ℕ
match_from memory size i [] = some 0
match_from memory size i (c ∷ cs) =
    if i == size
    then none
    else if c == get_or memory i 0
    then Option.map suc (match_from memory size (i + 1) cs)
    else some 0

-- What a try comes to: the line has ended, or the text is found, or the loop goes on behind what it matched.
abbrev pub tried : Option ℕ → ℕ → ℕ → (ℕ → Option (Option ℕ)) → Option (Option ℕ)
tried none to_match consumed again = some none
tried (some matched) to_match consumed again =
    if matched == to_match then some (some (consumed + matched)) else again matched

-- The loop, with a bound on its rounds: how many bytes are consumed, if the text is found. The search for a start
-- reads the byte behind the line where it finds none, before it tests for the end; `none` is that read behind the
-- memory.
unfoldable pub till_loop : ℕ → List ℕ → ℕ → List ℕ → ℕ → ℕ → Option (Option ℕ)
unfolding count_while match_from
till_loop zero memory size text i consumed = some none
till_loop (suc fuel) memory size [] i consumed = some none
till_loop (suc fuel) memory size (c ∷ cs) i consumed =
    let skipped = count_while (λ b. not (c == b)) memory i (size - i) in
    let start = i + skipped in
    let again : ℕ → Option (Option ℕ) =
      λ n. till_loop fuel memory size (c ∷ cs) (start + n) (consumed + skipped + n) in
    let result =
      tried (match_from memory size start (c ∷ cs)) (suc (length cs)) (consumed + skipped) again in
    if i == size
    then some none
    else if start == size
    then (if leb (length memory) size then none else some none)
    else result

abbrev pub moved : LineHandler → Option (Option ℕ) → MayFault Bool
moved h none = none
moved h (some none) = some (h, false)
moved h (some (some consumed)) = some (record h { pos = h.pos + consumed }, true)

unfoldable pub consume_and_trim_till_string : LineHandler → List ℕ → MayFault Bool
unfolding is_empty cur_length till_loop
consume_and_trim_till_string h text =
    if is_empty h || ltb (cur_length h) (length text)
    then some (h, false)
    else moved h (till_loop (h.size - h.pos) h.memory h.size text h.pos 0)
