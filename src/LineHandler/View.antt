-- ===== src/LineHandler/View.antt =====
-- A LineHandler (include/reader/cReader.h) by what is left of its line, for the clients of its methods.
use columbo.Base.{
  ℕ, zero, suc, ◌+◌, ◌-◌, ◌≤◌, ◌<◌, ◌≡◌, refl, sym, ◌∙◌, ap, ap₂, Bool, true, false, not, some,
  List, [], ◌∷◌, ◌++◌, length, get_or, arith, ◌||◌, ltb, inr, subst,
}
use columbo.Chars.{is_space, is_alnum, ulong_max}
use columbo.LineHandler.{
  LineHandler, is_empty, cur_length, move_forward, trim_l, trim_till_whitespace,
  extract_and_substr_until, consume_and_trim_string, consume_and_trim_char, parse_uint_trim,
}
use columbo.LineHandler.Rest.{
  IsValid, rest, slice, slice_eq, length-slice, take_while, drop_while, cur_length_lem,
  is_empty_lem,
}
use columbo.LineHandler.Text.{trim_lem, extract_and_substr_until_lem}
use columbo.LineHandler.Consume.{
  Strips, stripped, stripped_char, consume_and_trim_string_lem, consume_and_trim_char_lem,
}
use columbo.LineHandler.Cursor.{
  moves, Advances, after, after-Advances, Advances-IsValid, trim_left, trim_word, extract,
  consume_text, consume_char,
}
use columbo.LineHandler.Number.{stopper}
use columbo.LineHandler.Print.{print, Stops, parse_uint_trim-print}

-- A handler with these bytes left of its line, and a byte behind the line that is no letter and no digit.
pub record At (h : LineHandler) (xs : List ℕ) : Type 0 where
  pub valid : IsValid h
  pub behind : h.size < length h.memory
  pub ends : is_alnum (stopper h) ≡ false
  pub left : rest h ≡ xs

moved-At : (h h' : LineHandler) (xs ys : List ℕ) → At h xs → Advances h h' → rest h' ≡ ys → At h' ys
moved-At h h' xs ys v a e = record {
  valid = Advances-IsValid v.valid a;
  behind = omega (arith, a.same_size, ap length a.same_memory, v.behind);
  ends = ap is_alnum (ap₂ (λ m i. get_or m i 0) a.same_memory a.same_size) ∙ v.ends;
  left = e;
}

pub trim_l-At : (h : LineHandler) (xs : List ℕ) → At h xs → At (trim_l h) (drop_while is_space xs)
unfolding after
trim_l-At h xs v =
    moved-At h (trim_l h) xs _ v (after-Advances trim_left h v.valid)
      ((trim_lem h v.valid).0 ∙ ap (drop_while is_space) v.left)

pub trim_till_whitespace-At :
    (h : LineHandler) (xs : List ℕ)
    → At h xs
    → At (trim_till_whitespace h) (drop_while (λ c. not (is_space c)) xs)
unfolding after
trim_till_whitespace-At h xs v =
    moved-At h (trim_till_whitespace h) xs _ v (after-Advances trim_word h v.valid)
      ((trim_lem h v.valid).1 ∙ ap (drop_while (λ c. not (is_space c))) v.left)

pub extract-At :
    (h : LineHandler) (p : ℕ → Bool) (xs : List ℕ)
    → At h xs
    → ((extract_and_substr_until h p).1 ≡ take_while p xs)
      × At (extract_and_substr_until h p).0 (drop_while p xs)
unfolding after
extract-At h p xs v =
    let lem = extract_and_substr_until_lem h p v.valid in
    (
      lem.0 ∙ ap (take_while p) v.left,
      moved-At h _ xs _ v (after-Advances (extract p) h v.valid) (lem.1 ∙ ap (drop_while p) v.left),
    )

pub consume_string-At :
    (h : LineHandler) (text xs ys : List ℕ)
    → At h xs
    → stripped text xs ≡ some ys
    → ((consume_and_trim_string h text).1 ≡ true) × At (consume_and_trim_string h text).0 ys
unfolding after
consume_string-At h text xs ys v e =
    let lem =
      subst (λ o. Strips (rest h) o (consume_and_trim_string h text))
        (ap (stripped text) v.left ∙ e) (consume_and_trim_string_lem h text v.valid) in
    (lem.0, moved-At h _ xs _ v (after-Advances (consume_text text) h v.valid) lem.1)

pub consume_char-At :
    (h : LineHandler) (c : ℕ) (xs ys : List ℕ)
    → At h xs
    → stripped_char c xs ≡ some ys
    → ((consume_and_trim_char h c).1 ≡ true) × At (consume_and_trim_char h c).0 ys
unfolding after
consume_char-At h c xs ys v e =
    let lem =
      subst (λ o. Strips (rest h) o (consume_and_trim_char h c)) (ap (stripped_char c) v.left ∙ e)
        (consume_and_trim_char_lem h c v.valid) in
    (lem.0, moved-At h _ xs _ v (after-Advances (consume_char c) h v.valid) lem.1)

-- Going over the first bytes of what is left.
skip_slice :
    (m xs ys : List ℕ) (i n : ℕ)
    → slice m i n ≡ xs ++ ys
    → slice m (i + length xs) (n - length xs) ≡ ys
skip_slice m [] ys i n e = slice_eq m (i + 0) i (n - 0) n (omega arith) (omega arith) ∙ e
skip_slice m (x ∷ xs) ys i zero e = absurd (cc e)
skip_slice m (x ∷ xs) ys i (suc n) e =
    slice_eq m (i + suc (length xs)) (i + 1 + length xs) (suc n - suc (length xs)) (n - length xs)
      (omega arith) (omega arith)
    ∙ skip_slice m xs ys (i + 1) n (cc e)

length_front : (xs ys : List ℕ) → length xs ≤ length (xs ++ ys)
length_front [] ys = omega arith
length_front (x ∷ xs) ys = omega (arith, length_front xs ys)

room : (h : LineHandler) (xs ys : List ℕ) → At h (xs ++ ys) → h.pos + length xs ≤ h.size
room h xs ys v = omega (
  arith,
  length_front xs ys,
  ap length v.left,
  length-slice h.memory h.pos (h.size - h.pos),
  v.valid.in_line,
)

pub over-At :
    (h : LineHandler) (xs ys : List ℕ)
    → At h (xs ++ ys)
    → At (record h { pos = h.pos + length xs }) ys
over-At h xs ys v =
    let e = skip_slice h.memory xs ys h.pos (h.size - h.pos) v.left in
    let h' = record h { pos = h.pos + length xs } in
    moved-At h h' (xs ++ ys) ys v (moves h (length xs) (room h xs ys v))
      (slice_eq h.memory _ _ _ _ refl (omega arith) ∙ e)

pub parse_uint-At :
    (h : LineHandler) (n : ℕ) (ys : List ℕ)
    → At h (print 64 16 n ++ ys)
    → n < ulong_max
    → Stops 16 ys
    → let h' = record h { pos = h.pos + length (print 64 16 n) } in
      (parse_uint_trim h 16 ≡ some (h', some n)) × At h' ys
parse_uint-At h n ys v l s = (
  parse_uint_trim-print h 16 n ys v.valid (inr refl) v.behind v.ends l s v.left,
  over-At h (print 64 16 n) ys v,
)

pub move_forward-At :
    (h : LineHandler) (xs ys : List ℕ)
    → At h (xs ++ ys)
    → 0 < length xs
    → ((move_forward h (length xs)).1 ≡ true) × At (move_forward h (length xs)).0 ys
unfolding move_forward is_empty
move_forward-At h xs ys v l =
    let r = room h xs ys v in
    let goes : (is_empty h || ltb (cur_length h) (length xs)) ≡ false =
      ground (arith, cur_length_lem h v.valid, is_empty_lem h v.valid, r, l) in
    rw goes (refl, over-At h xs ys v)

pub At-length : (h : LineHandler) (xs : List ℕ) → At h xs → cur_length h ≡ length xs
At-length h xs v =
    cur_length_lem h v.valid ∙ sym (length-slice h.memory h.pos (h.size - h.pos)) ∙ ap length v.left
