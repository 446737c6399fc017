-- ===== src/LineHandler.antt =====
-- LineHandler (include/reader/cReader.h, source/reader/cReader.cpp): a cursor in one line of a buffer.
--
-- `memory` is what can be read from `buf_` on: the line and what the buffer holds behind it. A read
-- behind the end of the memory is a fault, `none`.
pub mod Rest
pub mod Text
pub mod Consume
pub mod Cursor
pub mod Resets
pub mod Number
pub mod Print
pub mod Behind
pub mod View
pub mod Scan
pub mod Till
pub mod TillMatch
pub mod TillFirst
pub mod TillBounds
mod Tests
use mathlib.Core.Option
use columbo.Base.{
  ℕ, zero, suc, ◌+◌, ◌-◌, ◌%◌, ◌^◌, Bool, true, false, ◌&&◌, ◌||◌, not, Option, none, some, List,
  [], ◌∷◌, length, take, drop, get_or, ltb, leb, ◌==◌, if◌then◌else◌,
}
use columbo.Chars.{is_space, is_num, is_alnum, strtoul, strtol, ulong_max}

pub record LineHandler : Type 0 where
  pub memory : List ℕ
  pub size : ℕ
  pub pos : ℕ

-- The handler after a method, and what the method returns.
abbrev pub Returning : Type 0 → Type 0
Returning T = LineHandler × T

-- A method that may read behind the memory.
abbrev pub MayFault : Type 0 → Type 0
MayFault T = Option (LineHandler × T)

unfoldable pub reset : LineHandler → List ℕ → ℕ → LineHandler
reset h buf size = record { memory = buf; size = size; pos = 0 }

unfoldable pub get_raw_line : LineHandler → List ℕ
get_raw_line h = take h.size h.memory

unfoldable pub reset_pos : LineHandler → LineHandler
reset_pos h = record h { pos = 0 }

unfoldable pub get_cur_string : LineHandler → List ℕ
get_cur_string h = if leb h.size h.pos then [] else drop h.pos (take h.size h.memory)

-- `size_t` subtraction wraps.
unfoldable pub cur_length : LineHandler → ℕ
cur_length h = (2 ^ 64 + h.size - h.pos) % 2 ^ 64

unfoldable pub is_empty : LineHandler → Bool
unfolding cur_length
is_empty h = leb (cur_length h) 0

unfoldable pub move_forward : LineHandler → ℕ → Returning Bool
unfolding is_empty cur_length
move_forward h steps =
    if is_empty h || ltb (cur_length h) steps
    then (h, false)
    else (record h { pos = h.pos + steps }, true)

-- How many bytes from index `i` on pass the test, of `n` at most: the loops that walk a pointer up to
-- the end of the line.
unfoldable pub count_while : (ℕ → Bool) → List ℕ → ℕ → ℕ → ℕ
count_while p memory i zero = 0
count_while p memory i (suc n) =
    let rest = suc (count_while p memory (i + 1) n) in if p (get_or memory i 0) then rest else 0

unfoldable pub trim_l : LineHandler → LineHandler
unfolding is_empty count_while
trim_l h =
    if is_empty h
    then h
    else record h { pos = h.pos + count_while is_space h.memory h.pos (h.size - h.pos) }

unfoldable pub trim_till_whitespace : LineHandler → LineHandler
unfolding is_empty count_while
trim_till_whitespace h = if is_empty h then h else record h {
  pos = h.pos + count_while (λ c. not (is_space c)) h.memory h.pos (h.size - h.pos);
}

-- The loop of `ExtractAndSubstrUntil`, with a bound on its rounds.
unfoldable pub extract_loop : ℕ → LineHandler → (ℕ → Bool) → Returning (List ℕ)
unfolding is_empty
extract_loop zero h p = (h, [])
extract_loop (suc fuel) h p =
    let letter = get_or h.memory h.pos 0 in
    let more = extract_loop fuel (record h { pos = h.pos + 1 }) p in
    if is_empty h then (h, []) else if not (p letter) then (h, []) else (more.0, letter ∷ more.1)

unfoldable pub extract_and_substr_until : LineHandler → (ℕ → Bool) → Returning (List ℕ)
unfolding extract_loop
extract_and_substr_until h p = extract_loop (h.size - h.pos) h p

abbrev pub is_nil : List ℕ → Bool
is_nil [] = true
is_nil (c ∷ cs) = false

unfoldable pub extract_and_substr_until_into : LineHandler → (ℕ → Bool) → Returning (List ℕ × Bool)
unfolding extract_and_substr_until
extract_and_substr_until_into h p =
    let (h', target) = extract_and_substr_until h p in (h', (target, not (is_nil target)))

unfoldable pub skip_till : LineHandler → (ℕ → Bool) → Returning Bool
unfolding is_empty count_while
skip_till h p =
    let read = count_while (λ c. not (p c)) h.memory h.pos (h.size - h.pos) in
    if is_empty h
    then (h, false)
    else if ltb (h.pos + read) h.size
    then (record h { pos = h.pos + read }, true)
    else (h, false)

unfoldable pub skip_till_whitespace : LineHandler → Returning Bool
unfolding skip_till
skip_till_whitespace h = skip_till h is_space

-- The loop of `ConsumeAndTrimString`: whether the text stands at index `i`, before the end of the line.
unfoldable pub matches_at : List ℕ → ℕ → ℕ → List ℕ → Bool
matches_at memory size i [] = true
matches_at memory size i (c ∷ cs) =
    if i == size
    then false
    else if not (c == get_or memory i 0)
    then false
    else matches_at memory size (i + 1) cs

unfoldable pub consume_and_trim_string : LineHandler → List ℕ → Returning Bool
unfolding is_empty cur_length matches_at
consume_and_trim_string h text =
    if is_empty h || ltb (cur_length h) (length text)
    then (h, false)
    else if matches_at h.memory h.size h.pos text
    then (record h { pos = h.pos + length text }, true)
    else (h, false)

unfoldable pub consume_and_trim_char : LineHandler → ℕ → Returning Bool
unfolding is_empty
consume_and_trim_char h c =
    if is_empty h
    then (h, false)
    else if not (get_or h.memory h.pos 0 == c)
    then (h, false)
    else (record h { pos = h.pos + 1 }, true)

-- The loop that measures a number. The cursor does not move in it, so nothing stops it at the end of
-- the line: it goes on into the memory behind, and `none` is a read behind that.
unfoldable pub span_length : (ℕ → Bool) → List ℕ → Option ℕ
span_length p [] = none
span_length p (c ∷ cs) =
    let rest = Option.map suc (span_length p cs) in if p c then rest else some 0

abbrev pub number_class : ℕ → ℕ → Bool
number_class base = if base == 10 then is_num else is_alnum

abbrev pub take_uint : LineHandler → ℕ → Option ℕ → MayFault (Option ℕ)
take_uint h base none = none
take_uint h base (some n) =
    if n == 0 || ltb h.size (h.pos + n)
    then some (h, none)
    else let num = strtoul base (drop h.pos h.memory) in
      if num == ulong_max then some (h, none) else some (record h { pos = h.pos + n }, some num)

unfoldable pub parse_uint_trim : LineHandler → ℕ → MayFault (Option ℕ)
unfolding is_empty span_length
parse_uint_trim h base =
    if is_empty h || (not (base == 10) && not (base == 16))
    then some (h, none)
    else take_uint h base (span_length (number_class base) (drop h.pos h.memory))

-- An `int` is the pattern of its 32 bits; a `long` loses its upper half on the way.
abbrev pub take_int : LineHandler → Option ℕ → MayFault (Option ℕ)
take_int h none = none
take_int h (some n) =
    if n == 0 || ltb h.size (h.pos + n)
    then some (h, none)
    else some (record h { pos = h.pos + n }, some (strtol (drop h.pos h.memory) % 2 ^ 32))

unfoldable pub parse_int : LineHandler → MayFault (Option ℕ)
unfolding is_empty span_length
parse_int h =
    if is_empty h then some (h, none) else take_int h (span_length is_num (drop h.pos h.memory))

abbrev pub as_bool : MayFault (Option ℕ) → MayFault (Option Bool)
as_bool none = none
as_bool (some (h, none)) = some (h, none)
as_bool (some (h, some n)) = some (h, some (not (n == 0)))

unfoldable pub parse_bool_from_uint : LineHandler → ℕ → MayFault (Option Bool)
unfolding parse_uint_trim
parse_bool_from_uint h base = as_bool (parse_uint_trim h base)

unfoldable pub parse_bool_from_int : LineHandler → MayFault (Option Bool)
unfolding parse_int
parse_bool_from_int h = as_bool (parse_int h)

abbrev pub true_text : List ℕ
true_text = b't' ∷ b'r' ∷ b'u' ∷ b'e' ∷ []

abbrev pub false_text : List ℕ
false_text = b'f' ∷ b'a' ∷ b'l' ∷ b's' ∷ b'e' ∷ []

unfoldable pub parse_bool_from_string_repr : LineHandler → Returning (Option Bool)
unfolding consume_and_trim_string
parse_bool_from_string_repr h =
    let (after_true, is_true) = consume_and_trim_string h true_text in
    let (after_false, is_false) = consume_and_trim_string h false_text in
    if is_true
    then (after_true, some true)
    else if is_false
    then (after_false, some false)
    else (h, none)
