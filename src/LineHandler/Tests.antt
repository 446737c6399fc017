-- ===== src/LineHandler/Tests.antt =====
-- The methods of LineHandler (source/reader/cReader.cpp) on concrete lines.
use columbo.Base.{ℕ, List, Bool, false, ◌+◌, ◌≡◌, refl, true, none, some, [], ◌∷◌, arith, inr, ◌⊎◌}
use columbo.Chars.{is_space, is_num, is_alnum, strtoul}
use columbo.LineHandler.{
  LineHandler, Returning, parse_uint_trim, trim_l, trim_till_whitespace, extract_and_substr_until,
  skip_till, consume_and_trim_string, consume_and_trim_char, parse_bool_from_string_repr, parse_int,
}
use columbo.LineHandler.Rest.{IsValid, rest}
use columbo.LineHandler.Consume.{Strips}
use columbo.LineHandler.Scan.{scan_lem}
use columbo.LineHandler.Till.{consume_and_trim_till_string}
use columbo.LineHandler.TillFirst.{consume_and_trim_till_string_lem}
use columbo.LineHandler.Cursor.{trim_left, consume_text, parse_uint, move, Advances}
use columbo.LineHandler.Resets.{Call, reading, to_start, set_line, after_calls, cursor_advances}
use columbo.LineHandler.Number.{parse_uint_trim_lem}
use columbo.LineHandler.Print.{parse_uint_trim-print}
use columbo.LineHandler.Behind.{parse_uint_trim_behind}

-- The line " 1f <ab", a line feed, and the first byte of the next line.
abbrev line : LineHandler
line = record {
  memory = b' ' ∷ b'1' ∷ b'f' ∷ b' ' ∷ b'<' ∷ b'a' ∷ b'b' ∷ 10 ∷ b'7' ∷ [];
  size = 7;
  pos = 0;
}

line-IsValid : IsValid line
line-IsValid = record { in_line = omega arith; in_memory = omega arith; small = omega arith }

abbrev at_number : LineHandler
at_number = record line { pos = 1 }

at_number-IsValid : IsValid at_number
at_number-IsValid = record { in_line = omega arith; in_memory = omega arith; small = omega arith }

abbrev hex_number : List ℕ
hex_number = b'1' ∷ b'f' ∷ []

abbrev behind_number : List ℕ
behind_number = b' ' ∷ b'<' ∷ b'a' ∷ b'b' ∷ []

scan_example :
    Strips (rest at_number) (some behind_number) (consume_and_trim_string at_number hex_number)
    × Strips (rest at_number) none (consume_and_trim_char at_number b'f')
    × Strips (rest at_number) (some behind_number) (skip_till at_number is_space)
    × (rest (trim_l at_number) ≡ b'1' ∷ b'f' ∷ behind_number)
    × (rest (trim_till_whitespace at_number) ≡ behind_number)
    × ((extract_and_substr_until at_number is_space).1 ≡ [])
    × (rest (extract_and_substr_until at_number is_space).0 ≡ b'1' ∷ b'f' ∷ behind_number)
unfolding is_space
scan_example = scan_lem at_number hex_number b'f' is_space at_number-IsValid

-- Another line is set, read, and read again from its start.
abbrev label : LineHandler
label = record { memory = b'<' ∷ b'a' ∷ b'b' ∷ []; size = 3; pos = 0 }

label-IsValid : IsValid label
label-IsValid = record { in_line = omega arith; in_memory = omega arith; small = omega arith }

abbrev line_calls : List Call
line_calls =
    reading trim_left
    ∷ reading (parse_uint 16)
    ∷ set_line label.memory 3
    ∷ reading (move 2)
    ∷ to_start
    ∷ reading (consume_text (b'<' ∷ []))
    ∷ []

ran : after_calls line_calls line ≡ some (record label { pos = 1 })
unfolding after_calls is_space is_alnum strtoul
ran = refl

cursor_example : Advances label (record label { pos = 1 })
cursor_example =
    cursor_advances line_calls line (record label { pos = 1 }) line-IsValid (label-IsValid, tt) ran

parse_uint_example : parse_uint_trim at_number 16 ≡ some (record line { pos = 3 }, some 31)
unfolding is_alnum strtoul
parse_uint_example =
    parse_uint_trim_lem at_number 16 at_number-IsValid (inr refl) (omega arith) refl

print_example : parse_uint_trim at_number 16 ≡ some (record at_number { pos = 1 + 2 }, some 31)
unfolding is_alnum
print_example =
    parse_uint_trim-print at_number 16 31 (b' ' ∷ b'<' ∷ b'a' ∷ b'b' ∷ []) at_number-IsValid
      (inr refl) (omega arith) refl (omega arith) refl refl

-- The last line of a file, "12" without a line feed, in a buffer where digits are left from before.
abbrev stale : LineHandler
stale = record { memory = b'1' ∷ b'2' ∷ b'3' ∷ 10 ∷ []; size = 2; pos = 0 }

stale-IsValid : IsValid stale
stale-IsValid = record { in_line = omega arith; in_memory = omega arith; small = omega arith }

behind_example : (parse_uint_trim stale 10 ≡ none) ⊎ (parse_uint_trim stale 10 ≡ some (stale, none))
unfolding is_num
behind_example = parse_uint_trim_behind stale 10 stale-IsValid (omega arith) (refl, (refl, tt)) refl

reads_true :
    (parse_bool_from_string_repr
      (record { memory = b't' ∷ b'r' ∷ b'u' ∷ b'e' ∷ []; size = 4; pos = 0 })).1
    ≡ some true
unfolding parse_bool_from_string_repr
reads_true = refl

reads_int : parse_int stale ≡ some (stale, none)
unfolding parse_int is_num
reads_int = refl

consume_and_trim_till_string_example :
    (r : Returning Bool) × (consume_and_trim_till_string line (b'<' ∷ b'a' ∷ []) ≡ some r)
    × Strips (rest line) (some (b'b' ∷ [])) r
consume_and_trim_till_string_example =
    consume_and_trim_till_string_lem line b'<' (b'a' ∷ []) line-IsValid (omega arith) refl

-- The line "aaab" has the text "aab", which is not found.
abbrev overlap : LineHandler
overlap = record { memory = b'a' ∷ b'a' ∷ b'a' ∷ b'b' ∷ 10 ∷ []; size = 4; pos = 0 }

missed : consume_and_trim_till_string overlap (b'a' ∷ b'a' ∷ b'b' ∷ []) ≡ some (overlap, false)
unfolding consume_and_trim_till_string
missed = refl

-- Where nothing is behind the line in the memory, a search that finds no start reads behind it.
faulted :
    consume_and_trim_till_string
      (record overlap { memory = b'a' ∷ b'b' ∷ []; size = 2 })
      (b'c' ∷ [])
    ≡ none
unfolding consume_and_trim_till_string
faulted = refl
