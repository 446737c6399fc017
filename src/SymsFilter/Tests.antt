-- ===== src/SymsFilter/Tests.antt =====
-- SymsFilter (source/env/symtable.cc) on concrete tables and lines.
use columbo.Base.{ℕ, List, ◌≡◌, refl, true, none, some, [], ◌∷◌, ◌++◌, arith}
use columbo.Chars.{is_space, is_alnum, is_alnum_dot_bar, strtoul}
use columbo.LineHandler.{LineHandler, consume_and_trim_string, consume_and_trim_char}
use columbo.LineHandler.Print.{print}
use columbo.LineHandler.View.{At}
use columbo.StringInternalizer.{Text}
use columbo.SymsFilter.{
  SymsFilter, FilterType, parse_address, parse_name, find, contains, add_to_sym_table, load,
  load_s_line, load_syms_line, create, filter_nearest_address_upper, filter_nearest_address_lower,
}
use columbo.SymsFilter.Nearest.{IsNearest, filter_nearest_address_upper_lem}
use columbo.SymsFilter.Valid
use columbo.SymsFilter.Valid.{symbol_at, accepts, key, first, name_at, add_to_sym_table_lem}
use columbo.SymsFilter.Load.{Grows, load-Grows}
use columbo.SymsFilter.Symbols.{symbols_of, first_named}
use columbo.SymsFilter.Create.{create_lem}
use columbo.SymsFilter.Words.{IsName, IsBlank}
use columbo.SymsFilter.Format.{SymsLine, load_s_line_lem, load_syms_line_lem}

abbrev rx : Text
rx = b'r' ∷ b'x' ∷ []

abbrev tx : Text
tx = b't' ∷ b'x' ∷ []

-- "rx" at 16 and "tx" at 64, and only these let in.
abbrev two_symbols : SymsFilter
two_symbols = record {
  symbol_filter = rx ∷ tx ∷ [];
  symbol_table = (16, 0) ∷ (64, 1) ∷ [];
  symbol_set = rx ∷ tx ∷ [];
}

lookup_example :
    IsNearest two_symbols.symbol_table 40 (filter_nearest_address_upper two_symbols 40)
    × (filter_nearest_address_lower two_symbols 40
        ≡ some (filter_nearest_address_upper two_symbols 40))
lookup_example = filter_nearest_address_upper_lem two_symbols 40 (omega arith, (omega arith, tt))

-- A read behind the table.
lower_faults : filter_nearest_address_lower two_symbols 65 ≡ none
unfolding filter_nearest_address_lower
lower_faults = refl

abbrev fresh : SymsFilter
fresh = record { symbol_filter = rx ∷ tx ∷ []; symbol_table = []; symbol_set = [] }

-- The line "1f <rx>:" and a line feed.
abbrev label_line : LineHandler
label_line = record {
  memory = b'1' ∷ b'f' ∷ b' ' ∷ b'<' ∷ b'r' ∷ b'x' ∷ b'>' ∷ b':' ∷ 10 ∷ [];
  size = 8;
  pos = 0;
}

abbrev loaded : SymsFilter
loaded = record { symbol_filter = rx ∷ tx ∷ []; symbol_table = (47, 0) ∷ []; symbol_set = rx ∷ [] }

created : create (label_line ∷ []) 16 FilterType.s (rx ∷ tx ∷ []) [] ≡ some loaded
unfolding create is_space is_alnum is_alnum_dot_bar strtoul
created = refl

-- The line "2 <ab>:" and a line feed, whose name is not let in.
abbrev other_line : LineHandler
other_line = record {
  memory = b'2' ∷ b' ' ∷ b'<' ∷ b'a' ∷ b'b' ∷ b'>' ∷ b':' ∷ 10 ∷ [];
  size = 7;
  pos = 0;
}

abbrev symbols : List (ℕ × Text)
symbols = (2, b'a' ∷ b'b' ∷ []) ∷ (31, rx) ∷ []

two_lines : symbols_of FilterType.s (other_line ∷ label_line ∷ []) ≡ some symbols
unfolding is_space is_alnum is_alnum_dot_bar strtoul parse_address consume_and_trim_string
    consume_and_trim_char parse_name
two_lines = refl

create_example :
    (f : SymsFilter) × (create (other_line ∷ label_line ∷ []) 16 FilterType.s (rx ∷ tx ∷ []) []
      ≡ some f)
    × Valid.IsValid f
    × (f.symbol_filter ≡ rx ∷ tx ∷ [])
    × ((k : ℕ) → symbol_at f k ≡ first_named (rx ∷ tx ∷ []) 16 k symbols)
create_example =
    create_lem (other_line ∷ label_line ∷ []) 16 FilterType.s (rx ∷ tx ∷ []) [] symbols tt two_lines

fresh-IsValid : Valid.IsValid fresh
unfolding find
fresh-IsValid = record { sorted = tt; distinct = tt; known = λ k s e. absurd (cc e) }

loads : load FilterType.s 16 fresh (label_line ∷ []) ≡ some loaded
unfolding load is_space is_alnum is_alnum_dot_bar strtoul
loads = refl

load_example : Grows fresh loaded
load_example = load-Grows FilterType.s 16 fresh loaded (label_line ∷ []) fresh-IsValid loads

add_example :
    let (f', added) = add_to_sym_table fresh 31 rx 16 in
    (symbol_at f' 47 ≡ some rx) × (added ≡ true)
unfolding find contains
add_example = add_to_sym_table_lem fresh 31 rx 16 47 fresh-IsValid

label_line-At : At label_line (print 64 16 31 ++ (b' ' ∷ b'<' ∷ (rx ++ (b'>' ∷ b':' ∷ []))))
unfolding is_alnum
label_line-At = record {
  valid = record { in_line = omega arith; in_memory = omega arith; small = omega arith };
  behind = omega arith;
  ends = refl;
  left = refl;
}

rx-IsName : IsName rx
unfolding is_alnum_dot_bar
rx-IsName = record { not_empty = refl; letters = (refl, (refl, tt)) }

load_s_line_example : load_s_line 16 fresh label_line ≡ some (add_to_sym_table fresh 31 rx 16).0
load_s_line_example =
    load_s_line_lem fresh label_line 16 31 rx [] label_line-At (omega arith) rx-IsName

-- The line "1f g     F .text 00 rx" and a line feed.
abbrev symbol_line : LineHandler
symbol_line = record {
  memory =
      b'1' ∷ b'f' ∷ b' ' ∷ b'g' ∷ b' ' ∷ b' ' ∷ b' ' ∷ b' ' ∷ b' ' ∷ b'F' ∷ b' ' ∷ b'.' ∷ b't'
      ∷ b' ' ∷ b'0' ∷ b' ' ∷ b'r' ∷ b'x' ∷ 10 ∷ [];
  size = 18;
  pos = 0;
}

one-IsBlank : IsBlank (b' ' ∷ [])
unfolding is_space
one-IsBlank = record { some_blank = refl; blank = (refl, tt) }

parts : SymsLine
unfolding is_space
parts = record {
  gap = b' ' ∷ [];
  flags = b'g' ∷ b' ' ∷ b' ' ∷ b' ' ∷ b' ' ∷ b' ' ∷ b'F' ∷ [];
  gap1 = b' ' ∷ [];
  section = b'.' ∷ b't' ∷ [];
  gap2 = b' ' ∷ [];
  alignment = b'0' ∷ [];
  gap3 = b' ' ∷ [];
  name = rx;
  tail = [];
  blank = one-IsBlank;
  blank1 = one-IsBlank;
  blank2 = one-IsBlank;
  blank3 = one-IsBlank;
  first_flag = refl;
  seven = refl;
  section_word = record { some_mark = refl; marks = (refl, (refl, tt)) };
  alignment_word = record { some_mark = refl; marks = (refl, tt) };
  is_name = rx-IsName;
  name_ends = tt;
}

load_syms_line_example :
    load_syms_line 16 fresh symbol_line ≡ some (add_to_sym_table fresh 31 rx 16).0
unfolding parts is_alnum
load_syms_line_example =
    load_syms_line_lem fresh symbol_line 16 31 parts
      (record {
        valid = record { in_line = omega arith; in_memory = omega arith; small = omega arith };
        behind = omega arith;
        ends = refl;
        left = refl;
      })
      (omega arith)
