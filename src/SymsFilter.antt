-- ===== src/SymsFilter.antt =====
-- SymsFilter (include/env/symtable.h, source/env/symtable.cc): the symbols of a binary by their addresses.
--
-- The std::map is the list of its entries in the order of their keys. A pointer to a symbol is its address
-- in the StringInternalizer. What the ReaderBuffer reads of a file is the list of the LineHandlers it gives.
pub mod Nearest
pub mod Table
pub mod Valid
pub mod Load
pub mod Symbols
pub mod Create
pub mod Words
pub mod Format
mod Tests
use columbo.Base.{
  ℕ, zero, suc, ◌+◌, ◌%◌, ◌^◌, Bool, true, false, ◌&&◌, ◌||◌, not, Option, none, some, List, [],
  ◌∷◌, ltb, leb, ◌==◌, drop, if◌then◌else◌,
}
use columbo.Chars.{is_alnum_dot_bar, is_space}
use columbo.LineHandler.{
  LineHandler, MayFault, Returning, is_nil, cur_length, move_forward, trim_l, trim_till_whitespace,
  extract_and_substr_until, skip_till_whitespace, consume_and_trim_string, consume_and_trim_char,
  parse_uint_trim,
}
use columbo.StringInternalizer.{Text, text_eq, internalize}

abbrev pub is_nil_text : List Text → Bool
is_nil_text [] = true
is_nil_text (s ∷ ss) = false

-- An address and the pointer to its symbol.
abbrev pub Entry : Type 0
Entry = ℕ × ℕ

pub record SymsFilter : Type 0 where
  pub symbol_filter : List Text
  pub symbol_table : List Entry
  pub symbol_set : List Text

unfoldable pub contains : List Text → Text → Bool
unfolding text_eq
contains [] name = false
contains (s ∷ ss) name = text_eq s name || contains ss name

-- std::map: `insert` leaves an entry that is there; the iterators are what is before them, the nearest first,
-- and what is behind.
unfoldable pub insert : List Entry → ℕ → ℕ → List Entry × Bool
insert [] address sym = ((address, sym) ∷ [], true)
insert ((k, s) ∷ es) address sym =
    let (more, inserted) = insert es address sym in
    if ltb address k
    then ((address, sym) ∷ (k, s) ∷ es, true)
    else if address == k
    then ((k, s) ∷ es, false)
    else ((k, s) ∷ more, inserted)

unfoldable pub find : List Entry → ℕ → Option ℕ
find [] address = none
find ((k, s) ∷ es) address = if k == address then some s else find es address

abbrev pub Iterator : Type 0
Iterator = List Entry × List Entry

unfoldable pub first_not : (ℕ → Bool) → List Entry → List Entry → Iterator
first_not before seen [] = (seen, [])
first_not before seen ((k, s) ∷ es) =
    let more = first_not before ((k, s) ∷ seen) es in if before k then more else (seen, (k, s) ∷ es)

abbrev pub upper_bound : List Entry → ℕ → Iterator
upper_bound table address = first_not (λ k. leb k address) [] table

abbrev pub lower_bound : List Entry → ℕ → Iterator
lower_bound table address = first_not (λ k. ltb k address) [] table

unfoldable pub filter : SymsFilter → ℕ → Option ℕ
unfolding find
filter f address = find f.symbol_table address

-- The entry before an iterator, unless that is `begin`.
abbrev pub previous : List Entry → Option ℕ
previous [] = none
previous ((k, s) ∷ seen) = some s

unfoldable pub filter_nearest_address_upper : SymsFilter → ℕ → Option ℕ
unfolding first_not
filter_nearest_address_upper f address = previous (upper_bound f.symbol_table address).0

-- The iterator is read without a test for `end`: `none` is that fault.
abbrev pub at_or_before : ℕ → Iterator → Option (Option ℕ)
at_or_before address (seen, []) = none
at_or_before address (seen, (k, s) ∷ es) =
    if k == address
    then some (some s)
    else if ltb address k
    then some (previous seen)
    else some none

unfoldable pub filter_nearest_address_lower : SymsFilter → ℕ → Option (Option ℕ)
unfolding first_not
filter_nearest_address_lower f address = at_or_before address (lower_bound f.symbol_table address)

unfoldable pub parse_address : LineHandler → MayFault (Option ℕ)
unfolding trim_l parse_uint_trim
parse_address h = parse_uint_trim (trim_l h) 16

unfoldable pub parse_name : LineHandler → Returning (Option Text)
unfolding trim_l extract_and_substr_until
parse_name h =
    let (h', name) = extract_and_substr_until (trim_l h) is_alnum_dot_bar in
    if is_nil name then (h', none) else (h', some name)

unfoldable pub add_to_sym_table : SymsFilter → ℕ → Text → ℕ → SymsFilter × Bool
unfolding contains insert internalize
add_to_sym_table f address name address_offset =
    let (set, sym_ptr) = internalize f.symbol_set name in
    let (table, inserted) = insert f.symbol_table ((address_offset + address) % 2 ^ 64) sym_ptr in
    let in_set = contains f.symbol_filter name in
    if not (is_nil_text f.symbol_filter) && not in_set
    then (f, false)
    else (record f { symbol_table = table; symbol_set = set }, inserted)

unfoldable pub skip_syms_flags : LineHandler → Returning Bool
unfolding trim_l cur_length move_forward
skip_syms_flags h =
    let h' = trim_l h in
    if ltb (cur_length h') 8 then (h', false) else ((move_forward h' 7).0, true)

unfoldable pub skip_syms_section : LineHandler → LineHandler
unfolding trim_l trim_till_whitespace
skip_syms_section h = trim_till_whitespace (trim_l h)

unfoldable pub skip_syms_alignment : LineHandler → LineHandler
unfolding trim_l trim_till_whitespace
skip_syms_alignment h = trim_till_whitespace (trim_l h)

-- What a line's methods come to where the address was read, is missing, or reading it faulted.
abbrev pub with_address :
    SymsFilter → MayFault (Option ℕ) → (LineHandler → ℕ → SymsFilter) → Option SymsFilter
with_address f none k = none
with_address f (some (h, none)) k = some f
with_address f (some (h, some address)) k = some (k h address)

abbrev pub add_name : SymsFilter → ℕ → ℕ → Option Text → SymsFilter
add_name f address_offset address none = f
add_name f address_offset address (some name) = (add_to_sym_table f address name address_offset).0

-- The rounds of the loops of `LoadSyms`, `LoadS` and `LoadElf`, behind the address and before it.
unfoldable pub read_symbol : ℕ → SymsFilter → LineHandler → ℕ → SymsFilter
unfolding skip_syms_flags skip_syms_section skip_syms_alignment parse_name add_to_sym_table
read_symbol address_offset f h address =
    let (after_flags, has_flags) = skip_syms_flags h in
    let name = (parse_name (skip_syms_alignment (skip_syms_section after_flags))).1 in
    if not has_flags then f else add_name f address_offset address name

unfoldable pub load_syms_line : ℕ → SymsFilter → LineHandler → Option SymsFilter
unfolding trim_l parse_address read_symbol
load_syms_line address_offset f line =
    with_address f (parse_address (trim_l line)) (read_symbol address_offset f)

unfoldable pub read_label : ℕ → SymsFilter → LineHandler → ℕ → SymsFilter
unfolding consume_and_trim_string parse_name consume_and_trim_char add_to_sym_table
read_label address_offset f h address =
    let (at_name, opens) = consume_and_trim_string h (b' ' ∷ b'<' ∷ []) in
    let (behind_name, symbol) = parse_name at_name in
    let (at_colon, closes) = consume_and_trim_char behind_name b'>' in
    let colon = (consume_and_trim_char at_colon b':').1 in
    if not opens || not closes || not colon then f else add_name f address_offset address symbol

unfoldable pub load_s_line : ℕ → SymsFilter → LineHandler → Option SymsFilter
unfolding trim_l parse_address read_label
load_s_line address_offset f line =
    with_address f (parse_address (trim_l line)) (read_label address_offset f)

abbrev pub file_type : Text
file_type = b'F' ∷ b'I' ∷ b'L' ∷ b'E' ∷ []

abbrev pub object_type : Text
object_type = b'O' ∷ b'B' ∷ b'J' ∷ b'E' ∷ b'C' ∷ b'T' ∷ []

abbrev pub next_field : LineHandler → LineHandler
next_field h = trim_l (skip_till_whitespace h).0

unfoldable pub read_elf_symbol : ℕ → SymsFilter → LineHandler → ℕ → SymsFilter
unfolding trim_l skip_till_whitespace consume_and_trim_string parse_name add_to_sym_table
read_elf_symbol address_offset f h address =
    let at_type = next_field (trim_l h) in
    let (behind_file, is_file) = consume_and_trim_string at_type file_type in
    let is_object = (consume_and_trim_string behind_file object_type).1 in
    let at_name = next_field (next_field (next_field (next_field at_type))) in
    if is_file || is_object then f else add_name f address_offset address (parse_name at_name).1

unfoldable pub load_elf_line : ℕ → SymsFilter → LineHandler → Option SymsFilter
unfolding trim_l skip_till_whitespace parse_address read_elf_symbol
load_elf_line address_offset f line =
    let (at_value, has_value) = skip_till_whitespace (trim_l line) in
    let loaded = with_address f (parse_address at_value) (read_elf_symbol address_offset f) in
    if not has_value then some f else loaded

-- A loop over the lines of a file.
abbrev pub and_then : Option SymsFilter → (SymsFilter → Option SymsFilter) → Option SymsFilter
and_then none k = none
and_then (some f) k = k f

unfoldable pub load_lines :
    (SymsFilter → LineHandler → Option SymsFilter)
    → SymsFilter
    → List LineHandler
    → Option SymsFilter
load_lines load f [] = some f
load_lines load f (h ∷ hs) = and_then (load f h) (λ f'. load_lines load f' hs)

pub data FilterType : Type 0 where
  syms : FilterType
  s : FilterType
  elf : FilterType

unfoldable pub load : FilterType → ℕ → SymsFilter → List LineHandler → Option SymsFilter
unfolding load_syms_line load_s_line load_elf_line load_lines
load FilterType.syms address_offset f lines = load_lines (load_syms_line address_offset) f lines
load FilterType.s address_offset f lines = load_lines (load_s_line address_offset) f lines
load FilterType.elf address_offset f lines =
    load_lines (load_elf_line address_offset) f (drop 3 lines)

-- `Create` on the lines of the file, with a shared StringInternalizer.
unfoldable pub create :
    List LineHandler → ℕ → FilterType → List Text → List Text → Option SymsFilter
unfolding load
create lines address_offset type symbol_filter set =
    load type address_offset
      (record { symbol_filter = symbol_filter; symbol_table = []; symbol_set = set }) lines
