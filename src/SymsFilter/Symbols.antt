-- ===== src/SymsFilter/Symbols.antt =====
-- The symbols that the lines of a file have, in the three formats that SymsFilter reads (source/env/symtable.cc).
use columbo.Base.{ℕ, not, ◌&&◌, ◌||◌, Option, none, some, List, [], ◌∷◌, drop, ◌==◌, if◌then◌else◌}
use columbo.LineHandler.{
  LineHandler, MayFault, skip_till_whitespace, trim_l, consume_and_trim_string,
  consume_and_trim_char,
}
use columbo.StringInternalizer.{Text}
use columbo.SymsFilter.{
  FilterType, contains, is_nil_text, parse_address, parse_name, skip_syms_flags, skip_syms_section,
  skip_syms_alignment, file_type, object_type, next_field,
}
use columbo.SymsFilter.Valid.{key}

-- An address and a name, as a line has them.
abbrev pub Symbol : Type 0
Symbol = ℕ × Text

abbrev pub at_address : ℕ → Option Text → Option Symbol
at_address address none = none
at_address address (some name) = some (address, name)

-- A line's symbol, if it has one, from what reading its address gives: `none` is a fault.
abbrev pub with_name : MayFault (Option ℕ) → (LineHandler → Option Text) → Option (Option Symbol)
with_name none k = none
with_name (some (h, none)) k = some none
with_name (some (h, some address)) k = some (at_address address (k h))

abbrev pub syms_name : LineHandler → Option Text
syms_name h =
    let (after_flags, has_flags) = skip_syms_flags h in
    if not has_flags
    then none
    else (parse_name (skip_syms_alignment (skip_syms_section after_flags))).1

abbrev pub label_name : LineHandler → Option Text
label_name h =
    let (at_name, opens) = consume_and_trim_string h (b' ' ∷ b'<' ∷ []) in
    let (behind_name, symbol) = parse_name at_name in
    let (at_colon, closes) = consume_and_trim_char behind_name b'>' in
    if not opens || not closes || not (consume_and_trim_char at_colon b':').1 then none else symbol

abbrev pub elf_name : LineHandler → Option Text
elf_name h =
    let at_type = next_field (trim_l h) in
    let (behind_file, is_file) = consume_and_trim_string at_type file_type in
    if is_file || (consume_and_trim_string behind_file object_type).1
    then none
    else (parse_name (next_field (next_field (next_field (next_field at_type))))).1

-- The symbol that a line of each format has.
abbrev pub symbol_of : FilterType → LineHandler → Option (Option Symbol)
symbol_of FilterType.syms line = with_name (parse_address (trim_l line)) syms_name
symbol_of FilterType.s line = with_name (parse_address (trim_l line)) label_name
symbol_of FilterType.elf line =
    let (at_value, has_value) = skip_till_whitespace (trim_l line) in
    if not has_value then some none else with_name (parse_address at_value) elf_name

abbrev pub and_more : Option (Option Symbol) → Option (List Symbol) → Option (List Symbol)
and_more none rest = none
and_more (some none) rest = rest
and_more (some (some symbol)) none = none
and_more (some (some symbol)) (some symbols) = some (symbol ∷ symbols)

-- The symbols of the lines, in order, if no line faults.
abbrev pub symbols_by :
    (LineHandler → Option (Option Symbol)) → List LineHandler → Option (List Symbol)
symbols_by one [] = some []
symbols_by one (h ∷ hs) = and_more (one h) (symbols_by one hs)

-- An ELF file has three lines before its symbols.
abbrev pub symbols_of : FilterType → List LineHandler → Option (List Symbol)
symbols_of FilterType.syms lines = symbols_by (symbol_of FilterType.syms) lines
symbols_of FilterType.s lines = symbols_by (symbol_of FilterType.s) lines
symbols_of FilterType.elf lines = symbols_by (symbol_of FilterType.elf) (drop 3 lines)

-- The first name of this address, moved by the offset, that a filter of these names lets in.
abbrev pub first_named : List Text → ℕ → ℕ → List Symbol → Option Text
first_named names address_offset k [] = none
first_named names address_offset k ((address, name) ∷ symbols) =
    let more = first_named names address_offset k symbols in
    if (is_nil_text names || contains names name) && (key address_offset address == k)
    then some name
    else more
