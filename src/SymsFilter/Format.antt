-- ===== src/SymsFilter/Format.antt =====
-- The lines that LoadS and LoadSyms of SymsFilter (source/env/symtable.cc) are made for.
use columbo.Base.{ℕ, ◌<◌, ◌≡◌, refl, ◌∙◌, ap, false, some, List, [], ◌∷◌, ◌++◌, length, arith}
use columbo.Chars.{is_space, is_alnum, is_alnum_dot_bar, ulong_max}
use columbo.LineHandler.{LineHandler, is_nil, trim_l, trim_till_whitespace, consume_and_trim_string}
use columbo.LineHandler.Print.{print, Stops}
use columbo.LineHandler.View.{At, consume_string-At, consume_char-At}
use columbo.StringInternalizer.{Text}
use columbo.SymsFilter.{
  SymsFilter, with_address, add_to_sym_table, load_s_line, read_label, read_symbol, load_syms_line,
  skip_syms_flags, skip_syms_section, skip_syms_alignment,
}
use columbo.SymsFilter.Words.{
  Breaks, IsBlank, IsName, IsWord, Starts, name-Starts, parse_address-At, parse_name-At,
  print-Starts, skip_flags, skip_word, trim_gap, trim_nothing,
}

-- What `LoadS` reads behind the address.
read_label_lem :
    (f : SymsFilter) (h : LineHandler) (address_offset address : ℕ) (name : Text) (tail : List ℕ)
    → At h (b' ' ∷ b'<' ∷ (name ++ (b'>' ∷ b':' ∷ tail)))
    → IsName name
    → read_label address_offset f h address ≡ (add_to_sym_table f address name address_offset).0
unfolding read_label is_alnum_dot_bar is_alnum
read_label_lem f h address_offset address name tail v n =
    let a = consume_string-At h (b' ' ∷ b'<' ∷ []) _ (name ++ (b'>' ∷ b':' ∷ tail)) v refl in
    let behind = b'>' ∷ b':' ∷ tail in
    let opened = (consume_and_trim_string h (b' ' ∷ b'<' ∷ [])).0 in
    let w =
      trim_nothing opened (name ++ behind) a.1 (name-Starts name behind n.not_empty n.letters) in
    let b = parse_name-At opened name behind w n refl in
    let c = consume_char-At _ b'>' _ (b':' ∷ tail) b.1 refl in
    let d = consume_char-At _ b':' _ tail c.1 refl in rw (a.0, b.0, c.0, d.0) refl

-- `LoadS` takes a line "<address> <<name>>:", with the address in base 16, for that symbol.
pub load_s_line_lem :
    (f : SymsFilter) (h : LineHandler) (address_offset address : ℕ) (name : Text) (tail : List ℕ)
    → At h (print 64 16 address ++ (b' ' ∷ b'<' ∷ (name ++ (b'>' ∷ b':' ∷ tail))))
    → address < ulong_max
    → IsName name
    → load_s_line address_offset f h ≡ some (add_to_sym_table f address name address_offset).0
unfolding load_s_line is_alnum
load_s_line_lem f h address_offset address name tail v l n =
    let behind = b' ' ∷ b'<' ∷ (name ++ (b'>' ∷ b':' ∷ tail)) in
    let w = trim_nothing h (print 64 16 address ++ behind) v (print-Starts address behind) in
    let (h', e, at) = parse_address-At (trim_l h) address behind w l refl in
    ap (λ o. with_address f o (read_label address_offset f)) e
    ∙ ap some (read_label_lem f h' address_offset address name tail at n)

-- What `LoadSyms` is made for behind an address: seven flags, the first of which is set, a section, an alignment
-- and a name, with blanks between them.
pub record SymsLine : Type 0 where
  pub gap : List ℕ
  pub flags : List ℕ
  pub gap1 : List ℕ
  pub section : List ℕ
  pub gap2 : List ℕ
  pub alignment : List ℕ
  pub gap3 : List ℕ
  pub name : List ℕ
  pub tail : List ℕ
  pub blank : IsBlank gap
  pub blank1 : IsBlank gap1
  pub blank2 : IsBlank gap2
  pub blank3 : IsBlank gap3
  pub first_flag : Starts flags
  pub seven : length flags ≡ 7
  pub section_word : IsWord section
  pub alignment_word : IsWord alignment
  pub is_name : IsName name
  pub name_ends : Breaks is_alnum_dot_bar tail

abbrev pub after_flags : SymsLine → List ℕ
after_flags x = x.gap1 ++ (x.section ++ (x.gap2 ++ (x.alignment ++ (x.gap3 ++ (x.name ++ x.tail)))))

abbrev pub text : SymsLine → List ℕ
text x = x.gap ++ (x.flags ++ after_flags x)

Starts-++ : (xs ys : List ℕ) → 0 < length xs → Starts xs → Starts (xs ++ ys)
Starts-++ [] ys l s = absurd (omega (arith, l))
Starts-++ (x ∷ xs) ys l s = s

IsBlank-++ : (gap ys : List ℕ) → IsBlank gap → is_nil (gap ++ ys) ≡ false
IsBlank-++ [] ys b = absurd (let e = b.some_blank in cc e)
IsBlank-++ (c ∷ cs) ys b = refl

blank_Stops : (gap ys : List ℕ) → IsBlank gap → Stops 16 (gap ++ ys)
unfolding is_space is_alnum
blank_Stops [] ys b = absurd (let e = b.some_blank in cc e)
blank_Stops (c ∷ cs) ys b = ground (arith, b.blank.0)

read_symbol_lem :
    (f : SymsFilter) (h : LineHandler) (address_offset address : ℕ) (x : SymsLine)
    → At h (text x)
    → read_symbol address_offset f h address ≡ (add_to_sym_table f address x.name address_offset).0
unfolding read_symbol skip_syms_section skip_syms_alignment
read_symbol_lem f h address_offset address x v =
    let h1 = (skip_syms_flags h).0 in
    let h2 = trim_till_whitespace (trim_l h1) in
    let h3 = trim_till_whitespace (trim_l h2) in
    let a =
      skip_flags h x.gap x.flags (after_flags x) v x.blank
        (Starts-++ x.flags (after_flags x) (omega (arith, x.seven)) x.first_flag) x.seven
        (IsBlank-++ x.gap1 _ x.blank1) in
    let c = skip_word h1 x.gap1 x.section x.gap2 _ a.1 x.blank1 x.section_word x.blank2 in
    let d =
      skip_word h2 x.gap2 x.alignment x.gap3 (x.name ++ x.tail) c x.blank2 x.alignment_word
        x.blank3 in
    let g =
      trim_gap h3 x.gap3 (x.name ++ x.tail) d x.blank3
        (name-Starts x.name x.tail x.is_name.not_empty x.is_name.letters) in
    let r = parse_name-At h3 x.name x.tail g x.is_name x.name_ends in rw (a.0, r.0) refl

-- `LoadSyms` takes a line "<address> <flags> <section> <alignment> <name>", with the address in base 16 and seven
-- flags the first of which is set, for that symbol.
pub load_syms_line_lem :
    (f : SymsFilter) (h : LineHandler) (address_offset address : ℕ) (x : SymsLine)
    → At h (print 64 16 address ++ text x)
    → address < ulong_max
    → load_syms_line address_offset f h ≡ some (add_to_sym_table f address x.name address_offset).0
unfolding load_syms_line
load_syms_line_lem f h address_offset address x v l =
    let w = trim_nothing h (print 64 16 address ++ text x) v (print-Starts address (text x)) in
    let (h', e, at) =
      parse_address-At (trim_l h) address (text x) w l (blank_Stops x.gap _ x.blank) in
    ap (λ o. with_address f o (read_symbol address_offset f)) e
    ∙ ap some (read_symbol_lem f h' address_offset address x at)
