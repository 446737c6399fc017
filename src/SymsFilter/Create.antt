-- ===== src/SymsFilter/Create.antt =====
-- What Create of SymsFilter (source/env/symtable.cc) makes of the lines of a file.
use columbo.Base.{
  ℕ, ◌≡◌, refl, ◌∙◌, ap, Bool, true, false, ◌&&◌, ◌||◌, Option, none, some, List, [], ◌∷◌, drop,
  ◌==◌, ◌⊎◌, arith, if◌then◌else◌, Bool-cases, inl, inr, subst,
}
use columbo.LineHandler.{LineHandler, MayFault, skip_till_whitespace, trim_l}
use columbo.StringInternalizer.{Text}
use columbo.StringInternalizer.Addresses.{IsDistinct}
use columbo.SymsFilter.{
  SymsFilter, FilterType, find, contains, is_nil_text, add_to_sym_table, with_address, add_name,
  and_then, load_syms_line, read_symbol, load_s_line, read_label, load_elf_line, read_elf_symbol,
  load_lines, load, create,
}
use columbo.SymsFilter.Valid.{IsValid, symbol_at, key, first, add_to_sym_table_lem}
use columbo.SymsFilter.Symbols.{
  Symbol, at_address, with_name, syms_name, label_name, elf_name, symbol_of, and_more, symbols_by,
  symbols_of, first_named,
}
use columbo.SymsFilter.Load.{Grows, same-Grows, then-Grows, add_to_sym_table-Grows}

-- A filter with one more symbol.
abbrev added : SymsFilter → ℕ → Option Symbol → SymsFilter
added f address_offset none = f
added f address_offset (some (address, name)) = (add_to_sym_table f address name address_offset).0

abbrev added_if : SymsFilter → ℕ → Option (Option Symbol) → Option SymsFilter
added_if f address_offset none = none
added_if f address_offset (some symbol) = some (added f address_offset symbol)

add_name-if :
    (f : SymsFilter) (address_offset address : ℕ) (skip : Bool) (name : Option Text)
    → (if skip then f else add_name f address_offset address name)
      ≡ added f address_offset (at_address address (if skip then none else name))
add_name-if f address_offset address true name = refl
add_name-if f address_offset address false none = refl
add_name-if f address_offset address false (some name) = refl

with_address-added :
    (f : SymsFilter) (address_offset : ℕ) (r : MayFault (Option ℕ))
    (k : LineHandler → ℕ → SymsFilter) (name : LineHandler → Option Text)
    → ((h : LineHandler) (address : ℕ)
        → k h address ≡ added f address_offset (at_address address (name h)))
    → with_address f r k ≡ added_if f address_offset (with_name r name)
with_address-added f address_offset none k name e = refl
with_address-added f address_offset (some (h, none)) k name e = refl
with_address-added f address_offset (some (h, some address)) k name e = ap some (e h address)

load_syms_line-added :
    (address_offset : ℕ) (f : SymsFilter) (line : LineHandler)
    → load_syms_line address_offset f line
      ≡ added_if f address_offset (symbol_of FilterType.syms line)
unfolding load_syms_line read_symbol
load_syms_line-added address_offset f line =
    with_address-added f address_offset _ _ syms_name
      (λ h address. add_name-if f address_offset address _ _)

load_s_line-added :
    (address_offset : ℕ) (f : SymsFilter) (line : LineHandler)
    → load_s_line address_offset f line ≡ added_if f address_offset (symbol_of FilterType.s line)
unfolding load_s_line read_label
load_s_line-added address_offset f line =
    with_address-added f address_offset _ _ label_name
      (λ h address. add_name-if f address_offset address _ _)

load_elf_line-added :
    (address_offset : ℕ) (f : SymsFilter) (line : LineHandler)
    → load_elf_line address_offset f line
      ≡ added_if f address_offset (symbol_of FilterType.elf line)
unfolding load_elf_line read_elf_symbol
load_elf_line-added address_offset f line =
    elim (Bool-cases (skip_till_whitespace (trim_l line)).1) [
      | inl t ↦ rw t (
          with_address-added f address_offset _ _ elf_name
            (λ h address. add_name-if f address_offset address _ _))
      | inr n ↦ rw n refl
    ]

abbrev or_else : Option Text → Option Text → Option Text
or_else none b = b
or_else (some a) b = some a

first-or_else :
    (o : Option Text) (name : Text) (more : Option Text)
    → or_else (first o name) more ≡ or_else o (some name)
first-or_else none name more = refl
first-or_else (some old) name more = refl

added-or_else :
    (f : SymsFilter) (address_offset address k : ℕ) (name : Text) (more : Option Text)
    → IsValid f
    → or_else (symbol_at (add_to_sym_table f address name address_offset).0 k) more
      ≡ or_else (symbol_at f k) (
          if (is_nil_text f.symbol_filter || contains f.symbol_filter name)
            && (key address_offset address == k)
          then some name
          else more)
added-or_else f address_offset address k name more v =
    ap (λ o. or_else o more) (add_to_sym_table_lem f address name address_offset k v).0
    ∙ elim (Bool-cases (
        (is_nil_text f.symbol_filter || contains f.symbol_filter name)
        && (key address_offset address == k))) [
          | inl t ↦
              let at : key address_offset address ≡ k = ground (arith, t) in
              rw t (
                first-or_else (symbol_at f (key address_offset address)) name more
                ∙ ap (λ j. or_else (symbol_at f j) (some name)) at)
          | inr n ↦ rw n refl
        ]

or_else-none : (o : Option Text) → o ≡ or_else o none
or_else-none none = refl
or_else-none (some a) = refl

-- What loading lines with these symbols makes of a filter.
record Loads (f f' : SymsFilter) (address_offset : ℕ) (symbols : List Symbol) : Type 0 where
  grows : Grows f f'
  has :
      (k : ℕ)
      → symbol_at f' k
        ≡ or_else (symbol_at f k) (first_named f.symbol_filter address_offset k symbols)

more-Loads :
    (f f' : SymsFilter) (address_offset address : ℕ) (name : Text) (symbols : List Symbol)
    → IsValid f
    → Loads (add_to_sym_table f address name address_offset).0 f' address_offset symbols
    → Loads f f' address_offset ((address, name) ∷ symbols)
more-Loads f f' address_offset address name symbols v l =
    let one = add_to_sym_table-Grows f address name address_offset v in
    record {
      grows = then-Grows one l.grows;
      has = λ k.
          l.has k
          ∙ ap
              (λ names.
                or_else (symbol_at (add_to_sym_table f address name address_offset).0 k)
                  (first_named names address_offset k symbols))
              one.same_filter
          ∙ added-or_else f address_offset address k name _ v;
    }

the_same : {A : Type 0} {a b : A} → some a ≡ some b → a ≡ b
the_same e = cc e

-- The two ways to read one line more without a fault.
and_more-cases :
    (a : Option (Option Symbol)) (b : Option (List Symbol)) (symbols : List Symbol)
    → and_more a b ≡ some symbols
    → ((a ≡ some none) × (b ≡ some symbols))
      ⊎ ((address : ℕ) × (name : Text) × (rest : List Symbol) × (a ≡ some (some (address, name)))
          × (b ≡ some rest)
          × ((address, name) ∷ rest ≡ symbols))
and_more-cases none b symbols e = absurd (cc e)
and_more-cases (some none) b symbols e = inl (refl, e)
and_more-cases (some (some x)) none symbols e = absurd (cc e)
and_more-cases (some (some (address, name))) (some rest) symbols e =
    inr (address, name, rest, refl, refl, the_same e)

module _ (step : SymsFilter → LineHandler → Option SymsFilter)
    (one : LineHandler → Option (Option Symbol)) (address_offset : ℕ)
    (same : (f : SymsFilter) (line : LineHandler)
      → step f line ≡ added_if f address_offset (one line)) where
  load_lines-Loads :
      (f : SymsFilter) (lines : List LineHandler) (symbols : List Symbol)
      → IsValid f
      → symbols_by one lines ≡ some symbols
      → (f' : SymsFilter) × (load_lines step f lines ≡ some f') × Loads f f' address_offset symbols
  unfolding load_lines
  load_lines-Loads f [] symbols v e =
      subst (λ es. (f' : SymsFilter) × (some f ≡ some f') × Loads f f' address_offset es)
        (the_same e)
        (f, refl, record { grows = same-Grows f v; has = λ k. or_else-none (symbol_at f k) })
  load_lines-Loads f (h ∷ hs) symbols v e =
      elim (and_more-cases (one h) (symbols_by one hs) symbols e) [
        | inl (skips, more) ↦
            let (f', ran, l) = load_lines-Loads f hs symbols v more in
            (
              f',
              ap (λ o. and_then o (λ g. load_lines step g hs))
                    (same f h ∙ ap (added_if f address_offset) skips)
                  ∙ ran,
              l,
            )
        | inr (address, name, rest, adds, more, all) ↦
            let g = (add_to_sym_table f address name address_offset).0 in
            let valid = (add_to_sym_table-Grows f address name address_offset v).valid in
            let (f', ran, l) = load_lines-Loads g hs rest valid more in
            (
              f',
              ap (λ o. and_then o (λ x. load_lines step x hs))
                    (same f h ∙ ap (added_if f address_offset) adds)
                  ∙ ran,
              subst (Loads f f' address_offset) all
                  (more-Loads f f' address_offset address name rest v l),
            )
      ]

load-Loads :
    (type : FilterType) (address_offset : ℕ) (f : SymsFilter) (lines : List LineHandler)
    (symbols : List Symbol)
    → IsValid f
    → symbols_of type lines ≡ some symbols
    → (f' : SymsFilter) × (load type address_offset f lines ≡ some f')
      × Loads f f' address_offset symbols
unfolding load
load-Loads FilterType.syms address_offset f lines symbols v e =
    load_lines-Loads (load_syms_line address_offset) (symbol_of FilterType.syms) address_offset
      (load_syms_line-added address_offset) f lines symbols v e
load-Loads FilterType.s address_offset f lines symbols v e =
    load_lines-Loads (load_s_line address_offset) (symbol_of FilterType.s) address_offset
      (load_s_line-added address_offset) f lines symbols v e
load-Loads FilterType.elf address_offset f lines symbols v e =
    load_lines-Loads (load_elf_line address_offset) (symbol_of FilterType.elf) address_offset
      (load_elf_line-added address_offset) f (drop 3 lines) symbols v e

-- `Create` on lines none of which faults, with a set that has no string twice, returns a filter. It lets in the given
-- names, is valid, and its symbol at an address is the first one in the lines that it lets in and that stands, moved
-- by the offset modulo 2 ^ 64, at this address; it has none where there is no such line.
pub create_lem :
    (lines : List LineHandler) (address_offset : ℕ) (type : FilterType)
    (symbol_filter set : List Text) (symbols : List Symbol)
    → IsDistinct set
    → symbols_of type lines ≡ some symbols
    → (f : SymsFilter) × (create lines address_offset type symbol_filter set ≡ some f)
      × IsValid f
      × (f.symbol_filter ≡ symbol_filter)
      × ((k : ℕ) → symbol_at f k ≡ first_named symbol_filter address_offset k symbols)
unfolding create find
create_lem lines address_offset type symbol_filter set symbols d e =
    let empty : SymsFilter = record {
      symbol_filter = symbol_filter;
      symbol_table = [];
      symbol_set = set;
    } in
    let fresh : IsValid empty = record {
      sorted = tt;
      distinct = d;
      known = λ k s e. absurd (cc e);
    } in
    let (f, ran, l) = load-Loads type address_offset empty lines symbols fresh e in
    (f, ran, l.grows.valid, l.grows.same_filter, l.has)
