-- ===== src/SymsFilter/Load.antt =====
-- LoadSyms, LoadS and LoadElf of SymsFilter (source/env/symtable.cc).
use columbo.Base.{
  ℕ, ◌≡◌, refl, ◌∙◌, ap, Bool, true, false, not, ◌&&◌, Option, none, some, List, [], ◌∷◌, drop,
  ◌==◌, arith, if◌then◌else◌, Bool-cases, Option-cases, inl, inr, subst,
}
use columbo.LineHandler.{LineHandler, MayFault, skip_till_whitespace, trim_l}
use columbo.StringInternalizer.{Text}
use columbo.SymsFilter.{
  SymsFilter, FilterType, contains, is_nil_text, add_to_sym_table, with_address, add_name,
  load_syms_line, read_symbol, load_s_line, read_label, load_elf_line, read_elf_symbol, load_lines,
  load,
}
use columbo.SymsFilter.Valid.{
  IsValid, symbol_at, accepts, key, first, add_to_sym_table_lem, add_to_sym_table-IsValid,
}

-- A filter after more lines: it is valid, lets in the same names, and has the symbols that it had.
pub record Grows (f f' : SymsFilter) : Type 0 where
  pub valid : IsValid f'
  pub same_filter : f'.symbol_filter ≡ f.symbol_filter
  pub stays : (k : ℕ) (name : Text) → symbol_at f k ≡ some name → symbol_at f' k ≡ some name

pub same-Grows : (f : SymsFilter) → IsValid f → Grows f f
same-Grows f v = record { valid = v; same_filter = refl; stays = λ k name e. e }

pub then-Grows : {f g h : SymsFilter} → Grows f g → Grows g h → Grows f h
then-Grows p q = record {
  valid = q.valid;
  same_filter = q.same_filter ∙ p.same_filter;
  stays = λ k name e. q.stays k name (p.stays k name e);
}

add_to_sym_table-symbol_filter :
    (f : SymsFilter) (address : ℕ) (name : Text) (address_offset : ℕ)
    → (add_to_sym_table f address name address_offset).0.symbol_filter ≡ f.symbol_filter
unfolding add_to_sym_table
add_to_sym_table-symbol_filter f address name address_offset =
    elim (Bool-cases (not (is_nil_text f.symbol_filter) && not (contains f.symbol_filter name))) [
      | inl t ↦ rw t refl
      | inr n ↦ rw n refl
    ]

first_stays : (o : Option Text) (old name : Text) → o ≡ some old → first o name ≡ some old
first_stays o old name e = rw e refl

pub add_to_sym_table-Grows :
    (f : SymsFilter) (address : ℕ) (name : Text) (address_offset : ℕ)
    → IsValid f
    → Grows f (add_to_sym_table f address name address_offset).0
add_to_sym_table-Grows f address name address_offset v = record {
  valid = add_to_sym_table-IsValid f address name address_offset v;
  same_filter = add_to_sym_table-symbol_filter f address name address_offset;
  stays = λ k old e.
      let at = key address_offset address in
      (add_to_sym_table_lem f address name address_offset k v).0
      ∙ elim (Bool-cases (accepts f name && (at == k))) [
        | inr n ↦ rw n e
        | inl t ↦
            rw t (first_stays (symbol_at f at) old name (ap (symbol_at f) (ground (arith, t)) ∙ e))
      ];
}

add_name-Grows :
    (f : SymsFilter) (address_offset address : ℕ) (name : Option Text)
    → IsValid f
    → Grows f (add_name f address_offset address name)
add_name-Grows f address_offset address none v = same-Grows f v
add_name-Grows f address_offset address (some name) v =
    add_to_sym_table-Grows f address name address_offset v

if-Grows : (f g : SymsFilter) (b : Bool) → IsValid f → Grows f g → Grows f (if b then f else g)
if-Grows f g true v e = same-Grows f v
if-Grows f g false v e = e

-- A line that does not fault.
abbrev WellLoaded : SymsFilter → Option SymsFilter → Type 0
WellLoaded f none = Unit {0}
WellLoaded f (some f') = Grows f f'

with_address-Grows :
    (f : SymsFilter) (r : MayFault (Option ℕ)) (k : LineHandler → ℕ → SymsFilter)
    → IsValid f
    → ((h : LineHandler) (address : ℕ) → Grows f (k h address))
    → WellLoaded f (with_address f r k)
with_address-Grows f none k v e = tt
with_address-Grows f (some (h, none)) k v e = same-Grows f v
with_address-Grows f (some (h, some address)) k v e = e h address

load_syms_line-Grows :
    (address_offset : ℕ) (f : SymsFilter) (line : LineHandler)
    → IsValid f
    → WellLoaded f (load_syms_line address_offset f line)
unfolding load_syms_line read_symbol
load_syms_line-Grows address_offset f line v =
    with_address-Grows f _ _ v
      (λ h address. if-Grows f _ _ v (add_name-Grows f address_offset address _ v))

load_s_line-Grows :
    (address_offset : ℕ) (f : SymsFilter) (line : LineHandler)
    → IsValid f
    → WellLoaded f (load_s_line address_offset f line)
unfolding load_s_line read_label
load_s_line-Grows address_offset f line v =
    with_address-Grows f _ _ v
      (λ h address. if-Grows f _ _ v (add_name-Grows f address_offset address _ v))

load_elf_line-Grows :
    (address_offset : ℕ) (f : SymsFilter) (line : LineHandler)
    → IsValid f
    → WellLoaded f (load_elf_line address_offset f line)
unfolding load_elf_line read_elf_symbol
load_elf_line-Grows address_offset f line v =
    elim (Bool-cases (skip_till_whitespace (trim_l line)).1) [
      | inl t ↦ rw t (
          with_address-Grows f _ _ v
            (λ h address. if-Grows f _ _ v (add_name-Grows f address_offset address _ v)))
      | inr n ↦ rw n (same-Grows f v)
    ]

after-Grows :
    (f g : SymsFilter) (o : Option SymsFilter) → Grows f g → WellLoaded g o → WellLoaded f o
after-Grows f g none p q = tt
after-Grows f g (some h) p q = then-Grows p q

load_lines-Grows :
    (step : SymsFilter → LineHandler → Option SymsFilter)
    → ((f : SymsFilter) (line : LineHandler) → IsValid f → WellLoaded f (step f line))
    → (f : SymsFilter) (lines : List LineHandler) → IsValid f
    → WellLoaded f (load_lines step f lines)
unfolding load_lines
load_lines-Grows step each f [] v = same-Grows f v
load_lines-Grows step each f (h ∷ hs) v = elim (Option-cases (step f h)) [
  | inl e ↦ rw e tt
  | inr (g, e) ↦
      let one = subst (WellLoaded f) e (each f h v) in
      rw e (after-Grows f g _ one (load_lines-Grows step each g hs one.valid))
]

load-WellLoaded :
    (type : FilterType) (address_offset : ℕ) (f : SymsFilter) (lines : List LineHandler)
    → IsValid f
    → WellLoaded f (load type address_offset f lines)
unfolding load
load-WellLoaded FilterType.syms address_offset f lines v =
    load_lines-Grows (load_syms_line address_offset) (load_syms_line-Grows address_offset) f lines v
load-WellLoaded FilterType.s address_offset f lines v =
    load_lines-Grows (load_s_line address_offset) (load_s_line-Grows address_offset) f lines v
load-WellLoaded FilterType.elf address_offset f lines v =
    load_lines-Grows (load_elf_line address_offset) (load_elf_line-Grows address_offset) f
      (drop 3 lines) v

-- Loading a file of any of the three formats, in whole lines that do not fault, keeps a valid filter valid: the
-- names that it has are names that it lets in. The symbols that it had stay at their addresses.
pub load-Grows :
    (type : FilterType) (address_offset : ℕ) (f f' : SymsFilter) (lines : List LineHandler)
    → IsValid f
    → load type address_offset f lines ≡ some f'
    → Grows f f'
load-Grows type address_offset f f' lines v e =
    subst (WellLoaded f) e (load-WellLoaded type address_offset f lines v)
