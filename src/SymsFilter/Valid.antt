-- ===== src/SymsFilter/Valid.antt =====
-- AddToSymTable of SymsFilter (source/env/symtable.cc), and what loading a file keeps.
use columbo.Base.{
  ℕ, ◌+◌, ◌%◌, ◌^◌, ◌≡◌, refl, sym, ◌∙◌, ap, Bool, true, ◌||◌, ◌&&◌, Option, none, some, List, ◌==◌,
  arith, if◌then◌else◌, Bool-cases, Option-cases, inl, inr, subst,
}
use columbo.StringInternalizer.{Text, deref, internalize}
use columbo.StringInternalizer.Addresses.{
  IsDistinct, internalize-IsDistinct, internalize-deref, internalize_keeps,
}
use columbo.SymsFilter.{SymsFilter, find, insert, contains, is_nil_text, add_to_sym_table}
use columbo.SymsFilter.Table.{Sorted, insert-Sorted, insert-find, kept, is_none}

-- The string that a pointer of the table leads to.
abbrev pub name_at : List Text → Option ℕ → Option Text
name_at set none = none
name_at set (some s) = deref set s

-- What a filter promises: a partial map from addresses to names.
abbrev pub symbol_at : SymsFilter → ℕ → Option Text
symbol_at f address = name_at f.symbol_set (find f.symbol_table address)

-- The names that the filter lets in.
abbrev pub accepts : SymsFilter → Text → Bool
accepts f name = is_nil_text f.symbol_filter || contains f.symbol_filter name

pub record IsValid (f : SymsFilter) : Type 0 where
  pub sorted : Sorted 0 f.symbol_table
  pub distinct : IsDistinct f.symbol_set
  pub known :
      (k s : ℕ)
      → find f.symbol_table k ≡ some s
      → (name : Text) × (deref f.symbol_set s ≡ some name) × (accepts f name ≡ true)

-- The name that an address keeps where another one is added.
abbrev pub first : Option Text → Text → Option Text
first none name = some name
first (some old) name = some old

-- The names of the old pointers stay.
name_at_keeps :
    (f : SymsFilter) (s : Text) (k : ℕ)
    → IsValid f
    → name_at (internalize f.symbol_set s).0 (find f.symbol_table k) ≡ symbol_at f k
name_at_keeps f s k v = elim (Option-cases (find f.symbol_table k)) [
  | inl e ↦ rw e refl
  | inr (p, e) ↦
      let (name, d, a) = v.known k p e in rw (e, d, internalize_keeps f.symbol_set s name p d) refl
]

abbrev pub key : ℕ → ℕ → ℕ
key address_offset address = (address_offset + address) % 2 ^ 64

named :
    (f : SymsFilter) (name : Text) (at other : ℕ)
    → IsValid f
    → name_at (internalize f.symbol_set name).0 (
        if at == other
        then kept (find f.symbol_table at) (internalize f.symbol_set name).1
        else find f.symbol_table other)
      ≡ (if at == other then first (symbol_at f at) name else symbol_at f other)
named f name at other v = elim (Bool-cases (at == other)) [
  | inr o ↦ rw o (name_at_keeps f name other v)
  | inl e ↦ rw e (elim (Option-cases (find f.symbol_table at)) [
    | inl gone ↦ rw gone (internalize-deref f.symbol_set name)
    | inr (p, there) ↦
        let (old, d, a) = v.known at p there in
        rw (there, d) (internalize_keeps f.symbol_set name old p d)
  ])
]

-- `AddToSymTable` adds a name that the filter accepts at its address, moved by the offset modulo 2 ^ 64, where
-- the address has none yet; it changes nothing else, and returns whether it added.
pub add_to_sym_table_lem :
    (f : SymsFilter) (address : ℕ) (name : Text) (address_offset other : ℕ)
    → IsValid f
    → let at = key address_offset address in
      let (f', added) = add_to_sym_table f address name address_offset in
      (symbol_at f' other ≡ (
        if accepts f name && (at == other) then first (symbol_at f at) name else symbol_at f other))
      × (added ≡ (accepts f name && is_none (find f.symbol_table at)))
unfolding add_to_sym_table
add_to_sym_table_lem f address name address_offset other v =
    let at = key address_offset address in
    let (set, p) = internalize f.symbol_set name in
    let ins = insert-find 0 f.symbol_table at p other v.sorted in
    elim (Bool-cases (is_nil_text f.symbol_filter)) [
      | inl t ↦ rw t (ap (name_at set) ins.0 ∙ named f name at other v, ins.1)
      | inr n ↦ rw n (elim (Bool-cases (contains f.symbol_filter name)) [
        | inl c ↦ rw c (ap (name_at set) ins.0 ∙ named f name at other v, ins.1)
        | inr o ↦ rw o (refl, refl)
      ])
    ]

the_pointer : {a b : ℕ} → some a ≡ some b → a ≡ b
the_pointer e = cc e

-- What every pointer of a table leads to.
abbrev Known : SymsFilter → List Text → ℕ → Option ℕ → Type 0
Known f set k r =
    (s : ℕ) → r ≡ some s → (name : Text) × (deref set s ≡ some name) × (accepts f name ≡ true)

old-Known :
    (f : SymsFilter) (new : Text) (k : ℕ)
    → IsValid f
    → Known f (internalize f.symbol_set new).0 k (find f.symbol_table k)
old-Known f new k v s e =
    let (name, d, a) = v.known k s e in (name, internalize_keeps f.symbol_set new name s d, a)

new-Known :
    (f : SymsFilter) (name : Text) (at k : ℕ)
    → IsValid f
    → accepts f name ≡ true
    → Known f
        (internalize f.symbol_set name).0
        k
        (find (insert f.symbol_table at (internalize f.symbol_set name).1).0 k)
new-Known f name at k v a =
    let (set, p) = internalize f.symbol_set name in
    let ins = insert-find 0 f.symbol_table at p k v.sorted in
    subst (Known f set k) (sym ins.0) (elim (Bool-cases (at == k)) [
      | inr o ↦ rw o (old-Known f name k v)
      | inl t ↦ rw t (elim (Option-cases (find f.symbol_table at)) [
        | inl gone ↦ rw gone (λ s e.
            (name, ap (deref set) (the_pointer (sym e)) ∙ internalize-deref f.symbol_set name, a))
        | inr (q, there) ↦ rw there (λ s e. old-Known f name at v s (there ∙ e))
      ])
    ])

added-IsValid :
    (f : SymsFilter) (name : Text) (at : ℕ)
    → IsValid f
    → accepts f name ≡ true
    → IsValid (record f {
      symbol_table = (insert f.symbol_table at (internalize f.symbol_set name).1).0;
      symbol_set = (internalize f.symbol_set name).0;
    })
added-IsValid f name at v a = record {
  sorted =
      insert-Sorted 0 f.symbol_table at (internalize f.symbol_set name).1 v.sorted (omega arith);
  distinct = internalize-IsDistinct f.symbol_set name v.distinct;
  known = λ k. new-Known f name at k v a;
}

pub add_to_sym_table-IsValid :
    (f : SymsFilter) (address : ℕ) (name : Text) (address_offset : ℕ)
    → IsValid f
    → IsValid (add_to_sym_table f address name address_offset).0
unfolding add_to_sym_table
add_to_sym_table-IsValid f address name address_offset v =
    let at = key address_offset address in
    elim (Bool-cases (is_nil_text f.symbol_filter)) [
      | inl t ↦ rw t (added-IsValid f name at v (rw t refl))
      | inr n ↦ rw n (elim (Bool-cases (contains f.symbol_filter name)) [
        | inl c ↦ rw c (added-IsValid f name at v (rw (n, c) refl))
        | inr o ↦ rw o v
      ])
    ]
