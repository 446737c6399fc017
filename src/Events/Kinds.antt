-- ===== src/Events/Kinds.antt =====
-- What EventStreamParser reads of the fields that the classes of events display.
use columbo.Base.{
  ℕ, ◌<◌, ◌%◌, ◌^◌, ◌≡◌, refl, sym, subst, Bool, true, false, List, [], ◌∷◌, ◌++◌, ◌⊎◌, inl, inr,
  arith, ltb,
}
use columbo.Chars.{is_alnum_dot_bar, ulong_max}
use columbo.LineHandler.{false_text}
use columbo.LineHandler.Behind.{AllPass}
use columbo.LineHandler.Print.{print}
use columbo.Events.{
  codes, EventClass, host_instr, host_call, host_mmio_cr, host_mmio_cw, host_mmio_r, host_mmio_w,
  host_dma_c, host_dma_r, host_dma_w, host_msix, host_conf, host_pci_rw, nic_msix, nic_dma, set_ix,
  nic_mmio_r, nic_mmio_w, nic_tx, nic_rx, written, bool_to_string, addr_size, mmio_op,
}
use columbo.Events.Parse.{
  returns, ◌>>=◌, int, field, parse_access, parse_posted, parse_mmio, with_one, with_access,
}
use columbo.Events.Reads.{
  Goes, Goes-returns, Goes-bind, IsClean, skip_text-Goes, field-Goes, int-Goes, boolean-Goes,
}

abbrev pub IsSmall : ℕ → Type 0
IsSmall n = n < ulong_max

-- A text of characters of a class.
abbrev pub IsWord : (ℕ → Bool) → List ℕ → Type 0
IsWord p [] = ⊥
IsWord p (x ∷ w) = AllPass p (x ∷ w)

-- A number that is read in base 10, as it is written in this base.
abbrev pub IsDecimal : Bool → ℕ → Type 0
IsDecimal hex n = (hex ≡ false) ⊎ (n < 10)

-- A number that is read in base 16.
abbrev pub IsHex : Bool → ℕ → Type 0
IsHex hex n = (hex ≡ true) ⊎ (n < 10)

-- The fields for which what is displayed can be read.
abbrev pub Fits : Bool → EventClass → Type 0
Fits hex (host_instr pc) = IsSmall pc
Fits hex (host_call pc func comp) =
    IsSmall pc × IsWord is_alnum_dot_bar func × IsWord is_alnum_dot_bar comp
Fits hex (host_mmio_cr id) = IsSmall id
Fits hex (host_mmio_cw id) = IsSmall id
Fits hex (host_mmio_r id addr size bar offset) =
    IsSmall id × IsSmall addr × IsSmall size × (bar < 10) × IsSmall offset
Fits hex (host_mmio_w id addr size bar offset posted) =
    IsSmall id × IsSmall addr × IsSmall size × (bar < 10) × IsSmall offset
Fits hex (host_dma_c id) = IsSmall id
Fits hex (host_dma_r id addr size) = IsSmall id × IsSmall addr × IsSmall size
Fits hex (host_dma_w id addr size) = IsSmall id × IsSmall addr × IsSmall size
Fits hex (host_msix vec) = IsSmall vec
Fits hex (host_conf dev func reg bytes data_ is_read) =
    IsSmall dev × IsSmall func × IsSmall reg × (bytes < 10) × IsSmall data_
Fits hex (host_pci_rw offset size is_read) = IsSmall offset × (size < 10)
Fits hex (nic_msix vec is_x) = vec < 2 ^ 16
Fits hex (nic_dma kind id addr len) = IsSmall id × IsSmall addr × IsSmall len
Fits hex (set_ix intr) = IsSmall intr
Fits hex (nic_mmio_r off len val) = IsSmall off × IsSmall len × IsSmall val
Fits hex (nic_mmio_w off len val posted) = IsSmall off × IsSmall len × IsSmall val
Fits hex (nic_tx len) = IsSmall len × IsHex hex len
Fits hex (nic_rx port len) = (port < 2 ^ 31) × IsSmall len × IsHex hex len
Fits hex _ = Unit {0}

-- The event that is read, and what is left of the line: NicRx takes the length for the port, and of NicTx the
-- last field is not read.
abbrev pub read_back : EventClass → EventClass
read_back (nic_rx port len) = nic_rx (len % 2 ^ 32) 0
read_back k = k

abbrev pub unread : EventClass → List ℕ → List ℕ
unread (nic_tx len) after = codes ", is_read=" ++ (false_text ++ after)
unread k after = after

print_one : (n : ℕ) → n < 10 → print 64 16 n ≡ print 64 10 n
print_one n l =
    let small : ltb n 16 ≡ true = ground arith in
    let one : ltb n 10 ≡ true = ground arith in rw (small, one) refl

pub written-IsDecimal : (hex : Bool) (n : ℕ) → IsDecimal hex n → written hex n ≡ print 64 10 n
written-IsDecimal true n (inl e) = absurd (cc e)
written-IsDecimal true n (inr l) = print_one n l
written-IsDecimal false n d = refl

written-IsHex : (hex : Bool) (n : ℕ) → IsHex hex n → written hex n ≡ print 64 16 n
written-IsHex true n d = refl
written-IsHex false n (inl e) = absurd (cc e)
written-IsHex false n (inr l) = sym (print_one n l)

-- A decimal field that was written after `std::hex`.
pub one_digit-Goes :
    (k : ℕ) (t : List ℕ) (n : ℕ) (ys : List ℕ)
    → n < 10
    → IsClean ys
    → Goes (field (k ∷ t) 10) ((k ∷ t) ++ (written true n ++ ys)) n ys
one_digit-Goes k t n ys l c =
    subst (λ w. Goes (field (k ∷ t) 10) ((k ∷ t) ++ (w ++ ys)) n ys) (sym (print_one n l))
      (field-Goes k t 10 n ys (inl refl) (omega arith) c)

pub hex_field-Goes :
    (k : ℕ) (t : List ℕ) (hex : Bool) (n : ℕ) (ys : List ℕ)
    → IsHex hex n
    → IsSmall n
    → IsClean ys
    → Goes (field (k ∷ t) 16) ((k ∷ t) ++ (written hex n ++ ys)) n ys
hex_field-Goes k t hex n ys x l c =
    subst (λ w. Goes (field (k ∷ t) 16) ((k ∷ t) ++ (w ++ ys)) n ys) (sym (written-IsHex hex n x))
      (field-Goes k t 16 n ys (inr refl) l c)

pub with_one-Goes :
    (k : ℕ) (t : List ℕ) (base : ℕ) (make : ℕ → EventClass) (n : ℕ) (ys : List ℕ)
    → (base ≡ 10) ⊎ (base ≡ 16)
    → IsSmall n
    → IsClean ys
    → Goes (with_one (k ∷ t) base make) ((k ∷ t) ++ (print 64 base n ++ ys)) (make n) ys
unfolding with_one
with_one-Goes k t base make n ys b l c =
    Goes-bind (field (k ∷ t) base) _ _ ys ys n (make n) (field-Goes k t base n ys b l c)
      (Goes-returns (make n) ys)

pub access-Goes :
    (id addr size : ℕ) (ys : List ℕ)
    → IsSmall id × IsSmall addr × IsSmall size
    → IsClean ys
    → Goes parse_access (addr_size id addr size ys) (id, addr, size) ys
unfolding parse_access
access-Goes id addr size ys (a, b, d) c =
    Goes-bind _ _ _ _ _ id (id, addr, size)
      (field-Goes b',' (codes " id=") 10 id _ (inl refl) a refl)
      (Goes-bind _ _ _ _ _ addr (id, addr, size)
        (field-Goes b',' (codes " addr=") 16 addr _ (inr refl) b refl)
        (Goes-bind _ _ _ _ _ size (id, addr, size)
          (field-Goes b',' (codes " size=") 16 size ys (inr refl) d c)
          (Goes-returns (id, addr, size) ys)))

pub with_access-Goes :
    (make : ℕ → ℕ → ℕ → EventClass) (id addr size : ℕ) (ys : List ℕ)
    → IsSmall id × IsSmall addr × IsSmall size
    → IsClean ys
    → Goes (with_access make) (addr_size id addr size ys) (make id addr size) ys
unfolding with_access
with_access-Goes make id addr size ys f c =
    Goes-bind parse_access _ _ ys ys (id, addr, size) (make id addr size)
      (access-Goes id addr size ys f c) (Goes-returns (make id addr size) ys)

pub posted-Goes :
    (b : Bool) (ys : List ℕ)
    → Goes parse_posted (codes ", posted=" ++ (bool_to_string b ++ ys)) b ys
unfolding parse_posted
posted-Goes b ys =
    Goes-bind _ _ _ _ ys tt b (skip_text-Goes b',' (codes " posted=") (bool_to_string b ++ ys))
      (boolean-Goes b ys)

-- `int` behind a text, of a number with one digit.
int_digit-Goes : (n : ℕ) (ys : List ℕ) → n < 10 → IsClean ys → Goes int (written true n ++ ys) n ys
int_digit-Goes n ys l c =
    subst (λ w. Goes int (w ++ ys) n ys) (sym (print_one n l)) (int-Goes n ys (omega arith) c)

abbrev mmio_kind : Bool → ℕ → ℕ → ℕ → ℕ → ℕ → Bool → EventClass
mmio_kind true id addr size bar offset posted = host_mmio_w id addr size bar offset posted
mmio_kind false id addr size bar offset posted = host_mmio_r id addr size bar offset

abbrev mmio_rest : Bool → Bool → List ℕ → List ℕ
mmio_rest true posted ys = codes ", posted=" ++ (bool_to_string posted ++ ys)
mmio_rest false posted ys = ys

mmio_rest-IsClean : (w posted : Bool) (ys : List ℕ) → IsClean ys → IsClean (mmio_rest w posted ys)
mmio_rest-IsClean true posted ys c = refl
mmio_rest-IsClean false posted ys c = c

pub mmio-Goes :
    (w : Bool) (id addr size bar offset : ℕ) (posted : Bool) (ys : List ℕ)
    → IsSmall id × IsSmall addr × IsSmall size
    → bar < 10
    → IsSmall offset
    → IsClean ys
    → Goes
        (parse_mmio w)
        (mmio_op id addr size bar offset (mmio_rest w posted ys))
        (mmio_kind w id addr size bar offset posted)
        ys
unfolding parse_mmio
mmio-Goes w id addr size bar offset posted ys f l o c =
    let k = mmio_kind w id addr size bar offset posted in
    Goes-bind parse_access _ _ _ ys (id, addr, size) k (access-Goes id addr size _ f refl)
      (Goes-bind _ _ _ _ ys tt k (skip_text-Goes b',' (codes " bar=") _) (
        Goes-bind _ _ _ _ ys bar k (int_digit-Goes bar _ l refl) (
          Goes-bind _ _ _ _ ys offset k
            (field-Goes b',' (codes " offset=") 16 offset _ (inr refl) o
              (mmio_rest-IsClean w posted ys c))
            (last w))))
  where
    last :
        (w : Bool)
        → Goes
            (elim w [
              | true ↦ do p ← parse_posted; returns (host_mmio_w id addr size bar offset p)
              | false ↦ returns (host_mmio_r id addr size bar offset)
            ])
            (mmio_rest w posted ys)
            (mmio_kind w id addr size bar offset posted)
            ys
    last true =
        Goes-bind parse_posted _ _ ys ys posted (host_mmio_w id addr size bar offset posted)
          (posted-Goes posted ys) (Goes-returns (host_mmio_w id addr size bar offset posted) ys)
    last false = Goes-returns (host_mmio_r id addr size bar offset) ys
