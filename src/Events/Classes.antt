-- ===== src/Events/Classes.antt =====
-- For each class of events, what EventStreamParser reads of what is displayed.
use columbo.Base.{
  ℕ, ◌<◌, ◌%◌, ◌^◌, ◌≡◌, refl, subst, Bool, true, false, some, List, [], ◌∷◌, ◌++◌, inl, inr, arith,
}
use columbo.Chars.{is_alnum, is_alnum_dot_bar}
use columbo.LineHandler.Print.{print}
use columbo.Events.{
  codes, EventClass, issue, ex, en, cr, cw, sim_send_sync, sim_proc_in_event, host_instr, host_call,
  host_mmio_im_resp_po_w, host_mmio_cr, host_mmio_cw, host_mmio_r, host_mmio_w, host_dma_c,
  host_dma_r, host_dma_w, host_msix, host_conf, host_clear_int, host_post_int, host_pci_rw,
  nic_msix, nic_dma, set_ix, nic_mmio_r, nic_mmio_w, nic_tx, nic_rx, class_name, written,
  bool_to_string, nic_mmio_op, display_kind,
}
use columbo.Events.Parse.{
  Parser, word, field, parse_host_call, parse_host_conf, parse_host_pci, parse_nic_msix,
  parse_nic_mmio, parse_nic_rx, with_one, kind_parser,
}
use columbo.Events.Reads.{
  Goes, Goes-returns, Goes-bind, uint-Goes, IsClean, FailsFirst, skip_text-Goes, field-Goes,
  word-Goes, int-Goes, Clean-class,
}
use columbo.Events.Kinds.{
  IsSmall, IsWord, IsHex, Fits, read_back, unread, one_digit-Goes, hex_field-Goes, with_one-Goes,
  with_access-Goes, posted-Goes, mmio-Goes,
}

pub any_word-Goes :
    (p : ℕ → Bool) (w ys : List ℕ) → IsWord p w → FailsFirst p ys → Goes (word p) (w ++ ys) w ys
any_word-Goes p [] ys i f = absurd i
any_word-Goes p (x ∷ w) ys i f = word-Goes p x w ys i f

no_comma : is_alnum_dot_bar b',' ≡ false
unfolding is_alnum_dot_bar is_alnum
no_comma = refl

host_call-Goes :
    (pc : ℕ) (func comp ys : List ℕ)
    → IsSmall pc × IsWord is_alnum_dot_bar func × IsWord is_alnum_dot_bar comp
    → IsClean ys
    → Goes parse_host_call
        (codes ", pc="
          ++ (written true pc ++ (codes ", func=" ++ (func ++ (codes ", comp=" ++ (comp ++ ys))))))
        (host_call pc func comp)
        ys
unfolding parse_host_call field
host_call-Goes pc func comp ys (l, f, g) c =
    let k = host_call pc func comp in
    Goes-bind _ _ _ _ ys tt k (skip_text-Goes b',' (codes " pc=") _) (
      Goes-bind _ _ _ _ ys pc k (uint-Goes 16 pc _ (inr refl) l refl) (
        Goes-bind _ _ _ _ ys tt k (skip_text-Goes b',' (codes " func=") _) (
          Goes-bind _ _ _ _ ys func k (any_word-Goes is_alnum_dot_bar func _ f no_comma) (
            Goes-bind _ _ _ _ ys tt k (skip_text-Goes b',' (codes " comp=") _) (
              Goes-bind _ _ _ _ ys comp k
                (any_word-Goes is_alnum_dot_bar comp ys g
                  (Clean-class is_alnum_dot_bar ys no_comma c))
                (Goes-returns k ys))))))

host_conf-Goes :
    (dev func reg bytes data_ : ℕ) (r : Bool) (ys : List ℕ)
    → IsSmall dev × IsSmall func × IsSmall reg × (bytes < 10) × IsSmall data_
    → IsClean ys
    → Goes
        (parse_host_conf r)
        (codes ", dev="
          ++ (written true dev
              ++ (codes ", func="
                  ++ (written true func
                      ++ (codes ", reg="
                          ++ (written true reg
                              ++ (codes ", bytes="
                                  ++ (written true bytes
                                      ++ (codes ", data=" ++ (written true data_ ++ ys))))))))))
        (host_conf dev func reg bytes data_ r)
        ys
unfolding parse_host_conf
host_conf-Goes dev func reg bytes data_ r ys (a, b, d, e, f) c =
    let k = host_conf dev func reg bytes data_ r in
    Goes-bind _ _ _ _ ys dev k (field-Goes b',' (codes " dev=") 16 dev _ (inr refl) a refl) (
      Goes-bind _ _ _ _ ys func k (field-Goes b',' (codes " func=") 16 func _ (inr refl) b refl) (
        Goes-bind _ _ _ _ ys reg k (field-Goes b',' (codes " reg=") 16 reg _ (inr refl) d refl) (
          Goes-bind _ _ _ _ ys bytes k (one_digit-Goes b',' (codes " bytes=") bytes _ e refl) (
            Goes-bind _ _ _ ys ys data_ k
              (field-Goes b',' (codes " data=") 16 data_ ys (inr refl) f c) (Goes-returns k ys)))))

host_pci-Goes :
    (offset size : ℕ) (r : Bool) (ys : List ℕ)
    → IsSmall offset × (size < 10)
    → IsClean ys
    → Goes
        (parse_host_pci r)
        (codes ", offset="
          ++ (written true offset ++ (codes ", size=" ++ (written true size ++ ys))))
        (host_pci_rw offset size r)
        ys
unfolding parse_host_pci
host_pci-Goes offset size r ys (a, b) c =
    let k = host_pci_rw offset size r in
    Goes-bind _ _ _ _ ys offset k (field-Goes b',' (codes " offset=") 16 offset _ (inr refl) a refl)
      (Goes-bind _ _ _ ys ys size k (one_digit-Goes b',' (codes " size=") size ys b c)
        (Goes-returns k ys))

nic_msix-Goes :
    (vec : ℕ) (x : Bool) (ys : List ℕ)
    → vec < 2 ^ 16
    → IsClean ys
    → Goes (parse_nic_msix x) (codes ", vec=" ++ (print 64 10 vec ++ ys)) (nic_msix vec x) ys
unfolding parse_nic_msix
nic_msix-Goes vec x ys l c =
    let same : vec % 2 ^ 16 ≡ vec = omega arith in
    subst
      (λ v. Goes (parse_nic_msix x) (codes ", vec=" ++ (print 64 10 vec ++ ys)) (nic_msix v x) ys)
      same
      (Goes-bind _ _ _ ys ys vec (nic_msix (vec % 2 ^ 16) x)
        (field-Goes b',' (codes " vec=") 10 vec ys (inl refl) (omega arith) c)
        (Goes-returns (nic_msix (vec % 2 ^ 16) x) ys))

nic_rx-Goes :
    (hex : Bool) (port len : ℕ) (ys : List ℕ)
    → (port < 2 ^ 31) × IsSmall len × IsHex hex len
    → IsClean ys
    → Goes parse_nic_rx
        (codes ", len="
          ++ (written hex len
              ++ (codes ", is_read="
                  ++ (bool_to_string true ++ (codes ", port=" ++ (print 64 10 port ++ ys))))))
        (nic_rx (len % 2 ^ 32) 0)
        ys
unfolding parse_nic_rx
nic_rx-Goes hex port len ys (a, b, d) c =
    let k = nic_rx (len % 2 ^ 32) 0 in
    Goes-bind _ _ _ _ ys len k (hex_field-Goes b',' (codes " len=") hex len _ d b refl) (
      Goes-bind _ _ _ _ ys tt k (skip_text-Goes b',' (codes " is_read=true") _) (
        Goes-bind _ _ _ _ ys tt k (skip_text-Goes b',' (codes " port=") _)
          (Goes-bind _ _ _ ys ys port k (int-Goes port ys a c) (Goes-returns k ys))))

nic_tx-Goes :
    (hex : Bool) (len : ℕ) (ys : List ℕ)
    → IsSmall len × IsHex hex len
    → Goes
        (with_one (codes ", len=") 16 nic_tx)
        (codes ", len="
          ++ (written hex len ++ (codes ", is_read=" ++ (bool_to_string false ++ ys))))
        (nic_tx len)
        (codes ", is_read=" ++ (bool_to_string false ++ ys))
unfolding with_one
nic_tx-Goes hex len ys (a, b) =
    Goes-bind _ _ _ _ _ len (nic_tx len) (hex_field-Goes b',' (codes " len=") hex len _ b a refl)
      (Goes-returns (nic_tx len) _)

nic_mmio_r-Goes :
    (off len val : ℕ) (ys : List ℕ)
    → IsSmall off × IsSmall len × IsSmall val
    → IsClean ys
    → Goes (parse_nic_mmio false) (nic_mmio_op off len val ys) (nic_mmio_r off len val) ys
unfolding parse_nic_mmio
nic_mmio_r-Goes off len val ys (a, b, d) c =
    let k = nic_mmio_r off len val in
    Goes-bind _ _ _ _ ys off k (field-Goes b',' (codes " off=") 16 off _ (inr refl) a refl) (
      Goes-bind _ _ _ _ ys len k (field-Goes b',' (codes " len=") 16 len _ (inr refl) b refl) (
        Goes-bind _ _ _ ys ys val k (field-Goes b',' (codes " val=") 16 val ys (inr refl) d c)
          (Goes-returns k ys)))

nic_mmio_w-Goes :
    (off len val : ℕ) (posted : Bool) (ys : List ℕ)
    → IsSmall off × IsSmall len × IsSmall val
    → Goes
        (parse_nic_mmio true)
        (nic_mmio_op off len val (codes ", posted=" ++ (bool_to_string posted ++ ys)))
        (nic_mmio_w off len val posted)
        ys
unfolding parse_nic_mmio
nic_mmio_w-Goes off len val posted ys (a, b, d) =
    let k = nic_mmio_w off len val posted in
    Goes-bind _ _ _ _ ys off k (field-Goes b',' (codes " off=") 16 off _ (inr refl) a refl) (
      Goes-bind _ _ _ _ ys len k (field-Goes b',' (codes " len=") 16 len _ (inr refl) b refl) (
        Goes-bind _ _ _ _ ys val k (field-Goes b',' (codes " val=") 16 val _ (inr refl) d refl)
          (Goes-bind _ _ _ ys ys posted k (posted-Goes posted ys) (Goes-returns k ys))))

-- The parser that the name leads to reads the fields.
abbrev pub KindGoes : Bool → EventClass → List ℕ → Type 0
KindGoes hex k after =
    (p : Parser EventClass) × (kind_parser (class_name k) ≡ some p)
    × Goes p (display_kind hex k after) (read_back k) (unread k after)

pub kind-KindGoes :
    (hex : Bool) (k : EventClass) (after : List ℕ)
    → Fits hex k
    → IsClean after
    → KindGoes hex k after
unfolding kind_parser display_kind
kind-KindGoes hex sim_send_sync after f c = (_, refl, Goes-returns sim_send_sync after)
kind-KindGoes hex sim_proc_in_event after f c = (_, refl, Goes-returns sim_proc_in_event after)
kind-KindGoes hex (host_instr pc) after f c =
    (_, refl, with_one-Goes b',' (codes " pc=") 16 host_instr pc after (inr refl) f c)
kind-KindGoes hex (host_call pc func comp) after f c =
    (_, refl, host_call-Goes pc func comp after f c)
kind-KindGoes hex host_mmio_im_resp_po_w after f c =
    (_, refl, Goes-returns host_mmio_im_resp_po_w after)
kind-KindGoes hex (host_mmio_cr id) after f c =
    (_, refl, with_one-Goes b',' (codes " id=") 10 host_mmio_cr id after (inl refl) f c)
kind-KindGoes hex (host_mmio_cw id) after f c =
    (_, refl, with_one-Goes b',' (codes " id=") 10 host_mmio_cw id after (inl refl) f c)
kind-KindGoes hex (host_mmio_r id addr size bar offset) after (a, b, d, e, f) c =
    (_, refl, mmio-Goes false id addr size bar offset false after (a, b, d) e f c)
kind-KindGoes hex (host_mmio_w id addr size bar offset posted) after (a, b, d, e, f) c =
    (_, refl, mmio-Goes true id addr size bar offset posted after (a, b, d) e f c)
kind-KindGoes hex (host_dma_c id) after f c =
    (_, refl, with_one-Goes b',' (codes " id=") 10 host_dma_c id after (inl refl) f c)
kind-KindGoes hex (host_dma_r id addr size) after f c =
    (_, refl, with_access-Goes host_dma_r id addr size after f c)
kind-KindGoes hex (host_dma_w id addr size) after f c =
    (_, refl, with_access-Goes host_dma_w id addr size after f c)
kind-KindGoes hex (host_msix vec) after f c =
    (_, refl, with_one-Goes b',' (codes " vec=") 10 host_msix vec after (inl refl) f c)
kind-KindGoes hex (host_conf dev func reg bytes data_ true) after f c =
    (_, refl, host_conf-Goes dev func reg bytes data_ true after f c)
kind-KindGoes hex (host_conf dev func reg bytes data_ false) after f c =
    (_, refl, host_conf-Goes dev func reg bytes data_ false after f c)
kind-KindGoes hex host_clear_int after f c = (_, refl, Goes-returns host_clear_int after)
kind-KindGoes hex host_post_int after f c = (_, refl, Goes-returns host_post_int after)
kind-KindGoes hex (host_pci_rw offset size true) after f c =
    (_, refl, host_pci-Goes offset size true after f c)
kind-KindGoes hex (host_pci_rw offset size false) after f c =
    (_, refl, host_pci-Goes offset size false after f c)
kind-KindGoes hex (nic_msix vec true) after f c = (_, refl, nic_msix-Goes vec true after f c)
kind-KindGoes hex (nic_msix vec false) after f c = (_, refl, nic_msix-Goes vec false after f c)
kind-KindGoes hex (nic_dma issue id addr len) after f c =
    (_, refl, with_access-Goes (nic_dma issue) id addr len after f c)
kind-KindGoes hex (nic_dma ex id addr len) after f c =
    (_, refl, with_access-Goes (nic_dma ex) id addr len after f c)
kind-KindGoes hex (nic_dma en id addr len) after f c =
    (_, refl, with_access-Goes (nic_dma en) id addr len after f c)
kind-KindGoes hex (nic_dma cr id addr len) after f c =
    (_, refl, with_access-Goes (nic_dma cr) id addr len after f c)
kind-KindGoes hex (nic_dma cw id addr len) after f c =
    (_, refl, with_access-Goes (nic_dma cw) id addr len after f c)
kind-KindGoes hex (set_ix intr) after f c =
    (_, refl, with_one-Goes b',' (codes " interrupt=") 16 set_ix intr after (inr refl) f c)
kind-KindGoes hex (nic_mmio_r off len val) after f c =
    (_, refl, nic_mmio_r-Goes off len val after f c)
kind-KindGoes hex (nic_mmio_w off len val posted) after f c =
    (_, refl, nic_mmio_w-Goes off len val posted after f)
kind-KindGoes hex (nic_tx len) after f c = (_, refl, nic_tx-Goes hex len after f)
kind-KindGoes hex (nic_rx port len) after f c = (_, refl, nic_rx-Goes hex port len after f c)
