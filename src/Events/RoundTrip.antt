-- ===== src/Events/RoundTrip.antt =====
-- What an EventPrinter wrote, as EventStreamParser reads it.
use columbo.Base.{
  ℕ, ◌≡◌, refl, sym, ◌∙◌, subst, Bool, true, false, not, some, List, [], ◌∷◌, ◌++◌, ◌==◌, inl,
}
use columbo.Chars.{is_space, is_alnum}
use columbo.LineHandler.{LineHandler, trim_l, extract_and_substr_until, is_nil}
use columbo.LineHandler.Rest.{take_while, drop_while}
use columbo.LineHandler.View.{At, trim_l-At, extract-At}
use columbo.LineHandler.Print.{print}
use columbo.Events.{
  codes, EventClass, issue, ex, en, cr, cw, sim_send_sync, sim_proc_in_event,
  host_mmio_im_resp_po_w, host_conf, host_clear_int, host_post_int, host_pci_rw, nic_msix, nic_dma,
  class_name, written, Event, display_event, display_kind, display,
}
use columbo.Events.Parse.{
  uint, name_class, Header, parse_ident_name_ts, parsed_event, parse_named, parse_event,
}
use columbo.Events.Reads.{Goes, Goes-returns, Goes-bind, uint-Goes, IsClean, skip_text-Goes}
use columbo.Events.Kinds.{IsSmall, IsWord, IsDecimal, written-IsDecimal, Fits, read_back, unread}
use columbo.Events.Classes.{kind-KindGoes, any_word-Goes}

no_comma_in_names : name_class b',' ≡ false
unfolding is_alnum
no_comma_in_names = refl

-- The fields of Event for which what is displayed can be read.
pub record HeaderFits (hex : Bool) (e : Event) : Type 0 where
  pub ident_small : IsSmall e.parser_identifier
  pub ident_decimal : IsDecimal hex e.parser_identifier
  pub named : IsWord name_class e.parser_name
  pub ts_small : IsSmall e.timestamp

abbrev header_text : Bool → Event → List ℕ → List ℕ
header_text hex e ys =
    codes ": source_id="
    ++ (written hex e.parser_identifier
        ++ (codes ", source_name="
            ++ (e.parser_name ++ (codes ", timestamp=" ++ (print 64 10 e.timestamp ++ ys)))))

abbrev header_of : Event → Header
header_of e = record {
  ident = e.parser_identifier;
  parser_name = e.parser_name;
  timestamp = e.timestamp;
}

header-Goes :
    (hex : Bool) (e : Event) (ys : List ℕ)
    → HeaderFits hex e
    → IsClean ys
    → Goes parse_ident_name_ts (header_text hex e ys) (header_of e) ys
unfolding parse_ident_name_ts
header-Goes hex e ys f c =
    let k = header_of e in
    Goes-bind _ _ _ _ ys tt k (skip_text-Goes b':' (codes " source_id=") _) (
      Goes-bind _ _ _ _ ys e.parser_identifier k
        (subst
          (λ w.
            Goes (uint 10)
              (w
                ++ (codes ", source_name="
                    ++ (e.parser_name
                        ++ (codes ", timestamp=" ++ (print 64 10 e.timestamp ++ ys)))))
              e.parser_identifier
              (codes ", source_name="
                ++ (e.parser_name ++ (codes ", timestamp=" ++ (print 64 10 e.timestamp ++ ys)))))
          (sym (written-IsDecimal hex e.parser_identifier f.ident_decimal))
          (uint-Goes 10 e.parser_identifier _ (inl refl) f.ident_small refl))
        (Goes-bind _ _ _ _ ys tt k (skip_text-Goes b',' (codes " source_name=") _) (
          Goes-bind _ _ _ _ ys e.parser_name k
            (any_word-Goes name_class e.parser_name _ f.named no_comma_in_names)
            (Goes-bind _ _ _ _ ys tt k (skip_text-Goes b',' (codes " timestamp=") _) (
              Goes-bind _ _ _ ys ys e.timestamp k
                (uint-Goes 10 e.timestamp ys (inl refl) f.ts_small c) (Goes-returns k ys))))))

-- What is displayed begins with a comma, where it does not end.
display_kind-IsClean :
    (hex : Bool) (k : EventClass) (after : List ℕ)
    → IsClean after
    → IsClean (display_kind hex k after)
unfolding display_kind
display_kind-IsClean hex sim_send_sync after c = c
display_kind-IsClean hex sim_proc_in_event after c = c
display_kind-IsClean hex host_mmio_im_resp_po_w after c = c
display_kind-IsClean hex host_clear_int after c = c
display_kind-IsClean hex host_post_int after c = c
display_kind-IsClean hex _ after c = refl

abbrev not_colon : ℕ → Bool
not_colon c = not (c == b':')

-- The name of a class stands at the front, up to a colon.
abbrev IsName : List ℕ → Type 0
IsName n =
    (xs : List ℕ)
    → (drop_while is_space (n ++ b':' ∷ xs) ≡ n ++ b':' ∷ xs)
      × (take_while not_colon (n ++ b':' ∷ xs) ≡ n)
      × (drop_while not_colon (n ++ b':' ∷ xs) ≡ b':' ∷ xs)
      × (is_nil n ≡ false)

class_name-IsName : (k : EventClass) → IsName (class_name k)
unfolding is_space
class_name-IsName (host_conf dev func reg bytes data_ true) xs = (refl, refl, refl, refl)
class_name-IsName (host_conf dev func reg bytes data_ false) xs = (refl, refl, refl, refl)
class_name-IsName (host_pci_rw offset size true) xs = (refl, refl, refl, refl)
class_name-IsName (host_pci_rw offset size false) xs = (refl, refl, refl, refl)
class_name-IsName (nic_msix vec true) xs = (refl, refl, refl, refl)
class_name-IsName (nic_msix vec false) xs = (refl, refl, refl, refl)
class_name-IsName (nic_dma issue id addr len) xs = (refl, refl, refl, refl)
class_name-IsName (nic_dma ex id addr len) xs = (refl, refl, refl, refl)
class_name-IsName (nic_dma en id addr len) xs = (refl, refl, refl, refl)
class_name-IsName (nic_dma cr id addr len) xs = (refl, refl, refl, refl)
class_name-IsName (nic_dma cw id addr len) xs = (refl, refl, refl, refl)
class_name-IsName _ xs = (refl, refl, refl, refl)

named-Goes :
    (hex : Bool) (e : Event) (after : List ℕ)
    → HeaderFits hex e
    → Fits hex e.kind
    → IsClean after
    → is_nil (class_name e.kind) ≡ false
    → Goes
        (parse_named (class_name e.kind))
        (header_text hex e (display_kind hex e.kind after))
        (parsed_event (header_of e) (read_back e.kind))
        (unread e.kind after)
unfolding parse_named
named-Goes hex e after f g c n =
    let (p, named, goes) = kind-KindGoes hex e.kind after g c in
    let ys = display_kind hex e.kind after in
    let out = parsed_event (header_of e) (read_back e.kind) in
    rw (n, named)
      (Goes-bind parse_ident_name_ts _ _ ys (unread e.kind after) (header_of e) out
        (header-Goes hex e ys f (display_kind-IsClean hex e.kind after c))
        (Goes-bind p _ ys (unread e.kind after) (unread e.kind after) (read_back e.kind) out goes
          (Goes-returns out (unread e.kind after))))

abbrev with_name : Bool → Event → List ℕ → List ℕ
with_name hex e after = class_name e.kind ++ header_text hex e (display_kind hex e.kind after)

event-Goes :
    (hex : Bool) (e : Event) (after : List ℕ)
    → HeaderFits hex e
    → Fits hex e.kind
    → IsClean after
    → Goes parse_event
        (with_name hex e after)
        (parsed_event (header_of e) (read_back e.kind))
        (unread e.kind after)
unfolding parse_event
event-Goes hex e after f g c h v =
    let (starts, taken, dropped, full) =
      class_name-IsName e.kind (drop_colon (header_text hex e (display_kind hex e.kind after))) in
    let trimmed = subst (At (trim_l h)) starts (trim_l-At h (with_name hex e after) v) in
    let (word_is, rest_at) = extract-At (trim_l h) not_colon (with_name hex e after) trimmed in
    let h1 = (extract_and_substr_until (trim_l h) not_colon).0 in
    rw (word_is ∙ taken) (named-Goes hex e after f g c full h1 (subst (At h1) dropped rest_at))
  where
    drop_colon : List ℕ → List ℕ
    drop_colon [] = []
    drop_colon (x ∷ xs) = xs

-- What an EventPrinter writes of an event that does not come from the network, EventStreamParser reads back, with its
-- source, its name, its time stamp and its fields, and leaves what follows it. The stream is in base 16 or not. The
-- numbers are below ULONG_MAX, a bar, an amount of bytes and the size of a PCI access have one digit, and so does the
-- source where the stream is in base 16, and the length of NicTx and NicRx where it is not; names are not empty and have
-- the characters that the parser takes. Of NicTx the last field is left, and NicRx gets its length as its port
-- and no length.
pub parse_event-display :
    (hex : Bool) (e : Event) (after : List ℕ) (h : LineHandler)
    → HeaderFits hex e
    → Fits hex e.kind
    → IsClean after
    → At h (display hex e after)
    → (h' : LineHandler) × (parse_event h ≡ some (h', some (record e { kind = read_back e.kind })))
      × At h' (unread e.kind after)
unfolding display display_event
parse_event-display hex e after h f g c v = event-Goes hex e after f g c h v
