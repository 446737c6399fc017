-- ===== src/Events/Parse.antt =====
-- EventStreamParser (include/parser/eventStreamParser.h, source/parser/event-stream.cpp), which reads the events that an
-- EventPrinter wrote. `none` is a read behind the memory of the line.
use columbo.Base.{
  ℕ, ◌%◌, ◌^◌, Bool, true, false, ◌||◌, not, Option, none, some, List, ◌==◌, if◌then◌else◌,
}
use columbo.Chars.{is_alnum, is_alnum_dot_bar}
use columbo.LineHandler.{
  LineHandler, MayFault, trim_l, extract_and_substr_until, extract_and_substr_until_into,
  consume_and_trim_string, parse_uint_trim, parse_int, parse_bool_from_string_repr, is_nil,
}
use columbo.StringInternalizer.{text_eq}
use columbo.Events

-- A step of the parser: what it reads, or `none` where it fails.
abbrev pub Parser : Type 0 → Type 0
Parser A = LineHandler → MayFault (Option A)

abbrev pub returns : {A : Type 0} → A → Parser A
returns a h = some (h, some a)

abbrev pub fails : {A : Type 0} → Parser A
fails h = some (h, none)

-- A step behind another; a step that fails ends the parser.
abbrev pub after_step : {A B : Type 0} → MayFault (Option A) → (A → Parser B) → MayFault (Option B)
after_step none f = none
after_step (some (h, none)) f = some (h, none)
after_step (some (h, some a)) f = f a h

infixl 5 ◌>>=◌ ◌>>◌
abbrev pub ◌>>=◌ : {A B : Type 0} → Parser A → (A → Parser B) → Parser B
p >>= f = λ h. after_step (p h) f

abbrev pub ◌>>◌ : {B : Type 0} → Parser (Unit {0}) → Parser B → Parser B
p >> q = p >>= λ u. q

-- The methods of LineHandler as steps.
unfoldable pub skip_text : List ℕ → Parser (Unit {0})
skip_text t h =
    let (h', found) = consume_and_trim_string h t in some (h', if found then some tt else none)

unfoldable pub uint : ℕ → Parser ℕ
uint base h = parse_uint_trim h base

unfoldable pub int : Parser ℕ
int h = parse_int h

unfoldable pub boolean : Parser Bool
boolean h = some (parse_bool_from_string_repr h)

unfoldable pub word : (ℕ → Bool) → Parser (List ℕ)
word p h =
    let (h', (w, found)) = extract_and_substr_until_into h p in
    some (h', if found then some w else none)

abbrev pub name_class : ℕ → Bool
name_class c = is_alnum c || c == b'-'

-- What stands before the fields of a class.
pub record Header : Type 0 where
  pub ident : ℕ
  pub parser_name : List ℕ
  pub timestamp : ℕ

unfoldable pub parse_ident_name_ts : Parser Header
unfolding skip_text uint word
parse_ident_name_ts = do
  skip_text (Events.codes ": source_id=")
  ident ← uint 10
  skip_text (Events.codes ", source_name=")
  parser_name ← word name_class
  skip_text (Events.codes ", timestamp=")
  ts ← uint 10
  returns (record { ident = ident; parser_name = parser_name; timestamp = ts })

unfoldable pub parse_host_call : Parser Events.EventClass
unfolding skip_text uint word
parse_host_call = do
  skip_text (Events.codes ", pc=")
  pc ← uint 16
  skip_text (Events.codes ", func=")
  func ← word is_alnum_dot_bar
  skip_text (Events.codes ", comp=")
  comp ← word is_alnum_dot_bar
  returns (Events.host_call pc func comp)

-- A single field.
unfoldable pub field : List ℕ → ℕ → Parser ℕ
unfolding skip_text uint
field t base = do skip_text t; uint base

abbrev pub Access : Type 0
Access = ℕ × ℕ × ℕ

unfoldable pub parse_access : Parser Access
unfolding field
parse_access = do
  id ← field (Events.codes ", id=") 10
  addr ← field (Events.codes ", addr=") 16
  size ← field (Events.codes ", size=") 16
  returns (id, addr, size)

unfoldable pub parse_posted : Parser Bool
unfolding skip_text boolean
parse_posted = do skip_text (Events.codes ", posted="); boolean

unfoldable pub parse_mmio : Bool → Parser Events.EventClass
unfolding parse_access field skip_text int parse_posted
parse_mmio is_write = do
  (id, addr, size) ← parse_access
  skip_text (Events.codes ", bar=")
  bar ← int
  offset ← field (Events.codes ", offset=") 16
  elim is_write [
    | true ↦ do posted ← parse_posted; returns (Events.host_mmio_w id addr size bar offset posted)
    | false ↦ returns (Events.host_mmio_r id addr size bar offset)
  ]

unfoldable pub parse_host_conf : Bool → Parser Events.EventClass
unfolding field
parse_host_conf is_read = do
  dev ← field (Events.codes ", dev=") 16
  func ← field (Events.codes ", func=") 16
  reg ← field (Events.codes ", reg=") 16
  bytes ← field (Events.codes ", bytes=") 10
  data_ ← field (Events.codes ", data=") 16
  returns (Events.host_conf dev func reg bytes data_ is_read)

unfoldable pub parse_host_pci : Bool → Parser Events.EventClass
unfolding field
parse_host_pci is_read = do
  offset ← field (Events.codes ", offset=") 16
  size ← field (Events.codes ", size=") 10
  returns (Events.host_pci_rw offset size is_read)

-- A vector is a `uint16_t`.
unfoldable pub parse_nic_msix : Bool → Parser Events.EventClass
unfolding field
parse_nic_msix is_x = do
  vec ← field (Events.codes ", vec=") 10
  returns (Events.nic_msix (vec % 2 ^ 16) is_x)

unfoldable pub parse_nic_mmio : Bool → Parser Events.EventClass
unfolding field parse_posted
parse_nic_mmio is_write = do
  off ← field (Events.codes ", off=") 16
  len ← field (Events.codes ", len=") 16
  val ← field (Events.codes ", val=") 16
  elim is_write [
    | true ↦ do posted ← parse_posted; returns (Events.nic_mmio_w off len val posted)
    | false ↦ returns (Events.nic_mmio_r off len val)
  ]

-- The constructor of NicRx takes the port, an `int`, first; it is given the length, and for the length the
-- address, which is 0.
unfoldable pub parse_nic_rx : Parser Events.EventClass
unfolding field skip_text int
parse_nic_rx = do
  len ← field (Events.codes ", len=") 16
  skip_text (Events.codes ", is_read=true")
  skip_text (Events.codes ", port=")
  port ← int
  returns (Events.nic_rx (len % 2 ^ 32) 0)

unfoldable pub with_one : List ℕ → ℕ → (ℕ → Events.EventClass) → Parser Events.EventClass
unfolding field
with_one t base make = do n ← field t base; returns (make n)

unfoldable pub with_access : (ℕ → ℕ → ℕ → Events.EventClass) → Parser Events.EventClass
unfolding parse_access
with_access make = do (id, addr, size) ← parse_access; returns (make id addr size)

-- The chain of tests of the name; `none` is an unknown event.
unfoldable pub kind_parser : List ℕ → Option (Parser Events.EventClass)
unfolding text_eq parse_host_call parse_mmio parse_host_conf parse_host_pci parse_nic_msix
    parse_nic_mmio parse_nic_rx field with_one with_access
kind_parser n =
    if text_eq n (Events.codes "SimSendSyncSimSendSync")
    then some (returns Events.sim_send_sync)
    else if text_eq n (Events.codes "SimProcInEvent")
    then some (returns Events.sim_proc_in_event)
    else if text_eq n (Events.codes "HostInstr")
    then some (with_one (Events.codes ", pc=") 16 Events.host_instr)
    else if text_eq n (Events.codes "HostCall")
    then some parse_host_call
    else if text_eq n (Events.codes "HostMmioImRespPoW")
    then some (returns Events.host_mmio_im_resp_po_w)
    else if text_eq n (Events.codes "HostMmioCR")
    then some (with_one (Events.codes ", id=") 10 Events.host_mmio_cr)
    else if text_eq n (Events.codes "HostMmioCW")
    then some (with_one (Events.codes ", id=") 10 Events.host_mmio_cw)
    else if text_eq n (Events.codes "HostDmaC")
    then some (with_one (Events.codes ", id=") 10 Events.host_dma_c)
    else if text_eq n (Events.codes "HostMmioR")
    then some (parse_mmio false)
    else if text_eq n (Events.codes "HostMmioW")
    then some (parse_mmio true)
    else if text_eq n (Events.codes "HostDmaR")
    then some (with_access Events.host_dma_r)
    else if text_eq n (Events.codes "HostDmaW")
    then some (with_access Events.host_dma_w)
    else if text_eq n (Events.codes "HostMsiX")
    then some (with_one (Events.codes ", vec=") 10 Events.host_msix)
    else if text_eq n (Events.codes "HostConfRead")
    then some (parse_host_conf true)
    else if text_eq n (Events.codes "HostConfWrite")
    then some (parse_host_conf false)
    else if text_eq n (Events.codes "HostClearInt")
    then some (returns Events.host_clear_int)
    else if text_eq n (Events.codes "HostPostInt")
    then some (returns Events.host_post_int)
    else if text_eq n (Events.codes "HostPciR")
    then some (parse_host_pci true)
    else if text_eq n (Events.codes "HostPciW")
    then some (parse_host_pci false)
    else if text_eq n (Events.codes "NicMsix")
    then some (parse_nic_msix true)
    else if text_eq n (Events.codes "NicMsi")
    then some (parse_nic_msix false)
    else if text_eq n (Events.codes "SetIX")
    then some (with_one (Events.codes ", interrupt=") 16 Events.set_ix)
    else if text_eq n (Events.codes "NicDmaI")
    then some (with_access (Events.nic_dma Events.issue))
    else if text_eq n (Events.codes "NicDmaEx")
    then some (with_access (Events.nic_dma Events.ex))
    else if text_eq n (Events.codes "NicDmaEn")
    then some (with_access (Events.nic_dma Events.en))
    else if text_eq n (Events.codes "NicDmaCW")
    then some (with_access (Events.nic_dma Events.cw))
    else if text_eq n (Events.codes "NicDmaCR")
    then some (with_access (Events.nic_dma Events.cr))
    else if text_eq n (Events.codes "NicMmioR")
    then some (parse_nic_mmio false)
    else if text_eq n (Events.codes "NicMmioW")
    then some (parse_nic_mmio true)
    else if text_eq n (Events.codes "NicTx")
    then some (with_one (Events.codes ", len=") 16 Events.nic_tx)
    else if text_eq n (Events.codes "NicRx")
    then some parse_nic_rx
    else none

abbrev pub parsed_event : Header → Events.EventClass → Events.Event
parsed_event head kind = record {
  kind = kind;
  timestamp = head.timestamp;
  parser_identifier = head.ident;
  parser_name = head.parser_name;
}

abbrev pub parse_fields : Option (Parser Events.EventClass) → Header → Parser Events.Event
parse_fields none head = fails
parse_fields (some p) head = do kind ← p; returns (parsed_event head kind)

-- `ParseEvent`, of events that do not come from the network.
unfoldable pub parse_named : List ℕ → Parser Events.Event
unfolding parse_ident_name_ts kind_parser
parse_named n =
    if is_nil n then fails else (do head ← parse_ident_name_ts; parse_fields (kind_parser n) head)

unfoldable pub parse_event : Parser Events.Event
unfolding parse_named
parse_event h =
    let (h', n) = extract_and_substr_until (trim_l h) (λ c. not (c == b':')) in parse_named n h'
