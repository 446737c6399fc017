-- ===== src/Events.antt =====
-- Events of the simulators (include/events/events.h), and how an EventPrinter writes them to its stream
-- (source/events/events.cc, include/events/printer.h). Events of the network are left out.
pub mod Parse
pub mod Reads
pub mod Kinds
pub mod Classes
pub mod RoundTrip
pub mod Equal
pub mod Same
mod Tests
use Prim.Native.Char.{code}
use Prim.Native.String.{String}
use columbo.Base.{ℕ, Bool, true, false, List, [], ◌∷◌, ◌++◌, if◌then◌else◌}
use columbo.LineHandler.{true_text, false_text}
use columbo.LineHandler.Print.{print}

-- The bytes of a text.
abbrev pub codes : String → List ℕ
codes String.[] = []
codes (String.◌∷◌ c s) = code c ∷ codes s

pub data NicDmaKind : Type 0 where
  issue ex en cr cw : NicDmaKind

-- The classes of events, each with the fields that it adds to those of Event. An `int` is its bit pattern; a name
-- is its text.
pub data EventClass : Type 0 where
  sim_send_sync : EventClass
  sim_proc_in_event : EventClass
  host_instr : (pc : ℕ) → EventClass
  host_call : (pc : ℕ) → (func : List ℕ) → (comp : List ℕ) → EventClass
  host_mmio_im_resp_po_w : EventClass
  host_mmio_cr : (id : ℕ) → EventClass
  host_mmio_cw : (id : ℕ) → EventClass
  host_mmio_r : (id : ℕ) → (addr : ℕ) → (size : ℕ) → (bar : ℕ) → (offset : ℕ) → EventClass
  host_mmio_w :
      (id : ℕ) → (addr : ℕ) → (size : ℕ) → (bar : ℕ) → (offset : ℕ) → (posted : Bool) → EventClass
  host_dma_c : (id : ℕ) → EventClass
  host_dma_r : (id : ℕ) → (addr : ℕ) → (size : ℕ) → EventClass
  host_dma_w : (id : ℕ) → (addr : ℕ) → (size : ℕ) → EventClass
  host_msix : (vec : ℕ) → EventClass
  host_conf :
      (dev : ℕ) → (func : ℕ) → (reg : ℕ) → (bytes : ℕ) → (data_ : ℕ) → (is_read : Bool) → EventClass
  host_clear_int : EventClass
  host_post_int : EventClass
  host_pci_rw : (offset : ℕ) → (size : ℕ) → (is_read : Bool) → EventClass
  nic_msix : (vec : ℕ) → (is_x : Bool) → EventClass
  nic_dma : NicDmaKind → (id : ℕ) → (addr : ℕ) → (len : ℕ) → EventClass
  set_ix : (intr : ℕ) → EventClass
  nic_mmio_r : (off : ℕ) → (len : ℕ) → (val : ℕ) → EventClass
  nic_mmio_w : (off : ℕ) → (len : ℕ) → (val : ℕ) → (posted : Bool) → EventClass
  nic_tx : (len : ℕ) → EventClass
  nic_rx : (port : ℕ) → (len : ℕ) → EventClass

pub record Event : Type 0 where
  pub kind : EventClass
  pub timestamp : ℕ
  pub parser_identifier : ℕ
  pub parser_name : List ℕ

abbrev pub nic_dma_name : NicDmaKind → List ℕ
nic_dma_name issue = codes "NicDmaI"
nic_dma_name ex = codes "NicDmaEx"
nic_dma_name en = codes "NicDmaEn"
nic_dma_name cr = codes "NicDmaCR"
nic_dma_name cw = codes "NicDmaCW"

-- The name that the constructor of the class gives to Event.
abbrev pub class_name : EventClass → List ℕ
class_name sim_send_sync = codes "SimSendSyncSimSendSync"
class_name sim_proc_in_event = codes "SimProcInEvent"
class_name (host_instr pc) = codes "HostInstr"
class_name (host_call pc func comp) = codes "HostCall"
class_name host_mmio_im_resp_po_w = codes "HostMmioImRespPoW"
class_name (host_mmio_cr id) = codes "HostMmioCR"
class_name (host_mmio_cw id) = codes "HostMmioCW"
class_name (host_mmio_r id addr size bar offset) = codes "HostMmioR"
class_name (host_mmio_w id addr size bar offset posted) = codes "HostMmioW"
class_name (host_dma_c id) = codes "HostDmaC"
class_name (host_dma_r id addr size) = codes "HostDmaR"
class_name (host_dma_w id addr size) = codes "HostDmaW"
class_name (host_msix vec) = codes "HostMsiX"
class_name (host_conf dev func reg bytes data_ is_read) =
    if is_read then codes "HostConfRead" else codes "HostConfWrite"
class_name host_clear_int = codes "HostClearInt"
class_name host_post_int = codes "HostPostInt"
class_name (host_pci_rw offset size is_read) =
    if is_read then codes "HostPciR" else codes "HostPciW"
class_name (nic_msix vec is_x) = if is_x then codes "NicMsix" else codes "NicMsi"
class_name (nic_dma kind id addr len) = nic_dma_name kind
class_name (set_ix intr) = codes "SetIX"
class_name (nic_mmio_r off len val) = codes "NicMmioR"
class_name (nic_mmio_w off len val posted) = codes "NicMmioW"
class_name (nic_tx len) = codes "NicTx"
class_name (nic_rx port len) = codes "NicRx"

-- A number as a stream writes it, in base 16 after `std::hex`; and `std::to_string`.
abbrev pub written : Bool → ℕ → List ℕ
written hex n = print 64 (if hex then 16 else 10) n

abbrev pub to_string : ℕ → List ℕ
to_string n = print 64 10 n

abbrev pub bool_to_string : Bool → List ℕ
bool_to_string b = if b then true_text else false_text

-- `Event::Display` on a stream that is in base 16 or not.
unfoldable pub display_event : Bool → Event → List ℕ → List ℕ
display_event hex e after =
    class_name e.kind
    ++ (codes ": source_id="
        ++ (written hex e.parser_identifier
            ++ (codes ", source_name="
                ++ (e.parser_name ++ (codes ", timestamp=" ++ (to_string e.timestamp ++ after))))))

-- What is displayed behind that, `after` being what follows. `std::hex` holds for all that follows it.
abbrev pub addr_size : ℕ → ℕ → ℕ → List ℕ → List ℕ
addr_size id addr size after =
    codes ", id="
    ++ (to_string id
        ++ (codes ", addr="
            ++ (written true addr ++ (codes ", size=" ++ (written true size ++ after)))))

abbrev pub mmio_op : ℕ → ℕ → ℕ → ℕ → ℕ → List ℕ → List ℕ
mmio_op id addr size bar offset after =
    addr_size id addr size (
      codes ", bar=" ++ (written true bar ++ (codes ", offset=" ++ (written true offset ++ after))))

abbrev pub nic_mmio_op : ℕ → ℕ → ℕ → List ℕ → List ℕ
nic_mmio_op off len val after =
    codes ", off="
    ++ (written true off
        ++ (codes ", len="
            ++ (written true len ++ (codes ", val=" ++ (written true val ++ after)))))

unfoldable pub display_kind : Bool → EventClass → List ℕ → List ℕ
display_kind hex sim_send_sync after = after
display_kind hex sim_proc_in_event after = after
display_kind hex (host_instr pc) after = codes ", pc=" ++ (written true pc ++ after)
display_kind hex (host_call pc func comp) after =
    codes ", pc="
    ++ (written true pc ++ (codes ", func=" ++ (func ++ (codes ", comp=" ++ (comp ++ after)))))
display_kind hex host_mmio_im_resp_po_w after = after
display_kind hex (host_mmio_cr id) after = codes ", id=" ++ (to_string id ++ after)
display_kind hex (host_mmio_cw id) after = codes ", id=" ++ (to_string id ++ after)
display_kind hex (host_mmio_r id addr size bar offset) after = mmio_op id addr size bar offset after
display_kind hex (host_mmio_w id addr size bar offset posted) after =
    mmio_op id addr size bar offset (codes ", posted=" ++ (bool_to_string posted ++ after))
display_kind hex (host_dma_c id) after = codes ", id=" ++ (to_string id ++ after)
display_kind hex (host_dma_r id addr size) after = addr_size id addr size after
display_kind hex (host_dma_w id addr size) after = addr_size id addr size after
display_kind hex (host_msix vec) after = codes ", vec=" ++ (to_string vec ++ after)
display_kind hex (host_conf dev func reg bytes data_ is_read) after =
    codes ", dev="
    ++ (written true dev
        ++ (codes ", func="
            ++ (written true func
                ++ (codes ", reg="
                    ++ (written true reg
                        ++ (codes ", bytes="
                            ++ (written true bytes
                                ++ (codes ", data=" ++ (written true data_ ++ after)))))))))
display_kind hex host_clear_int after = after
display_kind hex host_post_int after = after
display_kind hex (host_pci_rw offset size is_read) after =
    codes ", offset=" ++ (written true offset ++ (codes ", size=" ++ (written true size ++ after)))
display_kind hex (nic_msix vec is_x) after = codes ", vec=" ++ (to_string vec ++ after)
display_kind hex (nic_dma kind id addr len) after = addr_size id addr len after
display_kind hex (set_ix intr) after = codes ", interrupt=" ++ (written true intr ++ after)
display_kind hex (nic_mmio_r off len val) after = nic_mmio_op off len val after
display_kind hex (nic_mmio_w off len val posted) after =
    nic_mmio_op off len val (codes ", posted=" ++ (bool_to_string posted ++ after))
display_kind hex (nic_tx len) after =
    codes ", len=" ++ (written hex len ++ (codes ", is_read=" ++ (bool_to_string false ++ after)))
display_kind hex (nic_rx port len) after =
    codes ", len="
    ++ (written hex len
        ++ (codes ", is_read="
            ++ (bool_to_string true ++ (codes ", port=" ++ (to_string port ++ after)))))

-- Whether the stream is in base 16 once the event is written.
abbrev pub sets_hex : Bool → EventClass → Bool
sets_hex hex sim_send_sync = hex
sets_hex hex sim_proc_in_event = hex
sets_hex hex host_mmio_im_resp_po_w = hex
sets_hex hex (host_mmio_cr id) = hex
sets_hex hex (host_mmio_cw id) = hex
sets_hex hex (host_dma_c id) = hex
sets_hex hex (host_msix vec) = hex
sets_hex hex host_clear_int = hex
sets_hex hex host_post_int = hex
sets_hex hex (nic_msix vec is_x) = hex
sets_hex hex (nic_tx len) = hex
sets_hex hex (nic_rx port len) = hex
sets_hex hex _ = true

unfoldable pub display : Bool → Event → List ℕ → List ℕ
unfolding display_event display_kind
display hex e after = display_event hex e (display_kind hex e.kind after)

-- `EventPrinter::consume` of some events: each on a line of its own, on one stream.
unfoldable pub print_events : Bool → List Event → List ℕ
unfolding display
print_events hex [] = []
print_events hex (e ∷ es) = display hex e (10 ∷ print_events (sets_hex hex e.kind) es)
