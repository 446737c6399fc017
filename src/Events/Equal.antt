-- ===== src/Events/Equal.antt =====
-- `Equal` of the classes of events (source/events/events.cc), which tests the class of the other event by its type or
-- by a `dynamic_cast`.
use columbo.Base.{ℕ, Bool, true, false, ◌&&◌, Option, none, some, ◌==◌}
use columbo.StringInternalizer.{text_eq}
use columbo.Span.{EventType, code}
use columbo.Events.{
  EventClass, NicDmaKind, issue, ex, en, cr, cw, sim_send_sync, sim_proc_in_event, host_instr,
  host_call, host_mmio_im_resp_po_w, host_mmio_cr, host_mmio_cw, host_mmio_r, host_mmio_w,
  host_dma_c, host_dma_r, host_dma_w, host_msix, host_conf, host_clear_int, host_post_int,
  host_pci_rw, nic_msix, nic_dma, set_ix, nic_mmio_r, nic_mmio_w, nic_tx, nic_rx, class_name, Event,
}

abbrev pub nic_dma_type : NicDmaKind → EventType
nic_dma_type issue = EventType.nic_dma_i
nic_dma_type ex = EventType.nic_dma_ex
nic_dma_type en = EventType.nic_dma_en
nic_dma_type cr = EventType.nic_dma_cr
nic_dma_type cw = EventType.nic_dma_cw

-- The type that the constructor of the class gives to Event.
abbrev pub event_type : EventClass → EventType
event_type sim_send_sync = EventType.sim_send_sync
event_type sim_proc_in_event = EventType.sim_proc_in_event
event_type (host_instr pc) = EventType.host_instr
event_type (host_call pc func comp) = EventType.host_call
event_type host_mmio_im_resp_po_w = EventType.host_mmio_im_resp_po_w
event_type (host_mmio_cr id) = EventType.host_mmio_cr
event_type (host_mmio_cw id) = EventType.host_mmio_cw
event_type (host_mmio_r id addr size bar offset) = EventType.host_mmio_r
event_type (host_mmio_w id addr size bar offset posted) = EventType.host_mmio_w
event_type (host_dma_c id) = EventType.host_dma_c
event_type (host_dma_r id addr size) = EventType.host_dma_r
event_type (host_dma_w id addr size) = EventType.host_dma_w
event_type (host_msix vec) = EventType.host_msix
event_type (host_conf dev func reg bytes data_ is_read) = EventType.host_conf
event_type host_clear_int = EventType.host_clear_int
event_type host_post_int = EventType.host_post_int
event_type (host_pci_rw offset size is_read) = EventType.host_pci_rw
event_type (nic_msix vec is_x) = EventType.nic_msix
event_type (nic_dma kind id addr len) = nic_dma_type kind
event_type (set_ix intr) = EventType.set_ix
event_type (nic_mmio_r off len val) = EventType.nic_mmio_r
event_type (nic_mmio_w off len val posted) = EventType.nic_mmio_w
event_type (nic_tx len) = EventType.nic_tx
event_type (nic_rx port len) = EventType.nic_rx

-- `Event::Equal`.
unfoldable pub event_equal : Event → Event → Bool
event_equal e other =
    (e.timestamp == other.timestamp)
    && ((e.parser_identifier == other.parser_identifier)
        && (text_eq e.parser_name other.parser_name
            && ((code (event_type e.kind) == code (event_type other.kind))
                && text_eq (class_name e.kind) (class_name other.kind))))

abbrev pub bool_eq : Bool → Bool → Bool
bool_eq true b = b
bool_eq false true = false
bool_eq false false = true

-- What the casts of the classes in between give: an id; an address and a size; a bar and an offset.
abbrev pub id_op : EventClass → Option ℕ
id_op (host_mmio_cr id) = some id
id_op (host_mmio_cw id) = some id
id_op (host_mmio_r id addr size bar offset) = some id
id_op (host_mmio_w id addr size bar offset posted) = some id
id_op (host_dma_c id) = some id
id_op (host_dma_r id addr size) = some id
id_op (host_dma_w id addr size) = some id
id_op _ = none

abbrev pub equal_id : ℕ → Option ℕ → Bool
equal_id id none = false
equal_id id (some id') = id == id'

unfoldable pub equal_addr_size : ℕ → ℕ → ℕ → EventClass → Bool
equal_addr_size id addr size (host_mmio_r id' addr' size' bar offset) =
    (addr == addr') && ((size == size') && (id == id'))
equal_addr_size id addr size (host_mmio_w id' addr' size' bar offset posted) =
    (addr == addr') && ((size == size') && (id == id'))
equal_addr_size id addr size (host_dma_r id' addr' size') =
    (addr == addr') && ((size == size') && (id == id'))
equal_addr_size id addr size (host_dma_w id' addr' size') =
    (addr == addr') && ((size == size') && (id == id'))
equal_addr_size id addr size _ = false

unfoldable pub equal_mmio : ℕ → ℕ → ℕ → ℕ → ℕ → EventClass → Bool
unfolding equal_addr_size
equal_mmio id addr size bar offset (host_mmio_r id' addr' size' bar' offset') =
    (bar == bar')
    && ((offset == offset')
        && equal_addr_size id addr size (host_mmio_r id' addr' size' bar' offset'))
equal_mmio id addr size bar offset (host_mmio_w id' addr' size' bar' offset' posted) =
    (bar == bar')
    && ((offset == offset')
        && equal_addr_size id addr size (host_mmio_w id' addr' size' bar' offset' posted))
equal_mmio id addr size bar offset _ = false

unfoldable pub equal_nic_mmio : ℕ → ℕ → ℕ → EventClass → Bool
equal_nic_mmio off len val (nic_mmio_r off' len' val') =
    (off == off') && ((len == len') && (val == val'))
equal_nic_mmio off len val (nic_mmio_w off' len' val' posted) =
    (off == off') && ((len == len') && (val == val'))
equal_nic_mmio off len val _ = false

-- NicTrx: the length, and whether it is a NicRx.
unfoldable pub equal_trx : ℕ → Bool → EventClass → Bool
equal_trx len is_read (nic_tx len') = (len == len') && bool_eq is_read false
equal_trx len is_read (nic_rx port len') = (len == len') && bool_eq is_read true
equal_trx len is_read _ = false

-- HostInstr, which tests for its own type.
unfoldable pub equal_instr : ℕ → EventClass → Bool
equal_instr pc (host_instr pc') = pc == pc'
equal_instr pc _ = false

-- What a class compares before `Event::Equal`.
unfoldable pub equal_fields : EventClass → EventClass → Bool
unfolding text_eq equal_addr_size equal_mmio equal_nic_mmio equal_trx equal_instr
equal_fields sim_send_sync k = true
equal_fields sim_proc_in_event k = true
equal_fields host_mmio_im_resp_po_w k = true
equal_fields host_clear_int k = true
equal_fields host_post_int k = true
equal_fields (host_instr pc) k = equal_instr pc k
equal_fields (host_call pc func comp) (host_call pc' func' comp') =
    text_eq func func' && (text_eq comp comp' && equal_instr pc (host_call pc' func' comp'))
equal_fields (host_mmio_cr id) k = equal_id id (id_op k)
equal_fields (host_mmio_cw id) k = equal_id id (id_op k)
equal_fields (host_dma_c id) k = equal_id id (id_op k)
equal_fields (host_mmio_r id addr size bar offset) k = equal_mmio id addr size bar offset k
equal_fields (host_mmio_w id addr size bar offset posted)
      (host_mmio_w id' addr' size' bar' offset' posted') =
    bool_eq posted posted'
    && equal_mmio id addr size bar offset (host_mmio_w id' addr' size' bar' offset' posted')
equal_fields (host_dma_r id addr size) k = equal_addr_size id addr size k
equal_fields (host_dma_w id addr size) k = equal_addr_size id addr size k
equal_fields (host_msix vec) (host_msix vec') = vec == vec'
equal_fields (host_conf dev func reg bytes data_ is_read)
      (host_conf dev' func' reg' bytes' data_' is_read') =
    (dev == dev')
    && ((func == func')
        && ((reg == reg')
            && ((bytes == bytes') && ((data_ == data_') && bool_eq is_read is_read'))))
equal_fields (host_pci_rw offset size is_read) (host_pci_rw offset' size' is_read') =
    (offset == offset') && ((size == size') && bool_eq is_read is_read')
equal_fields (nic_msix vec is_x) (nic_msix vec' is_x') = (vec == vec') && bool_eq is_x is_x'
equal_fields (nic_dma kind id addr len) (nic_dma kind' id' addr' len') =
    (id == id') && ((addr == addr') && (len == len'))
equal_fields (set_ix intr) (set_ix intr') = intr == intr'
equal_fields (nic_mmio_r off len val) k = equal_nic_mmio off len val k
equal_fields (nic_mmio_w off len val posted) (nic_mmio_w off' len' val' posted') =
    equal_nic_mmio off len val (nic_mmio_w off' len' val' posted') && bool_eq posted' posted
equal_fields (nic_tx len) k = equal_trx len false k
equal_fields (nic_rx port len) (nic_rx port' len') =
    (port == port') && equal_trx len true (nic_rx port' len')
equal_fields _ k = false

unfoldable pub equal : Event → Event → Bool
unfolding equal_fields event_equal
equal e other = equal_fields e.kind other.kind && event_equal e other
