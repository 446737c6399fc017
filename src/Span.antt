-- ===== src/Span.antt =====
-- Spans (include/analytics/span.h, source/analytics/span.cpp): what is common to all of them, and the part of the
-- events (include/events/events.h, include/events/eventType.h) that they read.
pub mod NetworkEvent
pub mod Host
pub mod Nic
pub mod Feed
pub mod Dma
pub mod NicDma
pub mod MmioState
pub mod Mmio
pub mod Pairs
pub mod Msix
pub mod Pci
pub mod HostPairs
pub mod Call
pub mod CallState
pub mod Single
pub mod OneEvent
pub mod NetDevice
pub mod Addresses
pub mod NetDeviceState
pub mod NetDeviceLeave
pub mod NetDeviceAdd
mod Tests
use columbo.Base.{
  ℕ, Bool, true, false, ◌&&◌, not, Option, none, some, List, [], ◌∷◌, ◌++◌, ◌==◌, if◌then◌else◌,
}
use columbo.Span.NetworkEvent.{Network}

pub data EventType : Type 0 where
  event : EventType
  sim_send_sync : EventType
  sim_proc_in_event : EventType
  host_instr : EventType
  host_call : EventType
  host_mmio_im_resp_po_w : EventType
  host_id_op : EventType
  host_mmio_cr : EventType
  host_mmio_cw : EventType
  host_addr_size_op : EventType
  host_mmio_r : EventType
  host_mmio_w : EventType
  host_dma_c : EventType
  host_dma_r : EventType
  host_dma_w : EventType
  host_msix : EventType
  host_conf : EventType
  host_clear_int : EventType
  host_post_int : EventType
  host_pci_rw : EventType
  nic_msix : EventType
  nic_dma : EventType
  set_ix : EventType
  nic_dma_i : EventType
  nic_dma_ex : EventType
  nic_dma_en : EventType
  nic_dma_cr : EventType
  nic_dma_cw : EventType
  nic_mmio : EventType
  nic_mmio_r : EventType
  nic_mmio_w : EventType
  nic_trx : EventType
  nic_tx : EventType
  nic_rx : EventType
  network_enqueue : EventType
  network_dequeue : EventType
  network_drop : EventType

-- The value of an enumerator.
abbrev pub code : EventType → ℕ
code EventType.event = 0
code EventType.sim_send_sync = 1
code EventType.sim_proc_in_event = 2
code EventType.host_instr = 3
code EventType.host_call = 4
code EventType.host_mmio_im_resp_po_w = 5
code EventType.host_id_op = 6
code EventType.host_mmio_cr = 7
code EventType.host_mmio_cw = 8
code EventType.host_addr_size_op = 9
code EventType.host_mmio_r = 10
code EventType.host_mmio_w = 11
code EventType.host_dma_c = 12
code EventType.host_dma_r = 13
code EventType.host_dma_w = 14
code EventType.host_msix = 15
code EventType.host_conf = 16
code EventType.host_clear_int = 17
code EventType.host_post_int = 18
code EventType.host_pci_rw = 19
code EventType.nic_msix = 20
code EventType.nic_dma = 21
code EventType.set_ix = 22
code EventType.nic_dma_i = 23
code EventType.nic_dma_ex = 24
code EventType.nic_dma_en = 25
code EventType.nic_dma_cr = 26
code EventType.nic_dma_cw = 27
code EventType.nic_mmio = 28
code EventType.nic_mmio_r = 29
code EventType.nic_mmio_w = 30
code EventType.nic_trx = 31
code EventType.nic_tx = 32
code EventType.nic_rx = 33
code EventType.network_enqueue = 34
code EventType.network_dequeue = 35
code EventType.network_drop = 36

-- An event. Only the classes that have a field set it: the id of a memory access, its address and bar, whether a
-- write is posted, whether a PCI access reads, the address of the function that a call is in, and what an event of
-- the network has.
pub record Event : Type 0 where
  pub type : EventType
  pub parser_ident : ℕ
  pub timestamp : ℕ
  pub id : ℕ
  pub addr : ℕ
  pub bar : ℕ
  pub is_posted : Bool
  pub is_read : Bool
  pub func : Option ℕ
  pub network : Network

-- `IsType`.
unfoldable pub is_type : Event → EventType → Bool
is_type e t = code e.type == code t

-- The fields of EventSpan that change: the events, the oldest first, and whether the span is pending.
pub record Base : Type 0 where
  pub events : List Event
  pub is_pending : Bool

abbrev pub new_base : Base
new_base = record { events = []; is_pending = true }

abbrev pub same_parser : List Event → Event → Bool
same_parser [] e = true
same_parser (first ∷ es) e = first.parser_ident == e.parser_ident

-- `IsPotentialAdd` of an event that is there.
unfoldable pub is_potential_add : Base → Event → Bool
is_potential_add b e = b.is_pending && same_parser b.events e

abbrev pub is_set : Option Event → Bool
is_set none = false
is_set (some e) = true

abbrev pub push_back : Base → Event → Bool → Base
push_back b e pending = record { events = b.events ++ e ∷ []; is_pending = pending }

-- `AddToSpan` gets a pointer that may be null, and begins with `IsPotentialAdd`.
abbrev pub guarded : {S : Type 0} → Base → S → Option Event → (Event → S × Bool) → S × Bool
guarded b s none add = (s, false)
guarded b s (some e) add = if is_potential_add b e then add e else (s, false)
