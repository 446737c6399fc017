-- ===== src/Span/Host.antt =====
-- The spans of a host (include/analytics/span.h, source/analytics/span.cpp): HostDmaSpan, HostMmioSpan, HostIntSpan,
-- HostMsixSpan and HostPciSpan.
use columbo.Base.{ℕ, Bool, true, false, ◌&&◌, ◌||◌, not, Option, none, some, ◌==◌, if◌then◌else◌}
use columbo.Span.{EventType, Event, is_type, Base, new_base, is_set, push_back, guarded}

-- The id of an event that is set, against that of another: `none` has none.
abbrev pub same_id : Option Event → Event → Bool
same_id none e = false
same_id (some x) e = x.id == e.id

pub record HostDmaSpan : Type 0 where
  pub base : Base
  pub execution : Option Event
  pub is_read : Bool
  pub completion : Option Event

abbrev pub new_host_dma : HostDmaSpan
new_host_dma = record { base = new_base; execution = none; is_read = true; completion = none }

unfoldable pub add_to_host_dma : HostDmaSpan → Option Event → HostDmaSpan × Bool
add_to_host_dma s event = guarded s.base s event (λ e.
    if is_type e EventType.host_dma_w || is_type e EventType.host_dma_r
    then (if is_set s.execution then (s, false) else (
      record s {
        is_read = is_type e EventType.host_dma_r;
        execution = some e;
        base = push_back s.base e s.base.is_pending;
      },
      true,
    ))
    else if is_type e EventType.host_dma_c
    then (if not (is_set s.execution) || is_set s.completion
        then (s, false)
        else if not (same_id s.execution e)
        then (s, false)
        else (record s { completion = some e; base = push_back s.base e false }, true))
    else (s, false))

pub record HostMmioSpan : Type 0 where
  pub base : Base
  pub issue : Option Event
  pub is_read : Bool
  pub is_posted : Bool
  pub bar_number : ℕ
  pub im_mmio_resp : Option Event
  pub completion : Option Event

abbrev pub new_host_mmio : ℕ → HostMmioSpan
new_host_mmio bar = record {
  base = new_base;
  issue = none;
  is_read = false;
  is_posted = false;
  bar_number = bar;
  im_mmio_resp = none;
  completion = none;
}

-- `TraceEnvironment::IsMsixNotToDeviceBarNumber`.
abbrev pub is_msix_not_to_device_bar_number : ℕ → Bool
is_msix_not_to_device_bar_number bar = not (bar == 0)

abbrev pub same_timestamp : Option Event → Event → Bool
same_timestamp none e = false
same_timestamp (some x) e = x.timestamp == e.timestamp

abbrev pub mmio_issue : HostMmioSpan → Event → HostMmioSpan × Bool
mmio_issue s e =
    let read = is_type e EventType.host_mmio_r in
    let pending =
      if read && is_msix_not_to_device_bar_number e.bar then false else s.base.is_pending in
    if is_set s.issue then (s, false) else (
      record s {
        is_read = read;
        is_posted = if read then s.is_posted else e.is_posted;
        bar_number = e.bar;
        issue = some e;
        base = push_back s.base e pending;
      },
      true,
    )

abbrev pub mmio_response : HostMmioSpan → Event → HostMmioSpan × Bool
mmio_response s e =
    let ends = s.is_posted || is_msix_not_to_device_bar_number s.bar_number in
    if not (is_set s.issue) || s.is_read || is_set s.im_mmio_resp || not s.is_posted
    then (s, false)
    else if not (same_timestamp s.issue e)
    then (s, false)
    else (
      record s {
        im_mmio_resp = some e;
        base = push_back s.base e (if ends then false else s.base.is_pending);
      },
      true,
    )

abbrev pub mmio_completion : HostMmioSpan → Event → HostMmioSpan × Bool
mmio_completion s e =
    let wrong =
      if is_type e EventType.host_mmio_cw
      then s.is_read || is_set s.im_mmio_resp
      else not s.is_read in
    if is_msix_not_to_device_bar_number s.bar_number
    then (s, false)
    else if not (is_set s.issue) || wrong || not (same_id s.issue e)
    then (s, false)
    else (record s { completion = some e; base = push_back s.base e false }, true)

unfoldable pub add_to_host_mmio : HostMmioSpan → Option Event → HostMmioSpan × Bool
add_to_host_mmio s event = guarded s.base s event (λ e.
    if is_type e EventType.host_mmio_w || is_type e EventType.host_mmio_r
    then mmio_issue s e
    else if is_type e EventType.host_mmio_im_resp_po_w
    then mmio_response s e
    else if is_type e EventType.host_mmio_cw || is_type e EventType.host_mmio_cr
    then mmio_completion s e
    else (s, false))

-- HostIntSpan, HostMsixSpan and HostPciSpan: two events, one after the other.
pub record HostIntSpan : Type 0 where
  pub base : Base
  pub post_int : Option Event
  pub clear_int : Option Event

abbrev pub new_host_int : HostIntSpan
new_host_int = record { base = new_base; post_int = none; clear_int = none }

unfoldable pub add_to_host_int : HostIntSpan → Option Event → HostIntSpan × Bool
add_to_host_int s event = guarded s.base s event (λ e.
    if is_type e EventType.host_post_int
    then (if is_set s.post_int
        then (s, false)
        else (record s { post_int = some e; base = push_back s.base e s.base.is_pending }, true))
    else if is_type e EventType.host_clear_int
    then (if not (is_set s.post_int) || is_set s.clear_int
        then (s, false)
        else (record s { clear_int = some e; base = push_back s.base e false }, true))
    else (s, false))

pub record HostMsixSpan : Type 0 where
  pub base : Base
  pub msix : Option Event
  pub dma_c : Option Event

abbrev pub new_host_msix : HostMsixSpan
new_host_msix = record { base = new_base; msix = none; dma_c = none }

unfoldable pub add_to_host_msix : HostMsixSpan → Option Event → HostMsixSpan × Bool
add_to_host_msix s event = guarded s.base s event (λ e.
    if is_type e EventType.host_msix
    then (if is_set s.msix
        then (s, false)
        else (record s { msix = some e; base = push_back s.base e true }, true))
    else if is_type e EventType.host_dma_c
    then (if not (is_set s.msix) || is_set s.dma_c
        then (s, false)
        else if not (e.id == 0)
        then (s, false)
        else (record s { dma_c = some e; base = push_back s.base e false }, true))
    else (s, false))

pub record HostPciSpan : Type 0 where
  pub base : Base
  pub pci_rw : Option Event
  pub conf_rw : Option Event
  pub is_read : Bool

abbrev pub new_host_pci : HostPciSpan
new_host_pci = record { base = new_base; pci_rw = none; conf_rw = none; is_read = false }

abbrev pub same_bool : Bool → Bool → Bool
same_bool true b = b
same_bool false b = not b

unfoldable pub add_to_host_pci : HostPciSpan → Option Event → HostPciSpan × Bool
add_to_host_pci s event = guarded s.base s event (λ e.
    if is_type e EventType.host_pci_rw
    then (if is_set s.pci_rw then (s, false) else (
      record s { pci_rw = some e; is_read = e.is_read; base = push_back s.base e true },
      true,
    ))
    else if is_type e EventType.host_conf
    then (if not (is_set s.pci_rw) || is_set s.conf_rw
        then (s, false)
        else if not (same_bool e.is_read s.is_read)
        then (s, false)
        else (record s { conf_rw = some e; base = push_back s.base e false }, true))
    else (s, false))
