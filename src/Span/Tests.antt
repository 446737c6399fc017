-- ===== src/Span/Tests.antt =====
-- Spans (source/analytics/span.cpp) that are offered concrete events.
use columbo.Base.{ℕ, ◌≡◌, refl, true, false, none, some, [], ◌∷◌}
use columbo.Span.NetworkEvent.{no_network, cosim_net_device, to_adapter}
use columbo.Span.NetDevice.{add_to_net_device, new_net_device}
use columbo.Span.NetDeviceState.{NetDeviceState}
use columbo.Span.NetDeviceAdd.{net_device-NetDeviceState}
use columbo.Span.{EventType, Event, is_type, is_potential_add}
use columbo.Span.Host.{
  add_to_host_dma, new_host_dma, add_to_host_int, new_host_int, add_to_host_msix, new_host_msix,
  add_to_host_pci, new_host_pci,
}
use columbo.Span.Nic.{add_to_nic_dma, new_nic_dma}
use columbo.Span.Call.{TraceEnvironment, HostCallSpan, new_host_call}
use columbo.Span.CallState.{IsWhole, feed_calls, host_call-IsWhole}
use columbo.Span.Single.{
  new_nic_mmio, add_to_nic_mmio, NicMmioState, new_nic_eth, add_to_nic_eth, NicEthState,
  new_nic_msix, add_to_nic_msix, NicMsixState,
}
use columbo.Span.OneEvent.{
  new_generic_single, add_to_generic_single, GenericSingleState, one_event_spans,
}
use columbo.Span.Feed.{feed, Takes}
use columbo.Span.Dma.{HostDmaState, host_dma-HostDmaState}
use columbo.Span.NicDma.{NicDmaState, nic_dma-NicDmaState}
use columbo.Span.Pairs.{HostIntState}
use columbo.Span.Msix.{HostMsixState}
use columbo.Span.Pci.{HostPciState}
use columbo.Span.HostPairs.{pair_spans}

abbrev event_of : EventType → ℕ → ℕ → Event
event_of type timestamp id = record {
  type = type;
  parser_ident = 1;
  timestamp = timestamp;
  id = id;
  addr = 4096;
  bar = 0;
  is_posted = true;
  is_read = true;
  func = none;
  network = no_network;
}

-- Calls of two functions, the first of which begins a system call.
abbrev one_entry : TraceEnvironment
one_entry = record {
  sys_entry = 1 ∷ [];
  kernel_tx = 2 ∷ [];
  driver_tx = [];
  kernel_rx = [];
  driver_rx = [];
}

abbrev call_of : ℕ → Event
call_of func = record (event_of EventType.host_call 10 0) { func = some func }

host_call_example :
    (s : HostCallSpan) × (feed_calls one_entry
        (new_host_call false)
        (some (call_of 1) ∷ some (call_of 2) ∷ none ∷ some (call_of 1) ∷ [])
      ≡ some s)
    × IsWhole one_entry s
host_call_example =
    host_call-IsWhole one_entry (some (call_of 1) ∷ some (call_of 2) ∷ none ∷ some (call_of 1) ∷ [])

-- A new span that is fragmented, and whose first call begins a system call.
fragmented_faults : feed_calls one_entry (new_host_call true) (some (call_of 1) ∷ []) ≡ none
unfolding feed_calls is_potential_add is_type
fragmented_faults = refl

-- A write of the device's memory, the completion of another, and its own.
abbrev dma_write : Event
dma_write = event_of EventType.host_dma_w 10 7

abbrev other_completion : Event
other_completion = event_of EventType.host_dma_c 11 8

abbrev own_completion : Event
own_completion = event_of EventType.host_dma_c 12 7

host_dma_example :
    let s =
      feed add_to_host_dma new_host_dma (none ∷ some dma_write ∷ some other_completion ∷ []) in
    HostDmaState s × ((add_to_host_dma s (some own_completion)).1 ≡ true)
unfolding feed add_to_host_dma is_type is_potential_add
host_dma_example =
    host_dma-HostDmaState (none ∷ some dma_write ∷ some other_completion ∷ []) own_completion

nic_dma_example :
    let s = feed add_to_nic_dma new_nic_dma (some (event_of EventType.nic_dma_i 1 7) ∷ []) in
    NicDmaState s × ((add_to_nic_dma s (some (event_of EventType.nic_dma_ex 2 7))).1 ≡ true)
unfolding feed add_to_nic_dma is_type is_potential_add
nic_dma_example =
    nic_dma-NicDmaState (some (event_of EventType.nic_dma_i 1 7) ∷ [])
      (event_of EventType.nic_dma_ex 2 7)

pair_spans_example :
    let events = some (event_of EventType.host_post_int 5 0) ∷ [] in
    let e = event_of EventType.host_clear_int 6 0 in
    let int = feed add_to_host_int new_host_int events in
    let pci = feed add_to_host_pci new_host_pci events in
    let msix = feed add_to_host_msix new_host_msix events in
    (HostIntState int × ((add_to_host_int int (some e)).1 ≡ true))
    × (HostPciState pci × ((add_to_host_pci pci (some e)).1 ≡ false))
    × (HostMsixState msix × ((add_to_host_msix msix (some e)).1 ≡ false))
unfolding feed add_to_host_int add_to_host_pci add_to_host_msix is_type is_potential_add
pair_spans_example =
    pair_spans (some (event_of EventType.host_post_int 5 0) ∷ [])
      (event_of EventType.host_clear_int 6 0)

one_event_example :
    let events = none ∷ some (event_of EventType.nic_tx 1 0) ∷ [] in
    let e = event_of EventType.nic_mmio_r 2 0 in
    let mmio = feed add_to_nic_mmio new_nic_mmio events in
    let eth = feed add_to_nic_eth new_nic_eth events in
    let msix = feed add_to_nic_msix new_nic_msix events in
    let generic = feed add_to_generic_single new_generic_single events in
    Takes NicMmioState true (mmio, (add_to_nic_mmio mmio (some e)).1)
    × Takes NicEthState false (eth, (add_to_nic_eth eth (some e)).1)
    × Takes NicMsixState false (msix, (add_to_nic_msix msix (some e)).1)
    × Takes GenericSingleState false (generic, (add_to_generic_single generic (some e)).1)
unfolding feed add_to_nic_mmio add_to_nic_eth add_to_nic_msix add_to_generic_single is_type
    is_potential_add
one_event_example =
    one_event_spans (none ∷ some (event_of EventType.nic_tx 1 0) ∷ [])
      (event_of EventType.nic_mmio_r 2 0)

-- A packet from one address to another.
abbrev packet : EventType → ℕ → ℕ → Event
packet type src dst = record (event_of type 10 0) {
  network = record no_network {
    node = 1;
    device = 2;
    device_type = cosim_net_device;
    interesting_flag = true;
    boundary_type = to_adapter;
    ip_header = some (record { length = 84; src_ip = src; dst_ip = dst });
  };
}

net_device_example :
    let s =
      feed add_to_net_device new_net_device
        (none ∷ some (packet EventType.network_enqueue 7 8) ∷ []) in
    NetDeviceState s
    × ((add_to_net_device s (some (packet EventType.network_dequeue 7 8))).1 ≡ true)
unfolding feed add_to_net_device is_type is_potential_add
net_device_example =
    net_device-NetDeviceState (none ∷ some (packet EventType.network_enqueue 7 8) ∷ [])
      (packet EventType.network_dequeue 7 8)

-- An event whose headers name different pairs is refused, and its span keeps the first pair.
left_behind :
    let r = add_to_net_device new_net_device (
      some (record (packet EventType.network_enqueue 7 8) {
        network = record ((packet EventType.network_enqueue 7 8).network) {
          arp_header = some (record { src_ip = 7; dst_ip = 9; is_request = true });
        };
      })) in
    (r.1 ≡ false) × (r.0.ips_set ≡ true) × (r.0.dst ≡ 8)
unfolding add_to_net_device is_type is_potential_add
left_behind = (refl, refl, refl)
