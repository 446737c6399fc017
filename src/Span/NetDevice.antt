-- ===== src/Span/NetDevice.antt =====
-- NetDeviceSpan (include/analytics/span.h, source/analytics/span.cpp): a packet in a device of the network.
use columbo.Base.{
  ℕ, ◌-◌, ◌^◌, Bool, true, false, ◌&&◌, ◌||◌, not, Option, none, some, List, [], ◌∷◌, ◌==◌,
  if◌then◌else◌,
}
use columbo.Span.{EventType, Event, Base, new_base, is_type, is_set, push_back, guarded}
use columbo.Span.NetworkEvent.{
  NetworkDeviceType, EventBoundaryType, boundary_code, device_code, ArpHeader, IpHeader, Network,
  arp_eq, ip_eq, same_flag,
}

-- The type of the device is not initialised: `none` until an event sets it.
pub record NetDeviceSpan : Type 0 where
  pub base : Base
  pub dev_enq : Option Event
  pub dev_deq : Option Event
  pub drop_event : Option Event
  pub device_type : Option NetworkDeviceType
  pub src : ℕ
  pub dst : ℕ
  pub ips_set : Bool
  pub is_arp : Bool
  pub boundary_types : List EventBoundaryType
  pub interesting_flag : Bool
  pub node : ℕ
  pub device : ℕ

-- The node and the device are -1.
abbrev pub new_net_device : NetDeviceSpan
new_net_device = record {
  base = new_base;
  dev_enq = none;
  dev_deq = none;
  drop_event = none;
  device_type = none;
  src = 0;
  dst = 0;
  ips_set = false;
  is_arp = false;
  boundary_types = [];
  interesting_flag = false;
  node = 2 ^ 32 - 1;
  device = 2 ^ 32 - 1;
}

unfoldable pub contains_boundary_type : List EventBoundaryType → EventBoundaryType → Bool
contains_boundary_type [] t = false
contains_boundary_type (b ∷ bs) t =
    boundary_code b == boundary_code t || contains_boundary_type bs t

abbrev pub insert_boundary_type :
    List EventBoundaryType → EventBoundaryType → List EventBoundaryType
insert_boundary_type bs t = if contains_boundary_type bs t then bs else t ∷ bs

-- The tests of `IsConsistent` on the headers: an event may have an ARP header that the other one has not, but not an
-- IP header.
abbrev pub same_arp : Option ArpHeader → Option ArpHeader → Bool
same_arp none b = true
same_arp (some a) none = true
same_arp (some a) (some b) = arp_eq a b

abbrev pub same_ip : Option IpHeader → Option IpHeader → Bool
same_ip none none = true
same_ip none (some b) = false
same_ip (some a) none = false
same_ip (some a) (some b) = ip_eq a b

unfoldable pub is_consistent : Network → Network → Bool
is_consistent a b =
    if not (same_arp a.arp_header b.arp_header)
    then false
    else if not (same_ip a.ip_header b.ip_header)
    then false
    else a.node == b.node
      && a.device == b.device
      && device_code a.device_type == device_code b.device_type
      && a.packet_uid == b.packet_uid
      && same_flag a.interesting_flag b.interesting_flag
      && a.payload_size == b.payload_size

abbrev pub set_and_check_potential_arp : NetDeviceSpan → Option ArpHeader → NetDeviceSpan × Bool
set_and_check_potential_arp s none = (s, true)
set_and_check_potential_arp s (some header) =
    if not s.ips_set
    then (
      record s { src = header.src_ip; dst = header.dst_ip; ips_set = true; is_arp = true },
      true,
    )
    else (s, s.src == header.src_ip && s.dst == header.dst_ip)

abbrev pub set_and_check_potential_ip : NetDeviceSpan → Option IpHeader → NetDeviceSpan × Bool
set_and_check_potential_ip s none = (s, true)
set_and_check_potential_ip s (some header) =
    if not s.ips_set
    then (record s { src = header.src_ip; dst = header.dst_ip; ips_set = true }, true)
    else (s, s.src == header.src_ip && s.dst == header.dst_ip)

-- `SetAndCheckPotentialIp(event_ptr) and SetAndCheckPotentialArp(event_ptr)`, whose first part may set the addresses
-- where the second one fails.
unfoldable pub set_and_check : NetDeviceSpan → Network → NetDeviceSpan × Bool
set_and_check s n =
    let (s', ok) = set_and_check_potential_ip s n.ip_header in
    if not ok then (s', false) else set_and_check_potential_arp s' n.arp_header

-- The throw_on of a second enqueue is behind the test for one.
unfoldable pub handel_enqueue : NetDeviceSpan → Event → NetDeviceSpan × Bool
unfolding set_and_check contains_boundary_type
handel_enqueue s e =
    let (s', ok) = set_and_check s e.network in
    if is_set s.dev_enq || (is_set s.dev_enq && (is_set s.dev_deq || is_set s.drop_event))
    then (s, false)
    else if not ok
    then (s', false)
    else (
      record s' {
        dev_enq = some e;
        device_type = some e.network.device_type;
        boundary_types = insert_boundary_type s'.boundary_types e.network.boundary_type;
        interesting_flag = e.network.interesting_flag;
        node = e.network.node;
        device = e.network.device;
        base = push_back s'.base e s'.base.is_pending;
      },
      true,
    )

-- What `HandelDequeue` and `HandelDrop` test; they differ in the field that they set.
unfoldable pub leaves :
    (NetDeviceSpan → Event → NetDeviceSpan) → NetDeviceSpan → Event → NetDeviceSpan × Bool
unfolding is_consistent set_and_check
leaves set_event s e =
    let (s', ok) = set_and_check s e.network in
    elim s.dev_enq [
      | none ↦ (s, false)
      | some enq ↦
          if is_set s.drop_event || is_set s.dev_deq
          then (s, false)
          else if not (is_consistent enq.network e.network)
          then (s, false)
          else if not ok
          then (s', false)
          else (set_event s' e, true)
    ]

-- What they set.
abbrev pub dequeued : NetDeviceSpan → Event → NetDeviceSpan
dequeued s e = record s {
  dev_deq = some e;
  boundary_types = insert_boundary_type s.boundary_types e.network.boundary_type;
  base = push_back s.base e false;
}

abbrev pub dropped : NetDeviceSpan → Event → NetDeviceSpan
dropped s e = record s {
  drop_event = some e;
  boundary_types = insert_boundary_type s.boundary_types e.network.boundary_type;
  base = push_back s.base e false;
}

unfoldable pub handel_dequeue : NetDeviceSpan → Event → NetDeviceSpan × Bool
unfolding leaves contains_boundary_type
handel_dequeue s e = leaves dequeued s e

unfoldable pub handel_drop : NetDeviceSpan → Event → NetDeviceSpan × Bool
unfolding leaves contains_boundary_type
handel_drop s e = leaves dropped s e

unfoldable pub add_to_net_device : NetDeviceSpan → Option Event → NetDeviceSpan × Bool
unfolding handel_enqueue handel_dequeue handel_drop
add_to_net_device s event = guarded s.base s event (λ e.
    if is_type e EventType.network_enqueue
    then handel_enqueue s e
    else if is_type e EventType.network_dequeue
    then handel_dequeue s e
    else if is_type e EventType.network_drop
    then handel_drop s e
    else (s, false))
