-- ===== src/Span/NetworkEvent.antt =====
-- What a NetworkEvent (include/events/events.h) has besides what all events have, without its ethernet header, which no
-- span reads, and the filter of nodes and devices (include/analytics/helper.h).
use columbo.Base.{ℕ, Bool, true, false, ◌&&◌, ◌||◌, Option, none, List, [], ◌∷◌, ◌==◌}

pub data NetworkDeviceType : Type 0 where
  cosim_net_device simple_net_device : NetworkDeviceType

pub data EventBoundaryType : Type 0 where
  within_simulator from_adapter to_adapter : EventBoundaryType

-- The values of the enumerators.
abbrev pub device_code : NetworkDeviceType → ℕ
device_code cosim_net_device = 0
device_code simple_net_device = 1

abbrev pub boundary_code : EventBoundaryType → ℕ
boundary_code within_simulator = 0
boundary_code from_adapter = 1
boundary_code to_adapter = 2

-- An Ipv4 is a number.
pub record ArpHeader : Type 0 where
  pub src_ip : ℕ
  pub dst_ip : ℕ
  pub is_request : Bool

pub record IpHeader : Type 0 where
  pub length : ℕ
  pub src_ip : ℕ
  pub dst_ip : ℕ

-- An `int` is the pattern of its 32 bits.
pub record Network : Type 0 where
  pub node : ℕ
  pub device : ℕ
  pub device_type : NetworkDeviceType
  pub packet_uid : ℕ
  pub interesting_flag : Bool
  pub payload_size : ℕ
  pub boundary_type : EventBoundaryType
  pub arp_header : Option ArpHeader
  pub ip_header : Option IpHeader

abbrev pub same_flag : Bool → Bool → Bool
same_flag true true = true
same_flag false false = true
same_flag true false = false
same_flag false true = false

abbrev pub arp_eq : ArpHeader → ArpHeader → Bool
arp_eq a b = a.src_ip == b.src_ip && a.dst_ip == b.dst_ip && same_flag a.is_request b.is_request

abbrev pub ip_eq : IpHeader → IpHeader → Bool
ip_eq a b = a.length == b.length && a.src_ip == b.src_ip && a.dst_ip == b.dst_ip

-- `IsDeviceType` and `IsBoundaryType` of an event that is there.
abbrev pub is_device_type : Network → NetworkDeviceType → Bool
is_device_type n t = device_code n.device_type == device_code t

abbrev pub is_boundary_type : Network → EventBoundaryType → Bool
is_boundary_type n t = boundary_code n.boundary_type == boundary_code t

-- NodeDeviceFilter: the pairs of nodes and devices that are interesting.
unfoldable pub has_pair : List (ℕ × ℕ) → ℕ → ℕ → Bool
has_pair [] node device = false
has_pair ((n, d) ∷ pairs) node device = (n == node && d == device) || has_pair pairs node device

abbrev pub is_interesting_node_device : List (ℕ × ℕ) → Network → Bool
is_interesting_node_device pairs n = has_pair pairs n.node n.device

-- What an event of another class has in its place.
abbrev pub no_network : Network
no_network = record {
  node = 0;
  device = 0;
  device_type = cosim_net_device;
  packet_uid = 0;
  interesting_flag = false;
  payload_size = 0;
  boundary_type = within_simulator;
  arp_header = none;
  ip_header = none;
}
