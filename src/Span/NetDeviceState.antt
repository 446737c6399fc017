-- ===== src/Span/NetDeviceState.antt =====
-- What a NetDeviceSpan (source/analytics/span.cpp) can hold.
use columbo.Base.{
  ℕ, ◌≡◌, Bool, true, false, ◌&&◌, ◌||◌, Option, none, some, List, [], ◌∷◌, ◌==◌, if◌then◌else◌,
}
use columbo.Span.{EventType, Event, new_base, is_type}
use columbo.Span.NetDevice.{NetDeviceSpan, is_consistent}
use columbo.Span.Addresses.{names, agrees, known, Knows}

abbrev pub enters : Event → Bool
enters e = is_type e EventType.network_enqueue

abbrev pub exits : Event → Bool
exits e = is_type e EventType.network_dequeue || is_type e EventType.network_drop

-- What a span with these events, and with these addresses known, takes next.
abbrev pub net_device_next : List Event → Option (ℕ × ℕ) → Event → Bool
net_device_next [] k e = enters e && agrees k (names e.network)
net_device_next (x ∷ []) k e =
    x.parser_ident == e.parser_ident
    && (exits e && (is_consistent x.network e.network && agrees k (names e.network)))
net_device_next (x ∷ y ∷ es) k e = false

-- The packet of this event is in the device.
pub record HasEntered (s : NetDeviceSpan) (x : Event) : Type 0 where
  pub dev_enq : s.dev_enq ≡ some x
  pub type : enters x ≡ true
  pub node : s.node ≡ x.network.node
  pub device : s.device ≡ x.network.device
  pub knows : Knows (known s) (names x.network)

-- It left with this one, or was dropped.
pub record HasLeft (s : NetDeviceSpan) (x y : Event) : Type 0 where
  pub dev_deq : s.dev_deq ≡ (if is_type y EventType.network_dequeue then some y else none)
  pub drop_event : s.drop_event ≡ (if is_type y EventType.network_dequeue then none else some y)
  pub type : exits y ≡ true
  pub consistent : is_consistent x.network y.network ≡ true
  pub knows : Knows (known s) (names y.network)

pub data NetDeviceState (s : NetDeviceSpan) : Type 0 where
  empty :
      s.dev_enq ≡ none
      → s.dev_deq ≡ none
      → s.drop_event ≡ none
      → s.base ≡ new_base
      → NetDeviceState s
  inside :
      (x : Event)
      → HasEntered s x
      → s.dev_deq ≡ none
      → s.drop_event ≡ none
      → s.base ≡ (record { events = x ∷ []; is_pending = true })
      → NetDeviceState s
  gone :
      (x y : Event)
      → HasEntered s x
      → HasLeft s x y
      → s.base ≡ (record { events = x ∷ y ∷ []; is_pending = false })
      → NetDeviceState s
