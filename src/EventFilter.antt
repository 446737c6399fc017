-- ===== src/EventFilter.antt =====
-- The filters of events (include/events/event-filter.h, include/events/eventTimeBoundary.h), as handlers of a pipeline of
-- events. The events of a pipeline are there: NS3EventFilter drops a null pointer, and it makes each of the others throw.
pub mod Deliver
mod Tests
use columbo.Base.{
  ℕ, Bool, true, false, ◌&&◌, ◌||◌, not, Option, none, some, List, [], ◌∷◌, leb, ◌==◌,
  if◌then◌else◌,
}
use columbo.Pipeline.{Handler}
use columbo.Span.{EventType, Event, code, is_type}
use columbo.Span.NetworkEvent.{
  has_pair, is_interesting_node_device, is_device_type, cosim_net_device,
}
use columbo.Span.Call.{indicates}

pub record EventTimeBoundary : Type 0 where
  pub lower_bound : ℕ
  pub upper_bound : ℕ

-- The filters with their fields.
pub data Filter : Type 0 where
  event_type_filter : List EventType → Bool → Filter
  event_timestamp_filter : List EventTimeBoundary → Filter
  host_call_func_filter : Bool → List ℕ → Filter
  generic_event_filter : (Event → Bool) → Filter
  ns3_event_filter : List (ℕ × ℕ) → Filter

abbrev pub contains_type : List EventType → EventType → Bool
contains_type [] t = false
contains_type (u ∷ us) t = code u == code t || contains_type us t

unfoldable pub in_boundary : List EventTimeBoundary → ℕ → Bool
in_boundary [] timestamp = false
in_boundary (b ∷ bs) timestamp =
    let rest = in_boundary bs timestamp in
    if leb b.lower_bound timestamp && leb timestamp b.upper_bound then true else rest

-- The types that NS3EventFilter looks at.
unfoldable pub is_ns3_type : Event → Bool
unfolding is_type
is_ns3_type e =
    is_type e EventType.network_enqueue
    || is_type e EventType.network_dequeue
    || is_type e EventType.network_dequeue

-- What `handel` returns.
unfoldable pub passes : Filter → Event → Bool
unfolding in_boundary is_type has_pair is_ns3_type
passes (event_type_filter types inverted) e =
    if inverted then not (contains_type types e.type) else contains_type types e.type
passes (event_timestamp_filter boundaries) e = in_boundary boundaries e.timestamp
passes (host_call_func_filter blacklist list) e =
    if not (is_type e EventType.host_call)
    then true
    else if blacklist && indicates list e.func
    then false
    else if not blacklist && not (indicates list e.func)
    then false
    else true
passes (generic_event_filter to_filter) e = to_filter e
passes (ns3_event_filter pairs) e =
    let interesting = is_interesting_node_device pairs e.network in
    if not (is_ns3_type e)
    then true
    else if e.network.interesting_flag && not interesting
    then false
    else if not e.network.interesting_flag
    then interesting && is_device_type e.network cosim_net_device
    else true

-- The filter as a handler: it has no state of its own, and leaves the event.
abbrev pub as_handler : Filter → Handler Event (Unit {0})
as_handler f = record { state = tt; handel = λ s e. (s, passes f e, e) }
