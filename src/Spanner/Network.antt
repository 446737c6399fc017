-- ===== src/Spanner/Network.antt =====
-- NetworkSpanner (include/analytics/spanner.h, source/analytics/networkSpanner.cpp), with the maps of nodes and devices
-- (include/analytics/helper.h).
pub mod NetworkOnce
use columbo.Base.{
  ℕ, Bool, true, false, ◌&&◌, ◌||◌, not, Option, none, some, List, [], ◌∷◌, ◌++◌, if◌then◌else◌,
}
use columbo.Channel.Queue.{Executor}
use columbo.Span.{EventType, Event, is_type, is_set}
use columbo.Span.NetworkEvent.{
  cosim_net_device, from_adapter, to_adapter, is_device_type, is_boundary_type, has_pair,
  is_interesting_node_device,
}
use columbo.Span.NetDevice.{
  NetDeviceSpan, new_net_device, add_to_net_device, contains_boundary_type,
}
use columbo.Tracer.Start.{Context, rx, create_pass_on_context}
use columbo.Spanner.{
  to_host_at, from_host_at, by_context, first, Prog, finish, fails, reads, computed, ◌>>=◌, ◌>>◌,
  needs, when, unless_empty, start_span_with, pop_propagate_context, push_propagate_context,
  mark_span, add_to_pending, first_of, started,
}
use columbo.Spanner.Nic.{is_expectation}

-- The nodes and devices that have a channel from a host, those that have one to a host, and those that are
-- interesting. Of the span that was finished last, only the pointer is read.
pub record NetworkSpanner : Type 0 where
  pub last_finished_device_span : Option ℕ
  pub current_active_device_spans : List (ℕ × NetDeviceSpan)
  pub from_host_channels : List (ℕ × ℕ)
  pub to_host_channels : List (ℕ × ℕ)
  pub node_device_filter : List (ℕ × ℕ)

abbrev pub new_network_spanner : List (ℕ × ℕ) → List (ℕ × ℕ) → List (ℕ × ℕ) → NetworkSpanner
new_network_spanner from_host to_host filter = record {
  last_finished_device_span = none;
  current_active_device_spans = [];
  from_host_channels = from_host;
  to_host_channels = to_host;
  node_device_filter = filter;
}

abbrev pub Handled : Type 0
Handled = Prog (NetworkSpanner × Bool)

-- A new span, which is put to the active ones.
abbrev pub activated : NetworkSpanner → ℕ → Event → NetworkSpanner
activated n p e = record n {
  current_active_device_spans =
      n.current_active_device_spans
      ++ (p, started add_to_net_device (λ s. s.base) new_net_device e) ∷ [];
}

-- The context of a span that was pushed by the NIC of a host, or of the device that had the packet before.
unfoldable pub context_to_connect_with : NetworkSpanner → Event → Prog Context
unfolding pop_propagate_context has_pair create_pass_on_context
context_to_connect_with n e =
    if is_boundary_type e.network from_adapter
    then (do
      needs (is_device_type e.network cosim_net_device)
      needs (has_pair n.from_host_channels e.network.node e.network.device)
      context ← pop_propagate_context (from_host_at e.network.node e.network.device)
      needs (is_expectation context rx)
      finish context)
    else (do
      last ← unless_empty n.last_finished_device_span
      reads (λ h. computed (create_pass_on_context rx h (some last))))

-- An enqueue that no active span takes: it starts a trace, or follows a context.
unfoldable pub start_device_span : NetworkSpanner → Executor → Event → Handled
unfolding add_to_net_device context_to_connect_with has_pair
start_device_span n executor e =
    if not e.network.interesting_flag
    then (if is_interesting_node_device n.node_device_filter e.network
          && is_device_type e.network cosim_net_device
        then (do
          p ←
              start_span_with
                (first (first_of add_to_net_device (λ s. s.base) new_net_device) executor (some e))
          finish (activated n p e, true))
        else finish (n, true))
    else (do
      context ← context_to_connect_with n e
      p ← start_span_with (
          by_context (first_of add_to_net_device (λ s. s.base) new_net_device) executor
            (some context) (some e))
      finish (activated n p e, true))

-- What the context is pushed for: a packet that goes to an adapter and is not dropped.
unfoldable pub is_for_host : NetDeviceSpan → Bool
unfolding contains_boundary_type
is_for_host s = contains_boundary_type s.boundary_types to_adapter && not (is_set s.drop_event)

unfoldable pub push_to_host : NetworkSpanner → ℕ → NetDeviceSpan → Prog (Unit {0})
unfolding push_propagate_context has_pair
push_to_host n p s = do
  needs s.ips_set
  needs (has_pair n.to_host_channels s.node s.device)
  push_propagate_context rx (to_host_at s.node s.device) p

-- What comes of the active span that took the event, if there is one.
unfoldable pub device_span_taken :
    NetworkSpanner → Executor → Event → Option (ℕ × NetDeviceSpan) → Handled
unfolding start_device_span is_for_host push_to_host is_type
device_span_taken n executor e none =
    if not (is_type e EventType.network_enqueue)
    then finish (n, false)
    else start_device_span n executor e
device_span_taken n executor e (some (p, s)) = do
  needs (not s.base.is_pending)
  when (is_for_host s) (push_to_host n p s)
  needs (not s.base.is_pending)
  mark_span executor p
  finish (record n { last_finished_device_span = some p }, true)

unfoldable pub is_network_type : Event → Bool
unfolding is_type
is_network_type e =
    is_type e EventType.network_enqueue
    || is_type e EventType.network_dequeue
    || is_type e EventType.network_drop

unfoldable pub handel_network_event : NetworkSpanner → Executor → Event → Handled
unfolding add_to_pending device_span_taken is_network_type has_pair
handel_network_event n executor e =
    let interesting = is_interesting_node_device n.node_device_filter e.network in
    if not (is_network_type e)
    then finish (n, false)
    else if e.network.interesting_flag && not interesting
    then finish (n, true)
    else (do
      (pending, taken) ←
          add_to_pending add_to_net_device (λ s. s.base) n.current_active_device_spans e
      device_span_taken (record n { current_active_device_spans = pending }) executor e taken)

-- The handlers that the constructor registers.
unfoldable pub network_handler : EventType → Option (NetworkSpanner → Executor → Event → Handled)
unfolding handel_network_event
network_handler EventType.network_enqueue = some handel_network_event
network_handler EventType.network_dequeue = some handel_network_event
network_handler EventType.network_drop = some handel_network_event
network_handler _ = none
