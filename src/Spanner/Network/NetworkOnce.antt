-- ===== src/Spanner/Network/NetworkOnce.antt =====
-- A NetworkSpanner (source/analytics/networkSpanner.cpp) marks no span as done twice.
use columbo.Base.{
  ℕ, ◌≡◌, sym, Bool, true, false, ◌∷◌, ◌&&◌, not, Option, none, some, List, [], subst,
}
use columbo.Channel.Queue.{Executor}
use columbo.Span.{EventType, Event, is_type}
use columbo.Span.NetworkEvent.{
  from_adapter, cosim_net_device, is_boundary_type, is_device_type, has_pair,
  is_interesting_node_device,
}
use columbo.Span.NetDevice.{NetDeviceSpan, add_to_net_device}
use columbo.Tracer.{contains}
use columbo.Tracer.Start.{Context, Expectation, rx, create_pass_on_context}
use columbo.Tracer.Outcomes.{Result, returns, aborts, exhausted}
use columbo.Spanner.{
  Queue, Prog, consume_all, finish, ◌>>◌, needs, when, computed, to_host_at, from_host_at,
  push_propagate_context, mark_span,
}
use columbo.Spanner.Nic.{is_expectation}
use columbo.Spanner.Network.{
  NetworkSpanner, new_network_spanner, activated, context_to_connect_with, start_device_span,
  is_for_host, push_to_host, device_span_taken, is_network_type, handel_network_event,
  network_handler,
}
use columbo.Spanner.Runs.{Safe, Safe->>=}
use columbo.Spanner.Keeps.{
  Holds, add_new, at_end, needs-Safe, unless_empty-Safe, if-Safe, pop_propagate_context-Safe,
  push_propagate_context-Safe,
}
use columbo.Spanner.Consume.{IsSafe, consume_all-Safe}
use columbo.Spanner.Iterate.{pointers, taken_by, Handed, add_to_pending-Safe}
use columbo.Spanner.Once.{pointers-++}

-- The active spans may be marked.
abbrev pub IsReady : NetworkSpanner → List ℕ → List ℕ → Type 0
IsReady n own ms = Holds (pointers n.current_active_device_spans) own ms

abbrev IsReadyAfter : NetworkSpanner × Bool → List ℕ → List ℕ → Type 0
IsReadyAfter r own ms = IsReady r.0 own ms

computed-IsSafe :
    {A : Type 0} (Q : A → List ℕ → List ℕ → Type 0) (r : Result A) (own ms : List ℕ)
    → ((a : A) → Q a own ms)
    → Safe Q (computed r) own ms
computed-IsSafe Q (returns a) own ms s = s a
computed-IsSafe Q aborts own ms s = tt
computed-IsSafe Q exhausted own ms s = tt

context_to_connect_with-Safe :
    (Q : Context → List ℕ → List ℕ → Type 0) (n : NetworkSpanner) (e : Event) (own ms : List ℕ)
    → ((c : Context) → Q c own ms)
    → Safe Q (context_to_connect_with n e) own ms
unfolding context_to_connect_with
context_to_connect_with-Safe Q n e own ms s =
    if-Safe Q (is_boundary_type e.network from_adapter) _ _ own ms
      (needs-Safe Q (is_device_type e.network cosim_net_device) _ own ms (
        needs-Safe Q (has_pair n.from_host_channels e.network.node e.network.device) _ own ms (
          pop_propagate_context-Safe Q (from_host_at e.network.node e.network.device) _ own ms
            (λ c. needs-Safe Q (is_expectation c rx) (finish c) own ms (s c)))))
      (unless_empty-Safe Q n.last_finished_device_span _ own ms
        (λ last h. computed-IsSafe Q (create_pass_on_context rx h (some last)) own ms s))

activated-IsReady :
    (n : NetworkSpanner) (p : ℕ) (e : Event) (own ms : List ℕ)
    → (contains own p ≡ false)
    → IsReady n own ms
    → IsReady (activated n p e) (p ∷ own) ms
activated-IsReady n p e own ms new h =
    let ps = pointers n.current_active_device_spans in
    subst (λ qs. Holds qs (p ∷ own) ms) (sym (pointers-++ n.current_active_device_spans _))
      (at_end ps (p ∷ own) p ms (add_new ps own p ms new h))

start_device_span-Safe :
    (n : NetworkSpanner) (executor : Executor) (e : Event) (own ms : List ℕ)
    → IsReady n own ms
    → Safe IsReadyAfter (start_device_span n executor e) own ms
unfolding start_device_span
start_device_span-Safe n executor e own ms h =
    if-Safe IsReadyAfter (not e.network.interesting_flag) _ _ own ms
      (if-Safe IsReadyAfter
        (is_interesting_node_device n.node_device_filter e.network
          && is_device_type e.network cosim_net_device)
        _ _ own ms (λ p new. activated-IsReady n p e own ms new h) h)
      (Safe->>= (λ c own' ms'. IsReady n own' ms') IsReadyAfter (context_to_connect_with n e) _ own
        ms (context_to_connect_with-Safe (λ c own' ms'. IsReady n own' ms') n e own ms (λ c. h))
        (λ c own' ms' h' p new. activated-IsReady n p e own' ms' new h'))

guarded_push-Safe :
    {B : Type 0} (Q : B → List ℕ → List ℕ → Type 0) (a b : Bool) (exp : Expectation) (to : Queue)
    (p : ℕ) (m : Prog B) (own ms : List ℕ)
    → Safe Q m own ms
    → Safe Q ((do needs a; needs b; push_propagate_context exp to p) >> m) own ms
guarded_push-Safe Q true true exp to p m own ms s =
    push_propagate_context-Safe Q exp to p m own ms s
guarded_push-Safe Q true false exp to p m own ms s = tt
guarded_push-Safe Q false b exp to p m own ms s = tt

when-Safe :
    {B : Type 0} (Q : B → List ℕ → List ℕ → Type 0) (c : Bool) (k : Prog (Unit {0})) (m : Prog B)
    (own ms : List ℕ)
    → Safe Q (k >> m) own ms
    → Safe Q m own ms
    → Safe Q (when c k >> m) own ms
when-Safe Q true k m own ms s t = s
when-Safe Q false k m own ms s t = t

taken-Safe :
    (n : NetworkSpanner) (executor : Executor) (p : ℕ) (s : NetDeviceSpan) (pending : Bool)
    (own ms : List ℕ)
    → Handed add_to_net_device
        (λ s. s.base)
        (pointers n.current_active_device_spans)
        (some (p, pending))
        own
        ms
    → Safe IsReadyAfter
        (do
          needs (not pending)
          when (is_for_host s) (push_to_host n p s)
          needs (not pending)
          mark_span executor p
          finish (record n { last_finished_device_span = some p }, true))
        own
        ms
unfolding push_to_host
taken-Safe n executor p s true own ms h = tt
taken-Safe n executor p s false own ms h =
    let m : Prog (NetworkSpanner × Bool) =
      mark_span executor p >> finish (record n { last_finished_device_span = some p }, true) in
    when-Safe IsReadyAfter (is_for_host s) (push_to_host n p s) m own ms
      (guarded_push-Safe IsReadyAfter s.ips_set (has_pair n.to_host_channels s.node s.device) rx
        (to_host_at s.node s.device) p m own ms h)
      h

device_span_taken-Safe :
    (n : NetworkSpanner) (executor : Executor) (e : Event) (taken : Option (ℕ × NetDeviceSpan))
    (own ms : List ℕ)
    → Handed add_to_net_device
        (λ s. s.base)
        (pointers n.current_active_device_spans)
        (taken_by add_to_net_device (λ s. s.base) taken)
        own
        ms
    → Safe IsReadyAfter (device_span_taken n executor e taken) own ms
unfolding device_span_taken
device_span_taken-Safe n executor e none own ms h =
    if-Safe IsReadyAfter (not (is_type e EventType.network_enqueue)) _ _ own ms h
      (start_device_span-Safe n executor e own ms h)
device_span_taken-Safe n executor e (some (p, s)) own ms h =
    taken-Safe n executor p s s.base.is_pending own ms h

handel_network_event-Safe :
    (n : NetworkSpanner) (executor : Executor) (e : Event) (own ms : List ℕ)
    → IsReady n own ms
    → Safe IsReadyAfter (handel_network_event n executor e) own ms
unfolding handel_network_event
handel_network_event-Safe n executor e own ms h =
    let interesting = is_interesting_node_device n.node_device_filter e.network in
    if-Safe IsReadyAfter (not (is_network_type e)) _ _ own ms h (
      if-Safe IsReadyAfter (e.network.interesting_flag && not interesting) _ _ own ms h (
        add_to_pending-Safe add_to_net_device (λ s. s.base) IsReadyAfter
          n.current_active_device_spans e _ own ms h
          (λ pending taken given.
            device_span_taken-Safe (record n { current_active_device_spans = pending }) executor e
              taken own ms given)))

network_handler-IsSafe : (t : EventType) → IsSafe IsReady (network_handler t)
unfolding network_handler
network_handler-IsSafe EventType.network_enqueue = handel_network_event-Safe
network_handler-IsSafe EventType.network_dequeue = handel_network_event-Safe
network_handler-IsSafe EventType.network_drop = handel_network_event-Safe
network_handler-IsSafe _ = tt

pub network-Safe :
    (from_host to_host filter : List (ℕ × ℕ)) (executor : Executor) (values : List (Option Event))
    → Safe IsReady
        (consume_all network_handler executor values (new_network_spanner from_host to_host filter))
        []
        []
network-Safe from_host to_host filter executor values =
    consume_all-Safe IsReady network_handler network_handler-IsSafe executor values
      (new_network_spanner from_host to_host filter) [] [] (tt, λ p c. absurd (cc c))
