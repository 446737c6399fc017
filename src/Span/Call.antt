-- ===== src/Span/Call.antt =====
-- HostCallSpan (include/analytics/span.h, source/analytics/span.cpp), with the sets of functions of the trace
-- environment (source/env/traceEnvironment.cc) that it asks.
use columbo.Base.{
  ℕ, Bool, true, false, ◌||◌, not, Option, none, some, List, [], ◌∷◌, ◌==◌, if◌then◌else◌,
}
use columbo.Span.{EventType, Event, is_type, Base, new_base, is_set, is_potential_add, push_back}

-- The pointers to the names of the functions that begin a system call, and that send and receive.
pub record TraceEnvironment : Type 0 where
  pub sys_entry : List ℕ
  pub kernel_tx : List ℕ
  pub driver_tx : List ℕ
  pub kernel_rx : List ℕ
  pub driver_rx : List ℕ

abbrev pub set_contains : List ℕ → ℕ → Bool
set_contains [] func = false
set_contains (f ∷ fs) func = f == func || set_contains fs func

-- `GetCallFunc`, and a set that is asked for it.
unfoldable pub get_call_func : Event → Option ℕ
get_call_func e = if not (is_type e EventType.host_call) then none else e.func

abbrev pub indicates : List ℕ → Option ℕ → Bool
indicates set none = false
indicates set (some func) = set_contains set func

pub record HostCallSpan : Type 0 where
  pub base : Base
  pub call_span_entry : Option Event
  pub syscall_return : Option Event
  pub kernel_transmit : Bool
  pub driver_transmit : Bool
  pub kernel_receive : Bool
  pub driver_receive : Bool
  pub is_fragmented : Bool

abbrev pub new_host_call : Bool → HostCallSpan
new_host_call fragmented = record {
  base = new_base;
  call_span_entry = none;
  syscall_return = none;
  kernel_transmit = false;
  driver_transmit = false;
  kernel_receive = false;
  driver_receive = false;
  is_fragmented = fragmented;
}

unfoldable pub is_sys_entry : TraceEnvironment → Event → Bool
unfolding get_call_func
is_sys_entry env e = indicates env.sys_entry (get_call_func e)

abbrev pub back : List Event → Option Event
back [] = none
back (e ∷ []) = some e
back (e ∷ f ∷ es) = back (f ∷ es)

-- A second entry ends the span; `none` is `back` of no events.
abbrev pub end_call : HostCallSpan → Option Event → Option (HostCallSpan × Bool)
end_call s none = none
end_call s (some last) = some (
  record s {
    base = record { events = s.base.events; is_pending = false };
    syscall_return = some last;
    is_fragmented = false;
  },
  false,
)

abbrev pub sys_entry_call : HostCallSpan → Event → Option (HostCallSpan × Bool)
sys_entry_call s e =
    if s.is_fragmented || is_set s.call_span_entry
    then end_call s (back s.base.events)
    else some (record s { call_span_entry = some e; base = push_back s.base e true }, true)

-- Which of the four flags a call sets.
unfoldable pub mark_call : TraceEnvironment → HostCallSpan → Event → HostCallSpan
unfolding get_call_func
mark_call env s e =
    if indicates env.kernel_tx (get_call_func e)
    then record s { kernel_transmit = true }
    else if indicates env.driver_tx (get_call_func e)
    then record s { driver_transmit = true }
    else if indicates env.kernel_rx (get_call_func e)
    then record s { kernel_receive = true }
    else if indicates env.driver_rx (get_call_func e)
    then record s { driver_receive = true }
    else s

abbrev pub pushed_call : HostCallSpan → Event → HostCallSpan
pushed_call s e = record s { base = push_back s.base e s.base.is_pending }

unfoldable pub add_to_host_call :
    TraceEnvironment → HostCallSpan → Option Event → Option (HostCallSpan × Bool)
unfolding is_sys_entry mark_call
add_to_host_call env s none = some (s, false)
add_to_host_call env s (some e) =
    if not (is_potential_add s.base e) || not (is_type e EventType.host_call)
    then some (s, false)
    else if is_sys_entry env e
    then sys_entry_call s e
    else some (pushed_call (mark_call env s e) e, true)

-- `MarkAsDone`.
unfoldable pub mark_as_done : HostCallSpan → HostCallSpan
mark_as_done s = record s {
  is_fragmented =
      s.is_fragmented || not (is_set s.call_span_entry) || not (is_set s.syscall_return);
  base = record { events = s.base.events; is_pending = false };
}
