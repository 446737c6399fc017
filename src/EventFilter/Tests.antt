-- ===== src/EventFilter/Tests.antt =====
-- The filters of include/events/event-filter.h in a pipeline.
use columbo.Base.{ℕ, true, false, some, List, [], ◌∷◌}
use columbo.Pipeline.{Pipeline}
use columbo.Span.NetworkEvent.{no_network}
use columbo.Span.{EventType, Event}
use columbo.EventFilter.{Filter, event_type_filter, event_timestamp_filter, host_call_func_filter}

abbrev call_at : ℕ → ℕ → Event
call_at time function = record {
  type = EventType.host_call;
  parser_ident = 1;
  timestamp = time;
  id = 0;
  addr = 0;
  bar = 0;
  is_posted = false;
  is_read = false;
  func = some function;
  network = no_network;
}

abbrev three_calls : List Event
three_calls = call_at 5 1 ∷ call_at 15 2 ∷ call_at 16 1 ∷ []

-- Calls between 10 and 20, but not those in function 2.
abbrev late_calls : List Filter
late_calls =
    event_timestamp_filter (record { lower_bound = 10; upper_bound = 20 } ∷ [])
    ∷ host_call_func_filter true (2 ∷ [])
    ∷ event_type_filter (EventType.host_call ∷ []) false
    ∷ []
