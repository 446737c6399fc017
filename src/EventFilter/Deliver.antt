-- ===== src/EventFilter/Deliver.antt =====
-- What a pipeline of the filters of include/events/event-filter.h delivers.
use columbo.Base.{Bool, true, ◌&&◌, List, [], ◌∷◌, if◌then◌else◌}
use columbo.Pipeline.{Handler, Pipeline}
use columbo.Span.{Event}
use columbo.EventFilter.{Filter, passes, as_handler}

-- The events that pass a test, in order.
abbrev pub keep : (Event → Bool) → List Event → List Event
keep p [] = []
keep p (e ∷ es) = let more = keep p es in if p e then e ∷ more else more

abbrev pub all_pass : List Filter → Event → Bool
all_pass [] e = true
all_pass (f ∷ fs) e = passes f e && all_pass fs e

abbrev pub handlers : List Filter → List (Handler Event (Unit {0}))
handlers [] = []
handlers (f ∷ fs) = as_handler f ∷ handlers fs
