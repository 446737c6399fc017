-- ===== src/Tracer/Calls.antt =====
-- Histories of calls of the Tracer, in the order in which they get its lock.
pub mod Kept
pub mod StartKept
pub mod ParentKept
pub mod History
pub mod Settled
mod Tests
use columbo.Base.{ℕ, Bool, true, false, Option, none, some, List, [], ◌∷◌, ◌++◌, get_elem?, set}
use columbo.Channel.Queue.{Executor}
use columbo.Span.{Event, Base}
use columbo.Tracer.{Heap, Span, Tracer, mark_span_as_done}
use columbo.Tracer.Outcomes.{Result, returns, aborts, exhausted, ◌>>=◌, ◌>>◌, deref}
use columbo.Tracer.Start.{
  World, resumes, Context, AddToSpan, start_span_by_parent, start_span_by_parent_pass_on_context,
  start_span, start_orphan_span,
}
use columbo.Tracer.Parent.{start_span_set_parent_context, add_parent_lazily}

-- `add_events` is what a spanner does to a span that it holds.
pub data Call : Type 0 where
  mark_done : Executor → Option ℕ → Call
  lazily : Executor → Option ℕ → Option Context → Call
  by_parent : AddToSpan → Executor → Option ℕ → Option Event → Call
  by_context : AddToSpan → Executor → Option Context → Option Event → Call
  start : AddToSpan → Executor → Option Event → Call
  set_parent : Executor → ℕ → Option Context → Call
  orphan : AddToSpan → Option Event → Call
  add_events : ℕ → Base → Call

-- `MarkSpanAsDone`, with its tests for null.
unfoldable pub mark_done_in : Executor → Option ℕ → World → Result World
unfolding mark_span_as_done
mark_done_in executor span w = do
  resumes executor
  p ← deref span
  t ← mark_span_as_done w.heap p w.tracer
  returns (record w { tracer = t })

unfoldable pub change_events : ℕ → Base → World → Result World
change_events p base w = do
  s ← deref (get_elem? w.heap.spans p)
  returns
      (record w { heap = record w.heap { spans = set w.heap.spans p (record s { base = base }) } })

abbrev pub world_of : Result (ℕ × World) → Result World
world_of r = r >>= λ (p, w). returns w

unfoldable pub step : Call → World → Result World
unfolding mark_done_in add_parent_lazily start_span_by_parent start_span_by_parent_pass_on_context
    start_span start_span_set_parent_context start_orphan_span change_events
step (mark_done executor p) w = mark_done_in executor p w
step (lazily executor p c) w = add_parent_lazily executor p c w
step (by_parent add executor p e) w = world_of (start_span_by_parent add executor p e w)
step (by_context add executor c e) w =
    world_of (start_span_by_parent_pass_on_context add executor c e w)
step (start add executor e) w = world_of (start_span add executor e w)
step (set_parent executor p c) w = start_span_set_parent_context executor p c w
step (orphan add e) w = world_of (start_orphan_span add e w)
step (add_events p base) w = change_events p base w

unfoldable pub run : List Call → World → Result World
unfolding step
run [] w = returns w
run (c ∷ cs) w = do w' ← step c w; run cs w'

-- Nothing started yet, and the first ids.
abbrev pub new_world : World
new_world = record {
  heap = record { spans = []; contexts = [] };
  tracer = record { traces = []; exported_spans = []; waiting_list = []; exporter = [] };
  next_span_id = 1;
  next_trace_id = 1;
  next_trace_context_id = 1;
}

abbrev pub to_list : Option ℕ → List ℕ
to_list none = []
to_list (some p) = p ∷ []

-- The spans that were marked as done.
abbrev pub marked_by : Call → List ℕ
marked_by (mark_done executor p) = to_list p
marked_by _ = []

abbrev pub marked : List Call → List ℕ
marked [] = []
marked (c ∷ cs) = marked_by c ++ marked cs
