-- ===== src/Tracer/Calls/Tests.antt =====
-- A span with a child and a grandchild, marked as done from the last to the first.
use columbo.Base.{ℕ, ◌≡◌, ◌≢◌, refl, Bool, true, false, Option, none, some, List, [], ◌∷◌}
use columbo.Channel.Queue.{running}
use columbo.Span.NetworkEvent.{no_network}
use columbo.Span.{EventType, Event}
use columbo.Tracer.{TraceContext, Span, Heap, Tracer, Exported, mark_span_as_done, entry}
use columbo.Tracer.Outcomes.{Result, ◌>>=◌, returns, aborts, exhausted, Ends}
use columbo.Tracer.Wait.{mark_ends}
use columbo.Tracer.Order.{InOrder}
use columbo.Tracer.PassOn.{pass_on}
use columbo.Tracer.Start.{
  World, start_span_by_parent_pass_on_context, create_pass_on_context, AddToSpan, Context, tx,
}
use columbo.Tracer.Calls.{
  Call, mark_done, lazily, by_parent, start, set_parent, orphan, run, new_world,
}
use columbo.Tracer.Calls.History.{exports-InOrder}
use columbo.Tracer.Calls.Settled.{IsSettled, marked-IsSettled}

abbrev at : ℕ → Event
at ts = record {
  type = EventType.host_post_int;
  parser_ident = 1;
  timestamp = ts;
  id = 0;
  addr = 0;
  bar = 0;
  is_posted = false;
  is_read = false;
  func = none;
  network = no_network;
}

abbrev add : AddToSpan
add e = (record { events = e ∷ []; is_pending = true }, true)

abbrev family : List Call
family =
    start add running (some (at 10))
    ∷ by_parent add running (some 0) (some (at 11))
    ∷ by_parent add running (some 1) (some (at 12))
    ∷ []

abbrev all_done : List Call
all_done =
    start add running (some (at 10))
    ∷ by_parent add running (some 0) (some (at 11))
    ∷ by_parent add running (some 1) (some (at 12))
    ∷ mark_done running (some 2)
    ∷ mark_done running (some 1)
    ∷ mark_done running (some 0)
    ∷ []

abbrev log_of : Result World → Option (List Exported)
log_of (returns w) = some w.tracer.exporter
log_of aborts = none
log_of exhausted = none

children_wait :
    log_of (
      run
        (start add running (some (at 10))
          ∷ by_parent add running (some 0) (some (at 11))
          ∷ mark_done running (some 1)
          ∷ [])
        new_world)
    ≡ some []
unfolding run
children_wait = refl

all_were_exported :
    log_of (run all_done new_world)
    ≡ some (entry 2 3 (some 2) ∷ entry 1 2 (some 1) ∷ entry 0 1 none ∷ [])
unfolding run
all_were_exported = refl

-- A span that is marked twice ends the program.
marked_twice :
    run
      (start add running (some (at 10))
        ∷ mark_done running (some 0)
        ∷ mark_done running (some 0)
        ∷ [])
      new_world
    ≡ aborts
unfolding run
marked_twice = refl

-- A root that gets a parent before it is done has to wait for it.
abbrev parent_context : Context
parent_context = record { trace_id = 1; expectation = tx; parent_id = 1; parent_start_ts = 10 }

lazy_child :
    log_of (
      run
        (start add running (some (at 10))
          ∷ start add running (some (at 11))
          ∷ lazily running (some 1) (some parent_context)
          ∷ mark_done running (some 1)
          ∷ [])
        new_world)
    ≡ some []
unfolding run
lazy_child = refl

adopted_orphan :
    log_of (
      run
        (start add running (some (at 10))
          ∷ orphan add (some (at 11))
          ∷ set_parent running 1 (some parent_context)
          ∷ mark_done running (some 0)
          ∷ mark_done running (some 1)
          ∷ [])
        new_world)
    ≡ some (entry 1 2 (some 1) ∷ entry 0 1 none ∷ [])
unfolding run
adopted_orphan = refl

exports-InOrder_example : Ends (λ w. InOrder w.tracer.exporter) (run all_done new_world)
exports-InOrder_example = exports-InOrder all_done

-- The child is marked before the root.
abbrev child_done : List Call
child_done =
    start add running (some (at 10))
    ∷ by_parent add running (some 0) (some (at 11))
    ∷ mark_done running (some 1)
    ∷ []

marked-IsSettled_example : Ends (λ w. IsSettled child_done w 1) (run child_done new_world)
marked-IsSettled_example = marked-IsSettled child_done 1 refl

-- A root, and its child and grandchild, which wait.
abbrev span_of : ℕ → ℕ → Span
span_of i c = record {
  id = i;
  base = record { events = at i ∷ []; is_pending = false };
  context = some c;
}

abbrev context_of : ℕ → ℕ → Bool → TraceContext
context_of i parent has = record {
  trace_id = 1;
  id = i;
  parent_id = parent;
  has_parent = has;
  parent_start_ts = 0;
}

abbrev waiting_heap : Heap
waiting_heap = record {
  spans = span_of 1 0 ∷ span_of 2 1 ∷ span_of 3 2 ∷ [];
  contexts = context_of 1 0 false ∷ context_of 2 1 true ∷ context_of 3 2 true ∷ [];
}

abbrev waiting_tracer : Tracer
waiting_tracer = record {
  traces = [];
  exported_spans = [];
  waiting_list = (1, 1 ∷ []) ∷ (2, 2 ∷ []) ∷ [];
  exporter = [];
}

both_exported :
    mark_span_as_done waiting_heap 0 waiting_tracer
    ≡ returns (record {
      traces = [];
      exported_spans = 3 ∷ 2 ∷ 1 ∷ [];
      waiting_list = [];
      exporter = entry 2 3 (some 2) ∷ entry 1 2 (some 1) ∷ entry 0 1 none ∷ [];
    })
unfolding mark_span_as_done
both_exported = refl

mark_ends_example : mark_span_as_done waiting_heap 0 waiting_tracer ≢ exhausted
mark_ends_example = mark_ends waiting_heap 0 waiting_tracer

-- A context of another spanner, for a trace that the tracer does not have.
abbrev of_other : Context
of_other = record { trace_id = 3; expectation = tx; parent_id = 9; parent_start_ts = 5 }

pass_on_example :
    (start_span_by_parent_pass_on_context add running (some of_other) (some (at 20)) new_world
      >>= λ (p, w). create_pass_on_context tx w.heap (some p))
    ≡ returns (record { trace_id = 3; expectation = tx; parent_id = 1; parent_start_ts = 20 })
pass_on_example =
    pass_on tx add of_other (at 20) new_world
      (record { trace = refl; parent = refl; id = refl; fresh = λ t e. absurd (cc e) }) refl
