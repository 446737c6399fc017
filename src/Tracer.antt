-- ===== src/Tracer.antt =====
-- The Tracer (include/analytics/tracer.h): spans and their contexts as objects that are shared, and how spans are
-- exported, each after its parent.
pub mod Outcomes
pub mod Exports
pub mod Done
pub mod Mark
pub mod Wait
pub mod Start
pub mod PassOn
pub mod Parent
pub mod Calls
pub mod Order
pub mod Ends
use columbo.Base.{
  ℕ, zero, suc, ◌+◌, Bool, true, false, ◌&&◌, ◌||◌, not, Option, none, some, List, [], ◌∷◌, ◌++◌,
  ◌==◌, leb, if◌then◌else◌, get_elem?, set, length,
}
use columbo.Span.{Event, Base}
use columbo.Tracer.Outcomes.{Result, returns, aborts, exhausted, ◌>>=◌, ◌>>◌, check, deref}

-- TraceContext (include/analytics/traceContext.h).
pub record TraceContext : Type 0 where
  pub trace_id : ℕ
  pub id : ℕ
  pub parent_id : ℕ
  pub has_parent : Bool
  pub parent_start_ts : ℕ

-- What the tracer reads of an EventSpan (include/analytics/span.h).
pub record Span : Type 0 where
  pub id : ℕ
  pub base : Base
  pub context : Option ℕ

-- The objects that `std::shared_ptr`s point to; a pointer is a place in its list.
pub record Heap : Type 0 where
  pub spans : List Span
  pub contexts : List TraceContext

-- `TraceEnvironment::kInvalidId` and `IsValidId`.
abbrev pub is_valid_id : ℕ → Bool
is_valid_id ident = not (ident == 0)

-- `TraceContext::HasParent` with its assert.
unfoldable pub context_has_parent : TraceContext → Result Bool
context_has_parent c = do
  check ((c.has_parent && not (c.parent_id == 0)) || (not c.has_parent && c.parent_id == 0))
  returns c.has_parent

-- `EventSpan::HasParent` and `GetParentId` of a span with this context.
unfoldable pub has_parent_in : Heap → Option ℕ → Result Bool
unfolding context_has_parent
has_parent_in h none = returns false
has_parent_in h (some p) = do c ← deref (get_elem? h.contexts p); context_has_parent c

unfoldable pub has_parent : Heap → Span → Result Bool
unfolding has_parent_in
has_parent h s = has_parent_in h s.context

unfoldable pub get_parent_id_in : Heap → Option ℕ → Result ℕ
unfolding context_has_parent
get_parent_id_in h none = returns 0
get_parent_id_in h (some p) = do
  c ← deref (get_elem? h.contexts p)
  parent ← context_has_parent c
  returns (if parent then c.parent_id else 0)

unfoldable pub get_parent_id : Heap → Span → Result ℕ
unfolding get_parent_id_in
get_parent_id h s = get_parent_id_in h s.context

unfoldable pub get_valid_parent_id : Heap → Span → Result ℕ
unfolding get_parent_id
get_valid_parent_id h s = do
  parent_id ← get_parent_id h s
  check (is_valid_id parent_id)
  returns parent_id

unfoldable pub get_valid_id : Span → Result ℕ
get_valid_id s = do check (is_valid_id s.id); returns s.id

-- The spans of a trace by their ids (include/analytics/trace.h).
pub record Trace : Type 0 where
  pub ident : ℕ
  pub parent_span : ℕ
  pub spans : List (ℕ × ℕ)

-- A span that was handed to the exporter, and the id of the parent that it had then.
pub record Exported : Type 0 where
  pub span : ℕ
  pub id : ℕ
  pub parent : Option ℕ

-- `exporter` is what the exporter was given, the last span first.
pub record Tracer : Type 0 where
  pub traces : List (ℕ × Trace)
  pub exported_spans : List ℕ
  pub waiting_list : List (ℕ × List ℕ)
  pub exporter : List Exported

-- `std::set::contains`, and what the maps do: `find`, `erase`, and `push_back` on the list of a key.
abbrev pub contains : List ℕ → ℕ → Bool
contains [] k = false
contains (x ∷ xs) k = x == k || contains xs k

module _ {ℓ} {A : Type ℓ} where
  abbrev pub find : List (ℕ × A) → ℕ → Option A
  find [] k = none
  find ((j, v) ∷ m) k = if j == k then some v else find m k

  abbrev pub erase : List (ℕ × A) → ℕ → List (ℕ × A)
  erase [] k = []
  erase ((j, v) ∷ m) k = if j == k then erase m k else (j, v) ∷ erase m k

abbrev pub push_back : ℕ → ℕ → List (ℕ × List ℕ) → List (ℕ × List ℕ)
push_back k v [] = (k, v ∷ []) ∷ []
push_back k v ((j, vs) ∷ m) = if j == k then (j, vs ++ v ∷ []) ∷ m else (j, vs) ∷ push_back k v m

unfoldable pub insert_exported_span : ℕ → Tracer → Result Tracer
insert_exported_span span_id t = do
  check (is_valid_id span_id)
  check (not (contains t.exported_spans span_id))
  returns (record t { exported_spans = span_id ∷ t.exported_spans })

unfoldable pub was_parent_exported : Heap → Span → Tracer → Result Bool
unfolding has_parent get_valid_parent_id
was_parent_exported h child t = do
  parent ← has_parent h child
  elim parent [
    | false ↦ returns true
    | true ↦ do
      parent_id ← get_valid_parent_id h child
      returns (contains t.exported_spans parent_id)
  ]

unfoldable pub mark_span_as_waiting_for_parent : Heap → ℕ → Tracer → Result Tracer
unfolding has_parent get_valid_parent_id
mark_span_as_waiting_for_parent h p t = do
  span ← deref (get_elem? h.spans p)
  parent ← has_parent h span
  elim parent [
    | false ↦ returns t
    | true ↦ do
      parent_id ← get_valid_parent_id h span
      returns (record t { waiting_list = push_back parent_id p t.waiting_list })
  ]

abbrev pub entry : ℕ → ℕ → Option ℕ → Exported
entry p span_id parent = record { span = p; id = span_id; parent = parent }

-- `exporter_->ExportSpan`.
abbrev pub export_span : Exported → Tracer → Tracer
export_span e t = record t { exporter = e ∷ t.exporter }

-- `MarkSpanAsExported`, the assert behind both calls of it, and `ExportSpan`.
unfoldable pub export_marked : Heap → ℕ → Span → Tracer → Result Tracer
unfolding has_parent get_parent_id insert_exported_span
export_marked h p span t = do
  t' ← insert_exported_span span.id t
  parent ← has_parent h span
  parent_id ← get_parent_id h span
  check (not parent || contains t'.exported_spans parent_id)
  returns (export_span (entry p span.id (if parent then some parent_id else none)) t')

-- The loop of `ExportWaitingForParentVec` over its copy of the waiting spans; `again` is the recursive call.
unfoldable pub export_waiters :
    Heap → (ℕ → Tracer → Result Tracer) → List ℕ → Tracer → Result Tracer
unfolding get_valid_parent_id export_marked
export_waiters h again [] t = returns t
export_waiters h again (p ∷ waiters) t = do
  waiter ← deref (get_elem? h.spans p)
  parent_id ← get_valid_parent_id h waiter
  check (contains t.exported_spans parent_id)
  t1 ← export_marked h p waiter t
  t2 ← again p t1
  export_waiters h again waiters t2

-- `ExportWaitingForParentVec`, on fuel for the depth of the calls.
unfoldable pub export_waiting_for_parent_vec : ℕ → Heap → ℕ → Tracer → Result Tracer
unfolding export_waiters
export_waiting_for_parent_vec zero h parent t = exhausted
export_waiting_for_parent_vec (suc fuel) h parent t = do
  span ← deref (get_elem? h.spans parent)
  elim (find t.waiting_list span.id) [
    | none ↦ returns t
    | some waiters ↦ do
      t' ← export_waiters h (export_waiting_for_parent_vec fuel h) waiters t
      returns (record t' { waiting_list = erase t'.waiting_list span.id })
  ]

abbrev pub get_trace : Tracer → ℕ → Option Trace
get_trace t trace_id = find t.traces trace_id

unfoldable pub remove_trace : ℕ → Tracer → Result Tracer
remove_trace trace_id t = elim (get_trace t trace_id) [
  | none ↦ aborts
  | some trace ↦ returns (record t { traces = erase t.traces trace_id })
]

abbrev pub all_exported : List ℕ → List (ℕ × ℕ) → Bool
all_exported exported [] = true
all_exported exported ((span_id, span) ∷ spans) =
    contains exported span_id && all_exported exported spans

unfoldable pub safe_to_delete_trace : Tracer → ℕ → Bool
safe_to_delete_trace t trace_id = elim (get_trace t trace_id) [
  | none ↦ false
  | some trace ↦ all_exported t.exported_spans trace.spans
]

abbrev pub count_waiting : List (ℕ × List ℕ) → ℕ
count_waiting [] = 0
count_waiting ((k, spans) ∷ m) = length spans + count_waiting m

-- The fuel: a call for each waiting span, and the first.
abbrev pub enough : Tracer → ℕ
enough t = suc (count_waiting t.waiting_list)

unfoldable pub delete_trace_if_safe : ℕ → Tracer → Result Tracer
unfolding safe_to_delete_trace remove_trace
delete_trace_if_safe trace_id t =
    if safe_to_delete_trace t trace_id then remove_trace trace_id t else returns t

-- `MarkSpanAsDone` under the lock, of a pointer that is not null: of a span whose parent was exported, and of one
-- that has to wait.
unfoldable pub export_done : Heap → ℕ → Span → ℕ → Tracer → Result Tracer
unfolding export_marked export_waiting_for_parent_vec delete_trace_if_safe
export_done h p span trace_id t = do
  t1 ← export_marked h p span t
  t2 ← export_waiting_for_parent_vec (enough t1) h p t1
  delete_trace_if_safe trace_id t2

unfoldable pub wait_done : Heap → ℕ → Span → Tracer → Result Tracer
unfolding has_parent mark_span_as_waiting_for_parent
wait_done h p span t = do
  parent ← has_parent h span
  check parent
  mark_span_as_waiting_for_parent h p t

unfoldable pub mark_span_as_done : Heap → ℕ → Tracer → Result Tracer
unfolding was_parent_exported export_done wait_done
mark_span_as_done h p t = do
  span ← deref (get_elem? h.spans p)
  c ← deref span.context
  context ← deref (get_elem? h.contexts c)
  exported ← was_parent_exported h span t
  if exported then export_done h p span context.trace_id t else wait_done h p span t
