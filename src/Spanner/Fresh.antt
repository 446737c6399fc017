-- ===== src/Spanner/Fresh.antt =====
-- The tracer makes a new object for a span that it starts, and takes none away.
use columbo.Base.{
  ℕ, zero, suc, ◌≡◌, refl, ◌≤◌, ◌<◌, ◌∷◌, Bool, Option, some, List, [], get_elem?, length,
  length-append, arith,
}
use columbo.Channel.Queue.{Executor}
use columbo.Span.{Event, Base}
use columbo.Tracer.{Span, get_valid_id, is_valid_id, mark_span_as_done}
use columbo.Tracer.Outcomes.{Result, Ends, Ends->>=, Ends-check, Ends-deref, Ends-map}
use columbo.Tracer.Wait.{mark_span_as_done-DoneAs}
use columbo.Tracer.Mark.{DoneAs}
use columbo.Tracer.Start.{
  World, Context, copy_span, AddToSpan, create_span, add_span_to_trace_if_trace_exists,
  register_create_context_parent, start_span_by_parent_internal, start_span_by_parent,
  start_span_by_parent_pass_on_context, start_span, new_trace, insert_trace, get_valid_trace_id,
  get_starting_ts,
}
use columbo.Tracer.Calls.{
  Call, mark_done, lazily, start, set_parent, orphan, add_events, mark_done_in, world_of, step,
}
use columbo.Tracer.Calls.Kept.{Kept, KeptWith, KeepsIds, add_span_to_trace_if_trace_exists-Kept}
use columbo.Tracer.Calls.StartKept.{
  resumed, get_valid_trace_id-IsFinite, get_valid_id-IsFinite, new_trace-IsFinite,
  insert_trace-Kept, registered_world, start_span_by_parent-Kept, start_by_context-Kept,
  start_span-Kept, start_orphan_span-Kept,
}
use columbo.Tracer.Calls.ParentKept.{
  add_parent_lazily-Kept, start_span_set_parent_context-Kept, change_events-Kept,
}
use columbo.Spanner.{Start, first, copies, begin}

has_last : (x : Span) (xs : List Span) → (s : Span) × (get_elem? (x ∷ xs) (length xs) ≡ some s)
has_last x [] = (x, refl)
has_last x (y ∷ ys) = has_last y ys

has_place : (ss : List Span) (p : ℕ) (s : Span) → get_elem? ss p ≡ some s → p < length ss
has_place [] p s e = absurd (cc e)
has_place (x ∷ ss) zero s e = omega arith
has_place (x ∷ ss) (suc p) s e = omega (arith, has_place ss p s e)

pub keeps_length : (ss ss' : List Span) → KeepsIds ss ss' → length ss ≤ length ss'
keeps_length [] ss' k = omega arith
keeps_length (x ∷ xs) ss' k =
    let (s, e) = has_last x xs in
    let (s', e', i) = k (length xs) s e in omega (arith, has_place ss' (length xs) s' e')

-- Where a new span is, and that there are more spans now.
abbrev pub IsNew : World → ℕ × World → Type 0
IsNew w (p, w') = (p ≡ length w.heap.spans) × (suc p ≤ length w'.heap.spans)

IsNew-then : (w w2 w3 : World) (p : ℕ) → IsNew w (p, w2) → Kept w2 w3 → IsNew w (p, w3)
IsNew-then w w2 w3 p (at, more) k =
    let longer = keeps_length w2.heap.spans w3.heap.spans k.ids in (at, omega arith)

create_span-IsNew :
    (added : Base × Bool) (c : ℕ) (w : World) → Ends (IsNew w) (create_span added c w)
unfolding create_span
create_span-IsNew added c w = Ends-check (IsNew w) added.1 _ (λ ok. (
  refl,
  omega (
    arith,
    length-append w.heap.spans
        (record { id = w.next_span_id; base = added.0; context = some c } ∷ []),
  ),
))

register-same :
    (k i ts : ℕ) (w : World)
    → Ends (λ r. r.1.heap.spans ≡ w.heap.spans) (register_create_context_parent k i ts w)
unfolding register_create_context_parent
register-same k i ts w =
    Ends-check _ (is_valid_id k) _ (λ v. Ends-check _ (is_valid_id i) _ (λ v'. refl))

IsNew-same : (w w1 : World) (r : ℕ × World) → w1.heap.spans ≡ w.heap.spans → IsNew w1 r → IsNew w r
IsNew-same w w1 r e n = rw e at n

internal-IsNew :
    (k i ts : ℕ) (added : Base × Bool) (w : World)
    → Ends (IsNew w) (start_span_by_parent_internal k i ts added w)
unfolding start_span_by_parent_internal
internal-IsNew k i ts added w = Ends-check (IsNew w) (is_valid_id k) _ (λ v.
    Ends-check (IsNew w) (is_valid_id i) _ (λ v'.
      Ends->>= (λ r. r.1.heap.spans ≡ w.heap.spans) (IsNew w)
        (register_create_context_parent k i ts w) _ (register-same k i ts w)
        (λ (c, w1) a.
          Ends->>= (IsNew w1) (IsNew w) (create_span added c w1) _ (create_span-IsNew added c w1)
            (λ (p, w2) b.
              Ends->>= (Kept w2) (IsNew w) (add_span_to_trace_if_trace_exists k p w2) _
                (add_span_to_trace_if_trace_exists-Kept k p w2)
                (λ w3 d. IsNew-same w w1 (p, w3) a (IsNew-then w1 w2 w3 p b d))))))

by_parent-IsNew :
    (add : AddToSpan) (executor : Executor) (parent : Option ℕ) (e : Option Event) (w : World)
    → Ends (IsNew w) (start_span_by_parent add executor parent e w)
unfolding start_span_by_parent
by_parent-IsNew add executor parent e w = resumed (IsNew w) executor _ (
    Ends-deref (IsNew w) e _ (λ event ee. Ends-deref (IsNew w) parent _ (λ p ep.
      Ends-deref (IsNew w) (get_elem? w.heap.spans p) _ (λ s es.
        Ends->>= (λ k. Unit {0}) (IsNew w) (get_valid_trace_id w.heap s) _
          (get_valid_trace_id-IsFinite w.heap s)
          (λ k u.
            Ends->>= (λ k. Unit {0}) (IsNew w) (get_valid_id s) _ (get_valid_id-IsFinite s)
              (λ i u'. internal-IsNew k i (get_starting_ts s) (add event) w))))))

by_context-IsNew :
    (add : AddToSpan) (executor : Executor) (c : Option Context) (e : Option Event) (w : World)
    → Ends (IsNew w) (start_span_by_parent_pass_on_context add executor c e w)
unfolding start_span_by_parent_pass_on_context
by_context-IsNew add executor c e w = resumed (IsNew w) executor _ (
    Ends-deref (IsNew w) c _ (λ con ec.
      Ends-deref (IsNew w) e _
        (λ event ee. internal-IsNew con.trace_id con.parent_id con.parent_start_ts (add event) w)))

first-IsNew :
    (add : AddToSpan) (executor : Executor) (e : Option Event) (w : World)
    → Ends (IsNew w) (start_span add executor e w)
unfolding start_span
first-IsNew add executor e w = resumed (IsNew w) executor _ (
    Ends-deref (IsNew w) e _ (λ event ee.
      let w1 = registered_world w w.next_trace_id in
      Ends->>= (IsNew w) (IsNew w) (create_span (add event) _ w1) _
        (create_span-IsNew (add event) _ w1)
        (λ (p, w2) b.
          Ends->>= (λ t. Unit {0}) (IsNew w) (new_trace w.next_trace_id p w2.heap) _
            (new_trace-IsFinite w.next_trace_id p w2.heap)
            (λ trace u.
              Ends->>= (Kept w2) (IsNew w) (insert_trace trace w2) _ (insert_trace-Kept trace w2)
                (λ w3 d. IsNew-then w w2 w3 p b d)))))

copy_span-IsNew : (p : ℕ) (w : World) → Ends (IsNew w) (copy_span p w)
unfolding copy_span
copy_span-IsNew p w = Ends-deref (IsNew w) (get_elem? w.heap.spans p) _ (λ other e.
    (refl, omega (arith, length-append w.heap.spans (record other { id = w.next_span_id } ∷ []))))

pub begin-IsNew : (s : Start) (w : World) → Ends (IsNew w) (begin s w)
unfolding begin
begin-IsNew (Start.by_parent add executor p e) w = by_parent-IsNew add executor p e w
begin-IsNew (Start.by_context add executor c e) w = by_context-IsNew add executor c e w
begin-IsNew (first add executor e) w = first-IsNew add executor e w
begin-IsNew (copies p) w = copy_span-IsNew p w

abbrev pub NotFewer : World → World → Type 0
NotFewer w w' = length w.heap.spans ≤ length w'.heap.spans

Kept-NotFewer : (w w' : World) → Kept w w' → NotFewer w w'
Kept-NotFewer w w' k = keeps_length w.heap.spans w'.heap.spans k.ids

world_of-NotFewer :
    (w : World) (r : Result (ℕ × World)) → Ends (KeptWith w) r → Ends (NotFewer w) (world_of r)
world_of-NotFewer w r k = Ends->>= (KeptWith w) (NotFewer w) r _ k (λ x a. Kept-NotFewer w x.1 a)

mark_done_in-NotFewer :
    (executor : Executor) (p : Option ℕ) (w : World) → Ends (NotFewer w) (mark_done_in executor p w)
unfolding mark_done_in
mark_done_in-NotFewer executor p w = resumed (NotFewer w) executor _ (
    Ends-deref (NotFewer w) p _ (λ q e.
      Ends->>= (DoneAs w.heap q w.tracer) (NotFewer w) (mark_span_as_done w.heap q w.tracer) _
        (mark_span_as_done-DoneAs w.heap q w.tracer) (λ t d. omega arith)))

pub step-NotFewer : (c : Call) (w : World) → Ends (NotFewer w) (step c w)
unfolding step
step-NotFewer (mark_done executor p) w = mark_done_in-NotFewer executor p w
step-NotFewer (lazily executor p c) w =
    Ends-map (Kept w) (NotFewer w) _ (add_parent_lazily-Kept executor p c w) (Kept-NotFewer w)
step-NotFewer (Call.by_parent add executor p e) w =
    world_of-NotFewer w _ (start_span_by_parent-Kept add executor p e w)
step-NotFewer (Call.by_context add executor c e) w =
    world_of-NotFewer w _ (start_by_context-Kept add executor c e w)
step-NotFewer (start add executor e) w = world_of-NotFewer w _ (start_span-Kept add executor e w)
step-NotFewer (set_parent executor p c) w =
    Ends-map (Kept w) (NotFewer w) _ (start_span_set_parent_context-Kept executor p c w)
      (Kept-NotFewer w)
step-NotFewer (orphan add e) w = world_of-NotFewer w _ (start_orphan_span-Kept add e w)
step-NotFewer (add_events p base) w =
    Ends-map (Kept w) (NotFewer w) _ (change_events-Kept p base w) (Kept-NotFewer w)
