-- ===== src/Tracer/Calls/History.antt =====
-- What holds after any history of calls of a new Tracer.
use columbo.Base.{
  ℕ, ◌≡◌, refl, sym, ◌∙◌, ap, ap₂, subst, true, Option, none, some, List, [], ◌∷◌, ◌⊎◌, inl, inr,
  arith,
}
use columbo.Channel.Queue.{Executor}
use columbo.Tracer.{Tracer, contains, find, mark_span_as_done}
use columbo.Tracer.Outcomes.{Result, Ends, Ends->>=, Ends-map}
use columbo.Tracer.Ends.{Ready}
use columbo.Tracer.Mark.{Accounted, HasLeft, ParentOf, Handled, DoneAs}
use columbo.Tracer.Exports.{Steps-Grows}
use columbo.Tracer.Wait.{mark_span_as_done-DoneAs}
use columbo.Tracer.Order.{ids, InOrder, IsLogged, Steps-IsLogged, Steps-Accounted}
use columbo.Tracer.Start.{World}
use columbo.Tracer.Calls.{
  Call, mark_done, lazily, by_parent, by_context, start, set_parent, orphan, add_events,
  mark_done_in, world_of, step, run, new_world, to_list, marked_by,
}
use columbo.Tracer.Calls.Kept.{Kept, KeptWith}
use columbo.Tracer.Calls.StartKept.{
  resumed, start_span_by_parent-Kept, start_by_context-Kept, start_span-Kept,
  start_orphan_span-Kept,
}
use columbo.Tracer.Calls.ParentKept.{
  add_parent_lazily-Kept, start_span_set_parent_context-Kept, change_events-Kept,
}

abbrev pub IsAccounted : World → ℕ → ℕ → Type 0
IsAccounted w k p = Accounted w.heap w.tracer k p

abbrev pub IsExported : World → ℕ → Type 0
IsExported w p = HasLeft w.heap w.tracer p

-- Between two worlds: a span that is exported, or waits for the parent that it had in the first.
abbrev pub HandledFrom : World → World → ℕ → Type 0
HandledFrom w w' p = IsExported w' p ⊎ ((k : ℕ) × ParentOf w.heap p k × IsAccounted w' k p)

-- What a call that marks these spans comes to.
abbrev pub Stepped : List ℕ → World → World → Type 0
Stepped ps w w' =
    (IsLogged w.tracer → IsLogged w'.tracer)
    × (Ready [] w.tracer → Ready [] w'.tracer)
    × ((k p : ℕ) → IsAccounted w k p → IsAccounted w' k p)
    × ((p : ℕ) → IsExported w p → IsExported w' p)
    × ((p : ℕ) → contains ps p ≡ true → HandledFrom w w' p)

Kept-IsLogged : (w w' : World) → Kept w w' → IsLogged w.tracer → IsLogged w'.tracer
Kept-IsLogged w w' k l = record {
  same = ap ids k.exporter ∙ l.same ∙ sym k.exported;
  in_order = subst InOrder (sym k.exporter) l.in_order;
}

Kept-Ready : (w w' : World) → Kept w w' → Ready [] w.tracer → Ready [] w'.tracer
Kept-Ready w w' k r j ps f c =
    r j ps (ap (λ m. find m j) (sym k.waiting) ∙ f) (ap (λ is. contains is j) (sym k.exported) ∙ c)

Kept-IsAccounted : (w w' : World) → Kept w w' → (j p : ℕ) → IsAccounted w j p → IsAccounted w' j p
Kept-IsAccounted w w' k j p (s, e, inl c) =
    let (s', e', i) = k.ids p s e in (s', e', inl (ap₂ contains k.exported i ∙ c))
Kept-IsAccounted w w' k j p (s, e, inr (ps, f, c)) =
    let (s', e', i) = k.ids p s e in (s', e', inr (ps, ap (λ m. find m j) k.waiting ∙ f, c))

Kept-IsExported : (w w' : World) → Kept w w' → (p : ℕ) → IsExported w p → IsExported w' p
Kept-IsExported w w' k p (s, e, c) =
    let (s', e', i) = k.ids p s e in (s', e', ap₂ contains k.exported i ∙ c)

Kept-Stepped : (w w' : World) → Kept w w' → Stepped [] w w'
Kept-Stepped w w' k = (
  Kept-IsLogged w w' k,
  Kept-Ready w w' k,
  Kept-IsAccounted w w' k,
  Kept-IsExported w w' k,
  λ p c. absurd (cc c),
)

world_of-Stepped :
    (w : World) (r : Result (ℕ × World)) → Ends (KeptWith w) r → Ends (Stepped [] w) (world_of r)
world_of-Stepped w r k = Ends->>= (KeptWith w) (Stepped [] w) r _ k (λ x a. Kept-Stepped w x.1 a)

only_one : (p q : ℕ) → contains (p ∷ []) q ≡ true → p ≡ q
only_one p q c = ground arith

Handled-From :
    (w : World) (p : ℕ) (t : Tracer)
    → Handled w.heap t p
    → HandledFrom w (record w { tracer = t }) p
Handled-From w p t (inl left) = inl left
Handled-From w p t (inr (k, (s, e, f), waits)) = inr (k, (s, e, f), (s, e, inr waits))

done_step :
    (w : World) (p : ℕ) (t : Tracer)
    → DoneAs w.heap p w.tracer t
    → Stepped (p ∷ []) w (record w { tracer = t })
done_step w p t (st, ready, here) = (
  Steps-IsLogged st,
  ready,
  λ k q a. Steps-Accounted k q st a,
  λ q (s, e, c). (s, e, Steps-Grows st s.id c),
  λ q c. subst (HandledFrom w (record w { tracer = t })) (only_one p q c) (Handled-From w p t here),
)

mark_done_in-Stepped :
    (executor : Executor) (span : Option ℕ) (w : World)
    → Ends (Stepped (to_list span) w) (mark_done_in executor span w)
unfolding mark_done_in
mark_done_in-Stepped executor none w = resumed (Stepped [] w) executor _ tt
mark_done_in-Stepped executor (some p) w = resumed (Stepped (p ∷ []) w) executor _ (
    Ends->>= (DoneAs w.heap p w.tracer) (Stepped (p ∷ []) w) (mark_span_as_done w.heap p w.tracer) _
      (mark_span_as_done-DoneAs w.heap p w.tracer) (done_step w p))

pub step-Stepped : (c : Call) (w : World) → Ends (Stepped (marked_by c) w) (step c w)
unfolding step
step-Stepped (mark_done executor p) w = mark_done_in-Stepped executor p w
step-Stepped (lazily executor p c) w =
    Ends-map (Kept w) (Stepped [] w) _ (add_parent_lazily-Kept executor p c w) (Kept-Stepped w)
step-Stepped (by_parent add executor p e) w =
    world_of-Stepped w _ (start_span_by_parent-Kept add executor p e w)
step-Stepped (by_context add executor c e) w =
    world_of-Stepped w _ (start_by_context-Kept add executor c e w)
step-Stepped (start add executor e) w = world_of-Stepped w _ (start_span-Kept add executor e w)
step-Stepped (set_parent executor p c) w =
    Ends-map (Kept w) (Stepped [] w) _ (start_span_set_parent_context-Kept executor p c w)
      (Kept-Stepped w)
step-Stepped (orphan add e) w = world_of-Stepped w _ (start_orphan_span-Kept add e w)
step-Stepped (add_events p base) w =
    Ends-map (Kept w) (Stepped [] w) _ (change_events-Kept p base w) (Kept-Stepped w)

-- An invariant of the calls holds after any of them.
pub run_keeps :
    (P : World → Type 0)
    → ((c : Call) (w w' : World) → Stepped (marked_by c) w w' → P w → P w')
    → (calls : List Call) (w : World) → P w
    → Ends P (run calls w)
unfolding run
run_keeps P keep [] w p = p
run_keeps P keep (c ∷ cs) w p =
    Ends->>= (Stepped (marked_by c) w) P (step c w) _ (step-Stepped c w)
      (λ w' st. run_keeps P keep cs w' (keep c w w' st p))

-- Whatever calls a new Tracer gets, they come to an end, and if none of them ends the program: no span was
-- exported twice, every span that was exported has a valid id, and each that had a parent when it was exported was
-- exported behind that parent.
pub exports-InOrder :
    (calls : List Call) → Ends (λ w. InOrder w.tracer.exporter) (run calls new_world)
exports-InOrder calls =
    Ends-map (λ w. IsLogged w.tracer) (λ w. InOrder w.tracer.exporter) (run calls new_world)
      (run_keeps (λ w. IsLogged w.tracer) (λ c w w' st. st.0) calls new_world
        (record { same = refl; in_order = tt }))
      (λ w l. l.in_order)
