-- ===== src/Tracer/Calls/Settled.antt =====
-- No span that was marked as done is lost.
use columbo.Base.{
  ℕ, ◌≡◌, refl, ◌∙◌, ap, subst, Bool, true, false, some, List, [], ◌∷◌, ◌++◌, append_assoc, ◌==◌,
  get_elem?, ◌⊎◌, inl, inr, Bool-cases,
}
use columbo.Tracer.{Span, contains}
use columbo.Tracer.Mark.{ParentOf, Waits}
use columbo.Tracer.Outcomes.{
  Result, returns, aborts, exhausted, ◌>>=◌, Ends, Ends-both, Ends-map, Ends-returned,
}
use columbo.Tracer.Ends.{Ready}
use columbo.Tracer.Order.{ids, IsLogged}
use columbo.Tracer.Start.{World}
use columbo.Tracer.Calls.{Call, step, run, new_world, marked_by, marked}
use columbo.Tracer.Calls.History.{
  IsAccounted, IsExported, HandledFrom, Stepped, step-Stepped, run_keeps,
}

-- The id of the parent that a span had when one of the calls of a new Tracer marked it.
pub record MarkedUnder (calls : List Call) (p k : ℕ) : Type 0 where
  pub before : List Call
  pub call : Call
  pub behind : List Call
  pub split : calls ≡ before ++ call ∷ behind
  pub world : World
  pub ran : run before new_world ≡ returns world
  pub marks : contains (marked_by call) p ≡ true
  pub parent : ParentOf world.heap p k

-- Where a span that the calls marked as done is.
abbrev pub IsSettled : List Call → World → ℕ → Type 0
IsSettled calls w p =
    ((s : Span) × (get_elem? w.heap.spans p ≡ some s)
      × (contains (ids w.tracer.exporter) s.id ≡ true))
    ⊎ ((k : ℕ) × MarkedUnder calls p k
        × Waits w.tracer k p
        × (contains (ids w.tracer.exporter) k ≡ false))

-- The same of the ids that are marked as exported.
abbrev Held : List Call → World → ℕ → Type 0
Held calls w p = IsExported w p ⊎ ((k : ℕ) × MarkedUnder calls p k × Waits w.tracer k p)

contains_split :
    (xs ys : List ℕ) (q : ℕ)
    → contains (xs ++ ys) q ≡ true
    → (contains xs q ≡ true) ⊎ (contains ys q ≡ true)
contains_split [] ys q c = inr c
contains_split (x ∷ xs) ys q c = elim (Bool-cases (x == q)) [
  | inl same ↦ inl (rw same refl)
  | inr other ↦ rw other (contains_split xs ys q (rw other at c))
]

bind_returns :
    (m : Result World) (f : World → Result World) (w : World)
    → (m >>= f) ≡ returns w
    → (v : World) × (m ≡ returns v) × (f v ≡ returns w)
bind_returns (returns v) f w e = (v, refl, e)
bind_returns aborts f w e = absurd (cc e)
bind_returns exhausted f w e = absurd (cc e)

-- One call more at the end of a history.
run-snoc :
    (calls : List Call) (c : Call) (w w1 w2 : World)
    → run calls w ≡ returns w1
    → step c w1 ≡ returns w2
    → run (calls ++ c ∷ []) w ≡ returns w2
unfolding run
run-snoc [] c w w1 w2 e f = ap (λ m. m >>= step c >>= returns) e ∙ ap (λ m. m >>= returns) f
run-snoc (d ∷ calls) c w w1 w2 e f =
    let (v, ev, rest) = bind_returns (step d w) (run calls) w1 e in
    ap (λ m. m >>= run (calls ++ c ∷ [])) ev ∙ run-snoc calls c v w1 w2 rest f

accounted-Held :
    (calls : List Call) (w : World) (p k : ℕ)
    → MarkedUnder calls p k
    → IsAccounted w k p
    → Held calls w p
accounted-Held calls w p k m (s, e, inl c) = inl (s, e, c)
accounted-Held calls w p k m (s, e, inr waits) = inr (k, m, waits)

-- Behind the call that marks the span.
marked_now :
    (p : ℕ) (before : List Call) (c : Call) (cs : List Call) (w w' : World)
    → run before new_world ≡ returns w
    → contains (marked_by c) p ≡ true
    → HandledFrom w w' p
    → Ends (λ v. Held (before ++ c ∷ cs) v p) (run cs w')
marked_now p before c cs w w' e now (inl left) =
    Ends-map (λ v. IsExported v p) (λ v. Held (before ++ c ∷ cs) v p) (run cs w')
      (run_keeps (λ v. IsExported v p) (λ d v v' st. st.3 p) cs w' left) (λ v x. inl x)
marked_now p before c cs w w' e now (inr (k, parent, waits)) =
    Ends-map (λ v. IsAccounted v k p) (λ v. Held (before ++ c ∷ cs) v p) (run cs w')
      (run_keeps (λ v. IsAccounted v k p) (λ d v v' st. st.2 k p) cs w' waits)
      (λ v. accounted-Held (before ++ c ∷ cs) v p k (record {
        before = before;
        call = c;
        behind = cs;
        split = refl;
        world = w;
        ran = e;
        marks = now;
        parent = parent;
      }))

not_ready : (b : Bool) → (b ≡ true → false ≡ true) → b ≡ false
not_ready true r = absurd (cc (r refl))
not_ready false r = refl

run-Held :
    (p : ℕ) (before calls : List Call) (w : World)
    → run before new_world ≡ returns w
    → contains (marked calls) p ≡ true
    → Ends (λ w'. Held (before ++ calls) w' p) (run calls w)
unfolding run
run-Held p before [] w e m = absurd (cc m)
run-Held p before (c ∷ cs) w e m =
    Ends-returned (λ w'. Held (before ++ c ∷ cs) w' p) (step c w) (run cs)
      (Ends-map (Stepped (marked_by c) w) (λ w'. Unit {0}) (step c w) (step-Stepped c w)
        (λ w' st. tt))
      (λ w' ew.
        let st : Stepped (marked_by c) w w' =
          subst (Ends (Stepped (marked_by c) w)) ew (step-Stepped c w) in
        elim (contains_split (marked_by c) (marked cs) p m) [
          | inl now ↦ marked_now p before c cs w w' e now (st.4 p now)
          | inr later ↦
              subst (λ calls. Ends (λ v. Held calls v p) (run cs w'))
                (append_assoc before (c ∷ []) cs)
                (run-Held p (before ++ c ∷ []) cs w' (run-snoc before c new_world w w' e ew) later)
        ])

settled :
    (calls : List Call) (w : World) (p : ℕ)
    → IsLogged w.tracer
    → Ready [] w.tracer
    → Held calls w p
    → IsSettled calls w p
settled calls w p l r (inl (s, e, c)) = inl (s, e, ap (λ is. contains is s.id) l.same ∙ c)
settled calls w p l r (inr (k, m, (ps, f, c))) = inr (
  k,
  m,
  (ps, f, c),
  ap (λ is. contains is k) l.same ∙ not_ready (contains w.tracer.exported_spans k) (r k ps f),
)

-- A span that was marked as done in some history of calls of a new Tracer, none of which ends the program, was
-- handed to the exporter, or it is in the waiting list of the parent that it had when one of the calls marked it,
-- and that parent was not handed to the exporter.
pub marked-IsSettled :
    (calls : List Call) (p : ℕ)
    → contains (marked calls) p ≡ true
    → Ends (λ w. IsSettled calls w p) (run calls new_world)
unfolding run
marked-IsSettled calls p m =
    Ends-map (λ w. (IsLogged w.tracer × Ready [] w.tracer) × Held calls w p)
      (λ w. IsSettled calls w p) (run calls new_world)
      (Ends-both (λ w. IsLogged w.tracer × Ready [] w.tracer) (λ w. Held calls w p)
        (run calls new_world)
        (run_keeps (λ w. IsLogged w.tracer × Ready [] w.tracer)
          (λ c w w' st k. (st.0 k.0, st.1 k.1)) calls new_world
          (record { same = refl; in_order = tt }, λ k ps f c. absurd (cc f)))
        (run-Held p [] calls new_world refl m))
      (λ w k. settled calls w p k.0.0 k.0.1 k.1)
