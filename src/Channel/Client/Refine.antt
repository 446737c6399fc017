-- ===== src/Channel/Client/Refine.antt =====
-- No history of calls tells a channel from the promised queue.
use columbo.Base.{ℕ, suc, ◌≡◌, refl, ◌∙◌, ap, List, [], ◌∷◌, Option, none, some, length}
use columbo.Channel.Queue.{
  Outcome, waits, aborts, throws, returns, Done, Call, Reply, Queue, Kind, promised, seen, Ensures,
  Ensures-map,
}
use columbo.Channel.Client.{Implements, History, Event, blocked, replied, noted, run, after}

abbrev pub seen_history :
    {W A S T : Type 0} → (S → T) → Option (History W A S) → Option (History W A T)
seen_history view none = none
seen_history view (some h) = some (record { events = h.events; last = view h.last })

seen-noted :
    {W A S T : Type 0} (view : S → T) (e : Event W A) (r : Option (History W A S))
    → seen_history view (noted e r) ≡ noted e (seen_history view r)
seen-noted view e none = refl
seen-noted view e (some h) = refl

module _ {W A : Type 0} (I : Implements W A) where
  open I use {State, step, kind, view, IsValid, Fits, refines, keeps, fits_fewer}

  abbrev Good : Kind → ℕ → State → Type 0
  Good k n c = IsValid c × Fits n c × (kind c ≡ k)

  after_refines :
      (k : Kind) (n : ℕ) (c : State) (call : Call W A) (go : State → Option (History W A State))
      (go' : Queue A → Option (History W A (Queue A))) (o : Outcome (Done State (Reply A)))
      → ((d : State) → Good k n d → seen_history view (go d) ≡ go' (view d))
      → Good k n c
      → Ensures (Good k n) o
      → seen_history view (after c call go o) ≡ after (view c) call go' (seen view o)
  after_refines k n c call go go' waits h g e =
      seen-noted view (blocked call) (go c) ∙ ap (noted (blocked call)) (h c g)
  after_refines k n c call go go' aborts h g e = refl
  after_refines k n c call go go' throws h g e = refl
  after_refines k n c call go go' (returns d) h g e =
      seen-noted view (replied call d.result) (go d.chan)
      ∙ ap (noted (replied call d.result)) (h d.chan e)

  Good-step :
      (k : Kind) (n : ℕ) (c : State) (call : Call W A)
      → Good k (suc n) c
      → Ensures (Good k n) (step c call)
  Good-step k n c call (v, f, e) =
      Ensures-map (λ d (v', f', e'). (v', f', e' ∙ e)) (step c call) (keeps n c call v f)

  run_refines' :
      (k : Kind) (calls : List (Call W A)) (c : State)
      → Good k (length calls) c
      → seen_history view (run step c calls) ≡ run (promised k) (view c) calls
  unfolding run
  run_refines' k [] c g = refl
  run_refines' k (call ∷ calls) c g =
      after_refines k (length calls) c call (λ d. run step d calls) (λ q. run (promised k) q calls)
        (step c call) (λ d h. run_refines' k calls d h) (g.0, fits_fewer _ c g.1, g.2)
        (Good-step k (length calls) c call g)
      ∙ ap (after (view c) call (λ q. run (promised k) q calls))
          (refines c call g.0 ∙ ap (λ j. promised j (view c) call) g.2)

  -- Every history of calls of a valid channel, whether calls block or return, gives the events that
  -- the promised queue gives, and leaves the channel holding that queue.
  pub run_refines :
      (calls : List (Call W A)) (c : State)
      → IsValid c
      → Fits (length calls) c
      → seen_history view (run step c calls) ≡ run (promised (kind c)) (view c) calls
  run_refines calls c v f = run_refines' (kind c) calls c (v, f, refl)
