-- ===== src/Channel/Client/Order.antt =====
-- Values come out of a channel in the order in which they went in, and none is lost or made up.
use columbo.Base.{
  ◌≡◌, refl, sym, subst, ◌∙◌, ap, Bool, true, List, [], ◌∷◌, ◌++◌, append-nil, append_assoc, Option,
  none, some, arith, length,
}
use columbo.Channel.Queue.{
  Outcome, waits, aborts, throws, returns, Done, Call, Reply, flag, value, Queue, Kind, promised,
}
use columbo.Channel.Client.{Implements, History, Event, blocked, replied, noted, run, after}
use columbo.Channel.Client.Refine.{run_refines, seen_history}

-- The value that a reply took out of the channel.
abbrev pub delivered_by : {A : Type 0} → Reply A → List A
delivered_by (value (some x)) = x ∷ []
delivered_by _ = []

module _ {W A : Type 0} where
  -- The value that a call put into the channel.
  abbrev pub accepted_by : Call W A → Reply A → List A
  accepted_by (Call.push x) (flag true) = x ∷ []
  accepted_by (Call.try_push x) (flag true) = x ∷ []
  accepted_by _ _ = []

  abbrev pub accepted : List (Event W A) → List A
  accepted [] = []
  accepted (blocked call ∷ es) = accepted es
  accepted (replied call r ∷ es) = accepted_by call r ++ accepted es

  abbrev pub delivered : List (Event W A) → List A
  delivered [] = []
  delivered (blocked call ∷ es) = delivered es
  delivered (replied call r ∷ es) = delivered_by r ++ delivered es

  -- The predicate of a `TryPopOnTrue` leaves the value as it is.
  abbrev pub IsPure : Call W A → Type 0
  IsPure (Call.try_pop_on_true p) = (x : A) → (p x).1 ≡ x
  IsPure _ = Unit {0}

  abbrev pub ArePure : List (Call W A) → Type 0
  ArePure [] = Unit {0}
  ArePure (call ∷ calls) = IsPure call × ArePure calls

  abbrev Moves : Queue A → Call W A → Outcome (Done (Queue A) (Reply A)) → Type 0
  Moves q call waits = Unit {0}
  Moves q call aborts = ⊥
  Moves q call throws = ⊥
  Moves q call (returns d) =
      q.items ++ accepted_by call d.result ≡ delivered_by d.result ++ d.chan.items

module _ (W : Type 0) {A : Type 0} where
  pop-Moves :
      (k : Kind) (q : Queue A) (xs : List A)
      → q.items ≡ xs
      → (p : A → Bool × A) → IsPure {W = W} (Call.try_pop_on_true p)
      → Moves {W = W} q Call.pop (promised {W = W} k q Call.pop)
        × Moves {W = W} q Call.try_pop (promised {W = W} k q Call.try_pop)
        × Moves {W = W} q (Call.try_pop_on_true p) (promised {W = W} k q (Call.try_pop_on_true p))
  pop-Moves k q [] e p pure = ground arith
  pop-Moves k q (x ∷ xs) e p pure = ground (arith, pure x, append-nil xs)

module _ {W A : Type 0} where
  promised-Moves :
      (k : Kind) (q : Queue A) (call : Call W A) → IsPure call → Moves q call (promised k q call)
  promised-Moves k q (Call.push x) pure = ground (arith, append-nil q.items)
  promised-Moves k q (Call.try_push x) pure = ground (arith, append-nil q.items)
  promised-Moves k q Call.pop pure = (pop-Moves W k q q.items refl (λ x. (true, x)) (λ x. refl)).0
  promised-Moves k q Call.try_pop pure =
      (pop-Moves W k q q.items refl (λ x. (true, x)) (λ x. refl)).1
  promised-Moves k q (Call.try_pop_on_true p) pure = (pop-Moves W k q q.items refl p pure).2
  promised-Moves k q (Call.wait_till_value w) pure = ground (arith, append-nil q.items)
  promised-Moves k q Call.close pure = append-nil q.items
  promised-Moves k q Call.poisen pure = append-nil q.items
  promised-Moves k q Call.is_empty pure = append-nil q.items
  promised-Moves k q Call.get_size pure = append-nil q.items

  abbrev Conserves : List A → Option (History W A (Queue A)) → Type 0
  Conserves xs none = ⊥
  Conserves xs (some h) = xs ++ accepted h.events ≡ delivered h.events ++ h.last.items

  noted-Conserves :
      (xs ys : List A) (call : Call W A) (r : Reply A) (o : Option (History W A (Queue A)))
      → xs ++ accepted_by call r ≡ delivered_by r ++ ys
      → Conserves ys o
      → Conserves xs (noted (replied call r) o)
  noted-Conserves xs ys call r none m c = c
  noted-Conserves xs ys call r (some h) m c =
      sym (append_assoc xs (accepted_by call r) (accepted h.events))
      ∙ ap (λ t. t ++ accepted h.events) m
      ∙ append_assoc (delivered_by r) ys (accepted h.events)
      ∙ ap (◌++◌ (delivered_by r)) c
      ∙ sym (append_assoc (delivered_by r) (delivered h.events) h.last.items)

  blocked-Conserves :
      (xs : List A) (call : Call W A) (o : Option (History W A (Queue A)))
      → Conserves xs o
      → Conserves xs (noted (blocked call) o)
  blocked-Conserves xs call none c = c
  blocked-Conserves xs call (some h) c = c

  after-Conserves :
      (q : Queue A) (call : Call W A) (go : Queue A → Option (History W A (Queue A)))
      (o : Outcome (Done (Queue A) (Reply A)))
      → ((d : Queue A) → Conserves d.items (go d))
      → Moves q call o
      → Conserves q.items (after q call go o)
  after-Conserves q call go waits h m = blocked-Conserves q.items call (go q) (h q)
  after-Conserves q call go aborts h m = absurd m
  after-Conserves q call go throws h m = absurd m
  after-Conserves q call go (returns d) h m =
      noted-Conserves q.items d.chan.items call d.result (go d.chan) m (h d.chan)

  run-Conserves :
      (k : Kind) (calls : List (Call W A)) (q : Queue A)
      → ArePure calls
      → Conserves q.items (run (promised k) q calls)
  unfolding run
  run-Conserves k [] q pure = append-nil q.items
  run-Conserves k (call ∷ calls) q pure =
      after-Conserves q call (λ d. run (promised k) d calls) (promised k q call)
        (λ d. run-Conserves k calls d pure.1) (promised-Moves k q call pure.0)

module _ {W A : Type 0} (I : Implements W A) where
  open I use {State, step, kind, view, IsValid, Fits}

  -- Every history of a valid channel runs to its end, with no failed assert, and what the channel
  -- held and what it accepted, in order, is what it delivered and what it still holds.
  pub run_in_order :
      (c : State) (calls : List (Call W A))
      → IsValid c
      → Fits (length calls) c
      → ArePure calls
      → (h : History W A State) × (run step c calls ≡ some h)
        × ((view c).items ++ accepted h.events ≡ delivered h.events ++ (view h.last).items)
  run_in_order c calls v f pure = ending (run step c calls) refl
    where
      at :
          (r : Option (History W A State))
          → run step c calls ≡ r
          → Conserves (view c).items (seen_history view r)
      at r e =
          subst (Conserves (view c).items)
            (sym (run_refines I calls c v f) ∙ ap (seen_history view) e)
            (run-Conserves (kind c) calls (view c) pure)

      ending :
          (r : Option (History W A State))
          → run step c calls ≡ r
          → (h : History W A State) × (run step c calls ≡ some h)
            × ((view c).items ++ accepted h.events ≡ delivered h.events ++ (view h.last).items)
      ending none e = absurd (at none e)
      ending (some h) e = (h, e, at (some h) e)
