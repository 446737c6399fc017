-- ===== src/Channel/Client/Shutdown.antt =====
-- What remains of a channel that was closed or poisened.
use columbo.Base.{
  ◌≡◌, refl, sym, ◌∙◌, ap, subst, Bool, true, List, [], ◌∷◌, ◌++◌, Option, none, some, arith,
  length,
}
use columbo.Channel.Queue.{
  Outcome, waits, aborts, throws, returns, Done, Call, Reply, Queue, Kind, promised,
}
use columbo.Channel.Client.{Implements, History, Event, blocked, replied, noted, run, after}
use columbo.Channel.Client.Refine.{run_refines, seen_history}
use columbo.Channel.Client.Order.{accepted, delivered, accepted_by, delivered_by}

module _ {W A : Type 0} where
  -- The calls that were blocked.
  abbrev pub blocked_calls : List (Event W A) → List (Call W A)
  blocked_calls [] = []
  blocked_calls (blocked call ∷ es) = call ∷ blocked_calls es
  blocked_calls (replied call r ∷ es) = blocked_calls es

  abbrev Refuses :
      (Queue A → Type 0)
      → (Reply A → Type 0)
      → Call W A
      → Outcome (Done (Queue A) (Reply A))
      → Type 0
  Refuses P R call (returns d) = P d.chan × (accepted_by call d.result ≡ []) × R d.result
  Refuses P R call _ = ⊥

module _ (W : Type 0) {A : Type 0} where
  pops-closed :
      (k : Kind) (q : Queue A) (xs : List A)
      → q.items ≡ xs
      → q.closed ≡ true
      → (p : A → Bool × A)
      → Refuses {W = W}
          (λ r. r.closed ≡ true)
          (λ r. Unit {0})
          Call.pop
          (promised {W = W} k q Call.pop)
        × Refuses {W = W}
            (λ r. r.closed ≡ true)
            (λ r. Unit {0})
            Call.try_pop
            (promised {W = W} k q Call.try_pop)
        × Refuses {W = W}
            (λ r. r.closed ≡ true)
            (λ r. Unit {0})
            (Call.try_pop_on_true p)
            (promised {W = W} k q (Call.try_pop_on_true p))
  pops-closed k q [] e c p = ground arith
  pops-closed k q (x ∷ xs) e c p = ground arith

module _ {W A : Type 0} where
  promised-closed :
      (k : Kind) (q : Queue A) (call : Call W A)
      → q.closed ≡ true
      → Refuses (λ r. r.closed ≡ true) (λ r. Unit {0}) call (promised k q call)
  promised-closed k q (Call.push x) c = ground arith
  promised-closed k q (Call.try_push x) c = ground arith
  promised-closed k q Call.pop c = (pops-closed W k q q.items refl c (λ x. (true, x))).0
  promised-closed k q Call.try_pop c = (pops-closed W k q q.items refl c (λ x. (true, x))).1
  promised-closed k q (Call.try_pop_on_true p) c = (pops-closed W k q q.items refl c p).2
  promised-closed k q (Call.wait_till_value w) c = ground arith
  promised-closed k q Call.close c = (refl, refl, tt)
  promised-closed k q Call.poisen c = (c, refl, tt)
  promised-closed k q Call.is_empty c = (c, refl, tt)
  promised-closed k q Call.get_size c = (c, refl, tt)

  promised-poisened :
      (k : Kind) (q : Queue A) (call : Call W A)
      → q.poisened ≡ true
      → Refuses (λ r. r.poisened ≡ true) (λ r. delivered_by r ≡ []) call (promised k q call)
  promised-poisened k q (Call.push x) c = ground arith
  promised-poisened k q (Call.try_push x) c = ground arith
  promised-poisened k q Call.pop c = ground arith
  promised-poisened k q Call.try_pop c = ground arith
  promised-poisened k q (Call.try_pop_on_true p) c = ground arith
  promised-poisened k q (Call.wait_till_value w) c = ground arith
  promised-poisened k q Call.close c = (c, refl, refl)
  promised-poisened k q Call.poisen c = (refl, refl, refl)
  promised-poisened k q Call.is_empty c = (c, refl, refl)
  promised-poisened k q Call.get_size c = (c, refl, refl)

  -- No event blocks or accepts a value, and every reply is as `R` says.
  abbrev Refused : (Reply A → Type 0) → List (Event W A) → Type 0
  Refused R [] = Unit {0}
  Refused R (blocked call ∷ es) = ⊥
  Refused R (replied call r ∷ es) = (accepted_by call r ≡ []) × R r × Refused R es

  abbrev RefusedAll : (Reply A → Type 0) → {S : Type 0} → Option (History W A S) → Type 0
  RefusedAll R none = ⊥
  RefusedAll R (some h) = Refused R h.events

  noted-Refused :
      (R : Reply A → Type 0) (call : Call W A) (r : Reply A) (o : Option (History W A (Queue A)))
      → accepted_by call r ≡ []
      → R r
      → RefusedAll R o
      → RefusedAll R (noted (replied call r) o)
  noted-Refused R call r none a b c = c
  noted-Refused R call r (some h) a b c = (a, b, c)

  after-Refused :
      (P : Queue A → Type 0) (R : Reply A → Type 0) (q : Queue A) (call : Call W A)
      (go : Queue A → Option (History W A (Queue A))) (o : Outcome (Done (Queue A) (Reply A)))
      → ((d : Queue A) → P d → RefusedAll R (go d))
      → Refuses P R call o
      → RefusedAll R (after q call go o)
  after-Refused P R q call go waits h m = absurd m
  after-Refused P R q call go aborts h m = absurd m
  after-Refused P R q call go throws h m = absurd m
  after-Refused P R q call go (returns d) h m =
      noted-Refused R call d.result (go d.chan) m.1 m.2 (h d.chan m.0)

  run-Refused :
      (P : Queue A → Type 0) (R : Reply A → Type 0) (k : Kind)
      → ((q : Queue A) (call : Call W A) → P q → Refuses P R call (promised k q call))
      → (calls : List (Call W A)) (q : Queue A) → P q
      → RefusedAll R (run (promised k) q calls)
  unfolding run
  run-Refused P R k keep [] q p = tt
  run-Refused P R k keep (call ∷ calls) q p =
      after-Refused P R q call (λ d. run (promised k) d calls) (promised k q call)
        (λ d. run-Refused P R k keep calls d) (keep q call p)

  Refused-accepted :
      (R : Reply A → Type 0) (es : List (Event W A))
      → Refused R es
      → (accepted es ≡ []) × (blocked_calls es ≡ [])
  Refused-accepted R [] f = (refl, refl)
  Refused-accepted R (blocked call ∷ es) f = absurd f
  Refused-accepted R (replied call r ∷ es) (a, b, f) =
      let rest = Refused-accepted R es f in (ap (λ t. t ++ accepted es) a ∙ rest.0, rest.1)

  Refused-delivered :
      (es : List (Event W A)) → Refused (λ r. delivered_by r ≡ []) es → delivered es ≡ []
  Refused-delivered [] f = refl
  Refused-delivered (blocked call ∷ es) f = absurd f
  Refused-delivered (replied call r ∷ es) (a, b, f) =
      ap (λ t. t ++ delivered es) b ∙ Refused-delivered es f

module _ {W A : Type 0} (I : Implements W A) where
  open I use {State, step, kind, view, IsValid, Fits}

  RefusedAll-seen :
      (R : Reply A → Type 0) (calls : List (Call W A)) (c : State) (h : History W A State)
      → IsValid c
      → Fits (length calls) c
      → run step c calls ≡ some h
      → RefusedAll R (run (promised (kind c)) (view c) calls)
      → Refused R h.events
  RefusedAll-seen R calls c h v f e r =
      subst (RefusedAll R) (sym (run_refines I calls c v f) ∙ ap (seen_history view) e) r

  -- A closed channel blocks no call and accepts no value, whatever is called on it. (It still delivers
  -- the values that it holds, in order.)
  pub closed_refuses :
      (calls : List (Call W A)) (c : State) (h : History W A State)
      → IsValid c
      → Fits (length calls) c
      → (view c).closed ≡ true
      → run step c calls ≡ some h
      → (accepted h.events ≡ []) × (blocked_calls h.events ≡ [])
  closed_refuses calls c h v f s e =
      Refused-accepted (λ r. Unit {0}) h.events
        (RefusedAll-seen (λ r. Unit {0}) calls c h v f e
          (run-Refused (λ q. q.closed ≡ true) (λ r. Unit {0}) (kind c) (promised-closed (kind c))
            calls (view c) s))

  -- A poisened channel blocks no call, accepts no value and delivers none, whatever is called on it.
  pub poisened_refuses :
      (calls : List (Call W A)) (c : State) (h : History W A State)
      → IsValid c
      → Fits (length calls) c
      → (view c).poisened ≡ true
      → run step c calls ≡ some h
      → (accepted h.events ≡ []) × (blocked_calls h.events ≡ []) × (delivered h.events ≡ [])
  poisened_refuses calls c h v f s e = (all.0, all.1, Refused-delivered h.events refused)
    where
      refused : Refused (λ r. delivered_by r ≡ []) h.events
      refused =
          RefusedAll-seen (λ r. delivered_by r ≡ []) calls c h v f e
            (run-Refused (λ q. q.poisened ≡ true) (λ r. delivered_by r ≡ []) (kind c)
              (promised-poisened (kind c)) calls (view c) s)

      all : (accepted h.events ≡ []) × (blocked_calls h.events ≡ [])
      all = Refused-accepted (λ r. delivered_by r ≡ []) h.events refused
