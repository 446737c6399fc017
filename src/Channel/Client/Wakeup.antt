-- ===== src/Channel/Client/Wakeup.antt =====
-- Who has to be woken, and what closing and poisening do. A waiter tries again when it is notified.
use columbo.Base.{
  subst, ltb, ℕ, ◌≡◌, ◌≢◌, refl, sym, ◌∙◌, ap, Bool, true, false, List, [], ◌∷◌, Option, none, some,
  arith, length, ◌⊎◌, inl, inr,
}
use columbo.Channel.Queue.{
  Ensures, Outcome, waits, aborts, throws, returns, Done, Call, Reply, Queue, Kind, promised,
  has_room, seen,
}
use columbo.Channel.Client.{Implements}

module _ {W A : Type 0} where
  -- Why a call waits: there is no room for its value, or no value for it.
  abbrev IsStuck : Kind → Queue A → Call W A → Type 0
  IsStuck k q (Call.push x) =
      (q.closed ≡ false) × (q.poisened ≡ false) × (has_room k.bound q.items ≡ false)
  IsStuck k q Call.pop = (q.closed ≡ false) × (q.poisened ≡ false) × (q.items ≡ [])
  IsStuck k q (Call.wait_till_value w) = (q.closed ≡ false) × (q.poisened ≡ false) × (q.items ≡ [])
  IsStuck k q _ = ⊥

  IsStuck-of_waits :
      (k : Kind) (q : Queue A) (xs : List A)
      → q.items ≡ xs
      → (call : Call W A) → promised k q call ≡ waits
      → IsStuck k q call
  IsStuck-of_waits k q xs i (Call.push x) e = ground arith
  IsStuck-of_waits k q xs i (Call.try_push x) e = ground arith
  IsStuck-of_waits k q [] i Call.pop e = ground arith
  IsStuck-of_waits k q (x ∷ xs) i Call.pop e = ground arith
  IsStuck-of_waits k q xs i Call.try_pop e = ground arith
  IsStuck-of_waits k q xs i (Call.try_pop_on_true p) e = ground arith
  IsStuck-of_waits k q [] i (Call.wait_till_value w) e = ground arith
  IsStuck-of_waits k q (x ∷ xs) i (Call.wait_till_value w) e = ground arith
  IsStuck-of_waits k q xs i Call.close e = cc
  IsStuck-of_waits k q xs i Call.poisen e = cc
  IsStuck-of_waits k q xs i Call.is_empty e = cc
  IsStuck-of_waits k q xs i Call.get_size e = cc

  waits_of_stuck :
      (k : Kind) (q : Queue A) (call : Call W A) → IsStuck k q call → promised k q call ≡ waits
  waits_of_stuck k q (Call.push x) s = ground arith
  waits_of_stuck k q (Call.try_push x) s = elim s [ ]
  waits_of_stuck k q Call.pop s = ground arith
  waits_of_stuck k q Call.try_pop s = elim s [ ]
  waits_of_stuck k q (Call.try_pop_on_true p) s = elim s [ ]
  waits_of_stuck k q (Call.wait_till_value w) s = ground arith
  waits_of_stuck k q Call.close s = elim s [ ]
  waits_of_stuck k q Call.poisen s = elim s [ ]
  waits_of_stuck k q Call.is_empty s = elim s [ ]
  waits_of_stuck k q Call.get_size s = elim s [ ]

module _ {A : Type 0} where
  -- The call leaves a stuck push stuck, or notifies.
  abbrev Wakes : Kind → Queue A → Outcome (Done (Queue A) (Reply A)) → Type 0
  Wakes k q (returns d) =
      (d.notified ≡ true)
      ⊎ ((d.chan.closed ≡ q.closed)
          × (d.chan.poisened ≡ q.poisened)
          × (length d.chan.items ≡ length q.items))
  Wakes k q _ = Unit {0}

module _ (W : Type 0) {A : Type 0} where
  pops-Wakes :
      (k : Kind) (q : Queue A) (xs : List A)
      → q.items ≡ xs
      → (p : A → Bool × A)
      → Wakes k q (promised {W = W} k q Call.pop)
        × Wakes k q (promised {W = W} k q Call.try_pop)
        × Wakes k q (promised {W = W} k q (Call.try_pop_on_true p))
  pops-Wakes k q [] e p = ground arith
  pops-Wakes k q (x ∷ xs) e p = ground (arith, ap length e)

module _ {W A : Type 0} where
  promised-Wakes : (k : Kind) (q : Queue A) (call : Call W A) → Wakes k q (promised k q call)
  promised-Wakes k q (Call.push x) = ground arith
  promised-Wakes k q (Call.try_push x) = ground arith
  promised-Wakes k q Call.pop = (pops-Wakes W k q q.items refl (λ x. (true, x))).0
  promised-Wakes k q Call.try_pop = (pops-Wakes W k q q.items refl (λ x. (true, x))).1
  promised-Wakes k q (Call.try_pop_on_true p) = (pops-Wakes W k q q.items refl p).2
  promised-Wakes k q (Call.wait_till_value w) = ground arith
  promised-Wakes k q Call.close = inl refl
  promised-Wakes k q Call.poisen = inl refl
  promised-Wakes k q Call.is_empty = inr (refl, refl, refl)
  promised-Wakes k q Call.get_size = inr (refl, refl, refl)

module _ {A : Type 0} where
  has_room_same :
      (b : Option ℕ) (xs ys : List A)
      → length ys ≡ length xs
      → has_room b xs ≡ false
      → has_room b ys ≡ false
  has_room_same none xs ys e h = h
  has_room_same (some n) xs ys e h = ap (λ m. ltb m n) e ∙ h

  empty_same : (xs ys : List A) → length ys ≡ length xs → xs ≡ [] → ys ≡ []
  empty_same xs [] e h = refl
  empty_same xs (y ∷ ys) e h = absurd (omega (arith, ap length h))

module _ {W A : Type 0} where
  IsStuck-same :
      (k : Kind) (q r : Queue A) (call : Call W A)
      → r.closed ≡ q.closed
      → r.poisened ≡ q.poisened
      → length r.items ≡ length q.items
      → IsStuck k q call
      → IsStuck k r call
  IsStuck-same k q r (Call.push x) c p l s =
      (c ∙ s.0, p ∙ s.1, has_room_same k.bound q.items r.items l s.2)
  IsStuck-same k q r Call.pop c p l s = (c ∙ s.0, p ∙ s.1, empty_same q.items r.items l s.2)
  IsStuck-same k q r (Call.wait_till_value w) c p l s =
      (c ∙ s.0, p ∙ s.1, empty_same q.items r.items l s.2)
  IsStuck-same k q r (Call.try_push x) c p l s = elim s [ ]
  IsStuck-same k q r Call.try_pop c p l s = elim s [ ]
  IsStuck-same k q r (Call.try_pop_on_true f) c p l s = elim s [ ]
  IsStuck-same k q r Call.close c p l s = elim s [ ]
  IsStuck-same k q r Call.poisen c p l s = elim s [ ]
  IsStuck-same k q r Call.is_empty c p l s = elim s [ ]
  IsStuck-same k q r Call.get_size c p l s = elim s [ ]

  Wakes-waiter :
      (k : Kind) (q : Queue A) (other : Call W A) (d : Done (Queue A) (Reply A))
      → promised k q other ≡ waits
      → Wakes k q (returns d)
      → promised k d.chan other ≢ waits
      → d.notified ≡ true
  Wakes-waiter k q other d w (inl n) free = n
  Wakes-waiter k q other d w (inr (c, p, l)) free = absurd (
      free (
        waits_of_stuck k d.chan other
          (IsStuck-same k q d.chan other c p l (IsStuck-of_waits k q q.items refl other w))))

waits_of_seen :
    {A S T : Type 0} (f : S → T) (o : Outcome (Done S (Reply A))) → seen f o ≡ waits → o ≡ waits
waits_of_seen f waits e = refl
waits_of_seen f aborts e = cc
waits_of_seen f throws e = cc
waits_of_seen f (returns d) e = cc

module _ {W A : Type 0} (I : Implements W A) where
  open I use {State, step, kind, view, IsValid, Fits, refines, keeps}

  -- No wakeup is lost: a call after which another, waiting call need not wait any more has notified
  -- the waiters.
  pub no_lost_wakeup :
      (c : State) (call other : Call W A) (d : Done State (Reply A))
      → IsValid c
      → Fits 1 c
      → step c other ≡ waits
      → step c call ≡ returns d
      → step d.chan other ≢ waits
      → d.notified ≡ true
  no_lost_wakeup c call other d v f w e free =
      Wakes-waiter (kind c) (view c) other
        (record { chan = view d.chan; result = d.result; notified = d.notified })
        (sym (refines c other v) ∙ ap (seen view) w)
        (subst (Wakes (kind c) (view c)) (sym (refines c call v) ∙ ap (seen view) e)
          (promised-Wakes (kind c) (view c) call))
        λ s. free (
          waits_of_seen view (step d.chan other)
            (refines d.chan other kept.0 ∙ ap (λ k. promised k (view d.chan) other) kept.2 ∙ s))
    where
      kept : IsValid d.chan × Fits 0 d.chan × (kind d.chan ≡ kind c)
      kept = subst (Ensures (λ x. IsValid x × Fits 0 x × (kind x ≡ kind c))) e (keeps 0 c call v f)
