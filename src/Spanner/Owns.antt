-- ===== src/Spanner/Owns.antt =====
-- The spans that a spanner still has to mark, counted, so that it does not matter where it holds them.
use columbo.Base.{
  ℕ, zero, suc, ◌≡◌, refl, ◌+◌, ◌≤◌, ◌∷◌, ◌++◌, Bool, true, false, not, Option, none, some, List,
  [], ◌==◌, arith, Bool-cases, inl, inr, ==→eq, ==_refl, subst, if◌then◌else◌, ap,
}
use columbo.Span.{Event, Base}
use columbo.Tracer.{contains}
use columbo.Spanner.{Prog, ◌>>=◌, iterate_add_erase, add_to_pending}
use columbo.Spanner.Runs.{MayMark, Safe}
use columbo.Spanner.Own.{among_more}
use columbo.Spanner.Iterate.{changed}

abbrev pub is_it : ℕ → ℕ → ℕ
is_it p q = if p == q then 1 else 0

abbrev pub count : ℕ → List ℕ → ℕ
count q [] = 0
count q (p ∷ ps) = is_it p q + count q ps

count_none : (q : ℕ) (ps : List ℕ) → count q ps ≡ 0 → contains ps q ≡ false
count_none q [] e = refl
count_none q (p ∷ ps) e = elim (Bool-cases (p == q)) [
  | inl same ↦ absurd (let e' = rw same at e in omega arith)
  | inr other ↦ rw other (let e' = rw other at e in count_none q ps (omega arith))
]

-- No span is held twice, or held and marked, and all of them are its own.
abbrev pub Owns : (ℕ → ℕ) → List ℕ → List ℕ → Type 0
Owns held own ms =
    (q : ℕ) → (held q + count q ms ≤ 1) × (1 ≤ held q + count q ms → contains own q ≡ true)

pub own_less :
    (f g : ℕ → ℕ) (own ms : List ℕ) → ((q : ℕ) → g q ≤ f q) → Owns f own ms → Owns g own ms
own_less f g own ms less h q =
    let (once, mine) = h q in let l = less q in (omega arith, λ some_there. mine (omega arith))

at_most_one :
    (own : List ℕ) (q c d : ℕ)
    → contains own q ≡ false
    → (1 ≤ c → contains own q ≡ true)
    → d ≤ c + 1
    → d ≤ 1
at_most_one own q zero d new mine l = omega arith
at_most_one own q (suc c) d new mine l = absurd (let b = mine (omega arith) in cc (b, new))

pub own_new :
    (f g : ℕ → ℕ) (own : List ℕ) (p : ℕ) (ms : List ℕ)
    → ((q : ℕ) → g q ≤ f q + is_it p q)
    → contains own p ≡ false
    → Owns f own ms
    → Owns g (p ∷ own) ms
own_new f g own p ms less new h q =
    let (once, mine) = h q in
    elim (Bool-cases (p == q)) [
      | inr other ↦
          let l = rw other at (less q) in
          (omega arith, λ some_there. among_more own p q (mine (omega arith)))
      | inl same ↦
          let l = rw same at (less q) in
          (
            at_most_one own q (f q + count q ms) (g q + count q ms)
                (subst (λ r. contains own r ≡ false) (==→eq p q same) new) mine (omega arith),
            λ some_there. rw same refl,
          )
    ]

pub own_mark :
    (f g : ℕ → ℕ) (own : List ℕ) (p : ℕ) (ms : List ℕ)
    → ((q : ℕ) → g q + is_it p q ≤ f q)
    → Owns f own ms
    → MayMark own ms (p ∷ []) × Owns g own (p ∷ ms)
own_mark f g own p ms less h =
    let (once, mine) = h p in
    let l = rw (==_refl p) at (less p) in
    (
      (mine (omega arith), count_none p ms (omega arith), tt),
      λ q.
          let (once', mine') = h q in
          let l' = less q in (omega arith, λ some_there. mine' (omega arith)),
    )

abbrev pub weight : Bool → ℕ → ℕ → ℕ
weight true p q = is_it p q
weight false p q = 0

pub weight_at_most : (b : Bool) (p q : ℕ) → weight b p q ≤ is_it p q
weight_at_most true p q = omega arith
weight_at_most false p q = omega arith

-- How often a list of pending spans has a pointer; a complete one in it cannot take an event any more.
module _ {S : Type 0} (add : S → Option Event → S × Bool) (base : S → Base) where
  abbrev pub held_in : List (ℕ × S) → ℕ → ℕ
  held_in [] q = 0
  held_in ((p, s) ∷ pending) q = weight (base s).is_pending p q + held_in pending q

  -- A complete span that took an event, which may be marked now.
  abbrev pub to_mark : Option (ℕ × S) → ℕ → ℕ
  to_mark none q = 0
  to_mark (some (p, s)) q = weight (not (base s).is_pending) p q

  pub held_in-++ :
      (pending more : List (ℕ × S)) (q : ℕ)
      → held_in (pending ++ more) q ≡ held_in pending q + held_in more q
  held_in-++ [] more q = omega arith
  held_in-++ ((p, s) ∷ pending) more q = omega (arith, held_in-++ pending more q)

  took_less :
      (p : ℕ) (s : S) (pending : List (ℕ × S)) (q : ℕ)
      → held_in (if (base s).is_pending then (p, s) ∷ pending else pending) q
          + weight (not (base s).is_pending) p q
        ≤ is_it p q + held_in pending q
  took_less p s pending q = elim (Bool-cases (base s).is_pending) [
    | inl more ↦ rw more (omega (arith, ap (λ b. weight b p q) more))
    | inr no_more ↦ rw no_more (omega arith)
  ]

  stepped_less :
      (added : Bool) (p : ℕ) (s : S) (pending : List (ℕ × S)) (rest : List (ℕ × S) × Option (ℕ × S))
      (q : ℕ)
      → held_in rest.0 q + to_mark rest.1 q ≤ held_in pending q
      → let r : List (ℕ × S) × Option (ℕ × S) =
          if added
          then (if (base s).is_pending then (p, s) ∷ pending else pending, some (p, s))
          else ((p, s) ∷ rest.0, rest.1) in
        held_in r.0 q + to_mark r.1 q ≤ is_it p q + held_in pending q
  stepped_less true p s pending rest q less = took_less p s pending q
  stepped_less false p s pending rest q less =
      let w = weight_at_most (base s).is_pending p q in omega arith

  module _
      (shut : (s : S) (e : Event) → (base s).is_pending ≡ false → add s (some e) ≡ (s, false)) where
    iterate_add_erase-less :
        (pending : List (ℕ × S)) (e : Event) (q : ℕ)
        → let r = iterate_add_erase add base pending e in
          held_in r.0 q + to_mark r.1 q ≤ held_in pending q
    unfolding iterate_add_erase
    iterate_add_erase-less [] e q = omega arith
    iterate_add_erase-less ((p, s) ∷ pending) e q =
        let rest = iterate_add_erase-less pending e q in
        elim (Bool-cases (base s).is_pending) [
          | inr complete ↦ rw (shut s e complete, complete) (omega arith)
          | inl open_ ↦ rw open_ (
              stepped_less (add s (some e)).1 p (add s (some e)).0 pending
                (iterate_add_erase add base pending e) q rest)
        ]

    pub add_to_pending-Owns :
        {B : Type 0} (Q : B → List ℕ → List ℕ → Type 0) (pending : List (ℕ × S)) (e : Event)
        (f : List (ℕ × S) × Option (ℕ × S) → Prog B) (own ms : List ℕ)
        → ((pending' : List (ℕ × S)) (taken : Option (ℕ × S))
            → ((q : ℕ) → held_in pending' q + to_mark taken q ≤ held_in pending q)
            → Safe Q (f (pending', taken)) own ms)
        → Safe Q (add_to_pending add base pending e >>= f) own ms
    unfolding add_to_pending
    add_to_pending-Owns Q pending e f own ms k =
        let r = iterate_add_erase add base pending e in
        changed add base Q r f own ms (k r.0 r.1 (iterate_add_erase-less pending e))
