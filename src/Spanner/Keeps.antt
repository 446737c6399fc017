-- ===== src/Spanner/Keeps.antt =====
-- What a spanner may still mark as done, as it starts spans and marks them.
use columbo.Base.{
  ℕ, ◌≡◌, refl, ◌++◌, ◌∷◌, Bool, true, false, Option, none, some, List, [], ◌==◌, arith, Bool-cases,
  inl, inr, ==→eq, subst, if◌then◌else◌,
}
use columbo.Tracer.{contains}
use columbo.Tracer.Outcomes.{Result, returns, aborts, exhausted}
use columbo.Tracer.Start.{Context, Expectation, create_pass_on_context}
use columbo.Spanner.{
  Queue, Prog, finish, pushes, ◌>>=◌, ◌>>◌, needs, when, unless_empty, computed,
  pop_propagate_context, push_propagate_context,
}
use columbo.Spanner.Runs.{IsAmong, MayMark, Safe}
use columbo.Spanner.Own.{contains-++, among_first, among_more}

-- All spans that were marked are its own, and those in the list can still be marked.
abbrev pub Holds : List ℕ → List ℕ → List ℕ → Type 0
Holds ps own ms = MayMark own ms ps × IsAmong ms own

may_mark_more : (own ms ps : List ℕ) (p : ℕ) → MayMark own ms ps → MayMark (p ∷ own) ms ps
may_mark_more own ms [] p may = tt
may_mark_more own ms (q ∷ ps) p (mine, new, may) =
    (among_more own p q mine, new, may_mark_more own ms ps p may)

not_among :
    (own ms ps : List ℕ) (p : ℕ)
    → contains own p ≡ false
    → MayMark own ms ps
    → contains ps p ≡ false
not_among own ms [] p new may = refl
not_among own ms (q ∷ ps) p new (mine, unmarked, may) =
    let rest = not_among own ms ps p new may in
    elim (Bool-cases (q == p)) [
      | inl same ↦ absurd (let e = ==→eq q p same in cc (mine, new, e))
      | inr other ↦ rw other rest
    ]

not_marked :
    (own ms : List ℕ) (p : ℕ) → contains own p ≡ false → IsAmong ms own → contains ms p ≡ false
not_marked own ms p new among = elim (Bool-cases (contains ms p)) [
  | inl c ↦ absurd (let b = among p c in cc (b, new))
  | inr c ↦ c
]

pub add_new :
    (ps own : List ℕ) (p : ℕ) (ms : List ℕ)
    → contains own p ≡ false
    → Holds ps own ms
    → Holds (p ∷ ps) (p ∷ own) ms
add_new ps own p ms new (may, among) = (
  (
    among_first own p,
    rw (contains-++ ps ms p, not_among own ms ps p new may, not_marked own ms p new among) refl,
    may_mark_more own ms ps p may,
  ),
  λ q c. among_more own p q (among q c),
)

without :
    (own ms ps : List ℕ) (p : ℕ)
    → contains ps p ≡ false
    → MayMark own ms ps
    → MayMark own (p ∷ ms) ps
without own ms [] p out may = tt
without own ms (q ∷ ps) p out (mine, new, may) = (
  mine,
  grind (arith, contains-++ ps ms q, contains-++ ps (p ∷ ms) q),
  without own ms ps p (ground arith) may,
)

take_out :
    (own ms before behind : List ℕ) (p : ℕ)
    → MayMark own ms (before ++ p ∷ behind)
    → MayMark own ms (p ∷ []) × MayMark own (p ∷ ms) (before ++ behind)
take_out own ms [] behind p (mine, new, may) = (
  (mine, grind (arith, contains-++ behind ms p), tt),
  without own ms behind p (grind (arith, contains-++ behind ms p)) may,
)
take_out own ms (q ∷ before) behind p (mine, new, may) =
    let (one, others) = take_out own ms before behind p may in
    (
      one,
      (
        mine,
        grind (
          arith,
          contains-++ (before ++ p ∷ behind) ms q,
          contains-++ before (p ∷ behind) q,
          contains-++ (before ++ behind) (p ∷ ms) q,
          contains-++ before behind q,
        ),
        others,
      ),
    )

pub marked_one :
    (before behind own : List ℕ) (p : ℕ) (ms : List ℕ)
    → Holds (before ++ p ∷ behind) own ms
    → MayMark own ms (p ∷ []) × Holds (before ++ behind) own (p ∷ ms)
marked_one before behind own p ms (may, among) =
    let (one, others) = take_out own ms before behind p may in
    (
      one,
      (
        others,
        λ q c. elim (Bool-cases (p == q)) [
          | inl same ↦ subst (λ r. contains own r ≡ true) (==→eq p q same) one.0
          | inr other ↦ among q (rw other at c)
        ],
      ),
    )

-- The new span is the last one.
pub at_end :
    (ps own : List ℕ) (p : ℕ) (ms : List ℕ) → Holds (p ∷ ps) own ms → Holds (ps ++ p ∷ []) own ms
at_end [] own p ms h = h
at_end (q ∷ ps) own p ms ((p_mine, p_new, (q_mine, q_new, may)), among) =
    let (others, b) =
      at_end ps own p ms ((p_mine, grind (arith, contains-++ ps ms p), may), among) in
    (
      (
        q_mine,
        grind (
          arith,
          contains-++ ps ms p,
          contains-++ ps ms q,
          contains-++ (ps ++ p ∷ []) ms q,
          contains-++ ps (p ∷ []) q,
        ),
        others,
      ),
      b,
    )

pub needs-Safe :
    {A : Type 0} (Q : A → List ℕ → List ℕ → Type 0) (b : Bool) (m : Prog A) (own ms : List ℕ)
    → Safe Q m own ms
    → Safe Q (needs b >> m) own ms
needs-Safe Q true m own ms s = s
needs-Safe Q false m own ms s = tt

pub unless_empty-Safe :
    {A B : Type 0} (Q : B → List ℕ → List ℕ → Type 0) (o : Option A) (f : A → Prog B)
    (own ms : List ℕ)
    → ((a : A) → Safe Q (f a) own ms)
    → Safe Q (unless_empty o >>= f) own ms
unless_empty-Safe Q none f own ms s = tt
unless_empty-Safe Q (some a) f own ms s = s a

pub if-Safe :
    {A : Type 0} (Q : A → List ℕ → List ℕ → Type 0) (b : Bool) (m k : Prog A) (own ms : List ℕ)
    → Safe Q m own ms
    → Safe Q k own ms
    → Safe Q (if b then m else k) own ms
if-Safe Q true m k own ms s t = s
if-Safe Q false m k own ms s t = t

pub pop_propagate_context-Safe :
    {B : Type 0} (Q : B → List ℕ → List ℕ → Type 0) (from : Queue) (f : Context → Prog B)
    (own ms : List ℕ)
    → ((c : Context) → Safe Q (f c) own ms)
    → Safe Q (pop_propagate_context from >>= f) own ms
unfolding pop_propagate_context
pop_propagate_context-Safe Q from f own ms s none = tt
pop_propagate_context-Safe Q from f own ms s (some none) = tt
pop_propagate_context-Safe Q from f own ms s (some (some c)) = s c

computed-Safe :
    {B : Type 0} (Q : B → List ℕ → List ℕ → Type 0) (to : Queue) (r : Result Context) (m : Prog B)
    (own ms : List ℕ)
    → Safe Q m own ms
    → Safe Q ((computed r >>= λ c. pushes to c finish >>= λ b. needs b) >> m) own ms
computed-Safe Q to (returns c) m own ms s = λ b. needs-Safe Q b m own ms s
computed-Safe Q to aborts m own ms s = tt
computed-Safe Q to exhausted m own ms s = tt

pub push_propagate_context-Safe :
    {B : Type 0} (Q : B → List ℕ → List ℕ → Type 0) (exp : Expectation) (to : Queue) (p : ℕ)
    (m : Prog B) (own ms : List ℕ)
    → Safe Q m own ms
    → Safe Q (push_propagate_context exp to p >> m) own ms
unfolding push_propagate_context
push_propagate_context-Safe Q exp to p m own ms s h =
    computed-Safe Q to (create_pass_on_context exp h (some p)) m own ms s

pub unless_empty-known :
    {A B : Type 0} (Q : B → List ℕ → List ℕ → Type 0) (o : Option A) (f : A → Prog B)
    (own ms : List ℕ)
    → ((a : A) → o ≡ some a → Safe Q (f a) own ms)
    → Safe Q (unless_empty o >>= f) own ms
unless_empty-known Q none f own ms s = tt
unless_empty-known Q (some a) f own ms s = s a refl

pub when_pushed-Safe :
    {B : Type 0} (Q : B → List ℕ → List ℕ → Type 0) (c : Bool) (exp : Expectation) (to : Queue)
    (p : ℕ) (m : Prog B) (own ms : List ℕ)
    → Safe Q m own ms
    → Safe Q (when c (push_propagate_context exp to p) >> m) own ms
when_pushed-Safe Q true exp to p m own ms s = push_propagate_context-Safe Q exp to p m own ms s
when_pushed-Safe Q false exp to p m own ms s = s
