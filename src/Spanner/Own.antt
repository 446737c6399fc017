-- ===== src/Spanner/Own.antt =====
-- A safe program marks only spans that it started, and none twice, beside any others that use the same tracer.
use columbo.Base.{
  ℕ, ◌≡◌, refl, ◌<◌, ◌++◌, ◌∷◌, Bool, true, false, none, some, List, [], ◌==◌, ◌||◌, length,
  append-nil, arith, Bool-cases, inl, inr, ==_refl, ==→eq, subst, sym,
}
use columbo.Tracer.{contains}
use columbo.Tracer.Outcomes.{Ends}
use columbo.Tracer.Start.{World}
use columbo.Spanner.{Prog}
use columbo.Spanner.Fresh.{IsNew, begin-IsNew, NotFewer, step-NotFewer}
use columbo.Spanner.Runs.{
  Acts, popped, pushed, began, called, tried_none, tried, looked, Runs, so_far, acted, others, Once,
  IsAmong, MayMark, Safe,
}

pub contains-++ :
    (xs ys : List ℕ) (p : ℕ) → contains (xs ++ ys) p ≡ (contains xs p || contains ys p)
contains-++ [] ys p = refl
contains-++ (x ∷ xs) ys p = grind (arith, contains-++ xs ys p)

or_true : (b : Bool) → (b || true) ≡ true
or_true true = refl
or_true false = refl

pub among_first : (own : List ℕ) (p : ℕ) → contains (p ∷ own) p ≡ true
among_first own p = rw (==_refl p) refl

pub among_more : (own : List ℕ) (p q : ℕ) → contains own q ≡ true → contains (p ∷ own) q ≡ true
among_more own p q c = rw c (or_true (p == q))

-- Once each, and none that was marked before.
abbrev pub OnceAfter : List ℕ → List ℕ → Type 0
OnceAfter ms marks = Once marks × ((p : ℕ) → contains marks p ≡ true → contains ms p ≡ false)

contains_right : (xs ys : List ℕ) (p : ℕ) → contains (xs ++ ys) p ≡ false → contains ys p ≡ false
contains_right [] ys p c = c
contains_right (x ∷ xs) ys p c = contains_right xs ys p (ground arith)

not_either :
    (xs ys : List ℕ) (p : ℕ)
    → contains xs p ≡ false
    → contains ys p ≡ false
    → contains (xs ++ ys) p ≡ false
not_either [] ys p a b = b
not_either (x ∷ xs) ys p a b = elim (Bool-cases (x == p)) [
  | inl same ↦ absurd (cc (rw same at a))
  | inr other ↦ rw other (not_either xs ys p (rw other at a) b)
]

not_left : (xs ys : List ℕ) (p : ℕ) → contains (xs ++ ys) p ≡ false → contains xs p ≡ false
not_left [] ys p c = refl
not_left (x ∷ xs) ys p c = elim (Bool-cases (x == p)) [
  | inl same ↦ absurd (cc (rw same at c))
  | inr other ↦ rw other (not_left xs ys p (rw other at c))
]

-- One more mark before the others.
mark_before :
    (ms ps marks : List ℕ) (p : ℕ)
    → contains (ps ++ ms) p ≡ false
    → contains marks p ≡ false
    → OnceAfter ms (ps ++ marks)
    → OnceAfter ms (p ∷ ps ++ marks)
mark_before ms ps marks p new unmarked (once, after) = (
  (not_either ps marks p (not_left ps ms p new) unmarked, once),
  λ q c. elim (Bool-cases (p == q)) [
    | inl same ↦ subst (λ r. contains ms r ≡ false) (==→eq p q same) (contains_right ps ms p new)
    | inr other ↦ after q (rw other at c)
  ],
)

pub mark_all :
    (own ms ps marks : List ℕ)
    → MayMark own ms ps
    → OnceAfter (ps ++ ms) marks
    → OnceAfter ms (ps ++ marks)
mark_all own ms [] marks may after = after
mark_all own ms (p ∷ ps) marks (below, new, may) (once, after) =
    mark_before ms ps marks p new
      (elim (Bool-cases (contains marks p)) [
        | inl marked ↦ absurd (let c = after p marked in cc (rw (==_refl p) at c))
        | inr unmarked ↦ unmarked
      ])
      (mark_all own ms ps marks may (once, λ q c. contains_right (p ∷ []) (ps ++ ms) q (after q c)))

-- The spans are in the store.
abbrev pub IsStored : List ℕ → World → Type 0
IsStored own w = (p : ℕ) → contains own p ≡ true → p < length w.heap.spans

pub not_stored :
    (own : List ℕ) (w : World) → IsStored own w → contains own (length w.heap.spans) ≡ false
not_stored own w below = elim (Bool-cases (contains own (length w.heap.spans))) [
  | inl c ↦ absurd (let b = below (length w.heap.spans) c in omega arith)
  | inr c ↦ c
]

-- New spans are new in the store.
abbrev pub AreNew : List ℕ → World → World → Type 0
AreNew [] w w' = Unit {0}
AreNew (p ∷ ps) w w' = (p ≡ length w.heap.spans) × (ps ≡ []) × (p < length w'.heap.spans)

-- What an action of a safe program leaves.
pub record Acted {A : Type 0} (Q : A → List ℕ → List ℕ → Type 0) (own ms news marks : List ℕ)
    (w : World) (m' : Prog A) (w' : World) : Type 0 where
  pub may : MayMark own ms marks
  pub safe : Safe Q m' (news ++ own) (marks ++ ms)
  pub new : AreNew news w w'
  pub more : NotFewer w w'

-- It did not touch the store, or called the tracer.
same_store :
    {A : Type 0} (Q : A → List ℕ → List ℕ → Type 0) (own ms : List ℕ) (w : World) (m' : Prog A)
    → Safe Q m' own ms
    → Acted Q own ms [] [] w m' w
same_store Q own ms w m' s = record { may = tt; safe = s; new = tt; more = omega arith }

pub Acts-Acted :
    {A : Type 0} (Q : A → List ℕ → List ℕ → Type 0) {m m' : Prog A} {w w' : World}
    {news marks : List ℕ} (own ms : List ℕ)
    → Acts m w news marks m' w'
    → Safe Q m own ms
    → IsStored own w
    → Acted Q own ms news marks w m' w'
Acts-Acted Q {w = w} own ms (popped {k = k} v) s below = same_store Q own ms w (k v) (s v)
Acts-Acted Q {w = w} own ms (pushed {k = k} b) s below = same_store Q own ms w (k b) (s b)
Acts-Acted Q {w = w} own ms (tried_none {k = k}) s below = same_store Q own ms w (k none) (s none)
Acts-Acted Q {w = w} own ms (tried {k = k} c t) s below =
    same_store Q own ms w (k (some c)) (s (some c))
Acts-Acted Q {w = w} own ms (looked {k = k}) s below = same_store Q own ms w (k w.heap) (s w.heap)
Acts-Acted Q {w = w} own ms (began {s = t} p w1 e) s below =
    let (at, more) = subst (Ends (IsNew w)) e (begin-IsNew t w) in
    record {
      may = tt;
      safe = s p (subst (λ q. contains own q ≡ false) (sym at) (not_stored own w below));
      new = (at, refl, omega arith);
      more = omega arith;
    }
Acts-Acted Q {w = w} own ms (called {c = c} w1 e) s below = record {
  may = s.0;
  safe = s.1;
  new = tt;
  more = subst (Ends (NotFewer w)) e (step-NotFewer c w);
}

pub new-IsStored :
    (news own : List ℕ) (w w' : World)
    → AreNew news w w'
    → NotFewer w w'
    → IsStored own w
    → IsStored (news ++ own) w'
new-IsStored [] own w w' new more below p c = let b = below p c in omega arith
new-IsStored (q ∷ qs) own w w' (at, none_else, there) more below p c = elim (Bool-cases (q == p)) [
  | inl same ↦ let e = ==→eq q p same in omega arith
  | inr other ↦
      let b = below p (subst (λ rs. contains (rs ++ own) p ≡ true) none_else (rw other at c)) in
      omega arith
]

-- Marked once, and among its own.
abbrev pub IsOwn : List ℕ → List ℕ → List ℕ → List ℕ → Type 0
IsOwn own ms news marks = OnceAfter ms marks × IsAmong marks (news ++ own)

pub may-IsAmong : (own ms ps : List ℕ) → MayMark own ms ps → IsAmong ps own
may-IsAmong own ms [] may q c = absurd (cc c)
may-IsAmong own ms (p ∷ ps) (mine, new, may) q c = elim (Bool-cases (p == q)) [
  | inl same ↦ subst (λ r. contains own r ≡ true) (==→eq p q same) mine
  | inr other ↦ may-IsAmong own ms ps may q (rw other at c)
]

then-IsAmong :
    (own news news' marks marks' : List ℕ)
    → IsAmong marks own
    → IsAmong marks' (news' ++ (news ++ own))
    → IsAmong (marks ++ marks') ((news ++ news') ++ own)
then-IsAmong own news news' marks marks' now later p c = elim (Bool-cases (contains marks p)) [
  | inl marked ↦
      let mine = now p marked in
      rw (contains-++ (news ++ news') own p, mine) (or_true (contains (news ++ news') p))
  | inr other ↦
      let mine = later p (grind (arith, contains-++ marks marks' p)) in
      grind (
        arith,
        contains-++ (news ++ news') own p,
        contains-++ news news' p,
        contains-++ news' (news ++ own) p,
        contains-++ news own p,
      )
]

Runs-IsOwn :
    {A : Type 0} (Q : A → List ℕ → List ℕ → Type 0) {m : Prog A} {w : World} {news marks : List ℕ}
    (own ms : List ℕ)
    → Runs m w news marks
    → Safe Q m own ms
    → IsStored own w
    → IsOwn own ms news marks
Runs-IsOwn Q own ms so_far s below = ((tt, λ p c. absurd (cc c)), λ p c. absurd (cc c))
Runs-IsOwn Q {w = w} own ms
      (acted {m' = m'} {w' = w'} {news = ns} {marks = ps} {news' = ns'} {marks' = ps'} a r) s
      below =
    let d = Acts-Acted Q own ms a s below in
    let (after, among) =
      Runs-IsOwn Q (ns ++ own) (ps ++ ms) r d.safe (new-IsStored ns own w w' d.new d.more below) in
    (
      mark_all own ms ps ps' d.may after,
      then-IsAmong own ns ns' ps ps' (may-IsAmong own ms ps d.may) among,
    )
Runs-IsOwn Q {w = w} own ms (others c w1 e r) s below =
    let more = subst (Ends (NotFewer w)) e (step-NotFewer c w) in
    Runs-IsOwn Q own ms r s (λ p c. let b = below p c in omega arith)

pub own_marks :
    {A : Type 0} (Q : A → List ℕ → List ℕ → Type 0) {m : Prog A} {w : World} {news marks : List ℕ}
    → Runs m w news marks
    → Safe Q m [] []
    → Once marks × IsAmong marks news
own_marks Q {news = news} {marks = marks} r s =
    let ((once, after), among) = Runs-IsOwn Q [] [] r s (λ p c. absurd (cc c)) in
    (once, subst (λ ns. IsAmong marks ns) (append-nil news) among)
