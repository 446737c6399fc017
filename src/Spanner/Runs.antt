-- ===== src/Spanner/Runs.antt =====
-- Runs of a spanner beside others that use the same tracer: what it starts, and what it marks as done.
use columbo.Base.{ℕ, ◌≡◌, ◌++◌, ◌∷◌, Bool, true, false, Option, none, some, List, []}
use columbo.Tracer.{Heap, contains}
use columbo.Tracer.Outcomes.{returns}
use columbo.Tracer.Start.{World, Context}
use columbo.Tracer.Calls.{Call, step, marked_by}
use columbo.Spanner.{
  Queue, Start, begin, Prog, finish, fails, out_of_fuel, tries, pops, pushes, starts, calls, reads,
  ◌>>=◌,
}

-- One action: the spans that it starts, and those that it marks as done. A channel may answer anything.
pub data Acts {A : Type 0} : Prog A → World → List ℕ → List ℕ → Prog A → World → Type 0 where
  popped :
      {q : Queue} {k : Option (Option Context) → Prog A} {w : World} (v : Option (Option Context))
      → Acts (pops q k) w [] [] (k v) w
  pushed :
      {q : Queue} {c : Context} {k : Bool → Prog A} {w : World} (b : Bool)
      → Acts (pushes q c k) w [] [] (k b) w
  began :
      {s : Start} {k : ℕ → Prog A} {w : World} (p : ℕ) (w1 : World)
      → begin s w ≡ returns (p, w1)
      → Acts (starts s k) w (p ∷ []) [] (k p) w1
  called :
      {c : Call} {m : Prog A} {w : World} (w1 : World)
      → step c w ≡ returns w1
      → Acts (calls c m) w [] (marked_by c) m w1
  tried_none :
      {q : Queue} {test : Context → Bool} {k : Option Context → Prog A} {w : World}
      → Acts (tries q test k) w [] [] (k none) w
  tried :
      {q : Queue} {test : Context → Bool} {k : Option Context → Prog A} {w : World} (c : Context)
      → test c ≡ true
      → Acts (tries q test k) w [] [] (k (some c)) w
  looked : {k : Heap → Prog A} {w : World} → Acts (reads k) w [] [] (k w.heap) w

-- What a run came to so far: the spans that the spanner started, and those that it marked as done, in this order.
-- Between any two actions others may call the tracer.
pub data Runs {A : Type 0} : Prog A → World → List ℕ → List ℕ → Type 0 where
  so_far : {m : Prog A} {w : World} → Runs m w [] []
  acted :
      {m m' : Prog A} {w w' : World} {news marks news' marks' : List ℕ}
      → Acts m w news marks m' w'
      → Runs m' w' news' marks'
      → Runs m w (news ++ news') (marks ++ marks')
  others :
      {m : Prog A} {w : World} {news marks : List ℕ} (c : Call) (w1 : World)
      → step c w ≡ returns w1
      → Runs m w1 news marks
      → Runs m w news marks

-- No element comes twice.
abbrev pub Once : List ℕ → Type 0
Once [] = Unit {0}
Once (p ∷ ps) = (contains ps p ≡ false) × Once ps

abbrev pub IsAmong : List ℕ → List ℕ → Type 0
IsAmong ps qs = (p : ℕ) → contains ps p ≡ true → contains qs p ≡ true

-- Spans of its own that are not marked yet.
abbrev pub MayMark : List ℕ → List ℕ → List ℕ → Type 0
MayMark own ms [] = Unit {0}
MayMark own ms (p ∷ ps) =
    (contains own p ≡ true) × (contains (ps ++ ms) p ≡ false) × MayMark own ms ps

-- A program that marks only spans that it started, each once, and what holds at its end.
abbrev pub Safe : {A : Type 0} → (A → List ℕ → List ℕ → Type 0) → Prog A → List ℕ → List ℕ → Type 0
Safe Q (finish a) own ms = Q a own ms
Safe Q fails own ms = Unit {0}
Safe Q out_of_fuel own ms = Unit {0}
Safe Q (tries q test k) own ms = (c : Option Context) → Safe Q (k c) own ms
Safe Q (pops q k) own ms = (v : Option (Option Context)) → Safe Q (k v) own ms
Safe Q (pushes q c k) own ms = (b : Bool) → Safe Q (k b) own ms
Safe Q (starts s k) own ms = (p : ℕ) → contains own p ≡ false → Safe Q (k p) (p ∷ own) ms
Safe Q (calls c m) own ms = MayMark own ms (marked_by c) × Safe Q m own (marked_by c ++ ms)
Safe Q (reads k) own ms = (h : Heap) → Safe Q (k h) own ms

pub Safe->>= :
    {A B : Type 0} (P : A → List ℕ → List ℕ → Type 0) (Q : B → List ℕ → List ℕ → Type 0)
    (m : Prog A) (f : A → Prog B) (own ms : List ℕ)
    → Safe P m own ms
    → ((a : A) (own ms : List ℕ) → P a own ms → Safe Q (f a) own ms)
    → Safe Q (m >>= f) own ms
Safe->>= P Q (finish a) f own ms s k = k a own ms s
Safe->>= P Q fails f own ms s k = tt
Safe->>= P Q out_of_fuel f own ms s k = tt
Safe->>= P Q (tries q test g) f own ms s k = λ c. Safe->>= P Q (g c) f own ms (s c) k
Safe->>= P Q (pops q g) f own ms s k = λ v. Safe->>= P Q (g v) f own ms (s v) k
Safe->>= P Q (pushes q c g) f own ms s k = λ b. Safe->>= P Q (g b) f own ms (s b) k
Safe->>= P Q (starts t g) f own ms s k = λ p le. Safe->>= P Q (g p) f (p ∷ own) ms (s p le) k
Safe->>= P Q (calls c m) f own ms s k = (s.0, Safe->>= P Q m f own (marked_by c ++ ms) s.1 k)
Safe->>= P Q (reads g) f own ms s k = λ h. Safe->>= P Q (g h) f own ms (s h) k
