-- ===== src/Spanner/System/SystemOnce.antt =====
-- Spanners that share a tracer mark no span twice (source/analytics: hostSpanner.cc, nicSpanner.cc, networkSpanner.cpp).
use columbo.Base.{
  ℕ, zero, suc, ◌≡◌, refl, sym, ◌∙◌, ◌++◌, ◌∷◌, ◌==◌, true, false, some, List, [], get_elem?, set,
  Bool-cases, inl, inr, ==→eq, subst, arith,
}
use columbo.Tracer.{contains}
use columbo.Tracer.Start.{World}
use columbo.Spanner.{Prog, consume_all}
use columbo.Spanner.Runs.{Once, IsAmong, MayMark, Safe, Safe->>=}
use columbo.Spanner.Own.{
  contains-++, AreNew, IsStored, not_stored, Acted, Acts-Acted, new-IsStored, OnceAfter, mark_all,
  may-IsAmong,
}
use columbo.Spanner.Once.{nic-Safe}
use columbo.Spanner.Host.HostOnce.{host-Safe}
use columbo.Spanner.Network.NetworkOnce.{network-Safe}
use columbo.Spanner.System.{Part, nic, host, network, program, programs, SystemRuns, so_far, turn}
use columbo.Spanner.System.Shares.{
  of, spans, tag, spans-tag, of-tag, of_other, of-IsAmong, may_mark_all,
}

get_elem?-set_self :
    {A : Type 0} (xs : List A) (i : ℕ) (a b : A)
    → get_elem? xs i ≡ some a
    → get_elem? (set xs i b) i ≡ some b
get_elem?-set_self [] i a b e = absurd (cc e)
get_elem?-set_self (x ∷ xs) zero a b e = refl
get_elem?-set_self (x ∷ xs) (suc i) a b e = get_elem?-set_self xs i a b e

get_elem?-set_other :
    {A : Type 0} (xs : List A) (i j : ℕ) (b : A)
    → (i == j) ≡ false
    → get_elem? (set xs i b) j ≡ get_elem? xs j
get_elem?-set_other [] i j b other = refl
get_elem?-set_other (x ∷ xs) zero zero b other = absurd (cc other)
get_elem?-set_other (x ∷ xs) zero (suc j) b other = refl
get_elem?-set_other (x ∷ xs) (suc i) zero b other = refl
get_elem?-set_other (x ∷ xs) (suc i) (suc j) b other = get_elem?-set_other xs i j b (ground arith)

abbrev Done : Unit {0} → List ℕ → List ℕ → Type 0
Done u own ms = Unit {0}

-- With the spanners of all spans that were started, and of all that were marked.
record IsShared (ms : List (Prog (Unit {0}))) (os gm : List (ℕ × ℕ)) (w : World) : Type 0 where
  safe : (i : ℕ) (m : Prog (Unit {0})) → get_elem? ms i ≡ some m → Safe Done m (of i os) (of i gm)
  once : Once (spans os)
  stored : IsStored (spans os) w
  mine : (i : ℕ) → IsAmong (of i gm) (of i os)

new-Once :
    (news : List ℕ) (own : List ℕ) (w w' : World)
    → AreNew news w w'
    → IsStored own w
    → Once own
    → Once (news ++ own)
new-Once [] own w w' new below once = once
new-Once (p ∷ ps) own w w' (at, none_else, there) below once =
    subst (λ qs. Once (p ∷ qs ++ own)) (sym none_else)
      (subst (λ q. contains own q ≡ false) (sym at) (not_stored own w below), once)

grown-IsAmong :
    (own ms news marks : List ℕ)
    → MayMark own ms marks
    → IsAmong ms own
    → IsAmong (marks ++ ms) (news ++ own)
grown-IsAmong own ms news marks may among p c =
    let mine : contains own p ≡ true = elim (Bool-cases (contains marks p)) [
      | inl now ↦ may-IsAmong own ms marks may p now
      | inr before ↦ among p (grind (arith, contains-++ marks ms p))
    ] in
    grind (arith, contains-++ news own p)

same_some : {A : Type 0} (a b : A) → some a ≡ some b → a ≡ b
same_some a b e = cc e

turn-IsShared :
    (ms : List (Prog (Unit {0}))) (os gm : List (ℕ × ℕ)) (w w' : World) (i : ℕ)
    (m m' : Prog (Unit {0})) (news marks : List ℕ)
    → IsShared ms os gm w
    → get_elem? ms i ≡ some m
    → Acted Done (of i os) (of i gm) news marks w m' w'
    → IsShared (set ms i m') (tag i news os) (tag i marks gm) w'
turn-IsShared ms os gm w w' i m m' news marks h at d = record {
  safe = λ j n e. elim (Bool-cases (i == j)) [
    | inl same ↦
        subst (λ k. Safe Done n (of k (tag i news os)) (of k (tag i marks gm))) (==→eq i j same)
          (rw (of-tag i news os, of-tag i marks gm)
            (subst (λ x. Safe Done x (news ++ of i os) (marks ++ of i gm))
              (same_some m' n (
                sym (get_elem?-set_self ms i m m' at)
                ∙ subst (λ k. get_elem? (set ms i m') k ≡ some n) (sym (==→eq i j same)) e))
              d.safe))
    | inr other ↦
        rw (of_other i j news os other, of_other i j marks gm other)
          (h.safe j n (sym (get_elem?-set_other ms i j m' other) ∙ e))
  ];
  once = rw (spans-tag i news os) (new-Once news (spans os) w w' d.new h.stored h.once);
  stored = rw (spans-tag i news os) (new-IsStored news (spans os) w w' d.new d.more h.stored);
  mine = λ j. elim (Bool-cases (i == j)) [
    | inl same ↦
        subst (λ k. IsAmong (of k (tag i marks gm)) (of k (tag i news os))) (==→eq i j same)
          (rw (of-tag i news os, of-tag i marks gm)
            (grown-IsAmong (of i os) (of i gm) news marks d.may (h.mine i)))
    | inr other ↦ rw (of_other i j news os other, of_other i j marks gm other) (h.mine j)
  ];
}

runs-OnceAfter :
    {ms : List (Prog (Unit {0}))} {w : World} {marks : List ℕ} (os gm : List (ℕ × ℕ))
    → SystemRuns ms w marks
    → IsShared ms os gm w
    → OnceAfter (spans gm) marks
runs-OnceAfter os gm so_far h = (tt, λ p c. absurd (cc c))
runs-OnceAfter os gm
      (turn {ms = ms} {w = w} {w' = w'} {news = news} {marks = marks} {marks' = marks'} i m m' at a
        r)
      h =
    let d =
      Acts-Acted Done (of i os) (of i gm) a (h.safe i m at)
        (λ p c. h.stored p (of-IsAmong i os p c)) in
    let after =
      runs-OnceAfter (tag i news os) (tag i marks gm) r
        (turn-IsShared ms os gm w w' i m m' news marks h at d) in
    mark_all (of i os) (spans gm) marks marks' (may_mark_all os gm i marks h.once h.mine d.may)
      (subst (λ ms'. OnceAfter ms' marks') (spans-tag i marks gm) after)

program-Safe : (part : Part) → Safe Done (program part) [] []
program-Safe (nic executor values) =
    Safe->>= _ Done (consume_all _ executor values _) _ [] [] (nic-Safe executor values)
      (λ n own ms h. tt)
program-Safe (host env pci_write_indicators fuel executor values) =
    Safe->>= _ Done (consume_all _ executor values _) _ [] []
      (host-Safe env pci_write_indicators fuel executor values) (λ n own ms h. tt)
program-Safe (network from_host to_host filter executor values) =
    Safe->>= _ Done (consume_all _ executor values _) _ [] []
      (network-Safe from_host to_host filter executor values) (λ n own ms h. tt)

programs-Safe :
    (parts : List Part) (i : ℕ) (m : Prog (Unit {0}))
    → get_elem? (programs parts) i ≡ some m
    → Safe Done m [] []
programs-Safe [] i m e = absurd (cc e)
programs-Safe (part ∷ parts) zero m e =
    subst (λ x. Safe Done x [] []) (same_some (program part) m e) (program-Safe part)
programs-Safe (part ∷ parts) (suc i) m e = programs-Safe parts i m e

-- Any number of NicSpanners, HostSpanners and NetworkSpanners that share a tracer, in whatever order they act, whatever
-- events they get and whatever their channels answer: no span is marked as done twice, by one of them or by two.
pub system_marks-Once :
    (parts : List Part) (w : World) (marks : List ℕ)
    → SystemRuns (programs parts) w marks
    → Once marks
system_marks-Once parts w marks run =
    (runs-OnceAfter [] [] run (record {
      safe = programs-Safe parts;
      once = tt;
      stored = λ p c. absurd (cc c);
      mine = λ i p c. c;
    })).0
