-- ===== src/Spanner/Consume.antt =====
-- `consume` of a spanner (source/analytics/spanner.cpp) keeps what all of its handlers keep.
use columbo.Base.{ℕ, Bool, Option, none, some, List, [], ◌∷◌, Option-cases, inl, inr, subst}
use columbo.Channel.Queue.{Executor}
use columbo.Span.{EventType, Event}
use columbo.Spanner.{Prog, consume, consume_all}
use columbo.Spanner.Runs.{Safe, Safe->>=}
use columbo.Spanner.Keeps.{unless_empty-Safe}

module _ {S : Type 0} (IsReady : S → List ℕ → List ℕ → Type 0) where
  abbrev pub IsReadyAfter : S × Bool → List ℕ → List ℕ → Type 0
  IsReadyAfter r own ms = IsReady r.0 own ms

  abbrev pub IsSafe : Option (S → Executor → Event → Prog (S × Bool)) → Type 0
  IsSafe none = Unit {0}
  IsSafe (some handel) =
      (n : S) (executor : Executor) (e : Event) (own ms : List ℕ)
      → IsReady n own ms
      → Safe IsReadyAfter (handel n executor e) own ms

  module _ (handler : EventType → Option (S → Executor → Event → Prog (S × Bool)))
      (safe : (t : EventType) → IsSafe (handler t)) where
    consume-Safe :
        (n : S) (executor : Executor) (value : Option Event) (own ms : List ℕ)
        → IsReady n own ms
        → Safe IsReady (consume handler n executor value) own ms
    unfolding consume
    consume-Safe n executor value own ms h = unless_empty-Safe IsReady value _ own ms (λ e.
        elim (Option-cases (handler e.type)) [
          | inl missing ↦ rw missing h
          | inr (handel, is) ↦ rw is (
              Safe->>= IsReadyAfter IsReady (handel n executor e) _ own ms
                (subst IsSafe is (safe e.type) n executor e own ms h) (λ r own' ms' left. left))
        ])

    pub consume_all-Safe :
        (executor : Executor) (values : List (Option Event)) (n : S) (own ms : List ℕ)
        → IsReady n own ms
        → Safe IsReady (consume_all handler executor values n) own ms
    unfolding consume_all
    consume_all-Safe executor [] n own ms h = h
    consume_all-Safe executor (value ∷ values) n own ms h =
        Safe->>= IsReady IsReady (consume handler n executor value) _ own ms
          (consume-Safe n executor value own ms h) (consume_all-Safe executor values)
