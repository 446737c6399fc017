-- ===== src/Span/Feed.antt =====
-- Offering events to a span (source/analytics/span.cpp), one after the other.
use columbo.Base.{
  ◌≡◌, refl, sym, ◌∙◌, subst, Bool, true, false, Option, none, some, List, [], ◌∷◌, if◌then◌else◌,
  Bool-cases, inl, inr,
}
use columbo.Span.{Event, Base, guarded, is_potential_add, same_parser}

module _ {S : Type 0} where
  -- The span after all of them.
  unfoldable pub feed : (S → Option Event → S × Bool) → S → List (Option Event) → S
  feed add s [] = s
  feed add s (e ∷ es) = feed add (add s e).0 es

  -- What every event keeps, all of them keep.
  pub feed_keeps :
      (add : S → Option Event → S × Bool) (P : S → Type 0)
      → ((s : S) (e : Option Event) → P s → P (add s e).0)
      → (s : S) (es : List (Option Event)) → P s
      → P (feed add s es)
  unfolding feed
  feed_keeps add P step s [] p = p
  feed_keeps add P step s (e ∷ es) p = feed_keeps add P step (add s e).0 es (step s e p)

  -- An event is refused, or it is there and a potential one.
  pub guarded_keeps :
      (b : Base) (s : S) (event : Option Event) (add : Event → S × Bool) (P : S → Type 0)
      → P s
      → ((e : Event) → b.is_pending ≡ true → same_parser b.events e ≡ true → P (add e).0)
      → P (guarded b s event add).0
  unfolding is_potential_add
  guarded_keeps b s none add P p k = p
  guarded_keeps b s (some e) add P p k = elim (Bool-cases b.is_pending) [
    | inr f ↦ rw f p
    | inl t ↦ elim (Bool-cases (same_parser b.events e)) [
      | inr f ↦ rw (t, f) p
      | inl same ↦ rw (t, same) (k e t same)
    ]
  ]

  -- The state after an event, and whether the event was taken.
  abbrev pub Takes : (S → Type 0) → Bool → S × Bool → Type 0
  Takes State next r = State r.0 × (r.1 ≡ next)

  pub Takes-next :
      (State : S → Type 0) (r : S × Bool) {wanted next : Bool}
      → wanted ≡ next
      → Takes State wanted r
      → Takes State next r
  Takes-next State r e t = (t.0, t.1 ∙ e)

  pub guarded-Takes :
      (b : Base) (s : S) (e : Event) (added : S × Bool) (State : S → Type 0) (next wanted : Bool)
      → State s
      → (is_potential_add b e ≡ false → next ≡ false)
      → (same_parser b.events e ≡ true → wanted ≡ next)
      → (b.is_pending ≡ true → Takes State wanted added)
      → Takes State next (if is_potential_add b e then added else (s, false))
  unfolding is_potential_add
  guarded-Takes b s e added State next wanted p refused taken k = elim (Bool-cases b.is_pending) [
    | inr f ↦ rw f (p, sym (refused (rw f refl)))
    | inl t ↦ elim (Bool-cases (same_parser b.events e)) [
      | inr f ↦ rw (t, f) (p, sym (refused (rw (t, f) refl)))
      | inl same ↦ rw (t, same) ((k t).0, (k t).1 ∙ taken same)
    ]
  ]

  -- By the type of the event, of two.
  pub two_types-Takes :
      (State : S → Type 0) (next first second : Bool) (s : S) (on_first on_second : S × Bool)
      → (first ≡ true → Takes State next on_first)
      → (first ≡ false → second ≡ true → Takes State next on_second)
      → (first ≡ false → second ≡ false → Takes State next (s, false))
      → Takes State next (if first then on_first else if second then on_second else (s, false))
  two_types-Takes State next true second s x y a b c = a refl
  two_types-Takes State next false true s x y a b c = b refl refl
  two_types-Takes State next false false s x y a b c = c refl refl

  -- By the type of the event, of three.
  pub three_types-Takes :
      (State : S → Type 0) (next first second third : Bool) (s : S)
      (on_first on_second on_third : S × Bool)
      → (first ≡ true → Takes State next on_first)
      → (first ≡ false → second ≡ true → Takes State next on_second)
      → (first ≡ false → second ≡ false → third ≡ true → Takes State next on_third)
      → (first ≡ false → second ≡ false → third ≡ false → Takes State next (s, false))
      → Takes State next (
          if first
          then on_first
          else if second
          then on_second
          else if third
          then on_third
          else (s, false))
  three_types-Takes State next true second third s x y z a b c d = a refl
  three_types-Takes State next false true third s x y z a b c d = b refl refl
  three_types-Takes State next false false true s x y z a b c d = c refl refl refl
  three_types-Takes State next false false false s x y z a b c d = d refl refl refl

  each :
      (add : S → Option Event → S × Bool) (State : S → Type 0) (next : S → Event → Bool)
      → ((s : S) → (add s none).0 ≡ s)
      → ((s : S) (e : Event) → State s → Takes State (next s e) (add s (some e)))
      → (s : S) (event : Option Event) → State s
      → State (add s event).0
  each add State next null step s none p = subst State (sym (null s)) p
  each add State next null step s (some e) p = (step s e p).0

  -- What holds of one event at any state holds after any events.
  pub feed-Takes :
      (add : S → Option Event → S × Bool) (State : S → Type 0) (next : S → Event → Bool)
      → ((s : S) → (add s none).0 ≡ s)
      → ((s : S) (e : Event) → State s → Takes State (next s e) (add s (some e)))
      → (s : S) (events : List (Option Event)) (e : Event) → State s
      → State (feed add s events)
        × ((add (feed add s events) (some e)).1 ≡ next (feed add s events) e)
  feed-Takes add State next null step s events e p =
      let q = feed_keeps add State (each add State next null step) s events p in
      (q, (step (feed add s events) e q).1)
