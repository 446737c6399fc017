-- ===== src/Span/Dma.antt =====
-- What a HostDmaSpan (source/analytics/span.cpp) can hold.
use columbo.Base.{
  ◌≡◌, refl, Bool, true, false, ◌&&◌, ◌||◌, Option, none, some, List, [], ◌∷◌, ◌==◌, ==→eq, arith,
  Bool-cases, inl, inr,
}
use columbo.Span.{EventType, Event, is_type, is_potential_add}
use columbo.Span.Host.{HostDmaSpan, new_host_dma, add_to_host_dma}
use columbo.Span.Feed.{feed, feed_keeps, guarded_keeps}

abbrev pub executes : Event → Bool
executes e = is_type e EventType.host_dma_w || is_type e EventType.host_dma_r

-- The states of a HostDmaSpan: empty, an access that was executed, and an access with its completion.
pub data HostDmaState : HostDmaSpan → Type 0 where
  empty : HostDmaState new_host_dma
  executed :
      (e : Event)
      → executes e ≡ true
      → HostDmaState (record {
        base = record { events = e ∷ []; is_pending = true };
        execution = some e;
        is_read = is_type e EventType.host_dma_r;
        completion = none;
      })
  complete :
      (e c : Event)
      → executes e ≡ true
      → is_type c EventType.host_dma_c ≡ true
      → e.id ≡ c.id
      → e.parser_ident ≡ c.parser_ident
      → HostDmaState (record {
        base = record { events = e ∷ c ∷ []; is_pending = false };
        execution = some e;
        is_read = is_type e EventType.host_dma_r;
        completion = some c;
      })

add_to_host_dma-HostDmaState :
    (s : HostDmaSpan) (event : Option Event)
    → HostDmaState s
    → HostDmaState (add_to_host_dma s event).0
unfolding add_to_host_dma
add_to_host_dma-HostDmaState s event empty =
    guarded_keeps _ _ event _ HostDmaState empty (λ e t same. elim (Bool-cases (executes e)) [
      | inl x ↦ rw x (executed e x)
      | inr n ↦ rw n (elim (Bool-cases (is_type e EventType.host_dma_c)) [
        | inl c ↦ rw c empty
        | inr o ↦ rw o empty
      ])
    ])
add_to_host_dma-HostDmaState s event (executed x ex) =
    guarded_keeps _ _ event _ HostDmaState (executed x ex) (λ e t same.
      elim (Bool-cases (executes e)) [
        | inl y ↦ rw y (executed x ex)
        | inr n ↦ rw n (elim (Bool-cases (is_type e EventType.host_dma_c)) [
          | inr o ↦ rw o (executed x ex)
          | inl c ↦ rw c (elim (Bool-cases (x.id == e.id)) [
            | inl i ↦ rw i (complete x e ex c (==→eq _ _ i) (==→eq _ _ same))
            | inr i ↦ rw i (executed x ex)
          ])
        ])
      ])
add_to_host_dma-HostDmaState s event (complete x c ex ct i p) =
    guarded_keeps _ _ event _ HostDmaState (complete x c ex ct i p) (λ e t same. absurd (cc t))

-- What the events of a span let it take next.
abbrev pub host_dma_next : List Event → Event → Bool
host_dma_next [] e = executes e
host_dma_next (x ∷ []) e =
    x.parser_ident == e.parser_ident && (is_type e EventType.host_dma_c && x.id == e.id)
host_dma_next (x ∷ y ∷ es) e = false

excludes : (e : Event) → is_type e EventType.host_dma_c ≡ true → executes e ≡ false
unfolding is_type
excludes e c = ground (arith, c)

add_to_host_dma_accepts :
    (s : HostDmaSpan) (e : Event)
    → HostDmaState s
    → (add_to_host_dma s (some e)).1 ≡ host_dma_next s.base.events e
unfolding add_to_host_dma is_potential_add
add_to_host_dma_accepts s e empty = elim (Bool-cases (executes e)) [
  | inl x ↦ rw x refl
  | inr n ↦
      rw n (elim (Bool-cases (is_type e EventType.host_dma_c)) [
        | inl c ↦ rw c refl
        | inr o ↦ rw o refl
      ])
]
add_to_host_dma_accepts s e (executed x ex) = elim (Bool-cases (x.parser_ident == e.parser_ident)) [
  | inr other ↦ rw other refl
  | inl same ↦ rw same (elim (Bool-cases (is_type e EventType.host_dma_c)) [
    | inr o ↦ rw o (elim (Bool-cases (executes e)) [ inl y ↦ rw y refl | inr n ↦ rw n refl ])
    | inl c ↦
        rw (excludes e c, c)
          (elim (Bool-cases (x.id == e.id)) [ inl i ↦ rw i refl | inr i ↦ rw i refl ])
  ])
]
add_to_host_dma_accepts s e (complete x c ex ct i p) = refl

-- Whatever events a new HostDmaSpan was offered, it is empty, or pending with one executed access, or complete
-- with an access and the completion of the same parser that has its id; it takes an event exactly if that is the
-- next of these.
pub host_dma-HostDmaState :
    (events : List (Option Event)) (e : Event)
    → let s = feed add_to_host_dma new_host_dma events in
      HostDmaState s × ((add_to_host_dma s (some e)).1 ≡ host_dma_next s.base.events e)
host_dma-HostDmaState events e =
    let r =
      feed_keeps add_to_host_dma HostDmaState add_to_host_dma-HostDmaState new_host_dma events
        empty in
    (r, add_to_host_dma_accepts _ e r)
