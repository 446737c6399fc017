-- ===== src/Span/Msix.antt =====
-- What a HostMsixSpan (source/analytics/span.cpp) can hold.
use columbo.Base.{
  ◌≡◌, refl, sym, Bool, true, false, ◌&&◌, Option, none, some, List, [], ◌∷◌, ◌==◌, arith,
  Bool-cases, inl, inr,
}
use columbo.Span.{EventType, Event, is_type}
use columbo.Span.Host.{HostMsixSpan, new_host_msix, add_to_host_msix}
use columbo.Span.Feed.{feed, Takes, guarded-Takes, two_types-Takes, feed-Takes}
use columbo.Span.Pairs.{pair_next, other_parser, this_parser, always_potential}

-- HostMsixSpan: an interrupt, and the completion of an access with the id 0.
abbrev pub interrupts : Event → Bool
interrupts e = is_type e EventType.host_msix

abbrev pub completes_none : Event → Event → Bool
completes_none x e = is_type e EventType.host_dma_c && (e.id == 0)

pub data HostMsixState : HostMsixSpan → Type 0 where
  empty : HostMsixState new_host_msix
  interrupted :
      (x : Event)
      → interrupts x ≡ true
      → HostMsixState (record {
        base = record { events = x ∷ []; is_pending = true };
        msix = some x;
        dma_c = none;
      })
  completed :
      (x y : Event)
      → interrupts x ≡ true
      → completes_none x y ≡ true
      → HostMsixState (record {
        base = record { events = x ∷ y ∷ []; is_pending = false };
        msix = some x;
        dma_c = some y;
      })

no_completion : (x e : Event) → interrupts e ≡ true → false ≡ completes_none x e
unfolding is_type
no_completion x e c = ground (arith, c)

add_to_host_msix-Takes :
    (s : HostMsixSpan) (e : Event)
    → HostMsixState s
    → Takes HostMsixState
        (pair_next interrupts completes_none s.base.events e)
        (add_to_host_msix s (some e))
unfolding add_to_host_msix
add_to_host_msix-Takes s e empty =
    guarded-Takes _ _ e _ HostMsixState _ (interrupts e) empty (always_potential e) (λ same. refl)
      (λ t.
        two_types-Takes HostMsixState (interrupts e) (interrupts e) (is_type e EventType.host_dma_c)
          _ _ _ (λ x. (interrupted e x, sym x)) (λ n c. (empty, sym n)) (λ n c. (empty, sym n)))
add_to_host_msix-Takes s e (interrupted x px) =
    guarded-Takes _ _ e _ HostMsixState _ (completes_none x e) (interrupted x px)
      (other_parser interrupts completes_none x e) (this_parser interrupts completes_none x e)
      (λ t.
        two_types-Takes HostMsixState (completes_none x e) (interrupts e)
          (is_type e EventType.host_dma_c) _ _ _ (λ p. (interrupted x px, no_completion x e p))
          (λ n c. elim (Bool-cases (e.id == 0)) [
            | inl z ↦ rw (c, z) (completed x e px (rw (c, z) refl), refl)
            | inr o ↦ rw (c, o) (interrupted x px, refl)
          ])
          (λ n c. (interrupted x px, rw c refl)))
add_to_host_msix-Takes s e (completed x y px c) =
    guarded-Takes _ _ e _ HostMsixState _ false (completed x y px c) (λ f. refl) (λ same. refl)
      (λ t. absurd (cc t))

-- Whatever events a new HostMsixSpan was offered, it is empty, or pending with an interrupt, or complete with an
-- interrupt and the completion of an access with the id 0; it takes an event exactly if that is the next of
-- these and of the same parser.
pub host_msix-HostMsixState :
    (events : List (Option Event)) (e : Event)
    → let s = feed add_to_host_msix new_host_msix events in
      HostMsixState s
      × ((add_to_host_msix s (some e)).1 ≡ pair_next interrupts completes_none s.base.events e)
unfolding add_to_host_msix
host_msix-HostMsixState events e =
    feed-Takes add_to_host_msix HostMsixState
      (λ s. pair_next interrupts completes_none s.base.events) (λ s. refl) add_to_host_msix-Takes
      new_host_msix events e empty
