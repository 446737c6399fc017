-- ===== src/Span/Pci.antt =====
-- What a HostPciSpan (source/analytics/span.cpp) can hold.
use columbo.Base.{
  ◌≡◌, refl, sym, Bool, true, false, ◌&&◌, Option, none, some, List, [], ◌∷◌, arith, Bool-cases,
  inl, inr,
}
use columbo.Span.{EventType, Event, is_type}
use columbo.Span.Host.{HostPciSpan, new_host_pci, add_to_host_pci, same_bool}
use columbo.Span.Feed.{feed, Takes, guarded-Takes, two_types-Takes, feed-Takes}
use columbo.Span.Pairs.{pair_next, other_parser, this_parser, always_potential}

-- HostPciSpan: an access to the configuration space, and the event of the device that goes the same way.
abbrev pub accesses : Event → Bool
accesses e = is_type e EventType.host_pci_rw

abbrev pub configures : Event → Event → Bool
configures x e = is_type e EventType.host_conf && same_bool e.is_read x.is_read

pub data HostPciState : HostPciSpan → Type 0 where
  empty : HostPciState new_host_pci
  accessed :
      (x : Event)
      → accesses x ≡ true
      → HostPciState (record {
        base = record { events = x ∷ []; is_pending = true };
        pci_rw = some x;
        conf_rw = none;
        is_read = x.is_read;
      })
  configured :
      (x y : Event)
      → accesses x ≡ true
      → configures x y ≡ true
      → HostPciState (record {
        base = record { events = x ∷ y ∷ []; is_pending = false };
        pci_rw = some x;
        conf_rw = some y;
        is_read = x.is_read;
      })

no_configuration : (x e : Event) → accesses e ≡ true → false ≡ configures x e
unfolding is_type
no_configuration x e c = ground (arith, c)

add_to_host_pci-Takes :
    (s : HostPciSpan) (e : Event)
    → HostPciState s
    → Takes HostPciState
        (pair_next accesses configures s.base.events e)
        (add_to_host_pci s (some e))
unfolding add_to_host_pci
add_to_host_pci-Takes s e empty =
    guarded-Takes _ _ e _ HostPciState _ (accesses e) empty (always_potential e) (λ same. refl)
      (λ t.
        two_types-Takes HostPciState (accesses e) (accesses e) (is_type e EventType.host_conf) _ _ _
          (λ x. (accessed e x, sym x)) (λ n c. (empty, sym n)) (λ n c. (empty, sym n)))
add_to_host_pci-Takes s e (accessed x px) =
    guarded-Takes _ _ e _ HostPciState _ (configures x e) (accessed x px)
      (other_parser accesses configures x e) (this_parser accesses configures x e)
      (λ t.
        two_types-Takes HostPciState (configures x e) (accesses e) (is_type e EventType.host_conf) _
          _ _ (λ p. (accessed x px, no_configuration x e p))
          (λ n c. elim (Bool-cases (same_bool e.is_read x.is_read)) [
            | inl z ↦ rw (c, z) (configured x e px (rw (c, z) refl), refl)
            | inr o ↦ rw (c, o) (accessed x px, refl)
          ])
          (λ n c. (accessed x px, rw c refl)))
add_to_host_pci-Takes s e (configured x y px c) =
    guarded-Takes _ _ e _ HostPciState _ false (configured x y px c) (λ f. refl) (λ same. refl)
      (λ t. absurd (cc t))

-- Whatever events a new HostPciSpan was offered, it is empty, or pending with an access, or complete with an
-- access and the configuration event that reads exactly if the access does; it takes an event exactly if that
-- is the next of these and of the same parser.
pub host_pci-HostPciState :
    (events : List (Option Event)) (e : Event)
    → let s = feed add_to_host_pci new_host_pci events in
      HostPciState s
      × ((add_to_host_pci s (some e)).1 ≡ pair_next accesses configures s.base.events e)
unfolding add_to_host_pci
host_pci-HostPciState events e =
    feed-Takes add_to_host_pci HostPciState (λ s. pair_next accesses configures s.base.events)
      (λ s. refl) add_to_host_pci-Takes new_host_pci events e empty
