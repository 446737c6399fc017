-- ===== src/Span/OneEvent.antt =====
-- GenericSingleSpan (include/analytics/span.h), and what all the spans of one event can hold.
use columbo.Base.{
  refl, Bool, true, false, Option, none, some, List, [], ◌∷◌, if◌then◌else◌, ◌||◌, not,
}
use columbo.Span.{Event, Base, new_base, is_potential_add, is_set, push_back}
use columbo.Span.Feed.{feed, Takes, feed-Takes}
use columbo.Span.Single.{
  new_nic_mmio, add_to_nic_mmio, NicMmioState, add_to_nic_mmio-Takes, new_nic_eth, add_to_nic_eth,
  NicEthState, add_to_nic_eth-Takes, new_nic_msix, add_to_nic_msix, NicMsixState,
  add_to_nic_msix-Takes, single_next, is_mmio, is_trx, is_msix,
}

pub record GenericSingleSpan : Type 0 where
  pub base : Base
  pub event : Option Event

abbrev pub new_generic_single : GenericSingleSpan
new_generic_single = record { base = new_base; event = none }

unfoldable pub add_to_generic_single : GenericSingleSpan → Option Event → GenericSingleSpan × Bool
unfolding is_potential_add
add_to_generic_single s none = (s, false)
add_to_generic_single s (some e) =
    if not (is_potential_add s.base e) || is_set s.event
    then (s, false)
    else if is_set s.event
    then (s, false)
    else (record { base = push_back s.base e false; event = some e }, true)

pub data GenericSingleState : GenericSingleSpan → Type 0 where
  empty : GenericSingleState new_generic_single
  done :
      (e : Event)
      → GenericSingleState
          (record { base = record { events = e ∷ []; is_pending = false }; event = some e })

add_to_generic_single-Takes :
    (s : GenericSingleSpan) (e : Event)
    → GenericSingleState s
    → Takes GenericSingleState
        (single_next (λ x. true) s.base.events e)
        (add_to_generic_single s (some e))
unfolding add_to_generic_single is_potential_add
add_to_generic_single-Takes s e empty = (done e, refl)
add_to_generic_single-Takes s e (done x) = (done x, refl)

-- Whatever events a new NicMmioSpan, NicEthSpan, NicMsixSpan or GenericSingleSpan was offered, it is empty and pending,
-- or complete with one event of its types, and knows the way that the event goes; it takes an event exactly if it is
-- empty and the event is of its types. A GenericSingleSpan takes all types.
pub one_event_spans :
    (events : List (Option Event)) (e : Event)
    → let mmio = feed add_to_nic_mmio new_nic_mmio events in
      let eth = feed add_to_nic_eth new_nic_eth events in
      let msix = feed add_to_nic_msix new_nic_msix events in
      let generic = feed add_to_generic_single new_generic_single events in
      Takes NicMmioState
        (single_next is_mmio mmio.base.events e)
        (mmio, (add_to_nic_mmio mmio (some e)).1)
      × Takes NicEthState
          (single_next is_trx eth.base.events e)
          (eth, (add_to_nic_eth eth (some e)).1)
      × Takes NicMsixState
          (single_next is_msix msix.base.events e)
          (msix, (add_to_nic_msix msix (some e)).1)
      × Takes GenericSingleState
          (single_next (λ x. true) generic.base.events e)
          (generic, (add_to_generic_single generic (some e)).1)
unfolding add_to_nic_mmio add_to_nic_eth add_to_nic_msix add_to_generic_single
one_event_spans events e = (
  feed-Takes add_to_nic_mmio NicMmioState (λ s. single_next is_mmio s.base.events) (λ s. refl)
      add_to_nic_mmio-Takes new_nic_mmio events e NicMmioState.empty,
  feed-Takes add_to_nic_eth NicEthState (λ s. single_next is_trx s.base.events) (λ s. refl)
      add_to_nic_eth-Takes new_nic_eth events e NicEthState.empty,
  feed-Takes add_to_nic_msix NicMsixState (λ s. single_next is_msix s.base.events) (λ s. refl)
      add_to_nic_msix-Takes new_nic_msix events e NicMsixState.empty,
  feed-Takes add_to_generic_single GenericSingleState (λ s. single_next (λ x. true) s.base.events)
      (λ s. refl) add_to_generic_single-Takes new_generic_single events e empty,
)
