-- ===== src/Span/Single.antt =====
-- NicMmioSpan, NicEthSpan and NicMsixSpan (include/analytics/span.h, source/analytics/span.cpp), which hold one event.
use columbo.Base.{
  ◌≡◌, refl, Bool, true, false, ◌||◌, Option, none, some, List, [], ◌∷◌, if◌then◌else◌, Bool-cases,
  inl, inr, subst,
}
use columbo.Span.{EventType, Event, Base, new_base, is_type, is_set, push_back, guarded}
use columbo.Span.Feed.{Takes, guarded-Takes, two_types-Takes}
use columbo.Span.Pairs.{always_potential}

pub record NicMmioSpan : Type 0 where
  pub base : Base
  pub action : Option Event
  pub is_read : Bool

abbrev pub new_nic_mmio : NicMmioSpan
new_nic_mmio = record { base = new_base; action = none; is_read = false }

unfoldable pub add_to_nic_mmio : NicMmioSpan → Option Event → NicMmioSpan × Bool
add_to_nic_mmio s event = guarded s.base s event (λ e.
    if is_set s.action
    then (s, false)
    else if is_type e EventType.nic_mmio_r
    then (record { base = push_back s.base e false; action = some e; is_read = true }, true)
    else if is_type e EventType.nic_mmio_w
    then (record { base = push_back s.base e false; action = some e; is_read = false }, true)
    else (s, false))

pub record NicEthSpan : Type 0 where
  pub base : Base
  pub tx_rx : Option Event
  pub is_send : Bool

abbrev pub new_nic_eth : NicEthSpan
new_nic_eth = record { base = new_base; tx_rx = none; is_send = false }

unfoldable pub add_to_nic_eth : NicEthSpan → Option Event → NicEthSpan × Bool
add_to_nic_eth s event = guarded s.base s event (λ e.
    if is_set s.tx_rx
    then (s, false)
    else if is_type e EventType.nic_tx
    then (record { base = push_back s.base e false; tx_rx = some e; is_send = true }, true)
    else if is_type e EventType.nic_rx
    then (record { base = push_back s.base e false; tx_rx = some e; is_send = false }, true)
    else (s, false))

pub record NicMsixSpan : Type 0 where
  pub base : Base
  pub nic_msix : Option Event

abbrev pub new_nic_msix : NicMsixSpan
new_nic_msix = record { base = new_base; nic_msix = none }

unfoldable pub add_to_nic_msix : NicMsixSpan → Option Event → NicMsixSpan × Bool
add_to_nic_msix s event = guarded s.base s event (λ e.
    if is_type e EventType.nic_msix
    then (if is_set s.nic_msix
        then (s, false)
        else (record { base = push_back s.base e false; nic_msix = some e }, true))
    else (s, false))

-- What a span of one event takes next.
abbrev pub single_next : (Event → Bool) → List Event → Event → Bool
single_next fits [] e = fits e
single_next fits (x ∷ es) e = false

abbrev pub is_mmio : Event → Bool
is_mmio e = is_type e EventType.nic_mmio_r || is_type e EventType.nic_mmio_w

abbrev pub is_trx : Event → Bool
is_trx e = is_type e EventType.nic_tx || is_type e EventType.nic_rx

pub data NicMmioState : NicMmioSpan → Type 0 where
  empty : NicMmioState new_nic_mmio
  done :
      (e : Event)
      → is_mmio e ≡ true
      → NicMmioState (record {
        base = record { events = e ∷ []; is_pending = false };
        action = some e;
        is_read = is_type e EventType.nic_mmio_r;
      })

pub data NicEthState : NicEthSpan → Type 0 where
  empty : NicEthState new_nic_eth
  done :
      (e : Event)
      → is_trx e ≡ true
      → NicEthState (record {
        base = record { events = e ∷ []; is_pending = false };
        tx_rx = some e;
        is_send = is_type e EventType.nic_tx;
      })

mmio_done :
    (e : Event) (b : Bool)
    → is_mmio e ≡ true
    → is_type e EventType.nic_mmio_r ≡ b
    → NicMmioState (record {
      base = record { events = e ∷ []; is_pending = false };
      action = some e;
      is_read = b;
    })
mmio_done e b t r =
    subst
      (λ c. NicMmioState (record {
        base = record { events = e ∷ []; is_pending = false };
        action = some e;
        is_read = c;
      }))
      r (NicMmioState.done e t)

eth_done :
    (e : Event) (b : Bool)
    → is_trx e ≡ true
    → is_type e EventType.nic_tx ≡ b
    → NicEthState (record {
      base = record { events = e ∷ []; is_pending = false };
      tx_rx = some e;
      is_send = b;
    })
eth_done e b t r =
    subst
      (λ c. NicEthState (record {
        base = record { events = e ∷ []; is_pending = false };
        tx_rx = some e;
        is_send = c;
      }))
      r (NicEthState.done e t)

pub add_to_nic_mmio-Takes :
    (s : NicMmioSpan) (e : Event)
    → NicMmioState s
    → Takes NicMmioState (single_next is_mmio s.base.events e) (add_to_nic_mmio s (some e))
unfolding add_to_nic_mmio
add_to_nic_mmio-Takes s e NicMmioState.empty =
    guarded-Takes _ _ e _ NicMmioState _ (is_mmio e) NicMmioState.empty (always_potential e)
      (λ same. refl)
      (λ t.
        two_types-Takes NicMmioState (is_mmio e) (is_type e EventType.nic_mmio_r)
          (is_type e EventType.nic_mmio_w) _ _ _ (λ r. (mmio_done e true (rw r refl) r, rw r refl))
          (λ r w. (mmio_done e false (rw (r, w) refl) r, rw (r, w) refl))
          (λ r w. (NicMmioState.empty, rw (r, w) refl)))
add_to_nic_mmio-Takes s e (NicMmioState.done x t) =
    guarded-Takes _ _ e _ NicMmioState _ false (NicMmioState.done x t) (λ f. refl) (λ same. refl)
      (λ p. absurd (cc p))

pub add_to_nic_eth-Takes :
    (s : NicEthSpan) (e : Event)
    → NicEthState s
    → Takes NicEthState (single_next is_trx s.base.events e) (add_to_nic_eth s (some e))
unfolding add_to_nic_eth
add_to_nic_eth-Takes s e NicEthState.empty =
    guarded-Takes _ _ e _ NicEthState _ (is_trx e) NicEthState.empty (always_potential e)
      (λ same. refl)
      (λ t.
        two_types-Takes NicEthState (is_trx e) (is_type e EventType.nic_tx)
          (is_type e EventType.nic_rx) _ _ _ (λ r. (eth_done e true (rw r refl) r, rw r refl))
          (λ r w. (eth_done e false (rw (r, w) refl) r, rw (r, w) refl))
          (λ r w. (NicEthState.empty, rw (r, w) refl)))
add_to_nic_eth-Takes s e (NicEthState.done x t) =
    guarded-Takes _ _ e _ NicEthState _ false (NicEthState.done x t) (λ f. refl) (λ same. refl)
      (λ p. absurd (cc p))

pub data NicMsixState : NicMsixSpan → Type 0 where
  empty : NicMsixState new_nic_msix
  done :
      (e : Event)
      → is_type e EventType.nic_msix ≡ true
      → NicMsixState
          (record { base = record { events = e ∷ []; is_pending = false }; nic_msix = some e })

abbrev pub is_msix : Event → Bool
is_msix e = is_type e EventType.nic_msix

pub add_to_nic_msix-Takes :
    (s : NicMsixSpan) (e : Event)
    → NicMsixState s
    → Takes NicMsixState (single_next is_msix s.base.events e) (add_to_nic_msix s (some e))
unfolding add_to_nic_msix
add_to_nic_msix-Takes s e NicMsixState.empty =
    guarded-Takes _ _ e _ NicMsixState _ (is_msix e) NicMsixState.empty (always_potential e)
      (λ same. refl)
      (λ t. elim (Bool-cases (is_msix e)) [
        | inl m ↦ rw m (NicMsixState.done e m, refl)
        | inr n ↦ rw n (NicMsixState.empty, refl)
      ])
add_to_nic_msix-Takes s e (NicMsixState.done x t) =
    guarded-Takes _ _ e _ NicMsixState _ false (NicMsixState.done x t) (λ f. refl) (λ same. refl)
      (λ p. absurd (cc p))
