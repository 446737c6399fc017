-- ===== src/Span/NetDeviceLeave.antt =====
-- What a NetDeviceSpan (source/analytics/span.cpp) makes of the packet that leaves.
use columbo.Base.{
  ◌≡◌, refl, sym, ◌∙◌, ap, true, false, ◌&&◌, none, some, [], ◌∷◌, if◌then◌else◌, Bool-cases, inl,
  inr,
}
use columbo.Span.{EventType, Event, is_type, push_back}
use columbo.Span.NetDevice.{NetDeviceSpan, set_and_check, is_consistent, leaves}
use columbo.Span.Addresses.{
  names, agrees, known, Knows-Checks, set_and_check-Checks, checked-agrees,
}
use columbo.Span.Feed.{Takes}
use columbo.Span.NetDeviceState.{exits, HasEntered, NetDeviceState, inside, gone}

checked-HasEntered :
    (s : NetDeviceSpan) (x e : Event) → HasEntered s x → HasEntered (set_and_check s e.network).0 x
checked-HasEntered s x e h =
    let c = set_and_check-Checks s e.network in
    record {
      dev_enq = c.dev_enq ∙ h.dev_enq;
      type = h.type;
      node = c.node ∙ h.node;
      device = c.device ∙ h.device;
      knows = Knows-Checks s (names e.network) _ (names x.network) c h.knows;
    }

-- A dequeue or a drop, where `set_event` makes a span that the packet has left.
pub leaves-Takes :
    (set_event : NetDeviceSpan → Event → NetDeviceSpan) (s : NetDeviceSpan) (x e : Event)
    → HasEntered s x
    → s.dev_deq ≡ none
    → s.drop_event ≡ none
    → s.base ≡ (record { events = x ∷ []; is_pending = true })
    → ((set_and_check s e.network).1 ≡ true
        → is_consistent x.network e.network ≡ true
        → NetDeviceState (set_event (set_and_check s e.network).0 e))
    → Takes NetDeviceState
        (is_consistent x.network e.network && agrees (known s) (names e.network))
        (leaves set_event s e)
unfolding leaves
leaves-Takes set_event s x e h deq drop base left =
    let c = set_and_check-Checks s e.network in
    let same = checked-agrees s (names e.network) _ c in
    elim (Bool-cases (is_consistent x.network e.network)) [
      | inr f ↦ simp (leaves, h.dev_enq, deq, drop, f) (inside x h deq drop base, refl)
      | inl t ↦ elim (Bool-cases (set_and_check s e.network).1) [
        | inr f ↦
            simp (leaves, h.dev_enq, deq, drop, t, f)
              (
                inside x (checked-HasEntered s x e h) (c.dev_deq ∙ deq) (c.drop_event ∙ drop)
                    (c.base ∙ base),
                sym (same ∙ f),
              )
        | inl ok ↦ simp (leaves, h.dev_enq, deq, drop, t, ok) (left ok t, sym (same ∙ ok))
      ]
    ]

pub none_inside :
    (set_event : NetDeviceSpan → Event → NetDeviceSpan) (s : NetDeviceSpan) (e : Event)
    → s.dev_enq ≡ none
    → leaves set_event s e ≡ (s, false)
unfolding leaves
none_inside set_event s e n = simp (leaves, n) refl

-- The fields of a span whose packet has left.
pub out_of :
    (s t : NetDeviceSpan) (x e : Event)
    → HasEntered s x
    → s.base ≡ (record { events = x ∷ []; is_pending = true })
    → (set_and_check s e.network).1 ≡ true
    → is_consistent x.network e.network ≡ true
    → exits e ≡ true
    → t.dev_enq ≡ (set_and_check s e.network).0.dev_enq
    → t.node ≡ (set_and_check s e.network).0.node
    → t.device ≡ (set_and_check s e.network).0.device
    → known t ≡ known (set_and_check s e.network).0
    → t.dev_deq ≡ (if is_type e EventType.network_dequeue then some e else none)
    → t.drop_event ≡ (if is_type e EventType.network_dequeue then none else some e)
    → t.base ≡ push_back (set_and_check s e.network).0.base e false
    → NetDeviceState t
out_of s t x e h base ok same type enq node device k deq drop left =
    let c = set_and_check-Checks s e.network in
    let inside_still = checked-HasEntered s x e h in
    gone x e
      (record {
        dev_enq = enq ∙ inside_still.dev_enq;
        type = h.type;
        node = node ∙ inside_still.node;
        device = device ∙ inside_still.device;
        knows = rw k inside_still.knows;
      })
      (record {
        dev_deq = deq;
        drop_event = drop;
        type = type;
        consistent = same;
        knows = rw k (c.knows ok);
      })
      (left ∙ ap (λ b. push_back b e false) (c.base ∙ base))
