-- ===== src/Span/NetDeviceAdd.antt =====
-- What a NetDeviceSpan (source/analytics/span.cpp) makes of an event.
use columbo.Base.{
  ◌≡◌, refl, sym, ◌∙◌, ap, Bool, true, false, ◌&&◌, Option, none, some, List, [], ◌∷◌, Bool-cases,
  inl, inr, arith,
}
use columbo.Span.{EventType, Event, new_base, is_type, is_potential_add, push_back, same_parser}
use columbo.Span.NetDevice.{
  NetDeviceSpan, new_net_device, set_and_check, is_consistent, handel_enqueue, leaves,
  handel_dequeue, handel_drop, add_to_net_device, dequeued, dropped,
}
use columbo.Span.Addresses.{names, agrees, known, set_and_check-Checks, checked-agrees}
use columbo.Span.Pairs.{always_potential, other_parser, this_parser}
use columbo.Span.Feed.{feed, Takes, Takes-next, guarded-Takes, three_types-Takes, feed-Takes}
use columbo.Span.NetDeviceState.{
  enters, exits, net_device_next, HasEntered, NetDeviceState, empty, inside, gone,
}
use columbo.Span.NetDeviceLeave.{leaves-Takes, none_inside, out_of}

handel_enqueue-Takes :
    (s : NetDeviceSpan) (e : Event)
    → s.dev_enq ≡ none
    → s.dev_deq ≡ none
    → s.drop_event ≡ none
    → s.base ≡ new_base
    → enters e ≡ true
    → Takes NetDeviceState (agrees (known s) (names e.network)) (handel_enqueue s e)
unfolding handel_enqueue
handel_enqueue-Takes s e enq deq drop base t =
    let c = set_and_check-Checks s e.network in
    elim (Bool-cases (set_and_check s e.network).1) [
      | inr f ↦
          simp (enq, f)
            (
              empty (c.dev_enq ∙ enq) (c.dev_deq ∙ deq) (c.drop_event ∙ drop) (c.base ∙ base),
              sym (checked-agrees s (names e.network) _ c ∙ f),
            )
      | inl ok ↦
          simp (enq, ok)
            (
              inside e
                  (record {
                    dev_enq = refl;
                    type = t;
                    node = refl;
                    device = refl;
                    knows = c.knows ok;
                  })
                  (c.dev_deq ∙ deq) (c.drop_event ∙ drop)
                  (ap (λ b. push_back b e b.is_pending) (c.base ∙ base)),
              sym (checked-agrees s (names e.network) _ c ∙ ok),
            )
    ]

no_exit : (e : Event) → enters e ≡ true → exits e ≡ false
unfolding is_type
no_exit e t = ground (arith, t)

not_taken :
    (s : NetDeviceSpan) (b c : Bool) (r : NetDeviceSpan × Bool)
    → NetDeviceState s
    → b ≡ false
    → r ≡ (s, false)
    → Takes NetDeviceState (b && c) r
not_taken s b c r p n is = rw (n, is) (p, refl)

empty-Takes :
    (s : NetDeviceSpan) (e : Event)
    → s.dev_enq ≡ none
    → s.dev_deq ≡ none
    → s.drop_event ≡ none
    → s.base ≡ new_base
    → Takes NetDeviceState
        (enters e && agrees (known s) (names e.network))
        (add_to_net_device s (some e))
unfolding add_to_net_device handel_dequeue handel_drop
empty-Takes s e enq deq drop base =
    let there = empty enq deq drop base in
    let rest = agrees (known s) (names e.network) in
    let next = enters e && rest in
    guarded-Takes s.base s e _ NetDeviceState next next there
      (λ f. always_potential e (ap (λ b. is_potential_add b e) (sym base) ∙ f)) (λ same. refl)
      (λ pending.
        three_types-Takes NetDeviceState next (enters e) (is_type e EventType.network_dequeue)
          (is_type e EventType.network_drop) s _ _ _
          (λ t.
            Takes-next NetDeviceState _ (ap (λ b. b && rest) (sym t))
              (handel_enqueue-Takes s e enq deq drop base t))
          (λ n t. not_taken s (enters e) rest _ there n (none_inside dequeued s e enq))
          (λ n m t. not_taken s (enters e) rest _ there n (none_inside dropped s e enq))
          (λ n m k. not_taken s (enters e) rest _ there n refl))

second_enqueue :
    (s : NetDeviceSpan) (x e : Event) → s.dev_enq ≡ some x → handel_enqueue s e ≡ (s, false)
unfolding handel_enqueue
second_enqueue s x e h = simp (handel_enqueue, h) refl

inside-Takes :
    (s : NetDeviceSpan) (x e : Event)
    → HasEntered s x
    → s.dev_deq ≡ none
    → s.drop_event ≡ none
    → s.base ≡ (record { events = x ∷ []; is_pending = true })
    → Takes NetDeviceState (net_device_next (x ∷ []) (known s) e) (add_to_net_device s (some e))
unfolding add_to_net_device handel_dequeue handel_drop
inside-Takes s x e h deq drop base =
    let there = inside x h deq drop base in
    let rest = is_consistent x.network e.network && agrees (known s) (names e.network) in
    let wanted = exits e && rest in
    let c = set_and_check-Checks s e.network in
    guarded-Takes s.base s e _ NetDeviceState (net_device_next (x ∷ []) (known s) e) wanted there
      (λ f.
        other_parser (λ e'. true) (λ x' e'. wanted) x e
          (sym (ap (λ b. is_potential_add b e) base) ∙ f))
      (λ same.
        this_parser (λ e'. true) (λ x' e'. wanted) x e
          (sym (ap (λ b. same_parser b.events e) base) ∙ same))
      (λ pending.
        three_types-Takes NetDeviceState wanted (enters e) (is_type e EventType.network_dequeue)
          (is_type e EventType.network_drop) s _ _ _
          (λ t. not_taken s (exits e) rest _ there (no_exit e t) (second_enqueue s x e h.dev_enq))
          (λ n t.
            let type : exits e ≡ true = rw t refl in
            Takes-next NetDeviceState (leaves dequeued s e) (ap (λ b. b && rest) (sym type)) (
              leaves-Takes dequeued s x e h deq drop base (λ ok same.
                out_of s (dequeued (set_and_check s e.network).0 e) x e h base ok same type refl
                  refl refl refl (rw t refl) (rw t (c.drop_event ∙ drop)) refl)))
          (λ n m t.
            let type : exits e ≡ true = rw (m, t) refl in
            Takes-next NetDeviceState (leaves dropped s e) (ap (λ b. b && rest) (sym type)) (
              leaves-Takes dropped s x e h deq drop base (λ ok same.
                out_of s (dropped (set_and_check s e.network).0 e) x e h base ok same type refl refl
                  refl refl (rw m (c.dev_deq ∙ deq)) (rw m refl) refl)))
          (λ n m k.
            let out : exits e ≡ false = rw (m, k) refl in
            not_taken s (exits e) rest _ there out refl))

gone-Takes :
    (s : NetDeviceSpan) (x y e : Event)
    → NetDeviceState s
    → s.base ≡ (record { events = x ∷ y ∷ []; is_pending = false })
    → Takes NetDeviceState false (add_to_net_device s (some e))
unfolding add_to_net_device
gone-Takes s x y e there base =
    guarded-Takes s.base s e _ NetDeviceState false false there (λ f. refl) (λ same. refl)
      (λ pending. absurd (let no = ap (λ b. b.is_pending) base in cc (pending, no)))

add_to_net_device-Takes :
    (s : NetDeviceSpan) (e : Event)
    → NetDeviceState s
    → Takes NetDeviceState
        (net_device_next s.base.events (known s) e)
        (add_to_net_device s (some e))
add_to_net_device-Takes s e (empty enq deq drop base) =
    Takes-next NetDeviceState (add_to_net_device s (some e))
      (ap (λ b. net_device_next b.events (known s) e) (sym base))
      (empty-Takes s e enq deq drop base)
add_to_net_device-Takes s e (inside x h deq drop base) =
    Takes-next NetDeviceState (add_to_net_device s (some e))
      (ap (λ b. net_device_next b.events (known s) e) (sym base))
      (inside-Takes s x e h deq drop base)
add_to_net_device-Takes s e (gone x y h l base) =
    Takes-next NetDeviceState (add_to_net_device s (some e))
      (ap (λ b. net_device_next b.events (known s) e) (sym base))
      (gone-Takes s x y e (gone x y h l base) base)

-- Whatever events a new NetDeviceSpan was offered, it is empty, or pending with an enqueue, or complete with an
-- enqueue and a dequeue or a drop that is consistent with it; it has the node and the device of the enqueue, and
-- all addresses that its events name are the pair that it knows. It takes an event exactly if that is the next of
-- these, of the same parser, consistent, and names no other addresses than those that are known.
pub net_device-NetDeviceState :
    (events : List (Option Event)) (e : Event)
    → let s = feed add_to_net_device new_net_device events in
      NetDeviceState s
      × ((add_to_net_device s (some e)).1 ≡ net_device_next s.base.events (known s) e)
unfolding add_to_net_device
net_device-NetDeviceState events e =
    feed-Takes add_to_net_device NetDeviceState (λ s. net_device_next s.base.events (known s))
      (λ s. refl) add_to_net_device-Takes new_net_device events e (empty refl refl refl refl)
