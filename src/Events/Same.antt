-- ===== src/Events/Same.antt =====
-- When events are Equal.
use columbo.Base.{◌≡◌, refl, subst, ◌↔◌, Bool, true, false, ◌&&◌, ◌==◌, arith, ==_refl, ==→eq}
use columbo.StringInternalizer.Addresses.{text_eq-≡, text_eq_refl}
use columbo.Span.{code}
use columbo.Events.{EventClass, NicDmaKind, host_call, nic_dma, class_name, Event}
use columbo.Events.Equal.{event_type, nic_dma_type, event_equal, equal_fields, equal}

abbrev pub is_call : EventClass → Bool
is_call (host_call pc func comp) = true
is_call _ = false

dma_kind-same :
    (d d' : NicDmaKind) → (code (nic_dma_type d) == code (nic_dma_type d')) ≡ true → d ≡ d'
dma_kind-same d d' t = ground arith

-- Two classes with the same type that compare equal have the same fields.
fields-same :
    (k k' : EventClass)
    → equal_fields k k' ≡ true
    → (code (event_type k) == code (event_type k')) ≡ true
    → k ≡ k'
unfolding equal_fields
fields-same (host_call pc func comp) (host_call pc' func' comp') e t = ground arith
fields-same (nic_dma d id addr len) (nic_dma d' id' addr' len') e t =
    ground (arith, dma_kind-same d d')
fields-same _ _ e t = ground arith

-- A HostCall compares its HostInstr part with an event that has not the type of a HostInstr.
fields_no_call : (k k' : EventClass) → equal_fields k k' ≡ true → is_call k ≡ false
unfolding equal_fields
fields_no_call (host_call pc func comp) k' e = ground arith
fields_no_call _ k' e = refl

fields_refl : (k : EventClass) → is_call k ≡ false → equal_fields k k ≡ true
unfolding equal_fields
fields_refl (host_call pc func comp) n = absurd (cc n)
fields_refl (nic_dma d id addr len) n = ground arith
fields_refl _ n = ground arith

and_both : (a b : Bool) → (a && b) ≡ true → (a ≡ true) × (b ≡ true)
and_both true b e = (refl, e)
and_both false b e = absurd (cc e)

and_of : (a b : Bool) → a ≡ true → b ≡ true → (a && b) ≡ true
and_of true b e f = f
and_of false b e f = absurd (cc e)

event_of_fields :
    (e other : Event)
    → e.kind ≡ other.kind
    → e.timestamp ≡ other.timestamp
    → e.parser_identifier ≡ other.parser_identifier
    → e.parser_name ≡ other.parser_name
    → e ≡ other
event_of_fields e other k t i n =
    λ j. record { kind = k j; timestamp = t j; parser_identifier = i j; parser_name = n j }

event_equal-same :
    (e other : Event)
    → event_equal e other ≡ true
    → (e.timestamp ≡ other.timestamp)
      × (e.parser_identifier ≡ other.parser_identifier)
      × (e.parser_name ≡ other.parser_name)
      × ((code (event_type e.kind) == code (event_type other.kind)) ≡ true)
unfolding event_equal
event_equal-same e other q =
    let (t, q1) = and_both _ _ q in
    let (i, q2) = and_both _ _ q1 in
    let (n, q3) = and_both _ _ q2 in
    (
      ==→eq e.timestamp other.timestamp t,
      ==→eq e.parser_identifier other.parser_identifier i,
      text_eq-≡ e.parser_name other.parser_name n,
      (and_both _ _ q3).0,
    )

event_equal_refl : (e : Event) → event_equal e e ≡ true
unfolding event_equal
event_equal_refl e = and_of _ _ (==_refl e.timestamp) (
    and_of _ _ (==_refl e.parser_identifier) (
      and_of _ _ (text_eq_refl e.parser_name)
        (and_of _ _ (==_refl (code (event_type e.kind))) (text_eq_refl (class_name e.kind)))))

equal-same : (e other : Event) → equal e other ≡ true → (e ≡ other) × (is_call e.kind ≡ false)
unfolding equal
equal-same e other q =
    let (f, b) = and_both (equal_fields e.kind other.kind) (event_equal e other) q in
    let (t, i, n, c) = event_equal-same e other b in
    (
      event_of_fields e other (fields-same e.kind other.kind f c) t i n,
      fields_no_call e.kind other.kind f,
    )

equal_refl : (e : Event) → is_call e.kind ≡ false → equal e e ≡ true
unfolding equal
equal_refl e n = and_of _ _ (fields_refl e.kind n) (event_equal_refl e)

-- Equal of an event that does not come from the network says whether the other event is the same one, in all fields;
-- but it says so of no HostCall.
pub equal_lem :
    (e other : Event) → (equal e other ≡ true) ↔ ((e ≡ other) × (is_call e.kind ≡ false))
equal_lem e other =
    (equal-same e other, λ (same, n). subst (λ o. equal e o ≡ true) same (equal_refl e n))
