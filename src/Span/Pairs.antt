-- ===== src/Span/Pairs.antt =====
-- What a HostIntSpan (source/analytics/span.cpp) can hold, and what it shares with the other spans of a first event
-- and one that answers it.
use columbo.Base.{
  ◌≡◌, refl, sym, Bool, true, false, ◌&&◌, Option, none, some, List, [], ◌∷◌, ◌==◌, arith,
}
use columbo.Span.{EventType, Event, new_base, is_type, is_potential_add}
use columbo.Span.Host.{HostIntSpan, new_host_int, add_to_host_int}
use columbo.Span.Feed.{feed, Takes, guarded-Takes, two_types-Takes, feed-Takes}

-- A span with these of the events opens, and with these closes.
abbrev pub pair_next : (Event → Bool) → (Event → Event → Bool) → List Event → Event → Bool
pair_next opens closes [] e = opens e
pair_next opens closes (x ∷ []) e = x.parser_ident == e.parser_ident && closes x e
pair_next opens closes (x ∷ y ∷ es) e = false

abbrev pub posts : Event → Bool
posts e = is_type e EventType.host_post_int

abbrev pub clears : Event → Event → Bool
clears x e = is_type e EventType.host_clear_int

pub data HostIntState : HostIntSpan → Type 0 where
  empty : HostIntState new_host_int
  posted :
      (x : Event)
      → posts x ≡ true
      → HostIntState (record {
        base = record { events = x ∷ []; is_pending = true };
        post_int = some x;
        clear_int = none;
      })
  cleared :
      (x y : Event)
      → posts x ≡ true
      → clears x y ≡ true
      → HostIntState (record {
        base = record { events = x ∷ y ∷ []; is_pending = false };
        post_int = some x;
        clear_int = some y;
      })

-- The second event of a span is not of the type of the first, and a span with two takes no more.
not_both : (e : Event) → posts e ≡ true → false ≡ is_type e EventType.host_clear_int
unfolding is_type
not_both e c = ground (arith, c)

pub other_parser :
    (opens : Event → Bool) (closes : Event → Event → Bool) (x e : Event)
    → is_potential_add (record { events = x ∷ []; is_pending = true }) e ≡ false
    → pair_next opens closes (x ∷ []) e ≡ false
unfolding is_potential_add
other_parser opens closes x e f = rw f refl

pub this_parser :
    (opens : Event → Bool) (closes : Event → Event → Bool) (x e : Event)
    → (x.parser_ident == e.parser_ident) ≡ true
    → closes x e ≡ pair_next opens closes (x ∷ []) e
this_parser opens closes x e t = rw t refl

pub always_potential : (e : Event) {b : Bool} → is_potential_add new_base e ≡ false → b ≡ false
unfolding is_potential_add
always_potential e f = absurd (cc f)

add_to_host_int-Takes :
    (s : HostIntSpan) (e : Event)
    → HostIntState s
    → Takes HostIntState (pair_next posts clears s.base.events e) (add_to_host_int s (some e))
unfolding add_to_host_int
add_to_host_int-Takes s e empty =
    guarded-Takes _ _ e _ HostIntState _ (posts e) empty (always_potential e) (λ same. refl)
      (λ t.
        two_types-Takes HostIntState (posts e) (posts e) (is_type e EventType.host_clear_int) _ _ _
          (λ x. (posted e x, sym x)) (λ n c. (empty, sym n)) (λ n c. (empty, sym n)))
add_to_host_int-Takes s e (posted x px) =
    guarded-Takes _ _ e _ HostIntState _ (clears x e) (posted x px) (other_parser posts clears x e)
      (this_parser posts clears x e)
      (λ t.
        two_types-Takes HostIntState (clears x e) (posts e) (is_type e EventType.host_clear_int) _ _
          _ (λ p. (posted x px, not_both e p)) (λ n c. (cleared x e px c, sym c))
          (λ n c. (posted x px, sym c)))
add_to_host_int-Takes s e (cleared x y px cy) =
    guarded-Takes _ _ e _ HostIntState _ false (cleared x y px cy) (λ f. refl) (λ same. refl)
      (λ t. absurd (cc t))

-- Whatever events a new HostIntSpan was offered, it is empty, or pending with a posted interrupt, or complete with
-- a posted interrupt and a cleared one; it takes an event exactly if that is the next of these and of the same
-- parser.
pub host_int-HostIntState :
    (events : List (Option Event)) (e : Event)
    → let s = feed add_to_host_int new_host_int events in
      HostIntState s × ((add_to_host_int s (some e)).1 ≡ pair_next posts clears s.base.events e)
unfolding add_to_host_int
host_int-HostIntState events e =
    feed-Takes add_to_host_int HostIntState (λ s. pair_next posts clears s.base.events) (λ s. refl)
      add_to_host_int-Takes new_host_int events e empty
