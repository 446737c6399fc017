-- ===== src/Span/NicDma.antt =====
-- What a NicDmaSpan (source/analytics/span.cpp) can hold.
use columbo.Base.{
  ◌≡◌, refl, Bool, true, false, ◌&&◌, ◌||◌, Option, none, some, List, [], ◌∷◌, ◌==◌, arith,
  if◌then◌else◌, Bool-cases, inl, inr,
}
use columbo.Span.{EventType, Event, is_type, is_potential_add}
use columbo.Span.Nic.{NicDmaSpan, new_nic_dma, add_to_nic_dma}
use columbo.Span.Feed.{feed, feed_keeps, guarded_keeps}

abbrev pub completes : Event → Bool
completes e = is_type e EventType.nic_dma_cw || is_type e EventType.nic_dma_cr

abbrev pub access_of : Event → Event → Bool
access_of i e = i.id == e.id && i.addr == e.addr

-- The states of a NicDmaSpan: empty, issued, executed and complete. A completion that is refused for its id or
-- address still sets whether the access reads.
pub data NicDmaState : NicDmaSpan → Type 0 where
  empty : NicDmaState new_nic_dma
  issued :
      (i : Event)
      → is_type i EventType.nic_dma_i ≡ true
      → NicDmaState (record {
        base = record { events = i ∷ []; is_pending = true };
        issue = some i;
        execution = none;
        completion = none;
        is_read = true;
      })
  executed :
      (i x : Event) (read : Bool)
      → is_type i EventType.nic_dma_i ≡ true
      → is_type x EventType.nic_dma_ex ≡ true
      → access_of i x ≡ true
      → NicDmaState (record {
        base = record { events = i ∷ x ∷ []; is_pending = true };
        issue = some i;
        execution = some x;
        completion = none;
        is_read = read;
      })
  complete :
      (i x c : Event)
      → is_type i EventType.nic_dma_i ≡ true
      → is_type x EventType.nic_dma_ex ≡ true
      → access_of i x ≡ true
      → completes c ≡ true
      → access_of i c ≡ true
      → NicDmaState (record {
        base = record { events = i ∷ x ∷ c ∷ []; is_pending = false };
        issue = some i;
        execution = some x;
        completion = some c;
        is_read = is_type c EventType.nic_dma_cr;
      })

-- What the events of a span let it take next.
abbrev pub nic_dma_next : List Event → Event → Bool
nic_dma_next [] e = is_type e EventType.nic_dma_i
nic_dma_next (i ∷ []) e =
    i.parser_ident == e.parser_ident && (is_type e EventType.nic_dma_ex && access_of i e)
nic_dma_next (i ∷ x ∷ []) e = i.parser_ident == e.parser_ident && (completes e && access_of i e)
nic_dma_next (i ∷ x ∷ y ∷ es) e = false

-- The types that the switch tells apart exclude each other.
ex_excludes :
    (e : Event)
    → is_type e EventType.nic_dma_ex ≡ true
    → (is_type e EventType.nic_dma_i ≡ false) × (completes e ≡ false)
unfolding is_type
ex_excludes e c = (ground (arith, c), ground (arith, c))

completion_excludes :
    (e : Event)
    → completes e ≡ true
    → (is_type e EventType.nic_dma_i ≡ false) × (is_type e EventType.nic_dma_ex ≡ false)
unfolding is_type
completion_excludes e c = (ground (arith, c), ground (arith, c))

-- What the span becomes, by the type of the event.
module _ (P : NicDmaSpan → Type 0) where
  by_type :
      (e : Event) (s : NicDmaSpan) (on_issue on_execution on_completion : NicDmaSpan × Bool)
      → (is_type e EventType.nic_dma_i ≡ true → P on_issue.0)
      → (is_type e EventType.nic_dma_ex ≡ true → P on_execution.0)
      → (completes e ≡ true → P on_completion.0)
      → P s
      → P
          (if is_type e EventType.nic_dma_i
            then on_issue
            else if is_type e EventType.nic_dma_ex
            then on_execution
            else if completes e
            then on_completion
            else (s, false)).0
  by_type e s a b c pa pb pc ps = elim (Bool-cases (is_type e EventType.nic_dma_i)) [
    | inl t ↦ rw t (pa t)
    | inr n ↦ rw n (elim (Bool-cases (is_type e EventType.nic_dma_ex)) [
      | inl t ↦ rw t (pb t)
      | inr m ↦ rw m (elim (Bool-cases (completes e)) [ inl t ↦ rw t (pc t) | inr o ↦ rw o ps ])
    ])
  ]

add_to_nic_dma-NicDmaState :
    (s : NicDmaSpan) (event : Option Event) → NicDmaState s → NicDmaState (add_to_nic_dma s event).0
unfolding add_to_nic_dma
add_to_nic_dma-NicDmaState s event empty = guarded_keeps _ _ event _ NicDmaState empty (λ e t same.
    by_type NicDmaState e new_nic_dma _ _ _ (λ a. issued e a) (λ b. empty) (λ c. empty) empty)
add_to_nic_dma-NicDmaState s event (issued i it) =
    guarded_keeps _ _ event _ NicDmaState (issued i it) (λ e t same.
      by_type NicDmaState e _ _ _ _ (λ a. issued i it)
        (λ b. elim (Bool-cases (access_of i e)) [
          | inl m ↦ rw m (executed i e true it b m)
          | inr o ↦ rw o (issued i it)
        ])
        (λ c. issued i it) (issued i it))
add_to_nic_dma-NicDmaState s event (executed i x read it xt m) =
    guarded_keeps _ _ event _ NicDmaState (executed i x read it xt m) (λ e t same.
      by_type NicDmaState e _ _ _ _ (λ a. executed i x read it xt m)
        (λ b. executed i x read it xt m)
        (λ c. elim (Bool-cases (access_of i e)) [
          | inl n ↦ rw n (complete i x e it xt m c n)
          | inr o ↦ rw o (executed i x (is_type e EventType.nic_dma_cr) it xt m)
        ])
        (executed i x read it xt m))
add_to_nic_dma-NicDmaState s event (complete i x c it xt m ct n) =
    guarded_keeps _ _ event _ NicDmaState (complete i x c it xt m ct n) (λ e t same. absurd (cc t))

add_to_nic_dma_accepts :
    (s : NicDmaSpan) (e : Event)
    → NicDmaState s
    → (add_to_nic_dma s (some e)).1 ≡ nic_dma_next s.base.events e
unfolding add_to_nic_dma is_potential_add
add_to_nic_dma_accepts s e empty = elim (Bool-cases (is_type e EventType.nic_dma_i)) [
  | inl t ↦ rw t refl
  | inr n ↦ rw n (elim (Bool-cases (is_type e EventType.nic_dma_ex)) [
    | inl t ↦ rw t refl
    | inr m ↦ rw m (elim (Bool-cases (completes e)) [ inl t ↦ rw t refl | inr o ↦ rw o refl ])
  ])
]
add_to_nic_dma_accepts s e (issued i it) = elim (Bool-cases (i.parser_ident == e.parser_ident)) [
  | inr other ↦ rw other refl
  | inl same ↦ rw same (elim (Bool-cases (is_type e EventType.nic_dma_ex)) [
    | inl x ↦
        rw ((ex_excludes e x).0, x)
          (elim (Bool-cases (access_of i e)) [ inl m ↦ rw m refl | inr o ↦ rw o refl ])
    | inr n ↦ rw n (elim (Bool-cases (is_type e EventType.nic_dma_i)) [
      | inl t ↦ rw t refl
      | inr o ↦ rw o (elim (Bool-cases (completes e)) [ inl t ↦ rw t refl | inr m ↦ rw m refl ])
    ])
  ])
]
add_to_nic_dma_accepts s e (executed i x read it xt m) =
    elim (Bool-cases (i.parser_ident == e.parser_ident)) [
      | inr other ↦ rw other refl
      | inl same ↦ rw same (elim (Bool-cases (completes e)) [
        | inl c ↦
            rw ((completion_excludes e c).0, (completion_excludes e c).1, c)
              (elim (Bool-cases (access_of i e)) [ inl n ↦ rw n refl | inr o ↦ rw o refl ])
        | inr n ↦ rw n (elim (Bool-cases (is_type e EventType.nic_dma_i)) [
          | inl t ↦ rw t refl
          | inr o ↦ rw o (elim (Bool-cases (is_type e EventType.nic_dma_ex)) [
            | inl t ↦ rw t refl
            | inr q ↦ rw q refl
          ])
        ])
      ])
    ]
add_to_nic_dma_accepts s e (complete i x c it xt m ct n) = refl

-- Whatever events a new NicDmaSpan was offered, it is empty, or holds an issue, then its execution, then its
-- completion, the last two with the id and the address of the issue, and is pending until it is complete; it
-- takes an event exactly if that is the next of these.
pub nic_dma-NicDmaState :
    (events : List (Option Event)) (e : Event)
    → let s = feed add_to_nic_dma new_nic_dma events in
      NicDmaState s × ((add_to_nic_dma s (some e)).1 ≡ nic_dma_next s.base.events e)
nic_dma-NicDmaState events e =
    let r =
      feed_keeps add_to_nic_dma NicDmaState add_to_nic_dma-NicDmaState new_nic_dma events empty in
    (r, add_to_nic_dma_accepts _ e r)
