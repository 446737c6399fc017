-- ===== src/Spanner/Host/OwnedInterrupts.antt =====
-- What a HostSpanner (source/analytics/hostSpanner.cc) still has to mark: its DMA accesses and its interrupts.
use columbo.Base.{
  ℕ, ◌≡◌, refl, ◌+◌, ◌∷◌, ◌||◌, Bool, true, false, not, Option, none, some, List, [], arith,
  Bool-cases, inl, inr, ap, Option-cases,
}
use columbo.Channel.Queue.{Executor}
use columbo.Span.{EventType, Event, Base, is_type, is_potential_add}
use columbo.Span.Host.{
  HostDmaSpan, new_host_dma, add_to_host_dma, HostMsixSpan, new_host_msix, add_to_host_msix,
  HostIntSpan, add_to_host_int,
}
use columbo.Tracer.Start.{dma, msix}
use columbo.Spanner.{finish, ◌>>◌, mark_span, from_nic, started}
use columbo.Spanner.Nic.{is_expectation}
use columbo.Spanner.Runs.{Safe}
use columbo.Spanner.Keeps.{unless_empty-Safe, needs-Safe, if-Safe, pop_propagate_context-Safe}
use columbo.Spanner.Owns.{
  Owns, own_less, own_new, own_mark, weight, weight_at_most, held_in-++, to_mark,
  add_to_pending-Owns,
}
use columbo.Spanner.Host.{HostSpanner}
use columbo.Spanner.Host.Interrupts.{
  start_dma, dma_taken, add_dma, end_msix, handel_dma, handel_msix, start_int, add_int, handel_int,
}
use columbo.Spanner.Host.Owned.{held_by, owned, IsReady, IsReadyAfter, held_here}

dma_shut :
    (s : HostDmaSpan) (e : Event)
    → s.base.is_pending ≡ false
    → add_to_host_dma s (some e) ≡ (s, false)
unfolding add_to_host_dma is_potential_add
dma_shut s e complete = rw complete refl

start_dma-Safe :
    (n : HostSpanner) (executor : Executor) (e : Event) (own ms : List ℕ)
    → IsReady n own ms
    → Safe IsReadyAfter (start_dma n executor e) own ms
unfolding start_dma
start_dma-Safe n executor e own ms h =
    pop_propagate_context-Safe IsReadyAfter from_nic _ own ms (λ con.
      if-Safe IsReadyAfter (not (is_expectation con dma) || is_type e EventType.host_dma_c) _ _ own
        ms h
        (λ p le.
          own_new (owned n) _ own p ms
            (λ q.
              let s = started add_to_host_dma (λ s. s.base) new_host_dma e in
              let w = weight_at_most s.base.is_pending p q in
              omega (
                arith,
                held_in-++ add_to_host_dma (λ s. s.base) n.pending_host_dma_spans ((p, s) ∷ []) q,
              ))
            le h))

dma_taken-Safe :
    (n : HostSpanner) (executor : Executor) (e : Event) (taken : Option (ℕ × HostDmaSpan))
    (own ms : List ℕ)
    → Owns (λ q. owned n q + to_mark add_to_host_dma (λ s. s.base) taken q) own ms
    → Safe IsReadyAfter (dma_taken n executor e taken) own ms
unfolding dma_taken
dma_taken-Safe n executor e none own ms h =
    start_dma-Safe n executor e own ms
      (own_less (λ q. owned n q + 0) (owned n) own ms (λ q. omega arith) h)
dma_taken-Safe n executor e (some (p, s)) own ms h = elim (Bool-cases s.base.is_pending) [
  | inl more ↦ rw more (
      own_less (λ q. owned n q + weight (not s.base.is_pending) p q) (owned n) own ms
        (λ q. omega arith) h)
  | inr complete ↦ rw complete (
      own_mark (λ q. owned n q + weight (not s.base.is_pending) p q) (owned n) own p ms
        (λ q. omega (arith, ap (λ b. weight (not b) p q) complete)) h)
]

add_dma-Safe :
    (n : HostSpanner) (executor : Executor) (e : Event) (own ms : List ℕ)
    → IsReady n own ms
    → Safe IsReadyAfter (add_dma n executor e) own ms
unfolding add_dma
add_dma-Safe n executor e own ms h =
    add_to_pending-Owns add_to_host_dma (λ s. s.base) dma_shut IsReadyAfter n.pending_host_dma_spans
      e _ own ms
      (λ pending taken less.
        dma_taken-Safe (record n { pending_host_dma_spans = pending }) executor e taken own ms
          (own_less (owned n) _ own ms (λ q. let l = less q in omega arith) h))

end_msix-Safe :
    (n : HostSpanner) (executor : Executor) (p : ℕ) (s : HostMsixSpan) (base : Base)
    (own ms : List ℕ)
    → n.pending_host_msix_span ≡ some (p, s)
    → IsReady n own ms
    → Safe IsReadyAfter (end_msix n executor p base) own ms
unfolding end_msix
end_msix-Safe n executor p s base own ms held h = (
  tt,
  needs-Safe IsReadyAfter (not base.is_pending)
      (do mark_span executor p; finish (record n { pending_host_msix_span = none }, true)) own ms
      (own_mark (owned n) (owned (record n { pending_host_msix_span = none })) own p ms
        (λ q. omega (arith, held_here n.pending_host_msix_span p s q held)) h),
)

pub handel_dma-Safe :
    (n : HostSpanner) (executor : Executor) (e : Event) (own ms : List ℕ)
    → IsReady n own ms
    → Safe IsReadyAfter (handel_dma n executor e) own ms
unfolding handel_dma
handel_dma-Safe n executor e own ms h = elim (Option-cases n.pending_host_msix_span) [
  | inl missing ↦ rw missing (
      add_dma-Safe (record n { pending_host_msix_span = none }) executor e own ms
        (own_less (owned n) _ own ms (λ q. omega (arith, ap (λ o. held_by o q) missing)) h))
  | inr ((p, s), held) ↦
      let s' = (add_to_host_msix s (some e)).0 in
      let kept : HostSpanner = record n { pending_host_msix_span = some (p, s) } in
      let changed : HostSpanner = record n { pending_host_msix_span = some (p, s') } in
      rw held (
        if-Safe IsReadyAfter (add_to_host_msix s (some e)).1 _ _ own ms
          (end_msix-Safe kept executor p s s'.base own ms refl
            (own_less (owned n) _ own ms (λ q. omega (arith, ap (λ o. held_by o q) held)) h))
          (add_dma-Safe changed executor e own ms
            (own_less (owned n) _ own ms (λ q. omega (arith, ap (λ o. held_by o q) held)) h)))
]

pub handel_msix-Safe :
    (n : HostSpanner) (executor : Executor) (e : Event) (own ms : List ℕ)
    → IsReady n own ms
    → Safe IsReadyAfter (handel_msix n executor e) own ms
unfolding handel_msix
handel_msix-Safe n executor e own ms h =
    pop_propagate_context-Safe IsReadyAfter from_nic _ own ms (λ con.
      if-Safe IsReadyAfter (not (is_expectation con msix)) _ _ own ms h (λ p le.
        let s = started add_to_host_msix (λ s. s.base) new_host_msix e in
        let n' : HostSpanner = record n { pending_host_msix_span = some (p, s) } in
        needs-Safe IsReadyAfter s.base.is_pending (finish (n', true)) (p ∷ own) ms
          (own_new (owned n) (owned n') own p ms (λ q. omega arith) le h)))

start_int-Safe :
    (n : HostSpanner) (executor : Executor) (e : Event) (own ms : List ℕ)
    → IsReady n own ms
    → Safe IsReadyAfter (start_int n executor e) own ms
unfolding start_int
start_int-Safe n executor e own ms h =
    unless_empty-Safe IsReadyAfter n.pending_host_call_span _ own ms
      (λ (parent, call_span) p le. own_new (owned n) _ own p ms (λ q. omega arith) le h)

add_int-Safe :
    (n : HostSpanner) (executor : Executor) (p : ℕ) (old s : HostIntSpan) (added : Bool)
    (own ms : List ℕ)
    → n.pending_host_int_span ≡ some (p, old)
    → IsReady n own ms
    → Safe IsReadyAfter (add_int n executor p (s, added)) own ms
unfolding add_int
add_int-Safe n executor p old s added own ms held h =
    let n' : HostSpanner = record n { pending_host_int_span = some (p, s) } in
    let ended : HostSpanner = record n { pending_host_int_span = none } in
    let h' : IsReady n' own ms =
      own_less (owned n) (owned n') own ms
        (λ q. omega (arith, held_here n.pending_host_int_span p old q held)) h in
    if-Safe IsReadyAfter (not added) _ _ own ms h' (
      tt,
      elim (Bool-cases s.base.is_pending) [
        | inl more ↦ rw more h'
        | inr complete ↦ rw complete (
            own_mark (owned n) (owned ended) own p ms
              (λ q. omega (arith, held_here n.pending_host_int_span p old q held)) h)
      ],
    )

pub handel_int-Safe :
    (n : HostSpanner) (executor : Executor) (e : Event) (own ms : List ℕ)
    → IsReady n own ms
    → Safe IsReadyAfter (handel_int n executor e) own ms
unfolding handel_int
handel_int-Safe n executor e own ms h = elim (Option-cases n.pending_host_int_span) [
  | inl missing ↦ rw missing (
      start_int-Safe (record n { pending_host_int_span = none }) executor e own ms
        (own_less (owned n) _ own ms (λ q. omega (arith, ap (λ o. held_by o q) missing)) h))
  | inr ((p, s), held) ↦
      let r = add_to_host_int s (some e) in
      rw held (
        add_int-Safe (record n { pending_host_int_span = some (p, s) }) executor p s r.0 r.1 own ms
          refl (own_less (owned n) _ own ms (λ q. omega (arith, ap (λ o. held_by o q) held)) h))
]
