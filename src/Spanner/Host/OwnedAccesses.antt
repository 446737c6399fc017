-- ===== src/Spanner/Host/OwnedAccesses.antt =====
-- What a HostSpanner (source/analytics/hostSpanner.cc) still has to mark: its accesses of registers and of PCI.
use columbo.Base.{
  ℕ, ◌≡◌, refl, ◌+◌, ◌∷◌, ◌++◌, ◌==◌, ◌&&◌, ◌||◌, Bool, true, false, not, Option, none, some, List,
  [], arith, Bool-cases, inl, inr, ap, Option-cases,
}
use columbo.Channel.Queue.{Executor}
use columbo.Span.{EventType, Event, is_type, is_potential_add}
use columbo.Span.Host.{
  HostMmioSpan, add_to_host_mmio, is_msix_not_to_device_bar_number, HostPciSpan, add_to_host_pci,
}
use columbo.Tracer.Start.{mmio}
use columbo.Spanner.{
  Prog, finish, ◌>>◌, needs, when, mark_span, change_base, to_nic, push_propagate_context,
}
use columbo.Spanner.Runs.{Safe, Safe->>=}
use columbo.Spanner.Keeps.{unless_empty-Safe, needs-Safe, if-Safe, when_pushed-Safe}
use columbo.Spanner.Owns.{
  Owns, own_less, own_new, own_mark, weight, held_in-++, to_mark, add_to_pending-Owns,
}
use columbo.Spanner.Host.{HostSpanner}
use columbo.Spanner.Host.Accesses.{
  mmio_started, start_mmio, mmio_taken, handel_mmio, has_events, end_pci, start_pci, configure_pci,
  handel_pci,
}
use columbo.Spanner.Host.Owned.{
  held_by, owned, IsReady, IsReadyAfter, held_here, with_new, when_marked,
}

mmio_shut :
    (s : HostMmioSpan) (e : Event)
    → s.base.is_pending ≡ false
    → add_to_host_mmio s (some e) ≡ (s, false)
unfolding add_to_host_mmio is_potential_add
mmio_shut s e complete = rw complete refl

start_mmio-Safe :
    (n : HostSpanner) (executor : Executor) (e : Event) (own ms : List ℕ)
    → IsReady n own ms
    → Safe IsReadyAfter (start_mmio n executor e) own ms
unfolding start_mmio
start_mmio-Safe n executor e own ms h =
    unless_empty-Safe IsReadyAfter n.pending_host_call_span _ own ms (λ (parent, call_span) p le.
      let more = n.pending_host_mmio_spans ++ (p, mmio_started e) ∷ [] in
      let n' : HostSpanner = record n { pending_host_mmio_spans = more } in
      let marks = (do
        when
            (is_msix_not_to_device_bar_number (mmio_started e).bar_number
              && not (mmio_started e).base.is_pending)
            (mark_span executor p)
        finish (n', true)) in
      needs-Safe IsReadyAfter (is_type e EventType.host_mmio_w || is_type e EventType.host_mmio_r)
        (do
          when (not n.pci_write_before && (mmio_started e).bar_number == 0)
              (push_propagate_context mmio to_nic p)
          marks)
        (p ∷ own) ms
        (when_pushed-Safe IsReadyAfter (not n.pci_write_before && (mmio_started e).bar_number == 0)
          mmio to_nic p marks (p ∷ own) ms
          (when_marked IsReadyAfter (is_msix_not_to_device_bar_number (mmio_started e).bar_number)
            (mmio_started e).base.is_pending executor p (finish (n', true)) (owned n) (p ∷ own) ms
            (with_new (owned n) own p ms le h)
            (λ ms' h'.
              own_less (λ q. owned n q + weight (mmio_started e).base.is_pending p q) (owned n')
                (p ∷ own) ms'
                (λ q. omega (
                  arith,
                  held_in-++ add_to_host_mmio (λ s. s.base) n.pending_host_mmio_spans
                      ((p, mmio_started e) ∷ []) q,
                ))
                h'))))

mmio_taken-Safe :
    (n : HostSpanner) (executor : Executor) (e : Event) (taken : Option (ℕ × HostMmioSpan))
    (own ms : List ℕ)
    → Owns (λ q. owned n q + to_mark add_to_host_mmio (λ s. s.base) taken q) own ms
    → Safe IsReadyAfter (mmio_taken n executor e taken) own ms
unfolding mmio_taken
mmio_taken-Safe n executor e none own ms h =
    start_mmio-Safe n executor e own ms
      (own_less (λ q. owned n q + 0) (owned n) own ms (λ q. omega arith) h)
mmio_taken-Safe n executor e (some (p, s)) own ms h = elim (Bool-cases s.base.is_pending) [
  | inl more ↦ rw more (
      own_less (λ q. owned n q + weight (not s.base.is_pending) p q) (owned n) own ms
        (λ q. omega arith) h)
  | inr complete ↦ rw complete (
      own_mark (λ q. owned n q + weight (not s.base.is_pending) p q) (owned n) own p ms
        (λ q. omega (arith, ap (λ b. weight (not b) p q) complete)) h)
]

pub handel_mmio-Safe :
    (n : HostSpanner) (executor : Executor) (e : Event) (own ms : List ℕ)
    → IsReady n own ms
    → Safe IsReadyAfter (handel_mmio n executor e) own ms
unfolding handel_mmio
handel_mmio-Safe n executor e own ms h =
    add_to_pending-Owns add_to_host_mmio (λ s. s.base) mmio_shut IsReadyAfter
      n.pending_host_mmio_spans e _ own ms
      (λ pending taken less.
        mmio_taken-Safe (record n { pending_host_mmio_spans = pending }) executor e taken own ms
          (own_less (owned n) _ own ms (λ q. let l = less q in omega arith) h))

-- Without the pending PCI span.
abbrev without_pci : HostSpanner → HostSpanner
without_pci n = record n { pending_pci_span = none }

end_pci-Safe :
    (n : HostSpanner) (executor : Executor) (own ms : List ℕ)
    → IsReady n own ms
    → Safe (λ u. IsReady (without_pci n)) (end_pci n executor) own ms
unfolding end_pci
end_pci-Safe n executor own ms h = elim (Option-cases n.pending_pci_span) [
  | inl missing ↦ rw missing (
      own_less (owned n) (owned (without_pci n)) own ms
        (λ q. omega (arith, ap (λ o. held_by o q) missing)) h)
  | inr ((p, s), held) ↦ rw held (
      needs-Safe (λ u. IsReady (without_pci n)) (has_events s.base.events)
        (do
          change_base p (record { events = s.base.events; is_pending = false })
          mark_span executor p)
        own ms
        (
          tt,
          own_mark (owned n) (owned (without_pci n)) own p ms
              (λ q. omega (arith, held_here n.pending_pci_span p s q held)) h,
        ))
]

start_pci-Safe :
    (n : HostSpanner) (executor : Executor) (e : Event) (own ms : List ℕ)
    → IsReady n own ms
    → Safe IsReadyAfter (start_pci n executor e) own ms
unfolding start_pci
start_pci-Safe n executor e own ms h =
    needs-Safe IsReadyAfter (is_type e EventType.host_pci_rw) _ own ms (
      Safe->>= (λ u. IsReady (without_pci n)) IsReadyAfter (end_pci n executor) _ own ms
        (end_pci-Safe n executor own ms h)
        (λ u own' ms' h'.
          unless_empty-Safe IsReadyAfter n.pending_host_call_span _ own' ms'
            (λ (parent, call_span) p le.
              own_new (owned (without_pci n)) _ own' p ms' (λ q. omega arith) le h')))

configure_pci-Safe :
    (n : HostSpanner) (executor : Executor) (e : Event) (p : ℕ) (s : HostPciSpan) (own ms : List ℕ)
    → n.pending_pci_span ≡ some (p, s)
    → IsReady n own ms
    → Safe IsReadyAfter (configure_pci n executor e p s) own ms
unfolding configure_pci
configure_pci-Safe n executor e p s own ms held h =
    let s' = (add_to_host_pci s (some e)).0 in
    let ends : Prog (HostSpanner × Bool) = (do
      mark_span executor p
      finish (without_pci n, true)) in
    needs-Safe IsReadyAfter (add_to_host_pci s (some e)).1
      (do change_base p s'.base; needs (not s'.base.is_pending); ends) own ms
      (
        tt,
        needs-Safe IsReadyAfter (not s'.base.is_pending) ends own ms (
            own_mark (owned n) (owned (without_pci n)) own p ms
              (λ q. omega (arith, held_here n.pending_pci_span p s q held)) h),
      )

pub handel_pci-Safe :
    (n : HostSpanner) (executor : Executor) (e : Event) (own ms : List ℕ)
    → IsReady n own ms
    → Safe IsReadyAfter (handel_pci n executor e) own ms
unfolding handel_pci
handel_pci-Safe n executor e own ms h = elim (Option-cases n.pending_pci_span) [
  | inl missing ↦ rw missing (
      start_pci-Safe (record n { pending_pci_span = none }) executor e own ms
        (own_less (owned n) _ own ms (λ q. omega (arith, ap (λ o. held_by o q) missing)) h))
  | inr ((p, s), held) ↦
      let n' : HostSpanner = record n { pending_pci_span = some (p, s) } in
      let h' : IsReady n' own ms =
        own_less (owned n) _ own ms (λ q. omega (arith, ap (λ o. held_by o q) held)) h in
      rw held (
        if-Safe IsReadyAfter (is_type e EventType.host_conf) _ _ own ms
          (configure_pci-Safe n' executor e p s own ms refl h')
          (start_pci-Safe n' executor e own ms h'))
]
