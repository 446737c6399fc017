-- ===== src/Spanner/Host/Accesses.antt =====
-- HandelMmio and HandelPci of HostSpanner (source/analytics/hostSpanner.cc).
use columbo.Base.{
  List, Bool, false, true, ℕ, true, false, not, ◌&&◌, ◌||◌, Option, none, some, [], ◌∷◌, ◌++◌, ◌==◌,
  if◌then◌else◌,
}
use columbo.Channel.Queue.{Executor}
use columbo.Span.{EventType, Event, is_type}
use columbo.Span.Host.{
  HostMmioSpan, new_host_mmio, add_to_host_mmio, HostPciSpan, new_host_pci, add_to_host_pci,
  is_msix_not_to_device_bar_number,
}
use columbo.Tracer.Start.{mmio}
use columbo.Spanner.{
  to_nic, by_parent, Prog, finish, ◌>>=◌, ◌>>◌, needs, when, unless_empty, start_span_with,
  push_propagate_context, mark_span, change_base, add_to_pending, first_of, started,
}
use columbo.Spanner.Host.{HostSpanner, HostHandled}

abbrev pub mmio_started : Event → HostMmioSpan
mmio_started e = started add_to_host_mmio (λ s. s.base) (new_host_mmio e.bar) e

-- An event of a register access that no pending span takes.
unfoldable pub start_mmio : HostSpanner → Executor → Event → HostHandled
unfolding is_type push_propagate_context add_to_host_mmio
start_mmio n executor e = do
  (parent, call_span) ← unless_empty n.pending_host_call_span
  p ← start_span_with (
      by_parent (first_of add_to_host_mmio (λ s. s.base) (new_host_mmio e.bar)) executor
        (some parent) (some e))
  needs (is_type e EventType.host_mmio_w || is_type e EventType.host_mmio_r)
  let bar = (mmio_started e).bar_number
  let n' = record n {
    pending_host_mmio_spans = n.pending_host_mmio_spans ++ (p, mmio_started e) ∷ [];
  }
  when (not n.pci_write_before && bar == 0) (push_propagate_context mmio to_nic p)
  when (is_msix_not_to_device_bar_number bar && not (mmio_started e).base.is_pending)
      (mark_span executor p)
  finish (n', true)

-- What comes of the pending span that took the event: it is done where it is complete.
unfoldable pub mmio_taken : HostSpanner → Executor → Event → Option (ℕ × HostMmioSpan) → HostHandled
unfolding start_mmio
mmio_taken n executor e none = start_mmio n executor e
mmio_taken n executor e (some (p, s)) =
    if not s.base.is_pending then (do mark_span executor p; finish (n, true)) else finish (n, true)

unfoldable pub handel_mmio : HostSpanner → Executor → Event → HostHandled
unfolding mmio_taken add_to_pending
handel_mmio n executor e = do
  (pending, taken) ← add_to_pending add_to_host_mmio (λ s. s.base) n.pending_host_mmio_spans e
  mmio_taken (record n { pending_host_mmio_spans = pending }) executor e taken

abbrev pub has_events : List Event → Bool
has_events [] = false
has_events (e ∷ es) = true

-- A pending PCI span that no configuration event ends is done.
unfoldable pub end_pci : HostSpanner → Executor → Prog (Unit {0})
end_pci n executor = elim n.pending_pci_span [
  | none ↦ finish tt
  | some (p, s) ↦ do
    needs (has_events s.base.events)
    change_base p (record { events = s.base.events; is_pending = false })
    mark_span executor p
]

unfoldable pub start_pci : HostSpanner → Executor → Event → HostHandled
unfolding is_type add_to_host_pci end_pci
start_pci n executor e = do
  needs (is_type e EventType.host_pci_rw)
  end_pci n executor
  (parent, call_span) ← unless_empty n.pending_host_call_span
  p ← start_span_with (
      by_parent (first_of add_to_host_pci (λ s. s.base) new_host_pci) executor (some parent)
        (some e))
  finish (
    record n { pending_pci_span = some (p, started add_to_host_pci (λ s. s.base) new_host_pci e) },
    true,
  )

-- The configuration event of a pending PCI span.
unfoldable pub configure_pci : HostSpanner → Executor → Event → ℕ → HostPciSpan → HostHandled
unfolding add_to_host_pci
configure_pci n executor e p s = do
  let (s', could_be_added) = add_to_host_pci s (some e)
  needs could_be_added
  change_base p s'.base
  needs (not s'.base.is_pending)
  mark_span executor p
  finish (record n { pending_pci_span = none }, true)

unfoldable pub handel_pci : HostSpanner → Executor → Event → HostHandled
unfolding start_pci configure_pci is_type
handel_pci n executor e = elim n.pending_pci_span [
  | none ↦ start_pci n executor e
  | some (p, s) ↦
      if is_type e EventType.host_conf
      then configure_pci n executor e p s
      else start_pci n executor e
]
