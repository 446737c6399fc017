-- ===== src/Spanner/Host/Interrupts.antt =====
-- HandelDma, HandelMsix and HandelInt of HostSpanner (source/analytics/hostSpanner.cc), and its map of handlers.
use columbo.Base.{
  ℕ, Bool, true, false, not, ◌||◌, Option, none, some, List, [], ◌∷◌, ◌++◌, if◌then◌else◌,
}
use columbo.Channel.Queue.{Executor}
use columbo.Span.{EventType, Event, Base, is_type}
use columbo.Span.Call.{TraceEnvironment}
use columbo.Span.Host.{
  HostDmaSpan, new_host_dma, add_to_host_dma, HostIntSpan, new_host_int, add_to_host_int,
  new_host_msix, add_to_host_msix,
}
use columbo.Tracer.Start.{dma, msix}
use columbo.Spanner.{
  from_nic, by_parent, by_context, finish, ◌>>=◌, ◌>>◌, needs, unless_empty, start_span_with,
  pop_propagate_context, mark_span, change_base, add_to_pending, first_of, started,
}
use columbo.Spanner.Nic.{is_expectation}
use columbo.Spanner.Host.{HostSpanner, HostHandled, handel_call}
use columbo.Spanner.Host.Accesses.{handel_mmio, handel_pci}

unfoldable pub start_dma : HostSpanner → Executor → Event → HostHandled
unfolding pop_propagate_context is_type add_to_host_dma
start_dma n executor e = do
  con ← pop_propagate_context from_nic
  if not (is_expectation con dma) || is_type e EventType.host_dma_c then finish (n, false) else do
    p ← start_span_with (
        by_context (first_of add_to_host_dma (λ s. s.base) new_host_dma) executor (some con)
          (some e))
    finish (
      record n {
        pending_host_dma_spans =
            n.pending_host_dma_spans
            ++ (p, started add_to_host_dma (λ s. s.base) new_host_dma e) ∷ [];
      },
      true,
    )

unfoldable pub dma_taken : HostSpanner → Executor → Event → Option (ℕ × HostDmaSpan) → HostHandled
unfolding start_dma
dma_taken n executor e none = start_dma n executor e
dma_taken n executor e (some (p, s)) =
    if not s.base.is_pending then (do mark_span executor p; finish (n, true)) else finish (n, true)

unfoldable pub add_dma : HostSpanner → Executor → Event → HostHandled
unfolding dma_taken add_to_pending
add_dma n executor e = do
  (pending, taken) ← add_to_pending add_to_host_dma (λ s. s.base) n.pending_host_dma_spans e
  dma_taken (record n { pending_host_dma_spans = pending }) executor e taken

-- The completion of an interrupt, which its pending span takes.
unfoldable pub end_msix : HostSpanner → Executor → ℕ → Base → HostHandled
end_msix n executor p base = do
  change_base p base
  needs (not base.is_pending)
  mark_span executor p
  finish (record n { pending_host_msix_span = none }, true)

unfoldable pub handel_dma : HostSpanner → Executor → Event → HostHandled
unfolding add_dma end_msix add_to_host_msix
handel_dma n executor e = elim n.pending_host_msix_span [
  | none ↦ add_dma n executor e
  | some (p, s) ↦
      let (s', added) = add_to_host_msix s (some e) in
      if added
      then end_msix n executor p s'.base
      else add_dma (record n { pending_host_msix_span = some (p, s') }) executor e
]

unfoldable pub handel_msix : HostSpanner → Executor → Event → HostHandled
unfolding pop_propagate_context add_to_host_msix
handel_msix n executor e = do
  con ← pop_propagate_context from_nic
  if not (is_expectation con msix) then finish (n, false) else do
    p ← start_span_with (
        by_context (first_of add_to_host_msix (λ s. s.base) new_host_msix) executor (some con)
          (some e))
    let s = started add_to_host_msix (λ s. s.base) new_host_msix e
    needs s.base.is_pending
    finish (record n { pending_host_msix_span = some (p, s) }, true)

unfoldable pub start_int : HostSpanner → Executor → Event → HostHandled
unfolding add_to_host_int
start_int n executor e = do
  (parent, call_span) ← unless_empty n.pending_host_call_span
  p ← start_span_with (
      by_parent (first_of add_to_host_int (λ s. s.base) new_host_int) executor (some parent)
        (some e))
  finish (
    record n {
      pending_host_int_span = some (p, started add_to_host_int (λ s. s.base) new_host_int e);
    },
    true,
  )

unfoldable pub add_int : HostSpanner → Executor → ℕ → HostIntSpan × Bool → HostHandled
add_int n executor p (s, added) =
    if not added then finish (record n { pending_host_int_span = some (p, s) }, false) else do
      change_base p s.base
      elim s.base.is_pending [
        | true ↦ finish (record n { pending_host_int_span = some (p, s) }, false)
        | false ↦ do mark_span executor p; finish (record n { pending_host_int_span = none }, true)
      ]

unfoldable pub handel_int : HostSpanner → Executor → Event → HostHandled
unfolding start_int add_int add_to_host_int
handel_int n executor e = elim n.pending_host_int_span [
  | none ↦ start_int n executor e
  | some (p, s) ↦ add_int n executor p (add_to_host_int s (some e))
]

-- The handlers that the constructor registers.
module _ (env : TraceEnvironment) (pci_write_indicators : List ℕ) (fuel : ℕ) where
  unfoldable pub host_handler : EventType → Option (HostSpanner → Executor → Event → HostHandled)
  unfolding handel_call handel_mmio handel_pci handel_dma handel_msix handel_int
  host_handler EventType.host_call = some (handel_call env pci_write_indicators fuel)
  host_handler EventType.host_mmio_w = some handel_mmio
  host_handler EventType.host_mmio_r = some handel_mmio
  host_handler EventType.host_mmio_im_resp_po_w = some handel_mmio
  host_handler EventType.host_mmio_cw = some handel_mmio
  host_handler EventType.host_mmio_cr = some handel_mmio
  host_handler EventType.host_pci_rw = some handel_pci
  host_handler EventType.host_conf = some handel_pci
  host_handler EventType.host_dma_w = some handel_dma
  host_handler EventType.host_dma_r = some handel_dma
  host_handler EventType.host_dma_c = some handel_dma
  host_handler EventType.host_msix = some handel_msix
  host_handler EventType.host_post_int = some handel_int
  host_handler EventType.host_clear_int = some handel_int
  host_handler _ = none
