-- ===== src/Spanner/Nic.antt =====
-- NicSpanner (include/analytics/spanner.h, source/analytics/nicSpanner.cc).
use columbo.Base.{
  ℕ, Bool, true, false, not, Option, none, some, List, [], ◌∷◌, ◌++◌, ◌==◌, if◌then◌else◌,
}
use columbo.Channel.Queue.{Executor}
use columbo.Span.{EventType, Event, is_type}
use columbo.Span.Nic.{NicDmaSpan, new_nic_dma, add_to_nic_dma}
use columbo.Span.Single.{
  NicMmioSpan, NicMsixSpan, new_nic_mmio, add_to_nic_mmio, NicEthSpan, new_nic_eth, add_to_nic_eth,
  new_nic_msix, add_to_nic_msix,
}
use columbo.Tracer.Start.{Expectation, tx, rx, dma, msix, mmio, Context}
use columbo.Spanner.{
  to_network, from_network, to_host, from_host, to_host_receives, by_parent, by_context, Prog,
  finish, ◌>>=◌, ◌>>◌, needs, unless_empty, start_span_with, pop_propagate_context,
  push_propagate_context, mark_span, add_to_pending, first_of, started,
}

pub record NicSpanner : Type 0 where
  pub last_causing : Option ℕ
  pub pending_nic_dma_spans : List (ℕ × NicDmaSpan)

abbrev pub new_nic_spanner : NicSpanner
new_nic_spanner = record { last_causing = none; pending_nic_dma_spans = [] }

-- The value of an enumerator, and `is_expectation` of a context that is there.
abbrev pub expectation_code : Expectation → ℕ
expectation_code tx = 0
expectation_code rx = 1
expectation_code dma = 2
expectation_code msix = 3
expectation_code mmio = 4

abbrev pub is_expectation : Context → Expectation → Bool
is_expectation c exp = expectation_code c.expectation == expectation_code exp

abbrev pub Handled : Type 0
Handled = Prog (NicSpanner × Bool)

abbrev pub mmio_span : Event → NicMmioSpan
mmio_span e = started add_to_nic_mmio (λ s. s.base) new_nic_mmio e

abbrev pub msix_span : Event → NicMsixSpan
msix_span e = started add_to_nic_msix (λ s. s.base) new_nic_msix e

unfoldable pub handel_mmio : NicSpanner → Executor → Event → Handled
unfolding pop_propagate_context add_to_nic_mmio
handel_mmio n executor e = do
  con ← pop_propagate_context from_host
  if not (is_expectation con mmio) then finish (n, false) else do
    mmio_ptr ← start_span_with (
        by_context (first_of add_to_nic_mmio (λ s. s.base) new_nic_mmio) executor (some con)
          (some e))
    needs (not (mmio_span e).base.is_pending)
    mark_span executor mmio_ptr
    finish (
      record n { last_causing = if (mmio_span e).is_read then n.last_causing else some mmio_ptr },
      true,
    )

-- An event of a DMA access that no pending span takes.
unfoldable pub start_dma : NicSpanner → Executor → Event → Handled
unfolding add_to_nic_dma is_type
start_dma n executor e = if not (is_type e EventType.nic_dma_i) then finish (n, false) else do
  last_causing ← unless_empty n.last_causing
  pending_dma ← start_span_with (
      by_parent (first_of add_to_nic_dma (λ s. s.base) new_nic_dma) executor (some last_causing)
        (some e))
  finish (
    record n {
      pending_nic_dma_spans =
          n.pending_nic_dma_spans
          ++ (pending_dma, started add_to_nic_dma (λ s. s.base) new_nic_dma e) ∷ [];
    },
    true,
  )

-- What comes of the pending span that took the event, if there is one.
unfoldable pub go_on : NicSpanner → Executor → Event → Option (ℕ × NicDmaSpan) → Handled
unfolding start_dma is_type push_propagate_context
go_on n executor e none = start_dma n executor e
go_on n executor e (some (pending_dma, s)) =
    if not s.base.is_pending
    then (do mark_span executor pending_dma; finish (n, true))
    else if is_type e EventType.nic_dma_ex
    then (do push_propagate_context dma to_host pending_dma; finish (n, true))
    else finish (n, true)

unfoldable pub handel_dma : NicSpanner → Executor → Event → Handled
unfolding add_to_pending go_on
handel_dma n executor e = do
  (pending, taken) ← add_to_pending add_to_nic_dma (λ s. s.base) n.pending_nic_dma_spans e
  go_on (record n { pending_nic_dma_spans = pending }) executor e taken

abbrev pub eth_span : Event → NicEthSpan
eth_span e = started add_to_nic_eth (λ s. s.base) new_nic_eth e

unfoldable pub handel_tx : NicSpanner → Executor → Event → Handled
unfolding add_to_nic_eth push_propagate_context
handel_tx n executor e = do
  parent ← unless_empty n.last_causing
  eth ← start_span_with (
      by_parent (first_of add_to_nic_eth (λ s. s.base) new_nic_eth) executor (some parent) (some e))
  push_propagate_context rx to_network eth
  needs (not (eth_span e).base.is_pending)
  mark_span executor eth
  finish (n, true)

unfoldable pub handel_rx : NicSpanner → Executor → Event → Handled
unfolding add_to_nic_eth pop_propagate_context push_propagate_context
handel_rx n executor e = do
  con ← pop_propagate_context from_network
  needs (is_expectation con rx)
  eth ←
      start_span_with (
        by_context (first_of add_to_nic_eth (λ s. s.base) new_nic_eth) executor (some con) (some e))
  push_propagate_context rx to_host_receives eth
  needs (not (eth_span e).base.is_pending)
  mark_span executor eth
  finish (record n { last_causing = some eth }, true)

unfoldable pub handel_txrx : NicSpanner → Executor → Event → Handled
unfolding handel_tx handel_rx is_type
handel_txrx n executor e =
    if is_type e EventType.nic_tx
    then handel_tx n executor e
    else if is_type e EventType.nic_rx
    then handel_rx n executor e
    else finish (n, false)

unfoldable pub handel_msix : NicSpanner → Executor → Event → Handled
unfolding add_to_nic_msix push_propagate_context
handel_msix n executor e = do
  last_causing ← unless_empty n.last_causing
  msix_ptr ← start_span_with (
      by_parent (first_of add_to_nic_msix (λ s. s.base) new_nic_msix) executor (some last_causing)
        (some e))
  needs (not (msix_span e).base.is_pending)
  mark_span executor msix_ptr
  push_propagate_context msix to_host msix_ptr
  finish (n, true)

-- The handlers that the constructor registers.
unfoldable pub handler : EventType → Option (NicSpanner → Executor → Event → Handled)
unfolding handel_mmio handel_dma handel_txrx handel_msix
handler EventType.nic_mmio_w = some handel_mmio
handler EventType.nic_mmio_r = some handel_mmio
handler EventType.nic_dma_i = some handel_dma
handler EventType.nic_dma_ex = some handel_dma
handler EventType.nic_dma_cw = some handel_dma
handler EventType.nic_dma_cr = some handel_dma
handler EventType.nic_tx = some handel_txrx
handler EventType.nic_rx = some handel_txrx
handler EventType.nic_msix = some handel_msix
handler _ = none
