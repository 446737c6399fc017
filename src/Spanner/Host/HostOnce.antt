-- ===== src/Spanner/Host/HostOnce.antt =====
-- A HostSpanner (source/analytics/hostSpanner.cc) marks no span as done twice.
use columbo.Base.{ℕ, Option, List, [], arith}
use columbo.Channel.Queue.{Executor}
use columbo.Span.{EventType, Event}
use columbo.Span.Call.{TraceEnvironment}
use columbo.Tracer.Start.{World}
use columbo.Spanner.{consume_all}
use columbo.Spanner.Runs.{Runs, Once, IsAmong, Safe}
use columbo.Spanner.Own.{own_marks}
use columbo.Spanner.Consume.{IsSafe, consume_all-Safe}
use columbo.Spanner.Host.{new_host_spanner}
use columbo.Spanner.Host.Interrupts.{host_handler}
use columbo.Spanner.Host.Owned.{IsReady, handel_call-Safe}
use columbo.Spanner.Host.OwnedAccesses.{handel_mmio-Safe, handel_pci-Safe}
use columbo.Spanner.Host.OwnedInterrupts.{handel_dma-Safe, handel_msix-Safe, handel_int-Safe}

module _ (env : TraceEnvironment) (pci_write_indicators : List ℕ) (fuel : ℕ) where
  host_handler-IsSafe :
      (t : EventType) → IsSafe IsReady (host_handler env pci_write_indicators fuel t)
  unfolding host_handler
  host_handler-IsSafe EventType.host_call = handel_call-Safe env pci_write_indicators fuel
  host_handler-IsSafe EventType.host_mmio_w = handel_mmio-Safe
  host_handler-IsSafe EventType.host_mmio_r = handel_mmio-Safe
  host_handler-IsSafe EventType.host_mmio_im_resp_po_w = handel_mmio-Safe
  host_handler-IsSafe EventType.host_mmio_cw = handel_mmio-Safe
  host_handler-IsSafe EventType.host_mmio_cr = handel_mmio-Safe
  host_handler-IsSafe EventType.host_pci_rw = handel_pci-Safe
  host_handler-IsSafe EventType.host_conf = handel_pci-Safe
  host_handler-IsSafe EventType.host_dma_w = handel_dma-Safe
  host_handler-IsSafe EventType.host_dma_r = handel_dma-Safe
  host_handler-IsSafe EventType.host_dma_c = handel_dma-Safe
  host_handler-IsSafe EventType.host_msix = handel_msix-Safe
  host_handler-IsSafe EventType.host_post_int = handel_int-Safe
  host_handler-IsSafe EventType.host_clear_int = handel_int-Safe
  host_handler-IsSafe _ = tt

  pub host-Safe :
      (executor : Executor) (values : List (Option Event))
      → Safe IsReady
          (consume_all
            (host_handler env pci_write_indicators fuel)
            executor
            values
            new_host_spanner)
          []
          []
  host-Safe executor values =
      consume_all-Safe IsReady (host_handler env pci_write_indicators fuel) host_handler-IsSafe
        executor values new_host_spanner [] []
        (λ q. (omega arith, λ some_there. absurd (omega arith)))

  -- Whatever events a new HostSpanner gets and whatever its channels answer, with any calls of the tracer by others in
  -- between: at no point of its run has it marked a span as done twice, or one that it did not start itself. This
  -- holds for any environment, and however many contexts the fuel lets the loop of FinishPendingSpan take.
  pub host_marks-Once :
      (executor : Executor) (values : List (Option Event)) (w : World) (news marks : List ℕ)
      → Runs
          (consume_all
            (host_handler env pci_write_indicators fuel)
            executor
            values
            new_host_spanner)
          w
          news
          marks
      → Once marks × IsAmong marks news
  host_marks-Once executor values w news marks run =
      own_marks IsReady run (host-Safe executor values)
