-- ===== src/Spanner/Host.antt =====
-- HostSpanner (include/analytics/spanner.h, source/analytics/hostSpanner.cc).
pub mod Accesses
pub mod Interrupts
pub mod Owned
pub mod OwnedAccesses
pub mod OwnedInterrupts
pub mod HostOnce
use columbo.Base.{
  ℕ, zero, suc, Bool, true, false, not, ◌&&◌, ◌||◌, Option, none, some, List, [], ◌∷◌, ◌++◌, ◌==◌,
  ltb, if◌then◌else◌,
}
use columbo.Channel.Queue.{Executor}
use columbo.Span.{EventType, Event, Base, new_base, is_type}
use columbo.Span.Call.{
  TraceEnvironment, HostCallSpan, new_host_call, add_to_host_call, get_call_func, indicates,
}
use columbo.Span.Host.{
  HostDmaSpan, new_host_dma, add_to_host_dma, HostMmioSpan, new_host_mmio, add_to_host_mmio,
  HostIntSpan, new_host_int, add_to_host_int, HostMsixSpan, new_host_msix, add_to_host_msix,
  HostPciSpan, new_host_pci, add_to_host_pci, is_msix_not_to_device_bar_number,
}
use columbo.Tracer.Start.{AddToSpan, Expectation, dma, msix, mmio, Context, first_ts}
use columbo.Tracer.Calls.{lazily, set_parent}
use columbo.Spanner.{
  Queue, to_nic, from_nic, from_nic_receives, Start, by_parent, by_context, first, copies, Prog,
  finish, fails, out_of_fuel, tries, ◌>>=◌, ◌>>◌, needs, when, unless_empty, start_span_with, call,
  pop_propagate_context, push_propagate_context, mark_span, change_base, add_to_pending, first_of,
  started,
}
use columbo.Spanner.Nic.{is_expectation}

pub record HostSpanner : Type 0 where
  pub pci_write_before : Bool
  pub last_trace_starting_span : Option ℕ
  pub pending_host_call_span : Option (ℕ × HostCallSpan)
  pub pending_host_int_span : Option (ℕ × HostIntSpan)
  pub pending_host_msix_span : Option (ℕ × HostMsixSpan)
  pub pending_host_dma_spans : List (ℕ × HostDmaSpan)
  pub pending_host_mmio_spans : List (ℕ × HostMmioSpan)
  pub pending_pci_span : Option (ℕ × HostPciSpan)

abbrev pub new_host_spanner : HostSpanner
new_host_spanner = record {
  pci_write_before = false;
  last_trace_starting_span = none;
  pending_host_call_span = none;
  pending_host_int_span = none;
  pending_host_msix_span = none;
  pending_host_dma_spans = [];
  pending_host_mmio_spans = [];
  pending_pci_span = none;
}

abbrev pub HostHandled : Type 0
HostHandled = Prog (HostSpanner × Bool)

abbrev pub pointer_of : {S : Type 0} → Option (ℕ × S) → Option ℕ
pointer_of none = none
pointer_of (some (p, s)) = some p

-- `did_arrive_before_receive_syscall`; a context always has a parent.
abbrev pub did_arrive_before : ℕ → Context → Bool
did_arrive_before syscall_start context = ltb context.parent_start_ts syscall_start

-- The loop over the contexts that arrived before the system call, each for a copy of its span.
unfoldable pub copy_for : Prog (Unit {0}) → Executor → ℕ → Option Context → Prog (Unit {0})
copy_for rest executor p none = finish tt
copy_for rest executor p (some context) = do
  copy_span ← start_span_with (copies p)
  call (set_parent executor copy_span (some context))
  mark_span executor copy_span
  rest

unfoldable pub copy_for_contexts : ℕ → Executor → ℕ → ℕ → Prog (Unit {0})
unfolding copy_for
copy_for_contexts zero executor p syscall_start = out_of_fuel
copy_for_contexts (suc fuel) executor p syscall_start =
    tries from_nic_receives (did_arrive_before syscall_start)
      (copy_for (copy_for_contexts fuel executor p syscall_start) executor p)

-- The trace environment, the functions that write through PCI, and the fuel of the loop.
module _ (env : TraceEnvironment) (pci_write_indicators : List ℕ) (fuel : ℕ) where
  abbrev pub is_pci_write : Event → Bool
  unfolding get_call_func
  is_pci_write e = indicates pci_write_indicators (get_call_func e)

  -- `AddToSpan` of a new HostCallSpan, and the span; a fault ends the program.
  abbrev pub first_call : Bool → Event → HostCallSpan × Bool
  unfolding add_to_host_call
  first_call fragmented e = elim (add_to_host_call env (new_host_call fragmented) (some e)) [
    | none ↦ (new_host_call fragmented, false)
    | some r ↦ r
  ]

  unfoldable pub finish_pending_span : HostSpanner → Executor → Prog (Unit {0})
  unfolding pop_propagate_context copy_for_contexts
  finish_pending_span n executor = elim n.pending_host_call_span [
    | none ↦ finish tt
    | some (p, s) ↦ if not s.kernel_receive then mark_span executor p else do
      context ← pop_propagate_context from_nic_receives
      call (lazily executor (some p) (some context))
      copy_for_contexts fuel executor p (first_ts s.base.events)
      mark_span executor p
  ]

  unfoldable pub create_trace_starting_span :
      HostSpanner → Executor → Event → Bool → Prog HostSpanner
  unfolding finish_pending_span
  create_trace_starting_span n executor starting_event fragmented = do
    finish_pending_span n executor
    p ← start_span_with (
        first (λ e. let (s, added) = first_call fragmented e in (s.base, added)) executor
          (some starting_event))
    finish (record n {
      pending_host_call_span = some (p, (first_call fragmented starting_event).0);
      last_trace_starting_span = some p;
      pci_write_before = false;
    })

  -- What comes of `AddToSpan` of the pending call span.
  unfoldable pub added_call : HostSpanner → Executor → Event → ℕ → HostCallSpan × Bool → HostHandled
  unfolding create_trace_starting_span
  added_call n executor e p (s, added) = do
    change_base p s.base
    let n' = record n { pending_host_call_span = some (p, s) }
    elim added [
      | true ↦ finish (record n' { pci_write_before = is_pci_write e }, true)
      | false ↦ elim s.base.is_pending [
        | true ↦ finish (n', false)
        | false ↦ do
          created ← create_trace_starting_span n' executor e false
          finish (created, true)
      ]
    ]

  unfoldable pub add_call : HostSpanner → Executor → Event → HostHandled
  unfolding added_call add_to_host_call
  add_call n executor e = do
    (p, s) ← unless_empty n.pending_host_call_span
    added ← unless_empty (add_to_host_call env s (some e))
    added_call n executor e p added

  unfoldable pub handel_call : HostSpanner → Executor → Event → HostHandled
  unfolding add_call create_trace_starting_span
  handel_call n executor e = elim n.pending_host_call_span [
    | some held ↦ add_call n executor e
    | none ↦ do n' ← create_trace_starting_span n executor e false; add_call n' executor e
  ]
