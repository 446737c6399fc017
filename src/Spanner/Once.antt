-- ===== src/Spanner/Once.antt =====
-- A NicSpanner (source/analytics/nicSpanner.cc) marks no span as done twice.
use columbo.Base.{
  ℕ, ◌≡◌, refl, ap, Bool, true, false, ◌++◌, ◌∷◌, not, Option, none, some, List, [], if◌then◌else◌,
  subst, sym,
}
use columbo.Channel.Queue.{Executor}
use columbo.Span.{EventType, Event, is_type}
use columbo.Span.Nic.{NicDmaSpan, add_to_nic_dma}
use columbo.Tracer.Start.{World, dma, msix, rx, mmio}
use columbo.Spanner.{
  consume_all, finish, ◌>>◌, to_host, to_network, to_host_receives, from_host, from_network,
  push_propagate_context, mark_span, needs,
}
use columbo.Spanner.Nic.{
  NicSpanner, new_nic_spanner, is_expectation, eth_span, mmio_span, msix_span, go_on, handel_mmio,
  start_dma, handel_dma, handel_tx, handel_rx, handel_txrx, handel_msix, handler,
}
use columbo.Spanner.Runs.{Runs, Once, IsAmong, Safe}
use columbo.Spanner.Own.{own_marks}
use columbo.Spanner.Keeps.{
  Holds, add_new, marked_one, at_end, needs-Safe, unless_empty-Safe, if-Safe,
  pop_propagate_context-Safe, push_propagate_context-Safe,
}
use columbo.Spanner.Consume.{IsSafe, consume_all-Safe}
use columbo.Spanner.Iterate.{pointers, taken_by, Handed, add_to_pending-Safe}

-- The pending spans may be marked.
abbrev pub IsReady : NicSpanner → List ℕ → List ℕ → Type 0
IsReady n own ms = Holds (pointers n.pending_nic_dma_spans) own ms

abbrev IsReadyAfter : NicSpanner × Bool → List ℕ → List ℕ → Type 0
IsReadyAfter r own ms = IsReady r.0 own ms

-- A span that was just started is complete, and marked.
marked_last :
    (complete : Bool) (n : NicSpanner) (executor : Executor) (p : ℕ) (own ms : List ℕ)
    → Holds (p ∷ pointers n.pending_nic_dma_spans) own ms
    → Safe IsReadyAfter (do needs complete; mark_span executor p; finish (n, true)) own ms
marked_last complete n executor p own ms h =
    needs-Safe IsReadyAfter complete (do mark_span executor p; finish (n, true)) own ms
      (marked_one [] (pointers n.pending_nic_dma_spans) own p ms h)

handel_mmio-Safe :
    (n : NicSpanner) (executor : Executor) (e : Event) (own ms : List ℕ)
    → IsReady n own ms
    → Safe IsReadyAfter (handel_mmio n executor e) own ms
unfolding handel_mmio
handel_mmio-Safe n executor e own ms h =
    let ps = pointers n.pending_nic_dma_spans in
    pop_propagate_context-Safe IsReadyAfter from_host _ own ms (λ con.
      if-Safe IsReadyAfter (not (is_expectation con mmio)) _ _ own ms h (λ p le.
        marked_last (not (mmio_span e).base.is_pending)
          (record n { last_causing = if (mmio_span e).is_read then n.last_causing else some p })
          executor p (p ∷ own) ms (add_new ps own p ms le h)))

pub pointers-++ :
    {S : Type 0} (pending more : List (ℕ × S))
    → pointers (pending ++ more) ≡ pointers pending ++ pointers more
pointers-++ [] more = refl
pointers-++ ((p, s) ∷ pending) more = ap (λ ps. p ∷ ps) (pointers-++ pending more)

start_dma-Safe :
    (n : NicSpanner) (executor : Executor) (e : Event) (own ms : List ℕ)
    → IsReady n own ms
    → Safe IsReadyAfter (start_dma n executor e) own ms
unfolding start_dma
start_dma-Safe n executor e own ms h =
    let ps = pointers n.pending_nic_dma_spans in
    if-Safe IsReadyAfter (not (is_type e EventType.nic_dma_i)) _ _ own ms h (
      unless_empty-Safe IsReadyAfter n.last_causing _ own ms (λ last p le.
        subst (λ qs. Holds qs (p ∷ own) ms) (sym (pointers-++ n.pending_nic_dma_spans _))
          (at_end ps (p ∷ own) p ms (add_new ps own p ms le h))))

dma_taken :
    (n : NicSpanner) (executor : Executor) (e : Event) (p : ℕ) (s : NicDmaSpan) (pending : Bool)
    (own ms : List ℕ)
    → Handed add_to_nic_dma
        (λ s. s.base)
        (pointers n.pending_nic_dma_spans)
        (some (p, pending))
        own
        ms
    → Safe IsReadyAfter
        (if not pending
          then (do mark_span executor p; finish (n, true))
          else if is_type e EventType.nic_dma_ex
          then (do push_propagate_context dma to_host p; finish (n, true))
          else finish (n, true))
        own
        ms
dma_taken n executor e p s false own ms (may, left) = (may, left)
dma_taken n executor e p s true own ms h =
    if-Safe IsReadyAfter (is_type e EventType.nic_dma_ex) _ _ own ms
      (push_propagate_context-Safe IsReadyAfter dma to_host p (finish (n, true)) own ms h) h

after_pending :
    (n : NicSpanner) (executor : Executor) (e : Event) (taken : Option (ℕ × NicDmaSpan))
    (own ms : List ℕ)
    → Handed add_to_nic_dma
        (λ s. s.base)
        (pointers n.pending_nic_dma_spans)
        (taken_by add_to_nic_dma (λ s. s.base) taken)
        own
        ms
    → Safe IsReadyAfter (go_on n executor e taken) own ms
unfolding go_on
after_pending n executor e none own ms h = start_dma-Safe n executor e own ms h
after_pending n executor e (some (p, s)) own ms h =
    dma_taken n executor e p s s.base.is_pending own ms h

handel_dma-Safe :
    (n : NicSpanner) (executor : Executor) (e : Event) (own ms : List ℕ)
    → IsReady n own ms
    → Safe IsReadyAfter (handel_dma n executor e) own ms
unfolding handel_dma
handel_dma-Safe n executor e own ms h =
    add_to_pending-Safe add_to_nic_dma (λ s. s.base) IsReadyAfter n.pending_nic_dma_spans e _ own ms
      h
      (λ pending taken given.
        after_pending (record n { pending_nic_dma_spans = pending }) executor e taken own ms given)

handel_tx-Safe :
    (n : NicSpanner) (executor : Executor) (e : Event) (own ms : List ℕ)
    → IsReady n own ms
    → Safe IsReadyAfter (handel_tx n executor e) own ms
unfolding handel_tx
handel_tx-Safe n executor e own ms h =
    let ps = pointers n.pending_nic_dma_spans in
    unless_empty-Safe IsReadyAfter n.last_causing _ own ms (λ parent p le.
      push_propagate_context-Safe IsReadyAfter rx to_network p _ (p ∷ own) ms (
        marked_last (not (eth_span e).base.is_pending) n executor p (p ∷ own) ms
          (add_new ps own p ms le h)))

handel_rx-Safe :
    (n : NicSpanner) (executor : Executor) (e : Event) (own ms : List ℕ)
    → IsReady n own ms
    → Safe IsReadyAfter (handel_rx n executor e) own ms
unfolding handel_rx
handel_rx-Safe n executor e own ms h =
    let ps = pointers n.pending_nic_dma_spans in
    pop_propagate_context-Safe IsReadyAfter from_network _ own ms (λ con.
      needs-Safe IsReadyAfter (is_expectation con rx) _ own ms (λ p le.
        push_propagate_context-Safe IsReadyAfter rx to_host_receives p _ (p ∷ own) ms (
          marked_last (not (eth_span e).base.is_pending) (record n { last_causing = some p })
            executor p (p ∷ own) ms (add_new ps own p ms le h))))

handel_msix-Safe :
    (n : NicSpanner) (executor : Executor) (e : Event) (own ms : List ℕ)
    → IsReady n own ms
    → Safe IsReadyAfter (handel_msix n executor e) own ms
unfolding handel_msix
handel_msix-Safe n executor e own ms h =
    let ps = pointers n.pending_nic_dma_spans in
    unless_empty-Safe IsReadyAfter n.last_causing _ own ms (λ parent p le.
      needs-Safe IsReadyAfter (not (msix_span e).base.is_pending)
        (do mark_span executor p; push_propagate_context msix to_host p; finish (n, true)) (p ∷ own)
        ms
        (let (may, left) = marked_one [] ps (p ∷ own) p ms (add_new ps own p ms le h) in
          (
            may,
            push_propagate_context-Safe IsReadyAfter msix to_host p (finish (n, true)) (p ∷ own)
                (p ∷ ms) left,
          )))

handel_txrx-Safe :
    (n : NicSpanner) (executor : Executor) (e : Event) (own ms : List ℕ)
    → IsReady n own ms
    → Safe IsReadyAfter (handel_txrx n executor e) own ms
unfolding handel_txrx
handel_txrx-Safe n executor e own ms h =
    if-Safe IsReadyAfter (is_type e EventType.nic_tx) _ _ own ms
      (handel_tx-Safe n executor e own ms h)
      (if-Safe IsReadyAfter (is_type e EventType.nic_rx) _ _ own ms
        (handel_rx-Safe n executor e own ms h) h)

handler-IsSafe : (t : EventType) → IsSafe IsReady (handler t)
unfolding handler
handler-IsSafe EventType.nic_mmio_w = handel_mmio-Safe
handler-IsSafe EventType.nic_mmio_r = handel_mmio-Safe
handler-IsSafe EventType.nic_dma_i = handel_dma-Safe
handler-IsSafe EventType.nic_dma_ex = handel_dma-Safe
handler-IsSafe EventType.nic_dma_cw = handel_dma-Safe
handler-IsSafe EventType.nic_dma_cr = handel_dma-Safe
handler-IsSafe EventType.nic_tx = handel_txrx-Safe
handler-IsSafe EventType.nic_rx = handel_txrx-Safe
handler-IsSafe EventType.nic_msix = handel_msix-Safe
handler-IsSafe _ = tt

pub nic-Safe :
    (executor : Executor) (values : List (Option Event))
    → Safe IsReady (consume_all handler executor values new_nic_spanner) [] []
nic-Safe executor values =
    consume_all-Safe IsReady handler handler-IsSafe executor values new_nic_spanner [] []
      (tt, λ p c. absurd (cc c))

-- Whatever events a new NicSpanner gets and whatever its channels answer, with any calls of the tracer by others in
-- between: at no point of its run has it marked a span as done twice, or one that it did not start itself.
pub marks-Once :
    (executor : Executor) (values : List (Option Event)) (w : World) (news marks : List ℕ)
    → Runs (consume_all handler executor values new_nic_spanner) w news marks
    → Once marks × IsAmong marks news
marks-Once executor values w news marks run = own_marks IsReady run (nic-Safe executor values)
