-- ===== src/Spanner/Host/Owned.antt =====
-- What a HostSpanner (source/analytics/hostSpanner.cc) still has to mark: its calls.
use columbo.Base.{
  ℕ, zero, suc, ◌≡◌, ◌+◌, ◌≤◌, ◌∷◌, ◌&&◌, Bool, true, false, not, Option, none, some, List, arith,
  Bool-cases, inl, inr, ap, Option-cases,
}
use columbo.Channel.Queue.{Executor}
use columbo.Span.{Event}
use columbo.Span.Call.{TraceEnvironment, HostCallSpan, add_to_host_call}
use columbo.Span.Host.{add_to_host_dma, add_to_host_mmio}
use columbo.Tracer.{contains}
use columbo.Tracer.Start.{Context, first_ts}
use columbo.Spanner.{Prog, ◌>>◌, when, mark_span, from_nic_receives}
use columbo.Spanner.Runs.{Safe, Safe->>=}
use columbo.Spanner.Keeps.{unless_empty-Safe, unless_empty-known, pop_propagate_context-Safe}
use columbo.Spanner.Owns.{is_it, Owns, own_less, own_new, own_mark, weight, weight_at_most, held_in}
use columbo.Spanner.Host.{
  HostSpanner, copy_for, copy_for_contexts, finish_pending_span, create_trace_starting_span,
  added_call, add_call, handel_call,
}

abbrev pub held_by : {S : Type 0} → Option (ℕ × S) → ℕ → ℕ
held_by none q = 0
held_by (some (p, s)) q = is_it p q

-- The complete spans among the pending accesses are not counted: they are marked.
abbrev pub owned : HostSpanner → ℕ → ℕ
owned n q =
    held_by n.pending_host_call_span q
    + held_by n.pending_host_int_span q
    + held_by n.pending_host_msix_span q
    + held_by n.pending_pci_span q
    + held_in add_to_host_dma (λ s. s.base) n.pending_host_dma_spans q
    + held_in add_to_host_mmio (λ s. s.base) n.pending_host_mmio_spans q

abbrev pub IsReady : HostSpanner → List ℕ → List ℕ → Type 0
IsReady n own ms = Owns (owned n) own ms

abbrev pub IsReadyAfter : HostSpanner × Bool → List ℕ → List ℕ → Type 0
IsReadyAfter r own ms = IsReady r.0 own ms

pub held_here :
    {S : Type 0} (o : Option (ℕ × S)) (p : ℕ) (s : S) (q : ℕ)
    → o ≡ some (p, s)
    → held_by o q ≡ is_it p q
held_here o p s q e = ap (λ r. held_by r q) e

-- A span that was just started, beside the others.
pub with_new :
    (f : ℕ → ℕ) (own : List ℕ) (p : ℕ) (ms : List ℕ)
    → contains own p ≡ false
    → Owns f own ms
    → Owns (λ q. f q + is_it p q) (p ∷ own) ms
with_new f own p ms le h = own_new f (λ q. f q + is_it p q) own p ms (λ q. omega arith) le h

pub when_marked :
    {A : Type 0} (Q : A → List ℕ → List ℕ → Type 0) (c pend : Bool) (executor : Executor) (p : ℕ)
    (m : Prog A) (f : ℕ → ℕ) (own ms : List ℕ)
    → Owns (λ q. f q + is_it p q) own ms
    → ((ms' : List ℕ) → Owns (λ q. f q + weight pend p q) own ms' → Safe Q m own ms')
    → Safe Q (when (c && not pend) (mark_span executor p) >> m) own ms
when_marked Q false pend executor p m f own ms h s = s ms (
    own_less (λ q. f q + is_it p q) (λ q. f q + weight pend p q) own ms
      (λ q. let w = weight_at_most pend p q in omega arith) h)
when_marked Q true true executor p m f own ms h s = s ms h
when_marked Q true false executor p m f own ms h s =
    let (may, left) =
      own_mark (λ q. f q + is_it p q) (λ q. f q + weight false p q) own p ms (λ q. omega arith) h in
    (may, s (p ∷ ms) left)

copy_for-Safe :
    (rest : Prog (Unit {0})) (executor : Executor) (p : ℕ) (f : ℕ → ℕ) (own ms : List ℕ)
    (o : Option Context)
    → ((own ms : List ℕ) → Owns f own ms → Safe (λ u. Owns f) rest own ms)
    → Owns f own ms
    → Safe (λ u. Owns f) (copy_for rest executor p o) own ms
unfolding copy_for
copy_for-Safe rest executor p f own ms none s h = h
copy_for-Safe rest executor p f own ms (some context) s h = λ c le.
    let (may, left) =
      own_mark (λ q. f q + is_it c q) f (c ∷ own) c ms (λ q. omega arith)
        (with_new f own c ms le h) in
    (tt, (may, s (c ∷ own) (c ∷ ms) left))

copy_for_contexts-Safe :
    (fuel : ℕ) (executor : Executor) (p ts : ℕ) (f : ℕ → ℕ) (own ms : List ℕ)
    → Owns f own ms
    → Safe (λ u. Owns f) (copy_for_contexts fuel executor p ts) own ms
unfolding copy_for_contexts
copy_for_contexts-Safe zero executor p ts f own ms h = tt
copy_for_contexts-Safe (suc fuel) executor p ts f own ms h = λ o.
    copy_for-Safe (copy_for_contexts fuel executor p ts) executor p f own ms o
      (copy_for_contexts-Safe fuel executor p ts f) h

-- Without the pending call span, which is marked.
abbrev without_call : HostSpanner → HostSpanner
without_call n = record n { pending_host_call_span = none }

module _ (env : TraceEnvironment) (pci_write_indicators : List ℕ) (fuel : ℕ) where
  finish_pending_span-Safe :
      (n : HostSpanner) (executor : Executor) (own ms : List ℕ)
      → IsReady n own ms
      → Safe
          (λ u. IsReady (without_call n))
          (finish_pending_span env pci_write_indicators fuel n executor)
          own
          ms
  unfolding finish_pending_span
  finish_pending_span-Safe n executor own ms h = elim (Option-cases n.pending_host_call_span) [
    | inl e ↦ rw e (
        own_less (owned n) (owned (without_call n)) own ms
          (λ q. omega (arith, ap (λ o. held_by o q) e)) h)
    | inr ((p, s), e) ↦
        let less : (q : ℕ) → owned (without_call n) q + is_it p q ≤ owned n q =
          λ q. omega (arith, held_here n.pending_host_call_span p s q e) in
        rw e (elim (Bool-cases s.kernel_receive) [
          | inr sends ↦ rw sends (own_mark (owned n) (owned (without_call n)) own p ms less h)
          | inl receives ↦ rw receives (
              pop_propagate_context-Safe (λ u. IsReady (without_call n)) from_nic_receives _ own ms
                (λ context. (
                  tt,
                  Safe->>= (λ u. IsReady n) (λ u. IsReady (without_call n))
                      (copy_for_contexts fuel executor p (first_ts s.base.events)) _ own ms
                      (copy_for_contexts-Safe fuel executor p (first_ts s.base.events) (owned n) own
                        ms h)
                      (λ u own' ms' h'.
                        own_mark (owned n) (owned (without_call n)) own' p ms' less h'),
                )))
        ])
  ]

  create_trace_starting_span-Safe :
      (n : HostSpanner) (executor : Executor) (e : Event) (fragmented : Bool) (own ms : List ℕ)
      → IsReady n own ms
      → Safe IsReady
          (create_trace_starting_span env pci_write_indicators fuel n executor e fragmented)
          own
          ms
  unfolding create_trace_starting_span
  create_trace_starting_span-Safe n executor e fragmented own ms h =
      Safe->>= (λ u. IsReady (without_call n)) IsReady
        (finish_pending_span env pci_write_indicators fuel n executor) _ own ms
        (finish_pending_span-Safe n executor own ms h)
        (λ u own' ms' h' p le.
          own_new (owned (without_call n)) _ own' p ms' (λ q. omega arith) le h')

  added_call-Safe :
      (n : HostSpanner) (executor : Executor) (e : Event) (p : ℕ) (old : HostCallSpan)
      (s : HostCallSpan) (added : Bool) (own ms : List ℕ)
      → n.pending_host_call_span ≡ some (p, old)
      → IsReady n own ms
      → Safe IsReadyAfter
          (added_call env pci_write_indicators fuel n executor e p (s, added))
          own
          ms
  unfolding added_call
  added_call-Safe n executor e p old s added own ms held h =
      let n' : HostSpanner = record n { pending_host_call_span = some (p, s) } in
      let h' : IsReady n' own ms =
        own_less (owned n) (owned n') own ms
          (λ q. omega (arith, held_here n.pending_host_call_span p old q held)) h in
      (
        tt,
        elim (Bool-cases added) [
          | inl took ↦ rw took h'
          | inr other ↦ rw other (elim (Bool-cases s.base.is_pending) [
            | inl more ↦ rw more h'
            | inr complete ↦ rw complete (
                Safe->>= IsReady IsReadyAfter
                  (create_trace_starting_span env pci_write_indicators fuel n' executor e false) _
                  own ms (create_trace_starting_span-Safe n' executor e false own ms h')
                  (λ m own' ms' left. left))
          ])
        ],
      )

  add_call-Safe :
      (n : HostSpanner) (executor : Executor) (e : Event) (own ms : List ℕ)
      → IsReady n own ms
      → Safe IsReadyAfter (add_call env pci_write_indicators fuel n executor e) own ms
  unfolding add_call
  add_call-Safe n executor e own ms h =
      unless_empty-known IsReadyAfter n.pending_host_call_span _ own ms (λ (p, s) held.
        unless_empty-Safe IsReadyAfter (add_to_host_call env s (some e)) _ own ms
          (λ (s', added). added_call-Safe n executor e p s s' added own ms held h))

  pub handel_call-Safe :
      (n : HostSpanner) (executor : Executor) (e : Event) (own ms : List ℕ)
      → IsReady n own ms
      → Safe IsReadyAfter (handel_call env pci_write_indicators fuel n executor e) own ms
  unfolding handel_call
  handel_call-Safe n executor e own ms h = elim (Option-cases n.pending_host_call_span) [
    | inr (held, is) ↦ rw is (
        add_call-Safe (record n { pending_host_call_span = some held }) executor e own ms
          (own_less (owned n) _ own ms (λ q. omega (arith, ap (λ o. held_by o q) is)) h))
    | inl missing ↦ rw missing (
        Safe->>= IsReady IsReadyAfter
          (create_trace_starting_span env pci_write_indicators fuel
            (record n { pending_host_call_span = none }) executor e false)
          _ own ms
          (create_trace_starting_span-Safe (record n { pending_host_call_span = none }) executor e
            false own ms
            (own_less (owned n) _ own ms (λ q. omega (arith, ap (λ o. held_by o q) missing)) h))
          (λ n' own' ms' h'. add_call-Safe n' executor e own' ms' h'))
  ]
