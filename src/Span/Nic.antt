-- ===== src/Span/Nic.antt =====
-- NicDmaSpan (include/analytics/span.h, source/analytics/span.cpp).
use columbo.Base.{Bool, true, false, ◌&&◌, ◌||◌, not, Option, none, some, ◌==◌, if◌then◌else◌}
use columbo.Span.{EventType, Event, is_type, Base, new_base, is_set, push_back, guarded}

pub record NicDmaSpan : Type 0 where
  pub base : Base
  pub issue : Option Event
  pub execution : Option Event
  pub completion : Option Event
  pub is_read : Bool

abbrev pub new_nic_dma : NicDmaSpan
new_nic_dma = record {
  base = new_base;
  issue = none;
  execution = none;
  completion = none;
  is_read = true;
}

abbrev pub same_access : Option Event → Event → Bool
same_access none e = false
same_access (some x) e = x.id == e.id && x.addr == e.addr

-- `is_read_` is set before the ids are compared.
abbrev pub nic_dma_completion : NicDmaSpan → Event → NicDmaSpan × Bool
nic_dma_completion s e =
    let s' = record s { is_read = is_type e EventType.nic_dma_cr } in
    if not (is_set s.issue) || not (is_set s.execution) || is_set s.completion
    then (s, false)
    else if not (same_access s.issue e)
    then (s', false)
    else (record s' { completion = some e; base = push_back s.base e false }, true)

unfoldable pub add_to_nic_dma : NicDmaSpan → Option Event → NicDmaSpan × Bool
add_to_nic_dma s event = guarded s.base s event (λ e.
    if is_type e EventType.nic_dma_i
    then (if is_set s.issue
        then (s, false)
        else (record s { issue = some e; base = push_back s.base e s.base.is_pending }, true))
    else if is_type e EventType.nic_dma_ex
    then (if not (is_set s.issue) || is_set s.execution
        then (s, false)
        else if not (same_access s.issue e)
        then (s, false)
        else (record s { execution = some e; base = push_back s.base e s.base.is_pending }, true))
    else if is_type e EventType.nic_dma_cw || is_type e EventType.nic_dma_cr
    then nic_dma_completion s e
    else (s, false))
