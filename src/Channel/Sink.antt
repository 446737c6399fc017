-- ===== src/Channel/Sink.antt =====
-- NonCoroChannelSink and CoroChannelSink (include/sync/channel.h): a push returns true and drops the value, and the
-- other methods are those of NonCoroChannel and CoroChannel, on a size that stays 0. Push, TryPush, Pop, TryPop and
-- TryPopOnTrue of a CoroChannelSink do not look at the executor.
use columbo.Base.{
  ◌≡◌, refl, ◌++◌, ap₂, sym, ◌∙◌, append-nil, Bool, true, false, Option, none, some, List, [], ◌∷◌,
}
use columbo.Channel.Queue.{
  Outcome, returns, Done, Call, Reply, flag, value, amount, unit, Executor, running, throw_if_empty,
}
use columbo.Channel.Client.{Event, blocked, replied, History, noted, run}
use columbo.Channel.Client.Order.{accepted, accepted_by, delivered, delivered_by}
use columbo.Channel.Client.Shutdown.{blocked_calls}

pub record Sink : Type 0 where
  pub closed : Bool
  pub poisened : Bool

module _ {A : Type 0} where
  abbrev return : Sink → Reply A → Bool → Outcome (Done Sink (Reply A))
  return c r n = returns (record { chan = c; result = r; notified = n })

  unfoldable pub non_coro_sink_step : Sink → Call ⊥ A → Outcome (Done Sink (Reply A))
  non_coro_sink_step c (Call.push v) = return c (flag true) false
  non_coro_sink_step c (Call.try_push v) = return c (flag true) false
  non_coro_sink_step c Call.pop = return c (value none) false
  non_coro_sink_step c Call.try_pop = return c (value none) false
  non_coro_sink_step c (Call.try_pop_on_true p) = return c (value none) false
  non_coro_sink_step c (Call.wait_till_value none_has) = absurd none_has
  non_coro_sink_step c Call.close = return (record c { closed = true }) unit true
  non_coro_sink_step c Call.poisen = return (record c { poisened = true }) unit true
  non_coro_sink_step c Call.is_empty = return c (flag true) false
  non_coro_sink_step c Call.get_size = return c (amount 0) false

  unfoldable pub coro_sink_step : Executor → Sink → Call ⊥ A → Outcome (Done Sink (Reply A))
  unfolding non_coro_sink_step
  coro_sink_step e c (Call.wait_till_value none_has) = absurd none_has
  coro_sink_step e c Call.close = throw_if_empty e (non_coro_sink_step c Call.close)
  coro_sink_step e c Call.poisen = throw_if_empty e (non_coro_sink_step c Call.poisen)
  coro_sink_step e c call = non_coro_sink_step c call

  abbrev pushed : List (Call ⊥ A) → List A
  pushed [] = []
  pushed (Call.push v ∷ calls) = v ∷ pushed calls
  pushed (Call.try_push v ∷ calls) = v ∷ pushed calls
  pushed (call ∷ calls) = pushed calls

  -- What a history of a sink comes to.
  record Drops (vs : List A) (h : History ⊥ A Sink) : Type 0 where
    takes : accepted h.events ≡ vs
    drops : delivered h.events ≡ []
    waits_for_none : blocked_calls h.events ≡ []

  more-Drops :
      (ev : Event ⊥ A) (us vs : List A) (o : Option (History ⊥ A Sink))
      → accepted (ev ∷ []) ≡ us
      → delivered (ev ∷ []) ≡ []
      → blocked_calls (ev ∷ []) ≡ []
      → (h : History ⊥ A Sink) × (o ≡ some h) × Drops vs h
      → (h : History ⊥ A Sink) × (noted ev o ≡ some h) × Drops (us ++ vs) h
  more-Drops (replied call r) us vs o a b e (h, is, d) = (
    (record { events = replied call r ∷ h.events; last = h.last }),
    rw is refl,
    record {
      takes = ap₂ (λ xs ys. xs ++ ys) (sym (append-nil (accepted_by call r)) ∙ a) d.takes;
      drops = ap₂ (λ xs ys. xs ++ ys) (sym (append-nil (delivered_by r)) ∙ b) d.drops;
      waits_for_none = d.waits_for_none;
    },
  )
  more-Drops (blocked call) us vs o a b e d = absurd (cc e)

  -- Any calls of a CoroChannelSink with an executor that runs come to an end; none is blocked, all values that are
  -- pushed are accepted, and none is delivered.
  coro_sink-Drops :
      (calls : List (Call ⊥ A)) (c : Sink)
      → (h : History ⊥ A Sink) × (run (coro_sink_step running) c calls ≡ some h)
        × Drops (pushed calls) h
  unfolding run coro_sink_step
  coro_sink-Drops [] c = (
    (record { events = []; last = c }),
    refl,
    record { takes = refl; drops = refl; waits_for_none = refl },
  )
  coro_sink-Drops (Call.push v ∷ calls) c =
      more-Drops (replied (Call.push v) (flag true)) (v ∷ []) _ _ refl refl refl
        (coro_sink-Drops calls c)
  coro_sink-Drops (Call.try_push v ∷ calls) c =
      more-Drops (replied (Call.try_push v) (flag true)) (v ∷ []) _ _ refl refl refl
        (coro_sink-Drops calls c)
  coro_sink-Drops (Call.pop ∷ calls) c =
      more-Drops (replied (Call.pop) (value none)) [] _ _ refl refl refl (coro_sink-Drops calls c)
  coro_sink-Drops (Call.try_pop ∷ calls) c =
      more-Drops (replied (Call.try_pop) (value none)) [] _ _ refl refl refl
        (coro_sink-Drops calls c)
  coro_sink-Drops (Call.try_pop_on_true p ∷ calls) c =
      more-Drops (replied (Call.try_pop_on_true p) (value none)) [] _ _ refl refl refl
        (coro_sink-Drops calls c)
  coro_sink-Drops (Call.wait_till_value none_has ∷ calls) c = absurd none_has
  coro_sink-Drops (Call.close ∷ calls) c =
      more-Drops (replied (Call.close) (unit)) [] _ _ refl refl refl
        (coro_sink-Drops calls (record c { closed = true }))
  coro_sink-Drops (Call.poisen ∷ calls) c =
      more-Drops (replied (Call.poisen) (unit)) [] _ _ refl refl refl
        (coro_sink-Drops calls (record c { poisened = true }))
  coro_sink-Drops (Call.is_empty ∷ calls) c =
      more-Drops (replied (Call.is_empty) (flag true)) [] _ _ refl refl refl
        (coro_sink-Drops calls c)
  coro_sink-Drops (Call.get_size ∷ calls) c =
      more-Drops (replied (Call.get_size) (amount 0)) [] _ _ refl refl refl
        (coro_sink-Drops calls c)
