-- ===== src/Channel/Histories.antt =====
-- What histories of calls on the four channel classes of include/sync/channel.h come to.
use columbo.Base.{
  ◌+◌, ◌^◌, ◌<◌, ◌≡◌, ◌≢◌, true, false, ◌||◌, ◌⊎◌, inl, inr, Bool-cases, arith, List, [], ◌++◌,
  length, some,
}
use columbo.Channel.Queue.{Call, Reply, Done, waits, returns, running}
use columbo.Channel.Buffered.{Channel}
use columbo.Channel.Buffered.Storage.{IsValid, contents}
use columbo.Channel.NonCoroBuffered
use columbo.Channel.NonCoroUnBuffered
use columbo.Channel.CoroBounded
use columbo.Channel.CoroUnBounded
use columbo.Channel.Client.{History, run}
use columbo.Channel.Client.Order.{run_in_order, accepted, delivered, ArePure}
use columbo.Channel.Client.Wakeup.{no_lost_wakeup}
use columbo.Channel.Client.Shutdown.{closed_refuses, poisened_refuses, blocked_calls}
use columbo.Channel.Client.Instances.{
  non_coro_buffered, coro_bounded, non_coro_un_buffered, coro_un_bounded,
}

module _ {A : Type 0} where
  -- Any calls on a valid NonCoroBufferedChannel, `WaitTillValue` and blocked ones among them, run with no failed assert,
  -- and what the channel held and then accepted, in order, is what it delivered and still holds, if the
  -- predicates of `TryPopOnTrue` leave their value alone.
  pub non_coro_buffered_in_order :
      (c : Channel A) (calls : List (Call (Unit {0}) A))
      → IsValid c
      → ArePure calls
      → (h : History (Unit {0}) A (Channel A)) × (run NonCoroBuffered.step c calls ≡ some h)
        × (contents c ++ accepted h.events ≡ delivered h.events ++ contents h.last)
  non_coro_buffered_in_order c calls v pure = run_in_order (non_coro_buffered A) c calls v tt pure

  -- Any calls on a valid CoroBoundedChannel whose methods get an executor that runs, blocked ones among them, run
  -- with no failed assert, and what the channel held and then accepted, in order, is what it delivered and still
  -- holds, if the predicates of `TryPopOnTrue` leave their value alone.
  pub coro_bounded_in_order :
      (c : Channel A) (calls : List (Call ⊥ A))
      → IsValid c
      → ArePure calls
      → (h : History ⊥ A (Channel A)) × (run (CoroBounded.step running) c calls ≡ some h)
        × (contents c ++ accepted h.events ≡ delivered h.events ++ contents h.last)
  coro_bounded_in_order c calls v pure = run_in_order (coro_bounded A) c calls v tt pure

  -- Any calls on a NonCoroUnBufferedChannel whose count is right and cannot wrap run with no failed
  -- assert, and what it held and then accepted, in order, is what it delivered and still holds, if the
  -- predicates of `TryPopOnTrue` leave their value alone.
  pub non_coro_un_buffered_in_order :
      (c : NonCoroUnBuffered.Channel A) (calls : List (Call ⊥ A))
      → c.size ≡ length c.buffer
      → length c.buffer + length calls < 2 ^ 64
      → ArePure calls
      → (h : History ⊥ A (NonCoroUnBuffered.Channel A)) × (run NonCoroUnBuffered.step c calls
          ≡ some h)
        × (c.buffer ++ accepted h.events ≡ delivered h.events ++ h.last.buffer)
  non_coro_un_buffered_in_order c calls v f pure =
      run_in_order (non_coro_un_buffered A) c calls v f pure

  -- The same of a CoroUnBoundedChannel whose methods get an executor that runs.
  pub coro_un_bounded_in_order :
      (c : CoroUnBounded.Channel A) (calls : List (Call ⊥ A))
      → c.size ≡ length c.buffer
      → length c.buffer + length calls < 2 ^ 64
      → ArePure calls
      → (h : History ⊥ A (CoroUnBounded.Channel A)) × (run (CoroUnBounded.step running) c calls
          ≡ some h)
        × (c.buffer ++ accepted h.events ≡ delivered h.events ++ h.last.buffer)
  coro_un_bounded_in_order c calls v f pure = run_in_order (coro_un_bounded A) c calls v f pure

  -- No wakeup is lost on a valid NonCoroBufferedChannel: a call that returns, and after which another
  -- call that had to wait (`Push`, `Pop` or `WaitTillValue`) need not wait any more, has notified all waiters.
  pub non_coro_buffered_wakes :
      (c : Channel A) (call other : Call (Unit {0}) A) (d : Done (Channel A) (Reply A))
      → IsValid c
      → NonCoroBuffered.step c other ≡ waits
      → NonCoroBuffered.step c call ≡ returns d
      → NonCoroBuffered.step d.chan other ≢ waits
      → d.notified ≡ true
  non_coro_buffered_wakes c call other d v w e free =
      no_lost_wakeup (non_coro_buffered A) c call other d v tt w e free

  -- No wakeup is lost on a valid CoroBoundedChannel whose methods get an executor that runs: a call that returns,
  -- and after which another call that had to wait need not wait any more, has notified all waiters.
  pub coro_bounded_wakes :
      (c : Channel A) (call other : Call ⊥ A) (d : Done (Channel A) (Reply A))
      → IsValid c
      → CoroBounded.step running c other ≡ waits
      → CoroBounded.step running c call ≡ returns d
      → CoroBounded.step running d.chan other ≢ waits
      → d.notified ≡ true
  coro_bounded_wakes c call other d v w e free =
      no_lost_wakeup (coro_bounded A) c call other d v tt w e free

  -- A CoroBoundedChannel that is valid and closed or poisened blocks no call and accepts no value, in any history of
  -- calls with an executor that runs, and delivers none where it is poisened.
  pub coro_bounded_shut :
      (calls : List (Call ⊥ A)) (c : Channel A) (h : History ⊥ A (Channel A))
      → IsValid c
      → (c.closed || c.poisened) ≡ true
      → run (CoroBounded.step running) c calls ≡ some h
      → (accepted h.events ≡ [])
        × (blocked_calls h.events ≡ [])
        × ((c.poisened ≡ false) ⊎ (delivered h.events ≡ []))
  coro_bounded_shut calls c h v s e = elim (Bool-cases c.poisened) [
    | inl poisened ↦
        let (no_value, no_call, none_out) =
          poisened_refuses (coro_bounded A) calls c h v tt poisened e in
        (no_value, no_call, inr none_out)
    | inr whole ↦
        let closed : c.closed ≡ true = ground (arith, s, whole) in
        let (no_value, no_call) = closed_refuses (coro_bounded A) calls c h v tt closed e in
        (no_value, no_call, inl whole)
  ]
