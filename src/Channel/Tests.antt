-- ===== src/Channel/Tests.antt =====
-- Histories of small channels.
use columbo.Base.{ℕ, ◌≡◌, refl, Bool, true, false, List, [], ◌∷◌, ◌++◌, none, some, arith, ◌⊎◌}
use columbo.Channel.Queue.{Call, flag, value, waits, running}
use columbo.Channel.Buffered.{Channel, perform_write, perform_read}
use columbo.Channel.Buffered.Storage.{IsValid, contents}
use columbo.Channel.Client.{History, run, Event, replied}
use columbo.Channel.Client.Order.{accepted, delivered}
use columbo.Channel.Client.Shutdown.{blocked_calls}
use columbo.Channel.NonCoroBuffered
use columbo.Channel.NonCoroUnBuffered
use columbo.Channel.CoroBounded
use columbo.Channel.CoroUnBounded
use columbo.Channel.Histories.{
  non_coro_buffered_in_order, coro_bounded_in_order, non_coro_un_buffered_in_order,
  coro_un_bounded_in_order, non_coro_buffered_wakes, coro_bounded_wakes, coro_bounded_shut,
}

-- Two values, the second in front of the first in the storage.
abbrev full : Channel ℕ
full = record {
  closed = false;
  poisened = false;
  size = 2;
  capacity = 2;
  buffer = some 6 ∷ some 5 ∷ [];
  read_index = 1;
  write_index = 1;
}

full-IsValid : IsValid full
full-IsValid = record {
  storage = omega arith;
  small = omega arith;
  read_in = omega arith;
  size_in = omega arith;
  write_at = refl;
  filled = refl;
}

contents-full : contents full ≡ 5 ∷ 6 ∷ []
contents-full = refl

-- The first push finds the channel full.
abbrev calls : {W : Type 0} → List (Call W ℕ)
calls =
    Call.push 7
    ∷ Call.pop
    ∷ Call.push 8
    ∷ Call.try_pop
    ∷ Call.close
    ∷ Call.push 9
    ∷ Call.pop
    ∷ Call.pop
    ∷ []

-- `WaitTillValue` finds a value, and in the end finds none, on a closed channel.
abbrev waiting_calls : List (Call (Unit {0}) ℕ)
waiting_calls = Call.wait_till_value tt ∷ (calls ++ Call.wait_till_value tt ∷ [])

non_coro_buffered_in_order_example :
    (h : History (Unit {0}) ℕ (Channel ℕ)) × (run NonCoroBuffered.step full waiting_calls ≡ some h)
    × ((5 ∷ 6 ∷ []) ++ accepted h.events ≡ delivered h.events ++ contents h.last)
non_coro_buffered_in_order_example =
    non_coro_buffered_in_order full waiting_calls full-IsValid (omega arith)

coro_bounded_in_order_example :
    (h : History ⊥ ℕ (Channel ℕ)) × (run (CoroBounded.step running) full calls ≡ some h)
    × ((5 ∷ 6 ∷ []) ++ accepted h.events ≡ delivered h.events ++ contents h.last)
coro_bounded_in_order_example = coro_bounded_in_order full calls full-IsValid (omega arith)

non_coro_un_buffered_in_order_example :
    (h : History ⊥ ℕ (NonCoroUnBuffered.Channel ℕ)) × (run NonCoroUnBuffered.step
        (record { closed = false; poisened = false; size = 1; buffer = 4 ∷ [] })
        calls
      ≡ some h)
    × ((4 ∷ []) ++ accepted h.events ≡ delivered h.events ++ h.last.buffer)
non_coro_un_buffered_in_order_example =
    non_coro_un_buffered_in_order _ calls refl (omega arith) (omega arith)

coro_un_bounded_in_order_example :
    (h : History ⊥ ℕ (CoroUnBounded.Channel ℕ)) × (run
        (CoroUnBounded.step running)
        (record { closed = false; poisened = false; size = 1; buffer = 4 ∷ [] })
        calls
      ≡ some h)
    × ((4 ∷ []) ++ accepted h.events ≡ delivered h.events ++ h.last.buffer)
coro_un_bounded_in_order_example = coro_un_bounded_in_order _ calls refl (omega arith) (omega arith)

-- A pop makes room for the push that waits.
abbrev popped : Channel ℕ
popped = record full { size = 1; buffer = some 6 ∷ none ∷ []; read_index = 0 }

full_waits : NonCoroBuffered.step full (Call.push 7) ≡ waits
unfolding NonCoroBuffered.push
full_waits = refl

-- A push gives the value that `WaitTillValue` waits for.
abbrev drained : Channel ℕ
drained = record full { size = 0; buffer = none ∷ none ∷ []; read_index = 0; write_index = 0 }

drained-IsValid : IsValid drained
drained-IsValid = record {
  storage = omega arith;
  small = omega arith;
  read_in = omega arith;
  size_in = omega arith;
  write_at = refl;
  filled = refl;
}

abbrev pushed : Channel ℕ
pushed = record drained { size = 1; buffer = some 7 ∷ none ∷ []; write_index = 1 }

non_coro_buffered_wakes_example : ◌≡◌ {A = Bool} true true
unfolding NonCoroBuffered.push NonCoroBuffered.wait_till_value perform_write
non_coro_buffered_wakes_example =
    non_coro_buffered_wakes drained (Call.push 7) (Call.wait_till_value tt)
      (record { chan = pushed; result = flag true; notified = true }) drained-IsValid refl refl
      (λ e. cc)

coro_bounded_wakes_example : ◌≡◌ {A = Bool} true true
unfolding CoroBounded.push CoroBounded.pop perform_read perform_write
coro_bounded_wakes_example =
    coro_bounded_wakes full Call.pop (Call.push 7)
      (record { chan = popped; result = value (some 5); notified = true }) full-IsValid refl refl
      (λ e. cc)

abbrev poisened_full : Channel ℕ
poisened_full = record full { poisened = true }

poisened_full-IsValid : IsValid poisened_full
poisened_full-IsValid = record {
  storage = omega arith;
  small = omega arith;
  read_in = omega arith;
  size_in = omega arith;
  write_at = refl;
  filled = refl;
}

abbrev refused : List (Event ⊥ ℕ)
refused = replied (Call.push 7) (flag false) ∷ replied Call.pop (value none) ∷ []

coro_bounded_shut_example :
    (accepted refused ≡ [])
    × (blocked_calls refused ≡ [])
    × ((true ≡ false) ⊎ (delivered refused ≡ []))
unfolding CoroBounded.push CoroBounded.pop run
coro_bounded_shut_example =
    coro_bounded_shut (Call.push 7 ∷ Call.pop ∷ []) poisened_full
      (record { events = refused; last = poisened_full }) poisened_full-IsValid refl refl
