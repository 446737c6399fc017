-- ===== src/Channel/Client/Instances.antt =====
-- The four classes of include/sync/channel.h keep the promised queue, each with its own bound and habits.
use columbo.Base.{◌+◌, ◌^◌, ◌<◌, refl, ap, length, arith}
use columbo.Channel.Queue.{Ensures-map, running}
use columbo.Channel.Client.{Implements}
use columbo.Channel.Buffered.{Channel}
use columbo.Channel.Buffered.Storage.{IsValid, view}
use columbo.Channel.NonCoroBuffered
use columbo.Channel.CoroBounded
use columbo.Channel.NonCoroUnBuffered
use columbo.Channel.CoroUnBounded

abbrev pub non_coro_buffered : (A : Type 0) → Implements (Unit {0}) A
non_coro_buffered A = record {
  State = Channel A;
  step = NonCoroBuffered.step;
  kind = λ c. NonCoroBuffered.Fifo.kind c.capacity;
  view = view;
  IsValid = IsValid;
  Fits = λ n c. Unit {0};
  refines = λ c call v. NonCoroBuffered.Fifo.step_refines c v call;
  fits_fewer = λ n c f. tt;
  keeps = λ n c call v f.
      Ensures-map (λ d k. (k.0, tt, ap NonCoroBuffered.Fifo.kind k.1)) (NonCoroBuffered.step c call)
        (NonCoroBuffered.Valid.step-Keeps c v call);
}

-- A coroutine channel called with an executor that runs.
abbrev pub coro_bounded : (A : Type 0) → Implements ⊥ A
coro_bounded A = record {
  State = Channel A;
  step = CoroBounded.step running;
  kind = λ c. CoroBounded.Fifo.kind c.capacity;
  view = view;
  IsValid = IsValid;
  Fits = λ n c. Unit {0};
  refines = λ c call v. CoroBounded.Fifo.step_refines c v call;
  fits_fewer = λ n c f. tt;
  keeps = λ n c call v f.
      Ensures-map (λ d k. (k.0, tt, ap CoroBounded.Fifo.kind k.1)) (CoroBounded.step running c call)
        (CoroBounded.Valid.step-Keeps c v call);
}

abbrev pub non_coro_un_buffered : (A : Type 0) → Implements ⊥ A
non_coro_un_buffered A = record {
  State = NonCoroUnBuffered.Channel A;
  step = NonCoroUnBuffered.step;
  kind = λ c. NonCoroUnBuffered.Fifo.kind;
  view = NonCoroUnBuffered.Fifo.view;
  IsValid = NonCoroUnBuffered.Fifo.IsValid;
  Fits = λ n c. length c.buffer + n < 2 ^ 64;
  refines = NonCoroUnBuffered.Fifo.step_refines;
  fits_fewer = λ n c f. omega arith;
  keeps = λ n c call v f.
      Ensures-map (λ d k. (k.0, omega arith, refl)) (NonCoroUnBuffered.step c call)
        (NonCoroUnBuffered.Fifo.step-Keeps c call v (omega arith));
}

-- A coroutine channel called with an executor that runs.
abbrev pub coro_un_bounded : (A : Type 0) → Implements ⊥ A
coro_un_bounded A = record {
  State = CoroUnBounded.Channel A;
  step = CoroUnBounded.step running;
  kind = λ c. CoroUnBounded.Fifo.kind;
  view = CoroUnBounded.Fifo.view;
  IsValid = CoroUnBounded.Fifo.IsValid;
  Fits = λ n c. length c.buffer + n < 2 ^ 64;
  refines = CoroUnBounded.Fifo.step_refines;
  fits_fewer = λ n c f. omega arith;
  keeps = λ n c call v f.
      Ensures-map (λ d k. (k.0, omega arith, refl)) (CoroUnBounded.step running c call)
        (CoroUnBounded.Fifo.step-Keeps c call v (omega arith));
}
