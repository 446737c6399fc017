-- ===== src/Pipeline.antt =====
-- include/sync/corobelt.h: a producer, handlers and a consumer, each a task of its own, joined by
-- bounded channels, and the coroutine that starts them and waits for them in order.
--
-- A producer is the list of the values that it yields before its first `nullopt`. A handler is a
-- function of its own state and the value, which it has by reference: it returns its new state,
-- whether the value is passed on, and the value as it leaves it. A task runs from one suspension
-- point to the next in one step; the executor chooses which task runs.
pub mod Log
pub mod Ok
pub mod Invariant
pub mod Progress
pub mod Termination
pub mod Run
mod Tests
use columbo.Base.{
  ℕ, zero, suc, ◌+◌, ◌≡◌, Bool, true, false, ◌&&◌, Option, none, some, List, [], ◌∷◌, ◌++◌,
  if◌then◌else◌, length,
}
use columbo.Channel.Queue.{
  Outcome, waits, aborts, throws, returns, Done, Reply, flag, value, running,
}
use columbo.Channel.Buffered.{Channel, init}
use columbo.Channel.CoroBounded.{push, pop, close_channel}

-- Where the loop of a task stands.
pub data Pc (A : Type 0) : Type 0 where
  taking closing finished : Pc A
  handling pushing : A → Pc A

-- What a task comes to in one step. `fails`: an exception or a failed assert ends the program.
pub data Attempt (S : Type 0) : Type 0 where
  blocks fails : Attempt S
  moves : S → Attempt S

abbrev pub attempt_map : {S T : Type 0} → (S → T) → Attempt S → Attempt T
attempt_map f blocks = blocks
attempt_map f fails = fails
attempt_map f (moves s) = moves (f s)

abbrev pub is_finished : {A : Type 0} → Pc A → Bool
is_finished finished = true
is_finished _ = false

-- `handel` of a handler: its state, and the function.
pub record Handler (A S : Type 0) : Type 0 where
  pub state : S
  pub handel : S → A → S × Bool × A

-- A channel and everything behind it. `joined`: RunPipelineImpl has waited for the task that writes
-- to the channel, and has closed the channel once more.
pub data Rest (A S : Type 0) : Type 0 where
  consumer : Bool → Channel A → Pc A → List A → Rest A S
  handler : Bool → Channel A → Handler A S → Pc A → Rest A S → Rest A S

pub record Pipeline (A S : Type 0) : Type 0 where
  pub todo : List A
  pub pc : Pc A
  pub rest : Rest A S

-- `Pop`, and what the loop does with its value: `Consume` and `Handel` go on with it, or leave the loop.
abbrev pub popped :
    {A T : Type 0} → (Channel A → Option A → T) → Outcome (Done (Channel A) (Reply A)) → Attempt T
popped go waits = blocks
popped go aborts = fails
popped go throws = fails
popped go (returns d) = elim d.result [ value o ↦ moves (go d.chan o) | _ ↦ fails ]

pub pop_from : {A T : Type 0} → (Channel A → Option A → T) → Channel A → Attempt T
pop_from go c = popped go (pop running c)

-- Who runs: the producer's task, the task of a node, or the coroutine that waits for them.
pub data Actor : Type 0 where
  producer waiter : Actor
  task : ℕ → Actor

module _ {A S : Type 0} where
  abbrev pub source : Rest A S → Channel A
  source (consumer j c pc log) = c
  source (handler j c h pc rest) = c

  abbrev pub with_source : Rest A S → Channel A → Rest A S
  with_source (consumer j _ pc log) c = consumer j c pc log
  with_source (handler j _ h pc rest) c = handler j c h pc rest

  -- `Push`, and `throw_on (not could_push)`.
  abbrev pub pushed : Rest A S → Outcome (Done (Channel A) (Reply A)) → Attempt (Rest A S)
  pushed rest waits = blocks
  pushed rest aborts = fails
  pushed rest throws = fails
  pushed rest (returns d) = elim d.result [
    | flag ok ↦ if ok then moves (with_source rest d.chan) else fails
    | _ ↦ fails
  ]

  pub push_to : Rest A S → A → Attempt (Rest A S)
  push_to rest v = pushed rest (push running (source rest) v)

  abbrev pub closed_to : Rest A S → Outcome (Done (Channel A) (Reply A)) → Attempt (Rest A S)
  closed_to rest (returns d) = moves (with_source rest d.chan)
  closed_to rest waits = blocks
  closed_to rest _ = fails

  pub close_to : Rest A S → Attempt (Rest A S)
  close_to rest = closed_to rest (close_channel running (source rest))

  -- `Consume`: the value popped is consumed in a task of its own, and the loop ends at `nullopt`.
  pub consume : Bool → Channel A → Pc A → List A → Attempt (Rest A S)
  consume j c taking log =
      pop_from
        (λ c' o. elim o [
          | none ↦ consumer j c' finished log
          | some v ↦ consumer j c' (handling v) log
        ])
        c
  consume j c (handling v) log = moves (consumer j c taking (log ++ v ∷ []))
  consume j c _ log = blocks

  -- `HandelTask`, and whether the value is passed on.
  abbrev pub handled : Bool → Channel A → Handler A S → A → Rest A S → Rest A S
  handled j c h v rest =
      let (s, pass_on, v') = h.handel h.state v in
      handler j c (record h { state = s }) (if pass_on then pushing v' else taking) rest

  -- `Handel`.
  pub handle : Bool → Channel A → Handler A S → Pc A → Rest A S → Attempt (Rest A S)
  handle j c h taking rest =
      pop_from
        (λ c' o. elim o [
          | none ↦ handler j c' h closing rest
          | some v ↦ handler j c' h (handling v) rest
        ])
        c
  handle j c h (handling v) rest = moves (handled j c h v rest)
  handle j c h (pushing v) rest = attempt_map (handler j c h taking) (push_to rest v)
  handle j c h closing rest = attempt_map (handler j c h finished) (close_to rest)
  handle j c h finished rest = blocks

  -- `Produce`.
  pub produce : List A → Pc A → Rest A S → Attempt (Pipeline A S)
  produce [] taking rest = moves (record { todo = []; pc = closing; rest = rest })
  produce (v ∷ vs) taking rest = moves (record { todo = vs; pc = pushing v; rest = rest })
  produce vs (pushing v) rest =
      attempt_map (λ r. record { todo = vs; pc = taking; rest = r }) (push_to rest v)
  produce vs closing rest =
      attempt_map (λ r. record { todo = vs; pc = finished; rest = r }) (close_to rest)
  produce vs (handling v) rest = blocks
  produce vs finished rest = blocks

  -- The task of the `k`th node.
  pub run_task : ℕ → Rest A S → Attempt (Rest A S)
  unfolding consume handle
  run_task zero (consumer j c pc log) = consume j c pc log
  run_task zero (handler j c h pc rest) = handle j c h pc rest
  run_task (suc k) (consumer j c pc log) = blocks
  run_task (suc k) (handler j c h pc rest) = attempt_map (handler j c h pc) (run_task k rest)

  -- The loop at the end of `RunPipelineImpl`: it waits for the tasks in order, and closes the channel
  -- that each one writes to. The Boolean says whether the task that writes to this rest is finished.
  abbrev pub mark_joined : Rest A S → Rest A S
  mark_joined (consumer j c pc log) = consumer true c pc log
  mark_joined (handler j c h pc rest) = handler true c h pc rest

  pub join : Bool → Rest A S → Attempt (Rest A S)
  unfolding close_to
  join true (consumer false c pc log) = attempt_map mark_joined (close_to (consumer false c pc log))
  join true (handler false c h pc rest) =
      attempt_map mark_joined (close_to (handler false c h pc rest))
  join false (consumer false c pc log) = blocks
  join false (handler false c h pc rest) = blocks
  join w (consumer true c pc log) = blocks
  join w (handler true c h pc rest) = attempt_map (handler true c h pc) (join (is_finished pc) rest)

  pub step : Actor → Pipeline A S → Attempt (Pipeline A S)
  step producer p = produce p.todo p.pc p.rest
  step (task k) p = attempt_map (λ r. record p { rest = r }) (run_task k p.rest)
  step waiter p = attempt_map (λ r. record p { rest = r }) (join (is_finished p.pc) p.rest)

  -- `RunPipelineImpl` at its start: each channel is fresh, with the default capacity.
  pub chain : List (Handler A S) → Rest A S
  chain [] = consumer false (init 1000) taking []
  chain (h ∷ hs) = handler false (init 1000) h taking (chain hs)

  pub start : List A → List (Handler A S) → Pipeline A S
  start values handlers = record { todo = values; pc = taking; rest = chain handlers }
