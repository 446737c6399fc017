-- ===== src/Pipeline/Log.antt =====
-- What a pipeline of include/sync/corobelt.h is to deliver to its consumer.
use columbo.Base.{◌≡◌, ap, ◌∙◌, Bool, true, false, List, [], ◌∷◌, ◌++◌}
use columbo.Channel.Buffered.Storage.{contents, contents-init}
use columbo.Pipeline.{
  Pc, handling, pushing, Handler, Rest, consumer, handler, Pipeline, chain, start,
}

module _ {A : Type 0} where
  -- The value that a task took and did not yet handle, and the one that it is about to push.
  abbrev pub held : Pc A → List A
  held (handling v) = v ∷ []
  held _ = []

  abbrev pub sending : Pc A → List A
  sending (pushing v) = v ∷ []
  sending _ = []

  abbrev pub emit : Bool → A → List A
  emit true v = v ∷ []
  emit false v = []

module _ {A S : Type 0} where
  -- What a handler passes on of a list of values, one after the other.
  abbrev pub outs : Handler A S → List A → List A
  outs h [] = []
  outs h (x ∷ xs) =
      let (s, pass_on, v) = h.handel h.state x in emit pass_on v ++ outs (record h { state = s }) xs

  -- The handlers one after the other, each over the whole output of the one before it.
  abbrev pub process : List (Handler A S) → List A → List A
  process [] xs = xs
  process (h ∷ hs) xs = process hs (outs h xs)

  -- The consumer's log at the end, if `xs` are still to be pushed to this rest.
  abbrev pub log_with : Rest A S → List A → List A
  log_with (consumer j c pc log) xs = log ++ (held pc ++ (contents c ++ xs))
  log_with (handler j c h pc rest) xs =
      log_with rest (sending pc ++ outs h (held pc ++ (contents c ++ xs)))

  abbrev pub final_log : Pipeline A S → List A
  final_log p = log_with p.rest (sending p.pc ++ p.todo)

  -- The values that the consumer has consumed so far.
  abbrev pub consumed : Rest A S → List A
  consumed (consumer j c pc log) = log
  consumed (handler j c h pc rest) = consumed rest

  log_with-chain : (hs : List (Handler A S)) (xs : List A) → log_with (chain hs) xs ≡ process hs xs
  unfolding chain
  log_with-chain [] xs = rw contents-init
  log_with-chain (h ∷ hs) xs =
      ap (λ t. log_with (chain hs) (outs h (t ++ xs))) (contents-init 1000)
      ∙ log_with-chain hs (outs h xs)

  pub final_log-start :
      (xs : List A) (hs : List (Handler A S)) → final_log (start xs hs) ≡ process hs xs
  unfolding start
  final_log-start xs hs = log_with-chain hs xs
