-- ===== src/Pipeline/Ok.antt =====
-- The invariant of a pipeline of include/sync/corobelt.h: which channel is closed, and how far its
-- tasks can be.
use columbo.Base.{◌≡◌, refl, ◌∙◌, Bool, true, false, List, []}
use columbo.Channel.Buffered.{Channel}
use columbo.Channel.Buffered.Storage.{contents}
use columbo.Channel.CoroBounded.Links.{IsLink}
use columbo.Pipeline.{
  Pc, taking, closing, finished, handling, pushing, is_finished, Rest, consumer, handler, Pipeline,
  Attempt, blocks, fails, moves, attempt_map,
}
use columbo.Pipeline.Log.{log_with}

-- The task does not fail, and if it moves, `P` holds after it.
abbrev pub After : {S : Type 0} → (S → Type 0) → Attempt S → Type 0
After P blocks = Unit {0}
After P fails = ⊥
After P (moves s) = P s

pub After-map :
    {S T : Type 0} (P : S → Type 0) (Q : T → Type 0) (f : S → T) (a : Attempt S)
    → ((s : S) → P s → Q (f s))
    → After P a
    → After Q (attempt_map f a)
After-map P Q f blocks h e = tt
After-map P Q f fails h e = e
After-map P Q f (moves s) h e = h s e

module _ {A : Type 0} where
  -- A consumer ends on a closed and empty channel only, and neither pushes nor closes.
  abbrev pub ConsumerOk : Bool → Channel A → Pc A → Type 0
  ConsumerOk w c finished = (w ≡ true) × (contents c ≡ [])
  ConsumerOk w c closing = ⊥
  ConsumerOk w c (pushing v) = ⊥
  ConsumerOk w c _ = Unit {0}

  -- A handler leaves its loop on a closed and empty channel only.
  abbrev pub HandlerOk : Bool → Channel A → Pc A → Type 0
  HandlerOk w c finished = (w ≡ true) × (contents c ≡ [])
  HandlerOk w c closing = (w ≡ true) × (contents c ≡ [])
  HandlerOk w c _ = Unit {0}

  -- A producer leaves its loop when nothing is left to produce.
  abbrev pub ProducerOk : List A → Pc A → Type 0
  ProducerOk vs finished = vs ≡ []
  ProducerOk vs closing = vs ≡ []
  ProducerOk vs (handling v) = ⊥
  ProducerOk vs _ = Unit {0}

  pub fresh-IsLink :
      (c : Channel A) (w : Bool) (xs : List A) → IsLink c w xs → IsLink c w (contents c)
  fresh-IsLink c w xs l = record {
    valid = l.valid;
    shut = l.shut;
    healthy = l.healthy;
    holds = refl;
  }

  -- While the channel is open, its contents do not bear on a loop that runs.
  pub consumer_open :
      (c c' : Channel A) (pc : Pc A) → ConsumerOk false c pc → ConsumerOk false c' pc
  consumer_open c c' taking p = tt
  consumer_open c c' (handling v) p = tt
  consumer_open c c' (pushing v) p = p
  consumer_open c c' closing p = p
  consumer_open c c' finished p = cc

  pub handler_open : (c c' : Channel A) (pc : Pc A) → HandlerOk false c pc → HandlerOk false c' pc
  handler_open c c' taking p = tt
  handler_open c c' (handling v) p = tt
  handler_open c c' (pushing v) p = tt
  handler_open c c' closing p = cc
  handler_open c c' finished p = cc

abbrev pub JoinOk : Bool → Bool → Type 0
JoinOk true w = w ≡ true
JoinOk false w = Unit {0}

pub join_closed : (j w : Bool) → JoinOk j w → JoinOk j true
join_closed true w p = refl
join_closed false w p = tt

module _ {A : Type 0} where
  pub consumer_closed :
      (w : Bool) (c c' : Channel A) (pc : Pc A)
      → contents c' ≡ contents c
      → ConsumerOk w c pc
      → ConsumerOk true c' pc
  consumer_closed w c c' taking e p = tt
  consumer_closed w c c' (handling v) e p = tt
  consumer_closed w c c' (pushing v) e p = p
  consumer_closed w c c' closing e p = p
  consumer_closed w c c' finished e p = (refl, e ∙ p.1)

  pub handler_closed :
      (w : Bool) (c c' : Channel A) (pc : Pc A)
      → contents c' ≡ contents c
      → HandlerOk w c pc
      → HandlerOk true c' pc
  handler_closed w c c' taking e p = tt
  handler_closed w c c' (handling v) e p = tt
  handler_closed w c c' (pushing v) e p = tt
  handler_closed w c c' closing e p = (refl, e ∙ p.1)
  handler_closed w c c' finished e p = (refl, e ∙ p.1)

module _ {A S : Type 0} where
  -- A rest whose writing task is finished (`true`) or not: its channel is closed just then.
  abbrev pub RestOk : Bool → Rest A S → Type 0
  RestOk w (consumer j c pc log) = IsLink c w (contents c) × JoinOk j w × ConsumerOk w c pc
  RestOk w (handler j c h pc rest) =
      IsLink c w (contents c) × JoinOk j w × HandlerOk w c pc × RestOk (is_finished pc) rest

  abbrev pub IsOk : Pipeline A S → Type 0
  IsOk p = ProducerOk p.todo p.pc × RestOk (is_finished p.pc) p.rest

  -- The rest after a step: well formed, and with the same log when `ys` are to come in place of `xs`.
  abbrev pub Becomes : Bool → Rest A S → (List A → List A) → Rest A S → Type 0
  Becomes w rest f r = RestOk w r × ((xs : List A) → log_with r xs ≡ log_with rest (f xs))
