-- ===== src/LineHandler/Resets.antt =====
-- The cursor of a LineHandler under any sequence of its methods, ResetPos and Reset (include/reader/cReader.h)
-- among them.
use columbo.Base.{
  ℕ, ◌≡◌, sym, ◌∙◌, ap, Option, some, List, [], ◌∷◌, Option-cases, inl, inr, subst, arith,
}
use columbo.LineHandler.{LineHandler, reset, reset_pos}
use columbo.LineHandler.Rest.{IsValid}
use columbo.LineHandler.Cursor.{
  Method, after, with_handler, Advances, Advances-IsValid, WellMoved, after-Advances, then_advances,
  stays,
}

pub data Call : Type 0 where
  reading : Method → Call
  to_start : Call
  set_line : List ℕ → ℕ → Call

-- The handler that a call leaves, if it does not fault.
unfoldable pub after_call : Call → LineHandler → Option LineHandler
unfolding after reset reset_pos
after_call (reading m) h = after m h
after_call to_start h = some (reset_pos h)
after_call (set_line buf size) h = some (reset h buf size)

unfoldable pub after_calls : List Call → LineHandler → Option LineHandler
unfolding after_call
after_calls [] h = some h
after_calls (c ∷ cs) h = with_handler (after_call c h) (after_calls cs)

-- A new line is in its memory.
abbrev pub SetsLines : List Call → Type 0
SetsLines [] = Unit {0}
SetsLines (reading m ∷ cs) = SetsLines cs
SetsLines (to_start ∷ cs) = SetsLines cs
SetsLines (set_line buf size ∷ cs) =
    IsValid (record { memory = buf; size = size; pos = 0 }) × SetsLines cs

-- The handler as the last call that put the cursor back left it: at the start of the line that was set last. The
-- first handler where there was no such call.
abbrev pub last_start : List Call → LineHandler → LineHandler
last_start [] h = h
last_start (reading m ∷ cs) h = last_start cs h
last_start (to_start ∷ cs) h = last_start cs (record h { pos = 0 })
last_start (set_line buf size ∷ cs) h =
    last_start cs (record { memory = buf; size = size; pos = 0 })

back-Advances :
    {s h : LineHandler} → Advances s h → Advances (record s { pos = 0 }) (record h { pos = 0 })
back-Advances p = record {
  same_memory = p.same_memory;
  same_size = p.same_size;
  forward = omega arith;
  in_line = omega arith;
}

back-IsValid : {h : LineHandler} → IsValid h → IsValid (record h { pos = 0 })
back-IsValid v = record { in_line = omega arith; in_memory = v.in_memory; small = v.small }

advances_from :
    (cs : List Call) (s h h' : LineHandler)
    → Advances s h
    → IsValid h
    → SetsLines cs
    → after_calls cs h ≡ some h'
    → Advances (last_start cs s) h'
unfolding after_calls after_call reset reset_pos
advances_from [] s h h' p v l e = subst (WellMoved s) e p
advances_from (reading m ∷ cs) s h h' p v l e = elim (Option-cases (after m h)) [
  | inl none_left ↦ absurd (cc (none_left, e))
  | inr (h1, e1) ↦
      let one = subst (WellMoved h) e1 (after-Advances m h v) in
      advances_from cs s h1 h' (then_advances p one) (Advances-IsValid v one) l
        (sym (ap (λ o. with_handler o (after_calls cs)) e1) ∙ e)
]
advances_from (to_start ∷ cs) s h h' p v l e =
    advances_from cs (record s { pos = 0 }) (record h { pos = 0 }) h' (back-Advances p)
      (back-IsValid v) l e
advances_from (set_line buf size ∷ cs) s h h' p v l e =
    let new : LineHandler = record { memory = buf; size = size; pos = 0 } in
    advances_from cs new new h' (stays new l.0) l.0 l.1 e

-- Whatever methods are called, in whatever order, none of them faulting, and where each line that is set is in its
-- memory: since the last call of ResetPos or Reset, or the beginning if there was none, the line stayed the same, and
-- the cursor did not go back and is not behind the end of the line.
pub cursor_advances :
    (cs : List Call) (h h' : LineHandler)
    → IsValid h
    → SetsLines cs
    → after_calls cs h ≡ some h'
    → Advances (last_start cs h) h'
cursor_advances cs h h' v l e = advances_from cs h h h' (stays h v) v l e
