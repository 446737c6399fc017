-- ===== src/Span/CallState.antt =====
-- What a HostCallSpan (source/analytics/span.cpp) that is not fragmented can hold.
use columbo.Base.{
  ◌≡◌, ◌≢◌, refl, sym, ◌∙◌, ap, Bool, true, false, ◌&&◌, ◌||◌, not, Option, none, some, List, [],
  ◌∷◌, ◌++◌, if◌then◌else◌, Bool-cases, inl, inr, subst,
}
use columbo.Span.{EventType, Event, is_type, Base, is_set, same_parser, is_potential_add}
use columbo.Span.Call.{
  TraceEnvironment, HostCallSpan, new_host_call, is_sys_entry, back, end_call, sys_entry_call,
  mark_call, indicates, get_call_func, pushed_call, add_to_host_call,
}

-- The events that begin a system call.
abbrev pub entries : TraceEnvironment → List Event → List Event
entries env [] = []
entries env (e ∷ es) = let more = entries env es in if is_sys_entry env e then e ∷ more else more

abbrev pub to_list : Option Event → List Event
to_list none = []
to_list (some e) = e ∷ []

abbrev pub AllCalls : List Event → Type 0
AllCalls [] = Unit {0}
AllCalls (e ∷ es) = (is_type e EventType.host_call ≡ true) × AllCalls es

-- All the events are calls, the one that begins a system call is the entry of the span, and a span that is
-- complete returns with its last event.
pub record IsWhole (env : TraceEnvironment) (s : HostCallSpan) : Type 0 where
  pub whole : s.is_fragmented ≡ false
  pub calls : AllCalls s.base.events
  pub one_entry : entries env s.base.events ≡ to_list s.call_span_entry
  pub returned : s.base.is_pending ≡ false → s.syscall_return ≡ back s.base.events

AllCalls-++ :
    (es : List Event) (e : Event)
    → AllCalls es
    → is_type e EventType.host_call ≡ true
    → AllCalls (es ++ (e ∷ []))
AllCalls-++ [] e a t = (t, tt)
AllCalls-++ (x ∷ es) e a t = (a.0, AllCalls-++ es e a.1 t)

entries-++ :
    (env : TraceEnvironment) (es : List Event) (e : Event)
    → entries env (es ++ (e ∷ [])) ≡ entries env es ++ (if is_sys_entry env e then e ∷ [] else [])
entries-++ env [] e = refl
entries-++ env (x ∷ es) e = elim (Bool-cases (is_sys_entry env x)) [
  | inl t ↦ rw t (ap (◌∷◌ x) (entries-++ env es e))
  | inr f ↦ rw f (entries-++ env es e)
]

-- What a step of the span comes to.
abbrev pub KeepsCall : TraceEnvironment → Option (HostCallSpan × Bool) → Type 0
KeepsCall env none = ⊥
KeepsCall env (some r) = IsWhole env r.0

back_some : (e : Event) (es : List Event) → back (e ∷ es) ≢ none
back_some e [] b = cc b
back_some e (f ∷ es) b = back_some f es b

or_right : (a b : Bool) → a ≡ false → (a || b) ≡ true → b ≡ true
or_right true b f t = absurd (cc f)
or_right false b f t = t

or_none : (a b : Bool) → (a || b) ≡ false → b ≡ false
or_none true b f = absurd (cc f)
or_none false b f = f

no_entry : (o : Option Event) → is_set o ≡ false → to_list o ≡ []
no_entry none f = refl
no_entry (some e) f = absurd (cc f)

true≢false : true ≢ false
true≢false e = cc e

append-nil : (es : List Event) → es ++ [] ≡ es
append-nil [] = refl
append-nil (e ∷ es) = ap (◌∷◌ e) (append-nil es)

if-KeepsCall :
    (env : TraceEnvironment) (c : Bool) (x y : Option (HostCallSpan × Bool))
    → (c ≡ true → KeepsCall env x)
    → (c ≡ false → KeepsCall env y)
    → KeepsCall env (if c then x else y)
if-KeepsCall env true x y a b = a refl
if-KeepsCall env false x y a b = b refl

-- A span that has its entry has events.
has_back :
    (env : TraceEnvironment) (es : List Event) (o : Option Event)
    → entries env es ≡ to_list o
    → is_set o ≡ true
    → back es ≢ none
has_back env es none e t b = absurd (cc t)
has_back env [] (some x) e t b = cc e
has_back env (x ∷ []) (some y) e t b = cc b
has_back env (x ∷ z ∷ es) (some y) e t b = back_some z es b

end_call-IsWhole :
    (env : TraceEnvironment) (s : HostCallSpan) (o : Option Event)
    → IsWhole env s
    → o ≡ back s.base.events
    → o ≢ none
    → KeepsCall env (end_call s o)
end_call-IsWhole env s none v e n = n refl
end_call-IsWhole env s (some last) v e n = record {
  whole = refl;
  calls = v.calls;
  one_entry = v.one_entry;
  returned = λ done. e;
}

append_one :
    (env : TraceEnvironment) (es : List Event) (e : Event) (b : Bool)
    → is_sys_entry env e ≡ b
    → entries env (es ++ (e ∷ [])) ≡ entries env es ++ (if b then e ∷ [] else [])
append_one env es e b t =
    entries-++ env es e ∙ ap (λ c. entries env es ++ (if c then e ∷ [] else [])) t

sys_entry_call-IsWhole :
    (env : TraceEnvironment) (s : HostCallSpan) (e : Event)
    → IsWhole env s
    → is_type e EventType.host_call ≡ true
    → is_sys_entry env e ≡ true
    → KeepsCall env (sys_entry_call s e)
sys_entry_call-IsWhole env s e v call sys =
    if-KeepsCall env (s.is_fragmented || is_set s.call_span_entry) _ _
      (λ t.
        end_call-IsWhole env s (back s.base.events) v refl
          (has_back env s.base.events s.call_span_entry v.one_entry (or_right _ _ v.whole t)))
      (λ f. record {
        whole = v.whole;
        calls = AllCalls-++ s.base.events e v.calls call;
        one_entry =
            append_one env s.base.events e true sys
            ∙ ap (λ xs. xs ++ (e ∷ [])) (v.one_entry ∙ no_entry s.call_span_entry (or_none _ _ f));
        returned = λ done. absurd (cc done);
      })

mark_call_keeps :
    (env : TraceEnvironment) (s : HostCallSpan) (e : Event)
    → ((mark_call env s e).base ≡ s.base)
      × ((mark_call env s e).call_span_entry ≡ s.call_span_entry)
      × ((mark_call env s e).is_fragmented ≡ s.is_fragmented)
unfolding mark_call
mark_call_keeps env s e = elim (Bool-cases (indicates env.kernel_tx (get_call_func e))) [
  | inl t ↦ rw t (refl, refl, refl)
  | inr n ↦ rw n (elim (Bool-cases (indicates env.driver_tx (get_call_func e))) [
    | inl t ↦ rw t (refl, refl, refl)
    | inr m ↦ rw m (elim (Bool-cases (indicates env.kernel_rx (get_call_func e))) [
      | inl t ↦ rw t (refl, refl, refl)
      | inr k ↦ rw k (elim (Bool-cases (indicates env.driver_rx (get_call_func e))) [
        | inl t ↦ rw t (refl, refl, refl)
        | inr j ↦ rw j (refl, refl, refl)
      ])
    ])
  ])
]

pushed_call-IsWhole :
    (env : TraceEnvironment) (s : HostCallSpan) (e : Event)
    → IsWhole env s
    → s.base.is_pending ≡ true
    → is_type e EventType.host_call ≡ true
    → is_sys_entry env e ≡ false
    → IsWhole env (pushed_call (mark_call env s e) e)
pushed_call-IsWhole env s e v pending call sys =
    let (base, entry, whole) = mark_call_keeps env s e in
    record {
      whole = whole ∙ v.whole;
      calls =
          subst (λ b. AllCalls (b.events ++ (e ∷ []))) (sym base)
            (AllCalls-++ s.base.events e v.calls call);
      one_entry =
          ap (λ b. entries env (b.events ++ (e ∷ []))) base
          ∙ append_one env s.base.events e false sys
          ∙ append-nil (entries env s.base.events)
          ∙ v.one_entry
          ∙ ap to_list (sym entry);
      returned =
          λ done. absurd (true≢false (sym pending ∙ sym (ap (λ b. b.is_pending) base) ∙ done));
    }

all_three : (p q t : Bool) → (not (p && q) || not t) ≡ false → (p ≡ true) × (t ≡ true)
all_three true true true f = (refl, refl)
all_three true true false f = absurd (cc f)
all_three true false t f = absurd (cc f)
all_three false q t f = absurd (cc f)

taken_call :
    (b : Base) (e : Event) (t : Bool)
    → (not (is_potential_add b e) || not t) ≡ false
    → (b.is_pending ≡ true) × (t ≡ true)
unfolding is_potential_add
taken_call b e t f = all_three b.is_pending (same_parser b.events e) t f

add_to_host_call-IsWhole :
    (env : TraceEnvironment) (s : HostCallSpan) (event : Option Event)
    → IsWhole env s
    → KeepsCall env (add_to_host_call env s event)
unfolding add_to_host_call
add_to_host_call-IsWhole env s none v = v
add_to_host_call-IsWhole env s (some e) v =
    if-KeepsCall env (not (is_potential_add s.base e) || not (is_type e EventType.host_call)) _ _
      (λ t. v)
      (λ f.
        let (pending, call) = taken_call s.base e _ f in
        if-KeepsCall env (is_sys_entry env e) _ _ (sys_entry_call-IsWhole env s e v call)
          (pushed_call-IsWhole env s e v pending call))

-- The span after events, one after the other.
abbrev pub go_on :
    Option (HostCallSpan × Bool) → (HostCallSpan → Option HostCallSpan) → Option HostCallSpan
go_on none k = none
go_on (some (s, taken)) k = k s

unfoldable pub feed_calls :
    TraceEnvironment → HostCallSpan → List (Option Event) → Option HostCallSpan
unfolding add_to_host_call
feed_calls env s [] = some s
feed_calls env s (e ∷ es) = go_on (add_to_host_call env s e) (λ s'. feed_calls env s' es)

next_call :
    (env : TraceEnvironment) (r : Option (HostCallSpan × Bool))
    (k : HostCallSpan → Option HostCallSpan)
    → KeepsCall env r
    → ((s : HostCallSpan)
        → IsWhole env s
        → (last : HostCallSpan) × (k s ≡ some last) × IsWhole env last)
    → (last : HostCallSpan) × (go_on r k ≡ some last) × IsWhole env last
next_call env none k v h = absurd v
next_call env (some (s, taken)) k v h = h s v

feed_calls-IsWhole :
    (env : TraceEnvironment) (events : List (Option Event)) (s : HostCallSpan)
    → IsWhole env s
    → (last : HostCallSpan) × (feed_calls env s events ≡ some last) × IsWhole env last
unfolding feed_calls
feed_calls-IsWhole env [] s v = (s, refl, v)
feed_calls-IsWhole env (e ∷ es) s v =
    next_call env (add_to_host_call env s e) _ (add_to_host_call-IsWhole env s e v)
      (λ s'. feed_calls-IsWhole env es s')

-- A new HostCallSpan that is not fragmented takes any events without reading the last of none. All its events
-- are calls, at most one of them begins a system call and is the entry of the span, and once it is complete the
-- last of them is its return.
pub host_call-IsWhole :
    (env : TraceEnvironment) (events : List (Option Event))
    → (s : HostCallSpan) × (feed_calls env (new_host_call false) events ≡ some s) × IsWhole env s
host_call-IsWhole env events =
    feed_calls-IsWhole env events (new_host_call false)
      (record { whole = refl; calls = tt; one_entry = refl; returned = λ done. absurd (cc done) })
