-- ===== src/LineHandler/Cursor.antt =====
-- The cursor of a LineHandler (source/reader/cReader.cpp) under any sequence of the methods that read.
use mathlib.Core.Option
use columbo.Base.{
  ℕ, zero, suc, ◌+◌, ◌-◌, ◌≤◌, ◌≡◌, refl, sym, ◌∙◌, ap, Bool, true, false, not, Option, none, some,
  List, length, get_or, drop, leb, leb-false→lt, ltb, ltb→lt, ◌||◌, ◌&&◌, ◌==◌, arith,
  if◌then◌else◌, Bool-cases, inl, inr,
}
use columbo.Chars.{is_space, is_num, strtoul, ulong_max}
use columbo.LineHandler.{
  LineHandler, move_forward, trim_l, trim_till_whitespace, extract_loop, extract_and_substr_until,
  skip_till, consume_and_trim_string, consume_and_trim_char, parse_uint_trim, parse_int, is_empty,
  cur_length, count_while, matches_at, span_length, take_uint, take_int, number_class,
}
use columbo.LineHandler.Till.{consume_and_trim_till_string, till_loop, moved}
use columbo.LineHandler.TillBounds.{IsWithin, till_loop-IsWithin}
use columbo.LineHandler.Rest.{IsValid, is_empty_lem, cur_length_lem, count_while-le}

-- The methods that move the cursor. The others are made of these, and `Resets` has those that put it back.
pub data Method : Type 0 where
  trim_left : Method
  trim_word : Method
  move : ℕ → Method
  extract : (ℕ → Bool) → Method
  skip : (ℕ → Bool) → Method
  consume_text : List ℕ → Method
  consume_till : List ℕ → Method
  consume_char : ℕ → Method
  parse_uint : ℕ → Method
  parse_sint : Method

-- The handler that a method leaves, if it does not fault.
unfoldable pub after : Method → LineHandler → Option LineHandler
unfolding trim_l trim_till_whitespace move_forward extract_and_substr_until skip_till
    consume_and_trim_string consume_and_trim_till_string consume_and_trim_char parse_uint_trim
    parse_int
after trim_left h = some (trim_l h)
after trim_word h = some (trim_till_whitespace h)
after (move n) h = some (move_forward h n).0
after (extract p) h = some (extract_and_substr_until h p).0
after (skip p) h = some (skip_till h p).0
after (consume_text text) h = some (consume_and_trim_string h text).0
after (consume_till text) h = Option.map (λ r. r.0) (consume_and_trim_till_string h text)
after (consume_char c) h = some (consume_and_trim_char h c).0
after (parse_uint base) h = Option.map (λ r. r.0) (parse_uint_trim h base)
after parse_sint h = Option.map (λ r. r.0) (parse_int h)

abbrev pub with_handler :
    Option LineHandler → (LineHandler → Option LineHandler) → Option LineHandler
with_handler none k = none
with_handler (some h) k = k h

-- The line is the same, and the cursor has gone forward, not behind the end of the line.
pub record Advances (h h' : LineHandler) : Type 0 where
  pub same_memory : h'.memory ≡ h.memory
  pub same_size : h'.size ≡ h.size
  pub forward : h.pos ≤ h'.pos
  pub in_line : h'.pos ≤ h.size

pub stays : (h : LineHandler) → IsValid h → Advances h h
stays h v = record {
  same_memory = refl;
  same_size = refl;
  forward = omega arith;
  in_line = v.in_line;
}

pub moves :
    (h : LineHandler) (k : ℕ) → h.pos + k ≤ h.size → Advances h (record h { pos = h.pos + k })
moves h k l = record { same_memory = refl; same_size = refl; forward = omega arith; in_line = l }

pub then_advances : {a b c : LineHandler} → Advances a b → Advances b c → Advances a c
then_advances p q = record {
  same_memory = q.same_memory ∙ p.same_memory;
  same_size = q.same_size ∙ p.same_size;
  forward = omega (arith, p.forward, q.forward);
  in_line = omega (arith, p.same_size, q.in_line);
}

pub Advances-IsValid : {h h' : LineHandler} → IsValid h → Advances h h' → IsValid h'
Advances-IsValid v p = record {
  in_line = omega (arith, p.same_size, p.in_line);
  in_memory = omega (arith, p.same_size, v.in_memory, ap length p.same_memory);
  small = omega (arith, p.same_size, v.small);
}

-- A method that moves the cursor only where a test holds.
if_moves :
    (h : LineHandler) (k : ℕ) (b : Bool)
    → IsValid h
    → (b ≡ false → h.pos + k ≤ h.size)
    → Advances h (if b then h else record h { pos = h.pos + k })
if_moves h k true v l = stays h v
if_moves h k false v l = moves h k (l refl)

counted :
    (p : ℕ → Bool) (h : LineHandler)
    → IsValid h
    → h.pos + count_while p h.memory h.pos (h.size - h.pos) ≤ h.size
counted p h v = omega (arith, count_while-le p h.memory (h.size - h.pos) h.pos, v.in_line)

extract_loop-Advances :
    (fuel : ℕ) (h : LineHandler) (p : ℕ → Bool) → IsValid h → Advances h (extract_loop fuel h p).0
unfolding extract_loop
extract_loop-Advances zero h p v = stays h v
extract_loop-Advances (suc fuel) h p v = elim (Bool-cases (leb h.size h.pos)) [
  | inl done ↦ rw (is_empty_lem h v, done) (stays h v)
  | inr more ↦
      let one = moves h 1 (omega (arith, leb-false→lt _ _ more)) in
      rw (is_empty_lem h v, more)
        (elim (Bool-cases (p (get_or h.memory h.pos 0))) [
          | inl t ↦ rw t (
              then_advances one (
                extract_loop-Advances fuel (record h { pos = h.pos + 1 }) p
                  (Advances-IsValid v one)))
          | inr f ↦ rw f (stays h v)
        ])
]

-- A result that is no fault leaves a handler that has advanced.
abbrev pub WellMoved : LineHandler → Option LineHandler → Type 0
WellMoved h none = Unit {0}
WellMoved h (some h') = Advances h h'

take_uint-Advances :
    (h : LineHandler) (base : ℕ) (n : Option ℕ)
    → IsValid h
    → WellMoved h (Option.map (λ r. r.0) (take_uint h base n))
take_uint-Advances h base none v = tt
take_uint-Advances h base (some n) v = elim (Bool-cases (n == 0 || ltb h.size (h.pos + n))) [
  | inl t ↦ rw t (stays h v)
  | inr f ↦ rw f (elim (Bool-cases (strtoul base (drop h.pos h.memory) == ulong_max)) [
    | inl t ↦ rw t (stays h v)
    | inr e ↦ rw e (moves h n (ground (arith, f)))
  ])
]

take_int-Advances :
    (h : LineHandler) (n : Option ℕ)
    → IsValid h
    → WellMoved h (Option.map (λ r. r.0) (take_int h n))
take_int-Advances h none v = tt
take_int-Advances h (some n) v = elim (Bool-cases (n == 0 || ltb h.size (h.pos + n))) [
  | inl t ↦ rw t (stays h v)
  | inr f ↦ rw f (moves h n (ground (arith, f)))
]

moved-Advances :
    (h : LineHandler) (r : Option (Option ℕ))
    → IsValid h
    → IsWithin h.size h.pos r
    → WellMoved h (Option.map (λ z. z.0) (moved h r))
moved-Advances h none v w = tt
moved-Advances h (some none) v w = stays h v
moved-Advances h (some (some n)) v w = moves h n w

pub after-Advances : (m : Method) (h : LineHandler) → IsValid h → WellMoved h (after m h)
unfolding after trim_l trim_till_whitespace move_forward extract_and_substr_until skip_till
    consume_and_trim_string consume_and_trim_till_string consume_and_trim_char parse_uint_trim
    parse_int
after-Advances trim_left h v = if_moves h _ (is_empty h) v (λ e. counted is_space h v)
after-Advances trim_word h v =
    if_moves h _ (is_empty h) v (λ e. counted (λ c. not (is_space c)) h v)
after-Advances (move n) h v = elim (Bool-cases (is_empty h || ltb (cur_length h) n)) [
  | inl t ↦ rw t (stays h v)
  | inr f ↦ rw f (moves h n (ground (arith, f, cur_length_lem h v, v.in_line)))
]
after-Advances (extract p) h v = extract_loop-Advances (h.size - h.pos) h p v
after-Advances (skip p) h v = elim (Bool-cases (is_empty h)) [
  | inl t ↦ rw t (stays h v)
  | inr f ↦
      let k = count_while (λ c. not (p c)) h.memory h.pos (h.size - h.pos) in
      rw f (elim (Bool-cases (ltb (h.pos + k) h.size)) [
        | inl t ↦ rw t (moves h k (omega (arith, ltb→lt _ _ t)))
        | inr e ↦ rw e (stays h v)
      ])
]
after-Advances (consume_text text) h v =
    elim (Bool-cases (is_empty h || ltb (cur_length h) (length text))) [
      | inl t ↦ rw t (stays h v)
      | inr f ↦ rw f (elim (Bool-cases (matches_at h.memory h.size h.pos text)) [
        | inl t ↦ rw t (moves h (length text) (ground (arith, f, cur_length_lem h v, v.in_line)))
        | inr e ↦ rw e (stays h v)
      ])
    ]
after-Advances (consume_till text) h v =
    elim (Bool-cases (is_empty h || ltb (cur_length h) (length text))) [
      | inl t ↦ rw t (stays h v)
      | inr f ↦ rw f (
          moved-Advances h (till_loop (h.size - h.pos) h.memory h.size text h.pos 0) v (
            till_loop-IsWithin (h.size - h.pos) h.memory h.size text h.pos h.pos 0 (omega arith)
              v.in_line))
    ]
after-Advances (consume_char c) h v = elim (Bool-cases (is_empty h)) [
  | inl t ↦ rw t (stays h v)
  | inr f ↦ rw f (elim (Bool-cases (get_or h.memory h.pos 0 == c)) [
    | inl t ↦ rw t (moves h 1 (omega (arith, leb-false→lt _ _ (sym (is_empty_lem h v) ∙ f))))
    | inr e ↦ rw e (stays h v)
  ])
]
after-Advances (parse_uint base) h v =
    elim (Bool-cases (is_empty h || (not (base == 10) && not (base == 16)))) [
      | inl t ↦ rw t (stays h v)
      | inr f ↦
          rw f (take_uint-Advances h base (span_length (number_class base) (drop h.pos h.memory)) v)
    ]
after-Advances parse_sint h v = elim (Bool-cases (is_empty h)) [
  | inl t ↦ rw t (stays h v)
  | inr f ↦ rw f (take_int-Advances h (span_length is_num (drop h.pos h.memory)) v)
]
