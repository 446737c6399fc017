-- ===== src/LineHandler/Rest.antt =====
-- What a LineHandler (include/reader/cReader.h) has still to read, as a list of bytes.
use columbo.Base.{
  ℕ, zero, suc, ◌+◌, ◌-◌, ◌^◌, ◌≤◌, ◌<◌, ◌≡◌, refl, sym, ◌∙◌, ap, ap₂, Bool, List, [], ◌∷◌, length,
  take, drop, get_or, leb, leb→le, arith, if◌then◌else◌, Bool-cases, inl, inr,
}
use columbo.LineHandler.{LineHandler, get_cur_string, cur_length, is_empty, count_while}

abbrev pub slice : List ℕ → ℕ → ℕ → List ℕ
slice memory i zero = []
slice memory i (suc n) = get_or memory i 0 ∷ slice memory (i + 1) n

-- The bytes from the cursor to the end of the line.
abbrev pub rest : LineHandler → List ℕ
rest h = slice h.memory h.pos (h.size - h.pos)

-- The cursor stands in the line, and the line in the memory.
pub record IsValid (h : LineHandler) : Type 0 where
  pub in_line : h.pos ≤ h.size
  pub in_memory : h.size ≤ length h.memory
  pub small : h.size < 2 ^ 64

-- The leading elements that pass a test, and what is behind them.
abbrev pub take_while : (ℕ → Bool) → List ℕ → List ℕ
take_while p [] = []
take_while p (c ∷ cs) = if p c then c ∷ take_while p cs else []

abbrev pub drop_while : (ℕ → Bool) → List ℕ → List ℕ
drop_while p [] = []
drop_while p (c ∷ cs) = if p c then drop_while p cs else c ∷ cs

pub slice_eq : (m : List ℕ) (i j n k : ℕ) → i ≡ j → n ≡ k → slice m i n ≡ slice m j k
slice_eq m i j n k e f = ap₂ (slice m) e f

pub length-slice : (m : List ℕ) (i n : ℕ) → length (slice m i n) ≡ n
length-slice m i zero = refl
length-slice m i (suc n) = ap suc (length-slice m (i + 1) n)

-- A slice behind the first byte of a memory.
slice_tail : (m : List ℕ) (x i n : ℕ) → slice (x ∷ m) (suc i) n ≡ slice m i n
slice_tail m x i zero = refl
slice_tail m x i (suc n) =
    let e : suc i + 1 ≡ suc (i + 1) = omega arith in
    ap (◌∷◌ (get_or m i 0)) (ap (λ j. slice (x ∷ m) j n) e ∙ slice_tail m x (i + 1) n)

slice-take : (m : List ℕ) (n : ℕ) → n ≤ length m → slice m 0 n ≡ take n m
slice-take m zero h = refl
slice-take [] (suc n) h = absurd (omega arith)
slice-take (x ∷ m) (suc n) h =
    let e : 0 + 1 ≡ suc 0 = omega arith in
    ap (◌∷◌ x) (ap (λ j. slice (x ∷ m) j n) e ∙ slice_tail m x 0 n ∙ slice-take m n (omega arith))

slice-drop-take :
    (m : List ℕ) (i n : ℕ) → i ≤ n → n ≤ length m → slice m i (n - i) ≡ drop i (take n m)
slice-drop-take m zero n h k = ap (slice m 0) (omega arith) ∙ slice-take m n k
slice-drop-take m (suc i) zero h k = absurd (omega arith)
slice-drop-take [] (suc i) (suc n) h k = absurd (omega arith)
slice-drop-take (x ∷ m) (suc i) (suc n) h k =
    slice_tail m x i (suc n - suc i)
    ∙ ap (slice m i) (omega arith)
    ∙ slice-drop-take m i n (omega arith) (omega arith)

-- `GetCurString` is what is left of the line.
pub get_cur_string_lem : (h : LineHandler) → IsValid h → get_cur_string h ≡ rest h
unfolding get_cur_string
get_cur_string_lem h v = elim (Bool-cases (leb h.size h.pos)) [
  | inl done ↦ rw done (let e : h.size - h.pos ≡ 0 = omega (arith, leb→le _ _ done) in rw e)
  | inr more ↦ rw more (sym (slice-drop-take h.memory h.pos h.size v.in_line v.in_memory))
]

pub is_empty_lem : (h : LineHandler) → IsValid h → is_empty h ≡ leb h.size h.pos
unfolding is_empty
is_empty_lem h v = ground arith

pub cur_length_lem : (h : LineHandler) → IsValid h → cur_length h ≡ h.size - h.pos
unfolding cur_length
cur_length_lem h v = omega arith

pub rest_done : (h : LineHandler) → h.size ≤ h.pos → rest h ≡ []
rest_done h d = slice_eq h.memory h.pos h.pos (h.size - h.pos) 0 refl (omega arith)

pub rest_more :
    (h : LineHandler)
    → h.pos < h.size
    → rest h ≡ get_or h.memory h.pos 0 ∷ slice h.memory (h.pos + 1) (h.size - (h.pos + 1))
rest_more h l =
    slice_eq h.memory h.pos h.pos (h.size - h.pos) (suc (h.size - (h.pos + 1))) refl (omega arith)

-- The loops count the leading bytes that pass the test, and leave the others.
pub drop_while-slice :
    (p : ℕ → Bool) (m : List ℕ) (n i : ℕ)
    → drop_while p (slice m i n) ≡ slice m (i + count_while p m i n) (n - count_while p m i n)
unfolding count_while
drop_while-slice p m zero i = refl
drop_while-slice p m (suc n) i = elim (Bool-cases (p (get_or m i 0))) [
  | inl t ↦ rw t (drop_while-slice p m n (i + 1) ∙ ap₂ (slice m) (omega arith) (omega arith))
  | inr f ↦ rw f (slice_eq m i (i + 0) (suc n) (suc n - 0) (omega arith) (omega arith))
]

pub take_while-slice :
    (p : ℕ → Bool) (m : List ℕ) (n i : ℕ)
    → take_while p (slice m i n) ≡ slice m i (count_while p m i n)
unfolding count_while
take_while-slice p m zero i = refl
take_while-slice p m (suc n) i = elim (Bool-cases (p (get_or m i 0))) [
  | inl t ↦ rw t (ap (◌∷◌ (get_or m i 0)) (take_while-slice p m n (i + 1)))
  | inr f ↦ rw f
]

pub count_while-le : (p : ℕ → Bool) (m : List ℕ) (n i : ℕ) → count_while p m i n ≤ n
unfolding count_while
count_while-le p m zero i = omega arith
count_while-le p m (suc n) i = ground (arith, count_while-le p m n (i + 1))
