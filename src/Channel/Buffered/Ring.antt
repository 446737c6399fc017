-- ===== src/Channel/Buffered/Ring.antt =====
-- The storage of a bounded channel: slots with or without a value, read round the end.
use native.Mathlib.Nat.{mod-add-mod, mod-eq_of_lt, mod-eq-sub-mod, add-zero}
use native.Mathlib.Decide.{dec_le}
use columbo.Base.{
  ℕ, zero, suc, ◌+◌, ◌-◌, ◌%◌, ◌≤◌, ◌<◌, ◌≡◌, refl, sym, ◌∙◌, ap, ap₂, ◌≢◌, Option, none, some,
  List, [], ◌∷◌, ◌++◌, map, length, get_or, set, get_or-set_self, get_or-set_ne, arith,
}

module _ {ℓ} {A : Type ℓ} where
  -- The slots of a window of `n` slots from `h` on, going round at `cap`.
  abbrev pub window : List (Option A) → ℕ → ℕ → ℕ → List (Option A)
  window buf cap h zero = []
  window buf cap h (suc n) = get_or buf h none ∷ window buf cap ((h + 1) % cap) n

  -- The values in slots that hold one.
  abbrev pub values : List (Option A) → List A
  values [] = []
  values (none ∷ xs) = values xs
  values (some x ∷ xs) = x ∷ values xs

  -- Every slot holds a value.
  abbrev pub IsFilled : List (Option A) → Type ℓ
  IsFilled xs = xs ≡ map some (values xs)

  pub length-window : (buf : List (Option A)) (cap h n : ℕ) → length (window buf cap h n) ≡ n
  length-window buf cap h zero = refl
  length-window buf cap h (suc n) = ap suc (length-window buf cap ((h + 1) % cap) n)

  length-map-some : (xs : List A) → length (map some xs) ≡ length xs
  length-map-some [] = refl
  length-map-some (x ∷ xs) = ap suc (length-map-some xs)

  pub length-values : (xs : List (Option A)) → IsFilled xs → length (values xs) ≡ length xs
  length-values xs f = sym (ap length f ∙ length-map-some (values xs))

  pub values-snoc :
      (xs : List (Option A)) (x : A) → values (xs ++ some x ∷ []) ≡ values xs ++ x ∷ []
  values-snoc [] x = refl
  values-snoc (none ∷ xs) x = values-snoc xs x
  values-snoc (some y ∷ xs) x = ap (◌∷◌ y) (values-snoc xs x)

  map-some-snoc : (xs : List A) (x : A) → map some (xs ++ x ∷ []) ≡ map some xs ++ some x ∷ []
  map-some-snoc [] x = refl
  map-some-snoc (y ∷ xs) x = ap (◌∷◌ (some y)) (map-some-snoc xs x)

  pub IsFilled-snoc : (xs : List (Option A)) (x : A) → IsFilled xs → IsFilled (xs ++ some x ∷ [])
  IsFilled-snoc xs x f =
      rw (values-snoc xs x, map-some-snoc (values xs) x) (ap (λ t. t ++ some x ∷ []) f)

  map-some_first :
      (o : Option A) (xs : List (Option A)) (ys : List A)
      → o ∷ xs ≡ map some ys
      → (x : A) × (o ≡ some x)
  map-some_first o xs [] e = cc
  map-some_first o xs (y ∷ ys) e = (y, cc)

  pub IsFilled-first :
      (o : Option A) (xs : List (Option A)) → IsFilled (o ∷ xs) → (x : A) × (o ≡ some x)
  IsFilled-first o xs f = map-some_first o xs (values (o ∷ xs)) f

  pub IsFilled-tail : (x : A) (xs : List (Option A)) → IsFilled (some x ∷ xs) → IsFilled xs
  IsFilled-tail x xs f = cc

  pub IsFilled-cons : (x : A) (xs : List (Option A)) → IsFilled xs → IsFilled (some x ∷ xs)
  IsFilled-cons x xs f = ap (◌∷◌ (some x)) f

  -- `window` matches on `suc`, the code tests `0 < size_`.
  pub window_of_pos :
      (buf : List (Option A)) (cap h n : ℕ)
      → 0 < n
      → window buf cap h n ≡ get_or buf h none ∷ window buf cap ((h + 1) % cap) (n - 1)
  window_of_pos buf cap h zero p = absurd (omega arith)
  window_of_pos buf cap h (suc n) p = ap (λ k. window buf cap h (suc k)) (omega arith)

-- Some steps on round the ring, but not all the way, lead to another slot: either the end is not
-- reached, or one turn too much is taken off.
other_slot : (cap h k : ℕ) → h < cap → 0 < k → k < cap → (h + k) % cap ≢ h
other_slot n h k inside some_steps short = elim (dec_le n (h + k)) [
  | yes round ↦
      let once = mod-eq-sub-mod {n = h + k} {m = n} round in
      let rest = mod-eq_of_lt {n = h + k - n} {m = n} (omega arith) in omega (arith, once, rest)
  | no before ↦ omega (arith, mod-eq_of_lt {n = h + k} {m = n} (omega arith))
]

next_slot : (cap h m : ℕ) → (h + suc m) % cap ≡ ((h + 1) % cap + m) % cap
next_slot cap h m = rw mod-add-mod (ap (λ k. k % cap) (omega arith))

module _ {ℓ} {A : Type ℓ} where
  -- A write `m` slots after the start does not show in a window of at most `m` slots.
  pub window-set_outside :
      (buf : List (Option A)) (cap n m h i : ℕ) (v : Option A)
      → h < cap
      → n ≤ m
      → m < cap
      → i ≡ (h + m) % cap
      → window (set buf i v) cap h n ≡ window buf cap h n
  window-set_outside buf cap zero m h i v hh hn hm e = refl
  window-set_outside buf cap (suc n) zero h i v hh hn hm e = absurd (omega arith)
  window-set_outside buf cap (suc n) (suc m) h i v hh hn hm e =
      ap₂ ◌∷◌ (get_or-set_ne buf v none (rw e (other_slot cap h (suc m) hh (omega arith) hm))) (
        window-set_outside buf cap n m ((h + 1) % cap) i v (omega arith) (omega arith) (omega arith)
          (e ∙ next_slot cap h m))

  -- A window grows at its end by the slot behind it.
  window-grow :
      (buf : List (Option A)) (cap n h : ℕ)
      → h < cap
      → window buf cap h (suc n) ≡ window buf cap h n ++ get_or buf ((h + n) % cap) none ∷ []
  window-grow buf cap zero h hh = rw (add-zero, mod-eq_of_lt hh)
  window-grow buf cap (suc n) h hh = ap (◌∷◌ (get_or buf h none)) (
      window-grow buf cap n ((h + 1) % cap) (omega arith)
      ∙ ap (λ i. window buf cap ((h + 1) % cap) n ++ get_or buf i none ∷ [])
          (sym (next_slot cap h n)))

  -- Writing the slot behind a window, and taking it in, appends the value.
  pub window-set_end :
      (buf : List (Option A)) (cap n h i : ℕ) (x : Option A)
      → cap ≤ length buf
      → h < cap
      → n < cap
      → i ≡ (h + n) % cap
      → window (set buf i x) cap h (suc n) ≡ window buf cap h n ++ x ∷ []
  window-set_end buf cap n h i x hs hh hn e =
      window-grow (set buf i x) cap n h hh
      ∙ ap₂ (λ xs y. xs ++ y ∷ []) (window-set_outside buf cap n n h i x hh (omega arith) hn e)
          (rw (← e) (get_or-set_self buf i x none (omega arith)))

  -- Writing the first slot of a window changes no other slot of it.
  pub window-set_first :
      (buf : List (Option A)) (cap n h : ℕ) (x : Option A)
      → h < cap
      → n < cap
      → window (set buf h x) cap ((h + 1) % cap) n ≡ window buf cap ((h + 1) % cap) n
  window-set_first buf cap n h x hh hn =
      window-set_outside buf cap n (cap - 1) ((h + 1) % cap) h x (omega arith) (omega arith)
        (omega arith) (rw mod-add-mod round)
    where
      round : h ≡ (h + 1 + (cap - 1)) % cap
      round =
          let e : h + 1 + (cap - 1) ≡ h + cap = omega arith in
          let back : h + cap - cap ≡ h = omega arith in
          rw (e, mod-eq-sub-mod {n = h + cap} {m = cap} (omega arith), back) (sym (mod-eq_of_lt hh))
