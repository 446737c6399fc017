-- ===== src/Channel/Buffered/Storage.antt =====
-- The representation invariant of a bounded channel, and what `perform_write` and `perform_read` do
-- to the values that it holds.
use native.Mathlib.Nat.{mod-add-mod}
use columbo.Base.{
  ℕ, suc, ◌+◌, ◌-◌, ◌%◌, ◌^◌, ◌≤◌, ◌<◌, ◌≡◌, refl, ◌∙◌, ap, ap₂, sym, subst, Option, none, some,
  List, [], ◌∷◌, ◌++◌, length, get_or, get_or-set_self, set, length-set, length-replicate, add_size,
  arith,
}
use columbo.Channel.Queue.{Queue}
use columbo.Channel.Buffered.{Channel, init, perform_write, perform_read}
use columbo.Channel.Buffered.Ring.{
  window, values, IsFilled, IsFilled-snoc, length-window, length-values, values-snoc,
  window-set_end, window-set_first, window_of_pos, IsFilled-first, IsFilled-tail, IsFilled-cons,
}

module _ {ℓ} {A : Type ℓ} where
  -- The slots that hold the values, oldest first.
  abbrev pub slots : Channel A → List (Option A)
  slots c = window c.buffer c.capacity c.read_index c.size

  abbrev pub contents : Channel A → List A
  contents c = values (slots c)

  abbrev pub view : Channel A → Queue A
  view c = record { items = contents c; closed = c.closed; poisened = c.poisened }

pub record IsValid {ℓ} {A : Type ℓ} (c : Channel A) : Type ℓ where
  pub storage : c.capacity ≤ length c.buffer
  pub small : c.capacity < 2 ^ 64
  pub read_in : c.read_index < c.capacity
  pub size_in : c.size ≤ c.capacity
  pub write_at : c.write_index ≡ (c.read_index + c.size) % c.capacity
  pub filled : IsFilled (slots c)

module _ {ℓ} {A : Type ℓ} where
  pub length-contents : {c : Channel A} → IsValid c → length (contents c) ≡ c.size
  length-contents {c} v =
      length-values (slots c) v.filled ∙ length-window c.buffer c.capacity c.read_index c.size

  pub init-IsValid : (n : ℕ) → 0 < n → n < 2 ^ 64 → IsValid (init {A = A} n)
  unfolding init
  init-IsValid n h small = record {
    storage = omega (arith, length-replicate {A = Option A} n none);
    small = small;
    read_in = h;
    size_in = omega arith;
    write_at = omega arith;
    filled = refl;
  }

  pub contents-init : (n : ℕ) → contents (init {A = A} n) ≡ []
  unfolding init
  contents-init n = refl

  -- What a write leaves behind.
  pub record Wrote (c : Channel A) (x : A) (c' : Channel A) : Type ℓ where
    pub wrote : perform_write c x ≡ some c'
    pub valid : IsValid c'
    pub items : contents c' ≡ contents c ++ x ∷ []
    pub closed : c'.closed ≡ c.closed
    pub poisened : c'.poisened ≡ c.poisened
    pub capacity : c'.capacity ≡ c.capacity

  -- The channel after a write, where none of its additions wraps.
  abbrev grown : Channel A → A → Channel A
  grown c x = record c {
    buffer = set c.buffer c.write_index (some x);
    write_index = add_size c.write_index 1 % c.capacity;
    size = add_size c.size 1;
  }

  slots-grown :
      (c : Channel A) (x : A)
      → IsValid c
      → c.size < c.capacity
      → slots (grown c x) ≡ slots c ++ some x ∷ []
  slots-grown c x v room =
      let e : add_size c.size 1 ≡ suc c.size = omega arith in
      rw e (
        window-set_end c.buffer c.capacity c.size c.read_index c.write_index (some x) v.storage
          v.read_in room v.write_at)

  grown-write_at :
      (c : Channel A)
      → IsValid c
      → c.size < c.capacity
      → add_size c.write_index 1 % c.capacity ≡ (c.read_index + add_size c.size 1) % c.capacity
  grown-write_at c v room =
      let e : add_size c.size 1 ≡ c.size + 1 = omega arith in
      let w : add_size c.write_index 1 ≡ c.write_index + 1 = omega arith in
      rw (e, w, v.write_at, mod-add-mod) (ap (λ k. k % c.capacity) (omega arith))

  pub perform_write-Wrote :
      (c : Channel A) (x : A) → IsValid c → c.size < c.capacity → (c' : Channel A) × Wrote c x c'
  unfolding perform_write
  perform_write-Wrote c x v room = (
    grown c x,
    record {
      wrote = ground arith;
      valid = record {
        storage = omega (arith, length-set c.buffer c.write_index (some x));
        small = v.small;
        read_in = v.read_in;
        size_in = omega arith;
        write_at = grown-write_at c v room;
        filled = rw (slots-grown c x v room) (IsFilled-snoc (slots c) x v.filled);
      };
      items = ap values (slots-grown c x v room) ∙ values-snoc (slots c) x;
      closed = refl;
      poisened = refl;
      capacity = refl;
    },
  )

  -- What a read leaves behind.
  pub record Reads (c : Channel A) (x : A) (c' : Channel A) : Type ℓ where
    pub read : perform_read c ≡ some (x, c')
    pub valid : IsValid c'
    pub items : contents c ≡ x ∷ contents c'
    pub closed : c'.closed ≡ c.closed
    pub poisened : c'.poisened ≡ c.poisened
    pub capacity : c'.capacity ≡ c.capacity

  abbrev pub shrunk : Channel A → Channel A
  shrunk c = record c {
    buffer = set c.buffer c.read_index none;
    read_index = add_size c.read_index 1 % c.capacity;
    size = c.size - 1;
  }

  slots-shrunk :
      (c : Channel A)
      → IsValid c
      → 0 < c.size
      → slots c ≡ get_or c.buffer c.read_index none ∷ slots (shrunk c)
  slots-shrunk c v h =
      let e : add_size c.read_index 1 ≡ c.read_index + 1 = omega arith in
      rw
        (
          e,
          window-set_first c.buffer c.capacity (c.size - 1) c.read_index none v.read_in
              (omega arith),
        )
        (window_of_pos c.buffer c.capacity c.read_index c.size h)

  -- The first slot of a channel that is not empty holds a value.
  pub first_slot :
      (c : Channel A)
      → IsValid c
      → 0 < c.size
      → (x : A) × (get_or c.buffer c.read_index none ≡ some x)
  first_slot c v h =
      IsFilled-first (get_or c.buffer c.read_index none) (slots (shrunk c))
        (subst IsFilled (slots-shrunk c v h) v.filled)

  shrunk-write_at :
      (c : Channel A)
      → IsValid c
      → 0 < c.size
      → c.write_index ≡ (add_size c.read_index 1 % c.capacity + (c.size - 1)) % c.capacity
  shrunk-write_at c v h =
      let e : add_size c.read_index 1 ≡ c.read_index + 1 = omega arith in
      rw (e, v.write_at, mod-add-mod) (ap (λ k. k % c.capacity) (omega arith))

  pub perform_read-Reads :
      (c : Channel A) (x : A)
      → IsValid c
      → 0 < c.size
      → get_or c.buffer c.read_index none ≡ some x
      → Reads c x (shrunk c)
  unfolding perform_read
  perform_read-Reads c x v h e = record {
    read = ground arith;
    valid = record {
      storage = omega (arith, length-set c.buffer c.read_index none);
      small = v.small;
      read_in = omega arith;
      size_in = omega arith;
      write_at = shrunk-write_at c v h;
      filled = IsFilled-tail x (slots (shrunk c)) (subst IsFilled opened v.filled);
    };
    items = ap values opened;
    closed = refl;
    poisened = refl;
    capacity = refl;
  }
    where
      opened : slots c ≡ some x ∷ slots (shrunk c)
      opened = slots-shrunk c v h ∙ ap (λ o. o ∷ slots (shrunk c)) e

  -- The oldest value, changed in its slot.
  abbrev pub touched : Channel A → A → Channel A
  touched c y = record c { buffer = set c.buffer c.read_index (some y) }

  slots-touched :
      (c : Channel A) (y : A)
      → IsValid c
      → 0 < c.size
      → slots (touched c y) ≡ some y ∷ slots (shrunk c)
  slots-touched c y v h =
      let e : add_size c.read_index 1 ≡ c.read_index + 1 = omega arith in
      let first = window-set_first c.buffer c.capacity (c.size - 1) c.read_index in
      window_of_pos (set c.buffer c.read_index (some y)) c.capacity c.read_index c.size h
      ∙ ap₂ ◌∷◌ (get_or-set_self c.buffer c.read_index (some y) none (omega arith))
          (first (some y) v.read_in (omega arith) ∙ rw e (sym (first none v.read_in (omega arith))))

  pub contents-touched :
      (c : Channel A) (y : A)
      → IsValid c
      → 0 < c.size
      → contents (touched c y) ≡ y ∷ contents (shrunk c)
  contents-touched c y v h = ap values (slots-touched c y v h)

  pub touched-IsValid :
      (c : Channel A) (x y : A)
      → IsValid c
      → 0 < c.size
      → get_or c.buffer c.read_index none ≡ some x
      → IsValid (touched c y)
  touched-IsValid c x y v h e = record {
    storage = omega (arith, length-set c.buffer c.read_index (some y));
    small = v.small;
    read_in = v.read_in;
    size_in = v.size_in;
    write_at = v.write_at;
    filled =
        rw (slots-touched c y v h)
          (IsFilled-cons y (slots (shrunk c)) (perform_read-Reads c x v h e).valid.filled);
  }

  -- Reading the value after it was changed in its slot.
  pub touched-Reads :
      (c : Channel A) (x y : A)
      → IsValid c
      → 0 < c.size
      → get_or c.buffer c.read_index none ≡ some x
      → Reads (touched c y) y (shrunk (touched c y))
  touched-Reads c x y v h e =
      perform_read-Reads (touched c y) y (touched-IsValid c x y v h e) h
        (get_or-set_self c.buffer c.read_index (some y) none (omega arith))
