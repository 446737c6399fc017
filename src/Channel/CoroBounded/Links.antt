-- ===== src/Channel/CoroBounded/Links.antt =====
-- What a task meets when it pushes to, or pops from, a CoroBoundedChannel that nobody poisens.
use columbo.Base.{
  ◌≡◌, ◌≢◌, refl, ◌∙◌, sym, ap, Bool, true, false, none, some, List, [], ◌∷◌, ◌++◌, length, arith,
  ltb, ltb→lt, ltb-false→le, Bool-cases, ◌⊎◌, inl, inr,
}
use columbo.Channel.Queue.{waits, returns, flag, value, unit, running}
use columbo.Channel.Buffered.{Channel, init}
use columbo.Channel.Buffered.Storage.{
  IsValid, init-IsValid, contents, length-contents, perform_write-Wrote, perform_read-Reads,
  first_slot, shrunk,
}
use columbo.Channel.CoroBounded.{push, pop, close_channel}

empty_of_length : {A : Type 0} (xs : List A) → length xs ≡ 0 → xs ≡ []
empty_of_length [] e = refl
empty_of_length (x ∷ xs) e = absurd (omega arith)

module _ {A : Type 0} where
  -- A channel that nobody poisens, with its closed flag and its contents.
  pub record IsLink (c : Channel A) (closed : Bool) (xs : List A) : Type 0 where
    pub valid : IsValid c
    pub shut : c.closed ≡ closed
    pub healthy : c.poisened ≡ false
    pub holds : contents c ≡ xs

  pub push_cases :
      (c : Channel A) (xs : List A) (x : A)
      → IsLink c false xs
      → ((push running c x ≡ waits) × (xs ≢ []))
        ⊎ ((c' : Channel A) × (push running c x
              ≡ returns (record { chan = c'; result = flag true; notified = true }))
            × IsLink c' false (xs ++ x ∷ []))
  unfolding push
  push_cases c xs x l = elim (Bool-cases (ltb c.size c.capacity)) [
    | inl room ↦
        let (c', w) = perform_write-Wrote c x l.valid (ltb→lt _ _ room) in
        inr (
          c',
          ground arith,
          record {
            valid = w.valid;
            shut = w.closed ∙ l.shut;
            healthy = w.poisened ∙ l.healthy;
            holds = w.items ∙ ap (λ t. t ++ x ∷ []) l.holds;
          },
        )
    | inr full ↦ inl (
      ground arith,
      λ e. omega (
        ltb-false→le,
        arith,
        l.valid.read_in,
        length-contents l.valid,
        ap length l.holds,
        ap length e,
        ltb-false→le _ _ full,
      ),
    )
  ]

  pub pop_cases :
      (c : Channel A) (closed : Bool) (xs : List A)
      → IsLink c closed xs
      → ((pop running c ≡ waits) × (xs ≡ []) × (closed ≡ false))
        ⊎ ((pop running c ≡ returns (record { chan = c; result = value none; notified = true }))
            × (xs ≡ [])
            × (closed ≡ true))
        ⊎ ((x : A) × (ys : List A) × (c' : Channel A) × (pop running c
              ≡ returns (record { chan = c'; result = value (some x); notified = true }))
            × (xs ≡ x ∷ ys)
            × IsLink c' closed ys)
  unfolding pop
  pop_cases c closed xs l = elim (Bool-cases (ltb 0 c.size)) [
    | inl some_left ↦
        let (x, e) = first_slot c l.valid (ltb→lt _ _ some_left) in
        let r = perform_read-Reads c x l.valid (ltb→lt _ _ some_left) e in
        inr (
          inr (
            x,
            contents (shrunk c),
            shrunk c,
            ground arith,
            sym l.holds ∙ r.items,
            record {
              valid = r.valid;
              shut = r.closed ∙ l.shut;
              healthy = r.poisened ∙ l.healthy;
              holds = refl;
            },
          ))
    | inr none_left ↦
        let gone : xs ≡ [] =
          empty_of_length xs (
            omega
              (arith, length-contents l.valid, ap length l.holds, ltb-false→le _ _ none_left)) in
        elim (Bool-cases c.closed) [
          | inl shut ↦ inr (inl (ground arith, gone, sym l.shut ∙ shut))
          | inr open_ ↦ inl (ground arith, gone, sym l.shut ∙ open_)
        ]
  ]

  pub close_lem :
      (c : Channel A) (w : Bool) (xs : List A)
      → IsLink c w xs
      → (d : Channel A) × (close_channel running c
          ≡ returns (record { chan = d; result = unit; notified = true }))
        × IsLink d true xs
  unfolding close_channel
  close_lem c w xs l = (
    record c { closed = true },
    refl,
    record {
      valid = record {
        storage = l.valid.storage;
        small = l.valid.small;
        read_in = l.valid.read_in;
        size_in = l.valid.size_in;
        write_at = l.valid.write_at;
        filled = l.valid.filled;
      };
      shut = refl;
      healthy = l.healthy;
      holds = l.holds;
    },
  )

  -- A fresh channel with the default capacity.
  pub init-IsLink : IsLink (init 1000) false (contents (init 1000))
  unfolding init
  init-IsLink = record {
    valid = init-IsValid 1000 (omega arith) (omega arith);
    shut = refl;
    healthy = refl;
    holds = refl;
  }
