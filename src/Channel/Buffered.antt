-- ===== src/Channel/Buffered.antt =====
-- What NonCoroBufferedChannel and CoroBoundedChannel (include/sync/channel.h) have in common: the
-- fields, with those of the base class, and `perform_write` and `perform_read`, which both spell alike.
mod Ring
pub mod Storage
use columbo.Base.{
  ℕ, ◌-◌, ◌%◌, Bool, false, ◌&&◌, Option, none, some, List, replicate, get_or, set, ltb, add_size,
  if◌then◌else◌,
}

-- A slot of the vector that was never written, or that was moved from, holds `none`.
pub record Channel {ℓ} (A : Type ℓ) : Type ℓ where
  pub closed : Bool
  pub poisened : Bool
  pub size : ℕ
  pub capacity : ℕ
  pub buffer : List (Option A)
  pub read_index : ℕ
  pub write_index : ℕ

module _ {ℓ} {A : Type ℓ} where
  unfoldable pub init : ℕ → Channel A
  init capacity = record {
    closed = false;
    poisened = false;
    size = 0;
    capacity = capacity;
    buffer = replicate capacity none;
    read_index = 0;
    write_index = 0;
  }

  -- `none` is a failed assert.
  unfoldable pub perform_write : Channel A → A → Option (Channel A)
  perform_write c v =
      if ltb c.size c.capacity && ltb c.write_index c.capacity
      then some (record c {
        buffer = set c.buffer c.write_index (some v);
        write_index = add_size c.write_index 1 % c.capacity;
        size = add_size c.size 1;
      })
      else none

  -- Moving the value out of its slot; `none` where the slot holds none.
  abbrev pub move_out : Channel A → Option A → Option (A × Channel A)
  move_out c none = none
  move_out c (some v) = some (
    v,
    record c {
      buffer = set c.buffer c.read_index none;
      read_index = add_size c.read_index 1 % c.capacity;
      size = c.size - 1;
    },
  )

  -- `--size_` runs only at `0 < size_`.
  unfoldable pub perform_read : Channel A → Option (A × Channel A)
  perform_read c =
      if ltb 0 c.size && ltb c.read_index c.capacity
      then move_out c (get_or c.buffer c.read_index none)
      else none
