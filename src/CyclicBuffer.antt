-- ===== src/CyclicBuffer.antt =====
-- include/qs/cyclic_buffer.hpp: `cyclic_buffer`, as one thread uses it. The slots that
-- were not written hold what a new array holds. `none` is an access outside the array; the outer `some` of `pop` is
-- its end, and the inner option is `qs::optional`.
mod Tests
pub mod Fifo
use k23_search_engine.Prelude.{
  ℕ, suc, ◌+◌, ◌-◌, ◌%◌, List, Option, none, some, ◌>>=◌, if◌then◌else◌, ◌==◌, Bool, get_elem?,
  store, replicate,
}

pub record CyclicBuffer (T : Type 0) : Type 0 where
  pub size : ℕ
  pub capacity : ℕ
  pub buffer : List T
  pub read : ℕ
  pub write : ℕ

module _ {T : Type 0} where
  abbrev pub pos_increment : CyclicBuffer T → ℕ → ℕ
  pos_increment b pos = (pos + 1) % b.capacity

  -- The constructor, over what a slot of a new array holds.
  pub make : T → ℕ → CyclicBuffer T
  make initial size = record {
    size = 0;
    capacity = size + 1;
    buffer = replicate (size + 1) initial;
    read = 0;
    write = 0;
  }

  pub is_empty : CyclicBuffer T → Bool
  is_empty b = b.write == b.read

  pub is_full : CyclicBuffer T → Bool
  is_full b = pos_increment b b.write == b.read

  pub push : T → CyclicBuffer T → Option (CyclicBuffer T)
  push elem b = do
    buffer' ← store b.buffer b.write elem
    some (record b { buffer = buffer'; write = pos_increment b b.write; size = b.size + 1 })

  pub pop : CyclicBuffer T → Option (CyclicBuffer T × Option T)
  unfolding is_empty
  pop b =
      if is_empty b
      then some (b, none)
      else get_elem? b.buffer b.read >>= λ ret.
          some (record b { read = pos_increment b b.read; size = b.size - 1 }, some ret)
