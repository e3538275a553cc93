-- ===== src/Vector.antt =====
-- include/qs/vector.hpp: the growing array. The first `size` slots are the list `items`; the slots
-- above hold nothing that the class reads. `none` is a fault: the exception of `set` and `at`, the
-- division by a capacity of 0 in `maybe_resize`, or a write past the end of the buffer.
mod Tests
pub mod Laws
use k23_search_engine.Prelude.{
  ℕ, ◌+◌, ◌*◌, ◌/◌, List, [], ◌∷◌, ◌++◌, Option, none, some, ◌>>=◌, if◌then◌else◌, ltb, leb, ◌==◌,
  length, get_elem?, set,
}

pub record Vector {ℓ} (A : Type ℓ) : Type ℓ where
  pub items : List A
  pub capacity : ℕ

module _ {ℓ} {A : Type ℓ} where
  -- The constructors: `vector()` is `new 10`.
  pub new : ℕ → Vector A
  new capacity = record { items = []; capacity = capacity }

  -- `capacity * 1.5` is exact below 2 ^ 52.
  pub resize : Vector A → Vector A
  resize v = record v { capacity = v.capacity * 3 / 2 }

  pub maybe_resize : Vector A → Option (Vector A)
  unfolding resize
  maybe_resize v =
      if v.capacity == 0
      then none
      else if leb 75 ((length v.items + 1) / v.capacity * 100)
      then some (resize v)
      else some v

  -- The write to `data[size]`, and `size++`.
  pub append : Vector A → A → Option (Vector A)
  append v x =
      if ltb (length v.items) v.capacity
      then some (record v { items = v.items ++ x ∷ [] })
      else none

  pub push : Vector A → A → Option (Vector A)
  unfolding maybe_resize append
  push v x = do roomy ← maybe_resize v; append roomy x

  pub set_at : Vector A → ℕ → A → Option (Vector A)
  unfolding push
  set_at v index x =
      if leb v.capacity index
      then none
      else if ltb index (length v.items)
      then some (record v { items = set v.items index x })
      else push v x

  pub at : Vector A → ℕ → Option A
  at v index = if leb (length v.items) index then none else get_elem? v.items index
