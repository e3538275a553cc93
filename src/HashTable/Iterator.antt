-- ===== src/HashTable/Iterator.antt =====
-- The iterator of include/qs/hash_table.hpp, as its position.
pub mod Visits
pub mod Assign
pub mod Lookup
use k23_search_engine.Prelude.{
  ℕ, zero, suc, ◌+◌, List, [], ◌∷◌, Option, none, some, ◌>>=◌, if◌then◌else◌, ltb, ◌==◌, get_elem?,
  set,
}
use k23_search_engine.HashTable.{Table}

module _ {K V : Type 0} where
  -- The `while` of `begin` and of `++`, from `pos` on.
  pub skip_free : (fuel : ℕ) → Table K V → ℕ → Option ℕ
  skip_free zero t pos = none
  skip_free (suc fuel) t pos =
      let onward = skip_free fuel t (pos + 1) in
      if pos == t.capacity
      then some pos
      else get_elem? t.slots pos >>= λ slot. elim slot [ none ↦ onward | some e ↦ some pos ]

  pub begin : Table K V → Option ℕ
  unfolding skip_free
  begin t = if ltb 0 t.size then skip_free (suc t.capacity) t 0 else some t.capacity

  pub next : Table K V → ℕ → Option ℕ
  unfolding skip_free
  next t pos = skip_free (suc t.capacity) t (pos + 1)

  -- `iter.key()` and `*iter`
  pub entry_at : Table K V → ℕ → Option (K × V)
  entry_at t pos = get_elem? t.slots pos >>= λ slot. slot

  -- `for (iter = begin(); iter != end(); ++iter)`: the entries that the loop meets.
  pub walk : (fuel : ℕ) → Table K V → ℕ → Option (List (K × V))
  walk zero t pos = none
  walk (suc fuel) t pos =
      let rest = next t pos >>= walk fuel t in
      if pos == t.capacity then some [] else entry_at t pos >>= λ e. rest >>= λ es. some (e ∷ es)

  unfoldable pub entries : Table K V → Option (List (K × V))
  unfolding begin next entry_at walk
  entries t = begin t >>= walk (suc t.capacity) t

  -- `*iter = value`
  unfoldable pub set_value : Table K V → ℕ → V → Option (Table K V)
  unfolding entry_at
  set_value t pos v =
      entry_at t pos >>= λ e. some (record t { slots = set t.slots pos (some (e.0, v)) })

-- The entries of the occupied slots, in the order of the slots.
unfoldable pub held : {A : Type 0} → List (Option A) → List A
held [] = []
held (none ∷ slots) = held slots
held (some e ∷ slots) = e ∷ held slots
