-- ===== src/HashSet.antt =====
-- include/qs/hash_set.hpp: the hash set, a hash table whose values are the character 0. Its iterator
-- is that of the table.
mod Tests
pub mod Members
pub mod Listing
use k23_search_engine.Prelude.{ℕ, Option, some, ◌>>=◌, Bool, not, ◌==◌}
use k23_search_engine.HashTable
use k23_search_engine.HashTable.{Table}
use k23_search_engine.HashTable.Keys.{Key}

abbrev pub HashSet : Type 0 → Type 0
HashSet K = Table K ℕ

module _ {K : Type 0} where
  -- `hash_set(capacity)`
  unfoldable pub with_capacity : ℕ → HashSet K
  with_capacity capacity = HashTable.new capacity

  unfoldable pub get_size : HashSet K → ℕ
  get_size s = s.size

module _ {K : Type 0} ⦃key : Key K⦄ where
  unfoldable pub insert_key : HashSet K → K → Option (HashSet K × ℕ)
  insert_key s k = HashTable.insert s k 0

  pub remove_key : HashSet K → K → Option (HashSet K)
  remove_key s k = HashTable.remove s k

  -- `lookup(key) != end()`
  pub contains : HashSet K → K → Option Bool
  contains s k = HashTable.lookup s k >>= λ i. some (not (i == s.capacity))
