-- ===== src/HashSet/Tests.antt =====
-- Runs of include/qs/hash_set.hpp, with numbers as their own hashes.
use k23_search_engine.Prelude.{ℕ, ◌≡◌, List, [], ◌∷◌, some, true, ◌==◌, ==_iff}
use k23_search_engine.HashTable.Keys.{Key}
use k23_search_engine.HashSet.{HashSet, with_capacity, contains}
use k23_search_engine.HashSet.Members.{insert_keys, contains-insert_keys, is_among}

instance plain_Key : Key ℕ
plain_Key = record { hash = λ n. n; equal = λ a b. a == b; equal_iff = ==_iff }

-- 1 and 54 start at one slot.
abbrev keys : List ℕ
keys = 1 ∷ 54 ∷ 1 ∷ []

contains-insert_keys_example :
    (r : HashSet ℕ) × (insert_keys keys (with_capacity 10) ≡ some r) × (contains r 54 ≡ some true)
unfolding plain_Key is_among
contains-insert_keys_example = contains-insert_keys 10 keys 54
