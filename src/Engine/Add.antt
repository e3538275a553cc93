-- ===== src/Engine/Add.antt =====
-- `add_to_tree` and `add_to_hash_table` of src/core.cpp: a query is added to a word's vector.
pub mod Posts
pub mod Grow
pub mod Step
use k23_search_engine.Prelude.{
  ℕ, List, [], ◌∷◌, ◌++◌, Option, none, some, ◌>>=◌, ◌==◌, true, false, length, get_elem?, set,
}
use k23_search_engine.Vector
use k23_search_engine.Vector.{Vector}
use k23_search_engine.HashTable
use k23_search_engine.HashTable.{Table}
use k23_search_engine.HashTable.Iterator
use k23_search_engine.BkTree
use k23_search_engine.Engine.{Entry, Index}
use k23_search_engine.Engine.Keys.{word_key}

-- `entry::get_string_view`
abbrev pub word_of : Entry → List ℕ
word_of en = en.word

-- A new entry with the query, in a new vector.
unfoldable pub add_entry : (List ℕ → List ℕ → Option ℕ) → ℕ → List ℕ → Index → Option Index
add_entry dist q str ix = do
  qv ← Vector.push (Vector.new 10) q
  tree ← BkTree.insert word_of dist (record { word = str; payload = length ix.payloads }) ix.tree
  some (record { tree = tree; payloads = ix.payloads ++ qv ∷ [] })

-- `found->payload.push(q)`
unfoldable pub add_payload : ℕ → Entry → Index → Option Index
add_payload q found ix = do
  qv ← get_elem? ix.payloads found.payload
  qv' ← Vector.push qv q
  some (record ix { payloads = set ix.payloads found.payload qv' })

unfoldable pub add_to_tree : (List ℕ → List ℕ → Option ℕ) → ℕ → List ℕ → Index → Option Index
unfolding add_entry add_payload
add_to_tree dist q str ix = do
  found ← BkTree.find word_of dist str ix.tree
  elim found [ none ↦ add_entry dist q str ix | some en ↦ add_payload q en ix ]

unfoldable pub add_to_hash_table :
    ℕ → List ℕ → Table (List ℕ) (Vector ℕ) → Option (Table (List ℕ) (Vector ℕ))
add_to_hash_table q str e = do
  f ← HashTable.lookup e str
  elim (f == e.capacity) [
    | true ↦ do qv ← Vector.push (Vector.new 10) q; (e', at) ← HashTable.insert e str qv; some e'
    | false ↦ do
      (key, qv) ← Iterator.entry_at e f
      qv' ← Vector.push qv q
      Iterator.set_value e f qv'
  ]
