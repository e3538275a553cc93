-- ===== src/BkTree.antt =====
-- include/qs/bk_tree.hpp: the BK-tree, over a payload `T` with a word of type `W` (the method
-- `get_string_view`) and the distance function, whose `none` is a fault. The children of a node are
-- the sequence in which their skip list is iterated; `children_find` and `children_insert` are what
-- `find` and `insert` of include/qs/skip_list.hpp do to it under `sl_compare_func`.
mod Tests
pub mod Shape
pub mod Siblings
pub mod Order
pub mod Insert
pub mod Scan
pub mod Match
pub mod Find
pub mod Words
use k23_search_engine.Prelude.{
  ℕ, zero, suc, ◌+◌, ◌*◌, List, [], ◌∷◌, ◌++◌, Option, none, some, ◌>>=◌, if◌then◌else◌, ltb, leb,
  ◌==◌, length,
}
use k23_search_engine.Vector
use k23_search_engine.Vector.{Vector}

-- `bk_tree_node`: the payload, `distance_from_parent` and the children.
mutual
  pub data Node (T : Type 0) : Type 0 where
    node : T → ℕ → Children T → Node T

  pub data Children (T : Type 0) : Type 0 where
    nil : Children T
    cons : Node T → Children T → Children T

module _ {T : Type 0} where
  abbrev pub payload : Node T → T
  payload (node e k cs) = e

  abbrev pub distance_from_parent : Node T → ℕ
  distance_from_parent (node e k cs) = k

  abbrev pub children : Node T → Children T
  children (node e k cs) = cs

  -- The iterator is the node that it points to, or `none` for `end()`.
  pub children_find : ℕ → Children T → Option (Node T)
  children_find k nil = none
  children_find k (cons c cs) = if distance_from_parent c == k then some c else children_find k cs

  -- Before the first child that is further away, and nowhere if one is as far.
  pub children_insert : Node T → Children T → Children T
  children_insert new nil = cons new nil
  children_insert new (cons c cs) =
      if distance_from_parent c == distance_from_parent new
      then cons c cs
      else if ltb (distance_from_parent new) (distance_from_parent c)
      then cons new (cons c cs)
      else cons c (children_insert new cs)

  -- What a change through the pointer that `children_find k` returned does to the children.
  pub children_put : ℕ → Node T → Children T → Children T
  children_put k new nil = nil
  children_put k new (cons c cs) =
      if distance_from_parent c == k then cons new cs else cons c (children_put k new cs)

-- The payloads of a tree, a node's own first.
unfoldable mutual
  pub elements : {T : Type 0} → Node T → List T
  elements (node e k cs) = e ∷ elements_below cs

  pub elements_below : {T : Type 0} → Children T → List T
  elements_below nil = []
  elements_below (cons c cs) = elements c ++ elements_below cs

-- `depth` sizes the stack of `match` and `find`.
pub record Tree (T : Type 0) : Type 0 where
  pub root : Option (Node T)
  pub depth : ℕ

unfoldable pub tree_elements : {T : Type 0} → Tree T → List T
unfolding elements
tree_elements t = elim t.root [ none ↦ [] | some r ↦ elements r ]

-- `bk_tree(distance_function)`
pub empty : {T : Type 0} → Tree T
empty = record { root = none; depth = 0 }

module _ {T W : Type 0} (word : T → W) (dist : W → W → Option ℕ) where
  -- The loop of `insert` from `curr_node` on, with the changed node and the final `local_depth`.
  pub insert_loop : (fuel local_depth : ℕ) → T → Node T → Option (Node T × ℕ)
  insert_loop zero local_depth new curr = none
  insert_loop (suc fuel) local_depth new (node e k cs) = do
    distance ← dist (word e) (word new)
    elim (children_find distance cs) [
      | none ↦ some (node e k (children_insert (node new distance nil) cs), local_depth + 1)
      | some res ↦ do
        (res', deepest) ← insert_loop fuel (local_depth + 1) new res
        some (node e k (children_put distance res' cs), deepest)
    ]

  pub insert : T → Tree T → Option (Tree T)
  unfolding insert_loop
  insert new t = elim t.root [
    | none ↦ some (record { root = some (node new 0 nil); depth = t.depth + 1 })
    | some r ↦ do
      (r', local_depth) ← insert_loop (length (elements r)) 1 new r
      some (record {
        root = some r';
        depth = if ltb t.depth local_depth then local_depth else t.depth;
      })
  ]

module _ {T W : Type 0} (word : T → W) (dist : W → W → Option ℕ) where
  -- The loop of `bk_tree(begin, end, d)`, on the tree built so far.
  pub insert_range : List T → Tree T → Option (Tree T)
  insert_range [] t = some t
  insert_range (x ∷ xs) t = insert word dist x t >>= insert_range xs

-- The loop over the children, from the one at `child` on; it pushes those whose distance from the
-- parent is within `t` of `D`, and stops at the first that is further away. `pos` is
-- `curr_stack_pos`.
pub push_children :
    {T : Type 0} (t D : ℕ) → Children T → Vector (Node T) → ℕ → Option (Vector (Node T) × ℕ)
push_children t D nil stack pos = some (stack, pos)
push_children t D (cons c cs) stack pos =
    let skipped = push_children t D cs stack pos in
    let pushed = Vector.set_at stack pos c >>= λ stack'. push_children t D cs stack' (pos + 1) in
    if ltb (distance_from_parent c + t) D
    then skipped
    else if leb (distance_from_parent c) (D + t)
    then pushed
    else some (stack, pos)

module _ {T W : Type 0} (word : T → W) (dist : W → W → Option ℕ) where
  -- The `while` of `match`; the fuel bounds the rounds.
  pub match_loop : (fuel t : ℕ) → W → Vector (Node T) → ℕ → List T → Option (List T)
  match_loop fuel t query stack zero ret = some ret
  match_loop zero t query stack (suc pos) ret = none
  match_loop (suc fuel) t query stack (suc pos) ret = do
    curr ← Vector.at stack pos
    D ← dist (word (payload curr)) query
    (stack', pos') ← push_children t D (children curr) stack pos
    match_loop fuel t query stack' pos' (if leb D t then ret ++ payload curr ∷ [] else ret)

  -- `match(threshold, query)`, at a threshold that is not negative.
  pub match : ℕ → W → Tree T → Option (List T)
  unfolding match_loop push_children
  match t query tree = elim tree.root [
    | none ↦ some []
    | some r ↦ do
      stack ← Vector.set_at (Vector.new (tree.depth * 2)) 0 r
      match_loop (length (elements r)) t query stack 1 []
  ]

  -- The `while` of `find`, whose bounds are both `D`: those of a threshold of 0.
  pub find_loop : (fuel : ℕ) → W → Vector (Node T) → ℕ → Option (Option T)
  find_loop fuel what stack zero = some none
  find_loop zero what stack (suc pos) = none
  find_loop (suc fuel) what stack (suc pos) = do
    curr ← Vector.at stack pos
    D ← dist (word (payload curr)) what
    let rest = push_children 0 D (children curr) stack pos >>= λ s. find_loop fuel what s.0 s.1
    if D == 0 then some (some (payload curr)) else rest

  -- `find(what)`: the payload that the returned pointer points to, or `none` for `nullptr`.
  pub find : W → Tree T → Option (Option T)
  unfolding find_loop push_children
  find what tree = elim tree.root [
    | none ↦ some none
    | some r ↦ do
      stack ← Vector.set_at (Vector.new (tree.depth * 2)) 0 r
      find_loop (length (elements r)) what stack 1
  ]
