-- ===== src/LinkedList/Tests.antt =====
-- Runs of include/qs/list.hpp.
use k23_search_engine.Prelude.{
  ℕ, ◌≡◌, refl, List, [], ◌∷◌, ◌++◌, Option, none, some, ◌>>=◌, ◌==◌, arith, reverse,
}
use k23_search_engine.LinkedList.{
  LinkedList, append, append_after, prepend, remove, find, walk, walk_back, delete_all, node_at,
}
use k23_search_engine.LinkedList.Heap.{Cell}
use k23_search_engine.LinkedList.Chain.{values}
use k23_search_engine.LinkedList.Links.{IsList}
use k23_search_engine.LinkedList.Append.{append-IsList}
use k23_search_engine.LinkedList.Remove.{remove-IsList}
use k23_search_engine.LinkedList.Walk.{walk-values}

-- 7 and 8, with a node between them that was deleted.
abbrev two : LinkedList ℕ
two = record {
  nodes =
      some (record { value = 7; next_node = some 2; prev_node = none })
      ∷ none
      ∷ some (record { value = 8; next_node = none; prev_node = some 0 })
      ∷ [];
  head = some 0;
  tail = some 2;
  size = 2;
}

abbrev two_cells : List (Cell ℕ)
two_cells = (0, 7) ∷ (2, 8) ∷ []

two-IsList : IsList two two_cells
unfolding node_at
two-IsList = record {
  linked = (refl, (λ e. absurd (omega arith), tt), (refl, tt, tt));
  head = refl;
  tail = refl;
  size = refl;
  bounded = omega arith;
}

append-IsList_example :
    (l' : LinkedList ℕ) × (append 9 two ≡ some (l', 3)) × IsList l' (two_cells ++ (3, 9) ∷ [])
append-IsList_example = append-IsList 9 two two_cells two-IsList (omega arith)

remove-IsList_example : (l' : LinkedList ℕ) × (remove 0 two ≡ some l') × IsList l' ((2, 8) ∷ [])
remove-IsList_example = remove-IsList 0 7 two [] ((2, 8) ∷ []) two-IsList

walk-values_example :
    (walk 2 two.nodes two.head ≡ some (values two_cells))
    × (walk_back 2 two.nodes two.tail ≡ some (reverse (values two_cells)))
walk-values_example = walk-values two two_cells two-IsList

values_of : Option (LinkedList ℕ × ℕ) → Option (List ℕ)
unfolding walk
values_of r = r >>= λ s. walk s.0.size s.0.nodes s.0.head

append_after_run : values_of (append_after (λ a b. a == b) 1 0 two) ≡ some (7 ∷ 1 ∷ 8 ∷ [])
unfolding values_of append_after
append_after_run = refl

append_after_last_run : values_of (append_after (λ a b. a == b) 1 2 two) ≡ some (7 ∷ 8 ∷ 1 ∷ [])
unfolding values_of append_after
append_after_last_run = refl

prepend_run : values_of (prepend (λ a b. a == b) 1 0 two) ≡ some (1 ∷ 7 ∷ 8 ∷ [])
unfolding values_of prepend
prepend_run = refl

find_run : find (λ a b. a == b) 2 8 two.nodes two.head ≡ some (some 2)
unfolding find
find_run = refl

delete_all_run : delete_all 2 two.head two.nodes ≡ some (none ∷ none ∷ none ∷ [])
unfolding delete_all
delete_all_run = refl
