-- ===== src/BkTree/Tests.antt =====
-- Runs of include/qs/bk_tree.hpp, over words of 3 bytes with a number as their payload.
use k23_search_engine.Prelude.{
  ℕ, ◌+◌, ◌≡◌, refl, List, [], ◌∷◌, Option, some, arith, Bool, bit, ◌&&◌, leb, length, count_if,
}
use k23_search_engine.Distances.{hamming_distance}
use k23_search_engine.Distances.Hamming.{mismatches}
use k23_search_engine.BkTree.{
  Tree, node, nil, cons, tree_elements, elements, empty, insert, insert_range, match, find,
}
use k23_search_engine.BkTree.Insert.{IsIndex, insert-IsIndex}
use k23_search_engine.BkTree.Match.{match-hits}
use k23_search_engine.BkTree.Find.{Finds, find-Finds}
use k23_search_engine.BkTree.Words.{hamming_distance-IsMetric, match-insert_range}

abbrev Item : Type 0
Item = ℕ × List ℕ

abbrev word_of : Item → List ℕ
word_of x = x.1

abbrev IsThree : List ℕ → Type 0
IsThree w = length w ≡ 3

abbrev bat : List ℕ
bat = 98 ∷ 97 ∷ 116 ∷ []

abbrev cat : List ℕ
cat = 99 ∷ 97 ∷ 116 ∷ []

abbrev dog : List ℕ
dog = 100 ∷ 111 ∷ 103 ∷ []

-- A root, `cat`, with the children `bat` and `dog`.
abbrev pets : Tree Item
pets = record {
  root = some (node (0, cat) 0 (cons (node (1, bat) 1 nil) (cons (node (2, dog) 3 nil) nil)));
  depth = 2;
}

pets-IsIndex : IsIndex word_of IsThree mismatches pets
unfolding mismatches elements
pets-IsIndex = (
  ((refl, tt), tt, (omega arith, tt), ((refl, tt), tt, tt, tt)),
  (refl, (refl, (refl, tt))),
  omega arith,
)

insert-IsIndex_example :
    (r : Tree Item) × (insert word_of hamming_distance (3, bat) pets ≡ some r)
    × IsIndex word_of IsThree mismatches r
    × ((f : Item → Bool)
        → count_if f (tree_elements r) ≡ count_if f (tree_elements pets) + bit (f (3, bat)))
insert-IsIndex_example =
    insert-IsIndex word_of (hamming_distance-IsMetric 3) (3, bat) refl pets pets-IsIndex

match-hits_example :
    (r : List Item) × (match word_of hamming_distance 1 cat pets ≡ some r)
    × ((f : Item → Bool)
        → count_if f r
          ≡ count_if (λ x. f x && leb (mismatches (word_of x) cat) 1) (tree_elements pets))
match-hits_example = match-hits word_of (hamming_distance-IsMetric 3) cat refl 1 pets pets-IsIndex

find-Finds_example :
    (r : Option Item) × (find word_of hamming_distance dog pets ≡ some r)
    × Finds word_of dog (tree_elements pets) r
find-Finds_example = find-Finds word_of (hamming_distance-IsMetric 3) dog refl pets pets-IsIndex

abbrev items : List Item
items = (0, cat) ∷ (1, bat) ∷ (2, dog) ∷ []

match-insert_range_example :
    (tree : Tree Item) × (insert_range word_of hamming_distance items empty ≡ some tree)
    × (r : List Item) × (match word_of hamming_distance 1 cat tree ≡ some r)
    × ((f : Item → Bool)
        → count_if f r ≡ count_if (λ x. f x && leb (mismatches (word_of x) cat) 1) items)
match-insert_range_example =
    match-insert_range word_of (hamming_distance-IsMetric 3) 1 cat items refl
      (refl, (refl, (refl, tt)))
