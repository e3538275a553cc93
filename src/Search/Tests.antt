-- ===== src/Search/Tests.antt =====
-- Runs of include/qs/search.hpp.
use k23_search_engine.Prelude.{ℕ, zero, suc, ◌≡◌, refl, List, [], ◌∷◌, Option, some, arith}
use k23_search_engine.Search.{binary_search}
use k23_search_engine.Search.Sorted.{IsSorted, Answers, binary_search-Answers}

abbrev pair : List ℕ
pair = 3 ∷ 8 ∷ []

binary_search_run : binary_search pair 8 ≡ some (some 1)
unfolding binary_search
binary_search_run = refl

pair-IsSorted : IsSorted pair
pair-IsSorted zero zero a b le here there = ground (arith, here, there)
pair-IsSorted zero (suc zero) a b le here there = ground (arith, here, there)
pair-IsSorted (suc zero) (suc zero) a b le here there = ground (arith, here, there)
pair-IsSorted (suc i) zero a b le here there = absurd (omega arith)
pair-IsSorted (suc (suc i)) j a b le here there = absurd cc
pair-IsSorted zero (suc (suc j)) a b le here there = absurd cc
pair-IsSorted (suc zero) (suc (suc j)) a b le here there = absurd cc

binary_search-Answers_example : (r : Option ℕ) × (binary_search pair 5 ≡ some r) × Answers pair 5 r
binary_search-Answers_example = binary_search-Answers pair 5 pair-IsSorted (omega arith)
