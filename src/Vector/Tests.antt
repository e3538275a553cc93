-- ===== src/Vector/Tests.antt =====
-- Runs of include/qs/vector.hpp.
use k23_search_engine.Prelude.{ℕ, ◌≡◌, refl, [], ◌∷◌, none, some, ◌>>=◌, arith}
use k23_search_engine.Vector.{Vector, new, push}
use k23_search_engine.Vector.Laws.{IsRoomy}

abbrev full : Vector ℕ
full = record { items = 5 ∷ 6 ∷ 7 ∷ []; capacity = 4 }

abbrev full-IsRoomy : IsRoomy full
full-IsRoomy = record { wide = omega arith; free = omega arith }

-- The fourth item makes the vector grow.
push_run : push full 8 ≡ some (record { items = 5 ∷ 6 ∷ 7 ∷ 8 ∷ []; capacity = 6 })
unfolding push
push_run = refl

-- A capacity of 1 does not grow, so the second item is written past the end.
push_of_one : (push {A = ℕ} (new 1) 5 >>= λ v. push v 6) ≡ none
unfolding push new
push_of_one = refl
