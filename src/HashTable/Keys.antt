-- ===== src/HashTable/Keys.antt =====
-- The template parameters `Hash` and `KEq`: keys with a decided equality and any hash.
use k23_search_engine.Prelude.{ℕ, Bool, true, ◌≡◌, ◌↔◌}

pub record Key (K : Type 0) : Type 0 where
  pub hash : K → ℕ
  pub equal : K → K → Bool
  pub equal_iff : (a b : K) → (equal a b ≡ true) ↔ (a ≡ b)
