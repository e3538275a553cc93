-- ===== src/BkTree/Shape.antt =====
-- The shape of the trees of include/qs/bk_tree.hpp, and what it asks of the distance function.
use k23_search_engine.Prelude.{ℕ, ◌+◌, ◌≤◌, ◌<◌, ◌≡◌, Option, some, All}
use k23_search_engine.BkTree.{Node, Children, node, nil, cons, distance_from_parent, elements}

-- On the words of `Dom`, `dist` does not fault and is the metric `δ`.
pub record IsMetric {W : Type 0} (dist : W → W → Option ℕ) (Dom : W → Type 0) (δ : W → W → ℕ)
    : Type 0 where
  pub computes : (a b : W) → Dom a → Dom b → dist a b ≡ some (δ a b)
  pub self : (a : W) → δ a a ≡ 0
  pub eq_of_zero : (a b : W) → δ a b ≡ 0 → a ≡ b
  pub comm : (a b : W) → δ a b ≡ δ b a
  pub triangle : (a b c : W) → δ a c ≤ δ a b + δ b c

-- Every child is further away than `k`.
abbrev pub Above : {T : Type 0} → ℕ → Children T → Type 0
Above k nil = Unit
Above k (cons c cs) = (k < distance_from_parent c) × Above k cs

module _ {T W : Type 0} (word : T → W) (δ : W → W → ℕ) where
  -- Below a child at distance `k` everything is at distance `k` from the parent's payload, and the
  -- children stand in the order of their distances.
  abbrev mutual
    pub IsBk : Node T → Type 0
    IsBk (node e k cs) = AreBk e cs

    pub AreBk : T → Children T → Type 0
    AreBk e nil = Unit
    AreBk e (cons c cs) =
        All (λ x. δ (word e) (word x) ≡ distance_from_parent c) (elements c)
        × IsBk c
        × Above (distance_from_parent c) cs
        × AreBk e cs
