-- ===== src/Distances/Levenshtein.antt =====
-- The mathematical edit distance of two words, and the laws that make it a metric.
use k23_search_engine.Prelude.{ℕ, suc, ◌+◌, ◌≤◌, min, ◌≡◌, refl, List, [], ◌∷◌, arith, length}
use mathlib.Core.Path.{ap₂}
use k23_search_engine.Distances.{mismatch}

unfoldable pub lev : List ℕ → List ℕ → ℕ
lev [] ys = length ys
lev (x ∷ xs) [] = suc (length xs)
lev (x ∷ xs) (y ∷ ys) = min (lev xs ys + mismatch x y) (min (lev (x ∷ xs) ys) (lev xs (y ∷ ys)) + 1)

pub mismatch_self : (x : ℕ) → mismatch x x ≡ 0
mismatch_self x = ground arith

pub mismatch_comm : (x y : ℕ) → mismatch x y ≡ mismatch y x
mismatch_comm x y = ground arith

mismatch_triangle : (x y z : ℕ) → mismatch x z ≤ mismatch x y + mismatch y z
mismatch_triangle x y z = ground arith

pub mismatch-le-one : (x y : ℕ) → mismatch x y ≤ 1
mismatch-le-one x y = ground arith

pub lev-nil : (xs : List ℕ) → lev xs [] ≡ length xs
unfolding lev
lev-nil [] = refl
lev-nil (x ∷ xs) = refl

pub lev_comm : (xs ys : List ℕ) → lev xs ys ≡ lev ys xs
unfolding lev
lev_comm [] [] = refl
lev_comm [] (y ∷ ys) = refl
lev_comm (x ∷ xs) [] = refl
lev_comm (x ∷ xs) (y ∷ ys) =
    omega (arith, lev_comm xs ys, lev_comm (x ∷ xs) ys, lev_comm xs (y ∷ ys), mismatch_comm x y)

-- One more character on the left costs at most one more, and spares at most one.
pub lev-cons_le : (x : ℕ) (xs ys : List ℕ) → lev (x ∷ xs) ys ≤ lev xs ys + 1
unfolding lev
lev-cons_le x xs [] = omega (arith, lev-nil xs)
lev-cons_le x xs (y ∷ ys) = omega arith

pub lev_le_cons : (x : ℕ) (xs ys : List ℕ) → lev xs ys ≤ lev (x ∷ xs) ys + 1
unfolding lev
lev_le_cons x xs [] = omega (arith, lev-nil xs)
lev_le_cons x xs (y ∷ ys) =
    omega (arith, lev_comm xs (y ∷ ys), lev_comm xs ys, lev-cons_le y ys xs, lev_le_cons x xs ys)

-- A common first character can be dropped.
pub lev-cons_same : (x : ℕ) (xs ys : List ℕ) → lev (x ∷ xs) (x ∷ ys) ≡ lev xs ys
unfolding lev
lev-cons_same x xs ys = omega (
  arith,
  mismatch_self x,
  lev_le_cons x xs ys,
  lev_le_cons x ys xs,
  lev_comm xs ys,
  lev_comm xs (x ∷ ys),
)

pub lev_self : (xs : List ℕ) → lev xs xs ≡ 0
unfolding lev
lev_self [] = refl
lev_self (x ∷ xs) = omega (arith, lev_self xs, lev-cons_same x xs xs)

lev-length : (xs ys : List ℕ) → length xs ≤ lev xs ys + length ys
unfolding lev
lev-length [] ys = omega arith
lev-length (x ∷ xs) [] = omega arith
lev-length (x ∷ xs) (y ∷ ys) =
    omega (arith, lev-length xs ys, lev-length (x ∷ xs) ys, lev-length xs (y ∷ ys))

lev-le-add_length : (xs ys : List ℕ) → lev xs ys ≤ length xs + length ys
unfolding lev
lev-le-add_length [] ys = omega arith
lev-le-add_length (x ∷ xs) [] = omega arith
lev-le-add_length (x ∷ xs) (y ∷ ys) = omega (arith, lev-le-add_length xs (y ∷ ys))

pub lev_triangle : (xs ys zs : List ℕ) → lev xs zs ≤ lev xs ys + lev ys zs
unfolding lev
lev_triangle [] ys zs = omega (arith, lev-length zs ys, lev_comm ys zs)
lev_triangle (x ∷ xs) ys [] = omega (arith, lev-length (x ∷ xs) ys, lev-nil ys)
lev_triangle (x ∷ xs) [] (z ∷ zs) = omega (arith, lev-le-add_length (x ∷ xs) (z ∷ zs))
lev_triangle (x ∷ xs) (y ∷ ys) (z ∷ zs) = omega (
  arith,
  mismatch_triangle x y z,
  mismatch-le-one x z,
  lev_triangle xs (y ∷ ys) (z ∷ zs),
  lev_triangle (x ∷ xs) (y ∷ ys) zs,
  lev_triangle xs ys zs,
  lev_triangle xs ys (z ∷ zs),
  lev_triangle (x ∷ xs) ys zs,
  lev_triangle (x ∷ xs) ys (z ∷ zs),
)

eq_of_mismatch : (x y : ℕ) → mismatch x y ≡ 0 → x ≡ y
eq_of_mismatch x y h = ground arith

-- Only equal words are at distance 0.
pub eq_of_lev : (xs ys : List ℕ) → lev xs ys ≡ 0 → xs ≡ ys
unfolding lev
eq_of_lev [] [] h = refl
eq_of_lev [] (y ∷ ys) h = absurd (omega arith)
eq_of_lev (x ∷ xs) [] h = absurd (omega arith)
eq_of_lev (x ∷ xs) (y ∷ ys) h =
    ap₂ ◌∷◌ (eq_of_mismatch x y (omega arith)) (eq_of_lev xs ys (omega arith))
