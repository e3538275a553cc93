-- ===== src/Prelude/Totals.antt =====
-- Sums over a list, and how they follow from counts.
use Prim.Native.Nat.{ℕ, zero, suc, ◌+◌, ◌≤◌, min}
use mathlib.Core.Path.{◌≡◌, refl, sym, ◌∙◌}
use mathlib.Core.Bool.{Bool, true, false}
use mathlib.Core.List.{List, [], ◌∷◌}
use native.Mathlib.Omega.{arith}
use k23_search_engine.Prelude.Tests.{bit, ltb}
use k23_search_engine.Prelude.Lists.{count_if}

module _ {A : Type 0} where
  unfoldable pub total : (A → ℕ) → List A → ℕ
  total w [] = 0
  total w (x ∷ xs) = w x + total w xs

  -- The sum of the weights cut off at a bound, layer by layer.
  layers : ℕ → (A → ℕ) → List A → ℕ
  layers zero w xs = 0
  layers (suc b) w xs = count_if (λ x. ltb b (w x)) xs + layers b w xs

  layers-cons :
      (b : ℕ) (w : A → ℕ) (x : A) (xs : List A) → layers b w (x ∷ xs) ≡ min b (w x) + layers b w xs
  unfolding layers
  layers-cons zero w x xs = omega arith
  layers-cons (suc b) w x xs =
      let rest = layers-cons b w x xs in
      layer b (w x) (count_if (λ y. ltb b (w y)) xs) (layers b w xs) (layers b w (x ∷ xs)) rest
    where
      layer : (b n c l k : ℕ) → k ≡ min b n + l → bit (ltb b n) + c + k ≡ min (suc b) n + (c + l)
      layer b n c l k h = ground arith

  layers_nil : (b : ℕ) (w : A → ℕ) → layers b w [] ≡ 0
  unfolding layers
  layers_nil zero w = refl
  layers_nil (suc b) w = omega (arith, layers_nil b w)

  layers-total : (b : ℕ) (w : A → ℕ) (xs : List A) → total w xs ≤ b → layers b w xs ≡ total w xs
  unfolding total
  layers-total b w [] h = layers_nil b w
  layers-total b w (x ∷ xs) h =
      omega (arith, layers-cons b w x xs, layers-total b w xs (omega (arith, h)))

  layers_grow :
      (b : ℕ) (w : A → ℕ) (x : A) (xs ys : List A)
      → ((f : A → Bool) → count_if f ys ≡ count_if f xs + bit (f x))
      → layers b w ys ≡ layers b w (x ∷ xs)
  unfolding layers
  layers_grow zero w x xs ys h = refl
  layers_grow (suc b) w x xs ys h = omega (arith, layers_grow b w x xs ys h, h (λ y. ltb b (w y)))

  -- One more item, as all tests count it, adds its weight.
  pub total_grow :
      (w : A → ℕ) (x : A) (xs ys : List A)
      → ((f : A → Bool) → count_if f ys ≡ count_if f xs + bit (f x))
      → total w ys ≡ w x + total w xs
  unfolding total
  total_grow w x xs ys h =
      let b = total w ys + (w x + total w xs) in
      sym (layers-total b w ys (omega arith))
      ∙ layers_grow b w x xs ys h
      ∙ layers-total b w (x ∷ xs) (omega arith)

  -- Weights that agree on the items that pass no test of exclusion.
  pub total_same :
      (v w : A → ℕ) (p : A → Bool) (xs : List A)
      → count_if p xs ≡ 0
      → ((x : A) → p x ≡ false → v x ≡ w x)
      → total v xs ≡ total w xs
  unfolding total
  total_same v w p [] h same = refl
  total_same v w p (x ∷ xs) h same =
      let here = same x (none_of (p x) (count_if p xs) h) in
      omega (arith, here, total_same v w p xs (omega (arith, h)) same)
    where
      none_of : (b : Bool) (n : ℕ) → bit b + n ≡ 0 → b ≡ false
      none_of b n h = ground arith

  -- Weights that are larger by one on the items of a test.
  pub total_more :
      (v w : A → ℕ) (p : A → Bool) (xs : List A)
      → ((x : A) → v x ≡ w x + bit (p x))
      → total v xs ≡ total w xs + count_if p xs
  unfolding total
  total_more v w p [] more = omega arith
  total_more v w p (x ∷ xs) more = omega (arith, more x, total_more v w p xs more)

  -- A test that implies another counts no more.
  pub count_if_le :
      (p r : A → Bool) (xs : List A)
      → ((x : A) → p x ≡ true → r x ≡ true)
      → count_if p xs ≤ count_if r xs
  count_if_le p r [] h = omega arith
  count_if_le p r (x ∷ xs) h = bits (p x) (r x) _ _ (h x) (count_if_le p r xs h)
    where
      bits : (a b : Bool) (m n : ℕ) → (a ≡ true → b ≡ true) → m ≤ n → bit a + m ≤ bit b + n
      bits true b m n h le = rw (h refl) (omega arith)
      bits false true m n h le = omega arith
      bits false false m n h le = omega arith
