-- ===== src/Vector/Laws.antt =====
-- `push`, `set` and `at` of include/qs/vector.hpp on vectors with a free slot.
use native.Mathlib.Decide.{dec_lt}
use native.Mathlib.Nat.{div-eq_of_lt, div_self}
use k23_search_engine.Prelude.{
  ℕ, zero, suc, ◌+◌, ◌*◌, ◌/◌, ◌≤◌, ◌<◌, ◌≡◌, refl, ap, List, [], ◌∷◌, ◌++◌, some, arith, length,
  set, take, take_all, length-append, length-set, get_elem?, ◌>>=◌,
}
use k23_search_engine.Vector.{Vector, new, maybe_resize, push, set_at, at}

pub record IsRoomy {ℓ} {A : Type ℓ} (v : Vector A) : Type 0 where
  pub wide : 2 ≤ v.capacity
  pub free : length v.items < v.capacity

module _ {ℓ} {A : Type ℓ} where
  pub new-IsRoomy : (capacity : ℕ) → 2 ≤ capacity → IsRoomy (new {A = A} capacity)
  unfolding new
  new-IsRoomy capacity h = omega arith

  pub items-new : (capacity : ℕ) → (new {A = A} capacity).items ≡ []
  unfolding new
  items-new capacity = refl

  maybe_resize_lem :
      (v : Vector A)
      → IsRoomy v
      → (r : Vector A) × (maybe_resize v ≡ some r)
        × (r.items ≡ v.items)
        × (2 ≤ r.capacity)
        × (length v.items + 1 < r.capacity)
  unfolding maybe_resize
  maybe_resize_lem v h = elim (dec_lt (length v.items + 1) v.capacity) [
    | yes lt ↦
        let e : (length v.items + 1) / v.capacity ≡ 0 = div-eq_of_lt lt in
        (v, rw e (ground arith), refl, h.wide, lt)
    | no ge ↦
        let full : length v.items + 1 ≡ v.capacity = omega arith in
        let e : (length v.items + 1) / v.capacity ≡ 1 = rw full (div_self (omega arith)) in
        (
          record v { capacity = v.capacity * 3 / 2 },
          rw e (ground arith),
          refl,
          omega arith,
          omega arith,
        )
  ]

  -- On a vector with a capacity of at least 2 and a free slot, `push` does not fault, appends the item
  -- and keeps a slot free.
  pub push_lem :
      (v : Vector A) (x : A)
      → IsRoomy v
      → (r : Vector A) × (push v x ≡ some r) × (r.items ≡ v.items ++ x ∷ []) × IsRoomy r
  unfolding push
  push_lem v x h =
      let (r, run, same, wide, free) = maybe_resize_lem v h in
      (
        record r { items = r.items ++ x ∷ [] },
        rw (run, ◌>>=◌) (ground arith),
        ap (λ t. t ++ x ∷ []) same,
        record {
          wide = wide;
          free = rw (length-append r.items (x ∷ [])) (omega (arith, ap length same));
        },
      )

  take-set :
      (xs : List A) (i : ℕ) (x : A)
      → i < length xs
      → take (suc i) (set xs i x) ≡ take i xs ++ x ∷ []
  take-set [] i x h = absurd (omega arith)
  take-set (y ∷ ys) zero x h = refl
  take-set (y ∷ ys) (suc i) x h = ap (λ t. y ∷ t) (take-set ys i x (omega arith))

  -- On a vector with a capacity of at least 2 and a free slot, a write at an index up to the size does
  -- not fault, leaves the items below it as they were, and keeps a slot free.
  pub set_at_lem :
      (v : Vector A) (i : ℕ) (x : A)
      → IsRoomy v
      → i ≤ length v.items
      → (r : Vector A) × (set_at v i x ≡ some r)
        × (take (suc i) r.items ≡ take i v.items ++ x ∷ [])
        × (i < length r.items)
        × (length v.items ≤ length r.items)
        × IsRoomy r
  unfolding set_at
  set_at_lem v i x h le = elim (dec_lt i (length v.items)) [
    | yes lt ↦ (
      record v { items = set v.items i x },
      ground arith,
      take-set v.items i x lt,
      rw length-set lt,
      rw length-set (omega arith),
      record { wide = h.wide; free = rw length-set h.free },
    )
    | no ge ↦
        let (r, run, same, roomy) = push_lem v x h in
        (
          r,
          ground (arith, run),
          rw (same, take_all i v.items (omega arith))
              (take_all (suc i) _ (rw (length-append v.items (x ∷ [])) (omega arith))),
          omega (arith, ap length same, length-append v.items (x ∷ [])),
          omega (arith, ap length same, length-append v.items (x ∷ [])),
          roomy,
        )
  ]

  elem-take :
      (xs : List A) (i : ℕ)
      → i < length xs
      → (x : A) × (get_elem? xs i ≡ some x) × (take (suc i) xs ≡ take i xs ++ x ∷ [])
  elem-take [] i h = absurd (omega arith)
  elem-take (y ∷ ys) zero h = (y, refl, refl)
  elem-take (y ∷ ys) (suc i) h =
      let (x, read, e) = elem-take ys i (omega arith) in (x, read, ap (λ t. y ∷ t) e)

  -- A read below the size does not fault.
  pub at_lem :
      (v : Vector A) (i : ℕ)
      → i < length v.items
      → (x : A) × (at v i ≡ some x) × (take (suc i) v.items ≡ take i v.items ++ x ∷ [])
  unfolding at
  at_lem v i h = let (x, read, e) = elem-take v.items i h in (x, ground (arith, read), e)
