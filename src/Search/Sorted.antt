-- ===== src/Search/Sorted.antt =====
-- `binary_search` of include/qs/search.hpp on a sorted array.
use native.Mathlib.Decide.{dec_lt}
use k23_search_engine.Prelude.{
  ℕ, zero, suc, ◌+◌, ◌-◌, ◌/◌, ◌^◌, ◌≤◌, ◌<◌, ◌≡◌, ◌≢◌, refl, ap, ◌∙◌, List, Option, none, some,
  ◌>>=◌, arith, length, get_elem?, get_elem?_of_lt, lt_of_get_elem?, lt→ltb, not_lt→ltb,
}
use k23_search_engine.Search.{int_limit, search_loop, binary_search}

-- No element is less than one before it.
abbrev pub IsSorted : List ℕ → Type 0
IsSorted elems =
    (i j a b : ℕ) → i ≤ j → get_elem? elems i ≡ some a → get_elem? elems j ≡ some b → a ≤ b

-- A position holds the element, or none does.
abbrev pub Answers : List ℕ → ℕ → Option ℕ → Type 0
Answers elems x none = (i : ℕ) → get_elem? elems i ≢ some x
Answers elems x (some i) = get_elem? elems i ≡ some x

module _ (elems : List ℕ) (x : ℕ) (sorted : IsSorted elems) (small : length elems ≤ 2 ^ 30) where
  -- The element can only stand from `left` to before `stop`.
  record IsWithin (left stop : ℕ) : Type 0 where
    ordered : left ≤ stop
    inside : stop ≤ length elems
    below : (i a : ℕ) → i < left → get_elem? elems i ≡ some a → a < x
    above : (i a : ℕ) → stop ≤ i → get_elem? elems i ≡ some a → x < a

  absent : (left stop : ℕ) → stop ≤ left → IsWithin left stop → (i : ℕ) → get_elem? elems i ≢ some x
  absent left stop le w i here = elim (dec_lt i left) [
    | yes before ↦ absurd (omega (arith, w.below i x before here))
    | no after ↦ absurd (omega (arith, w.above i x (omega arith) here))
  ]

  search_loop_lem :
      (fuel left stop : ℕ)
      → stop < left + fuel
      → IsWithin left stop
      → (r : Option ℕ) × (search_loop fuel elems left stop x ≡ some r) × Answers elems x r
  unfolding search_loop
  search_loop_lem zero left stop enough w = absurd (omega (arith, w.ordered))
  search_loop_lem (suc fuel) left stop enough w = elim (dec_lt left stop) [
    | no done ↦
        (none, rw (not_lt→ltb left stop (omega arith)) refl, absent left stop (omega arith) w)
    | yes going ↦
        let middle = (left + stop - 1) / 2 in
        let fits = lt→ltb (left + stop - 1) int_limit (omega (arith, small, w.inside)) in
        let (m, read) = get_elem?_of_lt elems middle (omega (arith, w.inside)) in
        elim (dec_lt m x) [
          | yes less ↦
              let (r, run, answer) = search_loop_lem fuel (middle + 1) stop (omega arith) (record {
                ordered = omega arith;
                inside = w.inside;
                below = λ i a lt here. omega (arith, sorted i middle a m (omega arith) here read);
                above = w.above;
              }) in
              (r, rw (lt→ltb left stop going, fits, read, ◌>>=◌, lt→ltb m x less) run, answer)
          | no not_less ↦ elim (dec_lt x m) [
            | yes more ↦
                let (r, run, answer) = search_loop_lem fuel left middle (omega arith) (record {
                  ordered = omega arith;
                  inside = omega (arith, w.inside);
                  below = w.below;
                  above = λ i a le here. omega (arith, sorted middle i m a le read here);
                }) in
                (
                  r,
                  rw
                      (
                        lt→ltb left stop going,
                        fits,
                        read,
                        ◌>>=◌,
                        not_lt→ltb m x (omega arith),
                        lt→ltb x m more,
                      )
                      run,
                  answer,
                )
            | no equal ↦
                let same : m ≡ x = omega arith in
                (
                  some middle,
                  rw
                      (
                        lt→ltb left stop going,
                        fits,
                        read,
                        ◌>>=◌,
                        not_lt→ltb m x (omega arith),
                        not_lt→ltb x m (omega arith),
                      )
                      refl,
                  read ∙ ap some same,
                )
          ]
        ]
  ]

  -- On a sorted array of at most 2 ^ 30 elements, `binary_search` ends, reads inside the array and
  -- computes only numbers that an `int` holds; it returns a position of the element, or -1 if no
  -- position holds it.
  pub binary_search-Answers : (r : Option ℕ) × (binary_search elems x ≡ some r) × Answers elems x r
  unfolding binary_search
  binary_search-Answers =
      let (r, run, answer) =
        search_loop_lem (suc (length elems)) 0 (length elems) (omega arith) (record {
          ordered = omega arith;
          inside = omega arith;
          below = λ i a lt here. absurd (omega arith);
          above = λ i a le here. absurd (omega (arith, lt_of_get_elem? elems i a here));
        }) in
      (r, rw (lt→ltb (length elems) int_limit (omega (arith, small))) run, answer)
