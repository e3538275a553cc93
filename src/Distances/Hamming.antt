-- ===== src/Distances/Hamming.antt =====
-- `hamming_distance` of src/lib/distances.cpp, and the count of differing positions.
use native.Mathlib.Numerals.{add-one}
use k23_search_engine.Prelude.{
  ℕ, zero, suc, ◌+◌, ◌≤◌, ◌≡◌, refl, ap, ap₂, List, [], ◌∷◌, some, none, arith, length, drop, ◌>>=◌,
  get_or, get_elem?-eq-get_or, drop-eq-cons, drop_all, ==_iff, if◌then◌else◌, ◌==◌, none,
  Bool-cases, inl, inr,
}
use k23_search_engine.Distances.{mismatch, hamming_loop, hamming_result, hamming_distance}

-- The number of positions at which two words differ, where a missing character differs.
unfoldable pub mismatches : List ℕ → List ℕ → ℕ
mismatches [] ys = length ys
mismatches (x ∷ xs) [] = suc (length xs)
mismatches (x ∷ xs) (y ∷ ys) = mismatch x y + mismatches xs ys

pub mismatches_self : (xs : List ℕ) → mismatches xs xs ≡ 0
unfolding mismatches
mismatches_self [] = refl
mismatches_self (x ∷ xs) = ground (arith, mismatches_self xs)

pub mismatches_comm : (xs ys : List ℕ) → mismatches xs ys ≡ mismatches ys xs
unfolding mismatches
mismatches_comm [] [] = refl
mismatches_comm [] (y ∷ ys) = refl
mismatches_comm (x ∷ xs) [] = refl
mismatches_comm (x ∷ xs) (y ∷ ys) = ground (arith, mismatches_comm xs ys)

length-le-mismatches : (xs ys : List ℕ) → length xs ≤ mismatches xs ys + length ys
unfolding mismatches
length-le-mismatches [] ys = omega arith
length-le-mismatches (x ∷ xs) [] = omega arith
length-le-mismatches (x ∷ xs) (y ∷ ys) = omega (arith, length-le-mismatches xs ys)

mismatches-le-add_length : (xs ys : List ℕ) → mismatches xs ys ≤ length xs + length ys
unfolding mismatches
mismatches-le-add_length [] ys = omega arith
mismatches-le-add_length (x ∷ xs) [] = omega arith
mismatches-le-add_length (x ∷ xs) (y ∷ ys) = ground (arith, mismatches-le-add_length xs ys)

pub mismatches_triangle :
    (xs ys zs : List ℕ) → mismatches xs zs ≤ mismatches xs ys + mismatches ys zs
unfolding mismatches
mismatches_triangle [] ys zs = omega (arith, length-le-mismatches zs ys, mismatches_comm ys zs)
mismatches_triangle (x ∷ xs) [] zs = mismatches-le-add_length (x ∷ xs) zs
mismatches_triangle (x ∷ xs) (y ∷ ys) [] = omega (arith, length-le-mismatches xs ys)
mismatches_triangle (x ∷ xs) (y ∷ ys) (z ∷ zs) = ground (arith, mismatches_triangle xs ys zs)

pub eq_of_mismatches : (xs ys : List ℕ) → mismatches xs ys ≡ 0 → xs ≡ ys
unfolding mismatches
eq_of_mismatches [] [] h = refl
eq_of_mismatches [] (y ∷ ys) h = absurd (omega arith)
eq_of_mismatches (x ∷ xs) [] h = absurd (omega arith)
eq_of_mismatches (x ∷ xs) (y ∷ ys) h = ap₂ ◌∷◌ (ground arith) (eq_of_mismatches xs ys (omega arith))

hamming_loop_lem :
    (n i dist : ℕ) (c1 c2 : List ℕ)
    → i + n ≡ length c1
    → length c1 ≡ length c2
    → hamming_loop n i dist c1 c2 ≡ some (dist + mismatches (drop i c1) (drop i c2))
unfolding hamming_loop mismatches
hamming_loop_lem zero i dist c1 c2 e same =
    rw (drop_all i c1 (omega arith), drop_all i c2 (omega arith)) (ap some (omega arith))
hamming_loop_lem (suc n) i dist c1 c2 e same =
    rw
      (
        get_elem?-eq-get_or c1 i 0 (omega arith),
        get_elem?-eq-get_or c2 i 0 (omega arith),
        hamming_loop_lem n (i + 1) (dist + mismatch (get_or c1 i 0) (get_or c2 i 0)) c1 c2
            (omega arith) same,
      )
      (rw (drop-eq-cons i c1 0 (omega arith), drop-eq-cons i c2 0 (omega arith), add-one)
        (ap some (omega arith)))

-- `hamming_distance` never reads outside either word; it returns the number of differing positions of
-- two words of one length, and throws its exception on words of two lengths.
pub hamming_result-eq-mismatches :
    (s1 s2 : List ℕ)
    → hamming_result s1 s2 ≡ some (if length s1 == length s2 then some (mismatches s1 s2) else none)
unfolding hamming_result
hamming_result-eq-mismatches s1 s2 = elim (Bool-cases (length s1 == length s2)) [
  | inl e ↦
      rw (e, hamming_loop_lem (length s1) 0 0 s1 s2 (omega arith) ((==_iff _ _).0 e), ◌>>=◌)
        (ap (λ d. some (some d)) (omega arith))
  | inr e ↦ rw e refl
]

pub hamming_distance_same :
    (s1 s2 : List ℕ) → length s1 ≡ length s2 → hamming_distance s1 s2 ≡ some (mismatches s1 s2)
unfolding hamming_distance
hamming_distance_same s1 s2 e =
    rw (hamming_result-eq-mismatches s1 s2, (==_iff _ _).1 e, ◌>>=◌) refl
