-- ===== src/Distances/Trim.antt =====
-- The two loops of src/lib/distances.cpp that drop the common prefix and the common suffix.
use mathlib.Core.List.{reverse-append}
use mathlib.Core.Path.{◌≡⟨◌⟩◌, ◌∎, sym}
use native.Mathlib.Numerals.{sub-one}
use k23_search_engine.Prelude.{
  ℕ, zero, suc, ◌≤◌, ◌<◌, ◌≡◌, refl, List, [], ◌∷◌, ◌++◌, reverse, some, arith, length, get_or,
  take, get_elem?-eq-get_or, ◌==◌, Bool-cases, inl, inr, ==_iff, subst, true, ap, ◌∙◌,
}
use k23_search_engine.Distances.{skip_prefix, skip_suffix}
use k23_search_engine.Distances.Levenshtein.{lev, lev-cons_same}
use k23_search_engine.Distances.Scripts.{lev-reverse}

-- What the prefix loop leaves of two words, with their lengths: words at the same distance.
pub record IsTrimmed (xs ys : List ℕ) (w : List ℕ × ℕ × List ℕ × ℕ) : Type 0 where
  pub max_length : w.1 ≡ length w.0
  pub min_length : w.3 ≡ length w.2
  pub ordered : length w.2 ≤ length w.0
  pub shorter : length w.0 ≤ length xs
  pub same : lev w.0 w.2 ≡ lev xs ys

pub skip_prefix-IsTrimmed :
    (xs ys : List ℕ)
    → length ys ≤ length xs
    → (w : List ℕ × ℕ × List ℕ × ℕ) × (skip_prefix xs (length xs) ys (length ys) ≡ some w)
      × IsTrimmed xs ys w
unfolding skip_prefix
skip_prefix-IsTrimmed xs [] h = (
  (xs, length xs, [], 0),
  refl,
  record { max_length = refl; min_length = refl; ordered = h; shorter = omega arith; same = refl },
)
skip_prefix-IsTrimmed [] (y ∷ ys) h = absurd (omega arith)
skip_prefix-IsTrimmed (x ∷ xs) (y ∷ ys) h = elim (Bool-cases (x == y)) [
  | inl e ↦
      let (w, run, t) = skip_prefix-IsTrimmed xs ys (omega arith) in
      (
        w,
        rw (e, sub-one) run,
        record {
          max_length = t.max_length;
          min_length = t.min_length;
          ordered = t.ordered;
          shorter = omega (arith, t.shorter);
          same =
              subst (λ z. lev w.0 w.2 ≡ lev (x ∷ xs) (z ∷ ys)) ((==_iff x y).0 e)
                (t.same ∙ sym (lev-cons_same x xs ys));
        },
      )
  | inr e ↦ (
    (x ∷ xs, suc (length xs), y ∷ ys, suc (length ys)),
    rw e,
    record {
      max_length = refl;
      min_length = refl;
      ordered = h;
      shorter = omega arith;
      same = refl;
    },
  )
]

pub take-suc :
    (k : ℕ) (xs : List ℕ) → k < length xs → take (suc k) xs ≡ take k xs ++ get_or xs k 0 ∷ []
take-suc k [] h = absurd (omega arith)
take-suc zero (x ∷ xs) h = refl
take-suc (suc k) (x ∷ xs) h = ap (λ t. x ∷ t) (take-suc k xs (omega arith))

lev-snoc_same : (x : ℕ) (xs ys : List ℕ) → lev (xs ++ x ∷ []) (ys ++ x ∷ []) ≡ lev xs ys
lev-snoc_same x xs ys =
    lev (xs ++ x ∷ []) (ys ++ x ∷ [])
    ≡⟨ sym (lev-reverse _ _) ⟩ lev (reverse (xs ++ x ∷ [])) (reverse (ys ++ x ∷ []))
    ≡⟨ rw (reverse-append xs, reverse-append ys) (lev-cons_same x _ _) ⟩
      lev (reverse xs) (reverse ys)
    ≡⟨ lev-reverse xs ys ⟩ lev xs ys ∎

cut_same :
    (xs ys : List ℕ) (m n : ℕ)
    → m < length xs
    → n < length ys
    → (get_or xs m 0 == get_or ys n 0) ≡ true
    → lev (take (suc m) xs) (take (suc n) ys) ≡ lev (take m xs) (take n ys)
cut_same xs ys m n hm hn e =
    rw (take-suc m xs hm, take-suc n ys hn, (==_iff _ _).0 e) (lev-snoc_same _ _ _)

-- What the suffix loop leaves: lengths of prefixes that are at the same distance.
pub record IsCut (xs ys : List ℕ) (m n : ℕ) (w : ℕ × ℕ) : Type 0 where
  pub ordered : w.1 ≤ w.0
  pub shorter : w.0 ≤ m
  pub min_shorter : w.1 ≤ n
  pub same : lev (take w.0 xs) (take w.1 ys) ≡ lev (take m xs) (take n ys)

pub skip_suffix-IsCut :
    (xs ys : List ℕ) (m n : ℕ)
    → m ≤ length xs
    → n ≤ length ys
    → n ≤ m
    → (w : ℕ × ℕ) × (skip_suffix xs ys m n ≡ some w) × IsCut xs ys m n w
unfolding skip_suffix
skip_suffix-IsCut xs ys m zero hm hn h = (
  (m, 0),
  refl,
  record { ordered = omega arith; shorter = omega arith; min_shorter = omega arith; same = refl },
)
skip_suffix-IsCut xs ys zero (suc n) hm hn h = absurd (omega arith)
skip_suffix-IsCut xs ys (suc m) (suc n) hm hn h =
    rw (sub-one, get_elem?-eq-get_or xs m 0 (omega arith), get_elem?-eq-get_or ys n 0 (omega arith))
      (elim (Bool-cases (get_or xs m 0 == get_or ys n 0)) [
        | inl e ↦
            let (w, run, c) =
              skip_suffix-IsCut xs ys m n (omega arith) (omega arith) (omega arith) in
            (
              w,
              rw e run,
              record {
                ordered = c.ordered;
                shorter = omega (arith, c.shorter);
                min_shorter = omega (arith, c.min_shorter);
                same = c.same ∙ sym (cut_same xs ys m n hm hn e);
              },
            )
        | inr e ↦ (
          (suc m, suc n),
          rw e,
          record { ordered = h; shorter = omega arith; min_shorter = omega arith; same = refl },
        )
      ])
