-- ===== src/Distances/Scripts.antt =====
-- Edit scripts: ways to turn one word into another by inserting, deleting and replacing characters.
use mathlib.Core.List.{reverse-cons, reverse-reverse}
use native.Mathlib.Decide.{dec_le, ℕ_discrete}
use native.Mathlib.Nat.{le_antisymm}
use k23_search_engine.Prelude.{
  ℕ, suc, ◌+◌, ◌≤◌, min, ◌≡◌, List, [], ◌∷◌, ◌++◌, reverse, arith, length, subst,
}
use k23_search_engine.Distances.{mismatch}
use k23_search_engine.Distances.Levenshtein.{
  mismatch-le-one, lev, lev_comm, lev-cons_le, lev-cons_same,
}

-- `Edit xs ys n`: `xs` becomes `ys` by `n` insertions, deletions and replacements.
pub data Edit : List ℕ → List ℕ → ℕ → Type 0 where
  done : Edit [] [] 0
  keep : {xs ys : List ℕ} {n : ℕ} (x : ℕ) → Edit xs ys n → Edit (x ∷ xs) (x ∷ ys) n
  replace : {xs ys : List ℕ} {n : ℕ} (x y : ℕ) → Edit xs ys n → Edit (x ∷ xs) (y ∷ ys) (suc n)
  insert : {xs ys : List ℕ} {n : ℕ} (y : ℕ) → Edit xs ys n → Edit xs (y ∷ ys) (suc n)
  delete : {xs ys : List ℕ} {n : ℕ} (x : ℕ) → Edit xs ys n → Edit (x ∷ xs) ys (suc n)

replace-le : (x y : ℕ) (xs ys : List ℕ) → lev (x ∷ xs) (y ∷ ys) ≤ lev xs ys + 1
unfolding lev
replace-le x y xs ys = omega (arith, mismatch-le-one x y)

-- No script is shorter than `lev`.
pub lev-le_edit : {xs ys : List ℕ} {n : ℕ} → Edit xs ys n → lev xs ys ≤ n
unfolding lev
lev-le_edit done = omega arith
lev-le_edit (keep {xs} {ys} x e) = omega (arith, lev-cons_same x xs ys, lev-le_edit e)
lev-le_edit (replace {xs} {ys} x y e) = omega (arith, replace-le x y xs ys, lev-le_edit e)
lev-le_edit (insert {xs} {ys} y e) =
    omega (arith, lev_comm xs (y ∷ ys), lev-cons_le y ys xs, lev_comm xs ys, lev-le_edit e)
lev-le_edit (delete {xs} {ys} x e) = omega (arith, lev-cons_le x xs ys, lev-le_edit e)

inserts : (ys : List ℕ) → Edit [] ys (length ys)
inserts [] = done
inserts (y ∷ ys) = insert y (inserts ys)

deletes : (xs : List ℕ) → Edit xs [] (length xs)
deletes [] = done
deletes (x ∷ xs) = delete x (deletes xs)

Edit-min : {xs ys : List ℕ} (m n : ℕ) → Edit xs ys m → Edit xs ys n → Edit xs ys (min m n)
Edit-min {xs} {ys} m n d e = elim (dec_le m n) [
  | yes h ↦ subst (Edit xs ys) (omega arith) d
  | no h ↦ subst (Edit xs ys) (omega arith) e
]

-- The first character kept where it can be, and replaced elsewhere.
keep_or_replace :
    (x y : ℕ) {xs ys : List ℕ} {n : ℕ} → Edit xs ys n → Edit (x ∷ xs) (y ∷ ys) (n + mismatch x y)
keep_or_replace x y {xs} {ys} {n} e = elim (ℕ_discrete x y) [
  | yes same ↦
      subst (λ k. Edit (x ∷ xs) (y ∷ ys) k) (ground arith)
        (subst (λ z. Edit (x ∷ xs) (z ∷ ys) n) same (keep x e))
  | no other ↦ subst (λ k. Edit (x ∷ xs) (y ∷ ys) k) (ground arith) (replace x y e)
]

-- Some script has exactly `lev` steps.
pub lev_attained : (xs ys : List ℕ) → Edit xs ys (lev xs ys)
unfolding lev
lev_attained [] ys = inserts ys
lev_attained (x ∷ xs) [] = deletes (x ∷ xs)
lev_attained (x ∷ xs) (y ∷ ys) = Edit-min _ _ (keep_or_replace x y (lev_attained xs ys)) (
    subst (Edit (x ∷ xs) (y ∷ ys)) (omega arith)
      (Edit-min _ _ (insert y (lev_attained (x ∷ xs) ys)) (delete x (lev_attained xs (y ∷ ys)))))

-- The same five steps at the end of the words.
keep-last : (x : ℕ) {xs ys : List ℕ} {n : ℕ} → Edit xs ys n → Edit (xs ++ x ∷ []) (ys ++ x ∷ []) n
keep-last x done = keep x done
keep-last x (keep y e) = keep y (keep-last x e)
keep-last x (replace y z e) = replace y z (keep-last x e)
keep-last x (insert y e) = insert y (keep-last x e)
keep-last x (delete y e) = delete y (keep-last x e)

replace-last :
    (x y : ℕ) {xs ys : List ℕ} {n : ℕ} → Edit xs ys n → Edit (xs ++ x ∷ []) (ys ++ y ∷ []) (suc n)
replace-last x y done = replace x y done
replace-last x y (keep a e) = keep a (replace-last x y e)
replace-last x y (replace a b e) = replace a b (replace-last x y e)
replace-last x y (insert a e) = insert a (replace-last x y e)
replace-last x y (delete a e) = delete a (replace-last x y e)

insert-last : (y : ℕ) {xs ys : List ℕ} {n : ℕ} → Edit xs ys n → Edit xs (ys ++ y ∷ []) (suc n)
insert-last y done = insert y done
insert-last y (keep a e) = keep a (insert-last y e)
insert-last y (replace a b e) = replace a b (insert-last y e)
insert-last y (insert a e) = insert a (insert-last y e)
insert-last y (delete a e) = delete a (insert-last y e)

delete-last : (x : ℕ) {xs ys : List ℕ} {n : ℕ} → Edit xs ys n → Edit (xs ++ x ∷ []) ys (suc n)
delete-last x done = delete x done
delete-last x (keep a e) = keep a (delete-last x e)
delete-last x (replace a b e) = replace a b (delete-last x e)
delete-last x (insert a e) = insert a (delete-last x e)
delete-last x (delete a e) = delete a (delete-last x e)

Edit-reverse : {xs ys : List ℕ} {n : ℕ} → Edit xs ys n → Edit (reverse xs) (reverse ys) n
Edit-reverse done = done
Edit-reverse (keep {xs} {ys} x e) =
    rw (reverse-cons x xs, reverse-cons x ys) (keep-last x (Edit-reverse e))
Edit-reverse (replace {xs} {ys} x y e) =
    rw (reverse-cons x xs, reverse-cons y ys) (replace-last x y (Edit-reverse e))
Edit-reverse (insert {ys} y e) = rw (reverse-cons y ys) (insert-last y (Edit-reverse e))
Edit-reverse (delete {xs} x e) = rw (reverse-cons x xs) (delete-last x (Edit-reverse e))

lev-reverse_le : (xs ys : List ℕ) → lev (reverse xs) (reverse ys) ≤ lev xs ys
lev-reverse_le xs ys = lev-le_edit (Edit-reverse (lev_attained xs ys))

-- The distance does not depend on the direction in which the words are read.
pub lev-reverse : (xs ys : List ℕ) → lev (reverse xs) (reverse ys) ≡ lev xs ys
lev-reverse xs ys =
    le_antisymm (lev-reverse_le xs ys)
      (rw (reverse-reverse xs, reverse-reverse ys) at (lev-reverse_le (reverse xs) (reverse ys)))
