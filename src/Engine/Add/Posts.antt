-- ===== src/Engine/Add/Posts.antt =====
-- What an index of src/core.cpp holds: the queries that are posted under the words.
use mathlib.Core.Option.{some-injective}
use k23_search_engine.Prelude.{
  ℕ, zero, suc, ◌≤◌, ◌<◌, ◌≡◌, ◌≢◌, refl, ap, subst, List, [], ◌∷◌, ◌++◌, some, arith, ◌==◌, leb,
  Bool, length, get_elem?, set, count_if, total,
}
use k23_search_engine.Vector.{Vector}
use k23_search_engine.Vector.Laws.{IsRoomy}
use k23_search_engine.BkTree.{tree_elements}
use k23_search_engine.BkTree.Insert.{IsIndex}
use k23_search_engine.Engine.{Entry, Index, empty_index}
use k23_search_engine.Engine.Add.{word_of}

-- The queries in a vector.
unfoldable pub items_of : List (Vector ℕ) → ℕ → List ℕ
items_of [] p = []
items_of (v ∷ vs) zero = v.items
items_of (v ∷ vs) (suc p) = items_of vs p

-- How many queries of an entry pass a test of a word and a query.
abbrev pub weight : (List ℕ → ℕ → Bool) → List (Vector ℕ) → Entry → ℕ
weight g payloads e = count_if (g e.word) (items_of payloads e.payload)

-- How often a test is passed by a word and a query that is posted under it.
unfoldable pub posts : (List ℕ → ℕ → Bool) → Index → ℕ
posts g ix = total (weight g ix.payloads) (tree_elements ix.tree)

-- The tree is a BK-tree, each entry has a vector of its own, and the vectors have room.
pub record IsPosted (Dom : List ℕ → Type 0) (δ : List ℕ → List ℕ → ℕ) (ix : Index) : Type 0 where
  pub index : IsIndex word_of Dom δ ix.tree
  pub inside : count_if (λ e. leb (length ix.payloads) e.payload) (tree_elements ix.tree) ≡ 0
  pub apart : (a : ℕ) → count_if (λ e. e.payload == a) (tree_elements ix.tree) ≤ 1
  pub roomy : (p : ℕ) (v : Vector ℕ) → get_elem? ix.payloads p ≡ some v → IsRoomy v

pub items_of-held :
    (payloads : List (Vector ℕ)) (p : ℕ) (v : Vector ℕ)
    → get_elem? payloads p ≡ some v
    → items_of payloads p ≡ v.items
unfolding items_of
items_of-held [] p v h = absurd cc
items_of-held (u ∷ payloads) zero v h = ap (λ x. x.items) (some-injective u v h)
items_of-held (u ∷ payloads) (suc p) v h = items_of-held payloads p v h

pub items_of-snoc :
    (payloads : List (Vector ℕ)) (v : Vector ℕ) (p : ℕ)
    → p < length payloads
    → items_of (payloads ++ v ∷ []) p ≡ items_of payloads p
unfolding items_of
items_of-snoc [] v p h = absurd (omega arith)
items_of-snoc (u ∷ payloads) v zero h = refl
items_of-snoc (u ∷ payloads) v (suc p) h = items_of-snoc payloads v p (omega arith)

pub items_of-last :
    (payloads : List (Vector ℕ)) (v : Vector ℕ)
    → items_of (payloads ++ v ∷ []) (length payloads) ≡ v.items
unfolding items_of
items_of-last [] v = refl
items_of-last (u ∷ payloads) v = items_of-last payloads v

pub get_elem?-snoc :
    (payloads : List (Vector ℕ)) (v w : Vector ℕ) (p : ℕ) (P : Vector ℕ → Type 0)
    → get_elem? (payloads ++ v ∷ []) p ≡ some w
    → ((u : Vector ℕ) → get_elem? payloads p ≡ some u → P u)
    → P v
    → P w
get_elem?-snoc [] v w zero P h old new = subst P (some-injective v w h) new
get_elem?-snoc [] v w (suc p) P h old new = absurd cc
get_elem?-snoc (u ∷ payloads) v w zero P h old new = old w h
get_elem?-snoc (u ∷ payloads) v w (suc p) P h old new = get_elem?-snoc payloads v w p P h old new

pub items_of-set_ne :
    (payloads : List (Vector ℕ)) (a p : ℕ) (v : Vector ℕ)
    → a ≢ p
    → items_of (set payloads a v) p ≡ items_of payloads p
unfolding items_of
items_of-set_ne [] a p v h = refl
items_of-set_ne (u ∷ payloads) zero zero v h = absurd (h refl)
items_of-set_ne (u ∷ payloads) zero (suc p) v h = refl
items_of-set_ne (u ∷ payloads) (suc a) zero v h = refl
items_of-set_ne (u ∷ payloads) (suc a) (suc p) v h =
    items_of-set_ne payloads a p v (λ e. h (ap suc e))

pub empty_index-IsPosted :
    (Dom : List ℕ → Type 0) (δ : List ℕ → List ℕ → ℕ) → IsPosted Dom δ empty_index
unfolding tree_elements
empty_index-IsPosted Dom δ = record {
  index = tt;
  inside = refl;
  apart = λ a. omega arith;
  roomy = λ p v h. absurd cc;
}
