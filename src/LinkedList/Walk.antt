-- ===== src/LinkedList/Walk.antt =====
-- The iterators of include/qs/list.hpp.
use k23_search_engine.Prelude.{
  ℕ, suc, ◌+◌, ◌≡◌, refl, List, [], ◌∷◌, ◌++◌, Option, none, some, ◌>>=◌, arith, length, reverse,
}
use mathlib.Core.List.{reverse-cons, append_assoc, append-nil}
use k23_search_engine.LinkedList.{ListNode, LinkedList, walk, walk_back}
use k23_search_engine.LinkedList.Heap.{Cell}
use k23_search_engine.LinkedList.Chain.{first_of, last_of, values, IsLinked}
use k23_search_engine.LinkedList.Links.{IsList}

module _ {V : Type 0} where
  -- The loop from `begin()` visits the values in order.
  pub walk_lem :
      (nodes : List (Option (ListNode V))) (before : Option ℕ) (cells : List (Cell V))
      → IsLinked nodes before cells none
      → walk (length cells) nodes (first_of cells none) ≡ some (values cells)
  unfolding walk
  walk_lem nodes before [] h = refl
  walk_lem nodes before (c ∷ cells) h =
      rw (h.0, ◌>>=◌, walk_lem nodes (some c.0) cells h.2, ◌>>=◌) refl

  visited :
      (nodes : List (Option (ListNode V))) (before : Option ℕ) (c : Cell V) (after : Option ℕ)
      (cells : List (Cell V)) (n : ℕ) (rest : List V)
      → IsLinked nodes before (c ∷ cells) after
      → walk_back n nodes before ≡ some rest
      → walk_back (suc n) nodes (some c.0) ≡ some (c.1 ∷ rest)
  unfolding walk_back
  visited nodes before c after cells n rest h run = rw (h.0, ◌>>=◌, run, ◌>>=◌) refl

  walk_back_more :
      (nodes : List (Option (ListNode V))) (before after : Option ℕ) (cells : List (Cell V)) (n : ℕ)
      (rest : List V)
      → IsLinked nodes before cells after
      → walk_back n nodes before ≡ some rest
      → walk_back (length cells + n) nodes (last_of cells before)
        ≡ some (reverse (values cells) ++ rest)
  walk_back_more nodes before after [] n rest h run =
      let fuel : 0 + n ≡ n = omega arith in rw fuel run
  walk_back_more nodes before after (c ∷ cells) n rest h run =
      let visit = visited nodes before c after cells n rest h run in
      let ih = walk_back_more nodes (some c.0) after cells (suc n) (c.1 ∷ rest) h.2 visit in
      let fuel : length cells + suc n ≡ suc (length cells) + n = omega arith in
      rw
        (
          reverse-cons c.1 (values cells),
          append_assoc (reverse (values cells)) (c.1 ∷ []) rest,
          ← fuel,
        )
        ih

  -- The loop from `rbegin()` visits the values in the opposite order.
  pub walk_back_lem :
      (nodes : List (Option (ListNode V))) (after : Option ℕ) (cells : List (Cell V))
      → IsLinked nodes none cells after
      → walk_back (length cells) nodes (last_of cells none) ≡ some (reverse (values cells))
  unfolding walk_back
  walk_back_lem nodes after cells h =
      let fuel : length cells + 0 ≡ length cells = omega arith in
      rw (← append-nil (reverse (values cells)), ← fuel)
        (walk_back_more nodes none after cells 0 [] h refl)

  -- On a list of cells, the loop from `begin()` visits the values of the cells in order, and the loop from
  -- `rbegin()` visits them in the opposite order; both end within `size` rounds, without a fault.
  pub walk-values :
      (l : LinkedList V) (cells : List (Cell V))
      → IsList l cells
      → (walk l.size l.nodes l.head ≡ some (values cells))
        × (walk_back l.size l.nodes l.tail ≡ some (reverse (values cells)))
  walk-values l cells valid =
      rw (valid.size, valid.head, valid.tail)
        (walk_lem l.nodes none cells valid.linked, walk_back_lem l.nodes none cells valid.linked)
