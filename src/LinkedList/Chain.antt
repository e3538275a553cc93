-- ===== src/LinkedList/Chain.antt =====
-- The chain of nodes from `head` to `tail` of include/qs/list.hpp, and its parts.
use k23_search_engine.Prelude.{
  ℕ, ◌≡◌, ◌≢◌, refl, sym, List, [], ◌∷◌, ◌++◌, Option, some, arith, length, map, All, All-append,
  All-append_left, All-append_right,
}
use k23_search_engine.LinkedList.{ListNode, node_at}
use k23_search_engine.LinkedList.Heap.{Cell, Apart, Keeps, lt_of_node_at}

module _ {V : Type 0} where
  -- The address of the first cell, or what comes after the cells.
  abbrev pub first_of : List (Cell V) → Option ℕ → Option ℕ
  first_of [] after = after
  first_of (c ∷ cells) after = some c.0

  abbrev pub last_of : List (Cell V) → Option ℕ → Option ℕ
  last_of [] before = before
  last_of (c ∷ cells) before = last_of cells (some c.0)

  abbrev pub values : List (Cell V) → List V
  values cells = map (λ c. c.1) cells

  -- The nodes of the cells are linked, each to the next and to the previous.
  abbrev pub IsLinked : List (Option (ListNode V)) → Option ℕ → List (Cell V) → Option ℕ → Type 0
  IsLinked nodes before [] after = Unit
  IsLinked nodes before (c ∷ cells) after =
      (node_at nodes c.0
        ≡ some (record { value = c.1; next_node = first_of cells after; prev_node = before }))
      × Apart c.0 cells
      × IsLinked nodes (some c.0) cells after

  -- The addresses of the one are none of the other's.
  abbrev pub Disjoint : List (Cell V) → List (Cell V) → Type 0
  Disjoint xs ys = All (λ c. Apart c.0 ys) xs

  pub Disjoint_sym : (xs ys : List (Cell V)) → Disjoint xs ys → Disjoint ys xs
  Disjoint_sym [] ys h = All_true ys
    where
      All_true : (ys : List (Cell V)) → Disjoint ys []
      All_true [] = tt
      All_true (y ∷ ys) = (tt, All_true ys)
  Disjoint_sym (x ∷ xs) ys h = zip ys h.0 (Disjoint_sym xs ys h.1)
    where
      zip : (ys : List (Cell V)) → Apart x.0 ys → Disjoint ys xs → Disjoint ys (x ∷ xs)
      zip [] p q = tt
      zip (y ∷ ys) p q = ((λ e. p.0 (sym e), q.0), zip ys p.1 q.1)

  -- Linked cells stay linked when their nodes stay as they are.
  pub IsLinked-Keeps :
      (nodes nodes' : List (Option (ListNode V))) (before after : Option ℕ)
      (cells others : List (Cell V))
      → Keeps nodes nodes' others
      → Disjoint cells others
      → IsLinked nodes before cells after
      → IsLinked nodes' before cells after
  IsLinked-Keeps nodes nodes' before after [] others keeps apart h = tt
  IsLinked-Keeps nodes nodes' before after (c ∷ cells) others keeps apart h = (
    keeps c.0 _ apart.0 h.0,
    h.1,
    IsLinked-Keeps nodes nodes' (some c.0) after cells others keeps apart.1 h.2,
  )

  pub first_of-append :
      (xs ys : List (Cell V)) (after : Option ℕ)
      → first_of (xs ++ ys) after ≡ first_of xs (first_of ys after)
  first_of-append [] ys after = refl
  first_of-append (x ∷ xs) ys after = refl

  pub last_of-append :
      (xs ys : List (Cell V)) (before : Option ℕ)
      → last_of (xs ++ ys) before ≡ last_of ys (last_of xs before)
  last_of-append [] ys before = refl
  last_of-append (x ∷ xs) ys before = last_of-append xs ys (some x.0)

  -- Two parts make a chain.
  pub joined :
      (nodes : List (Option (ListNode V))) (before after : Option ℕ) (xs ys : List (Cell V))
      → IsLinked nodes before xs (first_of ys after)
      → IsLinked nodes (last_of xs before) ys after
      → Disjoint xs ys
      → IsLinked nodes before (xs ++ ys) after
  joined nodes before after [] ys l r apart = r
  joined nodes before after (x ∷ xs) ys l r apart = (
    rw (first_of-append xs ys after) l.0,
    All-append (λ c. x.0 ≢ c.0) xs ys l.1 apart.0,
    joined nodes (some x.0) after xs ys l.2 r apart.1,
  )

  -- The parts of a chain.
  pub record AreParts (nodes : List (Option (ListNode V))) (before after : Option ℕ)
      (xs ys : List (Cell V)) : Type 0 where
    pub left : IsLinked nodes before xs (first_of ys after)
    pub right : IsLinked nodes (last_of xs before) ys after
    pub apart : Disjoint xs ys

  pub parted :
      (nodes : List (Option (ListNode V))) (before after : Option ℕ) (xs ys : List (Cell V))
      → IsLinked nodes before (xs ++ ys) after
      → AreParts nodes before after xs ys
  parted nodes before after [] ys h = record { left = tt; right = h; apart = tt }
  parted nodes before after (x ∷ xs) ys h =
      let rest = parted nodes (some x.0) after xs ys h.2 in
      record {
        left = (
          rw (← first_of-append xs ys after) h.0,
          All-append_left (λ c. x.0 ≢ c.0) xs ys h.1,
          rest.left,
        );
        right = rest.right;
        apart = (All-append_right (λ c. x.0 ≢ c.0) xs ys h.1, rest.apart);
      }

  -- An address past the heap is none of a chain's.
  pub fresh :
      (nodes : List (Option (ListNode V))) (before after : Option ℕ) (cells : List (Cell V))
      → IsLinked nodes before cells after
      → Apart (length nodes) cells
  fresh nodes before after [] h = tt
  fresh nodes before after (c ∷ cells) h =
      let lt = lt_of_node_at nodes c.0 _ h.0 in
      (λ e. absurd (omega arith), fresh nodes (some c.0) after cells h.2)
