-- ===== src/LinkedList/Heap.antt =====
-- The heap of include/qs/list.hpp: which nodes a write leaves as they are.
use k23_search_engine.Prelude.{
  ℕ, zero, suc, ◌≡◌, ◌≢◌, ◌<◌, refl, sym, ap, ◌∙◌, List, [], ◌∷◌, ◌++◌, Option, some, ◌>>=◌, length,
  get_elem?, set, All, get_elem?-set_self, get_elem?-set_ne, lt_of_get_elem?, Option-cases, inl,
  inr,
}
use k23_search_engine.LinkedList.{ListNode, node_at}

-- A node with its value.
abbrev pub Cell : Type 0 → Type 0
Cell V = ℕ × V

module _ {V : Type 0} where
  -- The address is none of the cells'.
  abbrev pub Apart : ℕ → List (Cell V) → Type 0
  Apart a cells = All (λ c. a ≢ c.0) cells

  -- The nodes outside the cells are as they were.
  abbrev pub Keeps :
      List (Option (ListNode V)) → List (Option (ListNode V)) → List (Cell V) → Type 0
  Keeps nodes nodes' cells =
      (x : ℕ) (n : ListNode V)
      → Apart x cells
      → node_at nodes x ≡ some n
      → node_at nodes' x ≡ some n

  pub cell_of_node_at :
      (nodes : List (Option (ListNode V))) (a : ℕ) (n : ListNode V)
      → node_at nodes a ≡ some n
      → get_elem? nodes a ≡ some (some n)
  unfolding node_at
  cell_of_node_at nodes a n h = elim (Option-cases (get_elem? nodes a)) [
    | inl e ↦ let bad = sym (ap (λ o. o >>= λ cell. cell) e) in absurd cc
    | inr (cell, e) ↦ let found = sym (ap (λ o. o >>= λ c. c) e) ∙ h in e ∙ ap some found
  ]

  pub lt_of_node_at :
      (nodes : List (Option (ListNode V))) (a : ℕ) (n : ListNode V)
      → node_at nodes a ≡ some n
      → a < length nodes
  lt_of_node_at nodes a n h = lt_of_get_elem? nodes a (some n) (cell_of_node_at nodes a n h)

  pub node_at-set_self :
      (nodes : List (Option (ListNode V))) (a : ℕ) (m n : ListNode V)
      → node_at nodes a ≡ some m
      → node_at (set nodes a (some n)) a ≡ some n
  unfolding node_at
  node_at-set_self nodes a m n h =
      rw (get_elem?-set_self nodes a (some n) (lt_of_node_at nodes a m h), ◌>>=◌) refl

  pub set-Keeps :
      (nodes : List (Option (ListNode V))) (a : ℕ) (v : V) (cell : Option (ListNode V))
      → Keeps nodes (set nodes a cell) ((a, v) ∷ [])
  unfolding node_at
  set-Keeps nodes a v cell x n apart h =
      rw (get_elem?-set_ne nodes a x cell (λ e. apart.0 (sym e))) h

  get_elem?-snoc :
      (nodes : List (Option (ListNode V))) (new : Option (ListNode V)) (a : ℕ)
      (n : Option (ListNode V))
      → get_elem? nodes a ≡ some n
      → get_elem? (nodes ++ new ∷ []) a ≡ some n
  get_elem?-snoc [] new a n h = absurd cc
  get_elem?-snoc (x ∷ nodes) new zero n h = h
  get_elem?-snoc (x ∷ nodes) new (suc a) n h = get_elem?-snoc nodes new a n h

  pub snoc-Keeps :
      (nodes : List (Option (ListNode V))) (new : Option (ListNode V))
      → Keeps nodes (nodes ++ new ∷ []) []
  unfolding node_at
  snoc-Keeps nodes new x n apart h =
      rw (get_elem?-snoc nodes new x (some n) (cell_of_node_at nodes x n h), ◌>>=◌) refl

  pub node_at-snoc :
      (nodes : List (Option (ListNode V))) (new : ListNode V)
      → node_at (nodes ++ some new ∷ []) (length nodes) ≡ some new
  unfolding node_at
  node_at-snoc [] new = refl
  node_at-snoc (x ∷ nodes) new = node_at-snoc nodes new
