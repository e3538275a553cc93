-- ===== src/BkTree/Siblings.antt =====
-- The payloads below the children of a node in include/qs/bk_tree.hpp.
use mathlib.Core.List.{append-nil}
use k23_search_engine.Prelude.{
  compared, tied, before, after, ℕ, ◌+◌, ◌≤◌, ◌≡◌, none, some, arith, Bool, length, count_if,
  count_if-append, length-append, All, All-append, subst, All-append_left, All-append_right, ◌==◌,
  Bool-cases, inl, inr,
}
use k23_search_engine.BkTree.{
  Node, Children, nil, cons, distance_from_parent, children_find, children_insert, children_put,
  elements, elements_below,
}

module _ {T : Type 0} where
  -- The list lemmas at the payloads of a child and its siblings.
  pub count-below :
      (f : T → Bool) (c : Node T) (cs : Children T)
      → count_if f (elements_below (cons c cs))
        ≡ count_if f (elements c) + count_if f (elements_below cs)
  unfolding elements
  count-below f c cs = count_if-append f (elements c) (elements_below cs)

  pub All-below {κ} :
      (P : T → Type κ) (c : Node T) (cs : Children T)
      → All P (elements c)
      → All P (elements_below cs)
      → All P (elements_below (cons c cs))
  unfolding elements
  All-below P c cs p q = All-append P (elements c) (elements_below cs) p q

  pub All-below_child {κ} :
      (P : T → Type κ) (c : Node T) (cs : Children T)
      → All P (elements_below (cons c cs))
      → All P (elements c) × All P (elements_below cs)
  unfolding elements
  All-below_child P c cs p = (
    All-append_left P (elements c) (elements_below cs) p,
    All-append_right P (elements c) (elements_below cs) p,
  )

  module _ (k : ℕ) (c : Node T) where
    pub distance-children_find :
        (cs : Children T) → children_find k cs ≡ some c → distance_from_parent c ≡ k
    unfolding children_find
    distance-children_find nil h = cc
    distance-children_find (cons d cs) h = ground (arith, distance-children_find cs)

    pub All-children_find {κ} :
        (P : T → Type κ) (cs : Children T)
        → children_find k cs ≡ some c
        → All P (elements_below cs)
        → All P (elements c)
    unfolding children_find
    All-children_find P nil h p = cc
    All-children_find P (cons d cs) h p = elim (Bool-cases (distance_from_parent d == k)) [
      | inl e ↦ subst (λ n. All P (elements n)) (cc (rw e at h)) (All-below_child P d cs p).0
      | inr e ↦ All-children_find P cs (rw e at h) (All-below_child P d cs p).1
    ]

    pub length-children_find :
        (cs : Children T)
        → children_find k cs ≡ some c
        → length (elements c) ≤ length (elements_below cs)
    unfolding children_find elements
    length-children_find nil h = cc
    length-children_find (cons d cs) h =
        ground (arith, length-children_find cs, length-append (elements d) (elements_below cs))

    module _ (c' : Node T) where
      pub count-children_put :
          (f : T → Bool) (cs : Children T)
          → children_find k cs ≡ some c
          → count_if f (elements_below (children_put k c' cs)) + count_if f (elements c)
            ≡ count_if f (elements_below cs) + count_if f (elements c')
      unfolding children_find children_put
      count-children_put f nil h = cc
      count-children_put f (cons d cs) h = ground (
        arith,
        count-children_put f cs,
        count-below f d cs,
        count-below f c' cs,
        count-below f d (children_put k c' cs),
      )

      pub All-children_put {κ} :
          (P : T → Type κ) (cs : Children T)
          → All P (elements_below cs)
          → All P (elements c')
          → All P (elements_below (children_put k c' cs))
      unfolding children_put elements
      All-children_put P nil p q = tt
      All-children_put P (cons d cs) p q = elim (Bool-cases (distance_from_parent d == k)) [
        | inl e ↦ rw e (All-below P c' cs q (All-below_child P d cs p).1)
        | inr e ↦ rw e (
            All-below P d (children_put k c' cs) (All-below_child P d cs p).0
              (All-children_put P cs (All-below_child P d cs p).1 q))
      ]

  pub count-children_insert :
      (f : T → Bool) (new : Node T) (cs : Children T)
      → children_find (distance_from_parent new) cs ≡ none
      → count_if f (elements_below (children_insert new cs))
        ≡ count_if f (elements_below cs) + count_if f (elements new)
  unfolding children_find children_insert elements
  count-children_insert f new nil h = rw append-nil (omega arith)
  count-children_insert f new (cons d cs) h = ground (
    arith,
    count-children_insert f new cs,
    count-below f d cs,
    count-below f new (cons d cs),
    count-below f d (children_insert new cs),
  )

  pub All-children_insert {κ} :
      (P : T → Type κ) (new : Node T) (cs : Children T)
      → All P (elements_below cs)
      → All P (elements new)
      → All P (elements_below (children_insert new cs))
  unfolding children_insert elements
  All-children_insert P new nil p q = All-below P new nil q tt
  All-children_insert P new (cons d cs) p q =
      let (mine, others) = All-below_child P d cs p in
      elim (compared (distance_from_parent d) (distance_from_parent new)) [
        | tied e _ ↦ rw e p
        | before e l _ ↦ rw (e, l) (All-below P new (cons d cs) q p)
        | after e l _ ↦
            rw (e, l)
              (All-below P d (children_insert new cs) mine (All-children_insert P new cs others q))
      ]
