-- ===== src/BkTree/Order.antt =====
-- The order of a node's children in include/qs/bk_tree.hpp.
use k23_search_engine.Prelude.{
  compared, tied, before, after, ℕ, ◌≤◌, ◌<◌, ◌≡◌, sym, ◌∙◌, some, arith, All, subst, ◌==◌,
  Bool-cases, inl, inr, ==_iff,
}
use k23_search_engine.BkTree.{
  Node, Children, nil, cons, distance_from_parent, children_find, children_insert, children_put,
  elements,
}
use k23_search_engine.BkTree.Shape.{Above, IsBk, AreBk}

pub Above-le : {T : Type 0} (i j : ℕ) (cs : Children T) → i ≤ j → Above j cs → Above i cs
Above-le i j nil le a = tt
Above-le i j (cons d cs) le a = (omega arith, Above-le i j cs le a.1)

module _ {T W : Type 0} (word : T → W) (δ : W → W → ℕ) (e : T) where
  abbrev At : ℕ → T → Type 0
  At k x = δ (word e) (word x) ≡ k

  pub AreBk-children_find :
      (k : ℕ) (c : Node T) (cs : Children T)
      → children_find k cs ≡ some c
      → AreBk word δ e cs
      → All (At k) (elements c) × IsBk word δ c
  unfolding children_find
  AreBk-children_find k c nil h b = cc
  AreBk-children_find k c (cons d cs) h b = elim (Bool-cases (distance_from_parent d == k)) [
    | inl same ↦
        subst (λ n. All (At k) (elements n) × IsBk word δ n) (cc (rw same at h))
          (subst (λ j. All (At j) (elements d)) ((==_iff _ _).0 same) b.0, b.1)
    | inr other ↦ AreBk-children_find k c cs (rw other at h) b.3
  ]

  Above-children_put :
      (j k : ℕ) (c : Node T) (cs : Children T)
      → distance_from_parent c ≡ k
      → Above j cs
      → Above j (children_put k c cs)
  unfolding children_put
  Above-children_put j k c nil same a = tt
  Above-children_put j k c (cons d cs) same a = elim (Bool-cases (distance_from_parent d == k)) [
    | inl is_d ↦ rw is_d (ground arith, a.1)
    | inr other ↦ rw other (a.0, Above-children_put j k c cs same a.1)
  ]

  pub AreBk-children_put :
      (k : ℕ) (c : Node T) (cs : Children T)
      → distance_from_parent c ≡ k
      → All (At k) (elements c)
      → IsBk word δ c
      → AreBk word δ e cs
      → AreBk word δ e (children_put k c cs)
  unfolding children_put
  AreBk-children_put k c nil same all bk b = tt
  AreBk-children_put k c (cons d cs) same all bk b =
      elim (Bool-cases (distance_from_parent d == k)) [
        | inl is_d ↦ rw is_d (
          subst (λ j. All (At j) (elements c)) (sym same) all,
          bk,
          subst (λ j. Above j cs) ((==_iff _ _).0 is_d ∙ sym same) b.2,
          b.3,
        )
        | inr other ↦ rw other (
          b.0,
          b.1,
          Above-children_put (distance_from_parent d) k c cs same b.2,
          AreBk-children_put k c cs same all bk b.3,
        )
      ]

  Above-children_insert :
      (j : ℕ) (new : Node T) (cs : Children T)
      → j < distance_from_parent new
      → Above j cs
      → Above j (children_insert new cs)
  unfolding children_insert
  Above-children_insert j new nil lt a = (lt, tt)
  Above-children_insert j new (cons d cs) lt a =
      elim (compared (distance_from_parent d) (distance_from_parent new)) [
        | tied e _ ↦ rw e a
        | before e l _ ↦ rw (e, l) (lt, a)
        | after e l _ ↦ rw (e, l) (a.0, Above-children_insert j new cs lt a.1)
      ]

  pub AreBk-children_insert :
      (new : Node T) (cs : Children T)
      → All (At (distance_from_parent new)) (elements new)
      → IsBk word δ new
      → AreBk word δ e cs
      → AreBk word δ e (children_insert new cs)
  unfolding children_insert
  AreBk-children_insert new nil all bk b = (all, bk, tt, tt)
  AreBk-children_insert new (cons d cs) all bk b =
      elim (compared (distance_from_parent d) (distance_from_parent new)) [
        | tied e _ ↦ rw e b
        | before e l lt ↦ rw (e, l) (all, bk, (lt, Above-le _ _ cs (omega arith) b.2), b)
        | after e l gt ↦
            rw (e, l)
              (
                b.0,
                b.1,
                Above-children_insert (distance_from_parent d) new cs gt b.2,
                AreBk-children_insert new cs all bk b.3,
              )
      ]
