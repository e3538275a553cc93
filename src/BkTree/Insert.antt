-- ===== src/BkTree/Insert.antt =====
-- `insert` of include/qs/bk_tree.hpp.
use k23_search_engine.Prelude.{
  ℕ, zero, suc, ◌+◌, ◌≤◌, ◌≡◌, refl, ◌∙◌, Option, none, some, arith, Bool, bit, length, count_if,
  All, Option-cases, inl, inr, ◌>>=◌, if◌then◌else◌, ltb,
}
use k23_search_engine.BkTree.{
  Node, node, nil, distance_from_parent, children_find, children_insert, children_put, elements,
  Tree, tree_elements, insert_loop, insert,
}
use k23_search_engine.BkTree.Shape.{IsMetric, IsBk}
use k23_search_engine.BkTree.Siblings.{
  distance-children_find, All-children_find, length-children_find, count-children_put,
  All-children_put, count-children_insert, All-children_insert,
}
use k23_search_engine.BkTree.Order.{AreBk-children_find, AreBk-children_put, AreBk-children_insert}

-- A BK-tree whose words are in `Dom`, and whose `depth` is not 0 if it has a node.
abbrev pub IsIndexed :
    {T W : Type 0} (word : T → W) (Dom : W → Type 0) (δ : W → W → ℕ) → Option (Node T) → ℕ → Type 0
IsIndexed word Dom δ none depth = Unit
IsIndexed word Dom δ (some r) depth =
    IsBk word δ r × All (λ x. Dom (word x)) (elements r) × (1 ≤ depth)

abbrev pub IsIndex :
    {T W : Type 0} (word : T → W) (Dom : W → Type 0) (δ : W → W → ℕ) → Tree T → Type 0
IsIndex word Dom δ t = IsIndexed word Dom δ t.root t.depth

module _ {T W : Type 0} (word : T → W) {dist : W → W → Option ℕ} {Dom : W → Type 0} {δ : W → W → ℕ}
    (metric : IsMetric dist Dom δ) (new : T) (inside : Dom (word new)) where
  -- `m` is `n` with `new` below it.
  record IsInserted (n m : Node T) : Type 1 where
    stays : distance_from_parent m ≡ distance_from_parent n
    bk : IsBk word δ m
    counts : (f : T → Bool) → count_if f (elements m) ≡ count_if f (elements n) + bit (f new)
    keeps : (P : T → Type 0) → All P (elements n) → P new → All P (elements m)

  insert_loop-IsInserted :
      (fuel local_depth : ℕ) (n : Node T)
      → length (elements n) ≤ fuel
      → IsBk word δ n
      → All (λ x. Dom (word x)) (elements n)
      → (r : Node T × ℕ) × (insert_loop word dist fuel local_depth new n ≡ some r)
        × IsInserted n r.0
  unfolding insert_loop elements
  insert_loop-IsInserted zero ld (node e k cs) enough bk dom = absurd (omega arith)
  insert_loop-IsInserted (suc fuel) ld (node e k cs) enough bk dom =
      rw (metric.computes (word e) (word new) dom.0 inside)
        (elim (Option-cases (children_find (δ (word e) (word new)) cs)) [
          | inl absent ↦ (
            (node e k (children_insert (node new (δ (word e) (word new)) nil) cs), ld + 1),
            rw (absent, ◌>>=◌),
            record {
              stays = refl;
              bk = AreBk-children_insert word δ e (node new _ nil) cs (refl, tt) tt bk;
              counts = λ f. omega (arith, count-children_insert f (node new _ nil) cs absent);
              keeps = λ P all p. (all.0, All-children_insert P (node new _ nil) cs all.1 (p, tt));
            },
          )
          | inr (c, found) ↦
              let D = δ (word e) (word new) in
              let (near, c-bk) = AreBk-children_find word δ e D c cs found bk in
              let (r, run, ins) =
                insert_loop-IsInserted fuel (ld + 1) c
                  (omega (arith, length-children_find D c cs found)) c-bk
                  (All-children_find D c _ cs found dom.1) in
              (
                (node e k (children_put D r.0 cs), r.1),
                rw (found, ◌>>=◌, run),
                record {
                  stays = refl;
                  bk =
                      AreBk-children_put word δ e D r.0 cs
                        (ins.stays ∙ distance-children_find D c cs found) (ins.keeps _ near refl)
                        ins.bk bk;
                  counts = λ f. omega (arith, count-children_put D c r.0 f cs found, ins.counts f);
                  keeps = λ P all p. (
                    all.0,
                    All-children_put D c r.0 P cs all.1
                        (ins.keeps P (All-children_find D c P cs found all.1) p),
                  );
                },
              )
        ])

  -- On a BK-tree over words of `Dom`, on which the distance function is a metric, and for a payload
  -- with a word in `Dom`, `insert` does not fault: the loop ends, adds exactly the new payload to those
  -- of the tree, and the result is again such a tree, whose stack has room.
  pub insert-IsIndex :
      (t : Tree T)
      → IsIndex word Dom δ t
      → (r : Tree T) × (insert word dist new t ≡ some r)
        × IsIndex word Dom δ r
        × ((f : T → Bool)
            → count_if f (tree_elements r) ≡ count_if f (tree_elements t) + bit (f new))
  unfolding insert tree_elements
  insert-IsIndex t index = by_root t.root t.depth index
    where
      by_root :
          (root : Option (Node T)) (depth : ℕ)
          → IsIndexed word Dom δ root depth
          → (r : Tree T) × (insert word dist new (record { root = root; depth = depth }) ≡ some r)
            × IsIndex word Dom δ r
            × ((f : T → Bool)
                → count_if f (tree_elements r)
                  ≡ count_if f (tree_elements (record { root = root; depth = depth }))
                    + bit (f new))
      by_root none depth index = (
        record { root = some (node new 0 nil); depth = depth + 1 },
        refl,
        (tt, (inside, tt), omega arith),
        λ f. omega arith,
      )
      by_root (some r) depth (bk, dom, deep) =
          let ((r', ld), run, ins) =
            insert_loop-IsInserted (length (elements r)) 1 r (omega arith) bk dom in
          (
            record { root = some r'; depth = if ltb depth ld then ld else depth },
            rw (run, ◌>>=◌),
            (ins.bk, ins.keeps _ dom inside, ground arith),
            ins.counts,
          )
