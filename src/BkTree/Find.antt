-- ===== src/BkTree/Find.antt =====
-- `find` of include/qs/bk_tree.hpp.
use k23_search_engine.Prelude.{
  ℕ, zero, suc, ◌+◌, ◌≤◌, ◌<◌, ◌≡◌, ◌≢◌, refl, ap, List, [], ◌∷◌, Option, none, some, arith, Bool,
  true, false, subst, ◌&&◌, bit, length, take, count_if, All, leb, ◌==◌, ◌>>=◌, Bool-cases, inl,
  inr, ==_iff,
}
use k23_search_engine.Vector.{Vector}
use k23_search_engine.Vector.Laws.{at_lem}
use k23_search_engine.BkTree.{Node, payload, elements, Tree, tree_elements, find_loop, find}
use k23_search_engine.BkTree.Shape.{IsMetric}
use k23_search_engine.BkTree.Insert.{IsIndexed, IsIndex}
use k23_search_engine.BkTree.Scan.{forest, hits, IsStack}
use k23_search_engine.BkTree.Match.{pop-IsPopped, visit, payload-inside, start-IsStack}

module _ {T W : Type 0} (word : T → W) (what : W) where
  -- What `find` may return for the payloads `xs`: one of them that has the word (a test that it
  -- passes is passed by one of them), or `none` if none of them has it.
  abbrev pub Finds : List T → Option T → Type 0
  Finds xs none = All (λ x. word x ≢ what) xs
  Finds xs (some e) = (word e ≡ what) × ((f : T → Bool) → bit (f e) ≤ count_if f xs)

module _ {T W : Type 0} (word : T → W) {dist : W → W → Option ℕ} {Dom : W → Type 0} {δ : W → W → ℕ}
    (metric : IsMetric dist Dom δ) (what : W) (inside : Dom what) where
  -- The same by counts at the threshold 0, as the loop keeps it.
  abbrev Keeps : List T → Option T → Type 0
  Keeps xs none = (f : T → Bool) → hits word metric what 0 f xs ≡ 0
  Keeps xs (some e) =
      (δ (word e) what ≡ 0) × ((f : T → Bool) → f e ≡ true → 0 < hits word metric what 0 f xs)

  hits-le-count : (f : T → Bool) (xs : List T) → hits word metric what 0 f xs ≤ count_if f xs
  hits-le-count f [] = omega arith
  hits-le-count f (x ∷ xs) = ground (arith, hits-le-count f xs)

  Keeps-Finds : (xs : List T) (r : Option T) → Keeps xs r → Finds word what xs r
  Keeps-Finds xs (some e) (zero_distance, held) = (
    metric.eq_of_zero (word e) what zero_distance,
    λ f. elim (Bool-cases (f e)) [
      | inl h ↦ omega (arith, held f h, hits-le-count f xs, ap bit h)
      | inr h ↦ rw h (omega arith)
    ],
  )
  Keeps-Finds [] none k = tt
  Keeps-Finds (x ∷ xs) none k = (
    λ e. let z : δ (word x) what ≡ 0 = rw e (metric.self what) in ground (arith, k (λ _. true), z),
    Keeps-Finds xs none (λ f. omega (arith, k f)),
  )

  Keeps-visit :
      (xs ys : List T) (e : T) (r : Option T)
      → ((f : T → Bool)
          → hits word metric what 0 f xs + bit (f e && leb (δ (word e) what) 0)
            ≡ hits word metric what 0 f ys)
      → (δ (word e) what == 0) ≡ false
      → Keeps xs r
      → Keeps ys r
  Keeps-visit xs ys e none counts further k = λ f. ground (arith, counts f, k f)
  Keeps-visit xs ys e (some d) counts further k = (k.0, λ f h. ground (arith, counts f, k.1 f))

  find_loop-Keeps :
      (fuel : ℕ) (v : Vector (Node T)) (pos : ℕ)
      → length (forest (take pos v.items)) ≤ fuel
      → IsStack word metric what 0 v pos
      → (r : Option T) × (find_loop word dist fuel what v pos ≡ some r)
        × Keeps (forest (take pos v.items)) r
  unfolding find_loop
  find_loop-Keeps fuel v zero enough s = (none, refl, λ f. refl)
  find_loop-Keeps zero v (suc pos) enough s =
      let (c, read, e) = at_lem v pos (omega (arith, s.within)) in
      let (w, run, n) =
        visit word metric what inside 0 v pos c
          (pop-IsPopped word metric what inside 0 v pos c s e) in
      absurd (omega (arith, n.fewer))
  find_loop-Keeps (suc fuel) v (suc pos) enough s =
      let (c, read, e) = at_lem v pos (omega (arith, s.within)) in
      let p = pop-IsPopped word metric what inside 0 v pos c s e in
      let (w, run, n) = visit word metric what inside 0 v pos c p in
      let reads =
        metric.computes (word (payload c)) what (payload-inside word metric what inside 0 v pos c p)
          inside in
      elim (Bool-cases (δ (word (payload c)) what == 0)) [
        | inl here ↦ (
          some (payload c),
          rw (read, ◌>>=◌, reads, ◌>>=◌, here),
          ((==_iff _ 0).0 here, λ f h. ground (arith, n.counts f)),
        )
        | inr further ↦
            let (r, rest, k) = find_loop-Keeps fuel w.0 w.1 (omega (arith, n.fewer)) n.stack in
            (
              r,
              rw (read, ◌>>=◌, reads, ◌>>=◌, further, run) rest,
              Keeps-visit _ _ (payload c) r n.counts further k,
            )
      ]

  -- On a BK-tree over words of `Dom`, on which the distance function is a metric, and for a word in
  -- `Dom`, `find` does not fault and ends within the number of nodes. It returns a payload of the tree
  -- that has the given word, or, if no payload has it, `nullptr`.
  pub find-Finds :
      (tree : Tree T)
      → IsIndex word Dom δ tree
      → (r : Option T) × (find word dist what tree ≡ some r)
        × Finds word what (tree_elements tree) r
  unfolding find tree_elements
  find-Finds tree index = by_root tree.root tree.depth index
    where
      by_root :
          (root : Option (Node T)) (depth : ℕ)
          → IsIndexed word Dom δ root depth
          → (r : Option T) × (find word dist what (record { root = root; depth = depth }) ≡ some r)
            × Finds word what (tree_elements (record { root = root; depth = depth })) r
      by_root none depth index = (none, refl, tt)
      by_root (some c) depth (bk, dom, deep) =
          let (v, run, s, all) = start-IsStack word metric what inside 0 depth c deep bk dom in
          let (r, rest, k) =
            find_loop-Keeps (length (elements c)) v 1 (omega (arith, ap length all)) s in
          (r, rw (run, ◌>>=◌) rest, Keeps-Finds (elements c) r (subst (λ xs. Keeps xs r) all k))
