-- ===== src/Engine/Add/Grow.antt =====
-- `add_to_tree` of src/core.cpp, on an index.
use k23_search_engine.Prelude.{
  ℕ, ◌+◌, ◌≤◌, ◌≡◌, refl, sym, ap, ◌∙◌, List, [], ◌∷◌, ◌++◌, Option, some, ◌>>=◌, arith, ◌==◌, leb,
  bit, Bool, false, length, length-append, count_if, total_grow, total_same, count_if_le,
  Bool-cases, inl, inr, ==_iff,
}
use k23_search_engine.Vector
use k23_search_engine.Vector.{Vector}
use k23_search_engine.Vector.Laws.{IsRoomy, new-IsRoomy, items-new, push_lem}
use k23_search_engine.BkTree.{tree_elements}
use k23_search_engine.BkTree.Shape.{IsMetric}
use k23_search_engine.BkTree.Insert.{insert-IsIndex}
use k23_search_engine.Engine.{Entry, Index}
use k23_search_engine.Engine.Add.{word_of, add_entry}
use k23_search_engine.Engine.Add.Posts.{
  weight, posts, IsPosted, items_of-snoc, items_of-last, get_elem?-snoc,
}

module _ {dist : List ℕ → List ℕ → Option ℕ} {Dom : List ℕ → Type 0} {δ : List ℕ → List ℕ → ℕ}
    (metric : IsMetric dist Dom δ) where
  -- The index holds one more query under a word.
  pub record IsGrown (q : ℕ) (str : List ℕ) (ix ix' : Index) : Type 0 where
    pub posted : IsPosted Dom δ ix'
    pub counts : (g : List ℕ → ℕ → Bool) → posts g ix' ≡ posts g ix + bit (g str q)

  -- An entry inside has the same weight with one more vector.
  weight-snoc :
      (g : List ℕ → ℕ → Bool) (payloads : List (Vector ℕ)) (v : Vector ℕ) (e : Entry)
      → leb (length payloads) e.payload ≡ false
      → weight g (payloads ++ v ∷ []) e ≡ weight g payloads e
  weight-snoc g payloads v e inside =
      ap (count_if (g e.word)) (items_of-snoc payloads v e.payload (ground (arith, inside)))

  past : (m n c : ℕ) → m ≡ n + 1 → c ≡ 0 → c + bit (leb m n) ≡ 0
  past m n c h e = ground arith

  sum_comm : {a b c d : ℕ} → a ≡ b → c ≡ d → a + c ≡ d + b
  sum_comm h k = omega arith

  single-count :
      (g : ℕ → Bool) (q : ℕ) (v : Vector ℕ) → v.items ≡ q ∷ [] → count_if g v.items ≡ bit (g q)
  single-count g q v e = ap (count_if g) e ∙ omega arith

  -- No entry has an address past the vectors.
  none_past :
      (n m : ℕ) (xs : List Entry)
      → n ≤ m
      → count_if (λ e. leb n e.payload) xs ≡ 0
      → count_if (λ e. leb m e.payload) xs ≡ 0
  none_past n m xs le h =
      let fewer =
        count_if_le (λ e. leb m e.payload) (λ e. leb n e.payload) xs
          (λ e t. ground (arith, t, le)) in
      omega (arith, h)

  none_there :
      (n : ℕ) (xs : List Entry)
      → count_if (λ e. leb n e.payload) xs ≡ 0
      → count_if (λ e. e.payload == n) xs ≡ 0
  none_there n xs h =
      let fewer =
        count_if_le (λ e. e.payload == n) (λ e. leb n e.payload) xs (λ e t. ground (arith, t)) in
      omega (arith, h)

  apart_more :
      (n a : ℕ) (xs : List Entry)
      → count_if (λ e. leb n e.payload) xs ≡ 0
      → count_if (λ e. e.payload == a) xs ≤ 1
      → count_if (λ e. e.payload == a) xs + bit (n == a) ≤ 1
  apart_more n a xs h le = elim (Bool-cases (n == a)) [
    | inl same ↦
        let e = (==_iff n a).0 same in
        let gone = ap (λ x. count_if (λ e. e.payload == x) xs) (sym e) ∙ none_there n xs h in
        rw same (omega (arith, gone))
    | inr other ↦ rw other (omega (arith, le))
  ]

  pub add_entry-IsGrown :
      (q : ℕ) (str : List ℕ) (ix : Index)
      → Dom str
      → IsPosted Dom δ ix
      → (ix' : Index) × (add_entry dist q str ix ≡ some ix') × IsGrown q str ix ix'
  unfolding add_entry posts
  add_entry-IsGrown q str ix dom posted =
      let a = length ix.payloads in
      let new : Entry = record { word = str; payload = a } in
      let (qv, push, items, roomy) = push_lem (Vector.new 10) q (new-IsRoomy 10 (omega arith)) in
      let only = items ∙ ap (λ t. t ++ q ∷ []) (items-new 10) in
      let (tree, insert, index, counts) =
        insert-IsIndex word_of metric new dom ix.tree posted.index in
      let payloads = ix.payloads ++ qv ∷ [] in
      let width = length-append ix.payloads (qv ∷ []) in
      (
        record { tree = tree; payloads = payloads },
        rw (push, ◌>>=◌, insert, ◌>>=◌) refl,
        record {
          posted = record {
            index = index;
            inside =
                counts (λ e. leb (length payloads) e.payload)
                ∙ past (length payloads) a _ width (
                    none_past a (length payloads) (tree_elements ix.tree) (omega (arith, width))
                      posted.inside);
            apart = λ b.
                rw (counts (λ e. e.payload == b))
                  (apart_more a b (tree_elements ix.tree) posted.inside (posted.apart b));
            roomy = λ p v h. get_elem?-snoc ix.payloads qv v p IsRoomy h (posted.roomy p) roomy;
          };
          counts = λ g.
              total_grow (weight g payloads) new (tree_elements ix.tree) (tree_elements tree) counts
              ∙ sum_comm
                  (ap (count_if (g str)) (items_of-last ix.payloads qv)
                    ∙ single-count (g str) q qv only)
                  (total_same (weight g payloads) (weight g ix.payloads) (λ e. leb a e.payload)
                    (tree_elements ix.tree) posted.inside
                    (λ e h. weight-snoc g ix.payloads qv e h));
        },
      )
