-- ===== src/Engine/Add/Step.antt =====
-- `add_to_tree` of src/core.cpp, for a word that has an entry and for any word.
use mathlib.Core.Option.{some-injective}
use k23_search_engine.Prelude.{
  ℕ, ◌+◌, ◌≤◌, ◌<◌, ◌≡◌, refl, sym, ap, subst, ◌∙◌, List, [], ◌∷◌, ◌++◌, Option, none, some, ◌>>=◌,
  arith, ◌==◌, leb, bit, Bool, true, ◌&&◌, not, length, length-set, get_elem?, get_elem?_of_lt,
  get_elem?-set_self, get_elem?-set_ne, lt_of_get_elem?, set, count_if, count_if-append, total_more,
  Bool-cases, inl, inr, ==_iff,
}
use k23_search_engine.Vector.{Vector}
use k23_search_engine.Vector.Laws.{IsRoomy, push_lem}
use k23_search_engine.BkTree
use k23_search_engine.BkTree.{tree_elements}
use k23_search_engine.BkTree.Shape.{IsMetric}
use k23_search_engine.BkTree.Find.{Finds, find-Finds}
use k23_search_engine.Engine.{Entry, Index}
use k23_search_engine.Engine.Add.{word_of, add_payload, add_to_tree}
use k23_search_engine.Engine.Add.Posts.{
  items_of, weight, posts, IsPosted, items_of-held, items_of-set_ne,
}
use k23_search_engine.Engine.Add.Grow.{IsGrown, add_entry-IsGrown}

module _ {dist : List ℕ → List ℕ → Option ℕ} {Dom : List ℕ → Type 0} {δ : List ℕ → List ℕ → ℕ}
    (metric : IsMetric dist Dom δ) where
  -- The one entry at an address decides the tests of the entries there.
  decided :
      (p : Entry → Bool) (en : Entry) (xs : List Entry)
      → count_if (λ e. e.payload == en.payload) xs ≤ 1
      → ((f : Entry → Bool) → bit (f en) ≤ count_if f xs)
      → count_if (λ e. (e.payload == en.payload) && p e) xs ≡ bit (p en)
  decided p en xs one held =
      let here = (==_iff en.payload en.payload).1 refl in
      let yes_le = held (λ e. (e.payload == en.payload) && p e) in
      let no_le = held (λ e. (e.payload == en.payload) && not (p e)) in
      let parts = count_if_parts (λ e. e.payload == en.payload) p xs in
      verdict (en.payload == en.payload) (p en) _ _ _ here yes_le no_le parts one
    where
      count_if_parts :
          (a b : Entry → Bool) (ys : List Entry)
          → count_if (λ e. a e && b e) ys + count_if (λ e. a e && not (b e)) ys ≡ count_if a ys
      count_if_parts a b [] = omega arith
      count_if_parts a b (y ∷ ys) = ground (arith, count_if_parts a b ys)

      verdict :
          (h b : Bool) (m n k : ℕ)
          → h ≡ true
          → bit (h && b) ≤ m
          → bit (h && not b) ≤ n
          → m + n ≡ k
          → k ≤ 1
          → m ≡ bit b
      verdict h b m n k e y z s one = ground (arith, e, y, z, s, one)

  weight-set :
      (g : List ℕ → ℕ → Bool) (payloads : List (Vector ℕ)) (a q : ℕ) (v v' : Vector ℕ) (e : Entry)
      → get_elem? payloads a ≡ some v
      → v'.items ≡ v.items ++ q ∷ []
      → weight g (set payloads a v') e ≡ weight g payloads e + bit ((e.payload == a) && g e.word q)
  weight-set g payloads a q v v' e held pushed = elim (Bool-cases (e.payload == a)) [
    | inl same ↦
        let at = (==_iff e.payload a).0 same in
        let lt = lt_of_get_elem? payloads a v held in
        let now : items_of (set payloads a v') e.payload ≡ v.items ++ q ∷ [] =
          ap (items_of (set payloads a v')) at
          ∙ items_of-held (set payloads a v') a v' (get_elem?-set_self payloads a v' lt)
          ∙ pushed in
        let was : items_of payloads e.payload ≡ v.items =
          ap (items_of payloads) at ∙ items_of-held payloads a v held in
        rw (same, now, was) (count_if-append (g e.word) v.items (q ∷ []) ∙ omega arith)
    | inr other ↦
        rw (other, items_of-set_ne payloads a e.payload v' (λ x. ground (arith, other, x)))
          (omega arith)
  ]

  add_payload-IsGrown :
      (q : ℕ) (en : Entry) (ix : Index)
      → IsPosted Dom δ ix
      → ((f : Entry → Bool) → bit (f en) ≤ count_if f (tree_elements ix.tree))
      → (ix' : Index) × (add_payload q en ix ≡ some ix') × IsGrown metric q en.word ix ix'
  unfolding add_payload posts
  add_payload-IsGrown q en ix posted held =
      let a = en.payload in
      let bound = held (λ e. leb (length ix.payloads) e.payload) in
      let (qv, read) =
        get_elem?_of_lt ix.payloads a (within (length ix.payloads) a _ bound posted.inside) in
      let (qv', push, items, roomy) = push_lem qv q (posted.roomy a qv read) in
      let lt = lt_of_get_elem? ix.payloads a qv read in
      (
        record ix { payloads = set ix.payloads a qv' },
        rw (read, ◌>>=◌, push, ◌>>=◌) refl,
        record {
          posted = record {
            index = posted.index;
            inside = rw (length-set ix.payloads a qv') posted.inside;
            apart = posted.apart;
            roomy = λ p v h. elim (Bool-cases (a == p)) [
              | inl same ↦
                  let e = (==_iff a p).0 same in
                  let there =
                    sym (get_elem?-set_self ix.payloads a qv' lt)
                    ∙ ap (get_elem? (set ix.payloads a qv')) e
                    ∙ h in
                  subst IsRoomy (some-injective qv' v there) roomy
              | inr other ↦
                  posted.roomy p v
                    (sym (get_elem?-set_ne ix.payloads a p qv' (λ e. ground (arith, other, e))) ∙ h)
            ];
          };
          counts = λ g.
              total_more (weight g (set ix.payloads a qv')) (weight g ix.payloads)
                (λ e. (e.payload == a) && g e.word q) (tree_elements ix.tree)
                (λ e. weight-set g ix.payloads a q qv qv' e read items)
              ∙ ap (λ n. posts g ix + n)
                  (decided (λ e. g e.word q) en (tree_elements ix.tree) (posted.apart a) held);
        },
      )
    where
      within : (n a c : ℕ) → bit (leb n a) ≤ c → c ≡ 0 → a < n
      within n a c h e = ground (arith, h, e)

  -- On an index that is a BK-tree over words of `Dom` for a metric, where each entry has a vector of its
  -- own, and for a word in `Dom`, `add_to_tree` does not fault: the index stays such an index, and holds
  -- the query once more under the word, and otherwise what it held, as any test of a word and a
  -- query counts it.
  pub add_to_tree-IsGrown :
      (q : ℕ) (str : List ℕ) (ix : Index)
      → Dom str
      → IsPosted Dom δ ix
      → (ix' : Index) × (add_to_tree dist q str ix ≡ some ix') × IsGrown metric q str ix ix'
  unfolding add_to_tree
  add_to_tree-IsGrown q str ix dom posted =
      let (r, run, finds) = find-Finds word_of metric str dom ix.tree posted.index in
      by_found r run finds
    where
      by_found :
          (r : Option Entry)
          → BkTree.find word_of dist str ix.tree ≡ some r
          → Finds word_of str (tree_elements ix.tree) r
          → (ix' : Index) × (add_to_tree dist q str ix ≡ some ix') × IsGrown metric q str ix ix'
      by_found none run finds =
          let (ix', add, grown) = add_entry-IsGrown metric q str ix dom posted in
          (ix', rw (run, ◌>>=◌) add, grown)
      by_found (some en) run finds =
          let (ix', add, grown) = add_payload-IsGrown q en ix posted finds.1 in
          (ix', rw (run, ◌>>=◌) add, subst (λ w. IsGrown metric q w ix ix') finds.0 grown)
