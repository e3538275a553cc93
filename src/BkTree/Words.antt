-- ===== src/BkTree/Words.antt =====
-- The trees that src/core.cpp makes: over words, by `edit_distance` or by `hamming_distance`.
use k23_search_engine.Prelude.{
  ℕ, ◌+◌, ◌≤◌, ◌≡◌, refl, ◌∙◌, sym, List, [], ◌∷◌, Option, some, arith, Bool, ◌&&◌, leb, length,
  count_if, All, ◌>>=◌,
}
use k23_search_engine.Distances.{max_word_length, edit_buffer_size, hamming_distance, edit_distance}
use k23_search_engine.Distances.Levenshtein.{lev, lev_self, lev_comm, lev_triangle, eq_of_lev}
use k23_search_engine.Distances.Edit.{edit_distance-eq-lev}
use k23_search_engine.Distances.Hamming.{
  mismatches, mismatches_self, mismatches_comm, mismatches_triangle, eq_of_mismatches,
  hamming_distance_same,
}
use k23_search_engine.BkTree.{Tree, tree_elements, empty, insert_range, match}
use k23_search_engine.BkTree.Shape.{IsMetric}
use k23_search_engine.BkTree.Insert.{IsIndex, insert-IsIndex}
use k23_search_engine.BkTree.Match.{match-hits}

abbrev pub IsShort : List ℕ → Type 0
IsShort w = length w ≤ max_word_length

-- `edit_distance` on words of at most MAX_WORD_LENGTH bytes, whatever its local array held.
pub edit_distance-IsMetric :
    (buffer : List ℕ)
    → length buffer ≡ edit_buffer_size
    → IsMetric (edit_distance buffer) IsShort lev
edit_distance-IsMetric buffer width = record {
  computes = λ a b ha hb. edit_distance-eq-lev buffer a b width (omega arith) (omega arith);
  self = lev_self;
  eq_of_zero = eq_of_lev;
  comm = lev_comm;
  triangle = lev_triangle;
}

-- `hamming_distance` on the words of one length.
pub hamming_distance-IsMetric : (n : ℕ) → IsMetric hamming_distance (λ w. length w ≡ n) mismatches
hamming_distance-IsMetric n = record {
  computes = λ a b ha hb. hamming_distance_same a b (ha ∙ sym hb);
  self = mismatches_self;
  eq_of_zero = eq_of_mismatches;
  comm = mismatches_comm;
  triangle = mismatches_triangle;
}

module _ {T W : Type 0} (word : T → W) {dist : W → W → Option ℕ} {Dom : W → Type 0} {δ : W → W → ℕ}
    (metric : IsMetric dist Dom δ) where
  pub insert_range-IsIndex :
      (xs : List T) (t : Tree T)
      → All (λ x. Dom (word x)) xs
      → IsIndex word Dom δ t
      → (r : Tree T) × (insert_range word dist xs t ≡ some r)
        × IsIndex word Dom δ r
        × ((f : T → Bool)
            → count_if f (tree_elements r) ≡ count_if f (tree_elements t) + count_if f xs)
  unfolding insert_range
  insert_range-IsIndex [] t dom index = (t, refl, index, λ f. omega arith)
  insert_range-IsIndex (x ∷ xs) t dom index =
      let (s, run, i, counts) = insert-IsIndex word metric x dom.0 t index in
      let (r, rest, j, more) = insert_range-IsIndex xs s dom.1 i in
      (r, rw (run, ◌>>=◌) rest, j, λ f. omega (arith, counts f, more f))

  -- For a distance function that is a metric on the words of `Dom`, and payloads `xs` and a query with
  -- words in `Dom`: neither the range constructor nor `match` on its tree faults, and the result holds
  -- exactly the payloads whose words are within the threshold, each as often as `xs` does.
  pub match-insert_range :
      (t : ℕ) (query : W) (xs : List T)
      → Dom query
      → All (λ x. Dom (word x)) xs
      → (tree : Tree T) × (insert_range word dist xs empty ≡ some tree)
        × (r : List T) × (match word dist t query tree ≡ some r)
        × ((f : T → Bool) → count_if f r ≡ count_if (λ x. f x && leb (δ (word x) query) t) xs)
  unfolding tree_elements empty
  match-insert_range t query xs inside dom =
      let (tree, run, index, counts) = insert_range-IsIndex xs empty dom tt in
      let (r, rest, matched) = match-hits word metric query inside t tree index in
      (
        tree,
        run,
        r,
        rest,
        λ f. omega (arith, matched f, counts (λ x. f x && leb (δ (word x) query) t)),
      )
