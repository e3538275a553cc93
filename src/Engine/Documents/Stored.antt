-- ===== src/Engine/Documents/Stored.antt =====
-- What the indices of src/core.cpp hold, and what a job adds to them.
use k23_search_engine.Prelude.{
  ℕ, ◌+◌, ◌<◌, ◌≡◌, List, Option, none, some, ◌==◌, bit, Bool, ◌&&◌, length, get_elem?, count_if,
}
use k23_search_engine.HashTable.Assoc.{assoc}
use k23_search_engine.StringView.{equals}
use k23_search_engine.Distances.Levenshtein.{lev}
use k23_search_engine.Distances.Hamming.{mismatches}
use k23_search_engine.BkTree.Words.{IsShort}
use k23_search_engine.Engine.{
  Engine, Index, Job, add_to_tree_job, add_to_hash_table_job, match_doc_job, edit_ref, hamming_ref,
  min_word_length, hamming_bk_trees,
}
use k23_search_engine.Engine.Keys.{word_key}
use k23_search_engine.Engine.Add.Posts.{posts, IsPosted}
use k23_search_engine.Engine.Documents.Exact.{items_in, IsExact}

-- A question to the indices: a test of the words and queries in one of them.
pub data Question : Type 0 where
  in_edit : (List ℕ → ℕ → Bool) → Question
  in_hamming : ℕ → (List ℕ → ℕ → Bool) → Question
  in_exact : List ℕ → (ℕ → Bool) → Question

abbrev pub posts_in : (List ℕ → ℕ → Bool) → Option Index → ℕ
posts_in g none = 0
posts_in g (some ix) = posts g ix

-- How often the test is passed.
unfoldable pub stored : Question → Engine → ℕ
stored (in_edit g) e = posts g e.edit_tree
stored (in_hamming i g) e = posts_in g (get_elem? e.hamming_trees i)
stored (in_exact w f) e = count_if f (items_in (assoc w e.exact.slots))

-- How much a job adds to that.
unfoldable pub adds : Question → Job → ℕ
adds (in_edit g) (add_to_tree_job q str edit_ref) = bit (g str q)
adds (in_edit g) (add_to_tree_job q str (hamming_ref i)) = 0
adds (in_edit g) (add_to_hash_table_job q str) = 0
adds (in_edit g) (match_doc_job node) = 0
adds (in_hamming i g) (add_to_tree_job q str edit_ref) = 0
adds (in_hamming i g) (add_to_tree_job q str (hamming_ref j)) = bit ((j == i) && g str q)
adds (in_hamming i g) (add_to_hash_table_job q str) = 0
adds (in_hamming i g) (match_doc_job node) = 0
adds (in_exact w f) (add_to_tree_job q str ref) = 0
adds (in_exact w f) (add_to_hash_table_job q str) = bit (equals str w && f q)
adds (in_exact w f) (match_doc_job node) = 0

-- A job that `StartQuery` submits: its word is one of the index.
abbrev pub Fits : Job → Type 0
Fits (add_to_tree_job q str edit_ref) = IsShort str
Fits (add_to_tree_job q str (hamming_ref i)) =
    (i < hamming_bk_trees) × (length str ≡ i + min_word_length)
Fits (add_to_hash_table_job q str) = Unit
Fits (match_doc_job node) = ⊥

-- The indices are as their operations need them.
pub record IsReady (e : Engine) : Type 0 where
  pub edit : IsPosted IsShort lev e.edit_tree
  pub width : length e.hamming_trees ≡ hamming_bk_trees
  pub hamming :
      (i : ℕ) (ix : Index)
      → get_elem? e.hamming_trees i ≡ some ix
      → IsPosted (λ w. length w ≡ i + min_word_length) mismatches ix
  pub exact : IsExact e.exact
