-- ===== src/Engine/Documents/Initial.antt =====
-- The globals of src/core.cpp before the first call.
use k23_search_engine.Prelude.{
  ◌+◌, ◌≡◌, sym, subst, ◌∙◌, length, get_elem?-replicate, length-replicate,
}
use k23_search_engine.Distances.Hamming.{mismatches}
use k23_search_engine.HashTable.Entries.{new-IsValid, new_empty}
use k23_search_engine.Engine.{initial, empty_index, hamming_bk_trees, min_word_length}
use k23_search_engine.Engine.Keys.{word_key}
use k23_search_engine.Engine.Add.Posts.{IsPosted, empty_index-IsPosted}
use k23_search_engine.Engine.Documents.Stored.{IsReady}

pub initial-IsReady : IsReady initial
unfolding initial
initial-IsReady = record {
  edit = empty_index-IsPosted _ _;
  width = length-replicate hamming_bk_trees empty_index;
  hamming = λ i ix read.
      subst (IsPosted (λ w. length w ≡ i + min_word_length) mismatches)
        (get_elem?-replicate hamming_bk_trees i empty_index ix read) (empty_index-IsPosted _ _);
  exact = record {
    valid = new-IsValid 4096;
    roomy = λ w v h. let clash = sym (new_empty 4096 w) ∙ h in absurd cc;
  };
}
