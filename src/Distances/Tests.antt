-- ===== src/Distances/Tests.antt =====
-- Runs of src/lib/distances.cpp.
use k23_search_engine.Prelude.{
  ℕ, ◌≤◌, ◌≡◌, ◌↔◌, refl, List, [], ◌∷◌, none, some, arith, replicate, store, ◌+◌,
}
use k23_search_engine.Distances.{
  edit_distance, hamming_result, hamming_distance, edit_buffer_size, skip_prefix, skip_suffix,
  edit_table, init_edit_buffer, fill_rows, fill_row,
}
use k23_search_engine.Distances.Edit.{IsLeast, edit_distance-IsLeast, edit_distance_metric}
use k23_search_engine.Distances.Hamming.{hamming_result-eq-mismatches}

abbrev buffer : List ℕ
buffer = replicate edit_buffer_size 99

abbrev sunday : List ℕ
sunday = 115 ∷ 117 ∷ 110 ∷ 100 ∷ 97 ∷ 121 ∷ []

abbrev saturday : List ℕ
saturday = 115 ∷ 97 ∷ 116 ∷ 117 ∷ 114 ∷ 100 ∷ 97 ∷ 121 ∷ []

abbrev monday : List ℕ
monday = 109 ∷ 111 ∷ 110 ∷ 100 ∷ 97 ∷ 121 ∷ []

abbrev apart : ℕ
apart = 3

edit_distance_run : edit_distance buffer sunday saturday ≡ some 3
unfolding edit_distance skip_prefix skip_suffix edit_table init_edit_buffer store fill_rows fill_row
edit_distance_run = refl

hamming_distance_run : hamming_distance sunday monday ≡ some 2
unfolding hamming_distance
hamming_distance_run = refl

hamming_distance_throws : hamming_result sunday saturday ≡ some none
unfolding hamming_result
hamming_distance_throws = refl

edit_distance-IsLeast_example :
    (d : ℕ) × (edit_distance buffer sunday saturday ≡ some d) × IsLeast sunday saturday d
edit_distance-IsLeast_example =
    edit_distance-IsLeast buffer sunday saturday refl (omega arith) (omega arith)

edit_distance_metric_example :
    ((apart ≡ 0) ↔ (sunday ≡ saturday))
    × (edit_distance buffer saturday sunday ≡ some apart)
    × (2 ≤ apart + 5)
unfolding edit_distance skip_prefix skip_suffix edit_table init_edit_buffer store fill_rows fill_row
edit_distance_metric_example =
    edit_distance_metric buffer buffer buffer sunday saturday monday refl refl refl (omega arith)
      (omega arith) (omega arith) refl refl refl

hamming_result-eq-mismatches_example : hamming_result sunday saturday ≡ some none
unfolding hamming_result
hamming_result-eq-mismatches_example = hamming_result-eq-mismatches sunday saturday
