-- ===== src/Engine/Tests.antt =====
-- Examples for src/core.cpp, with ids as their own hashes.
mod Session
use mathlib.Core.Option.{some-injective}
use k23_search_engine.Prelude.{
  ℕ, ◌+◌, ◌≡◌, refl, sym, subst, ◌∙◌, List, [], ◌∷◌, none, some, ◌>>=◌, ◌==◌, ==_iff, leb, true,
  arith, inl, length, length-replicate, replicate, set, map, total, All,
}
use k23_search_engine.Hash.{djb2}
use k23_search_engine.HashTable.Valid.{IsValid}
use k23_search_engine.HashTable.Insert.{insert-IsInserted}
use k23_search_engine.HashTable.Iterator.{held}
use k23_search_engine.HashSet.{HashSet}
use k23_search_engine.Engine.Start.{counters_after, start_known}
use k23_search_engine.Engine.Keys.{word_key}
use k23_search_engine.Engine.Documents.{wait_all_finish}
use k23_search_engine.Engine.Documents.Stored.{IsReady, Fits, Question, stored, adds}
use k23_search_engine.Engine.Documents.Drain.{IsDrained, wait_all_finish-IsDrained}
use k23_search_engine.Engine.Documents.Count.{
  IsInt, or_zeros, IsUndone, uncount_query-counters_after,
}
use k23_search_engine.Engine.Documents.Initial.{initial-IsReady}
use k23_search_engine.Engine.Documents.Begin.{
  IsWord, words_in, job_for, IsStarted, start_known-IsStarted,
}
use k23_search_engine.Engine.Documents.Indexed.{wait_all_finish-start_known}
use k23_search_engine.HashTable
use k23_search_engine.HashTable.{Table}
use k23_search_engine.HashTable.Keys.{Key}
use k23_search_engine.HashTable.Assoc.{assoc}
use k23_search_engine.HashTable.Entries.{new-IsValid, new_empty}
use k23_search_engine.HashSet
use k23_search_engine.Distances.{edit_buffer_size, hamming_distance}
use k23_search_engine.BkTree.Words.{hamming_distance-IsMetric}
use k23_search_engine.Engine.{
  Query, QueryResult, Index, Engine, Counters, hamming_dist, exact_match, empty_index, deref,
  initial, success, add_to_tree_job, add_to_hash_table_job, edit_ref,
}
use k23_search_engine.Engine.Add.{add_to_tree}
use k23_search_engine.Engine.Add.Posts.{empty_index-IsPosted}
use k23_search_engine.Engine.Add.Grow.{IsGrown}
use k23_search_engine.Engine.Add.Step.{add_to_tree-IsGrown}
use k23_search_engine.Engine.Results.{add_query_to_doc_results}
use k23_search_engine.Engine.Results.Collect.{needed, distinct}
use k23_search_engine.Engine.Results.Matched.{
  IsSeen, OthersKept, add_query_to_doc_results-IsSeen, add_each, later, add_each-matched,
}

instance id_key : Key ℕ
id_key = record { hash = λ n. n; equal = λ a b. a == b; equal_iff = ==_iff }

-- "lorem" and "larem"
abbrev lorem : List ℕ
lorem = 108 ∷ 111 ∷ 114 ∷ 101 ∷ 109 ∷ []

abbrev larem : List ℕ
larem = 108 ∷ 97 ∷ 114 ∷ 101 ∷ 109 ∷ []

abbrev two_words : Query
two_words = record {
  id = 7;
  active = true;
  match_type = exact_match;
  match_dist = 0;
  unique_words = record { slots = some (lorem, 0) ∷ some (larem, 0) ∷ []; capacity = 2; size = 2 };
}

two_words-needed : needed two_words ≡ 2
unfolding HashSet.get_size
two_words-needed = refl

no_results-IsSeen : IsSeen 0 two_words [] (HashTable.new 1)
no_results-IsSeen = record { valid = new-IsValid 1; entry = inl (new_empty 1 7, refl) }

add_query_to_doc_results-IsSeen_example :
    (rt' : Table ℕ QueryResult) × (add_query_to_doc_results
        (some two_words ∷ [])
        0
        lorem
        (HashTable.new 1)
      ≡ some rt')
    × IsSeen 0 two_words (lorem ∷ []) rt'
    × OthersKept 7 (HashTable.new 1) rt'
unfolding deref
add_query_to_doc_results-IsSeen_example =
    add_query_to_doc_results-IsSeen (some two_words ∷ []) 0 two_words [] lorem (HashTable.new 1)
      refl (omega (arith, two_words-needed)) no_results-IsSeen

add_each-matched_example :
    (rt' : Table ℕ QueryResult) × (add_each
        (some two_words ∷ [])
        0
        (lorem ∷ larem ∷ [])
        (HashTable.new 1)
      ≡ some rt')
    × (res : QueryResult) × (assoc 7 rt'.slots ≡ some res)
    × (res.matched ≡ leb (needed two_words) (distinct (larem ∷ lorem ∷ [])))
unfolding deref later
add_each-matched_example =
    add_each-matched (some two_words ∷ []) 0 two_words lorem (larem ∷ []) (HashTable.new 1) refl
      (omega (arith, two_words-needed)) (new-IsValid 1) (new_empty 1 7)

add_to_tree-IsGrown_example :
    (ix' : Index) × (add_to_tree hamming_distance 3 lorem empty_index ≡ some ix')
    × IsGrown (hamming_distance-IsMetric 5) 3 lorem empty_index ix'
add_to_tree-IsGrown_example =
    add_to_tree-IsGrown (hamming_distance-IsMetric 5) 3 lorem empty_index refl
      (empty_index-IsPosted _ _)

-- The set of one word.
abbrev one_word : HashSet (List ℕ)
one_word = record { slots = set (replicate 53 none) 16 (some (lorem, 0)); capacity = 53; size = 1 }

one_word_run : HashTable.insert (HashTable.new 1) lorem 0 ≡ some (one_word, 16)
unfolding HashTable.insert HashTable.new djb2
one_word_run = refl

one_word-IsValid : IsValid one_word
one_word-IsValid =
    let (r, run, ins) = insert-IsInserted (HashTable.new 1) lorem 0 (new-IsValid 1) in
    subst (λ o. IsValid o.0) (some-injective r (one_word, 16) (sym run ∙ one_word_run)) ins.valid

one_word-words : words_in one_word ≡ lorem ∷ []
unfolding held
one_word-words = refl

-- What the local array of `edit_distance` may hold.
abbrev local_array : List ℕ
local_array = replicate edit_buffer_size 0

local_array-width : length local_array ≡ edit_buffer_size
local_array-width = length-replicate {A = ℕ} edit_buffer_size 0

zeros-IsInt : (d : ℕ) (capacity : ℕ) → IsInt (or_zeros (assoc d (HashTable.new capacity).slots))
zeros-IsInt d capacity =
    subst (λ o. IsInt (or_zeros o)) (sym (new_empty capacity d))
      (record { hamming_lt = omega arith; edit_lt = omega arith })

-- Two jobs wait, and the second is run first.
abbrev waiting : Engine
waiting = record initial {
  jobs = add_to_tree_job 0 lorem edit_ref ∷ add_to_hash_table_job 0 larem ∷ [];
}

waiting-IsReady : IsReady waiting
waiting-IsReady = record {
  edit = initial-IsReady.edit;
  width = initial-IsReady.width;
  hamming = initial-IsReady.hamming;
  exact = initial-IsReady.exact;
}

wait_all_finish-IsDrained_example :
    IsDrained waiting (wait_all_finish local_array (λ xs. xs) (1 ∷ []) waiting)
wait_all_finish-IsDrained_example =
    wait_all_finish-IsDrained local_array (λ xs. xs) local_array-width (1 ∷ []) waiting
      waiting-IsReady (omega arith, (tt, tt))

initial-counters : IsInt (or_zeros (assoc 2 initial.threshold_counters.slots))
unfolding initial
initial-counters = zeros-IsInt 2 32

initial_tables : IsValid initial.queries × IsValid initial.threshold_counters × (initial.jobs ≡ [])
unfolding initial
initial_tables = (new-IsValid 4096, new-IsValid 32, refl)

one_word-lengths : All IsWord (words_in one_word)
one_word-lengths = rw one_word-words ((omega arith, omega arith), tt)

wait_all_finish-start_known_example :
    (e' : Engine) × ((start_known hamming_dist 2 7 0 one_word initial >>= λ r.
    wait_all_finish local_array (λ xs. xs) (5 ∷ []) r.0)
      ≡ some e')
    × IsReady e'
    × (length e'.jobs ≡ 0)
    × ((s : Question)
        → stored s e'
          ≡ stored s initial + total (adds s) (map (job_for hamming_dist 0) (words_in one_word)))
wait_all_finish-start_known_example =
    wait_all_finish-start_known local_array (λ xs. xs) (5 ∷ []) hamming_dist 2 7 0 one_word initial
      local_array-width tt one_word-IsValid one_word-lengths initial-IsReady initial_tables.2
      initial_tables.0 initial_tables.1 initial-counters
