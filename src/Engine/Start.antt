-- ===== src/Engine/Start.antt =====
-- `StartQuery` of src/core.cpp.
use k23_search_engine.Prelude.{
  ℕ, ◌+◌, ◌-◌, ◌%◌, ◌^◌, List, [], ◌∷◌, ◌++◌, Option, none, some, ◌>>=◌, ◌==◌, ltb, true, false,
  if◌then◌else◌, map, length, set,
}
use k23_search_engine.HashTable
use k23_search_engine.HashTable.{Table}
use k23_search_engine.HashTable.Keys.{Key}
use k23_search_engine.HashTable.Iterator
use k23_search_engine.HashSet
use k23_search_engine.HashSet.{HashSet}
use k23_search_engine.Parser
use k23_search_engine.Engine.{
  Engine, Query, MatchType, exact_match, hamming_dist, edit_dist, unknown, ErrorCode, success, fail,
  Counters, Job, add_to_tree_job, add_to_hash_table_job, edit_ref, hamming_ref, min_word_length,
  hamming_bk_trees, increment,
}
use k23_search_engine.Engine.Keys.{word_key}

-- The calls of `insert` that `parse_string` makes.
unfoldable pub insert_words : List (List ℕ) → HashSet (List ℕ) → Option (HashSet (List ℕ))
insert_words [] s = some s
insert_words (w ∷ ws) s = HashSet.insert_key s w >>= λ r. insert_words ws r.0

-- A set of the words of a text, made with a capacity.
unfoldable pub words_of : ℕ → List ℕ → Option (HashSet (List ℕ))
unfolding insert_words
words_of capacity text = do
  ws ← Parser.parse_string 32 text
  insert_words ws (HashSet.with_capacity capacity)

-- The keys of a set, in the order of `for (auto &str : set)`.
unfoldable pub keys_of : HashSet (List ℕ) → Option (List (List ℕ))
keys_of s = Iterator.entries s >>= λ es. some (map (λ e. e.0) es)

-- `hamming_bk_trees()[str.size() - MIN_WORD_LENGTH]`; a word of another length is outside the array.
unfoldable pub hamming_slot : List ℕ → Option ℕ
hamming_slot str =
    if ltb (length str) min_word_length
    then none
    else if ltb (length str - min_word_length) hamming_bk_trees
    then some (length str - min_word_length)
    else none

-- The jobs that are submitted for the words of a query.
unfoldable pub hamming_jobs : ℕ → List (List ℕ) → Option (List Job)
unfolding hamming_slot
hamming_jobs q [] = some []
hamming_jobs q (str ∷ strs) = do
  i ← hamming_slot str
  rest ← hamming_jobs q strs
  some (add_to_tree_job q str (hamming_ref i) ∷ rest)

unfoldable pub query_jobs : MatchType → ℕ → List (List ℕ) → Option (List Job)
unfolding hamming_jobs
query_jobs exact_match q strs = some (map (add_to_hash_table_job q) strs)
query_jobs hamming_dist q strs = hamming_jobs q strs
query_jobs edit_dist q strs = some (map (λ str. add_to_tree_job q str edit_ref) strs)
query_jobs (unknown n) q strs = some []

-- What a new query adds to the counters of its threshold.
unfoldable pub count_up : MatchType → Counters → Counters
count_up exact_match c = c
count_up hamming_dist c = record c { hamming = increment c.hamming }
count_up edit_dist c = record c { edit = increment c.edit }
count_up (unknown n) c = c

module _ ⦃ids : Key ℕ⦄ where
  -- `thresholdCounters` after a query of a distance is started.
  unfoldable pub count_query : MatchType → ℕ → Table ℕ Counters → Option (Table ℕ Counters)
  unfolding count_up
  count_query match_type match_dist counters = do
    iter ← HashTable.lookup counters match_dist
    elim (iter == counters.capacity) [
      | true ↦ do
        (counters', at) ←
            HashTable.insert counters match_dist
              (count_up match_type (record { hamming = 0; edit = 0 }))
        some counters'
      | false ↦ do
        (key, c) ← Iterator.entry_at counters iter
        Iterator.set_value counters iter (count_up match_type c)
    ]

  unfoldable pub counters_after : MatchType → ℕ → Table ℕ Counters → Option (Table ℕ Counters)
  unfolding count_query
  counters_after exact_match match_dist counters = some counters
  counters_after hamming_dist match_dist counters = count_query hamming_dist match_dist counters
  counters_after edit_dist match_dist counters = count_query edit_dist match_dist counters
  counters_after (unknown n) match_dist counters = some counters

  -- `queries.insert(...)`: a second query of an id is deleted.
  unfoldable pub register : ℕ → ℕ → Engine → Option Engine
  register query_id q e = do
    (queries, at) ← HashTable.insert e.queries query_id q
    some (record e {
      queries = queries;
      store = if at == queries.capacity then set e.store q none else e.store;
    })

  -- From the jobs on, for the new query at position `q` of `store`.
  unfoldable pub start_known :
      MatchType → ℕ → ℕ → ℕ → HashSet (List ℕ) → Engine → Option (Engine × ErrorCode)
  unfolding query_jobs keys_of counters_after register
  start_known match_type match_dist query_id q words e = do
    strs ← keys_of words
    new_jobs ← query_jobs match_type q strs
    counters ← counters_after match_type match_dist e.threshold_counters
    e' ← register query_id q (record e { jobs = e.jobs ++ new_jobs; threshold_counters = counters })
    some (e', success)

  unfoldable pub start_query : ℕ → List ℕ → MatchType → ℕ → Engine → Option (Engine × ErrorCode)
  unfolding words_of start_known
  start_query query_id query_str match_type match_dist e = do
    words ← words_of 5 query_str
    let query : Query = record {
      id = query_id;
      active = true;
      match_type = match_type;
      match_dist = match_dist;
      unique_words = words;
    }
    let begun : Engine = record e {
      active_queries = (e.active_queries + 1) % 2 ^ 64;
      query_has_started = true;
    }
    let stored : Engine = record begun { store = e.store ++ some query ∷ [] }
    elim match_type [
      | unknown n ↦ some (begun, fail)
      | known ↦ start_known known match_dist query_id (length e.store) words stored
    ]
