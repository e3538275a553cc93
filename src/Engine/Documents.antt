-- ===== src/Engine/Documents.antt =====
-- The jobs of src/core.cpp, `MatchDocument` and `GetNextAvailRes`. `buffer` is what the local array of
-- `edit_distance` holds, and `sort` is `qsort` of the C library under `comp`.
pub mod Exact
pub mod Stored
pub mod Perform
pub mod Drain
pub mod Count
pub mod Initial
pub mod Begin
pub mod Indexed
pub mod Tried
pub mod Near
pub mod Jobs
pub mod Grown
pub mod Filed
pub mod Serving
pub mod Shown
pub mod Delivered
pub mod Down
pub mod Ended
pub mod Reached
pub mod Answers
use k23_search_engine.Prelude.{
  ℕ, zero, suc, ◌+◌, ◌-◌, ◌/◌, ◌%◌, ◌^◌, List, [], ◌∷◌, ◌++◌, Option, none, some, ◌>>=◌, ◌==◌, true,
  false, if◌then◌else◌, get_elem?, set, length,
}
use k23_search_engine.Distances.{edit_distance, hamming_distance}
use k23_search_engine.HashTable
use k23_search_engine.HashTable.{Table}
use k23_search_engine.HashTable.Keys.{Key}
use k23_search_engine.HashTable.Iterator
use k23_search_engine.Engine.{
  Engine, Query, QueryResult, Document, Job, add_to_tree_job, add_to_hash_table_job, match_doc_job,
  edit_ref, hamming_ref, ErrorCode, success, fail, exact_match, hamming_dist, edit_dist, unknown,
  MatchType, Counters, deref, decrement,
}
use k23_search_engine.Engine.Add.{add_to_tree, add_to_hash_table}
use k23_search_engine.Engine.Start.{words_of, keys_of, hamming_slot}
use k23_search_engine.Engine.Results.{match_queries, match_exact}

-- The node of `docs` that a job was given.
unfoldable pub find_doc : ℕ → List Document → Option Document
find_doc node [] = none
find_doc node (d ∷ ds) = if d.node == node then some d else find_doc node ds

-- `doc_res->lock()->remove(res)`
unfoldable pub remove_doc : ℕ → List Document → List Document
remove_doc node [] = []
remove_doc node (d ∷ ds) = if d.node == node then ds else d ∷ remove_doc node ds

-- The ids of the matched queries, in the order of the results.
unfoldable pub answers : List (Option Query) → List (ℕ × QueryResult) → Option (List ℕ)
answers store [] = some []
answers store ((id, res) ∷ rest) = do
  more ← answers store rest
  query ← deref store res.query
  some (if res.matched then query.id ∷ more else more)

-- The job at a position, and the others.
unfoldable pub take_job : ℕ → List Job → Option (Job × List Job)
take_job i [] = none
take_job zero (j ∷ js) = some (j, js)
take_job (suc i) (j ∷ js) = take_job i js >>= λ r. some (r.0, j ∷ r.1)

-- `tC->edit--` or `tC->hamming--`
unfoldable pub count_down : MatchType → Counters → Counters
count_down exact_match c = c
count_down hamming_dist c = record c { hamming = decrement c.hamming }
count_down edit_dist c = record c { edit = decrement c.edit }
count_down (unknown n) c = c

module _ ⦃ids : Key ℕ⦄ where
  unfoldable pub uncount_query : MatchType → ℕ → Table ℕ Counters → Option (Table ℕ Counters)
  unfolding count_down
  uncount_query match_type match_dist counters = do
    tc ← HashTable.lookup counters match_dist
    let changed = Iterator.entry_at counters tc >>= λ c.
        Iterator.set_value counters tc (count_down match_type c.1)
    elim match_type [ exact_match ↦ some counters | unknown n ↦ some counters | known ↦ changed ]

module _ ⦃ids : Key ℕ⦄ (buffer : List ℕ) (sort : List ℕ → List ℕ) where
  -- The three jobs of a word, in the order in which they are submitted.
  unfoldable pub match_word : Engine → List ℕ → Table ℕ QueryResult → Option (Table ℕ QueryResult)
  match_word e w rt = do
    i ← hamming_slot w
    h ← get_elem? e.hamming_trees i
    rt1 ←
        match_queries e.store (edit_distance buffer) e.threshold_counters e.edit_tree w edit_dist rt
    rt2 ← match_queries e.store hamming_distance e.threshold_counters h w hamming_dist rt1
    match_exact e.store e.exact w rt2

  unfoldable pub match_words :
      Engine → List (List ℕ) → Table ℕ QueryResult → Option (Table ℕ QueryResult)
  unfolding match_word
  match_words e [] rt = some rt
  match_words e (w ∷ ws) rt = match_word e w rt >>= match_words e ws

  unfoldable pub match_doc : ℕ → Engine → Option Engine
  unfolding match_words find_doc remove_doc answers
  match_doc node e = do
    d ← find_doc node e.docs
    ws ← keys_of d.words
    results ← match_words e ws d.results
    found ← Iterator.entries results
    answer ← answers e.store found
    some (record e {
      docs = remove_doc node e.docs;
      finished_results =
          e.finished_results ++ record { doc_id = d.doc_id; answer = sort answer } ∷ [];
    })

  unfoldable pub perform : Job → Engine → Option Engine
  unfolding match_doc
  perform (add_to_tree_job q str edit_ref) e = do
    t ← add_to_tree (edit_distance buffer) q str e.edit_tree
    some (record e { edit_tree = t })
  perform (add_to_tree_job q str (hamming_ref i)) e = do
    h ← get_elem? e.hamming_trees i
    t ← add_to_tree hamming_distance q str h
    some (record e { hamming_trees = set e.hamming_trees i t })
  perform (add_to_hash_table_job q str) e = do
    t ← add_to_hash_table q str e.exact
    some (record e { exact = t })
  perform (match_doc_job node) e = match_doc node e

  -- A worker runs the job at a position.
  unfoldable pub run_job : ℕ → Engine → Option Engine
  unfolding perform take_job
  run_job i e = do (j, rest) ← take_job i e.jobs; perform j (record e { jobs = rest })

  -- The workers run all jobs; `picks` says which is the next, and the first is if it says nothing.
  unfoldable pub drain : ℕ → List ℕ → Engine → Option Engine
  unfolding run_job
  drain zero picks e = some e
  drain (suc n) [] e = run_job 0 e >>= drain n []
  drain (suc n) (i ∷ picks) e = run_job (i % length e.jobs) e >>= drain n picks

  unfoldable pub wait_all_finish : List ℕ → Engine → Option Engine
  unfolding drain
  wait_all_finish picks e = drain (length e.jobs) picks e

  unfoldable pub end_query : List ℕ → ℕ → Engine → Option (Engine × ErrorCode)
  unfolding wait_all_finish uncount_query
  end_query picks query_id e = do
    done ←
        wait_all_finish picks
          (record e { active_queries = (e.active_queries + 2 ^ 64 - 1) % 2 ^ 64 })
    i ← HashTable.lookup done.queries query_id
    elim (i == done.queries.capacity) [
      | true ↦ some (done, fail)
      | false ↦ do
        (id, q) ← Iterator.entry_at done.queries i
        query ← deref done.store q
        counters ← uncount_query query.match_type query.match_dist done.threshold_counters
        some (
          record done {
            threshold_counters = counters;
            store = set done.store q (some (record query { active = false }));
          },
          success,
        )
    ]

  unfoldable pub match_document : List ℕ → ℕ → List ℕ → Engine → Option (Engine × ErrorCode)
  unfolding wait_all_finish
  match_document picks doc_id doc_str e = do
    ready ←
        if e.query_has_started
        then (wait_all_finish picks e >>= λ d. some (record d { query_has_started = false }))
        else some e
    words ← words_of 10 doc_str
    let document : Document = record {
      node = ready.next_node;
      doc_id = doc_id;
      results = HashTable.new (ready.active_queries / 2);
      words = words;
    }
    some (
      record ready {
        next_node = ready.next_node + 1;
        docs = ready.docs ++ document ∷ [];
        jobs = ready.jobs ++ match_doc_job ready.next_node ∷ [];
      },
      success,
    )

-- With no finished document, `peek` waits: nothing ever closes `finished_results`.
unfoldable pub get_next_avail_res : Engine → Option (Engine × ErrorCode × ℕ × List ℕ)
get_next_avail_res e = elim e.finished_results [
  | [] ↦ none
  | d ∷ ds ↦ some (record e { finished_results = ds }, success, d.doc_id, d.answer)
]
