-- ===== src/Engine/Documents/Begin.antt =====
-- `StartQuery` of src/core.cpp, from the jobs on.
use k23_search_engine.Prelude.{
  ℕ, ◌+◌, ◌-◌, ◌≤◌, ◌<◌, ◌≡◌, refl, ◌∙◌, List, [], ◌∷◌, ◌++◌, Option, none, some, ◌>>=◌, arith, ltb,
  ◌==◌, true, false, length, map, set, get_elem?, lt_of_get_elem?, ap, All, All-append,
  if◌then◌else◌,
}
use k23_search_engine.HashTable.{Table}
use k23_search_engine.HashTable.Keys.{Key}
use k23_search_engine.HashTable.Assoc.{assoc, or_else, under}
use k23_search_engine.HashTable.Valid.{IsValid}
use k23_search_engine.HashTable.Place.{inserted_at}
use k23_search_engine.HashTable.Insert.{insert-IsInserted}
use k23_search_engine.HashTable.Iterator.{held}
use k23_search_engine.HashTable.Iterator.Visits.{entries-eq-held}
use k23_search_engine.HashSet.{HashSet}
use k23_search_engine.Engine.{
  Engine, MatchType, exact_match, hamming_dist, edit_dist, unknown, success, Job, add_to_tree_job,
  add_to_hash_table_job, edit_ref, hamming_ref, min_word_length, hamming_bk_trees, Counters, Query,
}
use k23_search_engine.Engine.Keys.{word_key}
use k23_search_engine.Engine.Start.{
  keys_of, hamming_slot, hamming_jobs, query_jobs, counters_after, register, start_known,
}
use k23_search_engine.Engine.Documents.Stored.{
  IsReady, Fits, Question, in_edit, in_hamming, in_exact, stored,
}
use k23_search_engine.Engine.Documents.Count.{IsInt, or_zeros, uncount_query-counters_after}

-- A word that has a Hamming tree.
abbrev pub IsWord : List ℕ → Type 0
IsWord w = (min_word_length ≤ length w) × (length w < min_word_length + hamming_bk_trees)

-- The job for a word of a query.
abbrev pub job_for : MatchType → ℕ → List ℕ → Job
job_for exact_match q str = add_to_hash_table_job q str
job_for hamming_dist q str = add_to_tree_job q str (hamming_ref (length str - min_word_length))
job_for edit_dist q str = add_to_tree_job q str edit_ref
job_for (unknown n) q str = add_to_hash_table_job q str

-- The types of `MatchType`.
abbrev pub IsKnown : MatchType → Type 0
IsKnown exact_match = Unit
IsKnown hamming_dist = Unit
IsKnown edit_dist = Unit
IsKnown (unknown n) = ⊥

-- The words of a set, in the order of its slots.
abbrev pub words_in : HashSet (List ℕ) → List (List ℕ)
words_in s = map (λ e. e.0) (held s.slots)

pub keys_of-eq-words_in : (s : HashSet (List ℕ)) → IsValid s → keys_of s ≡ some (words_in s)
unfolding keys_of
keys_of-eq-words_in s valid = rw (entries-eq-held s valid, ◌>>=◌) refl

pub hamming_slot_lem : (w : List ℕ) → IsWord w → hamming_slot w ≡ some (length w - min_word_length)
unfolding hamming_slot
hamming_slot_lem w (long, short) =
    let a : ltb (length w) min_word_length ≡ false = ground (arith, long) in
    let b : ltb (length w - min_word_length) hamming_bk_trees ≡ true = ground (arith, short) in
    rw (a, b) refl

hamming_jobs-eq-map :
    (q : ℕ) (strs : List (List ℕ))
    → All IsWord strs
    → hamming_jobs q strs ≡ some (map (job_for hamming_dist q) strs)
unfolding hamming_jobs
hamming_jobs-eq-map q [] h = refl
hamming_jobs-eq-map q (w ∷ strs) h =
    rw (hamming_slot_lem w h.0, ◌>>=◌, hamming_jobs-eq-map q strs h.1, ◌>>=◌) refl

-- The jobs of a query are one for each word.
query_jobs-eq-map :
    (t : MatchType) (q : ℕ) (strs : List (List ℕ))
    → IsKnown t
    → All IsWord strs
    → query_jobs t q strs ≡ some (map (job_for t q) strs)
unfolding query_jobs
query_jobs-eq-map exact_match q strs known h = refl
query_jobs-eq-map hamming_dist q strs known h = hamming_jobs-eq-map q strs h
query_jobs-eq-map edit_dist q strs known h = refl
query_jobs-eq-map (unknown n) q strs known h = absurd known

job_for-Fits : (t : MatchType) (q : ℕ) (w : List ℕ) → IsWord w → Fits (job_for t q w)
job_for-Fits exact_match q w h = tt
job_for-Fits hamming_dist q w (long, short) = (omega (arith, long, short), omega (arith, long))
job_for-Fits edit_dist q w (long, short) = omega (arith, short)
job_for-Fits (unknown n) q w h = tt

jobs-Fits :
    (t : MatchType) (q : ℕ) (strs : List (List ℕ))
    → All IsWord strs
    → All Fits (map (job_for t q) strs)
jobs-Fits t q [] h = tt
jobs-Fits t q (w ∷ strs) h = (job_for-Fits t q w h.0, jobs-Fits t q strs h.1)

stored_same :
    (e : Engine) (jobs : List Job) (c : Table ℕ Counters) (queries : Table ℕ ℕ)
    (store : List (Option Query)) (s : Question)
    → stored s (record e { jobs = jobs; threshold_counters = c; queries = queries; store = store })
      ≡ stored s e
unfolding stored
stored_same e jobs c queries store (in_edit g) = refl
stored_same e jobs c queries store (in_hamming i g) = refl
stored_same e jobs c queries store (in_exact w f) = refl

module _ ⦃ids : Key ℕ⦄ where
  inside_of :
      (t : Table ℕ ℕ) (i : ℕ) (entry : ℕ × ℕ)
      → IsValid t
      → get_elem? t.slots i ≡ some (some entry)
      → (i == t.capacity) ≡ false
  inside_of t i entry valid read =
      let lt = lt_of_get_elem? t.slots i (some entry) read in
      let width = valid.width in ground (arith, lt, width)

  -- The engine after `StartQuery`.
  pub record IsStarted (t : MatchType) (d id q : ℕ) (words : HashSet (List ℕ)) (e e' : Engine)
      : Type 0 where
    pub ready : IsReady e'
    pub fits : All Fits e'.jobs
    pub jobs : e'.jobs ≡ e.jobs ++ map (job_for t q) (words_in words)
    pub unchanged : (s : Question) → stored s e' ≡ stored s e
    pub queries_valid : IsValid e'.queries
    pub queries :
        (k : ℕ) → assoc k e'.queries.slots ≡ or_else (assoc k e.queries.slots) (under id q k)
    pub counted : counters_after t d e.threshold_counters ≡ some e'.threshold_counters
    pub store : assoc id e.queries.slots ≡ none → e'.store ≡ e.store
    pub docs : e'.docs ≡ e.docs
    pub results : e'.finished_results ≡ e.finished_results

  -- Where the indices are as their operations need them and the tables are valid, and for a query of a
  -- known type with words of 4 to 30 bytes: `StartQuery` returns EC_SUCCESS without a fault, from its jobs
  -- on. One job for each word of the set is submitted behind the others, all of them fit their index,
  -- and the table of queries has the query under its id, unless it had one.
  pub start_known-IsStarted :
      (t : MatchType) (d id q : ℕ) (words : HashSet (List ℕ)) (e : Engine)
      → IsKnown t
      → IsValid words
      → All IsWord (words_in words)
      → IsReady e
      → All Fits e.jobs
      → IsValid e.queries
      → IsValid e.threshold_counters
      → IsInt (or_zeros (assoc d e.threshold_counters.slots))
      → (e' : Engine) × (start_known t d id q words e ≡ some (e', success))
        × IsStarted t d id q words e e'
  unfolding start_known register
  start_known-IsStarted t d id q words e known valid lengths ready fits queries counters int =
      let (c, count, undone) = uncount_query-counters_after t d e.threshold_counters counters int in
      let (r, insert, ins) = insert-IsInserted e.queries id q queries in
      (
        record e {
          jobs = e.jobs ++ map (job_for t q) (words_in words);
          threshold_counters = c;
          queries = r.0;
          store = if r.1 == r.0.capacity then set e.store q none else e.store;
        },
        rw
            (
              keys_of-eq-words_in words valid,
              ◌>>=◌,
              query_jobs-eq-map t q (words_in words) known lengths,
              ◌>>=◌,
              count,
              ◌>>=◌,
              insert,
              ◌>>=◌,
            )
            refl,
        record {
          ready = record {
            edit = ready.edit;
            width = ready.width;
            hamming = ready.hamming;
            exact = ready.exact;
          };
          fits = All-append Fits e.jobs _ fits (jobs-Fits t q (words_in words) lengths);
          jobs = refl;
          unchanged = stored_same e _ c r.0 _;
          queries_valid = ins.valid;
          queries = ins.maps;
          counted = count;
          store = λ absent.
              ap (λ b. if b then set e.store q none else e.store)
                (inside_of r.0 r.1 (id, q) ins.valid (ins.points ∙ ap (inserted_at id q) absent));
          docs = refl;
          results = refl;
        },
      )
