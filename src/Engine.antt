-- ===== src/Engine.antt =====
-- src/core.cpp: the state of the engine. A `Query *` is its position in `store`, where a deleted query
-- is `none`; an entry of a BK-tree names its vector of queries by its position in `payloads`. An `int`
-- counter is its bits, a number below 2 ^ 32. `jobs` are the jobs that were submitted and have not
-- run; a job runs at once, as the locks of the indices make the jobs of `StartQuery` do. `none` is a
-- fault, or a call that waits for ever.
pub mod Keys
mod Tests
pub mod Add
pub mod Start
pub mod Results
pub mod Documents
use k23_search_engine.Prelude.{
  ℕ, ◌+◌, ◌-◌, ◌%◌, ◌^◌, List, [], ◌∷◌, Option, none, some, ◌>>=◌, Bool, get_elem?, replicate,
}
use k23_search_engine.Vector.{Vector}
use k23_search_engine.HashTable
use k23_search_engine.HashTable.{Table}
use k23_search_engine.HashSet.{HashSet}
use k23_search_engine.BkTree
use k23_search_engine.BkTree.{Tree}

abbrev pub min_word_length : ℕ
min_word_length = 4

abbrev pub hamming_bk_trees : ℕ
hamming_bk_trees = 31 - min_word_length

-- `MatchType`; any other number can be cast to it.
pub data MatchType : Type 0 where
  exact_match : MatchType
  hamming_dist : MatchType
  edit_dist : MatchType
  unknown : ℕ → MatchType

pub data ErrorCode : Type 0 where
  success : ErrorCode
  no_avail_res : ErrorCode
  fail : ErrorCode

pub record Query : Type 0 where
  pub id : ℕ
  pub active : Bool
  pub match_type : MatchType
  pub match_dist : ℕ
  pub unique_words : HashSet (List ℕ)

-- `qs::entry<qvec>` of include/qs/entry.hpp
pub record Entry : Type 0 where
  pub word : List ℕ
  pub payload : ℕ

-- A `ts_bk_tree` with the vectors of its entries.
pub record Index : Type 0 where
  pub tree : Tree Entry
  pub payloads : List (Vector ℕ)

pub record Counters : Type 0 where
  pub hamming : ℕ
  pub edit : ℕ

pub record QueryResult : Type 0 where
  pub query : ℕ
  pub matched : Bool
  pub matched_words : HashSet (List ℕ)

-- A document that is not finished, in its node of `docs`.
pub record Document : Type 0 where
  pub node : ℕ
  pub doc_id : ℕ
  pub results : Table ℕ QueryResult
  pub words : HashSet (List ℕ)

-- A document in `finished_results`.
pub record Finished : Type 0 where
  pub doc_id : ℕ
  pub answer : List ℕ

pub data TreeRef : Type 0 where
  edit_ref : TreeRef
  hamming_ref : ℕ → TreeRef

pub data Job : Type 0 where
  add_to_tree_job : ℕ → List ℕ → TreeRef → Job
  add_to_hash_table_job : ℕ → List ℕ → Job
  match_doc_job : ℕ → Job

pub record Engine : Type 0 where
  pub store : List (Option Query)
  pub queries : Table ℕ ℕ
  pub exact : Table (List ℕ) (Vector ℕ)
  pub edit_tree : Index
  pub hamming_trees : List Index
  pub threshold_counters : Table ℕ Counters
  pub active_queries : ℕ
  pub query_has_started : Bool
  pub jobs : List Job
  pub next_node : ℕ
  pub docs : List Document
  pub finished_results : List Finished

abbrev pub int_size : ℕ
int_size = 2 ^ 32

-- `x++` and `x--` of an `int`
abbrev pub increment : ℕ → ℕ
increment x = (x + 1) % int_size

abbrev pub decrement : ℕ → ℕ
decrement x = (x + int_size - 1) % int_size

-- `*q`
unfoldable pub deref : List (Option Query) → ℕ → Option Query
deref store q = get_elem? store q >>= λ cell. cell

abbrev pub empty_index : Index
empty_index = record { tree = record { root = none; depth = 0 }; payloads = [] }

-- The globals before the first call.
unfoldable pub initial : Engine
initial = record {
  store = [];
  queries = HashTable.new 4096;
  exact = HashTable.new 4096;
  edit_tree = empty_index;
  hamming_trees = replicate hamming_bk_trees empty_index;
  threshold_counters = HashTable.new 32;
  active_queries = 0;
  query_has_started = Bool.false;
  jobs = [];
  next_node = 0;
  docs = [];
  finished_results = [];
}
