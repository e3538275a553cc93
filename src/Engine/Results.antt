-- ===== src/Engine/Results.antt =====
-- `add_query_to_doc_results`, `match_queries` and `match_exact` of src/core.cpp.
pub mod Collect
pub mod Matched
pub mod Hits
pub mod Posted
pub mod Words
pub mod Thresholds
pub mod Listed
pub mod Complete
use k23_search_engine.Prelude.{
  ℕ, List, [], ◌∷◌, Option, some, ◌>>=◌, ◌==◌, ◌&&◌, Bool, true, false, if◌then◌else◌, get_elem?,
}
use k23_search_engine.Vector.{Vector}
use k23_search_engine.HashTable
use k23_search_engine.HashTable.{Table}
use k23_search_engine.HashTable.Keys.{Key}
use k23_search_engine.HashTable.Iterator
use k23_search_engine.HashSet
use k23_search_engine.HashSet.{HashSet}
use k23_search_engine.BkTree
use k23_search_engine.Engine.{
  Query, QueryResult, Entry, Index, Counters, MatchType, exact_match, hamming_dist, edit_dist,
  unknown, deref,
}
use k23_search_engine.Engine.Keys.{word_key}
use k23_search_engine.Engine.Add.{word_of}

-- From the last `if` on: a query with all its words is matched.
unfoldable pub settle : Query → QueryResult → QueryResult
settle query res =
    if HashSet.get_size res.matched_words == HashSet.get_size query.unique_words
    then record res { matched = true; matched_words = HashTable.clear res.matched_words }
    else res

-- `res.matched_words.insert(*word)`
unfoldable pub with_word : List ℕ → QueryResult → Option QueryResult
with_word word res =
    HashSet.insert_key res.matched_words word >>= λ r. some (record res { matched_words = r.0 })

-- `QueryResult{}` for the query at `q`
unfoldable pub new_result : ℕ → QueryResult
new_result q = record { query = q; matched = false; matched_words = HashSet.with_capacity 10 }

module _ ⦃ids : Key ℕ⦄ where
  -- `settle` at an iterator.
  unfoldable pub settle_at : Query → ℕ → Table ℕ QueryResult → Option (Table ℕ QueryResult)
  unfolding settle
  settle_at query iter rt = do
    (id, res) ← Iterator.entry_at rt iter
    Iterator.set_value rt iter (settle query res)

  -- The branch of a query without a result.
  unfoldable pub first_word :
      ℕ → Query → List ℕ → Table ℕ QueryResult → Option (Table ℕ QueryResult)
  unfolding with_word new_result settle_at
  first_word q query word rt = do
    res ← with_word word (new_result q)
    (rt', at) ← HashTable.insert rt query.id res
    iter ← HashTable.lookup rt' query.id
    settle_at query iter rt'

  -- The branch of a query that has a result, at its iterator.
  unfoldable pub next_word : ℕ → Query → List ℕ → Table ℕ QueryResult → Option (Table ℕ QueryResult)
  unfolding with_word settle_at
  next_word iter query word rt = do
    (id, res) ← Iterator.entry_at rt iter
    elim res.matched [
      | true ↦ some rt
      | false ↦ do
        res' ← with_word word res
        rt' ← Iterator.set_value rt iter res'
        settle_at query iter rt'
    ]

-- Whether the counter of a threshold lets its queries be skipped.
abbrev pub is_skipped : MatchType → Counters → Bool
is_skipped exact_match c = false
is_skipped hamming_dist c = c.hamming == 0
is_skipped edit_dist c = c.edit == 0
is_skipped (unknown n) c = false

module _ ⦃ids : Key ℕ⦄ (store : List (Option Query)) where
  unfoldable pub add_query_to_doc_results :
      ℕ → List ℕ → Table ℕ QueryResult → Option (Table ℕ QueryResult)
  unfolding first_word next_word
  add_query_to_doc_results q word rt = do
    query ← deref store q
    iter ← HashTable.lookup rt query.id
    elim (iter == rt.capacity) [
      | true ↦ first_word q query word rt
      | false ↦ next_word iter query word rt
    ]

  -- The loop over the queries of a word that matched, at a threshold.
  unfoldable pub add_matched :
      ℕ → List ℕ → List ℕ → Table ℕ QueryResult → Option (Table ℕ QueryResult)
  unfolding add_query_to_doc_results
  add_matched threshold word [] rt = some rt
  add_matched threshold word (mq ∷ mqs) rt = do
    query ← deref store mq
    rt' ←
        if query.active && threshold == query.match_dist
        then add_query_to_doc_results mq word rt
        else some rt
    add_matched threshold word mqs rt'

  -- The loop over the words that matched.
  unfoldable pub add_words :
      ℕ → List (Vector ℕ) → List Entry → Table ℕ QueryResult → Option (Table ℕ QueryResult)
  unfolding add_matched
  add_words threshold payloads [] rt = some rt
  add_words threshold payloads (mw ∷ mws) rt = do
    payload ← get_elem? payloads mw.payload
    rt' ← add_matched threshold mw.word payload.items rt
    add_words threshold payloads mws rt'

  -- The loop over the thresholds.
  unfoldable pub match_thresholds :
      (List ℕ → List ℕ → Option ℕ)
      → Index
      → List ℕ
      → MatchType
      → List (ℕ × Counters)
      → Table ℕ QueryResult
      → Option (Table ℕ QueryResult)
  unfolding add_words
  match_thresholds dist index w match_type [] rt = some rt
  match_thresholds dist index w match_type ((threshold, c) ∷ rest) rt = do
    rt' ←
        if is_skipped match_type c
        then some rt
        else BkTree.match word_of dist threshold w index.tree >>= λ words.
            add_words threshold index.payloads words rt
    match_thresholds dist index w match_type rest rt'

  unfoldable pub match_queries :
      (List ℕ → List ℕ → Option ℕ)
      → Table ℕ Counters
      → Index
      → List ℕ
      → MatchType
      → Table ℕ QueryResult
      → Option (Table ℕ QueryResult)
  unfolding match_thresholds
  match_queries dist counters index w match_type rt = do
    thresholds ← Iterator.entries counters
    match_thresholds dist index w match_type thresholds rt

  -- The loop over the queries of an exact match.
  unfoldable pub add_exact : List ℕ → List ℕ → Table ℕ QueryResult → Option (Table ℕ QueryResult)
  unfolding add_query_to_doc_results
  add_exact word [] rt = some rt
  add_exact word (q ∷ qs) rt = do
    query ← deref store q
    rt' ← if query.active then add_query_to_doc_results q word rt else some rt
    add_exact word qs rt'

  unfoldable pub match_exact :
      Table (List ℕ) (Vector ℕ) → List ℕ → Table ℕ QueryResult → Option (Table ℕ QueryResult)
  unfolding add_exact
  match_exact ht w rt = do
    match ← HashTable.lookup ht w
    elim (match == ht.capacity) [
      | true ↦ some rt
      | false ↦ do (key, qs) ← Iterator.entry_at ht match; add_exact key qs.items rt
    ]
