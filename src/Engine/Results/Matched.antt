-- ===== src/Engine/Results/Matched.antt =====
-- `add_query_to_doc_results` of src/core.cpp, on the table of the results of a document.
use k23_search_engine.Prelude.{
  ℕ, ◌<◌, ◌≡◌, ◌≢◌, ◌⊎◌, refl, ap, ◌∙◌, List, [], ◌∷◌, Option, none, some, ◌>>=◌, leb, true, false,
  Bool-cases, inl, inr, get_elem?,
}
use k23_search_engine.HashTable.{Table}
use k23_search_engine.HashTable.Keys.{Key}
use k23_search_engine.HashTable.Assoc.{assoc, or_else, under_other, or_else-none}
use k23_search_engine.HashTable.Valid.{IsValid}
use k23_search_engine.HashTable.Insert.{insert-IsInserted}
use k23_search_engine.HashTable.Iterator.Assign.{IsAssigned, set_value-IsAssigned, entry_at-held}
use k23_search_engine.HashTable.Iterator.Lookup.{IsFound, lookup-IsFound, lookup_absent}
use k23_search_engine.Engine.{Query, QueryResult, deref}
use k23_search_engine.Engine.Results.{
  settle, settle_at, new_result, first_word, next_word, add_query_to_doc_results,
}
use k23_search_engine.Engine.Results.Collect.{
  distinct, needed, IsCollected, new_result_open, new_result-IsCollected, matched-IsCollected,
  with_word-IsCollected,
}

module _ ⦃ids : Key ℕ⦄ where
  -- The results hold what the query has collected from the words of a list; the last one is the first.
  pub record IsSeen (q : ℕ) (query : Query) (seen : List (List ℕ)) (rt : Table ℕ QueryResult)
      : Type 0 where
    pub valid : IsValid rt
    pub entry :
        ((assoc query.id rt.slots ≡ none) × (seen ≡ []))
        ⊎ ((res : QueryResult) × (assoc query.id rt.slots ≡ some res)
            × IsCollected q query seen res)

  -- The results of the queries of other ids are as they were.
  abbrev pub OthersKept : ℕ → Table ℕ QueryResult → Table ℕ QueryResult → Type 0
  OthersKept id rt rt' =
      (other : ℕ) → ids.equal id other ≡ false → assoc other rt'.slots ≡ assoc other rt.slots

  pub same_id : (id : ℕ) → ids.equal id id ≡ true
  same_id id = (ids.equal_iff id id).1 refl

  settle_at_lem :
      (query : Query) (i : ℕ) (res : QueryResult) (rt : Table ℕ QueryResult)
      → IsValid rt
      → get_elem? rt.slots i ≡ some (some (query.id, res))
      → (rt' : Table ℕ QueryResult) × (settle_at query i rt ≡ some rt')
        × IsAssigned rt i query.id (settle query res) rt'
  unfolding settle_at
  settle_at_lem query i res rt valid held =
      let (rt', run, a) = set_value-IsAssigned rt i query.id (settle query res) res valid held in
      (rt', rw (entry_at-held rt i query.id res held, ◌>>=◌) run, a)

  -- The table after an assignment of a collected result.
  assigned-IsSeen :
      (q : ℕ) (query : Query) (seen : List (List ℕ)) (i : ℕ) (res : QueryResult)
      (rt rt' : Table ℕ QueryResult)
      → IsCollected q query seen res
      → IsAssigned rt i query.id res rt'
      → IsSeen q query seen rt' × OthersKept query.id rt rt'
  assigned-IsSeen q query seen i res rt rt' c a = (
    record { valid = a.valid; entry = inr (res, a.maps query.id ∙ rw (same_id query.id) refl, c) },
    λ other ne. a.maps other ∙ rw ne refl,
  )

  first_word_lem :
      (q : ℕ) (query : Query) (word : List ℕ) (rt : Table ℕ QueryResult)
      → 0 < needed query
      → IsValid rt
      → assoc query.id rt.slots ≡ none
      → (rt' : Table ℕ QueryResult) × (first_word q query word rt ≡ some rt')
        × IsSeen q query (word ∷ []) rt'
        × OthersKept query.id rt rt'
  unfolding first_word
  first_word_lem q query word rt positive valid absent =
      let (res, collect, c) =
        with_word-IsCollected q query [] word (new_result q) (new_result_open q)
          (new_result-IsCollected query q positive) in
      let (r, insert, ins) = insert-IsInserted rt query.id res valid in
      let there : assoc query.id r.0.slots ≡ some res =
        ins.maps query.id ∙ rw (absent, same_id query.id) refl in
      let f = lookup-IsFound r.0 query.id ins.valid res there in
      let (rt', settled, a) = settle_at_lem query f.i res r.0 ins.valid f.held in
      let (seen, kept) = assigned-IsSeen q query (word ∷ []) f.i (settle query res) r.0 rt' c a in
      (
        rt',
        rw (collect, ◌>>=◌, insert, ◌>>=◌, f.run, ◌>>=◌) settled,
        seen,
        λ other ne.
            kept other ne
            ∙ ins.maps other
            ∙ ap (or_else (assoc other rt.slots)) (under_other query.id res other ne)
            ∙ or_else-none (assoc other rt.slots),
      )

  next_word_lem :
      (q : ℕ) (query : Query) (seen : List (List ℕ)) (word : List ℕ) (res : QueryResult)
      (rt : Table ℕ QueryResult) (valid : IsValid rt) (f : IsFound rt query.id valid res)
      → assoc query.id rt.slots ≡ some res
      → IsCollected q query seen res
      → (rt' : Table ℕ QueryResult) × (next_word f.i query word rt ≡ some rt')
        × IsSeen q query (word ∷ seen) rt'
        × OthersKept query.id rt rt'
  unfolding next_word
  next_word_lem q query seen word res rt valid f here c = elim (Bool-cases res.matched) [
    | inl matched ↦ (
      rt,
      rw (f.read, ◌>>=◌, matched) refl,
      record {
        valid = valid;
        entry = inr (res, here, matched-IsCollected q query seen word res matched c);
      },
      λ other ne. refl,
    )
    | inr unmatched ↦
        let (res', collect, c') = with_word-IsCollected q query seen word res unmatched c in
        let (rt1, write, a) = set_value-IsAssigned rt f.i query.id res' res valid f.held in
        let (rt2, settled, b) = settle_at_lem query f.i res' rt1 a.valid a.held in
        let (seen', kept) =
          assigned-IsSeen q query (word ∷ seen) f.i (settle query res') rt1 rt2 c' b in
        (
          rt2,
          rw (f.read, ◌>>=◌, unmatched, collect, ◌>>=◌, write, ◌>>=◌) settled,
          seen',
          λ other ne. kept other ne ∙ a.maps other ∙ rw ne refl,
        )
  ]

  -- For a query that is not deleted and has a word, on valid results: one more word is added without a
  -- fault, the results of the other queries stay as they are, and the result of the query is what it
  -- collects from the words so far: it is matched if and only if it has at least as many different
  -- words as the query.
  pub add_query_to_doc_results-IsSeen :
      (store : List (Option Query)) (q : ℕ) (query : Query) (seen : List (List ℕ)) (word : List ℕ)
      (rt : Table ℕ QueryResult)
      → deref store q ≡ some query
      → 0 < needed query
      → IsSeen q query seen rt
      → (rt' : Table ℕ QueryResult) × (add_query_to_doc_results store q word rt ≡ some rt')
        × IsSeen q query (word ∷ seen) rt'
        × OthersKept query.id rt rt'
  unfolding add_query_to_doc_results
  add_query_to_doc_results-IsSeen store q query seen word rt there positive s = elim s.entry [
    | inl (absent, nothing) ↦
        let (miss, end) = lookup_absent rt query.id s.valid absent in
        let (rt', run, seen', kept) = first_word_lem q query word rt positive s.valid absent in
        (rt', rw (there, ◌>>=◌, miss, ◌>>=◌, end) run, rw nothing seen', kept)
    | inr (res, here, c) ↦
        let f = lookup-IsFound rt query.id s.valid res here in
        let (rt', run, seen', kept) = next_word_lem q query seen word res rt s.valid f here c in
        (rt', rw (there, ◌>>=◌, f.run, ◌>>=◌, f.inner) run, seen', kept)
  ]

  -- The words added one by one for one query.
  unfoldable pub add_each :
      List (Option Query) → ℕ → List (List ℕ) → Table ℕ QueryResult → Option (Table ℕ QueryResult)
  add_each store q [] rt = some rt
  add_each store q (w ∷ ws) rt = add_query_to_doc_results store q w rt >>= add_each store q ws

  unfoldable pub later : List (List ℕ) → List (List ℕ) → List (List ℕ)
  later [] seen = seen
  later (w ∷ ws) seen = later ws (w ∷ seen)

  add_each-IsSeen :
      (store : List (Option Query)) (q : ℕ) (query : Query) (words seen : List (List ℕ))
      (rt : Table ℕ QueryResult)
      → deref store q ≡ some query
      → 0 < needed query
      → IsSeen q query seen rt
      → (rt' : Table ℕ QueryResult) × (add_each store q words rt ≡ some rt')
        × IsSeen q query (later words seen) rt'
  unfolding add_each later
  add_each-IsSeen store q query [] seen rt there positive s = (rt, refl, s)
  add_each-IsSeen store q query (w ∷ ws) seen rt there positive s =
      let (rt1, run, s1, kept) =
        add_query_to_doc_results-IsSeen store q query seen w rt there positive s in
      let (rt2, rest, s2) = add_each-IsSeen store q query ws (w ∷ seen) rt1 there positive s1 in
      (rt2, rw (run, ◌>>=◌) rest, s2)

  later-nonempty :
      (words : List (List ℕ)) (w : List ℕ) (seen : List (List ℕ)) → later words (w ∷ seen) ≢ []
  unfolding later
  later-nonempty [] w seen = λ e. cc
  later-nonempty (v ∷ words) w seen = later-nonempty words v (w ∷ seen)

  entry_of :
      (q : ℕ) (query : Query) (seen : List (List ℕ)) (rt : Table ℕ QueryResult)
      → seen ≢ []
      → IsSeen q query seen rt
      → (res : QueryResult) × (assoc query.id rt.slots ≡ some res) × IsCollected q query seen res
  entry_of q query seen rt some_words s = elim s.entry [
    | inl (absent, nothing) ↦ absurd (some_words nothing)
    | inr found ↦ found
  ]

  -- For a query that is not deleted and has a word, and results without one for its id: any words, at
  -- least one, are added without a fault, and then the result of the query says that it is matched if
  -- and only if the words have at least as many different ones as the query.
  pub add_each-matched :
      (store : List (Option Query)) (q : ℕ) (query : Query) (word : List ℕ) (words : List (List ℕ))
      (rt : Table ℕ QueryResult)
      → deref store q ≡ some query
      → 0 < needed query
      → IsValid rt
      → assoc query.id rt.slots ≡ none
      → (rt' : Table ℕ QueryResult) × (add_each store q (word ∷ words) rt ≡ some rt')
        × (res : QueryResult) × (assoc query.id rt'.slots ≡ some res)
        × (res.matched ≡ leb (needed query) (distinct (later words (word ∷ []))))
  unfolding add_each
  add_each-matched store q query word words rt there positive valid absent =
      let begun : IsSeen q query [] rt = record { valid = valid; entry = inl (absent, refl) } in
      let (rt1, run, s1, kept) =
        add_query_to_doc_results-IsSeen store q query [] word rt there positive begun in
      let (rt2, rest, s2) = add_each-IsSeen store q query words (word ∷ []) rt1 there positive s1 in
      let (res, here, c) =
        entry_of q query (later words (word ∷ [])) rt2 (later-nonempty words word []) s2 in
      (rt2, rw (run, ◌>>=◌) rest, res, here, c.flag)
