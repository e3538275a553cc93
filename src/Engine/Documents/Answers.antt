-- ===== src/Engine/Documents/Answers.antt =====
-- `match_doc` of src/core.cpp, from the results to the answer of the document.
use k23_search_engine.Prelude.{
  ℕ, ◌≡◌, refl, sym, ap, ◌∙◌, List, [], ◌∷◌, ◌++◌, Option, none, some, ◌>>=◌, zero, suc, leb, Bool,
  true, false, ◌&&◌, ◌||◌, if◌then◌else◌, count_if, length, get_elem?, Bool-cases, inl, inr, All,
}
use mathlib.Core.Option.{some-injective}
use k23_search_engine.Distances.{edit_buffer_size}
use k23_search_engine.HashTable.{Table}
use k23_search_engine.HashTable.Keys.{Key}
use k23_search_engine.HashTable.Assoc.{assoc, or_else, under}
use k23_search_engine.HashTable.Valid.{IsValid, occupied, assoc_at}
use k23_search_engine.HashTable.Distinct.{Joins, valid-Joins}
use k23_search_engine.HashTable.Iterator.{held}
use k23_search_engine.HashTable.Iterator.Visits.{entries-eq-held}
use k23_search_engine.HashSet.Members.{is_among}
use k23_search_engine.HashSet.Listing.{every}
use k23_search_engine.Engine.{Engine, Query, QueryResult, Document, Finished, deref}
use k23_search_engine.Engine.Keys.{word_key}
use k23_search_engine.Engine.Results.Hits.{IsServed, IsCurrent, words_hit}
use k23_search_engine.Engine.Results.Complete.{is_matched, matched-every}
use k23_search_engine.Engine.Documents.{find_doc, remove_doc, answers, match_doc}
use k23_search_engine.Engine.Documents.Stored.{IsReady}
use k23_search_engine.Engine.Documents.Begin.{IsWord, words_in, keys_of-eq-words_in}
use k23_search_engine.Engine.Documents.Near.{is_match, IsFiled, all_hits, match_words-IsExtended}

occupied_first : {A : Type 0} (a b : Option A) → occupied a ≡ true → occupied (or_else a b) ≡ true
occupied_first none b h = absurd cc
occupied_first (some a) b h = h

occupied_second : {A : Type 0} (a b : Option A) → occupied b ≡ true → occupied (or_else a b) ≡ true
occupied_second none b h = h
occupied_second (some a) b h = refl

answers_nil : (store : List (Option Query)) → answers store [] ≡ some []
unfolding answers
answers_nil store = refl

module _ ⦃ids : Key ℕ⦄ (store : List (Option Query)) where
  -- The result of an id comes from a query of that id.
  abbrev IsOrigin : ℕ → QueryResult → Type 0
  IsOrigin id res = (query : Query) × (deref store res.query ≡ some query) × (query.id ≡ id)

  answers-cons :
      (id : ℕ) (res : QueryResult) (rest : List (ℕ × QueryResult)) (more : List ℕ)
      → IsOrigin id res
      → answers store rest ≡ some more
      → answers store ((id, res) ∷ rest) ≡ some (if res.matched then id ∷ more else more)
  unfolding answers
  answers-cons id res rest more (query, there, same) run = rw (run, ◌>>=◌, there, ◌>>=◌, same) refl

  taken :
      (same matched before : Bool) (id : ℕ) (more : List ℕ) (res : QueryResult) (k : ℕ)
      (o : Option QueryResult)
      → res.matched ≡ matched
      → ids.equal k id ≡ same
      → (same ≡ true → o ≡ none)
      → is_among id more ≡ is_matched o
      → is_among id (if matched then k ∷ more else more)
        ≡ is_matched (or_else (if same then some res else none) o)
  unfolding is_among
  taken true true before id more res k o m e gone rest = rw (e, m) refl
  taken true false before id more res k o m e gone rest = rw m (rest ∙ ap is_matched (gone refl))
  taken false true before id more res k o m e gone rest = rw e rest
  taken false false before id more res k o m e gone rest = rest

  answers_lem :
      (slots : List (Option (ℕ × QueryResult))) (m : ℕ → Option QueryResult)
      → Joins m slots
      → ((i k : ℕ) (res : QueryResult) → get_elem? slots i ≡ some (some (k, res)) → IsOrigin k res)
      → (answer : List ℕ) × (answers store (held slots) ≡ some answer)
        × ((id : ℕ) → is_among id answer ≡ is_matched (assoc id slots))
        × ((id : ℕ) → occupied (m id) ≡ true → assoc id slots ≡ none)
  unfolding held assoc is_among
  answers_lem [] m j origin = ([], answers_nil store, λ id. refl, λ id h. refl)
  answers_lem (none ∷ slots) m j origin =
      answers_lem slots m j (λ i k res h. origin (suc i) k res h)
  answers_lem (some (k, res) ∷ slots) m j origin =
      let (more, run, members, gone) =
        answers_lem slots (λ q. or_else (m q) (under k res q)) j.1
          (λ i k res h. origin (suc i) k res h) in
      (
        if res.matched then k ∷ more else more,
        answers-cons k res (held slots) more (origin zero k res refl) run,
        λ id.
            taken (ids.equal k id) res.matched true id more res k (assoc id slots) refl refl
              (λ same. gone id (occupied_second (m id) (under k res id) (rw same refl)))
              (members id),
        λ id h. elim (Bool-cases (ids.equal k id)) [
          | inl same ↦
              let new : m id ≡ none = ap m (sym ((ids.equal_iff k id).0 same)) ∙ j.0 in
              let clash = sym h ∙ ap occupied new in absurd cc
          | inr other ↦ rw other (gone id (occupied_first (m id) (under k res id) h))
        ],
      )

  -- The answer that is taken from the results of a document.
  answers-IsCurrent :
      (hits : List (ℕ × List ℕ)) (rt : Table ℕ QueryResult)
      → IsCurrent store hits rt
      → (answer : List ℕ) × (answers store (held rt.slots) ≡ some answer)
        × ((id : ℕ) → is_among id answer ≡ is_matched (assoc id rt.slots))
  answers-IsCurrent hits rt current =
      let (answer, run, members, gone) =
        answers_lem rt.slots (λ id. none) (valid-Joins rt (λ id. none) current.valid (λ id. refl))
          (λ i id res h. origin id res (assoc_at rt current.valid id i res h)) in
      (answer, run, members)
    where
      origin : (id : ℕ) (res : QueryResult) → assoc id rt.slots ≡ some res → IsOrigin id res
      origin id res here =
          let (q, query, there, same) = current.only id res here in
          let from = (current.each q query there).entry in
          elim from [
            | inl (absent, nothing) ↦
                let clash = sym here ∙ ap (λ x. assoc x rt.slots) (sym same) ∙ absent in absurd cc
            | inr (res', here', c) ↦
                let one : res' ≡ res =
                  some-injective res' res (sym here' ∙ ap (λ x. assoc x rt.slots) same ∙ here) in
                (query, ap (deref store) (ap (λ r. r.query) (sym one) ∙ c.origin) ∙ there, same)
          ]

-- What the answer to a document says of a query: that it is active and that all its words match a word of
-- the document.
abbrev pub is_answer : List (List ℕ) → Query → Bool
is_answer dws query =
    query.active
    && every (λ w. leb 1 (count_if (is_match query.match_type query.match_dist w) dws))
        (words_in query.unique_words)

module _ ⦃ids : Key ℕ⦄ (buffer : List ℕ) (sort : List ℕ → List ℕ)
    (wide : length buffer ≡ edit_buffer_size)
    (sort_keeps : (id : ℕ) (xs : List ℕ) → is_among id (sort xs) ≡ is_among id xs) (e : Engine)
    (ready : IsReady e) (filed : IsFiled e) (served : IsServed e.store)
    (counters : IsValid e.threshold_counters) where
  -- The engine after the job of a document.
  pub record IsAnswered (node : ℕ) (d : Document) (e' : Engine) : Type 0 where
    pub finished : Finished
    pub state : e' ≡ record e {
      docs = remove_doc node e.docs;
      finished_results = e.finished_results ++ finished ∷ [];
    }
    pub doc_id : finished.doc_id ≡ d.doc_id
    pub answered :
        (q : ℕ) (query : Query)
        → deref e.store q ≡ some query
        → is_among query.id finished.answer ≡ is_answer (words_in d.words) query
    pub only :
        (id : ℕ)
        → is_among id finished.answer ≡ true
        → (q : ℕ) × (query : Query) × (deref e.store q ≡ some query) × (query.id ≡ id)

  no_results-IsCurrent :
      (rt : Table ℕ QueryResult)
      → IsValid rt
      → ((id : ℕ) → assoc id rt.slots ≡ none)
      → IsCurrent e.store [] rt
  unfolding words_hit
  no_results-IsCurrent rt valid empty = record {
    each = λ q query there. record { valid = valid; entry = inl (empty query.id, refl) };
    only = λ id res here. let clash = sym here ∙ empty id in absurd cc;
    valid = valid;
  }

  no_hits :
      (dws : List (List ℕ)) (hits : List (ℕ × List ℕ)) (q : ℕ) (query : Query) (w : List ℕ)
      → is_among w (words_hit q hits) ≡ (is_among w (words_hit q []) || all_hits dws q query w)
      → is_among w (words_hit q hits) ≡ all_hits dws q query w
  unfolding words_hit is_among
  no_hits dws hits q query w h = h

  pub match_doc-IsAnswered :
      (node : ℕ) (d : Document)
      → find_doc node e.docs ≡ some d
      → IsValid d.words
      → All IsWord (words_in d.words)
      → IsValid d.results
      → ((id : ℕ) → assoc id d.results.slots ≡ none)
      → (e' : Engine) × (match_doc buffer sort node e ≡ some e') × IsAnswered node d e'
  unfolding match_doc
  match_doc-IsAnswered node d found valid lengths fresh empty =
      let x =
        match_words-IsExtended buffer sort wide e ready filed served counters (words_in d.words) []
          d.results lengths (no_results-IsCurrent d.results fresh empty) in
      let (answer, run, members) = answers-IsCurrent e.store x.hits' x.rt x.current in
      (
        _,
        rw
            (
              found,
              ◌>>=◌,
              keys_of-eq-words_in d.words valid,
              ◌>>=◌,
              x.returns,
              ◌>>=◌,
              entries-eq-held x.rt x.current.valid,
              ◌>>=◌,
              run,
              ◌>>=◌,
            )
            refl,
        record {
          finished = record { doc_id = d.doc_id; answer = sort answer };
          state = refl;
          doc_id = refl;
          answered = λ q query there.
              sort_keeps query.id answer
              ∙ members query.id
              ∙ matched-every q query x.hits' _ x.rt (served.positive q query there)
                  (filed.words_valid q query there) (x.current.each q query there)
                  (λ w. no_hits (words_in d.words) x.hits' q query w (x.extends q query w there));
          only = λ id h. by_result x.current id (sym (sort_keeps id answer ∙ members id) ∙ h);
        },
      )
    where
      by_result :
          {hits : List (ℕ × List ℕ)} {rt : Table ℕ QueryResult}
          → IsCurrent e.store hits rt
          → (id : ℕ) → is_matched (assoc id rt.slots) ≡ true
          → (q : ℕ) × (query : Query) × (deref e.store q ≡ some query) × (query.id ≡ id)
      by_result {rt = rt} current id h = go (assoc id rt.slots) refl h
        where
          go :
              (o : Option QueryResult)
              → assoc id rt.slots ≡ o
              → is_matched o ≡ true
              → (q : ℕ) × (query : Query) × (deref e.store q ≡ some query) × (query.id ≡ id)
          go none here h = absurd cc
          go (some res) here h = current.only id res here
