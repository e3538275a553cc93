-- ===== src/Engine/Documents/Delivered.antt =====
-- `MatchDocument` of src/core.cpp, from the engine between two calls to the answer.
use native.Mathlib.Nat.{mod-lt}
use k23_search_engine.Prelude.{
  ℕ, ◌+◌, ◌/◌, ◌%◌, ◌<◌, ◌≡◌, refl, sym, ap, ap₂, subst, ◌∙◌, List, [], ◌∷◌, ◌++◌, Option, none,
  some, ◌>>=◌, arith, Bool, true, false, Bool-cases, ==_iff, inl, inr, All, length,
}
use k23_search_engine.Distances.{edit_buffer_size}
use k23_search_engine.HashTable
use k23_search_engine.HashTable.{Table}
use k23_search_engine.HashTable.Keys.{Key}
use k23_search_engine.HashTable.Entries.{new-IsValid, new_empty}
use k23_search_engine.HashSet.{HashSet}
use k23_search_engine.HashSet.Members.{is_among}
use k23_search_engine.Engine.{Engine, Query, Document, Finished, Job, match_doc_job, success, deref}
use k23_search_engine.Engine.Keys.{word_key}
use k23_search_engine.Engine.Start.{words_of}
use k23_search_engine.Engine.Documents.{
  find_doc, remove_doc, match_doc, perform, run_job, drain, wait_all_finish, match_document,
  take_job,
}
use k23_search_engine.Engine.Documents.Stored.{IsReady}
use k23_search_engine.Engine.Documents.Begin.{IsWord, words_in}
use k23_search_engine.Engine.Documents.Near.{IsFiled}
use k23_search_engine.Engine.Documents.Answers.{is_answer, match_doc-IsAnswered}
use k23_search_engine.Engine.Documents.Serving.{IsServing, words_of-IsValid}

-- The document that `MatchDocument` makes.
abbrev pub document_for : ℕ → HashSet (List ℕ) → Engine → Document
document_for doc_id words e = record {
  node = e.next_node;
  doc_id = doc_id;
  results = HashTable.new (e.active_queries / 2);
  words = words;
}

-- The engine with other jobs and documents.
abbrev pub beside : Engine → List Job → List Document → ℕ → Bool → List Finished → Engine
beside e jobs docs node started finished = record e {
  jobs = jobs;
  docs = docs;
  next_node = node;
  query_has_started = started;
  finished_results = finished;
}

-- The engine, where no job waits and no document is unfinished.
abbrev pub cleared : Engine → Engine
cleared e = record e { jobs = []; docs = [] }

module _ ⦃ids : Key ℕ⦄ where
  -- The answer to a document was appended.
  pub record IsDelivered (doc_id : ℕ) (words : HashSet (List ℕ)) (e e' : Engine) : Type 0 where
    pub serving : IsServing e'
    pub store : e'.store ≡ e.store
    pub queries : e'.queries ≡ e.queries
    pub counters : e'.threshold_counters ≡ e.threshold_counters
    pub finished : Finished
    pub appended : e'.finished_results ≡ e.finished_results ++ finished ∷ []
    pub names : finished.doc_id ≡ doc_id
    pub answered :
        (q : ℕ) (query : Query)
        → deref e.store q ≡ some query
        → is_among query.id finished.answer ≡ is_answer (words_in words) query
    pub only :
        (id : ℕ)
        → is_among id finished.answer ≡ true
        → (q : ℕ) × (query : Query) × (deref e.store q ≡ some query) × (query.id ≡ id)

  beside-IsReady :
      (e : Engine) (jobs : List Job) (docs : List Document) (node : ℕ) (started : Bool)
      (finished : List Finished)
      → IsReady e
      → IsReady (beside e jobs docs node started finished)
  beside-IsReady e jobs docs node started finished r = record {
    edit = r.edit;
    width = r.width;
    hamming = r.hamming;
    exact = r.exact;
  }

  beside-IsFiled :
      (e : Engine) (jobs : List Job) (docs : List Document) (node : ℕ) (started : Bool)
      (finished : List Finished)
      → IsFiled e
      → IsFiled (beside e jobs docs node started finished)
  beside-IsFiled e jobs docs node started finished f = record {
    edit = f.edit;
    hamming = f.hamming;
    exact = f.exact;
    edit_alive = f.edit_alive;
    hamming_alive = f.hamming_alive;
    exact_alive = f.exact_alive;
    edit_counted = f.edit_counted;
    hamming_counted = f.hamming_counted;
    words_valid = f.words_valid;
  }

  beside-IsServing :
      (e : Engine) (node : ℕ) (started : Bool) (finished : List Finished)
      → IsServing e
      → IsServing (beside e [] [] node started finished)
  beside-IsServing e node started finished s = record {
    ready = beside-IsReady e [] [] node started finished s.ready;
    filed = beside-IsFiled e [] [] node started finished s.filed;
    served = s.served;
    counters = s.counters;
    counts = s.counts;
    queries = s.queries;
    registered = s.registered;
    idle = refl;
    no_docs = refl;
  }

  module _ (buffer : List ℕ) (sort : List ℕ → List ℕ) where
    some_of : {A : Type 0} (o : Option A) → (o >>= some) ≡ o
    some_of none = refl
    some_of (some a) = refl

    last_job :
        (j : Job) (e : Engine) (picks : List ℕ)
        → wait_all_finish buffer sort picks (record e { jobs = j ∷ [] })
          ≡ perform buffer sort j (record e { jobs = [] })
    unfolding wait_all_finish drain run_job take_job
    last_job j e [] = some_of (perform buffer sort j (record e { jobs = [] }))
    last_job j e (i ∷ picks) =
        let lt : i % 1 < 1 = mod-lt i (omega arith) in
        let first : i % 1 ≡ 0 = omega (arith, lt) in
        rw (first, take_job, ◌>>=◌) (some_of (perform buffer sort j (record e { jobs = [] })))

    match_document-cleared :
        (picks : List ℕ) (doc_id : ℕ) (str : List ℕ) (e : Engine) (words : HashSet (List ℕ))
        → words_of 10 str ≡ some words
        → match_document buffer sort picks doc_id str (cleared e)
          ≡ some (
            beside e
                (match_doc_job e.next_node ∷ [])
                (document_for doc_id words e ∷ [])
                (e.next_node + 1)
                false
                e.finished_results,
            success,
          )
    unfolding match_document wait_all_finish drain
    match_document-cleared picks doc_id str e words made = elim (Bool-cases e.query_has_started) [
      | inl started ↦ rw (started, ◌>>=◌, made, ◌>>=◌) refl
      | inr begun ↦ rw (begun, ◌>>=◌, made, ◌>>=◌) refl
    ]

    find_it :
        (d : Document) → (find_doc d.node (d ∷ []) ≡ some d) × (remove_doc d.node (d ∷ []) ≡ [])
    unfolding find_doc remove_doc
    find_it d = let here = (==_iff d.node d.node).1 refl in (rw here refl, rw here refl)

    job_of :
        (node : ℕ) (m : Engine)
        → perform buffer sort (match_doc_job node) m ≡ match_doc buffer sort node m
    unfolding perform match_doc
    job_of node m = refl

    -- What is delivered for a document.
    abbrev IsAnswering : List ℕ → List ℕ → ℕ → List ℕ → HashSet (List ℕ) → Engine → Type 0
    IsAnswering picks picks' doc_id str words e =
        (e' : Engine) × ((match_document buffer sort picks doc_id str e >>= λ r.
        wait_all_finish buffer sort picks' r.0)
          ≡ some e')
        × IsDelivered doc_id words e e'

    delivered_cleared :
        (picks picks' : List ℕ) (doc_id : ℕ) (str : List ℕ) (words : HashSet (List ℕ)) (e : Engine)
        → length buffer ≡ edit_buffer_size
        → ((id : ℕ) (xs : List ℕ) → is_among id (sort xs) ≡ is_among id xs)
        → words_of 10 str ≡ some words
        → All IsWord (words_in words)
        → IsServing e
        → IsAnswering picks picks' doc_id str words (cleared e)
    delivered_cleared picks picks' doc_id str words e wide sort_keeps made lengths s =
        let d = document_for doc_id words e in
        let m = beside e [] (d ∷ []) (e.next_node + 1) false e.finished_results in
        let (found, removed) = find_it d in
        let (e', run, a) =
          match_doc-IsAnswered buffer sort wide sort_keeps m
            (beside-IsReady e [] (d ∷ []) (e.next_node + 1) false e.finished_results s.ready)
            (beside-IsFiled e [] (d ∷ []) (e.next_node + 1) false e.finished_results s.filed)
            s.served s.counters e.next_node d found (words_of-IsValid 10 str words made) lengths
            (new-IsValid (e.active_queries / 2)) (new_empty (e.active_queries / 2)) in
        let state =
          a.state
          ∙ ap
              (λ ds. beside e [] ds (e.next_node + 1) false (e.finished_results ++ a.finished ∷ []))
              removed in
        (
          e',
          rw
              (
                match_document-cleared picks doc_id str e words made,
                ◌>>=◌,
                last_job (match_doc_job e.next_node) m picks',
              )
              (job_of e.next_node m ∙ run),
          record {
            serving = subst IsServing (sym state) (
                beside-IsServing e (e.next_node + 1) false (e.finished_results ++ a.finished ∷ [])
                  s);
            store = ap (λ x. x.store) state;
            queries = ap (λ x. x.queries) state;
            counters = ap (λ x. x.threshold_counters) state;
            finished = a.finished;
            appended = ap (λ x. x.finished_results) state;
            names = a.doc_id;
            answered = a.answered;
            only = a.only;
          },
        )

    -- `MatchDocument` on an engine that is serving, for a text whose words have 4 to 30 bytes, where `sort`
    -- keeps the ids: with the workers awaited there is no fault, and one answer with the id of the
    -- document is appended. It has the ids of exactly those queries that are active and each of whose
    -- words matches a word of the document: is equal to it, has its length and differs from it in at
    -- most the query's distance of bytes, or is within that edit distance. The engine is serving again.
    pub match_document-IsDelivered :
        (picks picks' : List ℕ) (doc_id : ℕ) (str : List ℕ) (words : HashSet (List ℕ)) (e : Engine)
        → length buffer ≡ edit_buffer_size
        → ((id : ℕ) (xs : List ℕ) → is_among id (sort xs) ≡ is_among id xs)
        → words_of 10 str ≡ some words
        → All IsWord (words_in words)
        → IsServing e
        → (e' : Engine) × ((match_document buffer sort picks doc_id str e >>= λ r.
              wait_all_finish buffer sort picks' r.0)
            ≡ some e')
          × IsDelivered doc_id words e e'
    match_document-IsDelivered picks picks' doc_id str words e wide sort_keeps made lengths s =
        let path : cleared e ≡ e =
          sym (ap₂ (λ js ds. record e { jobs = js; docs = ds }) s.idle s.no_docs) in
        subst (IsAnswering picks picks' doc_id str words) path
          (delivered_cleared picks picks' doc_id str words e wide sort_keeps made lengths s)
