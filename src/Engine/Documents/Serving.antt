-- ===== src/Engine/Documents/Serving.antt =====
-- The engine of src/core.cpp between two calls, when no job waits, and `StartQuery`.
use mathlib.Core.Option.{some-injective}
use k23_search_engine.Prelude.{
  ◌≤◌, count_if, count_if-append, bit, ◌&&◌, Option, Bool, ℕ, ◌+◌, ◌<◌, ◌%◌, ◌^◌, ◌≡◌, refl, sym,
  ap, subst, ◌∙◌, List, [], ◌∷◌, ◌++◌, none, some, ◌>>=◌, arith, true, false, total, map, length,
  Bool-cases, Option-cases, ==_iff, inl, inr, All, nil_of_length,
}
use k23_search_engine.Distances.{edit_buffer_size}
use k23_search_engine.HashTable.Keys.{Key}
use k23_search_engine.HashTable.Assoc.{assoc, or_else, under}
use k23_search_engine.HashTable.Valid.{IsValid}
use k23_search_engine.HashTable.Insert.{insert-IsInserted}
use k23_search_engine.HashSet.{HashSet, get_size, insert_key, with_capacity}
use k23_search_engine.HashSet.Listing.{count_if_most}
use k23_search_engine.HashSet.Members.{with_capacity-IsValid}
use k23_search_engine.Parser
use k23_search_engine.Engine.{
  int_size, Engine, Query, MatchType, exact_match, hamming_dist, edit_dist, unknown, deref,
}
use k23_search_engine.Engine.Keys.{word_key}
use k23_search_engine.Engine.Start.{insert_words, words_of, start_known, start_query}
use k23_search_engine.Engine.Results.Matched.{same_id}
use k23_search_engine.Engine.Results.Hits.{IsServed}
use k23_search_engine.Engine.Documents.{wait_all_finish}
use k23_search_engine.Engine.Documents.Stored.{
  Question, in_edit, in_hamming, in_exact, stored, adds, Fits, IsReady,
}
use k23_search_engine.Engine.Documents.Begin.{
  IsWord, IsKnown, words_in, job_for, start_known-IsStarted,
}
use k23_search_engine.Engine.Documents.Count.{IsInt, or_zeros}
use k23_search_engine.Engine.Documents.Drain.{wait_all_finish-IsDrained}
use k23_search_engine.Engine.Documents.Near.{IsFiled}
use k23_search_engine.Engine.Documents.Tried.{
  IsUp, IsSmall, counters_after-IsUp, count_of, same_type,
}
use k23_search_engine.Engine.Documents.Grown.{snoc_cases}
use k23_search_engine.Engine.Documents.Filed.{grown-IsFiled}

insert_words-IsValid :
    (ws : List (List ℕ)) (s : HashSet (List ℕ))
    → IsValid s
    → (r : HashSet (List ℕ)) × (insert_words ws s ≡ some r) × IsValid r
unfolding insert_words insert_key
insert_words-IsValid [] s valid = (s, refl, valid)
insert_words-IsValid (w ∷ ws) s valid =
    let (t, run, ins) = insert-IsInserted s w 0 valid in
    let (r, rest, valid') = insert_words-IsValid ws t.0 ins.valid in
    (r, rw (run, ◌>>=◌) rest, valid')

-- The words of a text make a valid set.
pub words_of-IsValid :
    (capacity : ℕ) (text : List ℕ) (words : HashSet (List ℕ))
    → words_of capacity text ≡ some words
    → IsValid words
unfolding words_of insert_words
words_of-IsValid capacity text words run = elim (Option-cases (Parser.parse_string 32 text)) [
  | inl e ↦
      let clash = sym run ∙ ap (λ o. o >>= λ ws. insert_words ws (with_capacity capacity)) e in
      absurd cc
  | inr (ws, e) ↦
      let (r, made, valid) =
        insert_words-IsValid ws (with_capacity capacity) (with_capacity-IsValid capacity) in
      let same =
        sym (ap (λ o. o >>= λ ws. insert_words ws (with_capacity capacity)) e ∙ made) ∙ run in
      subst IsValid (some-injective r words same) valid
]

one_more :
    (p : Option Query → Bool) (store : List (Option Query)) (cell : Option Query)
    → count_if p store + bit (p cell) ≡ count_if p (store ++ cell ∷ [])
one_more p store cell = omega (arith, count_if-append p store (cell ∷ []))

-- The query that `StartQuery` makes.
abbrev pub query_for : ℕ → MatchType → ℕ → HashSet (List ℕ) → Query
query_for id t d words = record {
  id = id;
  active = true;
  match_type = t;
  match_dist = d;
  unique_words = words;
}

-- The engine with a query that has no jobs yet.
abbrev pub with_query : Query → Engine → Engine
with_query x e = record e {
  active_queries = (e.active_queries + 1) % 2 ^ 64;
  query_has_started = true;
  store = e.store ++ some x ∷ [];
}

stored_with : (x : Query) (e : Engine) (s : Question) → stored s (with_query x e) ≡ stored s e
unfolding stored
stored_with x e (in_edit g) = refl
stored_with x e (in_hamming i g) = refl
stored_with x e (in_exact w f) = refl

module _ ⦃ids : Key ℕ⦄ where
  -- An active query of a type and a distance.
  abbrev pub is_live : MatchType → ℕ → Option Query → Bool
  is_live u k none = false
  is_live u k (some x) = x.active && (same_type u x.match_type && ids.equal x.match_dist k)

  -- No job waits and no document is unfinished; the tables are valid, the indices hold the words of the
  -- queries, and each query has an id of its own, under which the table of queries has it.
  pub record IsServing (e : Engine) : Type 0 where
    pub ready : IsReady e
    pub filed : IsFiled e
    pub served : IsServed e.store
    pub counters : IsValid e.threshold_counters
    pub counts :
        (u : MatchType) (k : ℕ)
        → count_of u (or_zeros (assoc k e.threshold_counters.slots))
          ≡ count_if (is_live u k) e.store
    pub queries : IsValid e.queries
    pub registered :
        (q : ℕ) (query : Query)
        → deref e.store q ≡ some query
        → assoc query.id e.queries.slots ≡ some q
    pub idle : e.jobs ≡ []
    pub no_docs : e.docs ≡ []

  -- A counter is at most the number of the queries.
  pub count_most :
      (e : Engine) (u : MatchType) (k : ℕ)
      → IsServing e
      → count_of u (or_zeros (assoc k e.threshold_counters.slots)) ≤ length e.store
  count_most e u k s =
      subst (λ n. n ≤ length e.store) (sym (s.counts u k)) (count_if_most (is_live u k) e.store)

  start_query_known :
      (id : ℕ) (str : List ℕ) (t : MatchType) (d : ℕ) (e : Engine) (words : HashSet (List ℕ))
      → IsKnown t
      → words_of 5 str ≡ some words
      → start_query id str t d e
        ≡ start_known t d id (length e.store) words (with_query (query_for id t d words) e)
  unfolding start_query
  start_query_known id str exact_match d e words known run = rw (run, ◌>>=◌) refl
  start_query_known id str hamming_dist d e words known run = rw (run, ◌>>=◌) refl
  start_query_known id str edit_dist d e words known run = rw (run, ◌>>=◌) refl
  start_query_known id str (unknown n) d e words known run = absurd known

  with_query-IsServed :
      (x : Query) (e : Engine)
      → IsServing e
      → 0 < get_size x.unique_words
      → assoc x.id e.queries.slots ≡ none
      → IsServed (e.store ++ some x ∷ [])
  with_query-IsServed x e s positive absent = record {
    positive = λ q query there. elim (snoc_cases e.store x q query there) [
      | inl (ne, old) ↦ s.served.positive q query old
      | inr (same, is_new) ↦ subst (λ y. 0 < get_size y.unique_words) is_new positive
    ];
    apart = λ p q a b at_p at_q ne. elim (snoc_cases e.store x p a at_p) [
      | inl (ne_p, old_p) ↦ elim (snoc_cases e.store x q b at_q) [
        | inl (ne_q, old_q) ↦ s.served.apart p q a b old_p old_q ne
        | inr (same_q, is_b) ↦ subst (λ y. ids.equal a.id y.id ≡ false) is_b (other_id p a old_p)
      ]
      | inr (same_p, is_a) ↦ elim (snoc_cases e.store x q b at_q) [
        | inl (ne_q, old_q) ↦
            subst (λ y. ids.equal y.id b.id ≡ false) is_a (turned b.id x.id (other_id q b old_q))
        | inr (same_q, is_b) ↦
            let clash =
              sym ne
              ∙ (==_iff p q).1 (
                  sym ((==_iff (length e.store) p).0 same_p)
                  ∙ (==_iff (length e.store) q).0 same_q) in
            absurd cc
      ]
    ];
  }
    where
      other_id : (p : ℕ) (a : Query) → deref e.store p ≡ some a → ids.equal a.id x.id ≡ false
      other_id p a old = elim (Bool-cases (ids.equal a.id x.id)) [
        | inl same ↦
            let there = s.registered p a old in
            let clash =
              sym there
              ∙ ap (λ k. assoc k e.queries.slots) ((ids.equal_iff a.id x.id).0 same)
              ∙ absent in
            absurd cc
        | inr other ↦ other
      ]

      turned : (a b : ℕ) → ids.equal a b ≡ false → ids.equal b a ≡ false
      turned a b h = elim (Bool-cases (ids.equal b a)) [
        | inl same ↦
            let clash = sym h ∙ (ids.equal_iff a b).1 (sym ((ids.equal_iff b a).0 same)) in
            absurd cc
        | inr other ↦ other
      ]

  all_registered :
      (x : Query) (e : Engine)
      → IsServing e
      → assoc x.id e.queries.slots ≡ none
      → (e' : Engine)
      → ((k : ℕ)
          → assoc k e'.queries.slots
            ≡ or_else (assoc k e.queries.slots) (under x.id (length e.store) k))
      → (q : ℕ) (query : Query) → deref (e.store ++ some x ∷ []) q ≡ some query
      → assoc query.id e'.queries.slots ≡ some q
  all_registered x e s absent e' maps q query there = elim (snoc_cases e.store x q query there) [
    | inl (ne, old) ↦
        maps query.id
        ∙ ap (λ o. or_else o (under x.id (length e.store) query.id)) (s.registered q query old)
    | inr (same, is_new) ↦
        ap (λ y. assoc y.id e'.queries.slots) (sym is_new)
        ∙ maps x.id
        ∙ rw (absent, same_id x.id) (ap some ((==_iff (length e.store) q).0 same))
  ]

  -- The engine after a query was started and its jobs have run.
  pub record IsJoined (x : Query) (e e' : Engine) : Type 0 where
    pub serving : IsServing e'
    pub store : e'.store ≡ e.store ++ some x ∷ []
    pub queries :
        (k : ℕ)
        → assoc k e'.queries.slots
          ≡ or_else (assoc k e.queries.slots) (under x.id (length e.store) k)
    pub results : e'.finished_results ≡ e.finished_results

  -- `StartQuery` with a new id, a known type, a text whose words are at least one and have 4 to 30 bytes,
  -- and fewer than 2 ^ 32 - 1 queries, on an engine that is serving: with the workers awaited, in
  -- any order of the jobs, there is no fault, the query is behind the other queries and in the table
  -- of queries, and the engine is serving again: its indices hold the words of the new query as well,
  -- and the finished results are as they were.
  pub start_query-IsServing :
      (buffer : List ℕ) (sort : List ℕ → List ℕ) (picks : List ℕ) (id : ℕ) (str : List ℕ)
      (t : MatchType) (d : ℕ) (words : HashSet (List ℕ)) (e : Engine)
      → length buffer ≡ edit_buffer_size
      → IsKnown t
      → words_of 5 str ≡ some words
      → 0 < get_size words
      → All IsWord (words_in words)
      → length e.store + 1 < int_size
      → assoc id e.queries.slots ≡ none
      → IsServing e
      → (e' : Engine) × ((start_query id str t d e >>= λ r. wait_all_finish buffer sort picks r.0)
          ≡ some e')
        × IsJoined (query_for id t d words) e e'
  start_query-IsServing buffer sort picks id str t d words e wide known made positive lengths few
        absent s =
      let valid = words_of-IsValid 5 str words made in
      let small : IsSmall (or_zeros (assoc d e.threshold_counters.slots)) = record {
        hamming_lt = omega (arith, few, count_most e hamming_dist d s);
        edit_lt = omega (arith, few, count_most e edit_dist d s);
      } in
      let x = query_for id t d words in
      let b = with_query x e in
      let ready : IsReady b = record {
        edit = s.ready.edit;
        width = s.ready.width;
        hamming = s.ready.hamming;
        exact = s.ready.exact;
      } in
      let int : IsInt (or_zeros (assoc d e.threshold_counters.slots)) = record {
        hamming_lt = omega (arith, small.hamming_lt);
        edit_lt = omega (arith, small.edit_lt);
      } in
      let (e1, start, began) =
        start_known-IsStarted t d id (length e.store) words b known valid lengths ready
          (subst (All Fits) (sym s.idle) tt) s.queries s.counters int in
      let done = wait_all_finish-IsDrained buffer sort wide picks e1 began.ready began.fits in
      let jobs =
        began.jobs ∙ ap (λ js. js ++ map (job_for t (length e.store)) (words_in words)) s.idle in
      let store : done.e'.store ≡ e.store ++ some x ∷ [] = done.kept.store ∙ began.store absent in
      let up =
        counters_after-IsUp t d e.threshold_counters e1.threshold_counters s.counters small
          began.counted in
      let maps : (k : ℕ)
          → assoc k done.e'.queries.slots
            ≡ or_else (assoc k e.queries.slots) (under id (length e.store) k) =
        λ k. ap (λ t. assoc k t.slots) done.kept.queries ∙ began.queries k in
      (
        done.e',
        rw (start_query_known id str t d e words known made, start, ◌>>=◌) done.run,
        record {
          serving = record {
            ready = done.ready;
            filed =
                grown-IsFiled e done.e' x known lengths store s.ready done.ready
                  (λ w.
                    done.holds w
                    ∙ ap (λ n. n + total (adds w) e1.jobs) (began.unchanged w ∙ stored_with x e w)
                    ∙ ap (λ js. stored w e + total (adds w) js) jobs)
                  s.filed (subst (IsUp t d e.threshold_counters) (sym done.kept.counters) up) valid;
            served = subst IsServed (sym store) (with_query-IsServed x e s positive absent);
            counts = λ u k.
                ap (λ c. count_of u (or_zeros (assoc k c.slots))) done.kept.counters
                ∙ up.exact u k
                ∙ ap (λ n. n + bit (same_type u t && ids.equal d k)) (s.counts u k)
                ∙ one_more (is_live u k) e.store (some x)
                ∙ ap (count_if (is_live u k)) (sym store);
            counters = subst IsValid (sym done.kept.counters) up.valid;
            queries = subst IsValid (sym done.kept.queries) began.queries_valid;
            registered = λ q query there.
                all_registered x e s absent done.e' maps q query
                  (ap (λ c. deref c q) (sym store) ∙ there);
            idle = nil_of_length done.e'.jobs done.finished;
            no_docs = done.kept.docs ∙ began.docs ∙ s.no_docs;
          };
          store = store;
          queries = maps;
          results = done.kept.results ∙ began.results;
        },
      )
