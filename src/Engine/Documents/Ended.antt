-- ===== src/Engine/Documents/Ended.antt =====
-- `EndQuery` of src/core.cpp, on the engine between two calls.
use k23_search_engine.Prelude.{
  ℕ, ◌+◌, ◌-◌, ◌%◌, ◌^◌, ◌≤◌, ◌<◌, ◌≡◌, refl, sym, ap, ap₂, subst, ◌∙◌, List, [], none, some, ◌>>=◌,
  arith, ◌==◌, true, not, ◌&&◌, bit, length, set, count_if, ==_iff, inl, inr, count_if_le,
}
use k23_search_engine.HashTable.{Table}
use k23_search_engine.HashTable.Keys.{Key}
use k23_search_engine.HashTable.Assoc.{assoc}
use k23_search_engine.HashTable.Valid.{IsValid}
use k23_search_engine.HashTable.Iterator.Lookup.{lookup-IsFound, lookup_absent}
use k23_search_engine.HashSet.{get_size}
use k23_search_engine.Engine.{
  Engine, Query, Counters, MatchType, hamming_dist, edit_dist, success, fail, int_size, deref,
  min_word_length,
}
use k23_search_engine.Engine.Keys.{word_key}
use k23_search_engine.Engine.Results.Posted.{is_there}
use k23_search_engine.Engine.Documents.{wait_all_finish, drain, end_query}
use k23_search_engine.Engine.Documents.Exact.{items_in}
use k23_search_engine.Engine.Documents.Count.{IsInt, or_zeros}
use k23_search_engine.Engine.Documents.Near.{IsFiled, is_edit, is_hamming, is_exact}
use k23_search_engine.Engine.Documents.Begin.{words_in}
use k23_search_engine.Engine.Documents.Filed.{edit_type, hamming_type}
use k23_search_engine.HashSet.Members.{is_among}
use k23_search_engine.Engine.Results.Matched.{same_id}
use k23_search_engine.Engine.Documents.Tried.{count_of, same_type, counted_of_some}
use k23_search_engine.Engine.Documents.Jobs.{posts_le}
use k23_search_engine.Engine.Documents.Serving.{IsServing, is_live, count_most}
use k23_search_engine.Engine.Documents.Down.{
  set_cases, still_there, ended, live_here, any-IsDown, live_left,
}

module _ ⦃ids : Key ℕ⦄ where
  module _ (e : Engine) (q : ℕ) (x : Query) (s : IsServing e) (there : deref e.store q ≡ some x)
      (c' : Table ℕ Counters) (active : ℕ) where
    -- The engine without the query.
    abbrev pub without_query : Engine
    without_query = record e {
      active_queries = active;
      threshold_counters = c';
      store = set e.store q (some (ended x));
    }

    old_or_ended :
        (p : ℕ) (query : Query)
        → deref (set e.store q (some (ended x))) p ≡ some query
        → (y : Query) × (deref e.store p ≡ some y)
          × (query.id ≡ y.id)
          × (query.match_type ≡ y.match_type)
          × (query.match_dist ≡ y.match_dist)
          × (query.unique_words ≡ y.unique_words)
    old_or_ended p query at = elim (set_cases e.store q x (ended x) p query there at) [
      | inl (same, is_x) ↦ (
        x,
        ap (deref e.store) (sym ((==_iff q p).0 same)) ∙ there,
        ap (λ y. y.id) (sym is_x),
        ap (λ y. y.match_type) (sym is_x),
        ap (λ y. y.match_dist) (sym is_x),
        ap (λ y. y.unique_words) (sym is_x),
      )
      | inr (other, old) ↦ (query, old, refl, refl, refl, refl)
    ]

    still_gone :
        (p : ℕ)
        → not (is_there (set e.store q (some (ended x))) p) ≡ true
        → not (is_there e.store p) ≡ true
    still_gone p h = ap not (sym (still_there e.store q x (ended x) p there)) ∙ h

    none_below : (m n : ℕ) → m ≤ n → n ≡ 0 → m ≡ 0
    none_below m n a b = omega (arith, a, b)

    ended-IsFiled :
        ((u : MatchType) (k : ℕ)
          → count_of u (or_zeros (assoc k c'.slots))
            ≡ count_if (is_live u k) (set e.store q (some (ended x))))
        → IsFiled without_query
    ended-IsFiled counts = record {
      edit = λ p query w at.
          let (y, old, i, t, d, ws) = old_or_ended p query at in
          s.filed.edit p y w old
          ∙ ap₂ (λ t ws. is_edit t && is_among w (words_in ws)) (sym t) (sym ws);
      hamming = λ i h p query w read at.
          let (y, old, j, t, d, ws) = old_or_ended p query at in
          s.filed.hamming i h p y w read old
          ∙ ap₂
              (λ t ws.
                is_hamming t && (length w == i + min_word_length && is_among w (words_in ws)))
              (sym t) (sym ws);
      exact = λ p query w at.
          let (y, old, i, t, d, ws) = old_or_ended p query at in
          s.filed.exact p y w old
          ∙ ap₂ (λ t ws. is_exact t && is_among w (words_in ws)) (sym t) (sym ws);
      edit_alive =
          none_below _ _ (posts_le _ _ e.edit_tree (λ u p. still_gone p)) s.filed.edit_alive;
      hamming_alive = λ i h read.
          none_below _ _ (posts_le _ _ h (λ u p. still_gone p)) (s.filed.hamming_alive i h read);
      exact_alive = λ w.
          none_below _ _ (count_if_le _ _ (items_in (assoc w e.exact.slots)) still_gone)
            (s.filed.exact_alive w);
      edit_counted = λ p query at active distance.
          counted_of_some edit_dist (assoc query.match_dist c'.slots) (
            subst (λ n. 0 < n) (sym (counts edit_dist query.match_dist))
              (live_left edit_dist query.match_dist _ p query at (
                live_of edit_dist query active
                  (ap (same_type edit_dist) (edit_type query.match_type distance)))));
      hamming_counted = λ p query at active distance.
          counted_of_some hamming_dist (assoc query.match_dist c'.slots) (
            subst (λ n. 0 < n) (sym (counts hamming_dist query.match_dist))
              (live_left hamming_dist query.match_dist _ p query at (
                live_of hamming_dist query active
                  (ap (same_type hamming_dist) (hamming_type query.match_type distance)))));
      words_valid = λ p query at.
          let (y, old, i, t, d, ws) = old_or_ended p query at in
          subst IsValid (sym ws) (s.filed.words_valid p y old);
    }
      where
        live_of :
            (u : MatchType) (query : Query)
            → query.active ≡ true
            → same_type u query.match_type ≡ true
            → is_live u query.match_dist (some query) ≡ true
        live_of u query a b = rw (a, b, same_id query.match_dist) refl

    ended-IsServing :
        ((u : MatchType) (k : ℕ)
          → count_of u (or_zeros (assoc k c'.slots))
            ≡ count_if (is_live u k) (set e.store q (some (ended x))))
        → IsValid c'
        → IsServing without_query
    ended-IsServing counts valid = record {
      ready = record {
        edit = s.ready.edit;
        width = s.ready.width;
        hamming = s.ready.hamming;
        exact = s.ready.exact;
      };
      filed = ended-IsFiled counts;
      served = record {
        positive = λ p query at.
            let (y, old, i, t, d, ws) = old_or_ended p query at in
            subst (λ w. 0 < get_size w) (sym ws) (s.served.positive p y old);
        apart = λ p r a b at_p at_r ne.
            let (y, old_p, i, t, d, ws) = old_or_ended p a at_p in
            let (z, old_r, j, t', d', ws') = old_or_ended r b at_r in
            ap₂ (λ m n. ids.equal m n) i j ∙ s.served.apart p r y z old_p old_r ne;
      };
      counters = valid;
      counts = counts;
      queries = s.queries;
      registered = λ p query at.
          let (y, old, i, t, d, ws) = old_or_ended p query at in
          ap (λ k. assoc k e.queries.slots) i ∙ s.registered p y old;
      idle = s.idle;
      no_docs = s.no_docs;
    }

  idle_finish :
      (buffer : List ℕ) (sort : List ℕ → List ℕ) (picks : List ℕ) (e : Engine)
      → e.jobs ≡ []
      → wait_all_finish buffer sort picks e ≡ some e
  unfolding wait_all_finish drain
  idle_finish buffer sort picks e idle = ap (λ js. drain buffer sort (length js) picks e) idle

  live_counts :
      (x : Query) (u : MatchType) (k : ℕ)
      → x.active ≡ true
      → is_live u k (some x) ≡ (same_type u x.match_type && ids.equal x.match_dist k)
  live_counts x u k active = rw active refl

  -- The engine after a query was ended.
  pub record IsEnded (q : ℕ) (x : Query) (e e' : Engine) : Type 0 where
    pub serving : IsServing e'
    pub store : e'.store ≡ set e.store q (some (ended x))
    pub queries : e'.queries ≡ e.queries
    pub finished : e'.finished_results ≡ e.finished_results

  -- `EndQuery` with the id of an active query, on an engine that is serving with fewer than 2 ^ 32 queries:
  -- EC_SUCCESS without a fault. The query is no longer active, the other queries are as they were, and
  -- the engine is serving again: the counters count exactly the queries that are left.
  pub end_query-IsServing :
      (buffer : List ℕ) (sort : List ℕ → List ℕ) (picks : List ℕ) (q : ℕ) (x : Query) (e : Engine)
      → deref e.store q ≡ some x
      → x.active ≡ true
      → length e.store < int_size
      → IsServing e
      → (e' : Engine) × (end_query buffer sort picks x.id e ≡ some (e', success)) × IsEnded q x e e'
  unfolding end_query
  end_query-IsServing buffer sort picks q x e there active few s =
      let a = (e.active_queries + 2 ^ 64 - 1) % 2 ^ 64 in
      let f = lookup-IsFound e.queries x.id s.queries q (s.registered q x there) in
      let live = live_of_type x active in
      let int : IsInt (or_zeros (assoc x.match_dist e.threshold_counters.slots)) = record {
        hamming_lt = omega (arith, few, count_most e hamming_dist x.match_dist s);
        edit_lt = omega (arith, few, count_most e edit_dist x.match_dist s);
      } in
      let down = any-IsDown x.match_type x.match_dist e.threshold_counters s.counters int (λ u same.
        subst (λ n. 0 < n) (sym (s.counts u x.match_dist))
          (live_left u x.match_dist e.store q x there (live u same))) in
      (
        without_query e q x s there down.c' a,
        rw
            (
              idle_finish buffer sort picks (record e { active_queries = a }) s.idle,
              ◌>>=◌,
              f.run,
              ◌>>=◌,
              f.inner,
              f.read,
              ◌>>=◌,
              there,
              ◌>>=◌,
              down.returns,
              ◌>>=◌,
            )
            refl,
        record {
          serving =
              ended-IsServing e q x s there down.c' a
                (λ u k. same_rest _ _ _ _ _ (down.exact u k) (s.counts u k) (
                  ap (λ b. count_if (is_live u k) (set e.store q (some (ended x))) + bit b)
                    (sym (live_counts x u k active))
                  ∙ live_here u k e.store q x there))
                down.valid;
          store = refl;
          queries = refl;
          finished = refl;
        },
      )
    where
      live_of_type :
          (x : Query)
          → x.active ≡ true
          → (u : MatchType) → same_type u x.match_type ≡ true
          → is_live u x.match_dist (some x) ≡ true
      live_of_type x a u b = rw (a, b, same_id x.match_dist) refl

      same_rest : (m n k l b : ℕ) → m + b ≡ n → n ≡ k → l + b ≡ k → m ≡ l
      same_rest m n k l b h e h' = omega (arith, h, e, h')

  -- `EndQuery` with an id that no query has: EC_FAIL without a fault, and nothing has changed but the number
  -- of active queries, which is one less.
  pub end_query_unknown :
      (buffer : List ℕ) (sort : List ℕ → List ℕ) (picks : List ℕ) (id : ℕ) (e : Engine)
      → assoc id e.queries.slots ≡ none
      → IsServing e
      → end_query buffer sort picks id e
        ≡ some (record e { active_queries = (e.active_queries + 2 ^ 64 - 1) % 2 ^ 64 }, fail)
  unfolding end_query
  end_query_unknown buffer sort picks id e absent s =
      let a = (e.active_queries + 2 ^ 64 - 1) % 2 ^ 64 in
      let (miss, end) = lookup_absent e.queries id s.queries absent in
      rw
        (
          idle_finish buffer sort picks (record e { active_queries = a }) s.idle,
          ◌>>=◌,
          miss,
          ◌>>=◌,
          end,
        )
        refl
