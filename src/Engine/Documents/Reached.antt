-- ===== src/Engine/Documents/Reached.antt =====
-- The calls of `StartQuery` and `MatchDocument` of src/core.cpp, one after another from the first.
use mathlib.Core.Option.{some-injective}
use k23_search_engine.Prelude.{
  zero, suc, ◌+◌, ◌++◌, ◌∷◌, map, set, get_elem?, true, length, ℕ, ◌<◌, ◌≡◌, refl, sym, ap, subst,
  ◌∙◌, List, [], Option, none, some, ◌>>=◌, arith, All, get_elem?-replicate, Bool, not, count_if,
}
use k23_search_engine.Distances.{edit_buffer_size}
use k23_search_engine.HashTable.Keys.{Key}
use k23_search_engine.HashTable.Assoc.{assoc}
use k23_search_engine.HashTable.Entries.{new-IsValid, new_empty}
use k23_search_engine.HashSet.{HashSet, get_size}
use k23_search_engine.HashSet.Members.{is_among}
use k23_search_engine.Engine.{
  int_size, success, exact_match, hamming_dist, edit_dist, unknown, Engine, Query, MatchType, deref,
  initial, empty_index, hamming_bk_trees,
}
use k23_search_engine.Engine.Keys.{word_key}
use k23_search_engine.Engine.Add.Posts.{posts}
use k23_search_engine.Engine.Start.{words_of, start_query}
use k23_search_engine.Engine.Results.Posted.{is_there}
use k23_search_engine.Engine.Results.Thresholds.{IsAlive}
use k23_search_engine.Engine.Documents.{wait_all_finish, match_document, end_query}
use k23_search_engine.Engine.Documents.Exact.{items_in}
use k23_search_engine.Engine.Documents.Initial.{initial-IsReady}
use k23_search_engine.Engine.Documents.Begin.{IsWord, IsKnown, words_in}
use k23_search_engine.Engine.Documents.Count.{or_zeros, zeros}
use k23_search_engine.Engine.Documents.Tried.{count_of}
use k23_search_engine.Engine.Documents.Serving.{IsServing, query_for, start_query-IsServing}
use k23_search_engine.Engine.Documents.Ended.{end_query-IsServing}
use k23_search_engine.Engine.Documents.Down.{ended}
use k23_search_engine.Engine.Documents.Delivered.{match_document-IsDelivered}
use k23_search_engine.Engine.Documents.Shown.{
  Session, question, IsShown, kept_query, joined-IsShown, ended-IsShown, delivered-IsShown,
}

no_posts : (g : List ℕ → ℕ → Bool) → posts g empty_index ≡ 0
unfolding posts k23_search_engine.Prelude.total k23_search_engine.BkTree.tree_elements
no_posts g = refl

no_queries : (q : ℕ) (query : Query) → deref initial.store q ≡ some query → ⊥
unfolding deref initial
no_queries q query h = absurd cc

none_counted : (u : MatchType) → count_of u zeros ≡ 0
none_counted exact_match = refl
none_counted hamming_dist = refl
none_counted edit_dist = refl
none_counted (unknown n) = refl

module _ ⦃ids : Key ℕ⦄ where
  pub initial-IsServing : IsServing initial
  unfolding initial
  initial-IsServing = record {
    ready = initial-IsReady;
    filed = record {
      edit = λ q query w there. absurd (no_queries q query there);
      hamming = λ i h q query w read there. absurd (no_queries q query there);
      exact = λ q query w there. absurd (no_queries q query there);
      edit_alive = no_posts _;
      hamming_alive = λ i h read.
          subst (IsAlive []) (get_elem?-replicate hamming_bk_trees i empty_index h read)
            (no_posts _);
      exact_alive =
          λ w. ap (λ o. count_if (λ q. not (is_there [] q)) (items_in o)) (new_empty 4096 w);
      edit_counted = λ q query there. absurd (no_queries q query there);
      hamming_counted = λ q query there. absurd (no_queries q query there);
      words_valid = λ q query there. absurd (no_queries q query there);
    };
    served = record {
      positive = λ q query there. absurd (no_queries q query there);
      apart = λ p q a b there. absurd (no_queries p a there);
    };
    counters = new-IsValid 32;
    counts = λ u k. ap (λ o. count_of u (or_zeros o)) (new_empty 32 k) ∙ none_counted u;
    queries = new-IsValid 4096;
    registered = λ q query there. absurd (no_queries q query there);
    idle = refl;
    no_docs = refl;
  }

  initial-IsShown : IsShown (record { queries = []; asked = [] }) initial
  unfolding initial
  initial-IsShown = record { serving = initial-IsServing; store = refl; results = tt }

  module _ (buffer : List ℕ) (sort : List ℕ → List ℕ) where
    -- The engines that calls lead to, with what was asked; the workers are awaited after each call, in
    -- any order of the jobs.
    pub data IsReached : Session → Engine → Type 0 where
      at_first : IsReached (record { queries = []; asked = [] }) initial
      after_query :
          (picks : List ℕ) (id : ℕ) (str : List ℕ) (t : MatchType) (d : ℕ)
          (words : HashSet (List ℕ)) (c : Session) (e e' : Engine)
          → IsReached c e
          → IsKnown t
          → words_of 5 str ≡ some words
          → 0 < get_size words
          → All IsWord (words_in words)
          → length e.store + 1 < int_size
          → assoc id e.queries.slots ≡ none
          → (start_query id str t d e >>= λ r. wait_all_finish buffer sort picks r.0) ≡ some e'
          → IsReached (record c { queries = c.queries ++ query_for id t d words ∷ [] }) e'
      after_document :
          (picks picks' : List ℕ) (doc_id : ℕ) (str : List ℕ) (words : HashSet (List ℕ))
          (c : Session) (e e' : Engine)
          → IsReached c e
          → words_of 10 str ≡ some words
          → All IsWord (words_in words)
          → (match_document buffer sort picks doc_id str e >>= λ r.
              wait_all_finish buffer sort picks' r.0)
            ≡ some e'
          → IsReached (record c { asked = c.asked ++ question doc_id words c.queries ∷ [] }) e'
      after_end :
          (picks : List ℕ) (q : ℕ) (x : Query) (c : Session) (e e' : Engine)
          → IsReached c e
          → get_elem? c.queries q ≡ some x
          → x.active ≡ true
          → length e.store < int_size
          → end_query buffer sort picks x.id e ≡ some (e', success)
          → IsReached (record c { queries = set c.queries q (ended x) }) e'

    -- After any calls of `StartQuery`, `MatchDocument` and `EndQuery` from the first, where each query has
    -- an id that the table of queries does not have, a known type, at least one word and fewer than
    -- 2 ^ 32 - 1 queries before it, where all words have 4 to 30 bytes, where `EndQuery` has the id of an
    -- active query with fewer than 2 ^ 32 queries stored, where the workers are awaited after each call
    -- in any order of the jobs, where `sort` keeps which ids there are, and where the local array has the
    -- size of its declaration: the engine keeps exactly the queries that were started, in their order,
    -- those that were ended no longer active; there is one result for each document, in their order, and
    -- it has the id of the document and exactly the ids of the queries that were active and matched its
    -- words when it came; and the engine is serving: its indices hold the words of exactly the queries
    -- it keeps, its tables and counters agree with them, and no job or document is left.
    pub Reached-IsShown :
        (c : Session) (e : Engine)
        → length buffer ≡ edit_buffer_size
        → ((id : ℕ) (xs : List ℕ) → is_among id (sort xs) ≡ is_among id xs)
        → IsReached c e
        → IsShown c e
    Reached-IsShown c e wide sort_keeps at_first = initial-IsShown
    Reached-IsShown c e wide sort_keeps
          (after_query picks id str t d words c0 e0 e' before known made positive lengths few absent
            run) =
        let s = Reached-IsShown c0 e0 wide sort_keeps before in
        let (e1, run1, joined) =
          start_query-IsServing buffer sort picks id str t d words e0 wide known made positive
            lengths few absent s.serving in
        subst (IsShown c) (some-injective e1 e (sym run1 ∙ run))
          (joined-IsShown (query_for id t d words) c0 e0 e1 s joined)
    Reached-IsShown c e wide sort_keeps
          (after_document picks picks' doc_id str words c0 e0 e' before made lengths run) =
        let s = Reached-IsShown c0 e0 wide sort_keeps before in
        let (e1, run1, delivered) =
          match_document-IsDelivered buffer sort picks picks' doc_id str words e0 wide sort_keeps
            made lengths s.serving in
        subst (IsShown c) (some-injective e1 e (sym run1 ∙ run))
          (delivered-IsShown doc_id words c0 e0 e1 s delivered)
    Reached-IsShown c e wide sort_keeps (after_end picks q x c0 e0 e' before there active few run) =
        let s = Reached-IsShown c0 e0 wide sort_keeps before in
        let (e1, run1, done) =
          end_query-IsServing buffer sort picks q x e0 (kept_query c0 e0 q x s there) active few
            s.serving in
        subst (IsShown c)
          (ap (λ r. r.0) (some-injective (e1, success) (e, success) (sym run1 ∙ run)))
          (ended-IsShown q x c0 e0 e1 s done)
