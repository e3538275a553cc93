-- ===== src/Engine/Results/Listed.antt =====
-- `match_exact` of src/core.cpp, for all the queries that are listed under a word.
use k23_search_engine.Prelude.{
  ℕ, ◌≡◌, refl, sym, ap, ◌∙◌, List, [], ◌∷◌, Option, none, some, ◌>>=◌, ◌==◌, leb, not, Bool, true,
  false, ◌&&◌, Bool-cases, Option-cases, inl, inr, count_if,
}
use k23_search_engine.Vector.{Vector}
use k23_search_engine.HashTable.{Table}
use k23_search_engine.HashTable.Keys.{Key}
use k23_search_engine.HashTable.Assoc.{assoc}
use k23_search_engine.HashTable.Valid.{IsValid}
use k23_search_engine.HashTable.Iterator.Lookup.{lookup-IsFound, lookup_absent}
use k23_search_engine.StringView.{equals}
use k23_search_engine.Engine.{Query, QueryResult, deref}
use k23_search_engine.Engine.Keys.{word_key}
use k23_search_engine.Engine.Results.{add_query_to_doc_results, add_exact, match_exact}
use k23_search_engine.Engine.Results.Hits.{
  IsServed, IsCurrent, IsExtended, nothing-IsExtended, both-IsExtended, as-IsExtended,
  add_query_to_doc_results-IsExtended,
}
use k23_search_engine.Engine.Results.Posted.{
  is_there, there_of, none_of_not, and-false, due_first, idle_first, one_query,
}
use k23_search_engine.Engine.Documents.Exact.{items_in}

-- Whether a query is listed under a word.
abbrev pub is_listed : Table (List ℕ) (Vector ℕ) → ℕ → List ℕ → Bool
is_listed t q w = leb 1 (count_if (λ p. p == q) (items_in (assoc w t.slots)))

module _ ⦃ids : Key ℕ⦄ (store : List (Option Query)) (served : IsServed store) where
  add_exact_active :
      (p : ℕ) (word : List ℕ) (qs : List ℕ) (rt : Table ℕ QueryResult) (query : Query)
      → deref store p ≡ some query
      → query.active ≡ true
      → add_exact store word (p ∷ qs) rt
        ≡ (add_query_to_doc_results store p word rt >>= add_exact store word qs)
  unfolding add_exact add_query_to_doc_results
  add_exact_active p word qs rt query there active = rw (there, ◌>>=◌, active) refl

  add_exact_idle :
      (p : ℕ) (word : List ℕ) (qs : List ℕ) (rt : Table ℕ QueryResult) (query : Query)
      → deref store p ≡ some query
      → query.active ≡ false
      → add_exact store word (p ∷ qs) rt ≡ add_exact store word qs rt
  unfolding add_exact
  add_exact_idle p word qs rt query there idle = rw (there, ◌>>=◌, idle, ◌>>=◌) refl

  add_exact-IsExtended :
      (word : List ℕ) (qs : List ℕ) (hits : List (ℕ × List ℕ)) (rt : Table ℕ QueryResult)
      → count_if (λ q. not (is_there store q)) qs ≡ 0
      → IsCurrent store hits rt
      → IsExtended store
          (λ q query w. query.active && (leb 1 (count_if (λ p. p == q) qs) && equals word w))
          hits
          (add_exact store word qs rt)
  unfolding add_exact
  add_exact-IsExtended word [] hits rt here current =
      nothing-IsExtended store _ hits rt current (λ q query w there. and-false query.active)
  add_exact-IsExtended word (p ∷ qs) hits rt here current =
      let (found, none_gone) = none_of_not (is_there store p) _ here in
      let (query, there) = there_of store p found in
      elim (Bool-cases query.active) [
        | inl active ↦ rw (add_exact_active p word qs rt query there active) (
            both-IsExtended store (λ q other w. p == q && equals word w) _ _ hits
              (add_query_to_doc_results store p word rt) _
              (add_query_to_doc_results-IsExtended store p query word hits rt served there current)
              (λ mid rt1 now. add_exact-IsExtended word qs mid rt1 none_gone now)
              (λ q other w at.
                due_first other.active (p == q) (equals word w) (count_if (λ r. r == q) qs) (λ same.
                  ap (λ x. x.active) (one_query store served p q query other there at same)
                  ∙ active)))
        | inr idle ↦ rw (add_exact_idle p word qs rt query there idle) (
            as-IsExtended store _ _ hits _ (add_exact-IsExtended word qs hits rt none_gone current)
              (λ q other w at.
                idle_first other.active (p == q) (equals word w) (count_if (λ r. r == q) qs)
                  (λ same.
                    ap (λ x. x.active) (one_query store served p q query other there at same)
                    ∙ idle)))
      ]

  match_exact_absent :
      (ht : Table (List ℕ) (Vector ℕ)) (dw : List ℕ) (rt : Table ℕ QueryResult)
      → IsValid ht
      → assoc dw ht.slots ≡ none
      → match_exact store ht dw rt ≡ some rt
  unfolding match_exact
  match_exact_absent ht dw rt valid absent =
      let (miss, end) = lookup_absent ht dw valid absent in rw (miss, ◌>>=◌, end) refl

  match_exact_present :
      (ht : Table (List ℕ) (Vector ℕ)) (dw : List ℕ) (rt : Table ℕ QueryResult) (v : Vector ℕ)
      → IsValid ht
      → assoc dw ht.slots ≡ some v
      → match_exact store ht dw rt ≡ add_exact store dw v.items rt
  unfolding match_exact add_exact
  match_exact_present ht dw rt v valid here =
      let f = lookup-IsFound ht dw valid v here in rw (f.run, ◌>>=◌, f.inner, f.read, ◌>>=◌) refl

  -- For queries that need a word and have ids of their own: `match_exact` on a valid table ends without a
  -- fault, and adds the document's word for the active queries that are listed under it.
  pub match_exact-IsExtended :
      (ht : Table (List ℕ) (Vector ℕ)) (dw : List ℕ) (hits : List (ℕ × List ℕ))
      (rt : Table ℕ QueryResult)
      → IsValid ht
      → count_if (λ q. not (is_there store q)) (items_in (assoc dw ht.slots)) ≡ 0
      → IsCurrent store hits rt
      → IsExtended store
          (λ q query w. query.active && (is_listed ht q dw && equals dw w))
          hits
          (match_exact store ht dw rt)
  match_exact-IsExtended ht dw hits rt valid alive current =
      elim (Option-cases (assoc dw ht.slots)) [
        | inl absent ↦ rw (match_exact_absent ht dw rt valid absent) (
            nothing-IsExtended store _ hits rt current
              (λ q query w there. rw absent (and-false query.active)))
        | inr (v, here) ↦
            let alive_here : count_if (λ q. not (is_there store q)) v.items ≡ 0 =
              ap (λ o. count_if (λ q. not (is_there store q)) (items_in o)) (sym here) ∙ alive in
            rw (match_exact_present ht dw rt v valid here) (
              as-IsExtended store _ _ hits _
                (add_exact-IsExtended dw v.items hits rt alive_here current)
                (λ q query w there.
                  ap
                    (λ o.
                      query.active && (leb 1 (count_if (λ p. p == q) (items_in o)) && equals dw w))
                    here))
      ]
