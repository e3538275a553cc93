-- ===== src/Engine/Results/Posted.antt =====
-- `match_queries` of src/core.cpp, for all the queries that are posted in a tree.
use k23_search_engine.Prelude.{
  ℕ, ◌+◌, ◌≡◌, refl, sym, ap, ◌∙◌, List, [], ◌∷◌, Option, none, some, ◌>>=◌, arith, ◌==◌, leb, not,
  Bool, true, false, ◌&&◌, ◌||◌, bit, Bool-cases, ==_iff, inl, inr, count_if,
}
use mathlib.Core.Option.{some-injective}
use native.Mathlib.Nat.{zero-add}
use k23_search_engine.HashTable.{Table}
use k23_search_engine.HashTable.Keys.{Key}
use k23_search_engine.StringView.{equals}
use k23_search_engine.Engine.{Query, QueryResult, deref}
use k23_search_engine.Engine.Keys.{word_key}
use k23_search_engine.Engine.Results.{add_query_to_doc_results, add_matched}
use k23_search_engine.Engine.Results.Hits.{
  IsServed, IsCurrent, IsExtended, nothing-IsExtended, both-IsExtended, as-IsExtended,
  add_query_to_doc_results-IsExtended,
}

-- A query that is not deleted.
abbrev pub is_there : List (Option Query) → ℕ → Bool
is_there store q = elim (deref store q) [ none ↦ false | some query ↦ true ]

pub there_of :
    (store : List (Option Query)) (q : ℕ)
    → is_there store q ≡ true
    → (query : Query) × (deref store q ≡ some query)
there_of store q h = go (deref store q) refl h
  where
    go :
        (cell : Option Query)
        → deref store q ≡ cell
        → elim cell [ none ↦ false | some query ↦ true ] ≡ true
        → (query : Query) × (deref store q ≡ some query)
    go none e h = absurd cc
    go (some query) e h = (query, e)

-- The queries that wait for matches at a threshold.
abbrev pub is_due : ℕ → Query → Bool
is_due threshold query = query.active && threshold == query.match_dist

pub none_of_not : (b : Bool) (n : ℕ) → bit (not b) + n ≡ 0 → (b ≡ true) × (n ≡ 0)
none_of_not true n h = (refl, omega (arith, h))
none_of_not false n h = absurd (omega (arith, h))

pub and-false : (d : Bool) → (d && false) ≡ false
and-false true = refl
and-false false = refl

pub due_first :
    (d m e : Bool) (n : ℕ)
    → (m ≡ true → d ≡ true)
    → (d && (leb 1 (bit m + n) && e)) ≡ ((m && e) || (d && (leb 1 n && e)))
due_first true true true n h = ground arith
due_first true true false n h = rw (and-false (leb 1 n), and-false (leb 1 (1 + n))) refl
due_first true false e n h = ap (λ k. leb 1 k && e) (zero-add n)
due_first false true e n h = let clash = h refl in absurd cc
due_first false false e n h = refl

pub idle_first :
    (d m e : Bool) (n : ℕ)
    → (m ≡ true → d ≡ false)
    → (d && (leb 1 (bit m + n) && e)) ≡ (d && (leb 1 n && e))
idle_first true true e n h = let clash = h refl in absurd cc
idle_first true false e n h = ap (λ k. leb 1 k && e) (zero-add n)
idle_first false m e n h = refl

module _ ⦃ids : Key ℕ⦄ (store : List (Option Query)) (served : IsServed store) where
  pub one_query :
      (p q : ℕ) (a b : Query)
      → deref store p ≡ some a
      → deref store q ≡ some b
      → (p == q) ≡ true
      → b ≡ a
  one_query p q a b at_p at_q same =
      some-injective b a (sym at_q ∙ ap (deref store) (sym ((==_iff p q).0 same)) ∙ at_p)

  add_matched_due :
      (threshold p : ℕ) (word : List ℕ) (qs : List ℕ) (rt : Table ℕ QueryResult) (query : Query)
      → deref store p ≡ some query
      → is_due threshold query ≡ true
      → add_matched store threshold word (p ∷ qs) rt
        ≡ (add_query_to_doc_results store p word rt >>= add_matched store threshold word qs)
  unfolding add_matched add_query_to_doc_results
  add_matched_due threshold p word qs rt query there due = rw (there, ◌>>=◌, due) refl

  add_matched_idle :
      (threshold p : ℕ) (word : List ℕ) (qs : List ℕ) (rt : Table ℕ QueryResult) (query : Query)
      → deref store p ≡ some query
      → is_due threshold query ≡ false
      → add_matched store threshold word (p ∷ qs) rt ≡ add_matched store threshold word qs rt
  unfolding add_matched
  add_matched_idle threshold p word qs rt query there idle = rw (there, ◌>>=◌, idle, ◌>>=◌) refl

  pub add_matched-IsExtended :
      (threshold : ℕ) (word : List ℕ) (qs : List ℕ) (hits : List (ℕ × List ℕ))
      (rt : Table ℕ QueryResult)
      → count_if (λ q. not (is_there store q)) qs ≡ 0
      → IsCurrent store hits rt
      → IsExtended store
          (λ q query w.
            is_due threshold query && (leb 1 (count_if (λ p. p == q) qs) && equals word w))
          hits
          (add_matched store threshold word qs rt)
  unfolding add_matched
  add_matched-IsExtended threshold word [] hits rt here current =
      nothing-IsExtended store _ hits rt current
        (λ q query w there. and-false (is_due threshold query))
  add_matched-IsExtended threshold word (p ∷ qs) hits rt here current =
      let (found, none_gone) = none_of_not (is_there store p) _ here in
      let (query, there) = there_of store p found in
      elim (Bool-cases (is_due threshold query)) [
        | inl due ↦ rw (add_matched_due threshold p word qs rt query there due) (
            both-IsExtended store (λ q other w. p == q && equals word w) _ _ hits
              (add_query_to_doc_results store p word rt) _
              (add_query_to_doc_results-IsExtended store p query word hits rt served there current)
              (λ mid rt1 now. add_matched-IsExtended threshold word qs mid rt1 none_gone now)
              (λ q other w at.
                due_first (is_due threshold other) (p == q) (equals word w)
                  (count_if (λ r. r == q) qs)
                  (λ same. ap (is_due threshold) (one_query p q query other there at same) ∙ due)))
        | inr idle ↦ rw (add_matched_idle threshold p word qs rt query there idle) (
            as-IsExtended store _ _ hits _
              (add_matched-IsExtended threshold word qs hits rt none_gone current)
              (λ q other w at.
                idle_first (is_due threshold other) (p == q) (equals word w)
                  (count_if (λ r. r == q) qs)
                  (λ same. ap (is_due threshold) (one_query p q query other there at same) ∙ idle)))
      ]
