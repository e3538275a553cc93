-- ===== src/Engine/Results/Hits.antt =====
-- The calls of `add_query_to_doc_results` of src/core.cpp for one document: what the results hold after
-- words were added for many queries, and one step for one word and one query.
use k23_search_engine.Prelude.{
  ℕ, ◌<◌, ◌≡◌, refl, sym, ap, subst, ◌∙◌, List, [], ◌∷◌, Option, some, ◌>>=◌, ◌==◌, Bool, true,
  false, ◌&&◌, ◌||◌, if◌then◌else◌, Bool-cases, ==_iff, inl, inr,
}
use mathlib.Core.Option.{some-injective}
use k23_search_engine.HashTable.{Table}
use k23_search_engine.HashTable.Keys.{Key}
use k23_search_engine.HashTable.Assoc.{assoc}
use k23_search_engine.HashTable.Valid.{IsValid}
use k23_search_engine.HashSet.Members.{is_among}
use k23_search_engine.StringView.{equals}
use k23_search_engine.Engine.{Query, QueryResult, deref}
use k23_search_engine.Engine.Keys.{word_key}
use k23_search_engine.Engine.Results.{add_query_to_doc_results}
use k23_search_engine.Engine.Results.Collect.{needed}
use k23_search_engine.Engine.Results.Matched.{IsSeen, add_query_to_doc_results-IsSeen}

-- A hit: a query and a word of it that was added. The words of a query among the hits.
unfoldable pub words_hit : ℕ → List (ℕ × List ℕ) → List (List ℕ)
words_hit q [] = []
words_hit q ((p, w) ∷ hits) = if p == q then w ∷ words_hit q hits else words_hit q hits

abbrev pub is_hit : List (ℕ × List ℕ) → ℕ → List ℕ → Bool
is_hit hits q w = is_among w (words_hit q hits)

-- The hits are more by those of a test.
abbrev pub Extends :
    List (Option Query)
    → (ℕ → Query → List ℕ → Bool)
    → List (ℕ × List ℕ)
    → List (ℕ × List ℕ)
    → Type 0
Extends store test hits hits' =
    (q : ℕ) (query : Query) (w : List ℕ)
    → deref store q ≡ some query
    → is_hit hits' q w ≡ (is_hit hits q w || test q query w)

pub Extends-nothing :
    (store : List (Option Query)) (test : ℕ → Query → List ℕ → Bool) (hits : List (ℕ × List ℕ))
    → ((q : ℕ) (query : Query) (w : List ℕ) → deref store q ≡ some query → test q query w ≡ false)
    → Extends store test hits hits
Extends-nothing store test hits never q query w there = rw (never q query w there) (or_false _)
  where
    or_false : (b : Bool) → b ≡ (b || false)
    or_false true = refl
    or_false false = refl

pub Extends-both :
    (store : List (Option Query)) (first second test : ℕ → Query → List ℕ → Bool)
    (hits mid hits' : List (ℕ × List ℕ))
    → Extends store first hits mid
    → Extends store second mid hits'
    → ((q : ℕ) (query : Query) (w : List ℕ)
        → deref store q ≡ some query
        → test q query w ≡ (first q query w || second q query w))
    → Extends store test hits hits'
Extends-both store first second test hits mid hits' a b join q query w there =
    b q query w there
    ∙ ap (λ x. x || second q query w) (a q query w there)
    ∙ or_assoc (is_hit hits q w) (first q query w) (second q query w)
    ∙ ap (λ x. is_hit hits q w || x) (sym (join q query w there))
  where
    or_assoc : (a b c : Bool) → ((a || b) || c) ≡ (a || (b || c))
    or_assoc true b c = refl
    or_assoc false b c = refl

words_hit_same :
    (p q : ℕ) (word : List ℕ) (hits : List (ℕ × List ℕ))
    → p ≡ q
    → word ∷ words_hit p hits ≡ words_hit q ((p, word) ∷ hits)
unfolding words_hit
words_hit_same p q word hits e = rw ((==_iff p q).1 e) (ap (λ r. word ∷ words_hit r hits) e)

Extends-one :
    (store : List (Option Query)) (p : ℕ) (word : List ℕ) (hits : List (ℕ × List ℕ))
    → Extends store (λ q query w. p == q && equals word w) hits ((p, word) ∷ hits)
unfolding words_hit is_among
Extends-one store p word hits q query w there = elim (Bool-cases (p == q)) [
  | inl same ↦ rw same (or_comm (equals word w) (is_hit hits q w))
  | inr other ↦ rw other (or_false (is_hit hits q w))
]
  where
    or_false : (b : Bool) → b ≡ (b || false)
    or_false true = refl
    or_false false = refl

    or_comm : (a b : Bool) → (a || b) ≡ (b || a)
    or_comm true true = refl
    or_comm true false = refl
    or_comm false true = refl
    or_comm false false = refl

module _ ⦃ids : Key ℕ⦄ (store : List (Option Query)) where
  -- The queries need a word each, and have ids of their own.
  pub record IsServed : Type 0 where
    pub positive : (q : ℕ) (query : Query) → deref store q ≡ some query → 0 < needed query
    pub apart :
        (p q : ℕ) (a b : Query)
        → deref store p ≡ some a
        → deref store q ≡ some b
        → (p == q) ≡ false
        → ids.equal a.id b.id ≡ false

  -- The results hold for each query what it has collected from its hits, and nothing else.
  pub record IsCurrent (hits : List (ℕ × List ℕ)) (rt : Table ℕ QueryResult) : Type 0 where
    pub each :
        (q : ℕ) (query : Query) → deref store q ≡ some query → IsSeen q query (words_hit q hits) rt
    pub only :
        (id : ℕ) (res : QueryResult)
        → assoc id rt.slots ≡ some res
        → (q : ℕ) × (query : Query) × (deref store q ≡ some query) × (query.id ≡ id)
    pub valid : IsValid rt

  -- What a part of the work on a document does to its results.
  pub record IsExtended (test : ℕ → Query → List ℕ → Bool) (hits : List (ℕ × List ℕ))
      (run : Option (Table ℕ QueryResult)) : Type 0 where
    pub rt : Table ℕ QueryResult
    pub returns : run ≡ some rt
    pub hits' : List (ℕ × List ℕ)
    pub current : IsCurrent hits' rt
    pub extends : Extends store test hits hits'

  kept-IsSeen :
      (q : ℕ) (query : Query) (seen : List (List ℕ)) (rt rt' : Table ℕ QueryResult)
      → IsValid rt'
      → assoc query.id rt'.slots ≡ assoc query.id rt.slots
      → IsSeen q query seen rt
      → IsSeen q query seen rt'
  kept-IsSeen q query seen rt rt' valid same s = record {
    valid = valid;
    entry = elim s.entry [
      | inl (absent, nothing) ↦ inl (same ∙ absent, nothing)
      | inr (res, here, c) ↦ inr (res, same ∙ here, c)
    ];
  }

  -- One word for one query.
  pub add_query_to_doc_results-IsExtended :
      (p : ℕ) (query : Query) (word : List ℕ) (hits : List (ℕ × List ℕ)) (rt : Table ℕ QueryResult)
      → IsServed
      → deref store p ≡ some query
      → IsCurrent hits rt
      → IsExtended
          (λ q other w. p == q && equals word w)
          hits
          (add_query_to_doc_results store p word rt)
  unfolding words_hit
  add_query_to_doc_results-IsExtended p query word hits rt served there current =
      let (rt', run, seen, kept) =
        add_query_to_doc_results-IsSeen store p query (words_hit p hits) word rt there
          (served.positive p query there) (current.each p query there) in
      record {
        rt = rt';
        returns = run;
        hits' = (p, word) ∷ hits;
        current = record {
          each = λ q other at. elim (Bool-cases (p == q)) [
            | inl same ↦
                let e = (==_iff p q).0 same in
                let one = some-injective query other (sym there ∙ ap (deref store) e ∙ at) in
                subst (λ ws. IsSeen q other ws rt') (words_hit_same p q word hits e)
                  (rw (← e, ← one) seen)
            | inr ne ↦ rw ne (
                kept-IsSeen q other (words_hit q hits) rt rt' seen.valid
                  (kept other.id (served.apart p q query other there at ne))
                  (current.each q other at))
          ];
          only = λ id res here. elim (Bool-cases (ids.equal query.id id)) [
            | inl same ↦ (p, query, there, (ids.equal_iff query.id id).0 same)
            | inr other ↦ current.only id res (sym (kept id other) ∙ here)
          ];
          valid = seen.valid;
        };
        extends = Extends-one store p word hits;
      }

  -- Work that adds nothing.
  pub nothing-IsExtended :
      (test : ℕ → Query → List ℕ → Bool) (hits : List (ℕ × List ℕ)) (rt : Table ℕ QueryResult)
      → IsCurrent hits rt
      → ((q : ℕ) (query : Query) (w : List ℕ) → deref store q ≡ some query → test q query w ≡ false)
      → IsExtended test hits (some rt)
  nothing-IsExtended test hits rt current never = record {
    rt = rt;
    returns = refl;
    hits' = hits;
    current = current;
    extends = Extends-nothing store test hits never;
  }

  -- One part of the work after another.
  pub both-IsExtended :
      (first second test : ℕ → Query → List ℕ → Bool) (hits : List (ℕ × List ℕ))
      (run : Option (Table ℕ QueryResult))
      (next : Table ℕ QueryResult → Option (Table ℕ QueryResult))
      → IsExtended first hits run
      → ((mid : List (ℕ × List ℕ)) (rt : Table ℕ QueryResult)
          → IsCurrent mid rt
          → IsExtended second mid (next rt))
      → ((q : ℕ) (query : Query) (w : List ℕ)
          → deref store q ≡ some query
          → test q query w ≡ (first q query w || second q query w))
      → IsExtended test hits (run >>= next)
  both-IsExtended first second test hits run next a rest join =
      let b = rest a.hits' a.rt a.current in
      record {
        rt = b.rt;
        returns = rw (a.returns, ◌>>=◌) b.returns;
        hits' = b.hits';
        current = b.current;
        extends =
            Extends-both store first second test hits a.hits' b.hits' a.extends b.extends join;
      }

  -- The same work, tested in another way.
  pub as-IsExtended :
      (first test : ℕ → Query → List ℕ → Bool) (hits : List (ℕ × List ℕ))
      (run : Option (Table ℕ QueryResult))
      → IsExtended first hits run
      → ((q : ℕ) (query : Query) (w : List ℕ)
          → deref store q ≡ some query
          → test q query w ≡ first q query w)
      → IsExtended test hits run
  as-IsExtended first test hits run a same = record {
    rt = a.rt;
    returns = a.returns;
    hits' = a.hits';
    current = a.current;
    extends = λ q query w there.
        a.extends q query w there ∙ ap (λ x. is_hit hits q w || x) (sym (same q query w there));
  }
