-- ===== src/Engine/Results/Complete.antt =====
-- When a query of src/core.cpp has all its words.
use k23_search_engine.Prelude.{
  ℕ, ◌<◌, ◌≡◌, refl, sym, ap, ◌∙◌, List, [], ◌∷◌, none, some, arith, Bool, true, false, ◌&&◌,
  Option, ◌||◌, leb, length, count_if, Bool-cases, inl, inr,
}
use native.Mathlib.Nat.{zero-add}
use k23_search_engine.HashTable.{Table}
use k23_search_engine.HashTable.Keys.{Key}
use k23_search_engine.HashTable.Assoc.{assoc}
use k23_search_engine.HashTable.Valid.{IsValid}
use k23_search_engine.HashSet.Members.{is_among}
use k23_search_engine.HashSet.Listing.{
  keys_in, every, count_if_or, count_if_absorbed, every-eq-count, length-keys_in, key_comm,
  key_once,
}
use k23_search_engine.Engine.{Query, QueryResult}
use k23_search_engine.Engine.Keys.{word_key}
use k23_search_engine.Engine.Results.Collect.{distinct, needed}
use k23_search_engine.Engine.Results.Matched.{IsSeen}
use k23_search_engine.Engine.Results.Hits.{words_hit, is_hit}

or_first : (a b : Bool) → a ≡ true → (a || b) ≡ true
or_first true b h = refl
or_first false b h = absurd cc

or_second : (a b : Bool) → b ≡ true → (a || b) ≡ true
or_second true b h = refl
or_second false b h = h

-- Words that a list has once each: as many different ones as the list has among them.
distinct-eq-count :
    (ks seen : List (List ℕ))
    → ((w : List ℕ) → is_among w seen ≡ true → count_if (λ k. word_key.equal k w) ks ≡ 1)
    → distinct seen ≡ count_if (λ k. is_among k seen) ks
unfolding distinct is_among
distinct-eq-count ks [] once = sym (none_of ks)
  where
    none_of : (ks : List (List ℕ)) → count_if (λ k. false) ks ≡ 0
    none_of [] = refl
    none_of (k ∷ ks) = omega (arith, none_of ks)
distinct-eq-count ks (w ∷ seen) once =
    let rest = distinct-eq-count ks seen (λ v h. once v (or_second (word_key.equal w v) _ h)) in
    elim (Bool-cases (is_among w seen)) [
      | inl again ↦ rw again (
          zero-add (distinct seen)
          ∙ rest
          ∙ sym (
              count_if_absorbed (λ k. word_key.equal w k) (λ k. is_among k seen) ks
                (λ k same.
                  ap (λ x. is_among x seen) (sym ((word_key.equal_iff w k).0 same)) ∙ again)))
      | inr new ↦ rw new (
          omega (
            arith,
            rest,
            count_if_or (λ k. word_key.equal w k) (λ k. is_among k seen) ks
                (λ k same. ap (λ x. is_among x seen) (sym ((word_key.equal_iff w k).0 same)) ∙ new),
            turned ks,
            once w (or_first _ _ ((word_key.equal_iff w w).1 refl)),
          ))
    ]
  where
    turned :
        (ks : List (List ℕ))
        → count_if (λ k. word_key.equal w k) ks ≡ count_if (λ k. word_key.equal k w) ks
    turned [] = refl
    turned (k ∷ ks) = rw (key_comm w k, turned ks) refl

every_inside :
    (p r : List ℕ → Bool) (full ks : List (List ℕ))
    → ((k : List ℕ) → p k ≡ (is_among k full && r k))
    → ((k : List ℕ) → is_among k ks ≡ true → is_among k full ≡ true)
    → every p ks ≡ every r ks
unfolding every is_among
every_inside p r full [] same inside = refl
every_inside p r full (k ∷ ks) same inside =
    rw (same k, inside k (or_first _ _ ((word_key.equal_iff k k).1 refl)))
      (ap (λ b. r k && b)
        (every_inside p r full ks same (λ j h. inside j (or_second (word_key.equal k j) _ h))))

-- A test of the keys of a list that asks for the keys of that list.
every_listed :
    (p r : List ℕ → Bool) (a : Bool) (ks : List (List ℕ))
    → ((k : List ℕ) → p k ≡ (a && (is_among k ks && r k)))
    → 0 < length ks
    → every p ks ≡ (a && every r ks)
unfolding every
every_listed p r true ks same positive = every_inside p r ks ks same (λ k h. h)
every_listed p r false [] same positive = absurd (omega (arith, positive))
every_listed p r false (k ∷ ks) same positive = rw (same k) refl

-- Whether a query is matched in the results.
abbrev pub is_matched : Option QueryResult → Bool
is_matched none = false
is_matched (some res) = res.matched

module _ ⦃ids : Key ℕ⦄ where
  -- The result of a query is matched if and only if it has the number of words that the query needs.
  matched_iff :
      (q : ℕ) (query : Query) (seen : List (List ℕ)) (rt : Table ℕ QueryResult)
      → 0 < needed query
      → IsSeen q query seen rt
      → is_matched (assoc query.id rt.slots) ≡ leb (needed query) (distinct seen)
  unfolding distinct
  matched_iff q query seen rt positive s = elim s.entry [
    | inl (absent, nothing) ↦ rw (absent, nothing) (ground (arith, positive))
    | inr (res, here, c) ↦ ap is_matched here ∙ c.flag
  ]

  -- A query whose hits are its words that pass a test: it is matched if and only if it is active and all
  -- its words pass the test.
  pub matched-every :
      (q : ℕ) (query : Query) (hits : List (ℕ × List ℕ)) (test : List ℕ → Bool)
      (rt : Table ℕ QueryResult)
      → 0 < needed query
      → IsValid query.unique_words
      → IsSeen q query (words_hit q hits) rt
      → ((w : List ℕ)
          → is_hit hits q w ≡ (query.active && (is_among w (keys_in query.unique_words) && test w)))
      → is_matched (assoc query.id rt.slots)
        ≡ (query.active && every test (keys_in query.unique_words))
  matched-every q query hits test rt positive valid s same =
      let ks = keys_in query.unique_words in
      let size : length ks ≡ needed query = length-keys_in query.unique_words valid in
      matched_iff q query (words_hit q hits) rt positive s
      ∙ ap (leb (needed query)) (
          distinct-eq-count ks (words_hit q hits) (λ w h.
            key_once query.unique_words w valid (middle query.active _ _ (sym (same w) ∙ h))))
      ∙ ap (λ n. leb n (count_if (λ k. is_hit hits q k) ks)) (sym size)
      ∙ every-eq-count (λ k. is_hit hits q k) ks
      ∙ every_listed (λ k. is_hit hits q k) test query.active ks same
          (omega (arith, positive, size))
    where
      middle : (a b c : Bool) → (a && (b && c)) ≡ true → b ≡ true
      middle true true c h = refl
      middle true false c h = absurd cc
      middle false b c h = absurd cc
