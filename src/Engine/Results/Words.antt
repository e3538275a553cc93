-- ===== src/Engine/Results/Words.antt =====
-- `add_query_to_doc_results` of src/core.cpp in the loop over the words that match, in `match_queries`.
use k23_search_engine.Prelude.{
  ℕ, ◌+◌, ◌<◌, ◌≡◌, refl, sym, ap, ◌∙◌, List, [], ◌∷◌, Option, some, ◌>>=◌, arith, ◌==◌, leb, not,
  Bool, true, false, ◌&&◌, ◌||◌, bit, count_if, length, get_elem?, get_elem?_of_lt,
}
use native.Mathlib.Nat.{zero-add}
use k23_search_engine.Vector.{Vector}
use k23_search_engine.HashTable.{Table}
use k23_search_engine.HashTable.Keys.{Key}
use k23_search_engine.StringView.{equals}
use k23_search_engine.Engine.{Query, QueryResult, Entry}
use k23_search_engine.Engine.Keys.{word_key}
use k23_search_engine.Engine.Add.Posts.{weight, items_of-held}
use k23_search_engine.Engine.Results.{add_matched, add_words}
use k23_search_engine.Engine.Results.Hits.{
  IsServed, IsCurrent, IsExtended, nothing-IsExtended, both-IsExtended,
}
use k23_search_engine.Engine.Results.Posted.{is_there, is_due, and-false, add_matched-IsExtended}

-- Of an entry: one query, posted under one word.
abbrev pub is_post : ℕ → List ℕ → List ℕ → ℕ → Bool
is_post q w u p = equals u w && p == q

abbrev pub is_found : List (Vector ℕ) → ℕ → List ℕ → Entry → Bool
is_found payloads q w e = leb 1 (weight (is_post q w) payloads e)

-- An entry without a vector, or with a query that was deleted.
abbrev pub is_broken : List (Option Query) → List (Vector ℕ) → Entry → Bool
is_broken store payloads e =
    leb (length payloads) e.payload || leb 1 (weight (λ u p. not (is_there store p)) payloads e)

found_first : (d f : Bool) (n : ℕ) → (d && leb 1 (bit f + n)) ≡ ((d && f) || (d && leb 1 n))
found_first true true n = ground arith
found_first true false n = ap (leb 1) (zero-add n)
found_first false f n = refl

pub count_if-and :
    (b : Bool) (f : ℕ → Bool) (xs : List ℕ)
    → leb 1 (count_if (λ p. b && f p) xs) ≡ (leb 1 (count_if f xs) && b)
count_if-and true f xs = sym (and_true (leb 1 (count_if f xs)))
  where
    and_true : (b : Bool) → (b && true) ≡ b
    and_true true = refl
    and_true false = refl
count_if-and false f xs = ap (leb 1) (none_of xs) ∙ sym (and-false (leb 1 (count_if f xs)))
  where
    none_of : (xs : List ℕ) → count_if (λ p. false) xs ≡ 0
    none_of [] = refl
    none_of (x ∷ xs) = omega (arith, none_of xs)

whole_of :
    (store : List (Option Query)) (payloads : List (Vector ℕ)) (e : Entry) (n : ℕ)
    → bit (is_broken store payloads e) + n ≡ 0
    → (v : Vector ℕ) × (get_elem? payloads e.payload ≡ some v)
      × (count_if (λ p. not (is_there store p)) v.items ≡ 0)
      × (n ≡ 0)
whole_of store payloads e n h =
    let (inside, there, rest) =
      parts (length payloads) e.payload (weight (λ u p. not (is_there store p)) payloads e) n h in
    let (v, read) = get_elem?_of_lt payloads e.payload inside in
    (
      v,
      read,
      ap (count_if (λ p. not (is_there store p))) (sym (items_of-held payloads e.payload v read))
          ∙ there,
      rest,
    )
  where
    parts : (l p c n : ℕ) → bit (leb l p || leb 1 c) + n ≡ 0 → (p < l) × (c ≡ 0) × (n ≡ 0)
    parts l p c n h = (ground (arith, h), ground (arith, h), ground (arith, h))

module _ ⦃ids : Key ℕ⦄ (store : List (Option Query)) (served : IsServed store) where
  add_words-cons :
      (threshold : ℕ) (payloads : List (Vector ℕ)) (e : Entry) (es : List Entry) (v : Vector ℕ)
      (rt : Table ℕ QueryResult)
      → get_elem? payloads e.payload ≡ some v
      → add_words store threshold payloads (e ∷ es) rt
        ≡ (add_matched store threshold e.word v.items rt >>= add_words store threshold payloads es)
  unfolding add_words add_matched
  add_words-cons threshold payloads e es v rt read = rw (read, ◌>>=◌) refl

  found_here :
      (payloads : List (Vector ℕ)) (e : Entry) (v : Vector ℕ) (q : ℕ) (w : List ℕ)
      → get_elem? payloads e.payload ≡ some v
      → is_found payloads q w e ≡ (leb 1 (count_if (λ p. p == q) v.items) && equals e.word w)
  found_here payloads e v q w read =
      rw (items_of-held payloads e.payload v read)
        (count_if-and (equals e.word w) (λ p. p == q) v.items)

  pub add_words-IsExtended :
      (threshold : ℕ) (payloads : List (Vector ℕ)) (es : List Entry) (hits : List (ℕ × List ℕ))
      (rt : Table ℕ QueryResult)
      → count_if (is_broken store payloads) es ≡ 0
      → IsCurrent store hits rt
      → IsExtended store
          (λ q query w. is_due threshold query && leb 1 (count_if (is_found payloads q w) es))
          hits
          (add_words store threshold payloads es rt)
  unfolding add_words
  add_words-IsExtended threshold payloads [] hits rt whole current =
      nothing-IsExtended store _ hits rt current
        (λ q query w there. and-false (is_due threshold query))
  add_words-IsExtended threshold payloads (e ∷ es) hits rt whole current =
      let (v, read, there, rest) = whole_of store payloads e _ whole in
      rw (add_words-cons threshold payloads e es v rt read) (
        both-IsExtended store _ _ _ hits (add_matched store threshold e.word v.items rt) _
          (add_matched-IsExtended store served threshold e.word v.items hits rt there current)
          (λ mid rt1 now. add_words-IsExtended threshold payloads es mid rt1 rest now)
          (λ q query w at.
            found_first (is_due threshold query) (is_found payloads q w e) _
            ∙ ap
                (λ b.
                  (is_due threshold query && b)
                  || (is_due threshold query && leb 1 (count_if (is_found payloads q w) es)))
                (found_here payloads e v q w read)))
