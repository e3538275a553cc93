-- ===== src/Engine/Documents/Near.antt =====
-- The three jobs of a word of a document in src/core.cpp, and the loop over its words.
use k23_search_engine.Prelude.{
  ℕ, ◌+◌, ◌-◌, ◌≡◌, refl, sym, ap, ◌∙◌, List, [], ◌∷◌, some, ◌>>=◌, arith, ◌==◌, leb, not, Bool,
  true, false, ◌&&◌, ◌||◌, bit, count_if, length, get_elem?, get_elem?_of_lt, All,
}
use native.Mathlib.Nat.{zero-add}
use k23_search_engine.Distances.{edit_buffer_size, edit_distance, hamming_distance}
use k23_search_engine.Distances.Levenshtein.{lev}
use k23_search_engine.Distances.Hamming.{mismatches}
use k23_search_engine.BkTree.Words.{edit_distance-IsMetric, hamming_distance-IsMetric}
use k23_search_engine.HashTable.{Table}
use k23_search_engine.HashTable.Keys.{Key}
use k23_search_engine.HashTable.Assoc.{assoc}
use k23_search_engine.HashTable.Valid.{IsValid}
use k23_search_engine.HashSet.Members.{is_among}
use k23_search_engine.StringView.{equals}
use k23_search_engine.StringView.Split.{equals_iff}
use k23_search_engine.Engine.{
  Engine, Query, QueryResult, Index, MatchType, exact_match, hamming_dist, edit_dist, unknown,
  deref, min_word_length,
}
use k23_search_engine.Engine.Keys.{word_key}
use k23_search_engine.Engine.Results.{match_queries}
use k23_search_engine.Engine.Results.Hits.{
  IsServed, IsCurrent, IsExtended, nothing-IsExtended, both-IsExtended,
}
use k23_search_engine.Engine.Results.Posted.{is_there, and-false}
use k23_search_engine.Engine.Results.Thresholds.{is_posted, IsAlive, match_queries-IsExtended}
use k23_search_engine.Engine.Results.Listed.{is_listed, match_exact-IsExtended}
use k23_search_engine.Engine.Documents.{match_word, match_words}
use k23_search_engine.Engine.Documents.Exact.{items_in}
use k23_search_engine.Engine.Documents.Stored.{IsReady}
use k23_search_engine.Engine.Documents.Tried.{is_counted, tried_of_counted}
use k23_search_engine.Engine.Documents.Begin.{IsWord, words_in, hamming_slot_lem}

-- Whether a word of a query and a word of a document match.
unfoldable pub is_match : MatchType → ℕ → List ℕ → List ℕ → Bool
is_match exact_match d w dw = equals dw w
is_match hamming_dist d w dw = length w == length dw && leb (mismatches w dw) d
is_match edit_dist d w dw = leb (lev w dw) d
is_match (unknown n) d w dw = false

abbrev pub is_exact : MatchType → Bool
is_exact exact_match = true
is_exact hamming_dist = false
is_exact edit_dist = false
is_exact (unknown n) = false

abbrev pub is_hamming : MatchType → Bool
is_hamming exact_match = false
is_hamming hamming_dist = true
is_hamming edit_dist = false
is_hamming (unknown n) = false

abbrev pub is_edit : MatchType → Bool
is_edit exact_match = false
is_edit hamming_dist = false
is_edit edit_dist = true
is_edit (unknown n) = false

abbrev pub is_word_of : Query → List ℕ → Bool
is_word_of query w = is_among w (words_in query.unique_words)

module _ ⦃ids : Key ℕ⦄ where
  -- The indices hold the words of the queries, each under its type, and no query that was deleted; the
  -- counters have the thresholds of the active queries.
  pub record IsFiled (e : Engine) : Type 0 where
    pub edit :
        (q : ℕ) (query : Query) (w : List ℕ)
        → deref e.store q ≡ some query
        → is_posted e.edit_tree q w ≡ (is_edit query.match_type && is_word_of query w)
    pub hamming :
        (i : ℕ) (h : Index) (q : ℕ) (query : Query) (w : List ℕ)
        → get_elem? e.hamming_trees i ≡ some h
        → deref e.store q ≡ some query
        → is_posted h q w
          ≡ (is_hamming query.match_type && (length w == i + min_word_length && is_word_of query w))
    pub exact :
        (q : ℕ) (query : Query) (w : List ℕ)
        → deref e.store q ≡ some query
        → is_listed e.exact q w ≡ (is_exact query.match_type && is_word_of query w)
    pub edit_alive : IsAlive e.store e.edit_tree
    pub hamming_alive :
        (i : ℕ) (h : Index) → get_elem? e.hamming_trees i ≡ some h → IsAlive e.store h
    pub exact_alive :
        (w : List ℕ)
        → count_if (λ q. not (is_there e.store q)) (items_in (assoc w e.exact.slots)) ≡ 0
    pub edit_counted :
        (q : ℕ) (query : Query)
        → deref e.store q ≡ some query
        → query.active ≡ true
        → is_edit query.match_type ≡ true
        → is_counted edit_dist (assoc query.match_dist e.threshold_counters.slots) ≡ true
    pub hamming_counted :
        (q : ℕ) (query : Query)
        → deref e.store q ≡ some query
        → query.active ≡ true
        → is_hamming query.match_type ≡ true
        → is_counted hamming_dist (assoc query.match_dist e.threshold_counters.slots) ≡ true
    pub words_valid :
        (q : ℕ) (query : Query) → deref e.store q ≡ some query → IsValid query.unique_words

-- The match of a word of the query, split into the indices.
pub match_parts :
    (t : MatchType) (d : ℕ) (w dw : List ℕ)
    (active tried_e tried_h posted_e posted_h listed here here' : Bool)
    → posted_e ≡ (is_edit t && here)
    → posted_h ≡ (is_hamming t && (length w == length dw && here))
    → listed ≡ (is_exact t && here')
    → (equals dw w ≡ true → here' ≡ here)
    → (active ≡ true → is_edit t ≡ true → tried_e ≡ true)
    → (active ≡ true → is_hamming t ≡ true → tried_h ≡ true)
    → (active && (here && is_match t d w dw)) ≡ (
        (active && (tried_e && (leb (lev w dw) d && posted_e)))
        || ((active && (tried_h && (leb (mismatches w dw) d && posted_h)))
            || (active && (listed && equals dw w))))
unfolding is_match
match_parts t d w dw false te th pe ph l here here' e h x same ee eh = refl
match_parts exact_match d w dw true te th pe ph l here here' e h x same ee eh =
    rw (e, h, x)
      (exact_part te th (leb (lev w dw) d) (leb (mismatches w dw) d) (equals dw w) here here' same)
  where
    exact_part :
        (a b c d e here here' : Bool)
        → (e ≡ true → here' ≡ here)
        → (here && e) ≡ ((a && (c && false)) || ((b && (d && false)) || (here' && e)))
    exact_part a b c d true here here' s =
        rw (s refl, and-false c, and-false a, and-false d, and-false b) refl
    exact_part a b c d false here here' s =
        rw (and-false c, and-false a, and-false d, and-false b, and-false here, and-false here')
          refl
match_parts hamming_dist d w dw true te th pe ph l here here' e h x same ee eh =
    rw (e, h, x, eh refl refl)
      (hamming_part te (leb (lev w dw) d) (length w == length dw) (leb (mismatches w dw) d) here)
  where
    turned : (c d here : Bool) → (here && (c && d)) ≡ (false || ((d && (c && here)) || false))
    turned true true true = refl
    turned true true false = refl
    turned true false here = and-false here
    turned false true here = and-false here
    turned false false here = and-false here

    hamming_part :
        (a b c d here : Bool)
        → (here && (c && d)) ≡ ((a && (b && false)) || ((d && (c && here)) || false))
    hamming_part a b c d here = rw (and-false b, and-false a) (turned c d here)
match_parts edit_dist d w dw true te th pe ph l here here' e h x same ee eh =
    rw (e, h, x, ee refl refl) (edit_part th (leb (mismatches w dw) d) (leb (lev w dw) d) here)
  where
    edit_part : (a b c here : Bool) → (here && c) ≡ ((c && here) || ((a && (b && false)) || false))
    edit_part a b true true = refl
    edit_part a b true false = rw (and-false b, and-false a) refl
    edit_part a b false here = rw (and-false here, and-false b, and-false a) refl
match_parts (unknown n) d w dw true te th pe ph l here here' e h x same ee eh =
    rw
      (
        e,
        h,
        x,
        and-false here,
        and-false (leb (lev w dw) d),
        and-false te,
        and-false (leb (mismatches w dw) d),
        and-false th,
      )
      refl

-- The words of a query that match a word of the document.
abbrev pub word_hits : List ℕ → ℕ → Query → List ℕ → Bool
word_hits dw q query w =
    query.active && (is_word_of query w && is_match query.match_type query.match_dist w dw)

-- The words of a query that match a word of a list.
abbrev pub all_hits : List (List ℕ) → ℕ → Query → List ℕ → Bool
all_hits dws q query w =
    query.active
    && (is_word_of query w && leb 1 (count_if (is_match query.match_type query.match_dist w) dws))

module _ ⦃ids : Key ℕ⦄ (buffer : List ℕ) (sort : List ℕ → List ℕ)
    (wide : length buffer ≡ edit_buffer_size) (e : Engine) (ready : IsReady e) (filed : IsFiled e)
    (served : IsServed e.store) (counters : IsValid e.threshold_counters) where
  listed_there :
      (query : Query) (dw w : List ℕ)
      → equals dw w ≡ true
      → is_word_of query dw ≡ is_word_of query w
  listed_there query dw w same = ap (is_word_of query) ((equals_iff dw w).0 same)

  pub match_word-IsExtended :
      (dw : List ℕ) (hits : List (ℕ × List ℕ)) (rt : Table ℕ QueryResult)
      → IsWord dw
      → IsCurrent e.store hits rt
      → IsExtended e.store (word_hits dw) hits (match_word buffer sort e dw rt)
  unfolding match_word
  match_word-IsExtended dw hits rt (long, short) current =
      let i = length dw - min_word_length in
      let (h, read) = get_elem?_of_lt e.hamming_trees i (omega (arith, ready.width, long, short)) in
      let slot : length dw ≡ i + min_word_length = omega (arith, long) in
      rw (hamming_slot_lem dw (long, short), ◌>>=◌, read, ◌>>=◌)
        (both-IsExtended e.store _ _ _ hits
          (match_queries e.store (edit_distance buffer) e.threshold_counters e.edit_tree dw
            edit_dist rt)
          _
          (match_queries-IsExtended e.store served (edit_distance-IsMetric buffer wide) e.edit_tree
            ready.edit filed.edit_alive dw (omega (arith, short)) edit_dist e.threshold_counters
            hits rt counters current)
          (λ mid rt1 now.
            both-IsExtended e.store _ _ _ mid
              (match_queries e.store hamming_distance e.threshold_counters h dw hamming_dist rt1) _
              (match_queries-IsExtended e.store served
                (hamming_distance-IsMetric (i + min_word_length)) h (ready.hamming i h read)
                (filed.hamming_alive i h read) dw slot hamming_dist e.threshold_counters mid rt1
                counters now)
              (λ mid2 rt2 now2.
                match_exact-IsExtended e.store served e.exact dw mid2 rt2 ready.exact.valid
                  (filed.exact_alive dw) now2)
              (λ q query w there. refl))
          (λ q query w there.
            match_parts query.match_type query.match_dist w dw query.active _ _ _ _ _
              (is_word_of query w) (is_word_of query dw) (filed.edit q query w there)
              (filed.hamming i h q query w read there
                ∙ ap (λ n. is_hamming query.match_type && (length w == n && is_word_of query w))
                    (sym slot))
              (filed.exact q query dw there) (listed_there query dw w)
              (λ a b.
                tried_of_counted edit_dist e.threshold_counters query.match_dist
                  (filed.edit_counted q query there a b))
              (λ a b.
                tried_of_counted hamming_dist e.threshold_counters query.match_dist
                  (filed.hamming_counted q query there a b))))

  next_hit :
      (a m n : Bool) (k : ℕ)
      → (a && (m && leb 1 (bit n + k))) ≡ ((a && (m && n)) || (a && (m && leb 1 k)))
  next_hit false m n k = refl
  next_hit true false n k = refl
  next_hit true true true k = ground arith
  next_hit true true false k = ap (leb 1) (zero-add k)

  match_words-cons :
      (dw : List ℕ) (dws : List (List ℕ)) (rt : Table ℕ QueryResult)
      → match_words buffer sort e (dw ∷ dws) rt
        ≡ (match_word buffer sort e dw rt >>= match_words buffer sort e dws)
  unfolding match_words match_word
  match_words-cons dw dws rt = refl

  -- Where the indices are as their operations need them and hold the words of the queries, for queries
  -- that need a word and have ids of their own, and for document words of 4 to 30 bytes: the jobs of the
  -- words end without a fault, and the words that they add for a query are those of the query that match
  -- a word of the document in the query's way and within its distance, if the query is active.
  pub match_words-IsExtended :
      (dws : List (List ℕ)) (hits : List (ℕ × List ℕ)) (rt : Table ℕ QueryResult)
      → All IsWord dws
      → IsCurrent e.store hits rt
      → IsExtended e.store (all_hits dws) hits (match_words buffer sort e dws rt)
  unfolding match_words
  match_words-IsExtended [] hits rt words current =
      nothing-IsExtended e.store _ hits rt current (λ q query w there.
        ap (λ b. query.active && b) (and-false (is_word_of query w)) ∙ and-false query.active)
  match_words-IsExtended (dw ∷ dws) hits rt words current = rw (match_words-cons dw dws rt) (
      both-IsExtended e.store _ _ _ hits (match_word buffer sort e dw rt) _
        (match_word-IsExtended dw hits rt words.0 current)
        (λ mid rt1 now. match_words-IsExtended dws mid rt1 words.1 now)
        (λ q query w there. next_hit query.active (is_word_of query w) _ _))
