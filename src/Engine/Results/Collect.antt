-- ===== src/Engine/Results/Collect.antt =====
-- The words that `add_query_to_doc_results` of src/core.cpp collects for one query.
use k23_search_engine.Prelude.{
  ℕ, ◌+◌, ◌≤◌, ◌<◌, ◌≡◌, refl, sym, ap, ◌∙◌, List, [], ◌∷◌, some, ◌>>=◌, arith, ◌==◌, leb, not, bit,
  Bool, true, false, Bool-cases, inl, inr,
}
use k23_search_engine.HashTable.Valid.{IsValid}
use k23_search_engine.HashSet
use k23_search_engine.HashSet.{HashSet}
use k23_search_engine.HashSet.Members.{
  is_among, insert_key-is_among, contains-with_capacity, with_capacity-IsValid,
  get_size-with_capacity,
}
use k23_search_engine.Engine.{Query, QueryResult}
use k23_search_engine.Engine.Keys.{word_key}
use k23_search_engine.Engine.Results.{settle, with_word, new_result}

-- How many different words a list has.
unfoldable pub distinct : List (List ℕ) → ℕ
distinct [] = 0
distinct (w ∷ ws) = bit (not (is_among w ws)) + distinct ws

-- How many words a query needs.
abbrev pub needed : Query → ℕ
needed query = HashSet.get_size query.unique_words

-- The result of a query after the words of a list, the last one first.
pub record IsCollected (q : ℕ) (query : Query) (seen : List (List ℕ)) (res : QueryResult)
    : Type 0 where
  pub origin : res.query ≡ q
  pub flag : res.matched ≡ leb (needed query) (distinct seen)
  pub valid : res.matched ≡ false → IsValid res.matched_words
  pub holds :
      res.matched ≡ false
      → (w : List ℕ) → HashSet.contains res.matched_words w ≡ some (is_among w seen)
  pub counted : res.matched ≡ false → HashSet.get_size res.matched_words ≡ distinct seen

pub new_result_open : (q : ℕ) → (new_result q).matched ≡ false
unfolding new_result
new_result_open q = refl

pub new_result-IsCollected :
    (query : Query) (q : ℕ) → 0 < needed query → IsCollected q query [] (new_result q)
unfolding new_result distinct is_among
new_result-IsCollected query q positive = record {
  origin = refl;
  flag = ground (arith, positive);
  valid = λ e. with_capacity-IsValid 10;
  holds = λ e w. contains-with_capacity 10 w;
  counted = λ e. get_size-with_capacity (List ℕ) 10;
}

-- A matched result stays as it is.
pub matched-IsCollected :
    (q : ℕ) (query : Query) (seen : List (List ℕ)) (word : List ℕ) (res : QueryResult)
    → res.matched ≡ true
    → IsCollected q query seen res
    → IsCollected q query (word ∷ seen) res
unfolding distinct
matched-IsCollected q query seen word res matched c =
    let flag = c.flag in
    record {
      origin = c.origin;
      flag = ground (arith, matched, flag);
      valid = λ e. absurd cc;
      holds = λ e. absurd cc;
      counted = λ e. absurd cc;
    }

few_of : (b : Bool) (n needed : ℕ) → leb needed n ≡ false → bit (not b) + n ≤ needed
few_of b n needed h = ground arith

settled :
    (q : ℕ) (query : Query) (seen : List (List ℕ)) (res : QueryResult)
    → res.query ≡ q
    → res.matched ≡ false
    → distinct seen ≤ needed query
    → IsValid res.matched_words
    → ((w : List ℕ) → HashSet.contains res.matched_words w ≡ some (is_among w seen))
    → HashSet.get_size res.matched_words ≡ distinct seen
    → IsCollected q query seen (settle query res)
unfolding settle
settled q query seen res origin unmatched few valid holds counted =
    elim (Bool-cases (HashSet.get_size res.matched_words == needed query)) [
      | inl all ↦ rw all (record {
        origin = origin;
        flag = ground (arith, all, counted);
        valid = λ e. absurd cc;
        holds = λ e. absurd cc;
        counted = λ e. absurd cc;
      })
      | inr less ↦ rw less (record {
        origin = origin;
        flag = unmatched ∙ ground (arith, less, counted, few);
        valid = λ e. valid;
        holds = λ e. holds;
        counted = λ e. counted;
      })
    ]

-- One more word for a result that is not matched.
pub with_word-IsCollected :
    (q : ℕ) (query : Query) (seen : List (List ℕ)) (word : List ℕ) (res : QueryResult)
    → res.matched ≡ false
    → IsCollected q query seen res
    → (res' : QueryResult) × (with_word word res ≡ some res')
      × IsCollected q query (word ∷ seen) (settle query res')
unfolding with_word distinct
with_word-IsCollected q query seen word res unmatched c =
    let (r, run, valid, holds, size) =
      insert_key-is_among res.matched_words word seen (c.valid unmatched) (c.holds unmatched) in
    let flag = c.flag in
    let counted = c.counted unmatched in
    (
      record res { matched_words = r.0 },
      rw (run, ◌>>=◌) refl,
      settled q query (word ∷ seen) (record res { matched_words = r.0 }) c.origin unmatched
          (few_of (is_among word seen) (distinct seen) (needed query) (sym flag ∙ unmatched)) valid
          holds (size ∙ ap (λ n. n + bit (not (is_among word seen))) counted ∙ omega arith),
    )
