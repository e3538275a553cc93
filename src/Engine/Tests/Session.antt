-- ===== src/Engine/Tests/Session.antt =====
-- A session with src/core.cpp: the query "lorem" within Hamming distance 2, and the document "larem".
use k23_search_engine.Prelude.{
  Option, ap, ◌+◌, ◌-◌, ◌%◌, ◌^◌, ◌++◌, length, ℕ, ◌<◌, ◌≡◌, refl, sym, subst, List, [], ◌∷◌, none,
  some, ◌>>=◌, arith, replicate, set, All,
}
use k23_search_engine.Parser.{parse_string, join}
use k23_search_engine.Parser.Tokens.{parse_string-join}
use k23_search_engine.StringView.Split.{IsWord}
use k23_search_engine.Hash.{djb2}
use k23_search_engine.HashTable
use k23_search_engine.HashTable.Assoc.{assoc}
use k23_search_engine.HashTable.Entries.{new_empty}
use k23_search_engine.HashTable.Iterator.{held}
use k23_search_engine.HashSet
use k23_search_engine.HashSet.{HashSet}
use k23_search_engine.Engine.{Engine, Query, hamming_dist, initial, int_size, deref, success, fail}
use k23_search_engine.Engine.Keys.{word_key}
use k23_search_engine.Engine.Start.{words_of, start_query}
use k23_search_engine.Engine.Documents.{wait_all_finish, match_document, end_query}
use k23_search_engine.Engine.Documents.Begin
use k23_search_engine.Engine.Documents.Begin.{words_in}
use k23_search_engine.Engine.Documents.Serving.{
  IsServing, IsJoined, query_for, start_query-IsServing,
}
use k23_search_engine.Engine.Documents.Ended.{IsEnded, end_query-IsServing, end_query_unknown}
use k23_search_engine.Engine.Documents.Delivered.{IsDelivered, match_document-IsDelivered}
use k23_search_engine.Engine.Documents.Reached.{
  IsReached, at_first, after_query, initial-IsServing, Reached-IsShown,
}
use k23_search_engine.Engine.Documents.Shown.{Session, IsShown}
use k23_search_engine.Engine.Tests.{
  id_key, lorem, larem, one_word, one_word-lengths, local_array, local_array-width,
}

-- The set of the word of the document.
abbrev other_word : HashSet (List ℕ)
other_word = record {
  slots = set (replicate 53 none) 27 (some (larem, 0));
  capacity = 53;
  size = 1;
}

larem-token : All (IsWord 32) (larem ∷ [])
larem-token = (
  record {
    nonempty = omega arith;
    clean = (ground arith, (ground arith, (ground arith, (ground arith, (ground arith, tt)))));
  },
  tt,
)

lorem-token : All (IsWord 32) (lorem ∷ [])
lorem-token = (
  record {
    nonempty = omega arith;
    clean = (ground arith, (ground arith, (ground arith, (ground arith, (ground arith, tt)))));
  },
  tt,
)

parsed : (w : List ℕ) → All (IsWord 32) (w ∷ []) → parse_string 32 w ≡ some (w ∷ [])
unfolding join
parsed w h = parse_string-join 32 (w ∷ []) h

lorem-words : words_of 5 lorem ≡ some one_word
unfolding words_of HashSet.with_capacity HashSet.insert_key HashTable.insert HashTable.new djb2
lorem-words = rw (parsed lorem lorem-token, ◌>>=◌) refl

larem-words : words_of 10 larem ≡ some other_word
unfolding words_of HashSet.with_capacity HashSet.insert_key HashTable.insert HashTable.new djb2
larem-words = rw (parsed larem larem-token, ◌>>=◌) refl

larem-lengths : All Begin.IsWord (words_in other_word)
unfolding held
larem-lengths = ((omega arith, omega arith), tt)

lorem-positive : 0 < HashSet.get_size one_word
unfolding HashSet.get_size
lorem-positive = omega arith

new_store : length initial.store + 1 < int_size
unfolding initial
new_store = omega arith

new_id : assoc 7 initial.queries.slots ≡ none
unfolding initial
new_id = new_empty 4096 7

start_query-IsServing_example :
    (e' : Engine) × ((start_query 7 lorem hamming_dist 2 initial >>= λ r.
    wait_all_finish local_array (λ xs. xs) [] r.0)
      ≡ some e')
    × IsJoined (query_for 7 hamming_dist 2 one_word) initial e'
start_query-IsServing_example =
    start_query-IsServing local_array (λ xs. xs) [] 7 lorem hamming_dist 2 one_word initial
      local_array-width tt lorem-words lorem-positive one_word-lengths new_store new_id
      initial-IsServing

-- The engine after the query.
abbrev with_lorem : Engine
with_lorem =
    (start_query-IsServing local_array (λ xs. xs) [] 7 lorem hamming_dist 2 one_word initial
      local_array-width tt lorem-words lorem-positive one_word-lengths new_store new_id
      initial-IsServing).0

with_lorem-run :
    (start_query 7 lorem hamming_dist 2 initial >>= λ r.
    wait_all_finish local_array (λ xs. xs) [] r.0)
    ≡ some with_lorem
with_lorem-run =
    (start_query-IsServing local_array (λ xs. xs) [] 7 lorem hamming_dist 2 one_word initial
      local_array-width tt lorem-words lorem-positive one_word-lengths new_store new_id
      initial-IsServing).1

-- The session with the query.
abbrev asked_lorem : Session
asked_lorem = record { queries = query_for 7 hamming_dist 2 one_word ∷ []; asked = [] }

with_lorem-IsReached : IsReached local_array (λ xs. xs) asked_lorem with_lorem
with_lorem-IsReached =
    after_query [] 7 lorem hamming_dist 2 one_word (record { queries = []; asked = [] }) initial
      with_lorem at_first tt lorem-words lorem-positive one_word-lengths new_store new_id
      with_lorem-run

Reached-IsShown_example : IsShown asked_lorem with_lorem
Reached-IsShown_example =
    Reached-IsShown local_array (λ xs. xs) asked_lorem with_lorem local_array-width (λ id xs. refl)
      with_lorem-IsReached

with_lorem-IsServing : IsServing with_lorem
with_lorem-IsServing =
    (Reached-IsShown local_array (λ xs. xs) asked_lorem with_lorem local_array-width (λ id xs. refl)
      with_lorem-IsReached).serving

match_document-IsDelivered_example :
    (e' : Engine) × ((match_document local_array (λ xs. xs) [] 1 larem with_lorem >>= λ r.
    wait_all_finish local_array (λ xs. xs) [] r.0)
      ≡ some e')
    × IsDelivered 1 other_word with_lorem e'
match_document-IsDelivered_example =
    match_document-IsDelivered local_array (λ xs. xs) [] [] 1 larem other_word with_lorem
      local_array-width (λ id xs. refl) larem-words larem-lengths with_lorem-IsServing

with_lorem-IsJoined : IsJoined (query_for 7 hamming_dist 2 one_word) initial with_lorem
with_lorem-IsJoined =
    (start_query-IsServing local_array (λ xs. xs) [] 7 lorem hamming_dist 2 one_word initial
      local_array-width tt lorem-words lorem-positive one_word-lengths new_store new_id
      initial-IsServing).2

first_query :
    (store : List (Option Query)) (x : Query)
    → store ≡ initial.store ++ some x ∷ []
    → (deref store 0 ≡ some x) × (length store < int_size)
unfolding initial deref
first_query store x e =
    (ap (λ s. deref s 0) e, subst (λ s. length s < int_size) (sym e) (omega arith))

end_query-IsServing_example :
    (e' : Engine) × (end_query local_array (λ xs. xs) [] 7 with_lorem ≡ some (e', success))
    × IsEnded 0 (query_for 7 hamming_dist 2 one_word) with_lorem e'
end_query-IsServing_example =
    end_query-IsServing local_array (λ xs. xs) [] 0 (query_for 7 hamming_dist 2 one_word) with_lorem
      (first_query with_lorem.store (query_for 7 hamming_dist 2 one_word)
        with_lorem-IsJoined.store).0
      refl
      (first_query with_lorem.store (query_for 7 hamming_dist 2 one_word)
        with_lorem-IsJoined.store).1
      with_lorem-IsServing

end_query_unknown_example :
    end_query local_array (λ xs. xs) [] 7 initial
    ≡ some
        (record initial { active_queries = (initial.active_queries + 2 ^ 64 - 1) % 2 ^ 64 }, fail)
end_query_unknown_example =
    end_query_unknown local_array (λ xs. xs) [] 7 initial new_id initial-IsServing
