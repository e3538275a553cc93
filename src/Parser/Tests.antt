-- ===== src/Parser/Tests.antt =====
-- Runs of include/qs/string_view.h and include/qs/parser.hpp.
use k23_search_engine.Prelude.{ℕ, ◌≡◌, List, [], ◌∷◌, some, arith, All}
use k23_search_engine.StringView.Split.{IsWord}
use k23_search_engine.Parser.{parse_string, join}
use k23_search_engine.Parser.Tokens.{
  parse_string-join, parse_string_stops, parse_string_loses_last, parse_string_total,
}

-- The separator is a space, 32.
abbrev words : List (List ℕ)
words = (97 ∷ 98 ∷ []) ∷ (99 ∷ []) ∷ []

words_clean : All (IsWord 32) words
words_clean = (
  record { nonempty = omega arith; clean = (ground arith, (ground arith, tt)) },
  (record { nonempty = omega arith; clean = (ground arith, tt) }, tt),
)

abbrev last_word : List ℕ
last_word = 100 ∷ []

parse_string-join_example : parse_string 32 (97 ∷ 98 ∷ 32 ∷ 99 ∷ []) ≡ some words
unfolding join
parse_string-join_example = parse_string-join 32 words words_clean

parse_string_stops_example : parse_string 32 (97 ∷ 98 ∷ 32 ∷ 99 ∷ 32 ∷ 32 ∷ 100 ∷ []) ≡ some words
unfolding join
parse_string_stops_example = parse_string_stops 32 words last_word words_clean

parse_string_loses_last_example :
    parse_string 32 (97 ∷ 98 ∷ 32 ∷ 99 ∷ 32 ∷ 100 ∷ 32 ∷ []) ≡ some words
unfolding join
parse_string_loses_last_example =
    parse_string_loses_last 32 words last_word words_clean
      (record { nonempty = omega arith; clean = (ground arith, tt) })

parse_string_total_example :
    (us : List (List ℕ)) × (parse_string 32 (32 ∷ 97 ∷ 98 ∷ []) ≡ some us) × All (IsWord 32) us
parse_string_total_example = parse_string_total 32 (32 ∷ 97 ∷ 98 ∷ [])
