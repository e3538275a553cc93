-- ===== src/Parser.antt =====
-- include/qs/parser.hpp: `parse_string`, which hands the tokens of a text to a callback. The result
-- is the list of the tokens in the order of the calls. `none` is a fault of a view, or fuel run out.
mod Tests
pub mod Tokens
use k23_search_engine.Prelude.{
  ℕ, zero, suc, List, [], ◌∷◌, ◌++◌, Option, none, some, ◌>>=◌, true, false, length,
}
use k23_search_engine.StringView

-- The `while`, on the view that is left; a token that is `==` to `string_view::empty` ends it.
pub parse_loop : (fuel del : ℕ) → List ℕ → Option (List (List ℕ))
parse_loop zero del view = none
parse_loop (suc fuel) del view = do
  (token, view') ← StringView.split del 0 view
  elim (StringView.equals token []) [
    | true ↦ some []
    | false ↦ do rest ← parse_loop fuel del view'; some (token ∷ rest)
  ]

-- `parse_string(stream, del, f)`, for a text without its NUL.
pub parse_string : ℕ → List ℕ → Option (List (List ℕ))
unfolding parse_loop
parse_string del stream = parse_loop (suc (length stream)) del stream

-- The words of a text with one separator between any two.
unfoldable pub join : ℕ → List (List ℕ) → List ℕ
join del [] = []
join del (w ∷ []) = w
join del (w ∷ v ∷ ws) = w ++ del ∷ join del (v ∷ ws)
