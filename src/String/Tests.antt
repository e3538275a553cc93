-- ===== src/String/Tests.antt =====
-- Strings of include/qs/string.h.
use k23_search_engine.Prelude.{◌≡◌, refl, [], ◌∷◌, none, some, false, true}
use k23_search_engine.String.{
  String, empty, copy, cat, sanitize, at, less, greater, less_or_equal, greater_or_equal,
}
use k23_search_engine.String.Texts.{IsText}
use k23_search_engine.String.Build.{cat-IsText}
use k23_search_engine.String.Sanitize.{without, without_all, sanitize-IsText}
use k23_search_engine.String.Compare.{at-eq-get_elem?, less-prefix}

-- "ab.", with a byte to spare, and "."
abbrev ab_dot : String
ab_dot = record { str = some (some 97 ∷ some 98 ∷ some 46 ∷ some 0 ∷ none ∷ []); cap = 5; len = 3 }

abbrev dot : String
dot = record { str = some (some 46 ∷ some 0 ∷ []); cap = 2; len = 1 }

ab_dot-IsText : IsText ab_dot (97 ∷ 98 ∷ 46 ∷ [])
ab_dot-IsText = record { rest = none ∷ []; held = refl; length_is = refl; room = refl }

dot-IsText : IsText dot (46 ∷ [])
dot-IsText = record { rest = []; held = refl; length_is = refl; room = refl }

-- A default string has a null pointer, which a copy hands to `memcpy`.
copy_of_empty : copy empty ≡ none
unfolding copy
copy_of_empty = refl

cat-IsText_example : (r : String) × (cat ab_dot dot ≡ some r) × IsText r (97 ∷ 98 ∷ 46 ∷ 46 ∷ [])
cat-IsText_example = cat-IsText ab_dot dot (97 ∷ 98 ∷ 46 ∷ []) (46 ∷ []) ab_dot-IsText dot-IsText

sanitize-IsText_example :
    (r : String) × (sanitize ab_dot dot ≡ some r) × IsText r (97 ∷ 98 ∷ []) × (r.cap ≡ 5)
unfolding without_all without
sanitize-IsText_example =
    sanitize-IsText ab_dot dot (97 ∷ 98 ∷ 46 ∷ []) (46 ∷ []) ab_dot-IsText dot-IsText
      (refl, (refl, (refl, tt))) (refl, tt)

at-eq-get_elem?_example : at ab_dot 3 ≡ none
at-eq-get_elem?_example = at-eq-get_elem? ab_dot (97 ∷ 98 ∷ 46 ∷ []) 3 ab_dot-IsText

-- "." and ".ab"
abbrev dot_ab : String
dot_ab = record { str = some (some 46 ∷ some 97 ∷ some 98 ∷ some 0 ∷ []); cap = 4; len = 3 }

less-prefix_example :
    (less dot dot_ab ≡ some false)
    × (less dot_ab dot ≡ some false)
    × (greater dot dot_ab ≡ some false)
    × (greater dot_ab dot ≡ some false)
    × (less_or_equal dot dot_ab ≡ some true)
    × (less_or_equal dot_ab dot ≡ some true)
    × (greater_or_equal dot dot_ab ≡ some true)
    × (greater_or_equal dot_ab dot ≡ some true)
less-prefix_example =
    less-prefix dot dot_ab (46 ∷ []) (97 ∷ 98 ∷ []) dot-IsText
      (record { rest = []; held = refl; length_is = refl; room = refl })
