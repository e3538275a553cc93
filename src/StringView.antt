-- ===== src/StringView.antt =====
-- include/qs/string_view.h and src/lib/string_view.cpp: a view is the list of the bytes from
-- `startp` to `endp`. The view whose pointers are null, `string_view::empty`, and one that ends
-- before it starts are both the empty list: `size` is 0 and `==` holds between them. `none` is a
-- read past the end of the text.
pub mod Split
use k23_search_engine.Prelude.{
  ℕ, zero, suc, ◌+◌, ◌-◌, ◌≤◌, List, [], ◌∷◌, ◌++◌, Option, none, some, ◌>>=◌, Bool, true, false,
  ◌&&◌, if◌then◌else◌, leb, ◌==◌, length, drop, take, get_elem?,
}

-- `string_view(const char *)`: the bytes before the NUL.
pub of_c_str : List ℕ → Option (List ℕ)
of_c_str [] = none
of_c_str (c ∷ s) = let rest = of_c_str s >>= λ v. some (c ∷ v) in if c == 0 then some [] else rest

-- `memcmp(a, b, n) == 0`
pub same_bytes : List ℕ → List ℕ → ℕ → Bool
same_bytes a b zero = true
same_bytes [] b (suc n) = false
same_bytes (x ∷ a) [] (suc n) = false
same_bytes (x ∷ a) (y ∷ b) (suc n) = x == y && same_bytes a b n

-- `operator==`
pub equals : List ℕ → List ℕ → Bool
unfolding same_bytes
equals v w = if length v == length w then same_bytes v w (length v) else false

-- `at(index)`, which throws out of bounds
pub at : List ℕ → ℕ → Option ℕ
at v index = if leb (length v) index then none else get_elem? v index

-- `substr(from, to)`, both ends included
pub substr : List ℕ → ℕ → ℕ → List ℕ
substr v from to = take (to + 1 - from) (drop from v)

-- The loop of `split` over `ss`: the bytes before the place where it stops, and those from there on.
pub scan : ℕ → List ℕ → List ℕ × List ℕ
scan needle [] = ([], [])
scan needle (c ∷ []) = ([], c ∷ [])
scan needle (c ∷ d ∷ s) =
    let (before, here) = scan needle (d ∷ s) in
    if c == needle then ([], c ∷ d ∷ s) else (c ∷ before, here)

-- What `split` does with the place where the loop stopped: the token, and the view that is left.
pub cut : ℕ → List ℕ → List ℕ → List ℕ × List ℕ
cut needle before [] = ([], [])
cut needle before (c ∷ []) = if c == needle then ([], []) else (before ++ c ∷ [], [])
cut needle before (c ∷ d ∷ s) = (before, d ∷ s)

-- `split(needle, from)`
pub split : (needle from : ℕ) → List ℕ → Option (List ℕ × List ℕ)
unfolding scan cut
split needle from [] = some ([], [])
split needle from (c ∷ s) =
    if leb (length (c ∷ s)) from
    then none
    else let (before, here) = scan needle (drop from (c ∷ s)) in some (cut needle before here)
