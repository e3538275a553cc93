-- ===== src/Search.antt =====
-- include/qs/search.hpp: `binary_search`, over numbers. `right` is kept as `stop`, the position after
-- it, since it may be -1; a result of -1 is the inner `none`. The outer `none` is a fault: a read
-- outside the array, a number that an `int` of 32 bits does not hold, or fuel run out.
mod Tests
pub mod Sorted
use k23_search_engine.Prelude.{
  ℕ, zero, suc, ◌+◌, ◌-◌, ◌/◌, List, Option, none, some, ◌>>=◌, if◌then◌else◌, ltb, length, ◌^◌,
  get_elem?,
}

-- The numbers from here on are more than an `int` holds.
abbrev pub int_limit : ℕ
int_limit = 2 ^ 31

-- The `while`, with the sum `left + right` checked as an `int`; the fuel bounds the rounds.
pub search_loop : (fuel : ℕ) → List ℕ → (left stop : ℕ) → ℕ → Option (Option ℕ)
search_loop zero elems left stop x = none
search_loop (suc fuel) elems left stop x =
    let middle = (left + stop - 1) / 2 in
    let found = get_elem? elems middle >>= λ m.
    let upper = search_loop fuel elems (middle + 1) stop x in
    let lower = search_loop fuel elems left middle x in
    if ltb m x then upper else if ltb x m then lower else some (some middle) in
    let checked = if ltb (left + stop - 1) int_limit then found else none in
    if ltb left stop then checked else some none

-- `binary_search(data, size, search_elem)`, on an array of `size` elements; `int(size)` is checked
pub binary_search : List ℕ → ℕ → Option (Option ℕ)
unfolding search_loop
binary_search elems x =
    if ltb (length elems) int_limit
    then search_loop (suc (length elems)) elems 0 (length elems) x
    else none
