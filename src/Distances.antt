-- ===== src/Distances.antt =====
-- src/lib/distances.cpp: `hamming_distance` and `edit_distance`.
-- A `string_view` is the list of its bytes; a `char *` is the list of the bytes from it on.
-- `none` is a read or write outside an array; the exception of `hamming_distance` is a value of
-- `hamming_result` of its own, and `none` to the callers of `hamming_distance` as well. The `int`
-- casts of the lengths are exact below 2 ^ 31, which the theorems' bound on the lengths implies.
mod Tests
pub mod Levenshtein
pub mod Scripts
pub mod Trim
pub mod Rows
pub mod Edit
pub mod Hamming
use k23_search_engine.Prelude.{
  ℕ, zero, suc, ◌+◌, ◌-◌, min, Bool, not, List, Option, none, some, ◌>>=◌, if◌then◌else◌, ltb, ◌==◌,
  bit, length, get_elem?, drop, store,
}

-- `(int)(a != b)`
abbrev pub mismatch : ℕ → ℕ → ℕ
mismatch a b = bit (not (a == b))

-- The loop over `i`, with the rounds left.
pub hamming_loop : (rounds i dist : ℕ) (c1 c2 : List ℕ) → Option ℕ
hamming_loop zero i dist c1 c2 = some dist
hamming_loop (suc n) i dist c1 c2 = do
  a ← get_elem? c1 i
  b ← get_elem? c2 i
  hamming_loop n (i + 1) (dist + mismatch a b) c1 c2

-- `hamming_distance`: the outer `none` is a read outside a word, the inner one is the exception.
pub hamming_result : List ℕ → List ℕ → Option (Option ℕ)
unfolding hamming_loop
hamming_result s1 s2 =
    if not (length s1 == length s2)
    then some none
    else (hamming_loop (length s1) 0 0 s1 s2 >>= λ dist. some (some dist))

-- What its callers go on with: nothing after either.
pub hamming_distance : List ℕ → List ℕ → Option ℕ
unfolding hamming_result
hamming_distance s1 s2 = hamming_result s1 s2 >>= λ r. r

-- MAX_WORD_LENGTH and EDIT_BUFFER_SIZE
abbrev pub max_word_length : ℕ
max_word_length = 31

abbrev pub edit_buffer_size : ℕ
edit_buffer_size = max_word_length + max_word_length

pub init_edit_buffer : (rounds i : ℕ) → List ℕ → Option (List ℕ)
init_edit_buffer zero i buffer = some buffer
init_edit_buffer (suc n) i buffer = do filled ← store buffer i i; init_edit_buffer n (i + 1) filled

-- The first `while`: it moves both pointers and shortens both lengths.
pub skip_prefix :
    (max_str : List ℕ) (max_len : ℕ) (min_str : List ℕ) (min_len : ℕ)
    → Option (List ℕ × ℕ × List ℕ × ℕ)
skip_prefix max_str max_len min_str zero = some (max_str, max_len, min_str, 0)
skip_prefix max_str max_len min_str (suc min_len) = do
  a ← get_elem? max_str 0
  b ← get_elem? min_str 0
  if a == b
      then skip_prefix (drop 1 max_str) (max_len - 1) (drop 1 min_str) min_len
      else some (max_str, max_len, min_str, suc min_len)

-- The second `while`: it shortens both lengths.
pub skip_suffix : (max_str min_str : List ℕ) (max_len min_len : ℕ) → Option (ℕ × ℕ)
skip_suffix max_str min_str max_len zero = some (max_len, 0)
skip_suffix max_str min_str max_len (suc min_len) = do
  a ← get_elem? max_str (max_len - 1)
  b ← get_elem? min_str min_len
  if a == b then skip_suffix max_str min_str (max_len - 1) min_len else some (max_len, suc min_len)

module _ (max_str min_str : List ℕ) where
  -- The inner loop over `j`, in row `i`.
  pub fill_row : (rounds i j prev : ℕ) → List ℕ → Option (List ℕ)
  fill_row zero i j prev d = some d
  fill_row (suc n) i j prev d = do
    a ← get_elem? min_str (i - 1)
    b ← get_elem? max_str (j - 1)
    let sub = prev + mismatch a b
    del ← get_elem? d (j - 1)
    ins ← get_elem? d j
    d' ← store d j (min sub (min del ins + 1))
    fill_row n i (j + 1) ins d'

  -- The outer loop over `i`.
  pub fill_rows : (rounds i max_len : ℕ) → List ℕ → Option (List ℕ)
  fill_rows zero i max_len d = some d
  fill_rows (suc n) i max_len d = do
    started ← store d 0 i
    d' ← fill_row max_len i 1 (i - 1) started
    fill_rows n (i + 1) max_len d'

-- The table, over the local array `d` as it is before `init_edit_buffer`.
pub edit_table : (d max_str : List ℕ) (max_len : ℕ) (min_str : List ℕ) (min_len : ℕ) → Option ℕ
edit_table d max_str max_len min_str min_len = do
  row ← init_edit_buffer (max_len + 1) 0 d
  filled ← fill_rows max_str min_str min_len 1 max_len row
  get_elem? filled max_len

-- `edit_distance` from the first `while` on.
pub trimmed_distance : (d longer shorter : List ℕ) → Option ℕ
trimmed_distance d longer shorter = do
  (max_str, m, min_str, n) ← skip_prefix longer (length longer) shorter (length shorter)
  (max_len, min_len) ← skip_suffix max_str min_str m n
  if min_len == 0 then some max_len else edit_table d max_str max_len min_str min_len

pub edit_distance : (d s1 s2 : List ℕ) → Option ℕ
unfolding trimmed_distance
edit_distance d s1 s2 =
    if ltb (length s1) (length s2) then trimmed_distance d s2 s1 else trimmed_distance d s1 s2
