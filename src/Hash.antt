-- ===== src/Hash.antt =====
-- src/lib/hash.cpp: the string hashes. A `const uint8_t *` is the list of the bytes before its NUL,
-- and a `uint64_t` is a number with the remainder by 2 ^ 64 written out.
use k23_search_engine.Prelude.{ℕ, ◌+◌, ◌-◌, ◌*◌, ◌%◌, ◌^◌, List, [], ◌∷◌}

abbrev pub word_size : ℕ
word_size = 2 ^ 64

-- `hash << k`
unfoldable pub shift_left : ℕ → ℕ → ℕ
shift_left hash k = hash * 2 ^ k % word_size

unfoldable pub djb2_loop : ℕ → List ℕ → ℕ
unfolding shift_left
djb2_loop hash [] = hash
djb2_loop hash (c ∷ str) = djb2_loop ((shift_left hash 5 + hash + c) % word_size) str

unfoldable pub djb2 : List ℕ → ℕ
unfolding djb2_loop
djb2 str = djb2_loop 5381 str

unfoldable pub sdbm_loop : ℕ → List ℕ → ℕ
unfolding shift_left
sdbm_loop hash [] = hash
sdbm_loop hash (c ∷ str) =
    sdbm_loop ((c + shift_left hash 6 + shift_left hash 16 + word_size - hash) % word_size) str

unfoldable pub sdbm : List ℕ → ℕ
unfolding sdbm_loop
sdbm str = sdbm_loop 0 str

-- `hash_i`, for an `i` below 2 ^ 15, whose square an `int` holds.
unfoldable pub hash_i : List ℕ → ℕ → ℕ
unfolding djb2 sdbm
hash_i el i = (djb2 el + i * sdbm el + i * i) % word_size
