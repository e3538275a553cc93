-- ===== src/Bloom.antt =====
-- include/qs/bloom.h and src/lib/bloom.cpp: the Bloom filter, over the hashes of src/lib/hash.cpp.
-- `none` is a fault: the exception of `merge`, a remainder by a size of 0, or an access outside the
-- bit field. `calculate_k`, which rounds a product of doubles, is the argument `hash_functions` of
-- `of_bits`.
pub mod Bits
mod Tests
pub mod Positions
pub mod Filter
pub mod Merge
use Prim.Native.Nat.{bit_and, bit_or}
use k23_search_engine.Prelude.{
  ℕ, zero, suc, ◌+◌, ◌*◌, ◌/◌, ◌%◌, ◌^◌, List, [], ◌∷◌, Option, none, some, ◌>>=◌, if◌then◌else◌,
  ◌==◌, not, Bool, true, false, get_elem?, store,
}
use k23_search_engine.Hash.{hash_i}

pub record Bloom : Type 0 where
  pub bit_field : List ℕ
  pub size : ℕ
  pub hash_functions : ℕ

-- The constructor from a bit field.
pub of_bits : ℕ → List ℕ → ℕ → Bloom
of_bits size bit_field hash_functions = record {
  bit_field = bit_field;
  size = size;
  hash_functions = hash_functions;
}

-- `1 << pos % 8`, as a `uint8_t`
abbrev pub mask : ℕ → ℕ
mask pos = 2 ^ (pos % 8) % 2 ^ 8

pub bf_set_bit : List ℕ → ℕ → ℕ → Option (List ℕ)
bf_set_bit bf pos bf_size =
    if bf_size == 0
    then none
    else let p = pos % (bf_size * 8) in
      get_elem? bf (p / 8) >>= λ byte. store bf (p / 8) (bit_or byte (mask p))

pub bf_get_bit : List ℕ → ℕ → ℕ → Option ℕ
bf_get_bit bf pos bf_size =
    if bf_size == 0
    then none
    else let p = pos % (bf_size * 8) in
      get_elem? bf (p / 8) >>= λ byte. some (bit_and byte (mask p))

-- The loop of `add` from `i` on, with the rounds left.
pub add_loop : (rounds i : ℕ) → List ℕ → ℕ → List ℕ → Option (List ℕ)
add_loop zero i el size bf = some bf
add_loop (suc n) i el size bf = do
  bf' ← bf_set_bit bf (hash_i el i) size
  add_loop n (i + 1) el size bf'

pub add : List ℕ → Bloom → Option Bloom
unfolding add_loop
add el b = do
  bf ← add_loop b.hash_functions 1 el b.size b.bit_field
  some (record b { bit_field = bf })

pub lookup_loop : (rounds i : ℕ) → List ℕ → ℕ → List ℕ → Option Bool
lookup_loop zero i el size bf = some true
lookup_loop (suc n) i el size bf = do
  bit ← bf_get_bit bf (hash_i el i) size
  let rest = lookup_loop n (i + 1) el size bf
  if bit == 0 then some false else rest

pub lookup : List ℕ → Bloom → Option Bool
unfolding lookup_loop
lookup el b = lookup_loop b.hash_functions 1 el b.size b.bit_field

-- The loop of `merge` over both arrays.
pub merge_loop : (rounds i : ℕ) → List ℕ → List ℕ → Option (List ℕ)
merge_loop zero i bytes bf = some bf
merge_loop (suc n) i bytes bf = do
  a ← get_elem? bf i
  b ← get_elem? bytes i
  bf' ← store bf i (bit_or a b)
  merge_loop n (i + 1) bytes bf'

pub merge : ℕ → List ℕ → Bloom → Option Bloom
unfolding merge_loop
merge size bytes b =
    if not (b.size == size)
    then none
    else merge_loop b.size 0 bytes b.bit_field >>= λ bf. some (record b { bit_field = bf })
