-- ===== src/HashTable.antt =====
-- include/qs/hash_table.hpp: open addressing with linear probing. A slot is `none` where
-- `is_gravestone` holds, and its key with its value otherwise. `none` as a result is a fault: a
-- remainder by a capacity of 0, an access outside the arrays (`keys[-1]` among them), or a loop that
-- does not end. The load factor is compared over the integers, which is what the float division
-- gives for capacities below 2 ^ 23.
mod Tests
pub mod Keys
pub mod Probe
pub mod Write
pub mod Assoc
pub mod Valid
pub mod Place
pub mod Distinct
pub mod Insert
pub mod Entries
pub mod Remove
pub mod Iterator
use k23_search_engine.Prelude.{
  ℕ, zero, suc, ◌+◌, ◌-◌, ◌*◌, ◌%◌, List, [], ◌∷◌, Option, none, some, ◌>>=◌, if◌then◌else◌, ◌&&◌,
  ltb, leb, ◌==◌, true, false, Bool, length, get_elem?, set, replicate,
}
use k23_search_engine.HashTable.Keys.{Key}

abbrev pub primes : List ℕ
primes =
    53 ∷ 97 ∷ 193 ∷ 389 ∷ 769 ∷ 1543 ∷ 3079 ∷ 6151 ∷ 12289 ∷ 24593 ∷ 49157 ∷ 98317 ∷ 196613 ∷ 393241
    ∷ 786433 ∷ 1572869 ∷ 3145739 ∷ 6291469 ∷ 12582917 ∷ 25165843 ∷ 50331653 ∷ 100663319 ∷ 201326611
    ∷ 402653189 ∷ 805306457 ∷ 1610612741 ∷ []

-- The loop of `find_prime`, over the primes from index `i` on.
pub first_above : ℕ → List ℕ → ℕ
first_above n [] = n
first_above n (p ∷ ps) = if ltb n p then p else first_above n ps

pub find_prime : ℕ → ℕ
unfolding first_above
find_prime n = first_above n primes

pub record Table (K V : Type 0) : Type 0 where
  pub slots : List (Option (K × V))
  pub capacity : ℕ
  pub size : ℕ

-- What `find_available_position` returns: a position, or -1.
pub data Position : Type 0 where
  at : ℕ → Position
  minus_one : Position

module _ {K V : Type 0} where
  pub sized : ℕ → Table K V
  sized capacity = record { slots = replicate capacity none; capacity = capacity; size = 0 }

  -- The constructor; its `(int)` cast is exact below 2 ^ 31.
  unfoldable pub new : ℕ → Table K V
  unfolding sized find_prime
  new capacity = sized (find_prime capacity)

  pub clear : Table K V → Table K V
  clear t = record { slots = []; capacity = 0; size = 0 }

  -- The test of `maybe_resize`; a division of 0 by a capacity of 0 is not above the load factor.
  pub is_loaded : Table K V → Bool
  is_loaded t = ltb 0 t.capacity && leb (3 * t.capacity) (4 * t.size)

module _ {K V : Type 0} ⦃key : Key K⦄ where
  -- The `while`, at position `i`; the fuel bounds the rounds.
  pub probe : (fuel : ℕ) → K → List (Option (K × V)) → (capacity index i : ℕ) → Option Position
  probe zero k slots capacity index i = none
  probe (suc fuel) k slots capacity index i = do
    slot ← get_elem? slots i
    elim slot [
      | none ↦ some (at i)
      | some (j, v) ↦
          let wrapped = probe fuel k slots capacity index 0 in
          let onward = probe fuel k slots capacity index (i + 1) in
          let further = if i + 1 == index then some minus_one else onward in
          if key.equal j k then some (at i) else if i + 1 == capacity then wrapped else further
    ]

  pub find_available_position : Table K V → K → Option Position
  unfolding probe
  find_available_position t k =
      let index = key.hash k % t.capacity in
      if t.capacity == 0 then none else probe (suc t.capacity) k t.slots t.capacity index index

  -- `keys[pos]`, where a position of -1 is outside the array.
  pub slot_at : Table K V → Position → Option (ℕ × Option (K × V))
  slot_at t minus_one = none
  slot_at t (at i) = do slot ← get_elem? t.slots i; some (i, slot)

  -- The position of the iterator, which is `capacity` for `end()`.
  pub lookup : Table K V → K → Option ℕ
  unfolding find_available_position slot_at
  lookup t k = do
    pos ← find_available_position t k
    (i, slot) ← slot_at t pos
    elim slot [ none ↦ some t.capacity | some e ↦ some i ]

  -- `*lookup(k)`, or `none` if that is `end()`.
  pub get : Table K V → K → Option (Option V)
  unfolding lookup
  get t k = do
    i ← lookup t k
    elim (i == t.capacity) [
      | true ↦ some none
      | false ↦ do
        slot ← get_elem? t.slots i
        elim slot [ none ↦ none | some (j, v) ↦ some (some v) ]
    ]

  -- `insert` from the assertion on.
  pub place : Table K V → K → V → Option (Table K V × ℕ)
  unfolding find_available_position slot_at
  place t k v = do
    pos ← find_available_position t k
    (i, slot) ← slot_at t pos
    elim slot [
      | none ↦ some (record t { slots = set t.slots i (some (k, v)); size = t.size + 1 }, i)
      | some e ↦ some (t, t.capacity)
    ]

  -- The loop of `resize` over the old slots, with the `insert` that it calls.
  pub rehash :
      (Table K V → K → V → Option (Table K V × ℕ))
      → List (Option (K × V))
      → Table K V
      → Option (Table K V)
  rehash insert [] t = some t
  rehash insert (none ∷ old) t = rehash insert old t
  rehash insert (some (k, v) ∷ old) t = insert t k v >>= λ r. rehash insert old r.0

  -- `insert`, with fuel for the calls of `insert` inside `resize`.
  pub insert_within : ℕ → Table K V → K → V → Option (Table K V × ℕ)
  unfolding is_loaded
  insert_within zero t k v = none
  insert_within (suc fuel) t k v =
      let grown = rehash (insert_within fuel) t.slots (sized (find_prime (t.capacity * 2))) in
      elim (is_loaded t) [ true ↦ do t' ← grown; place t' k v | false ↦ place t k v ]

  unfoldable pub insert : Table K V → K → V → Option (Table K V × ℕ)
  unfolding insert_within place rehash sized find_prime
  insert t k v = insert_within 2 t k v

  pub remove : Table K V → K → Option (Table K V)
  unfolding find_available_position slot_at
  remove t k = do
    pos ← find_available_position t k
    (i, slot) ← slot_at t pos
    elim slot [
      | none ↦ some t
      | some e ↦ some (record t { slots = set t.slots i none; size = t.size - 1 })
    ]
