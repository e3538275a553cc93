-- ===== src/HashTable/Insert.antt =====
-- `insert` of include/qs/hash_table.hpp with its resize.
use mathlib.Core.Path.{fun_ext}
use native.Mathlib.Decide.{dec_lt}
use k23_search_engine.Prelude.{
  ℕ, zero, suc, ◌+◌, ◌*◌, ◌≤◌, ◌<◌, ◌≡◌, refl, sym, ap, ◌∙◌, List, [], ◌∷◌, Option, none, some,
  arith, true, false, count_if, ◌>>=◌, lt→ltb, length-replicate, get_elem?-replicate, replicate,
  subst, ap₂,
}
use k23_search_engine.HashTable.{
  Table, primes, first_above, find_prime, sized, new, is_loaded, place, rehash, insert_within,
  insert,
}
use k23_search_engine.HashTable.Keys.{Key}
use k23_search_engine.HashTable.Assoc.{
  assoc, or_else, under, or_else_assoc, or_else-none, assoc-replicate,
}
use k23_search_engine.HashTable.Valid.{IsValid, occupied}
use k23_search_engine.HashTable.Distinct.{Joins, valid-Joins}
use k23_search_engine.HashTable.Place.{fresh, inserted_at, IsInserted, place-IsInserted}

le-first_above : (n : ℕ) (ps : List ℕ) → n ≤ first_above n ps
unfolding first_above
le-first_above n [] = omega arith
le-first_above n (p ∷ ps) = ground (arith, le-first_above n ps)

pub le-find_prime : (n : ℕ) → n ≤ find_prime n
unfolding find_prime
le-find_prime n = le-first_above n primes

find_prime_small : (n : ℕ) → n < 53 → find_prime n ≡ 53
unfolding find_prime first_above
find_prime_small n h = rw (lt→ltb n 53 h) refl

pub find_prime_wide : (n : ℕ) → 4 ≤ find_prime n
find_prime_wide n = elim (dec_lt n 53) [
  | yes small ↦ omega (arith, find_prime_small n small)
  | no large ↦ omega (arith, le-find_prime n)
]

count-replicate : (A : Type 0) (n : ℕ) → count_if (occupied {A = A}) (replicate n none) ≡ 0
count-replicate A zero = refl
count-replicate A (suc n) = omega (arith, count-replicate A n)

module _ {K V : Type 0} ⦃key : Key K⦄ where
  pub sized-IsValid : (capacity : ℕ) → 4 ≤ capacity → IsValid (sized {K = K} {V = V} capacity)
  unfolding sized
  sized-IsValid capacity wide = record {
    wide = wide;
    width = length-replicate capacity none;
    counted = count-replicate (K × V) capacity;
    room = omega arith;
    placed = λ i j v held.
        absurd (let clash = get_elem?-replicate capacity i none (some (j, v)) held in cc);
  }

  is_loaded_light : (t : Table K V) → 4 * t.size < 3 * t.capacity → is_loaded t ≡ false
  unfolding is_loaded
  is_loaded_light t light = ground arith

  is_loaded_full :
      (t : Table K V) → 0 < t.capacity → 3 * t.capacity ≤ 4 * t.size → is_loaded t ≡ true
  unfolding is_loaded
  is_loaded_full t wide loaded = ground arith

  -- An insertion under the load factor, which does not resize.
  insert_within_light :
      (fuel : ℕ) (t : Table K V) (k : K) (v : V)
      → 4 * t.size < 3 * t.capacity
      → insert_within (suc fuel) t k v ≡ place t k v
  unfolding insert_within
  insert_within_light fuel t k v light = rw (insert_within, is_loaded_light t light) refl

  insert_within_loaded :
      (fuel : ℕ) (t grown : Table K V) (k : K) (v : V)
      → 0 < t.capacity
      → 3 * t.capacity ≤ 4 * t.size
      → rehash (insert_within fuel) t.slots (sized (find_prime (t.capacity * 2))) ≡ some grown
      → insert_within (suc fuel) t k v ≡ place grown k v
  unfolding insert_within
  insert_within_loaded fuel t grown k v wide loaded run =
      rw (insert_within, is_loaded_full t wide loaded, run) refl

  -- The loop of `resize`, into a table with room for the entries, all of them new to it.
  rehash_lem :
      (old : List (Option (K × V))) (t : Table K V)
      → IsValid t
      → Joins (λ q. assoc q t.slots) old
      → 4 * (t.size + count_if occupied old) < 3 * t.capacity
      → (r : Table K V) × (rehash (insert_within 1) old t ≡ some r)
        × IsValid r
        × (r.size ≡ t.size + count_if occupied old)
        × (r.capacity ≡ t.capacity)
        × ((q : K) → assoc q r.slots ≡ or_else (assoc q t.slots) (assoc q old))
  unfolding rehash assoc
  rehash_lem [] t valid joins load =
      (t, refl, valid, omega arith, refl, λ q. sym (or_else-none (assoc q t.slots)))
  rehash_lem (none ∷ old) t valid joins load =
      let (r, rest, valid', exact, kept, maps) = rehash_lem old t valid joins (omega arith) in
      (r, rest, valid', omega arith, kept, maps)
  rehash_lem (some (k, v) ∷ old) t valid (new, joins) load =
      let (s, run, ins, same) = place-IsInserted t k v valid (omega arith) in
      let grown : s.0.size ≡ t.size + 1 = ins.grows ∙ ap (λ o. t.size + fresh o) new in
      let (r, rest, valid', exact, kept, maps) =
        rehash_lem old s.0 ins.valid
          (subst (λ m. Joins m old) (fun_ext (λ q. sym (ins.maps q))) joins) (omega arith) in
      (
        r,
        rw (insert_within_light 0 t k v (omega arith), run, ◌>>=◌) rest,
        valid',
        omega arith,
        kept ∙ same,
        λ q.
            maps q
            ∙ ap (λ o. or_else o (assoc q old)) (ins.maps q)
            ∙ or_else_assoc (assoc q t.slots) (under k v q) (assoc q old),
      )

  resize_lem :
      (t : Table K V)
      → IsValid t
      → 3 * t.capacity ≤ 4 * t.size
      → (r : Table K V) × (rehash (insert_within 1) t.slots (sized (find_prime (t.capacity * 2)))
          ≡ some r)
        × IsValid r
        × (r.size ≡ t.size)
        × (4 * t.size < 3 * r.capacity)
        × ((q : K) → assoc q r.slots ≡ assoc q t.slots)
  unfolding sized
  resize_lem t valid loaded =
      let wide = le-find_prime (t.capacity * 2) in
      let empty = sized-IsValid (find_prime (t.capacity * 2)) (find_prime_wide (t.capacity * 2)) in
      let (r, run, valid', exact, kept, maps) =
        rehash_lem t.slots (sized (find_prime (t.capacity * 2))) empty
          (valid-Joins t (λ q. assoc q (replicate (find_prime (t.capacity * 2)) none)) valid
            (λ q. assoc-replicate q (find_prime (t.capacity * 2))))
          (omega (arith, valid.counted, valid.room, valid.wide, wide)) in
      (
        r,
        run,
        valid',
        omega (arith, exact, valid.counted),
        omega (arith, kept, valid.room, valid.wide, wide),
        λ q.
            maps q
            ∙ ap (λ o. or_else o (assoc q t.slots))
                (assoc-replicate q (find_prime (t.capacity * 2))),
      )

  -- `insert` on a valid table ends without a fault, with or without a resize, and gives a valid table
  -- with one more mapping: a key that is there keeps its value.
  pub insert-IsInserted :
      (t : Table K V) (k : K) (v : V)
      → IsValid t
      → (r : Table K V × ℕ) × (insert t k v ≡ some r) × IsInserted t k v r
  unfolding insert
  insert-IsInserted t k v valid = elim (dec_lt (4 * t.size) (3 * t.capacity)) [
    | yes light ↦
        let (r, run, ins, same) = place-IsInserted t k v valid light in
        (r, insert_within_light 1 t k v light ∙ run, ins)
    | no loaded ↦
        let (s, grown, valid', few, load, maps) = resize_lem t valid (omega arith) in
        let (r, run, ins, same) = place-IsInserted s k v valid' (omega arith) in
        (
          r,
          insert_within_loaded 1 t s k v (omega (arith, valid.wide)) (omega arith) grown ∙ run,
          record {
            valid = ins.valid;
            maps = λ q. ins.maps q ∙ ap (λ o. or_else o (under k v q)) (maps q);
            grows = ins.grows ∙ ap₂ (λ n o. n + fresh o) few (maps k);
            points = ins.points ∙ ap (inserted_at k v) (maps k);
          },
        )
  ]
