-- ===== src/HashSet/Members.antt =====
-- `contains` after insertions, in include/qs/hash_set.hpp.
use mathlib.Core.Option.{some-injective}
use k23_search_engine.Prelude.{
  ℕ, ◌+◌, ◌≡◌, refl, sym, ap, ◌∙◌, List, [], ◌∷◌, Option, none, some, ◌>>=◌, Bool, true, false, not,
  ◌||◌, bit, Bool-cases, inl, inr,
}
use k23_search_engine.HashTable
use k23_search_engine.HashTable.{Table, slot_at}
use k23_search_engine.HashTable.Keys.{Key}
use k23_search_engine.HashTable.Assoc.{assoc, or_else, under}
use k23_search_engine.HashTable.Place.{fresh}
use k23_search_engine.HashTable.Valid.{IsValid, lookup_lem, occupied}
use k23_search_engine.HashTable.Insert.{insert-IsInserted}
use k23_search_engine.HashTable.Entries.{new-IsValid, new_empty, new_size}
use k23_search_engine.HashSet.{HashSet, with_capacity, get_size, insert_key, contains}

not-not : (b : Bool) → not (not b) ≡ b
not-not true = refl
not-not false = refl

or-false : (b : Bool) → (b || false) ≡ b
or-false true = refl
or-false false = refl

or_comm : (a b : Bool) → (a || b) ≡ (b || a)
or_comm true true = refl
or_comm true false = refl
or_comm false true = refl
or_comm false false = refl

or_assoc : (a b c : Bool) → ((a || b) || c) ≡ (a || (b || c))
or_assoc true b c = refl
or_assoc false b c = refl

fresh-bit : {A : Type 0} (o : Option A) → fresh o ≡ bit (not (occupied o))
fresh-bit none = refl
fresh-bit (some a) = refl

pub get_size-with_capacity :
    (K : Type 0) (capacity : ℕ) → get_size (with_capacity {K = K} capacity) ≡ 0
unfolding get_size with_capacity
get_size-with_capacity K capacity = new_size K ℕ capacity

module _ {K : Type 0} ⦃key : Key K⦄ where
  contains-eq-occupied :
      (s : HashSet K) (k : K) → IsValid s → contains s k ≡ some (occupied (assoc k s.slots))
  unfolding contains
  contains-eq-occupied s k valid =
      let (i, run, end) = lookup_lem s valid k in
      rw (run, ◌>>=◌, end) (ap some (not-not (occupied (assoc k s.slots))))

  occupied-or_else :
      (a : Option ℕ) (k q : K) → occupied (or_else a (under k 0 q)) ≡ (occupied a || key.equal k q)
  occupied-or_else none k q = elim (Bool-cases (key.equal k q)) [
    | inl same ↦ rw same refl
    | inr other ↦ rw other refl
  ]
  occupied-or_else (some v) k q = refl

  -- On a valid set an insertion does not fault; afterwards the set contains what it contained and the
  -- key, and its size is larger by one if the key is new.
  pub contains-insert_key :
      (s : HashSet K) (k q : K) (here before : Bool)
      → IsValid s
      → contains s k ≡ some here
      → contains s q ≡ some before
      → (r : HashSet K × ℕ) × (insert_key s k ≡ some r)
        × IsValid r.0
        × (contains r.0 q ≡ some (before || key.equal k q))
        × (get_size r.0 ≡ get_size s + bit (not here))
  unfolding insert_key get_size
  contains-insert_key s k q here before valid at_k at_q =
      let (r, run, ins) = insert-IsInserted s k 0 valid in
      let was : occupied (assoc q s.slots) ≡ before =
        some-injective _ _ (sym (contains-eq-occupied s q valid) ∙ at_q) in
      let was_there : occupied (assoc k s.slots) ≡ here =
        some-injective _ _ (sym (contains-eq-occupied s k valid) ∙ at_k) in
      (
        r,
        run,
        ins.valid,
        contains-eq-occupied r.0 q ins.valid
            ∙ ap (λ o. some (occupied o)) (ins.maps q)
            ∙ ap some (occupied-or_else (assoc q s.slots) k q)
            ∙ ap (λ b. some (b || key.equal k q)) was,
        ins.grows
            ∙ ap (λ n. s.size + n) (fresh-bit (assoc k s.slots) ∙ ap (λ b. bit (not b)) was_there),
      )

  -- The keys inserted one by one.
  unfoldable pub insert_keys : List K → HashSet K → Option (HashSet K)
  insert_keys [] s = some s
  insert_keys (k ∷ ks) s = insert_key s k >>= λ r. insert_keys ks r.0

  -- Whether a key is among the keys of a list.
  unfoldable pub is_among : K → List K → Bool
  is_among q [] = false
  is_among q (k ∷ ks) = key.equal k q || is_among q ks

  insert_keys_lem :
      (ks : List K) (s : HashSet K)
      → IsValid s
      → (r : HashSet K) × (insert_keys ks s ≡ some r)
        × IsValid r
        × ((q : K) → occupied (assoc q r.slots) ≡ (occupied (assoc q s.slots) || is_among q ks))
  unfolding insert_keys is_among insert_key
  insert_keys_lem [] s valid = (s, refl, valid, λ q. sym (or-false (occupied (assoc q s.slots))))
  insert_keys_lem (k ∷ ks) s valid =
      let (t, run, ins) = insert-IsInserted s k 0 valid in
      let (r, rest, valid', maps) = insert_keys_lem ks t.0 ins.valid in
      (
        r,
        rw (run, ◌>>=◌) rest,
        valid',
        λ q.
            maps q
            ∙ ap (λ o. occupied o || is_among q ks) (ins.maps q)
            ∙ ap (λ b. b || is_among q ks) (occupied-or_else (assoc q s.slots) k q)
            ∙ or_assoc (occupied (assoc q s.slots)) (key.equal k q) (is_among q ks),
      )

  -- A new set takes any keys without a fault, and then contains exactly those.
  pub contains-insert_keys :
      (capacity : ℕ) (ks : List K) (q : K)
      → (r : HashSet K) × (insert_keys ks (with_capacity capacity) ≡ some r)
        × (contains r q ≡ some (is_among q ks))
  unfolding with_capacity
  contains-insert_keys capacity ks q =
      let (r, run, valid, maps) =
        insert_keys_lem ks (HashTable.new capacity) (new-IsValid capacity) in
      (
        r,
        run,
        contains-eq-occupied r q valid
            ∙ ap some (maps q ∙ ap (λ o. occupied o || is_among q ks) (new_empty capacity q)),
      )

  pub contains-with_capacity :
      (capacity : ℕ) (q : K) → contains (with_capacity capacity) q ≡ some false
  unfolding with_capacity
  contains-with_capacity capacity q =
      contains-eq-occupied (HashTable.new capacity) q (new-IsValid capacity)
      ∙ ap (λ o. some (occupied o)) (new_empty capacity q)

  pub with_capacity-IsValid : (capacity : ℕ) → IsValid (with_capacity {K = K} capacity)
  unfolding with_capacity
  with_capacity-IsValid capacity = new-IsValid capacity

  -- A set that contains the keys of a list, after one more.
  pub insert_key-is_among :
      (s : HashSet K) (k : K) (ks : List K)
      → IsValid s
      → ((q : K) → contains s q ≡ some (is_among q ks))
      → (r : HashSet K × ℕ) × (insert_key s k ≡ some r)
        × IsValid r.0
        × ((q : K) → contains r.0 q ≡ some (is_among q (k ∷ ks)))
        × (get_size r.0 ≡ get_size s + bit (not (is_among k ks)))
  unfolding is_among
  insert_key-is_among s k ks valid holds =
      let (r, run, valid', at_k, size) =
        contains-insert_key s k k (is_among k ks) (is_among k ks) valid (holds k) (holds k) in
      (
        r,
        run,
        valid',
        λ q.
            let (r', run', valid'', at_q, size') =
              contains-insert_key s k q (is_among k ks) (is_among q ks) valid (holds k) (holds q) in
            ap (λ x. contains x.0 q) (some-injective r r' (sym run ∙ run'))
            ∙ at_q
            ∙ ap some (or_comm (is_among q ks) (key.equal k q)),
        size,
      )
