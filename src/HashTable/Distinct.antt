-- ===== src/HashTable/Distinct.antt =====
-- The keys of the entries in include/qs/hash_table.hpp, as a resize meets them.
use k23_search_engine.Prelude.{
  ℕ, zero, suc, ◌≡◌, refl, sym, ap, ◌∙◌, List, [], ◌∷◌, Option, none, some, arith, get_elem?,
  Bool-cases, inl, inr,
}
use k23_search_engine.HashTable.{Table}
use k23_search_engine.HashTable.Keys.{Key}
use k23_search_engine.HashTable.Assoc.{or_else, under, under_other}
use k23_search_engine.HashTable.Valid.{IsValid, hit, held_unique}

module _ {K V : Type 0} ⦃key : Key K⦄ where
  -- Each entry of the slots is new to the mapping, with the entries before it.
  abbrev pub Joins : (K → Option V) → List (Option (K × V)) → Type 0
  Joins m [] = Unit
  Joins m (none ∷ slots) = Joins m slots
  Joins m (some (k, v) ∷ slots) = (m k ≡ none) × Joins (λ q. or_else (m q) (under k v q)) slots

  -- No two slots hold one key.
  abbrev IsDistinct : List (Option (K × V)) → Type 0
  IsDistinct slots =
      (i j : ℕ) (k : K) (v w : V)
      → get_elem? slots i ≡ some (some (k, v))
      → get_elem? slots j ≡ some (some (k, w))
      → i ≡ j

  distinct-Joins :
      (slots : List (Option (K × V))) (m : K → Option V)
      → IsDistinct slots
      → ((i : ℕ) (k : K) (v : V) → get_elem? slots i ≡ some (some (k, v)) → m k ≡ none)
      → Joins m slots
  distinct-Joins [] m distinct new = tt
  distinct-Joins (none ∷ slots) m distinct new =
      distinct-Joins slots m (λ i j k v w a b. omega (arith, distinct (suc i) (suc j) k v w a b))
        (λ i k v a. new (suc i) k v a)
  distinct-Joins (some (k, v) ∷ slots) m distinct new = (
    new zero k v refl,
    distinct-Joins slots _ (λ i j k v w a b. omega (arith, distinct (suc i) (suc j) k v w a b))
        (λ i j w a. elim (Bool-cases (key.equal k j)) [
          | inl same ↦
              let e = (key.equal_iff k j).0 same in
              absurd (omega (arith, distinct zero (suc i) j v w (ap (λ x. some (some (x, v))) e) a))
          | inr other ↦ rw (new (suc i) j w a, under_other k v j other) refl
        ]),
  )

  pub valid-Joins :
      (t : Table K V) (m : K → Option V) → IsValid t → ((q : K) → m q ≡ none) → Joins m t.slots
  valid-Joins t m valid empty =
      distinct-Joins t.slots m
        (λ i j k v w a b.
          let (d, found) = hit t valid k in
          sym (held_unique t valid k d i v found a) ∙ held_unique t valid k d j w found b)
        (λ i k v a. empty k)
