-- ===== src/HashTable/Assoc.antt =====
-- The mapping that the slots of include/qs/hash_table.hpp hold, by a search of all of them.
use k23_search_engine.Prelude.{
  ℕ, zero, suc, ◌≡◌, ◌≢◌, refl, sym, ◌∙◌, List, [], ◌∷◌, Option, none, some, true, false, get_elem?,
  set, if◌then◌else◌, Bool-cases, inl, inr, replicate, ap, ap₂,
}
use mathlib.Core.Option.{some-injective}
use k23_search_engine.HashTable.Keys.{Key}

-- The first of two results that is there.
abbrev pub or_else : {A : Type 0} → Option A → Option A → Option A
or_else none b = b
or_else (some a) b = some a

pub or_else-none : {A : Type 0} (a : Option A) → or_else a none ≡ a
or_else-none none = refl
or_else-none (some a) = refl

pub or_else_assoc :
    {A : Type 0} (a b c : Option A) → or_else (or_else a b) c ≡ or_else a (or_else b c)
or_else_assoc none b c = refl
or_else_assoc (some a) b c = refl

right_none : {A : Type 0} (a b : Option A) → or_else a b ≡ none → b ≡ none
right_none none b h = h
right_none (some a) b h = absurd cc

module _ {K V : Type 0} ⦃key : Key K⦄ where
  -- The value under `q` if `q` is the key `k`.
  abbrev pub under : K → V → K → Option V
  under k v q = if key.equal k q then some v else none

  under_same : (k : K) (v : V) (q : K) → key.equal k q ≡ true → under k v q ≡ some v
  under_same k v q same = rw same refl

  pub under_other : (k : K) (v : V) (q : K) → key.equal k q ≡ false → under k v q ≡ none
  under_other k v q other = rw other refl

  unfoldable pub assoc : K → List (Option (K × V)) → Option V
  assoc q [] = none
  assoc q (none ∷ slots) = assoc q slots
  assoc q (some (k, v) ∷ slots) = or_else (under k v q) (assoc q slots)

  pub held_of_assoc :
      (q : K) (slots : List (Option (K × V))) (w : V)
      → assoc q slots ≡ some w
      → (i : ℕ) × (get_elem? slots i ≡ some (some (q, w)))
  unfolding assoc
  held_of_assoc q [] w h = absurd cc
  held_of_assoc q (none ∷ slots) w h = let (i, held) = held_of_assoc q slots w h in (suc i, held)
  held_of_assoc q (some (k, v) ∷ slots) w h = elim (Bool-cases (key.equal k q)) [
    | inl same ↦
        let value =
          some-injective v w
            (sym (ap (λ o. or_else o (assoc q slots)) (under_same k v q same)) ∙ h) in
        (zero, ap₂ (λ a b. some (some (a, b))) ((key.equal_iff k q).0 same) value)
    | inr other ↦
        let (i, held) =
          held_of_assoc q slots w
            (sym (ap (λ o. or_else o (assoc q slots)) (under_other k v q other)) ∙ h) in
        (suc i, held)
  ]

  pub assoc_of_held :
      (q : K) (slots : List (Option (K × V))) (w : V) (i : ℕ)
      → get_elem? slots i ≡ some (some (q, w))
      → assoc q slots ≢ none
  unfolding assoc
  assoc_of_held q [] w i h = absurd cc
  assoc_of_held q (none ∷ slots) w zero h = absurd cc
  assoc_of_held q (some (k, v) ∷ slots) w zero h =
      let same : k ≡ q = ap (λ e. e.0) (some-injective (k, v) (q, w) (some-injective _ _ h)) in
      rw (under_same k v q ((key.equal_iff k q).1 same)) (λ e. cc)
  assoc_of_held q (none ∷ slots) w (suc i) h = assoc_of_held q slots w i h
  assoc_of_held q (some (k, v) ∷ slots) w (suc i) h = elim (Bool-cases (key.equal k q)) [
    | inl same ↦ rw same (λ e. cc)
    | inr other ↦ rw other (assoc_of_held q slots w i h)
  ]

  -- A new key in a free slot is added to the mapping.
  pub assoc-set :
      (q k : K) (v : V) (slots : List (Option (K × V))) (i : ℕ)
      → get_elem? slots i ≡ some none
      → assoc k slots ≡ none
      → assoc q (set slots i (some (k, v))) ≡ or_else (assoc q slots) (under k v q)
  unfolding assoc
  assoc-set q k v [] i free absent = absurd cc
  assoc-set q k v (none ∷ slots) zero free absent = elim (Bool-cases (key.equal k q)) [
    | inl same ↦
        let gone : assoc q slots ≡ none = rw (← (key.equal_iff k q).0 same) absent in
        rw (under_same k v q same, gone) refl
    | inr other ↦ rw (under_other k v q other) (sym (or_else-none (assoc q slots)))
  ]
  assoc-set q k v (some e ∷ slots) zero free absent = absurd cc
  assoc-set q k v (none ∷ slots) (suc i) free absent = assoc-set q k v slots i free absent
  assoc-set q k v (some (j, w) ∷ slots) (suc i) free absent =
      ap (or_else (under j w q)) (assoc-set q k v slots i free (right_none _ _ absent))
      ∙ sym (or_else_assoc (under j w q) (assoc q slots) (under k v q))

  pub assoc-replicate : (q : K) (n : ℕ) → assoc q (replicate n none) ≡ none
  unfolding assoc
  assoc-replicate q zero = refl
  assoc-replicate q (suc n) = assoc-replicate q n

  -- A key that is there keeps its value.
  pub or_else-present :
      (q k : K) (v w : V) (slots : List (Option (K × V)))
      → assoc k slots ≡ some w
      → or_else (assoc q slots) (under k v q) ≡ assoc q slots
  or_else-present q k v w slots here = elim (Bool-cases (key.equal k q)) [
    | inl same ↦
        let there : assoc q slots ≡ some w = rw (← (key.equal_iff k q).0 same) here in rw there refl
    | inr other ↦ rw (under_other k v q other) (or_else-none (assoc q slots))
  ]
