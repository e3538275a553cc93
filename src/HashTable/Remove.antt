-- ===== src/HashTable/Remove.antt =====
-- `remove` of include/qs/hash_table.hpp: what it does to the slots.
use k23_search_engine.Prelude.{
  ℕ, ◌-◌, ◌≡◌, ◌≢◌, refl, sym, ap, ◌∙◌, none, some, arith, false, get_elem?, set, ◌>>=◌,
  get_elem?-set_self, get_elem?-set_ne, lt_of_get_elem?, Option-cases, Bool-cases, ==_iff, ◌==◌,
  inl, inr, if◌then◌else◌,
}
use mathlib.Core.Option.{some-injective}
use k23_search_engine.HashTable.{Table, slot_at, remove}
use k23_search_engine.HashTable.Keys.{Key}
use k23_search_engine.HashTable.Assoc.{assoc, held_of_assoc, assoc_of_held}
use k23_search_engine.HashTable.Valid.{
  IsValid, missing, present, looked, hit, held_unique, assoc_at,
}
use k23_search_engine.HashTable.Place.{fresh}

module _ {K V : Type 0} ⦃key : Key K⦄ where
  module _ (t : Table K V) (valid : IsValid t) (k : K) (v : V) (i : ℕ)
      (held : get_elem? t.slots i ≡ some (some (k, v))) where
    -- An entry that is left stands where it stood, with another key.
    left_held :
        (q : K) (w : V) (j : ℕ)
        → get_elem? (set t.slots i none) j ≡ some (some (q, w))
        → (i ≢ j) × (get_elem? t.slots j ≡ some (some (q, w)))
    left_held q w j here = elim (Bool-cases (i == j)) [
      | inl same ↦
          let e = (==_iff i j).0 same in
          let clash =
            sym (get_elem?-set_self t.slots i none (lt_of_get_elem? t.slots i _ held))
            ∙ ap (get_elem? (set t.slots i none)) e
            ∙ here in
          absurd cc
      | inr other ↦
          let apart : i ≢ j = λ e. ground (arith, other, e) in
          (apart, sym (get_elem?-set_ne t.slots i j none apart) ∙ here)
    ]

    assoc-unset_self : (q : K) → k ≡ q → assoc q (set t.slots i none) ≡ none
    assoc-unset_self q e = elim (Option-cases (assoc q (set t.slots i none))) [
      | inl gone ↦ gone
      | inr (w, there) ↦
          let (j, here) = held_of_assoc q (set t.slots i none) w there in
          let (apart, left) = left_held q w j here in
          let (d, found) = hit t valid q in
          let first = held_unique t valid q d i v found (rw (← e) held) in
          absurd (apart (sym first ∙ held_unique t valid q d j w found left))
    ]

    assoc-unset_ne :
        (q : K) → key.equal k q ≡ false → assoc q (set t.slots i none) ≡ assoc q t.slots
    assoc-unset_ne q other = elim (Option-cases (assoc q (set t.slots i none))) [
      | inr (w, there) ↦
          let (j, here) = held_of_assoc q (set t.slots i none) w there in
          there ∙ sym (assoc_at t valid q j w (left_held q w j here).1)
      | inl gone ↦ elim (Option-cases (assoc q t.slots)) [
        | inl none_before ↦ gone ∙ sym none_before
        | inr (w, there) ↦
            let (j, here) = held_of_assoc q t.slots w there in
            let apart : i ≢ j = λ e.
              let p =
                some-injective (k, v) (q, w)
                  (some-injective _ _ (sym held ∙ ap (get_elem? t.slots) e ∙ here)) in
              let yes_equal = (key.equal_iff k q).1 (ap (λ x. x.0) p) in cc in
            absurd (
              assoc_of_held q (set t.slots i none) w j
                (get_elem?-set_ne t.slots i j none apart ∙ here) gone)
      ]
    ]

    assoc-unset :
        (q : K) → assoc q (set t.slots i none) ≡ (if key.equal k q then none else assoc q t.slots)
    assoc-unset q = elim (Bool-cases (key.equal k q)) [
      | inl same ↦ rw same (assoc-unset_self q ((key.equal_iff k q).0 same))
      | inr other ↦ rw other (assoc-unset_ne q other)
    ]

  -- `remove` on a valid table ends without a fault. The slots then hold no entry of the key and the
  -- other entries as before, and `size` is less by one if there was an entry.
  pub remove_lem :
      (t : Table K V) (k : K)
      → IsValid t
      → (r : Table K V) × (remove t k ≡ some r)
        × ((q : K) → assoc q r.slots ≡ (if key.equal k q then none else assoc q t.slots))
        × (r.size ≡ t.size - (1 - fresh (assoc k t.slots)))
  unfolding remove slot_at
  remove_lem t k valid = elim (looked t valid k) [
    | missing i run free d found there absent ↦ (
      t,
      rw (run, ◌>>=◌, free, ◌>>=◌) refl,
      λ q. elim (Bool-cases (key.equal k q)) [
        | inl same ↦ rw same (rw (← (key.equal_iff k q).0 same) absent)
        | inr other ↦ rw other refl
      ],
      rw absent (omega arith),
    )
    | present i v run held lt here ↦ (
      record t { slots = set t.slots i none; size = t.size - 1 },
      rw (run, ◌>>=◌, held, ◌>>=◌) refl,
      assoc-unset t valid k v i held,
      rw here (omega arith),
    )
  ]
