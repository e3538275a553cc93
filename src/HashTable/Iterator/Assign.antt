-- ===== src/HashTable/Iterator/Assign.antt =====
-- `*iter = value` of include/qs/hash_table.hpp.
use mathlib.Core.Option.{some-injective}
use k23_search_engine.Prelude.{
  ℕ, zero, suc, ◌+◌, ◌≡◌, ◌≢◌, refl, sym, ap, ◌∙◌, List, [], ◌∷◌, Option, none, some, ◌>>=◌, arith,
  ◌==◌, false, if◌then◌else◌, get_elem?, set, length-set, get_elem?-set_self, get_elem?-set_ne,
  lt_of_get_elem?, count_if-set, Bool-cases, ==_iff, inl, inr,
}
use k23_search_engine.HashTable.{Table}
use k23_search_engine.HashTable.Keys.{Key}
use k23_search_engine.HashTable.Probe.{wrap, IsHit}
use k23_search_engine.HashTable.Assoc.{assoc, or_else, under, under_other}
use k23_search_engine.HashTable.Valid.{IsValid, start, occupied, assoc_at}
use k23_search_engine.HashTable.Iterator.{entry_at, set_value}

module _ {K V : Type 0} ⦃key : Key K⦄ where
  assoc-set_other :
      (q k : K) (v w : V) (slots : List (Option (K × V))) (i : ℕ)
      → get_elem? slots i ≡ some (some (k, w))
      → key.equal k q ≡ false
      → assoc q (set slots i (some (k, v))) ≡ assoc q slots
  unfolding assoc
  assoc-set_other q k v w [] i held other = refl
  assoc-set_other q k v w (none ∷ slots) zero held other = absurd cc
  assoc-set_other q k v w (some (j, u) ∷ slots) zero held other =
      let e = some-injective (j, u) (k, w) (some-injective _ _ held) in
      let there : key.equal j q ≡ false = ap (λ x. key.equal x.0 q) e ∙ other in
      rw (under_other k v q other, under_other j u q there) refl
  assoc-set_other q k v w (none ∷ slots) (suc i) held other =
      assoc-set_other q k v w slots i held other
  assoc-set_other q k v w (some (j, u) ∷ slots) (suc i) held other =
      ap (or_else (under j u q)) (assoc-set_other q k v w slots i held other)

  module _ (slots : List (Option (K × V))) (i : ℕ) (k : K) (v w : V)
      (held : get_elem? slots i ≡ some (some (k, w))) where
    -- A slot holds the same key after the write.
    after :
        (p : ℕ) (j : K) (u : V)
        → get_elem? slots p ≡ some (some (j, u))
        → (u' : V) × (get_elem? (set slots i (some (k, v))) p ≡ some (some (j, u')))
    after p j u there = elim (Bool-cases (i == p)) [
      | inl same ↦
          let e = (==_iff i p).0 same in
          let read = sym held ∙ ap (get_elem? slots) e ∙ there in
          let keys = ap (λ x. x.0) (some-injective (k, w) (j, u) (some-injective _ _ read)) in
          (
            v,
            ap (get_elem? (set slots i (some (k, v)))) (sym e)
                ∙ get_elem?-set_self slots i (some (k, v)) (lt_of_get_elem? slots i _ held)
                ∙ ap (λ x. some (some (x, v))) keys,
          )
      | inr other ↦ (u, get_elem?-set_ne slots i p _ (λ e. ground (arith, other, e)) ∙ there)
    ]

    before :
        (p : ℕ) (j : K) (u : V)
        → get_elem? (set slots i (some (k, v))) p ≡ some (some (j, u))
        → (u' : V) × (get_elem? slots p ≡ some (some (j, u')))
    before p j u there = elim (Bool-cases (i == p)) [
      | inl same ↦
          let e = (==_iff i p).0 same in
          let read =
            sym (get_elem?-set_self slots i (some (k, v)) (lt_of_get_elem? slots i _ held))
            ∙ ap (get_elem? (set slots i (some (k, v)))) e
            ∙ there in
          let keys = ap (λ x. x.0) (some-injective (k, v) (j, u) (some-injective _ _ read)) in
          (w, ap (get_elem? slots) (sym e) ∙ held ∙ ap (λ x. some (some (x, w))) keys)
      | inr other ↦ (u, sym (get_elem?-set_ne slots i p _ (λ e. ground (arith, other, e))) ∙ there)
    ]

    IsHit-after :
        (capacity index : ℕ) (q : K) (d : ℕ)
        → IsHit slots capacity index q d
        → IsHit (set slots i (some (k, v))) capacity index q d
    IsHit-after capacity index q d hit = record {
      inside = hit.inside;
      ends = elim hit.ends [
        | inl free ↦
            let apart : i ≢ wrap capacity (index + d) =
              λ e. absurd (let clash = sym held ∙ ap (get_elem? slots) e ∙ free in cc) in
            inl (get_elem?-set_ne slots i _ _ apart ∙ free)
        | inr (u, there) ↦ inr (after _ q u there)
      ];
      passes = λ e lt.
          let (j, u, there, other) = hit.passes e lt in
          let (u', there') = after _ j u there in (j, u', there', other);
    }

  pub entry_at-held :
      (t : Table K V) (i : ℕ) (k : K) (v : V)
      → get_elem? t.slots i ≡ some (some (k, v))
      → entry_at t i ≡ some (k, v)
  unfolding entry_at
  entry_at-held t i k v held = rw (held, ◌>>=◌) refl

  -- The table after `*iter = v`, for the iterator of `k`.
  pub record IsAssigned (t : Table K V) (i : ℕ) (k : K) (v : V) (t' : Table K V) : Type 0 where
    pub valid : IsValid t'
    pub maps : (q : K) → assoc q t'.slots ≡ (if key.equal k q then some v else assoc q t.slots)
    pub held : get_elem? t'.slots i ≡ some (some (k, v))
    pub same_size : t'.size ≡ t.size
    pub same_capacity : t'.capacity ≡ t.capacity

  module _ (t : Table K V) (i : ℕ) (k : K) (v w : V) (valid : IsValid t)
      (held : get_elem? t.slots i ≡ some (some (k, w))) where
    assigned-IsValid : IsValid (record t { slots = set t.slots i (some (k, v)) })
    assigned-IsValid = record {
      wide = valid.wide;
      width = length-set t.slots i (some (k, v)) ∙ valid.width;
      counted =
          omega (
            arith,
            valid.counted,
            count_if-set occupied t.slots i (some (k, w)) (some (k, v)) held,
          );
      room = valid.room;
      placed = λ p j u there.
          let (u', there') = before t.slots i k v w held p j u there in
          let (d, hit, at_p) = valid.placed p j u' there' in
          (d, IsHit-after t.slots i k v w held t.capacity (start t j) j d hit, at_p);
    }

    -- On a valid table, at the position of an entry, `*iter = v` ends without a fault: the key of the entry
    -- gets the value `v`, the other keys keep theirs, and the table stays valid.
    pub set_value-IsAssigned :
        (t' : Table K V) × (set_value t i v ≡ some t') × IsAssigned t i k v t'
    unfolding set_value entry_at
    set_value-IsAssigned = (
      record t { slots = set t.slots i (some (k, v)) },
      rw (held, ◌>>=◌) refl,
      record {
        valid = assigned-IsValid;
        maps = λ q. elim (Bool-cases (key.equal k q)) [
          | inl same ↦
              let e = (key.equal_iff k q).0 same in
              let here =
                assoc_at (record t { slots = set t.slots i (some (k, v)) }) assigned-IsValid k i v
                  (get_elem?-set_self t.slots i (some (k, v)) (lt_of_get_elem? t.slots i _ held)) in
              rw same (ap (λ x. assoc x (set t.slots i (some (k, v)))) (sym e) ∙ here)
          | inr other ↦ rw other (assoc-set_other q k v w t.slots i held other)
        ];
        held = get_elem?-set_self t.slots i (some (k, v)) (lt_of_get_elem? t.slots i _ held);
        same_size = refl;
        same_capacity = refl;
      },
    )
