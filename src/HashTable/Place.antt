-- ===== src/HashTable/Place.antt =====
-- The part of `insert` in include/qs/hash_table.hpp behind `maybe_resize`.
use mathlib.Core.Option.{some-injective}
use k23_search_engine.Prelude.{
  ℕ, ◌+◌, ◌*◌, ◌<◌, ◌≡◌, ◌≢◌, refl, sym, ap, ◌∙◌, Option, none, some, arith, get_elem?, set, ◌>>=◌,
  length-set, count_if-set, get_elem?-set_self, get_elem?-set_ne, get_elem?_outside,
  lt_of_get_elem?, subst, ==_iff, Bool-cases, ◌==◌, inl, inr,
}
use k23_search_engine.HashTable.{Table, slot_at, place}
use k23_search_engine.HashTable.Keys.{Key}
use k23_search_engine.HashTable.Probe.{wrap, IsHit}
use k23_search_engine.HashTable.Write.{IsHit-set_ne, IsHit-set_self}
use k23_search_engine.HashTable.Assoc.{assoc, assoc-set, or_else, under, or_else-present}
use k23_search_engine.HashTable.Valid.{IsValid, start, missing, present, looked, occupied}

-- 1 if there is no entry yet.
abbrev pub fresh : {A : Type 0} → Option A → ℕ
fresh none = 1
fresh (some a) = 0

module _ {K V : Type 0} ⦃key : Key K⦄ where
  -- What the iterator that `insert` returns stands on: the new entry, or nothing if the key was there.
  abbrev pub inserted_at : K → V → Option V → Option (Option (K × V))
  inserted_at k v none = some (some (k, v))
  inserted_at k v (some w) = none

  -- `r` is the table `t` after an insertion, with the iterator.
  pub record IsInserted (t : Table K V) (k : K) (v : V) (r : Table K V × ℕ) : Type 0 where
    pub valid : IsValid r.0
    pub maps : (q : K) → assoc q r.0.slots ≡ or_else (assoc q t.slots) (under k v q)
    pub grows : r.0.size ≡ t.size + fresh (assoc k t.slots)
    pub points : get_elem? r.0.slots r.1 ≡ inserted_at k v (assoc k t.slots)

  module _ (t : Table K V) (k : K) (v : V) (valid : IsValid t) where
    -- The probe of `a` ends at `p` after the write at `i`.
    abbrev IsPlaced : ℕ → K → ℕ → Type 0
    IsPlaced i a p =
        (e : ℕ) × IsHit (set t.slots i (some (k, v))) t.capacity (start t a) a e
        × (wrap t.capacity (start t a + e) ≡ p)

    written-IsInserted :
        (i d : ℕ)
        → 4 * t.size < 3 * t.capacity
        → get_elem? t.slots i ≡ some none
        → IsHit t.slots t.capacity (start t k) k d
        → wrap t.capacity (start t k + d) ≡ i
        → assoc k t.slots ≡ none
        → IsInserted t k v (record t { slots = set t.slots i (some (k, v)); size = t.size + 1 }, i)
    written-IsInserted i d load free found there absent = record {
      valid = record {
        wide = valid.wide;
        width = length-set t.slots i (some (k, v)) ∙ valid.width;
        counted =
            omega (arith, valid.counted, count_if-set occupied t.slots i none (some (k, v)) free);
        room = omega arith;
        placed = λ p j w held. elim (Bool-cases (i == p)) [
          | inl same ↦
              let here = (==_iff i p).0 same in
              let read : get_elem? (set t.slots i (some (k, v))) i ≡ some (some (j, w)) =
                ap (get_elem? (set t.slots i (some (k, v)))) here ∙ held in
              let e =
                some-injective (k, v) (j, w)
                  (some-injective _ _ (
                    sym (get_elem?-set_self t.slots i _ (lt_of_get_elem? t.slots i none free))
                    ∙ read)) in
              subst (λ a. IsPlaced i a p) (ap (λ x. x.0) e)
                (
                  d,
                  IsHit-set_self t.slots i k v free t.capacity (start t k) d (sym there) found,
                  there ∙ here,
                )
          | inr other ↦
              let apart : i ≢ p = λ e. ground (arith, other, e) in
              let (e, before, at_p) =
                valid.placed p j w (sym (get_elem?-set_ne t.slots i p _ apart) ∙ held) in
              (
                e,
                IsHit-set_ne t.slots i k v free t.capacity (start t j) j e (λ x. apart (x ∙ at_p))
                    before,
                at_p,
              )
        ];
      };
      maps = λ q. assoc-set q k v t.slots i free absent;
      grows = rw absent refl;
      points = rw absent (get_elem?-set_self t.slots i _ (lt_of_get_elem? t.slots i none free));
    }

    pub place-IsInserted :
        4 * t.size < 3 * t.capacity
        → (r : Table K V × ℕ) × (place t k v ≡ some r)
          × IsInserted t k v r
          × (r.0.capacity ≡ t.capacity)
    unfolding place slot_at
    place-IsInserted load = elim (looked t valid k) [
      | missing i run free d found there absent ↦ (
        (record t { slots = set t.slots i (some (k, v)); size = t.size + 1 }, i),
        rw (run, ◌>>=◌, free, ◌>>=◌) refl,
        written-IsInserted i d load free found there absent,
        refl,
      )
      | present i w run held lt here ↦ (
        (t, t.capacity),
        rw (run, ◌>>=◌, held, ◌>>=◌) refl,
        record {
          valid = valid;
          maps = λ q. sym (or_else-present q k v w t.slots here);
          grows = rw here (omega arith);
          points = rw here (get_elem?_outside t.slots t.capacity (omega (arith, valid.width)));
        },
        refl,
      )
    ]
