-- ===== src/HashTable/Iterator/Lookup.antt =====
-- The iterator that `lookup` of include/qs/hash_table.hpp returns.
use k23_search_engine.Prelude.{
  ℕ, ◌≡◌, refl, sym, ◌∙◌, none, some, ◌>>=◌, arith, ◌==◌, true, false, get_elem?, ==_iff,
}
use mathlib.Core.Option.{some-injective}
use k23_search_engine.HashTable.{Table, lookup, slot_at}
use k23_search_engine.HashTable.Keys.{Key}
use k23_search_engine.HashTable.Assoc.{assoc}
use k23_search_engine.HashTable.Valid.{IsValid, looked, missing, present}
use k23_search_engine.HashTable.Iterator.{entry_at}

module _ {K V : Type 0} ⦃key : Key K⦄ (t : Table K V) (k : K) (valid : IsValid t) where
  -- The iterator of a key that is there.
  pub record IsFound (v : V) : Type 0 where
    pub i : ℕ
    pub run : lookup t k ≡ some i
    pub inner : (i == t.capacity) ≡ false
    pub held : get_elem? t.slots i ≡ some (some (k, v))
    pub read : entry_at t i ≡ some (k, v)

  pub lookup-IsFound : (v : V) → assoc k t.slots ≡ some v → IsFound v
  unfolding lookup slot_at entry_at
  lookup-IsFound v here = elim (looked t valid k) [
    | missing i run free d found there absent ↦ let clash = sym absent ∙ here in absurd cc
    | present i w run held lt value ↦
        let same : w ≡ v = some-injective w v (sym value ∙ here) in
        record {
          i = i;
          run = rw (run, ◌>>=◌, held, ◌>>=◌) refl;
          inner = ground arith;
          held = rw (← same) held;
          read = rw (held, ◌>>=◌, same) refl;
        }
  ]

  pub lookup_absent :
      assoc k t.slots ≡ none → (lookup t k ≡ some t.capacity) × ((t.capacity == t.capacity) ≡ true)
  unfolding lookup slot_at
  lookup_absent absent = elim (looked t valid k) [
    | missing i run free d found there e ↦
        (rw (run, ◌>>=◌, free, ◌>>=◌) refl, (==_iff t.capacity t.capacity).1 refl)
    | present i w run held lt value ↦ let clash = sym absent ∙ value in absurd cc
  ]
