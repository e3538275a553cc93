-- ===== src/HashTable/Write.antt =====
-- The write of an entry in include/qs/hash_table.hpp, and the probes of the keys.
use k23_search_engine.Prelude.{
  ℕ, ◌+◌, ◌≡◌, ◌≢◌, ◌∙◌, List, Option, none, some, get_elem?, set, get_elem?-set_self,
  get_elem?-set_ne, lt_of_get_elem?, inl, inr,
}
use k23_search_engine.HashTable.Probe.{wrap, Passes, IsHit}
use k23_search_engine.HashTable.Keys.{Key}

module _ {K V : Type 0} ⦃key : Key K⦄ (slots : List (Option (K × V))) (i : ℕ) (k : K) (v : V)
    (free : get_elem? slots i ≡ some none) where
  -- A slot that holds something is not the free one.
  ne_of_held : (p : ℕ) (e : K × V) → get_elem? slots p ≡ some (some e) → i ≢ p
  ne_of_held p e held same = cc

  Passes-set : (q : K) (p : ℕ) → Passes slots q p → Passes (set slots i (some (k, v))) q p
  Passes-set q p (j, w, held, other) =
      (j, w, get_elem?-set_ne slots i p _ (ne_of_held p _ held) ∙ held, other)

  pub IsHit-set_ne :
      (capacity index : ℕ) (q : K) (d : ℕ)
      → i ≢ wrap capacity (index + d)
      → IsHit slots capacity index q d
      → IsHit (set slots i (some (k, v))) capacity index q d
  IsHit-set_ne capacity index q d ne hit = record {
    inside = hit.inside;
    ends = elim hit.ends [
      | inl empty ↦ inl (get_elem?-set_ne slots i _ _ ne ∙ empty)
      | inr (w, held) ↦ inr (w, get_elem?-set_ne slots i _ _ ne ∙ held)
    ];
    passes = λ e lt. Passes-set q _ (hit.passes e lt);
  }

  pub IsHit-set_self :
      (capacity index d : ℕ)
      → i ≡ wrap capacity (index + d)
      → IsHit slots capacity index k d
      → IsHit (set slots i (some (k, v))) capacity index k d
  IsHit-set_self capacity index d same hit = record {
    inside = hit.inside;
    ends = inr (v, rw (← same) (get_elem?-set_self slots i _ (lt_of_get_elem? slots i none free)));
    passes = λ e lt. Passes-set k _ (hit.passes e lt);
  }
