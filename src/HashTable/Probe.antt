-- ===== src/HashTable/Probe.antt =====
-- `find_available_position` of include/qs/hash_table.hpp: where its loop ends.
use native.Mathlib.Decide.{dec_lt}
use k23_search_engine.Prelude.{
  ℕ, zero, suc, ◌+◌, ◌-◌, ◌<◌, ◌≡◌, ◌≢◌, refl, ◌∙◌, List, Option, none, some, arith, false, length,
  get_elem?, ltb, ◌>>=◌, if◌then◌else◌, Bool-cases, inl, inr, ◌⊎◌, get_elem?_of_lt,
}
use k23_search_engine.HashTable.{at, probe}
use k23_search_engine.HashTable.Keys.{Key}

-- The position `n - index` steps after `index`, cyclically.
abbrev pub wrap : ℕ → ℕ → ℕ
wrap capacity n = if ltb n capacity then n else n - capacity

-- Where the loop goes from the position `p`.
wrap_next :
    (capacity index d p q : ℕ)
    → index < capacity
    → suc d < capacity
    → p ≡ wrap capacity (index + d)
    → q ≡ wrap capacity (index + suc d)
    → ((p + 1 ≡ capacity) × (q ≡ 0)) ⊎ ((p + 1 ≢ capacity) × (p + 1 ≢ index) × (q ≡ p + 1))
wrap_next capacity index d p q h lt ep eq = elim (dec_lt (suc p) capacity) [
  | yes below ↦ inr (omega arith, ground arith, ground arith)
  | no above ↦ inl (ground arith, ground arith)
]

-- Every position is so many steps after `index`.
unwrap :
    (capacity index i : ℕ)
    → index < capacity
    → i < capacity
    → (d : ℕ) × (d < capacity) × (wrap capacity (index + d) ≡ i)
unwrap capacity index i h lt = elim (dec_lt i index) [
  | yes below ↦ (i + capacity - index, omega arith, ground arith)
  | no above ↦ (i - index, omega arith, ground arith)
]

pub wrap_lt : (capacity n : ℕ) → n < capacity + capacity → wrap capacity n < capacity
wrap_lt capacity n h = ground arith

module _ {K V : Type 0} ⦃key : Key K⦄ where
  -- The slot at `i` holds another key than `k`.
  abbrev pub Passes : List (Option (K × V)) → K → ℕ → Type 0
  Passes slots k i =
      (j : K) × (v : V) × (get_elem? slots i ≡ some (some (j, v))) × (key.equal j k ≡ false)

  -- The slot at `i` is free or holds `k`.
  abbrev pub Ends : List (Option (K × V)) → K → ℕ → Type 0
  Ends slots k i =
      (get_elem? slots i ≡ some none) ⊎ ((v : V) × (get_elem? slots i ≡ some (some (k, v))))

  -- One round over a slot that holds another key.
  probe_step :
      (fuel : ℕ) (k : K) (slots : List (Option (K × V))) (capacity index d p q : ℕ) (j : K) (v : V)
      → index < capacity
      → suc d < capacity
      → p ≡ wrap capacity (index + d)
      → q ≡ wrap capacity (index + suc d)
      → get_elem? slots p ≡ some (some (j, v))
      → key.equal j k ≡ false
      → probe (suc fuel) k slots capacity index p ≡ probe fuel k slots capacity index q
  unfolding probe
  probe_step fuel k slots capacity index d p q j v h lt ep eq read other =
      elim (wrap_next capacity index d p q h lt ep eq) [
        | inl (last, start) ↦ rw (read, ◌>>=◌, other, start) (ground arith)
        | inr (inner, fresh, next) ↦ rw (read, ◌>>=◌, other, next) (ground arith)
      ]

  -- The loop started at `index` ends `d` steps later.
  pub record IsHit (slots : List (Option (K × V))) (capacity index : ℕ) (k : K) (d : ℕ)
      : Type 0 where
    pub inside : d < capacity
    pub ends : Ends slots k (wrap capacity (index + d))
    pub passes : (e : ℕ) → e < d → Passes slots k (wrap capacity (index + e))

  probe_stop :
      (fuel : ℕ) (k : K) (slots : List (Option (K × V))) (capacity index p : ℕ)
      → Ends slots k p
      → probe (suc fuel) k slots capacity index p ≡ some (at p)
  unfolding probe
  probe_stop fuel k slots capacity index p (inl free) = rw (free, ◌>>=◌) refl
  probe_stop fuel k slots capacity index p (inr (v, held)) =
      rw (held, ◌>>=◌, (key.equal_iff k k).1 refl) refl

  module _ (slots : List (Option (K × V))) (capacity index : ℕ) (k : K)
      (within : index < capacity) where
    pub probe-IsHit :
        (fuel d rest n : ℕ)
        → rest < fuel
        → d + rest ≡ n
        → IsHit slots capacity index k n
        → probe fuel k slots capacity index (wrap capacity (index + d))
          ≡ some (at (wrap capacity (index + n)))
    probe-IsHit zero d rest n enough e hit = absurd (omega arith)
    probe-IsHit (suc fuel) d zero n enough e hit =
        let same : d ≡ n = omega arith in
        rw same (probe_stop fuel k slots capacity index _ hit.ends)
    probe-IsHit (suc fuel) d (suc rest) n enough e hit =
        let (j, v, read, other) = hit.passes d (omega arith) in
        probe_step fuel k slots capacity index d _ _ j v within (omega (arith, hit.inside)) refl
          refl read other
        ∙ probe-IsHit fuel (suc d) rest n (omega arith) (omega arith) hit

    -- The loop passes every slot up to the `d`-th, or ends before it.
    IsHit-before :
        (d : ℕ)
        → length slots ≡ capacity
        → d < capacity
        → ((e : ℕ) → e < d → Passes slots k (wrap capacity (index + e)))
          ⊎ ((e : ℕ) × IsHit slots capacity index k e)
    IsHit-before zero width h = inl (λ e lt. absurd (omega arith))
    IsHit-before (suc d) width h = elim (IsHit-before d width (omega arith)) [
      | inr hit ↦ inr hit
      | inl before ↦
          let (slot, read) =
            get_elem?_of_lt slots (wrap capacity (index + d))
              (omega (arith, wrap_lt capacity (index + d) (omega arith))) in
          here d (omega arith) before slot read
    ]
      where
        here :
            (d : ℕ)
            → d < capacity
            → ((e : ℕ) → e < d → Passes slots k (wrap capacity (index + e)))
            → (slot : Option (K × V)) → get_elem? slots (wrap capacity (index + d)) ≡ some slot
            → ((e : ℕ) → e < suc d → Passes slots k (wrap capacity (index + e)))
              ⊎ ((e : ℕ) × IsHit slots capacity index k e)
        here d h before none free = inr (d, record { inside = h; ends = inl free; passes = before })
        here d h before (some (j, v)) held = elim (Bool-cases (key.equal j k)) [
          | inl same ↦ inr (
            d,
            record {
              inside = h;
              ends = inr (v, rw (← (key.equal_iff j k).0 same) held);
              passes = before;
            },
          )
          | inr other ↦ inl (λ e lt. elim (dec_lt e d) [
            | yes below ↦ before e below
            | no above ↦ let last : e ≡ d = omega arith in rw last (j, v, held, other)
          ])
        ]

    -- A free slot makes the loop end.
    pub free-IsHit :
        (i : ℕ)
        → length slots ≡ capacity
        → i < capacity
        → get_elem? slots i ≡ some none
        → (d : ℕ) × IsHit slots capacity index k d
    free-IsHit i width lt free =
        let (d, inside, there) = unwrap capacity index i within lt in
        elim (IsHit-before d width inside) [
          | inr hit ↦ hit
          | inl before ↦
              (d, record { inside = inside; ends = inl (rw there free); passes = before })
        ]
