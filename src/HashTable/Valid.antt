-- ===== src/HashTable/Valid.antt =====
-- The invariant of include/qs/hash_table.hpp, and `lookup` under it.
use mathlib.Core.Option.{some-injective}
use native.Mathlib.Nat.{mod-lt}
use k23_search_engine.Prelude.{
  ℕ, zero, suc, ◌+◌, ◌*◌, ◌%◌, ◌≤◌, ◌<◌, ◌≡◌, refl, sym, ap, ◌∙◌, List, [], ◌∷◌, Option, none, some,
  arith, Bool, true, false, length, get_elem?, count_if, ◌>>=◌, ◌==◌, not, Option-cases, ==_iff,
  inl, inr, subst,
}
use k23_search_engine.HashTable.{
  Table, Position, at, minus_one, probe, find_available_position, slot_at, lookup, get,
}
use k23_search_engine.HashTable.Keys.{Key}
use k23_search_engine.HashTable.Probe.{wrap, wrap_lt, IsHit, probe-IsHit, free-IsHit}
use k23_search_engine.HashTable.Assoc.{assoc, held_of_assoc, assoc_of_held}

abbrev pub occupied : {A : Type 0} → Option A → Bool
occupied none = false
occupied (some e) = true

-- A list with fewer occupied slots than slots has a free one.
free_slot :
    {A : Type 0} (slots : List (Option A))
    → count_if occupied slots < length slots
    → (i : ℕ) × (i < length slots) × (get_elem? slots i ≡ some none)
free_slot [] h = absurd (omega arith)
free_slot (none ∷ slots) h = (zero, omega arith, refl)
free_slot (some e ∷ slots) h =
    let (i, lt, free) = free_slot slots (omega arith) in (suc i, omega arith, free)

start_wrap : {capacity index : ℕ} → index < capacity → wrap capacity (index + 0) ≡ index
start_wrap h = ground arith

-- The position, or 0.
abbrev position : Position → ℕ
position (at i) = i
position minus_one = 0

at_inj : {i j : ℕ} → some (at i) ≡ some (at j) → i ≡ j
at_inj h = ap position (some-injective _ _ h)

module _ {K V : Type 0} ⦃key : Key K⦄ where
  -- Where the probe of `k` starts.
  abbrev pub start : Table K V → K → ℕ
  start t k = key.hash k % t.capacity

  -- The arrays have the capacity, `size` counts the entries, at least one slot is free, and each entry
  -- is where the probe of its key ends.
  pub record IsValid (t : Table K V) : Type 0 where
    pub wide : 4 ≤ t.capacity
    pub width : length t.slots ≡ t.capacity
    pub counted : count_if occupied t.slots ≡ t.size
    pub room : 4 * t.size ≤ 3 * t.capacity + 3
    pub placed :
        (i : ℕ) (j : K) (v : V)
        → get_elem? t.slots i ≡ some (some (j, v))
        → (d : ℕ) × IsHit t.slots t.capacity (start t j) j d × (wrap t.capacity (start t j + d) ≡ i)

  module _ (t : Table K V) (valid : IsValid t) where
    pub start_lt : (k : K) → start t k < t.capacity
    start_lt k = mod-lt (key.hash k) (omega (arith, valid.wide))

    pub find_available_position-IsHit :
        (k : K) (d : ℕ)
        → IsHit t.slots t.capacity (start t k) k d
        → find_available_position t k ≡ some (at (wrap t.capacity (start t k + d)))
    unfolding find_available_position
    find_available_position-IsHit k d hit =
        let first : wrap t.capacity (start t k + 0) ≡ start t k = start_wrap (start_lt k) in
        let run =
          probe-IsHit t.slots t.capacity (start t k) k (start_lt k) (suc t.capacity) 0 d d
            (omega (arith, hit.inside)) (omega arith) hit in
        let wide : (t.capacity == 0) ≡ false = ground (arith, valid.wide) in
        rw wide (
          subst
            (λ p.
              probe (suc t.capacity) k t.slots t.capacity (start t k) p
              ≡ some (at (wrap t.capacity (start t k + d))))
            first run)

    -- The probe of every key ends.
    pub hit : (k : K) → (d : ℕ) × IsHit t.slots t.capacity (start t k) k d
    hit k =
        let (i, lt, free) =
          free_slot t.slots (omega (arith, valid.counted, valid.width, valid.room, valid.wide)) in
        free-IsHit t.slots t.capacity (start t k) k (start_lt k) i valid.width
          (omega (arith, valid.width)) free

    -- An entry is where the probe of its key ends.
    pub held_unique :
        (k : K) (d i : ℕ) (v : V)
        → IsHit t.slots t.capacity (start t k) k d
        → get_elem? t.slots i ≡ some (some (k, v))
        → wrap t.capacity (start t k + d) ≡ i
    held_unique k d i v found held =
        let (e, other, there) = valid.placed i k v held in
        at_inj
          (sym (find_available_position-IsHit k d found) ∙ find_available_position-IsHit k e other)
        ∙ there

    assoc_of_free :
        (k : K) (d : ℕ)
        → IsHit t.slots t.capacity (start t k) k d
        → get_elem? t.slots (wrap t.capacity (start t k + d)) ≡ some none
        → assoc k t.slots ≡ none
    assoc_of_free k d found free = elim (Option-cases (assoc k t.slots)) [
      | inl e ↦ e
      | inr (w, e) ↦
          let (i, held) = held_of_assoc k t.slots w e in
          let there = held_unique k d i w found held in
          let clash = sym free ∙ ap (get_elem? t.slots) there ∙ held in absurd cc
    ]

    pub assoc_at :
        (k : K) (i : ℕ) (v : V)
        → get_elem? t.slots i ≡ some (some (k, v))
        → assoc k t.slots ≡ some v
    assoc_at k i v held = elim (Option-cases (assoc k t.slots)) [
      | inl e ↦ absurd (assoc_of_held k t.slots v i held e)
      | inr (w, e) ↦
          let (i', held') = held_of_assoc k t.slots w e in
          let (d, found) = hit k in
          let same : i ≡ i' =
            sym (held_unique k d i v found held) ∙ held_unique k d i' w found held' in
          let read = sym held ∙ ap (get_elem? t.slots) same ∙ held' in
          e ∙ ap (λ o. o >>= λ p. p >>= λ q. some q.1) (sym read)
    ]

    -- Where `lookup` finds a key: its entry, or `end()` if no slot holds the key.
    pub data Looked (k : K) : Type 0 where
      missing :
          (i : ℕ)
          → find_available_position t k ≡ some (at i)
          → get_elem? t.slots i ≡ some none
          → (d : ℕ) → IsHit t.slots t.capacity (start t k) k d
          → wrap t.capacity (start t k + d) ≡ i
          → assoc k t.slots ≡ none
          → Looked k
      present :
          (i : ℕ) (v : V)
          → find_available_position t k ≡ some (at i)
          → get_elem? t.slots i ≡ some (some (k, v))
          → i < t.capacity
          → assoc k t.slots ≡ some v
          → Looked k

    pub looked : (k : K) → Looked k
    looked k =
        let (d, found) = hit k in
        let run = find_available_position-IsHit k d found in
        elim found.ends [
          | inl free ↦ missing _ run free d found refl (assoc_of_free k d found free)
          | inr (v, held) ↦
              present _ v run held
                (wrap_lt t.capacity (start t k + d) (omega (arith, found.inside, start_lt k)))
                (assoc_at k _ v held)
        ]

    -- On a valid table `lookup` ends without a fault, and its iterator gives the value that the slots hold
    -- for the key.
    pub get-eq-assoc : (k : K) → get t k ≡ some (assoc k t.slots)
    unfolding get lookup slot_at
    get-eq-assoc k = elim (looked k) [
      | missing i run free d found there absent ↦
          rw (run, ◌>>=◌, free, ◌>>=◌, absent, (==_iff t.capacity t.capacity).1 refl) refl
      | present i v run held lt here ↦
          let inner : (i == t.capacity) ≡ false = ground arith in
          rw (run, ◌>>=◌, held, ◌>>=◌, here, inner, held, ◌>>=◌) refl
    ]

    -- The iterator of `lookup` is `end()` if and only if no slot holds the key.
    pub lookup_lem :
        (k : K)
        → (i : ℕ) × (lookup t k ≡ some i) × ((i == t.capacity) ≡ not (occupied (assoc k t.slots)))
    unfolding lookup slot_at
    lookup_lem k = elim (looked k) [
      | missing i run free d found there absent ↦ (
        t.capacity,
        rw (run, ◌>>=◌, free, ◌>>=◌) refl,
        rw absent ((==_iff t.capacity t.capacity).1 refl),
      )
      | present i v run held lt here ↦
          (i, rw (run, ◌>>=◌, held, ◌>>=◌) refl, rw here (ground arith))
    ]
