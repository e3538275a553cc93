-- ===== src/Engine/Documents/Count.antt =====
-- The counters of the thresholds, as `StartQuery` and `EndQuery` of src/core.cpp change them.
use k23_search_engine.Prelude.{
  ℕ, ◌<◌, ◌≡◌, refl, sym, ap, ◌∙◌, Option, none, some, ◌>>=◌, arith, true, false, Bool-cases,
  Option-cases, inl, inr,
}
use k23_search_engine.HashTable.{Table}
use k23_search_engine.HashTable.Keys.{Key}
use k23_search_engine.HashTable.Assoc.{assoc, or_else, under_other, or_else-none}
use k23_search_engine.HashTable.Valid.{IsValid, lookup_lem}
use k23_search_engine.HashTable.Insert.{insert-IsInserted}
use k23_search_engine.HashTable.Iterator.Assign.{IsAssigned, set_value-IsAssigned}
use k23_search_engine.HashTable.Iterator.Lookup.{lookup-IsFound, lookup_absent}
use k23_search_engine.Engine.{
  Counters, MatchType, exact_match, hamming_dist, edit_dist, unknown, int_size, increment,
  decrement,
}
use k23_search_engine.Engine.Start.{count_up, count_query, counters_after}
use k23_search_engine.Engine.Documents.{count_down, uncount_query}

abbrev pub zeros : Counters
zeros = record { hamming = 0; edit = 0 }

-- The counters of a threshold, which are 0 before its first query.
abbrev pub or_zeros : Option Counters → Counters
or_zeros none = zeros
or_zeros (some c) = c

-- The counters are `int`s.
pub record IsInt (c : Counters) : Type 0 where
  pub hamming_lt : c.hamming < int_size
  pub edit_lt : c.edit < int_size

decrement-increment : (x : ℕ) → x < int_size → decrement (increment x) ≡ x
decrement-increment x h = omega arith

count_down-count_up : (t : MatchType) (c : Counters) → IsInt c → count_down t (count_up t c) ≡ c
unfolding count_down count_up
count_down-count_up exact_match c h = refl
count_down-count_up hamming_dist c h =
    ap (λ n. record c { hamming = n }) (decrement-increment c.hamming h.hamming_lt)
count_down-count_up edit_dist c h =
    ap (λ n. record c { edit = n }) (decrement-increment c.edit h.edit_lt)
count_down-count_up (unknown n) c h = refl

module _ ⦃ids : Key ℕ⦄ where
  -- The table after the counters of one threshold have changed.
  pub record IsCounted (d : ℕ) (c : Counters) (t t' : Table ℕ Counters) : Type 0 where
    pub valid : IsValid t'
    pub at_d : assoc d t'.slots ≡ some c
    pub others : (k : ℕ) → ids.equal d k ≡ false → assoc k t'.slots ≡ assoc k t.slots

  same : (d : ℕ) → ids.equal d d ≡ true
  same d = (ids.equal_iff d d).1 refl

  assigned-IsCounted :
      (d i : ℕ) (c : Counters) (t t' : Table ℕ Counters)
      → IsAssigned t i d c t'
      → IsCounted d c t t'
  assigned-IsCounted d i c t t' a = record {
    valid = a.valid;
    at_d = a.maps d ∙ rw (same d) refl;
    others = λ k ne. a.maps k ∙ rw ne refl;
  }

  pub count_query-IsCounted :
      (t : MatchType) (d : ℕ) (counters : Table ℕ Counters)
      → IsValid counters
      → (c' : Table ℕ Counters) × (count_query t d counters ≡ some c')
        × IsCounted d (count_up t (or_zeros (assoc d counters.slots))) counters c'
  unfolding count_query
  count_query-IsCounted t d counters valid = elim (Option-cases (assoc d counters.slots)) [
    | inl absent ↦
        let (miss, end) = lookup_absent counters d valid absent in
        let (r, insert, ins) = insert-IsInserted counters d (count_up t zeros) valid in
        (
          r.0,
          rw (miss, ◌>>=◌, end, insert, ◌>>=◌) refl,
          record {
            valid = ins.valid;
            at_d = ins.maps d ∙ rw (absent, same d) refl;
            others = λ k ne.
                ins.maps k
                ∙ ap (or_else (assoc k counters.slots)) (under_other d (count_up t zeros) k ne)
                ∙ or_else-none (assoc k counters.slots);
          },
        )
    | inr (c, here) ↦
        let f = lookup-IsFound counters d valid c here in
        let (c', write, a) = set_value-IsAssigned counters f.i d (count_up t c) c valid f.held in
        (
          c',
          rw (f.run, ◌>>=◌, f.inner, f.read, ◌>>=◌) write,
          rw here (assigned-IsCounted d f.i (count_up t c) counters c' a),
        )
  ]

  -- A query of a distance: `EndQuery` changes the counters of its threshold.
  pub data IsDistance : MatchType → Type 0 where
    by_hamming : IsDistance hamming_dist
    by_edit : IsDistance edit_dist

  pub uncount_query-IsCounted :
      (t : MatchType) (d : ℕ) (c : Counters) (counters : Table ℕ Counters)
      → IsDistance t
      → IsValid counters
      → assoc d counters.slots ≡ some c
      → (c' : Table ℕ Counters) × (uncount_query t d counters ≡ some c')
        × IsCounted d (count_down t c) counters c'
  unfolding uncount_query
  uncount_query-IsCounted hamming_dist d c counters by_hamming valid here =
      let f = lookup-IsFound counters d valid c here in
      let (c', write, a) =
        set_value-IsAssigned counters f.i d (count_down hamming_dist c) c valid f.held in
      (
        c',
        rw (f.run, ◌>>=◌, f.read, ◌>>=◌) write,
        assigned-IsCounted d f.i (count_down hamming_dist c) counters c' a,
      )
  uncount_query-IsCounted edit_dist d c counters by_edit valid here =
      let f = lookup-IsFound counters d valid c here in
      let (c', write, a) =
        set_value-IsAssigned counters f.i d (count_down edit_dist c) c valid f.held in
      (
        c',
        rw (f.run, ◌>>=◌, f.read, ◌>>=◌) write,
        assigned-IsCounted d f.i (count_down edit_dist c) counters c' a,
      )
  uncount_query-IsCounted exact_match d c counters distance valid here = elim distance [ ]
  uncount_query-IsCounted (unknown n) d c counters distance valid here = elim distance [ ]

  -- The counters of all thresholds, as `EndQuery` leaves them.
  abbrev pub IsUndone : MatchType → ℕ → Table ℕ Counters → Table ℕ Counters → Type 0
  IsUndone t d counters c1 =
      (c2 : Table ℕ Counters) × (uncount_query t d c1 ≡ some c2)
      × IsValid c2
      × ((k : ℕ) → or_zeros (assoc k c2.slots) ≡ or_zeros (assoc k counters.slots))

  distance-IsUndone :
      (t : MatchType) (d : ℕ) (counters : Table ℕ Counters)
      → IsDistance t
      → IsValid counters
      → IsInt (or_zeros (assoc d counters.slots))
      → (c1 : Table ℕ Counters) × (count_query t d counters ≡ some c1) × IsUndone t d counters c1
  distance-IsUndone t d counters distance valid int =
      let before = or_zeros (assoc d counters.slots) in
      let (c1, run, up) = count_query-IsCounted t d counters valid in
      let (c2, back, down) =
        uncount_query-IsCounted t d (count_up t before) c1 distance up.valid up.at_d in
      (
        c1,
        run,
        (
          c2,
          back,
          down.valid,
          λ k. elim (Bool-cases (ids.equal d k)) [
            | inl here ↦
                let e = (ids.equal_iff d k).0 here in
                ap (λ x. or_zeros (assoc x c2.slots)) (sym e)
                ∙ ap or_zeros down.at_d
                ∙ count_down-count_up t before int
                ∙ ap (λ x. or_zeros (assoc x counters.slots)) e
            | inr other ↦ ap or_zeros (down.others k other ∙ up.others k other)
          ],
        ),
      )

  unchanged-IsUndone :
      (t : MatchType) (d : ℕ) (counters : Table ℕ Counters)
      → IsValid counters
      → uncount_query t d counters ≡ some counters
      → IsUndone t d counters counters
  unchanged-IsUndone t d counters valid run = (counters, run, valid, λ k. refl)

  -- On a valid table of counters below 2 ^ 32: what `StartQuery` does to the counters, followed by what
  -- `EndQuery` does, ends without a fault and gives each threshold the counters that it had, where no
  -- entry counts as zeros; for each type of match, known or not.
  pub uncount_query-counters_after :
      (t : MatchType) (d : ℕ) (counters : Table ℕ Counters)
      → IsValid counters
      → IsInt (or_zeros (assoc d counters.slots))
      → (c1 : Table ℕ Counters) × (counters_after t d counters ≡ some c1) × IsUndone t d counters c1
  unfolding counters_after uncount_query
  uncount_query-counters_after exact_match d counters valid int =
      let (i, run, end) = lookup_lem counters valid d in
      (counters, refl, unchanged-IsUndone exact_match d counters valid (rw (run, ◌>>=◌) refl))
  uncount_query-counters_after hamming_dist d counters valid int =
      distance-IsUndone hamming_dist d counters by_hamming valid int
  uncount_query-counters_after edit_dist d counters valid int =
      distance-IsUndone edit_dist d counters by_edit valid int
  uncount_query-counters_after (unknown n) d counters valid int =
      let (i, run, end) = lookup_lem counters valid d in
      (counters, refl, unchanged-IsUndone (unknown n) d counters valid (rw (run, ◌>>=◌) refl))
