-- ===== src/Engine/Documents/Tried.antt =====
-- The counters of src/core.cpp that let `match_queries` try a threshold.
use mathlib.Core.Option.{some-injective}
use k23_search_engine.Prelude.{
  ℕ, zero, suc, ◌+◌, ◌<◌, ◌≡◌, refl, sym, ap, subst, ◌∙◌, List, [], ◌∷◌, Option, none, some, arith,
  ◌==◌, leb, not, Bool, true, false, ◌&&◌, bit, count_if, get_elem?, Bool-cases, ==_iff, inl, inr,
}
use k23_search_engine.HashTable.{Table}
use k23_search_engine.HashTable.Keys.{Key}
use k23_search_engine.HashTable.Assoc.{assoc, held_of_assoc}
use k23_search_engine.HashTable.Valid.{IsValid}
use k23_search_engine.HashTable.Iterator.{held}
use k23_search_engine.Engine.{
  Counters, MatchType, exact_match, hamming_dist, edit_dist, unknown, int_size,
}
use k23_search_engine.Engine.Start.{count_up, counters_after}
use k23_search_engine.Engine.Results.{is_skipped}
use k23_search_engine.Engine.Results.Thresholds.{is_tried}
use k23_search_engine.Engine.Documents.Count.{or_zeros, IsCounted, count_query-IsCounted}

-- Whether the counters of a threshold count a query of a type.
abbrev pub is_counted : MatchType → Option Counters → Bool
is_counted match_type none = false
is_counted match_type (some c) = not (is_skipped match_type c)

-- The counters can be counted up.
pub record IsSmall (c : Counters) : Type 0 where
  pub hamming_lt : c.hamming + 1 < int_size
  pub edit_lt : c.edit + 1 < int_size

held_counts :
    {A : Type 0} (p : A → Bool) (slots : List (Option A)) (i : ℕ) (x : A)
    → get_elem? slots i ≡ some (some x)
    → p x ≡ true
    → leb 1 (count_if p (held slots)) ≡ true
unfolding held
held_counts p [] i x read pass = absurd cc
held_counts p (none ∷ slots) zero x read pass = absurd cc
held_counts p (some y ∷ slots) zero x read pass =
    rw (some-injective y x (some-injective _ _ read), pass) (ground arith)
held_counts p (none ∷ slots) (suc i) x read pass = held_counts p slots i x read pass
held_counts p (some y ∷ slots) (suc i) x read pass =
    let rest = held_counts p slots i x read pass in ground (arith, rest)

pub tried_of_counted :
    ⦃ids : Key ℕ⦄ (match_type : MatchType) (counters : Table ℕ Counters) (d : ℕ)
    → is_counted match_type (assoc d counters.slots) ≡ true
    → is_tried match_type (held counters.slots) d ≡ true
tried_of_counted match_type counters d h = go (assoc d counters.slots) refl h
  where
    go :
        (o : Option Counters)
        → assoc d counters.slots ≡ o
        → is_counted match_type o ≡ true
        → is_tried match_type (held counters.slots) d ≡ true
    go none here h = absurd cc
    go (some c) here h =
        let (i, read) = held_of_assoc d counters.slots c here in
        held_counts (λ e. e.0 == d && not (is_skipped match_type e.1)) counters.slots i (d, c) read
          (rw ((==_iff d d).1 refl) h)

still_counted :
    (t u : MatchType) (o : Option Counters)
    → IsSmall (or_zeros o)
    → is_counted u o ≡ true
    → is_counted u (some (count_up t (or_zeros o))) ≡ true
unfolding count_up
still_counted t u none small h = absurd cc
still_counted exact_match u (some c) small h = h
still_counted (unknown n) u (some c) small h = h
still_counted hamming_dist exact_match (some c) small h = refl
still_counted hamming_dist edit_dist (some c) small h = h
still_counted hamming_dist (unknown n) (some c) small h = refl
still_counted hamming_dist hamming_dist (some c) small h =
    let lt = small.hamming_lt in ground (arith, lt)
still_counted edit_dist exact_match (some c) small h = refl
still_counted edit_dist hamming_dist (some c) small h = h
still_counted edit_dist (unknown n) (some c) small h = refl
still_counted edit_dist edit_dist (some c) small h = let lt = small.edit_lt in ground (arith, lt)

now_counted : (t : MatchType) (c : Counters) → IsSmall c → is_counted t (some (count_up t c)) ≡ true
unfolding count_up
now_counted exact_match c small = refl
now_counted (unknown n) c small = refl
now_counted hamming_dist c small = let lt = small.hamming_lt in ground (arith, lt)
now_counted edit_dist c small = let lt = small.edit_lt in ground (arith, lt)

-- How many queries of a type the counters of a threshold count.
abbrev pub count_of : MatchType → Counters → ℕ
count_of exact_match c = 0
count_of hamming_dist c = c.hamming
count_of edit_dist c = c.edit
count_of (unknown n) c = 0

abbrev pub same_type : MatchType → MatchType → Bool
same_type exact_match u = false
same_type hamming_dist exact_match = false
same_type hamming_dist hamming_dist = true
same_type hamming_dist edit_dist = false
same_type hamming_dist (unknown n) = false
same_type edit_dist exact_match = false
same_type edit_dist hamming_dist = false
same_type edit_dist edit_dist = true
same_type edit_dist (unknown n) = false
same_type (unknown n) u = false

count_up_by :
    (t u : MatchType) (c : Counters)
    → IsSmall c
    → count_of u (count_up t c) ≡ count_of u c + bit (same_type u t)
unfolding count_up
count_up_by t exact_match c small = refl
count_up_by t (unknown n) c small = refl
count_up_by exact_match hamming_dist c small = omega arith
count_up_by exact_match edit_dist c small = omega arith
count_up_by (unknown n) hamming_dist c small = omega arith
count_up_by (unknown n) edit_dist c small = omega arith
count_up_by hamming_dist edit_dist c small = omega arith
count_up_by edit_dist hamming_dist c small = omega arith
count_up_by hamming_dist hamming_dist c small = let lt = small.hamming_lt in omega (arith, lt)
count_up_by edit_dist edit_dist c small = let lt = small.edit_lt in omega (arith, lt)

-- A type that is counted at least once lets its threshold be tried.
pub counted_of_some :
    (t : MatchType) (o : Option Counters) → 0 < count_of t (or_zeros o) → is_counted t o ≡ true
counted_of_some exact_match none h = absurd (omega (arith, h))
counted_of_some hamming_dist none h = absurd (omega (arith, h))
counted_of_some edit_dist none h = absurd (omega (arith, h))
counted_of_some (unknown n) none h = absurd (omega (arith, h))
counted_of_some exact_match (some c) h = refl
counted_of_some hamming_dist (some c) h = ground (arith, h)
counted_of_some edit_dist (some c) h = ground (arith, h)
counted_of_some (unknown n) (some c) h = refl

pub not_exact : (u : MatchType) → same_type u exact_match ≡ false
not_exact exact_match = refl
not_exact hamming_dist = refl
not_exact edit_dist = refl
not_exact (unknown n) = refl

pub not_unknown : (n : ℕ) (u : MatchType) → same_type u (unknown n) ≡ false
not_unknown n exact_match = refl
not_unknown n hamming_dist = refl
not_unknown n edit_dist = refl
not_unknown n (unknown k) = refl

and_true : (b : Bool) → b ≡ (b && true)
and_true true = refl
and_true false = refl

none_more : (n : ℕ) (b : Bool) → n ≡ n + bit (b && false)
none_more n true = omega arith
none_more n false = omega arith

module _ ⦃ids : Key ℕ⦄ where
  -- The table after `StartQuery` has counted a query.
  pub record IsUp (t : MatchType) (d : ℕ) (counters c' : Table ℕ Counters) : Type 0 where
    pub valid : IsValid c'
    pub still :
        (u : MatchType) (k : ℕ)
        → is_counted u (assoc k counters.slots) ≡ true
        → is_counted u (assoc k c'.slots) ≡ true
    pub exact :
        (u : MatchType) (k : ℕ)
        → count_of u (or_zeros (assoc k c'.slots))
          ≡ count_of u (or_zeros (assoc k counters.slots)) + bit (same_type u t && ids.equal d k)
    pub edit : t ≡ edit_dist → is_counted edit_dist (assoc d c'.slots) ≡ true
    pub hamming : t ≡ hamming_dist → is_counted hamming_dist (assoc d c'.slots) ≡ true

  counted-IsUp :
      (t : MatchType) (d : ℕ) (counters c' : Table ℕ Counters)
      → IsSmall (or_zeros (assoc d counters.slots))
      → IsCounted d (count_up t (or_zeros (assoc d counters.slots))) counters c'
      → IsUp t d counters c'
  counted-IsUp t d counters c' small up = record {
    valid = up.valid;
    still = λ u k h. elim (Bool-cases (ids.equal d k)) [
      | inl same ↦
          let e = (ids.equal_iff d k).0 same in
          ap (λ x. is_counted u (assoc x c'.slots)) (sym e)
          ∙ ap (is_counted u) up.at_d
          ∙ still_counted t u (assoc d counters.slots) small
              (ap (λ x. is_counted u (assoc x counters.slots)) e ∙ h)
      | inr other ↦ ap (is_counted u) (up.others k other) ∙ h
    ];
    exact = λ u k. elim (Bool-cases (ids.equal d k)) [
      | inl same ↦
          let e = (ids.equal_iff d k).0 same in
          let now : count_of u (or_zeros (assoc k c'.slots))
              ≡ count_of u (count_up t (or_zeros (assoc k counters.slots))) =
            ap (λ x. count_of u (or_zeros (assoc x c'.slots))) (sym e)
            ∙ ap (λ o. count_of u (or_zeros o)) up.at_d
            ∙ ap (λ x. count_of u (count_up t (or_zeros (assoc x counters.slots)))) e in
          rw same (
            now
            ∙ count_up_by t u _ (subst (λ x. IsSmall (or_zeros (assoc x counters.slots))) e small)
            ∙ ap (λ b. count_of u (or_zeros (assoc k counters.slots)) + bit b)
                (and_true (same_type u t)))
      | inr other ↦ rw other (
          ap (λ o. count_of u (or_zeros o)) (up.others k other)
          ∙ none_more (count_of u (or_zeros (assoc k counters.slots))) (same_type u t))
    ];
    edit = λ e.
        ap (λ x. is_counted x (assoc d c'.slots)) (sym e)
        ∙ ap (is_counted t) up.at_d
        ∙ now_counted t _ small;
    hamming = λ e.
        ap (λ x. is_counted x (assoc d c'.slots)) (sym e)
        ∙ ap (is_counted t) up.at_d
        ∙ now_counted t _ small;
  }

  kept-IsUp :
      (t : MatchType) (d : ℕ) (counters : Table ℕ Counters)
      → IsValid counters
      → ((u : MatchType) → same_type u t ≡ false)
      → (t ≡ edit_dist → ⊥)
      → (t ≡ hamming_dist → ⊥)
      → IsUp t d counters counters
  kept-IsUp t d counters valid other no_edit no_hamming = record {
    valid = valid;
    still = λ u k h. h;
    exact = λ u k. rw (other u) (omega arith);
    edit = λ e. absurd (no_edit e);
    hamming = λ e. absurd (no_hamming e);
  }

  -- `counters_after` on counters that can be counted up: what was counted is still counted, and the new
  -- query is.
  pub counters_after-IsUp :
      (t : MatchType) (d : ℕ) (counters c' : Table ℕ Counters)
      → IsValid counters
      → IsSmall (or_zeros (assoc d counters.slots))
      → counters_after t d counters ≡ some c'
      → IsUp t d counters c'
  unfolding counters_after
  counters_after-IsUp exact_match d counters c' valid small run =
      subst (IsUp exact_match d counters) (some-injective counters c' run)
        (kept-IsUp exact_match d counters valid not_exact (λ e. cc) (λ e. cc))
  counters_after-IsUp (unknown n) d counters c' valid small run =
      subst (IsUp (unknown n) d counters) (some-injective counters c' run)
        (kept-IsUp (unknown n) d counters valid (not_unknown n) (λ e. cc) (λ e. cc))
  counters_after-IsUp hamming_dist d counters c' valid small run =
      let (c1, run1, up) = count_query-IsCounted hamming_dist d counters valid in
      subst (IsUp hamming_dist d counters) (some-injective c1 c' (sym run1 ∙ run))
        (counted-IsUp hamming_dist d counters c1 small up)
  counters_after-IsUp edit_dist d counters c' valid small run =
      let (c1, run1, up) = count_query-IsCounted edit_dist d counters valid in
      subst (IsUp edit_dist d counters) (some-injective c1 c' (sym run1 ∙ run))
        (counted-IsUp edit_dist d counters c1 small up)
