-- ===== src/Engine/Documents/Down.antt =====
-- The store and the counters of src/core.cpp after `EndQuery` has changed them.
use mathlib.Core.Option.{some-injective}
use k23_search_engine.Prelude.{
  ℕ, zero, suc, ◌+◌, ◌<◌, ◌≡◌, ◌⊎◌, refl, sym, ap, ap₂, subst, ◌∙◌, List, [], ◌∷◌, Option, none,
  some, ◌>>=◌, arith, ◌==◌, Bool, true, false, ◌&&◌, bit, get_elem?, set, count_if, count_if-set,
  Bool-cases, Option-cases, inl, inr,
}
use k23_search_engine.HashTable.{Table}
use k23_search_engine.HashTable.Keys.{Key}
use k23_search_engine.HashTable.Assoc.{assoc}
use k23_search_engine.HashTable.Valid.{IsValid, lookup_lem}
use k23_search_engine.Engine.{
  Query, Counters, MatchType, exact_match, hamming_dist, edit_dist, unknown, deref,
}
use k23_search_engine.Engine.Keys.{word_key}
use k23_search_engine.Engine.Results.Posted.{is_there, and-false}
use k23_search_engine.Engine.Documents.{count_down, uncount_query}
use k23_search_engine.Engine.Documents.Count.{
  IsInt, or_zeros, zeros, IsDistance, by_hamming, by_edit, uncount_query-IsCounted,
}
use k23_search_engine.Engine.Documents.Tried.{count_of, same_type, not_exact, not_unknown}
use k23_search_engine.Engine.Documents.Serving.{is_live}

count_down_by :
    (t u : MatchType) (c : Counters)
    → IsInt c
    → (same_type u t ≡ true → 0 < count_of u c)
    → count_of u (count_down t c) + bit (same_type u t) ≡ count_of u c
unfolding count_down
count_down_by t exact_match c int some_left = refl
count_down_by t (unknown n) c int some_left = refl
count_down_by exact_match hamming_dist c int some_left = omega arith
count_down_by exact_match edit_dist c int some_left = omega arith
count_down_by (unknown n) hamming_dist c int some_left = omega arith
count_down_by (unknown n) edit_dist c int some_left = omega arith
count_down_by hamming_dist edit_dist c int some_left = omega arith
count_down_by edit_dist hamming_dist c int some_left = omega arith
count_down_by hamming_dist hamming_dist c int some_left =
    let lt = int.hamming_lt in let left = some_left refl in omega (arith, lt, left)
count_down_by edit_dist edit_dist c int some_left =
    let lt = int.edit_lt in let left = some_left refl in omega (arith, lt, left)

cell_of :
    (store : List (Option Query)) (q : ℕ) (x : Query)
    → deref store q ≡ some x
    → get_elem? store q ≡ some (some x)
unfolding deref
cell_of [] q x h = absurd cc
cell_of (c ∷ store) zero x h = ap some h
cell_of (c ∷ store) (suc q) x h = cell_of store q x h

-- The queries of the store, after one of them has changed.
pub set_cases :
    (store : List (Option Query)) (q : ℕ) (x x' : Query) (p : ℕ) (query : Query)
    → deref store q ≡ some x
    → deref (set store q (some x')) p ≡ some query
    → (((q == p) ≡ true) × (x' ≡ query)) ⊎ (((q == p) ≡ false) × (deref store p ≡ some query))
unfolding deref
set_cases [] q x x' p query there h = absurd cc
set_cases (c ∷ store) zero x x' zero query there h = inl (refl, some-injective x' query h)
set_cases (c ∷ store) zero x x' (suc p) query there h = inr (ground arith, h)
set_cases (c ∷ store) (suc q) x x' zero query there h = inr (ground arith, h)
set_cases (c ∷ store) (suc q) x x' (suc p) query there h =
    elim (set_cases store q x x' p query there h) [
      | inl (same, e) ↦ inl (ground (arith, same), e)
      | inr (other, at) ↦ inr (ground (arith, other), at)
    ]

pub still_there :
    (store : List (Option Query)) (q : ℕ) (x x' : Query) (p : ℕ)
    → deref store q ≡ some x
    → is_there (set store q (some x')) p ≡ is_there store p
unfolding deref
still_there [] q x x' p there = refl
still_there (c ∷ store) zero x x' zero there =
    ap (λ c. elim c [ none ↦ false | some y ↦ true ]) (sym there)
still_there (c ∷ store) zero x x' (suc p) there = refl
still_there (c ∷ store) (suc q) x x' zero there = refl
still_there (c ∷ store) (suc q) x x' (suc p) there = still_there store q x x' p there

-- The query, no longer active.
abbrev pub ended : Query → Query
ended x = record x { active = false }

nothing_left : {o : Counters} (t : MatchType) → o ≡ zeros → 0 < count_of t o → ⊥
nothing_left t e h = none_of t (subst (λ c. 0 < count_of t c) e h)
  where
    none_of : (t : MatchType) → 0 < count_of t zeros → ⊥
    none_of exact_match h = absurd (omega (arith, h))
    none_of hamming_dist h = absurd (omega (arith, h))
    none_of edit_dist h = absurd (omega (arith, h))
    none_of (unknown n) h = absurd (omega (arith, h))

module _ ⦃ids : Key ℕ⦄ where
  pub live_here :
      (u : MatchType) (k : ℕ) (store : List (Option Query)) (q : ℕ) (x : Query)
      → deref store q ≡ some x
      → count_if (is_live u k) (set store q (some (ended x))) + bit (is_live u k (some x))
        ≡ count_if (is_live u k) store
  live_here u k store q x there =
      count_if-set (is_live u k) store q (some x) (some (ended x)) (cell_of store q x there)
      ∙ omega arith

  -- The counters after `EndQuery` has counted a query down.
  pub record IsDown (t : MatchType) (d : ℕ) (counters : Table ℕ Counters)
      (run : Option (Table ℕ Counters)) : Type 0 where
    pub c' : Table ℕ Counters
    pub returns : run ≡ some c'
    pub valid : IsValid c'
    pub exact :
        (u : MatchType) (k : ℕ)
        → count_of u (or_zeros (assoc k c'.slots)) + bit (same_type u t && ids.equal d k)
          ≡ count_of u (or_zeros (assoc k counters.slots))

  counted-IsDown :
      (t : MatchType) (d : ℕ) (counters : Table ℕ Counters) (c : Counters)
      → IsDistance t
      → IsValid counters
      → assoc d counters.slots ≡ some c
      → IsInt c
      → ((u : MatchType) → same_type u t ≡ true → 0 < count_of u c)
      → IsDown t d counters (uncount_query t d counters)
  counted-IsDown t d counters c distance valid here int some_left =
      let (c1, run, down) = uncount_query-IsCounted t d c counters distance valid here in
      record {
        c' = c1;
        returns = run;
        valid = down.valid;
        exact = λ u k. elim (Bool-cases (ids.equal d k)) [
          | inl same ↦
              let e = (ids.equal_iff d k).0 same in
              rw same (
                ap₂ (λ n b. n + bit b)
                  (ap (λ x. count_of u (or_zeros (assoc x c1.slots))) (sym e)
                    ∙ ap (λ o. count_of u (or_zeros o)) down.at_d)
                  (and_true (same_type u t))
                ∙ count_down_by t u c int (some_left u)
                ∙ ap (λ o. count_of u (or_zeros o)) (sym here)
                ∙ ap (λ x. count_of u (or_zeros (assoc x counters.slots))) e)
          | inr other ↦ rw other (
              ap (λ b. count_of u (or_zeros (assoc k c1.slots)) + bit b) (and-false (same_type u t))
              ∙ plus_zero (count_of u (or_zeros (assoc k c1.slots)))
              ∙ ap (λ o. count_of u (or_zeros o)) (down.others k other))
        ];
      }
    where
      and_true : (b : Bool) → (b && true) ≡ b
      and_true true = refl
      and_true false = refl

      plus_zero : (n : ℕ) → n + 0 ≡ n
      plus_zero n = omega arith

  kept-IsDown :
      (t : MatchType) (d : ℕ) (counters : Table ℕ Counters)
      → IsValid counters
      → ((u : MatchType) → same_type u t ≡ false)
      → uncount_query t d counters ≡ some counters
      → IsDown t d counters (uncount_query t d counters)
  kept-IsDown t d counters valid other run = record {
    c' = counters;
    returns = run;
    valid = valid;
    exact = λ u k. rw (other u) (omega arith);
  }

  pub any-IsDown :
      (t : MatchType) (d : ℕ) (counters : Table ℕ Counters)
      → IsValid counters
      → IsInt (or_zeros (assoc d counters.slots))
      → ((u : MatchType)
          → same_type u t ≡ true
          → 0 < count_of u (or_zeros (assoc d counters.slots)))
      → IsDown t d counters (uncount_query t d counters)
  unfolding uncount_query
  any-IsDown exact_match d counters valid int some_left =
      let (i, run, end) = lookup_lem counters valid d in
      kept-IsDown exact_match d counters valid not_exact (rw (run, ◌>>=◌) refl)
  any-IsDown (unknown n) d counters valid int some_left =
      let (i, run, end) = lookup_lem counters valid d in
      kept-IsDown (unknown n) d counters valid (not_unknown n) (rw (run, ◌>>=◌) refl)
  any-IsDown hamming_dist d counters valid int some_left =
      elim (Option-cases (assoc d counters.slots)) [
        | inl absent ↦
            absurd (nothing_left hamming_dist (ap or_zeros absent) (some_left hamming_dist refl))
        | inr (c, here) ↦
            counted-IsDown hamming_dist d counters c by_hamming valid here
              (subst IsInt (ap or_zeros here) int)
              (λ u same. subst (λ o. 0 < count_of u (or_zeros o)) here (some_left u same))
      ]
  any-IsDown edit_dist d counters valid int some_left =
      elim (Option-cases (assoc d counters.slots)) [
        | inl absent ↦
            absurd (nothing_left edit_dist (ap or_zeros absent) (some_left edit_dist refl))
        | inr (c, here) ↦
            counted-IsDown edit_dist d counters c by_edit valid here
              (subst IsInt (ap or_zeros here) int)
              (λ u same. subst (λ o. 0 < count_of u (or_zeros o)) here (some_left u same))
      ]

  pub live_left :
      (u : MatchType) (k : ℕ) (store : List (Option Query)) (q : ℕ) (x : Query)
      → deref store q ≡ some x
      → is_live u k (some x) ≡ true
      → 0 < count_if (is_live u k) store
  live_left u k store q x there live =
      let sum = count_if-set (is_live u k) store q (some x) none (cell_of store q x there) in
      at_least _ _ (is_live u k (some x)) sum live
    where
      at_least : (m n : ℕ) (b : Bool) → m + bit b ≡ n + 0 → b ≡ true → 0 < n
      at_least m n b h e = ground (arith, h, e)
