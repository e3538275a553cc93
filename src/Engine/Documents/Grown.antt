-- ===== src/Engine/Documents/Grown.antt =====
-- The indices of src/core.cpp after the jobs of a new query, behind the queries of `store`.
use mathlib.Core.Option.{some-injective}
use k23_search_engine.Prelude.{
  ℕ, zero, suc, ◌+◌, ◌≤◌, ◌≡◌, ◌⊎◌, refl, sym, ap, ◌∙◌, List, [], ◌∷◌, ◌++◌, Option, none, some,
  arith, ◌==◌, leb, not, Bool, true, false, length, ==_iff, inl, inr,
}
use k23_search_engine.Engine.{Query, deref}
use k23_search_engine.Engine.Keys.{word_key}
use k23_search_engine.Engine.Results.Posted.{is_there}

-- The queries of a longer store: the new one, or one that was there.
pub snoc_cases :
    (store : List (Option Query)) (x : Query) (q : ℕ) (query : Query)
    → deref (store ++ some x ∷ []) q ≡ some query
    → (((length store == q) ≡ false) × (deref store q ≡ some query))
      ⊎ (((length store == q) ≡ true) × (x ≡ query))
unfolding deref
snoc_cases [] x zero query h = inr (refl, some-injective x query h)
snoc_cases [] x (suc q) query h = absurd cc
snoc_cases (c ∷ store) x zero query h = inl (ground arith, h)
snoc_cases (c ∷ store) x (suc q) query h = elim (snoc_cases store x q query h) [
  | inl (ne, at) ↦ inl (ground (arith, ne), at)
  | inr (same, e) ↦ inr (ground (arith, same), e)
]

pub deref_new :
    (store : List (Option Query)) (x : Query) → deref (store ++ some x ∷ []) (length store) ≡ some x
unfolding deref
deref_new [] x = refl
deref_new (c ∷ store) x = deref_new store x

deref_old :
    (store : List (Option Query)) (x query : Query) (q : ℕ)
    → deref store q ≡ some query
    → deref (store ++ some x ∷ []) q ≡ some query
unfolding deref
deref_old [] x query q h = absurd cc
deref_old (c ∷ store) x query zero h = h
deref_old (c ∷ store) x query (suc q) h = deref_old store x query q h

deref_end : (store : List (Option Query)) → deref store (length store) ≡ none
unfolding deref
deref_end [] = refl
deref_end (c ∷ store) = deref_end store

pub gone_before :
    (store : List (Option Query)) (x : Query) (p : ℕ)
    → not (is_there (store ++ some x ∷ []) p) ≡ true
    → not (is_there store p) ≡ true
gone_before store x p h = go (deref store p) refl
  where
    go : (cell : Option Query) → deref store p ≡ cell → not (is_there store p) ≡ true
    go none e = ap (λ c. not (elim c [ none ↦ false | some y ↦ true ])) e
    go (some query) e =
        let clash =
          sym h
          ∙ ap (λ c. not (elim c [ none ↦ false | some y ↦ true ])) (deref_old store x query p e) in
        absurd cc

more_of : (m k a : ℕ) → k ≡ m + a → a ≡ 0 → leb 1 k ≡ leb 1 m
more_of m k a h e = ground (arith, h, e)

only_of : (m k a : ℕ) → k ≡ m + a → m ≡ 0 → leb 1 k ≡ leb 1 a
only_of m k a h e = ground (arith, h, e)

-- The queries under a word, of an index: what a new query changes.
pub filed_step :
    (store : List (Option Query)) (x : Query) (C C' A : (ℕ → Bool) → ℕ) (q : ℕ) (query : Query)
    (want : Bool)
    → ((f : ℕ → Bool) → C' f ≡ C f + A f)
    → ((f : ℕ → Bool) → f (length store) ≡ false → A f ≡ 0)
    → ((f g : ℕ → Bool) → ((p : ℕ) → f p ≡ true → g p ≡ true) → C f ≤ C g)
    → C (λ p. not (is_there store p)) ≡ 0
    → deref (store ++ some x ∷ []) q ≡ some query
    → (deref store q ≡ some query → leb 1 (C (λ p. p == q)) ≡ want)
    → (x ≡ query → leb 1 (A (λ p. p == length store)) ≡ want)
    → leb 1 (C' (λ p. p == q)) ≡ want
filed_step store x C C' A q query want grows idle more alive at old new =
    elim (snoc_cases store x q query at) [
      | inl (ne, there) ↦
          more_of (C (λ p. p == q)) (C' (λ p. p == q)) (A (λ p. p == q)) (grows (λ p. p == q))
            (idle (λ p. p == q) ne)
          ∙ old there
      | inr (same, e) ↦
          let is_new : length store ≡ q = (==_iff (length store) q).0 same in
          ap (λ r. leb 1 (C' (λ p. p == r))) (sym is_new)
          ∙ only_of (C (λ p. p == length store)) (C' (λ p. p == length store))
              (A (λ p. p == length store)) (grows (λ p. p == length store))
              (omega (
                arith,
                alive,
                more (λ p. p == length store) (λ p. not (is_there store p))
                    (λ p h.
                      ap (λ c. not (elim c [ none ↦ false | some y ↦ true ]))
                        (ap (deref store) ((==_iff p (length store)).0 h) ∙ deref_end store)),
              ))
          ∙ new e
    ]

pub alive_step : (m k a before : ℕ) → k ≡ m + a → m ≤ before → before ≡ 0 → a ≡ 0 → k ≡ 0
alive_step m k a before h le e e' = omega (arith, h, le, e, e')
