-- ===== src/Engine/Documents/Filed.antt =====
-- What the indices of src/core.cpp hold after a new query, whose jobs have run.
use k23_search_engine.Prelude.{
  ℕ, ◌+◌, ◌≤◌, ◌≡◌, refl, sym, ap, subst, ◌∙◌, List, [], ◌∷◌, ◌++◌, none, some, arith, ◌==◌, not,
  Bool, true, false, ◌&&◌, count_if, count_if_le, total, map, length, get_elem?, get_elem?_of_lt,
  lt_of_get_elem?, ==_iff, inl, inr, All,
}
use k23_search_engine.HashTable.Keys.{Key}
use k23_search_engine.HashTable.Assoc.{assoc}
use k23_search_engine.HashTable.Valid.{IsValid}
use k23_search_engine.StringView.{equals}
use k23_search_engine.Engine.{
  Engine, Query, Index, MatchType, exact_match, hamming_dist, edit_dist, unknown, deref,
  min_word_length,
}
use k23_search_engine.Engine.Keys.{word_key}
use k23_search_engine.Engine.Add.Posts.{posts}
use k23_search_engine.Engine.Results.Posted.{is_there, and-false}
use k23_search_engine.Engine.Results.Thresholds.{is_posted, IsAlive}
use k23_search_engine.Engine.Results.Listed.{is_listed}
use k23_search_engine.Engine.Documents.Exact.{items_in}
use k23_search_engine.Engine.Documents.Stored.{
  Question, in_edit, in_hamming, in_exact, posts_in, stored, adds, IsReady,
}
use k23_search_engine.Engine.Documents.Begin.{IsWord, IsKnown, words_in, job_for}
use k23_search_engine.Engine.Documents.Near.{is_exact, is_hamming, is_edit, is_word_of, IsFiled}
use k23_search_engine.Engine.Documents.Tried.{IsUp}
use k23_search_engine.Engine.Documents.Tried.{is_counted}
use k23_search_engine.Engine.Documents.Grown.{
  snoc_cases, deref_new, filed_step, alive_step, gone_before,
}
use k23_search_engine.Engine.Documents.Jobs.{
  if_of, in_slot, adds_edit, adds_hamming, adds_exact, if_of_none, if_of-is_among, if_of-in_slot,
  posts_le,
}

under_word :
    (w u : List ℕ) (f g : ℕ → Bool) (p : ℕ)
    → (f p ≡ true → g p ≡ true)
    → (equals u w && f p) ≡ true
    → (equals u w && g p) ≡ true
under_word w u f g p h = go (equals u w) (f p) (g p) h
  where
    go : (b c d : Bool) → (c ≡ true → d ≡ true) → (b && c) ≡ true → (b && d) ≡ true
    go true c d h e = h e
    go false c d h e = absurd cc

dropped : (b f : Bool) → f ≡ false → (b && f) ≡ false
dropped b f h = rw h (and-false b)

kept_word : (u w : List ℕ) (f : Bool) → f ≡ true → (equals u w && f) ≡ equals u w
kept_word u w f h = rw h (and_true (equals u w))
  where
    and_true : (b : Bool) → (b && true) ≡ b
    and_true true = refl
    and_true false = refl

second_of : (a b : Bool) → (a && b) ≡ true → b ≡ true
second_of true b h = h
second_of false b h = absurd cc

zero_below : (m n : ℕ) → m ≤ n → n ≡ 0 → m ≡ 0
zero_below m n a b = omega (arith, a, b)

pub edit_type : (t : MatchType) → is_edit t ≡ true → t ≡ edit_dist
edit_type exact_match h = absurd cc
edit_type hamming_dist h = absurd cc
edit_type edit_dist h = refl
edit_type (unknown n) h = absurd cc

pub hamming_type : (t : MatchType) → is_hamming t ≡ true → t ≡ hamming_dist
hamming_type exact_match h = absurd cc
hamming_type hamming_dist h = refl
hamming_type edit_dist h = absurd cc
hamming_type (unknown n) h = absurd cc

module _ ⦃ids : Key ℕ⦄ (e e' : Engine) (x : Query) (known : IsKnown x.match_type)
    (lengths : All IsWord (words_in x.unique_words)) (store : e'.store ≡ e.store ++ some x ∷ [])
    (ready : IsReady e) (ready' : IsReady e')
    (holds : (s : Question)
      → stored s e'
        ≡ stored s e
          + total (adds s) (map (job_for x.match_type (length e.store)) (words_in x.unique_words)))
    (filed : IsFiled e) where
  there_now :
      (q : ℕ) (query : Query)
      → deref e'.store q ≡ some query
      → deref (e.store ++ some x ∷ []) q ≡ some query
  there_now q query h = ap (λ s. deref s q) (sym store) ∙ h

  new_there : not (is_there e'.store (length e.store)) ≡ false
  new_there =
      ap (λ c. not (elim c [ none ↦ false | some y ↦ true ]))
        (ap (λ s. deref s (length e.store)) store ∙ deref_new e.store x)

  still_gone : (p : ℕ) → not (is_there e'.store p) ≡ true → not (is_there e.store p) ≡ true
  still_gone p h = gone_before e.store x p (ap (λ s. not (is_there s p)) (sym store) ∙ h)

  here_now : (length e.store == length e.store) ≡ true
  here_now = (==_iff (length e.store) (length e.store)).1 refl

  kept-All :
      (w : List ℕ) (ws : List (List ℕ))
      → All (λ u. (equals u w && (length e.store == length e.store)) ≡ equals u w) ws
  kept-All w [] = tt
  kept-All w (u ∷ ws) = (kept_word u w _ here_now, kept-All w ws)

  grown_edit :
      (q : ℕ) (query : Query) (w : List ℕ)
      → deref e'.store q ≡ some query
      → is_posted e'.edit_tree q w ≡ (is_edit query.match_type && is_word_of query w)
  unfolding stored
  grown_edit q query w there =
      filed_step e.store x (λ f. posts (λ u p. equals u w && f p) e.edit_tree)
        (λ f. posts (λ u p. equals u w && f p) e'.edit_tree)
        (λ f.
          if_of (is_edit x.match_type) (λ u. equals u w && f (length e.store))
            (words_in x.unique_words))
        q query _
        (λ f.
          holds (in_edit (λ u p. equals u w && f p))
          ∙ ap (λ n. posts (λ u p. equals u w && f p) e.edit_tree + n)
              (adds_edit x.match_type (length e.store) (λ u p. equals u w && f p) _ known))
        (λ f h. if_of_none _ _ _ (λ u. dropped (equals u w) _ h))
        (λ f g h. posts_le _ _ e.edit_tree (λ u p. under_word w u f g p (h p)))
        (zero_below _ _
          (posts_le (λ u p. equals u w && not (is_there e.store p))
            (λ u p. not (is_there e.store p)) e.edit_tree (λ u p. second_of (equals u w) _))
          filed.edit_alive)
        (there_now q query there) (filed.edit q query w)
        (λ is_new.
          if_of-is_among (is_edit x.match_type) _ w (words_in x.unique_words) (kept-All w _)
          ∙ ap (λ y. is_edit y.match_type && is_word_of y w) is_new)

  hamming_before :
      (i : ℕ) (h : Index)
      → get_elem? e'.hamming_trees i ≡ some h
      → (h0 : Index) × (get_elem? e.hamming_trees i ≡ some h0)
        × ((g : List ℕ → ℕ → Bool)
            → posts g h
              ≡ posts g h0
                + if_of
                    (is_hamming x.match_type)
                    (λ u. in_slot i u && g u (length e.store))
                    (words_in x.unique_words))
  unfolding stored
  hamming_before i h read =
      let lt = lt_of_get_elem? e'.hamming_trees i h read in
      let (h0, read0) =
        get_elem?_of_lt e.hamming_trees i (omega (arith, lt, ready.width, ready'.width)) in
      (
        h0,
        read0,
        λ g.
            ap (posts_in g) (sym read)
            ∙ holds (in_hamming i g)
            ∙ ap
                (λ o.
                  posts_in g o
                  + total (adds (in_hamming i g))
                      (map (job_for x.match_type (length e.store)) (words_in x.unique_words)))
                read0
            ∙ ap (λ n. posts g h0 + n)
                (adds_hamming x.match_type (length e.store) i g (words_in x.unique_words) known),
      )

  grown_hamming :
      (i : ℕ) (h : Index) (q : ℕ) (query : Query) (w : List ℕ)
      → get_elem? e'.hamming_trees i ≡ some h
      → deref e'.store q ≡ some query
      → is_posted h q w
        ≡ (is_hamming query.match_type && (length w == i + min_word_length && is_word_of query w))
  grown_hamming i h q query w read there =
      let (h0, read0, counts) = hamming_before i h read in
      filed_step e.store x (λ f. posts (λ u p. equals u w && f p) h0)
        (λ f. posts (λ u p. equals u w && f p) h)
        (λ f.
          if_of (is_hamming x.match_type) (λ u. in_slot i u && (equals u w && f (length e.store)))
            (words_in x.unique_words))
        q query _ (λ f. counts (λ u p. equals u w && f p))
        (λ f h. if_of_none _ _ _ (λ u. dropped (in_slot i u) _ (dropped (equals u w) _ h)))
        (λ f g h. posts_le _ _ h0 (λ u p. under_word w u f g p (h p)))
        (zero_below _ _
          (posts_le (λ u p. equals u w && not (is_there e.store p))
            (λ u p. not (is_there e.store p)) h0 (λ u p. second_of (equals u w) _))
          (filed.hamming_alive i h0 read0))
        (there_now q query there) (filed.hamming i h0 q query w read0)
        (λ is_new.
          if_of-in_slot (is_hamming x.match_type) i _ w (words_in x.unique_words) lengths
            (λ u. kept_word u w _ here_now)
          ∙ ap (λ y. is_hamming y.match_type && (length w == i + min_word_length && is_word_of y w))
              is_new)

  grown_exact :
      (q : ℕ) (query : Query) (w : List ℕ)
      → deref e'.store q ≡ some query
      → is_listed e'.exact q w ≡ (is_exact query.match_type && is_word_of query w)
  unfolding stored
  grown_exact q query w there =
      filed_step e.store x (λ f. count_if f (items_in (assoc w e.exact.slots)))
        (λ f. count_if f (items_in (assoc w e'.exact.slots)))
        (λ f.
          if_of (is_exact x.match_type) (λ u. equals u w && f (length e.store))
            (words_in x.unique_words))
        q query _
        (λ f.
          holds (in_exact w f)
          ∙ ap (λ n. count_if f (items_in (assoc w e.exact.slots)) + n)
              (adds_exact x.match_type (length e.store) w f _ known))
        (λ f h. if_of_none _ _ _ (λ u. dropped (equals u w) _ h))
        (λ f g h. count_if_le f g (items_in (assoc w e.exact.slots)) h) (filed.exact_alive w)
        (there_now q query there) (filed.exact q query w)
        (λ is_new.
          if_of-is_among (is_exact x.match_type) _ w (words_in x.unique_words) (kept-All w _)
          ∙ ap (λ y. is_exact y.match_type && is_word_of y w) is_new)

  grown_edit-IsAlive : IsAlive e'.store e'.edit_tree
  unfolding stored
  grown_edit-IsAlive =
      alive_step (posts (λ u p. not (is_there e'.store p)) e.edit_tree) _ _
        (posts (λ u p. not (is_there e.store p)) e.edit_tree)
        (holds (in_edit (λ u p. not (is_there e'.store p)))
          ∙ ap (λ n. posts (λ u p. not (is_there e'.store p)) e.edit_tree + n)
              (adds_edit x.match_type (length e.store) (λ u p. not (is_there e'.store p)) _ known))
        (posts_le _ _ e.edit_tree (λ u p. still_gone p)) filed.edit_alive
        (if_of_none _ _ _ (λ u. new_there))

  grown_hamming-IsAlive :
      (i : ℕ) (h : Index) → get_elem? e'.hamming_trees i ≡ some h → IsAlive e'.store h
  grown_hamming-IsAlive i h read =
      let (h0, read0, counts) = hamming_before i h read in
      alive_step (posts (λ u p. not (is_there e'.store p)) h0) _ _
        (posts (λ u p. not (is_there e.store p)) h0) (counts (λ u p. not (is_there e'.store p)))
        (posts_le _ _ h0 (λ u p. still_gone p)) (filed.hamming_alive i h0 read0)
        (if_of_none _ _ _ (λ u. dropped (in_slot i u) _ new_there))

  grown_exact_lem :
      (w : List ℕ)
      → count_if (λ q. not (is_there e'.store q)) (items_in (assoc w e'.exact.slots)) ≡ 0
  unfolding stored
  grown_exact_lem w =
      alive_step (count_if (λ q. not (is_there e'.store q)) (items_in (assoc w e.exact.slots))) _ _
        (count_if (λ q. not (is_there e.store q)) (items_in (assoc w e.exact.slots)))
        (holds (in_exact w (λ q. not (is_there e'.store q)))
          ∙ ap
              (λ n.
                count_if (λ q. not (is_there e'.store q)) (items_in (assoc w e.exact.slots)) + n)
              (adds_exact x.match_type (length e.store) w (λ q. not (is_there e'.store q)) _ known))
        (count_if_le _ _ (items_in (assoc w e.exact.slots)) (λ q. still_gone q))
        (filed.exact_alive w) (if_of_none _ _ _ (λ u. dropped (equals u w) _ new_there))

  -- The indices hold the words of the new query as well.
  pub grown-IsFiled :
      IsUp x.match_type x.match_dist e.threshold_counters e'.threshold_counters
      → IsValid x.unique_words
      → IsFiled e'
  grown-IsFiled up valid = record {
    edit = grown_edit;
    hamming = grown_hamming;
    exact = grown_exact;
    edit_alive = grown_edit-IsAlive;
    hamming_alive = grown_hamming-IsAlive;
    exact_alive = grown_exact_lem;
    edit_counted = λ q query there active distance.
        elim (snoc_cases e.store x q query (there_now q query there)) [
          | inl (ne, old) ↦
              up.still edit_dist query.match_dist (filed.edit_counted q query old active distance)
          | inr (same, is_new) ↦
              ap (λ y. is_counted edit_dist (assoc y.match_dist e'.threshold_counters.slots))
                (sym is_new)
              ∙ up.edit (edit_type x.match_type (ap (λ y. is_edit y.match_type) is_new ∙ distance))
        ];
    hamming_counted = λ q query there active distance.
        elim (snoc_cases e.store x q query (there_now q query there)) [
          | inl (ne, old) ↦
              up.still hamming_dist query.match_dist
                (filed.hamming_counted q query old active distance)
          | inr (same, is_new) ↦
              ap (λ y. is_counted hamming_dist (assoc y.match_dist e'.threshold_counters.slots))
                (sym is_new)
              ∙ up.hamming
                  (hamming_type x.match_type (ap (λ y. is_hamming y.match_type) is_new ∙ distance))
        ];
    words_valid = λ q query there. elim (snoc_cases e.store x q query (there_now q query there)) [
      | inl (ne, old) ↦ filed.words_valid q query old
      | inr (same, is_new) ↦ subst (λ y. IsValid y.unique_words) is_new valid
    ];
  }
