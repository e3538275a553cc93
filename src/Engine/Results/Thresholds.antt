-- ===== src/Engine/Results/Thresholds.antt =====
-- `match_queries` of src/core.cpp: the loop over the thresholds.
use k23_search_engine.Prelude.{
  ℕ, ◌+◌, ◌≡◌, refl, sym, ap, ◌∙◌, List, [], ◌∷◌, Option, ◌>>=◌, arith, ◌==◌, leb, not, Bool, true,
  false, ◌&&◌, ◌||◌, bit, Bool-cases, ==_iff, inl, inr, count_if, total, count_if_le, length,
}
use native.Mathlib.Nat.{zero-add}
use k23_search_engine.Vector.{Vector}
use k23_search_engine.HashTable.{Table}
use k23_search_engine.HashTable.Keys.{Key}
use k23_search_engine.HashTable.Valid.{IsValid}
use k23_search_engine.HashTable.Iterator.{held}
use k23_search_engine.HashTable.Iterator.Visits.{entries-eq-held}
use k23_search_engine.StringView.{equals}
use k23_search_engine.StringView.Split.{equals_iff}
use k23_search_engine.BkTree
use k23_search_engine.BkTree.{tree_elements}
use k23_search_engine.BkTree.Shape.{IsMetric}
use k23_search_engine.BkTree.Match.{match-hits}
use k23_search_engine.Engine.{Query, QueryResult, Entry, Index, MatchType, Counters}
use k23_search_engine.Engine.Keys.{word_key}
use k23_search_engine.Engine.Add.{word_of}
use k23_search_engine.Engine.Add.Posts.{items_of, weight, posts, IsPosted}
use k23_search_engine.Engine.Results.{add_words, is_skipped, match_thresholds, match_queries}
use k23_search_engine.Engine.Results.Hits.{
  IsServed, IsCurrent, IsExtended, nothing-IsExtended, both-IsExtended, as-IsExtended,
}
use k23_search_engine.Engine.Results.Words.{
  is_post, is_found, is_broken, count_if-and, add_words-IsExtended,
}
use k23_search_engine.Engine.Results.Posted.{is_there, is_due, and-false}

-- Whether a query is posted under a word.
abbrev pub is_posted : Index → ℕ → List ℕ → Bool
is_posted ix q w = leb 1 (posts (is_post q w) ix)

count_if_same :
    {A : Type 0} (f g : A → Bool) (xs : List A)
    → ((x : A) → f x ≡ g x)
    → count_if f xs ≡ count_if g xs
count_if_same f g [] h = refl
count_if_same f g (x ∷ xs) h = rw (h x, count_if_same f g xs h) refl

any-total :
    {A : Type 0} (w : A → ℕ) (xs : List A)
    → leb 1 (count_if (λ x. leb 1 (w x)) xs) ≡ leb 1 (total w xs)
unfolding total
any-total w [] = refl
any-total w (x ∷ xs) = either (w x) _ _ (any-total w xs)
  where
    either : (a m n : ℕ) → leb 1 m ≡ leb 1 n → leb 1 (bit (leb 1 a) + m) ≡ leb 1 (a + n)
    either a m n h = ground (arith, h)

count_if-under :
    {A : Type 0} (f : A → Bool) (near : A → Bool) (b : Bool) (xs : List A)
    → ((x : A) → f x ≡ true → near x ≡ b)
    → leb 1 (count_if (λ x. f x && near x) xs) ≡ (b && leb 1 (count_if f xs))
count_if-under f near b [] h = sym (and-false b)
count_if-under f near b (x ∷ xs) h = here (f x) (near x) b _ _ (h x) (count_if-under f near b xs h)
  where
    here :
        (f near b : Bool) (m n : ℕ)
        → (f ≡ true → near ≡ b)
        → leb 1 m ≡ (b && leb 1 n)
        → leb 1 (bit (f && near) + m) ≡ (b && leb 1 (bit f + n))
    here true near true m n h e = let same = h refl in ground (arith, same, e)
    here true near false m n h e = let same = h refl in ground (arith, same, e)
    here false near true m n h e = ground (arith, e)
    here false near false m n h e = ground (arith, e)

-- A word under which a query is posted in an entry is the entry's word.
post_word :
    (payloads : List (Vector ℕ)) (q : ℕ) (w : List ℕ) (e : Entry)
    → is_found payloads q w e ≡ true
    → e.word ≡ w
post_word payloads q w e h = (equals_iff e.word w).0 (
    second _ (equals e.word w)
      (sym (count_if-and (equals e.word w) (λ p. p == q) (items_of payloads e.payload)) ∙ h))
  where
    second : (a b : Bool) → (a && b) ≡ true → b ≡ true
    second true b h = h
    second false b h = absurd cc

-- The queries that are posted in a tree are not deleted.
abbrev pub IsAlive : List (Option Query) → Index → Type 0
IsAlive store ix = posts (λ u p. not (is_there store p)) ix ≡ 0

whole_tree :
    (store : List (Option Query)) (Dom : List ℕ → Type 0) (δ : List ℕ → List ℕ → ℕ) (ix : Index)
    → IsPosted Dom δ ix
    → IsAlive store ix
    → count_if (is_broken store ix.payloads) (tree_elements ix.tree) ≡ 0
unfolding posts
whole_tree store Dom δ ix posted alive =
    none_of (λ e. leb (length ix.payloads) e.payload)
      (λ e. leb 1 (weight (λ u p. not (is_there store p)) ix.payloads e)) (tree_elements ix.tree)
      posted.inside
      (small _ _
        (any-total (weight (λ u p. not (is_there store p)) ix.payloads) (tree_elements ix.tree))
        alive)
  where
    small : (m n : ℕ) → leb 1 m ≡ leb 1 n → n ≡ 0 → m ≡ 0
    small m n h e = ground (arith, h, e)

    bits :
        (a b : Bool) (k m n : ℕ)
        → (m ≡ 0 → n ≡ 0 → k ≡ 0)
        → bit a + m ≡ 0
        → bit b + n ≡ 0
        → bit (a || b) + k ≡ 0
    bits true b k m n h e f = absurd (omega (arith, e))
    bits false true k m n h e f = absurd (omega (arith, f))
    bits false false k m n h e f = omega (arith, h (omega (arith, e)) (omega (arith, f)))

    none_of :
        {A : Type 0} (f g : A → Bool) (xs : List A)
        → count_if f xs ≡ 0
        → count_if g xs ≡ 0
        → count_if (λ x. f x || g x) xs ≡ 0
    none_of f g [] e e' = refl
    none_of f g (x ∷ xs) e e' = bits (f x) (g x) _ _ _ (none_of f g xs) e e'

-- Whether a threshold is among those that are matched.
abbrev pub is_tried : MatchType → List (ℕ × Counters) → ℕ → Bool
is_tried match_type cs d = leb 1 (count_if (λ c. c.0 == d && not (is_skipped match_type c.1)) cs)

skipped_first :
    (match_type : MatchType) (t : ℕ) (c : Counters) (cs : List (ℕ × Counters)) (d : ℕ)
    → is_skipped match_type c ≡ true
    → is_tried match_type ((t, c) ∷ cs) d ≡ is_tried match_type cs d
skipped_first match_type t c cs d skipped = rw skipped (
    ap (λ b. leb 1 (bit b + count_if (λ c. c.0 == d && not (is_skipped match_type c.1)) cs))
      (and-false (t == d))
    ∙ ap (leb 1) (zero-add (count_if (λ c. c.0 == d && not (is_skipped match_type c.1)) cs)))

tried_first :
    (a p : Bool) (t d D n : ℕ) (s : Bool)
    → s ≡ false
    → (a && (leb 1 (bit (t == d && not s) + n) && (leb D d && p)))
      ≡ (((a && t == d) && (leb D t && p)) || (a && (leb 1 n && (leb D d && p))))
tried_first false p t d D n s e = refl
tried_first true p t d D n s e = elim (Bool-cases (t == d)) [
  | inl same ↦ rw (same, e, (==_iff t d).0 same) (ones (leb D d && p) n)
  | inr other ↦ rw other (ap (λ k. leb 1 k && (leb D d && p)) (zero-add n))
]
  where
    ones : (b : Bool) (n : ℕ) → (leb 1 (1 + n) && b) ≡ (b || (leb 1 n && b))
    ones true n = ground arith
    ones false n = rw (and-false (leb 1 n), and-false (leb 1 (1 + n))) refl

module _ ⦃ids : Key ℕ⦄ (store : List (Option Query)) (served : IsServed store)
    {dist : List ℕ → List ℕ → Option ℕ} {Dom : List ℕ → Type 0} {δ : List ℕ → List ℕ → ℕ}
    (metric : IsMetric dist Dom δ) (ix : Index) (posted : IsPosted Dom δ ix)
    (alive : IsAlive store ix) (dw : List ℕ) (inside : Dom dw) where
  match_step :
      (t : ℕ) (hits : List (ℕ × List ℕ)) (rt : Table ℕ QueryResult)
      → IsCurrent store hits rt
      → IsExtended store
          (λ q query w. is_due t query && (leb (δ w dw) t && is_posted ix q w))
          hits
          (BkTree.match word_of dist t dw ix.tree >>= λ words.
            add_words store t ix.payloads words rt)
  unfolding posts
  match_step t hits rt current =
      let (es, run, counts) = match-hits word_of metric dw inside t ix.tree posted.index in
      rw (run, ◌>>=◌)
        (as-IsExtended store _ _ hits _
          (add_words-IsExtended store served t ix.payloads es hits rt
            (omega (
              arith,
              counts (is_broken store ix.payloads),
              whole_tree store Dom δ ix posted alive,
              count_if_le (λ e. is_broken store ix.payloads e && leb (δ e.word dw) t)
                  (is_broken store ix.payloads) (tree_elements ix.tree) (λ e h. first _ _ h),
            ))
            current)
          (λ q query w there.
            ap (λ b. is_due t query && b)
              (sym (
                ap (leb 1) (counts (is_found ix.payloads q w))
                ∙ count_if-under (is_found ix.payloads q w) (λ e. leb (δ e.word dw) t)
                    (leb (δ w dw) t) (tree_elements ix.tree)
                    (λ e h. ap (λ u. leb (δ u dw) t) (post_word ix.payloads q w e h))
                ∙ ap (λ b. leb (δ w dw) t && b)
                    (any-total (weight (is_post q w) ix.payloads) (tree_elements ix.tree))))))
    where
      first : (a b : Bool) → (a && b) ≡ true → a ≡ true
      first true b h = refl
      first false b h = absurd cc

  -- What the loop over the thresholds tests.
  abbrev pub is_near : MatchType → List (ℕ × Counters) → ℕ → Query → List ℕ → Bool
  is_near match_type cs q query w =
      query.active
      && (is_tried match_type cs query.match_dist
          && (leb (δ w dw) query.match_dist && is_posted ix q w))

  match_thresholds_skip :
      (match_type : MatchType) (t : ℕ) (c : Counters) (cs : List (ℕ × Counters))
      (rt : Table ℕ QueryResult)
      → is_skipped match_type c ≡ true
      → match_thresholds store dist ix dw match_type ((t, c) ∷ cs) rt
        ≡ match_thresholds store dist ix dw match_type cs rt
  unfolding match_thresholds
  match_thresholds_skip match_type t c cs rt skipped = rw (skipped, ◌>>=◌) refl

  match_thresholds_try :
      (match_type : MatchType) (t : ℕ) (c : Counters) (cs : List (ℕ × Counters))
      (rt : Table ℕ QueryResult)
      → is_skipped match_type c ≡ false
      → match_thresholds store dist ix dw match_type ((t, c) ∷ cs) rt ≡ (
          BkTree.match word_of dist t dw ix.tree
          >>= (λ words. add_words store t ix.payloads words rt)
          >>= match_thresholds store dist ix dw match_type cs)
  unfolding match_thresholds add_words
  match_thresholds_try match_type t c cs rt tried = rw tried refl

  match_thresholds-IsExtended :
      (match_type : MatchType) (cs : List (ℕ × Counters)) (hits : List (ℕ × List ℕ))
      (rt : Table ℕ QueryResult)
      → IsCurrent store hits rt
      → IsExtended store
          (is_near match_type cs)
          hits
          (match_thresholds store dist ix dw match_type cs rt)
  unfolding match_thresholds
  match_thresholds-IsExtended match_type [] hits rt current =
      nothing-IsExtended store _ hits rt current (λ q query w there. and-false query.active)
  match_thresholds-IsExtended match_type ((t, c) ∷ cs) hits rt current =
      elim (Bool-cases (is_skipped match_type c)) [
        | inl skipped ↦ rw (match_thresholds_skip match_type t c cs rt skipped) (
            as-IsExtended store _ _ hits _
              (match_thresholds-IsExtended match_type cs hits rt current)
              (λ q query w there.
                ap (λ b. query.active && (b && (leb (δ w dw) query.match_dist && is_posted ix q w)))
                  (skipped_first match_type t c cs query.match_dist skipped)))
        | inr tried ↦ rw (match_thresholds_try match_type t c cs rt tried) (
            both-IsExtended store _ _ _ hits _ _ (match_step t hits rt current)
              (λ mid rt1 now. match_thresholds-IsExtended match_type cs mid rt1 now)
              (λ q query w there.
                tried_first query.active (is_posted ix q w) t query.match_dist (δ w dw) _ _ tried))
      ]

  -- For queries that need a word and have ids of their own, posted in an index whose tree is a BK-tree of
  -- a metric, and a word of the document in its domain: `match_queries` with valid counters ends without
  -- a fault. The words that it adds for a query are those under which it is posted that are within its
  -- distance of the word, if the query is active and a threshold that is not skipped is its distance.
  pub match_queries-IsExtended :
      (match_type : MatchType) (counters : Table ℕ Counters) (hits : List (ℕ × List ℕ))
      (rt : Table ℕ QueryResult)
      → IsValid counters
      → IsCurrent store hits rt
      → IsExtended store
          (is_near match_type (held counters.slots))
          hits
          (match_queries store dist counters ix dw match_type rt)
  unfolding match_queries match_thresholds
  match_queries-IsExtended match_type counters hits rt valid current =
      rw (entries-eq-held counters valid, ◌>>=◌)
        (match_thresholds-IsExtended match_type (held counters.slots) hits rt current)
