-- ===== src/Distances/Rows.antt =====
-- The one-row table of `edit_distance` in src/lib/distances.cpp.
use native.Mathlib.Numerals.{sub-one, add-one}
use native.Mathlib.Nat.{zero-add}
use mathlib.Core.List.{reverse-append}
use k23_search_engine.Prelude.{
  ℕ, zero, suc, ◌+◌, ◌≤◌, ◌<◌, min, ◌≡◌, refl, sym, ap, ◌∙◌, List, reverse, some, arith, length,
  get_or, take, set, subst, store_of_lt, length-set, get_elem?-eq-get_or, get_or-set_self,
  get_or-set_ne, length-reverse, length-take,
}
use k23_search_engine.Distances.{mismatch, init_edit_buffer, fill_row, fill_rows, edit_table}
use k23_search_engine.Distances.Levenshtein.{lev, lev-nil}
use k23_search_engine.Distances.Scripts.{lev-reverse}
use k23_search_engine.Distances.Trim.{take-suc}

-- `init_edit_buffer` numbers the cells from `i` on.
init_edit_buffer_lem :
    (n i : ℕ) (d : List ℕ)
    → i + n ≤ length d
    → ((k : ℕ) → k < i → get_or d k 0 ≡ k)
    → (r : List ℕ) × (init_edit_buffer n i d ≡ some r)
      × (length r ≡ length d)
      × ((k : ℕ) → k < i + n → get_or r k 0 ≡ k)
unfolding init_edit_buffer
init_edit_buffer_lem zero i d h done = (d, refl, refl, λ k lt. done k (omega arith))
init_edit_buffer_lem (suc n) i d h done =
    let (r, run, size, cells) =
      init_edit_buffer_lem n (i + 1) (set d i i) (rw length-set (omega arith))
        (λ k lt. ground (arith, done k, get_or-set_self d i i 0, get_or-set_ne d i k i 0)) in
    (
      r,
      rw (store_of_lt d i i (omega arith)) run,
      size ∙ length-set d i i,
      λ k lt. cells k (omega arith),
    )

module _ (max_str min_str : List ℕ) where
  -- The distance of the first `i` characters of `min_str` and the first `j` of `max_str`, which
  -- are read from their ends.
  abbrev cell : ℕ → ℕ → ℕ
  cell i j = lev (reverse (take i min_str)) (reverse (take j max_str))

  cell_zero_left : (j : ℕ) → j ≤ length max_str → cell 0 j ≡ j
  unfolding lev
  cell_zero_left j h = omega (arith, length-reverse (take j max_str), length-take j max_str)

  cell_zero_right : (i : ℕ) → i ≤ length min_str → cell i 0 ≡ i
  cell_zero_right i h = omega (
    arith,
    lev-nil (reverse (take i min_str)),
    length-reverse (take i min_str),
    length-take i min_str,
  )

  cell-suc :
      (i j : ℕ)
      → i < length min_str
      → j < length max_str
      → cell (suc i) (suc j)
        ≡ min
            (cell i j + mismatch (get_or min_str i 0) (get_or max_str j 0))
            (min (cell (suc i) j) (cell i (suc j)) + 1)
  unfolding lev
  cell-suc i j hi hj =
      rw
        (
          take-suc i min_str hi,
          take-suc j max_str hj,
          reverse-append (take i min_str),
          reverse-append (take j max_str),
        )
        refl

  -- The buffer in the middle of row `i + 1`: the cells below `j` are done.
  record IsMixed (size m i j : ℕ) (d : List ℕ) : Type 0 where
    width : length d ≡ size
    new : (k : ℕ) → k < j → k ≤ m → get_or d k 0 ≡ cell (suc i) k
    old : (k : ℕ) → j ≤ k → k ≤ m → get_or d k 0 ≡ cell i k

  store-IsMixed :
      (size m i j : ℕ) (d : List ℕ)
      → m < size
      → j ≤ m
      → IsMixed size m i j d
      → IsMixed size m i (suc j) (set d j (cell (suc i) j))
  store-IsMixed size m i j d hm hj x = record {
    width = length-set d j _ ∙ x.width;
    new = λ k lt le. ground (
      arith,
      x.new k,
      x.width,
      get_or-set_self d j (cell (suc i) j) 0,
      get_or-set_ne d j k (cell (suc i) j) 0,
    );
    old = λ k lt le. ground (arith, x.old k, get_or-set_ne d j k (cell (suc i) j) 0);
  }

  module _ (size m : ℕ) (hm : m < size) (fits : m ≤ length max_str) where
    fill_row-IsMixed :
        (n i j prev : ℕ) (d : List ℕ)
        → suc j + n ≡ m + 1
        → i < length min_str
        → prev ≡ cell i j
        → IsMixed size m i (suc j) d
        → (r : List ℕ) × (fill_row max_str min_str n (suc i) (suc j) prev d ≡ some r)
          × IsMixed size m i (suc m) r
    unfolding fill_row
    fill_row-IsMixed zero i j prev d e hi p x =
        (d, refl, subst (λ k. IsMixed size m i (suc k) d) (omega arith) x)
    fill_row-IsMixed (suc n) i j prev d e hi p x =
        let (r, run, y) =
          fill_row-IsMixed n i (suc j) (cell i (suc j)) (set d (suc j) (cell (suc i) (suc j)))
            (omega arith) hi refl (store-IsMixed size m i (suc j) d hm (omega arith) x) in
        (
          r,
          simp sub-one (
              rw
                (
                  get_elem?-eq-get_or min_str i 0 hi,
                  get_elem?-eq-get_or max_str j 0 (omega arith),
                  get_elem?-eq-get_or d j 0 (omega (arith, x.width)),
                  get_elem?-eq-get_or d (suc j) 0 (omega (arith, x.width)),
                  x.new j (omega arith) (omega arith),
                  x.old (suc j) (omega arith) (omega arith),
                  p,
                  ← cell-suc i j hi (omega arith),
                  store_of_lt d (suc j) (cell (suc i) (suc j)) (omega (arith, x.width)),
                  add-one,
                )
                run),
          y,
        )

    -- The buffer between two rows.
    abbrev IsRow : ℕ → List ℕ → Type 0
    IsRow i d = (length d ≡ size) × ((k : ℕ) → k ≤ m → get_or d k 0 ≡ cell i k)

    start-IsMixed :
        (i : ℕ) (d : List ℕ) → i < length min_str → IsRow i d → IsMixed size m i 1 (set d 0 (suc i))
    start-IsMixed i d hi (width, cells) = record {
      width = length-set d 0 (suc i) ∙ width;
      new = λ k lt le. start_new k lt;
      old = λ k lt le. get_or-set_ne d 0 k (suc i) 0 (omega arith) ∙ cells k le;
    }
      where
        start_new : (k : ℕ) → k < 1 → get_or (set d 0 (suc i)) k 0 ≡ cell (suc i) k
        start_new zero lt =
            get_or-set_self d 0 (suc i) 0 (omega arith)
            ∙ sym (cell_zero_right (suc i) (omega arith))
        start_new (suc k) lt = absurd (omega arith)

    fill_rows-IsRow :
        (n i : ℕ) (d : List ℕ)
        → i + n ≤ length min_str
        → IsRow i d
        → (r : List ℕ) × (fill_rows max_str min_str n (suc i) m d ≡ some r) × IsRow (i + n) r
    unfolding fill_rows
    fill_rows-IsRow zero i d h x = (d, refl, subst (λ k. IsRow k d) (omega arith) x)
    fill_rows-IsRow (suc n) i d h x =
        let (d', run, y) =
          fill_row-IsMixed m i 0 i (set d 0 (suc i)) (omega arith) (omega arith)
            (sym (cell_zero_right i (omega arith))) (start-IsMixed i d (omega arith) x) in
        let (r, rest, z) =
          fill_rows-IsRow n (suc i) d' (omega arith) (y.width, λ k le. y.new k (omega arith) le) in
        (
          r,
          simp sub-one (rw (store_of_lt d 0 (suc i) (omega (arith, x.0)), run, add-one) rest),
          subst (λ k. IsRow k r) (omega arith) z,
        )

    -- The table ends with the distance of the two words, whatever the array held before.
    pub edit_table-eq-lev :
        (d : List ℕ) (n : ℕ)
        → length d ≡ size
        → n ≤ length min_str
        → edit_table d max_str m min_str n ≡ some (lev (take n min_str) (take m max_str))
    unfolding edit_table
    edit_table-eq-lev d n width hn =
        let (row, run, size_row, cells) =
          init_edit_buffer_lem (m + 1) 0 d (omega arith) (λ k lt. absurd (omega arith)) in
        let (r, rest, z) = fill_rows-IsRow n 0 row (omega arith) (
          size_row ∙ width,
          λ k le. cells k (omega arith) ∙ sym (cell_zero_left k (omega arith)),
        ) in
        rw (run, rest, get_elem?-eq-get_or r m 0 (omega (arith, z.0)), z.1 m (omega arith))
          (rw zero-add (ap some (lev-reverse (take n min_str) (take m max_str))))
