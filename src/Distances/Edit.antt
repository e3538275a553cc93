-- ===== src/Distances/Edit.antt =====
-- `edit_distance` of src/lib/distances.cpp as a whole.
use k23_search_engine.Prelude.{
  ℕ, zero, suc, ◌+◌, ◌≤◌, ◌<◌, ◌≡◌, sym, ap, ◌∙◌, List, some, arith, length, take, take_all,
  length-take, ◌==◌, ltb, Bool-cases, ◌↔◌, inl, inr, ==_iff,
}
use k23_search_engine.Distances.{max_word_length, edit_buffer_size, trimmed_distance, edit_distance}
use k23_search_engine.Distances.Levenshtein.{
  lev, lev-nil, lev_comm, lev_self, lev_triangle, eq_of_lev,
}
use k23_search_engine.Distances.Scripts.{Edit, lev-le_edit, lev_attained}
use k23_search_engine.Distances.Trim.{IsTrimmed, skip_prefix-IsTrimmed, IsCut, skip_suffix-IsCut}
use k23_search_engine.Distances.Rows.{edit_table-eq-lev}

-- The two loops leave prefixes at the distance of the words.
trimmed_lev :
    (xs ys : List ℕ) (w : List ℕ × ℕ × List ℕ × ℕ) (v : ℕ × ℕ)
    → IsTrimmed xs ys w
    → IsCut w.0 w.2 w.1 w.3 v
    → lev (take v.0 w.0) (take v.1 w.2) ≡ lev xs ys
trimmed_lev xs ys w v t c =
    c.same
    ∙ (rw
        (
          take_all w.1 w.0 (omega (arith, t.max_length)),
          take_all w.3 w.2 (omega (arith, t.min_length)),
        )
        t.same)

lev-take_zero : (xs ys : List ℕ) (n : ℕ) → n ≡ 0 → lev xs (take n ys) ≡ length xs
lev-take_zero xs ys zero e = lev-nil xs
lev-take_zero xs ys (suc n) e = absurd (omega arith)

trimmed_distance-eq-lev :
    (d xs ys : List ℕ)
    → length d ≡ edit_buffer_size
    → length ys ≤ length xs
    → length xs < edit_buffer_size
    → trimmed_distance d xs ys ≡ some (lev xs ys)
unfolding trimmed_distance
trimmed_distance-eq-lev d xs ys width h short =
    let (w, run, t) = skip_prefix-IsTrimmed xs ys h in
    let (v, rest, c) =
      skip_suffix-IsCut w.0 w.2 w.1 w.3 (omega (arith, t.max_length)) (omega (arith, t.min_length))
        (omega (arith, t.max_length, t.min_length, t.ordered)) in
    rw (run, rest)
      (elim (Bool-cases (v.1 == 0)) [
        | inl e ↦ rw e (
            ap some (
              sym (lev-take_zero (take v.0 w.0) w.2 v.1 ((==_iff v.1 0).0 e) ∙ whole w v t c)
              ∙ trimmed_lev xs ys w v t c))
        | inr e ↦ rw e (
            edit_table-eq-lev w.0 w.2 edit_buffer_size v.0
              (omega (arith, c.shorter, t.max_length, t.shorter))
              (omega (arith, c.shorter, t.max_length)) d v.1 width
              (omega (arith, c.min_shorter, t.min_length))
            ∙ ap some (lev_comm _ _ ∙ trimmed_lev xs ys w v t c))
      ])
  where
    whole :
        (w : List ℕ × ℕ × List ℕ × ℕ) (v : ℕ × ℕ)
        → IsTrimmed xs ys w
        → IsCut w.0 w.2 w.1 w.3 v
        → length (take v.0 w.0) ≡ v.0
    whole w v t c = omega (arith, length-take v.0 w.0, c.shorter, t.max_length)

-- On words that fit the buffer, `edit_distance` stays inside its arrays and returns the
-- mathematical distance, whatever the uninitialised array held.
pub edit_distance-eq-lev :
    (d s1 s2 : List ℕ)
    → length d ≡ edit_buffer_size
    → length s1 < edit_buffer_size
    → length s2 < edit_buffer_size
    → edit_distance d s1 s2 ≡ some (lev s1 s2)
unfolding edit_distance
edit_distance-eq-lev d s1 s2 width h1 h2 = elim (Bool-cases (ltb (length s1) (length s2))) [
  | inl e ↦
      rw e (trimmed_distance-eq-lev d s2 s1 width (ground arith) h2 ∙ ap some (lev_comm s2 s1))
  | inr e ↦ rw e (trimmed_distance-eq-lev d s1 s2 width (ground arith) h1)
]

-- `d` edits turn one word into the other, and no fewer do.
pub record IsLeast (s1 s2 : List ℕ) (d : ℕ) : Type 0 where
  pub attained : Edit s1 s2 d
  pub least : (n : ℕ) → Edit s1 s2 n → d ≤ n

-- On two words of at most MAX_WORD_LENGTH bytes, `edit_distance` returns the least number of
-- insertions, deletions and replacements that turn the first into the second; it reads and writes
-- inside its arrays, and the result does not depend on what the local array held.
pub edit_distance-IsLeast :
    (buffer s1 s2 : List ℕ)
    → length buffer ≡ edit_buffer_size
    → length s1 ≤ max_word_length
    → length s2 ≤ max_word_length
    → (d : ℕ) × (edit_distance buffer s1 s2 ≡ some d) × IsLeast s1 s2 d
edit_distance-IsLeast buffer s1 s2 width h1 h2 = (
  lev s1 s2,
  edit_distance-eq-lev buffer s1 s2 width (omega arith) (omega arith),
  record { attained = lev_attained s1 s2; least = λ n e. lev-le_edit e },
)

-- The distances of three words of at most MAX_WORD_LENGTH bytes, whatever the local arrays held:
-- 0 exactly between equal words, symmetric, and subject to the triangle inequality.
pub edit_distance_metric :
    (a b c s t u : List ℕ) {x y z : ℕ}
    → length a ≡ edit_buffer_size
    → length b ≡ edit_buffer_size
    → length c ≡ edit_buffer_size
    → length s ≤ max_word_length
    → length t ≤ max_word_length
    → length u ≤ max_word_length
    → edit_distance a s t ≡ some x
    → edit_distance b t u ≡ some y
    → edit_distance c s u ≡ some z
    → ((x ≡ 0) ↔ (s ≡ t)) × (edit_distance b t s ≡ some x) × (z ≤ x + y)
edit_distance_metric a b c s t u {x} {y} {z} wa wb wc hs ht hu ex ey ez =
    let px : x ≡ lev s t = cc (edit_distance-eq-lev a s t wa (omega arith) (omega arith)) in
    let py : y ≡ lev t u = cc (edit_distance-eq-lev b t u wb (omega arith) (omega arith)) in
    let pz : z ≡ lev s u = cc (edit_distance-eq-lev c s u wc (omega arith) (omega arith)) in
    (
      (λ e. eq_of_lev s t (sym px ∙ e), λ e. px ∙ (rw (← e) (lev_self s))),
      edit_distance-eq-lev b t s wb (omega arith) (omega arith) ∙ ap some (lev_comm t s ∙ sym px),
      omega (arith, lev_triangle s t u),
    )
