-- ===== src/HashTable/Iterator/Visits.antt =====
-- The entries that a loop over a table of include/qs/hash_table.hpp meets.
use mathlib.Core.Option.{some-injective}
use k23_search_engine.Prelude.{
  ℕ, zero, suc, ◌+◌, ◌≤◌, ◌<◌, ◌≡◌, ◌⊎◌, refl, sym, ap, ◌∙◌, List, [], ◌∷◌, Option, none, some,
  ◌>>=◌, arith, ltb, ◌==◌, true, false, length, get_elem?, drop, drop_all, Bool-cases, ==_iff, inl,
  inr, count_if, get_elem?_of_lt,
}
use k23_search_engine.HashTable.{Table}
use k23_search_engine.HashTable.Keys.{Key}
use k23_search_engine.HashTable.Valid.{IsValid, occupied}
use k23_search_engine.HashTable.Iterator.{skip_free, begin, next, entry_at, walk, entries, held}

drop_at :
    {A : Type 0} (i : ℕ) (xs : List A) (x : A)
    → get_elem? xs i ≡ some x
    → drop i xs ≡ x ∷ drop (suc i) xs
drop_at i [] x h = absurd cc
drop_at zero (y ∷ xs) x h = ap (λ z. z ∷ xs) (some-injective y x h)
drop_at (suc i) (y ∷ xs) x h = drop_at i xs x h

held_none : {A : Type 0} (slots : List (Option A)) → count_if occupied slots ≡ 0 → held slots ≡ []
unfolding held
held_none [] h = refl
held_none (none ∷ slots) h = held_none slots (omega arith)
held_none (some e ∷ slots) h = absurd (omega arith)

module _ {K V : Type 0} (t : Table K V) (width : length t.slots ≡ t.capacity) where
  -- A position of the iterator: an occupied slot, or the end.
  record Stops (pos p : ℕ) : Type 0 where
    after : pos ≤ p
    within : p ≤ t.capacity
    same : held (drop pos t.slots) ≡ held (drop p t.slots)
    ends :
        (p ≡ t.capacity) ⊎ ((e : K × V) × (get_elem? t.slots p ≡ some (some e)) × (p < t.capacity))

  -- One round, at a slot inside the array.
  at_slot :
      (fuel pos : ℕ) (slot : Option (K × V))
      → pos < t.capacity
      → get_elem? t.slots pos ≡ some slot
      → skip_free (suc fuel) t pos
        ≡ elim slot [ none ↦ skip_free fuel t (suc pos) | some e ↦ some pos ]
      → (p : ℕ) × (skip_free fuel t (suc pos) ≡ some p) × Stops (suc pos) p
      → (p : ℕ) × (skip_free (suc fuel) t pos ≡ some p) × Stops pos p
  unfolding held
  at_slot fuel pos none lt at step (p, run, s) = (
    p,
    step ∙ run,
    record {
      after = omega (arith, s.after);
      within = s.within;
      same = ap held (drop_at pos t.slots none at) ∙ s.same;
      ends = s.ends;
    },
  )
  at_slot fuel pos (some e) lt at step rest = (
    pos,
    step,
    record { after = omega arith; within = omega (arith, lt); same = refl; ends = inr (e, at, lt) },
  )

  round_step :
      (fuel pos : ℕ) (slot : Option (K × V))
      → (pos == t.capacity) ≡ false
      → get_elem? t.slots pos ≡ some slot
      → skip_free (suc fuel) t pos
        ≡ elim slot [ none ↦ skip_free fuel t (pos + 1) | some e ↦ some pos ]
  unfolding skip_free
  round_step fuel pos slot ne at = rw (ne, at, ◌>>=◌) refl

  round_run :
      (fuel pos : ℕ) (slot : Option (K × V))
      → (pos == t.capacity) ≡ false
      → get_elem? t.slots pos ≡ some slot
      → skip_free (suc fuel) t pos
        ≡ elim slot [ none ↦ skip_free fuel t (suc pos) | some e ↦ some pos ]
  round_run fuel pos slot ne at =
      let next_eq : pos + 1 ≡ suc pos = omega arith in
      round_step fuel pos slot ne at
      ∙ ap (λ n. elim slot [ none ↦ skip_free fuel t n | some e ↦ some pos ]) next_eq

  -- The loop over free slots stops at the next entry.
  skipped :
      (fuel pos : ℕ)
      → pos ≤ t.capacity
      → t.capacity < fuel + pos
      → (p : ℕ) × (skip_free fuel t pos ≡ some p) × Stops pos p
  unfolding skip_free held
  skipped zero pos le enough = absurd (omega arith)
  skipped (suc fuel) pos le enough = elim (Bool-cases (pos == t.capacity)) [
    | inl e ↦ (
      pos,
      rw e refl,
      record {
        after = omega arith;
        within = le;
        same = refl;
        ends = inl ((==_iff pos t.capacity).0 e);
      },
    )
    | inr ne ↦
        let lt : pos < t.capacity = ground arith in
        let (slot, at) = get_elem?_of_lt t.slots pos (omega (arith, width)) in
        at_slot fuel pos slot lt at (round_run fuel pos slot ne at)
          (skipped fuel (suc pos) (omega (arith, lt)) (omega (arith, enough)))
  ]

  held_at_end : (p : ℕ) → p ≡ t.capacity → held (drop p t.slots) ≡ []
  unfolding held
  held_at_end p e = ap held (drop_all p t.slots (omega (arith, width, e)))

  -- One round of the loop, at an entry.
  visit_run :
      (fuel p q : ℕ) (e : K × V) (es : List (K × V))
      → (p == t.capacity) ≡ false
      → get_elem? t.slots p ≡ some (some e)
      → next t p ≡ some q
      → walk fuel t q ≡ some es
      → walk (suc fuel) t p ≡ some (e ∷ es)
  unfolding walk entry_at
  visit_run fuel p q e es ne at step rest = rw (ne, at, ◌>>=◌, step, ◌>>=◌, rest, ◌>>=◌) refl

  next_step : (p : ℕ) → next t p ≡ skip_free (suc t.capacity) t (p + 1)
  unfolding next
  next_step p = refl

  next_run : (p : ℕ) → next t p ≡ skip_free (suc t.capacity) t (suc p)
  next_run p =
      let next_eq : p + 1 ≡ suc p = omega arith in
      next_step p ∙ ap (skip_free (suc t.capacity) t) next_eq

  -- The loop from an entry on meets the entries from there on.
  walked :
      (fuel p : ℕ)
      → p ≤ t.capacity
      → t.capacity < fuel + p
      → (p ≡ t.capacity) ⊎ ((e : K × V) × (get_elem? t.slots p ≡ some (some e)) × (p < t.capacity))
      → walk fuel t p ≡ some (held (drop p t.slots))
  unfolding walk held
  walked zero p le enough ends = absurd (omega arith)
  walked (suc fuel) p le enough (inl e) = rw ((==_iff p t.capacity).1 e, held_at_end p e) refl
  walked (suc fuel) p le enough (inr (e, at, lt)) =
      let (q, run, s) = skipped (suc t.capacity) (suc p) (omega (arith, lt)) (omega arith) in
      let rest = walked fuel q s.within (omega (arith, s.after, enough)) s.ends in
      visit_run fuel p q e (held (drop q t.slots)) (ground arith) at (next_run p ∙ run) rest
      ∙ ap some (sym (ap held (drop_at p t.slots (some e) at) ∙ ap (λ es. e ∷ es) s.same))

  begin_some : ltb 0 t.size ≡ true → begin t ≡ skip_free (suc t.capacity) t 0
  unfolding begin
  begin_some e = rw e refl

  begin_none : ltb 0 t.size ≡ false → begin t ≡ some t.capacity
  unfolding begin
  begin_none e = rw e refl

  entries_run : (p : ℕ) → begin t ≡ some p → entries t ≡ walk (suc t.capacity) t p
  unfolding entries
  entries_run p e = rw (e, ◌>>=◌) refl

-- On a valid table, `for (iter = begin(); iter != end(); ++iter)` ends without a fault and meets the
-- entries of the occupied slots, each once, in the order of the slots.
pub entries-eq-held :
    {K V : Type 0} ⦃key : Key K⦄ (t : Table K V) → IsValid t → entries t ≡ some (held t.slots)
entries-eq-held t valid = elim (Bool-cases (ltb 0 t.size)) [
  | inl some_left ↦
      let (p, run, s) = skipped t valid.width (suc t.capacity) 0 (omega arith) (omega arith) in
      entries_run t valid.width p (begin_some t valid.width some_left ∙ run)
      ∙ walked t valid.width (suc t.capacity) p s.within (omega arith) s.ends
      ∙ ap some (sym s.same)
  | inr empty ↦
      let size0 : t.size ≡ 0 = ground arith in
      entries_run t valid.width t.capacity (begin_none t valid.width empty)
      ∙ walked t valid.width (suc t.capacity) t.capacity (omega arith) (omega arith) (inl refl)
      ∙ ap some (
          held_at_end t valid.width t.capacity refl
          ∙ sym (held_none t.slots (valid.counted ∙ size0)))
]
