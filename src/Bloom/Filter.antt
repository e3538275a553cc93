-- ===== src/Bloom/Filter.antt =====
-- `add` and `lookup` of src/lib/bloom.cpp.
use k23_search_engine.Prelude.{
  ℕ, zero, suc, ◌+◌, ◌*◌, ◌%◌, ◌<◌, ◌≡◌, refl, sym, ◌∙◌, List, [], ◌∷◌, Option, some, true, false,
  ◌==◌, inl, inr, length, ◌>>=◌, All,
}
use k23_search_engine.Hash.{hash_i}
use k23_search_engine.Bloom.{Bloom, bf_get_bit, add_loop, add, lookup_loop, lookup}
use k23_search_engine.Bloom.Positions.{IsMarked, bf_set_bit_lem, bf_get_bit_lem}

-- The bit field has the size that the filter names.
pub record IsFilter (b : Bloom) : Type 0 where
  pub wide : 0 < b.size
  pub width : length b.bit_field ≡ b.size

-- One bit field has the bits of another.
abbrev pub Keeps : List ℕ → List ℕ → Type 0
Keeps bf r = (q : ℕ) → IsMarked bf q → IsMarked r q

module _ (el : List ℕ) (size : ℕ) where
  -- The bits of `el` for the hash functions from `i` on are set.
  abbrev pub Holds : (rounds i : ℕ) → List ℕ → Type 0
  Holds zero i bf = Unit
  Holds (suc n) i bf = IsMarked bf (hash_i el i % (size * 8)) × Holds n (i + 1) bf

  pub Holds-Keeps : (n i : ℕ) (bf r : List ℕ) → Keeps bf r → Holds n i bf → Holds n i r
  Holds-Keeps zero i bf r keeps h = tt
  Holds-Keeps (suc n) i bf r keeps (one, h) = (keeps _ one, Holds-Keeps n (i + 1) bf r keeps h)

  module _ (wide : 0 < size) where
    lookup-Holds :
        (n i : ℕ) (bf : List ℕ)
        → length bf ≡ size
        → Holds n i bf
        → lookup_loop n i el size bf ≡ some true
    unfolding lookup_loop
    lookup-Holds zero i bf width h = refl
    lookup-Holds (suc n) i bf width (one, h) =
        let (bit, run, test, held) = bf_get_bit_lem bf (hash_i el i) size wide width in
        rw (run, ◌>>=◌, held one) (lookup-Holds n (i + 1) bf width h)

    lookup_clear :
        (n i : ℕ) (bf : List ℕ) (bit : ℕ)
        → bf_get_bit bf (hash_i el i) size ≡ some bit
        → (bit == 0) ≡ true
        → lookup_loop (suc n) i el size bf ≡ some false
    unfolding lookup_loop
    lookup_clear n i bf bit run test = rw (run, ◌>>=◌, test) refl

    lookup_next :
        (n i : ℕ) (bf : List ℕ) (bit : ℕ)
        → bf_get_bit bf (hash_i el i) size ≡ some bit
        → (bit == 0) ≡ false
        → lookup_loop (suc n) i el size bf ≡ lookup_loop n (i + 1) el size bf
    unfolding lookup_loop
    lookup_next n i bf bit run test = rw (run, ◌>>=◌, test) refl

    Holds-lookup :
        (n i : ℕ) (bf : List ℕ)
        → length bf ≡ size
        → lookup_loop n i el size bf ≡ some true
        → Holds n i bf
    unfolding lookup_loop
    Holds-lookup zero i bf width h = tt
    Holds-lookup (suc n) i bf width h =
        let (bit, run, test, held) = bf_get_bit_lem bf (hash_i el i) size wide width in
        elim test [
          | inl clear ↦ absurd (let clash = sym (lookup_clear n i bf bit run clear) ∙ h in cc)
          | inr (one, is_set) ↦
              (is_set, Holds-lookup n (i + 1) bf width (sym (lookup_next n i bf bit run one) ∙ h))
        ]

    add_loop_lem :
        (n i : ℕ) (bf : List ℕ)
        → length bf ≡ size
        → (r : List ℕ) × (add_loop n i el size bf ≡ some r)
          × (length r ≡ size)
          × Keeps bf r
          × Holds n i r
    unfolding add_loop
    add_loop_lem zero i bf width = (bf, refl, width, λ q one. one, tt)
    add_loop_lem (suc n) i bf width =
        let (s, run, width', one, kept) = bf_set_bit_lem bf (hash_i el i) size wide width in
        let (r, rest, width'', kept', h) = add_loop_lem n (i + 1) s width' in
        (r, rw (run, ◌>>=◌) rest, width'', λ q x. kept' q (kept q x), (kept' _ one, h))

-- `add` does not fault, keeps the bits that are set, and sets those of the element.
add_lem :
    (el : List ℕ) (b : Bloom)
    → IsFilter b
    → (r : Bloom) × (add el b ≡ some r)
      × IsFilter r
      × (r.size ≡ b.size)
      × (r.hash_functions ≡ b.hash_functions)
      × Keeps b.bit_field r.bit_field
      × Holds el b.size b.hash_functions 1 r.bit_field
unfolding add
add_lem el b filter =
    let (r, run, width, kept, h) =
      add_loop_lem el b.size filter.wide b.hash_functions 1 b.bit_field filter.width in
    (
      record b { bit_field = r },
      rw (run, ◌>>=◌) refl,
      record { wide = filter.wide; width = width },
      refl,
      refl,
      kept,
      h,
    )

-- The words added one by one.
unfoldable pub add_all : List (List ℕ) → Bloom → Option Bloom
add_all [] b = some b
add_all (w ∷ ws) b = add w b >>= add_all ws

-- A filter with the bits of a word finds it.
pub lookup_loop_held :
    (el : List ℕ) (b : Bloom) (r : Bloom)
    → IsFilter b
    → IsFilter r
    → r.size ≡ b.size
    → r.hash_functions ≡ b.hash_functions
    → Holds el b.size b.hash_functions 1 r.bit_field
    → lookup el r ≡ some true
unfolding lookup
lookup_loop_held el b r filter filter' size count h =
    rw (count, size)
      (lookup-Holds el b.size filter.wide b.hash_functions 1 r.bit_field (filter'.width ∙ size) h)

pub bits-Holds :
    (el : List ℕ) (b : Bloom)
    → IsFilter b
    → lookup el b ≡ some true
    → Holds el b.size b.hash_functions 1 b.bit_field
unfolding lookup
bits-Holds el b filter found =
    Holds-lookup el b.size filter.wide b.hash_functions 1 b.bit_field filter.width found

add_all_lem :
    (ws : List (List ℕ)) (b : Bloom)
    → IsFilter b
    → (r : Bloom) × (add_all ws b ≡ some r)
      × IsFilter r
      × (r.size ≡ b.size)
      × (r.hash_functions ≡ b.hash_functions)
      × Keeps b.bit_field r.bit_field
      × All (λ w. lookup w r ≡ some true) ws
unfolding add_all lookup
add_all_lem [] b filter = (b, refl, filter, refl, refl, λ q one. one, tt)
add_all_lem (w ∷ ws) b filter =
    let (s, run, filter', size, count, kept, h) = add_lem w b filter in
    let (r, rest, filter'', size', count', kept', found) = add_all_lem ws s filter' in
    (
      r,
      rw (run, ◌>>=◌) rest,
      filter'',
      size' ∙ size,
      count' ∙ count,
      λ q x. kept' q (kept q x),
      (
        lookup_loop_held w b r filter filter'' (size' ∙ size) (count' ∙ count)
            (Holds-Keeps w b.size b.hash_functions 1 s.bit_field r.bit_field kept' h),
        found,
      ),
    )

-- A filter whose bit field has its size takes any words without a fault, and then finds each of them.
pub lookup-add_all :
    (ws : List (List ℕ)) (b : Bloom)
    → IsFilter b
    → (r : Bloom) × (add_all ws b ≡ some r) × All (λ w. lookup w r ≡ some true) ws
lookup-add_all ws b filter =
    let (r, run, filter', size, count, kept, found) = add_all_lem ws b filter in (r, run, found)

-- A word that a filter finds is found after any other word is added, which does not fault.
pub lookup-add_other :
    (w el : List ℕ) (b : Bloom)
    → IsFilter b
    → lookup w b ≡ some true
    → (r : Bloom) × (add el b ≡ some r) × IsFilter r × (lookup w r ≡ some true)
lookup-add_other w el b filter found =
    let (r, run, filter', size, count, kept, h) = add_lem el b filter in
    let before = bits-Holds w b filter found in
    (
      r,
      run,
      filter',
      lookup_loop_held w b r filter filter' size count
          (Holds-Keeps w b.size b.hash_functions 1 b.bit_field r.bit_field kept before),
    )
