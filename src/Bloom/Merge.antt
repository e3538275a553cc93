-- ===== src/Bloom/Merge.antt =====
-- `merge` of src/lib/bloom.cpp.
use mathlib.Core.Option.{some-injective}
use native.Mathlib.Decide.{dec_lt}
use Prim.Native.Nat.{bit_or}
use k23_search_engine.Prelude.{
  ℕ, zero, suc, ◌+◌, ◌/◌, ◌%◌, ◌≤◌, ◌≡◌, refl, sym, ap, ◌∙◌, subst, List, some, arith, true, ==_iff,
  ◌==◌, inl, inr, ◌⊎◌, length, get_elem?, set, store_of_lt, ◌>>=◌, get_elem?_of_lt, length-set,
  lt_of_get_elem?,
}
use k23_search_engine.Bloom.{Bloom, lookup, merge_loop, merge}
use k23_search_engine.Bloom.Bits.{bit_at}
use k23_search_engine.Bloom.Positions.{IsMarked, set_or-IsMarked, or_set-IsMarked}
use k23_search_engine.Bloom.Filter.{IsFilter, Keeps, Holds-Keeps, bits-Holds, lookup_loop_held}

-- The bit that is set stands in the byte that is read.
one_of_read :
    (bytes : List ℕ) (i b q : ℕ)
    → get_elem? bytes i ≡ some b
    → i ≡ q / 8
    → IsMarked bytes q
    → bit_at b (q % 8) ≡ 1
one_of_read bytes i b q read e (byte, held, one) =
    let same : b ≡ byte = some-injective _ _ (sym read ∙ ap (get_elem? bytes) e ∙ held) in
    ap (λ x. bit_at x (q % 8)) same ∙ one

merged_here :
    (bf : List ℕ) (i a b q : ℕ)
    → get_elem? bf i ≡ some a
    → i ≡ q / 8
    → bit_at b (q % 8) ≡ 1
    → IsMarked (set bf i (bit_or a b)) q
merged_here bf i a b q read e one =
    subst (λ k. IsMarked (set bf k (bit_or a b)) q) (sym e)
      (or_set-IsMarked bf a b q (ap (get_elem? bf) (sym e) ∙ read) one)

-- The bytes from `i` on get the bits of `bytes`, and no bit is cleared.
merge_loop_lem :
    (n i : ℕ) (bytes bf : List ℕ)
    → i + n ≡ length bf
    → length bytes ≡ length bf
    → (r : List ℕ) × (merge_loop n i bytes bf ≡ some r)
      × (length r ≡ length bf)
      × Keeps bf r
      × ((q : ℕ) → i ≤ q / 8 → IsMarked bytes q → IsMarked r q)
unfolding merge_loop
merge_loop_lem zero i bytes bf all same = (
  bf,
  refl,
  refl,
  λ q one. one,
  λ q le one. absurd (omega (arith, lt_of_get_elem? bytes (q / 8) one.0 one.1)),
)
merge_loop_lem (suc n) i bytes bf all same =
    let (a, ra) = get_elem?_of_lt bf i (omega arith) in
    let (b, rb) = get_elem?_of_lt bytes i (omega arith) in
    let s = set bf i (bit_or a b) in
    let width : length s ≡ length bf = length-set bf i (bit_or a b) in
    let (r, rest, width', kept, merged) =
      merge_loop_lem n (i + 1) bytes s (omega arith) (omega arith) in
    (
      r,
      rw (ra, ◌>>=◌, rb, ◌>>=◌, store_of_lt bf i (bit_or a b) (omega arith), ◌>>=◌) rest,
      width' ∙ width,
      λ q one. kept q (set_or-IsMarked bf i a b q ra one),
      λ q le one. elim (dec_lt i (q / 8)) [
        | yes later ↦ merged q (omega arith) one
        | no now ↦
            kept q (
              merged_here bf i a b q ra (omega arith)
                (one_of_read bytes i b q rb (omega arith) one))
      ],
    )

-- `merge` with a bit field of the same size does not fault, and what the filter or a filter of those
-- bytes finds, the result finds.
pub lookup-merge :
    (w bytes : List ℕ) (b : Bloom)
    → IsFilter b
    → length bytes ≡ b.size
    → (lookup w b ≡ some true) ⊎ (lookup w (record b { bit_field = bytes }) ≡ some true)
    → (r : Bloom) × (merge b.size bytes b ≡ some r) × IsFilter r × (lookup w r ≡ some true)
unfolding merge
lookup-merge w bytes b filter same found =
    let (r, run, width, kept, merged) =
      merge_loop_lem b.size 0 bytes b.bit_field (omega (arith, filter.width))
        (omega (arith, filter.width)) in
    let equal : (b.size == b.size) ≡ true = (==_iff b.size b.size).1 refl in
    let filter' : IsFilter (record b { bit_field = r }) = record {
      wide = filter.wide;
      width = width ∙ filter.width;
    } in
    (
      record b { bit_field = r },
      rw (equal, run, ◌>>=◌) refl,
      filter',
      lookup_loop_held w b (record b { bit_field = r }) filter filter' refl refl
          (elim found [
            | inl here ↦
                Holds-Keeps w b.size b.hash_functions 1 b.bit_field r kept
                  (bits-Holds w b filter here)
            | inr there ↦
                Holds-Keeps w b.size b.hash_functions 1 bytes r
                  (λ q one. merged q (omega arith) one)
                  (bits-Holds w (record b { bit_field = bytes })
                    (record { wide = filter.wide; width = same }) there)
          ]),
    )
