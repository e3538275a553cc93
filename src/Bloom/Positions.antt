-- ===== src/Bloom/Positions.antt =====
-- The positions of a bit field of src/lib/bloom.cpp that are set.
use native.Mathlib.Nat.{mod-lt}
use mathlib.Core.Option.{some-injective}
use Prim.Native.Nat.{bit_and, bit_or}
use k23_search_engine.Prelude.{
  ℕ, ◌*◌, ◌/◌, ◌%◌, ◌^◌, ◌<◌, ◌≡◌, refl, sym, ap, ◌∙◌, true, false, List, some, arith, ◌==◌,
  Bool-cases, ==_iff, inl, inr, ◌⊎◌, length, get_elem?, set, store_of_lt, ◌>>=◌, get_elem?_of_lt,
  get_elem?-set_self, get_elem?-set_ne, length-set, lt_of_get_elem?,
}
use k23_search_engine.Bloom.{bf_set_bit, bf_get_bit, mask}
use k23_search_engine.Bloom.Bits.{
  bit_at, bit_at_lt, bit_at-bit_or, bit_at-pow_self, one_of_test, test_of_one, pow_byte,
}

abbrev pub IsMarked : List ℕ → ℕ → Type 0
IsMarked bf p = (byte : ℕ) × (get_elem? bf (p / 8) ≡ some byte) × (bit_at byte (p % 8) ≡ 1)

-- A byte that gets more bits keeps the set positions.
pub set_or-IsMarked :
    (bf : List ℕ) (i a b p : ℕ)
    → get_elem? bf i ≡ some a
    → IsMarked bf p
    → IsMarked (set bf i (bit_or a b)) p
set_or-IsMarked bf i a b p read (byte, held, one) = elim (Bool-cases (i == p / 8)) [
  | inl same ↦
      let e = (==_iff i (p / 8)).0 same in
      let here : some a ≡ some byte = sym read ∙ ap (get_elem? bf) e ∙ held in
      (
        bit_or a b,
        rw (← e) (get_elem?-set_self bf i _ (lt_of_get_elem? bf i a read)),
        omega (
          arith,
          bit_at-bit_or a b (p % 8),
          bit_at_lt b (p % 8),
          ap (λ x. bit_at x (p % 8)) (some-injective _ _ here) ∙ one,
        ),
      )
  | inr other ↦ (byte, get_elem?-set_ne bf i (p / 8) _ (λ e. ground (arith, other, e)) ∙ held, one)
]

-- The bits of the second byte are set too.
pub or_set-IsMarked :
    (bf : List ℕ) (a b p : ℕ)
    → get_elem? bf (p / 8) ≡ some a
    → bit_at b (p % 8) ≡ 1
    → IsMarked (set bf (p / 8) (bit_or a b)) p
or_set-IsMarked bf a b p read one = (
  bit_or a b,
  get_elem?-set_self bf (p / 8) _ (lt_of_get_elem? bf (p / 8) a read),
  omega (arith, bit_at-bit_or a b (p % 8), bit_at_lt a (p % 8)),
)

module _ (bf : List ℕ) (pos size : ℕ) (wide : 0 < size) (width : length bf ≡ size) where
  abbrev p : ℕ
  p = pos % (size * 8)

  inside : p / 8 < length bf
  inside = omega (arith, mod-lt pos {m = size * 8} (omega arith))

  pub bf_set_bit_lem :
      (r : List ℕ) × (bf_set_bit bf pos size ≡ some r)
      × (length r ≡ size)
      × IsMarked r (pos % (size * 8))
      × ((q : ℕ) → IsMarked bf q → IsMarked r q)
  unfolding bf_set_bit
  bf_set_bit_lem =
      let (byte, read) = get_elem?_of_lt bf (p / 8) inside in
      let nonzero : (size == 0) ≡ false = ground arith in
      (
        set bf (p / 8) (bit_or byte (mask p)),
        rw (nonzero, read, ◌>>=◌) (store_of_lt bf (p / 8) _ inside),
        length-set bf (p / 8) _ ∙ width,
        or_set-IsMarked bf byte (mask p) p read
            (rw (pow_byte (p % 8) (omega arith)) (bit_at-pow_self (p % 8))),
        λ q one. set_or-IsMarked bf (p / 8) byte (mask p) q read one,
      )

  pub bf_get_bit_lem :
      (bit : ℕ) × (bf_get_bit bf pos size ≡ some bit)
      × (((bit == 0) ≡ true) ⊎ (((bit == 0) ≡ false) × IsMarked bf (pos % (size * 8))))
      × (IsMarked bf (pos % (size * 8)) → (bit == 0) ≡ false)
  unfolding bf_get_bit
  bf_get_bit_lem =
      let (byte, read) = get_elem?_of_lt bf (p / 8) inside in
      let nonzero : (size == 0) ≡ false = ground arith in
      let small = pow_byte (p % 8) (omega arith) in
      (
        bit_and byte (mask p),
        rw (nonzero, read, ◌>>=◌) refl,
        rw small (test_cases byte read),
        λ one. rw small (held_one byte read one),
      )
    where
      test_cases :
          (byte : ℕ)
          → get_elem? bf (p / 8) ≡ some byte
          → ((bit_and byte (2 ^ (p % 8)) == 0) ≡ true)
            ⊎ (((bit_and byte (2 ^ (p % 8)) == 0) ≡ false) × IsMarked bf p)
      test_cases byte read = elim (Bool-cases (bit_and byte (2 ^ (p % 8)) == 0)) [
        | inl e ↦ inl e
        | inr e ↦ inr (e, (byte, read, one_of_test byte (p % 8) e))
      ]

      held_one :
          (byte : ℕ)
          → get_elem? bf (p / 8) ≡ some byte
          → IsMarked bf p
          → (bit_and byte (2 ^ (p % 8)) == 0) ≡ false
      held_one byte read (other, held, one) =
          let same : byte ≡ other = some-injective _ _ (sym read ∙ held) in
          test_of_one byte (p % 8) (ap (λ x. bit_at x (p % 8)) same ∙ one)
