-- ===== src/Bloom/Bits.antt =====
-- The binary digits of a byte under the `|` and `&` of src/lib/bloom.cpp.
use Prim.Native.Nat.{bit_and, bit_or, digits, bit_and-bitwise, bit_or-bitwise}
use native.Mathlib.Nat.{le_refl}
use k23_search_engine.Prelude.{
  ℕ, zero, suc, ◌+◌, ◌/◌, ◌%◌, ◌^◌, ◌≤◌, ◌<◌, ◌≡◌, ◌≢◌, refl, ap, ◌∙◌, min, max, arith, ◌-◌, false,
  ◌==◌, ==_iff, Bool-cases, inl, inr,
}

-- The digit `i`, the lowest first.
unfoldable pub bit_at : ℕ → ℕ → ℕ
bit_at b zero = b % 2
bit_at b (suc i) = bit_at (b / 2) i

pub bit_at_lt : (b i : ℕ) → bit_at b i < 2
unfolding bit_at
bit_at_lt b zero = omega arith
bit_at_lt b (suc i) = bit_at_lt (b / 2) i

bit_at-zero : (i : ℕ) → bit_at 0 i ≡ 0
unfolding bit_at
bit_at-zero zero = refl
bit_at-zero (suc i) = bit_at-zero i

-- A number is 0 if its digits are.
zero_of_bits : (n b : ℕ) → b ≤ n → ((i : ℕ) → bit_at b i ≡ 0) → b ≡ 0
unfolding bit_at
zero_of_bits zero b le digit = omega arith
zero_of_bits (suc n) zero le digit = refl
zero_of_bits (suc n) (suc b) le digit =
    omega (arith, digit 0, zero_of_bits n (suc b / 2) (omega arith) (λ i. digit (suc i)))

or_digits :
    (n a b i : ℕ) → a ≤ n → bit_at (digits (λ x. x) max n a b) i ≡ max (bit_at a i) (bit_at b i)
unfolding bit_at
or_digits zero zero b i le = rw (bit_at-zero i) (omega arith)
or_digits zero (suc a) b i le = absurd (omega arith)
or_digits (suc n) zero b i le = rw (bit_at-zero i) (omega arith)
or_digits (suc n) (suc a) b zero le = omega arith
or_digits (suc n) (suc a) b (suc i) le =
    ap (λ x. bit_at x i) (omega arith) ∙ or_digits n (suc a / 2) (b / 2) i (omega arith)

and_digits :
    (n a b i : ℕ) → a ≤ n → bit_at (digits (λ x. 0) min n a b) i ≡ min (bit_at a i) (bit_at b i)
unfolding bit_at
and_digits zero zero b i le = rw (bit_at-zero i) (omega arith)
and_digits zero (suc a) b i le = absurd (omega arith)
and_digits (suc n) zero b i le = rw (bit_at-zero i) (omega arith)
and_digits (suc n) (suc a) b zero le = omega arith
and_digits (suc n) (suc a) b (suc i) le =
    ap (λ x. bit_at x i) (omega arith) ∙ and_digits n (suc a / 2) (b / 2) i (omega arith)

pub bit_at-bit_or : (a b i : ℕ) → bit_at (bit_or a b) i ≡ max (bit_at a i) (bit_at b i)
bit_at-bit_or a b i = simp bit_or-bitwise (or_digits a a b i (le_refl a))

bit_at-bit_and : (a b i : ℕ) → bit_at (bit_and a b) i ≡ min (bit_at a i) (bit_at b i)
bit_at-bit_and a b i = simp bit_and-bitwise (and_digits a a b i (le_refl a))

pub bit_at-pow_self : (k : ℕ) → bit_at (2 ^ k) k ≡ 1
unfolding bit_at
bit_at-pow_self zero = refl
bit_at-pow_self (suc k) = ap (λ x. bit_at x k) (omega arith) ∙ bit_at-pow_self k

bit_at-pow_ne : (k i : ℕ) → i ≢ k → bit_at (2 ^ k) i ≡ 0
unfolding bit_at
bit_at-pow_ne zero zero ne = absurd (ne refl)
bit_at-pow_ne zero (suc i) ne = bit_at-zero i
bit_at-pow_ne (suc k) zero ne = omega arith
bit_at-pow_ne (suc k) (suc i) ne =
    ap (λ x. bit_at x i) (omega arith) ∙ bit_at-pow_ne k i (λ e. ne (ap suc e))

-- `b & (1 << k)` is not 0 if and only if the digit `k` of `b` is 1.
bit_and_zero : (b k : ℕ) → bit_and b (2 ^ k) ≡ 0 → bit_at b k ≡ 0
bit_and_zero b k e =
    let low = bit_at-bit_and b (2 ^ k) k in
    let none_left : bit_at (bit_and b (2 ^ k)) k ≡ 0 = rw e (bit_at-zero k) in
    omega (arith, low, none_left, bit_at-pow_self k, bit_at_lt b k)

zero_bit_and : (b k : ℕ) → bit_at b k ≡ 0 → bit_and b (2 ^ k) ≡ 0
zero_bit_and b k e = zero_of_bits (bit_and b (2 ^ k)) (bit_and b (2 ^ k)) (le_refl _) (λ i.
    elim (Bool-cases (i == k)) [
      | inl same ↦ rw (bit_at-bit_and b (2 ^ k) i, (==_iff i k).0 same, e) (omega arith)
      | inr other ↦
          rw (bit_at-bit_and b (2 ^ k) i, bit_at-pow_ne k i (λ p. ground (arith, other, p)))
            (omega arith)
    ])

pub one_of_test : (b k : ℕ) → (bit_and b (2 ^ k) == 0) ≡ false → bit_at b k ≡ 1
one_of_test b k h = elim (Bool-cases (bit_at b k == 0)) [
  | inl e ↦ absurd (ground (arith, h, zero_bit_and b k ((==_iff _ 0).0 e)))
  | inr e ↦ ground (arith, bit_at_lt b k)
]

pub test_of_one : (b k : ℕ) → bit_at b k ≡ 1 → (bit_and b (2 ^ k) == 0) ≡ false
test_of_one b k one = elim (Bool-cases (bit_and b (2 ^ k) == 0)) [
  | inl e ↦ absurd (omega (arith, one, bit_and_zero b k ((==_iff _ 0).0 e)))
  | inr e ↦ e
]

le-pow_add : (j k n : ℕ) → n ≡ j + k → 2 ^ k ≤ 2 ^ n
le-pow_add zero k n e = let same : k ≡ n = omega arith in rw same (le_refl _)
le-pow_add (suc j) k zero e = absurd (omega arith)
le-pow_add (suc j) k (suc n) e = omega (arith, le-pow_add j k n (omega arith))

-- The `uint8_t` holds the bit.
pub pow_byte : (k : ℕ) → k < 8 → 2 ^ k % 2 ^ 8 ≡ 2 ^ k
pow_byte k h = omega (arith, le-pow_add (7 - k) k 7 (omega arith))
