-- ===== src/Prelude/Bits.antt =====
-- Bit sets in machine words: the test of one bit, and the laws of `|`, `&` and shifts for it.
use Prim.Native.Nat.{
  ℕ, zero, suc, ◌+◌, ◌*◌, ◌/◌, ◌%◌, ◌^◌, ◌≤◌, ◌<◌, min, max, bit_and, bit_or, digits, bitwise,
  bit_and-bitwise, bit_or-bitwise,
}
use mathlib.Core.Path.{◌≡◌, refl, sym, ap, ◌∙◌}
use mathlib.Core.Logic.{◌≢◌, inl, inr}
use mathlib.Core.Bool.{Bool, true, false, not, ◌&&◌, ◌||◌}
use native.Mathlib.Omega.{arith}
use native.Mathlib.Nat.{div-div-eq-div-mul, div-one, pow-suc, pow-succ'}
use herdr_woof.Prelude.Tests.{◌==◌, if◌then◌else◌, Bool-cases, lt-or-le_ℕ}

-- Bit `i` of `m`.
unfoldable pub test_bit : ℕ → ℕ → Bool
test_bit m i = (m / 2 ^ i) % 2 == 1

-- `bit_and` and `bit_or` go through the digits with a count of rounds. A count above the first
-- number changes nothing, so that both have one law for the lowest digit.
module _ (base : ℕ → ℕ) (op : ℕ → ℕ → ℕ) where
  one_round_more : (n a b : ℕ) → a ≤ n → digits base op (suc n) a b ≡ digits base op n a b
  one_round_more n zero b h = digits-zero n b
    where
      digits-zero : (n b : ℕ) → digits base op (suc n) 0 b ≡ digits base op n 0 b
      digits-zero zero b = refl
      digits-zero (suc n) b = refl
  one_round_more zero (suc a) b h = absurd (omega arith)
  one_round_more (suc n) (suc a) b h =
      ap (λ t. t * 2 + op (suc a % 2) (b % 2)) (one_round_more n (suc a / 2) (b / 2) (omega arith))

  more_rounds : (n a b : ℕ) → a < n → digits base op n a b ≡ bitwise base op a b
  more_rounds zero a b lt = absurd (omega arith)
  more_rounds (suc n) a b lt = one_round_more n a b (omega arith) ∙ elim (lt-or-le_ℕ a n) [
    | inl below ↦ more_rounds n a b below
    | inr le ↦ ap (λ k. digits base op k a b) (omega arith)
  ]

  rounds_enough : (n a b : ℕ) → a ≤ n → digits base op n a b ≡ bitwise base op a b
  rounds_enough n a b h = elim (lt-or-le_ℕ a n) [
    | inr le ↦ ap (λ k. digits base op k a b) (omega arith)
    | inl lt ↦ more_rounds n a b lt
  ]

  lowest_digit :
      ((b : ℕ) → base b ≡ base (b / 2) * 2 + op 0 (b % 2))
      → (a b : ℕ) → bitwise base op a b ≡ bitwise base op (a / 2) (b / 2) * 2 + op (a % 2) (b % 2)
  lowest_digit law zero b = law b
  lowest_digit law (suc a) b =
      ap (λ t. t * 2 + op (suc a % 2) (b % 2)) (rounds_enough a (suc a / 2) (b / 2) (omega arith))

bit_or_step : (a b : ℕ) → bit_or a b ≡ bit_or (a / 2) (b / 2) * 2 + max (a % 2) (b % 2)
bit_or_step a b =
    bit_or-bitwise a b
    ∙ lowest_digit (λ k. k) max (λ k. omega arith) a b
    ∙ ap (λ t. t * 2 + max (a % 2) (b % 2)) (sym (bit_or-bitwise (a / 2) (b / 2)))

bit_and_step : (a b : ℕ) → bit_and a b ≡ bit_and (a / 2) (b / 2) * 2 + min (a % 2) (b % 2)
bit_and_step a b =
    bit_and-bitwise a b
    ∙ lowest_digit (λ k. 0) min (λ k. omega arith) a b
    ∙ ap (λ t. t * 2 + min (a % 2) (b % 2)) (sym (bit_and-bitwise (a / 2) (b / 2)))

zero-bit_and : (b : ℕ) → bit_and 0 b ≡ 0
zero-bit_and b = bit_and-bitwise 0 b

div-pow-suc : (m i : ℕ) → m / 2 ^ suc i ≡ m / 2 / 2 ^ i
div-pow-suc m i = ap (λ t. m / t) (pow-succ' 2 i) ∙ sym (div-div-eq-div-mul m 2 (2 ^ i))

-- The lowest bit, and the bits above it.
test_bit-zero : (m : ℕ) → test_bit m 0 ≡ (m % 2 == 1)
unfolding test_bit
test_bit-zero m = ground (arith, div-one m)

test_bit-suc : (m i : ℕ) → test_bit m (suc i) ≡ test_bit (m / 2) i
unfolding test_bit
test_bit-suc m i = ap (λ t. t % 2 == 1) (div-pow-suc m i)

half-bit_or : (a b : ℕ) → bit_or a b / 2 ≡ bit_or (a / 2) (b / 2)
half-bit_or a b = omega (arith, bit_or_step a b)

half-bit_and : (a b : ℕ) → bit_and a b / 2 ≡ bit_and (a / 2) (b / 2)
half-bit_and a b = omega (arith, bit_and_step a b)

odd-bit_or : (a b : ℕ) → (bit_or a b % 2 == 1) ≡ ((a % 2 == 1) || (b % 2 == 1))
odd-bit_or a b = ground (arith, bit_or_step a b)

odd-bit_and : (a b : ℕ) → (bit_and a b % 2 == 1) ≡ ((a % 2 == 1) && (b % 2 == 1))
odd-bit_and a b = ground (arith, bit_and_step a b)

pub test_bit-bit_or : (i a b : ℕ) → test_bit (bit_or a b) i ≡ (test_bit a i || test_bit b i)
test_bit-bit_or zero a b =
    rw (test_bit-zero (bit_or a b), test_bit-zero a, test_bit-zero b) (odd-bit_or a b)
test_bit-bit_or (suc i) a b =
    rw (test_bit-suc (bit_or a b) i, test_bit-suc a i, test_bit-suc b i, half-bit_or a b)
      (test_bit-bit_or i (a / 2) (b / 2))

pub test_bit-bit_and : (i a b : ℕ) → test_bit (bit_and a b) i ≡ (test_bit a i && test_bit b i)
test_bit-bit_and zero a b =
    rw (test_bit-zero (bit_and a b), test_bit-zero a, test_bit-zero b) (odd-bit_and a b)
test_bit-bit_and (suc i) a b =
    rw (test_bit-suc (bit_and a b) i, test_bit-suc a i, test_bit-suc b i, half-bit_and a b)
      (test_bit-bit_and i (a / 2) (b / 2))

pub test_bit-none : (i : ℕ) → test_bit 0 i ≡ false
test_bit-none zero = test_bit-zero 0
test_bit-none (suc i) = rw (test_bit-suc 0 i) (test_bit-none i)

-- `1 << k` has the one bit `k`.
pub test_bit-pow : (k i : ℕ) → test_bit (2 ^ k) i ≡ (i == k)
test_bit-pow zero zero = test_bit-zero 1
test_bit-pow zero (suc i) = test_bit-suc 1 i ∙ test_bit-none i ∙ ground arith
test_bit-pow (suc k) zero = test_bit-zero (2 ^ suc k) ∙ ground (arith, pow-suc 2 k)
test_bit-pow (suc k) (suc i) =
    let e : 2 ^ suc k / 2 ≡ 2 ^ k = omega (arith, pow-suc 2 k) in
    test_bit-suc (2 ^ suc k) i ∙ ap (λ t. test_bit t i) e ∙ test_bit-pow k i ∙ ground arith

pub bit_and-le_right : (n a b : ℕ) → a ≤ n → bit_and a b ≤ b
bit_and-le_right n zero b h = omega (arith, zero-bit_and b)
bit_and-le_right zero (suc a) b h = absurd (omega arith)
bit_and-le_right (suc n) (suc a) b h =
    omega (arith, bit_and_step (suc a) b, bit_and-le_right n (suc a / 2) (b / 2) (omega arith))

bit_and-zero : (m : ℕ) → bit_and m 0 ≡ 0
bit_and-zero m = omega (arith, bit_and-le_right m m 0 (omega arith))

bit_and-pow : (i m : ℕ) → bit_and m (2 ^ i) ≡ (if test_bit m i then 2 ^ i else 0)
bit_and-pow zero m = rw (test_bit-zero m) (ground (arith, bit_and_step m 1, bit_and-zero (m / 2)))
bit_and-pow (suc i) m =
    let e : 2 ^ suc i / 2 ≡ 2 ^ i = omega (arith, pow-suc 2 i) in
    let k : bit_and m (2 ^ suc i) ≡ bit_and (m / 2) (2 ^ i) * 2 =
      bit_and_step m (2 ^ suc i)
      ∙ ap (λ t. bit_and (m / 2) t * 2 + min (m % 2) (2 ^ suc i % 2)) e
      ∙ omega (arith, pow-suc 2 i) in
    rw (test_bit-suc m i) (ground (arith, k, bit_and-pow i (m / 2), pow-suc 2 i))

pow-pos : (i : ℕ) → 0 < 2 ^ i
pow-pos zero = omega arith
pow-pos (suc i) = omega (arith, pow-suc 2 i, pow-pos i)

-- `m & (1 << i) == 0`, the source's test, says that bit `i` is clear.
pub bit_and-pow_test : (m i : ℕ) → (bit_and m (2 ^ i) == 0) ≡ not (test_bit m i)
bit_and-pow_test m i = ground (arith, bit_and-pow i m, pow-pos i)

-- The number of zero bits below the lowest set bit, as bits.TrailingZeros64 counts them.
unfoldable pub trailing_zeros : ℕ → ℕ → ℕ
trailing_zeros zero m = 0
trailing_zeros (suc f) m = let r = suc (trailing_zeros f (m / 2)) in if m % 2 == 1 then 0 else r

pub trailing_zeros-test : (f m : ℕ) → m ≢ 0 → m < 2 ^ f → test_bit m (trailing_zeros f m) ≡ true
unfolding trailing_zeros
trailing_zeros-test zero m p q = absurd (p (omega arith))
trailing_zeros-test (suc f) m p q = elim (Bool-cases (m % 2 == 1)) [
  | inl odd ↦ rw odd (test_bit-zero m ∙ odd)
  | inr even ↦
      rw (even, test_bit-suc m (trailing_zeros f (m / 2)))
        (trailing_zeros-test f (m / 2) (λ e. p (ground arith)) (omega (arith, pow-suc 2 f)))
]

pub trailing_zeros-below : (f m j : ℕ) → j < trailing_zeros f m → test_bit m j ≡ false
unfolding trailing_zeros
trailing_zeros-below zero m j h = absurd (omega arith)
trailing_zeros-below (suc f) m zero h = test_bit-zero m ∙ ground arith
trailing_zeros-below (suc f) m (suc j) h =
    test_bit-suc m j ∙ trailing_zeros-below f (m / 2) j (ground arith)

pub test_bit-of-zero : (m j : ℕ) → m ≡ 0 → test_bit m j ≡ false
test_bit-of-zero m j e = rw e (test_bit-none j)

-- `&` of words is a word.
pub bit_and-le : (n a b : ℕ) → a ≤ n → bit_and a b ≤ a
bit_and-le n zero b h = omega (arith, zero-bit_and b)
bit_and-le zero (suc a) b h = absurd (omega arith)
bit_and-le (suc n) (suc a) b h =
    omega (arith, bit_and_step (suc a) b, bit_and-le n (suc a / 2) (b / 2) (omega arith))

-- Whether a property holds of all numbers below a bound, which a table of bits is checked by.
unfoldable pub all_below : ℕ → (ℕ → Bool) → Bool
all_below zero holds = true
all_below (suc bound) holds = all_below bound holds && holds bound

pub all_below-at :
    (bound : ℕ) (holds : ℕ → Bool) (i : ℕ)
    → all_below bound holds ≡ true
    → i < bound
    → holds i ≡ true
unfolding all_below
all_below-at zero holds i table below = elim below [ ]
all_below-at (suc bound) holds i table below = ground (arith, all_below-at bound holds i)
