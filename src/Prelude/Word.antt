-- ===== src/Prelude/Word.antt =====
-- 64-bit words: Go's `uint64` shifts and complement, and their bits.
use Prim.Native.Nat.{ℕ, ◌-◌, ◌*◌, ◌%◌, ◌^◌, ◌<◌}
use mathlib.Core.Path.{◌≡◌, refl}
use mathlib.Core.Bool.{Bool, true, false, not}
use native.Mathlib.Omega.{arith}
use herdr_woof.Prelude.Tests.{ltb, leb}
use herdr_woof.Prelude.Bits.{test_bit, all_below, all_below-at}

abbrev pub max_uint64 : ℕ
max_uint64 = 18446744073709551615

abbrev pub word_mod : ℕ
word_mod = 18446744073709551616

-- `x << k`
abbrev pub shl : ℕ → ℕ → ℕ
shl x k = x * 2 ^ k % word_mod

-- `^x`
abbrev pub complement : ℕ → ℕ
complement x = max_uint64 - x

abbrev pub agree : Bool → Bool → Bool
agree true b = b
agree false b = not b

pub agree→eq : (a b : Bool) → agree a b ≡ true → a ≡ b
agree→eq a b h = ground arith

shl_table :
    all_below 64 (λ k. all_below 64 (λ i. agree (test_bit (shl max_uint64 k) i) (leb k i))) ≡ true
unfolding all_below test_bit
shl_table = refl

complement_table :
    all_below 64
      (λ k. all_below 64 (λ i. agree (test_bit (complement (shl max_uint64 k)) i) (ltb i k)))
    ≡ true
unfolding all_below test_bit
complement_table = refl

star_table : all_below 64 (λ i. agree (test_bit (complement (2 ^ 63)) i) (ltb i 63)) ≡ true
unfolding all_below test_bit
star_table = refl

pub test_bit-shl : (k i : ℕ) → k < 64 → i < 64 → test_bit (shl max_uint64 k) i ≡ leb k i
test_bit-shl k i p q = agree→eq _ _ (all_below-at 64 _ i (all_below-at 64 _ k shl_table p) q)

pub test_bit-complement :
    (k i : ℕ) → k < 64 → i < 64 → test_bit (complement (shl max_uint64 k)) i ≡ ltb i k
test_bit-complement k i p q =
    agree→eq _ _ (all_below-at 64 _ i (all_below-at 64 _ k complement_table p) q)

pub test_bit-star : (i : ℕ) → i < 64 → test_bit (complement (2 ^ 63)) i ≡ ltb i 63
test_bit-star i q = agree→eq _ _ (all_below-at 64 _ i star_table q)
