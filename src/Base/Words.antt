-- ===== src/Base/Words.antt =====
-- Machine words as native numbers, read bit by bit.
use Prim.Native.Nat.{ℕ, zero, suc, ◌-◌, ◌*◌, ◌/◌, ◌%◌, ◌^◌, ◌≤◌, ◌<◌, min, max, bit_and, bit_or}
use mathlib.Core.Path.{◌≡◌, refl}
use native.Mathlib.Omega.{arith}
use native.Mathlib.Nat.{pow-suc, div-div-eq-div-mul, mul_comm}
use Prim.Native.Nat.{bit_and-bitwise, bit_or-bitwise}
use native.Mathlib.Decide.{dec_lt}
use mini_visor_real_device.Base.Tests.{◌==◌, if◌then◌else◌}
use mini_visor_real_device.Base.Digits.{bit_and_halves, bit_or_halves}

-- `x << k` without the loss of high bits, and `x >> k`
infixl 68 ◌<<<◌ ◌>>>◌
abbrev pub ◌<<<◌ : ℕ → ℕ → ℕ
x <<< k = x * 2 ^ k

abbrev pub ◌>>>◌ : ℕ → ℕ → ℕ
x >>> k = x / 2 ^ k

-- `!x` on words of `w` bits
abbrev pub bit_not : ℕ → ℕ → ℕ
bit_not w x = 2 ^ w - 1 - x

-- `x as u32` and the like
abbrev pub as_word : ℕ → ℕ → ℕ
as_word w x = x % 2 ^ w

-- The bit `k` of `x`, as 0 or 1.
pub test_bit : ℕ → ℕ → ℕ
test_bit x zero = x % 2
test_bit x (suc k) = test_bit (x / 2) k

pub test_bit-le : (x k : ℕ) → test_bit x k ≤ 1
unfolding test_bit
test_bit-le x zero = omega arith
test_bit-le x (suc k) = test_bit-le (x / 2) k

pub bit_and_test : (k a b : ℕ) → test_bit (bit_and a b) k ≡ min (test_bit a k) (test_bit b k)
unfolding test_bit
bit_and_test zero a b = omega (arith, bit_and_halves a b)
bit_and_test (suc k) a b =
    let e : bit_and a b / 2 ≡ bit_and (a / 2) (b / 2) = omega (arith, bit_and_halves a b) in
    rw e (bit_and_test k (a / 2) (b / 2))

pub bit_or_test : (k a b : ℕ) → test_bit (bit_or a b) k ≡ max (test_bit a k) (test_bit b k)
unfolding test_bit
bit_or_test zero a b = omega (arith, bit_or_halves a b)
bit_or_test (suc k) a b =
    let e : bit_or a b / 2 ≡ bit_or (a / 2) (b / 2) = omega (arith, bit_or_halves a b) in
    rw e (bit_or_test k (a / 2) (b / 2))

pub zero_test : (k : ℕ) → test_bit 0 k ≡ 0
unfolding test_bit
zero_test zero = refl
zero_test (suc k) = zero_test k

pub pow_test : (n k : ℕ) → test_bit (2 ^ n) k ≡ (if n == k then 1 else 0)
unfolding test_bit
pow_test zero zero = refl
pow_test zero (suc k) = ground (arith, zero_test k)
pow_test (suc n) zero = ground (arith, pow-suc 2 n)
pow_test (suc n) (suc k) =
    let e : 2 ^ suc n / 2 ≡ 2 ^ n = omega (arith, pow-suc 2 n) in
    rw e (ground (arith, pow_test n k))

pub bit_not_test : (w k x : ℕ) → x < 2 ^ w → k < w → test_bit (bit_not w x) k ≡ 1 - test_bit x k
unfolding test_bit
bit_not_test zero k x h lt = elim lt [ ]
bit_not_test (suc w) zero x h lt = omega (arith, pow-suc 2 w)
bit_not_test (suc w) (suc k) x h lt =
    let e : bit_not (suc w) x / 2 ≡ bit_not w (x / 2) = omega (arith, pow-suc 2 w) in
    rw e (bit_not_test w k (x / 2) (omega (arith, pow-suc 2 w)) (omega arith))

zero_bit_and : (b : ℕ) → bit_and 0 b ≡ 0
zero_bit_and b = bit_and-bitwise 0 b

bit_and_bound-zero : (bound x : ℕ) → x ≤ bound → bit_and x 0 ≡ 0
bit_and_bound-zero zero x h = let e : x ≡ 0 = omega arith in rw e refl
bit_and_bound-zero (suc bound) x h =
    omega (arith, bit_and_halves x 0, bit_and_bound-zero bound (x / 2) (omega arith))

pub bit_and-zero : (x : ℕ) → bit_and x 0 ≡ 0
bit_and-zero x = bit_and_bound-zero x x (omega arith)

-- Two words with the same bits are equal.
pub eq_of_test_bit :
    (w a b : ℕ) → a < 2 ^ w → b < 2 ^ w → ((k : ℕ) → k < w → test_bit a k ≡ test_bit b k) → a ≡ b
unfolding test_bit
eq_of_test_bit zero a b ha hb h = omega arith
eq_of_test_bit (suc w) a b ha hb h = omega (
  arith,
  pow-suc 2 w,
  h 0 (omega arith),
  eq_of_test_bit w (a / 2) (b / 2) (omega (arith, pow-suc 2 w)) (omega (arith, pow-suc 2 w))
      (λ k lt. h (suc k) (omega arith)),
)

-- A mask of one bit.
pub bit_and-one : (x : ℕ) → bit_and x 1 ≡ x % 2
bit_and-one x = omega (arith, bit_and_halves x 1, bit_and-zero (x / 2))

pub test_bit-div : (k x : ℕ) → test_bit x k ≡ x / 2 ^ k % 2
unfolding test_bit
test_bit-div zero x = omega arith
test_bit-div (suc k) x =
    rw (test_bit-div k (x / 2), pow-suc 2 k, div-div-eq-div-mul, mul_comm 2 (2 ^ k))

-- `(x >> k) & 1`
pub shift_test : (k x : ℕ) → bit_and (x >>> k) 1 ≡ test_bit x k
shift_test k x = rw (bit_and-one (x >>> k), test_bit-div k x)

bit_and-le : (n a b : ℕ) → a ≤ n → bit_and a b ≤ a
bit_and-le zero a b h = let e : a ≡ 0 = omega arith in rw e (omega (arith, zero_bit_and b))
bit_and-le (suc n) a b h = elim (dec_lt 0 a) [
  | yes p ↦ omega (arith, bit_and_halves a b, bit_and-le n (a / 2) (b / 2) (omega arith))
  | no p ↦ bit_and-le n a b (omega arith)
]

pub bit_and-lt : (w a b : ℕ) → a < 2 ^ w → bit_and a b < 2 ^ w
bit_and-lt w a b h = omega (arith, bit_and-le a a b (omega arith))

pub bit_or-lt : (w a b : ℕ) → a < 2 ^ w → b < 2 ^ w → bit_or a b < 2 ^ w
bit_or-lt zero a b h h' = let e : a ≡ 0 = omega arith in rw e (omega (arith, bit_or-bitwise 0 b))
bit_or-lt (suc w) a b h h' = omega (
  arith,
  pow-suc 2 w,
  bit_or_halves a b,
  bit_or-lt w (a / 2) (b / 2) (omega (arith, pow-suc 2 w)) (omega (arith, pow-suc 2 w)),
)
