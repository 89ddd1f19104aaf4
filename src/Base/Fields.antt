-- ===== src/Base/Fields.antt =====
-- Words as fields of bits: `|` of disjoint fields is a sum, `&` with a mask selects a field.
use Prim.Native.Nat.{
  ℕ, zero, suc, ◌+◌, ◌-◌, ◌*◌, ◌/◌, ◌%◌, ◌^◌, ◌≤◌, ◌<◌, bit_and, bit_or, bit_or-bitwise,
}
use mathlib.Core.Path.{◌≡◌, refl, ap}
use native.Mathlib.Omega.{arith}
use native.Mathlib.Nat.{pow-suc, one-le-pow}
use mini_visor_real_device.Base.Digits.{bit_and_halves, bit_or_halves}
use mini_visor_real_device.Base.Words.{◌<<<◌, bit_and-zero}

bit_or_bound-zero : (bound x : ℕ) → x ≤ bound → bit_or x 0 ≡ x
bit_or_bound-zero zero x h = let e : x ≡ 0 = omega arith in rw e refl
bit_or_bound-zero (suc bound) x h =
    omega (arith, bit_or_halves x 0, bit_or_bound-zero bound (x / 2) (omega arith))

pub bit_or-zero : (x : ℕ) → bit_or x 0 ≡ x
bit_or-zero x = bit_or_bound-zero x x (omega arith)

-- A product with a power of two, one power further.
double : (q k : ℕ) → q * 2 ^ suc k ≡ 2 * (q * 2 ^ k)
double q k = omega (arith, ap (λ (t : ℕ). q * t) (pow-suc 2 k))

-- The operations work on high and low fields apart.
pub bit_or_split :
    (k q q' r r' : ℕ)
    → r < 2 ^ k
    → r' < 2 ^ k
    → bit_or (q * 2 ^ k + r) (q' * 2 ^ k + r') ≡ bit_or q q' * 2 ^ k + bit_or r r'
bit_or_split zero q q' r r' h h' = ground (arith, bit_or-zero 0)
bit_or_split (suc k) q q' r r' h h' = ground (
  arith,
  bit_or_halves (q * 2 ^ suc k + r) (q' * 2 ^ suc k + r'),
  bit_or_halves r r',
  double q k,
  double q' k,
  double (bit_or q q') k,
  pow-suc 2 k,
  bit_or_split k q q' (r / 2) (r' / 2),
)

pub bit_and_split :
    (k q q' r r' : ℕ)
    → r < 2 ^ k
    → r' < 2 ^ k
    → bit_and (q * 2 ^ k + r) (q' * 2 ^ k + r') ≡ bit_and q q' * 2 ^ k + bit_and r r'
bit_and_split zero q q' r r' h h' = ground (arith, bit_and-zero 0)
bit_and_split (suc k) q q' r r' h h' = ground (
  arith,
  bit_and_halves (q * 2 ^ suc k + r) (q' * 2 ^ suc k + r'),
  bit_and_halves r r',
  double q k,
  double q' k,
  double (bit_and q q') k,
  pow-suc 2 k,
  bit_and_split k q q' (r / 2) (r' / 2),
)

zero-bit_or : (a : ℕ) → bit_or 0 a ≡ a
zero-bit_or a = bit_or-bitwise 0 a

-- `(q << k) | r`
pub bit_or_fields : (k q r : ℕ) → r < 2 ^ k → bit_or (q <<< k) r ≡ q * 2 ^ k + r
bit_or_fields k q r h =
    ground (arith, bit_or_split k q 0 0 r, bit_or-zero q, zero-bit_or r, one-le-pow k 2)

bit_and_low : (k r : ℕ) → r < 2 ^ k → bit_and r (2 ^ k - 1) ≡ r
bit_and_low zero r h = omega (arith, bit_and-zero r)
bit_and_low (suc k) r h =
    let e : (2 ^ suc k - 1) / 2 ≡ 2 ^ k - 1 = omega (arith, pow-suc 2 k, one-le-pow k 2) in
    let b : (2 ^ suc k - 1) % 2 ≡ 1 = omega (arith, pow-suc 2 k, one-le-pow k 2) in
    ground (arith, bit_and_halves r (2 ^ suc k - 1), pow-suc 2 k, bit_and_low k (r / 2))

-- `x & (2^k - 1)`
pub bit_and_mask : (k a : ℕ) → bit_and a (2 ^ k - 1) ≡ a % 2 ^ k
bit_and_mask k a = ground (
  arith,
  one-le-pow k 2,
  bit_and_split k (a / 2 ^ k) 0 (a % 2 ^ k) (2 ^ k - 1),
  bit_and-zero (a / 2 ^ k),
  bit_and_low k (a % 2 ^ k),
)

-- `x & (m << k)`
pub bit_and_shifted : (k a m : ℕ) → bit_and a (m <<< k) ≡ bit_and (a / 2 ^ k) m * 2 ^ k
bit_and_shifted k a m =
    ground
      (arith, one-le-pow k 2, bit_and_split k (a / 2 ^ k) m (a % 2 ^ k) 0, bit_and-zero (a % 2 ^ k))

-- An aligned word and one that fits below it.
pub bit_or_add : (k x y : ℕ) → x % 2 ^ k ≡ 0 → y < 2 ^ k → bit_or x y ≡ x + y
bit_or_add k x y h lt =
    let e : x ≡ x / 2 ^ k * 2 ^ k = grind arith in
    let s : bit_or (x / 2 ^ k * 2 ^ k) y ≡ x / 2 ^ k * 2 ^ k + y =
      bit_or_fields k (x / 2 ^ k) y lt in
    ground (arith, ap (λ (t : ℕ). bit_or t y) e)

bit_or_comm_fuel : (n a b : ℕ) → a ≤ n → b ≤ n → bit_or a b ≡ bit_or b a
bit_or_comm_fuel zero a b p q =
    let e : a ≡ 0 = omega arith in let e' : b ≡ 0 = omega arith in rw (e, e')
bit_or_comm_fuel (suc n) a b p q = omega (
  arith,
  bit_or_halves a b,
  bit_or_halves b a,
  bit_or_comm_fuel n (a / 2) (b / 2) (omega arith) (omega arith),
)

pub bit_or_comm : (a b : ℕ) → bit_or a b ≡ bit_or b a
bit_or_comm a b = bit_or_comm_fuel (a + b) a b (omega arith) (omega arith)
