-- ===== src/Base/Digits.antt =====
-- The native bit operations peel off the lowest binary digit.
use Prim.Native.Nat.{
  ℕ, zero, suc, ◌+◌, ◌*◌, ◌/◌, ◌%◌, ◌≤◌, min, max, digits, bit_and, bit_or, bit_and-bitwise,
  bit_or-bitwise, bitwise,
}
use mathlib.Core.Path.{◌≡◌, refl, ap}
use native.Mathlib.Omega.{arith}

-- The recursion behind the native operations takes fuel: `rest` fills the missing digits of the first
-- number, `op` joins two digits.
module _ (rest : ℕ → ℕ) (op : ℕ → ℕ → ℕ) where
  -- Two amounts of fuel that both reach the number give one result.
  fuel-irrelevant : (x y u v : ℕ) → x ≤ u → x ≤ v → digits rest op u x y ≡ digits rest op v x y
  fuel-irrelevant (suc x) y zero v h k = absurd (omega arith)
  fuel-irrelevant (suc x) y (suc u) zero h k = absurd (omega arith)
  fuel-irrelevant zero y zero zero h k = refl
  fuel-irrelevant zero y zero (suc v) h k = refl
  fuel-irrelevant zero y (suc u) zero h k = refl
  fuel-irrelevant zero y (suc u) (suc v) h k = refl
  fuel-irrelevant (suc x) y (suc u) (suc v) h k =
      let half : suc x / 2 ≤ u = omega arith in
      let half' : suc x / 2 ≤ v = omega arith in
      ap (λ w. w * 2 + op (suc x % 2) (y % 2)) (fuel-irrelevant (suc x / 2) (y / 2) u v half half')

  lowest-digit :
      (x y : ℕ)
      → bitwise rest op (suc x) y ≡ bitwise rest op (suc x / 2) (y / 2) * 2 + op (suc x % 2) (y % 2)
  lowest-digit x y =
      let half : suc x / 2 ≤ x = omega arith in
      let whole : suc x / 2 ≤ suc x / 2 = omega arith in
      ap (λ w. w * 2 + op (suc x % 2) (y % 2))
        (fuel-irrelevant (suc x / 2) (y / 2) x (suc x / 2) half whole)

pub bit_and_halves : (x y : ℕ) → bit_and x y ≡ bit_and (x / 2) (y / 2) * 2 + min (x % 2) (y % 2)
bit_and_halves (suc x) y = simp bit_and-bitwise (lowest-digit (λ _. 0) min x y)
bit_and_halves zero y = simp bit_and-bitwise (omega arith)

pub bit_or_halves : (x y : ℕ) → bit_or x y ≡ bit_or (x / 2) (y / 2) * 2 + max (x % 2) (y % 2)
bit_or_halves (suc x) y = simp bit_or-bitwise (lowest-digit (λ w. w) max x y)
bit_or_halves zero y = simp bit_or-bitwise (omega arith)
