-- ===== src/Paging/Walk.antt =====
-- The walk of the translation tables that the architecture defines (granule of 4 KiB, stage 2), and
-- what the tables of src/paging.rs look like to it: each descriptor has its place, a height and the
-- start of the range of addresses that it covers.
use mini_visor_real_device.Base.{
  ℕ, zero, suc, ◌+◌, ◌-◌, ◌*◌, ◌/◌, ◌%◌, ◌^◌, ◌<◌, ◌≤◌, ◌≡◌, refl, ap, sym, arith, true, false,
  ◌&&◌, ◌==◌, ltb, if◌then◌else◌, Option, none, some, ◌≢◌, ◌∙◌, ℕ_discrete,
}
use mini_visor_real_device.Paging.{block_size}
use native.Mathlib.Nat.{one-le-pow, pow-suc, le-div_iff_mul-le, div-lt_iff_lt-mul}

pub block_size-zero : block_size 0 ≡ 4096
unfolding block_size
block_size-zero = refl

pow_next : (n m : ℕ) → m ≡ suc n → 2 ^ m ≡ 2 * 2 ^ n
pow_next n m e = rw e (omega (arith, pow-suc 2 n))

pow_nine : (k : ℕ) → 2 ^ (9 + k) ≡ 512 * 2 ^ k
pow_nine k = omega (
  arith,
  pow_next k (1 + k) (omega arith),
  pow_next (1 + k) (2 + k) (omega arith),
  pow_next (2 + k) (3 + k) (omega arith),
  pow_next (3 + k) (4 + k) (omega arith),
  pow_next (4 + k) (5 + k) (omega arith),
  pow_next (5 + k) (6 + k) (omega arith),
  pow_next (6 + k) (7 + k) (omega arith),
  pow_next (7 + k) (8 + k) (omega arith),
  pow_next (8 + k) (9 + k) (omega arith),
)

pub block_size-suc : (h : ℕ) → block_size (suc h) ≡ 512 * block_size h
unfolding block_size
block_size-suc h =
    let e : 12 + 9 * suc h ≡ 9 + (12 + 9 * h) = omega arith in
    rw e (omega (arith, pow_nine (12 + 9 * h)))

pub block_size_pos : (h : ℕ) → 1 ≤ block_size h
unfolding block_size
block_size_pos h = omega (arith, one-le-pow (12 + 9 * h) 2)

-- Bits 51 to 12, the address in a descriptor.
abbrev pub address_field : ℕ → ℕ
address_field d = d / 4096 % 2 ^ 40 * 4096

-- The walk from the descriptor at an address, with the heights below it.
-- The next descriptor of a walk.
abbrev pub child : (height d x : ℕ) → ℕ
child height d x = address_field d + 8 * (x / block_size height % 512)

-- A descriptor that is no table: at the heights 1 and 2 it may be a block.
unfoldable pub block_output : (height d x : ℕ) → Option ℕ
block_output height d x =
    if d % 4 == 1 && ltb height 3
    then some (address_field d / block_size height * block_size height + x % block_size height)
    else none

unfoldable pub translate : (height address : ℕ) → (memory : ℕ → ℕ) → (ipa : ℕ) → Option ℕ
translate zero a memory x =
    if memory a % 4 == 3 then some (address_field (memory a) + x % 4096) else none
translate (suc h) a memory x =
    if memory a % 4 == 3
    then translate h (child h (memory a) x) memory x
    else block_output (suc h) (memory a) x

pub translate_table :
    (h a x : ℕ) (memory : ℕ → ℕ)
    → memory a % 4 ≡ 3
    → translate (suc h) a memory x ≡ translate h (child h (memory a) x) memory x
unfolding translate
translate_table h a x memory e = let t : (memory a % 4 == 3) ≡ true = rw e refl in rw t refl

pub translate_leaf :
    (h a x : ℕ) (memory : ℕ → ℕ)
    → memory a % 4 ≢ 3
    → translate (suc h) a memory x ≡ block_output (suc h) (memory a) x
unfolding translate
translate_leaf h a x memory n = let t : (memory a % 4 == 3) ≡ false = ground arith in rw t refl

pub translate_page :
    (a x : ℕ) (memory : ℕ → ℕ)
    → memory a % 4 ≡ 3
    → translate 0 a memory x ≡ some (address_field (memory a) + x % 4096)
unfolding translate
translate_page a x memory e = let t : (memory a % 4 == 3) ≡ true = rw e refl in rw t refl

translate_zero :
    (a x : ℕ) (memory memory' : ℕ → ℕ)
    → memory' a ≡ memory a
    → translate 0 a memory' x ≡ translate 0 a memory x
unfolding translate
translate_zero a x memory memory' e = rw e refl

-- The height and the start of the range of each descriptor that is in use.
abbrev pub Places : Type 0
Places = ℕ → Option (ℕ × ℕ)

-- A table is linked at one place, where its range is that of the descriptor that links it.
pub record IsLaid (place : Places) (memory : ℕ → ℕ) : Type 0 where
  pub linked :
      (a h s : ℕ)
      → place a ≡ some (suc h, s)
      → memory a % 4 ≡ 3
      → (j : ℕ) → j < 512
      → place (address_field (memory a) + 8 * j) ≡ some (h, s + j * block_size h)
  pub aligned : (a h s : ℕ) → place a ≡ some (h, s) → (q : ℕ) × (s ≡ q * block_size h)

-- Two memories agree on the descriptors of a range.
abbrev pub AgreeOn : Places → (ℕ → ℕ) → (ℕ → ℕ) → (start end : ℕ) → Type 0
AgreeOn place memory memory' start end =
    (a h s : ℕ) → place a ≡ some (h, s) → start ≤ s → s + block_size h ≤ end → memory' a ≡ memory a

-- The number of an aligned range, and the offset in it.
pub div_in : (b q x : ℕ) → 1 ≤ b → q * b ≤ x → x < q * b + b → x / b ≡ q
div_in b q x p lo hi =
    let l : q ≤ x / b = (le-div_iff_mul-le p).1 lo in
    let u : x / b < q + 1 = (div-lt_iff_lt-mul p).1 (omega arith) in omega arith

pub mod_in : (b q x : ℕ) → 1 ≤ b → q * b ≤ x → x < q * b + b → x % b ≡ x - q * b
mod_in b q x p lo hi =
    let e : x / b ≡ q = div_in b q x p lo hi in
    let f : x / b * b ≡ q * b = ap (λ t. t * b) e in
    let r : x ≡ x / b * b + x % b = grind arith in omega arith

-- The entry of a table of n descriptors whose range holds an address.
pub index_range :
    (n b q x : ℕ)
    → 1 ≤ n
    → 1 ≤ b
    → q * (n * b) ≤ x
    → x < q * (n * b) + n * b
    → (x / b % n < n) × (q * (n * b) + x / b % n * b ≤ x) × (x < q * (n * b) + x / b % n * b + b)
index_range n b q x pn p lo hi =
    let l : q * n ≤ x / b = (le-div_iff_mul-le p).1 (grind arith) in
    let u : x / b < q * n + n = (div-lt_iff_lt-mul p).1 (grind arith) in
    let i = mod_in n q (x / b) pn l u in
    let e : x / b ≡ q * n + x / b % n = omega arith in
    let f : x / b * b ≡ q * (n * b) + x / b % n * b = ap (λ t. t * b) e ∙ grind arith in
    let r : x ≡ x / b * b + x % b = grind arith in
    let k : x % b < b = omega arith in (omega arith, omega arith, omega arith)

pub child_range :
    (b q x : ℕ)
    → 1 ≤ b
    → q * (512 * b) ≤ x
    → x < q * (512 * b) + 512 * b
    → (q * (512 * b) + x / b % 512 * b ≤ x)
      × (x < q * (512 * b) + x / b % 512 * b + b)
      × (x / b % 512 * b + b ≤ 512 * b)
child_range b q x p lo hi =
    let c = index_range 512 b q x (omega arith) p lo hi in (c.1, c.2, grind (arith, c.0))

pub translate-frame :
    (place : Places) (memory memory' : ℕ → ℕ) (h a s x : ℕ)
    → IsLaid place memory
    → place a ≡ some (h, s)
    → s ≤ x
    → x < s + block_size h
    → AgreeOn place memory memory' s (s + block_size h)
    → translate h a memory' x ≡ translate h a memory x
translate-frame place m m' zero a s x w p lo hi agree =
    translate_zero a x m m' (agree a 0 s p (omega arith) (omega arith))
translate-frame place m m' (suc h) a s x w p lo hi agree =
    let e : m' a ≡ m a = agree a (suc h) s p (omega arith) (omega arith) in
    let (q, eq) = w.aligned a (suc h) s p in
    let b : block_size (suc h) ≡ 512 * block_size h = block_size-suc h in
    let eq' : s ≡ q * (512 * block_size h) = rw b at eq in
    elim (ℕ_discrete (m a % 4) 3) [
      | yes t ↦
          let c = child_range (block_size h) q x (block_size_pos h) (omega arith) (omega arith) in
          let j = x / block_size h % 512 in
          let sub : translate h (child h (m a) x) m' x ≡ translate h (child h (m a) x) m x =
            translate-frame place m m' h (child h (m a) x) (s + j * block_size h) x w
              (w.linked a h s p t j (omega arith)) (omega arith) (omega arith)
              (λ a' h' s' p' l r. agree a' h' s' p' (omega arith) (omega arith)) in
          translate_table h a x m' (rw e t)
          ∙ (ap (λ d. translate h (child h d x) m' x) e ∙ (sub ∙ sym (translate_table h a x m t)))
      | no f ↦
          translate_leaf h a x m' (rw e f)
          ∙ (ap (λ d. block_output (suc h) d x) e ∙ sym (translate_leaf h a x m f))
    ]
