-- ===== src/VirtioBlk/Bitmap.antt =====
-- The bitmap of free descriptors of src/drivers/virtio_blk.rs: which descriptor is taken, and that
-- giving it back undoes it.
use mini_visor_real_device.Base.{
  ℕ, zero, suc, ◌+◌, ◌-◌, ◌*◌, ◌^◌, ◌<◌, ◌≤◌, ◌≡◌, refl, ap, subst, ◌∙◌, inl, inr, bit_and, bit_not,
  Option, none, some, List, [], ◌∷◌, ◌!=◌, ◌==◌, ltb, if◌then◌else◌, if-elim, bit_and_shifted,
  shift_test, Bool-cases, length, ◌<<<◌, arith, test_bit, test_bit-le, bit_and_test, pow_test,
  bit_not_test, bit_and-lt,
}
use native.Mathlib.Nat.{one-le-pow, pow-le-pow_right, pow-suc}
use mini_visor_real_device.VirtioBlk.{VirtioBlk, first_bit, take_descriptor, allocate_descriptor}

-- Descriptor `i` is free: its bit is set.
unfoldable pub free_bit : List ℕ → ℕ → ℕ
free_bit [] i = 0
free_bit (c ∷ cs) i = if ltb i 8 then test_bit c i else free_bit cs (i - 8)

abbrev pub AllBytes : List ℕ → Type 0
AllBytes [] = Unit
AllBytes (c ∷ cs) = (c < 2 ^ 8) × AllBytes cs

times-bit : (x p : ℕ) → x ≤ 1 → 1 ≤ p → (x * p != 0) ≡ (x == 1)
times-bit zero p h q = ground arith
times-bit (suc zero) p h q = ground arith
times-bit (suc (suc x)) p h q = absurd (omega arith)

pub pow-lt-byte : (k : ℕ) → k < 8 → 2 ^ k < 2 ^ 8
pow-lt-byte k h =
    let up : 2 ^ suc k ≤ 2 ^ 8 = pow-le-pow_right (omega arith) h in
    let pos : 1 ≤ 2 ^ k = one-le-pow k 2 (omega arith) in omega (arith, pow-suc 2 k)

mask_test : (c k : ℕ) → (bit_and c (1 <<< k) != 0) ≡ (test_bit c k == 1)
mask_test c k =
    let e : bit_and c (1 <<< k) ≡ test_bit c k * 2 ^ k =
      bit_and_shifted k c 1 ∙ ap (λ x. x * 2 ^ k) (shift_test k c) in
    rw e (times-bit (test_bit c k) (2 ^ k) (test_bit-le c k) (one-le-pow k 2 (omega arith)))

-- The lowest set bit of those from `bit` on.
unfoldable pub Lowest : (n bit c : ℕ) → Option ℕ → Type 0
Lowest n bit c none = (k : ℕ) → bit ≤ k → k < bit + n → test_bit c k ≡ 0
Lowest n bit c (some b) =
    (bit ≤ b) × (b < bit + n) × (test_bit c b ≡ 1) × ((k : ℕ) → bit ≤ k → k < b → test_bit c k ≡ 0)

from_next :
    (bit last c : ℕ)
    → test_bit c bit ≡ 0
    → ((k : ℕ) → bit + 1 ≤ k → k < last → test_bit c k ≡ 0)
    → (k : ℕ) → bit ≤ k
    → k < last
    → test_bit c k ≡ 0
from_next bit last c z f k h h' = elim (Bool-cases (bit == k)) [
  | inl same ↦ let e : bit ≡ k = ground arith in subst (λ i. test_bit c i ≡ 0) e z
  | inr other ↦ f k (ground arith) h'
]

Lowest-next :
    (n bit c : ℕ) (o : Option ℕ)
    → test_bit c bit ≡ 0
    → Lowest n (bit + 1) c o
    → Lowest (suc n) bit c o
unfolding Lowest
Lowest-next n bit c none z low = from_next bit (bit + suc n) c z (λ k h h'. low k h (omega arith))
Lowest-next n bit c (some b) z (lo, hi, one, below) =
    (omega arith, omega arith, one, from_next bit b c z below)

first_bit-Lowest : (n bit c : ℕ) → Lowest n bit c (first_bit n bit c)
unfolding first_bit Lowest
first_bit-Lowest zero bit c = λ k h h'. absurd (omega arith)
first_bit-Lowest (suc n) bit c =
    if-elim (Lowest (suc n) bit c) (bit_and c (1 <<< bit) != 0)
      (λ h.
        (omega arith, omega arith, ground (arith, mask_test c bit), λ k a b. absurd (omega arith)))
      (λ h.
        Lowest-next n bit c (first_bit n (bit + 1) c)
          (ground (arith, mask_test c bit, test_bit-le c bit)) (first_bit-Lowest n (bit + 1) c))

-- What an allocation promises, over bytes whose first descriptor is number `base`: the lowest free
-- descriptor is taken and no other one changes; none is the answer where none is free.
unfoldable pub Taken : (base : ℕ) → List ℕ → Option (ℕ × List ℕ) → Type 0
Taken base cs none = (k : ℕ) → free_bit cs k ≡ 0
Taken base cs (some (found, cs')) =
    (i : ℕ) × (found ≡ base + i)
    × (i < 8 * length cs)
    × (free_bit cs i ≡ 1)
    × ((k : ℕ) → k < i → free_bit cs k ≡ 0)
    × (length cs' ≡ length cs)
    × AllBytes cs'
    × ((k : ℕ) → free_bit cs' k ≡ (if i == k then 0 else free_bit cs k))

clear_test :
    (c bit k : ℕ)
    → c < 2 ^ 8
    → bit < 8
    → k < 8
    → test_bit (bit_and c (bit_not 8 (1 <<< bit))) k ≡ (if bit == k then 0 else test_bit c k)
clear_test c bit k small hb hk =
    let e : 1 <<< bit ≡ 2 ^ bit = omega arith in
    rw e (
      ground (
        arith,
        bit_and_test k c (bit_not 8 (2 ^ bit)),
        bit_not_test 8 k (2 ^ bit),
        pow-lt-byte bit,
        pow_test bit k,
        test_bit-le c k,
      ))

Taken-here :
    (byte bit c : ℕ) (cs : List ℕ)
    → AllBytes (c ∷ cs)
    → Lowest 8 0 c (some bit)
    → Taken (byte * 8) (c ∷ cs) (some (byte * 8 + bit, bit_and c (bit_not 8 (1 <<< bit)) ∷ cs))
unfolding Taken Lowest free_bit
Taken-here byte bit c cs (small, bytes) (lo, hi, one, below) = (
  bit,
  refl,
  omega arith,
  ground arith,
  λ k lt. ground (arith, below k),
  refl,
  (bit_and-lt 8 c _ small, bytes),
  λ k. ground (arith, clear_test c bit k),
)

Taken-there :
    (byte c : ℕ) (cs : List ℕ) (o : Option (ℕ × List ℕ))
    → AllBytes (c ∷ cs)
    → Lowest 8 0 c none
    → Taken ((byte + 1) * 8) cs o
    → Taken (byte * 8) (c ∷ cs) (elim o [ some (found, cs') ↦ some (found, c ∷ cs') | none ↦ none ])
unfolding Taken Lowest free_bit
Taken-there byte c cs none (small, bytes) low rest = λ k. ground (arith, low k, rest (k - 8))
Taken-there byte c cs (some (found, cs')) (small, bytes) low
      (i, at, lt, one, below, same, bytes', others) =
    let e : i ≡ i + 8 - 8 = omega arith in
    let here : free_bit cs (i + 8 - 8) ≡ 1 = subst (λ x. free_bit cs x ≡ 1) e one in
    (
      i + 8,
      omega arith,
      omega arith,
      ground arith,
      λ k h. ground (arith, low k, below (k - 8)),
      omega arith,
      (small, bytes'),
      λ k. ground (arith, others (k - 8)),
    )

take_descriptor-Taken :
    (byte : ℕ) (cs : List ℕ) → AllBytes cs → Taken (byte * 8) cs (take_descriptor byte cs)
unfolding take_descriptor Taken free_bit
take_descriptor-Taken byte [] h = λ k. refl
take_descriptor-Taken byte (c ∷ cs) (small, bytes) =
    split (first_bit 8 0 c) (first_bit-Lowest 8 0 c) (take_descriptor-Taken (byte + 1) cs bytes)
  where
    split :
        (o : Option ℕ)
        → Lowest 8 0 c o
        → Taken ((byte + 1) * 8) cs (take_descriptor (byte + 1) cs)
        → Taken (byte * 8) (c ∷ cs) (elim o [
          | some bit ↦ some (byte * 8 + bit, bit_and c (bit_not 8 (1 <<< bit)) ∷ cs)
          | none ↦ elim (take_descriptor (byte + 1) cs) [
            | some (found, cs') ↦ some (found, c ∷ cs')
            | none ↦ none
          ]
        ])
    split (some bit) low rest = Taken-here byte bit c cs (small, bytes) low
    split none low rest = Taken-there byte c cs _ (small, bytes) low rest

-- The eight bytes of the source's array.
pub record IsBitmap (cs : List ℕ) : Type 0 where
  pub size : length cs ≡ 8
  pub bytes : AllBytes cs

-- What allocate_descriptor promises.
unfoldable pub Allocated : VirtioBlk → Option (ℕ × VirtioBlk) → Type 0
Allocated b none = (k : ℕ) → free_bit b.free_bitmap k ≡ 0
Allocated b (some (i, b')) =
    (i < 64)
    × (free_bit b.free_bitmap i ≡ 1)
    × ((k : ℕ) → k < i → free_bit b.free_bitmap k ≡ 0)
    × (b' ≡ record b { free_bitmap = b'.free_bitmap })
    × IsBitmap b'.free_bitmap
    × ((k : ℕ) → free_bit b'.free_bitmap k ≡ (if i == k then 0 else free_bit b.free_bitmap k))

-- allocate_descriptor takes the lowest free descriptor, which is below 64, and changes nothing but
-- that descriptor's bit; it returns None exactly where no descriptor is free.
pub allocate_descriptor-Allocated :
    (b : VirtioBlk) → IsBitmap b.free_bitmap → Allocated b (allocate_descriptor b)
unfolding allocate_descriptor Taken Allocated
allocate_descriptor-Allocated b h =
    from (take_descriptor 0 b.free_bitmap) (take_descriptor-Taken 0 b.free_bitmap h.bytes)
  where
    from :
        (o : Option (ℕ × List ℕ))
        → Taken 0 b.free_bitmap o
        → Allocated b (elim o [
          | some (found, bitmap) ↦ some (found, record b { free_bitmap = bitmap })
          | none ↦ none
        ])
    from none all = all
    from (some (found, cs')) (i, at, lt, one, below, same, bytes, others) =
        let e : found ≡ i = omega arith in
        let size : length cs' ≡ 8 = same ∙ h.size in
        rw e
          (omega (arith, h.size), one, below, refl, record { size = size; bytes = bytes }, others)
