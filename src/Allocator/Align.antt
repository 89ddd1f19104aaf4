-- ===== src/Allocator/Align.antt =====
-- src/memory_allocator.rs: the arithmetic of sizes and alignments.
use mini_visor_real_device.Base.{
  ℕ, zero, suc, ◌+◌, ◌-◌, ◌*◌, ◌/◌, ◌%◌, ◌^◌, ◌<◌, ◌≤◌, ◌≡◌, ◌⊎◌, inl, inr, refl, ap, arith,
  bit_and, ltb, ◌==◌, if◌then◌else◌, bit_not, ◌<<<◌, bit_and_mask, Bool-cases, bit_and_halves,
  if-elim, dec_lt,
}
use native.Mathlib.Nat.{one-le-pow, pow-suc, div-div-eq-div-mul, mul_comm, mod-eq_of_lt}

abbrev pub page_shift : ℕ
page_shift = 12

-- The loop of size_to_page_order, with the rounds that are left before the last order.
unfoldable pub page_order_loop : (rounds order size : ℕ) → ℕ
page_order_loop zero order size = order
page_order_loop (suc n) order size =
    let rest = page_order_loop n (order + 1) size in
    if ltb (1 <<< (order + page_shift)) size then rest else order

unfoldable pub size_to_page_order : ℕ → ℕ
unfolding page_order_loop
size_to_page_order size = page_order_loop 11 0 size

-- `!(align_size - 1)` on a usize
abbrev pub align_mask : ℕ → ℕ
align_mask align_order = bit_not 64 (1 <<< align_order - 1)

unfoldable pub align_address_and_size : (address size align_order : ℕ) → ℕ × ℕ
align_address_and_size address size align_order =
    let align_size = 1 <<< align_order in
    let aligned_address = bit_and address (align_mask align_order) in
    (
      aligned_address,
      bit_and (size + (address - aligned_address) - 1) (align_mask align_order) + align_size,
    )

unfoldable pub align_address_and_available_size : (start size align_order : ℕ) → ℕ × ℕ
align_address_and_available_size start size align_order =
    if start == 0
    then (0, size)
    else let align_size = 1 <<< align_order in
      let aligned_address = bit_and (start - 1) (align_mask align_order) + align_size in
      if ltb (aligned_address - start) size
      then (aligned_address, size - (aligned_address - start))
      else (aligned_address, 0)

unfoldable pub get_end_address : (address size : ℕ) → ℕ
get_end_address address size = address + size - 1

round_down : (w k a : ℕ) → k ≤ w → a < 2 ^ w → bit_and a (2 ^ w - 2 ^ k) ≡ a / 2 ^ k * 2 ^ k
round_down w zero a h lt = omega (arith, bit_and_mask w a, mod-eq_of_lt lt)
round_down zero (suc k) a h lt = elim h [ ]
round_down (suc w) (suc k) a h lt =
    let e : (2 ^ suc w - 2 ^ suc k) / 2 ≡ 2 ^ w - 2 ^ k = omega (arith, pow-suc 2 w, pow-suc 2 k) in
    let b : (2 ^ suc w - 2 ^ suc k) % 2 ≡ 0 = omega (arith, pow-suc 2 w, pow-suc 2 k) in
    let q : a / 2 / 2 ^ k ≡ a / 2 ^ suc k =
      rw (div-div-eq-div-mul, mul_comm 2 (2 ^ k), pow-suc 2 k) in
    let ih : bit_and (a / 2) (2 ^ w - 2 ^ k) ≡ a / 2 ^ suc k * 2 ^ k =
      rw q at (round_down w k (a / 2) (omega arith) (omega (arith, pow-suc 2 w))) in
    omega (
      arith,
      bit_and_halves a (2 ^ suc w - 2 ^ suc k),
      ap (λ (t : ℕ). bit_and (a / 2) t) e,
      ih,
      ap (λ (t : ℕ). a / 2 ^ suc k * t) (pow-suc 2 k),
    )

-- A mask of the high bits rounds down to a multiple of 2^k.
pub align_mask_lem : (k a : ℕ) → k ≤ 64 → a < 2 ^ 64 → bit_and a (align_mask k) ≡ a / 2 ^ k * 2 ^ k
align_mask_lem k a h lt =
    let e : align_mask k ≡ 2 ^ 64 - 2 ^ k = omega (arith, one-le-pow k 2) in
    rw e (round_down 64 k a h lt)

-- The order is that of the smallest list whose sizes reach `size`: no list below it does, and it does
-- itself unless it is the last one.
pub record IsPageOrder (size order : ℕ) : Type 0 where
  pub below : order < 12
  pub reaches : (size ≤ 2 ^ (order + 12)) ⊎ (order ≡ 11)
  pub smaller : (o : ℕ) → o < order → 2 ^ (o + 12) < size

page_order_loop-IsPageOrder :
    (n order size : ℕ)
    → order + n ≡ 11
    → ((o : ℕ) → o < order → 2 ^ (o + 12) < size)
    → IsPageOrder size (page_order_loop n order size)
unfolding page_order_loop
page_order_loop-IsPageOrder zero order size h least = record {
  below = omega arith;
  reaches = inr (omega arith);
  smaller = least;
}
page_order_loop-IsPageOrder (suc n) order size h least =
    if-elim (IsPageOrder size) (ltb (1 <<< (order + page_shift)) size)
      (λ more. page_order_loop-IsPageOrder n (order + 1) size (omega arith) (λ o lt.
        elim (dec_lt o order) [
          | yes below ↦ least o below
          | no last ↦ let e : o ≡ order = omega arith in rw e (ground arith)
        ]))
      (λ fits. record { below = omega arith; reaches = inl (ground arith); smaller = least })

-- For every size, size_to_page_order returns an order below 12 whose list reaches the size, unless it
-- is the last order, and no smaller order does.
pub size_to_page_order-IsPageOrder : (size : ℕ) → IsPageOrder size (size_to_page_order size)
unfolding size_to_page_order
size_to_page_order-IsPageOrder size = page_order_loop-IsPageOrder 11 0 size refl (λ o h. elim h [ ])

-- `(a, s)` is the least range of whole blocks of 2^k bytes that covers `size` bytes from `address`.
pub record IsRoundedOut (k address size a s : ℕ) : Type 0 where
  pub first : (q : ℕ) × (a ≡ q * 2 ^ k)
  pub blocks : (q : ℕ) × (s ≡ q * 2 ^ k)
  pub starts : (a ≤ address) × (address < a + 2 ^ k)
  pub ends : (address + size ≤ a + s) × (a + s < address + size + 2 ^ k)

-- align_address_and_size rounds a range that is not empty out to whole blocks, where no sum overflows.
pub align_address_and_size-IsRoundedOut :
    (address size k : ℕ)
    → k < 64
    → 0 < size
    → address + size + 2 ^ k ≤ 2 ^ 64
    → IsRoundedOut k address size
        (align_address_and_size address size k).0
        (align_address_and_size address size k).1
unfolding align_address_and_size
align_address_and_size-IsRoundedOut address size k lt pos fits =
    let p = one-le-pow k 2 in
    let m = align_mask_lem k address (omega arith) (omega arith) in
    let off : ℕ = address - address / 2 ^ k * 2 ^ k in
    let n : bit_and (size + off - 1) (align_mask k) ≡ (size + off - 1) / 2 ^ k * 2 ^ k =
      align_mask_lem k (size + off - 1) (omega arith) (omega arith) in
    rw (m, n)
      (record {
        first = (address / 2 ^ k, refl);
        blocks = ((size + off - 1) / 2 ^ k + 1, grind (arith, p));
        starts = grind (arith, p);
        ends = grind (arith, p);
      })

-- The first multiple of 2^k from `start` on, and what `size` bytes from `start` leave behind it.
pub record IsRoundedUp (k start size a available : ℕ) : Type 0 where
  pub multiple : (q : ℕ) × (a ≡ q * 2 ^ k)
  pub near : (start ≤ a) × (a < start + 2 ^ k)
  pub left : available ≡ start + size - a

IsRoundedUp-tests :
    (start size k : ℕ)
    → 0 < start
    → let a : ℕ = (start - 1) / 2 ^ k * 2 ^ k + 1 <<< k in
      let r : ℕ × ℕ = if ltb (a - start) size then (a, size - (a - start)) else (a, 0) in
      IsRoundedUp k start size r.0 r.1
IsRoundedUp-tests start size k pos =
    let p = one-le-pow k 2 in
    let a : ℕ = (start - 1) / 2 ^ k * 2 ^ k + 1 <<< k in
    let m : (q : ℕ) × (a ≡ q * 2 ^ k) = ((start - 1) / 2 ^ k + 1, grind (arith, p)) in
    let n : (start ≤ a) × (a < start + 2 ^ k) = grind (arith, p) in
    elim (Bool-cases (ltb (a - start) size)) [
      | inl more ↦ rw more (record { multiple = m; near = n; left = ground arith })
      | inr less ↦ rw less (record { multiple = m; near = n; left = ground arith })
    ]

-- align_address_and_available_size rounds the start of a free range up to a multiple of 2^k, and returns
-- the bytes of the range from there on, where no sum overflows.
pub align_address_and_available_size-IsRoundedUp :
    (start size k : ℕ)
    → k < 64
    → start + 2 ^ k ≤ 2 ^ 64
    → IsRoundedUp k start size
        (align_address_and_available_size start size k).0
        (align_address_and_available_size start size k).1
unfolding align_address_and_available_size
align_address_and_available_size-IsRoundedUp start size k lt fits = elim (Bool-cases (start == 0)) [
  | inl z ↦ rw z (record {
    multiple = (0, omega arith);
    near = ground (arith, one-le-pow k 2);
    left = ground arith;
  })
  | inr nz ↦
      let m = align_mask_lem k (start - 1) (omega arith) (omega arith) in
      rw (nz, m) (IsRoundedUp-tests start size k (ground arith))
]
