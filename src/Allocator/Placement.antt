-- ===== src/Allocator/Placement.antt =====
-- Where allocate of src/memory_allocator.rs places a range: inside a free entry, aligned.
use mini_visor_real_device.Base.{
  ℕ, zero, suc, ◌+◌, ◌-◌, ◌*◌, ◌^◌, ◌<◌, ◌≤◌, ◌≡◌, inl, inr, true, Bool-cases, Option, none, some,
  ltb, leb, leb→le, ◌!=◌, if◌then◌else◌, if-elim, arith,
}
use native.Mathlib.Nat.{mul-le-mul_right}
use mini_visor_real_device.Allocator.Monad.{MemoryEntry}
use mini_visor_real_device.Allocator.Align.{
  align_address_and_available_size, align_address_and_available_size-IsRoundedUp, IsRoundedUp,
}
use mini_visor_real_device.Allocator.Allocate.{fit}

-- The range of `size` bytes at `a` lies in the entry, which is inclusive, and is aligned to 2^k.
unfoldable pub Placed : MemoryEntry → (size k a : ℕ) → Type 0
Placed e size k a = ((q : ℕ) × (a ≡ q * 2 ^ k)) × (e.start ≤ a) × (a + size ≤ e.end + 1)

-- What `fit` promises: a placed range, or that no aligned range of that size lies in the entry.
unfoldable pub Fitting : MemoryEntry → (size k : ℕ) → Option ℕ → Type 0
unfolding Placed
Fitting e size k (some a) = Placed e size k a
Fitting e size k none = (a : ℕ) → Placed e size k a → ⊥

-- An aligned address from the start on is not below the rounded one.
rounded-least :
    (k start a q q' : ℕ) → a ≡ q * 2 ^ k → a < start + 2 ^ k → start ≤ q' * 2 ^ k → a ≤ q' * 2 ^ k
rounded-least k start a q q' e near h = elim (Bool-cases (leb q q')) [
  | inl le ↦
      let up : q * 2 ^ k ≤ q' * 2 ^ k = mul-le-mul_right (2 ^ k) (leb→le q q' le) in omega arith
  | inr gt ↦
      let less : suc q' ≤ q = ground arith in
      let up : suc q' * 2 ^ k ≤ q * 2 ^ k = mul-le-mul_right (2 ^ k) less in
      let one : suc q' * 2 ^ k ≡ 2 ^ k + q' * 2 ^ k = grind arith in absurd (omega arith)
]

-- With an alignment: the rounded address, if the rest of the entry has room.
fit_aligned :
    (e : MemoryEntry) (size k : ℕ) (r : ℕ × ℕ)
    → e.start ≤ e.end
    → IsRoundedUp k e.start (e.end - e.start + 1) r.0 r.1
    → 0 < size
    → Fitting e size k (if ltb r.1 size then none else some r.0)
unfolding Fitting Placed
fit_aligned e size k (a, available) order r pos =
    if-elim (Fitting e size k) (ltb available size)
      (λ h a' placed.
        let ((q', at'), lo, hi) = placed in
        let (q, at) = r.multiple in
        let (near, far) = r.near in
        let least : a ≤ q' * 2 ^ k = rounded-least k e.start a q q' at far (omega arith) in
        ground (arith, r.left))
      (λ h. (r.multiple, r.near.0, ground (arith, r.left)))

-- With an alignment of 2^k and a size that is not 0, the entry's address that allocate takes is
-- aligned and the whole range lies in the entry; where it takes none, no aligned range of that size
-- lies in the entry. The conditions: the entry is not empty, and its start can be rounded up.
pub fit-Fitting :
    (e : MemoryEntry) (size k : ℕ)
    → k < 64
    → e.start ≤ e.end
    → e.start + 2 ^ k ≤ 2 ^ 64
    → 0 < size
    → Fitting e size k (fit e size k)
unfolding fit Fitting Placed
fit-Fitting e size zero hk order room pos =
    if-elim (Fitting e size 0) (ltb (e.end - e.start + 1) size) (λ h a' placed. ground arith)
      (λ h. ((e.start, omega arith), omega arith, ground arith))
fit-Fitting e size (suc k) hk order room pos =
    let some_order : (suc k != 0) ≡ true = ground arith in
    if-elim (Fitting e size (suc k)) (ltb (e.end - e.start + 1) size) (λ h a' placed. ground arith)
      (λ h. rw some_order (
        fit_aligned e size (suc k)
          (align_address_and_available_size e.start (e.end - e.start + 1) (suc k)) order
          (align_address_and_available_size-IsRoundedUp e.start (e.end - e.start + 1) (suc k) hk
            room)
          pos))
