-- ===== src/VirtioBlk/Release.antt =====
-- free_descriptor of src/drivers/virtio_blk.rs: what giving a descriptor back does to the bitmap.
use mini_visor_real_device.Base.{
  ℕ, zero, suc, ◌-◌, ◌/◌, ◌%◌, ◌^◌, ◌<◌, ◌≡◌, refl, ◌∙◌, inl, inr, bit_and, bit_or, some, List, [],
  ◌∷◌, ◌==◌, ltb, if◌then◌else◌, bit_or-lt, Bool-cases, done, get_elem?, get_elem?-some,
  get_elem?-set, lt_of_get_elem?, length-set, set, ◌<<<◌, arith, test_bit, test_bit-le, bit_or_test,
  pow_test, bit_and_mask, lt→ltb,
}
use mini_visor_real_device.VirtioBlk.{VirtioBlk, free_descriptor}
use mini_visor_real_device.VirtioBlk.Bitmap.{free_bit, AllBytes, IsBitmap, pow-lt-byte}

bytes-get : (cs : List ℕ) (i : ℕ) {c : ℕ} → AllBytes cs → get_elem? cs i ≡ some c → c < 2 ^ 8
bytes-get [] i h e = cc
bytes-get (x ∷ cs) zero h e = ground (arith, h.0)
bytes-get (x ∷ cs) (suc i) h e = bytes-get cs i h.1 e

bytes-set : (cs : List ℕ) (i v : ℕ) → AllBytes cs → v < 2 ^ 8 → AllBytes (set cs i v)
bytes-set [] i v h lt = tt
bytes-set (x ∷ cs) zero v h lt = (lt, h.1)
bytes-set (x ∷ cs) (suc i) v h lt = (h.0, bytes-set cs i v h.1 lt)

free_bit-get :
    (cs : List ℕ) (k c : ℕ) → get_elem? cs (k / 8) ≡ some c → free_bit cs k ≡ test_bit c (k % 8)
unfolding free_bit
free_bit-get [] k c e = cc
free_bit-get (x ∷ cs) k c e = elim (Bool-cases (ltb k 8)) [
  | inl low ↦
      let q : k / 8 ≡ 0 = ground arith in
      let r : k % 8 ≡ k = ground arith in
      let here : some x ≡ some c = rw q at e in let same : x ≡ c = cc in rw (low, r, same) refl
  | inr high ↦
      let q : k / 8 ≡ suc ((k - 8) / 8) = ground arith in
      let r : k % 8 ≡ (k - 8) % 8 = ground arith in
      rw (high, r) (free_bit-get cs (k - 8) c (rw q at e))
]

mark_test :
    (c bit k : ℕ)
    → k < 8
    → test_bit (bit_or c (1 <<< bit)) k ≡ (if bit == k then 1 else test_bit c k)
mark_test c bit k hk =
    let e : 1 <<< bit ≡ 2 ^ bit = omega arith in
    rw e (ground (arith, bit_or_test k c (2 ^ bit), pow_test bit k, test_bit-le c k))

-- What free_descriptor promises.
pub record Freed (b : VirtioBlk) (number : ℕ) : Type 0 where
  pub bitmap : List ℕ
  pub runs : free_descriptor b number ≡ done (record b { free_bitmap = bitmap })
  pub valid : IsBitmap bitmap
  pub bits :
      (k : ℕ) → k < 64 → free_bit bitmap k ≡ (if number == k then 1 else free_bit b.free_bitmap k)

module _ (b : VirtioBlk) (number c : ℕ) (h : IsBitmap b.free_bitmap) (lt : number < 64)
    (e : get_elem? b.free_bitmap (number / 8) ≡ some c) where
  marked : List ℕ
  marked = set b.free_bitmap (number / 8) (bit_or c (1 <<< (number % 8)))

  marked-IsBitmap : IsBitmap marked
  unfolding marked
  marked-IsBitmap = record {
    size = length-set b.free_bitmap (number / 8) _ ∙ h.size;
    bytes = bytes-set b.free_bitmap (number / 8) _ h.bytes (
        bit_or-lt 8 c (1 <<< (number % 8)) (bytes-get b.free_bitmap (number / 8) h.bytes e)
          (omega (arith, pow-lt-byte (number % 8))));
  }

  marked-bits :
      (k : ℕ) → k < 64 → free_bit marked k ≡ (if number == k then 1 else free_bit b.free_bitmap k)
  unfolding marked
  marked-bits k hk =
      let at =
        get_elem?-set b.free_bitmap (number / 8) (k / 8) (bit_or c (1 <<< (number % 8)))
          (lt_of_get_elem? b.free_bitmap (number / 8) e) in
      elim (Bool-cases (number / 8 == k / 8)) [
        | inl same ↦
            let here : number / 8 ≡ k / 8 = ground arith in
            let there : get_elem? b.free_bitmap (k / 8) ≡ some c = rw here at e in
            rw (free_bit-get _ k _ (rw same at at), free_bit-get b.free_bitmap k c there)
              (ground (arith, mark_test c (number % 8) (k % 8)))
        | inr other ↦
            let (x, there) = get_elem?-some b.free_bitmap (k / 8) (omega (arith, h.size)) in
            rw (free_bit-get _ k x (rw other at at ∙ there), free_bit-get b.free_bitmap k x there)
              (ground arith)
      ]

  freed : Freed b number
  unfolding marked free_descriptor
  freed = record {
    bitmap = marked;
    runs =
        let m : bit_and number (1 <<< 3 - 1) ≡ number % 8 = bit_and_mask 3 number in
        rw (lt→ltb number 64 lt, e, m) refl;
    valid = marked-IsBitmap;
    bits = marked-bits;
  }

-- free_descriptor of a number below 64 makes that descriptor free, and changes no other one.
pub free_descriptor-Freed :
    (b : VirtioBlk) (number : ℕ) → IsBitmap b.free_bitmap → number < 64 → Freed b number
free_descriptor-Freed b number h lt =
    let (c, e) = get_elem?-some b.free_bitmap (number / 8) (omega (arith, h.size)) in
    freed b number c h lt e
