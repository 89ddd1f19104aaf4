-- ===== src/VirtioBlkMmio/UsedRing.antt =====
-- write_used of src/mmio/virtio_blk.rs: the entry that the driver reads in the guest's memory.
-- What is asked of that memory is that a byte reads back as it was stored.
use mini_visor_real_device.Base.{
  ℕ, ◌+◌, ◌*◌, ◌/◌, ◌%◌, ◌^◌, ◌<◌, ◌≤◌, ◌≡◌, ◌≢◌, ap, arith, ◌⊎◌, inl, inr, ◌==◌, Bool-cases, subst,
  sym, ◌∙◌,
}
use mini_visor_real_device.Fat32.{load_u16, load_u32}
use mini_visor_real_device.VirtioBlkMmio.{
  Machine, VirtioBlkMmio, Ran, returned, Answered, answered, store_u16, store_u32, write_used,
}

module _ {S : Type 0} (machine : Machine S) where
  -- A byte at a 64-bit address reads back as it was stored, until it is stored again.
  pub record IsMemory : Type 0 where
    pub same :
        (a x : ℕ) (s : S) → a < 2 ^ 64 → machine.load_byte (machine.store_byte a x s) a ≡ x % 2 ^ 8
    pub other :
        (a b x : ℕ) (s : S)
        → a < 2 ^ 64
        → b < 2 ^ 64
        → a ≢ b
        → machine.load_byte (machine.store_byte a x s) b ≡ machine.load_byte s b
    pub byte : (a : ℕ) (s : S) → machine.load_byte s a < 2 ^ 8

-- The rings lie below 2^64.
pub record RingsFit (v : VirtioBlkMmio) : Type 0 where
  pub descriptor_fits : v.descriptor + 16 * 2 ^ 16 ≤ 2 ^ 64
  pub avail_fits : v.avail_ring + 4 + 2 * 2 ^ 16 ≤ 2 ^ 64
  pub used_fits : v.used_ring + 4 + 8 * 2 ^ 16 ≤ 2 ^ 64

-- Where the next entry of the used ring lies: behind the flags and the index, 8 bytes for each.
unfoldable pub used_element : VirtioBlkMmio → ℕ
used_element v = v.used_ring + 4 + 8 * (v.used_id % (v.queue_size % 2 ^ 16))

module _ {S : Type 0} (machine : Machine S) where
  -- The entry of the device `v` for the request of the descriptor `id` is in the guest's memory:
  -- the element with its length, and behind it the index.
  pub record Used (v : VirtioBlkMmio) (id length : ℕ) (s : S) : Type 0 where
    pub id_stored : load_u32 (machine.load_byte s) (used_element v) ≡ id
    pub length_stored : load_u32 (machine.load_byte s) (used_element v + 4) ≡ length
    pub idx_stored : load_u16 (machine.load_byte s) (v.used_ring + 2) ≡ (v.used_id + 1) % 2 ^ 16

-- A state in which one more request is in the used ring.
abbrev pub used_once : VirtioBlkMmio → VirtioBlkMmio
used_once v = record v { used_id = (v.used_id + 1) % 2 ^ 16 }

module _ {S : Type 0} {machine : Machine S} {v v' : VirtioBlkMmio} {s s' : S} where
  answered_device :
      ◌≡◌ {A = Ran (Answered machine)} (returned (answered v s)) (returned (answered v' s'))
      → v ≡ v'
  answered_device e = ap (λ r. elim r [ returned (answered x y) ↦ x | _ ↦ v ]) e

  answered_state :
      ◌≡◌ {A = Ran (Answered machine)} (returned (answered v s)) (returned (answered v' s'))
      → s ≡ s'
  answered_state e = ap (λ r. elim r [ returned (answered x y) ↦ y | _ ↦ s ]) e

module _ {S : Type 0} (machine : Machine S) (memory : IsMemory machine) where
  open memory use {same, other}

  store_u16-load_byte :
      (a x b : ℕ) (s : S)
      → a + 1 < 2 ^ 64
      → b < 2 ^ 64
      → b ≢ a
      → b ≢ a + 1
      → machine.load_byte (store_u16 machine a x s) b ≡ machine.load_byte s b
  unfolding store_u16
  store_u16-load_byte a x b s lt lt' ne ne' =
      let o =
        other (a + 1) b (x / 0x100 % 0x100) (machine.store_byte a (x % 0x100) s) lt lt'
          (λ e. ground (arith, e, ne')) in
      let o' = other a b (x % 0x100) s (omega arith) lt' (λ e. ground (arith, e, ne)) in rw (o, o')

  load_u16-store_u16 :
      (a x : ℕ) (s : S)
      → a + 1 < 2 ^ 64
      → x < 2 ^ 16
      → load_u16 (machine.load_byte (store_u16 machine a x s)) a ≡ x
  unfolding store_u16 load_u16
  load_u16-store_u16 a x s lt small =
      let t = machine.store_byte a (x % 0x100) s in
      let h = same (a + 1) (x / 0x100 % 0x100) t lt in
      let o = other (a + 1) a (x / 0x100 % 0x100) t lt (omega arith) (λ e. omega arith) in
      let l = same a (x % 0x100) s (omega arith) in rw (o, l, h) (omega (arith, small))

  store_u32-load_byte :
      (a x b : ℕ) (s : S)
      → a + 3 < 2 ^ 64
      → b < 2 ^ 64
      → (b < a) ⊎ (a + 3 < b)
      → machine.load_byte (store_u32 machine a x s) b ≡ machine.load_byte s b
  unfolding store_u32
  store_u32-load_byte a x b s lt lt' out =
      let hi =
        store_u16-load_byte (a + 2) (x / 0x10000 % 0x10000) b (store_u16 machine a (x % 0x10000) s)
          (omega arith) lt' (λ e. ground arith) (λ e. ground arith) in
      let lo =
        store_u16-load_byte a (x % 0x10000) b s (omega arith) lt' (λ e. ground arith)
          (λ e. ground arith) in
      rw (hi, lo)

  -- A word that a store leaves alone reads as before.
  load_u16-kept :
      (s s' : S) (a : ℕ)
      → ((b : ℕ) → a ≤ b → b < a + 2 → machine.load_byte s' b ≡ machine.load_byte s b)
      → load_u16 (machine.load_byte s') a ≡ load_u16 (machine.load_byte s) a
  unfolding load_u16
  load_u16-kept s s' a keep =
      let b0 = keep a (omega arith) (omega arith) in
      let b1 = keep (a + 1) (omega arith) (omega arith) in rw (b0, b1)

  load_u32-kept :
      (s s' : S) (a : ℕ)
      → ((b : ℕ) → a ≤ b → b < a + 4 → machine.load_byte s' b ≡ machine.load_byte s b)
      → load_u32 (machine.load_byte s') a ≡ load_u32 (machine.load_byte s) a
  unfolding load_u32
  load_u32-kept s s' a keep =
      let lo = load_u16-kept s s' a (λ b l h. keep b l (omega (arith, h))) in
      let hi = load_u16-kept s s' (a + 2) (λ b l h. keep b (omega (arith, l)) (omega (arith, h))) in
      rw (lo, hi)

  load_u32-store_u32 :
      (a x : ℕ) (s : S)
      → a + 3 < 2 ^ 64
      → x < 2 ^ 32
      → load_u32 (machine.load_byte (store_u32 machine a x s)) a ≡ x
  unfolding store_u32 load_u32
  load_u32-store_u32 a x s lt small =
      let t = store_u16 machine a (x % 0x10000) s in
      let k = load_u16-kept t (store_u16 machine (a + 2) (x / 0x10000 % 0x10000) t) a (λ b l h.
        store_u16-load_byte (a + 2) (x / 0x10000 % 0x10000) b t (omega arith) (omega arith)
          (λ e. omega arith) (λ e. omega arith)) in
      let lo = load_u16-store_u16 a (x % 0x10000) s (omega arith) (omega arith) in
      let hi = load_u16-store_u16 (a + 2) (x / 0x10000 % 0x10000) t (omega arith) (omega arith) in
      rw (k, lo, hi) (omega (arith, small))

  -- The stores of write_used, for an element `e` behind the index.
  stores-Used :
      (v : VirtioBlkMmio) (id length : ℕ) (s : S)
      → used_element v + 8 ≤ 2 ^ 64
      → v.used_ring + 4 ≤ used_element v
      → id < 2 ^ 32
      → length < 2 ^ 32
      → Used machine v id length (
          store_u16 machine (v.used_ring + 2) ((v.used_id + 1) % 2 ^ 16) (
            store_u32 machine
              (used_element v + 4)
              length
              (store_u32 machine (used_element v) id s)))
  stores-Used v id length s fit behind id_lt length_lt =
      let e = used_element v in
      let idx = (v.used_id + 1) % 2 ^ 16 in
      let t1 = store_u32 machine e id s in
      let t2 = store_u32 machine (e + 4) length t1 in
      let t3 = store_u16 machine (v.used_ring + 2) idx t2 in
      let k1 = load_u32-kept t1 t2 e (λ b l h.
        store_u32-load_byte (e + 4) length b t1 (omega (arith, fit)) (omega (arith, h, fit))
          (inl h)) in
      let keep : (a : ℕ)
          → e ≤ a
          → a + 4 ≤ 2 ^ 64
          → load_u32 (machine.load_byte t3) a ≡ load_u32 (machine.load_byte t2) a =
        λ a le lt. load_u32-kept t2 t3 a (λ b l h.
          store_u16-load_byte (v.used_ring + 2) idx b t2 (omega (arith, behind, fit))
            (omega (arith, h, lt)) (λ q. omega (arith, q, l, le, behind))
            (λ q. omega (arith, q, l, le, behind))) in
      let w1 = load_u32-store_u32 e id s (omega (arith, fit)) id_lt in
      let w2 = load_u32-store_u32 (e + 4) length t1 (omega (arith, fit)) length_lt in
      record {
        id_stored = keep e (omega arith) (omega (arith, fit)) ∙ (k1 ∙ w1);
        length_stored = keep (e + 4) (omega arith) (omega (arith, fit)) ∙ w2;
        idx_stored =
            load_u16-store_u16 (v.used_ring + 2) idx t2 (omega (arith, behind, fit)) (omega arith);
      }

  -- Where write_used does not panic, it counts the entry and stores it.
  pub write_used-Used :
      (v v' : VirtioBlkMmio) (id length : ℕ) (s s' : S)
      → RingsFit v
      → id < 2 ^ 32
      → length < 2 ^ 32
      → write_used machine v id length s ≡ returned (answered v' s')
      → (v' ≡ used_once v) × Used machine v id length s'
  unfolding write_used used_element
  write_used-Used v v' id length s s' fits id_lt length_lt h =
      elim (Bool-cases (v.queue_size % 2 ^ 16 == 0)) [
        | inl t ↦ let g = rw (t, write_used) at h in cc
        | inr t ↦
            let g = rw (t, write_used) at h in
            let u : used_element v + 8 ≤ 2 ^ 64 = ground (arith, t, fits.used_fits) in
            (
              sym (answered_device g),
              subst (λ x. Used machine v id length x) (answered_state g)
                  (stores-Used v id length s u (omega arith) id_lt length_lt),
            )
      ]
