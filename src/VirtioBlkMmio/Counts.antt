-- ===== src/VirtioBlkMmio/Counts.antt =====
-- serve of src/mmio/virtio_blk.rs: how its loop over the descriptors of a request ends.
use mini_visor_real_device.Base.{
  ℕ, zero, suc, ◌+◌, ◌%◌, ◌^◌, ◌<◌, ◌≡◌, refl, ap, arith, ◌⊎◌, inl, inr, Bool, bit_and, ◌==◌,
  if◌then◌else◌, Bool-cases, Option-cases, subst,
}
use mini_visor_real_device.VirtioBlk.{VirtQueueDesc, virt_queue_desc_flags_next}
use mini_visor_real_device.VirtioBlkMmio.{
  Machine, VirtioBlkMmio, Ran, returned, panicked, out_of_rounds, serve, Served, served, abandoned,
  get_descriptor, transfer, virtio_blk_s_ioerr,
}

pub Ran_cases :
    {A : Type 0} (r : Ran A) → (r ≡ panicked) ⊎ ((r ≡ out_of_rounds) ⊎ ((a : A) × (r ≡ returned a)))
Ran_cases panicked = inl refl
Ran_cases out_of_rounds = inr (inl refl)
Ran_cases (returned a) = inr (inr (a, refl))

module _ {S : Type 0} (machine : Machine S) where
  pub Served_cases :
      (r : Served machine)
      → ((s : S) × (r ≡ abandoned s))
        ⊎ ((d : VirtQueueDesc) × (total : ℕ) × (status : ℕ) × (s : S) × (r
              ≡ served d total status s))
  Served_cases (abandoned s) = inl (s, refl)
  Served_cases (served d total status s) = inr (d, total, status, s, refl)

  -- The bytes that a round counts fit a u32.
  unfoldable pub CountsU32 : Ran (Served machine) → Type 0
  CountsU32 r =
      (last : VirtQueueDesc) (total status : ℕ) (s : S)
      → r ≡ returned (served last total status s)
      → total < 2 ^ 32

  served_total :
      {d d' : VirtQueueDesc} {t t' u u' : ℕ} {s s' : S}
      → ◌≡◌ {A = Ran (Served machine)} (returned (served d t u s)) (returned (served d' t' u' s'))
      → t ≡ t'
  served_total {d} {d'} {t} e = ap (λ r. elim r [ returned (served a b c x) ↦ b | _ ↦ t ]) e

  pub serve-CountsU32 :
      (fuel : ℕ) (v : VirtioBlkMmio) (is_write : Bool) (d : VirtQueueDesc)
      (offset total_size status : ℕ) (s : S)
      → total_size < 2 ^ 32
      → CountsU32 (serve machine fuel v is_write d offset total_size status s)
  unfolding serve CountsU32
  serve-CountsU32 zero v w d offset total status s lt last t' st s' e = cc
  serve-CountsU32 (suc f) v w d offset total status s lt last t' st s' e =
      elim (Option-cases (get_descriptor machine v d.next s)) [
        | inl n ↦ let g = rw (n, serve) at e in cc
        | inr (d1, n) ↦ elim (Bool-cases (bit_and d1.flags virt_queue_desc_flags_next == 0)) [
          | inl t ↦ let q = served_total (rw (n, t, serve) at e) in subst (λ x. x < 2 ^ 32) q lt
          | inr t ↦ elim (Option-cases (machine.get_physical_address d1.address)) [
            | inl p ↦
                serve-CountsU32 f v w d1 offset ((total + d1.length) % 2 ^ 32) virtio_blk_s_ioerr s
                  (omega arith) last t' st s' (rw (n, t, p, serve) at e)
            | inr (a, p) ↦
                let r = transfer machine w v.file a offset d1.length s in
                serve-CountsU32 f v w d1 (offset + d1.length) ((total + d1.length) % 2 ^ 32)
                  (if r.1 then status else virtio_blk_s_ioerr) r.0 (omega arith) last t' st s'
                  (rw (n, t, p, serve) at e)
          ]
        ]
      ]
