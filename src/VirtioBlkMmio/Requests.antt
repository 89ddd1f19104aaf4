-- ===== src/VirtioBlkMmio/Requests.antt =====
-- src/mmio/virtio_blk.rs: what a notification does with the requests of the ring.
use mini_visor_real_device.Base.{
  ℕ, zero, suc, ◌+◌, ◌%◌, ◌^◌, ◌≡◌, refl, ap, sym, arith, ◌∙◌, ◌⊎◌, inl, inr, Bool, true, false,
  none, some, ◌==◌, Bool-cases, subst, ==_iff,
}
use mini_visor_real_device.VirtioBlkMmio.{
  Machine, VirtioBlkMmio, Ran, returned, panicked, get_next_avail_id, avail_idx, request,
}
use mini_visor_real_device.VirtioBlkMmio.Mmio.{operation_loop}
use mini_visor_real_device.VirtioBlkMmio.UsedRing.{IsMemory, RingsFit, used_once}
use mini_visor_real_device.VirtioBlkMmio.Counts.{Ran_cases}
use mini_visor_real_device.VirtioBlkMmio.Answers.{Answered_cases, Answer, request-Answer}

module _ {S : Type 0} (machine : Machine S) where
  -- The next request, taken off the ring of available ones, and its place there.
  abbrev pub taken : VirtioBlkMmio → VirtioBlkMmio
  taken v = record v { last_avail_id = (v.last_avail_id + 1) % 2 ^ 16 }

  abbrev pub next_place : VirtioBlkMmio → ℕ
  next_place v = v.last_avail_id % (v.queue_size % 2 ^ 16)

  next_cases :
      (v : VirtioBlkMmio) (s : S)
      → ((get_next_avail_id machine v s ≡ returned (v, none))
          × (v.last_avail_id ≡ avail_idx machine v s))
        ⊎ ((get_next_avail_id machine v s ≡ panicked)
            ⊎ (get_next_avail_id machine v s ≡ returned (taken v, some (next_place v))))
  unfolding get_next_avail_id
  next_cases v s = elim (Bool-cases (v.last_avail_id == avail_idx machine v s)) [
    | inl t ↦
        inl (rw (t, get_next_avail_id) refl, (==_iff v.last_avail_id (avail_idx machine v s)).0 t)
    | inr t ↦ elim (Bool-cases (v.queue_size % 2 ^ 16 == 0)) [
      | inl z ↦ inr (inl (rw (t, z, get_next_avail_id) refl))
      | inr z ↦ inr (inr (rw (t, z, get_next_avail_id) refl))
    ]
  ]

  -- From `v` and `s` on, `n` requests were taken in the order of the available ring, and each one had
  -- its entry in the used ring when the next was taken.
  pub Rounds : (n : ℕ) → (v : VirtioBlkMmio) → S → (v' : VirtioBlkMmio) → S → Type 0
  Rounds zero v s v' s' = (v ≡ v') × (s ≡ s')
  Rounds (suc n) v s v' s' =
      (fuel : ℕ) × (v1 : VirtioBlkMmio) × (s1 : S) × Answer machine fuel (taken v) (next_place v) s
        v1 s1
      × Rounds n v1 s1 v' s'

  -- Everything available was taken, and as many entries were used as requests were taken.
  abbrev pub IsDrained : (v : VirtioBlkMmio) → S → (v' : VirtioBlkMmio) → S → Type 0
  IsDrained v s v' s' =
      (v'.last_avail_id ≡ avail_idx machine v' s')
      × ((v'.used_id + v.last_avail_id) % 2 ^ 16 ≡ (v.used_id + v'.last_avail_id) % 2 ^ 16)
      × (n : ℕ) × Rounds n v s v' s'

  IsDrained-now :
      (v v' : VirtioBlkMmio) (s s' : S)
      → v.last_avail_id ≡ avail_idx machine v s
      → ◌≡◌ {A = Ran (VirtioBlkMmio × S × Bool)} (returned (v, s, true)) (returned (v', s', true))
      → IsDrained v s v' s'
  unfolding Rounds
  IsDrained-now v v' s s' d e =
      let f = ap (λ r. elim r [ returned p ↦ p | _ ↦ (v, s, true) ]) e in
      let ev : v ≡ v' = ap (λ p. p.0) f in
      let es : s ≡ s' = ap (λ p. p.1) f in
      subst (λ x. IsDrained v s x s') ev
        (subst (λ x. IsDrained v s v x) es (d, refl, zero, (refl, refl)))

  used_once-RingsFit : (v : VirtioBlkMmio) → RingsFit v → RingsFit (used_once (taken v))
  used_once-RingsFit v fits = record {
    descriptor_fits = fits.descriptor_fits;
    avail_fits = fits.avail_fits;
    used_fits = fits.used_fits;
  }

  taken-RingsFit : (v : VirtioBlkMmio) → RingsFit v → RingsFit (taken v)
  taken-RingsFit v fits = record {
    descriptor_fits = fits.descriptor_fits;
    avail_fits = fits.avail_fits;
    used_fits = fits.used_fits;
  }

  -- One request more in front.
  IsDrained-more :
      (fuel : ℕ) (v v1 v' : VirtioBlkMmio) (s s1 s' : S)
      → Answer machine fuel (taken v) (next_place v) s v1 s1
      → IsDrained v1 s1 v' s'
      → IsDrained v s v' s'
  unfolding Rounds
  IsDrained-more fuel v v1 v' s s1 s' a (drained, counts, n, rounds) =
      let u : v1.used_id ≡ (v.used_id + 1) % 2 ^ 16 = ap (λ x. x.used_id) a.device in
      let l : v1.last_avail_id ≡ (v.last_avail_id + 1) % 2 ^ 16 =
        ap (λ x. x.last_avail_id) a.device in
      (drained, omega (arith, counts, u, l), suc n, (fuel, v1, s1, a, rounds))

  -- Where the guest's memory keeps what is stored and the rings lie below 2^64, a notification that
  -- comes to its end, which raises the interrupt, leaves no available request behind. It has taken
  -- the requests in the order of the available ring, and stored an entry into the used ring in the
  -- guest's memory for each before it took the next: at the slot of the device's count, the
  -- identifier of the descriptor that the driver made available and the length that `serve` counted
  -- for its descriptors, with that of the last one where its address is the guest's, and in the
  -- index the count, which is one more than before. Modulo 2^16, the count of used entries moves as
  -- far as that of the available ones.
  pub operation_loop-IsDrained :
      (f : ℕ) (v v' : VirtioBlkMmio) (s s' : S)
      → IsMemory machine
      → RingsFit v
      → operation_loop machine f v s ≡ returned (v', s', true)
      → IsDrained v s v' s'
  unfolding operation_loop
  operation_loop-IsDrained zero v v' s s' memory fits e = cc
  operation_loop-IsDrained (suc f) v v' s s' memory fits e = elim (next_cases v s) [
    | inl (n, d) ↦ IsDrained-now v v' s s' d (rw (n, operation_loop) at e)
    | inr (inl n) ↦ let g = rw (n, operation_loop) at e in cc
    | inr (inr n) ↦ elim (Ran_cases (request machine (suc f) (taken v) (next_place v) s)) [
      | inl q ↦ let g = rw (n, q, operation_loop) at e in cc
      | inr (inl q) ↦ let g = rw (n, q, operation_loop) at e in cc
      | inr (inr (o, q)) ↦ elim (Answered_cases machine o) [
        | inl (s1, p) ↦
            let g = rw (n, q, p, operation_loop) at e in
            let b : false ≡ true = ap (λ r. elim r [ returned x ↦ x.2 | _ ↦ false ]) g in cc
        | inr (v1, s1, p) ↦
            let a =
              request-Answer machine memory (suc f) (taken v) v1 (next_place v) s s1
                (taken-RingsFit v fits) (q ∙ ap returned p) in
            let fits1 = subst RingsFit (sym a.device) (used_once-RingsFit v fits) in
            IsDrained-more (suc f) v v1 v' s s1 s' a (
              operation_loop-IsDrained f v1 v' s1 s' memory fits1
                (rw (n, q, p, operation_loop) at e))
      ]
    ]
  ]
