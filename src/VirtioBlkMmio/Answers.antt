-- ===== src/VirtioBlkMmio/Answers.antt =====
-- src/mmio/virtio_blk.rs: the entry in the used ring that one request of the ring ends with.
use mini_visor_real_device.Base.{
  ℕ, ◌+◌, ◌*◌, ◌%◌, ◌^◌, ◌<◌, ◌≡◌, refl, ap, arith, ◌∙◌, ◌⊎◌, inl, inr, Bool, none, some, bit_and,
  ◌==◌, ◌!=◌, Bool-cases, Option-cases,
}
use mini_visor_real_device.VirtioBlk.{
  VirtQueueDesc, virt_queue_desc_flags_next, virtio_blk_type_out, virtio_blk_s_ok,
}
use mini_visor_real_device.Fat32.{load_u16, load_u32}
use mini_visor_real_device.VirtioBlkMmio.{
  Machine, VirtioBlkMmio, returned, request, request_data, finish, serve, served, Answered,
  answered, given_up, get_descriptor, get_descriptor_id,
}
use mini_visor_real_device.VirtioBlkMmio.UsedRing.{
  IsMemory, RingsFit, Used, used_once, write_used-Used,
}
use mini_visor_real_device.VirtioBlkMmio.Counts.{
  Ran_cases, Served_cases, CountsU32, serve-CountsU32,
}

module _ {S : Type 0} (machine : Machine S) where
  -- The length that an entry tells: the bytes before the last descriptor, and those of the last one
  -- where its address is the guest's.
  abbrev pub TellsLength : (last : VirtQueueDesc) → (total_size length : ℕ) → Type 0
  TellsLength last total_size length =
      ((machine.get_physical_address last.address ≡ none) × (length ≡ total_size))
      ⊎ ((a : ℕ) × (machine.get_physical_address last.address ≡ some a)
          × (length ≡ (total_size + last.length) % 2 ^ 32))

  -- The descriptors behind `d` were served from the state `s` on, and the entry tells `length`.
  pub record Counted (fuel : ℕ) (v : VirtioBlkMmio) (d : VirtQueueDesc) (s : S) (length : ℕ)
      : Type 0 where
    pub is_write : Bool
    pub offset : ℕ
    pub last : VirtQueueDesc
    pub total_size : ℕ
    pub status : ℕ
    pub after : S
    pub serves :
        serve machine fuel v is_write d offset 0 virtio_blk_s_ok s
        ≡ returned (served last total_size status after)
    pub tells : TellsLength last total_size length

  -- The device took the request at the place `place` of the available ring in the state `s`, and its
  -- entry is in the used ring of the state `s'`: the identifier of the descriptor that the driver put
  -- there, and the length.
  pub record Answer (fuel : ℕ) (v : VirtioBlkMmio) (place : ℕ) (s : S) (v' : VirtioBlkMmio) (s' : S)
      : Type 0 where
    pub id : ℕ
    pub head : VirtQueueDesc
    pub length : ℕ
    pub available : get_descriptor_id machine v place s ≡ some id
    pub described : get_descriptor machine v id s ≡ some head
    pub counted : Counted fuel v head s length
    pub device : v' ≡ used_once v
    pub used : Used machine v id length s'

  pub Answered_cases :
      (r : Answered machine)
      → ((s : S) × (r ≡ given_up s)) ⊎ ((v : VirtioBlkMmio) × (s : S) × (r ≡ answered v s))
  Answered_cases (given_up s) = inl (s, refl)
  Answered_cases (answered v s) = inr (v, s, refl)

module _ {S : Type 0} (machine : Machine S) (memory : IsMemory machine) where
  finish-Used :
      (v v' : VirtioBlkMmio) (id total status : ℕ) (last : VirtQueueDesc) (s s' : S)
      → RingsFit v
      → id < 2 ^ 32
      → total < 2 ^ 32
      → finish machine v id last total status s ≡ returned (answered v' s')
      → (length : ℕ) × TellsLength machine last total length
        × ((v' ≡ used_once v) × Used machine v id length s')
  unfolding finish
  finish-Used v v' id total status last s s' fits id_lt lt e =
      elim (Option-cases (machine.get_physical_address last.address)) [
        | inl n ↦ (
          total,
          inl (n, refl),
          write_used-Used machine memory v v' id total s s' fits id_lt lt (rw (n, finish) at e),
        )
        | inr (a, t) ↦ (
          (total + last.length) % 2 ^ 32,
          inr (a, t, refl),
          write_used-Used machine memory v v' id ((total + last.length) % 2 ^ 32)
              (machine.store_byte a status s) s' fits id_lt (omega arith) (rw (t, finish) at e),
        )
      ]

  request_data-Used :
      (fuel : ℕ) (v v' : VirtioBlkMmio) (id req : ℕ) (d : VirtQueueDesc) (s s' : S)
      → RingsFit v
      → id < 2 ^ 32
      → request_data machine fuel v id req d s ≡ returned (answered v' s')
      → (length : ℕ) × Counted machine fuel v d s length
        × ((v' ≡ used_once v) × Used machine v id length s')
  unfolding request_data CountsU32
  request_data-Used fuel v v' id req d s s' fits id_lt e =
      let byte = machine.load_byte s in
      let w = load_u32 byte req == virtio_blk_type_out in
      let sector = load_u32 byte (req + 8) + load_u32 byte (req + 12) * 2 ^ 32 in
      let offset = sector * 2 ^ 9 % 2 ^ 64 in
      let r = serve machine fuel v w d offset 0 virtio_blk_s_ok s in
      elim (Bool-cases (bit_and d.flags virt_queue_desc_flags_next == 0)) [
        | inl t ↦ let g = rw (t, request_data) at e in cc
        | inr t ↦ elim (Ran_cases r) [
          | inl q ↦ let g = rw (t, q, request_data) at e in cc
          | inr (inl q) ↦ let g = rw (t, q, request_data) at e in cc
          | inr (inr (o, q)) ↦ elim (Served_cases machine o) [
            | inl (s1, p) ↦ let g = rw (t, q, p, request_data) at e in cc
            | inr (l, total, status, s1, p) ↦
                let ends : r ≡ returned (served l total status s1) = q ∙ ap returned p in
                let lt =
                  serve-CountsU32 machine fuel v w d offset 0 virtio_blk_s_ok s (omega arith) l
                    total status s1 ends in
                let (length, tells, rest) =
                  finish-Used v v' id total status l s1 s' fits id_lt lt
                    (rw (t, q, p, request_data) at e) in
                (
                  length,
                  record {
                    is_write = w;
                    offset = offset;
                    last = l;
                    total_size = total;
                    status = status;
                    after = s1;
                    serves = ends;
                    tells = tells;
                  },
                  rest,
                )
          ]
        ]
      ]

  get_descriptor_id-lt :
      (v : VirtioBlkMmio) (place id : ℕ) (s : S)
      → get_descriptor_id machine v place s ≡ some id
      → id < 2 ^ 32
  unfolding get_descriptor_id load_u16
  get_descriptor_id-lt v place id s e = elim (Bool-cases (v.avail_ring != 0)) [
    | inl t ↦
        let a = v.avail_ring + 2 * 2 + 2 * place in
        let g = rw (t, get_descriptor_id) at e in
        let q = ap (λ o. elim o [ some x ↦ x | none ↦ id ]) g in
        omega (arith, q, memory.byte a s, memory.byte (a + 1) s)
    | inr t ↦ let g = rw (t, get_descriptor_id) at e in cc
  ]

  -- A request that is answered ends with its entry.
  pub request-Answer :
      (fuel : ℕ) (v v' : VirtioBlkMmio) (place : ℕ) (s s' : S)
      → RingsFit v
      → request machine fuel v place s ≡ returned (answered v' s')
      → Answer machine fuel v place s v' s'
  unfolding request
  request-Answer fuel v v' place s s' fits e =
      elim (Option-cases (get_descriptor_id machine v place s)) [
        | inl n ↦ let g = rw (n, request) at e in cc
        | inr (i, t) ↦ elim (Option-cases (get_descriptor machine v i s)) [
          | inl n ↦ let g = rw (t, n, request) at e in cc
          | inr (d, t') ↦ elim (Bool-cases (d.length != 16)) [
            | inl b ↦ let g = rw (t, t', b, request) at e in cc
            | inr b ↦ elim (Option-cases (machine.get_physical_address d.address)) [
              | inl n ↦ let g = rw (t, t', b, n, request) at e in cc
              | inr (a, t'') ↦
                  let (length, counted, (device, used)) =
                    request_data-Used fuel v v' i a d s s' fits (get_descriptor_id-lt v place i s t)
                      (rw (t, t', b, t'', request) at e) in
                  record {
                    id = i;
                    head = d;
                    length = length;
                    available = t;
                    described = t';
                    counted = counted;
                    device = device;
                    used = used;
                  }
            ]
          ]
        ]
      ]
