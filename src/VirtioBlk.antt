-- ===== src/VirtioBlk.antt =====
-- src/drivers/virtio_blk.rs: the driver of the disk, its 64 descriptors and its requests. The
-- constants and the queue's structures are those of src/drivers/virtio.rs.
pub mod Bitmap
pub mod Release
pub mod Chain
pub mod Request
use mini_visor_real_device.Base.{
  ℕ, zero, suc, ◌+◌, ◌-◌, ◌*◌, ◌/◌, ◌%◌, ◌^◌, bit_and, bit_or, bit_not, as_word, Bool, true, false,
  ◌||◌, Option, none, some, List, [], ◌∷◌, ◌==◌, ◌!=◌, ltb, if◌then◌else◌, Exec, done, panic, ◌>>=◌,
  ◌>>◌, assert, index, set, ◌<<<◌, ◌>>>◌,
}

abbrev pub number_of_descriptors : ℕ
number_of_descriptors = 64

abbrev pub virtio_blk_type_in : ℕ
virtio_blk_type_in = 0

abbrev pub virtio_blk_type_out : ℕ
virtio_blk_type_out = 1

abbrev pub virtio_blk_s_ok : ℕ
virtio_blk_s_ok = 0

abbrev pub virt_queue_desc_flags_next : ℕ
virt_queue_desc_flags_next = 1

abbrev pub virt_queue_desc_flags_write : ℕ
virt_queue_desc_flags_write = 1 <<< 1

pub record VirtioBlkReq : Type 0 where
  pub req_type : ℕ
  pub reserved : ℕ
  pub sector : ℕ

pub record VirtQueueDesc : Type 0 where
  pub address : ℕ
  pub length : ℕ
  pub flags : ℕ
  pub next : ℕ

-- The driver, with the parts of the queue that it writes. `notified` counts its writes to
-- VIRTIO_MMIO_QUEUE_NOTIFY.
pub record VirtioBlk : Type 0 where
  pub descriptors : List VirtQueueDesc
  pub avail_idx : ℕ
  pub avail_ring : List ℕ
  pub free_bitmap : List ℕ
  pub notified : ℕ

-- The loop over the bits of one byte, `n` of them from `bit` on.
unfoldable pub first_bit : (n bit c : ℕ) → Option ℕ
first_bit zero bit c = none
first_bit (suc n) bit c = if bit_and c (1 <<< bit) != 0 then some bit else first_bit n (bit + 1) c

-- The loop over the bytes of the bitmap, from the byte's number on.
unfoldable pub take_descriptor : ℕ → List ℕ → Option (ℕ × List ℕ)
unfolding first_bit
take_descriptor byte [] = none
take_descriptor byte (c ∷ cs) = elim (first_bit 8 0 c) [
  | some bit ↦ some (byte * 8 + bit, bit_and c (bit_not 8 (1 <<< bit)) ∷ cs)
  | none ↦ elim (take_descriptor (byte + 1) cs) [
    | some (found, cs') ↦ some (found, c ∷ cs')
    | none ↦ none
  ]
]

unfoldable pub allocate_descriptor : VirtioBlk → Option (ℕ × VirtioBlk)
unfolding take_descriptor
allocate_descriptor b = elim (take_descriptor 0 b.free_bitmap) [
  | some (found, bitmap) ↦ some (found, record b { free_bitmap = bitmap })
  | none ↦ none
]

unfoldable pub free_descriptor : VirtioBlk → ℕ → Exec VirtioBlk
free_descriptor b number = do
  assert (ltb number number_of_descriptors)
  c ← index b.free_bitmap (number / 8)
  done (record b {
    free_bitmap = set b.free_bitmap (number / 8) (bit_or c (1 <<< bit_and number (1 <<< 3 - 1)));
  })

-- How a request ends: Ok or Err, or the driver still waits when the device has said nothing more.
pub data Outcome : Type 0 where
  ok : VirtioBlk → Outcome
  err : VirtioBlk → Outcome
  waiting : VirtioBlk → Outcome

-- The spin loop, over the values that the status byte has at each look.
unfoldable pub spin : List ℕ → Option ℕ
spin [] = none
spin (s ∷ looks) = if s != 0xFF then some s else spin looks

-- Write a descriptor.
unfoldable pub fill : VirtioBlk → ℕ → (VirtQueueDesc → VirtQueueDesc) → Exec VirtioBlk
fill b number change = do
  d ← index b.descriptors number
  done (record b { descriptors = set b.descriptors number (change d) })

-- Put the chain's head in the available ring, and tell the device.
unfoldable pub publish : VirtioBlk → ℕ → Exec VirtioBlk
publish b first = do
  _ ← index b.avail_ring (b.avail_idx % number_of_descriptors)
  done (record b {
    avail_ring = set b.avail_ring (b.avail_idx % number_of_descriptors) first;
    avail_idx = (b.avail_idx + 1) % 2 ^ 16;
    notified = b.notified + 1;
  })

-- After the request is published: wait, then give the three descriptors back.
unfoldable pub complete : VirtioBlk → (first second third : ℕ) → List ℕ → Exec Outcome
unfolding spin free_descriptor
complete b first second third looks = elim (spin looks) [
  | none ↦ done (waiting b)
  | some s ↦ do
    b ← free_descriptor b first
    b ← free_descriptor b second
    b ← free_descriptor b third
    done (if s == virtio_blk_s_ok then ok b else err b)
]

-- `device` is the device with the memory it shares: for the request and the published queue, the
-- values of the status byte at each look. `req` and `status` are the addresses of the request
-- and of the status byte on the driver's stack.
module _ (device : VirtioBlkReq → VirtioBlk → List ℕ) (req status : ℕ) where
  -- operation_sync from the third descriptor on.
  unfoldable pub operation_status : VirtioBlk → VirtioBlkReq → (first second : ℕ) → Exec Outcome
  unfolding allocate_descriptor fill publish complete
  operation_status b request first second = elim (allocate_descriptor b) [
    | none ↦ done (err b)
    | some (third, b₁) ↦ do
      b₂ ←
          fill b₁ third
            (λ d. record d { address = status; length = 1; flags = virt_queue_desc_flags_write })
      b₃ ← fill b₂ second (λ d. record d { next = third })
      b₄ ← publish b₃ first
      complete b₄ first second third (device request b₄)
  ]

  -- operation_sync from the second descriptor on.
  unfoldable pub operation_buffer :
      VirtioBlk → VirtioBlkReq → (first buffer_address length : ℕ) → Bool → Exec Outcome
  unfolding allocate_descriptor fill operation_status
  operation_buffer b request first buffer_address length is_write = elim (allocate_descriptor b) [
    | none ↦ done (err b)
    | some (second, b₁) ↦ do
      b₂ ← fill b₁ second (λ d. record d {
        address = buffer_address;
        length = as_word 32 length;
        flags =
            if is_write
            then virt_queue_desc_flags_next
            else bit_or virt_queue_desc_flags_next virt_queue_desc_flags_write;
      })
      b₃ ← fill b₂ first (λ d. record d { next = second })
      operation_status b₃ request first second
  ]

  unfoldable pub operation_sync :
      VirtioBlk → (buffer_address block_address length : ℕ) → (is_write : Bool) → Exec Outcome
  unfolding allocate_descriptor fill operation_buffer
  operation_sync b buffer_address block_address length is_write =
      if bit_and block_address (1 <<< 9 - 1) != 0 || bit_and length (1 <<< 9 - 1) != 0
      then done (err b)
      else elim (allocate_descriptor b) [
        | none ↦ done (err b)
        | some (first, b₁) ↦ do
          b₂ ←
              fill b₁ first
                (λ d. record d { address = req; length = 16; flags = virt_queue_desc_flags_next })
          operation_buffer b₂
              (record {
                req_type = if is_write then virtio_blk_type_out else virtio_blk_type_in;
                reserved = 0;
                sector = block_address >>> 9;
              })
              first buffer_address length is_write
      ]

  abbrev pub read : VirtioBlk → (buffer_address block_address length : ℕ) → Exec Outcome
  read b buffer_address block_address length =
      operation_sync b buffer_address block_address length false

  abbrev pub write : VirtioBlk → (buffer_address block_address length : ℕ) → Exec Outcome
  write b buffer_address block_address length =
      operation_sync b buffer_address block_address length true
