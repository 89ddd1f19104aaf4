-- ===== src/VirtioBlkMmio.antt =====
-- src/mmio/virtio_blk.rs: the guest's disk, a virtqueue device over a file of the FAT32 volume.
--
-- The guest's memory, the file and the interrupt controller are an interface over a state. A null
-- pointer is 0. The two loops over what the guest wrote take fuel.
pub mod Mmio
pub mod Rings
pub mod UsedRing
pub mod Counts
pub mod Answers
pub mod Requests
use mini_visor_real_device.Base.{
  ℕ, zero, suc, ◌+◌, ◌-◌, ◌*◌, ◌/◌, ◌%◌, ◌^◌, Bool, true, false, Option, none, some, bit_and,
  bit_or, ◌==◌, ◌!=◌, ◌<<<◌, if◌then◌else◌,
}
use mini_visor_real_device.VirtioBlk.{
  VirtQueueDesc, virt_queue_desc_flags_next, virtio_blk_type_out, virtio_blk_s_ok,
}
use mini_visor_real_device.Fat32.{FileInfo, get_file_size, load_u16, load_u32}

pub record Machine (S : Type 0) : Type 0 where
  pub load_byte : S → (address : ℕ) → ℕ
  pub store_byte : (address value : ℕ) → S → S
  pub get_physical_address : (address : ℕ) → Option ℕ
  pub fat32_read : FileInfo → (address offset size : ℕ) → S → S × Bool
  pub fat32_write : FileInfo → (address offset size : ℕ) → S → S × Bool
  pub trigger_interrupt : (int_id : ℕ) → S → S

pub record VirtioBlkMmio : Type 0 where
  pub file : FileInfo
  pub interrupt_status : ℕ
  pub status : ℕ
  pub queue_size : ℕ
  pub queue_ready : Bool
  pub page_size : ℕ
  pub descriptor : ℕ
  pub avail_ring : ℕ
  pub used_ring : ℕ
  pub last_avail_id : ℕ
  pub used_id : ℕ

-- How the code ends: it returns, panics, or runs out of rounds.
pub data Ran (A : Type 0) : Type 0 where
  returned : A → Ran A
  panicked : Ran A
  out_of_rounds : Ran A

abbrev pub virtio_blk_int_id : ℕ
virtio_blk_int_id = 40

abbrev pub virtio_blk_s_ioerr : ℕ
virtio_blk_s_ioerr = 1

-- The state of a device that was just made or reset.
abbrev pub fresh : FileInfo → VirtioBlkMmio
fresh file = record {
  file = file;
  interrupt_status = 0;
  status = 0;
  queue_size = 0;
  queue_ready = false;
  page_size = 1 <<< 12;
  descriptor = 0;
  avail_ring = 0;
  used_ring = 0;
  last_avail_id = 0;
  used_id = 0;
}

unfoldable pub new : FileInfo → Ran VirtioBlkMmio
unfolding get_file_size
new file = if bit_and (get_file_size file) 0x1FF != 0 then panicked else returned (fresh file)

-- A descriptor as it lies in the guest's memory: 16 bytes.
unfoldable pub load_desc : (ℕ → ℕ) → ℕ → VirtQueueDesc
unfolding load_u16 load_u32
load_desc byte a = record {
  address = load_u32 byte a + load_u32 byte (a + 4) * 2 ^ 32;
  length = load_u32 byte (a + 8);
  flags = load_u16 byte (a + 12);
  next = load_u16 byte (a + 14);
}

module _ {S : Type 0} (machine : Machine S) where
  -- What the loop over a request's descriptors ends with: an early return, or the last descriptor
  -- with the bytes before it and the status.
  pub data Served : Type 0 where
    abandoned : S → Served
    served : (last : VirtQueueDesc) → (total_size status : ℕ) → S → Served

  -- What becomes of a request: an early return, or its entry in the used ring.
  pub data Answered : Type 0 where
    given_up : S → Answered
    answered : VirtioBlkMmio → S → Answered

  unfoldable pub get_descriptor : VirtioBlkMmio → (id : ℕ) → S → Option VirtQueueDesc
  unfolding load_desc
  get_descriptor v id s =
      if v.descriptor != 0
      then some (load_desc (machine.load_byte s) (v.descriptor + 16 * id))
      else none

  unfoldable pub get_descriptor_id : VirtioBlkMmio → (id : ℕ) → S → Option ℕ
  unfolding load_u16
  get_descriptor_id v id s =
      if v.avail_ring != 0
      then some (load_u16 (machine.load_byte s) (v.avail_ring + 2 * 2 + 2 * id))
      else none

  -- The driver's index in the ring of available requests.
  unfoldable pub avail_idx : VirtioBlkMmio → S → ℕ
  unfolding load_u16
  avail_idx v s = load_u16 (machine.load_byte s) (v.avail_ring + 2)

  -- A remainder by a queue size of 0 panics.
  unfoldable pub get_next_avail_id : VirtioBlkMmio → S → Ran (VirtioBlkMmio × Option ℕ)
  unfolding avail_idx
  get_next_avail_id v s =
      if v.last_avail_id == avail_idx v s
      then returned (v, none)
      else if v.queue_size % 2 ^ 16 == 0
      then panicked
      else returned (
        record v { last_avail_id = (v.last_avail_id + 1) % 2 ^ 16 },
        some (v.last_avail_id % (v.queue_size % 2 ^ 16)),
      )

  unfoldable pub store_u16 : (address value : ℕ) → S → S
  store_u16 a x s =
      machine.store_byte (a + 1) (x / 0x100 % 0x100) (machine.store_byte a (x % 0x100) s)

  unfoldable pub store_u32 : (address value : ℕ) → S → S
  unfolding store_u16
  store_u32 a x s = store_u16 (a + 2) (x / 0x10000 % 0x10000) (store_u16 a (x % 0x10000) s)

  unfoldable pub write_used : VirtioBlkMmio → (id length : ℕ) → S → Ran Answered
  unfolding store_u32 store_u16
  write_used v id length s =
      if v.queue_size % 2 ^ 16 == 0
      then panicked
      else (let slot = v.used_id % (v.queue_size % 2 ^ 16) in
          let element = v.used_ring + 2 * 2 + 8 * slot in
          let used_id = (v.used_id + 1) % 2 ^ 16 in
          let stored = store_u32 (element + 4) length (store_u32 element id s) in
          returned (
            answered (record v { used_id = used_id }) (store_u16 (v.used_ring + 2) used_id stored)))

  -- A transfer between the file and a buffer of the guest.
  unfoldable pub transfer : (is_write : Bool) → FileInfo → (address offset size : ℕ) → S → S × Bool
  transfer is_write file address offset size s =
      if is_write
      then machine.fat32_write file address offset size s
      else machine.fat32_read file address offset size s

  -- The loop over a request's descriptors up to the last one.
  unfoldable pub serve :
      (fuel : ℕ)
      → VirtioBlkMmio
      → (is_write : Bool) → VirtQueueDesc
      → (offset total_size status : ℕ) → S
      → Ran Served
  unfolding get_descriptor transfer
  serve zero v is_write descriptor offset total_size status s = out_of_rounds
  serve (suc f) v is_write descriptor offset total_size status s =
      elim (get_descriptor v descriptor.next s) [
        | none ↦ returned (abandoned s)
        | some d ↦ elim (bit_and d.flags virt_queue_desc_flags_next == 0) [
          | true ↦ returned (served d total_size status s)
          | false ↦
              let total = (total_size + d.length) % 2 ^ 32 in
              elim (machine.get_physical_address d.address) [
                | none ↦ serve f v is_write d offset total virtio_blk_s_ioerr s
                | some address ↦
                    let (s1, good) = transfer is_write v.file address offset d.length s in
                    serve f v is_write d (offset + d.length) total
                      (if good then status else virtio_blk_s_ioerr) s1
              ]
        ]
      ]

  -- The status byte, and the entry in the used ring.
  unfoldable pub finish :
      VirtioBlkMmio
      → (descriptor_id : ℕ) → (last : VirtQueueDesc) → (total_size status : ℕ) → S
      → Ran Answered
  unfolding write_used
  finish v descriptor_id last total_size status s =
      elim (machine.get_physical_address last.address) [
        | none ↦ write_used v descriptor_id total_size s
        | some a ↦
            write_used v descriptor_id ((total_size + last.length) % 2 ^ 32)
              (machine.store_byte a status s)
      ]

  -- The rest of a request after its header.
  unfoldable pub request_data :
      (fuel : ℕ) → VirtioBlkMmio → (descriptor_id blk_req : ℕ) → VirtQueueDesc → S → Ran Answered
  unfolding serve finish load_u32
  request_data fuel v descriptor_id blk_req d s =
      let byte = machine.load_byte s in
      let is_write = load_u32 byte blk_req == virtio_blk_type_out in
      let sector = load_u32 byte (blk_req + 8) + load_u32 byte (blk_req + 12) * 2 ^ 32 in
      elim (bit_and d.flags virt_queue_desc_flags_next == 0) [
        | true ↦ returned (given_up s)
        | false ↦ elim (serve fuel v is_write d (sector * 2 ^ 9 % 2 ^ 64) 0 virtio_blk_s_ok s) [
          | panicked ↦ panicked
          | out_of_rounds ↦ out_of_rounds
          | returned (abandoned s1) ↦ returned (given_up s1)
          | returned (served last total_size status s1) ↦
              finish v descriptor_id last total_size status s1
        ]
      ]

  -- One request of the ring.
  unfoldable pub request : (fuel : ℕ) → VirtioBlkMmio → (id : ℕ) → S → Ran Answered
  unfolding get_descriptor_id get_descriptor request_data
  request fuel v id s = elim (get_descriptor_id v id s) [
    | none ↦ returned (given_up s)
    | some descriptor_id ↦ elim (get_descriptor v descriptor_id s) [
      | none ↦ returned (given_up s)
      | some d ↦ elim (d.length != 16) [
        | true ↦ returned (given_up s)
        | false ↦ elim (machine.get_physical_address d.address) [
          | none ↦ returned (given_up s)
          | some blk_req ↦ request_data fuel v descriptor_id blk_req d s
        ]
      ]
    ]
  ]
