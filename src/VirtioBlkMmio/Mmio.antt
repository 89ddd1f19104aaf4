-- ===== src/VirtioBlkMmio/Mmio.antt =====
-- src/mmio/virtio_blk.rs: the notification, and the guest's reads and writes of the registers.
use mini_visor_real_device.Base.{
  ℕ, zero, suc, ◌+◌, ◌-◌, ◌*◌, ◌/◌, ◌%◌, ◌^◌, Bool, true, false, ◌&&◌, none, some, bit_and, bit_or,
  ◌==◌, ltb, leb, bit_not, ◌>>>◌, if◌then◌else◌,
}
use mini_visor_real_device.Fat32.{get_file_size}
use mini_visor_real_device.VirtioBlkMmio.{
  Machine, VirtioBlkMmio, Ran, returned, panicked, out_of_rounds, fresh, get_next_avail_id, request,
  answered, given_up, virtio_blk_int_id,
}

-- The rings behind a table of descriptors: 16 bytes for each, then the available ring, and the used
-- ring from the next page on.
unfoldable pub place_rings : (descriptor : ℕ) → VirtioBlkMmio → VirtioBlkMmio
place_rings descriptor v =
    let avail_ring = descriptor + 16 * v.queue_size in
    record v {
      descriptor = descriptor;
      avail_ring = avail_ring;
      used_ring =
          bit_and (avail_ring + 2 * (3 + v.queue_size) - 1) (bit_not 64 (v.page_size - 1))
          + v.page_size;
    }

-- `QUEUE_READY as u64`
unfoldable pub bool_value : Bool → ℕ
bool_value true = 1
bool_value false = 0

-- A page size of 0 panics in the register of the queue's page.
unfoldable pub read : VirtioBlkMmio → (offset : ℕ) → Ran ℕ
unfolding get_file_size bool_value
read v offset =
    if offset == 0x000
    then returned 0x74726976
    else if offset == 0x004
    then returned 1
    else if offset == 0x008
    then returned 2
    else if offset == 0x00C
    then returned 0x554D4551
    else if offset == 0x010
    then returned 0
    else if offset == 0x034
    then returned 1024
    else if offset == 0x044
    then returned (bool_value v.queue_ready)
    else if offset == 0x040
    then (if v.page_size == 0 then panicked else returned (v.descriptor / v.page_size))
    else if offset == 0x060
    then returned v.interrupt_status
    else if offset == 0x070
    then returned v.status
    else if leb 0x100 offset && ltb (offset - 0x100) 8
    then returned (get_file_size v.file >>> 9 >>> ((offset - 0x100) * 8))
    else returned 0

module _ {S : Type 0} (machine : Machine S) where
  -- The requests until the driver's index is reached: true, or an early return: false.
  unfoldable pub operation_loop : (fuel : ℕ) → VirtioBlkMmio → S → Ran (VirtioBlkMmio × S × Bool)
  unfolding get_next_avail_id request
  operation_loop zero v s = out_of_rounds
  operation_loop (suc f) v s = elim (get_next_avail_id machine v s) [
    | panicked ↦ panicked
    | out_of_rounds ↦ out_of_rounds
    | returned (v1, none) ↦ returned (v1, s, true)
    | returned (v1, some id) ↦ elim (request machine (suc f) v1 id s) [
      | panicked ↦ panicked
      | out_of_rounds ↦ out_of_rounds
      | returned (given_up s1) ↦ returned (v1, s1, false)
      | returned (answered v2 s1) ↦ operation_loop f v2 s1
    ]
  ]

  unfoldable pub operation : (fuel : ℕ) → VirtioBlkMmio → S → Ran (VirtioBlkMmio × S)
  unfolding operation_loop
  operation fuel v s = elim (operation_loop fuel v s) [
    | panicked ↦ panicked
    | out_of_rounds ↦ out_of_rounds
    | returned (v1, s1, false) ↦ returned (v1, s1)
    | returned (v1, s1, true) ↦ returned (
      record v1 { interrupt_status = bit_or v1.interrupt_status 1 },
      machine.trigger_interrupt virtio_blk_int_id s1,
    )
  ]

  unfoldable pub write :
      (fuel : ℕ) → VirtioBlkMmio → (offset value : ℕ) → S → Ran (VirtioBlkMmio × S)
  unfolding place_rings operation
  write fuel v offset value s =
      if offset == 0x028
      then returned (record v { page_size = value }, s)
      else if offset == 0x038
      then returned (place_rings v.descriptor (record v { queue_size = value }), s)
      else if offset == 0x040
      then elim (machine.get_physical_address (value * v.page_size)) [
        | none ↦ returned (v, s)
        | some address ↦ returned (place_rings address v, s)
      ]
      else if offset == 0x050
      then (if value == 0 then operation fuel v s else returned (v, s))
      else if offset == 0x064
      then returned (
        record v { interrupt_status = bit_and v.interrupt_status (bit_not 32 (value % 2 ^ 32)) },
        s,
      )
      else if offset == 0x070
      then (if value == 0
          then returned (fresh v.file, s)
          else returned (record v { status = value % 2 ^ 32 }, s))
      else returned (v, s)
