-- ===== src/Examples/VirtualDisk.antt =====
-- The theorems on the guest's disk at one request: a header, a buffer of a sector, and a status byte.
use mini_visor_real_device.Base.{
  ℕ, ◌%◌, ◌^◌, ◌≡◌, refl, arith, some, Bool, true, false, List, [], ◌∷◌, ◌==◌, if◌then◌else◌,
}
use mini_visor_real_device.Fat32.{FileInfo, load_u16, load_u32}
use mini_visor_real_device.VirtioBlkMmio.{
  Machine, VirtioBlkMmio, Ran, returned, panicked, out_of_rounds, fresh, get_next_avail_id,
  avail_idx, request, request_data, finish, write_used, serve, get_descriptor, get_descriptor_id,
  load_desc, store_u16, store_u32, transfer,
}
use mini_visor_real_device.VirtioBlkMmio.Mmio.{operation_loop}
use mini_visor_real_device.VirtioBlkMmio.UsedRing.{IsMemory, RingsFit}
use mini_visor_real_device.VirtioBlkMmio.Requests.{IsDrained, operation_loop-IsDrained}

abbrev file : FileInfo
file = record { entry_cluster = 5; file_size = 4096 }

-- The bytes that are not 0, with their addresses.
abbrev bytes : List (ℕ × ℕ)
bytes =
    (0x1001, 0x30)
    ∷ (0x1008, 16)
    ∷ (0x100C, 1)
    ∷ (0x100E, 1)
    ∷ (0x1011, 0x40)
    ∷ (0x1019, 2)
    ∷ (0x101C, 3)
    ∷ (0x101E, 2)
    ∷ (0x1021, 0x50)
    ∷ (0x1028, 1)
    ∷ (0x102C, 2)
    ∷ (0x1042, 1)
    ∷ []

byte_in : List (ℕ × ℕ) → ℕ → ℕ
byte_in [] a = 0
byte_in ((b, x) ∷ bs) a = if a == b then x else byte_in bs a

abbrev machine : Machine (ℕ → ℕ)
machine = record {
  load_byte = λ s a. s a % 2 ^ 8;
  store_byte = λ a x s b. if b == a then x else s b;
  get_physical_address = λ a. some a;
  fat32_read = λ f a o n s. (s, true);
  fat32_write = λ f a o n s. (s, true);
  trigger_interrupt = λ i s. s;
}

abbrev disk : VirtioBlkMmio
disk = record (fresh file) {
  queue_size = 4;
  descriptor = 0x1000;
  avail_ring = 0x1040;
  used_ring = 0x2000;
}

abbrev outcome : Ran (VirtioBlkMmio × (ℕ → ℕ) × Bool)
outcome = operation_loop machine 3 disk (byte_in bytes)

abbrev of : Ran (VirtioBlkMmio × (ℕ → ℕ) × Bool) → VirtioBlkMmio × (ℕ → ℕ) × Bool
of (returned p) = p
of panicked = (disk, byte_in [], false)
of out_of_rounds = (disk, byte_in [], false)

outcome_drained : outcome ≡ returned ((of outcome).0, (of outcome).1, true)
unfolding operation_loop byte_in get_next_avail_id avail_idx request request_data finish write_used
    serve get_descriptor get_descriptor_id load_desc load_u16 load_u32 store_u16 store_u32 transfer
outcome_drained = refl

machine-IsMemory : IsMemory machine
machine-IsMemory = record {
  same = λ a x s lt. ground arith;
  other = λ a b x s lt lt' ne. ground (arith, ne);
  byte = λ a s. omega arith;
}

disk-RingsFit : RingsFit disk
disk-RingsFit = record {
  descriptor_fits = omega arith;
  avail_fits = omega arith;
  used_fits = omega arith;
}

operation_loop-IsDrained_example :
    IsDrained machine disk (byte_in bytes) (of outcome).0 (of outcome).1
operation_loop-IsDrained_example =
    operation_loop-IsDrained machine 3 disk (of outcome).0 (byte_in bytes) (of outcome).1
      machine-IsMemory disk-RingsFit outcome_drained
