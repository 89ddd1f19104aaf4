-- ===== src/Examples/Memory.antt =====
-- The alignment arithmetic of the allocator, and the descriptors of the disk's queue.
use mini_visor_real_device.Allocator.Monad.{MemoryEntry, new_entry}
use mini_visor_real_device.Allocator.Allocate.{fit}
use mini_visor_real_device.Allocator.Placement.{Fitting, fit-Fitting}
use mini_visor_real_device.Base.{refl, arith, ◌∷◌, replicate}
use mini_visor_real_device.Allocator.Align.{
  size_to_page_order, align_address_and_size, align_address_and_available_size, IsPageOrder,
  IsRoundedOut, IsRoundedUp, size_to_page_order-IsPageOrder, align_address_and_size-IsRoundedOut,
  align_address_and_available_size-IsRoundedUp,
}
use mini_visor_real_device.VirtioBlk.{VirtioBlk, allocate_descriptor}
use mini_visor_real_device.VirtioBlk.Bitmap.{IsBitmap, Allocated, allocate_descriptor-Allocated}
use mini_visor_real_device.VirtioBlk.{VirtioBlkReq, spin, operation_sync}
use mini_visor_real_device.VirtioBlk.Bitmap.{free_bit}
use mini_visor_real_device.VirtioBlk.Chain.{IsDriver, Ends}
use mini_visor_real_device.VirtioBlk.Request.{operation_sync-Ends}
use mini_visor_real_device.Base.{ℕ, true, some, List, [], ◌≡◌}
use mini_visor_real_device.VirtioBlk.Release.{Freed, free_descriptor-Freed}

size_to_page_order-IsPageOrder_example : IsPageOrder 0x3000 (size_to_page_order 0x3000)
size_to_page_order-IsPageOrder_example = size_to_page_order-IsPageOrder 0x3000

align_address_and_size-IsRoundedOut_example :
    IsRoundedOut 12 0x40000123 0x2000
      (align_address_and_size 0x40000123 0x2000 12).0
      (align_address_and_size 0x40000123 0x2000 12).1
align_address_and_size-IsRoundedOut_example =
    align_address_and_size-IsRoundedOut 0x40000123 0x2000 12 (omega arith) (omega arith)
      (omega arith)

align_address_and_available_size-IsRoundedUp_example :
    IsRoundedUp 12 0x40000123 0x2000
      (align_address_and_available_size 0x40000123 0x2000 12).0
      (align_address_and_available_size 0x40000123 0x2000 12).1
align_address_and_available_size-IsRoundedUp_example =
    align_address_and_available_size-IsRoundedUp 0x40000123 0x2000 12 (omega arith) (omega arith)

-- A driver whose first two descriptors are in use.
abbrev driver : VirtioBlk
driver = record {
  descriptors = replicate 64 (record { address = 0; length = 0; flags = 0; next = 0 });
  avail_idx = 0;
  avail_ring = replicate 64 0;
  free_bitmap = 252 ∷ replicate 7 255;
  notified = 0;
}

driver-IsBitmap : IsBitmap driver.free_bitmap
driver-IsBitmap = record {
  size = refl;
  bytes = (
    omega arith,
    (
      omega arith,
      (omega arith, (omega arith, (omega arith, (omega arith, (omega arith, (omega arith, tt)))))),
    ),
  );
}

allocate_descriptor-Allocated_example : Allocated driver (allocate_descriptor driver)
allocate_descriptor-Allocated_example = allocate_descriptor-Allocated driver driver-IsBitmap

free_descriptor-Freed_example : Freed driver 1
free_descriptor-Freed_example = free_descriptor-Freed driver 1 driver-IsBitmap (omega arith)

driver-IsDriver : IsDriver driver
driver-IsDriver = record { table = refl; ring = refl; bitmap = driver-IsBitmap }

-- A device that is seen busy once, and then done.
abbrev disk : VirtioBlkReq → VirtioBlk → List ℕ
disk request queue = 255 ∷ 0 ∷ []

disk-answers : (r : VirtioBlkReq) (q : VirtioBlk) → spin (disk r q) ≡ some 0
unfolding spin
disk-answers r q = refl

operation_sync-Ends_example :
    Ends 0 0
      (free_bit driver.free_bitmap)
      (operation_sync disk 0x1000 0x1010 driver 0x80000000 0x200 0x400 true)
operation_sync-Ends_example =
    operation_sync-Ends disk 0x1000 0x1010 0 disk-answers driver 0x80000000 0x200 0x400 true
      driver-IsDriver refl refl

abbrev entry : MemoryEntry
entry = record new_entry { start = 0x40000123; end = 0x400fffff; enabled = true }

fit-Fitting_example : Fitting entry 0x2000 12 (fit entry 0x2000 12)
fit-Fitting_example =
    fit-Fitting entry 0x2000 12 (omega arith) (omega arith) (omega arith) (omega arith)
