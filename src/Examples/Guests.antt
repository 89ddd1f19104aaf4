-- ===== src/Examples/Guests.antt =====
-- Two guests, and an access of one of them.
use mini_visor_real_device.Base.{ℕ, ◌+◌, ◌≡◌, refl, arith, [], ◌∷◌, some, none, done, get_elem?}
use mini_visor_real_device.Gic.Distributor as Distributor
use mini_visor_real_device.Pl011 as Pl011
use mini_visor_real_device.Vm.{
  Vm, Hypervisor, MmioEntry, MmioHandler, get_physical_address, switch_active_vm, read_loop,
  write_loop, handle_mmio_read, handle_mmio_write,
}
use mini_visor_real_device.Vm.Guest.{Devices, guest, guest_handlers, pl011_handler}
use mini_visor_real_device.Vm.Ram.{FitsAddresses, Translated, get_physical_address-Translated}
use mini_visor_real_device.Vm.Registry.{Switched, switch_active_vm-Switched}
use mini_visor_real_device.Vm.Dispatch.{Dispatched, read_loop-Dispatched, write_loop-Dispatched}
use mini_visor_real_device.Vm.Layout.{guest_handlers-AllFit, guest-Served}
use mini_visor_real_device.Examples.Data.{cpu0, redistributor0}

-- A disk without registers.
abbrev no_disk : MmioHandler (Devices Unit)
no_disk = record {
  read = λ s offset access_width. done (none, s);
  write = λ s offset access_width value. done (none, s);
}

abbrev devices : Devices Unit
devices = record {
  pl011 = Pl011.new;
  disk = tt;
  distributor = Distributor.new;
  redistributor = redistributor0;
  cpu = cpu0;
}

abbrev guest0 : Vm (Devices Unit)
guest0 = guest no_disk 0 0x80000000

abbrev two_guests : Hypervisor (Devices Unit)
two_guests = record {
  vm_list = guest0 ∷ guest no_disk 1 0x90000000 ∷ [];
  active_vm = none;
  tpidr_el2 = 0;
}

guest0-FitsAddresses : FitsAddresses guest0
unfolding guest
guest0-FitsAddresses = record { virtual_fits = omega arith; physical_fits = omega arith }

get_physical_address-Translated_example :
    Translated guest0 0x40001000 (get_physical_address guest0 0x40001000)
get_physical_address-Translated_example =
    get_physical_address-Translated guest0 0x40001000 guest0-FitsAddresses

switch_active_vm-Switched_example : Switched two_guests 1 (switch_active_vm two_guests 1)
switch_active_vm-Switched_example = switch_active_vm-Switched two_guests 1

read_loop-Dispatched_example :
    Dispatched ℕ
      (guest_handlers no_disk)
      devices
      0x9000018
      (λ e offset. e.handler.read devices offset 32)
      (read_loop (guest_handlers no_disk) devices 0x9000018 32)
read_loop-Dispatched_example =
    read_loop-Dispatched (guest_handlers no_disk) devices 0x9000018 32
      (guest_handlers-AllFit no_disk)

write_loop-Dispatched_example :
    Dispatched Unit
      (guest_handlers no_disk)
      devices
      0x9000038
      (λ e offset. e.handler.write devices offset 32 16)
      (write_loop (guest_handlers no_disk) devices 0x9000038 32 16)
write_loop-Dispatched_example =
    write_loop-Dispatched (guest_handlers no_disk) devices 0x9000038 32 16
      (guest_handlers-AllFit no_disk)

abbrev uart_entry : MmioEntry (Devices Unit)
uart_entry = record { base_address = 0x9000000; length = 0x1000; handler = pl011_handler }

uart-listed : get_elem? (guest_handlers no_disk) 0 ≡ some uart_entry
unfolding guest_handlers
uart-listed = refl

guest-Served_example :
    ((access_width : ℕ)
      → handle_mmio_read guest0 devices (0x9000000 + 0x18) access_width
        ≡ pl011_handler.read devices 0x18 access_width)
    × ((access_width value : ℕ)
        → handle_mmio_write guest0 devices (0x9000000 + 0x18) access_width value
          ≡ pl011_handler.write devices 0x18 access_width value)
guest-Served_example =
    guest-Served no_disk 0 0x80000000 devices 0 0x18 uart_entry uart-listed (omega arith)
