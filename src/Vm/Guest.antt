-- ===== src/Vm/Guest.antt =====
-- The devices that create_vm of src/vm.rs gives a guest, and where they stand. The handler of the
-- disk is a parameter, and so is its state.
use mini_visor_real_device.Base.{ℕ, some, List, [], ◌∷◌, done, ◌>>=◌}
use mini_visor_real_device.Cpu.{Cpu}
use mini_visor_real_device.Vm.{MmioHandler, MmioEntry, Vm}
use mini_visor_real_device.Gic.Distributor.{Distributor}
use mini_visor_real_device.Gic.Distributor.Mmio as DistributorMmio
use mini_visor_real_device.Gic.Redistributor.{Redistributor}
use mini_visor_real_device.Gic.Redistributor.Mmio as RedistributorMmio
use mini_visor_real_device.Pl011.{Pl011}
use mini_visor_real_device.Pl011

abbrev pub ram_virtual_base : ℕ
ram_virtual_base = 0x40000000

abbrev pub ram_size : ℕ
ram_size = 0x10000000

pub record Devices (D : Type 0) : Type 0 where
  pub pl011 : Pl011
  pub disk : D
  pub distributor : Distributor
  pub redistributor : Redistributor
  pub cpu : Cpu

module _ {D : Type 0} where
  unfoldable pub pl011_handler : MmioHandler (Devices D)
  pl011_handler = record {
    read = λ s offset access_width.
        let (value, p) = Pl011.read s.pl011 offset in done (some value, record s { pl011 = p });
    write = λ s offset access_width value.
        done (some tt, record s { pl011 = Pl011.write s.pl011 offset value });
  }

  unfoldable pub distributor_handler : MmioHandler (Devices D)
  distributor_handler = record {
    read = λ s offset access_width.
        DistributorMmio.read s.distributor offset access_width >>= (λ value. done (some value, s));
    write = λ s offset access_width value.
        DistributorMmio.write s.distributor s.cpu offset access_width value
        >>= (λ (d, cpu). done (some tt, record s { distributor = d; cpu = cpu }));
  }

  unfoldable pub redistributor_handler : MmioHandler (Devices D)
  redistributor_handler = record {
    read = λ s offset access_width.
        RedistributorMmio.read s.redistributor offset access_width
        >>= (λ value. done (some value, s));
    write = λ s offset access_width value.
        RedistributorMmio.write s.redistributor s.cpu offset access_width value
        >>= (λ (r, cpu). done (some tt, record s { redistributor = r; cpu = cpu }));
  }

  -- The list that create_vm builds.
  unfoldable pub guest_handlers : MmioHandler (Devices D) → List (MmioEntry (Devices D))
  guest_handlers disk_handler =
      record { base_address = 0x9000000; length = 0x1000; handler = pl011_handler }
      ∷ record { base_address = 0xa000000; length = 0x0200; handler = disk_handler }
      ∷ record { base_address = 0x8000000; length = 0x10000; handler = distributor_handler }
      ∷ record { base_address = 0x80a0000; length = 0x20000; handler = redistributor_handler }
      ∷ []

  -- Vm::new, with the arguments of create_vm.
  unfoldable pub guest : MmioHandler (Devices D) → (vm_id ram_physical_address : ℕ) → Vm (Devices D)
  guest disk_handler vm_id ram_physical_address = record {
    vm_id = vm_id;
    ram_virtual_base_address = ram_virtual_base;
    ram_physical_base_address = ram_physical_address;
    ram_size = ram_size;
    mmio_handlers = guest_handlers disk_handler;
  }
