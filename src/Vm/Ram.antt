-- ===== src/Vm/Ram.antt =====
-- get_physical_address of src/vm.rs: the guest's memory is one block.
use mini_visor_real_device.Base.{ℕ, ◌+◌, ◌^◌, ◌≤◌, ◌<◌, ◌≡◌, ◌⊎◌, Option, none, some, arith}
use mini_visor_real_device.Vm.{Vm, get_physical_address}

module _ {S : Type 0} where
  -- What the translation promises of an address: the same offset in the block, or none outside it.
  unfoldable pub Translated : Vm S → ℕ → Option ℕ → Type 0
  Translated vm address none =
      (address < vm.ram_virtual_base_address)
      ⊎ (vm.ram_virtual_base_address + vm.ram_size ≤ address)
  Translated vm address (some physical) =
      (physical + vm.ram_virtual_base_address ≡ address + vm.ram_physical_base_address)
      × (vm.ram_physical_base_address ≤ physical)
      × (physical < vm.ram_physical_base_address + vm.ram_size)

  -- The block fits the 64-bit addresses of the guest and those of the machine.
  pub record FitsAddresses (vm : Vm S) : Type 0 where
    pub virtual_fits : vm.ram_virtual_base_address + vm.ram_size < 2 ^ 64
    pub physical_fits : vm.ram_physical_base_address + vm.ram_size ≤ 2 ^ 64

  -- In a guest whose block of memory ends below 2^64 in its own addresses and does not pass 2^64 in
  -- the physical ones, an address in the guest's memory is translated to the same offset of the
  -- physical block, and stays inside it; None is the answer exactly below or above the guest's memory.
  pub get_physical_address-Translated :
      (vm : Vm S) (address : ℕ)
      → FitsAddresses vm
      → Translated vm address (get_physical_address vm address)
  unfolding get_physical_address Translated
  get_physical_address-Translated vm address fits =
      ground (arith, fits.virtual_fits, fits.physical_fits)
