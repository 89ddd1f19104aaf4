-- ===== src/Vm.antt =====
-- src/vm.rs: a guest's memory, the devices behind its MMIO regions, and the list of the guests.
-- A handler is shared by pointer, so the handlers act on one state `S` that holds every device.
pub mod Dispatch
pub mod Ram
pub mod Registry
pub mod Guest
pub mod Layout
use mini_visor_real_device.Base.{
  ℕ, ◌+◌, ◌-◌, ◌&&◌, Bool, true, false, Option, none, some, List, [], ◌∷◌, leb, ltb, ◌==◌, ◌%◌, ◌^◌,
  if◌then◌else◌, Exec, done, panic, ◌>>=◌, unwrap,
}

-- `Result<T, ()>` is an Option; a handler may also panic.
pub record MmioHandler (S : Type 0) : Type 0 where
  pub read : S → (offset access_width : ℕ) → Exec (Option ℕ × S)
  pub write : S → (offset access_width value : ℕ) → Exec (Option (Unit {0}) × S)

pub record MmioEntry (S : Type 0) : Type 0 where
  pub base_address : ℕ
  pub length : ℕ
  pub handler : MmioHandler S

pub record Vm (S : Type 0) : Type 0 where
  pub vm_id : ℕ
  pub ram_virtual_base_address : ℕ
  pub ram_physical_base_address : ℕ
  pub ram_size : ℕ
  pub mmio_handlers : List (MmioEntry S)

module _ {S : Type 0} where
  -- The test of both loops over the handlers; the sum is a usize.
  unfoldable pub contains : MmioEntry S → ℕ → Bool
  contains e address =
      leb e.base_address address && ltb address ((e.base_address + e.length) % 2 ^ 64)

  unfoldable pub read_loop :
      List (MmioEntry S) → S → (address access_width : ℕ) → Exec (Option ℕ × S)
  read_loop [] s address access_width = done (none, s)
  read_loop (e ∷ es) s address access_width =
      let rest = read_loop es s address access_width in
      if contains e address then e.handler.read s (address - e.base_address) access_width else rest

  unfoldable pub write_loop :
      List (MmioEntry S) → S → (address access_width value : ℕ) → Exec (Option (Unit {0}) × S)
  write_loop [] s address access_width value = done (none, s)
  write_loop (e ∷ es) s address access_width value =
      let rest = write_loop es s address access_width value in
      if contains e address
      then e.handler.write s (address - e.base_address) access_width value
      else rest

  abbrev pub handle_mmio_read : Vm S → S → (address access_width : ℕ) → Exec (Option ℕ × S)
  handle_mmio_read vm = read_loop vm.mmio_handlers

  abbrev pub handle_mmio_write :
      Vm S → S → (address access_width value : ℕ) → Exec (Option (Unit {0}) × S)
  handle_mmio_write vm = write_loop vm.mmio_handlers

  unfoldable pub get_physical_address : Vm S → ℕ → Option ℕ
  get_physical_address vm virtual_address =
      if leb vm.ram_virtual_base_address virtual_address
        && ltb virtual_address ((vm.ram_virtual_base_address + vm.ram_size) % 2 ^ 64)
      then some
          ((virtual_address - vm.ram_virtual_base_address + vm.ram_physical_base_address) % 2 ^ 64)
      else none

  -- `iter().find(|vm| vm.vm_id == vm_id)`
  unfoldable pub find_vm : List (Vm S) → ℕ → Option (Vm S)
  find_vm [] vm_id = none
  find_vm (vm ∷ vms) vm_id = if vm.vm_id == vm_id then some vm else find_vm vms vm_id

-- The statics VM_LIST and ACTIVE_VM, and TPIDR_EL2 of the CPU that runs the code.
pub record Hypervisor (S : Type 0) : Type 0 where
  pub vm_list : List (Vm S)
  pub active_vm : Option (Vm S)
  pub tpidr_el2 : ℕ

module _ {S : Type 0} where
  abbrev pub get_current_vm : Hypervisor S → Exec (Vm S)
  get_current_vm h = unwrap (find_vm h.vm_list h.tpidr_el2)

  abbrev pub get_active_vm : Hypervisor S → Exec (Vm S)
  get_active_vm h = unwrap h.active_vm

  unfoldable pub switch_active_vm : Hypervisor S → ℕ → Bool × Hypervisor S
  switch_active_vm h vm_id = elim (find_vm h.vm_list vm_id) [
    | some vm ↦ (true, record h { active_vm = some vm })
    | none ↦ (false, h)
  ]
