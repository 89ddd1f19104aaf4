-- ===== src/Vm/Registry.antt =====
-- The list of guests of src/vm.rs: which guest is current and which one is active.
use mini_visor_real_device.Base.{
  ℕ, ◌≡◌, refl, ◌≢◌, Bool, true, false, Option, none, some, List, [], ◌∷◌, done, ◌==◌, if-elim,
  unwrap, arith, ap,
}
use mini_visor_real_device.Vm.{
  Vm, Hypervisor, find_vm, switch_active_vm, get_current_vm, get_active_vm,
}

module _ {S : Type 0} where
  unfoldable pub Absent : List (Vm S) → ℕ → Type 0
  Absent [] vm_id = Unit
  Absent (vm ∷ vms) vm_id = (vm.vm_id ≢ vm_id) × Absent vms vm_id

  unfoldable pub Found : List (Vm S) → ℕ → Option (Vm S) → Type 0
  Found vms vm_id none = Absent vms vm_id
  Found vms vm_id (some vm) = vm.vm_id ≡ vm_id

  -- A guest of another number before the list changes nothing.
  later :
      (vm : Vm S) (vms : List (Vm S)) (vm_id : ℕ) (o : Option (Vm S))
      → vm.vm_id ≢ vm_id
      → Found vms vm_id o
      → Found (vm ∷ vms) vm_id o
  unfolding Found Absent
  later vm vms vm_id none ne absent = (ne, absent)
  later vm vms vm_id (some v) ne e = e

  find_vm-Found : (vms : List (Vm S)) (vm_id : ℕ) → Found vms vm_id (find_vm vms vm_id)
  unfolding find_vm Found Absent
  find_vm-Found [] vm_id = tt
  find_vm-Found (vm ∷ vms) vm_id =
      if-elim (Found (vm ∷ vms) vm_id) (vm.vm_id == vm_id) (λ h. ground arith)
        (λ h. later vm vms vm_id (find_vm vms vm_id) (ground arith) (find_vm-Found vms vm_id))

  -- What a switch promises: with a guest of that number, it is the active one, and a CPU that runs
  -- the number has it as its current one; without, nothing has changed.
  unfoldable pub Switched : Hypervisor S → ℕ → Bool × Hypervisor S → Type 0
  Switched h vm_id (true, h') =
      (vm : Vm S) × (vm.vm_id ≡ vm_id)
      × (get_active_vm h' ≡ done vm)
      × (get_current_vm (record h' { tpidr_el2 = vm_id }) ≡ done vm)
      × (h'.vm_list ≡ h.vm_list)
  Switched h vm_id (false, h') = Absent h.vm_list vm_id × (h' ≡ h)

  switched :
      (h : Hypervisor S) (vm_id : ℕ) (o : Option (Vm S))
      → find_vm h.vm_list vm_id ≡ o
      → Found h.vm_list vm_id o
      → Switched h vm_id (switch_active_vm h vm_id)
  unfolding switch_active_vm Switched Found
  switched h vm_id none e absent = rw (e, switch_active_vm, Switched) (absent, refl)
  switched h vm_id (some vm) e same =
      rw (e, switch_active_vm, Switched) (vm, same, refl, ap unwrap e, refl)

  -- After a switch to a number that a guest has, the active guest has that number and is the one
  -- that a CPU running it finds as its current guest; the switch returns false exactly when no guest
  -- has the number, and then changes nothing.
  pub switch_active_vm-Switched :
      (h : Hypervisor S) (vm_id : ℕ) → Switched h vm_id (switch_active_vm h vm_id)
  unfolding Found
  switch_active_vm-Switched h vm_id = switched h vm_id _ refl (find_vm-Found h.vm_list vm_id)
