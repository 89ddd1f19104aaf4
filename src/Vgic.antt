-- ===== src/Vgic.antt =====
-- src/vgic.rs: the list registers through which the hypervisor injects virtual interrupts.
pub mod Entry
pub mod Inject
use mini_visor_real_device.Base.{
  ℕ, zero, suc, ◌+◌, ◌-◌, ◌*◌, ◌/◌, ◌^◌, min, bit_and, bit_or, Option, none, some, List, [], ◌∷◌,
  ◌==◌, if◌then◌else◌, ◌<<<◌, length,
}
use mini_visor_real_device.Cpu.{Cpu}

abbrev pub maintenance_interrupt_intid : ℕ
maintenance_interrupt_intid = 25

abbrev pub ich_vtr_el2_list_regs : ℕ
ich_vtr_el2_list_regs = 0b11111

abbrev pub ich_lrn_el2_status : ℕ
ich_lrn_el2_status = 0b11 <<< 62

abbrev pub ich_lrn_el2_status_inactive : ℕ
ich_lrn_el2_status_inactive = 0b00 <<< 62

abbrev pub ich_lrn_el2_status_pending : ℕ
ich_lrn_el2_status_pending = 0b01 <<< 62

abbrev pub ich_lrn_el2_hw : ℕ
ich_lrn_el2_hw = 1 <<< 61

abbrev pub ich_lrn_el2_eoi : ℕ
ich_lrn_el2_eoi = 1 <<< 41

abbrev pub ich_lrn_el2_vintid : ℕ
ich_lrn_el2_vintid = 1 <<< 32 - 1

-- The arguments are a u32 each, and a priority of the callers is a byte, a group one bit, so that
-- no shift loses bits.
unfoldable pub create_list_register_entry : ℕ → ℕ → ℕ → Option ℕ → ℕ
create_list_register_entry int_id group priority physical_int_id =
    let entry =
      bit_or (bit_or (bit_or ich_lrn_el2_status_pending (group <<< 60)) (priority <<< 48)) int_id in
    elim physical_int_id [
      | some p_int_id ↦ bit_or entry (bit_or ich_lrn_el2_hw (p_int_id <<< 32))
      | none ↦ bit_or entry ich_lrn_el2_eoi
    ]

-- The list registers that the CPU implements, of the three that the code knows.
unfoldable pub supported_lrn : Cpu → ℕ
supported_lrn cpu = min (bit_and cpu.ich_vtr ich_vtr_el2_list_regs + 1) 3

-- The loop over the first `n` list registers; the rest of the list is what is left to visit.
unfoldable pub add_loop : ℕ → ℕ → List ℕ → List ℕ
add_loop entry zero lrs = lrs
add_loop entry (suc n) [] = []
add_loop entry (suc n) (lr ∷ lrs) =
    let rest = lr ∷ add_loop entry n lrs in
    if bit_and lr ich_lrn_el2_status == ich_lrn_el2_status_inactive
    then entry ∷ lrs
    else if bit_and lr (1 <<< 32 - 1) == bit_and entry (1 <<< 32 - 1)
    then bit_or lr ich_lrn_el2_status_pending ∷ lrs
    else rest

unfoldable pub add_virtual_interrupt : ℕ → Cpu → Cpu
unfolding add_loop supported_lrn
add_virtual_interrupt entry cpu = record cpu {
  ich_lr = add_loop entry (supported_lrn cpu) cpu.ich_lr;
}
