-- ===== src/Gic/Redistributor.antt =====
-- GicRedistributorMmio of src/mmio/gicv3.rs: the registers of one virtual CPU's redistributor. An
-- interrupt is one of the 32 private ones; the source shifts a u32 by its number.
pub mod Mmio
pub mod Trigger
pub mod Access
use mini_visor_real_device.Base.{
  ℕ, zero, suc, ◌-◌, ◌*◌, ◌^◌, ◌+◌, ◌/◌, ◌%◌, bit_and, bit_or, Bool, true, false, ◌&&◌, List, [],
  ◌∷◌, ◌++◌, ◌!=◌, ◌==◌, ltb, leb, if◌then◌else◌, Exec, done, panic, ◌>>=◌, index, bit_not, ◌<<<◌,
  ◌>>>◌, Option, replicate, not,
}
use mini_visor_real_device.Cpu.{Cpu, mpidr_to_affinity}
use mini_visor_real_device.Vgic.{create_list_register_entry, add_virtual_interrupt}
use mini_visor_real_device.Gic.Common.{set_bit, Affinity, affinity, send_sgi}

pub record Redistributor : Type 0 where
  pub affinity_value : ℕ
  pub ctlr : ℕ
  pub waker : ℕ
  pub group : ℕ
  pub enable : ℕ
  pub pending : ℕ
  pub active : ℕ
  pub priority : List ℕ
  pub configuration : List ℕ
  pub group_modifier : ℕ
  pub to_inject_interrupt : List ℕ

abbrev pub gicr_typer_last : ℕ
gicr_typer_last = 1 <<< 4

abbrev pub gicr_waker_children_asleep : ℕ
gicr_waker_children_asleep = 1 <<< 2

abbrev pub gicr_waker_processor_sleep : ℕ
gicr_waker_processor_sleep = 1 <<< 1

unfoldable pub new : ℕ → Redistributor
unfolding mpidr_to_affinity
new mpidr_el1 = record {
  affinity_value = mpidr_to_affinity mpidr_el1;
  ctlr = 0;
  waker = gicr_waker_children_asleep;
  group = 0;
  enable = 0;
  pending = 0;
  active = 0;
  priority = replicate 8 0;
  configuration = replicate 2 0;
  group_modifier = 0;
  to_inject_interrupt = [];
}

unfoldable pub generate_typer : Redistributor → ℕ
unfolding affinity
generate_typer r =
    let a = affinity r.affinity_value in
    bit_or
      (bit_or (bit_or (bit_or gicr_typer_last (a.aff0 <<< 32)) (a.aff1 <<< 40)) (a.aff2 <<< 48))
      (a.aff3 <<< 56)

unfoldable pub get_group : Redistributor → ℕ → ℕ
get_group r int_id = bit_and (r.group >>> int_id) 0b1

unfoldable pub get_enable : Redistributor → ℕ → Bool
get_enable r int_id = bit_and (r.enable >>> int_id) 1 != 0

unfoldable pub get_pending : Redistributor → ℕ → Bool
get_pending r int_id = bit_and (r.pending >>> int_id) 1 != 0

unfoldable pub change_pending_status : Redistributor → ℕ → Bool → Redistributor
change_pending_status r int_id is_pending = record r {
  pending = set_bit is_pending int_id r.pending;
}

unfoldable pub change_active_status : Redistributor → ℕ → Bool → Redistributor
change_active_status r int_id is_active = record r { active = set_bit is_active int_id r.active }

unfoldable pub get_priority : Redistributor → ℕ → Exec ℕ
get_priority r int_id = do
  word ← index r.priority (int_id / 4)
  done (bit_and (word >>> (int_id % 4 * 8)) 0xFF)

unfoldable pub get_group_modifier : Redistributor → ℕ → ℕ
get_group_modifier r int_id = bit_and (r.group_modifier >>> int_id) 0b1

-- The end of trigger_interrupt: to a list register of this CPU, or queued for the other one.
unfoldable pub deliver : Redistributor → Cpu → ℕ → Exec (Redistributor × Cpu)
deliver r cpu list_entry =
    if r.affinity_value == mpidr_to_affinity cpu.mpidr_el1
    then done (r, add_virtual_interrupt list_entry cpu)
    else (do
      cpu' ← send_sgi (affinity r.affinity_value) cpu
      done (record r { to_inject_interrupt = r.to_inject_interrupt ++ list_entry ∷ [] }, cpu'))

unfoldable pub trigger_interrupt : Redistributor → Cpu → ℕ → Option ℕ → Exec (Redistributor × Cpu)
unfolding change_pending_status get_enable get_group_modifier get_group get_priority deliver
trigger_interrupt r cpu int_id physical_int_id =
    if bit_and r.waker gicr_waker_children_asleep != 0
    then done (r, cpu)
    else let r' = change_pending_status r int_id true in
      if not (get_enable r' int_id)
      then done (r', cpu)
      else if get_group_modifier r' int_id == 1
      then done (r', cpu)
      else do
        let group = get_group r' int_id
        priority ← get_priority r' int_id
        deliver r' cpu (create_list_register_entry int_id group priority physical_int_id)
