-- ===== src/Gic/Distributor.antt =====
-- GicDistributorMmio of src/mmio/gicv3.rs: the registers of the distributor, and how an interrupt
-- is raised through them.
pub mod Mmio
pub mod Status
pub mod Valid
pub mod Trigger
pub mod Inject
pub mod Loop
pub mod Write
pub mod Layout
pub mod Router
use mini_visor_real_device.Base.{
  ℕ, ◌*◌, ◌/◌, ◌%◌, bit_and, Bool, true, ◌&&◌, List, [], ◌∷◌, ◌++◌, ◌!=◌, ◌==◌, if◌then◌else◌, Exec,
  done, ◌>>=◌, index, ◌<<<◌, ◌>>>◌, Option, replicate,
}
use mini_visor_real_device.Cpu.{Cpu}
use mini_visor_real_device.Vgic.{create_list_register_entry, add_virtual_interrupt}
use mini_visor_real_device.Gic.Common.{set_bit, modify, Affinity, affinity, send_sgi}

pub record Distributor : Type 0 where
  pub ctlr : ℕ
  pub group : List ℕ
  pub enable : List ℕ
  pub pending : List ℕ
  pub active : List ℕ
  pub priority : List ℕ
  pub configuration : List ℕ
  pub group_modifier : List ℕ
  pub router : List ℕ
  pub to_inject_interrupt : List ℕ

abbrev pub gicd_ctlr_are_s : ℕ
gicd_ctlr_are_s = 1 <<< 4

abbrev pub gicd_ctlr_enable_grp1ns : ℕ
gicd_ctlr_enable_grp1ns = 1 <<< 1

unfoldable pub new : Distributor
new = record {
  ctlr = 0;
  group = replicate 32 0;
  enable = replicate 32 0;
  pending = replicate 32 0;
  active = replicate 32 0;
  priority = replicate 255 0;
  configuration = replicate 64 0;
  group_modifier = replicate 32 0;
  router = replicate 1020 0;
  to_inject_interrupt = [];
}

-- One bit per interrupt, 32 to a register.
abbrev pub bit_of : List ℕ → ℕ → Exec ℕ
bit_of regs int_id = do r ← index regs (int_id / 32); done (bit_and (r >>> (int_id % 32)) 0b1)

unfoldable pub get_group : Distributor → ℕ → Exec ℕ
get_group d int_id = bit_of d.group int_id

unfoldable pub get_enable : Distributor → ℕ → Exec Bool
get_enable d int_id = do b ← bit_of d.enable int_id; done (b != 0)

unfoldable pub get_pending : Distributor → ℕ → Exec Bool
get_pending d int_id = do b ← bit_of d.pending int_id; done (b != 0)

unfoldable pub change_pending_status : Distributor → ℕ → Bool → Exec Distributor
change_pending_status d int_id is_pending = do
  regs ← modify d.pending (int_id / 32) (set_bit is_pending (int_id % 32))
  done (record d { pending = regs })

unfoldable pub change_active_status : Distributor → ℕ → Bool → Exec Distributor
change_active_status d int_id is_active = do
  regs ← modify d.active (int_id / 32) (set_bit is_active (int_id % 32))
  done (record d { active = regs })

unfoldable pub get_priority : Distributor → ℕ → Exec ℕ
get_priority d int_id = do
  r ← index d.priority (int_id / 4)
  done (bit_and (r >>> (int_id % 4 * 8)) 0xff)

unfoldable pub get_group_modifier : Distributor → ℕ → Exec ℕ
get_group_modifier d int_id = bit_of d.group_modifier int_id

unfoldable pub get_router : Distributor → ℕ → Exec ℕ
get_router d int_id = index d.router int_id

abbrev pub same_affinity : Affinity → Affinity → Bool
same_affinity r m = r.aff3 == m.aff3 && (r.aff2 == m.aff2 && (r.aff1 == m.aff1 && r.aff0 == m.aff0))

-- The end of trigger_interrupt: the entry goes to a list register of this CPU, or is queued and the
-- CPU that the router names is told.
unfoldable pub deliver : Distributor → Cpu → ℕ → ℕ → Exec (Distributor × Cpu)
deliver d cpu router list_entry =
    if same_affinity (affinity router) (affinity cpu.mpidr_el1)
    then done (d, add_virtual_interrupt list_entry cpu)
    else (do
      cpu' ← send_sgi (affinity router) cpu
      done (record d { to_inject_interrupt = d.to_inject_interrupt ++ list_entry ∷ [] }, cpu'))

-- The part of trigger_interrupt after the interrupt is made pending and found enabled.
unfoldable pub forward : Distributor → Cpu → ℕ → Option ℕ → Exec (Distributor × Cpu)
unfolding get_group_modifier get_group get_priority get_router deliver
forward d cpu int_id physical_int_id = do
  group_modifier ← get_group_modifier d int_id
  if group_modifier == 1 then done (d, cpu) else do
    group ← get_group d int_id
    priority ← get_priority d int_id
    router ← get_router d int_id
    if bit_and d.ctlr gicd_ctlr_are_s == 0
        then done (d, cpu)
        else deliver d cpu router (create_list_register_entry int_id group priority physical_int_id)

unfoldable pub trigger_interrupt : Distributor → Cpu → ℕ → Option ℕ → Exec (Distributor × Cpu)
unfolding change_pending_status get_enable forward
trigger_interrupt d cpu int_id physical_int_id =
    if bit_and d.ctlr gicd_ctlr_enable_grp1ns == 0 then done (d, cpu) else do
      d' ← change_pending_status d int_id true
      enabled ← get_enable d' int_id
      if enabled then forward d' cpu int_id physical_int_id else done (d', cpu)
