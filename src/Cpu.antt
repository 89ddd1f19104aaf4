-- ===== src/Cpu.antt =====
-- src/asm.rs: the system registers of one physical CPU that the interrupt code reads and writes.
-- Each accessor of asm.rs is one `mrs` or `msr` instruction; a register is a field here.
use mini_visor_real_device.Base.{ℕ, ◌-◌, List, bit_and, bit_or, bit_not, ◌<<<◌, ◌>>>◌}

pub record Cpu : Type 0 where
  pub ich_lr : List ℕ  -- ich_lr0_el2, ich_lr1_el2, ich_lr2_el2
  pub ich_vtr : ℕ
  pub ich_eisr : ℕ
  pub mpidr_el1 : ℕ
  pub icc_sgi1r : List ℕ  -- the values written to icc_sgi1r_el1, the last one first

abbrev pub set_icc_sgi1r_el1 : ℕ → Cpu → Cpu
set_icc_sgi1r_el1 v cpu = record cpu { icc_sgi1r = List.◌∷◌ v cpu.icc_sgi1r }

unfoldable pub mpidr_to_affinity : ℕ → ℕ
mpidr_to_affinity mpidr = bit_and mpidr (bit_not 64 (bit_or (1 <<< 31) (1 <<< 30)))

-- The affinity in the four bytes of a 32-bit word, as GICR_TYPER has it in its high half.
unfoldable pub get_packed_affinity : Cpu → ℕ
unfolding mpidr_to_affinity
get_packed_affinity cpu =
    let mpidr = mpidr_to_affinity cpu.mpidr_el1 in
    bit_or (bit_and mpidr (1 <<< 24 - 1)) (bit_and mpidr (0xff <<< 32) >>> (32 - 24))
