-- ===== src/Gic/Distributor/Mmio.antt =====
-- The MmioHandler of GicDistributorMmio in src/mmio/gicv3.rs: `read` and `write`. Both always
-- return `Ok`; an index out of bounds panics. A read changes nothing, and its value is returned.
use mini_visor_real_device.Base.{
  ℕ, zero, suc, ◌-◌, ◌*◌, ◌+◌, ◌/◌, bit_and, bit_or, Bool, ◌&&◌, ◌!=◌, ◌==◌, ltb, leb,
  if◌then◌else◌, Exec, done, ◌>>=◌, index, bit_not, ◌<<<◌, ◌>>>◌, none, as_word,
}
use mini_visor_real_device.Cpu.{Cpu}
use mini_visor_real_device.Gic.Common.{modify, within, set_byte, gic_revision}
use mini_visor_real_device.Gic.Distributor.{Distributor, trigger_interrupt, get_pending, get_enable}

abbrev pub gicd_ctlr : ℕ
gicd_ctlr = 0x0000

abbrev pub gicd_typer : ℕ
gicd_typer = 0x0004

abbrev pub gicd_igroupr : ℕ → Bool
gicd_igroupr = within 0x0080 0x00FC

abbrev pub gicd_isenabler : ℕ → Bool
gicd_isenabler = within 0x0100 0x017C

abbrev pub gicd_icenabler : ℕ → Bool
gicd_icenabler = within 0x0180 0x01FC

abbrev pub gicd_ispendr : ℕ → Bool
gicd_ispendr = within 0x0200 0x027C

abbrev pub gicd_icpendr : ℕ → Bool
gicd_icpendr = within 0x0280 0x02FC

abbrev pub gicd_isactiver : ℕ → Bool
gicd_isactiver = within 0x0300 0x037C

abbrev pub gicd_icactiver : ℕ → Bool
gicd_icactiver = within 0x0380 0x03FC

-- The source's range ends before GICD_IPRIORITYR254 + 4.
abbrev pub gicd_ipriorityr : ℕ → Bool
gicd_ipriorityr offset = leb 0x0400 offset && ltb offset (0x07F8 + 4)

abbrev pub gicd_icfgr : ℕ → Bool
gicd_icfgr = within 0x0C00 0x0CFC

abbrev pub gicd_igrpmodr : ℕ → Bool
gicd_igrpmodr = within 0x0D00 0x0F7C

abbrev pub gicd_irouter : ℕ → Bool
gicd_irouter = within 0x6100 0x7FD8

abbrev pub gicd_pidr2 : ℕ
gicd_pidr2 = 0xFFE8

abbrev pub gicd_typer_value : ℕ
gicd_typer_value = bit_or (1 <<< 25) 31

-- The priority registers, by word or by byte.
unfoldable pub read_priority : Distributor → ℕ → ℕ → Exec ℕ
read_priority d offset access_width =
    let register_offset = (offset - 0x0400) / 4 in
    let byte_offset = offset - 0x0400 - register_offset * 4 in
    if access_width == 8
    then (do r ← index d.priority register_offset; done (bit_and (r >>> (byte_offset * 8)) 0xff))
    else if byte_offset == 0 && access_width == 32
    then index d.priority register_offset
    else done 0

unfoldable pub read : Distributor → (offset access_width : ℕ) → Exec ℕ
unfolding read_priority
read d offset access_width =
    if offset == gicd_ctlr && access_width == 32
    then done d.ctlr
    else if offset == gicd_typer && access_width == 32
    then done gicd_typer_value
    else if gicd_igroupr offset && access_width == 32
    then index d.group ((offset - 0x0080) / 4)
    else if gicd_isenabler offset && access_width == 32
    then index d.enable ((offset - 0x0100) / 4)
    else if gicd_icenabler offset && access_width == 32
    then index d.enable ((offset - 0x0180) / 4)
    else if gicd_ispendr offset && access_width == 32
    then index d.pending ((offset - 0x0200) / 4)
    else if gicd_icpendr offset && access_width == 32
    then index d.pending ((offset - 0x0280) / 4)
    else if gicd_isactiver offset && access_width == 32
    then index d.active ((offset - 0x0300) / 4)
    else if gicd_icactiver offset && access_width == 32
    then index d.active ((offset - 0x0380) / 4)
    else if gicd_ipriorityr offset
    then read_priority d offset access_width
    else if gicd_icfgr offset && access_width == 32
    then index d.configuration ((offset - 0x0C00) / 4)
    else if gicd_igrpmodr offset && access_width == 32
    then index d.group_modifier ((offset - 0x0D00) / 4)
    else if gicd_irouter offset && access_width == 64
    then index d.router ((offset - 0x6100) / 8)
    else if offset == gicd_pidr2 && access_width == 32
    then done (gic_revision <<< 4)
    else done 0

-- The loop over the bits of a value written to GICD_ISENABLER or GICD_ISPENDR: each interrupt whose
-- bit is set and whose `test` holds is triggered. A u64 is 0 after 64 rounds, which ends the loop,
-- so with 64 rounds of fuel the last clause is never the end of the fuel.
unfoldable pub trigger_loop :
    (Distributor → ℕ → Exec Bool)
    → (rounds int_id value : ℕ) → Distributor
    → Cpu
    → Exec (Distributor × Cpu)
trigger_loop test zero int_id value d cpu = done (d, cpu)
trigger_loop test (suc n) int_id value d cpu =
    let next = trigger_loop test n (int_id + 1) (value >>> 1) in
    if value == 0
    then done (d, cpu)
    else if bit_and value 1 != 0
    then (do
      hit ← test d int_id
      (d', cpu') ← (if hit then trigger_interrupt d cpu int_id none else done (d, cpu))
      next d' cpu')
    else next d cpu

unfoldable pub write_priority : Distributor → (offset access_width value : ℕ) → Exec Distributor
write_priority d offset access_width value =
    let register_offset = (offset - 0x0400) / 4 in
    let byte_offset = offset - 0x0400 - register_offset * 4 in
    if access_width == 8
    then (do
      regs ← modify d.priority register_offset (set_byte (byte_offset * 8) value)
      done (record d { priority = regs }))
    else if byte_offset == 0 && access_width == 32
    then (do
      regs ← modify d.priority register_offset (λ _. as_word 32 value)
      done (record d { priority = regs }))
    else done d

unfoldable pub set_enabled : Distributor → Cpu → (register value : ℕ) → Exec (Distributor × Cpu)
set_enabled d cpu register value = do
  regs ← modify d.enable register (λ r. bit_or r (as_word 32 value))
  trigger_loop get_pending 64 (register * 32) value (record d { enable = regs }) cpu

unfoldable pub set_pending : Distributor → Cpu → (register value : ℕ) → Exec (Distributor × Cpu)
set_pending d cpu register value = do
  regs ← modify d.pending register (λ r. bit_or r (as_word 32 value))
  trigger_loop get_enable 64 (register * 4 * 8) value (record d { pending = regs }) cpu

-- The registers whose write changes one register array and raises nothing.
unfoldable pub write_plain : Distributor → (offset access_width value : ℕ) → Exec Distributor
unfolding write_priority
write_plain d offset access_width value =
    if gicd_icenabler offset && access_width == 32
    then (do
      regs ←
          modify d.enable ((offset - 0x0180) / 4) (λ r. bit_and r (bit_not 32 (as_word 32 value)))
      done (record d { enable = regs }))
    else if gicd_icpendr offset && access_width == 32
    then (do
      regs ←
          modify d.pending ((offset - 0x0280) / 4) (λ r. bit_and r (bit_not 32 (as_word 32 value)))
      done (record d { pending = regs }))
    else if gicd_isactiver offset && access_width == 32
    then (do
      regs ← modify d.active ((offset - 0x0300) / 4) (λ r. bit_or r (as_word 32 value))
      done (record d { active = regs }))
    else if gicd_icactiver offset && access_width == 32
    then (do
      regs ←
          modify d.active ((offset - 0x0380) / 4) (λ r. bit_and r (bit_not 32 (as_word 32 value)))
      done (record d { active = regs }))
    else if gicd_ipriorityr offset
    then write_priority d offset access_width value
    else if gicd_icfgr offset && access_width == 32
    then (do
      regs ← modify d.configuration ((offset - 0x0C00) / 4) (λ _. as_word 32 value)
      done (record d { configuration = regs }))
    else if gicd_igrpmodr offset && access_width == 32
    then (do
      regs ← modify d.group_modifier ((offset - 0x0D00) / 4) (λ _. as_word 32 value)
      done (record d { group_modifier = regs }))
    else if gicd_irouter offset && access_width == 64
    then (do
      regs ← modify d.router ((offset - 0x6100) / 8) (λ _. value)
      done (record d { router = regs }))
    else done d

unfoldable pub write :
    Distributor → Cpu → (offset access_width value : ℕ) → Exec (Distributor × Cpu)
unfolding write_plain
write d cpu offset access_width value =
    if offset == gicd_ctlr && access_width == 32
    then done (record d { ctlr = as_word 32 value }, cpu)
    else if gicd_igroupr offset && access_width == 32
    then (do
      regs ← modify d.group ((offset - 0x0080) / 4) (λ _. as_word 32 value)
      done (record d { group = regs }, cpu))
    else if gicd_isenabler offset && access_width == 32
    then set_enabled d cpu ((offset - 0x0100) / 4) value
    else if gicd_ispendr offset && access_width == 32
    then set_pending d cpu ((offset - 0x0200) / 4) value
    else (do d' ← write_plain d offset access_width value; done (d', cpu))
