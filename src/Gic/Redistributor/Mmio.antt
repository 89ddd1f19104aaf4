-- ===== src/Gic/Redistributor/Mmio.antt =====
-- The MmioHandler of GicRedistributorMmio in src/mmio/gicv3.rs: `read` and `write`. Both always
-- return `Ok`; an index out of bounds panics.
use mini_visor_real_device.Base.{
  ℕ, zero, suc, ◌-◌, ◌*◌, ◌+◌, ◌/◌, bit_and, bit_or, Bool, ◌&&◌, ◌||◌, ◌!=◌, ◌==◌, ltb, leb,
  if◌then◌else◌, Exec, done, ◌>>=◌, index, bit_not, ◌<<<◌, ◌>>>◌, none, as_word,
}
use mini_visor_real_device.Cpu.{Cpu}
use mini_visor_real_device.Gic.Common.{modify, within, set_byte, gic_revision}
use mini_visor_real_device.Gic.Redistributor.{
  Redistributor, trigger_interrupt, get_pending, get_enable, generate_typer,
  gicr_waker_children_asleep, gicr_waker_processor_sleep,
}

abbrev pub gicr_ctlr : ℕ
gicr_ctlr = 0x0000

abbrev pub gicr_typer : ℕ
gicr_typer = 0x0008

abbrev pub gicr_waker : ℕ
gicr_waker = 0x0014

abbrev pub gicr_pidr2 : ℕ
gicr_pidr2 = 0xFFE8

abbrev pub gicr_vlpi_base : ℕ
gicr_vlpi_base = 0x10000

abbrev pub gicr_igroupr0 : ℕ
gicr_igroupr0 = gicr_vlpi_base + 0x0080

abbrev pub gicr_isenabler0 : ℕ
gicr_isenabler0 = gicr_vlpi_base + 0x0100

abbrev pub gicr_icenabler0 : ℕ
gicr_icenabler0 = gicr_vlpi_base + 0x0180

abbrev pub gicr_ispendr0 : ℕ
gicr_ispendr0 = gicr_vlpi_base + 0x0200

abbrev pub gicr_icpendr0 : ℕ
gicr_icpendr0 = gicr_vlpi_base + 0x0280

abbrev pub gicr_isactiver0 : ℕ
gicr_isactiver0 = gicr_vlpi_base + 0x0300

abbrev pub gicr_icactiver0 : ℕ
gicr_icactiver0 = gicr_vlpi_base + 0x0380

abbrev pub gicr_ipriorityr0 : ℕ
gicr_ipriorityr0 = gicr_vlpi_base + 0x0400

abbrev pub gicr_ipriorityr7 : ℕ
gicr_ipriorityr7 = gicr_vlpi_base + 0x041C

abbrev pub gicr_icfgr0 : ℕ
gicr_icfgr0 = gicr_vlpi_base + 0x0C00

abbrev pub gicr_icfgr1 : ℕ
gicr_icfgr1 = gicr_vlpi_base + 0x0C04

abbrev pub gicr_igrpmodr0 : ℕ
gicr_igrpmodr0 = gicr_vlpi_base + 0x0D00

unfoldable pub read : Redistributor → (offset access_width : ℕ) → Exec ℕ
read r offset access_width =
    if offset == gicr_ctlr && access_width == 32
    then done r.ctlr
    else if offset == gicr_typer && (access_width == 32 || access_width == 64)
    then done (generate_typer r)
    else if offset == gicr_typer + 4 && access_width == 32
    then done (generate_typer r >>> 32)
    else if offset == gicr_waker && access_width == 32
    then done r.waker
    else if offset == gicr_pidr2 && access_width == 32
    then done (gic_revision <<< 4)
    else if offset == gicr_igroupr0 && access_width == 32
    then done r.group
    else if (offset == gicr_isenabler0 || offset == gicr_icenabler0) && access_width == 32
    then done r.enable
    else if (offset == gicr_ispendr0 || offset == gicr_icpendr0) && access_width == 32
    then done r.pending
    else if (offset == gicr_isactiver0 || offset == gicr_icactiver0) && access_width == 32
    then done r.active
    else if within gicr_ipriorityr0 gicr_ipriorityr7 offset && access_width == 32
    then index r.priority ((offset - gicr_ipriorityr0) / 4)
    else if within gicr_icfgr0 gicr_icfgr1 offset && access_width == 32
    then index r.configuration ((offset - gicr_icfgr0) / 4)
    else if offset == gicr_igrpmodr0 && access_width == 32
    then done r.group_modifier
    else done 0

-- The loop over the 32 bits of a value written to GICR_ISENABLER0 or GICR_ISPENDR0; `rounds` counts
-- the interrupts that are left.
unfoldable pub trigger_loop :
    (Redistributor → ℕ → Bool)
    → (rounds int_id value : ℕ) → Redistributor
    → Cpu
    → Exec (Redistributor × Cpu)
trigger_loop test zero int_id value r cpu = done (r, cpu)
trigger_loop test (suc n) int_id value r cpu =
    let next = trigger_loop test n (int_id + 1) (value >>> 1) in
    if value == 0
    then done (r, cpu)
    else if bit_and value 1 != 0 && test r int_id
    then (do (r', cpu') ← trigger_interrupt r cpu int_id none; next r' cpu')
    else next r cpu

unfoldable pub write_priority : Redistributor → (offset access_width value : ℕ) → Exec Redistributor
write_priority r offset access_width value =
    let register_offset = (offset - gicr_ipriorityr0) / 4 in
    let byte_offset = offset - gicr_ipriorityr0 - register_offset * 4 in
    if access_width == 8
    then (do
      regs ← modify r.priority register_offset (set_byte (byte_offset * 8) value)
      done (record r { priority = regs }))
    else if byte_offset == 0 && access_width == 32
    then (do
      regs ← modify r.priority register_offset (λ _. as_word 32 value)
      done (record r { priority = regs }))
    else done r

-- The first statement of `write`, after which the others follow in any case.
abbrev pub write_ctlr : Redistributor → (offset access_width value : ℕ) → Redistributor
write_ctlr r offset access_width value =
    if offset == gicr_ctlr && access_width == 32 then record r { ctlr = as_word 32 value } else r

unfoldable pub write_rest :
    Redistributor → Cpu → (offset access_width value : ℕ) → Exec (Redistributor × Cpu)
unfolding write_priority
write_rest r cpu offset access_width value =
    if offset == gicr_waker && access_width == 32
    then done (
      record r {
        waker =
            if bit_and (as_word 32 value) gicr_waker_processor_sleep == 0
            then 0
            else bit_or gicr_waker_children_asleep gicr_waker_processor_sleep;
      },
      cpu,
    )
    else if offset == gicr_igroupr0 && access_width == 32
    then done (record r { group = as_word 32 value }, cpu)
    else if offset == gicr_isenabler0 && access_width == 32
    then trigger_loop get_pending 32 0 value
        (record r { enable = bit_or r.enable (as_word 32 value) }) cpu
    else if offset == gicr_icenabler0 && access_width == 32
    then done (record r { enable = bit_and r.enable (bit_not 32 (as_word 32 value)) }, cpu)
    else if offset == gicr_ispendr0 && access_width == 32
    then trigger_loop get_enable 32 0 value
        (record r { pending = bit_or r.pending (as_word 32 value) }) cpu
    else if offset == gicr_icpendr0 && access_width == 32
    then done (record r { pending = bit_and r.pending (bit_not 32 (as_word 32 value)) }, cpu)
    else if offset == gicr_isactiver0 && access_width == 32
    then done (record r { active = bit_or r.active (as_word 32 value) }, cpu)
    else if offset == gicr_icactiver0 && access_width == 32
    then done (record r { active = bit_and r.active (bit_not 32 (as_word 32 value)) }, cpu)
    else if leb gicr_ipriorityr0 offset && ltb offset (gicr_ipriorityr7 + 4)
    then (do r' ← write_priority r offset access_width value; done (r', cpu))
    else if within gicr_icfgr0 gicr_icfgr1 offset && access_width == 32
    then (do
      regs ← modify r.configuration ((offset - gicr_icfgr0) / 4) (λ _. as_word 32 value)
      done (record r { configuration = regs }, cpu))
    else if offset == gicr_igrpmodr0 && access_width == 32
    then done (record r { group_modifier = as_word 32 value }, cpu)
    else done (r, cpu)

unfoldable pub write :
    Redistributor → Cpu → (offset access_width value : ℕ) → Exec (Redistributor × Cpu)
unfolding write_rest
write r cpu offset access_width value =
    write_rest (write_ctlr r offset access_width value) cpu offset access_width value
