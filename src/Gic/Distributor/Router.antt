-- ===== src/Gic/Distributor/Router.antt =====
-- The router registers and the special interrupts of GicDistributorMmio in src/mmio/gicv3.rs.
use mini_visor_real_device.Base.{
  ℕ, ◌-◌, ◌*◌, ◌+◌, ◌/◌, ◌<◌, ◌≤◌, ◌≡◌, ◌≢◌, arith, true, false, ◌&&◌, ◌==◌, bit_and, Exec, done,
  panic, ◌>>=◌, index, length, set, get_elem?, get_elem?-some, get_elem?-set, Option, some, if-skip,
  if-take,
}
use mini_visor_real_device.Cpu.{Cpu}
use mini_visor_real_device.Gic.Distributor.{
  Distributor, get_router, get_enable, get_group_modifier, get_priority, get_group, forward,
  trigger_interrupt, gicd_ctlr_enable_grp1ns,
}
use mini_visor_real_device.Gic.Distributor.Valid.{IsValid, get_group-done}
use mini_visor_real_device.Gic.Distributor.Status.{change_pending_status-Pended}
use mini_visor_real_device.Gic.Distributor.Layout.{index-panic}
use mini_visor_real_device.Gic.Distributor.Mmio.{
  write, write_plain, gicd_ctlr, gicd_igroupr, gicd_isenabler, gicd_icenabler, gicd_ispendr,
  gicd_icpendr, gicd_isactiver, gicd_icactiver, gicd_ipriorityr, gicd_icfgr, gicd_igrpmodr,
  gicd_irouter,
}

module _ (d : Distributor) (cpu : Cpu) (offset value : ℕ) (lo : 0x6100 ≤ offset)
    (hi : offset ≤ 0x7FD8) where
  write_plain-router :
      {run : Exec Distributor}
      → (do
        regs ←
            index d.router ((offset - 0x6100) / 8)
            >>= (λ _. done (set d.router ((offset - 0x6100) / 8) value))
        done (record d { router = regs }))
        ≡ run
      → write_plain d offset 64 value ≡ run
  unfolding write_plain
  write_plain-router e = if-skip (gicd_icenabler offset && 64 == 32) _ (ground arith) (
      if-skip (gicd_icpendr offset && 64 == 32) _ (ground arith) (
        if-skip (gicd_isactiver offset && 64 == 32) _ (ground arith) (
          if-skip (gicd_icactiver offset && 64 == 32) _ (ground arith) (
            if-skip (gicd_ipriorityr offset) _ (ground arith) (
              if-skip (gicd_icfgr offset && 64 == 32) _ (ground arith) (
                if-skip (gicd_igrpmodr offset && 64 == 32) _ (ground arith)
                  (if-take (gicd_irouter offset && 64 == 64) _ (ground arith) e)))))))

  write-router :
      (r : ℕ)
      → get_elem? d.router ((offset - 0x6100) / 8) ≡ some r
      → write d cpu offset 64 value
        ≡ done (record d { router = set d.router ((offset - 0x6100) / 8) value }, cpu)
  unfolding write
  write-router r e =
      let p : write_plain d offset 64 value
          ≡ done (record d { router = set d.router ((offset - 0x6100) / 8) value }) =
        write_plain-router (rw e) in
      if-skip (offset == gicd_ctlr && 64 == 32) _ (ground arith) (
        if-skip (gicd_igroupr offset && 64 == 32) _ (ground arith) (
          if-skip (gicd_isenabler offset && 64 == 32) _ (ground arith)
            (if-skip (gicd_ispendr offset && 64 == 32) _ (ground arith) (rw p))))

-- The outcome of a write to the router register of interrupt `n`.
pub record Misfiled (d : Distributor) (cpu : Cpu) (n value : ℕ) : Type 0 where
  pub d' : Distributor
  pub runs : write d cpu (0x6000 + 8 * n) 64 value ≡ done (d', cpu)
  pub lower : get_router d' (n - 32) ≡ done value
  pub own : get_router d' n ≡ get_router d n

write-Misfiled_at :
    (d : Distributor) (cpu : Cpu) (n value r : ℕ)
    → IsValid d
    → 32 ≤ n
    → n ≤ 1019
    → get_elem? d.router (n - 32) ≡ some r
    → Misfiled d cpu n value
unfolding get_router
write-Misfiled_at d cpu n value r valid lo hi e =
    let at : (0x6000 + 8 * n - 0x6100) / 8 ≡ n - 32 = omega arith in
    let here : get_elem? d.router ((0x6000 + 8 * n - 0x6100) / 8) ≡ some r = rw at e in
    let size : n - 32 < length d.router = omega (arith, valid.router) in
    record {
      d' = record d { router = set d.router (n - 32) value };
      runs = rw (write-router d cpu (0x6000 + 8 * n) value (omega arith) (omega arith) r here, at);
      lower = ground (arith, get_elem?-set d.router (n - 32) (n - 32) value size);
      own = ground (arith, get_elem?-set d.router (n - 32) n value size);
    }

-- GICD_IROUTER1019 is at 0x7FD8 = 0x6000 + 8 * 1019, but a 64-bit write at 0x6000 + 8 * n, for n from 32
-- to 1019, sets the entry that get_router reads for interrupt n - 32, and not the one for n.
pub write-Misfiled :
    (d : Distributor) (cpu : Cpu) (n value : ℕ)
    → IsValid d
    → 32 ≤ n
    → n ≤ 1019
    → Misfiled d cpu n value
write-Misfiled d cpu n value valid lo hi =
    let (r, e) = get_elem?-some d.router (n - 32) (omega (arith, valid.router)) in
    write-Misfiled_at d cpu n value r valid lo hi e

-- The interrupts 1020 to 1023 have a pending and an enable bit, but no priority register: to raise one
-- that the guest has enabled in Group 1 panics.
pub trigger_interrupt-special :
    (d : Distributor) (cpu : Cpu) (i : ℕ) (p : Option ℕ)
    → IsValid d
    → 1020 ≤ i
    → i < 1024
    → bit_and d.ctlr gicd_ctlr_enable_grp1ns ≢ 0
    → get_enable d i ≡ done true
    → get_group_modifier d i ≡ done 0
    → trigger_interrupt d cpu i p ≡ panic
unfolding trigger_interrupt forward get_enable get_group_modifier get_group get_priority
trigger_interrupt-special d cpu i p valid lo hi on enabled normal =
    let s = change_pending_status-Pended d i true valid hi in
    let e : (bit_and d.ctlr gicd_ctlr_enable_grp1ns == 0) ≡ false = ground (arith, on) in
    rw (
      e,
      s.runs,
      enabled,
      normal,
      get_group-done valid i hi,
      index-panic d.priority (i / 4) (omega (arith, valid.priority.size)),
    )
