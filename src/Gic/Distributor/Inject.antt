-- ===== src/Gic/Distributor/Inject.antt =====
-- trigger_interrupt of GicDistributorMmio in src/mmio/gicv3.rs, up to the list registers of src/vgic.rs:
-- an interrupt that the guest has enabled and routed to this CPU gets there.
use mini_visor_real_device.Base.{
  ℕ, ◌<◌, ◌≡◌, ◌≢◌, ◌⊎◌, refl, arith, bit_and, Option, ◌==◌, if◌then◌else◌, true, false, done,
  length, test_bit, bit_and_test, pow_test, test_bit-le,
}
use mini_visor_real_device.Cpu.{Cpu}
use mini_visor_real_device.Vgic.{
  add_virtual_interrupt, create_list_register_entry, supported_lrn, ich_lrn_el2_status,
}
use mini_visor_real_device.Vgic.Entry.{FitsPhysical, Fields, create_list_register_entry-Fields}
use mini_visor_real_device.Vgic.Inject.{IsPending, IsFull, Landed, add_virtual_interrupt-Landed}
use mini_visor_real_device.Gic.Common.{affinity}
use mini_visor_real_device.Gic.Bitmap.{bank_bit, bank_bit-le}
use mini_visor_real_device.Gic.Distributor.{
  Distributor, get_pending, get_enable, get_router, get_group, get_group_modifier, get_priority,
  forward, deliver, trigger_interrupt, gicd_ctlr_enable_grp1ns, gicd_ctlr_are_s, same_affinity,
}
use mini_visor_real_device.Gic.Distributor.Valid.{IsValid, get_group-done, get_priority-done}
use mini_visor_real_device.Gic.Distributor.Status.{change_pending_status-Pended}

IsPending-Fields : {e i g p : ℕ} {h : Option ℕ} → Fields e i g p h → IsPending e
IsPending-Fields {e} f =
    let t : test_bit (bit_and e ich_lrn_el2_status) 62 ≡ 1 = rw (f.status, pow_test 62 62) refl in
    omega (arith, bit_and_test 62 e ich_lrn_el2_status, test_bit-le e 62)

-- The guest accepts interrupt `i` on the CPU `cpu`: Group 1 and affinity routing are enabled, and so
-- is the interrupt, which is not secure and is routed to this CPU.
pub record Accepts (d : Distributor) (cpu : Cpu) (i : ℕ) : Type 0 where
  pub on : bit_and d.ctlr gicd_ctlr_enable_grp1ns ≢ 0
  pub are : bit_and d.ctlr gicd_ctlr_are_s ≢ 0
  pub enabled : get_enable d i ≡ done true
  pub normal : get_group_modifier d i ≡ done 0
  pub router : ℕ
  pub routed : get_router d i ≡ done router
  pub local : same_affinity (affinity router) (affinity cpu.mpidr_el1) ≡ true

-- The run of trigger_interrupt put one entry for `i` before the list registers.
pub record Injected (d : Distributor) (cpu : Cpu) (i : ℕ) (p : Option ℕ) : Type 0 where
  pub d' : Distributor
  pub entry : ℕ
  pub group : ℕ
  pub priority : ℕ
  pub runs : trigger_interrupt d cpu i p ≡ done (d', add_virtual_interrupt entry cpu)
  pub same : d' ≡ record d { pending = d'.pending }
  pub valid : IsValid d'
  pub pends :
      (j : ℕ) → j < 1024 → get_pending d' j ≡ (if i == j then done true else get_pending d j)
  pub queue : d'.to_inject_interrupt ≡ d.to_inject_interrupt
  pub its_group : get_group d i ≡ done group
  pub its_priority : get_priority d i ≡ done priority
  pub fields : Fields entry i group priority p
  pub place :
      (IsFull entry (supported_lrn cpu) cpu.ich_lr
        × ((add_virtual_interrupt entry cpu).ich_lr ≡ cpu.ich_lr))
      ⊎ Landed entry (supported_lrn cpu) cpu.ich_lr (add_virtual_interrupt entry cpu).ich_lr

-- On a well-formed distributor and a CPU with three list registers, an interrupt below 1020 that the
-- guest accepts on this CPU, with a physical number that fits if it has one, is put before the list
-- registers with its own identifier, its group and priority as the distributor holds them, and its
-- physical number, and nothing is queued: it lands in the first implemented register that is inactive
-- or holds the same identifier, pending, with the others unchanged, unless each of the implemented
-- ones holds another interrupt, in which case none changes. The distributor stays well formed, and of
-- its state only the pending bit of that interrupt changes, which is set.
pub trigger_interrupt-Injected :
    (d : Distributor) (cpu : Cpu) (i : ℕ) (p : Option ℕ)
    → IsValid d
    → i < 1020
    → FitsPhysical p
    → length cpu.ich_lr ≡ 3
    → Accepts d cpu i
    → Injected d cpu i p
unfolding trigger_interrupt forward deliver get_enable get_group_modifier get_router get_group
    get_priority
trigger_interrupt-Injected d cpu i p valid lt fits three acc =
    let s = change_pending_status-Pended d i true valid (omega arith) in
    let (pr, ep, pr_lt) = get_priority-done valid i lt in
    let g : ℕ = bank_bit d.group i in
    let eg = get_group-done valid i (omega arith) in
    let entry : ℕ = create_list_register_entry i g pr p in
    let f : Fields entry i g pr p =
      create_list_register_entry-Fields
        (record {
          id_fits = omega arith;
          group_fits = omega (arith, bank_bit-le d.group i);
          priority_fits = pr_lt;
        })
        p fits in
    let on : (bit_and d.ctlr gicd_ctlr_enable_grp1ns == 0) ≡ false = ground (arith, acc.on) in
    let are : (bit_and d.ctlr gicd_ctlr_are_s == 0) ≡ false = ground (arith, acc.are) in
    record {
      d' = record d { pending = s.regs };
      entry = entry;
      group = g;
      priority = pr;
      runs = rw (on, s.runs, acc.enabled, acc.normal, eg, ep, acc.routed, are, acc.local);
      same = refl;
      valid = s.valid;
      pends = s.reads;
      queue = refl;
      its_group = eg;
      its_priority = ep;
      fields = f;
      place = add_virtual_interrupt-Landed entry cpu (IsPending-Fields f) three;
    }
