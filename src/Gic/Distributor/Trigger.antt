-- ===== src/Gic/Distributor/Trigger.antt =====
-- trigger_interrupt of GicDistributorMmio in src/mmio/gicv3.rs: it does not panic, and what it
-- leaves behind.
use mini_visor_real_device.Base.{
  ℕ, ◌<◌, ◌≡◌, inl, inr, refl, arith, bit_and, List, [], ◌∷◌, ◌++◌, Option, ◌!=◌, ◌==◌, ◌&&◌, Bool,
  true, false, Exec, done, length, if◌then◌else◌, lt→ltb, Bool-cases,
}
use mini_visor_real_device.Cpu.{Cpu, set_icc_sgi1r_el1}
use mini_visor_real_device.Vgic.{add_virtual_interrupt}
use mini_visor_real_device.Vgic.Inject.{length-add_virtual_interrupt}
use mini_visor_real_device.Gic.Common.{send_sgi, sgi1r, affinity}
use mini_visor_real_device.Gic.Bitmap.{bank_bit}
use mini_visor_real_device.Gic.Distributor.{
  Distributor, get_enable, get_pending, get_router, forward, deliver, trigger_interrupt,
  gicd_ctlr_enable_grp1ns, gicd_ctlr_are_s, same_affinity,
}
use mini_visor_real_device.Gic.Distributor.Valid.{
  IsValid, get_enable-done, get_group-done, get_group_modifier-done, get_priority-done,
  get_router-done,
}
use mini_visor_real_device.Gic.Distributor.Status.{Pended, change_pending_status-Pended}

-- The CPU that the router register of interrupt `i` names is one of sixteen in its cluster, as
-- trigger_interrupt asserts.
abbrev pub IsRoutable : Distributor → ℕ → Type 0
IsRoutable d i = (r : ℕ) → get_router d i ≡ done r → (affinity r).aff0 < 16

-- A run that queues at most an entry and writes at most list registers and the SGI register.
record Sent (d : Distributor) (cpu : Cpu) (run : Exec (Distributor × Cpu)) : Type 0 where
  queue : List ℕ
  cpu' : Cpu
  runs : run ≡ done (record d { to_inject_interrupt = queue }, cpu')
  lrs : length cpu'.ich_lr ≡ length cpu.ich_lr

deliver-Sent :
    (d : Distributor) (cpu : Cpu) (router entry : ℕ)
    → (affinity router).aff0 < 16
    → Sent d cpu (deliver d cpu router entry)
unfolding deliver send_sgi
deliver-Sent d cpu router entry small =
    elim (Bool-cases (same_affinity (affinity router) (affinity cpu.mpidr_el1))) [
      | inl same ↦ record {
        queue = d.to_inject_interrupt;
        cpu' = add_virtual_interrupt entry cpu;
        runs = rw same;
        lrs = length-add_virtual_interrupt entry cpu;
      }
      | inr other ↦ record {
        queue = d.to_inject_interrupt ++ entry ∷ [];
        cpu' = set_icc_sgi1r_el1 (sgi1r (affinity router)) cpu;
        runs = rw (other, lt→ltb _ _ small);
        lrs = refl;
      }
    ]

forward-Sent :
    (d : Distributor) (cpu : Cpu) (i : ℕ) (p : Option ℕ)
    → IsValid d
    → i < 1020
    → IsRoutable d i
    → Sent d cpu (forward d cpu i p)
unfolding forward
forward-Sent d cpu i p valid lt routable =
    let (pr, ep, _) = get_priority-done valid i lt in
    let (r, er) = get_router-done valid i lt in
    let stay : Sent d cpu (done (d, cpu)) = record {
      queue = d.to_inject_interrupt;
      cpu' = cpu;
      runs = refl;
      lrs = refl;
    } in
    rw (get_group_modifier-done valid i (omega arith))
      (elim (Bool-cases (bank_bit d.group_modifier i == 1)) [
        | inl secure ↦ rw secure stay
        | inr normal ↦
            rw (normal, get_group-done valid i (omega arith), ep, er)
              (elim (Bool-cases (bit_and d.ctlr gicd_ctlr_are_s == 0)) [
                | inl legacy ↦ rw legacy stay
                | inr are ↦ rw are (deliver-Sent d cpu r _ (routable r er))
              ])
      ])

-- The guest has enabled the forwarding of Group 1 interrupts.
abbrev pub forwards : Distributor → Bool
forwards d = bit_and d.ctlr gicd_ctlr_enable_grp1ns != 0

-- What trigger_interrupt leaves behind.
pub record Triggered (d : Distributor) (cpu : Cpu) (i : ℕ) (p : Option ℕ) : Type 0 where
  pub regs : List ℕ
  pub queue : List ℕ
  pub cpu' : Cpu
  pub runs :
      trigger_interrupt d cpu i p
      ≡ done (record d { pending = regs; to_inject_interrupt = queue }, cpu')
  pub valid : IsValid (record d { pending = regs; to_inject_interrupt = queue })
  pub reads :
      (j : ℕ)
      → j < 1024
      → get_pending (record d { pending = regs; to_inject_interrupt = queue }) j
        ≡ (if forwards d && i == j then done true else get_pending d j)
  pub lrs : length cpu'.ich_lr ≡ length cpu.ich_lr

IsValid-queue :
    {d : Distributor} (q : List ℕ) → IsValid d → IsValid (record d { to_inject_interrupt = q })
IsValid-queue q valid = record {
  ctlr = valid.ctlr;
  group = valid.group;
  enable = valid.enable;
  pending = valid.pending;
  active = valid.active;
  priority = valid.priority;
  configuration = valid.configuration;
  group_modifier = valid.group_modifier;
  router = valid.router;
}

module _ (d : Distributor) (cpu : Cpu) (i : ℕ) (p : Option ℕ) (valid : IsValid d) where
  trigger_off : forwards d ≡ false → Triggered d cpu i p
  unfolding trigger_interrupt
  trigger_off off = record {
    regs = d.pending;
    queue = d.to_inject_interrupt;
    cpu' = cpu;
    runs = ground arith;
    valid = valid;
    reads = λ j lt. rw off;
    lrs = refl;
  }

  trigger_on :
      (s : Pended d i true)
      → forwards d ≡ true
      → (b : Bool) → get_enable (record d { pending = s.regs }) i ≡ done b
      → (f : Sent
          (record d { pending = s.regs })
          cpu
          (if b
            then forward (record d { pending = s.regs }) cpu i p
            else done (record d { pending = s.regs }, cpu)))
      → Triggered d cpu i p
  unfolding trigger_interrupt get_pending
  trigger_on s on b enabled f = record {
    regs = s.regs;
    queue = f.queue;
    cpu' = f.cpu';
    runs =
        let off : (bit_and d.ctlr gicd_ctlr_enable_grp1ns == 0) ≡ false = ground arith in
        rw (off, s.runs, enabled, f.runs);
    valid = IsValid-queue f.queue s.valid;
    reads = λ j lt. rw (on, s.reads j lt);
    lrs = f.lrs;
  }

  -- trigger_interrupt does not panic on a well-formed distributor, for an interrupt that has a router
  -- register and is routable. The distributor stays well formed and changes in `pending` and in its
  -- queue alone; get_pending answers yes for that interrupt if Group 1 is enabled, and as before
  -- for every other; and the CPU keeps its number of list registers.
  pub trigger_interrupt-Triggered : i < 1020 → IsRoutable d i → Triggered d cpu i p
  unfolding get_router
  trigger_interrupt-Triggered lt routable = elim (Bool-cases (forwards d)) [
    | inr off ↦ trigger_off off
    | inl on ↦
        let s = change_pending_status-Pended d i true valid (omega arith) in
        let e = get_enable-done s.valid i (omega arith) in
        trigger_on s on (bank_bit d.enable i != 0) e (elim (Bool-cases (bank_bit d.enable i != 0)) [
          | inl yes' ↦ rw yes' (forward-Sent _ cpu i p s.valid lt routable)
          | inr no' ↦
              rw no' (record { queue = d.to_inject_interrupt; cpu' = cpu; runs = refl; lrs = refl })
        ])
  ]

  -- On a well-formed distributor, to raise an interrupt below 1020 that is not enabled returns, and
  -- leaves the CPU and the queue as they are.
  pub trigger_interrupt-quiet :
      get_enable d i ≡ done false
      → i < 1020
      → (d' : Distributor) × (trigger_interrupt d cpu i p ≡ done (d', cpu))
        × (d'.to_inject_interrupt ≡ d.to_inject_interrupt)
  unfolding trigger_interrupt get_enable
  trigger_interrupt-quiet masked lt =
      elim (Bool-cases (bit_and d.ctlr gicd_ctlr_enable_grp1ns == 0)) [
        | inl off ↦ (d, rw off, refl)
        | inr on ↦
            let s = change_pending_status-Pended d i true valid (omega arith) in
            (record d { pending = s.regs }, rw (on, s.runs, masked), refl)
      ]
