-- ===== src/Gic/Redistributor/Trigger.antt =====
-- trigger_interrupt and the MMIO accesses of GicRedistributorMmio in src/mmio/gicv3.rs do not panic.
use mini_visor_real_device.Base.{
  ℕ, ◌*◌, ◌^◌, ◌/◌, ◌%◌, ◌<◌, ◌≡◌, refl, arith, bit_and, [], ◌∷◌, ◌++◌, Option, not, ◌!=◌, ◌==◌,
  true, Exec, done, length, lt→ltb, if-elim, ◌>>>◌,
}
use mini_visor_real_device.Cpu.{Cpu, set_icc_sgi1r_el1, mpidr_to_affinity}
use mini_visor_real_device.Vgic.{add_virtual_interrupt, create_list_register_entry}
use mini_visor_real_device.Vgic.Inject.{length-add_virtual_interrupt}
use mini_visor_real_device.Gic.Common.{send_sgi, sgi1r, affinity, set_bit}
use mini_visor_real_device.Gic.Bitmap.{IsBank, set_bit-lt}
use mini_visor_real_device.Gic.Distributor.Valid.{index_some}
use mini_visor_real_device.Gic.Redistributor.{
  Redistributor, get_enable, get_group, get_group_modifier, get_priority, deliver,
  trigger_interrupt, gicr_waker_children_asleep,
}

-- The registers are words, and the arrays have the lengths of the source's types.
pub record IsValid (r : Redistributor) : Type 0 where
  pub ctlr : r.ctlr < 2 ^ 32
  pub waker : r.waker < 2 ^ 32
  pub group : r.group < 2 ^ 32
  pub enable : r.enable < 2 ^ 32
  pub pending : r.pending < 2 ^ 32
  pub active : r.active < 2 ^ 32
  pub group_modifier : r.group_modifier < 2 ^ 32
  pub priority : IsBank 8 r.priority
  pub configuration : IsBank 2 r.configuration

-- The virtual CPU runs on a physical one that ICC_SGI1R_EL1 can name.
abbrev pub IsRoutable : Redistributor → Type 0
IsRoutable r = (affinity r.affinity_value).aff0 < 16

-- A run that returned a well-formed redistributor of the same virtual CPU.
pub record Runs (r : Redistributor) (cpu : Cpu) (run : Exec (Redistributor × Cpu)) : Type 0 where
  pub r' : Redistributor
  pub cpu' : Cpu
  pub runs : run ≡ done (r', cpu')
  pub valid : IsValid r'
  pub same : r'.affinity_value ≡ r.affinity_value
  pub lrs : length cpu'.ich_lr ≡ length cpu.ich_lr

pub stay : {r : Redistributor} (cpu : Cpu) → IsValid r → Runs r cpu (done (r, cpu))
stay {r} cpu valid = record {
  r' = r;
  cpu' = cpu;
  runs = refl;
  valid = valid;
  same = refl;
  lrs = refl;
}

deliver-Runs :
    (r : Redistributor) (cpu : Cpu) (entry : ℕ)
    → IsValid r
    → IsRoutable r
    → Runs r cpu (deliver r cpu entry)
unfolding deliver send_sgi
deliver-Runs r cpu entry valid routable =
    if-elim (Runs r cpu) (r.affinity_value == mpidr_to_affinity cpu.mpidr_el1)
      (λ _. record {
        r' = r;
        cpu' = add_virtual_interrupt entry cpu;
        runs = refl;
        valid = valid;
        same = refl;
        lrs = length-add_virtual_interrupt entry cpu;
      })
      λ _. rw (lt→ltb _ _ routable) (record {
        r' = record r { to_inject_interrupt = r.to_inject_interrupt ++ entry ∷ [] };
        cpu' = set_icc_sgi1r_el1 (sgi1r (affinity r.affinity_value)) cpu;
        runs = refl;
        valid = assumption;
        same = refl;
        lrs = refl;
      })

get_priority-done :
    (r : Redistributor) (i : ℕ) → IsValid r → i < 32 → (p : ℕ) × (get_priority r i ≡ done p)
unfolding get_priority
get_priority-done r i valid lt =
    let (w, e) = index_some r.priority (i / 4) (omega (arith, valid.priority.size)) in
    (bit_and (w >>> (i % 4 * 8)) 0xFF, rw e)

pended-IsValid :
    (r : Redistributor) (i : ℕ)
    → IsValid r
    → i < 32
    → IsValid (record r { pending = set_bit true i r.pending })
pended-IsValid r i valid lt =
    let small : set_bit true i r.pending < 2 ^ 32 = set_bit-lt true i r.pending lt valid.pending in
    assumption

-- trigger_interrupt does not panic for a private interrupt of a well-formed, routable redistributor,
-- which stays well formed and keeps its affinity; the CPU keeps its number of list registers.
pub trigger_interrupt-Runs :
    (r : Redistributor) (cpu : Cpu) (i : ℕ) (p : Option ℕ)
    → IsValid r
    → IsRoutable r
    → i < 32
    → Runs r cpu (trigger_interrupt r cpu i p)
unfolding trigger_interrupt
trigger_interrupt-Runs r cpu i p valid routable lt =
    let v = pended-IsValid r i valid lt in
    let r' : Redistributor = record r { pending = set_bit true i r.pending } in
    let pended : Runs r cpu (done (r', cpu)) = record {
      r' = r';
      cpu' = cpu;
      runs = refl;
      valid = v;
      same = refl;
      lrs = refl;
    } in
    let (pr, e) = get_priority-done r' i v lt in
    if-elim (Runs r cpu) (bit_and r.waker gicr_waker_children_asleep != 0) (λ _. stay cpu valid)
      λ _.
        if-elim (Runs r cpu) (not (get_enable r' i)) (λ _. pended)
          λ _.
            if-elim (Runs r cpu) (get_group_modifier r' i == 1) (λ _. pended)
              λ _. rw e (
                let d =
                  deliver-Runs r' cpu (create_list_register_entry i (get_group r' i) pr p) v
                    routable in
                record {
                  r' = d.r';
                  cpu' = d.cpu';
                  runs = d.runs;
                  valid = d.valid;
                  same = d.same;
                  lrs = d.lrs;
                })
