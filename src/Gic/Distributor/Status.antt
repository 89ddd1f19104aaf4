-- ===== src/Gic/Distributor/Status.antt =====
-- change_pending_status, change_active_status and trigger_interrupt of GicDistributorMmio in
-- src/mmio/gicv3.rs: what they write.
use mini_visor_real_device.Base.{
  ℕ, ◌<◌, ◌≡◌, inl, inr, refl, arith, List, ◌!=◌, ◌==◌, Bool, true, false, done, if◌then◌else◌,
  Bool-cases,
}
use mini_visor_real_device.Gic.Bitmap.{bit, modify-SetBit}
use mini_visor_real_device.Gic.Distributor.{Distributor, change_pending_status, get_pending}
use mini_visor_real_device.Gic.Distributor.Valid.{IsValid, get_pending-done}

bit-ne-zero : (b : Bool) → (bit b != 0) ≡ b
bit-ne-zero true = refl
bit-ne-zero false = refl

-- The outcome of a change of interrupt `i`'s pending status to `b`.
pub record Pended (d : Distributor) (i : ℕ) (b : Bool) : Type 0 where
  pub regs : List ℕ
  pub runs : change_pending_status d i b ≡ done (record d { pending = regs })
  pub valid : IsValid (record d { pending = regs })
  pub reads :
      (j : ℕ)
      → j < 1024
      → get_pending (record d { pending = regs }) j ≡ (if i == j then done b else get_pending d j)

-- change_pending_status runs for each interrupt below 1024 of a well-formed distributor. It changes
-- no other register array, keeps the distributor well formed, and get_pending then answers the
-- new status for that interrupt and the old one for any other.
pub change_pending_status-Pended :
    (d : Distributor) (i : ℕ) (b : Bool) → IsValid d → i < 1024 → Pended d i b
unfolding change_pending_status
change_pending_status-Pended d i b valid lt =
    let s = modify-SetBit d.pending i b valid.pending (omega arith) in
    let v : IsValid (record d { pending = s.regs' }) = record {
      ctlr = valid.ctlr;
      group = valid.group;
      enable = valid.enable;
      pending = s.bank;
      active = valid.active;
      priority = valid.priority;
      configuration = valid.configuration;
      group_modifier = valid.group_modifier;
      router = valid.router;
    } in
    record {
      regs = s.regs';
      runs = rw s.runs;
      valid = v;
      reads = λ j lj.
          rw (get_pending-done v j lj, get_pending-done valid j lj, s.bits j)
            (elim (Bool-cases (i == j)) [
              | inl same ↦ rw (same, bit-ne-zero b)
              | inr other ↦ rw other
            ]);
    }
