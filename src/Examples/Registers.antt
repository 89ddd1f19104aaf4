-- ===== src/Examples/Registers.antt =====
-- Accesses of a guest to the registers of its GIC.
use mini_visor_real_device.Base.{ℕ, ◌≡◌, ◌↔◌, arith, panic}
use mini_visor_real_device.Gic.Distributor.{new}
use mini_visor_real_device.Gic.Distributor.Mmio.{read, write}
use mini_visor_real_device.Gic.Distributor.Valid.{new-IsValid}
use mini_visor_real_device.Gic.Distributor.Layout.{PastIgrpmodr, read-panic_iff}
use mini_visor_real_device.Gic.Distributor.Write.{Allowed, Written, write-Written}
use mini_visor_real_device.Gic.Distributor.Router.{Misfiled, write-Misfiled}
use mini_visor_real_device.Gic.Redistributor.Mmio as RedistributorMmio
use mini_visor_real_device.Gic.Redistributor.Trigger as RedistributorTrigger
use mini_visor_real_device.Gic.Redistributor.Access.{write-Runs}
use mini_visor_real_device.Examples.Data.{
  cpu0, all_enabled, all_enabled-IsValid, all_enabled-AllRoutable, redistributor0,
  redistributor0-IsValid, redistributor0-IsRoutable,
}

read-panic_iff_example : (read new 0xD80 32 ≡ panic) ↔ (PastIgrpmodr 0xD80 × (◌≡◌ {A = ℕ} 32 32))
read-panic_iff_example = read-panic_iff new 0xD80 32 new-IsValid

-- Setting the pending bit of the UART's interrupt.
pend-Allowed : Allowed 0x204 32 2
pend-Allowed = record {
  inside = λ h. omega arith;
  word = λ h. omega arith;
  enabling = λ h h'. omega arith;
  pending = λ h h'. omega arith;
}

write-Written_example : Written cpu0 (write all_enabled cpu0 0x204 32 2)
write-Written_example =
    write-Written all_enabled cpu0 all_enabled-IsValid all_enabled-AllRoutable 0x204 32 2
      pend-Allowed

write-Misfiled_example : Misfiled new cpu0 33 5
write-Misfiled_example = write-Misfiled new cpu0 33 5 new-IsValid (omega arith) (omega arith)

write-Runs_example :
    RedistributorTrigger.Runs redistributor0 cpu0
      (RedistributorMmio.write redistributor0 cpu0 0x10200 32 2)
write-Runs_example =
    write-Runs redistributor0 cpu0 0x10200 32 2 redistributor0-IsValid redistributor0-IsRoutable
