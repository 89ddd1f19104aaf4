-- ===== src/Examples/Data.antt =====
-- Test data: a CPU, and distributors and redistributors as a guest leaves them.
use mini_visor_real_device.Base.{
  ℕ, ◌-◌, ◌^◌, ◌<◌, ◌≡◌, arith, [], ◌∷◌, done, replicate, get_elem?-replicate, subst,
}
use mini_visor_real_device.Cpu.{Cpu}
use mini_visor_real_device.Gic.Common.{affinity}
use mini_visor_real_device.Gic.Distributor.{Distributor, new, get_router}
use mini_visor_real_device.Gic.Distributor.Valid.{IsValid, new-IsValid, IsBank-replicate}
use mini_visor_real_device.Gic.Redistributor as RedistributorModule
use mini_visor_real_device.Gic.Redistributor.{Redistributor}
use mini_visor_real_device.Gic.Redistributor.Trigger as RedistributorTrigger
use mini_visor_real_device.Gic.Distributor.Loop.{AllRoutable}

-- A CPU with three free list registers, at affinity 0.
abbrev pub cpu0 : Cpu
cpu0 = record {
  ich_lr = 0 ∷ 0 ∷ 0 ∷ [];
  ich_vtr = 3;
  ich_eisr = 0;
  mpidr_el1 = 2 ^ 31;
  icc_sgi1r = [];
}

-- Every interrupt enabled, and Group 1 forwarded with affinity routing.
abbrev pub all_enabled : Distributor
all_enabled = record new { ctlr = 18; enable = replicate 32 (2 ^ 32 - 1) }

pub all_enabled-IsValid : IsValid all_enabled
all_enabled-IsValid = record {
  ctlr = omega arith;
  group = new-IsValid.group;
  enable = IsBank-replicate 32 (2 ^ 32 - 1) (omega arith);
  pending = new-IsValid.pending;
  active = new-IsValid.active;
  priority = new-IsValid.priority;
  configuration = new-IsValid.configuration;
  group_modifier = new-IsValid.group_modifier;
  router = new-IsValid.router;
}

affinity_zero : (r : ℕ) → 0 ≡ r → (affinity r).aff0 < 16
affinity_zero r e = subst (λ x. (affinity x).aff0 < 16) e (unfold affinity in omega arith)

pub all_enabled-AllRoutable : AllRoutable all_enabled
unfolding new get_router
all_enabled-AllRoutable i lt r e =
    let at = get_elem?-replicate {A = ℕ} 1020 i 0 lt in
    let here : done 0 ≡ done r = rw at at e in let same : 0 ≡ r = cc in affinity_zero r same

abbrev pub redistributor0 : Redistributor
redistributor0 = record (RedistributorModule.new (2 ^ 31)) { waker = 0; enable = 2 ^ 32 - 1 }

pub redistributor0-IsValid : RedistributorTrigger.IsValid redistributor0
unfolding RedistributorModule.new
redistributor0-IsValid = record {
  ctlr = omega arith;
  waker = omega arith;
  group = omega arith;
  enable = omega arith;
  pending = omega arith;
  active = omega arith;
  group_modifier = omega arith;
  priority = IsBank-replicate 8 0 (omega arith);
  configuration = IsBank-replicate 2 0 (omega arith);
}

pub redistributor0-IsRoutable : RedistributorTrigger.IsRoutable redistributor0
unfolding RedistributorModule.new affinity
redistributor0-IsRoutable = omega arith
