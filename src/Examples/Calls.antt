-- ===== src/Examples/Calls.antt =====
-- Calls of the firmware, and a trap of the guest.
use mini_visor_real_device.Base.{
  ℕ, ◌+◌, ◌^◌, ◌%◌, ◌≡◌, ◌↔◌, refl, arith, ◌==◌, if◌then◌else◌, [], none, replicate,
}
use mini_visor_real_device.Psci.{denied, from_u64, psci_version}
use mini_visor_real_device.Psci.Codes.{from_u64_iff}
use mini_visor_real_device.Vm.{Hypervisor}
use mini_visor_real_device.Exception.{Trap, synchronous_handler}
use mini_visor_real_device.Exception.Decode.{
  Syndrome, IsSyndrome, encode, access, synchronous_handler-access,
}

from_u64_iff_example : (from_u64 0xFFFFFFFD ≡ denied) ↔ ((0xFFFFFFFD + 3) % 2 ^ 32 ≡ 0)
from_u64_iff_example = from_u64_iff 0xFFFFFFFD denied (λ e. ground arith)

-- A firmware of version 1.1 that starts every CPU.
abbrev firmware : ℕ → ℕ → ℕ → ℕ → ℕ
firmware function a b c = if function == psci_version then 0x10001 else 0

-- A 32-bit store of register 3.
abbrev store : Syndrome
store = record {
  il = 1;
  isv = 1;
  sas = 2;
  sse = 0;
  srt = 3;
  sf = 0;
  ar_to_s1ptw = 0;
  wnr = 1;
  dfsc = 7;
}

store-IsSyndrome : IsSyndrome store
store-IsSyndrome = record {
  il_lt = omega arith;
  isv_lt = omega arith;
  sas_lt = omega arith;
  sse_lt = omega arith;
  srt_lt = omega arith;
  sf_lt = omega arith;
  ar_to_s1ptw_lt = omega arith;
  wnr_lt = omega arith;
  dfsc_lt = omega arith;
}

abbrev trap : Trap
trap = record {
  registers = replicate 32 7;
  esr_el2 = encode store;
  hpfar_el2 = 0x90000;
  far_el2 = 0x18;
  elr_el2 = 0x40080000;
}

abbrev alone : Hypervisor Unit
alone = record { vm_list = []; active_vm = none; tpidr_el2 = 0 }

synchronous_handler-access_example : synchronous_handler alone tt trap ≡ access alone tt trap store
synchronous_handler-access_example =
    synchronous_handler-access alone tt trap store store-IsSyndrome refl
