-- ===== src/Psci/Codes.antt =====
-- src/psci.rs: the answers of the firmware and what the callers get.
use mini_visor_real_device.Base.{
  ℕ, ◌+◌, ◌*◌, ◌-◌, ◌^◌, ◌/◌, ◌%◌, ◌<◌, ◌≡◌, ◌≢◌, ◌↔◌, refl, arith, bit_and_mask, ◌==◌, as_word,
  false,
}
use mini_visor_real_device.Psci.{
  PsciErrorCodes, success, not_supported, invalid_parameters, denied, already_on, on_pending,
  internal_failure, not_present, disabled, invalid_address, unknown, from_u64, ok,
  check_psci_version, cpu_on, minus, psci_version, psci_cpu_on,
}

-- The number n for which the firmware answers -n.
abbrev pub code : PsciErrorCodes → ℕ
code success = 0
code not_supported = 1
code invalid_parameters = 2
code denied = 3
code already_on = 4
code on_pending = 5
code internal_failure = 6
code not_present = 7
code disabled = 8
code invalid_address = 9
code unknown = 10

-- An answer is the code c exactly when its low 32 bits are those of -n, for the n of c; this holds of
-- each code but `unknown`, which stands for every other answer.
pub from_u64_iff :
    (value : ℕ) (c : PsciErrorCodes)
    → c ≢ unknown
    → (from_u64 value ≡ c) ↔ ((value + code c) % 2 ^ 32 ≡ 0)
unfolding from_u64
from_u64_iff value success h = ground arith
from_u64_iff value not_supported h = ground arith
from_u64_iff value unknown h = absurd (h refl)
from_u64_iff value _ h = ground arith

-- cpu_on succeeds exactly when the low 32 bits of the firmware's answer are 0, whatever the high ones.
pub cpu_on-ok_iff :
    (smc : ℕ → ℕ → ℕ → ℕ → ℕ) (target entry argument : ℕ)
    → (cpu_on smc target entry argument ≡ ok tt)
      ↔ (smc psci_cpu_on target entry argument % 2 ^ 32 ≡ 0)
unfolding cpu_on
cpu_on-ok_iff smc target entry argument = ground arith

-- A version that is not -1 is returned in its two halves.
pub check_psci_version-halves :
    (smc : ℕ → ℕ → ℕ → ℕ → ℕ)
    → smc psci_version 0 0 0 < 2 ^ 32 - 1
    → (major : ℕ) × (minor : ℕ) × (check_psci_version smc ≡ ok (major, minor))
      × (smc psci_version 0 0 0 ≡ major * 2 ^ 16 + minor)
      × (minor < 2 ^ 16)
unfolding check_psci_version
check_psci_version-halves smc small =
    let v = smc psci_version 0 0 0 in
    let m = bit_and_mask 16 v in
    let not_minus : (as_word 32 v == minus 1) ≡ false = ground arith in
    (as_word 16 (v / 2 ^ 16), as_word 16 (v % 2 ^ 16), rw (not_minus, m), omega arith, omega arith)
