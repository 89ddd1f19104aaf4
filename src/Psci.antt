-- ===== src/Psci.antt =====
-- src/psci.rs: calls of the PSCI firmware. `smc`, the firmware behind the call of src/asm.rs, is a parameter.
pub mod Codes
use mini_visor_real_device.Base.{
  ℕ, ◌-◌, ◌^◌, ◌/◌, ◌%◌, bit_and, ◌==◌, if◌then◌else◌, as_word, ◌>>>◌, ◌<<<◌, ◌*◌,
}

pub data PsciErrorCodes : Type 0 where
  success not_supported invalid_parameters denied already_on on_pending internal_failure not_present
        disabled invalid_address unknown :
      PsciErrorCodes

abbrev pub psci_version : ℕ
psci_version = 0x8400_0000

abbrev pub psci_cpu_on : ℕ
psci_cpu_on = 0xC400_0003

-- The bits of the i32 -n
abbrev pub minus : ℕ → ℕ
minus n = 2 ^ 32 - n

-- From<u64>: `value as i32` keeps the low 32 bits, and is compared with 0 to -9.
unfoldable pub from_u64 : ℕ → PsciErrorCodes
from_u64 value =
    let v = as_word 32 value in
    if v == 0
    then success
    else if v == minus 1
    then not_supported
    else if v == minus 2
    then invalid_parameters
    else if v == minus 3
    then denied
    else if v == minus 4
    then already_on
    else if v == minus 5
    then on_pending
    else if v == minus 6
    then internal_failure
    else if v == minus 7
    then not_present
    else if v == minus 8
    then disabled
    else if v == minus 9
    then invalid_address
    else unknown

pub data PsciResult (A : Type 0) : Type 0 where
  ok : A → PsciResult A
  err : PsciErrorCodes → PsciResult A

-- What the code does with the answer of the firmware.
module _ (smc : ℕ → ℕ → ℕ → ℕ → ℕ) where
  unfoldable pub check_psci_version : PsciResult (ℕ × ℕ)
  check_psci_version =
      let version = smc psci_version 0 0 0 in
      if as_word 32 version == minus 1
      then err not_supported
      else ok (as_word 16 (version >>> 16), as_word 16 (bit_and version (2 ^ 16 - 1)))

  unfoldable pub cpu_on : (target_cpu entry_point argument : ℕ) → PsciResult (Unit {0})
  unfolding from_u64
  cpu_on target_cpu entry_point argument =
      elim (from_u64 (smc psci_cpu_on target_cpu entry_point argument)) [
        | success ↦ ok tt
        | error_code ↦ err error_code
      ]
