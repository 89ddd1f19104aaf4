-- ===== src/Exception.antt =====
-- src/exception.rs: a guest's access to an address that no memory backs traps, and is emulated.
-- The constants are those of src/registers.rs.
pub mod Decode
use mini_visor_real_device.Base.{
  ℕ, ◌+◌, ◌-◌, ◌^◌, ◌%◌, bit_and, bit_or, Bool, Option, none, some, List, ◌!=◌, ◌==◌, if◌then◌else◌,
  Exec, done, panic, ◌>>=◌, ◌>>◌, index, set, ◌<<<◌, ◌>>>◌, unwrap,
}
use mini_visor_real_device.Vm.{Vm, Hypervisor, get_current_vm, handle_mmio_read, handle_mmio_write}

abbrev pub esr_el2_ec_bits_offset : ℕ
esr_el2_ec_bits_offset = 26

abbrev pub esr_el2_ec : ℕ
esr_el2_ec = 0b111111 <<< esr_el2_ec_bits_offset

abbrev pub esr_el2_ec_data_abort : ℕ
esr_el2_ec_data_abort = 0b100100 <<< 26

abbrev pub esr_el2_iss_isv : ℕ
esr_el2_iss_isv = 1 <<< 24

abbrev pub esr_el2_iss_sas_bits_offset : ℕ
esr_el2_iss_sas_bits_offset = 22

abbrev pub esr_el2_iss_sas : ℕ
esr_el2_iss_sas = 0b11 <<< esr_el2_iss_sas_bits_offset

abbrev pub esr_el2_iss_srt_bits_offset : ℕ
esr_el2_iss_srt_bits_offset = 16

abbrev pub esr_el2_iss_srt : ℕ
esr_el2_iss_srt = 0b11111 <<< esr_el2_iss_srt_bits_offset

abbrev pub esr_el2_iss_sf : ℕ
esr_el2_iss_sf = 1 <<< 15

abbrev pub esr_el2_iss_wnr : ℕ
esr_el2_iss_wnr = 1 <<< 6

abbrev pub hpfar_el2_fipa_bits_offset : ℕ
hpfar_el2_fipa_bits_offset = 4

-- `((1 << 44) - 1) & !((1 << 4) - 1)`
abbrev pub hpfar_el2_fipa : ℕ
hpfar_el2_fipa = 2 ^ 44 - 2 ^ 4

abbrev pub page_shift : ℕ
page_shift = 12

-- What the vector saved of the guest, and the system registers of the exception.
pub record Trap : Type 0 where
  pub registers : List ℕ
  pub esr_el2 : ℕ
  pub hpfar_el2 : ℕ
  pub far_el2 : ℕ
  pub elr_el2 : ℕ

-- The address that the guest accessed: the page is in HPFAR_EL2, the offset in FAR_EL2.
unfoldable pub fault_address : (hpfar_el2 far_el2 : ℕ) → ℕ
fault_address hpfar_el2 far_el2 =
    bit_or ((bit_and hpfar_el2 hpfar_el2_fipa >>> hpfar_el2_fipa_bits_offset) <<< page_shift)
      (bit_and far_el2 (1 <<< page_shift - 1))

unfoldable pub access_width_of : ℕ → Exec ℕ
access_width_of sas =
    if sas == 0b00
    then done 8
    else if sas == 0b01
    then done 16
    else if sas == 0b10
    then done 32
    else if sas == 0b11
    then done 64
    else panic

unfoldable pub advance_elr_el2 : Trap → Trap
advance_elr_el2 t = record t { elr_el2 = (t.elr_el2 + 4) % 2 ^ 64 }

module _ {S : Type 0} where
  -- The access of the guest, once the syndrome is taken apart. `expect` panics on Err.
  unfoldable pub emulate :
      Hypervisor S
      → S
      → Trap
      → (is_write_access is_64bit_register : Bool) → (access_width register_number address : ℕ)
      → Exec (Trap × S)
  emulate h s t is_write_access is_64bit_register access_width register_number address = do
    register ← index t.registers register_number
    vm ← get_current_vm h
    if is_write_access
        then (do
          (r, s') ←
              handle_mmio_write vm s address access_width
                (if is_64bit_register then register else bit_and register (2 ^ 32 - 1))
          unwrap r
          done (t, s'))
        else (do
          (r, s') ← handle_mmio_read vm s address access_width
          value ← unwrap r
          done (record t { registers = set t.registers register_number value }, s'))

  unfoldable pub data_abort_handler : Hypervisor S → S → Trap → Exec (Trap × S)
  unfolding emulate fault_address access_width_of
  data_abort_handler h s t = if bit_and t.esr_el2 esr_el2_iss_isv == 0 then panic else do
    access_width ←
        access_width_of (bit_and t.esr_el2 esr_el2_iss_sas >>> esr_el2_iss_sas_bits_offset)
    (t', s') ←
        emulate h s t (bit_and t.esr_el2 esr_el2_iss_wnr != 0)
          (bit_and t.esr_el2 esr_el2_iss_sf != 0) access_width
          (bit_and t.esr_el2 esr_el2_iss_srt >>> esr_el2_iss_srt_bits_offset)
          (fault_address t.hpfar_el2 t.far_el2)
    done (advance_elr_el2 t', s')

  unfoldable pub synchronous_handler : Hypervisor S → S → Trap → Exec (Trap × S)
  unfolding data_abort_handler
  synchronous_handler h s t =
      if bit_and t.esr_el2 esr_el2_ec == esr_el2_ec_data_abort
      then data_abort_handler h s t
      else panic
