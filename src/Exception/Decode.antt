-- ===== src/Exception/Decode.antt =====
-- How the handlers of src/exception.rs take the syndrome and the address registers apart.
use mini_visor_real_device.Base.{
  ℕ, zero, suc, ◌+◌, ◌-◌, ◌*◌, ◌/◌, ◌%◌, ◌^◌, ◌<◌, ◌≡◌, refl, ◌∙◌, bit_and, ◌!=◌, ◌==◌,
  if◌then◌else◌, Exec, done, panic, ◌>>=◌, arith, ◌<<<◌, ◌>>>◌, bit_and_shifted, bit_and_mask,
  bit_or_fields, ap,
}
use native.Mathlib.Nat.{one-le-pow, mul-div_cancel}
use mini_visor_real_device.Vm.{Hypervisor}
use mini_visor_real_device.Exception.{
  Trap, fault_address, access_width_of, data_abort_handler, synchronous_handler, emulate,
  advance_elr_el2, esr_el2_ec_data_abort, esr_el2_ec,
}

-- The field of `n` bits at bit `k` of a syndrome, as the code cuts it out.
field_eq : (k n a : ℕ) → (bit_and a ((2 ^ n - 1) <<< k)) >>> k ≡ a / 2 ^ k % 2 ^ n
field_eq k n a =
    rw (bit_and_shifted k a (2 ^ n - 1), bit_and_mask n (a / 2 ^ k))
      (mul-div_cancel (a / 2 ^ k % 2 ^ n) (omega (arith, one-le-pow k 2)))

flag_eq : (k a : ℕ) → bit_and a (1 <<< k) ≡ a / 2 ^ k % 2 * 2 ^ k
flag_eq k a = bit_and_shifted k a 1 ∙ ap (λ x. x * 2 ^ k) (bit_and_mask 1 (a / 2 ^ k))

-- The address that the handler computes is the page number of HPFAR_EL2, bits 43 to 4, followed by
-- the low twelve bits of FAR_EL2.
pub fault_address-Composed :
    (hpfar_el2 far_el2 : ℕ)
    → fault_address hpfar_el2 far_el2 ≡ hpfar_el2 % 2 ^ 44 / 2 ^ 4 * 2 ^ 12 + far_el2 % 2 ^ 12
unfolding fault_address
fault_address-Composed hpfar_el2 far_el2 =
    let page : bit_and hpfar_el2 (2 ^ 44 - 2 ^ 4) ≡ hpfar_el2 / 16 % 2 ^ 40 * 16 =
      bit_and_shifted 4 hpfar_el2 (2 ^ 40 - 1)
      ∙ ap (λ x. x * 16) (bit_and_mask 40 (hpfar_el2 / 16)) in
    let offset : bit_and far_el2 (2 ^ 12 - 1) ≡ far_el2 % 4096 = bit_and_mask 12 far_el2 in
    rw (page, offset)
      (bit_or_fields 12 (hpfar_el2 / 16 % 2 ^ 40 * 16 / 16) (far_el2 % 4096) (omega arith)
        ∙ omega arith)

-- The syndrome of a data abort, by the fields of the architecture: those the handler reads, and
-- the bits between them.
pub record Syndrome : Type 0 where
  pub il : ℕ
  pub isv : ℕ
  pub sas : ℕ
  pub sse : ℕ
  pub srt : ℕ
  pub sf : ℕ
  pub ar_to_s1ptw : ℕ
  pub wnr : ℕ
  pub dfsc : ℕ

-- Every field fits its bits.
pub record IsSyndrome (y : Syndrome) : Type 0 where
  pub il_lt : y.il < 2
  pub isv_lt : y.isv < 2
  pub sas_lt : y.sas < 4
  pub sse_lt : y.sse < 2
  pub srt_lt : y.srt < 32
  pub sf_lt : y.sf < 2
  pub ar_to_s1ptw_lt : y.ar_to_s1ptw < 256
  pub wnr_lt : y.wnr < 2
  pub dfsc_lt : y.dfsc < 64

unfoldable pub encode : Syndrome → ℕ
encode y =
    0b100100 * 2 ^ 26
    + y.il * 2 ^ 25
    + y.isv * 2 ^ 24
    + y.sas * 2 ^ 22
    + y.sse * 2 ^ 21
    + y.srt * 2 ^ 16
    + y.sf * 2 ^ 15
    + y.ar_to_s1ptw * 2 ^ 7
    + y.wnr * 2 ^ 6
    + y.dfsc

module _ (y : Syndrome) (ok : IsSyndrome y) where
  sas_eq : bit_and (encode y) (0b11 <<< 22) >>> 22 ≡ y.sas
  unfolding encode
  sas_eq = field_eq 22 2 (encode y) ∙ omega arith

  srt_eq : bit_and (encode y) (0b11111 <<< 16) >>> 16 ≡ y.srt
  unfolding encode
  srt_eq = field_eq 16 5 (encode y) ∙ omega arith

  class_eq : bit_and (encode y) esr_el2_ec ≡ esr_el2_ec_data_abort
  unfolding encode
  class_eq =
      let e : bit_and (encode y / 2 ^ 26) (2 ^ 6 - 1) ≡ 36 =
        bit_and_mask 6 (encode y / 2 ^ 26) ∙ omega arith in
      bit_and_shifted 26 (encode y) 0b111111 ∙ ap (λ x. x * 2 ^ 26) e

  isv_eq : (bit_and (encode y) (1 <<< 24) == 0) ≡ (y.isv == 0)
  unfolding encode
  isv_eq =
      let e : bit_and (encode y) (1 <<< 24) ≡ y.isv * 2 ^ 24 =
        flag_eq 24 (encode y) ∙ omega arith in
      rw e (ground arith)

  sf_eq : (bit_and (encode y) (1 <<< 15) != 0) ≡ (y.sf == 1)
  unfolding encode
  sf_eq =
      let e : bit_and (encode y) (1 <<< 15) ≡ y.sf * 2 ^ 15 = flag_eq 15 (encode y) ∙ omega arith in
      rw e (ground arith)

  wnr_eq : (bit_and (encode y) (1 <<< 6) != 0) ≡ (y.wnr == 1)
  unfolding encode
  wnr_eq =
      let e : bit_and (encode y) (1 <<< 6) ≡ y.wnr * 2 ^ 6 = flag_eq 6 (encode y) ∙ omega arith in
      rw e (ground arith)

-- The size of an access in bits, as the architecture numbers it.
access_width_of_lem : (sas : ℕ) → sas < 4 → access_width_of sas ≡ done (8 * 2 ^ sas)
unfolding access_width_of
access_width_of_lem zero h = refl
access_width_of_lem (suc zero) h = refl
access_width_of_lem (suc (suc zero)) h = refl
access_width_of_lem (suc (suc (suc zero))) h = refl
access_width_of_lem (suc (suc (suc (suc n)))) h = absurd (omega arith)

-- What a guest's access with that syndrome does: without valid syndrome information the hypervisor
-- panics; otherwise it emulates the access that the fields describe, and the guest goes on at the
-- next instruction.
unfoldable pub access : {S : Type 0} → Hypervisor S → S → Trap → Syndrome → Exec (Trap × S)
access h s t y =
    if y.isv == 0
    then panic
    else emulate h s t (y.wnr == 1) (y.sf == 1) (8 * 2 ^ y.sas) y.srt
        (t.hpfar_el2 % 2 ^ 44 / 2 ^ 4 * 2 ^ 12 + t.far_el2 % 2 ^ 12)
      >>= (λ (t', s'). done (record t' { elr_el2 = (t'.elr_el2 + 4) % 2 ^ 64 }, s'))

-- The trap of a data abort whose syndrome is made of fields that each fit their bits is handled as
-- the architecture describes the access: its direction, the width of its register, its size, its
-- register and its address; it panics where the syndrome is not valid.
pub synchronous_handler-access :
    {S : Type 0} (h : Hypervisor S) (s : S) (t : Trap) (y : Syndrome)
    → IsSyndrome y
    → t.esr_el2 ≡ encode y
    → synchronous_handler h s t ≡ access h s t y
unfolding synchronous_handler data_abort_handler access advance_elr_el2
synchronous_handler-access h s t y ok eq =
    rw
      (
        eq,
        class_eq y ok,
        isv_eq y ok,
        sas_eq y ok,
        srt_eq y ok,
        sf_eq y ok,
        wnr_eq y ok,
        access_width_of_lem y.sas ok.sas_lt,
        fault_address-Composed t.hpfar_el2 t.far_el2,
      )
      refl
