-- ===== src/Vgic/Entry.antt =====
-- create_list_register_entry of src/vgic.rs: the fields of an entry, and reading them back.
use mini_visor_real_device.Base.{
  ℕ, ◌+◌, ◌*◌, ◌/◌, ◌%◌, ◌^◌, ◌<◌, ◌≡◌, refl, arith, Option, none, some, bit_or, bit_and, ◌<<<◌,
  bit_or_split, bit_or-zero, bit_or_add, bit_or_comm, bit_and_mask, bit_and_shifted,
}
use mini_visor_real_device.Vgic.{
  create_list_register_entry, ich_lrn_el2_status_pending, ich_lrn_el2_status, ich_lrn_el2_vintid,
}

-- The arguments fit their fields: a 32-bit identifier, one bit of group, a byte of priority.
pub record FitsEntry (int_id group priority : ℕ) : Type 0 where
  pub id_fits : int_id < 2 ^ 32
  pub group_fits : group < 2
  pub priority_fits : priority < 256

module _ {int_id group priority : ℕ} (fits : FitsEntry int_id group priority) where
  open fits use {id_fits, group_fits, priority_fits}

  base_fields :
      bit_or (bit_or (bit_or ich_lrn_el2_status_pending (group <<< 60)) (priority <<< 48)) int_id
      ≡ 2 ^ 62 + group * 2 ^ 60 + priority * 2 ^ 48 + int_id
  base_fields =
      let a = bit_or_add 62 (2 ^ 62) (group * 2 ^ 60) (omega arith) (omega arith) in
      let b =
        bit_or_add 60 (2 ^ 62 + group * 2 ^ 60) (priority * 2 ^ 48) (omega arith) (omega arith) in
      let c =
        bit_or_add 48 (2 ^ 62 + group * 2 ^ 60 + priority * 2 ^ 48) int_id (omega arith)
          (omega arith) in
      rw (a, b, c)

  -- A software interrupt: pending in 63:62, the group in 60, the priority in 55:48, the request for
  -- a maintenance interrupt in 41, and the virtual identifier in 31:0.
  pub create_list_register_entry-none :
      create_list_register_entry int_id group priority none
      ≡ 2 ^ 62 + group * 2 ^ 60 + priority * 2 ^ 48 + 2 ^ 41 + int_id
  unfolding create_list_register_entry
  create_list_register_entry-none =
      let q : ℕ = 2 ^ 14 + group * 2 ^ 12 + priority in
      let s : bit_or (q * 2 ^ 48 + int_id) (2 ^ 41) ≡ bit_or q 0 * 2 ^ 48 + bit_or int_id (2 ^ 41) =
        bit_or_split 48 q 0 int_id (2 ^ 41) (omega arith) (omega arith) in
      let c = bit_or_comm int_id (2 ^ 41) in
      let d = bit_or_add 41 (2 ^ 41) int_id (omega arith) (omega arith) in
      let e : 2 ^ 62 + group * 2 ^ 60 + priority * 2 ^ 48 + int_id ≡ q * 2 ^ 48 + int_id =
        omega arith in
      rw (base_fields, e, s, c, d, bit_or-zero q) (omega arith)

  -- A hardware interrupt: bit 61 and the physical identifier in place of the request.
  pub create_list_register_entry-some :
      (p : ℕ)
      → p < 2 ^ 10
      → create_list_register_entry int_id group priority (some p)
        ≡ 2 ^ 62 + 2 ^ 61 + group * 2 ^ 60 + priority * 2 ^ 48 + p * 2 ^ 32 + int_id
  unfolding create_list_register_entry
  create_list_register_entry-some p lt =
      let h = bit_or_add 61 (2 ^ 61) (p * 2 ^ 32) (omega arith) (omega arith) in
      let low : ℕ = group * 2 ^ 28 + priority * 2 ^ 16 in
      let e : 2 ^ 62 + group * 2 ^ 60 + priority * 2 ^ 48 + int_id
          ≡ (2 ^ 30 + low) * 2 ^ 32 + int_id =
        omega arith in
      let e' : 2 ^ 61 + p * 2 ^ 32 ≡ (2 ^ 29 + p) * 2 ^ 32 + 0 = omega arith in
      let s = bit_or_split 32 (2 ^ 30 + low) (2 ^ 29 + p) int_id 0 (omega arith) (omega arith) in
      let t : bit_or (2 ^ 30 + low) (2 ^ 29 + p) ≡ 2 ^ 30 + 2 ^ 29 + low + p =
        let u = bit_or_split 29 2 1 low p (omega arith) (omega arith) in
        let v = bit_or_add 16 low p (omega arith) (omega arith) in
        let w : bit_or 2 1 ≡ 3 = refl in
        let l : 2 ^ 30 + low ≡ 2 * 2 ^ 29 + low = omega arith in
        let r : 2 ^ 29 + p ≡ 1 * 2 ^ 29 + p = omega arith in rw (l, r, u, v) (omega arith) in
      rw (base_fields, h, e, e', s, t, bit_or-zero int_id) (omega arith)

-- A physical identifier, where there is one, fits bits 41:32.
abbrev pub FitsPhysical : Option ℕ → Type 0
FitsPhysical none = Unit {0}
FitsPhysical (some p) = p < 2 ^ 10

-- What an entry says of the physical interrupt: the hardware bit 61 and its identifier in 41:32, or
-- neither, and the request for a maintenance interrupt in 41.
abbrev pub PhysicalField : ℕ → Option ℕ → Type 0
PhysicalField entry none = (entry / 2 ^ 61 % 2 ≡ 0) × (entry / 2 ^ 32 % 2 ^ 16 ≡ 2 ^ 9)
PhysicalField entry (some p) = (entry / 2 ^ 61 % 2 ≡ 1) × (entry / 2 ^ 32 % 2 ^ 16 ≡ p)

-- What the fields of an entry read back as.
pub record Fields (entry int_id group priority : ℕ) (physical : Option ℕ) : Type 0 where
  pub vintid : bit_and entry ich_lrn_el2_vintid ≡ int_id
  pub status : bit_and entry ich_lrn_el2_status ≡ ich_lrn_el2_status_pending
  pub group_bit : entry / 2 ^ 60 % 2 ≡ group
  pub priority_byte : entry / 2 ^ 48 % 2 ^ 8 ≡ priority
  pub physical_field : PhysicalField entry physical
  pub word : entry < 2 ^ 64

module _ {int_id group priority : ℕ} (fits : FitsEntry int_id group priority) where
  open fits use {id_fits, group_fits, priority_fits}

  -- An entry of this shape has its fields, whatever stands in bits 47:32 and in bit 61.
  Fields-of_sum :
      (entry mid hw : ℕ) (physical : Option ℕ)
      → mid < 2 ^ 16
      → hw < 2
      → entry ≡ 2 ^ 62 + hw * 2 ^ 61 + group * 2 ^ 60 + priority * 2 ^ 48 + mid * 2 ^ 32 + int_id
      → ((entry / 2 ^ 61 % 2 ≡ hw) → (entry / 2 ^ 32 % 2 ^ 16 ≡ mid) → PhysicalField entry physical)
      → Fields entry int_id group priority physical
  Fields-of_sum entry mid hw physical m h e to_field = record {
    vintid = omega (arith, bit_and_mask 32 entry);
    status = let q : entry / 2 ^ 62 ≡ 1 = omega arith in rw (bit_and_shifted 62 entry 0b11, q) refl;
    group_bit = omega arith;
    priority_byte = omega arith;
    physical_field = to_field (omega arith) (omega arith);
    word = omega arith;
  }

  -- Where the identifier fits 32 bits, the group one, the priority eight and the physical identifier,
  -- if there is one, ten: the fields of a new list register entry read back as the arguments, it is
  -- pending, and it says hardware with the physical identifier if there is one, and otherwise asks
  -- for a maintenance interrupt.
  pub create_list_register_entry-Fields :
      (physical : Option ℕ)
      → FitsPhysical physical
      → Fields
          (create_list_register_entry int_id group priority physical)
          int_id
          group
          priority
          physical
  create_list_register_entry-Fields none p =
      Fields-of_sum _ (2 ^ 9) 0 none (omega arith) (omega arith)
        (omega (arith, create_list_register_entry-none fits)) (λ hw mid. (hw, mid))
  create_list_register_entry-Fields (some q) p =
      Fields-of_sum _ q 1 (some q) (omega arith) (omega arith)
        (omega (arith, create_list_register_entry-some fits q p)) (λ hw mid. (hw, mid))
