-- ===== src/Paging/Fields.antt =====
-- src/paging.rs: the words that the setters of a descriptor make, as sums of fields.
use mini_visor_real_device.Base.{
  ℕ, ◌+◌, ◌-◌, ◌*◌, ◌/◌, ◌%◌, ◌^◌, ◌<◌, ◌≡◌, refl, arith, bit_and, bit_or, ◌==◌, ◌<<<◌, bit_not,
  bit_and_mask, bit_and_split, bit_or_split, bit_and-lt, bit_or-zero, subst, bit_and_shifted,
}
use mini_visor_real_device.Paging.Descriptor.{
  inner_shareable, shareability_bits, new_descriptor, validate_as_page_descriptor,
  validate_as_table_descriptor, validate_as_block_descriptor, is_table_descriptor,
  get_next_level_table_address, set_output_address, set_shareability, set_permission,
  set_memory_attribute_write_back, leaf_descriptor, link_descriptor,
}
use native.Mathlib.Nat.{mod-eq_of_lt}
use Prim.Native.Nat.{bit_or-bitwise}

-- What a clearing mask does to the fields below bit 12.
clear_low :
    (q r c : ℕ)
    → q < 2 ^ 52
    → r < 4096
    → c < 4096
    → bit_and (q * 4096 + r) (bit_not 64 c) ≡ q * 4096 + bit_and r (4095 - c)
clear_low q r c hq hr hc =
    let e : bit_not 64 c ≡ (2 ^ 52 - 1) * 2 ^ 12 + (4095 - c) = omega arith in
    let m : bit_and q (2 ^ 52 - 1) ≡ q = rw (bit_and_mask 52 q) (mod-eq_of_lt hq) in
    let s : bit_and (q * 2 ^ 12 + r) ((2 ^ 52 - 1) * 2 ^ 12 + (4095 - c))
        ≡ bit_and q (2 ^ 52 - 1) * 2 ^ 12 + bit_and r (4095 - c) =
      bit_and_split 12 q (2 ^ 52 - 1) r (4095 - c) hr (omega arith) in
    rw e (rw m at s)

set_low : (q r c : ℕ) → r < 4096 → c < 4096 → bit_or (q * 4096 + r) c ≡ q * 4096 + bit_or r c
set_low q r c hr hc =
    let z : 0 * 4096 + c ≡ c = omega arith in
    let s : bit_or (q * 4096 + r) (0 * 4096 + c) ≡ bit_or q 0 * 4096 + bit_or r c =
      bit_or_split 12 q 0 r c hr hc in
    rw (bit_or-zero q, z) at s

-- A field below bit 12 is cleared and set.
field_low :
    (q r c v : ℕ)
    → q < 2 ^ 52
    → r < 4096
    → c < 4096
    → v < 4096
    → bit_or (bit_and (q * 4096 + r) (bit_not 64 c)) v ≡ q * 4096 + bit_or (bit_and r (4095 - c)) v
field_low q r c v hq hr hc hv =
    rw (clear_low q r c hq hr hc)
      (set_low q (bit_and r (4095 - c)) v (bit_and-lt 12 r (4095 - c) hr) hv)

output_low :
    (pa : ℕ) → pa % 4096 ≡ 0 → set_output_address pa new_descriptor ≡ pa / 4096 * 4096 + 1024
unfolding set_output_address
output_low pa h =
    let z : bit_or 0 pa ≡ pa = bit_or-bitwise 0 pa in
    let e : pa / 4096 * 4096 + 0 ≡ pa = omega arith in
    rw (
      z,
      subst (λ t. bit_or t 1024 ≡ pa / 4096 * 4096 + 1024) e
          (set_low (pa / 4096) 0 1024 (omega arith) (omega arith)),
    )

pub data IsAccess : ℕ → Type 0 where
  neither : IsAccess 0
  read_only : IsAccess 1
  write_only : IsAccess 2
  read_write : IsAccess 3

fields_low :
    (q permission : ℕ)
    → q < 2 ^ 52
    → IsAccess permission
    → set_shareability inner_shareable
        (set_memory_attribute_write_back (set_permission permission (q * 4096 + 1024)))
      ≡ q * 4096 + (permission * 64 + 1852)
unfolding set_permission set_memory_attribute_write_back set_shareability shareability_bits
fields_low q permission h neither =
    rw
      (
        field_low q 1024 192 0 h (omega arith) (omega arith) (omega arith),
        field_low q 1024 60 60 h (omega arith) (omega arith) (omega arith),
      )
      (field_low q 1084 768 768 h (omega arith) (omega arith) (omega arith))
fields_low q permission h read_only =
    rw
      (
        field_low q 1024 192 64 h (omega arith) (omega arith) (omega arith),
        field_low q 1088 60 60 h (omega arith) (omega arith) (omega arith),
      )
      (field_low q 1148 768 768 h (omega arith) (omega arith) (omega arith))
fields_low q permission h write_only =
    rw
      (
        field_low q 1024 192 128 h (omega arith) (omega arith) (omega arith),
        field_low q 1152 60 60 h (omega arith) (omega arith) (omega arith),
      )
      (field_low q 1212 768 768 h (omega arith) (omega arith) (omega arith))
fields_low q permission h read_write =
    rw
      (
        field_low q 1024 192 192 h (omega arith) (omega arith) (omega arith),
        field_low q 1216 60 60 h (omega arith) (omega arith) (omega arith),
      )
      (field_low q 1276 768 768 h (omega arith) (omega arith) (omega arith))

pub leaf_low :
    (pa permission : ℕ)
    → pa % 4096 ≡ 0
    → pa < 2 ^ 64
    → IsAccess permission
    → leaf_descriptor pa permission ≡ pa + (permission * 64 + 1852)
unfolding leaf_descriptor
leaf_low pa permission h lt p =
    rw (output_low pa h) (omega (arith, fields_low (pa / 4096) permission (omega arith) p))

pub IsAccess-lt : {permission : ℕ} → IsAccess permission → permission < 4
IsAccess-lt neither = omega arith
IsAccess-lt read_only = omega arith
IsAccess-lt write_only = omega arith
IsAccess-lt read_write = omega arith

valid_low :
    (permission : ℕ)
    → IsAccess permission
    → bit_or (permission * 64 + 1852) 3 ≡ permission * 64 + 1855
valid_low permission neither = refl
valid_low permission read_only = refl
valid_low permission write_only = refl
valid_low permission read_write = refl

block_low :
    (permission : ℕ)
    → IsAccess permission
    → bit_or (permission * 64 + 1852) 1 ≡ permission * 64 + 1853
block_low permission neither = refl
block_low permission read_only = refl
block_low permission write_only = refl
block_low permission read_write = refl

-- The words that the loops store, as a sum of the address and the fields.
pub page_descriptor_eq :
    (pa permission : ℕ)
    → pa % 4096 ≡ 0
    → pa < 2 ^ 64
    → IsAccess permission
    → validate_as_page_descriptor (leaf_descriptor pa permission) ≡ pa + (permission * 64 + 1855)
unfolding validate_as_page_descriptor
page_descriptor_eq pa permission h lt p =
    let e : pa + (permission * 64 + 1852) ≡ pa / 4096 * 4096 + (permission * 64 + 1852) =
      omega arith in
    let s : bit_or (pa / 4096 * 4096 + (permission * 64 + 1852)) 3
        ≡ pa / 4096 * 4096 + bit_or (permission * 64 + 1852) 3 =
      set_low (pa / 4096) (permission * 64 + 1852) 3 (omega (arith, IsAccess-lt p)) (omega arith) in
    rw (leaf_low pa permission h lt p, e, s, valid_low permission p) (omega arith)

pub block_descriptor_eq :
    (pa permission : ℕ)
    → pa % 4096 ≡ 0
    → pa < 2 ^ 64
    → IsAccess permission
    → validate_as_block_descriptor (leaf_descriptor pa permission) ≡ pa + (permission * 64 + 1853)
unfolding validate_as_block_descriptor
block_descriptor_eq pa permission h lt p =
    let e : pa + (permission * 64 + 1852) ≡ pa / 4096 * 4096 + (permission * 64 + 1852) =
      omega arith in
    let s : bit_or (pa / 4096 * 4096 + (permission * 64 + 1852)) 1
        ≡ pa / 4096 * 4096 + bit_or (permission * 64 + 1852) 1 =
      set_low (pa / 4096) (permission * 64 + 1852) 1 (omega (arith, IsAccess-lt p)) (omega arith) in
    rw (leaf_low pa permission h lt p, e, s, block_low permission p) (omega arith)

pub link_descriptor_eq : (next : ℕ) → next % 4096 ≡ 0 → link_descriptor next ≡ next + 1027
unfolding link_descriptor validate_as_table_descriptor
link_descriptor_eq next h =
    rw (output_low next h, set_low (next / 4096) 1024 3 (omega arith) (omega arith)) (omega arith)

-- The readers, as arithmetic.
pub is_table_descriptor_eq : (d : ℕ) → is_table_descriptor d ≡ (d % 4 == 3)
unfolding is_table_descriptor
is_table_descriptor_eq d = let e : bit_and d 3 ≡ d % 4 = bit_and_mask 2 d in rw e refl

pub next_level_eq : (d : ℕ) → get_next_level_table_address d ≡ d / 4096 % 2 ^ 40 * 4096
unfolding get_next_level_table_address
next_level_eq d =
    let e : bit_and d ((2 ^ 40 - 1) <<< 12) ≡ bit_and (d / 2 ^ 12) (2 ^ 40 - 1) * 2 ^ 12 =
      bit_and_shifted 12 d (2 ^ 40 - 1) in
    let m : bit_and (d / 2 ^ 12) (2 ^ 40 - 1) ≡ d / 2 ^ 12 % 2 ^ 40 =
      bit_and_mask 40 (d / 2 ^ 12) in
    rw m at e
