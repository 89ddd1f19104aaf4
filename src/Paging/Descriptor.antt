-- ===== src/Paging/Descriptor.antt =====
-- src/paging.rs: a translation table's descriptor, a word of 64 bits, and its fields.
use mini_visor_real_device.Base.{ℕ, ◌-◌, ◌^◌, Bool, bit_and, bit_or, ◌==◌, ◌<<<◌, bit_not}

pub data Shareability : Type 0 where
  non_shareable : Shareability
  outer_shareable : Shareability
  inner_shareable : Shareability

-- `shareability as u64`
unfoldable pub shareability_bits : Shareability → ℕ
shareability_bits non_shareable = 0
shareability_bits outer_shareable = 2
shareability_bits inner_shareable = 3

abbrev pub page_shift : ℕ
page_shift = 12

abbrev pub page_size : ℕ
page_size = 1 <<< page_shift

abbrev pub table_address_mask : ℕ
table_address_mask = bit_and (2 ^ 52 - 1) (bit_not 64 (page_size - 1))

abbrev pub output_address_mask : ℕ
output_address_mask = bit_and (2 ^ 50 - 1) (bit_not 64 (page_size - 1))

abbrev pub access_flag : ℕ
access_flag = 1 <<< 10

abbrev pub sh_mask : ℕ
sh_mask = 3 <<< 8

abbrev pub s2ap_mask : ℕ
s2ap_mask = 3 <<< 6

abbrev pub attr_index_mask : ℕ
attr_index_mask = 15 <<< 2

abbrev pub attr_write_back : ℕ
attr_write_back = 15 <<< 2

-- `Descriptor::new`, which `init` stores
abbrev pub new_descriptor : ℕ
new_descriptor = 0

unfoldable pub validate_as_page_descriptor : ℕ → ℕ
validate_as_page_descriptor d = bit_or d 3

unfoldable pub validate_as_table_descriptor : ℕ → ℕ
validate_as_table_descriptor d = bit_or d 3

unfoldable pub validate_as_block_descriptor : ℕ → ℕ
validate_as_block_descriptor d = bit_or d 1

unfoldable pub is_table_descriptor : ℕ → Bool
is_table_descriptor d = bit_and d 3 == 3

unfoldable pub get_next_level_table_address : ℕ → ℕ
get_next_level_table_address d = bit_and d table_address_mask

unfoldable pub set_output_address : (output_address d : ℕ) → ℕ
set_output_address output_address d =
    bit_or (bit_or (bit_and d (bit_not 64 output_address_mask)) output_address) access_flag

unfoldable pub set_shareability : Shareability → ℕ → ℕ
unfolding shareability_bits
set_shareability s d = bit_or (bit_and d (bit_not 64 sh_mask)) (shareability_bits s <<< 8)

unfoldable pub set_permission : (permission d : ℕ) → ℕ
set_permission permission d = bit_or (bit_and d (bit_not 64 s2ap_mask)) (permission <<< 6)

unfoldable pub set_memory_attribute_write_back : ℕ → ℕ
set_memory_attribute_write_back d = bit_or (bit_and d (bit_not 64 attr_index_mask)) attr_write_back

-- The descriptor of a page or a block before it is made valid: the calls from `init` on.
unfoldable pub leaf_descriptor : (physical_address permission : ℕ) → ℕ
unfolding set_output_address set_permission set_memory_attribute_write_back set_shareability
leaf_descriptor physical_address permission = set_shareability inner_shareable (
    set_memory_attribute_write_back
      (set_permission permission (set_output_address physical_address new_descriptor)))

-- The descriptor that links the next table.
unfoldable pub link_descriptor : ℕ → ℕ
unfolding set_output_address validate_as_table_descriptor
link_descriptor next = validate_as_table_descriptor (set_output_address next new_descriptor)
