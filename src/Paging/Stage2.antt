-- ===== src/Paging/Stage2.antt =====
-- src/paging.rs: the control registers of stage 2, and the two functions that the rest calls.
use mini_visor_real_device.Base.{
  ℕ, ◌+◌, ◌-◌, ◌*◌, ◌^◌, Bool, true, false, Option, bit_and, bit_or, ◌==◌, ◌!=◌, ltb, ◌<<<◌, ◌>>>◌,
  bit_not, if◌then◌else◌, List, Exec, done, ◌>>=◌, unwrap, as_word,
}
use mini_visor_real_device.Paging.{Mapping, Mapped, err, map_table, clear_table, page_shift}

-- The system registers, and the memory.
pub record Stage2 : Type 0 where
  pub vtcr_el2 : ℕ
  pub vttbr_el2 : ℕ
  pub memory : ℕ → ℕ

abbrev pub vttbr_baddr : ℕ
vttbr_baddr = bit_and (2 ^ 47 - 1) (bit_not 64 1)

abbrev pub vtcr_el2_sl0 : ℕ
vtcr_el2_sl0 = 3 <<< 6

abbrev pub vtcr_el2_t0sz : ℕ
vtcr_el2_t0sz = 63 <<< 0

abbrev pub vtcr_el2_res1 : ℕ
vtcr_el2_res1 = 1 <<< 31

unfoldable pub number_of_concatenated_page_tables : (t0sz first_level : ℕ) → ℕ
number_of_concatenated_page_tables t0sz first_level =
    let limit = 43 - (3 - first_level) * 9 in if ltb limit t0sz then 1 else 2 ^ (limit - t0sz)

-- `let (t0sz, initial_lookup_level) = match ps { ... }`
unfoldable pub address_size : (ps : ℕ) → ℕ × ℕ
address_size ps =
    if ps == 0
    then (32, 1)
    else if ps == 1
    then (28, 1)
    else if ps == 2
    then (24, 1)
    else if ps == 3
    then (22, 1)
    else if ps == 4
    then (20, 0)
    else (16, 0)

unfoldable pub vtcr_value : (ps t0sz initial_lookup_level : ℕ) → ℕ
vtcr_value ps t0sz initial_lookup_level =
    let sl0 = if initial_lookup_level == 1 then 1 else 2 in
    let fields = bit_or vtcr_el2_res1 (ps <<< 16) in
    let granule = bit_or fields (0 <<< 14) in
    let cached = bit_or (bit_or (bit_or granule (3 <<< 12)) (3 <<< 10)) (3 <<< 8) in
    bit_or (bit_or cached (sl0 <<< 6)) (t0sz <<< 0)

-- The allocator takes a number of pages and the alignment's order.
unfoldable pub init_stage2_translation_table :
    (allocate_pages : ℕ → ℕ → Option ℕ) (id_aa64mmfr0_el1 : ℕ) (memory : ℕ → ℕ) → Exec Stage2
unfolding address_size number_of_concatenated_page_tables vtcr_value
init_stage2_translation_table allocate_pages id_aa64mmfr0_el1 memory = do
  let ps = bit_and id_aa64mmfr0_el1 15
  let (t0sz, initial_lookup_level) = address_size ps
  let number_of_tables = number_of_concatenated_page_tables t0sz initial_lookup_level
  table ← unwrap (allocate_pages number_of_tables (12 + number_of_tables - 1))
  done (record {
    vtcr_el2 = vtcr_value ps t0sz initial_lookup_level;
    vttbr_el2 = table;
    memory = clear_table (number_of_tables * 512) table memory;
  })

-- `match sl0 { ... }`; two bits have no other value.
unfoldable pub initial_lookup_level : (sl0 : ℕ) → ℕ
initial_lookup_level sl0 = if sl0 == 0 then 2 else if sl0 == 1 then 1 else if sl0 == 2 then 0 else 3

unfoldable pub table_address : Stage2 → ℕ
table_address r = bit_and r.vttbr_el2 vttbr_baddr

unfoldable pub lookup_level : Stage2 → ℕ
unfolding initial_lookup_level
lookup_level r = initial_lookup_level (as_word 8 (bit_and r.vtcr_el2 vtcr_el2_sl0 >>> 6))

unfoldable pub num_of_descriptors : Stage2 → ℕ
unfolding number_of_concatenated_page_tables lookup_level
num_of_descriptors r =
    let t0sz = as_word 8 (bit_and r.vtcr_el2 vtcr_el2_t0sz >>> 0) in
    number_of_concatenated_page_tables t0sz (lookup_level r) * 512

unfoldable pub bit : Bool → ℕ
bit true = 1
bit false = 0

-- The pages are those that the allocator will hand out, in their order. The TLB is not modelled.
unfoldable pub map_address_stage2 :
    (r : Stage2) (free_pages : List ℕ)
    → (physical_address intermediate_physical_address map_size : ℕ)
    → (is_readable is_writable : Bool) → Mapped
unfolding table_address lookup_level num_of_descriptors bit
map_address_stage2 r free_pages physical_address ipa map_size is_readable is_writable =
    let m : Mapping = record {
      physical_address = physical_address;
      intermediate_physical_address = ipa;
      remaining_size = map_size;
      memory = r.memory;
      free_pages = free_pages;
    } in
    if bit_and map_size (1 <<< page_shift - 1) != 0
    then err m
    else map_table (3 - lookup_level r) (bit_or (bit is_writable <<< 1) (bit is_readable))
        (table_address r) (num_of_descriptors r) m
