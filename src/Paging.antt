-- ===== src/Paging.antt =====
-- src/paging.rs: the tables of stage 2 translation, and the mapping of a range of addresses.
--
-- Memory is a function from a descriptor's address to its word. The pages that allocate_pages hands
-- out, one at a time, are a list of the state; it fails where none is left. A level is given by the
-- number of levels below it, `3 - level`, which is the height of a table. Sums and differences wrap
-- at 2^64, as without overflow checks.
pub mod Descriptor
mod Fields
mod Walk
mod Progress
mod Loop
mod Rounds
mod Leaf
mod Block
mod Link
mod Table
mod Levels
pub mod Stage2
pub mod Translation
pub mod Failure
pub mod Init
use mini_visor_real_device.Base.{
  ℕ, zero, suc, ◌+◌, ◌-◌, ◌*◌, ◌/◌, ◌%◌, ◌^◌, ◌<◌, ◌≤◌, ◌≡◌, Bool, true, false, ◌&&◌, not, bit_and,
  bit_or, ◌==◌, ltb, leb, ◌<<<◌, ◌>>>◌, if◌then◌else◌, List, [], ◌∷◌,
}
use mini_visor_real_device.Paging.Descriptor.{
  leaf_descriptor, link_descriptor, validate_as_page_descriptor, validate_as_block_descriptor,
  is_table_descriptor, get_next_level_table_address, page_shift, page_size, new_descriptor,
}

-- The arguments that the recursion shares, and what it changes.
pub record Mapping : Type 0 where
  pub physical_address : ℕ
  pub intermediate_physical_address : ℕ
  pub remaining_size : ℕ
  pub memory : ℕ → ℕ
  pub free_pages : List ℕ

-- A `Result` with the state reached.
pub data Mapped : Type 0 where
  ok : Mapping → Mapped
  err : Mapping → Mapped

unfoldable pub store : (address value : ℕ) → (ℕ → ℕ) → ℕ → ℕ
store address value memory a = if a == address then value else memory a

-- `d.init()` for a number of descriptors from an address on.
unfoldable pub clear_table : (count address : ℕ) → (ℕ → ℕ) → ℕ → ℕ
unfolding store
clear_table zero address memory = memory
clear_table (suc n) address memory =
    clear_table n (address + 8) (store address new_descriptor memory)

-- `1usize << shift`: the bytes that one descriptor of a height covers.
abbrev pub block_shift : ℕ → ℕ
block_shift height = 12 + 9 * height

unfoldable pub block_size : ℕ → ℕ
block_size height = 1 <<< block_shift height

-- The three additions that follow a descriptor; the size wraps below 0.
unfoldable pub advance : (bytes : ℕ) → Mapping → Mapping
advance bytes m = record m {
  physical_address = (m.physical_address + bytes) % 2 ^ 64;
  intermediate_physical_address = (m.intermediate_physical_address + bytes) % 2 ^ 64;
  remaining_size = (m.remaining_size + (2 ^ 64 - bytes)) % 2 ^ 64;
}

unfoldable pub set_descriptor : (address value : ℕ) → Mapping → Mapping
set_descriptor address value m = record m { memory = store address value m.memory }

-- `?`
unfoldable pub and_then : (Mapping → Mapped) → Mapped → Mapped
and_then rest (ok m) = rest m
and_then rest (err m) = err m

-- `if *remaining_size == 0 { break }` before the rest of a loop
unfoldable pub unless_done : (Mapping → Mapped) → Mapping → Mapped
unless_done rest m = elim (m.remaining_size == 0) [ true ↦ ok m | false ↦ rest m ]

-- A loop over `table[index..n]` that ends where nothing is left to map.
unfoldable pub for_descriptors :
    (body : ℕ → Mapping → Mapped) (count address : ℕ) → Mapping → Mapped
unfolding and_then unless_done
for_descriptors body zero address m = ok m
for_descriptors body (suc n) address m =
    and_then (unless_done (for_descriptors body n (address + 8))) (body address m)

unfoldable pub map_page : (permission address : ℕ) → Mapping → Mapped
unfolding advance set_descriptor
map_page permission address m =
    let d = leaf_descriptor m.physical_address permission in
    ok (advance page_size (set_descriptor address (validate_as_page_descriptor d) m))

-- The test for a block descriptor.
unfoldable pub fits_block : (height : ℕ) → Mapping → Bool
unfolding block_size
fits_block height m =
    let mask = block_size height - 1 in
    ltb height 3
    && leb (block_size height) m.remaining_size
    && bit_and m.physical_address mask == 0
    && bit_and m.intermediate_physical_address mask == 0

unfoldable pub map_block : (permission height address : ℕ) → Mapping → Mapping
unfolding advance set_descriptor block_size
map_block permission height address m =
    let d = leaf_descriptor m.physical_address permission in
    advance (block_size height) (set_descriptor address (validate_as_block_descriptor d) m)

-- A new table, cleared, and the descriptor that links it.
unfoldable pub link_memory : (next address : ℕ) → (ℕ → ℕ) → ℕ → ℕ
link_memory next address memory = store address (link_descriptor next) (clear_table 512 next memory)

unfoldable pub link_table : (next address : ℕ) → (free_pages : List ℕ) → Mapping → Mapping
link_table next address free_pages m = record m {
  memory = link_memory next address m.memory;
  free_pages = free_pages;
}

unfoldable pub map_descriptor :
    (descend : ℕ → Mapping → Mapped) (permission height address : ℕ) → Mapping → Mapped
unfolding fits_block map_block link_table
map_descriptor descend permission height address m = elim (fits_block height m) [
  | true ↦ ok (map_block permission height address m)
  | false ↦ elim (is_table_descriptor (m.memory address)) [
    | true ↦ descend (get_next_level_table_address (m.memory address)) m
    | false ↦ elim m.free_pages [
      | [] ↦ err m
      | next ∷ rest ↦ descend next (link_table next address rest m)
    ]
  ]
]

-- `(intermediate_physical_address >> shift) & (num_of_descriptors - 1)`
unfoldable pub table_index : (height num_of_descriptors : ℕ) → Mapping → ℕ
table_index height num_of_descriptors m =
    bit_and (m.intermediate_physical_address >>> block_shift height) (num_of_descriptors - 1)

-- `_map_address_stage2`
unfoldable pub map_table :
    (height permission table_address num_of_descriptors : ℕ) → Mapping → Mapped
unfolding map_page map_descriptor for_descriptors table_index
map_table zero permission table_address num_of_descriptors m =
    let index = table_index 0 num_of_descriptors m in
    for_descriptors (map_page permission) (num_of_descriptors - index) (table_address + 8 * index) m
map_table (suc h) permission table_address num_of_descriptors m =
    let index = table_index (suc h) num_of_descriptors m in
    for_descriptors
      (map_descriptor (λ next m'. map_table h permission next 512 m') permission (suc h))
      (num_of_descriptors - index) (table_address + 8 * index) m
