-- ===== src/Examples/Tables.antt =====
-- The theorems on stage 2 translation at concrete inputs: one table of level 1 at 0x40000000, and a
-- range of two pages that takes a table of level 2 and one of level 3.
use mini_visor_real_device.Base.{
  ℕ, ◌%◌, ◌≡◌, refl, arith, Option, none, some, inr, true, List, [], ◌∷◌, ◌≢◌, ◌⊎◌, done,
}
use mini_visor_real_device.Paging.{
  Mapping, Mapped, ok, err, map_table, clear_table, link_memory, block_size,
}
use mini_visor_real_device.Paging.Descriptor.{is_table_descriptor}
use mini_visor_real_device.Paging.Stage2.{
  Stage2, vtcr_value, map_address_stage2, init_stage2_translation_table, address_size,
  number_of_concatenated_page_tables, num_of_descriptors, lookup_level,
}
use mini_visor_real_device.Paging.Translation.{
  IsMappable, walk, input_size, after, start_of, map_address_stage2-Translated,
  map_address_stage2-IsMappable,
}
use mini_visor_real_device.Paging.Failure.{map_address_stage2-err}
use mini_visor_real_device.Paging.Init.{made, init_stage2_translation_table-IsMappable}

abbrev first_table : ℕ
first_table = 1073741824

-- An allocator whose first free pages are the table's.
abbrev allocate_pages : ℕ → ℕ → Option ℕ
allocate_pages n align = some first_table

abbrev pages : List ℕ
pages = 1073745920 ∷ 1073750016 ∷ []

abbrev garbage : ℕ → ℕ
garbage a = 3

abbrev first : Stage2
first = made 0 first_table garbage

init_stage2_translation_table-IsMappable_example :
    (init_stage2_translation_table allocate_pages 0 garbage ≡ done first)
    × IsMappable first pages
    × ((x : ℕ) → walk first x ≡ none)
unfolding number_of_concatenated_page_tables address_size
init_stage2_translation_table-IsMappable_example =
    init_stage2_translation_table-IsMappable allocate_pages 0 first_table garbage pages refl
      (omega arith)
      (
        refl,
        omega arith,
        inr (omega arith),
        (λ e. omega arith, tt),
        (refl, omega arith, inr (omega arith), tt, tt),
      )
      refl

first_ready : IsMappable first pages × ((x : ℕ) → walk first x ≡ none)
unfolding number_of_concatenated_page_tables address_size
first_ready =
    let e =
      init_stage2_translation_table-IsMappable allocate_pages 0 first_table garbage pages refl
        (omega arith)
        (
          refl,
          omega arith,
          inr (omega arith),
          (λ e. omega arith, tt),
          (refl, omega arith, inr (omega arith), tt, tt),
        )
        refl in
    (e.1, e.2)

-- Two pages at 0x1000, mapped to 0x80000000.
abbrev mapped : Mapped
mapped = map_address_stage2 first pages 2147483648 4096 8192 true true

abbrev state_of : Mapped → Mapping
state_of (ok m) = m
state_of (err m) = m

mapped_ok : mapped ≡ ok (state_of mapped)
unfolding map_address_stage2 map_table vtcr_value address_size is_table_descriptor clear_table
    link_memory
mapped_ok = refl

input_size_first : input_size first ≡ 549755813888
unfolding num_of_descriptors lookup_level vtcr_value address_size number_of_concatenated_page_tables
    block_size
input_size_first = refl

map_address_stage2-Translated_example : walk (after first (state_of mapped)) 8200 ≡ some 2147487752
map_address_stage2-Translated_example =
    map_address_stage2-Translated first pages 2147483648 4096 8192 true true (state_of mapped)
      first_ready.0 refl refl (omega arith) (omega arith) (omega arith)
      (omega (arith, input_size_first)) (λ x lo hi. first_ready.1 x) mapped_ok 8200
      (omega (arith, input_size_first))

map_address_stage2-IsMappable_example :
    IsMappable (after first (state_of mapped)) (state_of mapped).free_pages
map_address_stage2-IsMappable_example =
    map_address_stage2-IsMappable first pages 2147483648 4096 8192 true true (state_of mapped)
      first_ready.0 refl refl (omega arith) (omega arith) (omega arith)
      (omega (arith, input_size_first)) (λ x lo hi. first_ready.1 x) mapped_ok

-- With a page too few.
abbrev starved : Mapped
starved = map_address_stage2 first (1073745920 ∷ []) 2147483648 4096 8192 true true

starved_err : starved ≡ err (state_of starved)
unfolding map_address_stage2 map_table vtcr_value address_size is_table_descriptor clear_table
    link_memory
starved_err = refl

map_address_stage2-err_example :
    ((8192 % 4096 ≢ 0) × (state_of starved ≡ start_of first (1073745920 ∷ []) 2147483648 4096 8192))
    ⊎ ((state_of starved).free_pages ≡ [])
map_address_stage2-err_example =
    map_address_stage2-err first (1073745920 ∷ []) 2147483648 4096 8192 true true (state_of starved)
      starved_err
