-- ===== src/Examples/Programs.antt =====
-- The theorem on program headers at a file with two of them: an entry is 56 bytes, the first one at 64.
use mini_visor_real_device.Base.{
  ℕ, suc, ◌+◌, ◌*◌, ◌^◌, ◌<◌, ◌≡◌, arith, some, none, ◌==◌, if◌then◌else◌, get_elem?, ltb,
}
use mini_visor_real_device.Elf.{
  collect, get_program_headers, get_num_of_program_header, load_program_header,
  get_program_headers-get_elem?, get_program_header_offset, get_program_header_entry_size, load_u64,
}
use mini_visor_real_device.Fat32.{load_u32, load_u16}

abbrev memory : ℕ → ℕ
memory a =
    if a == 0x20
    then 64
    else if a == 0x36
    then 56
    else if a == 0x38
    then 2
    else if a == 0x78
    then 1
    else 0

table_fits :
    0
      + get_program_header_offset memory 0
      + get_num_of_program_header memory 0 * get_program_header_entry_size memory 0
    < 2 ^ 64
unfolding get_program_header_offset get_num_of_program_header get_program_header_entry_size load_u64
    load_u32 load_u16
table_fits = omega arith

get_program_headers-get_elem?_example :
    get_elem?
      (collect (suc (get_num_of_program_header memory 0)) memory (get_program_headers memory 0))
      1
    ≡ (if ltb 1 (get_num_of_program_header memory 0)
        then some (
            load_program_header memory
              (0 + get_program_header_offset memory 0 + 1 * get_program_header_entry_size memory 0))
        else none)
get_program_headers-get_elem?_example = get_program_headers-get_elem? memory 0 1 table_fits
