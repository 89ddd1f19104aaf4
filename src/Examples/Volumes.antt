-- ===== src/Examples/Volumes.antt =====
-- The theorems on FAT32 at a small volume: sectors of 512 bytes, one to a cluster, and a file "A" of
-- 2000 bytes in the clusters 5, 6 and 7.
use mini_visor_real_device.Base.{
  ℕ, zero, suc, ◌+◌, ◌-◌, ◌%◌, ◌≡◌, ◌≢◌, refl, arith, Option, none, some, Bool, true, false, List,
  [], ◌∷◌, ◌==◌, leb, ltb, ◌&&◌, if◌then◌else◌, get_elem?, replicate, ◌++◌,
}
use mini_visor_real_device.Fat32.{
  Platform, Outcome, ok, err, panic, out_of_fuel, Fat32, FileInfo, get_next_cluster, load_u32,
  load_u16, load_bytes, load_entry, load_entries, search_file, search_entries, listed, is_named,
  info_of, get_file_name, eq_bytes, first_of, first_byte, without_spaces, drop_last_dot, lowercase,
  cluster_to_sector,
}
use mini_visor_real_device.Fat32.Volume.{read_sectors}
use mini_visor_real_device.Fat32.Transfer.{
  find_run, no_fuel, start_run, read, transfer, skip_clusters, read_loop, take_cluster,
  skip_sectors, last_cluster, whole_cluster, read_run,
}
use mini_visor_real_device.Fat32.Contiguous.{AreAdjacent, read_at, read-AreAdjacent}
use mini_visor_real_device.Fat32.Search.{IsSearched, search_file-IsSearched}
use mini_visor_real_device.Fat32.Rounds.{find_run-Ends}

-- The entry of the file "A", from 0x2000 on.
abbrev directory : List ℕ
directory = 65 ∷ replicate 10 0x20 ++ 0x20 ∷ replicate 14 0 ++ 5 ∷ 0 ∷ 0xD0 ∷ 0x07 ∷ 0 ∷ 0 ∷ []

abbrev byte_of : Option ℕ → ℕ
byte_of none = 0
byte_of (some b) = b

-- The allocation table from 0x1000 on, and the root directory.
abbrev memory : ℕ → ℕ
memory a =
    if leb 0x2000 a
    then byte_of (get_elem? directory (a - 0x2000))
    else if a == 0x1014
    then 6
    else if a == 0x1018
    then 7
    else if a == 0x101C
    then 0xFF
    else 0

-- A disk whose byte at an address is the address's low byte.
abbrev platform : Platform (ℕ → ℕ)
platform = record {
  blk_read = λ buffer address size s. (
    (λ x. if leb buffer x && ltb x (buffer + size) then (address + (x - buffer)) % 256 else s x),
    true,
  );
  blk_write = λ buffer address size s. (s, true);
  allocate_pages = λ pages align s. (s, none);
  free_pages = λ address pages s. s;
  load_byte = λ s a. s a;
  copy = λ source destination size s. s;
}

abbrev volume : Fat32
volume = record {
  base_lba = 2048;
  lba_size = 512;
  bytes_per_sector = 512;
  sectors_per_cluster = 1;
  reserved_sectors = 32;
  fat_sectors = 1;
  number_of_fats = 2;
  fat = 0x1000;
  root_directory_list = 0x2000;
}

abbrev info : FileInfo
info = record { entry_cluster = 5; file_size = 2000 }

abbrev always : List ℕ → Bool
always text = true

chain : AreAdjacent volume memory 5 2
unfolding get_next_cluster load_u32 load_u16
chain zero lt = refl
chain (suc zero) lt = refl
chain (suc (suc i)) lt = ground arith

-- 700 bytes from the second cluster on.
read-AreAdjacent_example :
    read platform 2 volume info 0x8000 512 700 memory ≡ read_at platform volume 0x8000 6 700 memory
read-AreAdjacent_example =
    read-AreAdjacent platform volume info 0x8000 512 700 1 memory (omega arith) (omega arith)
      (omega arith) (omega arith) refl (omega arith) (omega arith) chain

found_a : search_file always volume memory (97 ∷ []) ≡ some info
unfolding search_file search_entries load_entries load_entry load_bytes load_u32 load_u16 listed
    first_of is_named get_file_name drop_last_dot first_byte without_spaces eq_bytes lowercase
    info_of
found_a = refl

-- The file is found under its name in lower case.
search_file-IsSearched_example :
    IsSearched always
      (97 ∷ [])
      (load_entries memory 16 0x2000)
      (search_file always volume memory (97 ∷ []))
search_file-IsSearched_example = search_file-IsSearched always volume memory (97 ∷ [])

find_run-Ends_example : find_run 3 volume memory 1200 (start_run 0 5) ≢ no_fuel
find_run-Ends_example =
    find_run-Ends 2 volume memory 1200 (start_run 0 5) (omega arith) (omega arith) (omega arith)

-- A file of 1024 bytes in the clusters 5 and 8: the second round asks for all of the length again,
-- and for the cluster after the last one.
abbrev fragmented : ℕ → ℕ
fragmented a =
    if a == 0x1014
    then 8
    else if a == 0x1020
    then 0xFF
    else if a == 0x1021
    then 0xFF
    else if a == 0x1022
    then 0xFF
    else if a == 0x1023
    then 0x0F
    else 0

abbrev succeeds : Outcome (ℕ → ℕ) ℕ → Bool
succeeds (ok s n) = true
succeeds (err s) = false
succeeds panic = false
succeeds out_of_fuel = false

fragmented_fails :
    succeeds (
      read platform 5 volume
        (record { entry_cluster = 5; file_size = 1024 })
        0x8000
        0
        1024
        fragmented)
    ≡ false
unfolding read transfer skip_clusters read_loop find_run take_cluster skip_sectors last_cluster
    whole_cluster get_next_cluster load_u32 load_u16 read_run read_sectors cluster_to_sector
fragmented_fails = refl
