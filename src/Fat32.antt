-- ===== src/Fat32.antt =====
-- src/fat32.rs: the volume, its allocation table, and the search for a file.
--
-- The disk, the page allocator and the memory are an interface over a state: blk.read and blk.write
-- answer with success or not, and the tables that `new` loads are read where they lie in memory.
pub mod Volume
pub mod Transfer
pub mod Contiguous
pub mod Entries
pub mod Search
pub mod Rounds
use mini_visor_real_device.Base.{
  ℕ, zero, suc, ◌+◌, ◌-◌, ◌*◌, ◌/◌, ◌%◌, ◌^◌, Bool, true, false, ◌&&◌, ◌||◌, not, Option, none,
  some, List, [], ◌∷◌, ◌++◌, map, bit_and, bit_or, ◌==◌, ◌!=◌, ltb, leb, ◌<<<◌, ◌>>>◌, bit_not,
  if◌then◌else◌,
}

-- What the file system is built on.
pub record Platform (S : Type 0) : Type 0 where
  pub blk_read : (buffer address size : ℕ) → S → S × Bool
  pub blk_write : (buffer address size : ℕ) → S → S × Bool
  pub allocate_pages : (pages align : ℕ) → S → S × Option ℕ
  pub free_pages : (address pages : ℕ) → S → S
  pub load_byte : S → (address : ℕ) → ℕ
  pub copy : (source destination size : ℕ) → S → S

-- `Ok`, `Err`, a panic, and a loop that ran out of its rounds.
pub data Outcome (S : Type 0) (A : Type 0) : Type 0 where
  ok : S → A → Outcome S A
  err : S → Outcome S A
  panic : Outcome S A
  out_of_fuel : Outcome S A

abbrev pub fat32_signature : List ℕ
fat32_signature = 70 ∷ 65 ∷ 84 ∷ 51 ∷ 50 ∷ 32 ∷ 32 ∷ 32 ∷ []

abbrev pub bytes_per_sector_offset : ℕ
bytes_per_sector_offset = 11

abbrev pub sectors_per_cluster_offset : ℕ
sectors_per_cluster_offset = 13

abbrev pub num_of_reserved_cluster_offset : ℕ
num_of_reserved_cluster_offset = 14

abbrev pub num_of_fats_offset : ℕ
num_of_fats_offset = 16

abbrev pub fat_size_offset : ℕ
fat_size_offset = 36

abbrev pub root_cluster_offset : ℕ
root_cluster_offset = 44

abbrev pub fat32_signature_offset : ℕ
fat32_signature_offset = 82

abbrev pub fat32_attribute_directory : ℕ
fat32_attribute_directory = 0x10

abbrev pub fat32_attribute_long_file_name : ℕ
fat32_attribute_long_file_name = 0x0F

pub record Fat32 : Type 0 where
  pub base_lba : ℕ
  pub lba_size : ℕ
  pub bytes_per_sector : ℕ
  pub sectors_per_cluster : ℕ
  pub reserved_sectors : ℕ
  pub fat_sectors : ℕ
  pub number_of_fats : ℕ
  pub fat : ℕ
  pub root_directory_list : ℕ

pub record FileInfo : Type 0 where
  pub entry_cluster : ℕ
  pub file_size : ℕ

unfoldable pub get_file_size : FileInfo → ℕ
get_file_size f = f.file_size

-- Little-endian words in memory.
unfoldable pub load_u16 : (ℕ → ℕ) → ℕ → ℕ
load_u16 byte a = byte a + byte (a + 1) * 0x100

unfoldable pub load_u32 : (ℕ → ℕ) → ℕ → ℕ
unfolding load_u16
load_u32 byte a = load_u16 byte a + load_u16 byte (a + 2) * 0x10000

unfoldable pub load_bytes : (ℕ → ℕ) → (count address : ℕ) → List ℕ
load_bytes byte zero a = []
load_bytes byte (suc n) a = byte a ∷ load_bytes byte n (a + 1)

unfoldable pub eq_bytes : List ℕ → List ℕ → Bool
eq_bytes [] [] = true
eq_bytes [] (b ∷ bs) = false
eq_bytes (a ∷ as') [] = false
eq_bytes (a ∷ as') (b ∷ bs) = a == b && eq_bytes as' bs

-- u32 arithmetic wraps, also for a cluster below 2.
unfoldable pub cluster_to_sector : Fat32 → (cluster : ℕ) → ℕ
cluster_to_sector v cluster =
    let clusters = (cluster + (2 ^ 32 - 2)) % 2 ^ 32 in
    (v.reserved_sectors + v.number_of_fats * v.fat_sectors + clusters * v.sectors_per_cluster)
    % 2 ^ 32

unfoldable pub get_next_cluster : Fat32 → (byte : ℕ → ℕ) → (cluster : ℕ) → Option ℕ
unfolding load_u32
get_next_cluster v byte cluster =
    if ltb cluster (v.fat_sectors * v.bytes_per_sector / 4)
    then (let n = load_u32 byte (v.fat + 4 * cluster) in
        if leb 2 n && ltb n 0x0FFFFFF8 then some n else none)
    else none

pub record DirectoryEntry : Type 0 where
  pub name : List ℕ
  pub name_extension : List ℕ
  pub attribute : ℕ
  pub starting_cluster_number_high : ℕ
  pub starting_cluster_number : ℕ
  pub file_length : ℕ

unfoldable pub load_entry : (ℕ → ℕ) → ℕ → DirectoryEntry
unfolding load_u32 load_u16 load_bytes
load_entry byte a = record {
  name = load_bytes byte 8 a;
  name_extension = load_bytes byte 3 (a + 8);
  attribute = byte (a + 11);
  starting_cluster_number_high = load_u16 byte (a + 20);
  starting_cluster_number = load_u16 byte (a + 26);
  file_length = load_u32 byte (a + 28);
}

unfoldable pub without_spaces : List ℕ → List ℕ
without_spaces [] = []
without_spaces (c ∷ cs) = let rest = without_spaces cs in if c == 0x20 then rest else c ∷ rest

-- The dot is taken back where it is the last byte.
unfoldable pub drop_last_dot : List ℕ → List ℕ
drop_last_dot [] = []
drop_last_dot (c ∷ []) = if c == 0x2E then [] else c ∷ []
drop_last_dot (c ∷ d ∷ cs) = c ∷ drop_last_dot (d ∷ cs)

-- The first byte of a name, where 0x05 stands for 0xE5, and the rest of it.
unfoldable pub first_byte : List ℕ → List ℕ
unfolding without_spaces
first_byte [] = []
first_byte (c ∷ cs) = (if c == 0x05 then 0xE5 else c) ∷ without_spaces cs

-- The bytes of the buffer up to `p`; whether they are UTF-8 is the library's to say.
unfoldable pub get_file_name : (is_utf8 : List ℕ → Bool) → DirectoryEntry → Option (List ℕ)
unfolding drop_last_dot first_byte without_spaces
get_file_name is_utf8 e =
    let text = drop_last_dot (first_byte e.name ++ 0x2E ∷ without_spaces e.name_extension) in
    if is_utf8 text then some text else none

-- `make_ascii_lowercase`
unfoldable pub lowercase : ℕ → ℕ
lowercase c = if leb 0x41 c && leb c 0x5A then c + 0x20 else c

-- What the loops over the directory make of an entry.
pub data Listed : Type 0 where
  skip : Listed
  last : Listed
  file : Listed

unfoldable pub first_of : List ℕ → ℕ
first_of [] = 0
first_of (c ∷ cs) = c

unfoldable pub listed : DirectoryEntry → Listed
unfolding first_of
listed e =
    if bit_and e.attribute 0x3F == fat32_attribute_long_file_name
    then skip
    else if bit_and e.attribute fat32_attribute_directory != 0
    then skip
    else if first_of e.name == 0
    then last
    else if first_of e.name == 0xE5
    then skip
    else file

unfoldable pub is_named : (is_utf8 : List ℕ → Bool) → (target_name : List ℕ) → DirectoryEntry → Bool
unfolding get_file_name eq_bytes lowercase
is_named is_utf8 target_name e = elim (get_file_name is_utf8 e) [
  | none ↦ false
  | some name ↦ eq_bytes name target_name || eq_bytes (map lowercase name) target_name
]

unfoldable pub info_of : DirectoryEntry → FileInfo
info_of e = record {
  entry_cluster = bit_or (e.starting_cluster_number_high <<< 16) e.starting_cluster_number;
  file_size = e.file_length;
}

unfoldable pub search_entries :
    (is_utf8 : List ℕ → Bool) → (target_name : List ℕ) → List DirectoryEntry → Option FileInfo
unfolding listed is_named info_of
search_entries is_utf8 target_name [] = none
search_entries is_utf8 target_name (e ∷ es) = elim (listed e) [
  | skip ↦ search_entries is_utf8 target_name es
  | last ↦ none
  | file ↦ elim (is_named is_utf8 target_name e) [
    | true ↦ some (info_of e)
    | false ↦ search_entries is_utf8 target_name es
  ]
]

unfoldable pub load_entries : (ℕ → ℕ) → (count address : ℕ) → List DirectoryEntry
unfolding load_entry
load_entries byte zero a = []
load_entries byte (suc n) a = load_entry byte a ∷ load_entries byte n (a + 32)

unfoldable pub search_file :
    (is_utf8 : List ℕ → Bool) → Fat32 → (byte : ℕ → ℕ) → (target_name : List ℕ) → Option FileInfo
unfolding search_entries load_entries
search_file is_utf8 v byte target_name =
    let len = v.bytes_per_sector * v.sectors_per_cluster / 32 in
    search_entries is_utf8 target_name (load_entries byte len v.root_directory_list)

-- The lines that list_files prints: a name and a size for each file.
unfoldable pub list_entries : (is_utf8 : List ℕ → Bool) → List DirectoryEntry → List (List ℕ × ℕ)
list_entries is_utf8 [] = []
list_entries is_utf8 (e ∷ es) = elim (listed e) [
  | skip ↦ list_entries is_utf8 es
  | last ↦ []
  | file ↦ elim (get_file_name is_utf8 e) [
    | none ↦ list_entries is_utf8 es
    | some name ↦ (name, e.file_length) ∷ list_entries is_utf8 es
  ]
]

unfoldable pub list_files : (is_utf8 : List ℕ → Bool) → Fat32 → (byte : ℕ → ℕ) → List (List ℕ × ℕ)
list_files is_utf8 v byte =
    let len = v.bytes_per_sector * v.sectors_per_cluster / 32 in
    list_entries is_utf8 (load_entries byte len v.root_directory_list)
