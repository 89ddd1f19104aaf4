-- ===== src/Fat32/Volume.antt =====
-- src/fat32.rs: Fat32::new, and the transfers of whole sectors.
use mini_visor_real_device.Base.{
  ℕ, zero, suc, ◌+◌, ◌-◌, ◌*◌, ◌/◌, Bool, none, some, bit_and, ltb, ◌>>>◌, bit_not, if◌then◌else◌,
}
use mini_visor_real_device.Fat32.{
  Platform, Outcome, ok, err, panic, Fat32, load_u16, load_u32, load_bytes, eq_bytes,
  fat32_signature, fat32_signature_offset, bytes_per_sector_offset, sectors_per_cluster_offset,
  num_of_reserved_cluster_offset, num_of_fats_offset, fat_size_offset, root_cluster_offset,
  cluster_to_sector,
}

-- `usize::ilog2` of a number that is not 0; a word has 64 bits.
unfoldable pub ilog2_rounds : (rounds n : ℕ) → ℕ
ilog2_rounds zero n = 0
ilog2_rounds (suc r) n = let rest = ilog2_rounds r (n / 2) in if ltb n 2 then 0 else suc rest

abbrev pub page_shift : ℕ
page_shift = 12

-- A size rounded up to whole blocks of the device.
unfoldable pub align_to_lba : (size lba_size : ℕ) → ℕ
align_to_lba size lba_size = bit_and (size - 1) (bit_not 64 (lba_size - 1)) + lba_size

module _ {S : Type 0} (platform : Platform S) where
  unfoldable pub read_sectors : Fat32 → (buffer base_sector sectors : ℕ) → S → S × Bool
  read_sectors v buffer base_sector sectors s =
      platform.blk_read buffer (v.base_lba * v.lba_size + base_sector * v.bytes_per_sector)
        (sectors * v.bytes_per_sector) s

  unfoldable pub write_sectors : Fat32 → (buffer base_sector sectors : ℕ) → S → S × Bool
  write_sectors v buffer base_sector sectors s =
      platform.blk_write buffer (v.base_lba * v.lba_size + base_sector * v.bytes_per_sector)
        (sectors * v.bytes_per_sector) s

  -- The values of the boot sector, before the tables are loaded.
  unfoldable pub parse_bpb : (byte : ℕ → ℕ) → (bpb_address base_lba lba_size : ℕ) → Fat32
  unfolding load_u16 load_u32
  parse_bpb byte bpb_address base_lba lba_size = record {
    base_lba = base_lba;
    lba_size = lba_size;
    bytes_per_sector = load_u16 byte (bpb_address + bytes_per_sector_offset);
    sectors_per_cluster = byte (bpb_address + sectors_per_cluster_offset);
    reserved_sectors = load_u16 byte (bpb_address + num_of_reserved_cluster_offset);
    fat_sectors = load_u32 byte (bpb_address + fat_size_offset);
    number_of_fats = load_u16 byte (bpb_address + num_of_fats_offset);
    fat = 0;
    root_directory_list = 0;
  }

  -- The root directory's first cluster is read last.
  unfoldable pub load_root : Fat32 → (root_cluster fat_pages : ℕ) → S → Outcome S Fat32
  unfolding read_sectors cluster_to_sector
  load_root v root_cluster fat_pages s =
      let pages = (v.sectors_per_cluster * v.bytes_per_sector >>> page_shift) + 1 in
      let (s1, list) = platform.allocate_pages pages (ilog2_rounds 64 v.lba_size) s in
      elim list [
        | none ↦ panic
        | some root_directory_list ↦
            let v' : Fat32 = record v { root_directory_list = root_directory_list } in
            let (s2, good) =
              read_sectors v' root_directory_list (cluster_to_sector v' root_cluster)
                v.sectors_per_cluster s1 in
            if good
            then ok s2 v'
            else err (
                platform.free_pages v.fat fat_pages
                  (platform.free_pages root_directory_list pages s2))
      ]

  unfoldable pub load_fat : Fat32 → (root_cluster : ℕ) → S → Outcome S Fat32
  unfolding load_root align_to_lba
  load_fat v root_cluster s =
      let size = align_to_lba (v.fat_sectors * v.bytes_per_sector) v.lba_size in
      let pages = (size >>> page_shift) + 1 in
      let (s1, table) = platform.allocate_pages pages (ilog2_rounds 64 v.lba_size) s in
      elim table [
        | none ↦ panic
        | some fat ↦
            let address = v.base_lba * v.lba_size + v.reserved_sectors * v.bytes_per_sector in
            let (s2, good) = platform.blk_read fat address size s1 in
            if good
            then load_root (record v { fat = fat }) root_cluster pages s2
            else err (platform.free_pages fat pages s2)
      ]

  -- `Fat32::new`, with the address of its buffer for the boot sector.
  unfoldable pub new : (bpb_address base_lba lba_size : ℕ) → S → Outcome S Fat32
  unfolding load_fat parse_bpb load_u32 load_bytes eq_bytes
  new bpb_address base_lba lba_size s =
      let (s1, good) = platform.blk_read bpb_address (base_lba * lba_size) 512 s in
      let byte = platform.load_byte s1 in
      if good
      then (if eq_bytes (load_bytes byte 8 (bpb_address + fat32_signature_offset)) fat32_signature
          then load_fat (parse_bpb byte bpb_address base_lba lba_size)
              (load_u32 byte (bpb_address + root_cluster_offset)) s1
          else err s1)
      else err s1
