-- ===== src/Fat32/Transfer.antt =====
-- src/fat32.rs: reading and writing a file, a run of adjacent clusters at a time.
--
-- Each round of the inner loop takes a cluster, and each round of the outer one a run; the fuel
-- bounds both.
use mini_visor_real_device.Base.{
  ℕ, zero, suc, ◌+◌, ◌-◌, ◌*◌, ◌/◌, ◌%◌, ◌^◌, true, false, ◌&&◌, Option, none, some, max, bit_and,
  ltb, leb, ◌==◌, ◌>>>◌, bit_not, if◌then◌else◌,
}
use mini_visor_real_device.Fat32.{
  Platform, Outcome, ok, err, panic, out_of_fuel, Fat32, FileInfo, get_next_cluster,
  cluster_to_sector,
}
use mini_visor_real_device.Fat32.Volume.{page_shift, read_sectors, write_sectors}

-- The variables of the inner loop.
pub record Run : Type 0 where
  pub sectors : ℕ
  pub bytes : ℕ
  pub sector_offset : ℕ
  pub data_offset : ℕ
  pub data_offset_backup : ℕ
  pub cluster : ℕ

-- How a loop ends: with a run, with an `Err`, or without fuel.
pub data Ended : Type 0 where
  found : Run → Ended
  failed : Ended
  no_fuel : Ended

-- Whole sectors are skipped where the offset is past the first one.
unfoldable pub skip_sectors : Fat32 → Run → Run
skip_sectors v run =
    let bps = v.bytes_per_sector in
    if ltb bps run.data_offset
    then (let skipped = run.data_offset / bps % 2 ^ 32 in
        let rest = run.data_offset - skipped * bps in
        record run { sector_offset = skipped; data_offset = rest; data_offset_backup = rest })
    else run

abbrev pub bytes_per_cluster : Fat32 → ℕ
bytes_per_cluster v = v.sectors_per_cluster * v.bytes_per_sector

-- The rest of the length fits the cluster.
unfoldable pub last_cluster : Fat32 → (length : ℕ) → Run → Run
last_cluster v length run =
    let left = length - run.bytes in
    record run {
      sectors =
          (run.sectors + (1 + (max (left + run.data_offset) 1 - 1) / v.bytes_per_sector) % 2 ^ 32)
          % 2 ^ 32;
      bytes = run.bytes + left;
    }

unfoldable pub whole_cluster : Fat32 → Run → Run
whole_cluster v run = record run {
  sectors = (run.sectors + v.sectors_per_cluster) % 2 ^ 32;
  bytes = run.bytes + (bytes_per_cluster v - run.data_offset);
}

-- The body of the inner loop after the skip: the last cluster, the end of a run of adjacent
-- clusters, or the next round.
unfoldable pub take_cluster :
    (next_round : Run → Ended) → Fat32 → (byte : ℕ → ℕ) → (length : ℕ) → Run → Ended
take_cluster next_round v byte length run =
    elim (leb (length - run.bytes + run.data_offset) (bytes_per_cluster v)) [
      | true ↦ found (last_cluster v length run)
      | false ↦ elim (get_next_cluster v byte run.cluster) [
        | none ↦ failed
        | some next ↦ elim (next == run.cluster + 1) [
          | false ↦ found (whole_cluster v run)
          | true ↦ next_round (record (whole_cluster v run) { data_offset = 0; cluster = next })
        ]
      ]
    ]

-- The inner loop of `read`.
unfoldable pub find_run : (fuel : ℕ) → Fat32 → (byte : ℕ → ℕ) → (length : ℕ) → Run → Ended
find_run zero v byte length run = no_fuel
find_run (suc f) v byte length run =
    take_cluster (λ r. find_run f v byte length r) v byte length (skip_sectors v run)

-- The inner loop of `write`, which first refuses a rest that is less than a sector.
unfoldable pub find_write_run : (fuel : ℕ) → Fat32 → (byte : ℕ → ℕ) → (length : ℕ) → Run → Ended
find_write_run zero v byte length run = no_fuel
find_write_run (suc f) v byte length run = elim (ltb (length - run.bytes) v.bytes_per_sector) [
  | true ↦ failed
  | false ↦ take_cluster (λ r. find_write_run f v byte length r) v byte length (skip_sectors v run)
]

unfoldable pub skip_clusters : (count : ℕ) → Fat32 → (byte : ℕ → ℕ) → (cluster : ℕ) → Option ℕ
unfolding get_next_cluster
skip_clusters zero v byte cluster = some cluster
skip_clusters (suc n) v byte cluster = elim (get_next_cluster v byte cluster) [
  | none ↦ none
  | some next ↦ skip_clusters n v byte next
]

-- The variables as a round of the outer loop begins.
abbrev pub start_run : (data_offset cluster : ℕ) → Run
start_run data_offset cluster = record {
  sectors = 0;
  bytes = 0;
  sector_offset = 0;
  data_offset = data_offset;
  data_offset_backup = data_offset;
  cluster = cluster;
}

module _ {S : Type 0} (platform : Platform S) where
  -- A run is read where it goes, or through pages of its own where it starts within a sector.
  unfoldable pub read_run :
      Fat32 → (buffer_address buffer_pointer first_cluster : ℕ) → Run → S → Outcome S Unit
  unfolding read_sectors cluster_to_sector
  read_run v buffer_address buffer_pointer first_cluster run s =
      let offset = run.data_offset_backup in
      let sector = (cluster_to_sector v first_cluster + run.sector_offset) % 2 ^ 32 in
      let size =
        bit_and (run.sectors * v.bytes_per_sector) (bit_not 64 (v.lba_size - 1)) + v.lba_size in
      let pages = (size >>> page_shift) + 1 in
      if offset == 0
      then (let (s1, good) =
            read_sectors platform v (buffer_address + buffer_pointer) sector run.sectors s in
          if good then ok s1 tt else err s1)
      else (let (s1, allocated) = platform.allocate_pages pages 0 s in
          elim allocated [
            | none ↦ err s1
            | some buffer ↦
                let (s2, good) = read_sectors platform v buffer sector run.sectors s1 in
                if good
                then (if buffer_pointer == 0
                    then ok
                        (platform.free_pages buffer pages
                          (platform.copy (buffer + offset) buffer_address run.bytes s2))
                        tt
                    else panic)
                else err (platform.free_pages buffer pages s2)
          ])

  -- The outer loop of `read`.
  unfoldable pub read_loop :
      (fuel : ℕ)
      → Fat32
      → (buffer_address length data_offset cluster buffer_pointer : ℕ) → S
      → Outcome S ℕ
  unfolding find_run read_run get_next_cluster
  read_loop zero v buffer_address length data_offset cluster buffer_pointer s = out_of_fuel
  read_loop (suc f) v buffer_address length data_offset cluster buffer_pointer s =
      elim (find_run (suc f) v (platform.load_byte s) length (start_run data_offset cluster)) [
        | no_fuel ↦ out_of_fuel
        | failed ↦ err s
        | found run ↦ elim (read_run v buffer_address buffer_pointer cluster run s) [
          | panic ↦ panic
          | out_of_fuel ↦ out_of_fuel
          | err s1 ↦ err s1
          | ok s1 _ ↦
              let done_bytes = buffer_pointer + run.bytes in
              elim (length == done_bytes) [
                | true ↦ ok s1 done_bytes
                | false ↦ elim (get_next_cluster v (platform.load_byte s1) run.cluster) [
                  | none ↦ err s1
                  | some next ↦ read_loop f v buffer_address length 0 next done_bytes s1
                ]
              ]
        ]
      ]

  -- The outer loop of `write`.
  unfoldable pub write_loop :
      (fuel : ℕ)
      → Fat32
      → (buffer_address length data_offset cluster buffer_pointer : ℕ) → S
      → Outcome S ℕ
  unfolding find_write_run write_sectors get_next_cluster cluster_to_sector
  write_loop zero v buffer_address length data_offset cluster buffer_pointer s = out_of_fuel
  write_loop (suc f) v buffer_address length data_offset cluster buffer_pointer s =
      elim (find_write_run (suc f) v (platform.load_byte s) length
        (start_run data_offset cluster)) [
          | no_fuel ↦ out_of_fuel
          | failed ↦ err s
          | found run ↦
              if run.data_offset_backup == 0
              then (let sector = (cluster_to_sector v cluster + run.sector_offset) % 2 ^ 32 in
                  let (s1, good) =
                    write_sectors platform v (buffer_address + buffer_pointer) sector run.sectors
                      s in
                  let done_bytes = buffer_pointer + run.bytes in
                  elim good [
                    | false ↦ err s1
                    | true ↦ elim (length == done_bytes) [
                      | true ↦ ok s1 done_bytes
                      | false ↦ elim (get_next_cluster v (platform.load_byte s1) run.cluster) [
                        | none ↦ err s1
                        | some next ↦
                            write_loop f v buffer_address length run.data_offset_backup next
                              done_bytes s1
                      ]
                    ]
                  ])
              else err s
        ]

  -- What `read` and `write` begin with: the length that lies in the file, and the first cluster.
  unfoldable pub transfer :
      (loop : (data_offset cluster length : ℕ) → S → Outcome S ℕ)
      → Fat32
      → FileInfo
      → (offset length : ℕ) → S
      → Outcome S ℕ
  unfolding skip_clusters
  transfer loop v file_info offset length s =
      let size = file_info.file_size in
      let clusters_to_skip = offset / bytes_per_cluster v in
      let data_offset = offset - clusters_to_skip * bytes_per_cluster v in
      if ltb size (offset + length) && leb size offset
      then ok s 0
      else elim (skip_clusters clusters_to_skip v (platform.load_byte s) file_info.entry_cluster) [
        | none ↦ err s
        | some cluster ↦
            loop data_offset cluster (if ltb size (offset + length) then size - offset else length)
              s
      ]

  unfoldable pub read :
      (fuel : ℕ) → Fat32 → FileInfo → (buffer_address offset length : ℕ) → S → Outcome S ℕ
  unfolding transfer read_loop
  read fuel v file_info buffer_address offset length s =
      transfer
        (λ data_offset cluster n s1. read_loop fuel v buffer_address n data_offset cluster 0 s1) v
        file_info offset length s

  unfoldable pub write :
      (fuel : ℕ) → Fat32 → FileInfo → (buffer_address offset length : ℕ) → S → Outcome S ℕ
  unfolding transfer write_loop
  write fuel v file_info buffer_address offset length s =
      transfer
        (λ data_offset cluster n s1. write_loop fuel v buffer_address n data_offset cluster 0 s1) v
        file_info offset length s
