-- ===== src/Fat32/Contiguous.antt =====
-- src/fat32.rs: reading from adjacent clusters.
use mini_visor_real_device.Base.{
  ℕ, zero, suc, ◌+◌, ◌-◌, ◌*◌, ◌/◌, ◌%◌, ◌^◌, ◌<◌, ◌≤◌, ◌≡◌, refl, ap, sym, subst, arith, ◌∙◌, true,
  false, some, max, ltb, leb, ◌==◌, if◌then◌else◌, Bool-cases, inl, inr, ==_self, le→leb,
}
use mini_visor_real_device.Fat32.{
  Platform, Outcome, ok, err, Fat32, FileInfo, get_next_cluster, cluster_to_sector,
}
use mini_visor_real_device.Fat32.Volume.{read_sectors}
use mini_visor_real_device.Fat32.Transfer.{
  Run, Ended, found, skip_sectors, bytes_per_cluster, last_cluster, whole_cluster, find_run,
  skip_clusters, take_cluster, start_run, read_run, read_loop, transfer, read,
}
use native.Mathlib.Nat.{add-mul-div_right}

-- The clusters from one on follow each other on the disk.
abbrev pub AreAdjacent : Fat32 → (ℕ → ℕ) → (cluster count : ℕ) → Type 0
AreAdjacent v byte cluster count =
    (i : ℕ) → i < count → get_next_cluster v byte (cluster + i) ≡ some (cluster + i + 1)

-- The sectors that a number of bytes takes.
abbrev pub sectors_of : Fat32 → ℕ → ℕ
sectors_of v bytes = 1 + (bytes - 1) / v.bytes_per_sector

first_adjacent :
    (v : Fat32) (byte : ℕ → ℕ) (n cluster : ℕ)
    → AreAdjacent v byte cluster (suc n)
    → get_next_cluster v byte cluster ≡ some (cluster + 1)
first_adjacent v byte n cluster h =
    let z : cluster + 0 ≡ cluster = omega arith in
    subst (λ c. get_next_cluster v byte c ≡ some (c + 1)) z (h 0 (omega arith))

next-AreAdjacent :
    (v : Fat32) (byte : ℕ → ℕ) (n cluster : ℕ)
    → AreAdjacent v byte cluster (suc n)
    → AreAdjacent v byte (cluster + 1) n
next-AreAdjacent v byte n cluster h i lt =
    let s : cluster + suc i ≡ cluster + 1 + i = omega arith in
    subst (λ c. get_next_cluster v byte c ≡ some (c + 1)) s (h (suc i) (omega arith))

skip_clusters_adjacent :
    (v : Fat32) (byte : ℕ → ℕ) (n cluster : ℕ)
    → AreAdjacent v byte cluster n
    → skip_clusters n v byte cluster ≡ some (cluster + n)
unfolding skip_clusters
skip_clusters_adjacent v byte zero cluster h = ap some (omega arith)
skip_clusters_adjacent v byte (suc n) cluster h =
    let e : get_next_cluster v byte cluster ≡ some (cluster + 1) =
      first_adjacent v byte n cluster h in
    let ih : skip_clusters n v byte (cluster + 1) ≡ some (cluster + 1 + n) =
      skip_clusters_adjacent v byte n (cluster + 1) (next-AreAdjacent v byte n cluster h) in
    let z : some (cluster + 1 + n) ≡ some (cluster + suc n) = ap some (omega arith) in
    rw (e, skip_clusters) (ih ∙ z)

-- What is left of a length after a cluster takes that many sectors less.
sectors_of_rest :
    (v : Fat32) (left : ℕ)
    → 1 ≤ v.bytes_per_sector
    → bytes_per_cluster v < left
    → sectors_of v left ≡ v.sectors_per_cluster + sectors_of v (left - bytes_per_cluster v)
sectors_of_rest v left p lt =
    let bps = v.bytes_per_sector in
    let spc = v.sectors_per_cluster in
    let e : left - 1 ≡ left - spc * bps - 1 + spc * bps = omega arith in
    let d : (left - 1) / bps ≡ (left - spc * bps - 1) / bps + spc =
      ap (λ t. t / bps) e ∙ add-mul-div_right (left - spc * bps - 1) spc p in
    omega arith

-- A run over adjacent clusters: where it ends, and how many sectors it has.
abbrev pub IsRunTo : Ended → Run → (length sectors cluster : ℕ) → Type 0
IsRunTo ended run length sectors cluster =
    (run' : Run) × (ended ≡ found run')
    × (run'.sectors ≡ sectors)
    × (run'.bytes ≡ length)
    × (run'.sector_offset ≡ run.sector_offset)
    × (run'.data_offset_backup ≡ run.data_offset_backup)
    × (run'.cluster ≡ cluster)

skip_sectors_none : (v : Fat32) (run : Run) → run.data_offset ≡ 0 → skip_sectors v run ≡ run
unfolding skip_sectors
skip_sectors_none v run e =
    let t : ltb v.bytes_per_sector run.data_offset ≡ false = rw e (ground arith) in rw t refl

-- One round of the inner loop, in its two cases.
take_last :
    (next_round : Run → Ended) (v : Fat32) (byte : ℕ → ℕ) (length : ℕ) (run : Run)
    → length - run.bytes + run.data_offset ≤ bytes_per_cluster v
    → take_cluster next_round v byte length run ≡ found (last_cluster v length run)
unfolding take_cluster
take_last next_round v byte length run le =
    let t : leb (length - run.bytes + run.data_offset) (bytes_per_cluster v) ≡ true =
      le→leb (length - run.bytes + run.data_offset) (bytes_per_cluster v) le in
    rw (t, take_cluster) refl

-- The state of the next round, over the next cluster.
abbrev pub advanced : Fat32 → Run → Run
advanced v run = record (whole_cluster v run) { data_offset = 0; cluster = run.cluster + 1 }

take_adjacent :
    (next_round : Run → Ended) (v : Fat32) (byte : ℕ → ℕ) (length : ℕ) (run : Run)
    → bytes_per_cluster v < length - run.bytes + run.data_offset
    → get_next_cluster v byte run.cluster ≡ some (run.cluster + 1)
    → take_cluster next_round v byte length run ≡ next_round (advanced v run)
unfolding take_cluster
take_adjacent next_round v byte length run lt e =
    let t : leb (length - run.bytes + run.data_offset) (bytes_per_cluster v) ≡ false =
      ground arith in
    let n : (run.cluster + 1 == run.cluster + 1) ≡ true = ==_self (run.cluster + 1) in
    rw (t, e, n, take_cluster) refl

find_run_step :
    (f : ℕ) (v : Fat32) (byte : ℕ → ℕ) (length : ℕ) (run : Run)
    → run.data_offset ≡ 0
    → find_run (suc f) v byte length run
      ≡ take_cluster (λ r. find_run f v byte length r) v byte length run
unfolding find_run
find_run_step f v byte length run off =
    ap (λ r. take_cluster (λ r'. find_run f v byte length r') v byte length r)
      (skip_sectors_none v run off)

find_run_adjacent :
    (q f : ℕ) (v : Fat32) (byte : ℕ → ℕ) (length : ℕ) (run : Run)
    → 1 ≤ v.bytes_per_sector
    → run.data_offset ≡ 0
    → run.bytes + q * bytes_per_cluster v < length
    → length ≤ run.bytes + q * bytes_per_cluster v + bytes_per_cluster v
    → q ≤ f
    → run.sectors + sectors_of v (length - run.bytes) < 2 ^ 32
    → AreAdjacent v byte run.cluster q
    → IsRunTo
        (find_run (suc f) v byte length run)
        run
        length
        (run.sectors + sectors_of v (length - run.bytes))
        (run.cluster + q)
unfolding last_cluster whole_cluster
find_run_adjacent zero f v byte length run pb off lo hi fuel bound adj =
    let m : max (length - run.bytes + run.data_offset) 1 ≡ length - run.bytes = omega arith in
    (
      last_cluster v length run,
      find_run_step f v byte length run off
          ∙ take_last (λ r. find_run f v byte length r) v byte length run (omega arith),
      rw m (omega arith),
      omega arith,
      refl,
      refl,
      omega arith,
    )
find_run_adjacent (suc q) zero v byte length run pb off lo hi fuel bound adj = elim fuel [ ]
find_run_adjacent (suc q) (suc f) v byte length run pb off lo hi fuel bound adj =
    let bpc = bytes_per_cluster v in
    let total = sectors_of_rest v (length - run.bytes) pb (omega arith) in
    let next = advanced v run in
    let rest : length - run.bytes - bpc ≡ length - next.bytes = omega arith in
    let sum : sectors_of v (length - run.bytes)
        ≡ v.sectors_per_cluster + sectors_of v (length - next.bytes) =
      total ∙ ap (λ l. v.sectors_per_cluster + sectors_of v l) rest in
    let sectors : next.sectors ≡ run.sectors + v.sectors_per_cluster = omega arith in
    let (run', e, s, b, so, back, c) =
      find_run_adjacent q f v byte length next pb refl (omega arith) (omega arith) (omega arith)
        (omega arith) (next-AreAdjacent v byte q run.cluster adj) in
    (
      run',
      find_run_step (suc f) v byte length run off
          ∙ (take_adjacent (λ r. find_run (suc f) v byte length r) v byte length run (omega arith)
                (first_adjacent v byte q run.cluster adj)
              ∙ e),
      omega arith,
      b,
      so,
      back,
      omega arith,
    )

cluster_to_sector_mod :
    (v : Fat32) (cluster : ℕ)
    → (cluster_to_sector v cluster + 0) % 2 ^ 32 ≡ cluster_to_sector v cluster
unfolding cluster_to_sector
cluster_to_sector_mod v cluster = omega arith

module _ {S : Type 0} (platform : Platform S) where
  -- One transfer of whole sectors, and the length as the result.
  unfoldable pub read_at : Fat32 → (buffer cluster length : ℕ) → S → Outcome S ℕ
  read_at v buffer cluster length s =
      let (s1, good) =
        read_sectors platform v buffer (cluster_to_sector v cluster) (sectors_of v length) s in
      if good then ok s1 length else err s1

  read_run_direct :
      (v : Fat32) (buffer cluster : ℕ) (run : Run) (s : S)
      → run.data_offset_backup ≡ 0
      → run.sector_offset ≡ 0
      → read_run platform v buffer 0 cluster run s ≡ (
          let (s1, good) =
            read_sectors platform v buffer (cluster_to_sector v cluster) run.sectors s in
          if good then ok s1 tt else err s1)
  unfolding read_run
  read_run_direct v buffer cluster run s back so =
      let t : (run.data_offset_backup == 0) ≡ true = rw back refl in
      let z : buffer + 0 ≡ buffer = omega arith in
      rw (t, so, z, cluster_to_sector_mod v cluster, read_run) refl

  read_loop_adjacent :
      (f : ℕ) (v : Fat32) (buffer length cluster q : ℕ) (s : S)
      → 1 ≤ v.bytes_per_sector
      → q * bytes_per_cluster v < length
      → length ≤ q * bytes_per_cluster v + bytes_per_cluster v
      → q ≤ f
      → sectors_of v length < 2 ^ 32
      → AreAdjacent v (platform.load_byte s) cluster q
      → read_loop platform (suc f) v buffer length 0 cluster 0 s ≡ read_at v buffer cluster length s
  unfolding read_loop read_at
  read_loop_adjacent f v buffer length cluster q s pb lo hi fuel bound adj =
      let z : length - 0 ≡ length = omega arith in
      let zs : sectors_of v (length - 0) ≡ sectors_of v length = ap (λ l. sectors_of v l) z in
      let bound' : 0 + sectors_of v (length - 0) < 2 ^ 32 = omega (arith, zs) in
      let (run, e, ns, nb, so, back, c) =
        find_run_adjacent q f v (platform.load_byte s) length (start_run 0 cluster) pb refl
          (omega arith) (omega arith) fuel bound' adj in
      let d = read_run_direct v buffer cluster run s back so in
      let n : run.sectors ≡ sectors_of v length = ns ∙ omega (arith, zs) in
      let l : (length == 0 + run.bytes) ≡ true = rw nb (ground arith) in
      let b : 0 + run.bytes ≡ length = omega arith in
      let res =
        read_sectors platform v buffer (cluster_to_sector v cluster) (sectors_of v length) s in
      let d2 : read_run platform v buffer 0 cluster run s
          ≡ (if res.1 then ok res.0 tt else err res.0) =
        d
        ∙ ap
            (λ k.
              let (s1, good) = read_sectors platform v buffer (cluster_to_sector v cluster) k s in
              if good then ok s1 tt else err s1)
            n in
      elim (Bool-cases res.1) [
        | inl t ↦
            let d' : read_run platform v buffer 0 cluster run s ≡ ok res.0 tt = d2 ∙ rw t refl in
            let r : read_at v buffer cluster length s ≡ ok res.0 length = rw (t, read_at) refl in
            rw (e, d', l, b, read_loop) (sym r)
        | inr t ↦
            let d' : read_run platform v buffer 0 cluster run s ≡ err res.0 = d2 ∙ rw t refl in
            let r : read_at v buffer cluster length s ≡ err res.0 = rw (t, read_at) refl in
            rw (e, d', read_loop) (sym r)
      ]

  transfer_inside :
      (loop : (data_offset cluster length : ℕ) → S → Outcome S ℕ) (v : Fat32) (info : FileInfo)
      (offset length cluster : ℕ) (s : S)
      → 1 ≤ length
      → offset + length ≤ info.file_size
      → offset % bytes_per_cluster v ≡ 0
      → skip_clusters (offset / bytes_per_cluster v) v (platform.load_byte s) info.entry_cluster
        ≡ some cluster
      → transfer platform loop v info offset length s ≡ loop 0 cluster length s
  unfolding transfer
  transfer_inside loop v info offset length cluster s pos inside aligned skip =
      let t : ltb info.file_size (offset + length) ≡ false = ground arith in
      let d : offset - offset / bytes_per_cluster v * bytes_per_cluster v ≡ 0 = grind arith in
      rw (t, skip, d, transfer) (rw t refl)

  -- A read from a cluster's start over clusters that follow each other on the disk is one transfer
  -- of the sectors that the length takes, straight into the buffer; it returns the length, or Err
  -- where that transfer fails. The conditions: the length is not 0 and lies in the file, the sectors
  -- fit 32 bits, and the fuel is more than the clusters that the length takes.
  pub read-AreAdjacent :
      (v : Fat32) (info : FileInfo) (buffer offset length f : ℕ) (s : S)
      → 1 ≤ v.bytes_per_sector
      → 1 ≤ v.sectors_per_cluster
      → 1 ≤ length
      → offset + length ≤ info.file_size
      → offset % bytes_per_cluster v ≡ 0
      → (length - 1) / bytes_per_cluster v ≤ f
      → sectors_of v length < 2 ^ 32
      → AreAdjacent v
          (platform.load_byte s)
          info.entry_cluster
          (offset / bytes_per_cluster v + (length - 1) / bytes_per_cluster v)
      → read platform (suc f) v info buffer offset length s
        ≡ read_at v buffer (info.entry_cluster + offset / bytes_per_cluster v) length s
  unfolding read
  read-AreAdjacent v info buffer offset length f s pb ps pos inside aligned fuel bound adj =
      let bpc = bytes_per_cluster v in
      let k = offset / bpc in
      let q = (length - 1) / bpc in
      let p : 1 ≤ bpc = grind arith in
      let r : length - 1 ≡ bpc * q + (length - 1) % bpc = grind arith in
      let m : (length - 1) % bpc < bpc = omega arith in
      let skip =
        skip_clusters_adjacent v (platform.load_byte s) k info.entry_cluster
          (λ i lt. adj i (omega arith)) in
      transfer_inside
        (λ data_offset cluster n s1. read_loop platform (suc f) v buffer n data_offset cluster 0 s1)
        v info offset length (info.entry_cluster + k) s pos inside aligned skip
      ∙ read_loop_adjacent f v buffer length (info.entry_cluster + k) q s pb (omega arith)
          (omega arith) fuel bound
          (λ i lt.
            let e : info.entry_cluster + (k + i) ≡ info.entry_cluster + k + i = omega arith in
            subst (λ c. get_next_cluster v (platform.load_byte s) c ≡ some (c + 1)) e
              (adj (k + i) (omega arith)))
