-- ===== src/Fat32/Rounds.antt =====
-- src/fat32.rs: the rounds of the loop that collects a run of clusters.
use mini_visor_real_device.Base.{
  ℕ, zero, suc, ◌+◌, ◌-◌, ◌*◌, ◌<◌, ◌≤◌, ◌≢◌, arith, inl, inr, Bool-cases, Option-cases, leb, ltb,
  ◌==◌,
}
use mini_visor_real_device.Fat32.{Fat32, get_next_cluster}
use mini_visor_real_device.Fat32.Transfer.{
  Run, Ended, no_fuel, skip_sectors, bytes_per_cluster, whole_cluster, take_cluster, find_run,
}

-- What is left to collect, counted from the start of the cluster.
abbrev left : (length : ℕ) → Run → ℕ
left length run = length - run.bytes + run.data_offset

skip_sectors_left :
    (v : Fat32) (length : ℕ) (run : Run) → left length (skip_sectors v run) ≤ left length run
unfolding skip_sectors
skip_sectors_left v length run = elim (Bool-cases (ltb v.bytes_per_sector run.data_offset)) [
  | inl t ↦ rw (t, skip_sectors) (omega arith)
  | inr f ↦ rw (f, skip_sectors) (omega arith)
]

-- A round asks for another one only where more than the cluster is left.
take_cluster_ends :
    (next_round : Run → Ended) (v : Fat32) (byte : ℕ → ℕ) (length : ℕ) (run : Run)
    → (bytes_per_cluster v < left length run
        → (n : ℕ)
        → next_round (record (whole_cluster v run) { data_offset = 0; cluster = n }) ≢ no_fuel)
    → take_cluster next_round v byte length run ≢ no_fuel
unfolding take_cluster
take_cluster_ends next_round v byte length run more e =
    elim (Bool-cases (leb (left length run) (bytes_per_cluster v))) [
      | inl t ↦ let g = rw (t, take_cluster) at e in cc
      | inr t ↦ elim (Option-cases (get_next_cluster v byte run.cluster)) [
        | inl n ↦ let g = rw (t, n, take_cluster) at e in cc
        | inr (n, s) ↦ elim (Bool-cases (n == run.cluster + 1)) [
          | inl a ↦ more (ground arith) n (rw (t, s, a, take_cluster) at e)
          | inr a ↦ let g = rw (t, s, a, take_cluster) at e in cc
        ]
      ]
    ]

-- Collecting a run ends within one round for each cluster's worth of bytes that are left, whatever
-- the allocation table holds: in a run, or in an Err.
pub find_run-Ends :
    (f : ℕ) (v : Fat32) (byte : ℕ → ℕ) (length : ℕ) (run : Run)
    → 1 ≤ v.bytes_per_sector
    → 1 ≤ v.sectors_per_cluster
    → length - run.bytes + run.data_offset ≤ suc f * bytes_per_cluster v
    → find_run (suc f) v byte length run ≢ no_fuel
unfolding find_run whole_cluster
find_run-Ends zero v byte length run pb ps enough =
    take_cluster_ends (λ r. find_run 0 v byte length r) v byte length (skip_sectors v run)
      (λ lt n. ground (arith, skip_sectors_left v length run))
find_run-Ends (suc f) v byte length run pb ps enough =
    take_cluster_ends (λ r. find_run (suc f) v byte length r) v byte length (skip_sectors v run)
      (λ lt n.
        find_run-Ends f v byte length
          (record (whole_cluster v (skip_sectors v run)) { data_offset = 0; cluster = n }) pb ps
          (omega (arith, skip_sectors_left v length run)))
