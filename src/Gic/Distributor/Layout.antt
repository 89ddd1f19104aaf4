-- ===== src/Gic/Distributor/Layout.antt =====
-- The MmioHandler of GicDistributorMmio in src/mmio/gicv3.rs: which accesses run, and which panic.
use mini_visor_real_device.Base.{
  ℕ, zero, suc, ◌-◌, ◌/◌, ◌<◌, ◌≤◌, ◌≡◌, ◌≢◌, ◌↔◌, refl, arith, ◌&&◌, List, [], ◌∷◌, ◌==◌, Exec,
  done, panic, index, length, if-elim, if-skip, if-take, dec_lt,
}
use mini_visor_real_device.Gic.Distributor.{Distributor}
use mini_visor_real_device.Gic.Distributor.Valid.{IsValid, index_some}
use mini_visor_real_device.Gic.Distributor.Mmio.{
  read, read_priority, gicd_ctlr, gicd_typer, gicd_pidr2, gicd_igroupr, gicd_isenabler,
  gicd_icenabler, gicd_ispendr, gicd_icpendr, gicd_isactiver, gicd_icactiver, gicd_ipriorityr,
  gicd_icfgr, gicd_igrpmodr, gicd_irouter,
}

-- The offsets of GICD_IGRPMODR32 and above, up to the one that the source calls GICD_IGRPMODR31.
abbrev pub PastIgrpmodr : ℕ → Type 0
PastIgrpmodr offset = (0xD80 ≤ offset) × (offset ≤ 0xF7C)

index-ne-panic : {A : Type 0} (xs : List A) (i : ℕ) → i < length xs → index xs i ≢ panic
index-ne-panic xs i h e = let (v, f) = index_some xs i h in ground arith

pub index-panic : {A : Type 0} (xs : List A) (i : ℕ) → length xs ≤ i → index xs i ≡ panic
index-panic [] i h = refl
index-panic (x ∷ xs) zero h = absurd (omega arith)
index-panic (x ∷ xs) (suc i) h = index-panic xs i (omega arith)

module _ {d : Distributor} (valid : IsValid d) (offset width : ℕ) where
  -- A run that panics only past the last register of GICD_IGRPMODR, at width 32.
  abbrev Safe : Exec ℕ → Type 0
  Safe run = run ≡ panic → PastIgrpmodr offset × (width ≡ 32)

  done-Safe : (v : ℕ) → Safe (done v)
  done-Safe v e = absurd (ground arith)

  index-Safe : (xs : List ℕ) (i : ℕ) → i < length xs → Safe (index xs i)
  index-Safe xs i h e = absurd (index-ne-panic xs i h e)

  read_priority-Safe : 0x0400 ≤ offset → offset < 0x07FC → Safe (read_priority d offset width)
  unfolding read_priority
  read_priority-Safe lo hi e =
      absurd
        (ground (arith, index-ne-panic d.priority ((offset - 0x0400) / 4), valid.priority.size))

  igrpmodr-Safe :
      0x0D00 ≤ offset
      → offset ≤ 0x0F7C
      → width ≡ 32
      → Safe (index d.group_modifier ((offset - 0x0D00) / 4))
  igrpmodr-Safe lo hi w e = elim (dec_lt offset 0xD80) [
    | yes below ↦
        absurd (index-ne-panic d.group_modifier _ (omega (arith, valid.group_modifier.size)) e)
    | no past ↦ ((omega arith, hi), w)
  ]

  -- The sixteen cases of `read`, each with its bound.
  read-Safe : Safe (read d offset width)
  unfolding read
  read-Safe =
      if-elim Safe (offset == gicd_ctlr && width == 32) (λ h. done-Safe _)
        λ _.
          if-elim Safe (offset == gicd_typer && width == 32) (λ h. done-Safe _)
            λ _.
              if-elim Safe (gicd_igroupr offset && width == 32)
                (λ h. index-Safe d.group _ (ground (arith, valid.group.size)))
                λ _.
                  if-elim Safe (gicd_isenabler offset && width == 32)
                    (λ h. index-Safe d.enable _ (ground (arith, valid.enable.size)))
                    λ _.
                      if-elim Safe (gicd_icenabler offset && width == 32)
                        (λ h. index-Safe d.enable _ (ground (arith, valid.enable.size)))
                        λ _.
                          if-elim Safe (gicd_ispendr offset && width == 32)
                            (λ h. index-Safe d.pending _ (ground (arith, valid.pending.size)))
                            λ _.
                              if-elim Safe (gicd_icpendr offset && width == 32)
                                (λ h. index-Safe d.pending _ (ground (arith, valid.pending.size)))
                                λ _.
                                  if-elim Safe (gicd_isactiver offset && width == 32)
                                    (λ h. index-Safe d.active _ (ground (arith, valid.active.size)))
                                    λ _.
                                      if-elim Safe (gicd_icactiver offset && width == 32)
                                        (λ h.
                                          index-Safe d.active _ (ground (arith, valid.active.size)))
                                        λ _.
                                          if-elim Safe (gicd_ipriorityr offset)
                                            (λ h. read_priority-Safe (ground arith) (ground arith))
                                            λ _.
                                              if-elim Safe (gicd_icfgr offset && width == 32)
                                                (λ h.
                                                  index-Safe d.configuration _
                                                    (ground (arith, valid.configuration.size)))
                                                λ _.
                                                  if-elim Safe (gicd_igrpmodr offset && width == 32)
                                                    (λ h.
                                                      igrpmodr-Safe (ground arith) (ground arith)
                                                        (ground arith))
                                                    λ _.
                                                      if-elim Safe
                                                        (gicd_irouter offset && width == 64)
                                                        (λ h.
                                                          index-Safe d.router _
                                                            (ground (arith, valid.router)))
                                                        λ _.
                                                          if-elim Safe
                                                            (offset == gicd_pidr2 && width == 32)
                                                            (λ h. done-Safe _) λ _. done-Safe _

  read-panics : PastIgrpmodr offset × (width ≡ 32) → read d offset width ≡ panic
  unfolding read
  read-panics (past, w) = if-skip (offset == gicd_ctlr && width == 32) _ (ground arith) (
      if-skip (offset == gicd_typer && width == 32) _ (ground arith) (
        if-skip (gicd_igroupr offset && width == 32) _ (ground arith) (
          if-skip (gicd_isenabler offset && width == 32) _ (ground arith) (
            if-skip (gicd_icenabler offset && width == 32) _ (ground arith) (
              if-skip (gicd_ispendr offset && width == 32) _ (ground arith) (
                if-skip (gicd_icpendr offset && width == 32) _ (ground arith) (
                  if-skip (gicd_isactiver offset && width == 32) _ (ground arith) (
                    if-skip (gicd_icactiver offset && width == 32) _ (ground arith) (
                      if-skip (gicd_ipriorityr offset) _ (ground arith) (
                        if-skip (gicd_icfgr offset && width == 32) _ (ground arith) (
                          if-take (gicd_igrpmodr offset && width == 32) _ (ground arith) (
                            index-panic d.group_modifier _
                              (omega (arith, valid.group_modifier.size))))))))))))))

-- A read of a well-formed distributor panics exactly when it is 32 bits wide and its offset is past
-- the 32 registers of GICD_IGRPMODR but within the range that the handler gives them.
pub read-panic_iff :
    (d : Distributor) (offset width : ℕ)
    → IsValid d
    → (read d offset width ≡ panic) ↔ (PastIgrpmodr offset × (width ≡ 32))
read-panic_iff d offset width valid = (read-Safe valid offset width, read-panics valid offset width)
