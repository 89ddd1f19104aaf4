-- ===== src/Gic/Distributor/Write.antt =====
-- The MmioHandler of GicDistributorMmio in src/mmio/gicv3.rs: a write keeps the distributor well
-- formed.
use mini_visor_real_device.Base.{
  ℕ, ◌-◌, ◌*◌, ◌^◌, ◌/◌, ◌<◌, ◌≤◌, ◌≡◌, refl, ◌∙◌, arith, bit_and, bit_or, true, ◌&&◌, ◌==◌, Exec,
  done, ◌>>=◌, length, length-set, set, get_elem?-some, bit_not, as_word, if-elim, bit_and-lt,
  bit_or-lt, dec_lt,
}
use mini_visor_real_device.Cpu.{Cpu}
use mini_visor_real_device.Gic.Distributor.Layout.{PastIgrpmodr}
use mini_visor_real_device.Gic.Distributor.Loop.{
  AllRoutable, Runs, modify-Modified, set_enabled-Runs, set_pending-Runs,
}
use mini_visor_real_device.Gic.Common.{modify, set_byte}
use mini_visor_real_device.Gic.Bitmap.{IsBank}
use mini_visor_real_device.Gic.Distributor.{Distributor}
use mini_visor_real_device.Gic.Distributor.Valid.{IsValid}
use mini_visor_real_device.Gic.Distributor.Mmio.{
  set_enabled, set_pending, write_plain, write_priority, write, gicd_ctlr, gicd_igroupr,
  gicd_isenabler, gicd_icenabler, gicd_ispendr, gicd_icpendr, gicd_isactiver, gicd_icactiver,
  gicd_ipriorityr, gicd_icfgr, gicd_igrpmodr, gicd_irouter,
}

-- The writes that raise nothing.
record Plain (d : Distributor) (run : Exec Distributor) : Type 0 where
  d' : Distributor
  runs : run ≡ done d'
  valid : IsValid d'

module _ (d : Distributor) (valid : IsValid d) (offset width value : ℕ) where
  same-Plain : Plain d (done d)
  same-Plain = record { d' = d; runs = refl; valid = valid }

  clear-small : (x : ℕ) → x < 2 ^ 32 → bit_and x (bit_not 32 (as_word 32 value)) < 2 ^ 32
  clear-small x h = bit_and-lt 32 x (bit_not 32 (as_word 32 value)) h

  keep-small : (x : ℕ) → x < 2 ^ 32 → bit_or x (as_word 32 value) < 2 ^ 32
  keep-small x h = bit_or-lt 32 x (as_word 32 value) h (omega arith)

  byte-small : (k x : ℕ) → x < 2 ^ 32 → set_byte k value x < 2 ^ 32
  byte-small k x h = bit_or-lt 32 _ _ (bit_and-lt 32 x _ h) (omega arith)

  enable-Plain :
      (f : ℕ → ℕ)
      → ((x : ℕ) → x < 2 ^ 32 → f x < 2 ^ 32)
      → (i : ℕ) → i < 32
      → Plain d (modify d.enable i f >>= λ regs. done (record d { enable = regs }))
  enable-Plain f small i lt =
      let w = modify-Modified d.enable i f valid.enable small lt in
      let bank : IsBank 32 w.regs' = w.bank in
      rw w.runs (record { d' = record d { enable = w.regs' }; runs = refl; valid = assumption })

  pending-Plain :
      (f : ℕ → ℕ)
      → ((x : ℕ) → x < 2 ^ 32 → f x < 2 ^ 32)
      → (i : ℕ) → i < 32
      → Plain d (modify d.pending i f >>= λ regs. done (record d { pending = regs }))
  pending-Plain f small i lt =
      let w = modify-Modified d.pending i f valid.pending small lt in
      let bank : IsBank 32 w.regs' = w.bank in
      rw w.runs (record { d' = record d { pending = w.regs' }; runs = refl; valid = assumption })

  active-Plain :
      (f : ℕ → ℕ)
      → ((x : ℕ) → x < 2 ^ 32 → f x < 2 ^ 32)
      → (i : ℕ) → i < 32
      → Plain d (modify d.active i f >>= λ regs. done (record d { active = regs }))
  active-Plain f small i lt =
      let w = modify-Modified d.active i f valid.active small lt in
      let bank : IsBank 32 w.regs' = w.bank in
      rw w.runs (record { d' = record d { active = w.regs' }; runs = refl; valid = assumption })

  priority-Plain :
      (f : ℕ → ℕ)
      → ((x : ℕ) → x < 2 ^ 32 → f x < 2 ^ 32)
      → (i : ℕ) → i < 255
      → Plain d (modify d.priority i f >>= λ regs. done (record d { priority = regs }))
  priority-Plain f small i lt =
      let w = modify-Modified d.priority i f valid.priority small lt in
      let bank : IsBank 255 w.regs' = w.bank in
      rw w.runs (record { d' = record d { priority = w.regs' }; runs = refl; valid = assumption })

  configuration-Plain :
      (f : ℕ → ℕ)
      → ((x : ℕ) → x < 2 ^ 32 → f x < 2 ^ 32)
      → (i : ℕ) → i < 64
      → Plain d (modify d.configuration i f >>= λ regs. done (record d { configuration = regs }))
  configuration-Plain f small i lt =
      let w = modify-Modified d.configuration i f valid.configuration small lt in
      let bank : IsBank 64 w.regs' = w.bank in
      rw w.runs
        (record { d' = record d { configuration = w.regs' }; runs = refl; valid = assumption })

  group_modifier-Plain :
      (f : ℕ → ℕ)
      → ((x : ℕ) → x < 2 ^ 32 → f x < 2 ^ 32)
      → (i : ℕ) → i < 32
      → Plain d (modify d.group_modifier i f >>= λ regs. done (record d { group_modifier = regs }))
  group_modifier-Plain f small i lt =
      let w = modify-Modified d.group_modifier i f valid.group_modifier small lt in
      let bank : IsBank 32 w.regs' = w.bank in
      rw w.runs
        (record { d' = record d { group_modifier = w.regs' }; runs = refl; valid = assumption })

  router-Plain :
      (f : ℕ → ℕ) (i : ℕ)
      → i < 1020
      → Plain d (modify d.router i f >>= λ regs. done (record d { router = regs }))
  router-Plain f i lt =
      let (r, e) = get_elem?-some d.router i (omega (arith, valid.router)) in
      let size : length (set d.router i (f r)) ≡ 1020 =
        length-set d.router i (f r) ∙ valid.router in
      rw e (record {
        d' = record d { router = set d.router i (f r) };
        runs = refl;
        valid = assumption;
      })

  write_priority-Plain :
      0x0400 ≤ offset → offset < 0x07FC → Plain d (write_priority d offset width value)
  unfolding write_priority
  write_priority-Plain lo hi =
      let byte_offset = offset - 0x0400 - (offset - 0x0400) / 4 * 4 in
      if-elim (Plain d) (width == 8)
        (λ _.
          priority-Plain (set_byte (byte_offset * 8) value) (byte-small (byte_offset * 8)) _
            (omega arith))
        λ _.
          if-elim (Plain d) (byte_offset == 0 && width == 32)
            (λ _. priority-Plain (λ _. as_word 32 value) (λ x h. omega arith) _ (omega arith))
            (λ _. same-Plain)

  write_plain-Plain : ¬ PastIgrpmodr offset → Plain d (write_plain d offset width value)
  unfolding write_plain
  write_plain-Plain ok =
      if-elim (Plain d) (gicd_icenabler offset && width == 32)
        (λ h. enable-Plain _ clear-small _ (ground arith))
        λ _.
          if-elim (Plain d) (gicd_icpendr offset && width == 32)
            (λ h. pending-Plain _ clear-small _ (ground arith))
            λ _.
              if-elim (Plain d) (gicd_isactiver offset && width == 32)
                (λ h. active-Plain _ keep-small _ (ground arith))
                λ _.
                  if-elim (Plain d) (gicd_icactiver offset && width == 32)
                    (λ h. active-Plain _ clear-small _ (ground arith))
                    λ _.
                      if-elim (Plain d) (gicd_ipriorityr offset)
                        (λ h. write_priority-Plain (ground arith) (ground arith))
                        λ _.
                          if-elim (Plain d) (gicd_icfgr offset && width == 32)
                            (λ h. configuration-Plain _ (λ x l. omega arith) _ (ground arith))
                            λ _.
                              if-elim (Plain d) (gicd_igrpmodr offset && width == 32)
                                (λ h. group_modifier-Plain _ (λ x l. omega arith) _ (ground arith))
                                λ _.
                                  if-elim (Plain d) (gicd_irouter offset && width == 64)
                                    (λ h. router-Plain _ _ (ground arith)) λ _. same-Plain

-- What a 32-bit write of the guest may hold: 32 bits, and of the last enable and pending register
-- no bit of the four interrupts 1020 to 1023, which have no router register.
pub record Allowed (offset width value : ℕ) : Type 0 where
  pub inside : ¬ PastIgrpmodr offset
  pub word : width ≡ 32 → value < 2 ^ 32
  pub enabling : gicd_isenabler offset ≡ true → 0x17C ≤ offset → value < 2 ^ 28
  pub pending : gicd_ispendr offset ≡ true → 0x27C ≤ offset → value < 2 ^ 28

-- The write returned, the distributor is well formed, and the CPU has its list registers.
pub record Written (cpu : Cpu) (run : Exec (Distributor × Cpu)) : Type 0 where
  pub d' : Distributor
  pub cpu' : Cpu
  pub runs : run ≡ done (d', cpu')
  pub valid : IsValid d'
  pub lrs : length cpu'.ich_lr ≡ length cpu.ich_lr

Runs-Written :
    {d : Distributor} {cpu : Cpu} {run : Exec (Distributor × Cpu)}
    → Runs d cpu run
    → Written cpu run
Runs-Written r = record { d' = r.d'; cpu' = r.cpu'; runs = r.runs; valid = r.valid; lrs = r.lrs }

Plain-Written :
    {d : Distributor} (cpu : Cpu) (run : Exec Distributor)
    → Plain d run
    → Written cpu (run >>= λ d'. done (d', cpu))
Plain-Written cpu run p =
    rw p.runs (record { d' = p.d'; cpu' = cpu; runs = refl; valid = p.valid; lrs = refl })

module _ (d : Distributor) (cpu : Cpu) (valid : IsValid d) (all : AllRoutable d)
    (offset width value : ℕ) (allowed : Allowed offset width value) where
  ctlr-Written : Written cpu (done (record d { ctlr = as_word 32 value }, cpu))
  ctlr-Written =
      let small : as_word 32 value < 2 ^ 32 = omega arith in
      record {
        d' = record d { ctlr = as_word 32 value };
        cpu' = cpu;
        runs = refl;
        valid = assumption;
        lrs = refl;
      }

  group-Written :
      (i : ℕ)
      → i < 32
      → Written cpu (
          modify d.group i (λ _. as_word 32 value) >>= λ regs.
          done (record d { group = regs }, cpu))
  group-Written i lt =
      let m =
        modify-Modified d.group i (λ _. as_word 32 value) valid.group (λ x h. omega arith) lt in
      let bank : IsBank 32 m.regs' = m.bank in
      rw m.runs (record {
        d' = record d { group = m.regs' };
        cpu' = cpu;
        runs = refl;
        valid = assumption;
        lrs = refl;
      })

  set_enabled-Written :
      gicd_isenabler offset ≡ true
      → width ≡ 32
      → Written cpu (set_enabled d cpu ((offset - 0x0100) / 4) value)
  set_enabled-Written at w = elim (dec_lt offset 0x17C) [
    | yes below ↦ Runs-Written (
        set_enabled-Runs d cpu ((offset - 0x0100) / 4) value valid all 32 (allowed.word w)
          (ground arith) (ground arith) (allowed.word w))
    | no last ↦ Runs-Written (
        set_enabled-Runs d cpu ((offset - 0x0100) / 4) value valid all 28
          (allowed.enabling at (omega arith)) (ground arith) (ground arith) (allowed.word w))
  ]

  set_pending-Written :
      gicd_ispendr offset ≡ true
      → width ≡ 32
      → Written cpu (set_pending d cpu ((offset - 0x0200) / 4) value)
  set_pending-Written at w = elim (dec_lt offset 0x27C) [
    | yes below ↦ Runs-Written (
        set_pending-Runs d cpu ((offset - 0x0200) / 4) value valid all 32 (allowed.word w)
          (ground arith) (ground arith) (allowed.word w))
    | no last ↦ Runs-Written (
        set_pending-Runs d cpu ((offset - 0x0200) / 4) value valid all 28
          (allowed.pending at (omega arith)) (ground arith) (ground arith) (allowed.word w))
  ]

  -- A write returns on a well-formed distributor whose interrupts below 1020 are all routable, and
  -- leaves a well-formed distributor; the CPU keeps its number of list registers. The conditions on the
  -- write: its offset is not past the 32 registers of GICD_IGRPMODR, a 32-bit value fits its
  -- width, and one that sets enable or pending bits has none of the interrupts 1020 to 1023.
  pub write-Written : Written cpu (write d cpu offset width value)
  unfolding write
  write-Written =
      if-elim (Written cpu) (offset == gicd_ctlr && width == 32) (λ h. ctlr-Written)
        λ _.
          if-elim (Written cpu) (gicd_igroupr offset && width == 32)
            (λ h. group-Written _ (ground arith))
            λ _.
              if-elim (Written cpu) (gicd_isenabler offset && width == 32)
                (λ h. set_enabled-Written (ground arith) (ground arith))
                λ _.
                  if-elim (Written cpu) (gicd_ispendr offset && width == 32)
                    (λ h. set_pending-Written (ground arith) (ground arith))
                    λ _.
                      Plain-Written cpu (write_plain d offset width value)
                        (write_plain-Plain d valid offset width value allowed.inside)
