-- ===== src/Gic/Redistributor/Access.antt =====
-- The MMIO accesses of GicRedistributorMmio in src/mmio/gicv3.rs do not panic.
use mini_visor_real_device.Base.{
  ℕ, zero, suc, ◌-◌, ◌+◌, ◌*◌, ◌^◌, ◌/◌, ◌<◌, ◌≤◌, ◌≡◌, refl, ◌∙◌, arith, bit_and, bit_or, none,
  ◌!=◌, ◌==◌, ◌&&◌, Bool, ltb, leb, done, ◌>>=◌, if◌then◌else◌, if-elim, bit_not, bit_and-lt,
  bit_or-lt, as_word, ◌>>>◌, Bool-cases, inl, inr,
}
use mini_visor_real_device.Cpu.{Cpu}
use mini_visor_real_device.Gic.Common.{within, modify}
use mini_visor_real_device.Gic.Bitmap.{IsBank}
use mini_visor_real_device.Gic.Distributor.Loop.{modify-Modified}
use mini_visor_real_device.Gic.Redistributor.{
  Redistributor, get_enable, get_pending, gicr_waker_processor_sleep, gicr_waker_children_asleep,
}
use mini_visor_real_device.Gic.Redistributor.Trigger.{
  IsValid, IsRoutable, Runs, stay, trigger_interrupt-Runs,
}
use mini_visor_real_device.Gic.Redistributor.Mmio.{
  write, write_rest, write_ctlr, write_priority, trigger_loop, gicr_ctlr, gicr_waker, gicr_igroupr0,
  gicr_isenabler0, gicr_icenabler0, gicr_ispendr0, gicr_icpendr0, gicr_isactiver0, gicr_icactiver0,
  gicr_ipriorityr0, gicr_ipriorityr7, gicr_icfgr0, gicr_icfgr1, gicr_igrpmodr0,
}

trigger_loop-Runs :
    (test : Redistributor → ℕ → Bool) (n i value : ℕ) (r : Redistributor) (cpu : Cpu)
    → IsValid r
    → IsRoutable r
    → i + n ≤ 32
    → Runs r cpu (trigger_loop test n i value r cpu)
unfolding trigger_loop
trigger_loop-Runs test zero i value r cpu valid routable room = stay cpu valid
trigger_loop-Runs test (suc n) i value r cpu valid routable room =
    if-elim (Runs r cpu) (value == 0) (λ _. stay cpu valid)
      λ _.
        if-elim (Runs r cpu) (bit_and value 1 != 0 && test r i)
          (λ _.
            let t = trigger_interrupt-Runs r cpu i none valid routable (omega arith) in
            let l =
              trigger_loop-Runs test n (i + 1) (value >>> 1) t.r' t.cpu' t.valid
                (rw t.same routable) (omega arith) in
            rw t.runs (record {
              r' = l.r';
              cpu' = l.cpu';
              runs = l.runs;
              valid = l.valid;
              same = l.same ∙ t.same;
              lrs = l.lrs ∙ t.lrs;
            }))
          (λ _. trigger_loop-Runs test n (i + 1) (value >>> 1) r cpu valid routable (omega arith))

module _ (r : Redistributor) (cpu : Cpu) (valid : IsValid r) (offset width value : ℕ) where
  priority-Runs :
      (f : ℕ → ℕ)
      → ((x : ℕ) → x < 2 ^ 32 → f x < 2 ^ 32)
      → (i : ℕ) → i < 8
      → Runs r cpu (
          (modify r.priority i f >>= λ regs. done (record r { priority = regs })) >>= λ r'.
          done (r', cpu))
  priority-Runs f small i lt =
      let w = modify-Modified r.priority i f valid.priority small lt in
      let bank : IsBank 8 w.regs' = w.bank in
      rw w.runs (record {
        r' = record r { priority = w.regs' };
        cpu' = cpu;
        runs = refl;
        valid = assumption;
        same = refl;
        lrs = refl;
      })

  configuration-Runs :
      (i : ℕ)
      → i < 2
      → Runs r cpu (
          modify r.configuration i (λ _. as_word 32 value) >>= λ regs.
          done (record r { configuration = regs }, cpu))
  configuration-Runs i lt =
      let w =
        modify-Modified r.configuration i (λ _. as_word 32 value) valid.configuration
          (λ x h. omega arith) lt in
      let bank : IsBank 2 w.regs' = w.bank in
      rw w.runs (record {
        r' = record r { configuration = w.regs' };
        cpu' = cpu;
        runs = refl;
        valid = assumption;
        same = refl;
        lrs = refl;
      })

  write_priority-Runs :
      gicr_ipriorityr0 ≤ offset
      → offset < gicr_ipriorityr7 + 4
      → Runs r cpu (write_priority r offset width value >>= λ r'. done (r', cpu))
  unfolding write_priority
  write_priority-Runs lo hi =
      let byte_offset = offset - gicr_ipriorityr0 - (offset - gicr_ipriorityr0) / 4 * 4 in
      elim (Bool-cases (width == 8)) [
        | inl byte ↦ rw byte (
            priority-Runs _ (λ x h. bit_or-lt 32 _ _ (bit_and-lt 32 x _ h) (omega arith)) _
              (omega arith))
        | inr other ↦ elim (Bool-cases (byte_offset == 0 && width == 32)) [
          | inl word ↦ rw (other, word) (priority-Runs _ (λ x h. omega arith) _ (omega arith))
          | inr odd ↦ rw (other, odd) (stay cpu valid)
        ]
      ]

  keep-small : (x : ℕ) → x < 2 ^ 32 → bit_or x (as_word 32 value) < 2 ^ 32
  keep-small x h = bit_or-lt 32 x (as_word 32 value) h (omega arith)

  clear-small : (x : ℕ) → x < 2 ^ 32 → bit_and x (bit_not 32 (as_word 32 value)) < 2 ^ 32
  clear-small x h = bit_and-lt 32 x (bit_not 32 (as_word 32 value)) h

  -- A write of one word register.
  word-Runs :
      (r' : Redistributor)
      → IsValid r'
      → r'.affinity_value ≡ r.affinity_value
      → Runs r cpu (done (r', cpu))
  word-Runs r' v e = record { r' = r'; cpu' = cpu; runs = refl; valid = v; same = e; lrs = refl }

  loop-Runs :
      (test : Redistributor → ℕ → Bool) (r' : Redistributor)
      → IsValid r'
      → IsRoutable r'
      → r'.affinity_value ≡ r.affinity_value
      → Runs r cpu (trigger_loop test 32 0 value r' cpu)
  loop-Runs test r' v routable e =
      let l = trigger_loop-Runs test 32 0 value r' cpu v routable (omega arith) in
      record {
        r' = l.r';
        cpu' = l.cpu';
        runs = l.runs;
        valid = l.valid;
        same = l.same ∙ e;
        lrs = l.lrs;
      }

module _ (r : Redistributor) (cpu : Cpu) (valid : IsValid r) (routable : IsRoutable r)
    (offset width value : ℕ) where
  write_rest-Runs : Runs r cpu (write_rest r cpu offset width value)
  unfolding write_rest
  write_rest-Runs =
      let word : as_word 32 value < 2 ^ 32 = omega arith in
      let on : bit_or r.enable (as_word 32 value) < 2 ^ 32 =
        keep-small r cpu valid offset width value _ valid.enable in
      let off : bit_and r.enable (bit_not 32 (as_word 32 value)) < 2 ^ 32 =
        clear-small r cpu valid offset width value _ valid.enable in
      let pend : bit_or r.pending (as_word 32 value) < 2 ^ 32 =
        keep-small r cpu valid offset width value _ valid.pending in
      let unpend : bit_and r.pending (bit_not 32 (as_word 32 value)) < 2 ^ 32 =
        clear-small r cpu valid offset width value _ valid.pending in
      let act : bit_or r.active (as_word 32 value) < 2 ^ 32 =
        keep-small r cpu valid offset width value _ valid.active in
      let unact : bit_and r.active (bit_not 32 (as_word 32 value)) < 2 ^ 32 =
        clear-small r cpu valid offset width value _ valid.active in
      let wake : (if bit_and (as_word 32 value) gicr_waker_processor_sleep == 0
            then 0
            else bit_or gicr_waker_children_asleep gicr_waker_processor_sleep)
          < 2 ^ 32 =
        if-elim (λ (x : ℕ). x < 2 ^ 32) (bit_and (as_word 32 value) gicr_waker_processor_sleep == 0)
          (λ _. omega arith) (λ _. omega arith) in
      let word_of = word-Runs r cpu valid offset width value in
      let loop = loop-Runs r cpu valid offset width value in
      if-elim (Runs r cpu) (offset == gicr_waker && width == 32) (λ _. word_of _ (assumption) refl)
        λ _.
          if-elim (Runs r cpu) (offset == gicr_igroupr0 && width == 32)
            (λ _. word_of _ (assumption) refl)
            λ _.
              if-elim (Runs r cpu) (offset == gicr_isenabler0 && width == 32)
                (λ _. loop get_pending _ (assumption) routable refl)
                λ _.
                  if-elim (Runs r cpu) (offset == gicr_icenabler0 && width == 32)
                    (λ _. word_of _ (assumption) refl)
                    λ _.
                      if-elim (Runs r cpu) (offset == gicr_ispendr0 && width == 32)
                        (λ _. loop get_enable _ (assumption) routable refl)
                        λ _.
                          if-elim (Runs r cpu) (offset == gicr_icpendr0 && width == 32)
                            (λ _. word_of _ (assumption) refl)
                            λ _.
                              if-elim (Runs r cpu) (offset == gicr_isactiver0 && width == 32)
                                (λ _. word_of _ (assumption) refl)
                                λ _.
                                  if-elim (Runs r cpu) (offset == gicr_icactiver0 && width == 32)
                                    (λ _. word_of _ (assumption) refl)
                                    λ _.
                                      if-elim (Runs r cpu)
                                        (leb gicr_ipriorityr0 offset
                                          && ltb offset (gicr_ipriorityr7 + 4))
                                        (λ h.
                                          write_priority-Runs r cpu valid offset width value
                                            (ground arith) (ground arith))
                                        λ _.
                                          if-elim (Runs r cpu)
                                            (within gicr_icfgr0 gicr_icfgr1 offset && width == 32)
                                            (λ h.
                                              configuration-Runs r cpu valid offset width value _
                                                (ground arith))
                                            λ _.
                                              if-elim (Runs r cpu)
                                                (offset == gicr_igrpmodr0 && width == 32)
                                                (λ _. word_of _ (assumption) refl)
                                                λ _. stay cpu valid

write_ctlr-IsValid :
    (r : Redistributor) (offset width value : ℕ)
    → IsValid r
    → IsValid (write_ctlr r offset width value)
write_ctlr-IsValid r offset width value valid =
    let word : as_word 32 value < 2 ^ 32 = omega arith in
    if-elim IsValid (offset == gicr_ctlr && width == 32) (λ _. assumption) (λ _. valid)

write_ctlr-affinity :
    (r : Redistributor) (offset width value : ℕ)
    → (write_ctlr r offset width value).affinity_value ≡ r.affinity_value
write_ctlr-affinity r offset width value =
    if-elim (λ (q : Redistributor). q.affinity_value ≡ r.affinity_value)
      (offset == gicr_ctlr && width == 32) (λ _. refl) (λ _. refl)

-- Every write of the guest to a well-formed, routable redistributor returns, whatever its offset,
-- width and value, and leaves a well-formed redistributor of the same virtual CPU; the CPU keeps
-- its number of list registers.
pub write-Runs :
    (r : Redistributor) (cpu : Cpu) (offset width value : ℕ)
    → IsValid r
    → IsRoutable r
    → Runs r cpu (write r cpu offset width value)
unfolding write
write-Runs r cpu offset width value valid routable =
    let e = write_ctlr-affinity r offset width value in
    let w =
      write_rest-Runs (write_ctlr r offset width value) cpu
        (write_ctlr-IsValid r offset width value valid) (rw e routable) offset width value in
    record {
      r' = w.r';
      cpu' = w.cpu';
      runs = w.runs;
      valid = w.valid;
      same = w.same ∙ e;
      lrs = w.lrs;
    }
