-- ===== src/Examples/Locks.antt =====
-- One CPU of the spin lock takes the guard.
use mini_visor_real_device.Base.{ℕ, Bool, ◌≡◌, refl, true, false}
use mini_visor_real_device.Mutex.{
  System, Thread, idle, testing, masking, trying, holding, call, free, mask, take, step, Reach,
  start, next, init, update, mask_irq_fiq,
}
use mini_visor_real_device.Mutex.Exclusion.{holds, mutual_exclusion, guard_masks}

abbrev home : ℕ → ℕ
home _ = 0x200

abbrev after : System → Bool → Thread → System
after s l t = record { lock = l; thread = update s.thread 1 t }

abbrev called : System
called = after (init home) false (record { pc = testing; daif = 0x200 })

abbrev seen : System
seen = after called false (record { pc = masking; daif = 0x200 })

abbrev masked : System
masked = after seen false (record { pc = trying 0x200; daif = mask_irq_fiq 0x200 })

abbrev held : System
held = after masked true (record { pc = holding 0x200; daif = mask_irq_fiq 0x200 })

held-Reach : Reach home held
held-Reach = next (next (next (next start (step 1 call)) (step 1 free)) (step 1 mask)) (step 1 take)

mutual_exclusion_example : ◌≡◌ {A = ℕ} 1 1
mutual_exclusion_example = mutual_exclusion held-Reach 1 1 refl refl

guard_masks_example :
    (holds (held.thread 1).pc ≡ true → (held.thread 1).daif ≡ mask_irq_fiq 0x200)
    × ((held.thread 1).pc ≡ idle → (held.thread 1).daif ≡ 0x200)
guard_masks_example = guard_masks held-Reach 1
