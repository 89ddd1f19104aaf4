-- ===== src/Mutex.antt =====
-- src/lock.rs: the spin lock, one CPU to a thread, one atomic access at a time in any order.
-- Accesses are taken as sequentially consistent. The CPU that holds the lock runs its critical section
-- between `take` and `release`, and does not change DAIF there.
pub mod Exclusion
use mini_visor_real_device.Base.{
  ℕ, ◌*◌, ◌^◌, ◌≡◌, Bool, true, false, ◌==◌, if◌then◌else◌, bit_or, ◌<<<◌,
}

-- get_daif_and_disable_irq_fiq of asm.rs sets the I and F bits.
abbrev pub mask_irq_fiq : ℕ → ℕ
mask_irq_fiq daif = bit_or daif (0b11 <<< 6)

-- Where a CPU stands in `lock` and in the guard's `drop`.
pub data Pc : Type 0 where
  idle : Pc  -- outside
  testing : Pc  -- at the load of the inner loop
  masking : Pc  -- the load saw the lock free
  trying : (daif : ℕ) → Pc  -- before the compare-exchange, with the saved DAIF
  holding : (daif : ℕ) → Pc  -- with the guard
  restoring : (daif : ℕ) → Pc  -- the compare-exchange failed
  dropping : (daif : ℕ) → Pc  -- in `drop`, after the store

-- One CPU's registers and position.
pub record Thread : Type 0 where
  pub pc : Pc
  pub daif : ℕ

pub record System : Type 0 where
  pub lock : Bool
  pub thread : ℕ → Thread

-- One step of one CPU, on the lock's flag and its own registers.
pub data Move : Bool → Thread → Bool → Thread → Type 0 where
  call :
      {l : Bool} {d : ℕ}
      → Move l (record { pc = idle; daif = d }) l (record { pc = testing; daif = d })
  busy :
      {d : ℕ}
      → Move true (record { pc = testing; daif = d }) true (record { pc = testing; daif = d })
  free :
      {d : ℕ}
      → Move false (record { pc = testing; daif = d }) false (record { pc = masking; daif = d })
  mask :
      {l : Bool} {d : ℕ}
      → Move l
          (record { pc = masking; daif = d })
          l
          (record { pc = trying d; daif = mask_irq_fiq d })
  take :
      {d s : ℕ}
      → Move false (record { pc = trying s; daif = d }) true (record { pc = holding s; daif = d })
  lose :
      {d s : ℕ}
      → Move true (record { pc = trying s; daif = d }) true (record { pc = restoring s; daif = d })
  restore :
      {l : Bool} {d s : ℕ}
      → Move l (record { pc = restoring s; daif = d }) l (record { pc = testing; daif = s })
  release :
      {l : Bool} {d s : ℕ}
      → Move l (record { pc = holding s; daif = d }) false (record { pc = dropping s; daif = d })
  leave :
      {l : Bool} {d s : ℕ}
      → Move l (record { pc = dropping s; daif = d }) l (record { pc = idle; daif = s })

abbrev pub update : (ℕ → Thread) → ℕ → Thread → ℕ → Thread
update f i t j = if i == j then t else f j

pub data Step (s : System) : System → Type 0 where
  step :
      (i : ℕ) {l : Bool} {t : Thread}
      → Move s.lock (s.thread i) l t
      → Step s (record { lock = l; thread = update s.thread i t })

-- A new mutex is free; `home` is the DAIF of each CPU before it calls `lock`.
abbrev pub init : (ℕ → ℕ) → System
init home = record { lock = false; thread = λ i. record { pc = idle; daif = home i } }

pub data Reach (home : ℕ → ℕ) : System → Type 0 where
  start : Reach home (init home)
  next : {s t : System} → Reach home s → Step s t → Reach home t
