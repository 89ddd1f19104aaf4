-- ===== src/Mutex/Exclusion.antt =====
-- src/lock.rs: at most one CPU holds the guard, with its interrupts masked, and gets its own DAIF back.
use mini_visor_real_device.Base.{ℕ, ◌≡◌, refl, arith, Bool, true, false, ◌==◌, Bool-cases, inl, inr}
use mini_visor_real_device.Mutex.{
  Pc, idle, testing, masking, trying, holding, restoring, dropping, Thread, System, Move, call,
  busy, free, mask, take, lose, restore, release, leave, Step, step, Reach, start, next, update,
  mask_irq_fiq,
}

abbrev pub holds : Pc → Bool
holds (holding _) = true
holds _ = false

-- What DAIF is, given what it was before the call.
abbrev pub IsMasked : ℕ → Thread → Type 0
IsMasked home t = elim t.pc [
  | idle ↦ t.daif ≡ home
  | testing ↦ t.daif ≡ home
  | masking ↦ t.daif ≡ home
  | trying s ↦ (s ≡ home) × (t.daif ≡ mask_irq_fiq home)
  | holding s ↦ (s ≡ home) × (t.daif ≡ mask_irq_fiq home)
  | restoring s ↦ (s ≡ home) × (t.daif ≡ mask_irq_fiq home)
  | dropping s ↦ (s ≡ home) × (t.daif ≡ mask_irq_fiq home)
]

pub record Inv (home : ℕ → ℕ) (s : System) : Type 0 where
  pub flag : (i : ℕ) → holds (s.thread i).pc ≡ true → s.lock ≡ true
  pub unique : (i j : ℕ) → holds (s.thread i).pc ≡ true → holds (s.thread j).pc ≡ true → i ≡ j
  pub masked : (i : ℕ) → IsMasked (home i) (s.thread i)

Move-IsMasked :
    {l l' : Bool} {t t' : Thread} (h : ℕ) → Move l t l' t' → IsMasked h t → IsMasked h t'
Move-IsMasked h call m = m
Move-IsMasked h busy m = m
Move-IsMasked h free m = m
Move-IsMasked h mask m = ground arith
Move-IsMasked h take m = m
Move-IsMasked h lose m = m
Move-IsMasked h restore m = ground arith
Move-IsMasked h release m = m
Move-IsMasked h leave m = ground arith

-- What a move does to the flag and to the mover's hold.
abbrev Effect : Bool → Thread → Bool → Thread → Type 0
Effect l t l' t' =
    ((holds t'.pc ≡ true → (l' ≡ true) × (l ≡ false))) × (holds t.pc ≡ false → l ≡ true → l' ≡ true)

Move-Effect : {l l' : Bool} {t t' : Thread} → Move l t l' t' → Effect l t l' t'
Move-Effect call = ground arith
Move-Effect busy = ground arith
Move-Effect free = ground arith
Move-Effect mask = ground arith
Move-Effect take = ground arith
Move-Effect lose = ground arith
Move-Effect restore = ground arith
Move-Effect release = ground arith
Move-Effect leave = ground arith

module _ {home : ℕ → ℕ} {s : System} (inv : Inv home s) (i : ℕ) {l : Bool} {t : Thread}
    (move : Move s.lock (s.thread i) l t) where
  step-flag : (j : ℕ) → holds (update s.thread i t j).pc ≡ true → l ≡ true
  step-flag j h =
      let e = Move-Effect move in
      elim (Bool-cases (i == j)) [
        | inl same ↦ (e.0 (rw same at h)).0
        | inr other ↦
            let held : holds (s.thread j).pc ≡ true = rw other at h in
            elim (Bool-cases (holds (s.thread i).pc)) [
              | inl mine ↦ absurd (ground (arith, inv.unique i j mine held))
              | inr not_mine ↦ e.1 not_mine (inv.flag j held)
            ]
      ]

  -- If the mover holds the lock afterwards, no other CPU did before.
  step-alone : (j : ℕ) → holds t.pc ≡ true → holds (s.thread j).pc ≡ true → ⊥
  step-alone j h held = ground (arith, (Move-Effect move).0 h, inv.flag j held)

  step_unique :
      (j k : ℕ)
      → holds (update s.thread i t j).pc ≡ true
      → holds (update s.thread i t k).pc ≡ true
      → j ≡ k
  step_unique j k hj hk = elim (Bool-cases (i == j)) [
    | inl ij ↦ elim (Bool-cases (i == k)) [
      | inl ik ↦ ground arith
      | inr nk ↦ absurd (step-alone k (rw ij at hj) (rw nk at hk))
    ]
    | inr nj ↦ elim (Bool-cases (i == k)) [
      | inl ik ↦ absurd (step-alone j (rw ik at hk) (rw nj at hj))
      | inr nk ↦ inv.unique j k (rw nj at hj) (rw nk at hk)
    ]
  ]

  step-masked : (j : ℕ) → IsMasked (home j) (update s.thread i t j)
  step-masked j = elim (Bool-cases (i == j)) [
    | inl same ↦
        let e : i ≡ j = ground arith in
        rw same (rw e at (Move-IsMasked (home i) move (inv.masked i)))
    | inr other ↦ rw other (inv.masked j)
  ]

Step-Inv : {home : ℕ → ℕ} {s t : System} → Step s t → Inv home s → Inv home t
Step-Inv (step i move) inv = record {
  flag = step-flag inv i move;
  unique = step_unique inv i move;
  masked = step-masked inv i move;
}

Reach-Inv : {home : ℕ → ℕ} {s : System} → Reach home s → Inv home s
Reach-Inv start = record { flag = λ i h. cc; unique = λ i j h k. cc; masked = λ i. refl }
Reach-Inv (next r st) = Step-Inv st (Reach-Inv r)

-- In every reachable state at most one CPU holds the guard.
pub mutual_exclusion :
    {home : ℕ → ℕ} {s : System}
    → Reach home s
    → (i j : ℕ) → holds (s.thread i).pc ≡ true
    → holds (s.thread j).pc ≡ true
    → i ≡ j
mutual_exclusion r i j hi hj = (Reach-Inv r).unique i j hi hj

IsMasked-pc :
    (home : ℕ) (pc : Pc) (daif : ℕ)
    → IsMasked home (record { pc = pc; daif = daif })
    → (holds pc ≡ true → daif ≡ mask_irq_fiq home) × (pc ≡ idle → daif ≡ home)
IsMasked-pc home idle daif m = (λ h. cc, λ h. m)
IsMasked-pc home testing daif m = (λ h. cc, λ h. m)
IsMasked-pc home masking daif m = (λ h. cc, λ h. m)
IsMasked-pc home (trying s) daif m = (λ h. m.1, λ h. cc)
IsMasked-pc home (holding s) daif m = (λ h. m.1, λ h. cc)
IsMasked-pc home (restoring s) daif m = (λ h. m.1, λ h. cc)
IsMasked-pc home (dropping s) daif m = (λ h. m.1, λ h. cc)

-- In every reachable state a CPU that holds the guard has IRQ and FIQ masked, and one that is outside has
-- the DAIF that it had before it ever called `lock`.
pub guard_masks :
    {home : ℕ → ℕ} {s : System}
    → Reach home s
    → (i : ℕ)
    → (holds (s.thread i).pc ≡ true → (s.thread i).daif ≡ mask_irq_fiq (home i))
      × ((s.thread i).pc ≡ idle → (s.thread i).daif ≡ home i)
guard_masks {home} {s} r i =
    IsMasked-pc (home i) (s.thread i).pc (s.thread i).daif ((Reach-Inv r).masked i)
