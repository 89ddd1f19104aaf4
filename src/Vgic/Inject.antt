-- ===== src/Vgic/Inject.antt =====
-- add_virtual_interrupt of src/vgic.rs: where an entry lands among the list registers.
use mini_visor_real_device.Base.{
  ap, ℕ, zero, suc, ◌+◌, ◌-◌, ◌*◌, ◌/◌, ◌%◌, ◌^◌, ◌<◌, ◌≤◌, ◌≡◌, ◌≢◌, ◌⊎◌, inl, inr, refl, arith,
  some, List, [], ◌∷◌, bit_or, bit_and, ◌<<<◌, bit_or_split, bit_or-zero, bit_and_mask, test_bit,
  bit_or_test, pow_test, test_bit-le, length, get_elem?, ◌==◌, ==_iff, Bool-cases,
}
use mini_visor_real_device.Cpu.{Cpu}
use mini_visor_real_device.Vgic.{
  add_loop, add_virtual_interrupt, supported_lrn, ich_lrn_el2_status, ich_lrn_el2_status_pending,
  ich_lrn_el2_status_inactive,
}

-- The virtual identifier of a list register, and its pending bit.
abbrev pub vintid : ℕ → ℕ
vintid lr = bit_and lr (1 <<< 32 - 1)

abbrev pub IsPending : ℕ → Type 0
IsPending lr = test_bit lr 62 ≡ 1

-- A register that holds another interrupt.
abbrev pub IsTaken : ℕ → ℕ → Type 0
IsTaken entry lr =
    (bit_and lr ich_lrn_el2_status ≢ ich_lrn_el2_status_inactive) × (vintid lr ≢ vintid entry)

-- The first `n` registers all hold other interrupts.
abbrev pub IsFull : ℕ → ℕ → List ℕ → Type 0
IsFull entry zero lrs = Unit {0}
IsFull entry (suc n) [] = Unit {0}
IsFull entry (suc n) (lr ∷ lrs) = IsTaken entry lr × IsFull entry n lrs

-- What becomes of the register that takes the entry: it is replaced where it was inactive, and where
-- it holds the same interrupt only its pending bit is set.
abbrev pub Takes : (entry old lr : ℕ) → Type 0
Takes entry old lr =
    ((bit_and old ich_lrn_el2_status ≡ ich_lrn_el2_status_inactive) × (lr ≡ entry))
    ⊎ ((bit_and old ich_lrn_el2_status ≢ ich_lrn_el2_status_inactive)
        × (vintid old ≡ vintid entry)
        × (lr ≡ bit_or old ich_lrn_el2_status_pending))

-- One register `place` below `n` took the interrupt, the first that was inactive or held the same
-- one: it is pending there, and no other register changed.
pub record Landed (entry n : ℕ) (lrs lrs' : List ℕ) : Type 0 where
  pub place : ℕ
  pub old : ℕ
  pub lr : ℕ
  pub place_lt : place < n
  pub was : get_elem? lrs place ≡ some old
  pub first : IsFull entry place lrs
  pub takes : Takes entry old lr
  pub found : get_elem? lrs' place ≡ some lr
  pub pending : IsPending lr
  pub id : vintid lr ≡ vintid entry
  pub others : (j : ℕ) → j ≢ place → get_elem? lrs' j ≡ get_elem? lrs j
  pub same_length : length lrs' ≡ length lrs

IsPending-or : (lr : ℕ) → IsPending (bit_or lr ich_lrn_el2_status_pending)
IsPending-or lr = omega (arith, bit_or_test 62 lr (2 ^ 62), pow_test 62 62, test_bit-le lr 62)

vintid-or : (lr : ℕ) → vintid (bit_or lr ich_lrn_el2_status_pending) ≡ vintid lr
vintid-or lr =
    let s = bit_or_split 32 (lr / 2 ^ 32) (2 ^ 30) (lr % 2 ^ 32) 0 (omega arith) (omega arith) in
    let e : lr / 2 ^ 32 * 2 ^ 32 + lr % 2 ^ 32 ≡ lr = omega arith in
    let e' : 2 ^ 30 * 2 ^ 32 + 0 ≡ 2 ^ 62 = omega arith in
    let t : bit_or lr (2 ^ 62) ≡ bit_or (lr / 2 ^ 32) (2 ^ 30) * 2 ^ 32 + bit_or (lr % 2 ^ 32) 0 =
      rw (e, e') at s in
    omega
      (arith, bit_and_mask 32 (bit_or lr (2 ^ 62)), bit_and_mask 32 lr, bit_or-zero (lr % 2 ^ 32))

abbrev Outcome : ℕ → ℕ → List ℕ → List ℕ → Type 0
Outcome entry n lrs lrs' = (IsFull entry n lrs × (lrs' ≡ lrs)) ⊎ Landed entry n lrs lrs'

Outcome-cons :
    (entry n lr : ℕ) (lrs lrs' : List ℕ)
    → IsTaken entry lr
    → Outcome entry n lrs lrs'
    → Outcome entry (suc n) (lr ∷ lrs) (lr ∷ lrs')
Outcome-cons entry n lr lrs lrs' taken (inl (full, e)) = inl ((taken, full), rw e)
Outcome-cons entry n lr lrs lrs' taken (inr at) = inr (record {
  place = suc at.place;
  old = at.old;
  lr = at.lr;
  place_lt = omega arith;
  was = at.was;
  first = (taken, at.first);
  takes = at.takes;
  found = at.found;
  pending = at.pending;
  id = at.id;
  others = elim [ zero ↦ λ h. refl | suc j ↦ λ h. at.others j (λ e. h (ap suc e)) ];
  same_length = ap suc at.same_length;
})

Landed-head :
    (entry n lr v : ℕ) (lrs : List ℕ)
    → Takes entry lr v
    → IsPending v
    → vintid v ≡ vintid entry
    → Landed entry (suc n) (lr ∷ lrs) (v ∷ lrs)
Landed-head entry n lr v lrs t p e = record {
  place = 0;
  old = lr;
  lr = v;
  place_lt = omega arith;
  was = refl;
  first = tt;
  takes = t;
  found = refl;
  pending = p;
  id = e;
  others = elim [ zero ↦ λ h. absurd (h refl) | suc j ↦ λ h. refl ];
  same_length = refl;
}

add_loop-Outcome :
    (entry n : ℕ) (lrs : List ℕ)
    → IsPending entry
    → n ≤ length lrs
    → Outcome entry n lrs (add_loop entry n lrs)
unfolding add_loop
add_loop-Outcome entry zero lrs p h = inl (tt, refl)
add_loop-Outcome entry (suc n) [] p h = elim h [ ]
add_loop-Outcome entry (suc n) (lr ∷ lrs) p h =
    elim (Bool-cases (bit_and lr ich_lrn_el2_status == ich_lrn_el2_status_inactive)) [
      | inl free ↦
          rw free (inr (Landed-head entry n lr entry lrs (inl ((==_iff _ _).0 free, refl)) p refl))
      | inr busy ↦ elim (Bool-cases (vintid lr == vintid entry)) [
        | inl same ↦
            rw (busy, same)
              (inr (
                Landed-head entry n lr _ lrs (inr (λ e. ground arith, (==_iff _ _).0 same, refl))
                  (IsPending-or lr) (ground (arith, vintid-or lr))))
        | inr other ↦
            rw (busy, other)
              (Outcome-cons entry n lr lrs _ (λ e. ground arith, λ e. ground arith)
                (add_loop-Outcome entry n lrs p (omega arith)))
      ]
    ]

-- On a CPU with three list registers, an entry that is pending lands in the first of the implemented
-- ones that is inactive, which becomes the entry, or holds an interrupt of the same identifier, whose
-- pending bit is set; no other register changes. Only where all of the implemented registers hold
-- other interrupts is it dropped, and then no register changes.
pub add_virtual_interrupt-Landed :
    (entry : ℕ) (cpu : Cpu)
    → IsPending entry
    → length cpu.ich_lr ≡ 3
    → (IsFull entry (supported_lrn cpu) cpu.ich_lr
        × ((add_virtual_interrupt entry cpu).ich_lr ≡ cpu.ich_lr))
      ⊎ Landed entry (supported_lrn cpu) cpu.ich_lr (add_virtual_interrupt entry cpu).ich_lr
unfolding add_virtual_interrupt
add_virtual_interrupt-Landed entry cpu p h =
    add_loop-Outcome entry (supported_lrn cpu) cpu.ich_lr p (unfold supported_lrn in omega arith)

length-add_loop : (entry n : ℕ) (lrs : List ℕ) → length (add_loop entry n lrs) ≡ length lrs
unfolding add_loop
length-add_loop entry zero lrs = refl
length-add_loop entry (suc n) [] = refl
length-add_loop entry (suc n) (lr ∷ lrs) = ground (arith, length-add_loop entry n lrs)

pub length-add_virtual_interrupt :
    (entry : ℕ) (cpu : Cpu) → length (add_virtual_interrupt entry cpu).ich_lr ≡ length cpu.ich_lr
unfolding add_virtual_interrupt
length-add_virtual_interrupt entry cpu = length-add_loop entry (supported_lrn cpu) cpu.ich_lr
