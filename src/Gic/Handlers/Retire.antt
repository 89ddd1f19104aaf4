-- ===== src/Gic/Handlers/Retire.antt =====
-- maintenance_interrupt_handler of src/vgic.rs: which list registers it frees, and what the
-- distributor answers of the interrupts it retires.
use mini_visor_real_device.Base.{
  ℕ, zero, suc, ◌≤◌, ◌<◌, ◌≡◌, refl, inl, inr, bit_and, Bool, true, false, ◌&&◌, ◌||◌, some, List,
  [], ◌∷◌, ◌!=◌, ◌==◌, leb, if◌then◌else◌, Bool-cases, Exec, done, ◌>>>◌, arith, length, get_elem?,
  leb→le, le→leb,
}
use mini_visor_real_device.Vgic.Inject.{vintid}
use mini_visor_real_device.Gic.Bitmap.{modify-SetBit}
use mini_visor_real_device.Gic.Distributor.{Distributor, change_active_status, get_pending}
use mini_visor_real_device.Gic.Distributor.Valid.{IsValid}
use mini_visor_real_device.Gic.Distributor.Status.{change_pending_status-Pended}
use mini_visor_real_device.Gic.Redistributor.{Redistributor}
use mini_visor_real_device.Gic.Redistributor as RedistributorModule
use mini_visor_real_device.Gic.Handlers.{retire, maintenance_loop}

-- Register `j` of the first `n` is marked as finished.
unfoldable pub finished : (n eoi_bits j : ℕ) → Bool
finished zero eoi_bits j = false
finished (suc n) eoi_bits zero = bit_and eoi_bits 1 != 0
finished (suc n) eoi_bits (suc j) = finished n (eoi_bits >>> 1) j

-- One of the finished registers holds interrupt `i`.
unfoldable pub retires : (n eoi_bits : ℕ) → List ℕ → ℕ → Bool
retires zero eoi_bits lrs i = false
retires (suc n) eoi_bits [] i = false
retires (suc n) eoi_bits (lr ∷ lrs) i =
    (bit_and eoi_bits 1 != 0 && vintid lr == i) || retires n (eoi_bits >>> 1) lrs i

abbrev pub AllIds : List ℕ → Type 0
AllIds [] = Unit
AllIds (lr ∷ lrs) = (vintid lr < 1024) × AllIds lrs

-- The outcome of the loop over `n` registers.
pub record Retired (n eoi_bits : ℕ) (lrs : List ℕ) (d : Distributor) (r : Redistributor)
    : Type 0 where
  pub lrs' : List ℕ
  pub d' : Distributor
  pub r' : Redistributor
  pub runs : maintenance_loop n eoi_bits lrs d r ≡ done (lrs', d', r')
  pub valid : IsValid d'
  pub freed :
      (j : ℕ)
      → j < length lrs
      → get_elem? lrs' j ≡ (if finished n eoi_bits j then some 0 else get_elem? lrs j)
  pub answers :
      (i : ℕ)
      → 32 ≤ i
      → i < 1024
      → get_pending d' i ≡ (if retires n eoi_bits lrs i then done false else get_pending d i)

-- The outcome of retiring one interrupt.
record RetiredOne (d : Distributor) (r : Redistributor) (id : ℕ) : Type 0 where
  d' : Distributor
  r' : Redistributor
  runs : retire d r id ≡ done (d', r')
  valid : IsValid d'
  answers :
      (i : ℕ)
      → 32 ≤ i
      → i < 1024
      → get_pending d' i ≡ (if id == i then done false else get_pending d i)

retire_shared :
    (d : Distributor) (r : Redistributor) (id : ℕ)
    → IsValid d
    → 32 ≤ id
    → id < 1024
    → RetiredOne d r id
unfolding retire change_active_status
retire_shared d r id valid low lt =
    let p = change_pending_status-Pended d id false valid lt in
    let s = modify-SetBit d.active id false valid.active (omega arith) in
    let v = p.valid in
    record {
      d' = record d { pending = p.regs; active = s.regs' };
      r' = r;
      runs = rw (le→leb 32 id low, p.runs, s.runs) refl;
      valid = record {
        ctlr = valid.ctlr;
        group = valid.group;
        enable = valid.enable;
        pending = v.pending;
        active = s.bank;
        priority = valid.priority;
        configuration = valid.configuration;
        group_modifier = valid.group_modifier;
        router = valid.router;
      };
      answers = λ i _ high. unfold get_pending in p.reads i high;
    }

retire_private :
    (d : Distributor) (r : Redistributor) (id : ℕ)
    → IsValid d
    → leb 32 id ≡ false
    → RetiredOne d r id
unfolding retire
retire_private d r id valid private = record {
  d' = d;
  r' =
      RedistributorModule.change_active_status
        (RedistributorModule.change_pending_status r id false) id false;
  runs = rw private refl;
  valid = valid;
  answers = λ i low high. let ne : (id == i) ≡ false = ground arith in rw ne refl;
}

retire-RetiredOne :
    (d : Distributor) (r : Redistributor) (id : ℕ) → IsValid d → id < 1024 → RetiredOne d r id
retire-RetiredOne d r id valid lt = elim (Bool-cases (leb 32 id)) [
  | inl shared ↦ retire_shared d r id valid (leb→le 32 id shared) lt
  | inr private ↦ retire_private d r id valid private
]

-- A finished register before a loop that runs.
Retired-finished :
    (n eoi_bits lr : ℕ) (lrs : List ℕ) (d : Distributor) (r : Redistributor)
    → (bit_and eoi_bits 1 != 0) ≡ true
    → (one : RetiredOne d r (vintid lr)) → Retired n (eoi_bits >>> 1) lrs one.d' one.r'
    → Retired (suc n) eoi_bits (lr ∷ lrs) d r
unfolding maintenance_loop finished retires
Retired-finished n eoi_bits lr lrs d r bit one rest = record {
  lrs' = 0 ∷ rest.lrs';
  d' = rest.d';
  r' = rest.r';
  runs = rw (bit, one.runs, rest.runs) refl;
  valid = rest.valid;
  freed = elim [ zero ↦ λ h. rw bit refl | suc j ↦ λ h. rest.freed j (omega arith) ];
  answers = λ i low high.
      rw (bit, rest.answers i low high, one.answers i low high)
        (merge (vintid lr == i) (retires n (eoi_bits >>> 1) lrs i) _ _);
}
  where
    merge :
        (a b : Bool) (x y : Exec Bool)
        → (if b then x else (if a then x else y)) ≡ (if a || b then x else y)
    merge true true x y = refl
    merge true false x y = refl
    merge false true x y = refl
    merge false false x y = refl

-- A register that is not finished is passed over.
Retired-other :
    (n eoi_bits lr : ℕ) (lrs : List ℕ) (d : Distributor) (r : Redistributor)
    → (bit_and eoi_bits 1 != 0) ≡ false
    → Retired n (eoi_bits >>> 1) lrs d r
    → Retired (suc n) eoi_bits (lr ∷ lrs) d r
unfolding maintenance_loop finished retires
Retired-other n eoi_bits lr lrs d r bit rest = record {
  lrs' = lr ∷ rest.lrs';
  d' = rest.d';
  r' = rest.r';
  runs = rw (bit, rest.runs) refl;
  valid = rest.valid;
  freed = elim [ zero ↦ λ h. rw bit refl | suc j ↦ λ h. rest.freed j (omega arith) ];
  answers = λ i low high. rw bit (rest.answers i low high);
}

-- Where every list register holds an interrupt below 1024, the loop runs: it clears exactly the
-- registers that are marked as finished, the distributor stays well formed, and each of its
-- interrupts is afterwards not pending if a finished register held it, and as before if none did.
pub maintenance_loop-Retired :
    (n eoi_bits : ℕ) (lrs : List ℕ) (d : Distributor) (r : Redistributor)
    → IsValid d
    → AllIds lrs
    → Retired n eoi_bits lrs d r
unfolding maintenance_loop finished retires
maintenance_loop-Retired zero eoi_bits lrs d r valid ids = record {
  lrs' = lrs;
  d' = d;
  r' = r;
  runs = refl;
  valid = valid;
  freed = λ j h. refl;
  answers = λ i low high. refl;
}
maintenance_loop-Retired (suc n) eoi_bits [] d r valid ids = record {
  lrs' = [];
  d' = d;
  r' = r;
  runs = refl;
  valid = valid;
  freed = λ j h. elim h [ ];
  answers = λ i low high. refl;
}
maintenance_loop-Retired (suc n) eoi_bits (lr ∷ lrs) d r valid (lt, ids) =
    elim (Bool-cases (bit_and eoi_bits 1 != 0)) [
      | inl bit ↦
          let one = retire-RetiredOne d r (vintid lr) valid lt in
          Retired-finished n eoi_bits lr lrs d r bit one
            (maintenance_loop-Retired n (eoi_bits >>> 1) lrs one.d' one.r' one.valid ids)
      | inr other ↦
          Retired-other n eoi_bits lr lrs d r other
            (maintenance_loop-Retired n (eoi_bits >>> 1) lrs d r valid ids)
    ]
