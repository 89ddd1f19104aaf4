-- ===== src/Gic/Distributor/Loop.antt =====
-- The MmioHandler of GicDistributorMmio in src/mmio/gicv3.rs: writes that raise interrupts run and
-- keep the distributor well formed.
use mini_visor_real_device.Base.{
  ℕ, zero, suc, ◌*◌, ◌^◌, ◌+◌, ◌<◌, ◌≤◌, ◌≡◌, refl, ◌∙◌, arith, bit_and, bit_or, Bool, true, false,
  List, ◌!=◌, ◌==◌, if◌then◌else◌, Exec, done, length, length-set, set, get_elem?, get_elem?-some,
  ◌>>>◌, none, some, as_word, if-elim, bit_or-lt,
}
use native.Mathlib.Nat.{pow-suc}
use mini_visor_real_device.Cpu.{Cpu}
use mini_visor_real_device.Gic.Common.{modify}
use mini_visor_real_device.Gic.Bitmap.{IsBank, AllWords-set, AllWords-get}
use mini_visor_real_device.Gic.Distributor.{
  Distributor, trigger_interrupt, get_pending, get_enable, get_router,
}
use mini_visor_real_device.Gic.Distributor.Valid.{IsValid, get_enable-done, get_pending-done}
use mini_visor_real_device.Gic.Distributor.Trigger.{IsRoutable, trigger_interrupt-Triggered}
use mini_visor_real_device.Gic.Distributor.Mmio.{trigger_loop, set_enabled, set_pending}

-- `xs[i] = f(xs[i])` on a bank of registers.
pub record Modified (n : ℕ) (regs : List ℕ) (i : ℕ) (f : ℕ → ℕ) : Type 0 where
  pub regs' : List ℕ
  pub runs : modify regs i f ≡ done regs'
  pub bank : IsBank n regs'

modify-some :
    {n : ℕ} (regs : List ℕ) (i : ℕ) (f : ℕ → ℕ) (r : ℕ)
    → IsBank n regs
    → ((x : ℕ) → x < 2 ^ 32 → f x < 2 ^ 32)
    → get_elem? regs i ≡ some r
    → Modified n regs i f
modify-some regs i f r bank small e = record {
  regs' = set regs i (f r);
  runs = rw e;
  bank = record {
    size = length-set regs i (f r) ∙ bank.size;
    words = AllWords-set regs i (f r) bank.words (small r (AllWords-get regs i bank.words e));
  };
}

pub modify-Modified :
    {n : ℕ} (regs : List ℕ) (i : ℕ) (f : ℕ → ℕ)
    → IsBank n regs
    → ((x : ℕ) → x < 2 ^ 32 → f x < 2 ^ 32)
    → i < n
    → Modified n regs i f
modify-Modified regs i f bank small lt =
    let (r, e) = get_elem?-some regs i (omega (arith, bank.size)) in
    modify-some regs i f r bank small e

-- Every interrupt that has a router register is routable.
abbrev pub AllRoutable : Distributor → Type 0
AllRoutable d = (i : ℕ) → i < 1020 → IsRoutable d i

-- A run that ends in a well-formed distributor with the same router registers.
pub record Runs (d : Distributor) (cpu : Cpu) (run : Exec (Distributor × Cpu)) : Type 0 where
  pub d' : Distributor
  pub cpu' : Cpu
  pub runs : run ≡ done (d', cpu')
  pub valid : IsValid d'
  pub router : d'.router ≡ d.router
  pub lrs : length cpu'.ich_lr ≡ length cpu.ich_lr

AllRoutable-router : (d d' : Distributor) → d'.router ≡ d.router → AllRoutable d → AllRoutable d'
unfolding get_router
AllRoutable-router d d' e all i lt r h = all i lt r (rw (← e) h)

-- A test of the loop answers for each interrupt.
abbrev Answers : (Distributor → ℕ → Exec Bool) → Type 0
Answers test = (d : Distributor) (i : ℕ) → IsValid d → i < 1024 → (b : Bool) × (test d i ≡ done b)

module _ (test : Distributor → ℕ → Exec Bool) (answers : Answers test) where
  turn-Runs :
      (d : Distributor) (cpu : Cpu) (i : ℕ)
      → IsValid d
      → AllRoutable d
      → i < 1020
      → (hit : Bool) → Runs d cpu (if hit then trigger_interrupt d cpu i none else done (d, cpu))
  turn-Runs d cpu i valid all lt true =
      let t = trigger_interrupt-Triggered d cpu i none valid lt (all i lt) in
      record { d' = _; cpu' = t.cpu'; runs = t.runs; valid = t.valid; router = refl; lrs = t.lrs }
  turn-Runs d cpu i valid all lt false = record {
    d' = d;
    cpu' = cpu;
    runs = refl;
    valid = valid;
    router = refl;
    lrs = refl;
  }

  trigger_loop-Runs :
      (n m i value : ℕ) (d : Distributor) (cpu : Cpu)
      → IsValid d
      → AllRoutable d
      → value < 2 ^ m
      → i + m ≤ 1020
      → Runs d cpu (trigger_loop test n i value d cpu)
  unfolding trigger_loop
  trigger_loop-Runs zero m i value d cpu valid all small room = record {
    d' = d;
    cpu' = cpu;
    runs = refl;
    valid = valid;
    router = refl;
    lrs = refl;
  }
  trigger_loop-Runs (suc n) zero i value d cpu valid all small room =
      let z : (value == 0) ≡ true = ground arith in
      rw z (record { d' = d; cpu' = cpu; runs = refl; valid = valid; router = refl; lrs = refl })
  trigger_loop-Runs (suc n) (suc m) i value d cpu valid all small room =
      let half : value >>> 1 < 2 ^ m = omega (arith, pow-suc 2 m) in
      if-elim (Runs d cpu) (value == 0)
        (λ _. record { d' = d; cpu' = cpu; runs = refl; valid = valid; router = refl; lrs = refl })
        λ _.
          if-elim (Runs d cpu) (bit_and value 1 != 0)
            (λ _.
              let (hit, eh) = answers d i valid (omega arith) in
              let t = turn-Runs d cpu i valid all (omega arith) hit in
              let r =
                trigger_loop-Runs n m (i + 1) (value >>> 1) t.d' t.cpu' t.valid
                  (AllRoutable-router d t.d' t.router all) half (omega arith) in
              rw (eh, t.runs)
                (record {
                  d' = r.d';
                  cpu' = r.cpu';
                  runs = r.runs;
                  valid = r.valid;
                  router = r.router ∙ t.router;
                  lrs = r.lrs ∙ t.lrs;
                }))
            (λ _. trigger_loop-Runs n m (i + 1) (value >>> 1) d cpu valid all half (omega arith))

module _ (d : Distributor) (cpu : Cpu) (register value : ℕ) (valid : IsValid d)
    (all : AllRoutable d) where
  or-small : value < 2 ^ 32 → (x : ℕ) → x < 2 ^ 32 → bit_or x (as_word 32 value) < 2 ^ 32
  or-small lt x h = bit_or-lt 32 x (as_word 32 value) h (omega arith)

  pub set_enabled-Runs :
      (m : ℕ)
      → value < 2 ^ m
      → register < 32
      → register * 32 + m ≤ 1020
      → value < 2 ^ 32
      → Runs d cpu (set_enabled d cpu register value)
  unfolding set_enabled get_router
  set_enabled-Runs m small lt room word =
      let w = modify-Modified d.enable register _ valid.enable (or-small word) lt in
      let bank : IsBank 32 w.regs' = w.bank in
      let v : IsValid (record d { enable = w.regs' }) = assumption in
      let r =
        trigger_loop-Runs get_pending (λ d' i v' lt'. (_, get_pending-done v' i lt')) 64 m
          (register * 32) value (record d { enable = w.regs' }) cpu v (λ i lt' r e. all i lt' r e)
          small room in
      rw w.runs (record {
        d' = r.d';
        cpu' = r.cpu';
        runs = r.runs;
        valid = r.valid;
        router = r.router;
        lrs = r.lrs;
      })

  pub set_pending-Runs :
      (m : ℕ)
      → value < 2 ^ m
      → register < 32
      → register * 32 + m ≤ 1020
      → value < 2 ^ 32
      → Runs d cpu (set_pending d cpu register value)
  unfolding set_pending get_router
  set_pending-Runs m small lt room word =
      let w = modify-Modified d.pending register _ valid.pending (or-small word) lt in
      let bank : IsBank 32 w.regs' = w.bank in
      let v : IsValid (record d { pending = w.regs' }) = assumption in
      let r =
        trigger_loop-Runs get_enable (λ d' i v' lt'. (_, get_enable-done v' i lt')) 64 m
          (register * 4 * 8) value (record d { pending = w.regs' }) cpu v
          (λ i lt' r e. all i lt' r e) small (omega arith) in
      rw w.runs (record {
        d' = r.d';
        cpu' = r.cpu';
        runs = r.runs;
        valid = r.valid;
        router = r.router;
        lrs = r.lrs;
      })
