-- ===== src/Gic/Bitmap.antt =====
-- Arrays of 32-bit registers with one bit per interrupt: one bit is written, the others stay.
use mini_visor_real_device.Base.{
  ℕ, zero, suc, ◌*◌, ◌^◌, ◌/◌, ◌%◌, ◌<◌, ◌≤◌, ◌≡◌, ◌∙◌, arith, Bool, true, false, List, [], ◌∷◌,
  some, none, ◌==◌, inl, inr, Bool-cases, Option-cases, ◌≤◌, if◌then◌else◌, done, set, length,
  length-set, get_elem?, get_elem?-set, get_elem?-some, lt_of_get_elem?, bit_not, ◌<<<◌, test_bit,
  bit_and_test, bit_or_test, bit_not_test, pow_test, shift_test, test_bit-le, bit_and-lt, bit_or-lt,
}
use native.Mathlib.Nat.{pow-le-pow_right, pow-suc, one-le-pow}
use mini_visor_real_device.Gic.Common.{set_bit, modify}
use mini_visor_real_device.Gic.Distributor.{bit_of}

abbrev pub AllWords : List ℕ → Type 0
AllWords [] = Unit {0}
AllWords (x ∷ xs) = (x < 2 ^ 32) × AllWords xs

-- `n` registers of 32 bits
pub record IsBank (n : ℕ) (regs : List ℕ) : Type 0 where
  pub size : length regs ≡ n
  pub words : AllWords regs

pub AllWords-get :
    (xs : List ℕ) (i : ℕ) {x : ℕ} → AllWords xs → get_elem? xs i ≡ some x → x < 2 ^ 32
AllWords-get [] i h e = cc
AllWords-get (y ∷ ys) zero h e = ground (arith, h.0)
AllWords-get (y ∷ ys) (suc i) h e = AllWords-get ys i h.1 e

pub AllWords-set : (xs : List ℕ) (i v : ℕ) → AllWords xs → v < 2 ^ 32 → AllWords (set xs i v)
AllWords-set [] i v h lt = tt
AllWords-set (x ∷ xs) zero v h lt = (lt, h.1)
AllWords-set (x ∷ xs) (suc i) v h lt = (h.0, AllWords-set xs i v h.1 lt)

pow-lt-word : (k : ℕ) → k < 32 → 2 ^ k < 2 ^ 32
pow-lt-word k h =
    let up : 2 ^ suc k ≤ 2 ^ 32 = pow-le-pow_right (omega arith) h in
    let pos : 1 ≤ 2 ^ k = one-le-pow k 2 (omega arith) in omega (arith, pow-suc 2 k)

pub set_bit-lt : (b : Bool) (k x : ℕ) → k < 32 → x < 2 ^ 32 → set_bit b k x < 2 ^ 32
set_bit-lt true k x h lt = bit_or-lt 32 x (1 <<< k) lt (omega (arith, pow-lt-word k))
set_bit-lt false k x h lt = bit_and-lt 32 x (bit_not 32 (1 <<< k)) lt

abbrev pub bit : Bool → ℕ
bit b = if b then 1 else 0

pub set_bit-test :
    (b : Bool) (k j x : ℕ)
    → k < 32
    → j < 32
    → x < 2 ^ 32
    → test_bit (set_bit b k x) j ≡ (if k == j then bit b else test_bit x j)
set_bit-test true k j x hk hj lt =
    let e : 1 <<< k ≡ 2 ^ k = omega arith in
    rw e (ground (arith, bit_or_test j x (2 ^ k), pow_test k j, test_bit-le x j))
set_bit-test false k j x hk hj lt =
    let e : 1 <<< k ≡ 2 ^ k = omega arith in
    rw e (
      ground (
        arith,
        bit_and_test j x (bit_not 32 (2 ^ k)),
        bit_not_test 32 j (2 ^ k),
        pow-lt-word k,
        pow_test k j,
        test_bit-le x j,
      ))

-- The bit of an interrupt in an array of registers.
unfoldable pub bank_bit : List ℕ → ℕ → ℕ
bank_bit regs i = elim (get_elem? regs (i / 32)) [ none ↦ 0 | some r ↦ test_bit r (i % 32) ]

module _ (regs : List ℕ) (i r : ℕ) (e : get_elem? regs (i / 32) ≡ some r) where
  bank_bit-some : bank_bit regs i ≡ test_bit r (i % 32)
  unfolding bank_bit
  bank_bit-some = rw (e, bank_bit)

  bit_of-some : bit_of regs i ≡ done (bank_bit regs i)
  bit_of-some = rw (e, bank_bit-some, shift_test (i % 32) r)

  bank_bit-set :
      (b : Bool) (j : ℕ)
      → r < 2 ^ 32
      → bank_bit (set regs (i / 32) (set_bit b (i % 32) r)) j
        ≡ (if i == j then bit b else bank_bit regs j)
  unfolding bank_bit
  bank_bit-set b j small =
      let at =
        get_elem?-set regs (i / 32) (j / 32) (set_bit b (i % 32) r)
          (lt_of_get_elem? regs (i / 32) e) in
      elim (Bool-cases (i / 32 == j / 32)) [
        | inl same ↦
            let here : i / 32 ≡ j / 32 = ground arith in
            let there : get_elem? regs (j / 32) ≡ some r = rw here at e in
            rw
              (
                at,
                same,
                there,
                bank_bit,
                set_bit-test b (i % 32) (j % 32) r (omega arith) (omega arith) small,
              )
              (ground arith)
        | inr other ↦ rw (at, other, bank_bit) (ground arith)
      ]

pub bit_of-done :
    {n : ℕ} (regs : List ℕ) (i : ℕ)
    → IsBank n regs
    → i < 32 * n
    → bit_of regs i ≡ done (bank_bit regs i)
bit_of-done regs i bank lt =
    let (r, e) = get_elem?-some regs (i / 32) (omega (arith, bank.size)) in bit_of-some regs i r e

-- What a write of one bit leaves behind.
pub record SetBit (n : ℕ) (regs : List ℕ) (i : ℕ) (b : Bool) : Type 0 where
  pub regs' : List ℕ
  pub runs : modify regs (i / 32) (set_bit b (i % 32)) ≡ done regs'
  pub bank : IsBank n regs'
  pub bits : (j : ℕ) → bank_bit regs' j ≡ (if i == j then bit b else bank_bit regs j)

modify-some :
    {n : ℕ} (regs : List ℕ) (i : ℕ) (b : Bool) (r : ℕ)
    → IsBank n regs
    → get_elem? regs (i / 32) ≡ some r
    → SetBit n regs i b
modify-some {n} regs i b r bank e =
    let small : r < 2 ^ 32 = AllWords-get regs (i / 32) bank.words e in
    let v : ℕ = set_bit b (i % 32) r in
    record {
      regs' = set regs (i / 32) v;
      runs = rw e;
      bank = record {
        size = length-set regs (i / 32) v ∙ bank.size;
        words =
            AllWords-set regs (i / 32) v bank.words (set_bit-lt b (i % 32) r (omega arith) small);
      };
      bits = λ j. bank_bit-set regs i r e b j small;
    }

pub modify-SetBit :
    {n : ℕ} (regs : List ℕ) (i : ℕ) (b : Bool) → IsBank n regs → i < 32 * n → SetBit n regs i b
modify-SetBit regs i b bank lt =
    let (r, e) = get_elem?-some regs (i / 32) (omega (arith, bank.size)) in
    modify-some regs i b r bank e

pub bank_bit-le : (regs : List ℕ) (i : ℕ) → bank_bit regs i ≤ 1
unfolding bank_bit
bank_bit-le regs i = elim (Option-cases (get_elem? regs (i / 32))) [
  | inl e ↦ rw (e, bank_bit) (omega arith)
  | inr (r, e) ↦ rw (e, bank_bit) (test_bit-le r (i % 32))
]
