-- ===== src/Gic/Common.antt =====
-- src/mmio/gicv3.rs: what the two halves of the virtual GICv3 share.

use mini_visor_real_device.Base.{
  ℕ, ◌-◌, ◌^◌, ◌%◌, bit_and, bit_or, Bool, true, false, ◌&&◌, List, ltb, leb, Exec, done, ◌>>=◌,
  ◌>>◌, index, set, bit_not, ◌<<<◌, ◌>>>◌, assert,
}
use mini_visor_real_device.Cpu.{Cpu, set_icc_sgi1r_el1}

abbrev pub inject_interrupt_int_id : ℕ
inject_interrupt_int_id = 11

abbrev pub gic_revision : ℕ
gic_revision = 3

-- `x |= 1 << k` and `x &= !(1 << k)` on a u32
abbrev pub set_bit : Bool → ℕ → ℕ → ℕ
set_bit true k x = bit_or x (1 <<< k)
set_bit false k x = bit_and x (bit_not 32 (1 <<< k))

-- `xs[i] = f(xs[i])`
abbrev pub modify : List ℕ → ℕ → (ℕ → ℕ) → Exec (List ℕ)
modify xs i f = do v ← index xs i; done (set xs i (f v))

-- `(lo..=hi).contains(&x)`
abbrev pub within : ℕ → ℕ → ℕ → Bool
within lo hi x = leb lo x && leb x hi

-- The byte at bit `k` of `x` replaced: `(x & !(0xFF << k)) | (value << k) as u32`.
abbrev pub set_byte : ℕ → ℕ → ℕ → ℕ
set_byte k value x = bit_or (bit_and x (bit_not 32 (0xff <<< k))) ((value <<< k) % 2 ^ 32)

-- The four affinity fields of an MPIDR or of a router register.
pub record Affinity : Type 0 where
  pub aff3 : ℕ
  pub aff2 : ℕ
  pub aff1 : ℕ
  pub aff0 : ℕ

unfoldable pub affinity : ℕ → Affinity
affinity r = record {
  aff3 = bit_and r (1 <<< 40 - 1) >>> 32;
  aff2 = bit_and r (1 <<< 24 - 1) >>> 16;
  aff1 = bit_and r (1 <<< 16 - 1) >>> 8;
  aff0 = bit_and r (1 <<< 8 - 1);
}

-- The value for ICC_SGI1R_EL1 that asks another CPU to inject.
unfoldable pub sgi1r : Affinity → ℕ
sgi1r a =
    bit_or
      (bit_or (bit_or (bit_or (a.aff3 <<< 48) (a.aff2 <<< 32)) (inject_interrupt_int_id <<< 24))
        (a.aff1 <<< 48))
      (1 <<< a.aff0)

unfoldable pub send_sgi : Affinity → Cpu → Exec Cpu
unfolding sgi1r
send_sgi a cpu = do assert (ltb a.aff0 16); done (set_icc_sgi1r_el1 (sgi1r a) cpu)
