-- ===== src/Gic/Distributor/Valid.antt =====
-- GicDistributorMmio of src/mmio/gicv3.rs: the sizes of its register arrays, and what its accessors
-- return for an interrupt that the arrays have room for.
use mini_visor_real_device.Base.{
  ℕ, suc, ◌*◌, ◌^◌, ◌/◌, ◌%◌, ◌<◌, ◌≡◌, arith, bit_and, List, ◌!=◌, ◌>>>◌, done, index, length,
  get_elem?-some, length-replicate, replicate, bit_and_mask,
}
use mini_visor_real_device.Gic.Bitmap.{AllWords, IsBank, bank_bit, bit_of-done}
use mini_visor_real_device.Gic.Distributor.{
  Distributor, new, get_enable, get_pending, get_group, get_group_modifier, get_priority,
  get_router,
}

-- The arrays have the lengths of the source's types, and their entries fit.
pub record IsValid (d : Distributor) : Type 0 where
  pub ctlr : d.ctlr < 2 ^ 32
  pub group : IsBank 32 d.group
  pub enable : IsBank 32 d.enable
  pub pending : IsBank 32 d.pending
  pub active : IsBank 32 d.active
  pub priority : IsBank 255 d.priority
  pub configuration : IsBank 64 d.configuration
  pub group_modifier : IsBank 32 d.group_modifier
  pub router : length d.router ≡ 1020

AllWords-replicate : (n a : ℕ) → a < 2 ^ 32 → AllWords (replicate n a)
AllWords-replicate Prim.Native.Nat.zero a h = tt
AllWords-replicate (suc n) a h = (h, AllWords-replicate n a h)

pub IsBank-replicate : (n a : ℕ) → a < 2 ^ 32 → IsBank n (replicate n a)
IsBank-replicate n a h = record { size = length-replicate n a; words = AllWords-replicate n a h }

-- A new distributor is well formed.
pub new-IsValid : IsValid new
unfolding new
new-IsValid = record {
  ctlr = omega arith;
  group = IsBank-replicate 32 0 (omega arith);
  enable = IsBank-replicate 32 0 (omega arith);
  pending = IsBank-replicate 32 0 (omega arith);
  active = IsBank-replicate 32 0 (omega arith);
  priority = IsBank-replicate 255 0 (omega arith);
  configuration = IsBank-replicate 64 0 (omega arith);
  group_modifier = IsBank-replicate 32 0 (omega arith);
  router = length-replicate {A = ℕ} 1020 0;
}

pub index_some {ℓ} :
    {A : Type ℓ} (xs : List A) (i : ℕ) → i < length xs → (v : A) × (index xs i ≡ done v)
index_some xs i h = let (v, e) = get_elem?-some xs i h in (v, rw e)

module _ {d : Distributor} (valid : IsValid d) (i : ℕ) where
  pub get_enable-done : i < 1024 → get_enable d i ≡ done (bank_bit d.enable i != 0)
  unfolding get_enable
  get_enable-done lt = rw (bit_of-done d.enable i valid.enable (omega arith))

  pub get_pending-done : i < 1024 → get_pending d i ≡ done (bank_bit d.pending i != 0)
  unfolding get_pending
  get_pending-done lt = rw (bit_of-done d.pending i valid.pending (omega arith))

  pub get_group-done : i < 1024 → get_group d i ≡ done (bank_bit d.group i)
  unfolding get_group
  get_group-done lt = bit_of-done d.group i valid.group (omega arith)

  pub get_group_modifier-done :
      i < 1024 → get_group_modifier d i ≡ done (bank_bit d.group_modifier i)
  unfolding get_group_modifier
  get_group_modifier-done lt = bit_of-done d.group_modifier i valid.group_modifier (omega arith)

  pub get_priority-done : i < 1020 → (p : ℕ) × (get_priority d i ≡ done p) × (p < 256)
  unfolding get_priority
  get_priority-done lt =
      let (r, e) = index_some d.priority (i / 4) (omega (arith, valid.priority.size)) in
      (bit_and (r >>> (i % 4 * 8)) 0xff, rw e, omega (arith, bit_and_mask 8 (r >>> (i % 4 * 8))))

  pub get_router-done : i < 1020 → (r : ℕ) × (get_router d i ≡ done r)
  unfolding get_router
  get_router-done lt = index_some d.router i (omega (arith, valid.router))
