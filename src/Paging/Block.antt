-- ===== src/Paging/Block.antt =====
-- src/paging.rs: the block descriptors.
use mini_visor_real_device.Base.{
  ℕ, suc, ◌+◌, ◌-◌, ◌*◌, ◌/◌, ◌%◌, ◌^◌, ◌<◌, ◌≤◌, ◌≡◌, refl, ap, sym, subst, arith, some, ◌∙◌, Bool,
  true, false, ◌&&◌, ◌==◌, ltb, leb, bit_and, bit_and_mask, leb→le, ltb→lt, ==_iff,
}
use mini_visor_real_device.Paging.{block_size, Mapping, store, map_block, fits_block}
use mini_visor_real_device.Paging.Descriptor.{leaf_descriptor, validate_as_block_descriptor}
use mini_visor_real_device.Paging.Fields.{IsAccess, IsAccess-lt, block_descriptor_eq}
use mini_visor_real_device.Paging.Walk.{
  Places, translate, block_size_pos, address_field, translate_leaf, block_output, mod_in,
}
use mini_visor_real_device.Paging.Progress.{IsReady, IsProgress, IsTranslated}
use mini_visor_real_device.Paging.Loop.{part}
use mini_visor_real_device.Paging.Leaf.{leaf_done, store_same}

mask_mod : (h x : ℕ) → bit_and x (block_size h - 1) ≡ x % block_size h
unfolding block_size
mask_mod h x =
    let k = 12 + 9 * h in let o : 1 * 2 ^ k ≡ 2 ^ k = omega arith in rw o (bit_and_mask k x)

and_true : (a b : Bool) → (a && b) ≡ true → (a ≡ true) × (b ≡ true)
and_true true true e = (refl, refl)
and_true true false e = cc
and_true false b e = cc

pub fits_block-Fits :
    (h : ℕ) (m : Mapping)
    → fits_block h m ≡ true
    → (h < 3)
      × (block_size h ≤ m.remaining_size)
      × (m.physical_address % block_size h ≡ 0)
      × (m.intermediate_physical_address % block_size h ≡ 0)
unfolding fits_block
fits_block-Fits h m e =
    let mask = block_size h - 1 in
    let t1 = ltb h 3 in
    let t2 = leb (block_size h) m.remaining_size in
    let t3 = bit_and m.physical_address mask == 0 in
    let t4 = bit_and m.intermediate_physical_address mask == 0 in
    let (r3, e4) = and_true (t1 && t2 && t3) t4 e in
    let (r2, e3) = and_true (t1 && t2) t3 r3 in
    let (e1, e2) = and_true t1 t2 r2 in
    (
      ltb→lt h 3 e1,
      leb→le (block_size h) m.remaining_size e2,
      sym (mask_mod h m.physical_address) ∙ (==_iff (bit_and m.physical_address mask) 0).0 e3,
      sym (mask_mod h m.intermediate_physical_address)
          ∙ (==_iff (bit_and m.intermediate_physical_address mask) 0).0 e4,
    )

div_exact : (b x : ℕ) → 1 ≤ b → x % b ≡ 0 → x / b * b ≡ x
div_exact b x p e = let r : x ≡ x / b * b + x % b = grind arith in omega arith

block_word :
    (pa permission : ℕ)
    → IsAccess permission
    → pa % 4096 ≡ 0
    → pa < 2 ^ 48
    → (address_field (pa + (permission * 64 + 1853)) ≡ pa)
      × ((pa + (permission * 64 + 1853)) % 4 ≡ 1)
block_word pa permission p h lt = (omega (arith, IsAccess-lt p), omega arith)

block_output_eq :
    (h d x : ℕ)
    → d % 4 ≡ 1
    → h < 3
    → block_output h d x ≡ some (address_field d / block_size h * block_size h + x % block_size h)
unfolding block_output
block_output_eq h d x e l =
    let t : (d % 4 == 1) ≡ true = rw e refl in
    let u : ltb h 3 ≡ true = ground arith in rw (t, u) refl

-- What the walk reads in a block descriptor.
block_translated :
    (h pa permission a q x v : ℕ) (memory : ℕ → ℕ)
    → suc h < 3
    → IsAccess permission
    → pa % 4096 ≡ 0
    → pa < 2 ^ 48
    → pa % block_size (suc h) ≡ 0
    → q * block_size (suc h) ≤ x
    → x < q * block_size (suc h) + block_size (suc h)
    → v ≡ pa + (permission * 64 + 1853)
    → translate (suc h) a (store a v memory) x ≡ some (pa + (x - q * block_size (suc h)))
block_translated h pa permission a q x v memory l p ha hb hp lo hi e =
    let b = block_size (suc h) in
    let w : store a v memory a ≡ pa + (permission * 64 + 1853) = store_same a v memory ∙ e in
    let f = block_word pa permission p ha hb in
    let n : store a v memory a % 4 ≡ 1 = rw w f.1 in
    let r : pa / b * b ≡ pa = div_exact b pa (block_size_pos (suc h)) hp in
    let i : x % b ≡ x - q * b = mod_in b q x (block_size_pos (suc h)) lo hi in
    translate_leaf h a x (store a v memory) (λ t. omega arith)
    ∙ (block_output_eq (suc h) (store a v memory a) x n l ∙ ap some (rw (w, f.0, r, i) refl))

-- A block descriptor maps its whole range.
pub map_block-Maps :
    (h permission : ℕ)
    → IsAccess permission
    → (place : Places) (m : Mapping) (a s : ℕ) → IsReady place m
    → place a ≡ some (suc h, s)
    → s ≤ m.intermediate_physical_address
    → m.intermediate_physical_address < s + block_size (suc h)
    → fits_block (suc h) m ≡ true
    → let m' = map_block permission (suc h) a m in
      let bytes = part m (s + block_size (suc h)) in
      IsProgress (suc h) place m m' bytes × IsTranslated (suc h) a s m m' bytes
unfolding map_block
map_block-Maps h permission p place m a s ready at lo hi fit =
    let b = block_size (suc h) in
    let (l, size, pb, ib) = fits_block-Fits (suc h) m fit in
    let (q, al) = ready.laid.aligned a (suc h) s at in
    let start : m.intermediate_physical_address ≡ s = omega (
      arith,
      mod_in b q m.intermediate_physical_address (block_size_pos (suc h)) (omega arith)
          (omega arith),
    ) in
    let bound : m.physical_address < 2 ^ 48 =
      omega (arith, ready.physical_bound, block_size_pos (suc h)) in
    let v = validate_as_block_descriptor (leaf_descriptor m.physical_address permission) in
    let ev : v ≡ m.physical_address + (permission * 64 + 1853) =
      block_descriptor_eq m.physical_address permission ready.physical_aligned (omega arith) p in
    let whole : b ≡ part m (s + b) = omega arith in
    let d =
      leaf_done place m (suc h) a s v ready at start size
        (λ h' e' t.
          omega
            (arith, (block_word m.physical_address permission p ready.physical_aligned bound).1))
        (λ x l' r'.
          block_translated h m.physical_address permission a q x v m.memory l p
            ready.physical_aligned bound pb (omega arith) (omega arith) ev
          ∙ ap some (omega arith)) in
    subst
      (λ bytes.
        IsProgress (suc h) place m (map_block permission (suc h) a m) bytes
        × IsTranslated (suc h) a s m (map_block permission (suc h) a m) bytes)
      whole d
