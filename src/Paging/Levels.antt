-- ===== src/Paging/Levels.antt =====
-- src/paging.rs: `_map_address_stage2` on every level of the tables.
use mini_visor_real_device.Base.{
  ℕ, zero, suc, ◌+◌, ◌-◌, ◌*◌, ◌/◌, ◌%◌, ◌^◌, ◌<◌, ◌≤◌, ◌≡◌, refl, ap, sym, subst, arith, inl, inr,
  ◌⊎◌, ◌∙◌, ◌≢◌, true, false, ◌==◌, List, [], ◌∷◌, Bool-cases, ==_iff, dec_lt, bit_and_mask,
}
use mini_visor_real_device.Paging.{
  block_size, Mapping, Mapped, ok, fits_block, map_block, link_table, map_descriptor, map_table,
  map_page, for_descriptors, table_index,
}
use mini_visor_real_device.Paging.Descriptor.{is_table_descriptor}
use mini_visor_real_device.Paging.Fields.{IsAccess, is_table_descriptor_eq, next_level_eq}
use mini_visor_real_device.Paging.Walk.{Places, block_size_pos, address_field, index_range}
use mini_visor_real_device.Paging.Progress.{IsReady, IsProgress, IsTranslated, progress-frame}
use mini_visor_real_device.Paging.Loop.{part, Mapped_ok, MapsEntry, AreEntries, AreUnmapped}
use mini_visor_real_device.Paging.Rounds.{IsLoopDone, for_descriptors_lem}
use mini_visor_real_device.Paging.Leaf.{map_page-Maps}
use mini_visor_real_device.Paging.Block.{map_block-Maps}
use mini_visor_real_device.Paging.Table.{MapsTable, existing_table, new_table}
use native.Mathlib.Nat.{one-le-pow}

pub List_cases : (l : List ℕ) → (l ≡ []) ⊎ ((x : ℕ) × (xs : List ℕ) × (l ≡ x ∷ xs))
List_cases [] = inl refl
List_cases (x ∷ xs) = inr (x, xs, refl)

-- How the mapping of one descriptor succeeds.
map_descriptor_ok :
    (descend : ℕ → Mapping → Mapped) (permission h a : ℕ) (m m' : Mapping)
    → map_descriptor descend permission h a m ≡ ok m'
    → ((fits_block h m ≡ true) × (map_block permission h a m ≡ m'))
      ⊎ (((m.memory a % 4 ≡ 3) × (descend (address_field (m.memory a)) m ≡ ok m'))
          ⊎ ((m.memory a % 4 ≢ 3)
              × ((next : ℕ) × (rest : List ℕ) × (m.free_pages ≡ next ∷ rest)
                  × (descend next (link_table next a rest m) ≡ ok m'))))
unfolding map_descriptor
map_descriptor_ok descend permission h a m m' e = elim (Bool-cases (fits_block h m)) [
  | inl t ↦ inl (t, Mapped_ok (rw (t, map_descriptor) at e))
  | inr f ↦ elim (Bool-cases (is_table_descriptor (m.memory a))) [
    | inl t ↦ inr (
        inl (
          (==_iff (m.memory a % 4) 3).0 (sym (is_table_descriptor_eq (m.memory a)) ∙ t),
          rw (f, t, next_level_eq (m.memory a), map_descriptor) at e,
        ))
    | inr f' ↦
        let g : (m.memory a % 4 == 3) ≡ false = sym (is_table_descriptor_eq (m.memory a)) ∙ f' in
        elim (List_cases m.free_pages) [
          | inl nil ↦ let b = rw (f, f', nil, map_descriptor) at e in cc
          | inr (next, rest, cons) ↦
              inr
                (inr (λ t. ground arith, (next, rest, cons, rw (f, f', cons, map_descriptor) at e)))
        ]
  ]
]

map_descriptor-Maps :
    (h permission : ℕ)
    → IsAccess permission
    → MapsTable h permission 9
    → MapsEntry
        (suc h)
        (map_descriptor (λ next m'. map_table h permission next 512 m') permission (suc h))
map_descriptor-Maps h permission p maps place m m' a s ready at lo hi pos un e =
    elim (map_descriptor_ok (λ next m1. map_table h permission next 512 m1) permission (suc h) a m
      m' e) [
        | inl (fit, eq) ↦
            subst
              (λ t.
                IsProgress (suc h) place m t (part m (s + block_size (suc h)))
                × IsTranslated (suc h) a s m t (part m (s + block_size (suc h))))
              eq (map_block-Maps h permission p place m a s ready at lo hi fit)
        | inr (inl (table, eq)) ↦
            existing_table h permission maps place m m' a s ready at lo hi pos un table eq
        | inr (inr (no_table, (next, rest, pages, eq))) ↦
            new_table h permission maps place m m' a s next rest ready at lo hi pos un no_table
              pages eq
      ]

-- The loop starts at the descriptor of the next address, and those before it stay.
module _ (h k : ℕ) (body : ℕ → Mapping → Mapped) (maps : MapsEntry h body) (place : Places)
    (m m' : Mapping) (t s q : ℕ) (ready : IsReady place m) (start : s ≡ q * (2 ^ k * block_size h))
    (es : AreEntries place h (2 ^ k) t s) (lo : s ≤ m.intermediate_physical_address)
    (hi : m.intermediate_physical_address < s + 2 ^ k * block_size h) (pos : 0 < m.remaining_size)
    (un : AreUnmapped h (2 ^ k) t s m) where
  abbrev b : ℕ
  b = block_size h

  abbrev i : ℕ
  i = m.intermediate_physical_address / b % 2 ^ k

  -- The number of descriptors after that of the next address.
  abbrev c : ℕ
  c = 2 ^ k - i - 1

  i_range :
      (i < 2 ^ k)
      × (s + i * b ≤ m.intermediate_physical_address)
      × (m.intermediate_physical_address < s + i * b + b)
  i_range =
      let r =
        index_range (2 ^ k) b q m.intermediate_physical_address (one-le-pow k 2 (omega arith))
          (block_size_pos h) (omega arith) (omega arith) in
      (r.0, omega (arith, r.1), omega (arith, r.2))

  shift_address : (j : ℕ) → t + 8 * (i + j) ≡ t + 8 * i + 8 * j
  shift_address j = omega arith

  shift_start : (j : ℕ) → s + (i + j) * b ≡ s + i * b + j * b
  shift_start j = grind arith

  table_entries : AreEntries place h (suc c) (t + 8 * i) (s + i * b)
  table_entries j lt =
      rw (shift_address j, shift_start j) at (es (i + j) (omega (arith, i_range.0)))

  table-AreUnmapped : AreUnmapped h (suc c) (t + 8 * i) (s + i * b) m
  table-AreUnmapped j lt =
      rw (shift_address j, shift_start j) at (un (i + j) (omega (arith, i_range.0)))

  table_total : part m (s + i * b + suc c * b) ≡ part m (s + 2 ^ k * b)
  table_total =
      let n : 2 ^ k ≡ i + suc c = omega (arith, i_range.0) in
      let f : 2 ^ k * b ≡ i * b + suc c * b = ap (λ x. x * b) n ∙ grind arith in omega arith

  count : 2 ^ k - i ≡ suc c
  count = omega (arith, i_range.0)

  -- What lies before the next address is as it was.
  table_before :
      {bytes : ℕ} (j : ℕ)
      → j < i
      → IsProgress h place m m' bytes
      → IsTranslated h (t + 8 * j) (s + j * b) m m' bytes
  table_before j l p =
      let n : j * b + b ≤ i * b = grind arith in
      let e : s + j * b + b ≤ m.intermediate_physical_address = omega (arith, i_range.1) in
      record {
        inside = λ x lo' hi' l' r'. ground arith;
        outside = λ x lo' hi' o.
            progress-frame ready.laid p h (t + 8 * j) (s + j * b) x
              (es j (omega (arith, i_range.0))) lo' hi' (inl e);
      }

  pub table_loop :
      for_descriptors body (2 ^ k - i) (t + 8 * i) m ≡ ok m'
      → IsLoopDone place h (2 ^ k) t s m m' (part m (s + 2 ^ k * b))
  table_loop e =
      let e' : for_descriptors body (suc c) (t + 8 * i) m ≡ ok m' = rw count at e in
      let (p, ts) =
        for_descriptors_lem h body maps c place m m' (t + 8 * i) (s + i * b) ready table_entries
          i_range.1 i_range.2 pos table-AreUnmapped e' in
      let bytes = part m (s + i * b + suc c * b) in
      subst (λ n. IsLoopDone place h (2 ^ k) t s m m' n) table_total
        (
          p,
          λ j lt. elim (dec_lt j i) [
            | yes l ↦ table_before j l p
            | no l ↦
                let e : i + (j - i) ≡ j = omega arith in
                subst (λ n. IsTranslated h (t + 8 * n) (s + n * b) m m' bytes) e
                  (rw (shift_address (j - i), shift_start (j - i)) (ts (j - i) (omega arith)))
          ],
        )

index_eq :
    (h k : ℕ) (m : Mapping)
    → table_index h (2 ^ k) m ≡ m.intermediate_physical_address / block_size h % 2 ^ k
unfolding table_index block_size
index_eq h k m =
    let o : 1 * 2 ^ (12 + 9 * h) ≡ 2 ^ (12 + 9 * h) = omega arith in
    rw o (bit_and_mask k (m.intermediate_physical_address / 2 ^ (12 + 9 * h)))

pub map_table-Maps : (h permission k : ℕ) → IsAccess permission → MapsTable h permission k
unfolding map_table
map_table-Maps zero permission k p place m m' t s q ready start es lo hi pos un e =
    table_loop 0 k (map_page permission) (map_page-Maps permission p) place m m' t s q ready start
      es lo hi pos un (rw (index_eq 0 k m) at e)
map_table-Maps (suc h) permission k p place m m' t s q ready start es lo hi pos un e =
    table_loop (suc h) k
      (map_descriptor (λ next m1. map_table h permission next 512 m1) permission (suc h))
      (map_descriptor-Maps h permission p (map_table-Maps h permission 9 p)) place m m' t s q ready
      start es lo hi pos un (rw (index_eq (suc h) k m) at e)
