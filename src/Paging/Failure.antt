-- ===== src/Paging/Failure.antt =====
-- src/paging.rs: when the mapping fails.
use mini_visor_real_device.Base.{
  ℕ, zero, suc, ◌+◌, ◌-◌, ◌*◌, ◌%◌, ◌≡◌, arith, inl, inr, ◌⊎◌, Bool, List, [], Bool-cases, bit_and,
  bit_or, bit_and_mask, ◌!=◌, ◌==◌, ◌<<<◌, ◌≢◌, sym, ap, refl, ◌∙◌,
}
use mini_visor_real_device.Paging.{
  Mapping, Mapped, ok, err, and_then, unless_done, for_descriptors, map_page, map_descriptor,
  map_table, fits_block, link_table, page_shift, table_index,
}
use mini_visor_real_device.Paging.Descriptor.{is_table_descriptor, get_next_level_table_address}
use mini_visor_real_device.Paging.Levels.{List_cases}
use mini_visor_real_device.Paging.Stage2.{
  Stage2, map_address_stage2, lookup_level, num_of_descriptors, table_address, bit,
}
use mini_visor_real_device.Paging.Translation.{start_of}

-- A body that fails has found no free page.
FailsEmpty : (ℕ → Mapping → Mapped) → Type 0
FailsEmpty body = (a : ℕ) (m m' : Mapping) → body a m ≡ err m' → m'.free_pages ≡ []

err_state : {m m' : Mapping} → err m ≡ err m' → m ≡ m'
err_state {m} e = ap (λ r. elim r [ err x ↦ x | ok x ↦ m ]) e

-- The state of a failure is that of the part that failed.
and_then_err :
    (rest : Mapping → Mapped) (r : Mapped) (m' : Mapping)
    → and_then rest r ≡ err m'
    → ((m1 : Mapping) × (r ≡ ok m1) × (rest m1 ≡ err m')) ⊎ (r ≡ err m')
unfolding and_then
and_then_err rest (ok m1) m' e = inl (m1, refl, e)
and_then_err rest (err m1) m' e = inr e

unless_done_err :
    (rest : Mapping → Mapped) (m m' : Mapping) → unless_done rest m ≡ err m' → rest m ≡ err m'
unfolding unless_done
unless_done_err rest m m' e = elim (Bool-cases (m.remaining_size == 0)) [
  | inl t ↦ let f = rw (t, unless_done) at e in cc
  | inr f ↦ rw (f, unless_done) at e
]

for_descriptors-fails :
    (body : ℕ → Mapping → Mapped)
    → FailsEmpty body
    → (n a : ℕ) (m m' : Mapping) → for_descriptors body n a m ≡ err m'
    → m'.free_pages ≡ []
unfolding for_descriptors FailsEmpty
for_descriptors-fails body fails zero a m m' e = cc
for_descriptors-fails body fails (suc n) a m m' e =
    elim (and_then_err (unless_done (for_descriptors body n (a + 8))) (body a m) m' e) [
      | inl (m1, e1, e2) ↦
          for_descriptors-fails body fails n (a + 8) m1 m'
            (unless_done_err (for_descriptors body n (a + 8)) m1 m' e2)
      | inr e1 ↦ fails a m m' e1
    ]

map_descriptor-fails :
    (descend : ℕ → Mapping → Mapped) (permission h : ℕ)
    → FailsEmpty descend
    → FailsEmpty (map_descriptor descend permission h)
unfolding map_descriptor FailsEmpty
map_descriptor-fails descend permission h fails a m m' e = elim (Bool-cases (fits_block h m)) [
  | inl t ↦ let f = rw (t, map_descriptor) at e in cc
  | inr f ↦ elim (Bool-cases (is_table_descriptor (m.memory a))) [
    | inl t ↦
        fails (get_next_level_table_address (m.memory a)) m m' (rw (f, t, map_descriptor) at e)
    | inr f' ↦ elim (List_cases m.free_pages) [
      | inl nil ↦
          let g = rw (f, f', nil, map_descriptor) at e in
          ap (λ x. x.free_pages) (sym (err_state g)) ∙ nil
      | inr (next, rest, cons) ↦
          fails next (link_table next a rest m) m' (rw (f, f', cons, map_descriptor) at e)
    ]
  ]
]

map_table-fails : (h permission n : ℕ) → FailsEmpty (λ t m. map_table h permission t n m)
unfolding map_table map_page FailsEmpty
map_table-fails zero permission n t m m' e =
    for_descriptors-fails (map_page permission) (λ a m1 m2 e'. cc) (n - table_index 0 n m)
      (t + 8 * table_index 0 n m) m m' e
map_table-fails (suc h) permission n t m m' e =
    for_descriptors-fails
      (map_descriptor (λ next m1. map_table h permission next 512 m1) permission (suc h))
      (map_descriptor-fails (λ next m1. map_table h permission next 512 m1) permission (suc h)
        (map_table-fails h permission 512))
      (n - table_index (suc h) n m) (t + 8 * table_index (suc h) n m) m m' e

-- map_address_stage2 fails only for a size that is not whole pages, where the tables stay as they
-- are, or where the allocator has no page left.
pub map_address_stage2-err :
    (r : Stage2) (pages : List ℕ) (pa ipa size : ℕ) (readable writable : Bool) (m' : Mapping)
    → map_address_stage2 r pages pa ipa size readable writable ≡ err m'
    → ((size % 4096 ≢ 0) × (m' ≡ start_of r pages pa ipa size)) ⊎ (m'.free_pages ≡ [])
unfolding map_address_stage2 FailsEmpty
map_address_stage2-err r pages pa ipa size readable writable m' e =
    elim (Bool-cases (bit_and size (1 <<< page_shift - 1) != 0)) [
      | inl t ↦
          let b : bit_and size (1 <<< page_shift - 1) ≡ size % 4096 = bit_and_mask 12 size in
          inl (ground arith, sym (err_state (rw (t, map_address_stage2) at e)))
      | inr f ↦ inr (
          map_table-fails (3 - lookup_level r) (bit_or (bit writable <<< 1) (bit readable))
            (num_of_descriptors r) (table_address r) (start_of r pages pa ipa size) m'
            (rw (f, map_address_stage2) at e))
    ]
