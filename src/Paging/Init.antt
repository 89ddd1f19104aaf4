-- ===== src/Paging/Init.antt =====
-- src/paging.rs: the tables that init_stage2_translation_table makes.
use mini_visor_real_device.Base.{
  ℕ, zero, suc, ◌+◌, ◌-◌, ◌*◌, ◌/◌, ◌%◌, ◌^◌, ◌<◌, ◌≤◌, ◌≡◌, refl, ap, sym, arith, Option, none,
  some, inl, inr, ◌⊎◌, ◌∙◌, Bool, true, false, ◌&&◌, ◌==◌, ltb, leb, List, [], ◌∷◌, Bool-cases,
  if◌then◌else◌, bit_and, bit_and_mask, done, ◌<<<◌, bit_and_shifted, ==_iff, ℕ_discrete,
}
use mini_visor_real_device.Paging.{block_size, clear_table}
use mini_visor_real_device.Paging.Walk.{Places, IsLaid}
use mini_visor_real_device.Paging.Progress.{IsFresh, IsNotIn}
use mini_visor_real_device.Paging.Leaf.{place_unique}
use mini_visor_real_device.Paging.Link.{clear_in, cleared_none}
use mini_visor_real_device.Paging.Stage2.{
  Stage2, init_stage2_translation_table, number_of_concatenated_page_tables, address_size,
  vtcr_value, lookup_level, num_of_descriptors, table_address, initial_lookup_level,
}
use mini_visor_real_device.Paging.Translation.{IsMappable, walk, height}
use native.Mathlib.Nat.{one-le-pow}

-- A test of all numbers below a bound.
all_below : (n : ℕ) → (ℕ → Bool) → Bool
all_below zero f = true
all_below (suc n) f = all_below n f && f n

and_true : (a b : Bool) → (a && b) ≡ true → (a ≡ true) × (b ≡ true)
and_true true true e = (refl, refl)
and_true true false e = cc
and_true false b e = cc

all_below_lem : (n : ℕ) (f : ℕ → Bool) → all_below n f ≡ true → (k : ℕ) → k < n → f k ≡ true
unfolding all_below
all_below_lem zero f e k lt = elim lt [ ]
all_below_lem (suc n) f e k lt =
    let (l, r) = and_true (all_below n f) (f n) e in
    elim (ℕ_discrete k n) [ yes q ↦ rw q r | no q ↦ all_below_lem n f l k (omega arith) ]

-- The registers for a physical address range, with a table.
abbrev pub made : (ps table : ℕ) → (ℕ → ℕ) → Stage2
made ps table memory =
    let t0sz = (address_size ps).0 in
    let level = (address_size ps).1 in
    record {
      vtcr_el2 = vtcr_value ps t0sz level;
      vttbr_el2 = table;
      memory = clear_table (number_of_concatenated_page_tables t0sz level * 512) table memory;
    }

abbrev pub tables_of : ℕ → ℕ
tables_of ps = number_of_concatenated_page_tables (address_size ps).0 (address_size ps).1

-- The binary logarithm of the number of descriptors.
order_of : ℕ → ℕ
order_of ps = if ps == 2 then 10 else if ps == 3 then 12 else 9

-- What the control register says back.
reads_back : ℕ → Bool
unfolding lookup_level num_of_descriptors order_of vtcr_value address_size initial_lookup_level
    number_of_concatenated_page_tables
reads_back ps =
    let r : Stage2 = record {
      vtcr_el2 = vtcr_value ps (address_size ps).0 (address_size ps).1;
      vttbr_el2 = 0;
      memory = λ a. 0;
    } in
    num_of_descriptors r == tables_of ps * 512 && num_of_descriptors r == 2 ^ order_of ps

reads_back_all : all_below 16 reads_back ≡ true
unfolding all_below reads_back lookup_level num_of_descriptors order_of vtcr_value address_size
    initial_lookup_level number_of_concatenated_page_tables
reads_back_all = refl

-- The number of descriptors that the mapping will use is that of the tables that were cleared.
made_count :
    (ps table : ℕ) (memory : ℕ → ℕ)
    → ps < 16
    → (num_of_descriptors (made ps table memory) ≡ tables_of ps * 512)
      × (num_of_descriptors (made ps table memory) ≡ 2 ^ order_of ps)
unfolding reads_back num_of_descriptors lookup_level
made_count ps table memory lt =
    let r : Stage2 = record {
      vtcr_el2 = vtcr_value ps (address_size ps).0 (address_size ps).1;
      vttbr_el2 = 0;
      memory = λ a. 0;
    } in
    let c = all_below_lem 16 reads_back reads_back_all ps lt in
    let (a, b) =
      and_true (num_of_descriptors r == tables_of ps * 512)
        (num_of_descriptors r == 2 ^ order_of ps) c in
    (
      (==_iff (num_of_descriptors r) (tables_of ps * 512)).0 a,
      (==_iff (num_of_descriptors r) (2 ^ order_of ps)).0 b,
    )

made_table :
    (ps table : ℕ) (memory : ℕ → ℕ)
    → table % 2 ≡ 0
    → table < 2 ^ 47
    → table_address (made ps table memory) ≡ table
unfolding table_address
made_table ps table memory e lt =
    let s : bit_and table ((2 ^ 46 - 1) <<< 1) ≡ bit_and (table / 2) (2 ^ 46 - 1) * 2 =
      bit_and_shifted 1 table (2 ^ 46 - 1) in
    let m : bit_and (table / 2) (2 ^ 46 - 1) ≡ table / 2 % 2 ^ 46 = bit_and_mask 46 (table / 2) in
    s ∙ rw m (omega arith)

-- The places of a first table: its descriptors lie one after another.
in_table : (n base a : ℕ) → Bool
in_table n base a = leb base a && (ltb a (base + 8 * n) && (a - base) % 8 == 0)

root_places : (n base h : ℕ) → Places
unfolding in_table
root_places n base h a = if in_table n base a then some (h, (a - base) / 8 * block_size h) else none

root_entry :
    (n base h i : ℕ) → i < n → root_places n base h (base + 8 * i) ≡ some (h, 0 + i * block_size h)
unfolding root_places in_table
root_entry n base h i lt =
    let t : in_table n base (base + 8 * i) ≡ true = ground arith in
    let e : (base + 8 * i - base) / 8 ≡ i = omega arith in
    let z : i * block_size h ≡ 0 + i * block_size h = omega arith in
    rw (t, e) (ap (λ y. some (h, y)) z)

root_inv :
    (n base h a k u : ℕ)
    → root_places n base h a ≡ some (k, u)
    → (i : ℕ) × (i < n) × (a ≡ base + 8 * i) × (k ≡ h) × (u ≡ i * block_size h)
unfolding root_places in_table
root_inv n base h a k u e = elim (Bool-cases (in_table n base a)) [
  | inl t ↦
      let i = (a - base) / 8 in
      let f : root_places n base h a ≡ some (h, i * block_size h) = rw t refl in
      let q = place_unique (root_places n base h) f e in
      (i, ground arith, ground arith, sym q.0, sym q.1)
  | inr f ↦ let g = rw f at e in cc
]

-- The pages that the allocator hands out later lie apart from the first table.
abbrev pub ArePages : (start end : ℕ) → List ℕ → Type 0
ArePages start end [] = Unit
ArePages start end (page ∷ pages) =
    (page % 4096 ≡ 0)
    × (page < 2 ^ 52)
    × ((page + 4096 ≤ start) ⊎ (end ≤ page))
    × IsNotIn page pages
    × ArePages start end pages

root-IsFresh :
    (n base h : ℕ) (pages : List ℕ)
    → ArePages base (base + 8 * n) pages
    → IsFresh (root_places n base h) pages
unfolding root_places in_table
root-IsFresh n base h [] p = tt
root-IsFresh n base h (page ∷ pages) p = (
  p.0,
  p.1,
  λ j lt.
      let f : in_table n base (page + 8 * j) ≡ false = elim p.2 [
        | inl l ↦ ground arith
        | inr l ↦ ground arith
      ] in
      rw f refl,
  p.3,
  root-IsFresh n base h pages p.4,
)

root-IsLaid :
    (n base h : ℕ) (memory : ℕ → ℕ) → IsLaid (root_places n base h) (clear_table n base memory)
root-IsLaid n base h memory = record {
  linked = λ a k u p t j lt.
      let (i, li, ea, ek, eu) = root_inv n base h a (suc k) u p in
      let c : clear_table n base memory a ≡ 0 = rw ea (clear_in n base i memory li) in
      let z : 0 % 4 ≡ 3 = rw c at t in cc;
  aligned = λ a k u p.
      let (i, li, ea, ek, eu) = root_inv n base h a k u p in
      (i, eu ∙ ap (λ y. i * block_size y) (sym ek));
}

-- The first table is where an allocation of that many pages is.
module _ (allocate_pages : ℕ → ℕ → Option ℕ) (id_aa64mmfr0_el1 table : ℕ) (memory : ℕ → ℕ)
    (pages : List ℕ) where
  abbrev ps : ℕ
  ps = bit_and id_aa64mmfr0_el1 15

  abbrev r : Stage2
  r = made ps table memory

  ps_bound : ps < 16
  ps_bound = let e : ps ≡ id_aa64mmfr0_el1 % 16 = bit_and_mask 4 id_aa64mmfr0_el1 in omega arith

  made-IsMappable :
      table % 2 ≡ 0
      → table < 2 ^ 47
      → ArePages table (table + 8 * (tables_of ps * 512)) pages
      → IsMappable r pages
  made-IsMappable even bound free =
      let c = made_count ps table memory ps_bound in
      let t : table_address r ≡ table = made_table ps table memory even bound in
      let n = tables_of ps * 512 in
      record {
        place = root_places n table (height r);
        order = order_of ps;
        count = c.1;
        entries = λ i lt. rw t (root_entry n table (height r) i (omega (arith, c.0)));
        laid = root-IsLaid n table (height r) memory;
        fresh = root-IsFresh n table (height r) pages free;
      }

  made-none : table % 2 ≡ 0 → table < 2 ^ 47 → (x : ℕ) → walk r x ≡ none
  unfolding walk
  made-none even bound x =
      let c = made_count ps table memory ps_bound in
      let t : table_address r ≡ table = made_table ps table memory even bound in
      let pos : 1 ≤ num_of_descriptors r =
        let f = c.1 in rw f (one-le-pow (order_of ps) 2 (omega arith)) in
      let i = x / block_size (height r) % num_of_descriptors r in
      cleared_none (height r) (table_address r + 8 * i) x r.memory
        (rw t (clear_in (tables_of ps * 512) table i memory (omega (arith, c.0))))

  -- Where the allocator has the pages of the first table, init_stage2_translation_table makes
  -- tables that are ready to map in, over the pages that are left, and no address is mapped in them.
  -- The conditions: the table is even and below 2^47, as VTTBR_EL2 holds it, and the pages that the
  -- allocator hands out later are aligned, distinct, and apart from it.
  pub init_stage2_translation_table-IsMappable :
      table % 2 ≡ 0
      → table < 2 ^ 47
      → ArePages table (table + 8 * (tables_of ps * 512)) pages
      → allocate_pages (tables_of ps) (12 + tables_of ps - 1) ≡ some table
      → (init_stage2_translation_table allocate_pages id_aa64mmfr0_el1 memory ≡ done r)
        × IsMappable r pages
        × ((x : ℕ) → walk r x ≡ none)
  unfolding init_stage2_translation_table
  init_stage2_translation_table-IsMappable even bound free e = (
    rw (e, init_stage2_translation_table) refl,
    made-IsMappable even bound free,
    made-none even bound,
  )
