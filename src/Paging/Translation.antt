-- ===== src/Paging/Translation.antt =====
-- src/paging.rs: map_address_stage2 against the walk of the architecture.
use mini_visor_real_device.Base.{
  ℕ, ◌+◌, ◌-◌, ◌*◌, ◌/◌, ◌%◌, ◌^◌, ◌<◌, ◌≤◌, ◌≡◌, refl, ap, sym, subst, arith, Option, none, some,
  inl, inr, ◌⊎◌, ◌∙◌, Bool, true, false, ◌&&◌, ltb, leb, List, Bool-cases, if◌then◌else◌, bit_and,
  bit_or, bit_and_mask, ◌!=◌, ◌<<<◌, dec_lt,
}
use mini_visor_real_device.Paging.{block_size, Mapping, ok, map_table, page_shift}
use mini_visor_real_device.Paging.Fields.{IsAccess, neither, read_only, write_only, read_write}
use mini_visor_real_device.Paging.Walk.{
  Places, translate, IsLaid, block_size_pos, index_range, div_in, mod_in,
}
use mini_visor_real_device.Paging.Progress.{IsReady, IsFresh}
use mini_visor_real_device.Paging.Loop.{AreEntries, AreUnmapped, part}
use mini_visor_real_device.Paging.Rounds.{IsLoopDone}
use mini_visor_real_device.Paging.Levels.{map_table-Maps}
use mini_visor_real_device.Paging.Stage2.{
  Stage2, map_address_stage2, table_address, lookup_level, num_of_descriptors, bit,
}
use native.Mathlib.Nat.{one-le-pow, mod-eq_of_lt}

-- The number of levels below the first one, and the addresses that the tables take.
abbrev pub height : Stage2 → ℕ
height r = 3 - lookup_level r

abbrev pub input_size : Stage2 → ℕ
input_size r = num_of_descriptors r * block_size (height r)

-- The architecture's translation of a guest's address.
unfoldable pub walk : Stage2 → (ipa : ℕ) → Option ℕ
walk r x =
    translate (height r) (table_address r + 8 * (x / block_size (height r) % num_of_descriptors r))
      r.memory x

-- The tables are a tree over the input addresses, and the free pages lie outside of it.
pub record IsMappable (r : Stage2) (free_pages : List ℕ) : Type 0 where
  pub place : Places
  pub order : ℕ
  pub count : num_of_descriptors r ≡ 2 ^ order
  pub entries : AreEntries place (height r) (num_of_descriptors r) (table_address r) 0
  pub laid : IsLaid place r.memory
  pub fresh : IsFresh place free_pages

-- The registers stay, and the memory is the one that the mapping left.
abbrev pub after : Stage2 → Mapping → Stage2
after r m = record r { memory = m.memory }

bit-IsAccess : (r w : Bool) → IsAccess (bit_or (bit w <<< 1) (bit r))
unfolding bit
bit-IsAccess true true = read_write
bit-IsAccess true false = read_only
bit-IsAccess false true = write_only
bit-IsAccess false false = neither

-- The state that map_address_stage2 begins with.
abbrev pub start_of : Stage2 → (free_pages : List ℕ) → (pa ipa size : ℕ) → Mapping
start_of r free_pages pa ipa size = record {
  physical_address = pa;
  intermediate_physical_address = ipa;
  remaining_size = size;
  memory = r.memory;
  free_pages = free_pages;
}

map_address_stage2_ok :
    (r : Stage2) (free_pages : List ℕ) (pa ipa size : ℕ) (readable writable : Bool) (m' : Mapping)
    → map_address_stage2 r free_pages pa ipa size readable writable ≡ ok m'
    → (size % 4096 ≡ 0)
      × (map_table
            (height r)
            (bit_or (bit writable <<< 1) (bit readable))
            (table_address r)
            (num_of_descriptors r)
            (start_of r free_pages pa ipa size)
          ≡ ok m')
unfolding map_address_stage2
map_address_stage2_ok r pages pa ipa size readable writable m' e =
    elim (Bool-cases (bit_and size (1 <<< page_shift - 1) != 0)) [
      | inl t ↦ let f = rw (t, map_address_stage2) at e in cc
      | inr f ↦
          let b : bit_and size (1 <<< page_shift - 1) ≡ size % 4096 = bit_and_mask 12 size in
          (ground arith, rw (f, map_address_stage2) at e)
    ]

-- A range that is mapped where the tables allow it.
module _ (r : Stage2) (pages : List ℕ) (pa ipa size : ℕ) (readable writable : Bool) (m' : Mapping)
    (tables : IsMappable r pages) (pa_aligned : pa % 4096 ≡ 0) (ipa_aligned : ipa % 4096 ≡ 0)
    (pos : 0 < size) (pa_bound : pa + size ≤ 2 ^ 48) (ipa_bound : ipa + size ≤ 2 ^ 48)
    (range : ipa + size ≤ input_size r)
    (unmapped : (x : ℕ) → ipa ≤ x → x < ipa + size → walk r x ≡ none)
    (e : map_address_stage2 r pages pa ipa size readable writable ≡ ok m') where
  abbrev m : Mapping
  m = start_of r pages pa ipa size

  abbrev h : ℕ
  h = height r

  abbrev n : ℕ
  n = num_of_descriptors r

  abbrev t : ℕ
  t = table_address r

  ready : IsReady tables.place m
  ready = record {
    laid = tables.laid;
    fresh = tables.fresh;
    physical_aligned = pa_aligned;
    intermediate_aligned = ipa_aligned;
    size_aligned = (map_address_stage2_ok r pages pa ipa size readable writable m' e).0;
    physical_bound = pa_bound;
    intermediate_bound = ipa_bound;
  }

  entry_walk :
      (i x : ℕ)
      → i < n
      → 0 + i * block_size h ≤ x
      → x < 0 + i * block_size h + block_size h
      → walk r x ≡ translate h (t + 8 * i) r.memory x
  unfolding walk
  entry_walk i x lt lo hi =
      let d = mod_in (block_size h) i x (block_size_pos h) (omega arith) (omega arith) in
      let q : x / block_size h ≡ i =
        div_in (block_size h) i x (block_size_pos h) (omega arith) (omega arith) in
      let f : x / block_size h % n ≡ i = rw q (mod-eq_of_lt lt) in rw f refl

  tables_pos : 1 ≤ n
  tables_pos = let c = tables.count in rw c (one-le-pow tables.order 2 (omega arith))

  table_done : IsLoopDone tables.place h n t 0 m m' size
  table_done =
      let c : n ≡ 2 ^ tables.order = tables.count in
      let perm = bit_or (bit writable <<< 1) (bit readable) in
      let f = (map_address_stage2_ok r pages pa ipa size readable writable m' e).1 in
      let un : AreUnmapped h n t 0 m =
        λ i lt x lo hi l' r'. sym (entry_walk i x lt lo hi) ∙ unmapped x l' r' in
      let d : IsLoopDone tables.place h (2 ^ tables.order) t 0 m m'
          (part m (0 + 2 ^ tables.order * block_size h)) =
        map_table-Maps h perm tables.order (bit-IsAccess readable writable) tables.place m m' t 0 0
          ready (omega arith) (rw c at tables.entries) (omega arith)
          (omega (arith, ap (λ y. y * block_size h) c)) pos (rw c at un) (rw c at f) in
      let b : part m (0 + 2 ^ tables.order * block_size h) ≡ size =
        omega (arith, ap (λ y. y * block_size h) c) in
      subst (λ bytes. IsLoopDone tables.place h n t 0 m m' bytes) b (rw c d)

  split : (x : ℕ) → (leb ipa x && ltb x (ipa + size)) ≡ false → (x < ipa) ⊎ (ipa + size ≤ x)
  split x c = elim (dec_lt x ipa) [ yes l ↦ inl l | no l ↦ inr (ground arith) ]

  -- After a successful call, every guest address that the tables take translates, by the walk of
  -- the architecture, to its place in the mapped range if it lies in the range, and as before if it
  -- does not. The conditions: the tables are ready to map in, the addresses are aligned to pages,
  -- the range is not empty, lies below 2^48 and in what the tables take, and nothing of it is mapped.
  pub map_address_stage2-Translated :
      (x : ℕ)
      → x < input_size r
      → walk (after r m') x
        ≡ (if leb ipa x && ltb x (ipa + size) then some (pa + (x - ipa)) else walk r x)
  unfolding walk lookup_level num_of_descriptors table_address
  map_address_stage2-Translated x lt =
      let w =
        index_range n (block_size h) 0 x (omega (arith, tables_pos)) (block_size_pos h)
          (omega arith) (omega arith) in
      let tr = table_done.1 (x / block_size h % n) w.0 in
      elim (Bool-cases (leb ipa x && ltb x (ipa + size))) [
        | inl c ↦
            rw c
              (tr.inside x (omega (arith, w.1)) (omega (arith, w.2)) (ground arith) (ground arith))
        | inr c ↦ rw c (tr.outside x (omega (arith, w.1)) (omega (arith, w.2)) (split x c))
      ]

  -- Under the same conditions, a successful call leaves tables that are ready for the next one, with
  -- the pages that are left: each is linked once, at the start of its range.
  pub map_address_stage2-IsMappable : IsMappable (after r m') m'.free_pages
  unfolding lookup_level num_of_descriptors table_address
  map_address_stage2-IsMappable = record {
    place = table_done.0.places;
    order = tables.order;
    count = tables.count;
    entries =
        λ i lt. table_done.0.extends (t + 8 * i) h (0 + i * block_size h) (tables.entries i lt);
    laid = table_done.0.ready.laid;
    fresh = table_done.0.ready.fresh;
  }
