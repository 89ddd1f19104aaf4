-- ===== src/Paging/Table.antt =====
-- src/paging.rs: the body of the loop that maps one descriptor through the table below it.
use mini_visor_real_device.Base.{
  ℕ, suc, ◌+◌, ◌*◌, ◌/◌, ◌%◌, ◌^◌, ◌<◌, ◌≤◌, ◌≡◌, refl, ap, sym, subst, arith, none, some, inl, inr,
  ◌⊎◌, ◌∙◌, ◌≢◌, ◌&&◌, ◌==◌, ltb, List, ◌∷◌, Bool-cases,
}
use mini_visor_real_device.Paging.{block_size, Mapping, ok, link_table, map_table}
use mini_visor_real_device.Paging.Walk.{
  Places, translate, block_size_pos, block_size-suc, address_field, translate_table, translate_leaf,
  block_output, child, child_range,
}
use mini_visor_real_device.Paging.Progress.{IsReady, IsProgress, IsTranslated, IsUnmapped, IsFresh}
use mini_visor_real_device.Paging.Loop.{part, AreEntries, AreUnmapped, AreTranslated}
use mini_visor_real_device.Paging.Rounds.{IsLoopDone}
use mini_visor_real_device.Paging.Leaf.{apart_other, higher_other}
use mini_visor_real_device.Paging.Link.{
  linked_places, link_word, link_other, link_none, link-IsReady, link_at, link_entry, link_extends,
}
use native.Mathlib.Nat.{le-div_iff_mul-le, div-lt_iff_lt-mul}

-- The entry that the walk takes, from the range that holds the address.
child_index :
    (b q j x : ℕ)
    → 1 ≤ b
    → j < 512
    → q * (512 * b) + j * b ≤ x
    → x < q * (512 * b) + j * b + b
    → x / b % 512 ≡ j
child_index b q j x p lt lo hi =
    let l : q * 512 + j ≤ x / b = (le-div_iff_mul-le p).1 (omega arith) in
    let u : x / b < q * 512 + j + 1 = (div-lt_iff_lt-mul p).1 (omega arith) in omega arith

-- The walk through a table is that of its entries.
through_table :
    (h a s q bytes : ℕ) (m m1 m' : Mapping)
    → s ≡ q * (512 * block_size h)
    → m'.memory a % 4 ≡ 3
    → m1.intermediate_physical_address ≡ m.intermediate_physical_address
    → m1.physical_address ≡ m.physical_address
    → AreTranslated h 512 (address_field (m'.memory a)) s m1 m' bytes
    → ((x : ℕ)
        → s ≤ x
        → x < s + block_size (suc h)
        → (x < m.intermediate_physical_address) ⊎ (m.intermediate_physical_address + bytes ≤ x)
        → translate h (child h (m'.memory a) x) m1.memory x ≡ translate (suc h) a m.memory x)
    → IsTranslated (suc h) a s m m' bytes
through_table h a s q bytes m m1 m' start table ei ep ts old = record {
  inside = λ x l r l' r'.
      let c = range x l r in
      translate_table h a x m'.memory table
      ∙ ((ts (x / block_size h % 512) (omega arith)).inside x (omega (arith, c.0))
            (omega (arith, c.1)) (omega arith) (omega arith)
          ∙ ap some (omega arith));
  outside = λ x l r o.
      let c = range x l r in
      translate_table h a x m'.memory table
      ∙ ((ts (x / block_size h % 512) (omega arith)).outside x (omega (arith, c.0))
            (omega (arith, c.1)) (rw ei o)
          ∙ old x l r o);
}
  where
    range :
        (x : ℕ)
        → s ≤ x
        → x < s + block_size (suc h)
        → (q * (512 * block_size h) + x / block_size h % 512 * block_size h ≤ x)
          × (x < q * (512 * block_size h) + x / block_size h % 512 * block_size h + block_size h)
          × (x / block_size h % 512 * block_size h + block_size h ≤ 512 * block_size h)
    range x l r =
        child_range (block_size h) q x (block_size_pos h) (omega arith)
          (omega (arith, block_size-suc h))

-- A table of 2^k descriptors maps the part of the range that it covers.
abbrev pub MapsTable : (h permission k : ℕ) → Type 0
MapsTable h permission k =
    (place : Places) (m m' : Mapping) (t s q : ℕ)
    → IsReady place m
    → s ≡ q * (2 ^ k * block_size h)
    → AreEntries place h (2 ^ k) t s
    → s ≤ m.intermediate_physical_address
    → m.intermediate_physical_address < s + 2 ^ k * block_size h
    → 0 < m.remaining_size
    → AreUnmapped h (2 ^ k) t s m
    → map_table h permission t (2 ^ k) m ≡ ok m'
    → IsLoopDone place h (2 ^ k) t s m m' (part m (s + 2 ^ k * block_size h))

-- The entries of a table are unmapped where the descriptor that links it is.
table-AreUnmapped :
    (h a s q : ℕ) (m : Mapping)
    → s ≡ q * (512 * block_size h)
    → m.memory a % 4 ≡ 3
    → IsUnmapped (suc h) a s m
    → AreUnmapped h 512 (address_field (m.memory a)) s m
table-AreUnmapped h a s q m start table un j lt x l r l' r' =
    let b = block_size h in
    let i : x / b % 512 ≡ j =
      child_index b q j x (block_size_pos h) lt (omega arith) (omega arith) in
    let n : j * b + b ≤ 512 * b = grind arith in
    let e =
      sym (translate_table h a x m.memory table)
      ∙ un x (omega arith) (omega (arith, block_size-suc h)) l' r' in
    rw i at e

-- A part that was mapped below a descriptor, seen from the height of the descriptor.
raise :
    {place : Places} {m m' : Mapping} {bytes : ℕ} (h : ℕ)
    → IsProgress h place m m' bytes
    → IsProgress (suc h) place m m' bytes
raise h p = record {
  places = p.places;
  extends = p.extends;
  ready = p.ready;
  physical = p.physical;
  intermediate = p.intermediate;
  size = p.size;
  agree = p.agree;
  higher = λ a k s e l. p.higher a k s e (omega arith);
}

-- The branch in which the descriptor already links a table.
pub existing_table :
    (h permission : ℕ)
    → MapsTable h permission 9
    → (place : Places) (m m' : Mapping) (a s : ℕ) → IsReady place m
    → place a ≡ some (suc h, s)
    → s ≤ m.intermediate_physical_address
    → m.intermediate_physical_address < s + block_size (suc h)
    → 0 < m.remaining_size
    → IsUnmapped (suc h) a s m
    → m.memory a % 4 ≡ 3
    → map_table h permission (address_field (m.memory a)) 512 m ≡ ok m'
    → IsProgress (suc h) place m m' (part m (s + block_size (suc h)))
      × IsTranslated (suc h) a s m m' (part m (s + block_size (suc h)))
existing_table h permission maps place m m' a s ready at lo hi pos un table e =
    let bs = block_size-suc h in
    let (q, al) = ready.laid.aligned a (suc h) s at in
    let start : s ≡ q * (512 * block_size h) = rw bs at al in
    let (p, ts) =
      maps place m m' (address_field (m.memory a)) s q ready start
        (ready.laid.linked a h s at table) lo (omega arith) pos
        (table-AreUnmapped h a s q m start table un) e in
    let same : m'.memory a ≡ m.memory a = p.higher a (suc h) s at (omega arith) in
    let ts' : AreTranslated h 512 (address_field (m'.memory a)) s m m'
        (part m (s + 512 * block_size h)) =
      rw same ts in
    let bytes : part m (s + 512 * block_size h) ≡ part m (s + block_size (suc h)) = omega arith in
    subst (λ n. IsProgress (suc h) place m m' n × IsTranslated (suc h) a s m m' n) bytes
      (
        raise h p,
        through_table h a s q (part m (s + 512 * block_size h)) m m m' start (rw same table) refl
            refl ts' (λ x l r o. rw same (sym (translate_table h a x m.memory table))),
      )

-- A descriptor that is no table translates all of its range or nothing.
block_output-none : (h d x y : ℕ) → block_output h d y ≡ none → block_output h d x ≡ none
unfolding block_output
block_output-none h d x y e = elim (Bool-cases (d % 4 == 1 && ltb h 3)) [
  | inl t ↦ let f = rw t at e in cc
  | inr f ↦ rw f refl
]

unmapped_leaf :
    (h a x y : ℕ) (memory : ℕ → ℕ)
    → memory a % 4 ≢ 3
    → translate (suc h) a memory y ≡ none
    → translate (suc h) a memory x ≡ none
unmapped_leaf h a x y memory n e =
    translate_leaf h a x memory n
    ∙ block_output-none (suc h) (memory a) x y (sym (translate_leaf h a y memory n) ∙ e)

-- The branch in which a page becomes the table.
module _ (h permission : ℕ) (maps : MapsTable h permission 9) (place : Places) (m m' : Mapping)
    (a s next : ℕ) (rest : List ℕ) (ready : IsReady place m) (at : place a ≡ some (suc h, s))
    (lo : s ≤ m.intermediate_physical_address)
    (hi : m.intermediate_physical_address < s + block_size (suc h)) (pos : 0 < m.remaining_size)
    (un : IsUnmapped (suc h) a s m) (no_table : m.memory a % 4 ≢ 3)
    (pages : m.free_pages ≡ next ∷ rest)
    (e : map_table h permission next 512 (link_table next a rest m) ≡ ok m') where
  q : ℕ
  q = (ready.laid.aligned a (suc h) s at).0

  start : s ≡ q * (512 * block_size h)
  unfolding q
  start =
      let bs : block_size (suc h) ≡ 512 * block_size h = block_size-suc h in
      rw bs at ((ready.laid.aligned a (suc h) s at).1)

  page-IsFresh : IsFresh place (next ∷ rest)
  page-IsFresh = rw pages at ready.fresh

  abbrev m1 : Mapping
  m1 = link_table next a rest m

  abbrev places1 : Places
  places1 = linked_places place m h a s q next rest ready at start page-IsFresh

  abbrev bytes : ℕ
  bytes = part m (s + block_size (suc h))

  table_done : IsLoopDone places1 h 512 next s m1 m' bytes
  unfolding link_table
  table_done =
      let total : part m (s + 512 * block_size h) ≡ bytes = omega (arith, block_size-suc h) in
      subst (λ n. IsLoopDone places1 h 512 next s m1 m' n) total
        (maps places1 m1 m' next s q
          (link-IsReady place m h a s q next rest ready at start page-IsFresh) start
          (link_entry place m h a s q next rest ready at start page-IsFresh) lo
          (omega (arith, block_size-suc h)) pos
          (λ j lt x l r l' r'.
            link_none place m h a s q next rest ready at start page-IsFresh j x lt)
          e)

  table-IsProgress : IsProgress (suc h) place m m' bytes
  unfolding link_table
  table-IsProgress =
      let p = table_done.0 in
      let ext = link_extends place m h a s q next rest ready at start page-IsFresh in
      let other = link_other place m h a s q next rest ready at start page-IsFresh in
      record {
        places = p.places;
        extends = λ a' k u f. p.extends a' k u (ext a' k u f);
        ready = p.ready;
        physical = p.physical;
        intermediate = p.intermediate;
        size = p.size;
        agree = λ a' k u f o.
            p.agree a' k u (ext a' k u f) o
            ∙ other a' k u (apart_other place m bytes a (suc h) s a' k u at lo hi (omega arith) f o)
                f;
        higher = λ a' k u f l.
            p.higher a' k u (ext a' k u f) (omega arith)
            ∙ other a' k u (higher_other place a (suc h) s a' k u at f l) f;
      }

  table-IsTranslated : IsTranslated (suc h) a s m m' bytes
  unfolding link_table
  table-IsTranslated =
      let (p, ts) = table_done in
      let w = link_word place m h a s q next rest ready at start page-IsFresh in
      let same : m'.memory a ≡ m1.memory a =
        p.higher a (suc h) s (link_at place m h a s q next rest ready at start page-IsFresh)
          (omega arith) in
      let next_eq : address_field (m'.memory a) ≡ next = ap address_field same ∙ w.1 in
      through_table h a s q bytes m m1 m' start (rw same w.2) refl refl (rw next_eq ts) (λ x l r o.
        rw next_eq (
          link_none place m h a s q next rest ready at start page-IsFresh (x / block_size h % 512) x
            (omega arith))
        ∙ sym (
            unmapped_leaf h a x m.intermediate_physical_address m.memory no_table
              (un m.intermediate_physical_address lo hi (omega arith) (omega arith))))

  pub new_table : IsProgress (suc h) place m m' bytes × IsTranslated (suc h) a s m m' bytes
  new_table = (table-IsProgress, table-IsTranslated)
