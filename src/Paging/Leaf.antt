-- ===== src/Paging/Leaf.antt =====
-- src/paging.rs: a page or a block descriptor maps the range that it covers.
use mini_visor_real_device.Base.{
  ℕ, zero, suc, ◌+◌, ◌-◌, ◌*◌, ◌%◌, ◌^◌, ◌<◌, ◌≤◌, ◌≡◌, refl, ap, sym, subst, arith, Option, none,
  some, inl, inr, ◌∙◌, ◌≢◌, false, ◌==◌, ℕ_discrete, ==_self,
}
use mini_visor_real_device.Paging.{block_size, Mapping, store, advance, set_descriptor, map_page}
use mini_visor_real_device.Paging.Descriptor.{leaf_descriptor, validate_as_page_descriptor}
use mini_visor_real_device.Paging.Fields.{IsAccess, IsAccess-lt, page_descriptor_eq}
use mini_visor_real_device.Paging.Walk.{
  IsLaid, Places, translate, block_size_pos, block_size-suc, block_size-zero, address_field,
  translate_page,
}
use mini_visor_real_device.Paging.Progress.{IsReady, IsProgress, IsTranslated, IsApart}
use mini_visor_real_device.Paging.Loop.{MapsEntry, part, Mapped_ok}

pub store_same : (a v : ℕ) (memory : ℕ → ℕ) → store a v memory a ≡ v
unfolding store
store_same a v memory = rw (==_self a) refl

pub store_other : (a v a' : ℕ) (memory : ℕ → ℕ) → a' ≢ a → store a v memory a' ≡ memory a'
unfolding store
store_other a v a' memory n = let e : (a' == a) ≡ false = ground arith in rw e refl

pub place_unique :
    (place : Places) {a h s h' s' : ℕ}
    → place a ≡ some (h, s)
    → place a ≡ some (h', s')
    → (h ≡ h') × (s ≡ s')
place_unique place {a} {h} {s} {h'} {s'} e e' =
    let pair : Option (ℕ × ℕ) → ℕ × ℕ = λ o. elim o [ none ↦ (h, s) | some p ↦ p ] in
    let f = ap pair (sym e ∙ e') in (ap (λ p. p.0) f, ap (λ p. p.1) f)

pub block_size_pages : (h : ℕ) → block_size h % 4096 ≡ 0
block_size_pages zero = rw block_size-zero refl
block_size_pages (suc h) = omega (arith, block_size-suc h, block_size_pages h)

-- Nothing wraps on a range below 2^48.
advance_fields :
    (bytes : ℕ) (m : Mapping)
    → m.physical_address + m.remaining_size ≤ 2 ^ 48
    → m.intermediate_physical_address + m.remaining_size ≤ 2 ^ 48
    → bytes ≤ m.remaining_size
    → let m' = advance bytes m in
      (m'.physical_address ≡ m.physical_address + bytes)
      × (m'.intermediate_physical_address ≡ m.intermediate_physical_address + bytes)
      × (m'.remaining_size ≡ m.remaining_size - bytes)
unfolding advance
advance_fields bytes m hp hi hs = (omega arith, omega arith, omega arith)

-- Only the descriptor whose range holds the start of a part overlaps it, at its place.
pub apart_other :
    (place : Places) (m : Mapping) (bytes a h s a' h' s' : ℕ)
    → place a ≡ some (h, s)
    → s ≤ m.intermediate_physical_address
    → m.intermediate_physical_address < s + block_size h
    → 0 < bytes
    → place a' ≡ some (h', s')
    → IsApart h' s' m bytes
    → a' ≢ a
apart_other place m bytes a h s a' h' s' at lo hi pos e o p =
    let q = place_unique place at (subst (λ t. place t ≡ some (h', s')) p e) in
    let b : block_size h ≡ block_size h' = ap block_size q.0 in
    elim o [ inl l ↦ omega (arith, q.1) | inr r ↦ omega (arith, q.1) ]

pub higher_other :
    (place : Places) (a h s a' h' s' : ℕ)
    → place a ≡ some (h, s)
    → place a' ≡ some (h', s')
    → h < h'
    → a' ≢ a
higher_other place a h s a' h' s' at e l p =
    let q = place_unique place at (subst (λ t. place t ≡ some (h', s')) p e) in omega (arith, q.0)

pub store-IsLaid :
    (place : Places) (memory : ℕ → ℕ) (a v : ℕ)
    → IsLaid place memory
    → ((h s : ℕ)
        → place a ≡ some (suc h, s)
        → v % 4 ≡ 3
        → (j : ℕ) → j < 512
        → place (address_field v + 8 * j) ≡ some (h, s + j * block_size h))
    → IsLaid place (store a v memory)
store-IsLaid place memory a v w own = record {
  linked = λ a' h s p t j lt. elim (ℕ_discrete a' a) [
    | yes e ↦
        let o : store a v memory a' ≡ v = rw e (store_same a v memory) in
        rw o (own h s (subst (λ b. place b ≡ some (suc h, s)) e p) (rw o at t) j lt)
    | no n ↦
        let o : store a v memory a' ≡ memory a' = store_other a v a' memory n in
        rw o (w.linked a' h s p (rw o at t) j lt)
  ];
  aligned = w.aligned;
}

-- A descriptor that is stored over the range that begins where the mapping stands.
module _ (place : Places) (m : Mapping) (h a s v : ℕ) (ready : IsReady place m)
    (at : place a ≡ some (h, s)) (start : m.intermediate_physical_address ≡ s)
    (fits : block_size h ≤ m.remaining_size) (no_table : (h' : ℕ) → h ≡ suc h' → v % 4 ≢ 3) where
  leaf_ready :
      (m' : Mapping)
      → m'.memory ≡ store a v m.memory
      → m'.free_pages ≡ m.free_pages
      → m'.physical_address ≡ m.physical_address + block_size h
      → m'.intermediate_physical_address ≡ m.intermediate_physical_address + block_size h
      → m'.remaining_size ≡ m.remaining_size - block_size h
      → IsProgress h place m m' (block_size h)
  leaf_ready m' em ef ep ei es = record {
    places = place;
    extends = λ a' h' s' e. e;
    ready = record {
      laid = rw em (
          store-IsLaid place m.memory a v ready.laid
            (λ h' s' p t j lt. absurd (no_table h' (place_unique place at p).0 t)));
      fresh = rw ef ready.fresh;
      physical_aligned = omega (arith, ep, block_size_pages h, ready.physical_aligned);
      intermediate_aligned = omega (arith, ei, block_size_pages h, ready.intermediate_aligned);
      size_aligned = omega (arith, es, block_size_pages h, ready.size_aligned);
      physical_bound = omega (arith, ep, es, ready.physical_bound);
      intermediate_bound = omega (arith, ei, es, ready.intermediate_bound);
    };
    physical = ep;
    intermediate = ei;
    size = omega (arith, es);
    agree = λ a' h' s' e o. rw em (
        store_other a v a' m.memory (
          apart_other place m (block_size h) a h s a' h' s' at (omega arith)
            (omega (arith, block_size_pos h)) (block_size_pos h) e o));
    higher = λ a' h' s' e l.
        rw em (store_other a v a' m.memory (higher_other place a h s a' h' s' at e l));
  }

  leaf-IsTranslated :
      (m' : Mapping)
      → m'.memory ≡ store a v m.memory
      → ((x : ℕ)
          → s ≤ x
          → x < s + block_size h
          → translate h a (store a v m.memory) x ≡ some (m.physical_address + (x - s)))
      → IsTranslated h a s m m' (block_size h)
  leaf-IsTranslated m' em out = record {
    inside = λ x l r l' r'. rw (em, start) (out x l r);
    outside = λ x l r o. elim o [ inl o' ↦ ground arith | inr o' ↦ ground arith ];
  }

  -- The state that map_page and map_block return.
  pub leaf_done :
      ((x : ℕ)
        → s ≤ x
        → x < s + block_size h
        → translate h a (store a v m.memory) x ≡ some (m.physical_address + (x - s)))
      → let m' = advance (block_size h) (set_descriptor a v m) in
        IsProgress h place m m' (block_size h) × IsTranslated h a s m m' (block_size h)
  unfolding advance set_descriptor
  leaf_done out =
      let f = advance_fields (block_size h) m ready.physical_bound ready.intermediate_bound fits in
      let m' = advance (block_size h) (set_descriptor a v m) in
      (leaf_ready m' refl refl f.0 f.1 f.2, leaf-IsTranslated m' refl out)

page_word :
    (pa permission : ℕ)
    → IsAccess permission
    → pa % 4096 ≡ 0
    → pa < 2 ^ 48
    → (address_field (pa + (permission * 64 + 1855)) ≡ pa)
      × ((pa + (permission * 64 + 1855)) % 4 ≡ 3)
page_word pa permission p h lt = (omega (arith, IsAccess-lt p), omega arith)

-- What the walk reads in a page descriptor.
page_output :
    (pa permission a s x v : ℕ) (memory : ℕ → ℕ)
    → IsAccess permission
    → pa % 4096 ≡ 0
    → pa < 2 ^ 48
    → s % 4096 ≡ 0
    → s ≤ x
    → x < s + 4096
    → v ≡ pa + (permission * 64 + 1855)
    → translate 0 a (store a v memory) x ≡ some (pa + (x - s))
page_output pa permission a s x v memory p ha hb hs lo hi e =
    let w : store a v memory a ≡ pa + (permission * 64 + 1855) = store_same a v memory ∙ e in
    let f = page_word pa permission p ha hb in
    translate_page a x (store a v memory) (rw w f.1) ∙ ap some (rw w (omega (arith, f.0)))

pub map_page-Maps : (permission : ℕ) → IsAccess permission → MapsEntry 0 (map_page permission)
unfolding map_page block_size
map_page-Maps permission p place m m' a s ready at lo hi pos un e =
    let (q, al) = ready.laid.aligned a 0 s at in
    let start : m.intermediate_physical_address ≡ s = omega (arith, ready.intermediate_aligned) in
    let fits : 4096 ≤ m.remaining_size = omega (arith, ready.size_aligned) in
    let v = validate_as_page_descriptor (leaf_descriptor m.physical_address permission) in
    let ev : v ≡ m.physical_address + (permission * 64 + 1855) =
      page_descriptor_eq m.physical_address permission ready.physical_aligned
        (omega (arith, ready.physical_bound)) p in
    let whole : 4096 ≡ part m (s + 4096) = omega arith in
    let d =
      leaf_done place m 0 a s v ready at start fits (λ h' e' t. ground arith)
        (λ x l r.
          page_output m.physical_address permission a s x v m.memory p ready.physical_aligned
            (omega (arith, ready.physical_bound)) (omega arith) l r ev) in
    subst (λ bytes. IsProgress 0 place m m' bytes × IsTranslated 0 a s m m' bytes) whole
      (subst (λ t. IsProgress 0 place m t (block_size 0) × IsTranslated 0 a s m t (block_size 0))
        (Mapped_ok e) d)
