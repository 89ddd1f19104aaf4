-- ===== src/Paging/Link.antt =====
-- src/paging.rs: a page becomes a new table, whose descriptors take their places.
use mini_visor_real_device.Base.{
  ℕ, zero, suc, ◌+◌, ◌-◌, ◌*◌, ◌/◌, ◌%◌, ◌<◌, ◌≡◌, refl, sym, subst, arith, none, some, inl, inr,
  ◌⊎◌, ◌∙◌, ◌≢◌, Bool, true, false, ◌&&◌, ◌==◌, ltb, leb, List, [], ◌∷◌, Bool-cases, if◌then◌else◌,
}
use mini_visor_real_device.Paging.{block_size, Mapping, store, clear_table, link_table, link_memory}
use mini_visor_real_device.Paging.Descriptor.{link_descriptor}
use mini_visor_real_device.Paging.Fields.{link_descriptor_eq}
use mini_visor_real_device.Paging.Walk.{IsLaid, Places, translate, address_field, block_output}
use mini_visor_real_device.Paging.Progress.{IsFresh, IsNotIn, IsReady}
use mini_visor_real_device.Paging.Leaf.{store-IsLaid, store_same, store_other, place_unique}

pub clear_out :
    (n t a : ℕ) (memory : ℕ → ℕ)
    → ((j : ℕ) → j < n → a ≢ t + 8 * j)
    → clear_table n t memory a ≡ memory a
unfolding clear_table
clear_out zero t a memory h = refl
clear_out (suc n) t a memory h =
    clear_out n (t + 8) a (store t 0 memory) (λ j lt e. h (suc j) (omega arith) (omega arith))
    ∙ store_other t 0 a memory (λ e. h 0 (omega arith) (omega arith))

pub clear_in : (n t j : ℕ) (memory : ℕ → ℕ) → j < n → clear_table n t memory (t + 8 * j) ≡ 0
unfolding clear_table
clear_in zero t j memory h = elim h [ ]
clear_in (suc n) t zero memory h =
    let e : t + 8 * 0 ≡ t = omega arith in
    rw e (clear_out n (t + 8) t (store t 0 memory) (λ j lt e'. omega arith) ∙ store_same t 0 memory)
clear_in (suc n) t (suc j) memory h =
    let e : t + 8 * suc j ≡ t + 8 + 8 * j = omega arith in
    rw e (clear_in n (t + 8) j (store t 0 memory) (omega arith))

-- Does the descriptor at an address lie in the page at `next`?
in_page : (next a : ℕ) → Bool
in_page next a = leb next a && (ltb a (next + 4096) && (a - next) % 8 == 0)

pub place_table : (place : Places) → (next h s : ℕ) → Places
unfolding in_page
place_table place next h s a =
    if in_page next a then some (h, s + (a - next) / 8 * block_size h) else place a

in_page_iff : (next a : ℕ) → in_page next a ≡ true → (j : ℕ) × (j < 512) × (a ≡ next + 8 * j)
unfolding in_page
in_page_iff next a e = ((a - next) / 8, ground arith, ground arith)

in_page_entry : (next j : ℕ) → j < 512 → in_page next (next + 8 * j) ≡ true
unfolding in_page
in_page_entry next j lt = ground arith

in_page_other :
    (next next' j : ℕ)
    → next % 4096 ≡ 0
    → next' % 4096 ≡ 0
    → next ≢ next'
    → j < 512
    → in_page next (next' + 8 * j) ≡ false
unfolding in_page
in_page_other next next' j h h' n lt = ground arith

pub place_table_entry :
    (place : Places) (next h s j : ℕ)
    → j < 512
    → place_table place next h s (next + 8 * j) ≡ some (h, s + j * block_size h)
unfolding place_table
place_table_entry place next h s j lt =
    let e : (next + 8 * j - next) / 8 ≡ j = omega arith in rw (in_page_entry next j lt, e) refl

abbrev pub IsFreePage : Places → ℕ → Type 0
IsFreePage place next = (j : ℕ) → j < 512 → place (next + 8 * j) ≡ none

pub place_table_old :
    (place : Places) (next h s a k u : ℕ)
    → IsFreePage place next
    → place a ≡ some (k, u)
    → place_table place next h s a ≡ some (k, u)
unfolding place_table
place_table_old place next h s a k u free e = elim (Bool-cases (in_page next a)) [
  | inl t ↦
      let (j, lt, eq) = in_page_iff next a t in
      let f : place a ≡ none = rw eq (free j lt) in let g = sym f ∙ e in cc
  | inr f ↦ rw f e
]

pub place_table_inv :
    (place : Places) (next h s a k u : ℕ)
    → place_table place next h s a ≡ some (k, u)
    → (place a ≡ some (k, u))
      ⊎ ((j : ℕ) × (j < 512) × (a ≡ next + 8 * j) × (k ≡ h) × (u ≡ s + j * block_size h))
unfolding place_table
place_table_inv place next h s a k u e = elim (Bool-cases (in_page next a)) [
  | inl t ↦
      let (j, lt, eq) = in_page_iff next a t in
      let f : place_table place next h s a ≡ some (h, s + j * block_size h) =
        subst (λ t'. place_table place next h s t' ≡ some (h, s + j * block_size h)) (sym eq)
          (place_table_entry place next h s j lt) in
      let q = place_unique (place_table place next h s) f e in inr (j, lt, eq, sym q.0, sym q.1)
  | inr f ↦ inl (rw f at e)
]

-- The page is taken: the tables stay laid out, and the other free pages stay fresh.
clear-IsLaid :
    (place : Places) (memory : ℕ → ℕ) (next h s q : ℕ)
    → IsLaid place memory
    → IsFreePage place next
    → s ≡ q * (512 * block_size h)
    → IsLaid (place_table place next h s) (clear_table 512 next memory)
clear-IsLaid place memory next h s q w free e = record {
  linked = λ a k u p t j lt. elim (place_table_inv place next h s a (suc k) u p) [
    | inl o ↦
        let c : clear_table 512 next memory a ≡ memory a =
          clear_out 512 next a memory (not_in_page a (suc k) u o) in
        rw c (
          place_table_old place next h s (address_field (memory a) + 8 * j) k (u + j * block_size k)
            free (w.linked a k u o (rw c at t) j lt))
    | inr (i, li, eq, ek, eu) ↦
        let c : clear_table 512 next memory a ≡ 0 = rw eq (clear_in 512 next i memory li) in
        let z : 0 % 4 ≡ 3 = rw c at t in cc
  ];
  aligned = λ a k u p. elim (place_table_inv place next h s a k u p) [
    | inl o ↦ w.aligned a k u o
    | inr (i, li, eq, ek, eu) ↦ (q * 512 + i, rw ek (omega arith))
  ];
}
  where
    not_in_page : (a k u : ℕ) → place a ≡ some (k, u) → (j : ℕ) → j < 512 → a ≢ next + 8 * j
    not_in_page a k u o j lt e' =
        let f : place a ≡ none = rw e' (free j lt) in let g = sym f ∙ o in cc

place_table-IsFresh :
    (place : Places) (next h s : ℕ) (pages : List ℕ)
    → next % 4096 ≡ 0
    → IsNotIn next pages
    → IsFresh place pages
    → IsFresh (place_table place next h s) pages
unfolding place_table
place_table-IsFresh place next h s [] al n f = tt
place_table-IsFresh place next h s (page ∷ pages) al n f = (
  f.0,
  f.1,
  λ j lt. rw (in_page_other next page j al f.0 n.0 lt) (f.2 j lt),
  f.3,
  place_table-IsFresh place next h s pages al n.1 f.4,
)

-- A table that was just cleared translates nothing.
pub cleared_none : (h a x : ℕ) (memory : ℕ → ℕ) → memory a ≡ 0 → translate h a memory x ≡ none
unfolding translate block_output
cleared_none zero a x memory e = rw e refl
cleared_none (suc h) a x memory e = rw e refl

-- The table at `next`, linked at `a` over the range of that descriptor.
module _ (place : Places) (m : Mapping) (h a s q next : ℕ) (rest : List ℕ) (ready : IsReady place m)
    (at : place a ≡ some (suc h, s)) (start : s ≡ q * (512 * block_size h))
    (page-IsFresh : IsFresh place (next ∷ rest)) where
  abbrev pub linked : Mapping
  linked = link_table next a rest m

  abbrev pub linked_places : Places
  linked_places = place_table place next h s

  not_in_page : (j : ℕ) → j < 512 → a ≢ next + 8 * j
  not_in_page j lt e =
      let f : place a ≡ none = rw e (page-IsFresh.2 j lt) in let g = sym f ∙ at in cc

  pub link_word :
      (linked.memory a ≡ next + 1027)
      × (address_field (linked.memory a) ≡ next)
      × (linked.memory a % 4 ≡ 3)
  unfolding link_table link_memory
  link_word =
      let e : store a (link_descriptor next) (clear_table 512 next m.memory) a ≡ next + 1027 =
        store_same a (link_descriptor next) (clear_table 512 next m.memory)
        ∙ link_descriptor_eq next page-IsFresh.0 in
      (
        e,
        rw e (omega (arith, page-IsFresh.0, page-IsFresh.1)),
        rw e (omega (arith, page-IsFresh.0)),
      )

  pub link_other : (a' k u : ℕ) → a' ≢ a → place a' ≡ some (k, u) → linked.memory a' ≡ m.memory a'
  unfolding link_table link_memory
  link_other a' k u n e =
      store_other a (link_descriptor next) a' (clear_table 512 next m.memory) n
      ∙ clear_out 512 next a' m.memory (λ j lt e'.
        let f : place a' ≡ none = rw e' (page-IsFresh.2 j lt) in let g = sym f ∙ e in cc)

  pub link_none : (j x : ℕ) → j < 512 → translate h (next + 8 * j) linked.memory x ≡ none
  unfolding link_table link_memory
  link_none j x lt = cleared_none h (next + 8 * j) x linked.memory (
      store_other a (link_descriptor next) (next + 8 * j) (clear_table 512 next m.memory)
        (λ e. not_in_page j lt (sym e))
      ∙ clear_in 512 next j m.memory lt)

  pub link_at : linked_places a ≡ some (suc h, s)
  link_at = place_table_old place next h s a (suc h) s page-IsFresh.2 at

  pub link_entry : (j : ℕ) → j < 512 → linked_places (next + 8 * j) ≡ some (h, s + j * block_size h)
  link_entry j lt = place_table_entry place next h s j lt

  pub link_extends : (a' k u : ℕ) → place a' ≡ some (k, u) → linked_places a' ≡ some (k, u)
  link_extends a' k u e = place_table_old place next h s a' k u page-IsFresh.2 e

  link_own :
      (h' s' : ℕ)
      → linked_places a ≡ some (suc h', s')
      → link_descriptor next % 4 ≡ 3
      → (j : ℕ) → j < 512
      → linked_places (address_field (link_descriptor next) + 8 * j)
        ≡ some (h', s' + j * block_size h')
  link_own h' s' p t j lt =
      let u = place_unique (place_table place next h s) link_at p in
      let eh : h' ≡ h = omega (arith, u.0) in
      let d : address_field (link_descriptor next) ≡ next =
        rw (link_descriptor_eq next page-IsFresh.0)
          (omega (arith, page-IsFresh.0, page-IsFresh.1)) in
      rw (d, eh, sym u.1) (place_table_entry place next h s j lt)

  pub link-IsReady : IsReady linked_places linked
  unfolding link_table link_memory
  link-IsReady = record {
    laid =
        store-IsLaid linked_places (clear_table 512 next m.memory) a (link_descriptor next)
          (clear-IsLaid place m.memory next h s q ready.laid page-IsFresh.2 start) link_own;
    fresh = place_table-IsFresh place next h s rest page-IsFresh.0 page-IsFresh.3 page-IsFresh.4;
    physical_aligned = ready.physical_aligned;
    intermediate_aligned = ready.intermediate_aligned;
    size_aligned = ready.size_aligned;
    physical_bound = ready.physical_bound;
    intermediate_bound = ready.intermediate_bound;
  }
