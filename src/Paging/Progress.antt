-- ===== src/Paging/Progress.antt =====
-- What the mapping of a part of a range does: the range moves on, the tables stay laid out, and the
-- walk gives the new addresses on the part that was mapped and the old ones elsewhere.
use mini_visor_real_device.Base.{
  ℕ, ◌+◌, ◌-◌, ◌*◌, ◌%◌, ◌^◌, ◌<◌, ◌≤◌, ◌≡◌, arith, none, some, inl, inr, ◌⊎◌, List, [], ◌∷◌, ◌≢◌,
  ◌∙◌,
}
use mini_visor_real_device.Paging.{block_size, Mapping}
use mini_visor_real_device.Paging.Walk.{IsLaid, Places, translate, translate-frame}

abbrev pub IsNotIn : ℕ → List ℕ → Type 0
IsNotIn a [] = Unit
IsNotIn a (b ∷ bs) = (a ≢ b) × IsNotIn a bs

-- Pages that may become tables: they are aligned, distinct, and hold no descriptor in use.
abbrev pub IsFresh : Places → List ℕ → Type 0
IsFresh place [] = Unit
IsFresh place (page ∷ pages) =
    (page % 4096 ≡ 0)
    × (page < 2 ^ 52)
    × ((j : ℕ) → j < 512 → place (page + 8 * j) ≡ none)
    × IsNotIn page pages
    × IsFresh place pages

pub record IsReady (place : Places) (m : Mapping) : Type 0 where
  pub laid : IsLaid place m.memory
  pub fresh : IsFresh place m.free_pages
  pub physical_aligned : m.physical_address % 4096 ≡ 0
  pub intermediate_aligned : m.intermediate_physical_address % 4096 ≡ 0
  pub size_aligned : m.remaining_size % 4096 ≡ 0
  pub physical_bound : m.physical_address + m.remaining_size ≤ 2 ^ 48
  pub intermediate_bound : m.intermediate_physical_address + m.remaining_size ≤ 2 ^ 48

abbrev pub IsApart : (h s : ℕ) → Mapping → (bytes : ℕ) → Type 0
IsApart h s m bytes =
    (s + block_size h ≤ m.intermediate_physical_address)
    ⊎ (m.intermediate_physical_address + bytes ≤ s)

-- `bytes` were mapped by descriptors of at most a height: what the state and the memory look like afterwards.
pub record IsProgress (top : ℕ) (place : Places) (m m' : Mapping) (bytes : ℕ) : Type 0 where
  pub places : Places
  pub extends : (a h s : ℕ) → place a ≡ some (h, s) → places a ≡ some (h, s)
  pub ready : IsReady places m'
  pub physical : m'.physical_address ≡ m.physical_address + bytes
  pub intermediate : m'.intermediate_physical_address ≡ m.intermediate_physical_address + bytes
  pub size : m'.remaining_size + bytes ≡ m.remaining_size
  pub agree : (a h s : ℕ) → place a ≡ some (h, s) → IsApart h s m bytes → m'.memory a ≡ m.memory a
  pub higher : (a h s : ℕ) → place a ≡ some (h, s) → top < h → m'.memory a ≡ m.memory a

-- What a descriptor's walk gives after `bytes` were mapped.
pub record IsTranslated (h a s : ℕ) (m m' : Mapping) (bytes : ℕ) : Type 0 where
  pub inside :
      (x : ℕ)
      → s ≤ x
      → x < s + block_size h
      → m.intermediate_physical_address ≤ x
      → x < m.intermediate_physical_address + bytes
      → translate h a m'.memory x
        ≡ some (m.physical_address + (x - m.intermediate_physical_address))
  pub outside :
      (x : ℕ)
      → s ≤ x
      → x < s + block_size h
      → (x < m.intermediate_physical_address) ⊎ (m.intermediate_physical_address + bytes ≤ x)
      → translate h a m'.memory x ≡ translate h a m.memory x

-- Nothing of the range is mapped yet below a descriptor.
abbrev pub IsUnmapped : (h a s : ℕ) → Mapping → Type 0
IsUnmapped h a s m =
    (x : ℕ)
    → s ≤ x
    → x < s + block_size h
    → m.intermediate_physical_address ≤ x
    → x < m.intermediate_physical_address + m.remaining_size
    → translate h a m.memory x ≡ none

-- A descriptor apart from what was mapped translates as before.
pub progress-frame :
    {top : ℕ} {place : Places} {m m' : Mapping} {bytes : ℕ}
    → IsLaid place m.memory
    → IsProgress top place m m' bytes
    → (h a s x : ℕ) → place a ≡ some (h, s)
    → s ≤ x
    → x < s + block_size h
    → IsApart h s m bytes
    → translate h a m'.memory x ≡ translate h a m.memory x
progress-frame {top} {place} {m} {m'} {bytes} w pr h a s x p lo hi apart =
    translate-frame place m.memory m'.memory h a s x w p lo hi
      (λ a' h' s' p' l r. pr.agree a' h' s' p' (apart_inner h' s' apart l r))
  where
    apart_inner :
        (h' s' : ℕ)
        → IsApart h s m bytes
        → s ≤ s'
        → s' + block_size h' ≤ s + block_size h
        → IsApart h' s' m bytes
    apart_inner h' s' (inl e) l r = inl (omega arith)
    apart_inner h' s' (inr e) l r = inr (omega arith)

pub IsProgress-trans :
    {top : ℕ} {place : Places} {m m1 m2 : Mapping} {bytes bytes' : ℕ}
    → (pr : IsProgress top place m m1 bytes) → IsProgress top pr.places m1 m2 bytes'
    → IsProgress top place m m2 (bytes + bytes')
IsProgress-trans {top} {place} {m} {m1} {m2} {bytes} {bytes'} p q = record {
  places = q.places;
  extends = λ a h s e. q.extends a h s (p.extends a h s e);
  ready = q.ready;
  physical = omega (arith, p.physical, q.physical);
  intermediate = omega (arith, p.intermediate, q.intermediate);
  size = omega (arith, p.size, q.size);
  agree = λ a h s e o. both a h s e o;
  higher = λ a h s e l. q.higher a h s (p.extends a h s e) l ∙ p.higher a h s e l;
}
  where
    both :
        (a h s : ℕ)
        → place a ≡ some (h, s)
        → IsApart h s m (bytes + bytes')
        → m2.memory a ≡ m.memory a
    both a h s e (inl o) =
        q.agree a h s (p.extends a h s e) (inl (omega (arith, p.intermediate)))
        ∙ p.agree a h s e (inl o)
    both a h s e (inr o) =
        q.agree a h s (p.extends a h s e) (inr (omega (arith, p.intermediate)))
        ∙ p.agree a h s e (inr (omega arith))
