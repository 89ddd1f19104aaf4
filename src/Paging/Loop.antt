-- ===== src/Paging/Loop.antt =====
-- src/paging.rs: what one round of the loop over the descriptors of a table leaves to the others.
use mini_visor_real_device.Base.{
  ℕ, suc, ◌+◌, ◌-◌, ◌*◌, ◌<◌, ◌≤◌, ◌≡◌, refl, ap, arith, some, inl, inr, ◌⊎◌, ◌∙◌, ◌≢◌, ◌==◌, min,
  Bool-cases,
}
use mini_visor_real_device.Paging.{block_size, Mapping, Mapped, ok, err, and_then, unless_done}
use mini_visor_real_device.Paging.Walk.{Places, translate}
use mini_visor_real_device.Paging.Progress.{
  IsReady, IsProgress, IsTranslated, IsUnmapped, progress-frame,
}

pub and_then_ok :
    (rest : Mapping → Mapped) (r : Mapped) {m' : Mapping}
    → and_then rest r ≡ ok m'
    → (m1 : Mapping) × (r ≡ ok m1) × (rest m1 ≡ ok m')
unfolding and_then
and_then_ok rest (ok m1) e = (m1, refl, e)
and_then_ok rest (err m1) e = cc

-- Equal results hold equal states.
pub Mapped_ok : {m m' : Mapping} → ok m ≡ ok m' → m ≡ m'
Mapped_ok {m} e = ap (λ r. elim r [ ok x ↦ x | err x ↦ m ]) e

pub unless_done_ok :
    (rest : Mapping → Mapped) (m : Mapping) {m' : Mapping}
    → unless_done rest m ≡ ok m'
    → ((m.remaining_size ≡ 0) × (m ≡ m')) ⊎ ((m.remaining_size ≢ 0) × (rest m ≡ ok m'))
unfolding unless_done
unless_done_ok rest m e = elim (Bool-cases (m.remaining_size == 0)) [
  | inl t ↦ inl (ground arith, Mapped_ok (rw (t, unless_done) at e))
  | inr f ↦ inr (ground arith, rw (f, unless_done) at e)
]

-- What is mapped of a range that starts below `end`.
abbrev pub part : Mapping → (end : ℕ) → ℕ
part m end = min m.remaining_size (end - m.intermediate_physical_address)

-- A body maps what it can below its descriptor.
abbrev pub MapsEntry : (h : ℕ) → (ℕ → Mapping → Mapped) → Type 0
MapsEntry h body =
    (place : Places) (m m' : Mapping) (a s : ℕ)
    → IsReady place m
    → place a ≡ some (h, s)
    → s ≤ m.intermediate_physical_address
    → m.intermediate_physical_address < s + block_size h
    → 0 < m.remaining_size
    → IsUnmapped h a s m
    → body a m ≡ ok m'
    → IsProgress h place m m' (part m (s + block_size h))
      × IsTranslated h a s m m' (part m (s + block_size h))

-- The descriptors of a table from an address on.
abbrev pub AreEntries : (place : Places) → (h count a s : ℕ) → Type 0
AreEntries place h count a s =
    (i : ℕ) → i < count → place (a + 8 * i) ≡ some (h, s + i * block_size h)

abbrev pub AreUnmapped : (h count a s : ℕ) → Mapping → Type 0
AreUnmapped h count a s m = (i : ℕ) → i < count → IsUnmapped h (a + 8 * i) (s + i * block_size h) m

abbrev pub AreTranslated : (h count a s : ℕ) → (m m' : Mapping) → (bytes : ℕ) → Type 0
AreTranslated h count a s m m' bytes =
    (i : ℕ) → i < count → IsTranslated h (a + 8 * i) (s + i * block_size h) m m' bytes

pub next_entry :
    (place : Places) (h n a s : ℕ)
    → AreEntries place h (suc n) a s
    → AreEntries place h n (a + 8) (s + block_size h)
next_entry place h n a s es i lt =
    let e : a + 8 * suc i ≡ a + 8 + 8 * i = omega arith in
    let f : s + suc i * block_size h ≡ s + block_size h + i * block_size h = omega arith in
    rw (e, f) at (es (suc i) (omega arith))

-- Where the first descriptor took everything, the others are as before.
pub IsTranslated-apart :
    {top : ℕ} {place : Places} {m m' : Mapping} {bytes : ℕ}
    → IsReady place m
    → IsProgress top place m m' bytes
    → (h a s : ℕ) → place a ≡ some (h, s)
    → m.intermediate_physical_address + bytes ≤ s
    → IsTranslated h a s m m' bytes
IsTranslated-apart ready pr h a s p far = record {
  inside = λ x l r l' r'. ground arith;
  outside = λ x l r o. progress-frame ready.laid pr h a s x p l r (inr far);
}

-- What the rest of the loop maps is added to what the first descriptor took, which ends there.
pub IsTranslated-first :
    {top : ℕ} {place : Places} {m m1 m2 : Mapping} {bytes bytes' : ℕ}
    → (pr : IsProgress top place m m1 bytes) → IsProgress top pr.places m1 m2 bytes'
    → (h a s : ℕ) → place a ≡ some (h, s)
    → s + block_size h ≡ m.intermediate_physical_address + bytes
    → IsTranslated h a s m m1 bytes
    → IsTranslated h a s m m2 (bytes + bytes')
IsTranslated-first {top} {place} {m} {m1} {m2} {bytes} {bytes'} p q h a s at end t = record {
  inside = λ x l r l' r'. same x l r ∙ t.inside x l r l' (omega arith);
  outside = λ x l r o. same x l r ∙ t.outside x l r (inl (before x r o));
}
  where
    same :
        (x : ℕ)
        → s ≤ x
        → x < s + block_size h
        → translate h a m2.memory x ≡ translate h a m1.memory x
    same x l r =
        progress-frame p.ready.laid q h a s x (p.extends a h s at) l r
          (inl (omega (arith, p.intermediate)))

    before :
        (x : ℕ)
        → x < s + block_size h
        → (x < m.intermediate_physical_address)
          ⊎ (m.intermediate_physical_address + (bytes + bytes') ≤ x)
        → x < m.intermediate_physical_address
    before x r (inl o) = o
    before x r (inr o) = omega arith

-- A later descriptor is untouched by the first part.
pub IsTranslated-later :
    {top : ℕ} {place : Places} {m m1 m2 : Mapping} {bytes bytes' : ℕ}
    → IsReady place m
    → IsProgress top place m m1 bytes
    → (h a s : ℕ) → place a ≡ some (h, s)
    → m.intermediate_physical_address + bytes ≤ s
    → IsTranslated h a s m1 m2 bytes'
    → IsTranslated h a s m m2 (bytes + bytes')
IsTranslated-later {top} {place} {m} {m1} {m2} {bytes} {bytes'} ready p h a s at far t = record {
  inside = λ x l r l' r'.
      t.inside x l r (omega (arith, p.intermediate)) (omega (arith, p.intermediate))
      ∙ ap some (omega (arith, p.intermediate, p.physical));
  outside =
      λ x l r o. t.outside x l r (shift x o) ∙ progress-frame ready.laid p h a s x at l r (inr far);
}
  where
    shift :
        (x : ℕ)
        → (x < m.intermediate_physical_address)
          ⊎ (m.intermediate_physical_address + (bytes + bytes') ≤ x)
        → (x < m1.intermediate_physical_address) ⊎ (m1.intermediate_physical_address + bytes' ≤ x)
    shift x (inl o) = inl (omega (arith, p.intermediate))
    shift x (inr o) = inr (omega (arith, p.intermediate))

pub IsUnmapped-later :
    {top : ℕ} {place : Places} {m m1 : Mapping} {bytes : ℕ}
    → IsReady place m
    → IsProgress top place m m1 bytes
    → (h a s : ℕ) → place a ≡ some (h, s)
    → m.intermediate_physical_address + bytes ≤ s
    → IsUnmapped h a s m
    → IsUnmapped h a s m1
IsUnmapped-later {top} {place} {m} {m1} ready p h a s at far u x l r l' r' =
    progress-frame ready.laid p h a s x at l r (inr far)
    ∙ u x l r (omega (arith, p.intermediate)) (omega (arith, p.intermediate, p.size))
