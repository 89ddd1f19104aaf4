-- ===== src/Paging/Rounds.antt =====
-- src/paging.rs: the rounds of the loop over the descriptors of a table, for a body that maps one.
use mini_visor_real_device.Base.{
  ℕ, zero, suc, ◌+◌, ◌*◌, ◌<◌, ◌≤◌, ◌≡◌, sym, subst, arith, some, inl, inr, ◌≢◌,
}
use mini_visor_real_device.Paging.{block_size, Mapping, Mapped, ok, unless_done, for_descriptors}
use mini_visor_real_device.Paging.Walk.{Places, block_size_pos}
use mini_visor_real_device.Paging.Progress.{
  IsReady, IsProgress, IsTranslated, IsUnmapped, IsProgress-trans,
}
use mini_visor_real_device.Paging.Loop.{
  and_then_ok, Mapped_ok, unless_done_ok, part, MapsEntry, AreEntries, AreUnmapped, AreTranslated,
  next_entry, IsTranslated-apart, IsTranslated-first, IsTranslated-later, IsUnmapped-later,
}

AreTranslated-cons :
    (h n a s bytes : ℕ) (m m' : Mapping)
    → IsTranslated h a s m m' bytes
    → AreTranslated h n (a + 8) (s + block_size h) m m' bytes
    → AreTranslated h (suc n) a s m m' bytes
AreTranslated-cons h n a s bytes m m' t ts zero lt =
    let e : a + 8 * 0 ≡ a = omega arith in
    let f : s + 0 * block_size h ≡ s = omega arith in rw (e, f) t
AreTranslated-cons h n a s bytes m m' t ts (suc i) lt =
    let e : a + 8 * suc i ≡ a + 8 + 8 * i = omega arith in
    let f : s + suc i * block_size h ≡ s + block_size h + i * block_size h = omega arith in
    rw (e, f) (ts i (omega arith))

first_entry :
    (place : Places) (h n a s : ℕ) → AreEntries place h (suc n) a s → place a ≡ some (h, s)
first_entry place h n a s es =
    let e : a + 8 * 0 ≡ a = omega arith in
    let f : s + 0 * block_size h ≡ s = omega arith in rw (e, f) at (es 0 (omega arith))

first-IsUnmapped : (h n a s : ℕ) (m : Mapping) → AreUnmapped h (suc n) a s m → IsUnmapped h a s m
first-IsUnmapped h n a s m un =
    let e : a + 8 * 0 ≡ a = omega arith in
    let f : s + 0 * block_size h ≡ s = omega arith in rw (e, f) at (un 0 (omega arith))

next-AreUnmapped :
    (h n a s : ℕ) (m : Mapping)
    → AreUnmapped h (suc n) a s m
    → AreUnmapped h n (a + 8) (s + block_size h) m
next-AreUnmapped h n a s m un i lt =
    let e : a + 8 * suc i ≡ a + 8 + 8 * i = omega arith in
    let f : s + suc i * block_size h ≡ s + block_size h + i * block_size h = omega arith in
    rw (e, f) at (un (suc i) (omega arith))

-- The outcome of the loop.
abbrev pub IsLoopDone : Places → (h count a s : ℕ) → (m m' : Mapping) → (bytes : ℕ) → Type 0
IsLoopDone place h count a s m m' bytes =
    IsProgress h place m m' bytes × AreTranslated h count a s m m' bytes

loop_stop :
    (place : Places) (h n a s bytes : ℕ) (m m1 : Mapping)
    → IsReady place m
    → AreEntries place h (suc n) a s
    → m.intermediate_physical_address + bytes ≤ s + block_size h
    → IsProgress h place m m1 bytes
    → IsTranslated h a s m m1 bytes
    → IsLoopDone place h (suc n) a s m m1 bytes
loop_stop place h n a s bytes m m1 ready es fits p t = (
  p,
  AreTranslated-cons h n a s bytes m m1 t (λ i lt.
      IsTranslated-apart ready p h (a + 8 + 8 * i) (s + block_size h + i * block_size h)
        (next_entry place h n a s es i lt) (omega arith)),
)

loop_next :
    (place : Places) (h n a s bytes bytes' : ℕ) (m m1 m2 : Mapping)
    → IsReady place m
    → AreEntries place h (suc n) a s
    → m.intermediate_physical_address + bytes ≡ s + block_size h
    → (p : IsProgress h place m m1 bytes) → IsTranslated h a s m m1 bytes
    → IsLoopDone p.places h n (a + 8) (s + block_size h) m1 m2 bytes'
    → place a ≡ some (h, s)
    → IsLoopDone place h (suc n) a s m m2 (bytes + bytes')
loop_next place h n a s bytes bytes' m m1 m2 ready es end p t (q, ts) at = (
  IsProgress-trans p q,
  AreTranslated-cons h n a s (bytes + bytes') m m2 (IsTranslated-first p q h a s at (sym end) t)
      (λ i lt.
        IsTranslated-later ready p h (a + 8 + 8 * i) (s + block_size h + i * block_size h)
          (next_entry place h n a s es i lt) (omega arith) (ts i lt)),
)

-- The loop ends after the first descriptor, with nothing left or no further descriptor.
loop_stop_at :
    (place : Places) (h n a s bytes : ℕ) (m m1 m' : Mapping)
    → IsReady place m
    → AreEntries place h (suc n) a s
    → s ≤ m.intermediate_physical_address
    → m.intermediate_physical_address < s + block_size h
    → IsProgress h place m m1 (part m (s + block_size h))
    → IsTranslated h a s m m1 (part m (s + block_size h))
    → part m (s + block_size h) ≡ bytes
    → m1 ≡ m'
    → IsLoopDone place h (suc n) a s m m' bytes
loop_stop_at place h n a s bytes m m1 m' ready es lo hi p t e e' =
    subst (λ x. IsLoopDone place h (suc n) a s m x bytes) e'
      (subst (λ b. IsLoopDone place h (suc n) a s m m1 b) e
        (loop_stop place h n a s (part m (s + block_size h)) m m1 ready es (omega arith) p t))

-- One round of the loop, for any account of the rounds that follow it.
loop_round :
    (h : ℕ) (body : ℕ → Mapping → Mapped)
    → MapsEntry h body
    → (n : ℕ) (place : Places) (m m' : Mapping) (a s : ℕ) → IsReady place m
    → AreEntries place h (suc n) a s
    → s ≤ m.intermediate_physical_address
    → m.intermediate_physical_address < s + block_size h
    → 0 < m.remaining_size
    → AreUnmapped h (suc n) a s m
    → for_descriptors body (suc n) a m ≡ ok m'
    → ((m1 : Mapping)
        → IsProgress h place m m1 (part m (s + block_size h))
        → IsTranslated h a s m m1 (part m (s + block_size h))
        → m1.remaining_size ≢ 0
        → for_descriptors body n (a + 8) m1 ≡ ok m'
        → IsLoopDone place h (suc n) a s m m' (part m (s + suc n * block_size h)))
    → IsLoopDone place h (suc n) a s m m' (part m (s + suc n * block_size h))
unfolding for_descriptors
loop_round h body maps n place m m' a s ready es lo hi pos un e rest =
    let (m1, e1, e2) = and_then_ok (unless_done (for_descriptors body n (a + 8))) (body a m) e in
    let at = first_entry place h n a s es in
    let (p, t) = maps place m m1 a s ready at lo hi pos (first-IsUnmapped h n a s m un) e1 in
    elim (unless_done_ok (for_descriptors body n (a + 8)) m1 e2) [
      | inl (z, eq) ↦
          loop_stop_at place h n a s (part m (s + suc n * block_size h)) m m1 m' ready es lo hi p t
            (omega (arith, p.size)) eq
      | inr (nz, eq) ↦ rest m1 p t nz eq
    ]

-- Enough descriptors map the whole part of the range that lies in the table.
pub for_descriptors_lem :
    (h : ℕ) (body : ℕ → Mapping → Mapped)
    → MapsEntry h body
    → (n : ℕ) (place : Places) (m m' : Mapping) (a s : ℕ) → IsReady place m
    → AreEntries place h (suc n) a s
    → s ≤ m.intermediate_physical_address
    → m.intermediate_physical_address < s + block_size h
    → 0 < m.remaining_size
    → AreUnmapped h (suc n) a s m
    → for_descriptors body (suc n) a m ≡ ok m'
    → IsLoopDone place h (suc n) a s m m' (part m (s + suc n * block_size h))
unfolding for_descriptors
for_descriptors_lem h body maps zero place m m' a s ready es lo hi pos un e =
    loop_round h body maps 0 place m m' a s ready es lo hi pos un e (λ m1 p t nz eq.
      loop_stop_at place h 0 a s (part m (s + 1 * block_size h)) m m1 m' ready es lo hi p t
        (omega arith) (Mapped_ok eq))
for_descriptors_lem h body maps (suc k) place m m' a s ready es lo hi pos un e =
    loop_round h body maps (suc k) place m m' a s ready es lo hi pos un e (λ m1 p t nz eq.
      let b = block_size h in
      let at = first_entry place h (suc k) a s es in
      let end : m.intermediate_physical_address + part m (s + b) ≡ s + b = omega (arith, p.size) in
      let ih : IsLoopDone p.places h (suc k) (a + 8) (s + b) m1 m' (part m1 (s + b + suc k * b)) =
        for_descriptors_lem h body maps k p.places m1 m' (a + 8) (s + b) p.ready
          (λ i lt.
            p.extends (a + 8 + 8 * i) h (s + b + i * b) (next_entry place h (suc k) a s es i lt))
          (omega (arith, p.intermediate)) (omega (arith, p.intermediate, block_size_pos h))
          (omega arith)
          (λ i lt.
            IsUnmapped-later ready p h (a + 8 + 8 * i) (s + b + i * b)
              (next_entry place h (suc k) a s es i lt) (omega arith)
              (next-AreUnmapped h (suc k) a s m un i lt))
          eq in
      let total : part m (s + b) + part m1 (s + b + suc k * b) ≡ part m (s + suc (suc k) * b) =
        omega (arith, p.size, p.intermediate) in
      subst (λ bytes. IsLoopDone place h (suc (suc k)) a s m m' bytes) total
        (loop_next place h (suc k) a s (part m (s + b)) (part m1 (s + b + suc k * b)) m m1 m' ready
          es end p t ih at))
