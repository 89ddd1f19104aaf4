-- ===== src/Vm/Dispatch.antt =====
-- The dispatch of a guest's access of src/vm.rs: which handler it reaches, and with which offset.
use mini_visor_real_device.Base.{
  ℕ, ◌+◌, ◌-◌, ◌^◌, ◌≤◌, ◌<◌, ◌≡◌, refl, ◌⊎◌, inl, inr, ap, true, false, Option, none, List, [],
  ◌∷◌, ◌++◌, Exec, done, if-elim, arith,
}
use mini_visor_real_device.Vm.{MmioEntry, contains, read_loop, write_loop}

module _ {S : Type 0} where
  -- The address lies in the region of the entry.
  unfoldable pub Covers : MmioEntry S → ℕ → Type 0
  Covers e address = (e.base_address ≤ address) × (address < e.base_address + e.length)

  -- The region ends below 2^64.
  unfoldable pub FitsAddresses : MmioEntry S → Type 0
  FitsAddresses e = e.base_address + e.length < 2 ^ 64

  unfoldable pub AllFit : List (MmioEntry S) → Type 0
  AllFit [] = Unit
  AllFit (e ∷ es) = FitsAddresses e × AllFit es

  unfoldable pub AllMiss : List (MmioEntry S) → ℕ → Type 0
  AllMiss [] address = Unit
  AllMiss (e ∷ es) address = (Covers e address → ⊥) × AllMiss es address

  -- `e` is the first entry that covers the address.
  pub record Reached (es : List (MmioEntry S)) (address : ℕ) (e : MmioEntry S) : Type 0 where
    pub before : List (MmioEntry S)
    pub after : List (MmioEntry S)
    pub split : es ≡ before ++ e ∷ after
    pub missed : AllMiss before address
    pub covers : Covers e address

  -- What both loops do: the first entry that covers the address serves it, at an offset below the
  -- entry's length; with none, the answer is Err and no device has changed.
  unfoldable pub Dispatched :
      (A : Type 0)
      → List (MmioEntry S)
      → S
      → ℕ
      → (MmioEntry S → ℕ → Exec (Option A × S))
      → Exec (Option A × S)
      → Type 0
  unfolding Covers AllMiss
  Dispatched A es s address serve r =
      (AllMiss es address × (r ≡ done (none, s)))
      ⊎ ((e : MmioEntry S) × Reached es address e
          × (address - e.base_address < e.length)
          × (r ≡ serve e (address - e.base_address)))

  contains-Covers :
      (e : MmioEntry S) (address : ℕ)
      → FitsAddresses e
      → contains e address ≡ true
      → Covers e address
  unfolding contains Covers FitsAddresses
  contains-Covers e address fits h = ground arith

  contains-false :
      (e : MmioEntry S) (address : ℕ)
      → FitsAddresses e
      → contains e address ≡ false
      → Covers e address
      → ⊥
  unfolding contains Covers FitsAddresses
  contains-false e address fits h = λ c. ground arith

  -- A miss at the head leaves the dispatch to the rest.
  skipped :
      (A : Type 0) (e : MmioEntry S) (es : List (MmioEntry S)) (s : S) (address : ℕ)
      (serve : MmioEntry S → ℕ → Exec (Option A × S)) (r : Exec (Option A × S))
      → (Covers e address → ⊥)
      → Dispatched A es s address serve r
      → Dispatched A (e ∷ es) s address serve r
  unfolding Dispatched AllMiss
  skipped A e es s address serve r miss (inl (none_of, eq)) = inl ((miss, none_of), eq)
  skipped A e es s address serve r miss (inr (d, reached, lt, eq)) = inr (
    d,
    record {
      before = e ∷ reached.before;
      after = reached.after;
      split = ap (λ l. e ∷ l) reached.split;
      missed = (miss, reached.missed);
      covers = reached.covers;
    },
    lt,
    eq,
  )

  -- A hit at the head is the answer.
  taken :
      (A : Type 0) (e : MmioEntry S) (es : List (MmioEntry S)) (s : S) (address : ℕ)
      (serve : MmioEntry S → ℕ → Exec (Option A × S))
      → Covers e address
      → Dispatched A (e ∷ es) s address serve (serve e (address - e.base_address))
  unfolding Dispatched AllMiss Covers
  taken A e es s address serve (lo, hi) = inr (
    e,
    record { before = []; after = es; split = refl; missed = tt; covers = (lo, hi) },
    omega arith,
    refl,
  )

  -- Where every entry's region ends below 2^64, a guest's read is served by the first entry whose
  -- region covers the address, at the address's offset in that region, which is below its length;
  -- where none covers it, the result is Err and the devices are unchanged.
  pub read_loop-Dispatched :
      (es : List (MmioEntry S)) (s : S) (address access_width : ℕ)
      → AllFit es
      → Dispatched ℕ es s address
          (λ e offset. e.handler.read s offset access_width)
          (read_loop es s address access_width)
  unfolding read_loop Dispatched AllMiss AllFit
  read_loop-Dispatched [] s address access_width fits = inl (tt, refl)
  read_loop-Dispatched (e ∷ es) s address access_width (fit, fits) =
      let serve = λ (e : MmioEntry S) (offset : ℕ). e.handler.read s offset access_width in
      if-elim (Dispatched ℕ (e ∷ es) s address serve) (contains e address)
        (λ h. taken ℕ e es s address serve (contains-Covers e address fit h))
        (λ h.
          skipped ℕ e es s address serve _ (contains-false e address fit h)
            (read_loop-Dispatched es s address access_width fits))

  -- Where every entry's region ends below 2^64, a guest's write is served by the first entry whose
  -- region covers the address, at the address's offset in that region, which is below its length;
  -- where none covers it, the result is Err and the devices are unchanged.
  pub write_loop-Dispatched :
      (es : List (MmioEntry S)) (s : S) (address access_width value : ℕ)
      → AllFit es
      → Dispatched
          (Unit {0})
          es
          s
          address
          (λ e offset. e.handler.write s offset access_width value)
          (write_loop es s address access_width value)
  unfolding write_loop Dispatched AllMiss AllFit
  write_loop-Dispatched [] s address access_width value fits = inl (tt, refl)
  write_loop-Dispatched (e ∷ es) s address access_width value (fit, fits) =
      let serve = λ (e : MmioEntry S) (offset : ℕ). e.handler.write s offset access_width value in
      if-elim (Dispatched (Unit {0}) (e ∷ es) s address serve) (contains e address)
        (λ h. taken (Unit {0}) e es s address serve (contains-Covers e address fit h))
        (λ h.
          skipped (Unit {0}) e es s address serve _ (contains-false e address fit h)
            (write_loop-Dispatched es s address access_width value fits))
