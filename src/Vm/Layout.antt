-- ===== src/Vm/Layout.antt =====
-- The regions of the handlers of src/vm.rs do not meet, so every address of a region reaches its
-- own device, wherever the entry stands in the list.
use mini_visor_real_device.Base.{
  ℕ, zero, suc, ◌+◌, ◌-◌, ◌≤◌, ◌<◌, ◌≡◌, sym, subst, ap, ◌⊎◌, inl, inr, true, false, some, List, [],
  ◌∷◌, get_elem?, arith, if-skip, if-take,
}
use mini_visor_real_device.Vm.{
  MmioHandler, MmioEntry, contains, read_loop, write_loop, handle_mmio_read, handle_mmio_write,
}
use mini_visor_real_device.Vm.Dispatch.{FitsAddresses, AllFit}
use mini_visor_real_device.Vm.Guest.{Devices, guest, guest_handlers}

module _ {S : Type 0} where
  unfoldable pub Apart : MmioEntry S → MmioEntry S → Type 0
  Apart e e' =
      (e.base_address + e.length ≤ e'.base_address) ⊎ (e'.base_address + e'.length ≤ e.base_address)

  unfoldable pub ApartAll : MmioEntry S → List (MmioEntry S) → Type 0
  ApartAll e [] = Unit
  ApartAll e (e' ∷ es) = Apart e e' × ApartAll e es

  unfoldable pub Disjoint : List (MmioEntry S) → Type 0
  unfolding ApartAll Apart
  Disjoint [] = Unit
  Disjoint (e ∷ es) = ApartAll e es × Disjoint es

  -- An access to the offset of the entry is served by the entry's handler, at that offset.
  unfoldable pub Served : List (MmioEntry S) → MmioEntry S → S → ℕ → Type 0
  Served es e s offset =
      ((access_width : ℕ)
        → read_loop es s (e.base_address + offset) access_width
          ≡ e.handler.read s offset access_width)
      × ((access_width value : ℕ)
          → write_loop es s (e.base_address + offset) access_width value
            ≡ e.handler.write s offset access_width value)

  ApartAll-get_elem? :
      (e : MmioEntry S) (es : List (MmioEntry S)) (i : ℕ) (e' : MmioEntry S)
      → ApartAll e es
      → get_elem? es i ≡ some e'
      → Apart e e'
  unfolding ApartAll
  ApartAll-get_elem? e [] i e' apart eq = ground arith
  ApartAll-get_elem? e (x ∷ es) zero e' (apart, _) eq =
      let same : x ≡ e' = cc in subst (λ y. Apart e y) same apart
  ApartAll-get_elem? e (x ∷ es) (suc i) e' (_, apart) eq = ApartAll-get_elem? e es i e' apart eq

  contains_own :
      (e : MmioEntry S) (offset : ℕ)
      → FitsAddresses e
      → offset < e.length
      → contains e (e.base_address + offset) ≡ true
  unfolding contains FitsAddresses
  contains_own e offset fits lt = ground arith

  contains_other :
      (e e' : MmioEntry S) (offset : ℕ)
      → Apart e e'
      → FitsAddresses e
      → offset < e'.length
      → contains e (e'.base_address + offset) ≡ false
  unfolding contains Apart FitsAddresses
  contains_other e e' offset apart fits lt = ground arith

  Served-head :
      (e : MmioEntry S) (es : List (MmioEntry S)) (s : S) (offset : ℕ)
      → FitsAddresses e
      → offset < e.length
      → Served (e ∷ es) e s offset
  unfolding Served read_loop write_loop
  Served-head e es s offset fits lt =
      let hit = contains_own e offset fits lt in
      let same : e.base_address + offset - e.base_address ≡ offset = omega arith in
      (
        (λ w. if-take _ _ hit (ap (λ o. e.handler.read s o w) same)),
        (λ w v. if-take _ _ hit (ap (λ o. e.handler.write s o w v) same)),
      )

  Disjoint-Served :
      (es : List (MmioEntry S)) (i : ℕ) (e : MmioEntry S) (s : S) (offset : ℕ)
      → Disjoint es
      → AllFit es
      → get_elem? es i ≡ some e
      → offset < e.length
      → Served es e s offset
  unfolding Disjoint Served read_loop write_loop AllFit
  Disjoint-Served [] i e s offset apart fits eq lt = ground arith
  Disjoint-Served (x ∷ es) zero e s offset apart (fit, fits) eq lt =
      let same : x ≡ e = cc in
      subst (λ y. Served (x ∷ es) y s offset) same
        (Served-head x es s offset fit (subst (λ y. offset < y.length) (sym same) lt))
  Disjoint-Served (x ∷ es) (suc i) e s offset (apart, rest) (fit, fits) eq lt =
      let skip = contains_other x e offset (ApartAll-get_elem? x es i e apart eq) fit lt in
      let (reads, writes) = Disjoint-Served es i e s offset rest fits eq lt in
      ((λ w. if-skip _ _ skip (reads w)), (λ w v. if-skip _ _ skip (writes w v)))

module _ {D : Type 0} where
  guest_handlers-Disjoint :
      (disk_handler : MmioHandler (Devices D)) → Disjoint (guest_handlers disk_handler)
  unfolding guest_handlers Disjoint ApartAll Apart
  guest_handlers-Disjoint disk_handler = (
    (inl (omega arith), (inr (omega arith), (inr (omega arith), tt))),
    ((inr (omega arith), (inr (omega arith), tt)), ((inl (omega arith), tt), (tt, tt))),
  )

  pub guest_handlers-AllFit :
      (disk_handler : MmioHandler (Devices D)) → AllFit (guest_handlers disk_handler)
  unfolding guest_handlers AllFit FitsAddresses
  guest_handlers-AllFit disk_handler =
      (omega arith, (omega arith, (omega arith, (omega arith, tt))))

  -- In the guest that create_vm builds, whatever serves its disk: a read and a write of any offset
  -- in the region of any of its four devices are served by that device, at that offset.
  pub guest-Served :
      (disk_handler : MmioHandler (Devices D)) (vm_id ram_physical_address : ℕ) (s : Devices D)
      (i offset : ℕ) (e : MmioEntry (Devices D))
      → get_elem? (guest_handlers disk_handler) i ≡ some e
      → offset < e.length
      → ((access_width : ℕ)
          → handle_mmio_read
              (guest disk_handler vm_id ram_physical_address)
              s
              (e.base_address + offset)
              access_width
            ≡ e.handler.read s offset access_width)
        × ((access_width value : ℕ)
            → handle_mmio_write
                (guest disk_handler vm_id ram_physical_address)
                s
                (e.base_address + offset)
                access_width
                value
              ≡ e.handler.write s offset access_width value)
  unfolding guest Served
  guest-Served disk_handler vm_id ram_physical_address s i offset e eq lt =
      Disjoint-Served (guest_handlers disk_handler) i e s offset
        (guest_handlers-Disjoint disk_handler) (guest_handlers-AllFit disk_handler) eq lt
