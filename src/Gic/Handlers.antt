-- ===== src/Gic/Handlers.antt =====
-- The two interrupts that the hypervisor takes for its virtual GIC: maintenance_interrupt_handler of
-- src/vgic.rs, when a guest has finished an interrupt, and inject_interrupt_handler of
-- src/mmio/gicv3.rs, when another CPU has queued some. The distributor and the redistributor are
-- those of the current guest.
pub mod Retire
use mini_visor_real_device.Base.{
  ℕ, zero, suc, ◌+◌, ◌-◌, ◌^◌, ◌/◌, min, bit_and, Bool, true, false, List, [], ◌∷◌, ◌!=◌, leb,
  if◌then◌else◌, Exec, done, ◌>>=◌, ◌<<<◌, ◌>>>◌,
}
use mini_visor_real_device.Cpu.{Cpu}
use mini_visor_real_device.Vgic.{supported_lrn, add_virtual_interrupt, ich_lrn_el2_vintid}
use mini_visor_real_device.Gic.Distributor.{Distributor}
use mini_visor_real_device.Gic.Distributor
use mini_visor_real_device.Gic.Redistributor.{Redistributor}
use mini_visor_real_device.Gic.Redistributor

-- A `while let Some(entry) = queue.pop_front()` loop.
unfoldable pub drain : List ℕ → Cpu → Cpu
drain [] cpu = cpu
drain (entry ∷ entries) cpu = drain entries (add_virtual_interrupt entry cpu)

unfoldable pub inject_interrupt_handler :
    Distributor → Redistributor → Cpu → Distributor × Redistributor × Cpu
unfolding drain
inject_interrupt_handler d r cpu =
    let cpu' = drain d.to_inject_interrupt cpu in
    (
      record d { to_inject_interrupt = [] },
      record r { to_inject_interrupt = [] },
      drain r.to_inject_interrupt cpu',
    )

-- The interrupt of a list register is no longer pending nor active.
unfoldable pub retire : Distributor → Redistributor → ℕ → Exec (Distributor × Redistributor)
retire d r int_id =
    if leb 32 int_id
    then (do
      d' ← Distributor.change_pending_status d int_id false
      d'' ← Distributor.change_active_status d' int_id false
      done (d'', r))
    else (let r' = Redistributor.change_pending_status r int_id false in
        done (d, Redistributor.change_active_status r' int_id false))

-- The loop over the first `n` list registers, the bits of `eoi_bits` shifted out one by one.
unfoldable pub maintenance_loop :
    (n eoi_bits : ℕ)
    → List ℕ
    → Distributor
    → Redistributor
    → Exec (List ℕ × Distributor × Redistributor)
unfolding retire
maintenance_loop zero eoi_bits lrs d r = done (lrs, d, r)
maintenance_loop (suc n) eoi_bits [] d r = done ([], d, r)
maintenance_loop (suc n) eoi_bits (entry ∷ lrs) d r =
    if bit_and eoi_bits 1 != 0
    then (do
      (d', r') ← retire d r (bit_and entry ich_lrn_el2_vintid)
      (lrs', d'', r'') ← maintenance_loop n (eoi_bits >>> 1) lrs d' r'
      done (0 ∷ lrs', d'', r''))
    else (do
      (lrs', d', r') ← maintenance_loop n (eoi_bits >>> 1) lrs d r
      done (entry ∷ lrs', d', r'))

unfoldable pub maintenance_interrupt_handler :
    Distributor → Redistributor → Cpu → Exec (Distributor × Redistributor × Cpu)
unfolding maintenance_loop supported_lrn
maintenance_interrupt_handler d r cpu = do
  (lrs, d', r') ← maintenance_loop (supported_lrn cpu) cpu.ich_eisr cpu.ich_lr d r
  done (d', r', record cpu { ich_lr = lrs })
