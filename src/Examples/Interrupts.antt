-- ===== src/Examples/Interrupts.antt =====
-- Interrupts raised on a distributor and a redistributor, and the list registers.
use mini_visor_real_device.Base.{
  ◌+◌, ◌^◌, ◌≡◌, ◌≢◌, ◌⊎◌, refl, arith, [], ◌∷◌, some, none, done, panic, true, false, bit_and,
  test_bit-div,
}
use mini_visor_real_device.Vgic.{create_list_register_entry, add_virtual_interrupt, supported_lrn}
use mini_visor_real_device.Vgic.Entry.{FitsEntry, Fields, create_list_register_entry-Fields}
use mini_visor_real_device.Vgic.Inject.{IsFull, Landed, IsPending, add_virtual_interrupt-Landed}
use mini_visor_real_device.Gic.Common.{affinity}
use mini_visor_real_device.Gic.Distributor.{
  new, get_enable, get_router, get_group_modifier, trigger_interrupt,
}
use mini_visor_real_device.Gic.Distributor.Trigger.{Triggered, trigger_interrupt-Triggered}
use mini_visor_real_device.Gic.Distributor.Inject.{Accepts, Injected, trigger_interrupt-Injected}
use mini_visor_real_device.Gic.Distributor.Router.{trigger_interrupt-special}
use mini_visor_real_device.Gic.Redistributor as RedistributorModule
use mini_visor_real_device.Gic.Redistributor.Trigger.{Runs, trigger_interrupt-Runs}
use mini_visor_real_device.Gic.Handlers.Retire.{Retired, AllIds, maintenance_loop-Retired}
use mini_visor_real_device.Examples.Data.{
  cpu0, all_enabled, all_enabled-IsValid, all_enabled-AllRoutable, redistributor0,
  redistributor0-IsValid, redistributor0-IsRoutable,
}

trigger_interrupt-Triggered_example : Triggered all_enabled cpu0 33 none
trigger_interrupt-Triggered_example =
    trigger_interrupt-Triggered all_enabled cpu0 33 none all_enabled-IsValid (omega arith)
      (all_enabled-AllRoutable 33 (omega arith))

new-disabled : get_enable new 33 ≡ done false
unfolding new get_enable
new-disabled = refl

all_enabled-Accepts : Accepts all_enabled cpu0 33
unfolding new get_enable get_router get_group_modifier affinity
all_enabled-Accepts = record {
  on = λ e. omega arith;
  are = λ e. omega arith;
  enabled = refl;
  normal = refl;
  router = 0;
  routed = refl;
  local = refl;
}

trigger_interrupt-Injected_example : Injected all_enabled cpu0 33 none
trigger_interrupt-Injected_example =
    trigger_interrupt-Injected all_enabled cpu0 33 none all_enabled-IsValid (omega arith) tt refl
      all_enabled-Accepts

grp1_on : bit_and 18 2 ≢ 0
grp1_on = λ e. omega arith

special-enabled : get_enable all_enabled 1020 ≡ done true
unfolding new get_enable
special-enabled = refl

special-normal : get_group_modifier all_enabled 1020 ≡ done 0
unfolding new get_group_modifier
special-normal = refl

trigger_interrupt-special_example : trigger_interrupt all_enabled cpu0 1020 none ≡ panic
trigger_interrupt-special_example =
    trigger_interrupt-special all_enabled cpu0 1020 none all_enabled-IsValid (omega arith)
      (omega arith) grp1_on special-enabled special-normal

trigger_interrupt-Runs_example :
    Runs redistributor0 cpu0
      (RedistributorModule.trigger_interrupt redistributor0 cpu0 27 (some 27))
trigger_interrupt-Runs_example =
    trigger_interrupt-Runs redistributor0 cpu0 27 (some 27) redistributor0-IsValid
      redistributor0-IsRoutable (omega arith)

uart_fits : FitsEntry 33 0 160
uart_fits = record { id_fits = omega arith; group_fits = omega arith; priority_fits = omega arith }

create_list_register_entry-Fields_example :
    Fields (create_list_register_entry 33 0 160 (some 33)) 33 0 160 (some 33)
create_list_register_entry-Fields_example =
    create_list_register_entry-Fields uart_fits (some 33) (omega arith)

entry-IsPending : IsPending (2 ^ 62 + 33)
entry-IsPending = test_bit-div 62 (2 ^ 62 + 33)

add_virtual_interrupt-Landed_example :
    (IsFull (2 ^ 62 + 33) (supported_lrn cpu0) cpu0.ich_lr
      × ((add_virtual_interrupt (2 ^ 62 + 33) cpu0).ich_lr ≡ cpu0.ich_lr))
    ⊎ Landed
        (2 ^ 62 + 33)
        (supported_lrn cpu0)
        cpu0.ich_lr
        (add_virtual_interrupt (2 ^ 62 + 33) cpu0).ich_lr
add_virtual_interrupt-Landed_example =
    add_virtual_interrupt-Landed (2 ^ 62 + 33) cpu0 entry-IsPending refl

three-AllIds : AllIds ((2 ^ 62 + 33) ∷ (2 ^ 62 + 34) ∷ (2 ^ 62 + 27) ∷ [])
three-AllIds = (omega arith, (omega arith, (omega arith, tt)))

maintenance_loop-Retired_example :
    Retired 3 5 ((2 ^ 62 + 33) ∷ (2 ^ 62 + 34) ∷ (2 ^ 62 + 27) ∷ []) all_enabled redistributor0
maintenance_loop-Retired_example =
    maintenance_loop-Retired 3 5 ((2 ^ 62 + 33) ∷ (2 ^ 62 + 34) ∷ (2 ^ 62 + 27) ∷ []) all_enabled
      redistributor0 all_enabled-IsValid three-AllIds
