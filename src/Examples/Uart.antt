-- ===== src/Examples/Uart.antt =====
-- The receive buffer of the virtual UART.
use mini_visor_real_device.Base.{ℕ, ◌≡◌, refl, arith, List, [], ◌∷◌, done}
use mini_visor_real_device.Gic.Distributor as Distributor
use mini_visor_real_device.Pl011.{Pl011, push, read, uart_dr}
use mini_visor_real_device.Pl011.Fifo.{
  IsQueue, is_empty_flag, FlagAfter, after_reads, push-IsQueue, read-IsQueue, read-stuck,
}
use mini_visor_real_device.Examples.Data.{cpu0}

abbrev holding : List ℕ → Pl011
holding buffer = record {
  flag = 0;
  interrupt_mask = 0;
  raw_interrupt_status = 0;
  control = 0;
  read_buffer = buffer;
  output = [];
}

abbrev two : Pl011
two = holding (65 ∷ 66 ∷ 0 ∷ 0 ∷ [])

two-IsQueue : IsQueue two (65 ∷ 66 ∷ []) 2
two-IsQueue = record {
  buffer = refl;
  size = refl;
  nonzero = (λ e. omega arith, (λ e. omega arith, tt));
}

push-IsQueue_example :
    (p' : Pl011) × (push two 67 Distributor.new cpu0 ≡ done (p', Distributor.new, cpu0))
    × IsQueue p' (65 ∷ 66 ∷ 67 ∷ []) 1
    × (is_empty_flag p' ≡ 0)
push-IsQueue_example =
    push-IsQueue two 67 Distributor.new cpu0 (65 ∷ 66 ∷ []) 1 two-IsQueue (λ e. omega arith)
      (omega arith) refl

read-IsQueue_example :
    ((read two uart_dr).0 ≡ 65)
    × IsQueue (read two uart_dr).1 (66 ∷ []) 3
    × FlagAfter two (66 ∷ []) (read two uart_dr).1
read-IsQueue_example = read-IsQueue two 65 (66 ∷ []) 1 two-IsQueue

abbrev full : Pl011
full = holding (65 ∷ 66 ∷ 67 ∷ 68 ∷ [])

read-stuck_example : ((read (after_reads 5 full) uart_dr).0 ≡ 68) × ((after_reads 5 full).flag ≡ 0)
read-stuck_example =
    read-stuck 2 full 65 66 67 68 (λ e. omega arith) (λ e. omega arith) (λ e. omega arith) refl
