-- ===== src/Pl011.antt =====
-- src/mmio/pl011.rs: the virtual PL011 UART of a guest. Its receive buffer is four bytes in which
-- a zero byte marks a free place.
pub mod Fifo
use mini_visor_real_device.Base.{
  ℕ, zero, suc, ◌-◌, ◌*◌, ◌^◌, ◌+◌, ◌/◌, ◌%◌, bit_and, bit_or, Bool, true, false, List, [], ◌∷◌,
  ◌++◌, ◌!=◌, ◌==◌, if◌then◌else◌, Exec, done, ◌>>=◌, bit_not, ◌<<<◌, Option, none, as_word,
  replicate,
}
use mini_visor_real_device.Cpu.{Cpu}
use mini_visor_real_device.Gic.Distributor.{Distributor, trigger_interrupt}

abbrev pub uart_dr : ℕ
uart_dr = 0x000

abbrev pub uart_fr : ℕ
uart_fr = 0x018

abbrev pub uart_cr : ℕ
uart_cr = 0x030

abbrev pub uart_imsc : ℕ
uart_imsc = 0x038

abbrev pub uart_ris : ℕ
uart_ris = 0x03C

abbrev pub uart_icr : ℕ
uart_icr = 0x044

abbrev pub uart_fr_rxfe : ℕ
uart_fr_rxfe = 1 <<< 4

abbrev pub uart_imsc_rxim : ℕ
uart_imsc_rxim = 1 <<< 4

abbrev pub uart_ris_rxris : ℕ
uart_ris_rxris = 1 <<< 4

abbrev pub pl011_int_id : ℕ
pl011_int_id = 33

-- `output` is what `print!` has written for the guest, the last byte first.
pub record Pl011 : Type 0 where
  pub flag : ℕ
  pub interrupt_mask : ℕ
  pub raw_interrupt_status : ℕ
  pub control : ℕ
  pub read_buffer : List ℕ
  pub output : List ℕ

unfoldable pub new : Pl011
new = record {
  flag = 0;
  interrupt_mask = 0;
  raw_interrupt_status = 0;
  control = 0;
  read_buffer = replicate 4 0;
  output = [];
}

-- The loop of `push`: the first free place takes the byte.
unfoldable pub fill : ℕ → List ℕ → List ℕ
fill byte [] = []
fill byte (c ∷ cs) = if c == 0 then byte ∷ cs else c ∷ fill byte cs

unfoldable pub push : Pl011 → ℕ → Distributor → Cpu → Exec (Pl011 × Distributor × Cpu)
unfolding fill
push p byte distributor cpu =
    let p' = record p {
      read_buffer = fill byte p.read_buffer;
      flag = bit_and p.flag (bit_not 16 uart_fr_rxfe);
    } in
    if bit_and p.interrupt_mask uart_imsc_rxim != 0
    then (do
      (distributor', cpu') ← trigger_interrupt distributor cpu pl011_int_id none
      done (
        record p' { raw_interrupt_status = bit_or p.raw_interrupt_status uart_ris_rxris },
        distributor',
        cpu',
      ))
    else done (p', distributor, cpu)

-- The loop over `1..4` of `read`: each place takes the byte of the next one. The last place has no
-- next one, and keeps its byte.
unfoldable pub shift_down : List ℕ → List ℕ
shift_down [] = []
shift_down (c ∷ []) = c ∷ []
shift_down (c ∷ c' ∷ cs) = c' ∷ shift_down (c' ∷ cs)

abbrev pub head_byte : List ℕ → ℕ
head_byte [] = 0
head_byte (c ∷ _) = c

-- A read of the data register.
unfoldable pub take_byte : Pl011 → ℕ × Pl011
unfolding shift_down
take_byte p =
    let buffer = shift_down p.read_buffer in
    (
      head_byte p.read_buffer,
      if head_byte buffer == 0
          then record p {
            read_buffer = buffer;
            flag = bit_or p.flag uart_fr_rxfe;
            raw_interrupt_status = bit_and p.raw_interrupt_status (bit_not 16 uart_ris_rxris);
          }
          else record p { read_buffer = buffer },
    )

-- The identification registers.
unfoldable pub read_id : ℕ → ℕ
read_id offset =
    if offset == 0xFE0
    then 0x11
    else if offset == 0xFE4
    then 0x01 <<< 4
    else if offset == 0xFE8
    then bit_or (0x03 <<< 4) 0x04
    else if offset == 0xFEC
    then 0x00
    else if offset == 0xFF0
    then 0x0D
    else if offset == 0xFF4
    then 0xF0
    else if offset == 0xFF8
    then 0x05
    else if offset == 0xFFC
    then 0xB1
    else 0x00

-- `read` always returns `Ok`, and ignores the access width.
unfoldable pub read : Pl011 → (offset : ℕ) → ℕ × Pl011
unfolding take_byte read_id
read p offset =
    if offset == uart_dr
    then take_byte p
    else if offset == uart_fr
    then (p.flag, p)
    else if offset == uart_cr
    then (p.control, p)
    else if offset == uart_imsc
    then (p.interrupt_mask, p)
    else if offset == uart_ris
    then (p.raw_interrupt_status, p)
    else (read_id offset, p)

unfoldable pub write : Pl011 → (offset value : ℕ) → Pl011
write p offset value =
    if offset == uart_dr
    then record p { output = as_word 8 value ∷ p.output }
    else if offset == uart_cr
    then record p { control = as_word 16 value }
    else if offset == uart_imsc
    then record p { interrupt_mask = as_word 16 value }
    else if offset == uart_icr
    then record p {
      raw_interrupt_status = bit_and p.raw_interrupt_status (bit_not 16 (as_word 16 value));
    }
    else p
