-- ===== src/Pl011/Fifo.antt =====
-- The receive buffer of src/mmio/pl011.rs as a queue: what `push` adds, reads of the data register
-- return in the same order, while fewer than four bytes wait.
use mini_visor_real_device.Base.{
  ℕ, zero, suc, ◌^◌, ◌+◌, ◌<◌, ◌≡◌, ◌≢◌, refl, ap, ◌∙◌, if-elim, arith, bit_and, false, List, [],
  ◌∷◌, ◌++◌, ◌!=◌, ◌==◌, done, bit_not, replicate, length, length-append, test_bit, bit_or_test,
  pow_test, bit_and_test, test_bit-le, bit_not_test,
}
use mathlib.Core.List.{append_assoc}
use mini_visor_real_device.Pl011.{
  Pl011, fill, push, shift_down, take_byte, read, head_byte, uart_dr, uart_fr_rxfe, uart_imsc_rxim,
}
use mini_visor_real_device.Cpu.{Cpu}
use mini_visor_real_device.Gic.Distributor.{Distributor}

abbrev pub AllNonzero : List ℕ → Type 0
AllNonzero [] = Unit {0}
AllNonzero (b ∷ bs) = (b ≢ 0) × AllNonzero bs

-- The bytes `bs` wait, and `free` places are free.
pub record IsQueue (p : Pl011) (bs : List ℕ) (free : ℕ) : Type 0 where
  pub buffer : p.read_buffer ≡ bs ++ replicate free 0
  pub size : length bs + free ≡ 4
  pub nonzero : AllNonzero bs

-- RXFE, the bit by which the guest sees that nothing waits
abbrev pub is_empty_flag : Pl011 → ℕ
is_empty_flag p = test_bit p.flag 4

fill-append :
    (byte : ℕ) (bs rest : List ℕ) → AllNonzero bs → fill byte (bs ++ 0 ∷ rest) ≡ bs ++ byte ∷ rest
unfolding fill
fill-append byte [] rest h = refl
fill-append byte (b ∷ bs) rest h = ground (arith, fill-append byte bs rest h.1)

AllNonzero-append : (bs : List ℕ) (b : ℕ) → AllNonzero bs → b ≢ 0 → AllNonzero (bs ++ b ∷ [])
AllNonzero-append [] b h n = (n, tt)
AllNonzero-append (c ∷ bs) b h n = (h.0, AllNonzero-append bs b h.1 n)

-- Where the bytes `bs` wait and at least one place is free, the flag register is below 2^16 and the
-- receive interrupt is masked, a pushed byte that is not 0 goes behind those that wait, one place less
-- is free, RXFE is clear, and neither the distributor nor the CPU changes.
pub push-IsQueue :
    (p : Pl011) (byte : ℕ) (d : Distributor) (cpu : Cpu) (bs : List ℕ) (free : ℕ)
    → IsQueue p bs (suc free)
    → byte ≢ 0
    → p.flag < 2 ^ 16
    → bit_and p.interrupt_mask uart_imsc_rxim ≡ 0
    → (p' : Pl011) × (push p byte d cpu ≡ done (p', d, cpu))
      × IsQueue p' (bs ++ byte ∷ []) free
      × (is_empty_flag p' ≡ 0)
unfolding push
push-IsQueue p byte d cpu bs free q nz small masked =
    let off : (bit_and p.interrupt_mask uart_imsc_rxim != 0) ≡ false = ground arith in
    (
      record p {
        read_buffer = fill byte p.read_buffer;
        flag = bit_and p.flag (bit_not 16 uart_fr_rxfe);
      },
      rw off,
      record {
        buffer = rw (
          q.buffer,
          fill-append byte bs (replicate free 0) q.nonzero,
          append_assoc bs (byte ∷ []) (replicate free 0),
        );
        size = omega (arith, q.size, length-append bs (byte ∷ []));
        nonzero = AllNonzero-append bs byte q.nonzero nz;
      },
      omega (
        arith,
        bit_and_test 4 p.flag (bit_not 16 (2 ^ 4)),
        bit_not_test 16 4 (2 ^ 4),
        pow_test 4 4,
      ),
    )

shift_down-zeros : (x m : ℕ) → shift_down (x ∷ replicate (suc m) 0) ≡ replicate (suc (suc m)) 0
unfolding shift_down
shift_down-zeros x zero = refl
shift_down-zeros x (suc m) = ap (λ (t : List ℕ). 0 ∷ t) (shift_down-zeros 0 m)

shift_down-append :
    (b : ℕ) (bs : List ℕ) (m : ℕ)
    → shift_down (b ∷ bs ++ replicate (suc m) 0) ≡ bs ++ replicate (suc (suc m)) 0
unfolding shift_down
shift_down-append b [] m = shift_down-zeros b m
shift_down-append b (c ∷ bs) m = ap (λ (t : List ℕ). c ∷ t) (shift_down-append c bs m)

-- The flag after a read says whether bytes are left.
abbrev pub FlagAfter : Pl011 → List ℕ → Pl011 → Type 0
FlagAfter p [] p' = is_empty_flag p' ≡ 1
FlagAfter p (b ∷ bs) p' = p'.flag ≡ p.flag

take_byte-FlagAfter :
    (p : Pl011) (b : ℕ) (bs : List ℕ) (m : ℕ)
    → IsQueue p (b ∷ bs) (suc m)
    → FlagAfter p bs (take_byte p).1
unfolding take_byte
take_byte-FlagAfter p b [] m q =
    let e : shift_down p.read_buffer ≡ replicate (suc (suc m)) 0 =
      rw (q.buffer, shift_down-zeros b m) in
    rw (e) (omega (arith, bit_or_test 4 p.flag uart_fr_rxfe, pow_test 4 4, test_bit-le p.flag 4))
take_byte-FlagAfter p b (c ∷ bs) m q =
    let e : shift_down p.read_buffer ≡ c ∷ bs ++ replicate (suc (suc m)) 0 =
      rw (q.buffer, shift_down-append b (c ∷ bs) m) in
    let n : (c == 0) ≡ false = ground (arith, q.nonzero.1.0) in rw (e, n)

take_byte-buffer : (p : Pl011) → (take_byte p).1.read_buffer ≡ shift_down p.read_buffer
unfolding take_byte
take_byte-buffer p =
    if-elim (λ (r : Pl011). r.read_buffer ≡ shift_down p.read_buffer)
      (head_byte (shift_down p.read_buffer) == 0) (λ _. refl) (λ _. refl)

-- While at most three bytes wait, a read of the data register returns the oldest of them, the others
-- keep their order, and RXFE is set if none is left and kept otherwise.
pub read-IsQueue :
    (p : Pl011) (b : ℕ) (bs : List ℕ) (free : ℕ)
    → IsQueue p (b ∷ bs) (suc free)
    → ((read p uart_dr).0 ≡ b)
      × IsQueue (read p uart_dr).1 bs (suc (suc free))
      × FlagAfter p bs (read p uart_dr).1
unfolding read take_byte
read-IsQueue p b bs free q = (
  rw q.buffer,
  record {
    buffer = take_byte-buffer p ∙ (rw q.buffer (shift_down-append b bs free));
    size = omega (arith, q.size);
    nonzero = q.nonzero.1;
  },
  take_byte-FlagAfter p b bs free q,
)

-- The device after `n` reads of the data register.
pub after_reads : ℕ → Pl011 → Pl011
after_reads zero p = p
after_reads (suc n) p = after_reads n (read p uart_dr).1

read-full :
    (p : Pl011) (a b c e : ℕ)
    → b ≢ 0
    → p.read_buffer ≡ a ∷ b ∷ c ∷ e ∷ []
    → ((read p uart_dr).1.read_buffer ≡ b ∷ c ∷ e ∷ e ∷ []) × ((read p uart_dr).1.flag ≡ p.flag)
unfolding read take_byte shift_down
read-full p a b c e nz h = let n : (b == 0) ≡ false = ground arith in (rw (h, n), rw (h, n))

read-head : (p : Pl011) {e x y z : ℕ} → p.read_buffer ≡ e ∷ x ∷ y ∷ z ∷ [] → (read p uart_dr).0 ≡ e
unfolding read take_byte
read-head p h = rw h

after_reads-same :
    (n : ℕ) (p : Pl011) (e : ℕ)
    → e ≢ 0
    → p.read_buffer ≡ e ∷ e ∷ e ∷ e ∷ []
    → ((after_reads n p).read_buffer ≡ e ∷ e ∷ e ∷ e ∷ []) × ((after_reads n p).flag ≡ p.flag)
unfolding after_reads
after_reads-same zero p e nz h = (h, refl)
after_reads-same (suc n) p e nz h =
    let (buffer, flag) = read-full p e e e e nz h in
    let (buffer', flag') = after_reads-same n (read p uart_dr).1 e nz buffer in
    (buffer', flag' ∙ flag)

-- Once four bytes wait, the last of them is never removed: the fourth read of the data register and
-- every later one return it, and no read sets RXFE.
pub read-stuck :
    (n : ℕ) (p : Pl011) (a b c e : ℕ)
    → b ≢ 0
    → c ≢ 0
    → e ≢ 0
    → p.read_buffer ≡ a ∷ b ∷ c ∷ e ∷ []
    → ((read (after_reads (suc (suc (suc n))) p) uart_dr).0 ≡ e)
      × ((after_reads (suc (suc (suc n))) p).flag ≡ p.flag)
unfolding after_reads
read-stuck n p a b c e nb nc ne h =
    let (h1, f1) = read-full p a b c e nb h in
    let p1 = (read p uart_dr).1 in
    let (h2, f2) = read-full p1 b c e e nc h1 in
    let p2 = (read p1 uart_dr).1 in
    let (h3, f3) = read-full p2 c e e e ne h2 in
    let p3 = (read p2 uart_dr).1 in
    let (h4, f4) = after_reads-same n p3 e ne h3 in
    (read-head (after_reads n p3) h4, f4 ∙ (f3 ∙ (f2 ∙ f1)))
