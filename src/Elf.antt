-- ===== src/Elf.antt =====
-- src/elf.rs: the header of an ELF file in memory, and the iteration over its program headers.
use mini_visor_real_device.Base.{
  ℕ, zero, suc, ◌+◌, ◌-◌, ◌*◌, ◌%◌, ◌^◌, ◌<◌, ◌≡◌, refl, arith, true, false, ◌&&◌, Option, none,
  some, List, [], ◌∷◌, ◌==◌, ltb, if◌then◌else◌, get_elem?, subst,
}
use mini_visor_real_device.Fat32.{load_u16, load_u32}

-- A word of 64 bits, little-endian.
unfoldable pub load_u64 : (ℕ → ℕ) → ℕ → ℕ
unfolding load_u32
load_u64 byte a = load_u32 byte a + load_u32 byte (a + 4) * 2 ^ 32

pub record Elf64ProgramHeader : Type 0 where
  pub p_type : ℕ
  pub p_flags : ℕ
  pub p_offset : ℕ
  pub p_vaddr : ℕ
  pub p_paddr : ℕ
  pub p_filesz : ℕ
  pub p_memsz : ℕ
  pub p_align : ℕ

unfoldable pub load_program_header : (ℕ → ℕ) → ℕ → Elf64ProgramHeader
unfolding load_u64 load_u32
load_program_header byte a = record {
  p_type = load_u32 byte a;
  p_flags = load_u32 byte (a + 4);
  p_offset = load_u64 byte (a + 8);
  p_vaddr = load_u64 byte (a + 16);
  p_paddr = load_u64 byte (a + 24);
  p_filesz = load_u64 byte (a + 32);
  p_memsz = load_u64 byte (a + 40);
  p_align = load_u64 byte (a + 48);
}

-- The header stays in memory; a reference to it is its address. None stands for Err.
unfoldable pub new : (byte : ℕ → ℕ) → (address : ℕ) → Option ℕ
unfolding load_u32
new byte address =
    if byte address == 0x7F
      && byte (address + 1) == 0x45
      && byte (address + 2) == 0x4C
      && byte (address + 3) == 0x46
      && byte (address + 4) == 0x02
      && byte (address + 6) == 0x01
      && load_u32 byte (address + 20) == 1
    then some address
    else none

unfoldable pub get_program_header_offset : (ℕ → ℕ) → ℕ → ℕ
unfolding load_u64
get_program_header_offset byte address = load_u64 byte (address + 32)

unfoldable pub get_program_header_entry_size : (ℕ → ℕ) → ℕ → ℕ
unfolding load_u16
get_program_header_entry_size byte address = load_u16 byte (address + 54)

unfoldable pub get_num_of_program_header : (ℕ → ℕ) → ℕ → ℕ
unfolding load_u16
get_num_of_program_header byte address = load_u16 byte (address + 56)

pub record Elf64ProgramHeaderIter : Type 0 where
  pub pointer : ℕ
  pub size : ℕ
  pub remaining : ℕ

-- The pointers are a usize each, whose sums wrap.
unfoldable pub get_program_headers : (ℕ → ℕ) → ℕ → Elf64ProgramHeaderIter
unfolding get_program_header_offset get_program_header_entry_size get_num_of_program_header
get_program_headers byte address = record {
  pointer = (address + get_program_header_offset byte address) % 2 ^ 64;
  size = get_program_header_entry_size byte address;
  remaining = get_num_of_program_header byte address;
}

unfoldable pub next :
    (ℕ → ℕ) → Elf64ProgramHeaderIter → Elf64ProgramHeaderIter × Option Elf64ProgramHeader
unfolding load_program_header
next byte it = if it.remaining == 0 then (it, none) else (
  record it { pointer = (it.pointer + it.size) % 2 ^ 64; remaining = it.remaining - 1 },
  some (load_program_header byte it.pointer),
)

-- A loop over an iterator, for a number of rounds.
unfoldable pub collect : (rounds : ℕ) → (ℕ → ℕ) → Elf64ProgramHeaderIter → List Elf64ProgramHeader
unfolding next
collect zero byte it = []
collect (suc n) byte it =
    let (it1, header) = next byte it in elim header [ none ↦ [] | some h ↦ h ∷ collect n byte it1 ]

unfoldable pub get_segment_type : Elf64ProgramHeader → ℕ
get_segment_type h = h.p_type

unfoldable pub get_physical_address : Elf64ProgramHeader → ℕ
get_physical_address h = h.p_paddr

unfoldable pub get_memory_size : Elf64ProgramHeader → ℕ
get_memory_size h = h.p_memsz

-- The iterator after a header.
abbrev step : Elf64ProgramHeaderIter → Elf64ProgramHeaderIter
step it = record it { pointer = (it.pointer + it.size) % 2 ^ 64; remaining = it.remaining - 1 }

collect_none :
    (m : ℕ) (byte : ℕ → ℕ) (it : Elf64ProgramHeaderIter)
    → it.remaining ≡ 0
    → collect (suc m) byte it ≡ []
unfolding collect next
collect_none m byte it e =
    let t : (it.remaining == 0) ≡ true = rw e refl in rw (t, collect, next) refl

collect_some :
    (m n : ℕ) (byte : ℕ → ℕ) (it : Elf64ProgramHeaderIter)
    → it.remaining ≡ suc n
    → collect (suc m) byte it ≡ load_program_header byte it.pointer ∷ collect m byte (step it)
unfolding collect next
collect_some m n byte it e =
    let t : (it.remaining == 0) ≡ false = rw e (ground arith) in
    rw (t, collect, next) (rw (t, next) refl)

collect_at :
    (n : ℕ) (byte : ℕ → ℕ) (it : Elf64ProgramHeaderIter) (i : ℕ)
    → it.remaining ≡ n
    → it.pointer + n * it.size < 2 ^ 64
    → get_elem? (collect (suc n) byte it) i
      ≡ (if ltb i n then some (load_program_header byte (it.pointer + i * it.size)) else none)
collect_at zero byte it i e lt =
    let c = collect_none 0 byte it e in let t : ltb i 0 ≡ false = ground arith in rw (c, t) refl
collect_at (suc n) byte it zero e lt =
    let c = collect_some (suc n) n byte it e in
    let z : it.pointer + 0 * it.size ≡ it.pointer = omega arith in
    let t : ltb 0 (suc n) ≡ true = ground arith in rw (c, z, t) refl
collect_at (suc n) byte it (suc i) e lt =
    let c = collect_some (suc n) n byte it e in
    let m : suc n * it.size ≡ it.size + n * it.size = omega arith in
    let w : (it.pointer + it.size) % 2 ^ 64 ≡ it.pointer + it.size = omega (arith, lt, m) in
    let z : it.pointer + suc i * it.size ≡ (it.pointer + it.size) % 2 ^ 64 + i * it.size =
      omega (arith, w) in
    let t : ltb (suc i) (suc n) ≡ ltb i n = ground arith in
    rw (c, z, t) (collect_at n byte (step it) i (omega arith) (omega (arith, lt, m, w)))

first_pointer :
    (byte : ℕ → ℕ) (address : ℕ)
    → address + get_program_header_offset byte address < 2 ^ 64
    → (get_program_headers byte address).pointer ≡ address + get_program_header_offset byte address
unfolding get_program_headers
first_pointer byte address lt = omega (arith, lt)

first_size :
    (byte : ℕ → ℕ) (address : ℕ)
    → (get_program_headers byte address).size ≡ get_program_header_entry_size byte address
unfolding get_program_headers
first_size byte address = refl

first_remaining :
    (byte : ℕ → ℕ) (address : ℕ)
    → (get_program_headers byte address).remaining ≡ get_num_of_program_header byte address
unfolding get_program_headers
first_remaining byte address = refl

-- Where the table of program headers ends below 2^64, a loop over get_program_headers sees, at each
-- position below their number, the one that lies that many entry sizes behind the header's offset,
-- and ends after the last.
pub get_program_headers-get_elem? :
    (byte : ℕ → ℕ) (address i : ℕ)
    → address
        + get_program_header_offset byte address
        + get_num_of_program_header byte address * get_program_header_entry_size byte address
      < 2 ^ 64
    → get_elem?
        (collect
          (suc (get_num_of_program_header byte address))
          byte
          (get_program_headers byte address))
        i
      ≡ (if ltb i (get_num_of_program_header byte address)
          then some (
              load_program_header byte (
                address
                + get_program_header_offset byte address
                + i * get_program_header_entry_size byte address))
          else none)
get_program_headers-get_elem? byte address i lt =
    let n = get_num_of_program_header byte address in
    let p = first_pointer byte address (omega (arith, lt)) in
    let m = first_size byte address in
    let c =
      collect_at n byte (get_program_headers byte address) i (first_remaining byte address)
        (rw (p, m) lt) in
    let seen = get_elem? (collect (suc n) byte (get_program_headers byte address)) i in
    subst
      (λ size. seen ≡ (
        if ltb i n
        then some
            (load_program_header byte (address + get_program_header_offset byte address + i * size))
        else none))
      m
      (subst
        (λ pointer. seen ≡ (
          if ltb i n
          then some
              (load_program_header byte (pointer + i * (get_program_headers byte address).size))
          else none))
        p c)
