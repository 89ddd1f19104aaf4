-- ===== src/Allocator/Pool.antt =====
-- src/memory_allocator.rs: the entries of the pool and the chain of addresses. A loop along the chain is
-- given `loop_fuel` rounds, one more than the pool has entries.
use mini_visor_real_device.Base.{
  ℕ, zero, suc, ◌+◌, ◌-◌, Bool, true, false, ◌&&◌, Option, none, some, List, [], ◌∷◌, ltb, leb,
  if◌then◌else◌,
}
use mini_visor_real_device.Allocator.Monad.{
  MemoryEntry, new_entry, pool_size, no_entry, M, out_of_fuel, ◌>>=◌, ◌>>◌, pure, fail, assert, get,
  load, store, update,
}

abbrev pub loop_fuel : ℕ
loop_fuel = 65

-- The loop of create_memory_entry: the place of the first entry that is not enabled.
unfoldable pub first_free : List MemoryEntry → Option ℕ
first_free [] = none
first_free (e ∷ es) =
    let later : Option ℕ = elim (first_free es) [ none ↦ none | some i ↦ some (suc i) ] in
    if e.enabled then later else some 0

unfoldable pub create_memory_entry : M ℕ
unfolding first_free
create_memory_entry = do
  s ← get
  elim (first_free s.pool) [
    | none ↦ fail no_entry
    | some i ↦ store i (record new_entry { id = i; enabled = true }) >> pure i
  ]

-- `get_memory_entry(pool, index).ok()`
abbrev pub get_memory_entry : ℕ → Option ℕ
get_memory_entry index = if leb pool_size index then none else some index

abbrev pub follow : Option ℕ → Option ℕ
follow none = none
follow (some n) = get_memory_entry n

unfoldable pub get_next_entry : ℕ → M (Option ℕ)
get_next_entry i = load i >>= λ e. pure (follow e.next)

unfoldable pub get_prev_entry : ℕ → M (Option ℕ)
get_prev_entry i = load i >>= λ e. pure (follow e.previous)

abbrev pub get_size : MemoryEntry → ℕ
get_size e = e.end - e.start + 1

abbrev pub is_first_entry : MemoryEntry → Bool
is_first_entry e = elim e.previous [ none ↦ true | some _ ↦ false ]

unfoldable pub set_range : ℕ → (start end : ℕ) → M (Unit {0})
set_range i start end =
    assert (ltb start end) >> update i (λ e. record e { start = start; end = end })

-- `me.chain_after_me(entry)`
unfoldable pub chain_after_me : (me entry : ℕ) → M (Unit {0})
chain_after_me me entry = do
  e ← load entry
  update me (λ m. record m { next = some e.id })
  m ← load me
  update entry (λ x. record x { previous = some m.id })

unfoldable pub set_prev_entry : (me prev : ℕ) → M (Unit {0})
set_prev_entry me prev = do p ← load prev; update me (λ m. record m { previous = some p.id })

unfoldable pub set_next_entry : (me next : ℕ) → M (Unit {0})
set_next_entry me next = do n ← load next; update me (λ m. record m { next = some n.id })

-- MemoryEntry::delete: the neighbours are chained past the entry, which is disabled.
unfoldable pub delete : ℕ → M (Unit {0})
unfolding get_prev_entry get_next_entry chain_after_me
delete i = do
  prev ← get_prev_entry i
  next ← get_next_entry i
  elim prev [
    | some p ↦ elim next [
      | some n ↦ chain_after_me p n
      | none ↦ update p (λ e. record e { next = none })
    ]
    | none ↦ elim next [ some n ↦ update n (λ e. record e { previous = none }) | none ↦ pure tt ]
  ]
  update i (λ e. record e { previous = none; next = none; enabled = false })

unfoldable pub containing_loop : ℕ → (entry address : ℕ) → M (Option ℕ)
unfolding get_next_entry
containing_loop zero entry address = λ _. out_of_fuel
containing_loop (suc n) entry address = do
  e ← load entry
  if ltb e.start address && ltb e.end address
      then (do
        next ← get_next_entry entry
        elim next [ none ↦ pure none | some t ↦ containing_loop n t address ])
      else pure (if leb e.start address && leb address e.end then some entry else none)

unfoldable pub search_entry_containing_address_mut : (address : ℕ) → M (Option ℕ)
search_entry_containing_address_mut address = do
  s ← get
  elim (follow s.first_entry) [ none ↦ pure none | some f ↦ containing_loop loop_fuel f address ]

unfoldable pub previous_loop : ℕ → (entry address : ℕ) → M (Option ℕ)
unfolding get_next_entry get_prev_entry
previous_loop zero entry address = λ _. out_of_fuel
previous_loop (suc n) entry address = do
  e ← load entry
  if ltb e.start address
      then (do
        next ← get_next_entry entry
        elim next [
          | none ↦ if leb e.end address then pure (some entry) else get_prev_entry entry
          | some t ↦ previous_loop n t address
        ])
      else get_prev_entry entry

unfoldable pub search_entry_previous_address_mut : (address : ℕ) → M (Option ℕ)
search_entry_previous_address_mut address = do
  s ← get
  elim (follow s.first_entry) [ none ↦ pure none | some f ↦ previous_loop loop_fuel f address ]
