-- ===== src/Allocator/Allocate.antt =====
-- src/memory_allocator.rs: allocate looks through the free lists for an entry with room.
use mini_visor_real_device.Base.{
  ℕ, zero, suc, ◌+◌, ◌-◌, Option, none, some, ltb, leb, ◌==◌, ◌!=◌, if◌then◌else◌,
}
use mini_visor_real_device.Allocator.Monad.{
  MemoryEntry, invalid_entry, no_memory, invalid_request, num_of_free_list, M, out_of_fuel, ◌>>=◌,
  ◌>>◌, pure, fail, get, load, head_of,
}
use mini_visor_real_device.Allocator.Align.{align_address_and_available_size, size_to_page_order}
use mini_visor_real_device.Allocator.Pool.{loop_fuel, follow, get_memory_entry, get_size}
use mini_visor_real_device.Allocator.Used.{define_used_memory}

-- The address in the entry at which `size` aligned bytes start, if it has them.
unfoldable pub fit : (e : MemoryEntry) → (size align_order : ℕ) → Option ℕ
fit e size align_order =
    if ltb (get_size e) size
    then none
    else if align_order != 0
    then (let aligned = align_address_and_available_size e.start (get_size e) align_order in
        if ltb aligned.1 size then none else some aligned.0)
    else some e.start

-- The loop along one free list; nothing if none of its entries has room.
unfoldable pub allocate_from_list : (fuel size align_order : ℕ) (entry : Option ℕ) → M (Option ℕ)
unfolding fit
allocate_from_list zero size align_order entry = λ _. out_of_fuel
allocate_from_list (suc n) size align_order none = pure none
allocate_from_list (suc n) size align_order (some i) = do
  e ← load i
  elim (fit e size align_order) [
    | some address ↦ define_used_memory address size 0 (some i) >> pure (some address)
    | none ↦ allocate_from_list n size align_order (follow e.list_next)
  ]

-- The loop over the orders from `order` on.
unfoldable pub allocate_from_order : (orders order size align_order : ℕ) → M ℕ
allocate_from_order zero order size align_order = fail no_memory
allocate_from_order (suc n) order size align_order = do
  head ← head_of order
  elim head [
    | none ↦ allocate_from_order n (order + 1) size align_order
    | some t ↦ elim (get_memory_entry t) [
      | none ↦ fail invalid_entry
      | some i ↦ allocate_from_list loop_fuel size align_order (some i) >>= elim [
        | some address ↦ pure address
        | none ↦ allocate_from_order n (order + 1) size align_order
      ]
    ]
  ]

unfoldable pub allocate : (size align_order : ℕ) → M ℕ
unfolding allocate_from_order allocate_from_list
allocate size align_order = do
  s ← get
  if size == 0
      then fail invalid_request
      else (if leb s.free_size size
          then fail no_memory
          else (let page_order = size_to_page_order size in
              allocate_from_order (num_of_free_list - page_order) page_order size align_order))
