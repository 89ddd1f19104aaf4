-- ===== src/Allocator/Used.antt =====
-- src/memory_allocator.rs: define_used_memory takes a range out of the entry that contains it.
use mini_visor_real_device.Base.{ℕ, ◌+◌, ◌-◌, Option, none, some, ltb, ◌==◌, ◌!=◌, if◌then◌else◌}
use mini_visor_real_device.Allocator.Monad.{
  no_entry, no_memory, invalid_request, M, ◌>>=◌, ◌>>◌, pure, fail, get, set_free_size,
  set_first_entry, load,
}
use mini_visor_real_device.Allocator.Align.{align_address_and_size, get_end_address}
use mini_visor_real_device.Allocator.Pool.{
  create_memory_entry, get_next_entry, get_size, is_first_entry, set_range, chain_after_me, delete,
  search_entry_containing_address_mut,
}
use mini_visor_real_device.Allocator.FreeList.{
  unchain_entry_from_free_list, chain_entry_to_free_list,
}

-- The range is the whole entry, which is deleted.
unfoldable pub use_all : (entry : ℕ) → M (Unit {0})
use_all entry = do
  e ← load entry
  (if is_first_entry e
      then (do
        next ← get_next_entry entry
        elim next [ some n ↦ load n >>= λ x. set_first_entry (some x.id) | none ↦ fail no_entry ])
      else pure tt)
  unchain_entry_from_free_list entry
  delete entry

-- The entry keeps the range from `start` to `end`.
unfoldable pub shrink : (entry start end old_size : ℕ) → M (Unit {0})
shrink entry start end old_size = do
  set_range entry start end
  chain_entry_to_free_list entry (some old_size)

-- The range lies inside, and what is behind it becomes an entry of its own.
unfoldable pub split : (entry start size : ℕ) → M (Unit {0})
split entry start size = do
  new_entry ← create_memory_entry
  e ← load entry
  set_range new_entry (start + size) e.end
  set_range entry e.start (start - 1)
  next ← get_next_entry entry
  elim next [ some n ↦ chain_after_me new_entry n | none ↦ pure tt ]
  chain_after_me entry new_entry
  chain_entry_to_free_list entry (some (get_size e))
  chain_entry_to_free_list new_entry none

unfoldable pub use_from_entry : (entry start size : ℕ) → M (Unit {0})
unfolding use_all shrink split
use_from_entry entry start size = do
  e ← load entry
  if e.start == start
      then (if e.end == get_end_address start size
          then use_all entry
          else shrink entry (start + size) e.end (get_size e))
      else (if e.end == start
          then (if size != 1
              then fail invalid_request
              else shrink entry e.start (start - 1) (start - 1 - e.start + 1 + 1))
          else (if e.end == get_end_address start size
              then shrink entry e.start (start - 1) (get_size e)
              else split entry start size))

-- The body, for a range that is aligned.
unfoldable pub use_range : (start size : ℕ) (target_entry : Option ℕ) → M (Unit {0})
unfolding use_from_entry
use_range start size target_entry = do
  entry ← elim target_entry [
    | some t ↦ pure t
    | none ↦ do
      found ← search_entry_containing_address_mut start
      elim found [ some t ↦ pure t | none ↦ fail invalid_request ]
  ]
  use_from_entry entry start size
  s ← get
  set_free_size (s.free_size - size)

-- The checks that come first, also in the call for the aligned range.
unfoldable pub check_size : ℕ → M (Unit {0})
check_size size = do
  s ← get
  if size == 0
      then fail invalid_request
      else (if ltb s.free_size size then fail no_memory else pure tt)

unfoldable pub define_used_memory :
    (start size align_order : ℕ) (target_entry : Option ℕ) → M (Unit {0})
unfolding check_size use_range
define_used_memory start size align_order target_entry = do
  check_size size
  if align_order != 0
      then (do
        let aligned = align_address_and_size start size align_order
        check_size aligned.1
        use_range aligned.0 aligned.1 target_entry)
      else use_range start size target_entry

unfoldable pub reserve_memory : (start_address size align_order : ℕ) → M (Unit {0})
unfolding define_used_memory
reserve_memory start_address size align_order =
    define_used_memory start_address size align_order none
