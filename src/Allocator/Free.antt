-- ===== src/Allocator/Free.antt =====
-- src/memory_allocator.rs: define_free_memory gives a range back, joining it with its neighbours.
use mini_visor_real_device.Base.{
  ℕ, zero, suc, ◌+◌, ◌-◌, Bool, true, false, ◌&&◌, ◌||◌, not, none, some, ltb, leb, ◌==◌,
  if◌then◌else◌, max,
}
use mini_visor_real_device.Allocator.Monad.{
  invalid_entry, invalid_request, M, abort, out_of_fuel, ◌>>=◌, ◌>>◌, pure, fail, assert, get,
  set_free_size, set_first_entry, load,
}
use mini_visor_real_device.Allocator.Align.{get_end_address}
use mini_visor_real_device.Allocator.Pool.{
  create_memory_entry, get_memory_entry, get_next_entry, get_prev_entry, get_size, is_first_entry,
  set_range, set_prev_entry, set_next_entry, chain_after_me, delete,
  search_entry_previous_address_mut,
}
use mini_visor_real_device.Allocator.FreeList.{
  unchain_entry_from_free_list, chain_entry_to_free_list,
}

-- The entry to start from: the one before `start`, or the first one.
unfoldable pub entry_before : (start : ℕ) → M ℕ
entry_before start = do
  found ← search_entry_previous_address_mut start
  elim found [
    | some e ↦ pure e
    | none ↦ do
      s ← get
      elim s.first_entry [
        | none ↦ abort
        | some f ↦ elim (get_memory_entry f) [ some e ↦ pure e | none ↦ fail invalid_entry ]
      ]
  ]

-- `self.free_size += size`
unfoldable pub add_free_size : ℕ → M (Unit {0})
add_free_size size = do s ← get; set_free_size (s.free_size + size)

-- The entry takes the range in, where the two touch; whether they did is the result.
unfoldable pub extend_entry : (entry start end : ℕ) → M Bool
extend_entry entry start end = do
  e ← load entry
  let behind = e.end + 1 == start
  (if behind then set_range entry e.start end else pure tt)
  e' ← load entry
  let before = is_first_entry e' && e'.start == end + 1
  (if before then set_range entry start e'.end else pure tt)
  pure (behind || before)

-- The next entry takes the range in, where the two touch.
unfoldable pub extend_next : (next start end : ℕ) → M Bool
extend_next next start end = do
  n ← load next
  if n.start == end + 1
      then (do
        set_range next start n.end
        chain_entry_to_free_list next (some (get_size n))
        pure true)
      else pure false

-- The entry takes the next one in, where they touch now.
unfoldable pub join_next : (entry next address_after_entry : ℕ) → (processed : Bool) → M (Unit {0})
join_next entry next address_after_entry processed = do
  n ← load next
  e ← load entry
  if n.start == e.end + 1 || (processed && leb n.start address_after_entry)
      then (do
        set_range entry e.start (max e.end n.end)
        unchain_entry_from_free_list next
        delete next)
      else pure tt

unfoldable pub finish : (entry size old_size : ℕ) → M (Unit {0})
unfolding add_free_size
finish entry size old_size = do add_free_size size; chain_entry_to_free_list entry (some old_size)

-- A new entry between `entry` and its successor, or before `entry`.
unfoldable pub insert_with_next : (entry next start end size old_size : ℕ) → M (Unit {0})
unfolding finish
insert_with_next entry next start end size old_size = do
  new_entry ← create_memory_entry
  set_range new_entry start end
  n ← load new_entry
  e ← load entry
  (if ltb n.end e.start
      then (do
        prev ← get_prev_entry entry
        elim prev [
          | some p ↦ load p >>= λ x.
              assert (ltb x.end n.start)
              >> chain_after_me p new_entry
              >> chain_after_me new_entry entry
          | none ↦ set_first_entry (some n.id) >> chain_after_me new_entry entry
        ])
      else (do
        set_prev_entry next new_entry
        set_next_entry new_entry next
        chain_after_me entry new_entry))
  finish entry size old_size
  chain_entry_to_free_list new_entry none

-- A new entry behind `entry`, which is the last one, or before it.
unfoldable pub insert_last : (entry start end size old_size : ℕ) → M (Unit {0})
unfolding finish
insert_last entry start end size old_size = do
  new_entry ← create_memory_entry
  set_range new_entry start end
  n ← load new_entry
  e ← load entry
  (if ltb e.end n.start then chain_after_me entry new_entry else (do
    prev ← get_prev_entry entry
    elim prev [
      | some p ↦ load p >>= λ x. assert (ltb x.end e.start) >> chain_after_me p new_entry
      | none ↦ set_first_entry (some n.id)
    ]
    chain_after_me new_entry entry))
  finish entry size old_size
  chain_entry_to_free_list new_entry none

-- The part behind the checks of `entry`. `again` is the function itself, for a range that is partly
-- free already.
unfoldable pub free_into :
    (again : ℕ → ℕ → M (Unit {0})) → (entry start size end : ℕ) → M (Unit {0})
unfolding extend_entry extend_next join_next finish insert_with_next insert_last
free_into again entry start size end = do
  e ← load entry
  let old_size = get_size e
  let address_after_entry = e.end + 1
  extended ← extend_entry entry start end
  next ← get_next_entry entry
  elim next [
    | some n ↦ load n >>= λ x.
        if leb x.start start
        then assert (not extended)
          >> (if leb end x.end then fail invalid_request else again (x.end + 1) (end - x.end))
        else (do
          joined ← extend_next n start end
          let processed = extended || joined
          join_next entry n address_after_entry processed
          if processed
              then finish entry size old_size
              else insert_with_next entry n start end size old_size)
    | none ↦
        if extended then finish entry size old_size else insert_last entry start end size old_size
  ]

unfoldable pub define_free_memory : (fuel start size : ℕ) → M (Unit {0})
unfolding free_into entry_before
define_free_memory zero start size = λ _. out_of_fuel
define_free_memory (suc n) start size = if size == 0 then fail invalid_request else do
  entry ← entry_before start
  let end = get_end_address start size
  e ← load entry
  if leb e.start start && leb end e.end
      then fail invalid_request
      else (if leb start e.end && not (is_first_entry e)
          then define_free_memory n (e.end + 1) (end - e.end + 2)
          else (if e.end == end
              then define_free_memory n start (size - get_size e)
              else free_into (define_free_memory n) entry start size end))

unfoldable pub free_first : (start size : ℕ) → M (Unit {0})
free_first start size = do
  first_entry ← create_memory_entry
  set_range first_entry start (get_end_address start size)
  chain_entry_to_free_list first_entry none
  e ← load first_entry
  set_first_entry (some e.id)
  set_free_size size

unfoldable pub free : (fuel start size : ℕ) → M (Unit {0})
unfolding free_first define_free_memory add_free_size
free fuel start size = do
  s ← get
  if s.free_size == 0
      then free_first start size
      else (do define_free_memory fuel start size; add_free_size size)
