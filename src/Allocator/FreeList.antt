-- ===== src/Allocator/FreeList.antt =====
-- src/memory_allocator.rs: the free lists, one for each page order, each in the order of sizes.
use mini_visor_real_device.Base.{
  ℕ, zero, suc, Bool, true, false, Option, none, some, leb, ◌==◌, if◌then◌else◌,
}
use mini_visor_real_device.Allocator.Monad.{
  M, out_of_fuel, ◌>>=◌, ◌>>◌, pure, assert, load, update, head_of, set_head,
}
use mini_visor_real_device.Allocator.Align.{size_to_page_order}
use mini_visor_real_device.Allocator.Pool.{loop_fuel, follow, get_size}

abbrev pub is_id : Option ℕ → ℕ → Bool
is_id none id = false
is_id (some i) id = i == id

abbrev pub is_none : Option ℕ → Bool
is_none none = true
is_none (some _) = false

-- MemoryEntry::unchain_from_freelist
unfoldable pub unchain_from_freelist : ℕ → M (Unit {0})
unchain_from_freelist i = do
  e ← load i
  elim (follow e.list_prev) [
    | some p ↦ update p (λ x. record x { list_next = e.list_next })
    | none ↦ pure tt
  ]
  e' ← load i
  elim (follow e'.list_next) [
    | some n ↦ update n (λ x. record x { list_prev = e'.list_prev })
    | none ↦ pure tt
  ]
  update i (λ x. record x { list_next = none; list_prev = none })

-- The head of the list `order` moves on if it is this entry; then the entry is unchained.
unfoldable pub unchain_from_order : (order entry : ℕ) → M (Unit {0})
unfolding unchain_from_freelist
unchain_from_order order entry = do
  e ← load entry
  head ← head_of order
  (if is_id head e.id then set_head order e.list_next else pure tt)
  unchain_from_freelist entry

unfoldable pub unchain_entry_from_free_list : ℕ → M (Unit {0})
unfolding unchain_from_order
unchain_entry_from_free_list entry = do
  e ← load entry
  unchain_from_order (size_to_page_order (get_size e)) entry

-- The loop that looks for the place of the entry behind `list_entry`.
unfoldable pub insert_loop : ℕ → (list_entry entry : ℕ) → M (Unit {0})
insert_loop zero list_entry entry = λ _. out_of_fuel
insert_loop (suc k) list_entry entry = do
  e ← load entry
  l ← load list_entry
  elim (follow l.list_next) [
    | some next_entry ↦ load next_entry >>= λ n.
        if leb (get_size e) (get_size n)
        then (do
          update list_entry (λ x. record x { list_next = some e.id })
          update entry (λ x. record x { list_prev = some l.id; list_next = some n.id })
          update next_entry (λ x. record x { list_prev = some e.id }))
        else insert_loop k next_entry entry
    | none ↦ do
      update list_entry (λ x. record x { list_next = some e.id })
      update entry (λ x. record x { list_prev = some l.id })
  ]

-- The end of chain_entry_to_free_list: the entry goes before the first one that is no smaller.
unfoldable pub insert_entry : ℕ → M (Unit {0})
unfolding insert_loop
insert_entry entry = do
  e ← load entry
  assert (is_none e.list_next)
  assert (is_none e.list_prev)
  let new_order = size_to_page_order (get_size e)
  head ← head_of new_order
  elim (follow head) [
    | some list_entry ↦ load list_entry >>= λ l.
        if leb (get_size e) (get_size l)
        then (do
          update list_entry (λ x. record x { list_prev = some e.id })
          update entry (λ x. record x { list_next = some l.id })
          set_head new_order (some e.id))
        else insert_loop loop_fuel list_entry entry
    | none ↦ set_head new_order (some e.id)
  ]

unfoldable pub chain_entry_to_free_list : ℕ → (old_size : Option ℕ) → M (Unit {0})
unfolding unchain_from_order
chain_entry_to_free_list entry none = insert_entry entry
chain_entry_to_free_list entry (some old_size) = do
  e ← load entry
  if old_size == get_size e
      then pure tt
      else (do unchain_from_order (size_to_page_order old_size) entry; insert_entry entry)
