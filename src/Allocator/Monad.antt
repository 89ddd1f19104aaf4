-- ===== src/Allocator/Monad.antt =====
-- src/memory_allocator.rs: the allocator's data, and code over it that returns, fails or panics.
use mini_visor_real_device.Base.{
  ℕ, Bool, true, false, Option, none, some, List, get_elem?, set, replicate,
}

pub data MemoryError : Type 0 where
  no_entry : MemoryError
  invalid_entry : MemoryError
  no_memory : MemoryError
  invalid_request : MemoryError

pub record MemoryEntry : Type 0 where
  pub previous : Option ℕ
  pub next : Option ℕ
  pub list_prev : Option ℕ
  pub list_next : Option ℕ
  pub start : ℕ
  pub end : ℕ
  pub enabled : Bool
  pub id : ℕ

abbrev pub pool_size : ℕ
pool_size = 64

abbrev pub num_of_free_list : ℕ
num_of_free_list = 12

abbrev pub new_entry : MemoryEntry
new_entry = record {
  previous = none;
  next = none;
  list_prev = none;
  list_next = none;
  start = 0;
  end = 0;
  enabled = false;
  id = 0;
}

pub record MemoryAllocator : Type 0 where
  pub free_size : ℕ
  pub first_entry : Option ℕ
  pub free_list : List (Option ℕ)
  pub pool : List MemoryEntry

unfoldable pub new : MemoryAllocator
new = record {
  free_size = 0;
  first_entry = none;
  free_list = replicate num_of_free_list none;
  pool = replicate pool_size new_entry;
}

-- `err` keeps the state that the code had reached. `panic` is a failed assertion or an index out of
-- bounds; `out_of_fuel` is a loop that made more rounds than it was given.
pub data Outcome (A : Type 0) : Type 0 where
  ok : A → MemoryAllocator → Outcome A
  err : MemoryError → MemoryAllocator → Outcome A
  panic : Outcome A
  out_of_fuel : Outcome A

abbrev pub M : Type 0 → Type 0
M A = MemoryAllocator → Outcome A

abbrev pub and_then : {A B : Type 0} → Outcome A → (A → M B) → Outcome B
and_then (ok a s) k = k a s
and_then (err e s) k = err e s
and_then panic k = panic
and_then out_of_fuel k = out_of_fuel

infixl 5 ◌>>=◌ ◌>>◌
abbrev pub ◌>>=◌ : {A B : Type 0} → M A → (A → M B) → M B
◌>>=◌ m k s = and_then (m s) k

abbrev pub ◌>>◌ : {A B : Type 0} → M A → M B → M B
◌>>◌ m k s = and_then (m s) (λ _. k)

abbrev pub pure : {A : Type 0} → A → M A
pure a s = ok a s

abbrev pub fail : {A : Type 0} → MemoryError → M A
fail e s = err e s

abbrev pub abort : {A : Type 0} → M A
abort s = panic

abbrev pub assert : Bool → M (Unit {0})
assert true s = ok tt s
assert false s = panic

-- The state, and its fields that are not the pool.
abbrev pub get : M MemoryAllocator
get s = ok s s

abbrev pub set_free_size : ℕ → M (Unit {0})
set_free_size n s = ok tt (record s { free_size = n })

abbrev pub set_first_entry : Option ℕ → M (Unit {0})
set_first_entry f s = ok tt (record s { first_entry = f })

-- `free_list[order]`
abbrev pub head_of : ℕ → M (Option ℕ)
head_of order s = elim (get_elem? s.free_list order) [ none ↦ panic | some h ↦ ok h s ]

abbrev pub set_head : ℕ → Option ℕ → M (Unit {0})
set_head order h s = ok tt (record s { free_list = set s.free_list order h })

-- The entry behind a reference, and a change of it.
abbrev pub load : ℕ → M MemoryEntry
load i s = elim (get_elem? s.pool i) [ none ↦ panic | some e ↦ ok e s ]

abbrev pub store : ℕ → MemoryEntry → M (Unit {0})
store i e s = ok tt (record s { pool = set s.pool i e })

abbrev pub update : ℕ → (MemoryEntry → MemoryEntry) → M (Unit {0})
update i f = load i >>= λ e. store i (f e)
