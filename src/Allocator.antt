-- ===== src/Allocator.antt =====
-- src/memory_allocator.rs: a pool of 64 entries, each a range of free addresses, chained in the order of
-- addresses and, by size, on one of twelve free lists. A reference to an entry is its place in the pool.
pub mod Monad
pub mod Align
pub mod Pool
pub mod FreeList
pub mod Used
pub mod Free
pub mod Allocate
pub mod Placement
