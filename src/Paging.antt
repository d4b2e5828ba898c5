-- ===== src/Paging.antt =====
-- mm/paging.cpp and include/paging.h: the page table entries, and the allocator of page frames.
pub mod Words
pub mod Pte
pub mod Pde
pub mod Entry
pub mod Frames
pub mod Search
pub mod Mapping
pub mod Alloc
pub mod Invariant
pub mod Free
pub mod Boot
