-- ===== src/Manager.antt =====
-- include/poolalloc_runtime/PoolAllocator.h: the slab managers.
pub mod Malloc
pub mod MallocLaws
pub mod BitMask
pub mod BitMaskLaws
mod Examples
