-- ===== src/BitMaskPool.antt =====
-- runtime/PoolAllocator: the pool allocator that keeps a bit vector of the nodes of each slab.
pub mod Slab
pub mod Nodes
pub mod Alloc
pub mod AllocMany
pub mod Free
pub mod Reuse
pub mod Pool
pub mod Layout
mod Examples
