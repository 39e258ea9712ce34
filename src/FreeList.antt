-- ===== src/FreeList.antt =====
-- runtime/FreeListAllocator: the page manager, and the pool allocator that keeps a list of the free
-- nodes.
mod Pages
mod Apart
mod Slab
mod Pool
mod Reuse
mod Destroy
mod Arrays
mod Bounds
mod Examples
