-- ===== src/Fl2.antt =====
-- runtime/FL2Allocator: the pool allocator whose free nodes are on two doubly linked lists, with
-- its bump pointer and pointer compression libraries.
mod Memory
mod Slab
mod Alloc
mod Free
mod Pool
mod Bump
mod Compressed
mod Trace
mod Links
mod Relink
mod Lists
mod Added
mod Unlink
mod Objects
mod Search
mod Growth
mod Exhausted
mod Mapping
mod Large
mod BumpFits
mod Examples
