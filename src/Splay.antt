-- ===== src/Splay.antt =====
-- include/poolalloc_runtime/Support/SplayTree.h: the range splay tree.
pub mod Tree
pub mod Order
pub mod Rounds
pub mod Range
pub mod Lookup
pub mod Clear
pub mod Refine
mod Examples
