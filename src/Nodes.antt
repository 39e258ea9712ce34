-- ===== src/Nodes.antt =====
-- lib/DSA/DataStructure.cpp, include/dsa/DSNode.h and include/dsa/DSSupport.h: the nodes of a data
-- structure graph, their handles, folding and merging.
pub mod Graph
pub mod Types
pub mod Merge
pub mod Infer
pub mod Globals
pub mod Offsets
mod Fold
mod Folded
mod Join
mod Merged
mod MergeWith
mod Examples
pub mod Safety
mod Safe
