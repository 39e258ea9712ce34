-- ===== src/Graphs.antt =====
-- lib/DSA/DSGraph.cpp, and the call sites of include/dsa/DSSupport.h: walks over the nodes of a graph.
pub mod Walk
pub mod Closed
mod Sites
pub mod Reach
pub mod Reached
mod Marked
mod Spread
pub mod Scc
mod Missed
mod Alive
mod Dropped
mod Pushed
mod Examples
