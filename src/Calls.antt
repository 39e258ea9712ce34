-- ===== src/Calls.antt =====
-- include/dsa/DSCallGraph.h and lib/DSA/DSCallGraph.cpp: the call graph.
mod Graph
mod Maps
mod Scc
mod Merged
mod Callers
mod Quotient
mod Roots
mod Examples
