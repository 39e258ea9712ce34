-- ===== src/Heuristics.antt =====
-- lib/PoolAllocate/Heuristic.cpp: which nodes get a pool.
mod Pools
mod Chosen
mod Memory
mod Globals
mod Heap
mod Mirrored
mod Examples
