-- ===== src/Lib.antt =====
-- Verification library for the runtimes of the pool allocator and of the dynamic type checks.
--
-- The repository is a compiler extension: passes over LLVM's intermediate representation (lib/,
-- include/dsa, include/rdsa, include/poolalloc) find the data structures of a program and give
-- each one a pool, and emit calls of the runtimes. The runtimes (runtime/, and
-- include/poolalloc_runtime), and of the data structure graphs the nodes, the sets, the walks, the
-- call graph and the heuristics that choose the nodes with pools are what is modelled here; the passes
-- work on the data types of LLVM, which are not in the repository, and are not modelled.
--
-- Prelude: the names that all modules share, Boolean tests, and lemmas on lists.
-- Flags: bit vectors, as functions from a word and a bit.
-- Splay: include/poolalloc_runtime/Support/SplayTree.h. A tree holds ranges; pointers to subtrees
--   are subtrees, and the chains `l` and `r` of `splay` are lists of what was linked (Splay/Tree).
--   Splay/Range has `__insert`, `__remove`, `__find`, `__clear` and the set and map on top. The
--   specification is a sorted list of ranges (Splay/Lookup, Splay/Refine).
-- Manager: include/poolalloc_runtime/PoolAllocator.h. Manager/Malloc is `MallocSlabManager`, whose
--   objects are a splay tree of ranges; Manager/BitMask is `BitMaskSlabManager`.
-- BitMaskPool: runtime/PoolAllocator/PoolAllocatorBitMask.cpp. BitMaskPool/Slab has the slab and
--   its nodes, BitMaskPool/Pool the pool and the functions of the library.
-- FreeList: runtime/FreeListAllocator. FreeList/Pages is PageManager.cpp; FreeList/Slab and
--   FreeList/Pool are PoolSlab.h, PoolAllocator.h and PoolAllocator.cpp, over a memory that maps
--   addresses to slab headers and to links.
-- Fl2: runtime/FL2Allocator. What the headers of nodes hold are maps from addresses (Fl2/Memory,
--   with `AddNodeToFreeList` and `UnlinkFreeNode`). Fl2/Slab is `PoolSlab`; Fl2/Alloc and Fl2/Free
--   are `poolalloc_internal` and `poolfree_internal` for either `PoolTraits`, Fl2/Pool the
--   functions on top, Fl2/Bump, Fl2/Compressed and Fl2/Trace the other libraries of the file. The
--   theorems are in Fl2/Links to Fl2/Unlink (doubly linked lists) and in the files behind them.
-- Nodes: the nodes of data structure graphs, of lib/DSA/DataStructure.cpp, include/dsa/DSNode.h and
--   include/dsa/DSSupport.h. Nodes/Graph has nodes, handles and forwarding, Nodes/Types the sets of
--   types, which are places of Sets/Super, Nodes/Merge folding and `mergeWith`, Nodes/Infer what
--   reads the types of LLVM, Nodes/Globals the globals and `cleanEdges`, and Nodes/Safety the checks
--   of lib/DSA/TypeSafety.cpp.
-- Graphs: lib/DSA/DSGraph.cpp, and the call sites of include/dsa/DSSupport.h (Graphs/Sites).
--   Graphs/Reach has the walks that mark nodes, Graphs/Scc `HackedGraphSCCFinder` and Graphs/Alive
--   what `removeDeadNodes` keeps. Graphs/Walk is a walk over the targets of nodes, which the walks of
--   the code are proved to be.
-- Heuristics: lib/PoolAllocate/Heuristic.cpp. Heuristics/Pools has the pools that a heuristic asks
--   for, where LLVM's depth-first iterator is an argument, and Heuristics/Globals the nodes that get
--   a global pool or a local one, where the result of `computeGToGGMapping` is an argument.
-- Calls: include/dsa/DSCallGraph.h and lib/DSA/DSCallGraph.cpp. Calls/Graph has the maps and what is
--   done with the classes of functions, which LLVM keeps and which are an argument, and Calls/Scc
--   Tarjan's algorithm.
-- Sets: include/dsa/svset.h (Sets/Svset), with the set of keys as its specification (Sets/Refine),
--   and include/dsa/super_set.h (Sets/Super).
-- Shadow: runtime/DynamicTypeChecks/TypeRuntime.cpp. The shadow memory is a map from masked
--   addresses to tags, and what is printed is a list of reports, the latest first.
--
-- An operation takes the state and returns the new one. An address is a natural number, and null is
-- 0. `unsigned` and `unsigned short` fields wrap where the code computes with them. What comes from
-- outside (mmap, malloc, strlen, sysconf, the memory that a pointer reaches) is an argument. A
-- failed assert, a read of null and a call of abort are values (`Checked`, `Result`, `Outcome`).
--
-- Bounds and fuel: the loop of `splay` gets the number of nodes as fuel, and one of its rounds goes
-- down at least one node; the stack of `__clear` likewise. The search of `allocateMultiple` gets as
-- many rounds as the slab has nodes and one more, and moves on in each, where no sum wraps. The
-- loops of `checkType` get 2^32 rounds at a size that `unsigned` cannot reach, and then do not end.
-- The walks of the free list allocator over its lists of slabs take their fuel as an argument,
-- since a list can have a cycle; where it has none, more than its length is enough. The searches
-- and merges of the FL2 allocator take fuel for the same reason; each new slab takes an address
-- that malloc returned, and two are enough. `getNode` follows as many nodes as the graph has, and
-- one more; `mergeWith` spends its fuel in the calls of itself, of which merging of links can make
-- many. The walks that mark nodes take one unit more than the graph has nodes, and that is enough;
-- `find_alive` and Tarjan's algorithm take theirs as an argument. `wants_eight` goes as deep as the
-- types nest.
--
-- Not modelled: the compiler passes, but for what is named above; of the nodes the counts of
-- referrers, with which nodes go away, and `ReachabilityCloner`; of the graphs the scalar map, cloning
-- and what goes by the values of LLVM; of the heuristics `HackFunctionBody`, which rewrites functions
-- of LLVM; runtime/PreRT, runtime/HeapFrag, runtime/DynCount and tools/; of runtime/FL2Allocator what
-- is under USE_DYNCALL, the pool numbers, the statistics, the locks and the bytes of the blocks;
-- `CompoundSlabManager`, `LinuxMmap` and the class template `PoolAllocator` of
-- include/poolalloc_runtime/PoolAllocator.h; the page manager beside the bit mask allocator.
pub mod Prelude
pub mod Flags
pub mod Splay
pub mod Manager
pub mod BitMaskPool
pub mod FreeList
pub mod Fl2
pub mod Nodes
pub mod Graphs
pub mod Heuristics
pub mod Calls
pub mod Sets
pub mod Shadow
