-- ===== src/Fl2/Memory.antt =====
-- runtime/FL2Allocator: PoolAllocator.h, and the two free lists of PoolAllocator.cpp. An address is
-- a number and null is 0; what the headers of the nodes hold are maps from addresses. The list of
-- the slabs, and that of the large arrays, are the lists of their addresses.
use poolalloc_3_1_upstreamed.Prelude.{
  ℕ, ◌+◌, ◌-◌, ◌^◌, Bool, true, false, List, [], ◌∷◌, ◌==◌, if◌then◌else◌,
}
use poolalloc_3_1_upstreamed.Prelude.Results.{Result, returned, assert_failed, ◌>>=◌}

-- A `PoolTraits`: `sizeof` of `NodeHeader`, `FreedNodeHeader`, `PoolSlab` and `LargeArrayHeader`, the
-- largest value of `NodeHeaderType`, and whether pointers are indexes from the base of the pool.
pub record Traits : Type 0 where
  pub header : ℕ
  pub freed : ℕ
  pub slab : ℕ
  pub large_header : ℕ
  pub all_ones : ℕ
  pub use_large_array_objects : Bool
  pub can_grow_pool : Bool
  pub compressed : Bool

abbrev pub normal_pool_traits : Traits
normal_pool_traits = record {
  header = 8;
  freed = 24;
  slab = 8;
  large_header = 32;
  all_ones = 2 ^ 64 - 1;
  use_large_array_objects = true;
  can_grow_pool = true;
  compressed = false;
}

abbrev pub compressed_pool_traits : Traits
compressed_pool_traits = record {
  header = 4;
  freed = 12;
  slab = 8;
  large_header = 32;
  all_ones = 2 ^ 32 - 1;
  use_large_array_objects = false;
  can_grow_pool = false;
  compressed = true;
}

-- The descriptor, less the lock and the counts that only the statistics use.
pub record PoolTy : Type 0 where
  pub slabs : List ℕ
  pub obj_free_list : ℕ
  pub other_free_list : ℕ
  pub alignment : ℕ
  pub declared_size : ℕ
  pub large_arrays : List ℕ
  pub alloc_size : ℕ
  pub thread_refcount : ℕ

-- A pool and the memory: `Header.Size`, `Next` and `Prev` of the node at an address, and `Size` of
-- the large array there.
pub record State : Type 0 where
  pub pool : PoolTy
  pub size_at : ℕ → ℕ
  pub next_at : ℕ → ℕ
  pub prev_at : ℕ → ℕ
  pub large_size : ℕ → ℕ

abbrev pub put : (ℕ → ℕ) → ℕ → ℕ → ℕ → ℕ
put f a v b = if b == a then v else f b

-- `PoolBase`.
abbrev pub base_of : List ℕ → ℕ
base_of [] = 0
base_of (a ∷ slabs) = a

abbrev pub pool_base : State → ℕ
pool_base s = base_of s.pool.slabs

unfoldable pub index_to_fnh_ptr : Traits → ℕ → ℕ → ℕ
index_to_fnh_ptr t base p = if t.compressed then base + p else p

-- The assert of `CompressedPoolTraits` is that neither is null.
unfoldable pub fnh_ptr_to_index : Traits → ℕ → ℕ → Result ℕ
fnh_ptr_to_index t base p =
    if t.compressed
    then if p == 0 then assert_failed else if base == 0 then assert_failed else returned (p - base)
    else returned p

-- `AddNodeToFreeList` behind the choice of the list, whose first node was `head`.
unfoldable pub link_first : Traits → State → ℕ → ℕ → ℕ → State
link_first t s node index head = record s {
  next_at = put s.next_at node head;
  prev_at =
      if head == 0
      then put s.prev_at node 0
      else put (put s.prev_at node 0) (index_to_fnh_ptr t (pool_base s) head) index;
}

unfoldable pub add_node_to_free_list : Traits → State → ℕ → Result State
add_node_to_free_list t s node = fnh_ptr_to_index t (pool_base s) node >>= λ index.
    if s.size_at node == s.pool.declared_size
    then returned (record (link_first t s node index s.pool.obj_free_list) {
      pool = record s.pool { obj_free_list = index };
    })
    else returned (record (link_first t s node index s.pool.other_free_list) {
      pool = record s.pool { other_free_list = index };
    })

-- The last `if` of `UnlinkFreeNode`.
unfoldable pub relink_next : Traits → State → ℕ → State
relink_next t s node = if s.next_at node == 0 then s else record s {
  prev_at = put s.prev_at (index_to_fnh_ptr t (pool_base s) (s.next_at node)) (s.prev_at node);
}

-- `UnlinkFreeNode` of the first node of a list.
unfoldable pub relink_head : State → ℕ → ℕ → Result State
relink_head s node index =
    if s.pool.obj_free_list == index
    then returned (record s { pool = record s.pool { obj_free_list = s.next_at node } })
    else if s.pool.other_free_list == index
    then returned (record s { pool = record s.pool { other_free_list = s.next_at node } })
    else assert_failed

-- The first `if` of `UnlinkFreeNode`.
unfoldable pub relink_prev : Traits → State → ℕ → Result State
relink_prev t s node =
    if s.prev_at node == 0
    then (fnh_ptr_to_index t (pool_base s) node >>= relink_head s node)
    else returned (record s {
      next_at = put s.next_at (index_to_fnh_ptr t (pool_base s) (s.prev_at node)) (s.next_at node);
    })

unfoldable pub unlink_free_node : Traits → State → ℕ → Result State
unlink_free_node t s node = relink_prev t s node >>= λ s'. returned (relink_next t s' node)
