-- ===== src/Fl2/Free.antt =====
-- runtime/FL2Allocator/PoolAllocator.cpp: `poolfree_internal` of a pool. What is given to `free` is a
-- result.
use poolalloc_3_1_upstreamed.Prelude.{
  ℕ, zero, suc, ◌+◌, ◌-◌, ◌%◌, ◌^◌, List, [], ◌∷◌, ◌==◌, if◌then◌else◌,
}
use poolalloc_3_1_upstreamed.Prelude.Results.{Result, returned, assert_failed, out_of_fuel, ◌>>=◌}
use poolalloc_3_1_upstreamed.Fl2.Memory.{
  Traits, State, put, pool_base, index_to_fnh_ptr, add_node_to_free_list, unlink_free_node,
}
use poolalloc_3_1_upstreamed.Fl2.Alloc.{clear_mark}

-- "If the node immediately after this one is also free, merge it into node": the size at the end.
-- `node` is the address behind the header.
unfoldable pub merge_next : ℕ → Traits → State → ℕ → ℕ → Result (State × ℕ)
merge_next zero t s node size = out_of_fuel
merge_next (suc fuel) t s node size =
    let next = node + size in
    let rest = unlink_free_node t s next >>= λ s'.
    merge_next fuel t s' node ((size + t.header + s'.size_at next) % 2 ^ 32) in
    if s.size_at next % 2 == 0 then rest else returned (s, size)

abbrev pub grow_node : Traits → State → ℕ → ℕ → State
grow_node t s node size = record s {
  size_at = put s.size_at node (s.size_at node + size + t.header);
}

-- The node becomes a free one of its own.
abbrev pub add_freed : Traits → State → ℕ → ℕ → Result State
add_freed t s fnh size = add_node_to_free_list t (record s { size_at = put s.size_at fnh size }) fnh

-- The freed node is merged with the first of `OtherFreeList`, or added.
unfoldable pub merge_other : Traits → State → ℕ → ℕ → Result State
merge_other t s fnh size =
    let other = index_to_fnh_ptr t (pool_base s) s.pool.other_free_list in
    if s.pool.other_free_list == 0
    then add_freed t s fnh size
    else if other + t.header + s.size_at other == fnh
    then returned (grow_node t s other size)
    else add_freed t s fnh size

-- It is merged with the first of `ObjFreeList`, which changes lists, or the other case.
unfoldable pub merge_object : Traits → State → ℕ → ℕ → Result State
merge_object t s fnh size =
    let object = index_to_fnh_ptr t (pool_base s) s.pool.obj_free_list in
    if s.pool.obj_free_list == 0
    then merge_other t s fnh size
    else if object + t.header + s.size_at object == fnh
    then (unlink_free_node t s object >>= λ s'.
        add_node_to_free_list t (grow_node t s' object size) object)
    else merge_other t s fnh size

unfoldable pub unlink_large : ℕ → List ℕ → List ℕ
unlink_large lah [] = []
unlink_large lah (a ∷ rest) = if a == lah then rest else a ∷ unlink_large lah rest

-- "LargeArrayCase".
unfoldable pub free_large : Traits → State → ℕ → State × List ℕ
free_large t s node =
    let lah = node - t.large_header in
    (
      record s { pool = record s.pool { large_arrays = unlink_large lah s.pool.large_arrays } },
      lah ∷ [],
    )

unfoldable pub free_node : ℕ → Traits → State → ℕ → ℕ → Result (State × List ℕ)
free_node fuel t s node size =
    merge_next fuel t s node size >>= (λ m. merge_object t m.0 (node - t.header) m.1) >>= λ s'.
    returned (s', [])

-- `FNH->Header.Size & ~1`, an `unsigned`.
abbrev pub size_of : Traits → State → ℕ → ℕ
size_of t s node = clear_mark (s.size_at (node - t.header)) % 2 ^ 32

-- The sizes of which the lowest bit says that the node is allocated; `~1U` is a large array's.
unfoldable pub poolfree_internal : ℕ → Traits → State → ℕ → Result (State × List ℕ)
poolfree_internal fuel t s node =
    if node == 0
    then returned (s, [])
    else if s.size_at (node - t.header) % 2 == 0
    then assert_failed
    else if size_of t s node == 2 ^ 32 - 2
    then returned (free_large t s node)
    else free_node fuel t s node (size_of t s node)
