-- ===== src/Fl2/Alloc.antt =====
-- runtime/FL2Allocator/PoolAllocator.cpp: `poolalloc_internal` of a pool. The addresses that `malloc`
-- returns are a list: a growing pool takes one in each round, a large array takes the first.
use poolalloc_3_1_upstreamed.Prelude.{
  ℕ, zero, suc, ◌+◌, ◌-◌, ◌*◌, ◌/◌, ◌%◌, ◌^◌, Bool, ◌&&◌, not, Option, none, some, List, [], ◌∷◌,
  ltb, leb, ◌==◌, if◌then◌else◌,
}
use poolalloc_3_1_upstreamed.Prelude.Results.{
  Result, returned, aborted, assert_failed, out_of_fuel, ◌>>=◌,
}
use poolalloc_3_1_upstreamed.Fl2.Memory.{
  Traits, State, put, pool_base, index_to_fnh_ptr, add_node_to_free_list, unlink_free_node,
}
use poolalloc_3_1_upstreamed.Fl2.Slab.{round_size, create}

-- `Size|1`, and `Size & ~1`.
abbrev pub set_mark : ℕ → ℕ
set_mark n = n / 2 * 2 + 1

abbrev pub clear_mark : ℕ → ℕ
clear_mark n = n / 2 * 2

-- "Mark as allocated": the address behind the header.
abbrev pub mark_allocated : Traits → State → ℕ → ℕ → State × ℕ
mark_allocated t s node bytes =
    (record s { size_at = put s.size_at node (set_mark bytes) }, node + t.header)

-- "Allocate objects off the object list."
unfoldable pub take_object : Traits → State → ℕ → Result (State × ℕ)
take_object t s bytes =
    let node = index_to_fnh_ptr t (pool_base s) s.pool.obj_free_list in
    unlink_free_node t s node >>= λ s'.
    if s'.size_at node == bytes then returned (mark_allocated t s' node bytes) else assert_failed

-- "Put the remainder back on the list."
unfoldable pub split_node : Traits → State → ℕ → ℕ → ℕ → Result (State × ℕ)
split_node t s node size bytes =
    let rest = node + t.header + bytes in
    add_node_to_free_list t (record s { size_at = put s.size_at rest (size - bytes - t.header) })
      rest
    >>= λ s'. returned (mark_allocated t s' node bytes)

-- A node is taken off its list. If `split`, what is behind `bytes` goes back on a list; `size` is the
-- size of the node as the code has read it.
unfoldable pub take_node : Traits → State → ℕ → ℕ → ℕ → Bool → Result (State × ℕ)
unfolding split_node
take_node t s node size bytes split = unlink_free_node t s node >>= λ s'.
    if split
    then split_node t s' node size bytes
    else returned (mark_allocated t s' node (size % 2 ^ 32))

-- "Search the list for the first-fit": null if there is none.
unfoldable pub first_fit : ℕ → Traits → State → ℕ → ℕ → Result ℕ
first_fit zero t s node bytes = out_of_fuel
first_fit (suc fuel) t s node bytes =
    let rest = first_fit fuel t s (index_to_fnh_ptr t (pool_base s) (s.next_at node)) bytes in
    if node == 0 then returned 0 else if ltb (s.size_at node) bytes then rest else returned node

-- `2*NumBytes+sizeof(NodeHeader)`.
abbrev pub split_bound : Traits → ℕ → ℕ
split_bound t bytes = (2 * bytes) % 2 ^ 32 + t.header

-- What is behind the search, of the node that it found.
unfoldable pub take_found : Traits → State → ℕ → ℕ → Result (Option (State × ℕ))
take_found t s bytes node =
    if node == 0
    then returned none
    else take_node t s node (s.size_at node) bytes (ltb (split_bound t bytes) (s.size_at node))
      >>= λ r. returned (some r)

-- A round of the loop, up to the growth of the pool: `none` if no free node is large enough.
unfoldable pub take_other : ℕ → Traits → State → ℕ → Result (Option (State × ℕ))
take_other fuel t s bytes =
    let first = index_to_fnh_ptr t (pool_base s) s.pool.other_free_list in
    let size = s.size_at first % 2 ^ 32 in
    if first == 0
    then returned none
    else if leb bytes size
    then (take_node t s first size bytes (leb (split_bound t bytes) size) >>= λ r.
        returned (some r))
    else first_fit fuel t s first bytes >>= take_found t s bytes

-- The `do` loop; each round that grows the pool takes an address.
unfoldable pub alloc_loop : ℕ → Traits → List ℕ → State → ℕ → Result (State × ℕ)
alloc_loop fuel t [] s bytes = out_of_fuel
alloc_loop fuel t (ps ∷ mems) s bytes = take_other fuel t s bytes >>= λ r. elim r [
  | some done ↦ returned done
  | none ↦
      if t.can_grow_pool
      then (create t s bytes ps >>= λ s'. alloc_loop fuel t mems s' bytes)
      else aborted
]

-- "LargeObject": `~0U` is the marker that stands where a node has its header.
unfoldable pub alloc_large : Traits → List ℕ → State → ℕ → Result (State × ℕ)
alloc_large t [] s bytes = out_of_fuel
alloc_large t (lah ∷ mems) s bytes = returned (
  record s {
    pool = record s.pool { large_arrays = lah ∷ s.pool.large_arrays };
    large_size = put s.large_size lah bytes;
    size_at = put s.size_at (lah + t.large_header - t.header) (2 ^ 32 - 1);
  },
  lah + t.large_header,
)

-- `poolalloc_internal` behind the rounding of the size.
unfoldable pub alloc_rounded : ℕ → Traits → List ℕ → State → ℕ → Result (State × ℕ)
alloc_rounded fuel t mems s bytes =
    if (bytes == s.pool.declared_size) && not (s.pool.obj_free_list == 0)
    then take_object t s bytes
    else if t.use_large_array_objects && leb (4096 - t.slab - t.header) bytes
    then alloc_large t mems s bytes
    else alloc_loop fuel t mems s bytes

unfoldable pub poolalloc_internal : ℕ → Traits → List ℕ → State → ℕ → Result (State × ℕ)
poolalloc_internal fuel t mems s num_bytes =
    alloc_rounded fuel t mems s (round_size t s.pool.alignment num_bytes)
