-- ===== src/FreeList/Pool.antt =====
-- runtime/FreeListAllocator/PoolAllocator.cpp: the functions of the library. Fuel bounds the length
-- of a list of slabs that a call walks.
use poolalloc_3_1_upstreamed.Prelude.{
  ℕ, zero, suc, ◌+◌, ◌-◌, ◌*◌, ◌/◌, ◌%◌, ◌^◌, Bool, true, not, ◌&&◌, Option, none, some, ltb, leb,
  ◌==◌, if◌then◌else◌,
}
use poolalloc_3_1_upstreamed.FreeList.Pages.{Pages, initialize_page_manager, free_page}
use poolalloc_3_1_upstreamed.FreeList.Slab.{
  State, Sizes, Space, Result, returned, assert_failed, out_of_fuel, ◌>>=◌, set_header, block_list,
  create_slab, owner,
}

-- `poolinit`, where `sysconf` reports `system`. `PageSize` is over `sizeof (struct SlabHeader)`.
unfoldable pub poolinit : Sizes → ℕ → State → ℕ → State
poolinit y system s node_size = record s {
  pool = record {
    node_size = if node_size == 0 then 1 else node_size;
    max_nodes_per_page = (s.pages.page_size - y.header) / (y.pointer + node_size);
    slabs = 0;
    array_slabs = 0;
    fast_array = 0;
    free_list = 0;
  };
  pages = initialize_page_manager system s.pages;
}

unfoldable pub poolmakeunfreeable : State → State
poolmakeunfreeable s = s

abbrev pub give_back : State → Option Pages → Result State
give_back s none = assert_failed
give_back s (some pages') = returned (record s { pages = pages' })

-- The page of a slab is given back, if the page manager has it.
unfoldable pub freed_slab : State → ℕ → Result State
freed_slab s at =
    if (s.headers at).is_managed then give_back s (free_page s.pages at) else returned s

-- The loop of `pooldestroy` from the slab `at` on.
unfoldable pub destroy_slabs : ℕ → State → ℕ → Result State
destroy_slabs zero s at = out_of_fuel
destroy_slabs (suc fuel) s at =
    if at == 0
    then returned s
    else freed_slab s at >>= (λ s'. destroy_slabs fuel s' (s.headers at).next)

unfoldable pub pooldestroy : ℕ → State → Result State
pooldestroy fuel s = destroy_slabs fuel s s.pool.slabs

-- `Prevp`: the address of the pool's `ArraySlabs`, or of a slab's `Next`.
pub data Link : Type 0 where
  array_slabs_field : Link
  next_field : ℕ → Link

-- `*Prevp`.
abbrev pub read_link : State → Link → ℕ
read_link s array_slabs_field = s.pool.array_slabs
read_link s (next_field at) = (s.headers at).next

-- The array slab that has room, with `Prevp` as it is there.
unfoldable pub scan_arrays : ℕ → State → Link → ℕ → ℕ → Result (Option (Link × ℕ))
scan_arrays zero s prev at size = out_of_fuel
scan_arrays (suc fuel) s prev at size =
    if at == 0
    then returned none
    else if leb size (s.headers at).nodes_per_slab
    then returned (some (prev, at))
    else scan_arrays fuel s (next_field at) (s.headers at).next size

abbrev pub set_next : State → ℕ → ℕ → State
set_next s at to = set_header s at (record (s.headers at) { next = to })

-- The array slab is taken: `(*Prevp)->Next = Slabp->Next`, and its counts are set.
unfoldable pub take_array : State → ℕ → Link × ℕ → State × ℕ
take_array s size (prev, at) =
    let s' = set_next s (read_link s prev) (s.headers at).next in
    let h = s'.headers at in
    (
      set_header s' at
          (record h { live_nodes = (h.live_nodes + 1) % 2 ^ 32; next_free_data = size }),
      h.data_area,
    )

-- The new slab of an array.
unfoldable pub use_array : State × ℕ → ℕ → State × ℕ
use_array (s, at) size =
    let h = record (s.headers at) { is_array = true; live_nodes = 1; next_free_data = size } in
    let s' = set_header s at h in
    if h.is_managed && not (size == s.pool.max_nodes_per_page)
    then (record s' { pool = record s'.pool { fast_array = at } }, h.data_area)
    else (s', h.data_area)

unfoldable pub scanned : Sizes → Space → State → ℕ → Option (Link × ℕ) → Result (State × ℕ)
scanned y env s size none = create_slab y env s size >>= (λ made. returned (use_array made size))
scanned y env s size (some place) = returned (take_array s size place)

-- The nodes are taken from the `FastArray`.
unfoldable pub take_fast : State → ℕ → State × ℕ
take_fast s size =
    let at = s.pool.fast_array in
    let h = s.headers at in
    let used = (h.next_free_data + size) % 2 ^ 32 in
    let s' =
      set_header s at
        (record h { live_nodes = (h.live_nodes + 1) % 2 ^ 32; next_free_data = used }) in
    let block = h.data_area + (s.pool.node_size * h.next_free_data) % 2 ^ 32 in
    if leb s.pool.max_nodes_per_page used
    then (record s' { pool = record s'.pool { fast_array = 0 } }, block)
    else (s', block)

-- Whether the `FastArray` has room; the subtraction is one of `unsigned`.
abbrev pub fast_fits : State → ℕ → Bool
fast_fits s size =
    not (s.pool.fast_array == 0)
    && leb size (
        (s.pool.max_nodes_per_page + 2 ^ 32 - (s.headers s.pool.fast_array).next_free_data)
        % 2 ^ 32)

unfoldable pub poolallocarray : Sizes → Space → ℕ → State → ℕ → Result (State × ℕ)
poolallocarray y env fuel s size =
    if fast_fits s size
    then returned (take_fast s size)
    else scan_arrays fuel s array_slabs_field s.pool.array_slabs size >>= scanned y env s size

-- The first node of a new slab, which goes to the front of `Slabs`.
unfoldable pub first_node : ℕ → State × ℕ → State × ℕ
first_node behind (s, at) =
    let h = s.headers at in
    let s' = set_header s at (record h { next_free_data = h.next_free_data + 1; next = behind }) in
    (record s' { pool = record s'.pool { slabs = at } }, h.data_area)

-- The next node of the first slab of `Slabs`.
unfoldable pub next_node : State → State × ℕ
next_node s =
    let h = s.headers s.pool.slabs in
    (
      set_header s s.pool.slabs (record h { next_free_data = h.next_free_data + 1 }),
      h.data_area + (s.pool.node_size * h.next_free_data) % 2 ^ 32,
    )

-- The first node of the free list.
unfoldable pub recycled_node : Sizes → State → State × ℕ
recycled_node y s =
    let node = s.pool.free_list in
    let at = owner s.pages.page_size node in
    (
      record s { pool = record s.pool { free_list = s.links node } },
      (s.headers at).data_area + s.pool.node_size * ((node - block_list y at 0) / y.pointer),
    )

-- `poolalloc` of at most one node.
unfoldable pub alloc_node : Sizes → Space → State → Result (State × ℕ)
alloc_node y env s =
    if s.pool.slabs == 0
    then create_slab y env s 0 >>= (λ made. returned (first_node 0 made))
    else if ltb (s.headers s.pool.slabs).next_free_data (s.headers s.pool.slabs).nodes_per_slab
    then returned (next_node s)
    else if s.pool.free_list == 0
    then create_slab y env s 0 >>= (λ made. returned (first_node s.pool.slabs made))
    else returned (recycled_node y s)

unfoldable pub poolalloc : Sizes → Space → ℕ → State → ℕ → Result (State × ℕ)
poolalloc y env fuel s bytes_wanted =
    let bytes = if bytes_wanted == 0 then 1 else bytes_wanted in
    if ltb s.pool.node_size bytes
    then poolallocarray y env fuel s ((bytes + s.pool.node_size - 1) % 2 ^ 32 / s.pool.node_size)
    else alloc_node y env s

-- `poolfree` of a block of an array slab.
unfoldable pub free_array : State → ℕ → State
free_array s at =
    let h = s.headers at in
    let live = (h.live_nodes + 2 ^ 32 - 1) % 2 ^ 32 in
    if live == 0
    then record (set_header s at (record h { live_nodes = live; next = s.pool.array_slabs })) {
      pool = record s.pool { array_slabs = at };
    }
    else set_header s at (record h { live_nodes = live })

-- `poolfree` of a node; its address is not below `Data`.
unfoldable pub free_node : Sizes → State → ℕ → ℕ → State
free_node y s at block =
    let node = block_list y at ((block - (s.headers at).data_area) / s.pool.node_size) in
    record s {
      links = λ a. if a == node then s.pool.free_list else s.links a;
      pool = record s.pool { free_list = node };
    }

unfoldable pub poolfree : Sizes → State → ℕ → Result State
poolfree y s block =
    if block == 0
    then assert_failed
    else let at = owner s.pages.page_size block in
      if (s.headers at).is_array
      then returned (free_array s at)
      else returned (free_node y s at block)
