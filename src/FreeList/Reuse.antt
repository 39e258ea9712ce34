-- ===== src/FreeList/Reuse.antt =====
-- runtime/FreeListAllocator/PoolAllocator.cpp: blocks that are handed out again.
use native.Mathlib.Nat.{mul-div_left, mul-div_right, mul-add-div_right, div-eq_of_lt}
use poolalloc_3_1_upstreamed.Prelude.{
  ℕ, ◌+◌, ◌-◌, ◌*◌, ◌/◌, ◌%◌, ◌^◌, ◌≤◌, ◌<◌, ◌≡◌, ◌≢◌, refl, sym, ap, ◌∙◌, true, false, ltb, ◌==◌,
  if◌then◌else◌, arith,
}
use poolalloc_3_1_upstreamed.FreeList.Slab.{State, Sizes, Space, returned, block_list, owner}
use poolalloc_3_1_upstreamed.FreeList.Pool.{
  recycled_node, alloc_node, poolalloc, free_node, poolfree,
}

-- Block `i` of the slab `at` of a page: the page begins there, and ends below 4 GB.
pub record IsBlock (y : Sizes) (s : State) (at i block : ℕ) : Type 0 where
  pub plain : (s.headers at).is_array ≡ false
  pub page : ℕ
  pub aligned : at ≡ page * s.pages.page_size
  pub below : at + s.pages.page_size ≤ 2 ^ 32
  pub address : block ≡ (s.headers at).data_area + s.pool.node_size * i
  pub above_slab : at < block
  pub inside : block < at + s.pages.page_size
  pub node_inside : block_list y at i < at + s.pages.page_size
  pub size_pos : 0 < s.pool.node_size
  pub pointer_pos : 0 < y.pointer
  pub header_pos : 0 < y.header

owner_lem :
    (size page offset : ℕ)
    → offset < size
    → page * size + size ≤ 2 ^ 32
    → owner size (page * size + offset) ≡ page * size
unfolding owner
owner_lem size page offset h small =
    let whole : (page * size + offset) % 2 ^ 32 ≡ page * size + offset = omega arith in
    let quotient : (page * size + offset) / size ≡ page =
      grind (arith, mul-add-div_right {m = size} (omega arith) page offset, div-eq_of_lt h) in
    rw whole (rw quotient refl)

module _ (y : Sizes) (env : Space) (fuel : ℕ) (s : State) (at i block : ℕ)
    (is : IsBlock y s at i block) where
  abbrev size : ℕ
  size = s.pages.page_size

  owner-inside : (p : ℕ) → at ≤ p → p < at + size → owner size p ≡ at
  owner-inside p lo hi =
      let place : is.page * size + (p - at) ≡ p = omega (arith, is.aligned) in
      let small : is.page * size + size ≤ 2 ^ 32 = omega (arith, is.aligned, is.below) in
      ap (owner size) (sym place)
      ∙ owner_lem size is.page (p - at) (omega (arith, lo, hi)) small
      ∙ sym is.aligned

  -- The state after `poolfree`.
  abbrev freed : State
  freed = record s {
    links = λ a. if a == block_list y at i then s.pool.free_list else s.links a;
    pool = record s.pool { free_list = block_list y at i };
  }

  poolfree-block : poolfree y s block ≡ returned freed
  unfolding poolfree free_node
  poolfree-block =
      let home = owner-inside block (omega (arith, is.above_slab)) is.inside in
      let index : (block - (s.headers at).data_area) / s.pool.node_size ≡ i =
        ap (λ n. n / s.pool.node_size) (omega (arith, is.address)) ∙ mul-div_right i is.size_pos in
      let some_block : (block == 0) ≡ false = ground (arith, is.above_slab) in
      simp (some_block, home, is.plain, index)

  recycled_node-freed : recycled_node y freed ≡ (record freed { pool = s.pool }, block)
  unfolding recycled_node
  recycled_node-freed =
      let home = owner-inside (block_list y at i) (omega arith) is.node_inside in
      let index : (block_list y at i - block_list y at 0) / y.pointer ≡ i =
        ap (λ n. n / y.pointer) (omega arith) ∙ mul-div_left i is.pointer_pos in
      let self : (block_list y at i == block_list y at i) ≡ true = ground arith in
      simp (home, index, self, sym is.address)

  -- `poolfree` of a node, then `poolalloc` of at most a node, where the first slab is used up: the
  -- same node comes back, and the pool is as it was.
  pub poolalloc-poolfree :
      (bytes : ℕ)
      → bytes ≤ s.pool.node_size
      → s.pool.slabs ≢ 0
      → (s.headers s.pool.slabs).nodes_per_slab ≤ (s.headers s.pool.slabs).next_free_data
      → (freed after : State) × (poolfree y s block ≡ returned freed)
        × (poolalloc y env fuel freed bytes ≡ returned (after, block))
        × (after.pool ≡ s.pool)
  unfolding poolalloc alloc_node
  poolalloc-poolfree bytes le slab full =
      let fits : ltb s.pool.node_size (if bytes == 0 then 1 else bytes) ≡ false =
        ground (arith, is.size_pos) in
      let first : (s.pool.slabs == 0) ≡ false = ground arith in
      let used_up : ltb (s.headers s.pool.slabs).next_free_data
            (s.headers s.pool.slabs).nodes_per_slab
          ≡ false =
        ground arith in
      let node : (block_list y at i == 0) ≡ false = ground (arith, is.header_pos) in
      (
        freed,
        record freed { pool = s.pool },
        poolfree-block,
        simp (fits, first, used_up, node, recycled_node-freed),
        refl,
      )
