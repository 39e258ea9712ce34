-- ===== src/BitMaskPool/Examples.antt =====
-- runtime/PoolAllocator/PoolAllocatorBitMask.cpp: the theorems at slabs of four nodes.
use poolalloc_3_1_upstreamed.Prelude.{
  ℕ, ◌+◌, ◌≡◌, refl, true, false, ◌&&◌, ◌||◌, some, [], ◌∷◌, arith, ltb, leb, ◌==◌,
}
use poolalloc_3_1_upstreamed.Flags.{Flags}
use poolalloc_3_1_upstreamed.BitMaskPool.Slab.{
  PoolSlab, is_node_allocated, ok, assert_failed, is_full, allocate_single, allocate_multiple,
  free_element, finish_free, lower_marks, free_rest, shrink_used_end, last_node_allocated,
}
use poolalloc_3_1_upstreamed.BitMaskPool.Nodes.{last_allocated, last_node_allocated_lem}
use poolalloc_3_1_upstreamed.BitMaskPool.Alloc.{IsAccurate, IsTaken, allocate_single-IsTaken}
use poolalloc_3_1_upstreamed.BitMaskPool.AllocMany.{AllocatesRun, allocate_multiple-AllocatesRun}
use poolalloc_3_1_upstreamed.BitMaskPool.Free.{IsFreed, inside, free_element-Settles}
use poolalloc_3_1_upstreamed.BitMaskPool.Reuse.{IsTop, free_element_reused, free_element_asserts}
use poolalloc_3_1_upstreamed.BitMaskPool.Pool.{Layout, Pool, get_slab_size, slab_bytes}

-- The flags of a first word in which the nodes from `a` up to `b`, and from `c` up to `d`, are in
-- use, each an allocation of its own.
abbrev two_runs : ℕ → ℕ → ℕ → ℕ → Flags
two_runs a b c d w bit =
    w == 0
    && ((leb a bit && ltb bit b)
        || ((leb c bit && ltb bit d)
            || ((leb (a + 16) bit && ltb bit (b + 16)) || (leb (c + 16) bit && ltb bit (d + 16)))))

-- Nodes 0 and 1 of four are in use.
abbrev half_full : PoolSlab
half_full = record {
  is_single_array = false;
  first_unused = 2;
  used_begin = 0;
  used_end = 2;
  num_nodes_in_slab = 4;
  flags = two_runs 0 2 0 0;
}

half_full-IsAccurate : IsAccurate half_full
half_full-IsAccurate = record {
  ordered = omega arith;
  bounded = omega arith;
  short_size = omega arith;
  filled = λ i lt. ground arith;
  first_free = λ h. refl;
  end_free = λ i le. ground arith;
}

allocate_single-IsTaken_example :
    (idx : ℕ) × ((allocate_single half_full).1 ≡ some idx)
    × IsTaken half_full (allocate_single half_full).0 idx
    × IsAccurate (allocate_single half_full).0
unfolding is_full
allocate_single-IsTaken_example = allocate_single-IsTaken half_full half_full-IsAccurate refl

allocate_multiple-AllocatesRun_example : AllocatesRun half_full 2 (allocate_multiple half_full 2)
allocate_multiple-AllocatesRun_example =
    allocate_multiple-AllocatesRun half_full 2 (omega arith) (omega arith) half_full-IsAccurate refl

half_full_freed : (s' : PoolSlab) × (free_element half_full 1 ≡ ok s')
unfolding free_element finish_free lower_marks free_rest shrink_used_end
half_full_freed = (_, refl)

-- Node 0 is freed, below the allocation that starts at node 1.
free_element-Settles_example :
    (s' : PoolSlab) × (end : ℕ) × (free_element half_full 0 ≡ ok s') × IsFreed half_full s' 0 end
free_element-Settles_example =
    free_element-Settles half_full 0 refl refl refl (omega arith)
      (inside 1 (omega arith) (omega arith) refl)

last_node_allocated_lem_example :
    last_node_allocated (two_runs 0 1 3 4) 20 ≡ last_allocated (two_runs 0 1 3 4) 21
last_node_allocated_lem_example = last_node_allocated_lem (two_runs 0 1 3 4) 20

-- Node 0 is free, nodes 1 and 2 are in use.
abbrev hole_below : PoolSlab
hole_below = record {
  is_single_array = false;
  first_unused = 0;
  used_begin = 1;
  used_end = 3;
  num_nodes_in_slab = 4;
  flags = two_runs 1 3 0 0;
}

hole_below-IsTop : IsTop hole_below 2
hole_below-IsTop = record {
  accurate = record {
    ordered = omega arith;
    bounded = omega arith;
    short_size = omega arith;
    filled = λ i lt. absurd (omega arith);
    first_free = λ h. refl;
    end_free = λ i le. ground arith;
  };
  plain = refl;
  used = refl;
  start = refl;
  top = refl;
  hole = omega arith;
  begin_ne = omega arith;
  begin_lt = omega arith;
}

-- Node 2 is freed, and the next node that is handed out is in use.
free_element_reused_example :
    (s' : PoolSlab) × (free_element hole_below 2 ≡ ok s')
    × ((allocate_single s').1 ≡ some s'.used_end)
    × (is_node_allocated s'.flags s'.used_end ≡ true)
free_element_reused_example =
    free_element_reused hole_below 2 hole_below-IsTop 1 (omega arith) (omega arith) refl

-- Nodes 0 and 2 are in use, node 1 is free.
abbrev hole_between : PoolSlab
hole_between = record {
  is_single_array = false;
  first_unused = 1;
  used_begin = 0;
  used_end = 3;
  num_nodes_in_slab = 4;
  flags = two_runs 0 1 2 3;
}

hole_between-IsTop : IsTop hole_between 2
hole_between-IsTop = record {
  accurate = record {
    ordered = omega arith;
    bounded = omega arith;
    short_size = omega arith;
    filled = λ i lt. ground arith;
    first_free = λ h. refl;
    end_free = λ i le. ground arith;
  };
  plain = refl;
  used = refl;
  start = refl;
  top = refl;
  hole = omega arith;
  begin_ne = omega arith;
  begin_lt = omega arith;
}

free_element_asserts_example : free_element hole_between 2 ≡ assert_failed
free_element_asserts_example =
    free_element_asserts hole_between 2 hole_between-IsTop (omega arith) (λ j lo hi. ground arith)

abbrev linux : Layout
linux = record { page_size = 4096; header = 32; flags_offset = 28 }

-- With nodes of 31 bytes a slab takes two bytes more than a page, and `create` stops.
slab_bytes_31 : slab_bytes linux 31 ≡ 4098
unfolding slab_bytes get_slab_size
slab_bytes_31 = refl

abbrev full_slab : PoolSlab
full_slab = record half_full { first_unused = 2; num_nodes_in_slab = 2 }

-- The only slab of the pool is full.
abbrev full_pool : Pool
full_pool = record {
  ptr1 = [];
  ptr2 = 8192 ∷ [];
  node_size = 16;
  freeable_pool = true;
  slabs = λ a. full_slab;
}
