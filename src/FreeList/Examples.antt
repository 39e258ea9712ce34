-- ===== src/FreeList/Examples.antt =====
-- runtime/FreeListAllocator: the theorems at pools with nodes of 16 bytes.
use poolalloc_3_1_upstreamed.Prelude.{
  some, [], ◌∷◌, inr, ℕ, ◌+◌, ◌<◌, ◌≡◌, refl, true, none, arith, ◌==◌, if◌then◌else◌,
}
use poolalloc_3_1_upstreamed.FreeList.Pages.{
  Pages, free_page, give_page, push_extra, initialize_page_manager, allocate_page, take_page,
  map_eight,
}
use poolalloc_3_1_upstreamed.FreeList.Apart.{
  AreDisjoint, free_of, Reached, begun, allocated, freed, allocate_page-IsApart,
}
use poolalloc_3_1_upstreamed.FreeList.Slab.{State, Sizes, Space, returned, create_slab, page_slab}
use poolalloc_3_1_upstreamed.FreeList.Pool.{pooldestroy, poolinit, poolalloc, poolfree}
use poolalloc_3_1_upstreamed.FreeList.Reuse.{IsBlock, poolalloc-poolfree}
use poolalloc_3_1_upstreamed.FreeList.Destroy.{chain_end, chain_next, pooldestroy-IsChain}

abbrev sizes : Sizes
sizes = record { header = 32; pointer = 8 }

abbrev system : Space
system = record { mapped = 8192; get_pages = λ n. 65536 }

-- A pool whose one slab, of two nodes, is used up, and which has a free array slab.
abbrev used_up : State
used_up = record {
  pool = record {
    node_size = 16;
    max_nodes_per_page = 169;
    slabs = 8192;
    array_slabs = 65536;
    fast_array = 0;
    free_list = 0;
  };
  headers = λ a. record {
    is_array = a == 65536;
    is_managed = true;
    nodes_per_slab = if a == 65536 then 300 else 2;
    live_nodes = 0;
    next_free_data = 2;
    next = 0;
    data_area = a + 48;
  };
  links = λ a. 0;
  pages = record { page_size = 4096; free_pages = none };
}

used_up-IsBlock : IsBlock sizes used_up 8192 1 8256
used_up-IsBlock = record {
  plain = refl;
  page = 2;
  aligned = refl;
  below = omega arith;
  address = refl;
  above_slab = omega arith;
  inside = omega arith;
  node_inside = omega arith;
  size_pos = omega arith;
  pointer_pos = omega arith;
  header_pos = omega arith;
}

poolalloc-poolfree_example :
    (freed after : State) × (poolfree sizes used_up 8256 ≡ returned freed)
    × (poolalloc sizes system 9 freed 12 ≡ returned (after, 8256))
    × (after.pool ≡ used_up.pool)
poolalloc-poolfree_example =
    poolalloc-poolfree sizes system 9 used_up 8192 1 8256 used_up-IsBlock 12 (omega arith)
      (omega arith) (omega arith)

first_slab :
    (made : State × ℕ) × (create_slab sizes system (poolinit sizes 4096 used_up 16) 0
      ≡ returned made)
unfolding create_slab poolinit page_slab allocate_page take_page map_eight initialize_page_manager
first_slab = (_, refl)

first_slab-nodes : 3 < (first_slab.0.0.headers first_slab.0.1).nodes_per_slab
unfolding first_slab
first_slab-nodes = omega arith

-- The same pool set up for nodes of 0 bytes: the data begins where the page at 8192 ends.
zero_slab :
    (made : State × ℕ) × (create_slab sizes system (poolinit sizes 4096 used_up 0) 0
      ≡ returned made)
unfolding create_slab poolinit page_slab allocate_page take_page map_eight initialize_page_manager
zero_slab = (_, refl)

abbrev one_page : Pages
one_page = (allocate_page 65536 (record { page_size = 4096; free_pages = none })).0

one_page-Reached : Reached 4096 one_page (65536 ∷ [])
unfolding allocate_page take_page map_eight
one_page-Reached = allocated 65536 begun tt

abbrev two_pages : Pages
two_pages = (allocate_page 131072 one_page).0

-- The second page is one of the first eight; then the first is given back.
two_pages-Reached : Reached 4096 two_pages (94208 ∷ 65536 ∷ [])
unfolding allocate_page take_page map_eight push_extra
two_pages-Reached = allocated 131072 one_page-Reached (inr (omega arith), tt)

one_left : (m' : Pages) × (free_page two_pages 65536 ≡ some m')
unfolding free_page give_page allocate_page take_page map_eight push_extra
one_left = (_, refl)

allocate_page-IsApart_example :
    (one_left.0.page_size ≡ 4096) × AreDisjoint 4096 (94208 ∷ free_of one_left.0.free_pages)
allocate_page-IsApart_example =
    allocate_page-IsApart 4096 (freed (94208 ∷ []) 65536 [] two_pages-Reached one_left.1)

-- The pool whose page manager has a free page.
abbrev page_left : State
page_left = record used_up { pages = record { page_size = 4096; free_pages = some (4096 ∷ []) } }

pooldestroy-IsChain_example :
    (s' : State) × (pooldestroy 2 page_left ≡ returned s')
    × (s'.pages.free_pages ≡ some (8192 ∷ 4096 ∷ []))
pooldestroy-IsChain_example =
    pooldestroy-IsChain 2 page_left (8192 ∷ []) (4096 ∷ []) (chain_next (omega arith) chain_end)
      (omega arith) refl
