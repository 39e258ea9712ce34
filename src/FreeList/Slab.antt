-- ===== src/FreeList/Slab.antt =====
-- runtime/FreeListAllocator/PoolSlab.h, PoolAllocator.h and the slabs of PoolAllocator.cpp. An
-- address is a number and null is 0; the headers and the links of the nodes are maps from
-- addresses. `GetPages` has no definition in the repository: the address that it returns is an
-- argument.
use poolalloc_3_1_upstreamed.Prelude.{
  ℕ, ◌+◌, ◌-◌, ◌*◌, ◌/◌, ◌%◌, ◌^◌, Bool, true, false, ltb, ◌==◌, if◌then◌else◌,
}
pub use poolalloc_3_1_upstreamed.Prelude.Results.{
  Result, returned, aborted, assert_failed, out_of_fuel, ◌>>=◌,
}
use poolalloc_3_1_upstreamed.FreeList.Pages.{Pages, allocate_page}

pub record SlabHeader : Type 0 where
  pub is_array : Bool
  pub is_managed : Bool
  pub nodes_per_slab : ℕ
  pub live_nodes : ℕ
  pub next_free_data : ℕ
  pub next : ℕ
  pub data_area : ℕ

pub record PoolTy : Type 0 where
  pub node_size : ℕ
  pub max_nodes_per_page : ℕ
  pub slabs : ℕ
  pub array_slabs : ℕ
  pub fast_array : ℕ
  pub free_list : ℕ

-- A pool and the memory: `links a` is the `Next` of the `NodePointer` at `a`.
pub record State : Type 0 where
  pub pool : PoolTy
  pub headers : ℕ → SlabHeader
  pub links : ℕ → ℕ
  pub pages : Pages

-- `sizeof (struct SlabHeader)` and `sizeof (NodePointer)`.
pub record Sizes : Type 0 where
  pub header : ℕ
  pub pointer : ℕ

-- What the system returns, if it is asked for pages, for eight or for a number of them.
pub record Space : Type 0 where
  pub mapped : ℕ
  pub get_pages : ℕ → ℕ

abbrev pub set_header : State → ℕ → SlabHeader → State
set_header s at h = record s { headers = λ a. if a == at then h else s.headers a }

-- `&(BlockList(slab)[i])`.
abbrev pub block_list : Sizes → ℕ → ℕ → ℕ
block_list y at i = at + y.header + i * y.pointer

-- The header that `createSlab` fills in.
abbrev pub fresh_header : Sizes → ℕ → Bool → ℕ → SlabHeader
fresh_header y at managed nodes = record {
  is_array = if managed then false else true;
  is_managed = managed;
  nodes_per_slab = nodes;
  live_nodes = 0;
  next_free_data = 0;
  next = 0;
  data_area = at + y.header + nodes * y.pointer;
}

-- `(NumBytes+PageSize-1)/PageSize`, in `unsigned`.
unfoldable pub large_pages : Sizes → State → ℕ → ℕ
large_pages y s nodes =
    let num_bytes = (y.header + s.pool.node_size * nodes + nodes * y.pointer) % 2 ^ 32 in
    (num_bytes + s.pages.page_size - 1) % 2 ^ 32 / s.pages.page_size

unfoldable pub large_slab : Sizes → Space → State → ℕ → Result (State × ℕ)
large_slab y env s nodes =
    let at = env.get_pages (large_pages y s nodes) in
    if at == 0 then aborted else returned (set_header s at (fresh_header y at false nodes), at)

unfoldable pub page_slab : Sizes → State → ℕ → Pages × ℕ → Result (State × ℕ)
page_slab y s nodes (pages', at) =
    if at == 0
    then aborted
    else returned (
      set_header (record s { pages = pages' }) at
          (fresh_header y at true (if nodes == 0 then s.pool.max_nodes_per_page else nodes)),
      at,
    )

-- `createSlab`.
unfoldable pub create_slab : Sizes → Space → State → ℕ → Result (State × ℕ)
create_slab y env s nodes =
    if ltb s.pages.page_size s.pool.node_size
    then aborted
    else if s.pool.max_nodes_per_page == 0
    then aborted
    else if ltb s.pool.max_nodes_per_page nodes
    then large_slab y env s nodes
    else page_slab y s nodes (allocate_page env.mapped s.pages)

-- `BlockOwner` and `DataOwner`: `p & ~(PageSize - 1)`, where the mask is an `unsigned` and the page
-- size a power of 2.
unfoldable pub owner : ℕ → ℕ → ℕ
owner size p = p % 2 ^ 32 / size * size
