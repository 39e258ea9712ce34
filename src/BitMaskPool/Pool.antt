-- ===== src/BitMaskPool/Pool.antt =====
-- runtime/PoolAllocator/PoolAllocatorBitMask.cpp: the pool, its two lists of slabs, and the
-- functions of the library. The slab that begins at an address is `slabs` there; a list is that of
-- the addresses, so the links `PrevPtr` and `Next` are its order. The page manager is not here: the
-- page that a call gets from it is an argument, and the pages that go back to it are a result.
use poolalloc_3_1_upstreamed.Prelude.{
  ℕ, zero, suc, ◌+◌, ◌-◌, ◌*◌, ◌/◌, ◌%◌, ◌^◌, Bool, true, false, ◌&&◌, Option, none, some, List, [],
  ◌∷◌, ◌++◌, ltb, leb, ◌==◌, if◌then◌else◌,
}
use poolalloc_3_1_upstreamed.BitMaskPool.Slab.{
  PoolSlab, wrap, short, Checked, ok, assert_failed, null_read, ◌>>=◌, is_empty, is_full,
  allocate_single, allocate_multiple, free_element,
}

-- `PageSize`, `sizeof(PoolSlab)` and the offset of `NodeFlagsVector` in a slab.
pub record Layout : Type 0 where
  pub page_size : ℕ
  pub header : ℕ
  pub flags_offset : ℕ

pub record Pool : Type 0 where
  pub ptr1 : List ℕ
  pub ptr2 : List ℕ
  pub node_size : ℕ
  pub freeable_pool : Bool
  pub slabs : ℕ → PoolSlab

-- `getSlabSize(Pool)`; `(NodeFlagsBytes+3) & ~3` rounds up to a multiple of 4.
unfoldable pub get_slab_size : Layout → ℕ → ℕ
get_slab_size y node_size =
    let num_nodes = y.page_size - y.header in
    let node_flags_bytes = num_nodes / node_size * 2 / 8 in
    (num_nodes - (node_flags_bytes + 3) / 4 * 4) / node_size

-- The `Size` of `create`.
unfoldable pub slab_bytes : Layout → ℕ → ℕ
slab_bytes y node_size =
    let nodes_per_slab = get_slab_size y node_size in
    y.header + 4 * ((nodes_per_slab + 15) / 16) + node_size * nodes_per_slab

unfoldable pub get_element_address : Layout → ℕ → PoolSlab → ℕ → ℕ → ℕ
get_element_address y at s num size =
    at + y.flags_offset + 4 * ((s.num_nodes_in_slab + 15) / 16) + num * size

-- `containsElement` of the slab at an address; `Delta` is an `unsigned`.
unfoldable pub contains_element : Layout → ℕ → PoolSlab → ℕ → ℕ → Checked (Option ℕ)
contains_element y at s ptr size =
    let first = get_element_address y at s 0 0 in
    let delta = (ptr - first) % 2 ^ 32 in
    let index = delta / size in
    if leb first ptr && ltb index s.num_nodes_in_slab
    then if delta % size == 0 then ok (some index) else assert_failed
    else ok none

abbrev pub set_slab : Pool → ℕ → PoolSlab → Pool
set_slab p at s = record p { slabs = λ a. if a == at then s else p.slabs a }

unfoldable pub remove_address : ℕ → List ℕ → List ℕ
remove_address at [] = []
remove_address at (a ∷ as') = if a == at then as' else a ∷ remove_address at as'

-- `unlinkFromList`: the slab is in one of the two lists.
abbrev pub unlink_from_list : Pool → ℕ → Pool
unlink_from_list p at = record p {
  ptr1 = remove_address at p.ptr1;
  ptr2 = remove_address at p.ptr2;
}

-- `addToList(&Pool->Ptr1)` and `addToList(&Pool->Ptr2)`.
abbrev pub add_to_ptr1 : Pool → ℕ → Pool
add_to_ptr1 p at = record p { ptr1 = at ∷ p.ptr1 }

abbrev pub add_to_ptr2 : Pool → ℕ → Pool
add_to_ptr2 p at = record p { ptr2 = at ∷ p.ptr2 }

-- `create`, on the page at an address. The flags are those that the page holds.
unfoldable pub create : Layout → Pool → ℕ → Checked Pool
create y p page =
    if leb (slab_bytes y p.node_size) y.page_size
    then ok (
        add_to_ptr1
          (set_slab p page (record (p.slabs page) {
            num_nodes_in_slab = short (get_slab_size y p.node_size);
            is_single_array = false;
            first_unused = 0;
            used_begin = 0;
            used_end = 0;
          }))
          page)
    else assert_failed

unfoldable pub num_pages : ℕ → ℕ → ℕ
num_pages nodes_per_slab num_nodes =
    wrap (num_nodes + nodes_per_slab + (2 ^ 32 - 1)) / nodes_per_slab

-- The slab of a single array: `*(unsigned*)&PS->FirstUnused` covers `FirstUnused` and `UsedBegin`,
-- the low half first.
abbrev pub array_slab : PoolSlab → ℕ → PoolSlab
array_slab s pages = record s {
  is_single_array = true;
  first_unused = pages % 2 ^ 16;
  used_begin = pages / 2 ^ 16;
}

-- `createSingleArray`, on pages at an address.
unfoldable pub create_single_array : Layout → Pool → ℕ → ℕ → Checked (Pool × ℕ)
create_single_array y p num_nodes page =
    let nodes_per_slab = get_slab_size y p.node_size in
    let s = array_slab (p.slabs page) (num_pages nodes_per_slab num_nodes) in
    if ltb nodes_per_slab num_nodes
    then ok (add_to_ptr2 (set_slab p page s) page, get_element_address y page s 0 0)
    else assert_failed

-- The loop of `destroy`, for `NumPages` from `n + 1`, which may wrap to 0, down to 2.
unfoldable pub free_pages_down : Layout → ℕ → ℕ → List ℕ
free_pages_down y at zero = []
free_pages_down y at (suc n) = (at + suc n * y.page_size) ∷ free_pages_down y at n

-- `destroy`: the pages that are freed, in order.
unfoldable pub destroy : Layout → ℕ → PoolSlab → List ℕ
destroy y at s =
    (if s.is_single_array
      then free_pages_down y at (wrap (s.first_unused + s.used_begin * 2 ^ 16 + (2 ^ 32 - 1)))
      else [])
    ++ at ∷ []

-- `poolinit`. No slab is reached from the new pool.
unfoldable pub poolinit : (ℕ → PoolSlab) → ℕ → Pool
poolinit memory node_size = record {
  ptr1 = [];
  ptr2 = [];
  node_size = if node_size == 0 then 1 else node_size;
  freeable_pool = true;
  slabs = memory;
}

unfoldable pub poolmakeunfreeable : Pool → Pool
poolmakeunfreeable p = record p { freeable_pool = false }

unfoldable pub destroy_all : Layout → Pool → List ℕ → List ℕ
destroy_all y p [] = []
destroy_all y p (a ∷ as') = destroy y a (p.slabs a) ++ destroy_all y p as'

-- `pooldestroy`: the pages that are freed.
unfoldable pub pooldestroy : Layout → Pool → List ℕ
pooldestroy y p = destroy_all y p p.ptr1 ++ destroy_all y p p.ptr2

-- A slab that has become full moves to the list of full slabs.
unfoldable pub move_if_full : Pool → ℕ → PoolSlab → Pool
move_if_full p at s =
    let p' = set_slab p at s in if is_full s then add_to_ptr2 (unlink_from_list p' at) at else p'

-- What one slab of the walk over `Ptr1` gives.
unfoldable pub finish_alloc : Layout → Pool → ℕ → PoolSlab × Option ℕ → Option (Pool × ℕ)
finish_alloc y p at (s, none) = none
finish_alloc y p at (s, some element) =
    some (move_if_full p at s, get_element_address y at s element p.node_size)

-- "Loop through all of the slabs looking for one with an opening", for an array.
unfoldable pub array_from_slabs : Layout → Pool → ℕ → List ℕ → Checked (Option (Pool × ℕ))
array_from_slabs y p size [] = ok none
array_from_slabs y p size (a ∷ as') =
    let rest = array_from_slabs y p size as' in
    allocate_multiple (p.slabs a) size >>= λ r. elim (finish_alloc y p a r) [
      | none ↦ rest
      | some q ↦ ok (some q)
    ]

-- The end of `poolallocarray` and of `poolalloc`: the first allocation in a new slab is node 0.
unfoldable pub finish_new : Layout → Pool → ℕ → PoolSlab × Option ℕ → Checked (Pool × ℕ)
finish_new y p page (s, none) = assert_failed
finish_new y p page (s, some idx) =
    if idx == 0 then ok (set_slab p page s, get_element_address y page s 0 0) else assert_failed

unfoldable pub poolallocarray : Layout → Pool → ℕ → ℕ → Checked (Pool × ℕ)
poolallocarray y p size page =
    if ltb (get_slab_size y p.node_size) size
    then create_single_array y p size page
    else array_from_slabs y p size p.ptr1 >>= λ got. elim got [
      | some q ↦ ok q
      | none ↦ create y p page >>= λ p'.
          allocate_multiple (p'.slabs page) size >>= λ r. finish_new y p' page r
    ]

unfoldable pub single_from_slabs : Layout → Pool → List ℕ → Option (Pool × ℕ)
single_from_slabs y p [] = none
single_from_slabs y p (a ∷ as') =
    let rest = single_from_slabs y p as' in
    elim (finish_alloc y p a (allocate_single (p.slabs a))) [ none ↦ rest | some q ↦ some q ]

-- `poolalloc`, with the page that the page manager would give. The first slab of the list is tried
-- before the loop, in the same way as those in it.
unfoldable pub poolalloc : Layout → Pool → ℕ → ℕ → Checked (Pool × ℕ)
poolalloc y p num_bytes page =
    let nodes_to_allocate = ((num_bytes + p.node_size - 1) % 2 ^ 32) / p.node_size in
    if ltb 1 nodes_to_allocate
    then poolallocarray y p nodes_to_allocate page
    else elim (single_from_slabs y p p.ptr1) [
      | some q ↦ ok q
      | none ↦ create y p page >>= λ p'. finish_new y p' page (allocate_single (p'.slabs page))
    ]

-- The walk of `SearchForContainingSlab` and `poolcheck` over one list.
unfoldable pub search_list : Layout → Pool → ℕ → List ℕ → Checked (Option (ℕ × ℕ))
search_list y p node [] = ok none
search_list y p node (a ∷ as') =
    let rest = search_list y p node as' in
    contains_element y a (p.slabs a) node p.node_size >>= λ r. elim r [
      | none ↦ rest
      | some idx ↦ ok (some (a, idx))
    ]

-- `SearchForContainingSlab`: the slab and the index.
unfoldable pub search_for_containing_slab : Layout → Pool → ℕ → Checked (ℕ × ℕ)
search_for_containing_slab y p node = search_list y p node p.ptr1 >>= λ first. elim first [
  | some q ↦ ok q
  | none ↦
      search_list y p node p.ptr2 >>= λ second. elim second [ some q ↦ ok q | none ↦ assert_failed ]
]

-- `poolcheck` returns nothing: it stops the program where the search fails.
unfoldable pub poolcheck : Layout → Pool → ℕ → Checked (Unit {0})
poolcheck y p node = search_for_containing_slab y p node >>= λ _. ok tt

-- The position in `Ptr1` behind a slab that is empty and at its front; `(*InsertPosPtr)->isEmpty()`
-- reads that slab.
unfoldable pub insert_partial : Pool → ℕ → List ℕ → Checked Pool
insert_partial p at [] = null_read
insert_partial p at (a ∷ as') =
    ok (record p { ptr1 = if is_empty (p.slabs a) then a ∷ at ∷ as' else at ∷ a ∷ as' })

-- "If PS was full, it must have been in list #2."
unfoldable pub leave_full_list : Pool → ℕ → Checked Pool
leave_full_list p at =
    if is_full (p.slabs at)
    then (let p' = unlink_from_list p at in insert_partial p' at p'.ptr1)
    else ok p

-- The empty slab at the front of `Ptr1`, if the pool may free it.
unfoldable pub drop_first : Layout → Pool → List ℕ → Pool × List ℕ
drop_first y p [] = (p, [])
drop_first y p (a ∷ as') =
    if p.freeable_pool && is_empty (p.slabs a)
    then (unlink_from_list p a, destroy y a (p.slabs a))
    else (p, [])

-- "Ok, if this slab is empty": it becomes the first of `Ptr1`.
unfoldable pub retire_empty : Layout → Pool → ℕ → Pool × List ℕ
retire_empty y p at =
    if is_empty (p.slabs at)
    then (let p' = unlink_from_list p at in
        let (q, freed) = drop_first y p' p'.ptr1 in (add_to_ptr1 q at, freed))
    else (p, [])

-- `poolfree`: the pool, and the pages that are freed. The slab is found by masking the address.
unfoldable pub poolfree : Layout → Pool → ℕ → Checked (Pool × List ℕ)
poolfree y p node =
    let at = node - node % y.page_size in
    if (p.slabs at).is_single_array
    then ok (unlink_from_list p at, destroy y at (p.slabs at))
    else contains_element y at (p.slabs at) node p.node_size >>= λ found. elim found [
      | none ↦ assert_failed
      | some idx ↦ leave_full_list p at >>= λ q.
          free_element (q.slabs at) idx >>= λ s. ok (retire_empty y (set_slab q at s) at)
    ]
