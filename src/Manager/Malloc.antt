-- ===== src/Manager/Malloc.antt =====
-- include/poolalloc_runtime/PoolAllocator.h: `MallocSlabManager`, which keeps the bounds of each
-- object that it hands out in a `RangeSplaySet`. The address that `allocator.allocate` returns is
-- an argument, and what goes to `allocator.deallocate` is a result.
use poolalloc_3_1_upstreamed.Prelude.{
  ℕ, ◌+◌, ◌-◌, ◌*◌, ◌%◌, ◌^◌, Bool, Option, none, some, List, map,
}
use poolalloc_3_1_upstreamed.Splay.Tree.{Entry, Tree}
use poolalloc_3_1_upstreamed.Splay.Range.{set_insert, remove, find, clear_act}
use poolalloc_3_1_upstreamed.Splay.Lookup.{is_found}

pub record MallocSlabManager : Type 0 where
  pub objs : Tree (Unit {0})
  pub objsize : ℕ

-- An address and a number of bytes.
pub record Block : Type 0 where
  pub address : ℕ
  pub bytes : ℕ

-- `num*objsize`, a product of two `unsigned`.
abbrev pub request : MallocSlabManager → ℕ → ℕ
request m num = (num * m.objsize) % 2 ^ 32

-- `slab_alloc`, where `allocator.allocate(request m num)` returned `x`.
unfoldable pub slab_alloc : MallocSlabManager → ℕ → ℕ → MallocSlabManager × ℕ
slab_alloc m num x =
    let (objs', ok) = set_insert m.objs x (x + request m num - 1) in (record m { objs = objs' }, x)

-- The range of a node as a call of `deallocate(start, (end - start) + 1)`.
abbrev pub block_of : Entry (Unit {0}) → Block
block_of e = record { address = e.start; bytes = e.end - e.start + 1 }

unfoldable pub release_found :
    MallocSlabManager → ℕ → Option (Entry (Unit {0})) → MallocSlabManager × Option Block
release_found m obj none = (m, none)
release_found m obj (some e) =
    let (objs', ok) = remove m.objs obj in (record m { objs = objs' }, some (block_of e))

-- `slab_free`: the block that is given back, if the object is known.
unfoldable pub slab_free : MallocSlabManager → ℕ → MallocSlabManager × Option Block
unfolding release_found
slab_free m obj =
    let (objs', e) = find m.objs obj in release_found (record m { objs = objs' }) obj e

-- `slab_getbounds`, with `none` for false.
unfoldable pub slab_getbounds :
    MallocSlabManager → ℕ → MallocSlabManager × Option (Entry (Unit {0}))
slab_getbounds m obj = let (objs', e) = find m.objs obj in (record m { objs = objs' }, e)

-- `slab_valid` and `slab_managed`, which have one body.
unfoldable pub slab_valid : MallocSlabManager → ℕ → MallocSlabManager × Bool
slab_valid m obj = let (objs', e) = find m.objs obj in (record m { objs = objs' }, is_found e)

-- The destructor: the calls of `dealloc_actor`.
unfoldable pub destroy : MallocSlabManager → List Block
destroy m = map block_of (clear_act m.objs).0
