-- ===== src/Fl2/Bump.antt =====
-- runtime/FL2Allocator/PoolAllocator.cpp: the bump pointer library, whose pools hold the bump
-- pointer in `ObjFreeList` and the end pointer in `OtherFreeList`.
use poolalloc_3_1_upstreamed.Prelude.{
  ℕ, ◌+◌, ◌-◌, ◌*◌, ◌/◌, List, [], ◌∷◌, ◌++◌, ltb, leb, if◌then◌else◌,
}
use poolalloc_3_1_upstreamed.Prelude.Results.{Result, returned, out_of_fuel}
use poolalloc_3_1_upstreamed.Fl2.Memory.{normal_pool_traits, State}
use poolalloc_3_1_upstreamed.Fl2.Slab.{create_for_bp}
use poolalloc_3_1_upstreamed.Fl2.Alloc.{alloc_large}
use poolalloc_3_1_upstreamed.Fl2.Pool.{alignment_of}

-- `poolinit_bp`, which leaves the declared size and the count of the threads alone.
unfoldable pub poolinit_bp : State → ℕ → State
poolinit_bp s align = record s {
  pool = record s.pool {
    slabs = [];
    obj_free_list = 0;
    other_free_list = 0;
    alignment = alignment_of align;
    large_arrays = [];
    alloc_size = 4096;
  };
}

-- `(BumpPtr+Alignment) & ~Alignment`, where `Alignment` is one less than a power of 2.
unfoldable pub align_up : ℕ → ℕ → ℕ
align_up align p = (p + (align - 1)) / align * align

-- "Update bump ptr."
abbrev pub bump : State → ℕ → ℕ → State × ℕ
bump s p bytes = (record s { pool = record s.pool { obj_free_list = p + bytes } }, p)

-- From `TryAgain` on; each new slab takes an address that `malloc` returned.
unfoldable pub bump_loop : List ℕ → State → ℕ → ℕ → Result (State × ℕ)
bump_loop [] s from bytes =
    let p = align_up s.pool.alignment from in
    if ltb (p + bytes) s.pool.other_free_list then returned (bump s p bytes) else out_of_fuel
bump_loop (ps ∷ mems) s from bytes =
    let p = align_up s.pool.alignment from in
    let made = create_for_bp normal_pool_traits s ps in
    if ltb (p + bytes) s.pool.other_free_list
    then returned (bump s p bytes)
    else bump_loop mems made.0 made.1 bytes

unfoldable pub poolalloc_bp : List ℕ → State → ℕ → Result (State × ℕ)
poolalloc_bp mems s num_bytes =
    if leb 4096 num_bytes
    then alloc_large normal_pool_traits mems s num_bytes
    else bump_loop mems s s.pool.obj_free_list (if ltb num_bytes 1 then 1 else num_bytes)

-- `pooldestroy_bp`: what it gives to `free`.
unfoldable pub pooldestroy_bp : State → List ℕ
pooldestroy_bp s = s.pool.slabs ++ s.pool.large_arrays
