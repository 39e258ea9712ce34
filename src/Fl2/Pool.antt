-- ===== src/Fl2/Pool.antt =====
-- runtime/FL2Allocator/PoolAllocator.cpp: the functions of the library. A null pool is `none`, for
-- which the system's allocator is called. The bytes of the blocks are not here; of `memcpy` the
-- number of bytes is a result.
use poolalloc_3_1_upstreamed.Prelude.{
  ℕ, ◌+◌, ◌-◌, ◌*◌, ◌/◌, ◌%◌, ◌^◌, Option, none, some, List, [], ◌∷◌, ◌++◌, ltb, ◌==◌,
  if◌then◌else◌,
}
use poolalloc_3_1_upstreamed.Prelude.Results.{
  Result, returned, aborted, assert_failed, out_of_fuel, ◌>>=◌,
}
use poolalloc_3_1_upstreamed.Fl2.Memory.{Traits, State, put}
use poolalloc_3_1_upstreamed.Fl2.Slab.{round_size}
use poolalloc_3_1_upstreamed.Fl2.Alloc.{poolalloc_internal}
use poolalloc_3_1_upstreamed.Fl2.Free.{size_of, unlink_large, poolfree_internal}

-- `ObjAlignment < 4` is `__alignof(double)`, 8.
abbrev pub alignment_of : ℕ → ℕ
alignment_of align = if ltb align 4 then 8 else align

-- `poolinit_internal`; `poolinit` is this with `NormalPoolTraits`.
unfoldable pub poolinit_internal : Traits → State → ℕ → ℕ → State
poolinit_internal t s declared_size align = record s {
  pool = record {
    slabs = [];
    obj_free_list = 0;
    other_free_list = 0;
    alignment = alignment_of align;
    declared_size =
        if declared_size == 0 then 0 else round_size t (alignment_of align) declared_size;
    large_arrays = [];
    alloc_size = 4096;
    thread_refcount = 1;
  };
}

-- `pooldestroy`: what it gives to `free`, in order.
unfoldable pub pooldestroy : State → State × List ℕ
pooldestroy s =
    let count = (s.pool.thread_refcount + 2 ^ 32 - 1) % 2 ^ 32 in
    (
      record s { pool = record s.pool { thread_refcount = count } },
      if count == 0 then s.pool.slabs ++ s.pool.large_arrays else [],
    )

abbrev pub malloc_block : List ℕ → Result (Option State × ℕ)
malloc_block [] = out_of_fuel
malloc_block (block ∷ mems) = returned (none, block)

abbrev pub with_pool : Result (State × ℕ) → Result (Option State × ℕ)
with_pool r = r >>= λ p. returned (some p.0, p.1)

unfoldable pub poolalloc : ℕ → Traits → List ℕ → Option State → ℕ → Result (Option State × ℕ)
poolalloc fuel t mems none num_bytes = malloc_block mems
poolalloc fuel t mems (some s) num_bytes = with_pool (poolalloc_internal fuel t mems s num_bytes)

-- `poolcalloc`: the block, of which `memset` clears `NumBytes * NumElements` bytes, an `unsigned`.
unfoldable pub poolcalloc : ℕ → Traits → List ℕ → Option State → ℕ → ℕ → Result (Option State × ℕ)
poolcalloc fuel t mems s num_bytes num_elements =
    poolalloc fuel t mems s ((num_bytes * num_elements) % 2 ^ 32)

unfoldable pub poolmemalign : ℕ → Traits → List ℕ → Option State → ℕ → ℕ → Result (Option State × ℕ)
poolmemalign fuel t mems s align num_bytes =
    poolalloc fuel t mems s ((num_bytes + align + 2 ^ 32 - 1) % 2 ^ 32) >>= λ r.
    returned (r.0, (r.1 + (align - 1)) / align * align)

unfoldable pub poolfree : ℕ → Traits → Option State → ℕ → Result (Option State × List ℕ)
poolfree fuel t none node = returned (none, if node == 0 then [] else node ∷ [])
poolfree fuel t (some s) node = poolfree_internal fuel t s node >>= λ r. returned (some r.0, r.1)

-- What `poolrealloc_internal` returns, and how many bytes it copies; nothing is said of the bytes
-- that the system's `realloc` copies.
pub record Moved : Type 0 where
  pub state : State
  pub block : ℕ
  pub copied : ℕ

-- The node is moved to a new one.
unfoldable pub move_node : ℕ → Traits → List ℕ → State → ℕ → ℕ → Result Moved
move_node fuel t mems s node num_bytes = poolalloc_internal fuel t mems s num_bytes >>= λ a.
    poolfree_internal fuel t a.0 node >>= λ f. returned (record {
      state = f.0;
      block = a.1;
      copied = if ltb (size_of t s node) num_bytes then size_of t s node else num_bytes;
    })

-- A large array is moved by `realloc`, its header with it, and linked in again.
unfoldable pub move_large : Traits → List ℕ → State → ℕ → Result Moved
move_large t [] s node = out_of_fuel
move_large t (lah' ∷ mems) s node =
    let lah = node - t.large_header in
    returned (record {
      state = record s {
        pool = record s.pool { large_arrays = lah' ∷ unlink_large lah s.pool.large_arrays };
        large_size = put s.large_size lah' (s.large_size lah);
        size_at = put s.size_at (lah' + t.large_header - t.header) (s.size_at (node - t.header));
      };
      block = lah' + t.large_header;
      copied = 0;
    })

unfoldable pub poolrealloc_internal : ℕ → Traits → List ℕ → State → ℕ → ℕ → Result Moved
poolrealloc_internal fuel t mems s node num_bytes =
    if node == 0
    then (poolalloc_internal fuel t mems s num_bytes >>= λ a.
        returned (record { state = a.0; block = a.1; copied = 0 }))
    else if num_bytes == 0
    then (poolfree_internal fuel t s node >>= λ f.
        returned (record { state = f.0; block = 0; copied = 0 }))
    else if s.size_at (node - t.header) % 2 == 0
    then assert_failed
    else if size_of t s node == 2 ^ 32 - 2
    then move_large t mems s node
    else move_node fuel t mems s node num_bytes

-- `poolrealloc`; the system's `realloc` of a null pool is `malloc_block`.
unfoldable pub poolrealloc : ℕ → Traits → List ℕ → Option State → ℕ → ℕ → Result (Option State × ℕ)
poolrealloc fuel t mems none node num_bytes = malloc_block mems
poolrealloc fuel t mems (some s) node num_bytes =
    poolrealloc_internal fuel t mems s node num_bytes >>= λ m. returned (some m.state, m.block)

unfoldable pub poolobjsize : Traits → Option State → ℕ → Result ℕ
poolobjsize t none node = if node == 0 then returned 0 else aborted
poolobjsize t (some s) node =
    if node == 0
    then returned 0
    else if s.size_at (node - t.header) % 2 == 0
    then assert_failed
    else if size_of t s node == 2 ^ 32 - 2
    then returned (s.large_size (node - t.large_header) % 2 ^ 32)
    else returned (size_of t s node)
