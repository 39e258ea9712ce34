-- ===== src/Fl2/Slab.antt =====
-- runtime/FL2Allocator/PoolAllocator.cpp: the slabs. The address that `malloc` returns is an
-- argument. `unsigned` values wrap.
use poolalloc_3_1_upstreamed.Prelude.{
  ℕ, ◌+◌, ◌-◌, ◌*◌, ◌/◌, ◌%◌, ◌^◌, ◌∷◌, ltb, ◌==◌, if◌then◌else◌,
}
use poolalloc_3_1_upstreamed.Prelude.Results.{Result, returned, ◌>>=◌}
use poolalloc_3_1_upstreamed.Fl2.Memory.{Traits, State, put, add_node_to_free_list}

-- A number of bytes, at least what a freed node needs, rounded up such that the next header is
-- aligned; `& ~(Align-1)` with a power of 2.
unfoldable pub round_size : Traits → ℕ → ℕ → ℕ
round_size t align bytes =
    let least = if ltb bytes (t.freed - t.header) then t.freed - t.header else bytes in
    let up = (least + t.freed + (align - 1)) % 2 ^ 32 in
    (up / align * align + 2 ^ 32 - t.freed) % 2 ^ 32

-- The body of a slab becomes a free node, and the marker of its end looks like an allocated one.
unfoldable pub add_body : Traits → State → ℕ → ℕ → Result State
add_body t s body size =
    add_node_to_free_list t (record s { size_at = put s.size_at body size }) body >>= λ s'.
    returned (record s' { size_at = put s'.size_at (body + t.header + size) t.all_ones })

-- The declared size where it was not known.
abbrev pub declare : Traits → State → ℕ → State
declare t s hint = record s {
  pool = record s.pool { declared_size = round_size t s.pool.alignment hint };
}

abbrev pub push_slab : ℕ → State → State
push_slab ps s = record s { pool = record s.pool { slabs = ps ∷ s.pool.slabs } }

-- `create` where the declared size is known, and `hint` is `SizeHint`.
unfoldable pub create_sized : Traits → State → ℕ → ℕ → Result State
create_sized t s hint ps =
    let size = (s.pool.alloc_size + hint + 2 ^ 32 - 1) % 2 ^ 32 / hint * hint % 2 ^ 32 in
    let skip = if ltb t.freed s.pool.alignment then s.pool.alignment - t.freed else 0 in
    let s' = record s { pool = record s.pool { alloc_size = (s.pool.alloc_size * 2) % 2 ^ 32 } } in
    add_body t s' (ps + t.slab + skip) ((size + 2 ^ 32 - skip) % 2 ^ 32) >>= λ s''.
    returned (push_slab ps s'')

-- `create`, where `malloc` returned `ps`.
unfoldable pub create : Traits → State → ℕ → ℕ → Result State
create t s size_hint ps =
    if s.pool.declared_size == 0
    then create_sized t (declare t s size_hint) (round_size t s.pool.alignment size_hint) ps
    else create_sized t s size_hint ps

-- `create_for_bp`: the body of the slab. `OtherFreeList` is the end pointer.
unfoldable pub create_for_bp : Traits → State → ℕ → State × ℕ
create_for_bp t s ps = (
  record s {
    pool = record s.pool {
      alloc_size = (s.pool.alloc_size * 2) % 2 ^ 32;
      other_free_list = ps + t.slab + s.pool.alloc_size;
      slabs = ps ∷ s.pool.slabs;
    };
  },
  ps + t.slab + (if t.slab == 4 then 4 else 0),
)

-- `create_for_ptrcomp`, where `SMem` is the one slab of the pool already. The base of the pool is
-- the `PoolSlab`, whose `Next` lies where a node there would have its header and its `Next`.
unfoldable pub create_for_ptrcomp : Traits → State → ℕ → ℕ → Result State
create_for_ptrcomp t s ps bytes =
    let s' = if s.pool.declared_size == 0 then declare t s (t.freed - t.header) else s in
    let size = (bytes + 2 ^ 32 - (t.slab + t.header + t.freed)) % 2 ^ 32 in
    let skip = if ltb t.header s.pool.alignment then s.pool.alignment - t.header else 0 in
    add_body t s' (ps + t.slab + skip) ((size + 2 ^ 32 - skip) % 2 ^ 32) >>= λ s''.
    returned (record s'' { size_at = put s''.size_at ps 0; next_at = put s''.next_at ps 0 })
