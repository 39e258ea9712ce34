-- ===== src/Fl2/Compressed.antt =====
-- runtime/FL2Allocator/PoolAllocator.cpp: the pointer compression library. The memory that is
-- mapped is an argument.
use poolalloc_3_1_upstreamed.Prelude.{
  ℕ, ◌+◌, ◌-◌, ◌*◌, ◌%◌, ◌^◌, Option, none, some, List, [], ◌∷◌, leb, ◌==◌, if◌then◌else◌,
}
use poolalloc_3_1_upstreamed.Prelude.Results.{Result, returned, ◌>>=◌}
use poolalloc_3_1_upstreamed.Fl2.Memory.{compressed_pool_traits, State, pool_base}
use poolalloc_3_1_upstreamed.Fl2.Slab.{create_for_ptrcomp}
use poolalloc_3_1_upstreamed.Fl2.Alloc.{poolalloc_internal}
use poolalloc_3_1_upstreamed.Fl2.Free.{poolfree_internal}
use poolalloc_3_1_upstreamed.Fl2.Pool.{poolinit_internal, poolrealloc_internal}

-- `POOLSIZE`.
abbrev pub pool_size : ℕ
pool_size = 256 * 1024 * 1024

-- The array `Pools`, of four entries that may be null, and the static `stagger`.
pub record Saved : Type 0 where
  pub pools : List ℕ
  pub stagger : ℕ

-- The first entry that is not null, which becomes null.
unfoldable pub take_saved : List ℕ → List ℕ × ℕ
take_saved [] = ([], 0)
take_saved (p ∷ pools) =
    let rest = take_saved pools in if p == 0 then (p ∷ rest.0, rest.1) else (0 ∷ pools, p)

-- The first entry that is null becomes the pool; `none` if there is none.
unfoldable pub save_pool : List ℕ → ℕ → Option (List ℕ)
save_pool [] base = none
save_pool (p ∷ pools) base =
    let rest = save_pool pools base in
    if p == 0 then some (base ∷ pools) else elim rest [ none ↦ none | some ps ↦ some (p ∷ ps) ]

-- "Wrap the stagger value back to zero".
abbrev pub wrapped : ℕ → ℕ → ℕ
wrapped stagger declared = if leb pool_size ((stagger * declared) % 2 ^ 32) then 0 else stagger

-- How many bytes a new pool maps.
abbrev pub mapped_bytes : ℕ → ℕ → ℕ
mapped_bytes declared stagger = (pool_size + declared * stagger) % 2 ^ 32

-- `Pool->Slabs`: the saved pool, or the start of the new mapping, moved by as many `PoolSlab`s.
abbrev pub start_of : ℕ → ℕ → ℕ → ℕ → ℕ
start_of saved mapped declared stagger =
    if saved == 0
    then mapped + compressed_pool_traits.slab * ((declared * stagger) % 2 ^ 32)
    else saved

-- `poolinit_pc`, where a new mapping begins at `mapped`: the pool, its base and what is saved.
unfoldable pub poolinit_pc : Saved → ℕ → State → ℕ → ℕ → Result (State × ℕ × Saved)
poolinit_pc v mapped s declared align =
    let s1 = poolinit_internal compressed_pool_traits s declared align in
    let (pools', saved) = take_saved v.pools in
    let stagger = wrapped v.stagger declared in
    let base = start_of saved mapped declared stagger in
    let stagger' = if saved == 0 then (stagger + 1) % 2 ^ 32 else stagger in
    create_for_ptrcomp compressed_pool_traits
      (record s1 { pool = record s1.pool { slabs = base ∷ [] } }) base pool_size
    >>= λ s2. returned (s2, base, record { pools = pools'; stagger = stagger' })

-- `pooldestroy_pc`: what is saved, and the pool that is unmapped, if there is no place for it.
unfoldable pub pooldestroy_pc : Saved → State → Saved × Option ℕ
pooldestroy_pc v s =
    let kept = save_pool v.pools (pool_base s) in
    if pool_base s == 0 then (v, none) else elim kept [
      | some pools' ↦ (record v { pools = pools' }, none)
      | none ↦ (v, some (pool_base s))
    ]

-- `poolalloc_pc`: the index of the node; `poolalloc_pca` is `poolalloc_internal`.
unfoldable pub poolalloc_pc : ℕ → State → ℕ → Result (State × ℕ)
poolalloc_pc fuel s num_bytes =
    poolalloc_internal fuel compressed_pool_traits (0 ∷ []) s num_bytes >>= λ r.
    returned (r.0, r.1 - pool_base r.0)

unfoldable pub poolfree_pc : ℕ → State → ℕ → Result (State × List ℕ)
poolfree_pc fuel s node = poolfree_internal fuel compressed_pool_traits s (pool_base s + node)

unfoldable pub poolrealloc_pc : ℕ → State → ℕ → ℕ → Result (State × ℕ)
poolrealloc_pc fuel s node num_bytes =
    poolrealloc_internal fuel compressed_pool_traits (0 ∷ []) s (pool_base s + node) num_bytes
    >>= λ m. returned (m.state, m.block - pool_base m.state)
