-- ===== src/FreeList/Arrays.antt =====
-- runtime/FreeListAllocator/PoolAllocator.cpp: arrays from the list of free array slabs.
use poolalloc_3_1_upstreamed.Prelude.{ℕ, suc, ◌≤◌, ◌≡◌, ◌≢◌, ap, ◌∙◌, true, false, leb, ◌==◌, arith}
use poolalloc_3_1_upstreamed.FreeList.Slab.{State, Sizes, Space, returned}
use poolalloc_3_1_upstreamed.FreeList.Pool.{
  array_slabs_field, scan_arrays, scanned, take_array, poolallocarray,
}

-- The first of the `ArraySlabs` is taken, and stays the first.
pub poolallocarray_first :
    (y : Sizes) (env : Space) (fuel : ℕ) (s : State) (size : ℕ)
    → s.pool.fast_array ≡ 0
    → s.pool.array_slabs ≢ 0
    → size ≤ (s.headers s.pool.array_slabs).nodes_per_slab
    → poolallocarray y env (suc fuel) s size
      ≡ returned (take_array s size (array_slabs_field, s.pool.array_slabs))
unfolding poolallocarray scan_arrays scanned
poolallocarray_first y env fuel s size slow array fits =
    let nonnull : (s.pool.array_slabs == 0) ≡ false = ground arith in
    let room : leb size (s.headers s.pool.array_slabs).nodes_per_slab ≡ true = ground arith in
    simp (slow, nonnull, room)

-- A free array slab that is first in the list is handed out twice: a second array that fits in it
-- gets the same block, while the first is in use.
pub poolallocarray_repeats :
    (y : Sizes) (env : Space) (fuel : ℕ) (s : State) (size size' : ℕ)
    → s.pool.fast_array ≡ 0
    → s.pool.array_slabs ≢ 0
    → size ≤ (s.headers s.pool.array_slabs).nodes_per_slab
    → size' ≤ (s.headers s.pool.array_slabs).nodes_per_slab
    → (s' s'' : State) × (block : ℕ) × (poolallocarray y env (suc fuel) s size
        ≡ returned (s', block))
      × (poolallocarray y env (suc fuel) s' size' ≡ returned (s'', block))
unfolding take_array
poolallocarray_repeats y env fuel s size size' slow array fits fits' =
    let at = s.pool.array_slabs in
    let same : (at == at) ≡ true = ground arith in
    let taken = take_array s size (array_slabs_field, at) in
    let again = take_array taken.0 size' (array_slabs_field, at) in
    let kept : (taken.0.headers at).nodes_per_slab ≡ (s.headers at).nodes_per_slab = simp (same) in
    let block : again.1 ≡ taken.1 = simp (same) in
    (
      taken.0,
      again.0,
      taken.1,
      poolallocarray_first y env fuel s size slow array fits,
      poolallocarray_first y env fuel taken.0 size' slow array (omega (arith, kept, fits'))
          ∙ ap (λ b. returned (again.0, b)) block,
    )
