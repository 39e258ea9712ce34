-- ===== src/Fl2/Exhausted.antt =====
-- runtime/FL2Allocator/PoolAllocator.cpp: a pool of compressed pointers that is used up.
use poolalloc_3_1_upstreamed.Prelude.{
  ℕ, zero, suc, ◌+◌, ◌%◌, ◌^◌, ◌<◌, ◌≡◌, ◌≢◌, ◌⊎◌, refl, true, false, ◌&&◌, not, ltb, leb, ◌==◌,
  arith,
}
use poolalloc_3_1_upstreamed.Prelude.Results.{out_of_fuel}
use poolalloc_3_1_upstreamed.Fl2.Memory.{compressed_pool_traits, State, pool_base, index_to_fnh_ptr}
use poolalloc_3_1_upstreamed.Fl2.Slab.{round_size}
use poolalloc_3_1_upstreamed.Fl2.Alloc.{
  first_fit, take_other, alloc_loop, alloc_rounded, poolalloc_internal,
}
use poolalloc_3_1_upstreamed.Fl2.Compressed.{poolalloc_pc}

-- The search goes round at the base of the pool.
first_fit-base :
    (fuel : ℕ) (s : State) (bytes : ℕ)
    → pool_base s ≢ 0
    → s.size_at (pool_base s) ≡ 0
    → s.next_at (pool_base s) ≡ 0
    → 0 < bytes
    → first_fit fuel compressed_pool_traits s (pool_base s) bytes ≡ out_of_fuel
unfolding first_fit index_to_fnh_ptr
first_fit-base zero s bytes nz size next pos = refl
first_fit-base (suc fuel) s bytes nz size next pos =
    let some_node : (pool_base s == 0) ≡ false = ground (arith, nz) in
    let small : ltb 0 bytes ≡ true = ground (arith, pos) in
    let self : pool_base s + 0 ≡ pool_base s = omega arith in
    simp (some_node, size, small, next, self, first_fit-base fuel s bytes nz size next pos)

-- poolalloc_pc of a pool whose OtherFreeList is empty, and whose ObjFreeList is empty or does not
-- serve the size, comes to no end with any fuel, and does not abort: at the base of the pool, where
-- create_for_ptrcomp wrote a null Next, it reads a free node of size 0 that is followed by itself.
pub poolalloc_pc_endless :
    (fuel : ℕ) (s : State) (num_bytes : ℕ)
    → pool_base s ≢ 0
    → s.size_at (pool_base s) ≡ 0
    → s.next_at (pool_base s) ≡ 0
    → s.pool.other_free_list ≡ 0
    → (s.pool.obj_free_list ≡ 0)
      ⊎ (round_size compressed_pool_traits s.pool.alignment num_bytes ≢ s.pool.declared_size)
    → 0 < round_size compressed_pool_traits s.pool.alignment num_bytes
    → poolalloc_pc fuel s num_bytes ≡ out_of_fuel
unfolding poolalloc_pc poolalloc_internal alloc_rounded alloc_loop take_other index_to_fnh_ptr
poolalloc_pc_endless fuel s num_bytes nz size next empty none_fits pos =
    let bytes = round_size compressed_pool_traits s.pool.alignment num_bytes in
    let some_node : (pool_base s == 0) ≡ false = ground (arith, nz) in
    let small : leb bytes (0 % 2 ^ 32) ≡ false = ground (arith, pos) in
    let self : pool_base s + 0 ≡ pool_base s = omega arith in
    simp (
      no_object none_fits,
      empty,
      self,
      some_node,
      size,
      small,
      first_fit-base fuel s bytes nz size next pos,
    )
  where
    no_object :
        (s.pool.obj_free_list ≡ 0)
          ⊎ (round_size compressed_pool_traits s.pool.alignment num_bytes ≢ s.pool.declared_size)
        → ((round_size compressed_pool_traits s.pool.alignment num_bytes == s.pool.declared_size)
            && not (s.pool.obj_free_list == 0))
          ≡ false
    no_object c = ground (arith, c)
