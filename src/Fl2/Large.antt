-- ===== src/Fl2/Large.antt =====
-- runtime/FL2Allocator/PoolAllocator.cpp: the size of a large array that is moved.
use poolalloc_3_1_upstreamed.Prelude.{
  ℕ, ◌+◌, ◌-◌, ◌%◌, ◌^◌, ◌≡◌, ◌≢◌, refl, ap, ◌∙◌, false, some, List, ◌∷◌, ◌==◌, arith,
}
use poolalloc_3_1_upstreamed.Prelude.Results.{returned}
use poolalloc_3_1_upstreamed.Fl2.Memory.{normal_pool_traits, State, put}
use poolalloc_3_1_upstreamed.Fl2.Free.{unlink_large}
use poolalloc_3_1_upstreamed.Fl2.Pool.{Moved, move_large, poolrealloc_internal, poolobjsize}
use poolalloc_3_1_upstreamed.Fl2.Links.{put_self}

-- poolobjsize of a large array whose marker is in place.
poolobjsize-large :
    (s : State) (lah : ℕ)
    → s.size_at (lah + 24) ≡ 2 ^ 32 - 1
    → poolobjsize normal_pool_traits (some s) (lah + 32) ≡ returned (s.large_size lah % 2 ^ 32)
unfolding poolobjsize
poolobjsize-large s lah marker =
    let some_node : (lah + 32 == 0) ≡ false = ground arith in
    let header : lah + 32 - 8 ≡ lah + 24 = omega arith in
    let back : lah + 32 - 32 ≡ lah = omega arith in simp (some_node, header, back, marker)

-- poolrealloc_internal of a large array to any number of bytes other than 0 returns the new block,
-- and poolobjsize of it is the size before: the size in the header is not set to the new one.
pub poolobjsize-poolrealloc_internal :
    (fuel lah' : ℕ) (mems : List ℕ) (s : State) (lah num_bytes : ℕ)
    → s.size_at (lah + 24) ≡ 2 ^ 32 - 1
    → num_bytes ≢ 0
    → (m : Moved) × (poolrealloc_internal fuel normal_pool_traits
          (lah' ∷ mems)
          s
          (lah + 32)
          num_bytes
        ≡ returned m)
      × (m.block ≡ lah' + 32)
      × (poolobjsize normal_pool_traits (some m.state) m.block
          ≡ returned (s.large_size lah % 2 ^ 32))
unfolding poolrealloc_internal move_large
poolobjsize-poolrealloc_internal fuel lah' mems s lah num_bytes marker nz =
    let some_node : (lah + 32 == 0) ≡ false = ground arith in
    let some_bytes : (num_bytes == 0) ≡ false = ground (arith, nz) in
    let header : lah + 32 - 8 ≡ lah + 24 = omega arith in
    let back : lah + 32 - 32 ≡ lah = omega arith in
    let header' : lah' + 32 - 8 ≡ lah' + 24 = omega arith in
    let s' : State = record s {
      pool = record s.pool { large_arrays = lah' ∷ unlink_large lah s.pool.large_arrays };
      large_size = put s.large_size lah' (s.large_size lah);
      size_at = put s.size_at (lah' + 24) (s.size_at (lah + 24));
    } in
    let moved : Moved = record { state = s'; block = lah' + 32; copied = 0 } in
    (
      moved,
      simp (some_node, some_bytes, header, marker, back, header'),
      refl,
      poolobjsize-large s' lah' (put_self s.size_at (lah' + 24) (s.size_at (lah + 24)) ∙ marker)
          ∙ ap (λ n. returned (n % 2 ^ 32)) (put_self s.large_size lah' (s.large_size lah)),
    )
