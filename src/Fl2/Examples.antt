-- ===== src/Fl2/Examples.antt =====
-- runtime/FL2Allocator: the theorems at concrete pools.
use poolalloc_3_1_upstreamed.Prelude.{
  ℕ, ◌+◌, ◌-◌, ◌^◌, ◌<◌, ◌≡◌, refl, inl, inr, [], ◌∷◌, ◌==◌, if◌then◌else◌, arith, ltb→lt,
}
use poolalloc_3_1_upstreamed.Prelude.Results.{returned, out_of_fuel}
use poolalloc_3_1_upstreamed.Fl2.Memory.{
  normal_pool_traits, compressed_pool_traits, State, pool_base, unlink_free_node,
}
use poolalloc_3_1_upstreamed.Fl2.Slab.{round_size}
use poolalloc_3_1_upstreamed.Fl2.Alloc.{poolalloc_internal}
use poolalloc_3_1_upstreamed.Fl2.Free.{poolfree_internal}
use poolalloc_3_1_upstreamed.Fl2.Compressed.{
  pool_size, Saved, take_saved, mapped_bytes, poolinit_pc, poolalloc_pc,
}
use poolalloc_3_1_upstreamed.Fl2.Lists.{FreeLists}
use poolalloc_3_1_upstreamed.Fl2.Unlink.{unlink_free_node-FreeLists}
use poolalloc_3_1_upstreamed.Fl2.Objects.{poolalloc_internal-poolfree_internal}
use poolalloc_3_1_upstreamed.Fl2.Growth.{CanGrow, poolalloc_internal-Returns}
use poolalloc_3_1_upstreamed.Fl2.Exhausted.{poolalloc_pc_endless}
use poolalloc_3_1_upstreamed.Fl2.Mapping.{poolinit_pc_past_end}

-- A free object of 16 bytes at 2000, free nodes at 3000 and 3600, and an object in use at 1000.
abbrev sample : State
sample = record {
  pool = record {
    slabs = 900 ∷ [];
    obj_free_list = 2000;
    other_free_list = 3000;
    alignment = 8;
    declared_size = 16;
    large_arrays = [];
    alloc_size = 8192;
    thread_refcount = 1;
  };
  size_at = λ a.
      if a == 1000
      then 17
      else if a == 1024
      then 33
      else if a == 2000
      then 16
      else if a == 3000
      then 400
      else 64;
  next_at = λ a. if a == 3000 then 3600 else 0;
  prev_at = λ a. if a == 3600 then 3000 else 0;
  large_size = λ a. 0;
}

sample_lists : FreeLists sample (2000 ∷ []) (3000 ∷ 3600 ∷ [])
sample_lists = record {
  object_list = (refl, ground arith, refl, refl);
  other_list = (refl, ground arith, refl, (refl, ground arith, refl, refl));
  apart = ((ground arith, (ground arith, tt)), ((ground arith, tt), (tt, tt)));
}

unlink_free_node-FreeLists_example :
    (s' : State) × (unlink_free_node normal_pool_traits sample 3600 ≡ returned s')
    × FreeLists s' (2000 ∷ []) (3000 ∷ [])
    × (s'.size_at ≡ sample.size_at)
unlink_free_node-FreeLists_example =
    unlink_free_node-FreeLists normal_pool_traits refl sample 3600 (2000 ∷ []) (3000 ∷ 3600 ∷ [])
      sample_lists (inr (inr (inl refl)))

round_ten : round_size normal_pool_traits 8 10 ≡ 16
unfolding round_size
round_ten = refl

poolalloc_internal-poolfree_internal_example :
    (s1 : State) × (s2 : State) × (poolfree_internal 1 normal_pool_traits sample 1008
      ≡ returned (s1, []))
    × FreeLists s1 (1000 ∷ 2000 ∷ []) (3000 ∷ 3600 ∷ [])
    × (poolalloc_internal 0 normal_pool_traits [] s1 10 ≡ returned (s2, 1008))
    × FreeLists s2 (2000 ∷ []) (3000 ∷ 3600 ∷ [])
    × (s2.size_at 1000 ≡ 17)
poolalloc_internal-poolfree_internal_example =
    poolalloc_internal-poolfree_internal normal_pool_traits refl 0 0 [] sample 10 1000 (2000 ∷ [])
      (3000 ∷ 3600 ∷ []) sample_lists (ground arith)
      (ground arith, (ground arith, (ground arith, tt))) refl (ltb→lt 16 (2 ^ 32 - 2) refl)
      round_ten refl (ground arith) (ground arith, ground arith)

sample_grows : CanGrow sample
sample_grows = record {
  declared_pos = omega arith;
  declared_lt = omega arith;
  least = omega arith;
  most = omega arith;
  no_skip = omega arith;
}

round_thousand : 0 < round_size normal_pool_traits 8 1000
unfolding round_size
round_thousand = ltb→lt 0 1000 refl

poolalloc_internal-Returns_example :
    (s' : State) × (block : ℕ) × (poolalloc_internal 3 normal_pool_traits
        (8000 ∷ 90000 ∷ [])
        sample
        1000
      ≡ returned (s', block))
poolalloc_internal-Returns_example =
    poolalloc_internal-Returns 3 8000 90000 [] sample 1000 (2000 ∷ []) (3000 ∷ 3600 ∷ [])
      sample_lists (refl, tt) sample_grows (omega arith)
      (ground arith, (ground arith, (ground arith, tt))) round_thousand

-- A pool of compressed pointers at 4096 with neither free nodes nor objects.
abbrev used_up : State
used_up = record {
  pool = record sample.pool { slabs = 4096 ∷ []; obj_free_list = 0; other_free_list = 0 };
  size_at = λ a. 0;
  next_at = λ a. 0;
  prev_at = λ a. 0;
  large_size = λ a. 0;
}

round_compressed : 0 < round_size compressed_pool_traits 8 10
unfolding round_size
round_compressed = ltb→lt 0 12 refl

poolalloc_pc_endless_example : poolalloc_pc 1000000 used_up 10 ≡ out_of_fuel
poolalloc_pc_endless_example =
    poolalloc_pc_endless 1000000 used_up 10 (ground arith) refl refl refl (inl refl)
      round_compressed

abbrev one_staggered : Saved
one_staggered = record { pools = 0 ∷ 0 ∷ 0 ∷ 0 ∷ []; stagger = 1 }

none_saved : take_saved one_staggered.pools ≡ (one_staggered.pools, 0)
unfolding take_saved
none_saved = refl

poolinit_pc_past_end_example :
    (s' : State) × (v' : Saved) × (poolinit_pc one_staggered 65536 used_up 12 8
      ≡ returned (s', pool_base s', v'))
    × (pool_base s' + pool_size ≡ 65536 + mapped_bytes 12 1 + 84)
    × (65536 + mapped_bytes 12 1 < pool_base s' + pool_size)
poolinit_pc_past_end_example =
    poolinit_pc_past_end one_staggered 65536 used_up 12 8 none_saved (ground arith)
      (ltb→lt 0 12 refl) (ltb→lt 12 pool_size refl)

-- A large array of 5000 bytes whose header is at 7000.
abbrev with_array : State
with_array = record sample {
  pool = record sample.pool { large_arrays = 7000 ∷ [] };
  size_at = λ a. if a == 7024 then 2 ^ 32 - 1 else 0;
  large_size = λ a. 5000;
}

-- A bump pointer pool with 60 bytes left.
abbrev bumped_pool : State
bumped_pool = record used_up {
  pool = record used_up.pool { obj_free_list = 5000; other_free_list = 5060 };
}
