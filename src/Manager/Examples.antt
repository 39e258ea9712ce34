-- ===== src/Manager/Examples.antt =====
-- include/poolalloc_runtime/PoolAllocator.h: the theorems at small managers.
use poolalloc_3_1_upstreamed.Prelude.{◌+◌, ◌*◌, ◌≡◌, refl, some, [], ◌∷◌, arith, ltb}
use poolalloc_3_1_upstreamed.Splay.Tree.{leaf, node}
use poolalloc_3_1_upstreamed.Manager.Malloc.{
  MallocSlabManager, slab_alloc, slab_free, slab_getbounds,
}
use poolalloc_3_1_upstreamed.Manager.MallocLaws.{live, slab_free-slab_alloc}
use poolalloc_3_1_upstreamed.Manager.BitMask
use poolalloc_3_1_upstreamed.Manager.BitMask.{
  Config, SlabMetadata, BitMaskSlabManager, returned, find_free, num_ints_per_slab_meta,
  num_objs_per_slab, lookup_slab,
}
use poolalloc_3_1_upstreamed.Manager.BitMaskLaws.{IsFirstClear, slab_alloc_repeats}

-- One object of 16 bytes at 1000 is out.
abbrev one_out : MallocSlabManager
one_out = record {
  objs = node leaf (record { start = 1000; end = 1015; value = tt }) leaf;
  objsize = 16;
}

slab_free-slab_alloc_example :
    let m' = (slab_alloc one_out 2 2000).0 in
    ((slab_getbounds m' 2010).1 ≡ some (record { start = 2000; end = 2031; value = tt }))
    × ((slab_free m' 2010).1 ≡ some (record { address = 2000; bytes = 32 }))
    × (live (slab_free m' 2010).0 ≡ live one_out)
slab_free-slab_alloc_example =
    slab_free-slab_alloc one_out 2 2000 2010 (omega arith) (omega arith) (omega arith) (omega arith)
      (omega arith)

-- One page of 4096 bytes, objects of 64 bytes, the first four of them out.
abbrev four_out : SlabMetadata
four_out = record { data_ptr = 8192; free_bitmask = λ w b. ltb (w * 32 + b) 4 }

abbrev settings : Config
settings = record { page_size = 4096; page_shift_amount = 0; load = 80; objsize = 64 }

abbrev small : BitMaskSlabManager
small = record {
  config = settings;
  slabmetadata = (8192, four_out) ∷ [];
  mapped_pages = λ p. 8192;
  cur_alloc_slab = some 8192;
  totalslots = 64;
  totalallocs = 4;
}

four_out-IsFirstClear : IsFirstClear four_out.free_bitmask (num_ints_per_slab_meta settings) 0 4
unfolding num_ints_per_slab_meta num_objs_per_slab
four_out-IsFirstClear = record {
  word_in = omega arith;
  bit_in = omega arith;
  clear = refl;
  below = λ j lo hi. ground arith;
  full = λ w lt. absurd (omega arith);
}

-- The fifth and the sixth object of the slab are the same.
slab_alloc_repeats_example :
    (m1 : BitMaskSlabManager) × (m2 : BitMaskSlabManager) × (BitMask.slab_alloc (0 ∷ []) small 1
      ≡ returned m1 8448)
    × (BitMask.slab_alloc (0 ∷ []) m1 1 ≡ returned m2 8448)
unfolding lookup_slab
slab_alloc_repeats_example =
    slab_alloc_repeats small 8192 four_out 0 4 0 refl refl four_out-IsFirstClear (omega arith)
