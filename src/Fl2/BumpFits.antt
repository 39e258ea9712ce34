-- ===== src/Fl2/BumpFits.antt =====
-- runtime/FL2Allocator/PoolAllocator.cpp: the blocks of a bump pointer pool.
use poolalloc_3_1_upstreamed.Prelude.{ℕ, ◌+◌, ◌*◌, ◌%◌, ◌≤◌, ◌<◌, ◌≡◌, ◌⊎◌, List, ◌∷◌}
use poolalloc_3_1_upstreamed.Fl2.Memory.{State}

-- What `poolalloc_bp` hands out: an aligned block below the end pointer, behind the bump pointer of
-- before or in the newest slab; the bump pointer is at its end.
pub record IsBlock (s : State) (from bytes : ℕ) (s' : State) (p : ℕ) : Type 0 where
  pub aligned : p % s.pool.alignment ≡ 0
  pub below_end : p + bytes < s'.pool.other_free_list
  pub bumped : s'.pool.obj_free_list ≡ p + bytes
  pub place :
      ((s'.pool.slabs ≡ s.pool.slabs)
        × (s'.pool.other_free_list ≡ s.pool.other_free_list)
        × (from ≤ p))
      ⊎ ((ps : ℕ) × (slabs : List ℕ) × (s'.pool.slabs ≡ ps ∷ slabs)
          × (ps + 8 ≤ p)
          × (s'.pool.other_free_list ≤ ps + 8 + 2 * s.pool.alloc_size))
