-- ===== src/Fl2/Objects.antt =====
-- runtime/FL2Allocator/PoolAllocator.cpp: objects of the declared size.
use poolalloc_3_1_upstreamed.Prelude.{
  ℕ, suc, ◌+◌, ◌-◌, ◌%◌, ◌^◌, ◌<◌, ◌≡◌, ◌≢◌, refl, sym, ap, ◌∙◌, Bool, true, false, List, [], ◌∷◌,
  ◌++◌, ◌==◌, if◌then◌else◌, arith,
}
use poolalloc_3_1_upstreamed.Prelude.Results.{returned, ◌>>=◌}
use poolalloc_3_1_upstreamed.Fl2.Memory.{Traits, State, put, index_to_fnh_ptr}
use poolalloc_3_1_upstreamed.Fl2.Slab.{round_size}
use poolalloc_3_1_upstreamed.Fl2.Alloc.{
  set_mark, clear_mark, mark_allocated, take_object, alloc_rounded, poolalloc_internal,
}
use poolalloc_3_1_upstreamed.Fl2.Free.{
  merge_next, merge_other, merge_object, add_freed, free_node, poolfree_internal,
}
use poolalloc_3_1_upstreamed.Fl2.Links.{IsAway, put_self}
use poolalloc_3_1_upstreamed.Fl2.Lists.{FreeLists, without_object, unlink_free_node-object}
use poolalloc_3_1_upstreamed.Fl2.Added.{with_object, add_node_to_free_list-object}

if_same {ℓ} : {A : Type ℓ} (b : Bool) (a : A) → (if b then a else a) ≡ a
if_same true a = refl
if_same false a = refl

module _ (t : Traits) (plain : t.compressed ≡ false) where
  -- Where a request rounds up to the declared size and ObjFreeList is not empty, in a pool whose
  -- pointers are addresses and whose first object has the declared size, poolalloc_internal takes that
  -- object off the list, marks it, and returns the address behind its header; no fuel is needed.
  pub poolalloc_internal-object :
      (fuel : ℕ) (mems : List ℕ) (s : State) (num_bytes x : ℕ) (xs others : List ℕ)
      → FreeLists s (x ∷ xs) others
      → round_size t s.pool.alignment num_bytes ≡ s.pool.declared_size
      → s.size_at x ≡ s.pool.declared_size
      → (s' : State) × (poolalloc_internal fuel t mems s num_bytes ≡ returned (s', x + t.header))
        × FreeLists s' xs others
        × (s'.size_at ≡ put s.size_at x (set_mark s.pool.declared_size))
  unfolding poolalloc_internal alloc_rounded take_object index_to_fnh_ptr
  poolalloc_internal-object fuel mems s num_bytes x xs others lists rounded size =
      let (e, f) = unlink_free_node-object t plain s [] x xs others lists in
      let s' = (mark_allocated t (without_object s [] x) x s.pool.declared_size).0 in
      let head : s.pool.obj_free_list ≡ x = lists.object_list.0 in
      let some_object : (x == 0) ≡ false = ground (arith, lists.object_list.1) in
      let same : (s.pool.declared_size == s.pool.declared_size) ≡ true = ground arith in
      let fits : (s.size_at x == s.pool.declared_size) ≡ true = ground (arith, size) in
      (
        s',
        simp (rounded, same, some_object, plain, head, e, fits),
        record { object_list = f.object_list; other_list = f.other_list; apart = f.apart },
        refl,
      )

  -- No free node that is first on its list ends where this one begins.
  abbrev pub IsApartFrom : State → ℕ → Type 0
  IsApartFrom s fnh =
      (s.pool.obj_free_list + t.header + s.size_at s.pool.obj_free_list ≢ fnh)
      × (s.pool.other_free_list + t.header + s.size_at s.pool.other_free_list ≢ fnh)

  -- The object, of the declared size, that is freed in the second theorem below.
  abbrev pub freed : State → ℕ → State
  freed s fnh = with_object (record s { size_at = put s.size_at fnh s.pool.declared_size }) fnh

  add_freed-object :
      (s : State) (fnh : ℕ) (objects others : List ℕ)
      → FreeLists s objects others
      → fnh ≢ 0
      → IsAway fnh (objects ++ others)
      → (add_freed t s fnh s.pool.declared_size ≡ returned (freed s fnh))
        × FreeLists (freed s fnh) (fnh ∷ objects) others
  add_freed-object s fnh objects others lists nz away =
      add_node_to_free_list-object t plain
        (record s { size_at = put s.size_at fnh s.pool.declared_size }) fnh objects others
        (record {
          object_list = lists.object_list;
          other_list = lists.other_list;
          apart = lists.apart;
        })
        nz away (put_self s.size_at fnh s.pool.declared_size)

  merge_object-apart :
      (s : State) (fnh size : ℕ)
      → IsApartFrom s fnh
      → merge_object t s fnh size ≡ add_freed t s fnh size
  unfolding merge_object merge_other index_to_fnh_ptr
  merge_object-apart s fnh size away =
      let no_object : (s.pool.obj_free_list + t.header + s.size_at s.pool.obj_free_list == fnh)
          ≡ false =
        ground (arith, away.0) in
      let no_other : (s.pool.other_free_list + t.header + s.size_at s.pool.other_free_list == fnh)
          ≡ false =
        ground (arith, away.1) in
      simp (plain, no_object, no_other, if_same)

  poolfree_internal-apart :
      (n : ℕ) (s : State) (fnh size : ℕ)
      → size % 2 ≡ 0
      → size < 2 ^ 32 - 2
      → fnh + t.header ≢ 0
      → s.size_at fnh ≡ set_mark size
      → s.size_at (fnh + t.header + size) % 2 ≢ 0
      → IsApartFrom s fnh
      → poolfree_internal (suc n) t s (fnh + t.header)
        ≡ (add_freed t s fnh size >>= λ s'. returned (s', []))
  unfolding poolfree_internal free_node merge_next
  poolfree_internal-apart n s fnh size even small nz mark behind away =
      let some_node : (fnh + t.header == 0) ≡ false = ground arith in
      let back : fnh + t.header - t.header ≡ fnh = omega arith in
      let marked : (set_mark size % 2 == 0) ≡ false = ground arith in
      let used : (s.size_at (fnh + t.header + size) % 2 == 0) ≡ false = ground arith in
      let whole : clear_mark (set_mark size) % 2 ^ 32 ≡ size = omega arith in
      let no_array : (size == 2 ^ 32 - 2) ≡ false = ground arith in
      simp
        (some_node, back, mark, marked, whole, no_array, used, merge_object-apart s fnh size away)

  -- An allocated object of the declared size d is freed and allocated again, in a pool whose pointers
  -- are addresses: if d is even and less than 2^32 - 2, the node is on neither list, the node behind
  -- it is in use and neither list begins with a node that ends where this one begins, poolfree_internal
  -- puts it first on ObjFreeList, gives nothing to free, and poolalloc_internal of a request that
  -- rounds up to d returns the same address and leaves the lists as they were.
  pub poolalloc_internal-poolfree_internal :
      (n fuel : ℕ) (mems : List ℕ) (s : State) (num_bytes fnh : ℕ) (objects others : List ℕ)
      → FreeLists s objects others
      → fnh ≢ 0
      → IsAway fnh (objects ++ others)
      → s.pool.declared_size % 2 ≡ 0
      → s.pool.declared_size < 2 ^ 32 - 2
      → round_size t s.pool.alignment num_bytes ≡ s.pool.declared_size
      → s.size_at fnh ≡ set_mark s.pool.declared_size
      → s.size_at (fnh + t.header + s.pool.declared_size) % 2 ≢ 0
      → IsApartFrom s fnh
      → (s1 : State) × (s2 : State) × (poolfree_internal (suc n) t s (fnh + t.header)
          ≡ returned (s1, []))
        × FreeLists s1 (fnh ∷ objects) others
        × (poolalloc_internal fuel t mems s1 num_bytes ≡ returned (s2, fnh + t.header))
        × FreeLists s2 objects others
        × (s2.size_at fnh ≡ s.size_at fnh)
  poolalloc_internal-poolfree_internal n fuel mems s num_bytes fnh objects others lists nz off even
        small rounded mark behind away =
      let (added, f) = add_freed-object s fnh objects others lists nz off in
      let s1 = freed s fnh in
      let free =
        poolfree_internal-apart n s fnh s.pool.declared_size even small (omega arith) mark behind
          away
        ∙ ap (λ r. r >>= λ s'. returned (s', [])) added in
      let (s2, took, lists2, marked) =
        poolalloc_internal-object fuel mems s1 num_bytes fnh objects others f rounded
          (put_self s.size_at fnh s.pool.declared_size) in
      (
        s1,
        s2,
        free,
        f,
        took,
        lists2,
        ap (λ g. g fnh) marked ∙ put_self s1.size_at fnh (set_mark s.pool.declared_size) ∙ sym mark,
      )
