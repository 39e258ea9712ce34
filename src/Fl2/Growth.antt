-- ===== src/Fl2/Growth.antt =====
-- runtime/FL2Allocator/PoolAllocator.cpp: `poolalloc_internal` of a pool that grows returns.
use native.Mathlib.Nat.{lt-div-mul-add, div-mul-le_self, mod-eq_of_lt}
use mathlib.Core.Path.{subst}
use poolalloc_3_1_upstreamed.Prelude.{
  ℕ, ◌+◌, ◌-◌, ◌*◌, ◌/◌, ◌%◌, ◌^◌, ◌≤◌, ◌<◌, ◌≡◌, ◌≢◌, refl, sym, ap, ◌∙◌, true, false, ◌&&◌, not,
  ◌⊎◌, Bool-cases, inl, inr, none, some, List, [], ◌∷◌, ◌++◌, length, ltb, leb, ◌==◌, arith, All,
}
use poolalloc_3_1_upstreamed.Prelude.Results.{Result, returned, ◌>>=◌}
use poolalloc_3_1_upstreamed.Fl2.Memory.{normal_pool_traits, State, put, unlink_free_node}
use poolalloc_3_1_upstreamed.Fl2.Slab.{round_size, add_body, push_slab, create_sized, create}
use poolalloc_3_1_upstreamed.Fl2.Alloc.{
  split_bound, take_other, alloc_loop, alloc_large, alloc_rounded, poolalloc_internal,
}
use poolalloc_3_1_upstreamed.Fl2.Links.{IsAway, put_self, put_other}
use poolalloc_3_1_upstreamed.Fl2.Lists.{FreeLists, unlink_free_node-other}
use poolalloc_3_1_upstreamed.Fl2.Added.{add_node_to_free_list-other}
use poolalloc_3_1_upstreamed.Fl2.Search.{
  Returns, Returns-if, index_to_fnh_ptr-plain, take_node-Returns, take_other-Returns,
}
use poolalloc_3_1_upstreamed.Fl2.Objects.{poolalloc_internal-object}

-- What the size of a slab is rounded up to.
slab_size_le :
    (a h : ℕ) → 0 < h → h ≤ 4096 → a ≤ 2 ^ 31 → a ≤ (a + h + 2 ^ 32 - 1) % 2 ^ 32 / h * h % 2 ^ 32
slab_size_le a h pos small least =
    let sum : (a + h + 2 ^ 32 - 1) % 2 ^ 32 ≡ a + h - 1 = omega arith in
    let most = div-mul-le_self (a + h - 1) h in
    let more = lt-div-mul-add {a = a + h - 1} pos in
    rw sum (omega (arith, most, more, pos, small, least))

-- The body of a new slab is the first node of `OtherFreeList`.
add_body-FreeLists :
    (s : State) (body size : ℕ) (objects others : List ℕ)
    → FreeLists s objects others
    → body ≢ 0
    → IsAway body (objects ++ others)
    → size ≢ s.pool.declared_size
    → (s' : State) × (add_body normal_pool_traits s body size ≡ returned s')
      × FreeLists s' objects (body ∷ others)
      × (s'.size_at body ≡ size)
unfolding add_body
add_body-FreeLists s body size objects others lists nz away different =
    let s1 : State = record s { size_at = put s.size_at body size } in
    let self = put_self s.size_at body size in
    let (e, f) =
      add_node_to_free_list-other normal_pool_traits refl s1 body objects others
        (record {
          object_list = lists.object_list;
          other_list = lists.other_list;
          apart = lists.apart;
        })
        nz away (λ same. different (sym self ∙ same)) in
    let mark_end : State → Result State =
      λ s'. returned (record s' { size_at = put s'.size_at (body + 8 + size) (2 ^ 64 - 1) }) in
    (
      _,
      ap (λ r. r >>= mark_end) e,
      record { object_list = f.object_list; other_list = f.other_list; apart = f.apart },
      put_other s1.size_at (body + 8 + size) (2 ^ 64 - 1) body (λ k. omega (arith, k)) ∙ self,
    )

-- A pool that takes new slabs: their sizes are more than the declared one, and are not cut off.
pub record CanGrow (s : State) : Type 0 where
  pub declared_pos : 0 < s.pool.declared_size
  pub declared_lt : s.pool.declared_size < 4096
  pub least : 4096 ≤ s.pool.alloc_size
  pub most : s.pool.alloc_size ≤ 2 ^ 31
  pub no_skip : s.pool.alignment ≤ 24

create-FreeLists :
    (s : State) (bytes ps : ℕ) (objects others : List ℕ)
    → FreeLists s objects others
    → CanGrow s
    → 0 < bytes
    → bytes ≤ 4096
    → IsAway (ps + 8) (objects ++ others)
    → (s' : State) × (create normal_pool_traits s bytes ps ≡ returned s')
      × FreeLists s' objects ((ps + 8) ∷ others)
      × (bytes ≤ s'.size_at (ps + 8))
      × (s'.size_at (ps + 8) < 2 ^ 32)
unfolding create create_sized
create-FreeLists s bytes ps objects others lists can pos small away =
    let size = (s.pool.alloc_size + bytes + 2 ^ 32 - 1) % 2 ^ 32 / bytes * bytes % 2 ^ 32 in
    let le = slab_size_le s.pool.alloc_size bytes pos small can.most in
    let below : size < 2 ^ 32 = omega arith in
    let align : ltb 24 s.pool.alignment ≡ false = ground (arith, can.no_skip) in
    let declared : (s.pool.declared_size == 0) ≡ false = ground (arith, can.declared_pos) in
    let whole : (size + 2 ^ 32 - 0) % 2 ^ 32 ≡ size = omega (arith, below) in
    let s1 : State = record s {
      pool = record s.pool { alloc_size = (s.pool.alloc_size * 2) % 2 ^ 32 };
    } in
    let (s2, e, f, self) =
      add_body-FreeLists s1 (ps + 8) size objects others
        (record {
          object_list = lists.object_list;
          other_list = lists.other_list;
          apart = lists.apart;
        })
        (ground arith) away (λ same. omega (arith, same, le, can.least, can.declared_lt)) in
    let start : ps + 8 + 0 ≡ ps + 8 = omega arith in
    let added : add_body normal_pool_traits s1 (ps + 8 + 0) ((size + 2 ^ 32 - 0) % 2 ^ 32)
        ≡ returned s2 =
      subst (λ n. add_body normal_pool_traits s1 (ps + 8 + 0) n ≡ returned s2) (sym whole)
        (subst (λ p. add_body normal_pool_traits s1 p size ≡ returned s2) (sym start) e) in
    (
      push_slab ps s2,
      simp (declared, align, added),
      record { object_list = f.object_list; other_list = f.other_list; apart = f.apart },
      omega (arith, self, le, small, can.least),
      omega (arith, self, below),
    )

-- A round in a pool of which the first node of `OtherFreeList` is large enough.
take_other-first :
    (fuel : ℕ) (s : State) (bytes x : ℕ) (objects xs : List ℕ)
    → FreeLists s objects (x ∷ xs)
    → bytes ≤ s.size_at x
    → s.size_at x < 2 ^ 32
    → (r : State × ℕ) × (take_other fuel normal_pool_traits s bytes ≡ returned (some r))
unfolding take_other
take_other-first fuel s bytes x objects xs lists fits whole =
    let first = s.pool.other_free_list in
    let head : first ≡ x = lists.other_list.0 in
    let some_node : (first == 0) ≡ false = ground (arith, head, lists.other_list.1) in
    let large : leb bytes (s.size_at first % 2 ^ 32) ≡ true =
      rw head (ground (arith, mod-eq_of_lt whole, fits)) in
    let unlinks : Returns (unlink_free_node normal_pool_traits s first) =
      subst (λ n. Returns (unlink_free_node normal_pool_traits s n)) (sym head)
        (_, (unlink_free_node-other normal_pool_traits refl s objects [] x xs lists).0) in
    let (r, e) =
      take_node-Returns normal_pool_traits refl s first (s.size_at first % 2 ^ 32) bytes
        (leb (split_bound normal_pool_traits bytes) (s.size_at first % 2 ^ 32)) unlinks in
    (r, simp (index_to_fnh_ptr-plain normal_pool_traits refl, some_node, large, e))

-- Two rounds are enough.
alloc_loop-Returns :
    (fuel : ℕ) (a b : ℕ) (mems : List ℕ) (s : State) (bytes : ℕ) (objects others : List ℕ)
    → FreeLists s objects others
    → length others < fuel
    → CanGrow s
    → 0 < bytes
    → bytes ≤ 4096
    → IsAway (a + 8) (objects ++ others)
    → Returns (alloc_loop fuel normal_pool_traits (a ∷ b ∷ mems) s bytes)
unfolding alloc_loop
alloc_loop-Returns fuel a b mems s bytes objects others lists enough can pos small away =
    go (take_other-Returns normal_pool_traits refl fuel s bytes objects others lists enough)
  where
    go :
        Returns (take_other fuel normal_pool_traits s bytes)
        → Returns (alloc_loop fuel normal_pool_traits (a ∷ b ∷ mems) s bytes)
    go (some done, e) = rw e (done, refl)
    go (none, e) =
        let (s', made, lists', fits, whole) =
          create-FreeLists s bytes a objects others lists can pos small away in
        let (r, took) = take_other-first fuel s' bytes (a + 8) objects others lists' fits whole in
        rw e (rw made (rw took (r, refl)))

-- poolalloc_internal of a pool with NormalPoolTraits returns a node, whatever the size, if malloc
-- gives two blocks, of which the first is no free node's, and the fuel is above the number of nodes
-- on OtherFreeList: in a pool with sound lists, of which the objects have the declared size, where
-- that size is not 0 and below a slab's, AllocSize has been doubled at most 19 times, the alignment
-- is at most a free node's header and the rounded size is not 0.
pub poolalloc_internal-Returns :
    (fuel a b : ℕ) (mems : List ℕ) (s : State) (num_bytes : ℕ) (objects others : List ℕ)
    → FreeLists s objects others
    → All (λ x. s.size_at x ≡ s.pool.declared_size) objects
    → CanGrow s
    → length others < fuel
    → IsAway (a + 8) (objects ++ others)
    → 0 < round_size normal_pool_traits s.pool.alignment num_bytes
    → (s' : State) × (block : ℕ) × (poolalloc_internal fuel normal_pool_traits
          (a ∷ b ∷ mems)
          s
          num_bytes
        ≡ returned (s', block))
unfolding poolalloc_internal alloc_rounded alloc_large
poolalloc_internal-Returns fuel a b mems s num_bytes objects others lists sizes can enough away
      pos =
    let (r, e) = rounded objects lists sizes away (
      Bool-cases
        (round_size normal_pool_traits s.pool.alignment num_bytes == s.pool.declared_size)) in
    (r.0, r.1, e)
  where
    bytes : ℕ
    bytes = round_size normal_pool_traits s.pool.alignment num_bytes

    result : Result (State × ℕ)
    result = alloc_rounded fuel normal_pool_traits (a ∷ b ∷ mems) s bytes

    other :
        (objects : List ℕ)
        → FreeLists s objects others
        → IsAway (a + 8) (objects ++ others)
        → (((bytes == s.pool.declared_size) && not (s.pool.obj_free_list == 0)) ≡ false)
        → Returns result
    other objects lists away no_object = rw no_object (
        Returns-if (leb 4080 bytes) (λ _. (_, refl))
          (λ small.
            alloc_loop-Returns fuel a b mems s bytes objects others lists enough can pos
              (ground (arith, small)) away))

    rounded :
        (objects : List ℕ)
        → FreeLists s objects others
        → All (λ x. s.size_at x ≡ s.pool.declared_size) objects
        → IsAway (a + 8) (objects ++ others)
        → ((bytes == s.pool.declared_size) ≡ true) ⊎ ((bytes == s.pool.declared_size) ≡ false)
        → Returns result
    rounded (x ∷ xs) lists sizes away (inl same) =
        let (s', e, _, _) =
          poolalloc_internal-object normal_pool_traits refl fuel (a ∷ b ∷ mems) s num_bytes x xs
            others lists (ground arith) sizes.0 in
        ((s', x + 8), e)
    rounded [] lists sizes away (inl same) = other [] lists away (simp (same, lists.object_list))
    rounded objects lists sizes away (inr different) = other objects lists away (simp (different))
