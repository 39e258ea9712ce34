-- ===== src/Fl2/Mapping.antt =====
-- runtime/FL2Allocator/PoolAllocator.cpp: where a pool of compressed pointers lies in its mapping.
use native.Mathlib.Nat.{mul_comm}
use mathlib.Core.Path.{subst}
use poolalloc_3_1_upstreamed.Prelude.{
  ℕ, ◌+◌, ◌-◌, ◌*◌, ◌%◌, ◌^◌, ◌<◌, ◌≡◌, ◌≢◌, refl, sym, ap, ◌∙◌, Bool, true, false, List, [], ◌∷◌,
  ltb, leb, ◌==◌, if◌then◌else◌, arith,
}
use poolalloc_3_1_upstreamed.Prelude.Results.{Result, returned, ◌>>=◌}
use poolalloc_3_1_upstreamed.Fl2.Memory.{
  compressed_pool_traits, State, base_of, pool_base, put, link_first, fnh_ptr_to_index,
  add_node_to_free_list,
}
use poolalloc_3_1_upstreamed.Fl2.Slab.{declare, add_body, create_for_ptrcomp}
use poolalloc_3_1_upstreamed.Fl2.Pool.{poolinit_internal}
use poolalloc_3_1_upstreamed.Fl2.Compressed.{
  pool_size, Saved, take_saved, mapped_bytes, poolinit_pc,
}

-- A computation that returns a state with the same slabs.
abbrev pub Keeps : List ℕ → Result State → Type 0
Keeps slabs r = (s : State) × (r ≡ returned s) × (s.pool.slabs ≡ slabs)

Keeps-if :
    (slabs : List ℕ) (b : Bool) {x y : Result State}
    → Keeps slabs x
    → Keeps slabs y
    → Keeps slabs (if b then x else y)
Keeps-if slabs true x y = x
Keeps-if slabs false x y = y

Keeps->>= :
    (slabs : List ℕ) (f : State → State) {r : Result State}
    → Keeps slabs r
    → ((s : State) → (f s).pool.slabs ≡ s.pool.slabs)
    → Keeps slabs (r >>= λ s. returned (f s))
Keeps->>= slabs f (s, e, k) h = (f s, ap (λ r. r >>= λ s. returned (f s)) e, h s ∙ k)

-- Neither assert of `FNHPtrToIndex` fails.
add_node_to_free_list-Keeps :
    (s : State) (node : ℕ)
    → node ≢ 0
    → pool_base s ≢ 0
    → Keeps s.pool.slabs (add_node_to_free_list compressed_pool_traits s node)
unfolding add_node_to_free_list fnh_ptr_to_index link_first
add_node_to_free_list-Keeps s node nz base =
    let some_node : (node == 0) ≡ false = ground (arith, nz) in
    let some_base : (pool_base s == 0) ≡ false = ground (arith, base) in
    rw (some_node, some_base)
      (Keeps-if s.pool.slabs (s.size_at node == s.pool.declared_size) (_, refl, refl)
        (_, refl, refl))

add_body-Keeps :
    (s : State) (body size : ℕ)
    → body ≢ 0
    → pool_base s ≢ 0
    → Keeps s.pool.slabs (add_body compressed_pool_traits s body size)
unfolding add_body
add_body-Keeps s body size nz base =
    Keeps->>= s.pool.slabs
      (λ s'. record s' { size_at = put s'.size_at (body + 4 + size) (2 ^ 32 - 1) })
      (add_node_to_free_list-Keeps (record s { size_at = put s.size_at body size }) body nz base)
      (λ _. refl)

declared-slabs :
    (b : Bool) (s : State)
    → (if b then declare compressed_pool_traits s 8 else s).pool.slabs ≡ s.pool.slabs
declared-slabs true s = refl
declared-slabs false s = refl

create_for_ptrcomp-Keeps :
    (s : State) (ps bytes : ℕ)
    → ps ≢ 0
    → pool_base s ≢ 0
    → Keeps s.pool.slabs (create_for_ptrcomp compressed_pool_traits s ps bytes)
unfolding create_for_ptrcomp
create_for_ptrcomp-Keeps s ps bytes nz base =
    let s' = if s.pool.declared_size == 0 then declare compressed_pool_traits s 8 else s in
    let same = declared-slabs (s.pool.declared_size == 0) s in
    let added =
      add_body-Keeps s' (ps + 8 + (if ltb 4 s.pool.alignment then s.pool.alignment - 4 else 0))
        (((bytes + 2 ^ 32 - 24) % 2 ^ 32
            + 2 ^ 32
            - (if ltb 4 s.pool.alignment then s.pool.alignment - 4 else 0))
          % 2 ^ 32)
        (λ e. nz (omega (arith, e))) (λ e. base (ap base_of (sym same) ∙ e)) in
    subst (λ l. Keeps l (create_for_ptrcomp compressed_pool_traits s ps bytes)) same
      (Keeps->>= s'.pool.slabs
        (λ s''. record s'' { size_at = put s''.size_at ps 0; next_at = put s''.next_at ps 0 }) added
        (λ _. refl))

-- With no saved pool, a mapping that is not at null and 0 < DeclaredSize * stagger < POOLSIZE,
-- poolinit_pc returns a pool that ends seven times that product behind the mapping it made, since
-- it moves the start by as many PoolSlabs, of 8 bytes, and not by as many bytes.
pub poolinit_pc_past_end :
    (v : Saved) (mapped : ℕ) (s : State) (declared align : ℕ)
    → take_saved v.pools ≡ (v.pools, 0)
    → mapped ≢ 0
    → 0 < declared * v.stagger
    → declared * v.stagger < pool_size
    → (s' : State) × (v' : Saved) × (poolinit_pc v mapped s declared align
        ≡ returned (s', pool_base s', v'))
      × (pool_base s' + pool_size
          ≡ mapped + mapped_bytes declared v.stagger + 7 * (declared * v.stagger))
      × (mapped + mapped_bytes declared v.stagger < pool_base s' + pool_size)
unfolding poolinit_pc
poolinit_pc_past_end v mapped s declared align none_saved nz some_stagger below =
    let moved = declared * v.stagger in
    let base = mapped + 8 * moved in
    let comm : v.stagger * declared ≡ moved = mul_comm v.stagger declared in
    let low : moved % 2 ^ 32 ≡ moved = omega (arith, below) in
    let no_wrap : leb pool_size moved ≡ false = ground (arith, below) in
    let s1 = poolinit_internal compressed_pool_traits s declared align in
    let (s2, e, k) =
      create_for_ptrcomp-Keeps (record s1 { pool = record s1.pool { slabs = base ∷ [] } }) base
        pool_size (λ h. nz (omega (arith, h))) (λ h. nz (omega (arith, h))) in
    let start : pool_base s2 ≡ base = ap base_of k in
    let v' : Saved = record { pools = v.pools; stagger = (v.stagger + 1) % 2 ^ 32 } in
    let made : poolinit_pc v mapped s declared align ≡ returned (s2, base, v') =
      simp (none_saved, comm, low, no_wrap, e) in
    (
      s2,
      v',
      made ∙ ap (λ b. returned (s2, b, v')) (sym start),
      omega (arith, start, below),
      omega (arith, start, below, some_stagger),
    )
