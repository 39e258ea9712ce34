-- ===== src/FreeList/Destroy.antt =====
-- runtime/FreeListAllocator/PoolAllocator.cpp: what `pooldestroy` gives back.
use poolalloc_3_1_upstreamed.Prelude.{
  ℕ, zero, suc, ◌<◌, ◌≡◌, ◌≢◌, refl, false, Bool-cases, inl, inr, some, List, [], ◌∷◌, length, ◌==◌,
  if◌then◌else◌, arith,
}
use poolalloc_3_1_upstreamed.FreeList.Pages.{Pages, free_page, give_page}
use poolalloc_3_1_upstreamed.FreeList.Slab.{SlabHeader, State, returned}
use poolalloc_3_1_upstreamed.FreeList.Pool.{freed_slab, destroy_slabs, pooldestroy}

-- The slabs on the list that begins at an address, in order.
pub data IsChain (headers : ℕ → SlabHeader) : ℕ → List ℕ → Type 0 where
  chain_end : IsChain headers 0 []
  chain_next :
      {at : ℕ} {slabs : List ℕ}
      → at ≢ 0
      → IsChain headers (headers at).next slabs
      → IsChain headers at (at ∷ slabs)

-- The free pages behind those slabs, the managed ones of which are given back in order.
abbrev pub given_back : (ℕ → SlabHeader) → List ℕ → List ℕ → List ℕ
given_back headers [] free = free
given_back headers (a ∷ slabs) free =
    given_back headers slabs (if (headers a).is_managed then a ∷ free else free)

freed_slab_lem :
    (s : State) (at : ℕ) (free : List ℕ)
    → s.pages.free_pages ≡ some free
    → (p : Pages) × (freed_slab s at ≡ returned (record s { pages = p }))
      × (p.free_pages ≡ some (if (s.headers at).is_managed then at ∷ free else free))
unfolding freed_slab free_page give_page
freed_slab_lem s at free e = elim (Bool-cases (s.headers at).is_managed) [
  | inl managed ↦
      (record s.pages { free_pages = some (at ∷ free) }, simp (managed, e), simp (managed))
  | inr large ↦ (s.pages, simp (large), simp (large, e))
]

destroy_slabs_lem :
    (fuel : ℕ) (s : State) {at : ℕ} {slabs : List ℕ} (free : List ℕ)
    → IsChain s.headers at slabs
    → length slabs < fuel
    → s.pages.free_pages ≡ some free
    → (s' : State) × (destroy_slabs fuel s at ≡ returned s')
      × (s'.pages.free_pages ≡ some (given_back s.headers slabs free))
unfolding destroy_slabs
destroy_slabs_lem zero s free chain lt e = absurd (omega arith)
destroy_slabs_lem (suc fuel) s free chain_end lt e = (s, refl, e)
destroy_slabs_lem (suc fuel) s {at} free (chain_next {slabs = slabs} some_slab chain) lt e =
    let (p, gone, now) = freed_slab_lem s at free e in
    let (s', rest, pages) =
      destroy_slabs_lem fuel (record s { pages = p })
        (if (s.headers at).is_managed then at ∷ free else free) chain (omega arith) now in
    let nonnull : (at == 0) ≡ false = ground arith in (s', simp (nonnull, gone, rest), pages)

-- `pooldestroy` of a pool whose slabs are on a list that ends comes to its end, and gives the pages
-- of the managed slabs back, in the order of the list and each once.
pub pooldestroy-IsChain :
    (fuel : ℕ) (s : State) (slabs free : List ℕ)
    → IsChain s.headers s.pool.slabs slabs
    → length slabs < fuel
    → s.pages.free_pages ≡ some free
    → (s' : State) × (pooldestroy fuel s ≡ returned s')
      × (s'.pages.free_pages ≡ some (given_back s.headers slabs free))
unfolding pooldestroy
pooldestroy-IsChain fuel s slabs free chain lt e = destroy_slabs_lem fuel s free chain lt e
