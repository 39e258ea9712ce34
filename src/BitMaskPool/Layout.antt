-- ===== src/BitMaskPool/Layout.antt =====
-- runtime/PoolAllocator/PoolAllocatorBitMask.cpp: addresses, pages, and two limits of `poolfree`.
use native.Mathlib.Nat.{
  mul-div-le, div-mul-le_self, div-le_self, le-div_iff_mul-le, mul-div_left, mul-mod_left,
}
use poolalloc_3_1_upstreamed.Prelude.{
  ℕ, zero, suc, ◌+◌, ◌-◌, ◌*◌, ◌/◌, ◌%◌, ◌^◌, ◌≤◌, ◌<◌, ◌≡◌, ap, ◌∙◌, true, false, some, List, [],
  ◌∷◌, ◌++◌, ltb, ◌==◌, arith,
}
use poolalloc_3_1_upstreamed.BitMaskPool.Slab.{PoolSlab, wrap, ok, null_read, is_full}
use poolalloc_3_1_upstreamed.BitMaskPool.Pool.{
  Layout, Pool, get_slab_size, slab_bytes, get_element_address, contains_element,
  create_single_array, num_pages, destroy, free_pages_down, poolfree, leave_full_list,
  insert_partial, remove_address, array_slab, add_to_ptr2, set_slab,
}

slab_fits :
    (h m k n w : ℕ)
    → w ≤ m - (k * 2 / 8 + 3) / 4 * 4
    → n ≤ k
    → n ≤ w
    → h + 4 * ((n + 15) / 16) + w ≤ h + m + 4
slab_fits h m k n w fits le small = omega arith

-- A new slab takes at most four bytes more than a page.
pub slab_bytes_le :
    (y : Layout) (node_size : ℕ)
    → 0 < node_size
    → y.header ≤ y.page_size
    → slab_bytes y node_size ≤ y.page_size + 4
unfolding slab_bytes get_slab_size
slab_bytes_le y ns pos h =
    let m = y.page_size - y.header in
    let room = m - (m / ns * 2 / 8 + 3) / 4 * 4 in
    let bound =
      slab_fits y.header m (m / ns) (room / ns) (ns * (room / ns)) (mul-div-le room ns)
        ((le-div_iff_mul-le pos).1 (omega (arith, div-mul-le_self room ns))) (grind arith) in
    omega (arith, bound)

-- The address of a node leads back to its number.
pub contains_element-get_element_address :
    (y : Layout) (at : ℕ) (s : PoolSlab) (idx size : ℕ)
    → idx < s.num_nodes_in_slab
    → idx * size < 2 ^ 32
    → 0 < size
    → contains_element y at s (get_element_address y at s idx size) size ≡ ok (some idx)
unfolding contains_element get_element_address
contains_element-get_element_address y at s idx size h small pos =
    let start = at + y.flags_offset + 4 * ((s.num_nodes_in_slab + 15) / 16) in
    let delta : (start + idx * size - (start + 0)) % 2 ^ 32 ≡ idx * size = omega arith in
    let index : idx * size / size ≡ idx = mul-div_left idx pos in
    let rest : idx * size % size ≡ 0 = mul-mod_left idx size in ground (arith, delta, index, rest)

-- The pages from `page` on, `n` of them, the last first.
abbrev pub pages_down : ℕ → ℕ → ℕ → List ℕ
pages_down page size zero = []
pages_down page size (suc n) = (page + n * size) ∷ pages_down page size n

free_pages_down-eq :
    (y : Layout) (at n : ℕ) → free_pages_down y at n ++ at ∷ [] ≡ pages_down at y.page_size (suc n)
unfolding free_pages_down
free_pages_down-eq y at zero = let e : at ≡ at + 0 * y.page_size = omega arith in ap (λ a. a ∷ []) e
free_pages_down-eq y at (suc n) =
    ap (λ l. (at + suc n * y.page_size) ∷ l) (free_pages_down-eq y at n)

num_pages_bounds :
    (n num : ℕ)
    → 0 < n
    → n < num
    → num + n ≤ 2 ^ 32
    → (0 < num_pages n num) × (num_pages n num < 2 ^ 32)
unfolding num_pages
num_pages_bounds n num pos h small =
    let sum : wrap (num + n + (2 ^ 32 - 1)) ≡ num + n - 1 = omega arith in
    rw sum
      ((le-div_iff_mul-le pos).1 (omega arith), omega (arith, div-le_self (num + n - 1) n, small))

-- To destroy the slab of a single array gives back the pages that it was made of, each once, the
-- last first, where the count of nodes and that of a slab have a sum that is an `unsigned`, or 2^32.
pub destroy-create_single_array :
    (y : Layout) (p : Pool) (num_nodes page : ℕ)
    → 0 < get_slab_size y p.node_size
    → get_slab_size y p.node_size < num_nodes
    → num_nodes + get_slab_size y p.node_size ≤ 2 ^ 32
    → (q : Pool) × (at : ℕ) × (create_single_array y p num_nodes page ≡ ok (q, at))
      × (destroy y page (q.slabs page)
          ≡ pages_down page y.page_size (num_pages (get_slab_size y p.node_size) num_nodes))
unfolding create_single_array destroy
destroy-create_single_array y p num_nodes page pos large small =
    let pages = num_pages (get_slab_size y p.node_size) num_nodes in
    let room : ltb (get_slab_size y p.node_size) num_nodes ≡ true = ground arith in
    let same : (page == page) ≡ true = ground arith in
    let joined : suc (wrap (pages % 2 ^ 16 + pages / 2 ^ 16 * 2 ^ 16 + (2 ^ 32 - 1))) ≡ pages =
      omega (arith, num_pages_bounds (get_slab_size y p.node_size) num_nodes pos large small) in
    let s = array_slab (p.slabs page) pages in
    (
      add_to_ptr2 (set_slab p page s) page,
      get_element_address y page s 0 0,
      simp room,
      simp same (free_pages_down-eq y page _ ∙ ap (pages_down page y.page_size) joined),
    )

-- To free a node of a slab that is full, while the list of the other slabs is empty, reads the
-- null pointer at the front of that list.
pub poolfree_null :
    (y : Layout) (p : Pool) (node idx : ℕ)
    → let at = node - node % y.page_size in
      (p.slabs at).is_single_array ≡ false
      → contains_element y at (p.slabs at) node p.node_size ≡ ok (some idx)
      → is_full (p.slabs at) ≡ true
      → p.ptr1 ≡ []
      → poolfree y p node ≡ null_read
unfolding poolfree leave_full_list insert_partial remove_address
poolfree_null y p node idx plain inside full empty = simp (plain, inside, full, empty)
