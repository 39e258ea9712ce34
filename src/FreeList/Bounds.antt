-- ===== src/FreeList/Bounds.antt =====
-- runtime/FreeListAllocator/PoolAllocator.cpp: where the blocks of a new slab lie.
use native.Mathlib.Nat.{mul-div-le, mul-div_left, mul-le-mul_left}
use poolalloc_3_1_upstreamed.Prelude.{
  ℕ, suc, ◌+◌, ◌-◌, ◌*◌, ◌/◌, ◌≤◌, ◌<◌, ◌≡◌, true, ltb, ◌==◌, arith, ap, ◌∙◌, sym, Bool-cases, inl,
  inr,
}
use poolalloc_3_1_upstreamed.FreeList.Pages.{Pages, allocate_page}
use poolalloc_3_1_upstreamed.FreeList.Slab.{
  State, Sizes, Space, returned, create_slab, page_slab, fresh_header,
}
use poolalloc_3_1_upstreamed.FreeList.Pool.{poolinit}

blocks_fit :
    (header pointer size page n i : ℕ)
    → (pointer + size) * n ≤ page - header
    → header ≤ page
    → i < n
    → header + n * pointer + size * i + size ≤ page
blocks_fit header pointer size page n i le h lt =
    let split : (pointer + size) * n ≡ n * pointer + size * n = grind arith in
    let rest : size * i + size ≤ size * n =
      grind (arith, mul-le-mul_left {m = suc i} {n = n} size lt) in
    omega (arith, le, split, rest)

page_slab-header :
    (y : Sizes) (s : State) (room : Pages × ℕ) {made : State} {at : ℕ}
    → page_slab y s 0 room ≡ returned (made, at)
    → made.headers at ≡ fresh_header y at true s.pool.max_nodes_per_page
unfolding page_slab
page_slab-header y s (pages', page) done = elim (Bool-cases (page == 0)) [
  | inl null ↦ ground arith
  | inr some_page ↦ ground arith
]

create_slab-header :
    (y : Sizes) (env : Space) (s : State) {made : State} {at : ℕ}
    → create_slab y env s 0 ≡ returned (made, at)
    → made.headers at ≡ fresh_header y at true s.pool.max_nodes_per_page
unfolding create_slab
create_slab-header y env s {made} {at} done =
    elim (Bool-cases (ltb s.pages.page_size s.pool.node_size)) [
      | inl large ↦ ground arith
      | inr small ↦ elim (Bool-cases (s.pool.max_nodes_per_page == 0)) [
        | inl empty ↦ ground arith
        | inr room ↦
            page_slab-header y s (allocate_page env.mapped s.pages) {made = made} {at = at}
              (ground arith)
      ]
    ]

-- A slab of a page that `createSlab` makes for single nodes, in a pool that `poolinit` set up: each
-- of its data blocks ends inside the page.
pub create_slab-poolinit :
    (y : Sizes) (env : Space) (system : ℕ) (s : State) (node_size : ℕ) {made : State} {at : ℕ}
    (i : ℕ)
    → 0 < node_size
    → y.header ≤ s.pages.page_size
    → create_slab y env (poolinit y system s node_size) 0 ≡ returned (made, at)
    → i < (made.headers at).nodes_per_slab
    → (made.headers at).data_area + node_size * i + node_size ≤ at + s.pages.page_size
unfolding poolinit
create_slab-poolinit y env system s node_size {made} {at} i pos h done lt =
    let made_header = create_slab-header y env (poolinit y system s node_size) done in
    let max = (s.pages.page_size - y.header) / (y.pointer + node_size) in
    let nodes : (made.headers at).nodes_per_slab ≡ max = ap (λ r. r.nodes_per_slab) made_header in
    let area : (made.headers at).data_area ≡ at + y.header + max * y.pointer =
      ap (λ r. r.data_area) made_header in
    let fits =
      blocks_fit y.header y.pointer node_size s.pages.page_size max i
        (mul-div-le (s.pages.page_size - y.header) (y.pointer + node_size)) h
        (omega (arith, nodes, lt)) in
    omega (arith, area, fits)

-- Where a pool is set up for nodes of 0 bytes, and the page less the header is a number of pointers,
-- the data blocks of a slab of a page begin at the end of that page.
pub poolinit_zero :
    (y : Sizes) (env : Space) (system : ℕ) (s : State) {made : State} {at : ℕ} (k : ℕ)
    → 0 < y.pointer
    → y.header + k * y.pointer ≡ s.pages.page_size
    → create_slab y env (poolinit y system s 0) 0 ≡ returned (made, at)
    → (made.headers at).data_area ≡ at + s.pages.page_size
unfolding poolinit
poolinit_zero y env system s {made} {at} k pos whole done =
    let made_header = create_slab-header y env (poolinit y system s 0) done in
    let max : (s.pages.page_size - y.header) / (y.pointer + 0) ≡ k =
      ap (λ n. (n - y.header) / (y.pointer + 0)) (sym whole)
      ∙ ap (λ n. n / (y.pointer + 0)) (omega arith)
      ∙ ap (λ n. k * y.pointer / n) (omega arith)
      ∙ mul-div_left k pos in
    let area : (made.headers at).data_area
        ≡ at + y.header + (s.pages.page_size - y.header) / (y.pointer + 0) * y.pointer =
      ap (λ r. r.data_area) made_header in
    area ∙ ap (λ n. at + y.header + n * y.pointer) max ∙ omega (arith, whole)
