-- ===== src/Nodes/MergeWith.antt =====
-- lib/DSA/DataStructure.cpp: `mergeWith` of two nodes without links, in either order.
use poolalloc_3_1_upstreamed.Prelude.{
  ℕ, suc, ◌+◌, ◌-◌, ◌^◌, ◌<◌, ◌≤◌, ◌≡◌, ◌≢◌, ◌⊎◌, sym, ◌∙◌, true, false, ◌||◌, ◌&&◌, [], Bool-cases,
  inl, inr, leb, ltb, ◌==◌, arith,
}
use poolalloc_3_1_upstreamed.Prelude.Results.{returned}
use poolalloc_3_1_upstreamed.Nodes.Graph.{Graph, size_of}
use poolalloc_3_1_upstreamed.Nodes.Merge.{Merger, merge_apart, merge_with}
use poolalloc_3_1_upstreamed.Nodes.Join.{set_to-inside, merge_nodes-plain}
use poolalloc_3_1_upstreamed.Nodes.Merged.{
  IsPlain, IsMerged, plain-resolves, join_nodes-leaf, after, merge_globals-IsMerged,
}

-- The merge where the first node is the later one in the object, or not the smaller one.
merge_apart-IsMerged :
    (alloc_size : ℕ → ℕ) (merge : Merger) (g : Graph) (n at m o : ℕ)
    → n ≢ m
    → IsPlain g n at
    → IsPlain g m o
    → (g.nodes m).types ≡ []
    → size_of g m + (at - o) < 2 ^ 32
    → (ltb at o || ((at == o) && ltb (size_of g n) (size_of g m))) ≡ false
    → (g' : Graph) × (merge_apart alloc_size merge g n (record { node = m; offset = o }) at
        ≡ returned g')
      × IsMerged g n m (at - o) g'
unfolding merge_apart
merge_apart-IsMerged alloc_size merge g n at m o ne plain plain' untyped whole order =
    let first =
      set_to-inside g n at (λ e. omega (arith, e, plain.leaf.some_node)) plain.leaf.no_forward
        plain.leaf.alive plain.inside in
    let second =
      set_to-inside g m o (λ e. omega (arith, e, plain'.leaf.some_node)) plain'.leaf.no_forward
        plain'.leaf.alive plain'.inside in
    let later : leb o at ≡ true = ground (arith, order) in
    let not_before : ltb at o ≡ false = ground (arith, order) in
    let inside : at - o < size_of g n = omega (arith, plain.inside) in
    let (g1, joins, here, away, next) =
      join_nodes-leaf alloc_size merge g n at m o (at - o) ne plain plain' untyped inside whole in
    let plainly =
      merge_nodes-plain alloc_size merge g (record { node = n; offset = at })
        (record { node = m; offset = o }) (plain-resolves g n at plain)
        (plain-resolves g m o plain') not_before plain.open_node plain'.open_node plain.no_array
        plain'.no_array in
    (
      after g1 n at m (at - o),
      simp (order, first, second, later, plainly, joins),
      merge_globals-IsMerged g n at m o (at - o) ne plain plain' whole g1 here away next,
    )

-- Otherwise the nodes change places.
apart_swapped :
    (alloc_size : ℕ → ℕ) (merge : Merger) (g : Graph) (n at m o : ℕ)
    → IsPlain g n at
    → (ltb at o || ((at == o) && ltb (size_of g n) (size_of g m))) ≡ true
    → merge_apart alloc_size merge g n (record { node = m; offset = o }) at
      ≡ merge g m (record { node = n; offset = at }) o
unfolding merge_apart
apart_swapped alloc_size merge g n at m o plain swapped =
    let first =
      set_to-inside g n at (λ e. omega (arith, e, plain.leaf.some_node)) plain.leaf.no_forward
        plain.leaf.alive plain.inside in
    simp (swapped, first)

merge_with-apart :
    (fuel : ℕ) (alloc_size : ℕ → ℕ) (g : Graph) (n at m o : ℕ)
    → n ≢ m
    → IsPlain g n at
    → IsPlain g m o
    → merge_with (suc fuel) alloc_size g n (record { node = m; offset = o }) at
      ≡ merge_apart alloc_size (merge_with fuel alloc_size) g n (record { node = m; offset = o }) at
unfolding merge_with
merge_with-apart fuel alloc_size g n at m o ne plain plain' =
    let other : (m == n) ≡ false = ground (arith, ne) in
    let some_node : (m == 0) ≡ false = ground (arith, plain'.leaf.some_node) in
    simp (plain-resolves g m o plain', other, some_node, plain.leaf.alive, plain'.leaf.alive)

-- mergeWith of two different nodes without links and types, at offsets inside them, where neither is
-- folded nor an array and sizes stay below 2^31, returns with fuel for two calls: the node at the
-- smaller offset, or of equal offsets one that is not larger, goes into the other. All handles inside
-- it then lead to the other node, moved by the difference of the offsets, and the other node has room
-- for both, the bits of both and the globals of both; all further nodes are as they were.
pub merge_with-IsMerged :
    (fuel : ℕ) (alloc_size : ℕ → ℕ) (g : Graph) (n at m o : ℕ)
    → n ≢ m
    → IsPlain g n at
    → IsPlain g m o
    → (g.nodes n).types ≡ []
    → (g.nodes m).types ≡ []
    → size_of g n < 2 ^ 31
    → size_of g m < 2 ^ 31
    → (g' : Graph) × (merge_with
          (suc (suc fuel))
          alloc_size
          g
          n
          (record { node = m; offset = o })
          at
        ≡ returned g')
      × (((o ≤ at) × IsMerged g n m (at - o) g') ⊎ ((at ≤ o) × IsMerged g m n (o - at) g'))
merge_with-IsMerged fuel alloc_size g n at m o ne plain plain' untyped untyped' small small' =
    elim (Bool-cases (ltb at o || ((at == o) && ltb (size_of g n) (size_of g m)))) [
      | inl swapped ↦
          let (g', e, merged) =
            merge_apart-IsMerged alloc_size (merge_with fuel alloc_size) g m o n at
              (λ e. ne (sym e)) plain' plain untyped (omega (arith, small, plain'.inside, small'))
              (ground (arith, swapped)) in
          (
            g',
            merge_with-apart (suc fuel) alloc_size g n at m o ne plain plain'
                ∙ swap swapped
                ∙ merge_with-apart fuel alloc_size g m o n at (λ e. ne (sym e)) plain' plain
                ∙ e,
            inr (ground (arith, swapped), merged),
          )
      | inr order ↦
          let (g', e, merged) =
            merge_apart-IsMerged alloc_size (merge_with (suc fuel) alloc_size) g n at m o ne plain
              plain' untyped' (omega (arith, small', plain.inside, small)) order in
          (
            g',
            merge_with-apart (suc fuel) alloc_size g n at m o ne plain plain' ∙ e,
            inl (ground (arith, order), merged),
          )
    ]
  where
    swap :
        (ltb at o || ((at == o) && ltb (size_of g n) (size_of g m))) ≡ true
        → merge_apart alloc_size
            (merge_with (suc fuel) alloc_size)
            g
            n
            (record { node = m; offset = o })
            at
          ≡ merge_with (suc fuel) alloc_size g m (record { node = n; offset = at }) o
    swap swapped =
        apart_swapped alloc_size (merge_with (suc fuel) alloc_size) g n at m o plain swapped
