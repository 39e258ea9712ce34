-- ===== src/Heuristics/Mirrored.antt =====
-- lib/PoolAllocate/Heuristic.cpp: `GetNodesReachableFromGlobals` of the graph of a function.
use poolalloc_3_1_upstreamed.Prelude.{
  ℕ, ◌≡◌, ◌⊎◌, inl, inr, refl, ap, ◌∙◌, Bool, true, false, ◌||◌, ◌&&◌, Bool-cases, List, [], ◌∷◌,
  ◌==◌, ==_iff, if◌then◌else◌, arith,
}
use poolalloc_3_1_upstreamed.Prelude.Results.{returned}
use poolalloc_3_1_upstreamed.Sets.Members.{mem}
use poolalloc_3_1_upstreamed.Nodes.Graph.{Handle, Graph}
use poolalloc_3_1_upstreamed.Graphs.Reached.{IsLinked}
use poolalloc_3_1_upstreamed.Heuristics.Globals.{
  Local, is_heap, keep_heap, mapped, add_mirrored, reachable_from_globals,
}
use poolalloc_3_1_upstreamed.Heuristics.Heap.{AreLast, keep_heap_lem, mark_all_returns}

mem-if :
    (b : Bool) (n m : ℕ) (s : List ℕ)
    → mem (if b then n ∷ s else s) m ≡ ((b && (n == m)) || mem s m)
mem-if true n m s = refl
mem-if false n m s = refl

-- Where `NodeMap` leads from the nodes of a list, null included.
abbrev pub AreMapped : Graph → List (ℕ × Handle) → (ℕ → ℕ) → List ℕ → Type 0
AreMapped g node_map mirror ns =
    (n : ℕ) → mem ns n ≡ true → mapped g node_map n ≡ returned (mirror n)

add_mirrored_lem :
    (g : Graph) (node_map : List (ℕ × Handle)) (mirror : ℕ → ℕ) (ns s : List ℕ)
    → AreMapped g node_map mirror ns
    → (r : List ℕ) × (add_mirrored g node_map s ns ≡ returned r)
      × ((m : ℕ) → mem r m ≡ true → (mem s m ≡ true) ⊎ (mem ns m ≡ true))
      × ((m : ℕ) → mem s m ≡ true → mem r m ≡ true)
      × ((n : ℕ) → mem ns n ≡ true → mem s (mirror n) ≡ true → mem r n ≡ true)
unfolding add_mirrored
add_mirrored_lem g node_map mirror [] s all =
    (s, refl, (λ m. inl), (λ m h. h), (λ n h there. absurd (ground (arith, h))))
add_mirrored_lem g node_map mirror (n ∷ ns) s all =
    let b = mem s (mirror n) in
    let (r, e, from, keeps, adds) =
      add_mirrored_lem g node_map mirror ns (if b then n ∷ s else s)
        (λ m h. all m (ground (arith, h))) in
    (
      r,
      rw (all n (ground arith)) e,
      (λ m h. elim (from m h) [
        | inl before ↦ elim (Bool-cases (mem s m)) [
          | inl old ↦ inl old
          | inr new ↦ inr (ground (arith, before, mem-if b n m s, new))
        ]
        | inr later ↦ inr (ground (arith, later))
      ]),
      (λ m h. keeps m (ground (arith, h, mem-if b n m s))),
      (λ j h there. elim (Bool-cases (n == j)) [
        | inl same ↦
            let first : mem s (mirror n) ≡ true =
              ap (λ i. mem s (mirror i)) ((==_iff n j).0 same) ∙ there in
            keeps j (ground (arith, same, first, mem-if b n j s))
        | inr other ↦
            adds j (ground (arith, h, other)) (ground (arith, there, mem-if b n (mirror j) s))
      ]),
    )

-- In a graph whose links can all be followed, GetNodesReachableFromGlobals of the graph of a function
-- returns, whatever was found before, and what it returns are heap nodes and nodes of this function:
-- of the nodes of earlier functions it removes those that are not heap nodes, and of the nodes of
-- this one it adds each whose mirror is a heap node of the globals graph, a heap node or not.
pub reachable_from_globals_forgets :
    (g : Graph) (globals s : List ℕ) (l : Local) (mirror : ℕ → ℕ)
    → IsLinked g
    → AreLast g globals
    → AreMapped g l.node_map mirror l.nodes
    → (r : List ℕ) × (reachable_from_globals g globals s l ≡ returned r)
      × ((m : ℕ) → mem r m ≡ true → (is_heap g m ≡ true) ⊎ (mem l.nodes m ≡ true))
      × ((n : ℕ)
          → mem l.nodes n ≡ true
          → mem globals (mirror n) ≡ true
          → is_heap g (mirror n) ≡ true
          → mem r n ≡ true)
reachable_from_globals_forgets g globals s l mirror linked last all =
    let (found, e, holds) = mark_all_returns g linked globals s last in
    let (r, e', from, keeps, adds) =
      add_mirrored_lem g l.node_map mirror l.nodes (keep_heap g found) all in
    (
      r,
      rw e e',
      (λ m h. elim (from m h) [
        | inl before ↦ inl (ground (arith, before, keep_heap_lem g found m))
        | inr local ↦ inr local
      ]),
      (λ n h known heap.
          let there = holds (mirror n) (inr known) in
          adds n h (ground (arith, keep_heap_lem g found (mirror n), heap, there))),
    )
