-- ===== src/Heuristics/Heap.antt =====
-- lib/PoolAllocate/Heuristic.cpp: which nodes `GetNodesReachableFromGlobals` finds.
use poolalloc_3_1_upstreamed.Prelude.{
  ℕ, suc, ◌<◌, ◌≡◌, ◌≢◌, ◌⊎◌, inl, inr, ◌↔◌, refl, sym, ap, true, false, ◌&&◌, Bool-cases, List, [],
  ◌∷◌, ◌==◌, ==_iff, arith,
}
use mathlib.Core.Path.{subst}
use poolalloc_3_1_upstreamed.Prelude.Results.{returned}
use poolalloc_3_1_upstreamed.Sets.Members.{mem}
use poolalloc_3_1_upstreamed.Nodes.Graph.{Graph, is_forwarding}
use poolalloc_3_1_upstreamed.Graphs.Walk.{unseen, unseen_le, walk, walk_mono, Route, here}
use poolalloc_3_1_upstreamed.Graphs.Closed.{mem-walk}
use poolalloc_3_1_upstreamed.Graphs.Reached.{
  targets, IsLinked, IsClosed, mark_reachable-Route, mark_reachable_nodes-walk, targets_below,
}
use poolalloc_3_1_upstreamed.Heuristics.Globals.{is_heap, mark_all, keep_heap, reachable_in_globals}

-- The nodes of a list are nodes of the graph that do not forward.
abbrev pub AreLast : Graph → List ℕ → Type 0
AreLast g ns = (n : ℕ) → mem ns n ≡ true → (n < g.next) × (n ≢ 0) × (is_forwarding g n ≡ false)

abbrev pub FromNode : Graph → List ℕ → ℕ → Type 0
FromNode g ns m = (n : ℕ) × (mem ns n ≡ true) × Route (targets g) n m

pub keep_heap_lem :
    (g : Graph) (ns : List ℕ) (m : ℕ) → mem (keep_heap g ns) m ≡ (is_heap g m && mem ns m)
unfolding keep_heap
keep_heap_lem g [] m = ground (arith)
keep_heap_lem g (n ∷ ns) m = elim (Bool-cases (n == m)) [
  | inl same ↦
      let e : is_heap g n ≡ is_heap g m = ap (is_heap g) ((==_iff n m).0 same) in
      ground (arith, same, e, keep_heap_lem g ns m)
  | inr other ↦ ground (arith, other, keep_heap_lem g ns m)
]

module _ (g : Graph) (linked : IsLinked g) where
  mark_all_lem :
      (ns s : List ℕ)
      → AreLast g ns
      → IsClosed g s
      → (r : List ℕ) × (mark_all g s ns ≡ returned r)
        × ((m : ℕ) → (mem r m ≡ true) ↔ ((mem s m ≡ true) ⊎ FromNode g ns m))
  unfolding mark_all
  mark_all_lem [] s last closed = (
    s,
    refl,
    λ m. (inl, λ h. elim h [ inl old ↦ old | inr from ↦ absurd (ground (arith, from.1)) ]),
  )
  mark_all_lem (n ∷ ns) s last closed =
      let (lt, ne, ends) = last n (ground arith) in
      let (s', e, to', closed') = mark_reachable-Route g s n linked lt ne ends closed in
      let (r, e', to) = mark_all_lem ns s' (λ m h. last m (ground (arith, h))) closed' in
      (
        r,
        rw e e',
        (λ m. (
          λ h. elim ((to m).0 h) [
            | inl before ↦ elim ((to' m).0 before) [
              | inl old ↦ inl old
              | inr route ↦ inr (n, ground arith, route)
            ]
            | inr (j, is, route) ↦ inr (j, ground (arith, is), route)
          ],
          λ h. (to m).1 (elim h [
            | inl old ↦ inl ((to' m).1 (inl old))
            | inr (j, is, route) ↦ elim (Bool-cases (n == j)) [
              | inl same ↦ inl (
                  (to' m).1
                    (inr (subst (λ i. Route (targets g) i m) (sym ((==_iff n j).0 same)) route)))
              | inr other ↦ inr (j, ground (arith, is, other), route)
            ]
          ]),
        )),
      )

  -- From any set the walks return, with every node that they begin at.
  pub mark_all_returns :
      (ns s : List ℕ)
      → AreLast g ns
      → (r : List ℕ) × (mark_all g s ns ≡ returned r)
        × ((m : ℕ) → (mem s m ≡ true) ⊎ (mem ns m ≡ true) → mem r m ≡ true)
  unfolding mark_all
  mark_all_returns [] s last =
      (s, refl, (λ m h. elim h [ inl old ↦ old | inr never ↦ absurd (ground (arith, never)) ]))
  mark_all_returns (n ∷ ns) s last =
      let (lt, ne, ends) = last n (ground arith) in
      let enough : unseen g.next s < suc g.next = omega (arith, unseen_le g.next s) in
      let s' = walk (targets g) (suc g.next) s n in
      let (r, e, holds) = mark_all_returns ns s' (λ m h. last m (ground (arith, h))) in
      let e' = mark_reachable_nodes-walk (suc g.next) g s n linked enough lt (inr ends) in
      (
        r,
        rw e' e,
        (λ m h. elim h [
          | inl old ↦ holds m (inl (walk_mono (targets g) (suc g.next) s n m old))
          | inr listed ↦ elim (Bool-cases (n == m)) [
            | inl same ↦
                elim (mem-walk (targets g) g.next (targets_below g linked) (suc g.next) s n
                  enough) [
                    | inl null ↦ absurd (ne null)
                    | inr there ↦
                        holds m (inl (subst (λ j. mem s' j ≡ true) ((==_iff n m).0 same) there))
                  ]
            | inr other ↦ holds m (inr (ground (arith, listed, other)))
          ]
        ]),
      )

-- In a graph whose links can all be followed, GetNodesReachableFromGlobals of the globals graph, with
-- nothing found before, returns exactly the heap nodes that can be reached from some node of the
-- graph, so all heap nodes of the globals graph are among them.
pub reachable_in_globals-FromNode :
    (g : Graph) (globals : List ℕ)
    → IsLinked g
    → AreLast g globals
    → (r : List ℕ) × (reachable_in_globals g globals [] ≡ returned r)
      × ((m : ℕ) → (mem r m ≡ true) ↔ ((is_heap g m ≡ true) × FromNode g globals m))
      × ((m : ℕ) → mem globals m ≡ true → mem r m ≡ is_heap g m)
reachable_in_globals-FromNode g globals linked last =
    let (s, e, to) = mark_all_lem g linked globals [] last (λ j h. absurd (ground (arith, h))) in
    (
      keep_heap g s,
      rw e refl,
      (λ m.
          let is = keep_heap_lem g s m in
          (
            λ h.
                let (heap, there) : (is_heap g m ≡ true) × (mem s m ≡ true) =
                  (ground (arith, is, h), ground (arith, is, h)) in
                (
                  heap,
                  elim ((to m).0 there) [
                    | inl old ↦ absurd (ground (arith, old))
                    | inr from ↦ from
                  ],
                ),
            λ h. let there = (to m).1 (inr h.1) in ground (arith, is, h.0, there),
          )),
      (λ m h.
          let there = (to m).1 (inr (m, h, here m)) in ground (arith, keep_heap_lem g s m, there)),
    )
