-- ===== src/Heuristics/Memory.antt =====
-- lib/PoolAllocate/Heuristic.cpp: what AllButUnreachableFromMemoryHeuristic and CyclicNodesHeuristic
-- choose.
use mathlib.Core.Path.{subst}
use poolalloc_3_1_upstreamed.Prelude.{
  ℕ, suc, ◌<◌, ◌≡◌, ◌≢◌, ◌⊎◌, inl, inr, ◌↔◌, refl, sym, Bool, true, false, Bool-cases, List, [],
  ◌∷◌, map, ◌==◌, ==_iff, if◌then◌else◌, arith, All,
}
use poolalloc_3_1_upstreamed.Prelude.Results.{Result, returned}
use poolalloc_3_1_upstreamed.Sets.Members.{mem}
use poolalloc_3_1_upstreamed.Nodes.Graph.{Handle, Graph}
use poolalloc_3_1_upstreamed.Graphs.Reach.{edges, mark_handles}
use poolalloc_3_1_upstreamed.Graphs.Walk.{unseen_le, walk_list, All-mem}
use poolalloc_3_1_upstreamed.Graphs.Reached.{
  target, targets, Leading, IsLinked, IsClosed, mark_handles-walk_list, targets_below,
}
use poolalloc_3_1_upstreamed.Heuristics.Pools.{
  reachable_from_memory, choose_reachable, leads_back, node_exists_in_cycle, choose_cyclic,
}
use poolalloc_3_1_upstreamed.Heuristics.Chosen.{
  IsDepthFirst, FromTarget, FromMemory, closed_Route, visit, visit_mono, walk_list-visit,
  choose_lem, null_child, later_child, first_child,
}

-- Each node of a list is a node of the graph.
abbrev pub AreNodes : Graph → List ℕ → Type 0
AreNodes g ns = (n : ℕ) → mem ns n ≡ true → n < g.next

module _ (depth_first : Graph → List ℕ → ℕ → List ℕ) (g : Graph) (linked : IsLinked g)
    (first : IsDepthFirst (targets g) (depth_first g) g.next) where
  -- The children of a node, which are there already when the node is.
  abbrev children : List ℕ → ℕ → Result (List ℕ)
  children s n =
      if mem s n
      then returned s
      else mark_handles (λ s c. returned (visit (depth_first g) s c)) (λ s. g) s (edges g n)

  abbrev Children : List ℕ → ℕ → List ℕ → Type 0
  Children s n r =
      ((m : ℕ) → (mem r m ≡ true) ↔ ((mem s m ≡ true) ⊎ FromTarget (targets g) (targets g n) m))
      × IsClosed g r

  children_lem :
      (s : List ℕ) (n : ℕ)
      → n < g.next
      → IsClosed g s
      → (r : List ℕ) × (children s n ≡ returned r) × Children s n r
  children_lem s n lt closed = elim (Bool-cases (mem s n)) [
    | inl old ↦ (
      s,
      rw old refl,
      (
        (λ m. (
          inl,
          λ h. elim h [
            | inl there ↦ there
            | inr (t, is, ne, route) ↦
                elim (All-mem (λ t. (t ≡ 0) ⊎ (mem s t ≡ true)) (targets g n) t (closed n old) is) [
                  | inl null ↦ absurd (ne null)
                  | inr there ↦ closed_Route (targets g) s t m closed route there
                ]
          ],
        )),
        closed,
      ),
    )
    | inr new ↦ (
      walk_list (visit (depth_first g)) s (targets g n),
      rw new (
          mark_handles-walk_list g (λ s. g) (λ s. s) (λ s h. refl) (suc g.next)
            (λ s c. returned (visit (depth_first g) s c)) (visit (depth_first g))
            (visit_mono (targets g) (depth_first g) g.next first) (λ s. Unit {0}) (λ s t keep. tt)
            (λ s c keep more below at. refl) (edges g n) s tt (omega (arith, unseen_le g.next s))
            (linked n lt)),
      walk_list-visit (targets g) (depth_first g) g.next first (targets g n) s
          (targets_below g linked n lt) closed,
    )
  ]

  reachable_lem :
      (nodes s : List ℕ)
      → AreNodes g nodes
      → IsClosed g s
      → (r : List ℕ) × (reachable_from_memory depth_first g s nodes ≡ returned r)
        × ((m : ℕ) → (mem r m ≡ true) ↔ ((mem s m ≡ true) ⊎ FromMemory g nodes m))
  unfolding reachable_from_memory
  reachable_lem [] s are closed = (
    s,
    refl,
    λ m. (inl, λ h. elim h [ inl old ↦ old | inr from ↦ absurd (ground (arith, from.1)) ]),
  )
  reachable_lem (n ∷ ns) s are closed =
      let (s', e, (to', closed')) = children_lem s n (are n (ground arith)) closed in
      let (r, e', to) = reachable_lem ns s' (λ m h. are m (ground (arith, h))) closed' in
      (
        r,
        rw e e',
        (λ m. (
          λ h. elim ((to m).0 h) [
            | inl before ↦ elim ((to' m).0 before) [
              | inl old ↦ inl old
              | inr from ↦ inr (n, ground arith, from)
            ]
            | inr (j, is, from) ↦ inr (j, ground (arith, is), from)
          ],
          λ h. (to m).1 (elim h [
            | inl old ↦ inl ((to' m).1 (inl old))
            | inr (j, is, from) ↦ elim (Bool-cases (n == j)) [
              | inl same ↦ inl (
                  (to' m).1 (
                    inr (
                      subst (λ i. FromTarget (targets g) (targets g i) m)
                        (sym ((==_iff n j).0 same)) from)))
              | inr other ↦ inr (j, ground (arith, is, other), from)
            ]
          ]),
        )),
      )

  -- NodeExistsInCycle of a list of links.
  leads_back_lem :
      (n : ℕ) (hs : List Handle)
      → All (Leading g) hs
      → (b : Bool) × (leads_back depth_first g n hs ≡ returned b)
        × ((b ≡ true) ↔ FromTarget (targets g) (map (target g) hs) n)
  unfolding leads_back
  leads_back_lem n [] all =
      (false, refl, (λ h. absurd (ground (arith, h)), λ h. absurd (ground (arith, h.1))))
  leads_back_lem n (h ∷ hs) all =
      let (r, e, lt) = all.0 in
      let (b, e', is) = leads_back_lem n hs all.1 in
      let ts = map (target g) hs in
      rw (target, e)
        (elim (Bool-cases (r.node == 0)) [
          | inl null ↦ (
            b,
            rw null e',
            (
              λ h. later_child (targets g) r.node ts n (is.0 h),
              λ from. is.1 (null_child (targets g) r.node ts n null from),
            ),
          )
          | inr node ↦
              let ne : r.node ≢ 0 = λ z. ground (arith, node, z) in
              let child = first_child (targets g) r.node ts n ne in
              let reach = first.reaches [] r.node n lt ne (λ j h. absurd (ground (arith, h))) in
              elim (Bool-cases (mem (depth_first g [] r.node) n)) [
                | inl back ↦ (
                  true,
                  rw (node, back) refl,
                  (
                    λ _. elim (reach.0 back) [
                      | inl old ↦ absurd (ground (arith, old))
                      | inr route ↦ child.1 (inl route)
                    ],
                    λ _. refl,
                  ),
                )
                | inr other ↦ (
                  b,
                  rw (node, other) e',
                  (
                    λ h. child.1 (inr (is.0 h)),
                    λ from. elim (child.0 from) [
                      | inl route ↦ absurd (ground (arith, other, reach.1 (inr route)))
                      | inr later ↦ is.1 later
                    ],
                  ),
                )
              ]
        ])

-- In a graph whose links can all be followed, and with an iterator that reaches what can be reached,
-- AllButUnreachableFromMemoryHeuristic chooses exactly those of the given nodes that some node of the
-- graph leads to over at least one link.
pub choose_reachable-FromMemory :
    (depth_first : Graph → List ℕ → ℕ → List ℕ) (g : Graph) (nodes nodes_to_pa : List ℕ)
    → IsLinked g
    → IsDepthFirst (targets g) (depth_first g) g.next
    → AreNodes g nodes
    → (r : List ℕ) × (choose_reachable depth_first g nodes nodes_to_pa ≡ returned r)
      × ((m : ℕ) → (mem r m ≡ true) ↔ ((mem nodes_to_pa m ≡ true) × FromMemory g nodes m))
choose_reachable-FromMemory depth_first g nodes nodes_to_pa linked first are =
    let (s, e, to) =
      reachable_lem depth_first g linked first nodes [] are (λ j h. absurd (ground (arith, h))) in
    let (r, e', chosen) =
      choose_lem (λ n. returned (mem s n)) (FromMemory g nodes) nodes_to_pa
        (λ n h. (
          mem s n,
          refl,
          (
            λ is. elim ((to n).0 is) [
              | inl there ↦ absurd (ground (arith, there))
              | inr from ↦ from
            ],
            λ from. (to n).1 (inr from),
          ),
        )) in
    (r, rw e e', chosen)

-- In a graph whose links can all be followed, and with an iterator that reaches what can be reached,
-- CyclicNodesHeuristic chooses exactly those of the given nodes that lead back to themselves over at
-- least one link.
pub choose_cyclic-FromTarget :
    (depth_first : Graph → List ℕ → ℕ → List ℕ) (g : Graph) (nodes_to_pa : List ℕ)
    → IsLinked g
    → IsDepthFirst (targets g) (depth_first g) g.next
    → AreNodes g nodes_to_pa
    → (r : List ℕ) × (choose_cyclic depth_first g nodes_to_pa ≡ returned r)
      × ((m : ℕ)
          → (mem r m ≡ true)
            ↔ ((mem nodes_to_pa m ≡ true) × FromTarget (targets g) (targets g m) m))
choose_cyclic-FromTarget depth_first g nodes_to_pa linked first are =
    choose_lem (node_exists_in_cycle depth_first g) (λ m. FromTarget (targets g) (targets g m) m)
      nodes_to_pa
      (λ n h. leads_back_lem depth_first g linked first n (edges g n) (linked n (are n h)))
