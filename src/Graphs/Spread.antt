-- ===== src/Graphs/Spread.antt =====
-- lib/DSA/DSGraph.cpp: how far markIncompleteNode and propagateExternal spread a bit.
use mathlib.Core.Path.{subst}
use poolalloc_3_1_upstreamed.Prelude.{
  ℕ, suc, ◌<◌, ◌≡◌, ◌≢◌, ◌⊎◌, inl, inr, ◌↔◌, refl, sym, ◌∙◌, true, false, ◌||◌, Bool-cases, List,
  [], ◌∷◌, ◌==◌, ==_iff, arith, All,
}
use poolalloc_3_1_upstreamed.Prelude.Results.{returned}
use poolalloc_3_1_upstreamed.Sets.Members.{mem, self_eq}
use poolalloc_3_1_upstreamed.Nodes.Graph.{Graph, is_forwarding}
use poolalloc_3_1_upstreamed.Graphs.Closed.{walk-Route, walk-Closed}
use poolalloc_3_1_upstreamed.Graphs.Walk.{unseen, unseen_le, walk, Route, here, step, All-mem}
use poolalloc_3_1_upstreamed.Graphs.Reach.{
  incomplete_bit, external_bit, mark_incomplete_node, propagate_external,
}
use poolalloc_3_1_upstreamed.Graphs.Reached.{targets, IsLinked, IsClosed, targets_below}
use poolalloc_3_1_upstreamed.Graphs.Marked.{
  flagged, flagged_same, flagged_or, next-flagged, mark_incomplete_node-walk,
  mark_external_node-walk,
}

-- markIncompleteNode of a node that does not forward, in a graph whose links can be followed and whose
-- incomplete nodes, listed in `s`, lead to incomplete nodes only, returns the graph in which exactly the
-- nodes of `s` and those that can be reached from the node are incomplete; nothing else changes.
pub mark_incomplete_node-Route :
    (g : Graph) (s : List ℕ) (n : ℕ)
    → IsLinked g
    → ((m : ℕ) → (g.nodes m).node_type incomplete_bit ≡ mem s m)
    → IsClosed g s
    → n < g.next
    → n ≢ 0
    → is_forwarding g n ≡ false
    → (r : List ℕ) × (mark_incomplete_node (suc g.next) g n ≡ returned (flagged g incomplete_bit r))
      × ((m : ℕ) → (mem r m ≡ true) ↔ ((mem s m ≡ true) ⊎ Route (targets g) n m))
mark_incomplete_node-Route g s n linked listed closed lt some_node last =
    let fuel = suc g.next in
    let enough : unseen g.next s < fuel = omega (arith, unseen_le g.next s) in
    let same = flagged_same g incomplete_bit s (λ m h. listed m ∙ h) in
    (
      walk (targets g) fuel s n,
      subst
          (λ f.
            mark_incomplete_node fuel f n
            ≡ returned (flagged g incomplete_bit (walk (targets g) fuel s n)))
          same
          (mark_incomplete_node-walk g linked fuel s n (λ m h. sym (listed m) ∙ h) enough lt
            (inr last)),
      (λ m.
          walk-Route (targets g) g.next (targets_below g linked) fuel s n m enough lt some_node
            closed),
    )

-- What a closed list can reach is in it.
Route-mem :
    (g : Graph) (s : List ℕ)
    → IsClosed g s
    → {n m : ℕ} → Route (targets g) n m
    → mem s n ≡ true
    → mem s m ≡ true
Route-mem g s closed (here k) h = h
Route-mem g s closed (step {n} {m} t is ne path) h =
    elim (All-mem (λ j. (j ≡ 0) ⊎ (mem s j ≡ true)) (targets g n) t (closed n h) is) [
      | inl null ↦ absurd (ne null)
      | inr seen ↦ Route-mem g s closed path seen
    ]

-- A node that can be reached from one of a list that has a bit.
abbrev pub FromBit : Graph → ℕ → List ℕ → ℕ → Type 0
FromBit g bit nodes m =
    (n : ℕ) × (mem nodes n ≡ true) × ((g.nodes n).node_type bit ≡ true) × Route (targets g) n m

-- What the loop of propagateExternal comes to, from nodes that are processed and external already.
abbrev pub Spreads : Graph → List ℕ → List ℕ → Type 0
Spreads g s nodes =
    (r : List ℕ) × (propagate_external (flagged g external_bit s, s) nodes
      ≡ returned (flagged g external_bit r, r))
    × ((m : ℕ) → (mem r m ≡ true) ↔ ((mem s m ≡ true) ⊎ FromBit g external_bit nodes m))

-- Nodes of the graph: addresses of nodes that do not forward.
abbrev pub AreNodes : Graph → List ℕ → Type 0
AreNodes g nodes = All (λ n. (n < g.next) × (n ≢ 0) × (is_forwarding g n ≡ false)) nodes

module _ (g : Graph) (linked : IsLinked g) where
  -- One round on a node that is external, in `g` or since: everything it reaches is.
  walked :
      (s nodes : List ℕ) (n : ℕ)
      → (n < g.next) × (n ≢ 0) × (is_forwarding g n ≡ false)
      → IsClosed g s
      → (mem s n || (g.nodes n).node_type external_bit) ≡ true
      → Spreads g (walk (targets g) (suc g.next) s n) nodes
      → Spreads g s (n ∷ nodes)
  unfolding propagate_external
  walked s nodes n is closed external (r, e, to) =
      let fuel = suc g.next in
      let enough : unseen g.next s < fuel = omega (arith, unseen_le g.next s) in
      let path = λ (m : ℕ).
        walk-Route (targets g) g.next (targets_below g linked) fuel s n m enough is.0 is.1 closed in
      (
        r,
        simp
            (
              flagged_or g external_bit s n,
              external,
              next-flagged g external_bit s,
              mark_external_node-walk g linked fuel s n enough is.0 (inr is.2),
            )
            e,
        (λ m. (
          λ h. elim ((to m).0 h) [
            | inl seen ↦ elim ((path m).0 seen) [
              | inl old ↦ inl old
              | inr new ↦ elim (Bool-cases (mem s n)) [
                | inl was ↦ inl (Route-mem g s closed new was)
                | inr other ↦
                    inr (n, ground (arith, self_eq n), ground (arith, external, other), new)
              ]
            ]
            | inr from ↦ inr (from.0, ground (arith, from.1), from.2, from.3)
          ],
          λ h. elim h [
            | inl old ↦ (to m).1 (inl ((path m).1 (inl old)))
            | inr from ↦ elim (Bool-cases (n == from.0)) [
              | inl same ↦ (to m).1 (
                  inl (
                    (path m).1 (
                      inr (
                        subst (λ k. Route (targets g) k m) (sym ((==_iff n from.0).0 same))
                          from.3))))
              | inr other ↦ (to m).1 (inr (from.0, ground (arith, from.1, other), from.2, from.3))
            ]
          ],
        )),
      )

  skipped :
      (s nodes : List ℕ) (n : ℕ)
      → (mem s n || (g.nodes n).node_type external_bit) ≡ false
      → Spreads g s nodes
      → Spreads g s (n ∷ nodes)
  unfolding propagate_external
  skipped s nodes n internal (r, e, to) = (
    r,
    rw (flagged_or g external_bit s n, internal) e,
    (λ m. (
      λ h. elim ((to m).0 h) [
        | inl seen ↦ inl seen
        | inr from ↦ inr (from.0, ground (arith, from.1), from.2, from.3)
      ],
      λ h. elim h [
        | inl old ↦ (to m).1 (inl old)
        | inr from ↦ elim (Bool-cases (n == from.0)) [
          | inl same ↦
              let e = (==_iff n from.0).0 same in
              let was : (g.nodes n).node_type external_bit ≡ true =
                subst (λ k. (g.nodes k).node_type external_bit ≡ true) (sym e) from.2 in
              absurd (ground (arith, was, internal))
          | inr other ↦ (to m).1 (inr (from.0, ground (arith, from.1, other), from.2, from.3))
        ]
      ],
    )),
  )

  spreads : (nodes s : List ℕ) → AreNodes g nodes → IsClosed g s → Spreads g s nodes
  unfolding propagate_external
  spreads [] s are closed = (
    s,
    refl,
    λ m. (inl, λ h. elim h [ inl old ↦ old | inr from ↦ absurd (ground (arith, from.1)) ]),
  )
  spreads (n ∷ nodes) s are closed =
      elim (Bool-cases (mem s n || (g.nodes n).node_type external_bit)) [
        | inl external ↦ walked s nodes n are.0 closed external (
            spreads nodes (walk (targets g) (suc g.next) s n) are.1 (λ j.
              walk-Closed (targets g) g.next (targets_below g linked) (suc g.next) s n j
                (omega (arith, unseen_le g.next s)) are.0.0 closed))
        | inr internal ↦ skipped s nodes n internal (spreads nodes s are.1 closed)
      ]

-- propagateExternal over a list of nodes that do not forward, in a graph whose links can be followed,
-- with nothing processed before, returns the graph in which exactly the external nodes and those that
-- can be reached from an external node of the list are external; the latter are processed, and nothing
-- else changes.
pub propagate_external-Route :
    (g : Graph) (nodes : List ℕ)
    → IsLinked g
    → AreNodes g nodes
    → (r : List ℕ) × (propagate_external (g, []) nodes ≡ returned (flagged g external_bit r, r))
      × ((m : ℕ) → (mem r m ≡ true) ↔ FromBit g external_bit nodes m)
propagate_external-Route g nodes linked are =
    let (r, e, to) = spreads g linked nodes [] are (λ m h. absurd (ground (arith, h))) in
    (
      r,
      subst (λ f. propagate_external (f, []) nodes ≡ returned (flagged g external_bit r, r))
          (flagged_same g external_bit [] (λ m h. absurd (ground (arith, h)))) e,
      (λ m. (
        λ h. elim ((to m).0 h) [ inl none ↦ absurd (ground (arith, none)) | inr from ↦ from ],
        λ from. (to m).1 (inr from),
      )),
    )
