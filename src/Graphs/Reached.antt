-- ===== src/Graphs/Reached.antt =====
-- What the walks of Graphs/Reach mark, by the walk over targets of Graphs/Walk.
use poolalloc_3_1_upstreamed.Prelude.{
  ℕ, zero, suc, ◌<◌, ◌≡◌, ◌≢◌, ◌⊎◌, inl, inr, ◌↔◌, refl, true, false, Bool-cases, List, [], ◌∷◌,
  map, ◌==◌, arith, All,
}
use poolalloc_3_1_upstreamed.Prelude.Results.{Result, returned, aborted, assert_failed, out_of_fuel}
use poolalloc_3_1_upstreamed.Sets.Members.{mem}
use poolalloc_3_1_upstreamed.Nodes.Graph.{Handle, Graph, is_forwarding, get_node}
use poolalloc_3_1_upstreamed.Nodes.Offsets.{resolve-IsResolved}
use poolalloc_3_1_upstreamed.Graphs.Walk.{
  unseen, unseen_le, unseen-le, unseen-cons, walk, walk_list, walk_mono, Route, Leads,
}
use poolalloc_3_1_upstreamed.Graphs.Closed.{walk-Route, walk-Closed}
use poolalloc_3_1_upstreamed.Graphs.Reach.{
  edges, mark_handles, mark_reachable_nodes, mark_reachable,
}

-- The node that a handle leads to, and the nodes that a node links to.
abbrev pub target : Graph → Handle → ℕ
target g h = elim (get_node g h) [
  | returned r ↦ r.node
  | aborted ↦ 0
  | assert_failed ↦ 0
  | out_of_fuel ↦ 0
]

abbrev pub targets : Graph → ℕ → List ℕ
targets g n = map (target g) (edges g n)

-- A handle that can be followed to a node of the graph, or to null.
abbrev pub Leading : Graph → Handle → Type 0
Leading g h = (r : Handle) × (get_node g h ≡ returned r) × (r.node < g.next)

-- All links of nodes can be followed.
abbrev pub IsLinked : Graph → Type 0
IsLinked g = (n : ℕ) → n < g.next → All (Leading g) (edges g n)

-- Null, or a node that does not forward.
abbrev pub IsPlace : Graph → ℕ → Type 0
IsPlace g n = (n ≡ 0) ⊎ (is_forwarding g n ≡ false)

pub targets-lt :
    (g : Graph) (hs : List Handle) → All (Leading g) hs → All (λ t. t < g.next) (map (target g) hs)
targets-lt g [] all = tt
targets-lt g (h ∷ hs) all = (rw (all.0.1, target) all.0.2, targets-lt g hs all.1)

-- A loop over handles is a walk over their targets, where each round is one.
module _ {S : Type 0} (g : Graph) (graph : S → Graph) (embed : List ℕ → S)
    (same : (s : List ℕ) (h : Handle) → get_node (graph (embed s)) h ≡ get_node g h) (fuel : ℕ)
    (mark : S → ℕ → Result S) (w : List ℕ → ℕ → List ℕ)
    (mono : (s : List ℕ) (n m : ℕ) → mem s m ≡ true → mem (w s n) m ≡ true) (Keep : List ℕ → Type 0)
    (keeps : (s : List ℕ) (n : ℕ) → Keep s → Keep (w s n))
    (round : (s : List ℕ) (n : ℕ)
      → Keep s
      → unseen g.next s < fuel
      → n < g.next
      → IsPlace g n
      → mark (embed s) n ≡ returned (embed (w s n))) where
  pub mark_handles-walk_list :
      (hs : List Handle) (s : List ℕ)
      → Keep s
      → unseen g.next s < fuel
      → All (Leading g) hs
      → mark_handles mark graph (embed s) hs ≡ returned (embed (walk_list w s (map (target g) hs)))
  unfolding mark_handles walk_list
  mark_handles-walk_list [] s keep enough all = refl
  mark_handles-walk_list (h ∷ hs) s keep enough all =
      let (r, e, lt) = all.0 in
      let place = (resolve-IsResolved (suc g.next) g h r e).0 in
      let less = unseen-le g.next s (w s r.node) (mono s r.node) in
      rw (same s h, e, target, round s r.node keep enough lt place)
        (mark_handles-walk_list hs (w s r.node) (keeps s r.node keep) (omega (arith, less, enough))
          all.1)

-- With fuel for the nodes not yet reached markReachableNodes is the walk.
pub mark_reachable_nodes-walk :
    (fuel : ℕ) (g : Graph) (s : List ℕ) (n : ℕ)
    → IsLinked g
    → unseen g.next s < fuel
    → n < g.next
    → IsPlace g n
    → mark_reachable_nodes fuel g s n ≡ returned (walk (targets g) fuel s n)
unfolding mark_reachable_nodes walk
mark_reachable_nodes-walk zero g s n linked enough lt place = elim enough [ ]
mark_reachable_nodes-walk (suc fuel) g s n linked enough lt place = elim (Bool-cases (n == 0)) [
  | inl null ↦ simp (null)
  | inr some_node ↦ elim place [
    | inl null ↦ absurd (ground (arith, null, some_node))
    | inr last ↦ elim (Bool-cases (mem s n)) [
      | inl old ↦ simp (some_node, last, old)
      | inr new ↦
          let less = unseen-cons g.next n s lt new in
          simp (some_node, last, new)
            (mark_handles-walk_list g (λ s'. g) (λ s'. s') (λ s' h. refl) fuel
              (λ s' m. mark_reachable_nodes fuel g s' m) (λ s' t. walk (targets g) fuel s' t)
              (walk_mono (targets g) fuel) (λ s'. Unit {0}) (λ s' t keep. tt)
              (λ s' m keep more below at.
                mark_reachable_nodes-walk fuel g s' m linked more below at)
              (edges g n) (n ∷ s) tt (omega (arith, less, enough)) (linked n lt))
    ]
  ]
]

-- Every node of a list leads to nodes of the list, or to null.
abbrev pub IsClosed : Graph → List ℕ → Type 0
IsClosed g s = (m : ℕ) → mem s m ≡ true → Leads (targets g) s m

-- The targets of a node are below the address of the next node.
pub targets_below :
    (g : Graph) → IsLinked g → (n : ℕ) → n < g.next → All (λ t. t < g.next) (targets g n)
targets_below g linked n lt = targets-lt g (edges g n) (linked n lt)

-- In a graph whose links can all be followed, markReachableNodes of a node that does not forward and
-- a set that leads to nothing else returns the set with exactly the nodes that can be reached from
-- the node over links, and that set again leads to nothing else.
pub mark_reachable-Route :
    (g : Graph) (s : List ℕ) (n : ℕ)
    → IsLinked g
    → n < g.next
    → n ≢ 0
    → is_forwarding g n ≡ false
    → IsClosed g s
    → (r : List ℕ) × (mark_reachable g s n ≡ returned r)
      × ((m : ℕ) → (mem r m ≡ true) ↔ ((mem s m ≡ true) ⊎ Route (targets g) n m))
      × IsClosed g r
mark_reachable-Route g s n linked lt some_node last closed =
    let fuel = suc g.next in
    let enough : unseen g.next s < fuel = omega (arith, unseen_le g.next s) in
    let below = targets_below g linked in
    (
      walk (targets g) fuel s n,
      mark_reachable_nodes-walk fuel g s n linked enough lt (inr last),
      (λ m. walk-Route (targets g) g.next below fuel s n m enough lt some_node closed),
      (λ m. walk-Closed (targets g) g.next below fuel s n m enough lt closed),
    )
