-- ===== src/Nodes/Fold.antt =====
-- lib/DSA/DataStructure.cpp: a node that is folded.
use mathlib.Core.Path.{subst}
use poolalloc_3_1_upstreamed.Prelude.{
  ℕ, ◌+◌, ◌<◌, ◌≡◌, ◌≢◌, refl, sym, ap, ◌∙◌, true, false, not, List, [], leb, ltb, ◌==◌,
  if◌then◌else◌, arith,
}
use poolalloc_3_1_upstreamed.Prelude.Results.{returned}
use poolalloc_3_1_upstreamed.Nodes.Graph.{
  Handle, Graph, put_node, dead_bit, is_forwarding, is_collapsed, is_dead, size_of, set_to,
}
use poolalloc_3_1_upstreamed.Nodes.Merge.{
  Merger, forwarding_node, off_graph, forward_node, untyped, collapsed_node, fold_node_completely,
  move_links,
}

-- The graph with a node folded to a new one.
abbrev pub folded : Graph → ℕ → Graph
folded g n =
    let dest = put_node (record g { next = g.next + 1 }) g.next (collapsed_node (g.nodes n)) in
    let bare = put_node dest n (record (untyped (g.nodes n)) { globals = [] }) in
    off_graph
      (put_node bare n (forwarding_node (bare.nodes n) (record { node = g.next; offset = 0 }))) n

-- A node of the graph that leads to no other: it is not null, forwards to none, is not dead and has
-- no links.
pub record IsLeaf (g : Graph) (n : ℕ) : Type 0 where
  pub some_node : 0 < n
  pub old : n < g.next
  pub no_forward : is_forwarding g n ≡ false
  pub alive : is_dead g n ≡ false
  pub no_links : (g.nodes n).links ≡ []

pub move_links-nil :
    (merge : Merger) (g : Graph) (h : Handle) (offset : ℕ) (l : List (ℕ × Handle))
    → l ≡ []
    → move_links merge g h offset l ≡ returned g
unfolding move_links
move_links-nil merge g h offset l e = rw e refl

-- A node without links forwards.
pub forward_node-leaf :
    (merge : Merger) (g : Graph) (n to offset : ℕ)
    → n ≢ to
    → to ≢ 0
    → is_forwarding g n ≡ false
    → is_forwarding g to ≡ false
    → is_dead g to ≡ false
    → offset < size_of g to
    → (g.nodes n).links ≡ []
    → forward_node merge g n to offset
      ≡ returned (
          off_graph
            (put_node g n (forwarding_node (g.nodes n) (record { node = to; offset = offset })))
            n)
unfolding forward_node set_to
forward_node-leaf merge g n to offset ne nz no_forward end alive inside no_links =
    let different : (n == to) ≡ false = ground (arith, ne) in
    let some_to : (to == 0) ≡ false = ground (arith, nz) in
    let start : (if leb (size_of g to) 1 then 0 else offset) ≡ offset = ground (arith, inside) in
    let below : ltb offset (size_of g to) ≡ true = ground (arith, inside) in
    let below' : leb (size_of g to) offset ≡ false = ground (arith, inside) in
    let h : Handle = record { node = to; offset = offset } in
    let moved =
      move_links-nil merge (put_node g n (forwarding_node (g.nodes n) h)) h offset (g.nodes n).links
        no_links in
    simp (start, different, no_forward, below, below', some_to, end, alive, moved)

pub fold_leaf :
    (merge : Merger) (g : Graph) (n : ℕ)
    → IsLeaf g n
    → is_collapsed g n ≡ false
    → 1 < size_of g n
    → fold_node_completely merge g n ≡ returned (folded g n)
unfolding fold_node_completely
fold_leaf merge g n leaf open_node large =
    let sized : leb (size_of g n) 1 ≡ false = ground (arith, large) in
    let different' : (g.next == n) ≡ false = ground (arith, leaf.old) in
    let self : (n == n) ≡ true = ground arith in
    let self' : (g.next == g.next) ≡ true = ground arith in
    let dest = put_node (record g { next = g.next + 1 }) g.next (collapsed_node (g.nodes n)) in
    let bare = put_node dest n (record (untyped (g.nodes n)) { globals = [] }) in
    let here : bare.nodes n ≡ record (untyped (g.nodes n)) { globals = [] } = simp (self) in
    let there : bare.nodes g.next ≡ collapsed_node (g.nodes n) = simp (different', self') in
    let forwards =
      forward_node-leaf merge bare n g.next 0 (λ e. omega (arith, e, leaf.old))
        (λ e. omega (arith, e, leaf.old))
        (ap (λ v. not (v.forward.node == 0)) here ∙ leaf.no_forward)
        (ap (λ v. not (v.forward.node == 0)) there)
        (ap (λ v. v.node_type dead_bit) there ∙ leaf.alive)
        (subst (λ v. 0 < v.size) (sym there) (omega arith))
        (ap (λ v. v.links) here ∙ leaf.no_links) in
    simp (open_node, sized) forwards
