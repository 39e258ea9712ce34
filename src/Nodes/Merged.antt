-- ===== src/Nodes/Merged.antt =====
-- lib/DSA/DataStructure.cpp: what a merge of two nodes without links leads to.
use mathlib.Core.Path.{subst}
use poolalloc_3_1_upstreamed.Prelude.{
  ℕ, suc, ◌+◌, ◌%◌, ◌^◌, ◌<◌, ◌≡◌, ◌≢◌, sym, ap, ◌∙◌, true, false, ◌||◌, not, [], leb, ltb, ◌==◌,
  if◌then◌else◌, arith,
}
use poolalloc_3_1_upstreamed.Prelude.Results.{returned}
use poolalloc_3_1_upstreamed.Sets.Svset.{insert_set}
use poolalloc_3_1_upstreamed.Nodes.Graph.{
  Handle, Node, Graph, put_node, dead_bit, is_forwarding, is_collapsed, is_array, is_dead, size_of,
  forwarded, resolve, get_node,
}
use poolalloc_3_1_upstreamed.Nodes.Merge.{
  Merger, forwarding_node, off_graph, merge_globals, join_nodes,
}
use poolalloc_3_1_upstreamed.Nodes.Fold.{IsLeaf, move_links-nil, forward_node-leaf}
use poolalloc_3_1_upstreamed.Nodes.Folded.{resolve-stop}
use poolalloc_3_1_upstreamed.Nodes.Join.{joined, merge_contents-joined}

-- A leaf that is neither folded nor an array, and an offset inside it.
pub record IsPlain (g : Graph) (n offset : ℕ) : Type 0 where
  pub leaf : IsLeaf g n
  pub open_node : is_collapsed g n ≡ false
  pub no_array : is_array g n ≡ false
  pub inside : offset < size_of g n

-- What a merge of a node into another, moved by an offset, leads to.
pub record IsMerged (g : Graph) (n m offset : ℕ) (g' : Graph) : Type 0 where
  pub handles :
      (k : ℕ)
      → k < size_of g m
      → get_node g' (record { node = m; offset = k })
        ≡ returned (record { node = n; offset = k + offset })
  pub alive : is_forwarding g' n ≡ false
  pub size :
      size_of g' n
      ≡ (if ltb (size_of g n) (size_of g m + offset) then size_of g m + offset else size_of g n)
  pub bits :
      (bit : ℕ)
      → (g'.nodes n).node_type bit ≡ ((g.nodes n).node_type bit || (g.nodes m).node_type bit)
  pub globals : (g'.nodes n).globals ≡ insert_set (g.nodes n).globals (g.nodes m).globals
  pub others : (k : ℕ) → k ≢ n → k ≢ m → g'.nodes k ≡ g.nodes k

pub plain-resolves :
    (g : Graph) (n offset : ℕ)
    → IsPlain g n offset
    → get_node g (record { node = n; offset = offset })
      ≡ returned (record { node = n; offset = offset })
plain-resolves g n offset plain =
    resolve-stop (suc g.next) g (record { node = n; offset = offset }) (omega arith)
      plain.leaf.no_forward

-- The join, with the graph that it gives.
pub join_nodes-leaf :
    (alloc_size : ℕ → ℕ) (merge : Merger) (g : Graph) (n at m o d : ℕ)
    → n ≢ m
    → IsPlain g n at
    → IsPlain g m o
    → (g.nodes m).types ≡ []
    → d < size_of g n
    → size_of g m + d < 2 ^ 32
    → (g1 : Graph) × (join_nodes alloc_size merge g
          (record { node = n; offset = at })
          (record { node = m; offset = o })
          d
        ≡ returned (
            merge_globals
              (off_graph
                (put_node g1 m (forwarding_node (g1.nodes m) (record { node = n; offset = d })))
                m)
              (record { node = n; offset = at })
              m))
      × (g1.nodes n ≡ joined g n m d)
      × ((k : ℕ) → k ≢ n → g1.nodes k ≡ g.nodes k)
      × (g1.next ≡ g.next)
unfolding join_nodes
join_nodes-leaf alloc_size merge g n at m o d ne plain plain' untyped inside whole =
    let (g1, merged, here, away, next) =
      merge_contents-joined alloc_size g n m d ne plain.open_node untyped whole in
    let there = away m (λ e. ne (sym e)) in
    let to : Handle = record { node = n; offset = d } in
    let cur : Handle = record { node = n; offset = at } in
    let g2 = off_graph (put_node g1 m (forwarding_node (g1.nodes m) to)) m in
    let grown : d < size_of g1 n = subst (λ v. d < v.size) (sym here) (ground (arith, inside)) in
    let dead : (is_dead g n || is_dead g m) ≡ false =
      ground (arith, plain.leaf.alive, plain'.leaf.alive) in
    let forwards =
      forward_node-leaf merge g1 m n d (λ e. ne (sym e))
        (λ e. omega (arith, e, plain.leaf.some_node))
        (ap (λ v. not (v.forward.node == 0)) there ∙ plain'.leaf.no_forward)
        (ap (λ v. not (v.forward.node == 0)) here ∙ plain.leaf.no_forward)
        (ap (λ v. v.node_type dead_bit) here ∙ dead) grown
        (ap (λ v. v.links) there ∙ plain'.leaf.no_links) in
    let self : (m == m) ≡ true = ground arith in
    let other : (n == m) ≡ false = ground (arith, ne) in
    let some_node : (m == 0) ≡ false = ground (arith, plain'.leaf.some_node) in
    let bare : (g2.nodes m).links ≡ [] = simp (self) in
    let moved = move_links-nil merge g2 cur d (g2.nodes m).links bare in
    let same : is_forwarding g2 n ≡ is_forwarding g1 n = simp (other) in
    let still : is_forwarding g2 n ≡ false =
      same ∙ ap (λ v. not (v.forward.node == 0)) here ∙ plain.leaf.no_forward in
    let again = resolve-stop (suc g2.next) g2 cur (omega arith) still in
    (
      g1,
      simp (
        plain-resolves g n at plain,
        plain-resolves g m o plain',
        other,
        some_node,
        plain.leaf.alive,
        merged,
        forwards,
        moved,
        again,
      ),
      here,
      away,
      next,
    )

-- The graph behind the merge, and what it holds.
abbrev pub after : Graph → ℕ → ℕ → ℕ → ℕ → Graph
after g1 n at m d =
    merge_globals
      (off_graph (put_node g1 m (forwarding_node (g1.nodes m) (record { node = n; offset = d }))) m)
      (record { node = n; offset = at }) m

after-first :
    (g1 : Graph) (n at m d : ℕ)
    → n ≢ m
    → (after g1 n at m d).nodes n
      ≡ record (g1.nodes n) { globals = insert_set (g1.nodes n).globals (g1.nodes m).globals }
after-first g1 n at m d ne =
    let other : (n == m) ≡ false = ground (arith, ne) in
    let self : (n == n) ≡ true = ground arith in
    let self' : (m == m) ≡ true = ground arith in simp (other, self, self')

after-second :
    (g1 : Graph) (n at m d : ℕ)
    → n ≢ m
    → ((after g1 n at m d).nodes m).forward ≡ record { node = n; offset = d }
after-second g1 n at m d ne =
    let other : (m == n) ≡ false = ground (arith, ne) in
    let self : (m == m) ≡ true = ground arith in simp (other, self)

-- A handle of a node that forwards to an offset of another, where it stays inside.
resolve-moved :
    (fuel : ℕ) (g : Graph) (m n k d : ℕ)
    → m ≢ 0
    → n ≢ 0
    → (g.nodes m).forward ≡ record { node = n; offset = d }
    → is_forwarding g n ≡ false
    → k + d < size_of g n
    → k + d < 2 ^ 32
    → 0 < fuel
    → resolve (suc fuel) g (record { node = m; offset = k })
      ≡ returned (record { node = n; offset = k + d })
unfolding resolve forwarded
resolve-moved fuel g m n k d nz nz' forward end inside whole pos =
    let go : ((m == 0) || not (not (n == 0))) ≡ false = ground (arith, nz, nz') in
    let stop = resolve-stop fuel g (record { node = n; offset = d }) pos end in
    let sum : (k + d) % 2 ^ 32 ≡ k + d = omega (arith, whole) in
    let below : leb (size_of g n) (k + d) ≡ false = ground (arith, inside) in
    simp (go, forward, stop, sum, below)

pub merge_globals-IsMerged :
    (g : Graph) (n at m o d : ℕ)
    → n ≢ m
    → IsPlain g n at
    → IsPlain g m o
    → size_of g m + d < 2 ^ 32
    → (g1 : Graph) → g1.nodes n ≡ joined g n m d
    → ((k : ℕ) → k ≢ n → g1.nodes k ≡ g.nodes k)
    → g1.next ≡ g.next
    → IsMerged g n m d (after g1 n at m d)
merge_globals-IsMerged g n at m o d ne plain plain' whole g1 here away next =
    let take : Node → Node =
      λ v. record v { globals = insert_set v.globals (g1.nodes m).globals } in
    let first = after-first g1 n at m d ne ∙ ap take here in
    let there = away m (λ e. ne (sym e)) in
    let still : is_forwarding (after g1 n at m d) n ≡ false =
      ap (λ v. not (v.forward.node == 0)) first ∙ plain.leaf.no_forward in
    record {
      handles = λ k lt.
          resolve-moved g1.next (after g1 n at m d) m n k d
            (λ e. omega (arith, e, plain'.leaf.some_node))
            (λ e. omega (arith, e, plain.leaf.some_node)) (after-second g1 n at m d ne) still
            (subst (λ v. k + d < v.size) (sym first) (larger k lt)) (omega (arith, lt, whole))
            (omega (arith, next, plain.leaf.old));
      alive = still;
      size = ap (λ v. v.size) first;
      bits = λ bit. ap (λ v. v.node_type bit) first;
      globals =
          ap (λ v. v.globals) first ∙ ap (λ v. insert_set (g.nodes n).globals v.globals) there;
      others = λ k far far'.
          let ne1 : (k == n) ≡ false = ground (arith, far) in
          let ne2 : (k == m) ≡ false = ground (arith, far') in
          let same : (after g1 n at m d).nodes k ≡ g1.nodes k = simp (ne1, ne2) in
          same ∙ away k far;
    }
  where
    larger :
        (k : ℕ)
        → k < size_of g m
        → k + d < (if ltb (size_of g n) (size_of g m + d) then size_of g m + d else size_of g n)
    larger k lt = ground (arith, lt)
