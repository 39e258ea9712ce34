-- ===== src/Heuristics/Examples.antt =====
-- lib/PoolAllocate/Heuristic.cpp: the theorems on a graph of three nodes and that of a function.
use mathlib.Core.Path.{subst}
use poolalloc_3_1_upstreamed.Prelude.{
  ℕ, zero, suc, ◌≡◌, ◌⊎◌, ◌↔◌, refl, Bool, true, false, ◌==◌, List, [], ◌∷◌, arith,
}
use poolalloc_3_1_upstreamed.Prelude.Results.{returned}
use poolalloc_3_1_upstreamed.Sets.Members.{mem}
use poolalloc_3_1_upstreamed.Nodes.Graph.{Handle, null_handle, Node, Graph, resolve}
use poolalloc_3_1_upstreamed.Graphs.Walk.{unseen_le, walk, walk_mono, walk_list}
use poolalloc_3_1_upstreamed.Graphs.Closed.{walk-Route}
use poolalloc_3_1_upstreamed.Graphs.Reached.{targets, IsLinked, targets_below}
use poolalloc_3_1_upstreamed.Heuristics.Pools.{choose, leads_back, choose_reachable, choose_cyclic}
use poolalloc_3_1_upstreamed.Heuristics.Chosen.{IsDepthFirst, FromTarget, FromMemory}
use poolalloc_3_1_upstreamed.Heuristics.Memory.{
  AreNodes, choose_reachable-FromMemory, choose_cyclic-FromTarget,
}
use poolalloc_3_1_upstreamed.Heuristics.Globals.{Local, is_heap, mapped, reachable_from_globals}
use poolalloc_3_1_upstreamed.Heuristics.Heap.{AreLast}
use poolalloc_3_1_upstreamed.Heuristics.Mirrored.{AreMapped, reachable_from_globals_forgets}

abbrev to : ℕ → Handle
to n = record { node = n; offset = 0 }

abbrev linking : List (ℕ × Handle) → (ℕ → Bool) → Node
linking ls bits = record {
  forward = null_handle;
  size = 8;
  in_graph = true;
  types = [];
  links = ls;
  globals = [];
  node_type = bits;
}

-- Node 1 leads to node 2, and node 2 to itself and to node 3; nodes 2 and 3 are heap nodes. Node 4 is
-- the node of a function, and no heap node.
abbrev all_nodes : ℕ → Node
all_nodes zero = linking [] (λ b. false)
all_nodes (suc zero) = linking ((0, to 2) ∷ []) (λ b. false)
all_nodes (suc (suc zero)) = linking ((0, to 2) ∷ (4, to 3) ∷ []) (λ b. b == 1)
all_nodes (suc (suc (suc zero))) = linking [] (λ b. b == 1)
all_nodes (suc (suc (suc (suc n)))) = linking [] (λ b. false)

abbrev graph : Graph
graph = record { nodes = all_nodes; next = 5; sets = [] }

abbrev three : List ℕ
three = 1 ∷ 2 ∷ 3 ∷ []

graph-IsLinked : IsLinked graph
unfolding resolve
graph-IsLinked zero lt = tt
graph-IsLinked (suc zero) lt = ((to 2, refl, omega arith), tt)
graph-IsLinked (suc (suc zero)) lt = ((to 2, refl, omega arith), ((to 3, refl, omega arith), tt))
graph-IsLinked (suc (suc (suc zero))) lt = tt
graph-IsLinked (suc (suc (suc (suc n)))) lt = tt

-- The walk is such an iterator.
abbrev depth_first : Graph → List ℕ → ℕ → List ℕ
depth_first g s n = walk (targets g) (suc g.next) s n

graph-IsDepthFirst : IsDepthFirst (targets graph) (depth_first graph) graph.next
graph-IsDepthFirst = record {
  grows = walk_mono (targets graph) (suc graph.next);
  reaches = λ s n m lt ne closed.
      walk-Route (targets graph) graph.next (targets_below graph graph-IsLinked) (suc graph.next) s
        n m (omega (arith, unseen_le graph.next s)) lt ne closed;
}

three-AreNodes : AreNodes graph three
three-AreNodes n h = ground (arith, h)

choose_reachable-FromMemory_example :
    (r : List ℕ) × (choose_reachable depth_first graph three three ≡ returned r)
    × ((m : ℕ) → (mem r m ≡ true) ↔ ((mem three m ≡ true) × FromMemory graph three m))
choose_reachable-FromMemory_example =
    choose_reachable-FromMemory depth_first graph three three graph-IsLinked graph-IsDepthFirst
      three-AreNodes

choose_cyclic-FromTarget_example :
    (r : List ℕ) × (choose_cyclic depth_first graph three ≡ returned r)
    × ((m : ℕ)
        → (mem r m ≡ true)
          ↔ ((mem three m ≡ true) × FromTarget (targets graph) (targets graph m) m))
choose_cyclic-FromTarget_example =
    choose_cyclic-FromTarget depth_first graph three graph-IsLinked graph-IsDepthFirst
      three-AreNodes

three-AreLast : AreLast graph three
three-AreLast zero h = absurd (ground (arith, h))
three-AreLast (suc zero) h = (omega arith, ground arith, refl)
three-AreLast (suc (suc zero)) h = (omega arith, ground arith, refl)
three-AreLast (suc (suc (suc zero))) h = (omega arith, ground arith, refl)
three-AreLast (suc (suc (suc (suc n)))) h = absurd (ground (arith, h))

abbrev function_graph : Local
function_graph = record { nodes = 4 ∷ []; node_map = (4, to 2) ∷ [] }

function_graph-AreMapped : AreMapped graph ((4, to 2) ∷ []) (λ n. 2) (4 ∷ [])
unfolding resolve
function_graph-AreMapped n h =
    let at_four : mapped graph ((4, to 2) ∷ []) 4 ≡ returned 2 = refl in
    let same : 4 ≡ n = ground (arith, h) in
    subst (λ j. mapped graph ((4, to 2) ∷ []) j ≡ returned 2) same at_four

reachable_from_globals_forgets_example :
    (r : List ℕ) × (reachable_from_globals graph three (4 ∷ []) function_graph ≡ returned r)
    × ((m : ℕ) → mem r m ≡ true → (is_heap graph m ≡ true) ⊎ (mem (4 ∷ []) m ≡ true))
    × ((n : ℕ)
        → mem (4 ∷ []) n ≡ true
        → mem three 2 ≡ true
        → is_heap graph 2 ≡ true
        → mem r n ≡ true)
reachable_from_globals_forgets_example =
    reachable_from_globals_forgets graph three (4 ∷ []) function_graph (λ n. 2) graph-IsLinked
      three-AreLast function_graph-AreMapped

chooses_example : choose_cyclic depth_first graph three ≡ returned (2 ∷ [])
chooses_example = unfold choose leads_back walk walk_list resolve in refl
