-- ===== src/Heuristics/Globals.antt =====
-- lib/PoolAllocate/Heuristic.cpp: the nodes that get a global pool, and those that get a local one.
-- The nodes of all graphs stand in one map, so a graph is the list of its nodes; what
-- `computeGToGGMapping` gives is an argument.
use poolalloc_3_1_upstreamed.Prelude.{
  ℕ, Bool, ◌||◌, ◌&&◌, not, none, some, List, [], ◌∷◌, ◌++◌, ◌==◌, if◌then◌else◌,
}
use poolalloc_3_1_upstreamed.Prelude.Results.{Result, returned, assert_failed, ◌>>=◌}
use poolalloc_3_1_upstreamed.Sets.Members.{mem}
use poolalloc_3_1_upstreamed.Nodes.Graph.{Handle, Graph, get_node, entry}
use poolalloc_3_1_upstreamed.Graphs.Reach.{mark_reachable}
use poolalloc_3_1_upstreamed.Graphs.Scc.{global_bit}

abbrev pub is_heap : Graph → ℕ → Bool
is_heap g n = (g.nodes n).node_type 1

-- `markReachableNodes` from each node of the globals graph.
unfoldable pub mark_all : Graph → List ℕ → List ℕ → Result (List ℕ)
mark_all g reached [] = returned reached
mark_all g reached (n ∷ ns) = mark_reachable g reached n >>= λ s. mark_all g s ns

-- The nodes that are removed are those that are not heap nodes.
unfoldable pub keep_heap : Graph → List ℕ → List ℕ
keep_heap g [] = []
keep_heap g (n ∷ ns) = if is_heap g n then n ∷ keep_heap g ns else keep_heap g ns

-- `NodeMap[N].getNode()`.
abbrev pub mapped : Graph → List (ℕ × Handle) → ℕ → Result ℕ
mapped g node_map n = elim (entry node_map n) [
  | none ↦ returned 0
  | some h ↦ get_node g h >>= λ r. returned r.node
]

-- The local nodes whose mirror is in the set.
unfoldable pub add_mirrored : Graph → List (ℕ × Handle) → List ℕ → List ℕ → Result (List ℕ)
add_mirrored g node_map s [] = returned s
add_mirrored g node_map s (n ∷ ns) =
    mapped g node_map n >>= λ m. add_mirrored g node_map (if mem s m then n ∷ s else s) ns

-- A graph of a function: its nodes, and their mapping to the nodes of the globals graph.
pub record Local : Type 0 where
  pub nodes : List ℕ
  pub node_map : List (ℕ × Handle)

-- `GetNodesReachableFromGlobals` of the globals graph, and of the graph of a function.
abbrev pub reachable_in_globals : Graph → List ℕ → List ℕ → Result (List ℕ)
reachable_in_globals g globals s = mark_all g s globals >>= λ r. returned (keep_heap g r)

abbrev pub reachable_from_globals : Graph → List ℕ → List ℕ → Local → Result (List ℕ)
reachable_from_globals g globals s l =
    reachable_in_globals g globals s >>= λ r. add_mirrored g l.node_map r l.nodes

-- `findGlobalPoolNodes`: the globals graph, then each function that has a graph.
unfoldable pub each_function : Graph → List ℕ → List ℕ → List Local → Result (List ℕ)
each_function g globals s [] = returned s
each_function g globals s (l ∷ ls) =
    reachable_from_globals g globals s l >>= λ r. each_function g globals r ls

abbrev pub find_global_pool_nodes : Graph → List ℕ → List Local → Result (List ℕ)
find_global_pool_nodes g globals ls =
    reachable_in_globals g globals [] >>= λ s. each_function g globals s ls

-- `getLocalPoolNodes`.
abbrev pub wants_local : Graph → List ℕ → ℕ → ℕ → Bool
wants_local g global_pool_nodes n m =
    (is_heap g n || (not (m == 0) && is_heap g m))
    && not (mem global_pool_nodes n || mem global_pool_nodes m)

unfoldable pub local_nodes : Graph → List ℕ → List (ℕ × Handle) → List ℕ → Result (List ℕ)
local_nodes g global_pool_nodes node_map [] = returned []
local_nodes g global_pool_nodes node_map (n ∷ ns) = mapped g node_map n >>= λ m.
    let rest = local_nodes g global_pool_nodes node_map ns in
    if wants_local g global_pool_nodes n m
    then (if not ((g.nodes n).node_type global_bit) || (g.nodes n).node_type 13
        then (rest >>= λ ms. returned (if (g.nodes n).node_type 13 then ms else n ∷ ms))
        else assert_failed)
    else rest

abbrev pub get_local_pool_nodes : Graph → List ℕ → Local → List ℕ → Result (List ℕ)
get_local_pool_nodes g global_pool_nodes l nodes =
    local_nodes g global_pool_nodes l.node_map l.nodes >>= λ ms. returned (nodes ++ ms)
