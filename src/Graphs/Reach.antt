-- ===== src/Graphs/Reach.antt =====
-- lib/DSA/DataStructure.cpp and lib/DSA/DSGraph.cpp: walks that mark nodes. The fuel is the depth of
-- the recursion. A `DenseSet` of nodes is a list, the latest first.
use poolalloc_3_1_upstreamed.Prelude.{ℕ, zero, suc, ◌||◌, ◌==◌, List, [], ◌∷◌, map, if◌then◌else◌}
use poolalloc_3_1_upstreamed.Prelude.Results.{Result, returned, assert_failed, out_of_fuel, ◌>>=◌}
use poolalloc_3_1_upstreamed.Sets.Members.{mem}
use poolalloc_3_1_upstreamed.Nodes.Graph.{Handle, Graph, put_node, is_forwarding, get_node}
use poolalloc_3_1_upstreamed.Graphs.Sites.{CallSite, is_direct_call, get_callee_node}

-- The handles that a node links to.
abbrev pub edges : Graph → ℕ → List Handle
edges g n = map (λ l. l.1) (g.nodes n).links

-- A loop over handles that walks on from each node, in the graph of the state.
unfoldable pub mark_handles :
    {S : Type 0} → (S → ℕ → Result S) → (S → Graph) → S → List Handle → Result S
mark_handles mark graph s [] = returned s
mark_handles mark graph s (h ∷ hs) =
    get_node (graph s) h >>= λ r. mark s r.node >>= λ s'. mark_handles mark graph s' hs

-- `DSNode::markReachableNodes`.
unfoldable pub mark_reachable_nodes : ℕ → Graph → List ℕ → ℕ → Result (List ℕ)
mark_reachable_nodes zero g reached n = out_of_fuel
mark_reachable_nodes (suc fuel) g reached n =
    let deeper =
      mark_handles (λ s m. mark_reachable_nodes fuel g s m) (λ s. g) (n ∷ reached) (edges g n) in
    if n == 0
    then returned reached
    else if is_forwarding g n
    then assert_failed
    else if mem reached n
    then returned reached
    else deeper

-- No path meets more nodes than there are.
abbrev pub mark_reachable : Graph → List ℕ → ℕ → Result (List ℕ)
mark_reachable g = mark_reachable_nodes (suc g.next) g

-- `DSCallSite::markReachableNodes`.
unfoldable pub mark_reachable_from_call : Graph → List ℕ → CallSite → Result (List ℕ)
mark_reachable_from_call g reached c =
    mark_handles (mark_reachable g) (λ s. g) reached (c.ret_val ∷ c.va_val ∷ []) >>= λ s.
    (if is_direct_call c then returned s else get_callee_node g c >>= λ n. mark_reachable g s n)
    >>= λ s'. mark_handles (mark_reachable g) (λ s. g) s' c.call_args

-- The bits of `NodeType` that the walks set or read.
abbrev pub incomplete_bit : ℕ
incomplete_bit = 6

abbrev pub external_bit : ℕ
external_bit = 11

abbrev pub with_bit : Graph → ℕ → ℕ → Graph
with_bit g bit n =
    put_node g n (record (g.nodes n) { node_type = λ b. (b == bit) || (g.nodes n).node_type b })

-- `markIncompleteNode`.
unfoldable pub mark_incomplete_node : ℕ → Graph → ℕ → Result Graph
mark_incomplete_node zero g n = out_of_fuel
mark_incomplete_node (suc fuel) g n =
    let deeper =
      mark_handles (λ s m. mark_incomplete_node fuel s m) (λ s. s) (with_bit g incomplete_bit n)
        (edges g n) in
    if (n == 0) || (g.nodes n).node_type incomplete_bit then returned g else deeper

abbrev pub handles_of : CallSite → List Handle
handles_of c = c.ret_val ∷ c.va_val ∷ c.call_args

-- `markIncomplete` of a call site.
unfoldable pub mark_incomplete : Graph → CallSite → Result Graph
mark_incomplete g c = mark_handles (mark_incomplete_node (suc g.next)) (λ s. s) g (handles_of c)

-- `markExternalNode`, with `processedNodes`.
unfoldable pub mark_external_node : ℕ → Graph × List ℕ → ℕ → Result (Graph × List ℕ)
mark_external_node zero s n = out_of_fuel
mark_external_node (suc fuel) (g, processed) n =
    let deeper =
      mark_handles (λ s m. mark_external_node fuel s m) (λ s. s.0)
        (with_bit g external_bit n, n ∷ processed) (edges g n) in
    if (n == 0) || mem processed n then returned (g, processed) else deeper

-- `markExternal` of a call site.
unfoldable pub mark_external : Graph × List ℕ → CallSite → Result (Graph × List ℕ)
mark_external s c = mark_handles (mark_external_node (suc s.0.next)) (λ t. t.0) s (handles_of c)

-- `propagateExternal`, over the list of the nodes of the graph.
unfoldable pub propagate_external : Graph × List ℕ → List ℕ → Result (Graph × List ℕ)
propagate_external s [] = returned s
propagate_external s (n ∷ nodes) =
    (if (s.0.nodes n).node_type external_bit
      then mark_external_node (suc s.0.next) s n
      else returned s)
    >>= λ s'. propagate_external s' nodes
