-- ===== src/Graphs/Scc.antt =====
-- lib/DSA/DSGraph.cpp: `HackedGraphSCCFinder`. What the cloner has cloned is an argument, and
-- `NodeInfo` a function; the stack has its top first. The fuel is the depth of the recursion.
use poolalloc_3_1_upstreamed.Prelude.{
  ℕ, zero, suc, ◌+◌, Bool, true, false, ◌||◌, ◌&&◌, not, ltb, ◌==◌, Option, none, some, List, [],
  ◌∷◌, if◌then◌else◌,
}
use poolalloc_3_1_upstreamed.Prelude.Results.{Result, returned, out_of_fuel, ◌>>=◌}
use poolalloc_3_1_upstreamed.Nodes.Graph.{Handle, Graph, get_node}
use poolalloc_3_1_upstreamed.Graphs.Sites.{CallSite, is_direct_call, get_callee_node}
use poolalloc_3_1_upstreamed.Graphs.Reach.{edges}

pub record Finder : Type 0 where
  pub cur_node_id : ℕ
  pub scc_stack : List ℕ
  pub node_info : ℕ → Option (ℕ × Bool)

abbrev pub new_finder : Finder
new_finder = record {
  cur_node_id = 1;
  scc_stack = [];
  node_info = λ n. if n == 0 then some (0, false) else none;
}

-- `NodeInfo[n]`, where a new entry is zero.
abbrev pub info_of : Finder → ℕ → ℕ × Bool
info_of f n = elim (f.node_info n) [ none ↦ (0, false) | some v ↦ v ]

abbrev pub put_info : Finder → ℕ → ℕ × Bool → Finder
put_info f n v = record f { node_info = λ m. if m == n then some v else f.node_info m }

abbrev pub pop_back : List ℕ → List ℕ
pop_back [] = []
pop_back (n ∷ stack) = stack

-- The scan of the stack down to the node, which looks at the edges of the node in each round.
unfoldable pub any_edge : Graph → Finder → List Handle → Result Bool
any_edge g f [] = returned false
any_edge g f (h ∷ hs) = get_node g h >>= λ r.
    any_edge g f hs >>= λ rest. returned ((not (r.node == 0) && (info_of f r.node).1) || rest)

unfoldable pub scan_stack : Graph → Finder → ℕ → List ℕ → Result Bool
scan_stack g f n [] = returned false
scan_stack g f n (m ∷ stack) =
    let rest = scan_stack g f n stack in
    let here = any_edge g f (edges g n) >>= λ found. if found then returned true else rest in
    if m == n then returned false else here

-- The nodes above the node are marked and popped.
unfoldable pub mark_stack : Finder → ℕ → List ℕ → Finder
mark_stack f n [] = record f { scc_stack = [] }
mark_stack f n (m ∷ stack) =
    let rest = mark_stack (put_info f m ((info_of f m).0, true)) n stack in
    if m == n then record f { scc_stack = m ∷ stack } else rest

-- What is left to do once all successors are visited: the node may not be alone on the stack.
unfoldable pub close_scc : Graph → Finder → ℕ → Bool → Result (Finder × (ℕ × Bool))
close_scc g f n any = (if any then returned true else scan_stack g f n f.scc_stack) >>= λ reaches.
    let f1 = if reaches then mark_stack f n f.scc_stack else f in
    let f2 =
      put_info (record f1 { scc_stack = pop_back f1.scc_stack }) n ((info_of f1 n).0, reaches) in
    returned (f2, info_of f2 n)

abbrev pub is_top : List ℕ → ℕ → Bool
is_top [] n = false
is_top (m ∷ stack) n = m == n

unfoldable pub finish_visit : Graph → Finder → ℕ → ℕ → ℕ → Bool → Result (Finder × (ℕ × Bool))
finish_visit g f n id least any =
    let alone = put_info (record f { scc_stack = pop_back f.scc_stack }) n ((info_of f n).0, any) in
    if not (least == id)
    then returned (f, info_of f n)
    else if is_top f.scc_stack n
    then returned (alone, info_of alone n)
    else close_scc g f n any

-- The successors: `Min`, and whether any of them reaches a cloned node.
unfoldable pub visit_edges :
    (Finder → ℕ → Result (Finder × (ℕ × Bool)))
    → Graph
    → Finder
    → ℕ
    → Bool
    → List Handle
    → Result (Finder × ℕ × Bool)
visit_edges visit g f least any [] = returned (f, least, any)
visit_edges visit g f least any (h ∷ hs) =
    let skipped = visit_edges visit g f least any hs in
    get_node g h >>= λ r.
    if r.node == 0
    then skipped
    else visit f r.node >>= λ v.
        visit_edges visit g v.0 (if ltb v.1.0 least then v.1.0 else least) (any || v.1.1) hs

abbrev pub global_bit : ℕ
global_bit = 2

unfoldable pub visit_for_sccs : ℕ → (ℕ → Bool) → Graph → Finder → ℕ → Result (Finder × (ℕ × Bool))
visit_for_sccs zero cloned g f n = out_of_fuel
visit_for_sccs (suc fuel) cloned g f n =
    let id = f.cur_node_id in
    let seen = put_info (record f { cur_node_id = id + 1 }) n (id, false) in
    let walk =
      visit_edges (λ f' m. visit_for_sccs fuel cloned g f' m) g
        (record seen { scc_stack = n ∷ f.scc_stack }) id false (edges g n)
      >>= λ s. finish_visit g s.0 n id s.1 s.2 in
    elim (f.node_info n) [
      | some v ↦ returned (f, v)
      | none ↦
          if cloned n
          then returned (put_info seen n (id, true), (id, true))
          else if (g.nodes n).node_type global_bit
          then returned (seen, (id, false))
          else walk
    ]

-- `PathExistsToClonedNode` of a node and of a call site.
unfoldable pub path_exists : (ℕ → Bool) → Graph → Finder → ℕ → Result (Finder × Bool)
path_exists cloned g f n =
    visit_for_sccs (suc (suc g.next)) cloned g f n >>= λ v. returned (v.0, v.1.1)

unfoldable pub any_path : (ℕ → Bool) → Graph → Finder → List Handle → Result (Finder × Bool)
any_path cloned g f [] = returned (f, false)
any_path cloned g f (h ∷ hs) = get_node g h >>= λ r. path_exists cloned g f r.node >>= λ p.
    let rest = any_path cloned g p.0 hs in if p.1 then returned (p.0, true) else rest

unfoldable pub path_exists_from_call :
    (ℕ → Bool) → Graph → Finder → CallSite → Result (Finder × Bool)
path_exists_from_call cloned g f c = any_path cloned g f (c.ret_val ∷ []) >>= λ ret.
    if ret.1
    then returned ret
    else (if is_direct_call c
        then returned ret
        else get_callee_node g c >>= λ n. path_exists cloned g ret.0 n)
      >>= λ callee.
          if callee.1
          then returned callee
          else any_path cloned g callee.0 c.call_args >>= λ args.
              if args.1 then returned args else any_path cloned g args.0 (c.va_val ∷ [])
