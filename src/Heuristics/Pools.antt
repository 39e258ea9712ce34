-- ===== src/Heuristics/Pools.antt =====
-- lib/PoolAllocate/Heuristic.cpp and include/poolalloc/Heuristic.h: the pools that a heuristic asks
-- for. What LLVM says of types is an argument, and so is its depth-first iterator: `depth_first g s n`
-- is the external set `s` once an iterator over the nodes of `g` that begins at `n` has come to its
-- end. Pool descriptors are numbers, null is 0.
use poolalloc_3_1_upstreamed.Prelude.{
  ℕ, zero, suc, ◌+◌, ◌%◌, ◌^◌, Bool, true, false, ◌||◌, ◌&&◌, not, Option, none, some, List, [],
  ◌∷◌, ◌++◌, ◌==◌, if◌then◌else◌,
}
use poolalloc_3_1_upstreamed.Prelude.Results.{Result, returned, assert_failed, out_of_fuel, ◌>>=◌}
use poolalloc_3_1_upstreamed.Sets.Members.{mem}
use poolalloc_3_1_upstreamed.Sets.Super.{set_at}
use poolalloc_3_1_upstreamed.Nodes.Graph.{Handle, Graph, size_of, is_array, is_collapsed, get_node}
use poolalloc_3_1_upstreamed.Graphs.Reach.{edges, mark_handles}

-- `TargetData` and `Type`: the elements of a structure with their offsets, the element of an array,
-- pointer or vector, and how deep the types nest. Type 0 is null. `no_alignment` is the option.
pub record Target : Type 0 where
  pub is_double : ℕ → Bool
  pub pref_alignment : ℕ → ℕ
  pub is_first_class : ℕ → Bool
  pub elements : ℕ → Option (List (ℕ × ℕ))
  pub element : ℕ → Option ℕ
  pub is_void : ℕ → Bool
  pub depth : ℕ
  pub no_alignment : Bool

-- The loop over the elements of a structure: the first that wants the alignment ends it.
unfoldable pub any_wants : (ℕ → ℕ → Result Bool) → ℕ → List (ℕ × ℕ) → Result Bool
any_wants wants offset [] = returned false
any_wants wants offset ((at, ty) ∷ es) =
    let rest = any_wants wants offset es in
    wants ty ((offset + at) % 2 ^ 32) >>= λ w. if w then returned true else rest

-- `Wants8ByteAlignment`, on fuel for the depth of the type.
unfoldable pub wants_eight : Target → ℕ → ℕ → ℕ → Result Bool
wants_eight t zero ty offset = out_of_fuel
wants_eight t (suc fuel) ty offset =
    let fields = λ (es : List (ℕ × ℕ)). any_wants (λ e o. wants_eight t fuel e o) offset es in
    let inner = λ (e : ℕ). wants_eight t fuel e offset in
    if t.no_alignment
    then returned true
    else if (offset % 8 == 0) && (t.is_double ty || (t.pref_alignment ty == 8))
    then returned true
    else if t.is_first_class ty
    then returned false
    else elim (t.elements ty) [
      | some es ↦ fields es
      | none ↦ elim (t.element ty) [ some e ↦ inner e | none ↦ assert_failed ]
    ]

-- `getRecommendedAlignment` of a type.
abbrev pub alignment_of_type : Target → ℕ → Result ℕ
alignment_of_type t ty =
    if (ty == 0) || t.is_void ty
    then returned 0
    else wants_eight t t.depth ty 0 >>= λ w. returned (if w then 8 else 4)

-- The types at an offset of a node, and the loop over the offsets.
unfoldable pub any_type : Target → ℕ → List ℕ → Result Bool
any_type t offset [] = returned false
any_type t offset (ty ∷ tys) =
    let rest = any_type t offset tys in
    if ty == 0
    then rest
    else wants_eight t t.depth ty offset >>= λ w. if w then returned true else rest

unfoldable pub any_offset : Target → List (List ℕ) → List (ℕ × ℕ) → Result Bool
any_offset t sets [] = returned false
any_offset t sets ((offset, place) ∷ types) =
    let rest = any_offset t sets types in
    any_type t offset (set_at sets place) >>= λ w. if w then returned true else rest

-- `getRecommendedAlignment` and `getRecommendedSize` of a node.
abbrev pub get_recommended_alignment : Target → Graph → ℕ → Result ℕ
get_recommended_alignment t g n =
    any_offset t g.sets (g.nodes n).types >>= λ w. returned (if w then 8 else 4)

abbrev pub get_recommended_size : Graph → ℕ → ℕ
get_recommended_size g n =
    let size = if is_array g n then 0 else size_of g n in if size == 1 then 0 else size

-- `OnePool`.
pub record OnePool : Type 0 where
  pub nodes_in_pool : List ℕ
  pub pool_desc : ℕ
  pub pool_size : ℕ
  pub pool_alignment : ℕ

abbrev pub one_pool : Target → Graph → ℕ → Result OnePool
one_pool t g n = get_recommended_alignment t g n >>= λ a. returned (record {
  nodes_in_pool = n ∷ [];
  pool_desc = 0;
  pool_size = get_recommended_size g n;
  pool_alignment = a;
})

-- A pool for each node that a test chooses: the loop of `AssignToPools`.
unfoldable pub choose : (ℕ → Result Bool) → List ℕ → Result (List ℕ)
choose test [] = returned []
choose test (n ∷ ns) =
    test n >>= λ b. choose test ns >>= λ rest. returned (if b then n ∷ rest else rest)

unfoldable pub pool_each : Target → Graph → List ℕ → Result (List OnePool)
pool_each t g [] = returned []
pool_each t g (n ∷ ns) = one_pool t g n >>= λ p. pool_each t g ns >>= λ ps. returned (p ∷ ps)

module _ (depth_first : Graph → List ℕ → ℕ → List ℕ) where
  -- `AllButUnreachableFromMemoryHeuristic`: the nodes that some node of the graph leads to.
  unfoldable pub reachable_from_memory : Graph → List ℕ → List ℕ → Result (List ℕ)
  reachable_from_memory g reached [] = returned reached
  reachable_from_memory g reached (n ∷ ns) =
      (if mem reached n
        then returned reached
        else mark_handles (λ s c. returned (if c == 0 then s else depth_first g s c)) (λ s. g)
            reached (edges g n))
      >>= λ s. reachable_from_memory g s ns

  abbrev pub choose_reachable : Graph → List ℕ → List ℕ → Result (List ℕ)
  choose_reachable g nodes nodes_to_pa = reachable_from_memory g [] nodes >>= λ reached.
      choose (λ n. returned (mem reached n)) nodes_to_pa

  -- `NodeExistsInCycle`.
  unfoldable pub leads_back : Graph → ℕ → List Handle → Result Bool
  leads_back g n [] = returned false
  leads_back g n (h ∷ hs) = get_node g h >>= λ r.
      let rest = leads_back g n hs in
      if not (r.node == 0) && mem (depth_first g [] r.node) n then returned true else rest

  abbrev pub node_exists_in_cycle : Graph → ℕ → Result Bool
  node_exists_in_cycle g n = leads_back g n (edges g n)

  -- `CyclicNodesHeuristic`, and `SmartCoallesceNodesHeuristic`, which does nothing for a function.
  abbrev pub choose_cyclic : Graph → List ℕ → Result (List ℕ)
  choose_cyclic g nodes_to_pa = choose (node_exists_in_cycle g) nodes_to_pa

  abbrev pub choose_smart : Graph → ℕ → List ℕ → Result (List ℕ)
  choose_smart g f nodes_to_pa =
      if f == 0
      then choose
          (λ n.
            if is_collapsed g n || not (is_array g n)
            then node_exists_in_cycle g n
            else returned false)
          nodes_to_pa
      else returned []

  -- `AssignToPools` of the three.
  abbrev pub assign_reachable :
      Target → Graph → List ℕ → List ℕ → List OnePool → Result (List OnePool)
  assign_reachable t g nodes nodes_to_pa pools = choose_reachable g nodes nodes_to_pa >>= λ ns.
      pool_each t g ns >>= λ ps. returned (pools ++ ps)

  abbrev pub assign_cyclic : Target → Graph → List ℕ → List OnePool → Result (List OnePool)
  assign_cyclic t g nodes_to_pa pools =
      choose_cyclic g nodes_to_pa >>= λ ns. pool_each t g ns >>= λ ps. returned (pools ++ ps)

  abbrev pub assign_smart : Target → Graph → ℕ → List ℕ → List OnePool → Result (List OnePool)
  assign_smart t g f nodes_to_pa pools =
      choose_smart g f nodes_to_pa >>= λ ns. pool_each t g ns >>= λ ps. returned (pools ++ ps)

-- `AllInOneGlobalPoolHeuristic`: `create_global_pool` stands for the pool that the transform makes
-- when there is none yet.
abbrev pub assign_all_in_one : ℕ → ℕ → List ℕ → List OnePool → ℕ × List OnePool
assign_all_in_one create_global_pool the_global_pd nodes_to_pa pools =
    let pd = if the_global_pd == 0 then create_global_pool else the_global_pd in
    (
      pd,
      pools
          ++ (record {
            nodes_in_pool = nodes_to_pa;
            pool_desc = pd;
            pool_size = 0;
            pool_alignment = 0;
          }
              ∷ []),
    )

-- `OnlyOverheadHeuristic`, which chooses every node.
abbrev pub assign_only_overhead : Target → Graph → List ℕ → List OnePool → Result (List OnePool)
assign_only_overhead t g nodes_to_pa pools =
    pool_each t g nodes_to_pa >>= λ ps. returned (pools ++ ps)
