-- ===== src/Nodes/Merge.antt =====
-- lib/DSA/DataStructure.cpp: folding, forwarding and merging. These functions call each other by way
-- of `mergeWith`, which the others get as an argument, and which spends a unit of fuel in each call.
use poolalloc_3_1_upstreamed.Prelude.{
  ℕ, zero, suc, ◌+◌, ◌-◌, ◌%◌, ◌^◌, Bool, true, false, ◌||◌, ◌&&◌, not, none, some, List, [], ◌∷◌,
  length, ltb, leb, ◌==◌, if◌then◌else◌,
}
use poolalloc_3_1_upstreamed.Prelude.Results.{Result, returned, assert_failed, out_of_fuel, ◌>>=◌}
use poolalloc_3_1_upstreamed.Sets.Svset.{insert_set}
use poolalloc_3_1_upstreamed.Nodes.Graph.{
  Handle, null_handle, Node, Graph, put_node, array_bit, collapsed_bit, dead_bit, is_forwarding,
  is_collapsed, is_array, is_dead, size_of, get_node, set_to, grow_size, set_link, entry,
}
use poolalloc_3_1_upstreamed.Nodes.Types.{merge_all_types}

-- `mergeWith` of a node, at an offset, and a handle that is not null.
abbrev pub Merger : Type 0
Merger = Graph → ℕ → Handle → ℕ → Result Graph

-- `DSNodeHandle::mergeWith` of a handle that is not null.
unfoldable pub handle_merge_with : Merger → Graph → Handle → Handle → Result Graph
handle_merge_with merge g existing h = get_node g existing >>= λ r. merge g r.node h r.offset

abbrev pub link_at : Graph → ℕ → ℕ → Handle
link_at g n offset = elim (entry (g.nodes n).links offset) [ none ↦ null_handle | some h ↦ h ]

unfoldable pub add_edge_to : Merger → Graph → ℕ → ℕ → Handle → Result Graph
add_edge_to merge g n from h =
    let offset = if is_collapsed g n then 0 else from in
    if h.node == 0
    then returned g
    else if leb (size_of g n) offset || is_forwarding g n
    then assert_failed
    else if (link_at g n offset).node == 0
    then set_link g n offset h
    else handle_merge_with merge g (link_at g n offset) h

-- The links move to the node that a handle leads to.
unfoldable pub move_links : Merger → Graph → Handle → ℕ → List (ℕ × Handle) → Result Graph
move_links merge g to offset [] = returned g
move_links merge g to offset ((from, h) ∷ links) =
    (if h.node == 0
      then returned g
      else get_node g to >>= λ r.
          add_edge_to merge g r.node
            (if size_of g r.node == 1 then 0 else (from + offset) % 2 ^ 32 % size_of g r.node) h)
    >>= λ g'. move_links merge g' to offset links

-- What `forwardNode` leaves of the node, before and behind the move of its links.
abbrev pub forwarding_node : Node → Handle → Node
forwarding_node v to = record v { forward = to; size = 0; node_type = λ bit. bit == dead_bit }

abbrev pub off_graph : Graph → ℕ → Graph
off_graph g n = put_node g n (record (g.nodes n) { links = []; in_graph = false })

unfoldable pub forward_node : Merger → Graph → ℕ → ℕ → ℕ → Result Graph
forward_node merge g n to at =
    let offset = if leb (size_of g to) 1 then 0 else at in
    if (n == to) || is_forwarding g n
    then assert_failed
    else if ltb offset (size_of g to) || ((offset == size_of g to) && (offset == 0))
    then (set_to g to offset >>= λ h.
        move_links merge (put_node g n (forwarding_node (g.nodes n) h)) h offset (g.nodes n).links
        >>= λ g'. returned (off_graph g' n))
    else assert_failed

-- The types and the array mark go.
abbrev pub untyped : Node → Node
untyped v = record v { types = []; node_type = λ bit. not (bit == array_bit) && v.node_type bit }

-- The node of one byte that a folded node forwards to.
abbrev pub collapsed_node : Node → Node
collapsed_node v = record {
  forward = null_handle;
  size = 1;
  in_graph = true;
  types = [];
  links = [];
  globals = v.globals;
  node_type = λ bit. (bit == collapsed_bit) || (untyped v).node_type bit;
}

unfoldable pub fold_node_completely : Merger → Graph → ℕ → Result Graph
fold_node_completely merge g n =
    let v = untyped (g.nodes n) in
    let dest = put_node (record g { next = g.next + 1 }) g.next (collapsed_node (g.nodes n)) in
    if is_collapsed g n
    then returned g
    else if leb (size_of g n) 1
    then (if leb (length v.links) 1
        then returned (
            put_node g n
              (record v { size = 1; node_type = λ bit. (bit == collapsed_bit) || v.node_type bit }))
        else assert_failed)
    else forward_node merge (put_node dest n (record v { globals = [] })) n g.next 0

-- `foldNodeCompletely` of what a handle leads to.
abbrev pub fold_handle : Merger → Graph → Handle → Result Graph
fold_handle merge g h = get_node g h >>= λ r. fold_node_completely merge g r.node

-- Where the first node is folded and the second is not, the second is folded too; the asserts are
-- on its offset, and on `NH`. Whether it was folded is a result.
unfoldable pub fold_as : Merger → Graph → Handle → Handle → Handle → Result (Graph × Bool)
fold_as merge g first second nh = get_node g first >>= λ c. get_node g second >>= λ r.
    if is_collapsed g c.node && not (is_collapsed g r.node)
    then (fold_node_completely merge g r.node >>= λ g'. get_node g' second >>= λ r'.
        get_node g' nh >>= λ n.
        if (r'.offset == 0) && (n.offset == 0) && (size_of g' n.node == 1)
        then returned (g', true)
        else assert_failed)
    else returned (g, false)

-- An array and a node that is none, of which the array is the smaller one, away from offset 0; or
-- arrays of different sizes.
abbrev pub is_misfit : Graph → Handle → Handle → Bool
is_misfit g c r =
    let sized = not (size_of g c.node == 0) && not (size_of g r.node == 0) in
    let moved = not (c.offset == 0) || not (r.offset == 0) in
    (sized
      && is_array g r.node
      && not (is_array g c.node)
      && moved
      && ltb (size_of g r.node) (size_of g c.node))
    || (sized
        && not (is_array g r.node)
        && is_array g c.node
        && moved
        && ltb (size_of g c.node) (size_of g r.node))
    || (sized
        && is_array g c.node
        && is_array g r.node
        && not (size_of g c.node == size_of g r.node))

unfoldable pub fold_misfits : Merger → Graph → Handle → Handle → Result (Graph × Bool)
fold_misfits merge g cur nh = get_node g cur >>= λ c. get_node g nh >>= λ r.
    if is_misfit g c r
    then (fold_handle merge g cur >>= λ g'. fold_handle merge g' nh >>= λ g''. returned (g'', true))
    else returned (g, false)

-- The types, the size and the bits of the second node go to the first.
abbrev pub merge_bits : Graph → ℕ → ℕ → Graph
merge_bits g c n = put_node g c (record (g.nodes c) {
  node_type = λ bit. (g.nodes c).node_type bit || (g.nodes n).node_type bit;
})

unfoldable pub merge_contents : (ℕ → ℕ) → Graph → ℕ → ℕ → ℕ → Result Graph
merge_contents alloc_size g c n offset =
    (if is_collapsed g c
      then returned g
      else merge_all_types alloc_size g c offset (g.nodes n).types)
    >>= λ g1.
        (if ltb (size_of g1 c) ((size_of g1 n + offset) % 2 ^ 32)
          then grow_size g1 c ((size_of g1 n + offset) % 2 ^ 32)
          else returned g1)
        >>= λ g2. returned (merge_bits g2 c n)

-- The globals of a node go to what a handle leads to.
abbrev pub merge_globals : Graph → Handle → ℕ → Graph
merge_globals g c n =
    let g' = put_node g c.node (record (g.nodes c.node) {
      globals = insert_set (g.nodes c.node).globals (g.nodes n).globals;
    }) in
    put_node g' n (record (g'.nodes n) { links = []; globals = [] })

-- `MergeNodes` behind the folds, where `offset` is `NOffset`. The links have moved in `forwardNode`.
unfoldable pub join_nodes : (ℕ → ℕ) → Merger → Graph → Handle → Handle → ℕ → Result Graph
join_nodes alloc_size merge g cur nh offset = get_node g cur >>= λ c. get_node g nh >>= λ r.
    if (c.node == r.node) || (r.node == 0)
    then returned g
    else if is_dead g c.node
    then assert_failed
    else merge_contents alloc_size g c.node r.node offset >>= λ g1.
        forward_node merge g1 r.node c.node offset >>= λ g2.
        move_links merge g2 cur offset (g2.nodes r.node).links >>= λ g3.
        get_node g3 cur >>= λ c3. returned (merge_globals g3 c3 r.node)

-- `MergeNodes`. Behind a fold `NOffset` is the offset of `NH`.
unfoldable pub merge_nodes : (ℕ → ℕ) → Merger → Graph → Handle → Handle → Result Graph
merge_nodes alloc_size merge g cur nh = get_node g cur >>= λ c. get_node g nh >>= λ r.
    if ltb c.offset r.offset
    then assert_failed
    else fold_as merge g cur nh nh >>= λ a. fold_as merge a.0 nh cur nh >>= λ b.
        fold_misfits merge b.0 cur nh >>= λ m. get_node m.0 nh >>= λ n.
        join_nodes alloc_size merge m.0 cur nh
          (if a.1 || b.1 || m.1 then n.offset else c.offset - r.offset)

-- `mergeWith` of a node, from the point where both nodes are known to differ.
unfoldable pub merge_apart : (ℕ → ℕ) → Merger → Graph → ℕ → Handle → ℕ → Result Graph
merge_apart alloc_size merge g n r offset =
    if ltb offset r.offset || ((offset == r.offset) && ltb (size_of g n) (size_of g r.node))
    then (set_to g n offset >>= λ h. merge g r.node h r.offset)
    else set_to g n offset >>= λ cur. set_to g r.node r.offset >>= λ nh.
        if leb nh.offset cur.offset
        then merge_nodes alloc_size merge g cur nh
        else merge_nodes alloc_size merge g nh cur

-- `mergeWith`. Of a null handle the caller sets the handle, and the graph is as it was.
unfoldable pub merge_with : ℕ → (ℕ → ℕ) → Merger
merge_with zero alloc_size g n h offset = out_of_fuel
merge_with (suc fuel) alloc_size g n h offset =
    let merge = merge_with fuel alloc_size in
    get_node g h >>= λ r.
    if ((r.node == n) && (r.offset == offset)) || (r.node == 0)
    then returned g
    else if is_dead g r.node || is_dead g n
    then assert_failed
    else if r.node == n
    then fold_node_completely merge g n
    else merge_apart alloc_size merge g n r offset

-- `checkOffsetFoldIfNeeded`: an `int` of 2^31 or more is negative.
unfoldable pub check_offset_fold_if_needed : Merger → Graph → ℕ → ℕ → Result Graph
check_offset_fold_if_needed merge g n offset =
    if not (is_collapsed g n)
      && (not (size_of g n == 0) || not (offset == 0))
      && not (is_forwarding g n)
      && (leb (size_of g n) offset || leb (2 ^ 31) offset)
    then fold_node_completely merge g n
    else returned g
