-- ===== src/Nodes/Graph.antt =====
-- include/dsa/DSNode.h and include/dsa/DSSupport.h: nodes and handles. A node is an address, which
-- one graph maps to what the node holds; null is 0. A node stays when its last handle is gone. A
-- handle is not written back when it is followed over nodes that forward.
use poolalloc_3_1_upstreamed.Prelude.{
  ℕ, zero, suc, ◌+◌, ◌%◌, ◌^◌, Bool, ◌||◌, not, Option, none, some, List, [], ◌∷◌, ltb, leb, ◌==◌,
  if◌then◌else◌,
}
use poolalloc_3_1_upstreamed.Prelude.Results.{Result, returned, assert_failed, out_of_fuel, ◌>>=◌}

-- `DSNodeHandle`.
pub record Handle : Type 0 where
  pub node : ℕ
  pub offset : ℕ

abbrev pub null_handle : Handle
null_handle = record { node = 0; offset = 0 }

-- The bits of `NodeType` that the code here reads.
abbrev pub array_bit : ℕ
array_bit = 9

abbrev pub collapsed_bit : ℕ
collapsed_bit = 10

abbrev pub dead_bit : ℕ
dead_bit = 15

-- `DSNode`: `TyMap` and `Links` are lists by rising offset, a set of types is its place in the
-- `SuperSet` of the graph, and `NodeType` says of each bit whether it is set.
pub record Node : Type 0 where
  pub forward : Handle
  pub size : ℕ
  pub in_graph : Bool
  pub types : List (ℕ × ℕ)
  pub links : List (ℕ × Handle)
  pub globals : List ℕ
  pub node_type : ℕ → Bool

-- The nodes, the address that `new` gives next, and the sets of types.
pub record Graph : Type 0 where
  pub nodes : ℕ → Node
  pub next : ℕ
  pub sets : List (List ℕ)

abbrev pub put_node : Graph → ℕ → Node → Graph
put_node g n v = record g { nodes = λ m. if m == n then v else g.nodes m }

abbrev pub is_forwarding : Graph → ℕ → Bool
is_forwarding g n = not ((g.nodes n).forward.node == 0)

abbrev pub is_collapsed : Graph → ℕ → Bool
is_collapsed g n = (g.nodes n).node_type collapsed_bit

abbrev pub is_array : Graph → ℕ → Bool
is_array g n = (g.nodes n).node_type array_bit

abbrev pub is_dead : Graph → ℕ → Bool
is_dead g n = (g.nodes n).node_type dead_bit

abbrev pub size_of : Graph → ℕ → ℕ
size_of g n = (g.nodes n).size

-- `HandleForwarding` once the node at the end is known.
unfoldable pub forwarded : Graph → ℕ → Handle → Result Handle
forwarded g offset f =
    let sum = (offset + f.offset) % 2 ^ 32 in
    if leb (size_of g f.node) sum
    then (if leb (size_of g f.node) 1
        then returned (record { node = f.node; offset = 0 })
        else assert_failed)
    else returned (record { node = f.node; offset = sum })

-- `getNode`, and the offset behind it: out of fuel where nodes forward in a circle.
unfoldable pub resolve : ℕ → Graph → Handle → Result Handle
resolve zero g h = out_of_fuel
resolve (suc fuel) g h =
    let rest = resolve fuel g (g.nodes h.node).forward in
    if (h.node == 0) || not (is_forwarding g h.node)
    then returned h
    else rest >>= λ f. forwarded g h.offset f

-- More nodes than there are cannot forward one after the other.
abbrev pub get_node : Graph → Handle → Result Handle
get_node g h = resolve (suc g.next) g h

-- `setTo`.
unfoldable pub set_to : Graph → ℕ → ℕ → Result Handle
set_to g n offset =
    if n == 0
    then returned (record { node = 0; offset = offset })
    else if is_forwarding g n || is_dead g n
    then assert_failed
    else if leb (size_of g n) offset
    then (if (offset == 0) || (size_of g n == 1)
        then returned (record { node = n; offset = 0 })
        else assert_failed)
    else returned (record { node = n; offset = offset })

-- The copy of a handle.
abbrev pub copy_handle : Graph → Handle → Result Handle
copy_handle g h = get_node g h >>= λ r. set_to g r.node r.offset

-- `growSize`.
unfoldable pub grow_size : Graph → ℕ → ℕ → Result Graph
grow_size g n size =
    if ltb size (size_of g n) || is_collapsed g n
    then assert_failed
    else returned (put_node g n (record (g.nodes n) { size = size }))

-- A map from offsets, as a list.
abbrev pub entry : {A : Type 0} → List (ℕ × A) → ℕ → Option A
entry [] k = none
entry ((j, a) ∷ es) k = if j == k then some a else entry es k

abbrev pub set_entry : {A : Type 0} → List (ℕ × A) → ℕ → A → List (ℕ × A)
set_entry [] k b = (k, b) ∷ []
set_entry ((j, a) ∷ es) k b =
    if j == k
    then (k, b) ∷ es
    else if ltb k j
    then (k, b) ∷ (j, a) ∷ es
    else (j, a) ∷ set_entry es k b

-- `setLink`.
unfoldable pub set_link : Graph → ℕ → ℕ → Handle → Result Graph
set_link g n offset h =
    if ltb offset (size_of g n)
    then (copy_handle g h >>= λ c.
        returned
          (put_node g n (record (g.nodes n) { links = set_entry (g.nodes n).links offset c })))
    else assert_failed
