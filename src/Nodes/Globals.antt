-- ===== src/Nodes/Globals.antt =====
-- lib/DSA/DataStructure.cpp: the globals of a node, and edges that lead nowhere. The leader of the
-- class of a global, which LLVM's `EquivalenceClasses` gives, is an argument.
use poolalloc_3_1_upstreamed.Prelude.{ℕ, ◌||◌, List, [], ◌∷◌, ◌==◌, if◌then◌else◌}
use poolalloc_3_1_upstreamed.Prelude.Results.{Result, returned, assert_failed}
use poolalloc_3_1_upstreamed.Sets.Svset.{insert, erase, count}
use poolalloc_3_1_upstreamed.Nodes.Graph.{Handle, Graph, put_node}

-- `addGlobal`, with the bit of `GlobalNode`; `addFunction` is the same.
unfoldable pub add_global : (ℕ → ℕ) → Graph → ℕ → ℕ → Graph
add_global leader g n global = put_node g n (record (g.nodes n) {
  globals = (insert (g.nodes n).globals (leader global)).0;
  node_type = λ bit. (bit == 2) || (g.nodes n).node_type bit;
})

unfoldable pub remove_global : Graph → ℕ → ℕ → Result Graph
remove_global g n global =
    if count (g.nodes n).globals global
    then returned
        (put_node g n (record (g.nodes n) { globals = (erase (g.nodes n).globals global).0 }))
    else assert_failed

-- The loops of `cleanEdges`.
unfoldable pub kept_types : List (ℕ × ℕ) → List (ℕ × ℕ)
kept_types [] = []
kept_types ((offset, place) ∷ types) =
    let rest = kept_types types in if place == 0 then rest else (offset, place) ∷ rest

unfoldable pub kept_links : List (ℕ × Handle) → List (ℕ × Handle)
kept_links [] = []
kept_links ((offset, h) ∷ links) =
    let rest = kept_links links in if h.node == 0 then rest else (offset, h) ∷ rest

unfoldable pub clean_edges : Graph → ℕ → Graph
clean_edges g n = put_node g n (record (g.nodes n) {
  types = kept_types (g.nodes n).types;
  links = kept_links (g.nodes n).links;
})
