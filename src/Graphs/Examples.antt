-- ===== src/Graphs/Examples.antt =====
-- lib/DSA/DSGraph.cpp: the theorems on a graph of three nodes, and on three call sites.
use mathlib.Core.List.{reverse}
use poolalloc_3_1_upstreamed.Prelude.{
  ℕ, zero, suc, ◌≡◌, ◌⊎◌, ◌↔◌, refl, Bool, true, false, not, ◌==◌, List, [], ◌∷◌, take, arith,
}
use poolalloc_3_1_upstreamed.Prelude.Results.{returned}
use poolalloc_3_1_upstreamed.Sets.Members.{mem}
use poolalloc_3_1_upstreamed.Nodes.Graph.{Handle, null_handle, Node, Graph, resolve}
use poolalloc_3_1_upstreamed.Graphs.Walk.{Route}
use poolalloc_3_1_upstreamed.Graphs.Sites.{CallSite}
use poolalloc_3_1_upstreamed.Graphs.Reach.{
  mark_reachable, incomplete_bit, external_bit, propagate_external,
}
use poolalloc_3_1_upstreamed.Graphs.Reached.{targets, IsLinked, IsClosed, mark_reachable-Route}
use poolalloc_3_1_upstreamed.Graphs.Marked.{flagged}
use poolalloc_3_1_upstreamed.Graphs.Spread.{propagate_external-Route, FromBit}
use poolalloc_3_1_upstreamed.Graphs.Scc.{Finder, new_finder, path_exists}
use poolalloc_3_1_upstreamed.Graphs.Missed.{path_exists_misses}
use poolalloc_3_1_upstreamed.Graphs.Alive.{drop_dead}
use poolalloc_3_1_upstreamed.Graphs.Dropped.{drop_dead-leading}
use poolalloc_3_1_upstreamed.Graphs.Pushed.{drop_dead-pushes}

abbrev to : ℕ → Handle
to n = record { node = n; offset = 0 }

abbrev linking : List (ℕ × Handle) → (ℕ → Bool) → Node
linking ls bits = record {
  forward = null_handle;
  size = 8;
  in_graph = true;
  types = [];
  links = ls;
  globals = [];
  node_type = bits;
}

-- Node 1 leads to node 2, and node 2 back and to node 3; node 3 is external.
abbrev three_nodes : ℕ → Node
three_nodes zero = linking [] (λ b. false)
three_nodes (suc zero) = linking ((0, to 2) ∷ []) (λ b. false)
three_nodes (suc (suc zero)) = linking ((0, to 1) ∷ (4, to 3) ∷ []) (λ b. false)
three_nodes (suc (suc (suc zero))) = linking [] (λ b. b == 11)
three_nodes (suc (suc (suc (suc n)))) = linking [] (λ b. false)

abbrev three : Graph
three = record { nodes = three_nodes; next = 4; sets = [] }

three-IsLinked : IsLinked three
unfolding resolve
three-IsLinked zero lt = tt
three-IsLinked (suc zero) lt = ((to 2, refl, omega arith), tt)
three-IsLinked (suc (suc zero)) lt = ((to 1, refl, omega arith), ((to 3, refl, omega arith), tt))
three-IsLinked (suc (suc (suc zero))) lt = tt
three-IsLinked (suc (suc (suc (suc n)))) lt = tt

mark_reachable-Route_example :
    (r : List ℕ) × (mark_reachable three [] 1 ≡ returned r)
    × ((m : ℕ) → (mem r m ≡ true) ↔ ((mem [] m ≡ true) ⊎ Route (targets three) 1 m))
    × IsClosed three r
mark_reachable-Route_example =
    mark_reachable-Route three [] 1 three-IsLinked (omega arith) (omega arith) refl
      (λ m h. absurd (ground (arith, h)))

complete : (m : ℕ) → (three.nodes m).node_type incomplete_bit ≡ mem [] m
complete zero = refl
complete (suc zero) = refl
complete (suc (suc zero)) = refl
complete (suc (suc (suc zero))) = refl
complete (suc (suc (suc (suc n)))) = refl

propagate_external-Route_example :
    (r : List ℕ) × (propagate_external (three, []) (1 ∷ 2 ∷ 3 ∷ [])
      ≡ returned (flagged three external_bit r, r))
    × ((m : ℕ) → (mem r m ≡ true) ↔ FromBit three external_bit (1 ∷ 2 ∷ 3 ∷ []) m)
propagate_external-Route_example = propagate_external-Route three (1 ∷ 2 ∷ 3 ∷ []) three-IsLinked (
  (omega arith, omega arith, refl),
  ((omega arith, omega arith, refl), ((omega arith, omega arith, refl), tt)),
)

path_exists_misses_example :
    ((f : Finder) × (path_exists (λ n. n == 3) three new_finder 1 ≡ returned (f, false)))
    × Route (targets three) 1 3
unfolding resolve
path_exists_misses_example =
    path_exists_misses (λ n. n == 3) three 2 1 3 (to 2) (to 1) (to 3) 0 0 0 (omega arith)
      (omega arith) (omega arith) (omega arith) (omega arith) (omega arith) refl refl refl refl refl
      refl refl refl refl refl (omega arith)

abbrev call_to : ℕ → Handle → CallSite
call_to n va = record {
  site = n;
  callee_f = n;
  callee_n = null_handle;
  ret_val = null_handle;
  va_val = va;
  call_args = [];
  mapped_sites = [];
}

abbrev three_calls : List CallSite
three_calls = call_to 1 (to 1) ∷ call_to 2 (to 2) ∷ call_to 3 (to 3) ∷ []

drop_dead-leading_example : (drop_dead (λ n. not (n == 1)) false three_calls).0 ≡ take 1 three_calls
drop_dead-leading_example = drop_dead-leading (λ n. not (n == 1)) false three_calls

drop_dead-pushes_example :
    (drop_dead (λ n. not (n == 1)) false three_calls).1
    ≡ call_to 2 (to 2) ∷ reverse (call_to 3 (to 3) ∷ [])
drop_dead-pushes_example =
    drop_dead-pushes (λ n. not (n == 1)) three_calls (call_to 2 (to 2)) (call_to 3 (to 3) ∷ []) refl
