-- ===== src/Nodes/Examples.antt =====
-- lib/DSA/DataStructure.cpp: the theorems at a graph of three nodes.
use poolalloc_3_1_upstreamed.Prelude.{
  ℕ, ◌≡◌, ◌⊎◌, ◌↔◌, ◌<◌, ◌≤◌, ◌^◌, ltb→lt, refl, Bool, true, false, none, [], ◌∷◌, ◌==◌,
  if◌then◌else◌, arith,
}
use poolalloc_3_1_upstreamed.Prelude.Results.{returned}
use poolalloc_3_1_upstreamed.Nodes.Graph.{
  Handle, null_handle, Node, Graph, is_collapsed, size_of, resolve, forwarded,
}
use poolalloc_3_1_upstreamed.Nodes.Merge.{merge_with, fold_node_completely}
use poolalloc_3_1_upstreamed.Nodes.Offsets.{IsResolved, resolve-IsResolved}
use poolalloc_3_1_upstreamed.Nodes.Merged.{IsPlain, IsMerged}
use poolalloc_3_1_upstreamed.Nodes.MergeWith.{merge_with-IsMerged}
use poolalloc_3_1_upstreamed.Nodes.Safety.{Layout, is_open, is_type_safe}
use poolalloc_3_1_upstreamed.Nodes.Safe.{AreApart, is_type_safe-AreApart}
use poolalloc_3_1_upstreamed.Nodes.Fold.{IsLeaf}
use poolalloc_3_1_upstreamed.Nodes.Folded.{IsFolded, fold_node_completely-IsFolded}

abbrev bytes : ℕ → Node
bytes size = record {
  forward = null_handle;
  size = size;
  in_graph = true;
  types = [];
  links = [];
  globals = 70 ∷ [];
  node_type = λ bit. false;
}

-- Two nodes, of 16 and of 8 bytes.
abbrev pair : Graph
pair = record { nodes = λ n. if n == 2 then bytes 8 else bytes 16; next = 3; sets = [] }

first-IsPlain : IsPlain pair 1 4
first-IsPlain = record {
  leaf = record {
    some_node = omega arith;
    old = omega arith;
    no_forward = refl;
    alive = refl;
    no_links = refl;
  };
  open_node = refl;
  no_array = refl;
  inside = omega arith;
}

second-IsPlain : IsPlain pair 2 0
second-IsPlain = record {
  leaf = record {
    some_node = omega arith;
    old = omega arith;
    no_forward = refl;
    alive = refl;
    no_links = refl;
  };
  open_node = refl;
  no_array = refl;
  inside = omega arith;
}

abbrev second_handle : Handle
second_handle = record { node = 2; offset = 0 }

merge_with-IsMerged_example :
    (g' : Graph) × (merge_with 2 (λ ty. 8) pair 1 second_handle 4 ≡ returned g')
    × (((0 ≤ 4) × IsMerged pair 1 2 4 g') ⊎ ((4 ≤ 0) × IsMerged pair 2 1 0 g'))
merge_with-IsMerged_example =
    merge_with-IsMerged 0 (λ ty. 8) pair 1 4 2 0 (ground arith) first-IsPlain second-IsPlain refl
      refl (ltb→lt 16 (2 ^ 31) refl) (ltb→lt 8 (2 ^ 31) refl)

-- Node 1 of 16 bytes, and node 2, which forwards to offset 4 of it.
abbrev sample : Graph
sample = record {
  nodes = λ n.
      if n == 2 then record (bytes 0) { forward = record { node = 1; offset = 4 } } else bytes 16;
  next = 3;
  sets = [];
}

sample-IsLeaf : IsLeaf sample 1
sample-IsLeaf = record {
  some_node = omega arith;
  old = omega arith;
  no_forward = refl;
  alive = refl;
  no_links = refl;
}

fold_node_completely-IsFolded_example :
    (g' : Graph) × (fold_node_completely (merge_with 5 (λ ty. 8)) sample 1 ≡ returned g')
    × IsFolded sample 1 g'
fold_node_completely-IsFolded_example =
    fold_node_completely-IsFolded (merge_with 5 (λ ty. 8)) sample 1 sample-IsLeaf refl (omega arith)

sample_resolved :
    resolve 4 sample (record { node = 2; offset = 3 }) ≡ returned (record { node = 1; offset = 7 })
unfolding resolve forwarded
sample_resolved = refl

abbrev old_handle : Handle
old_handle = record { node = 2; offset = 3 }

abbrev new_handle : Handle
new_handle = record { node = 1; offset = 7 }

resolve-IsResolved_example :
    IsResolved sample new_handle
    × ((old_handle ≡ new_handle)
        ⊎ ((new_handle.offset < size_of sample 1) ⊎ (new_handle.offset ≡ 0)))
resolve-IsResolved_example = resolve-IsResolved 4 sample old_handle new_handle sample_resolved

-- A pointer at offset 0 and four bytes at offset 8.
abbrev two_fields : Graph
two_fields = record {
  nodes = λ n. record (bytes 16) { types = (0, 1) ∷ (8, 2) ∷ [] };
  next = 2;
  sets = (3 ∷ []) ∷ (4 ∷ []) ∷ [];
}

abbrev plain_layout : Layout
plain_layout = record {
  store_size = λ ty. if ty == 3 then 8 else 4;
  innermost = λ ty. none;
  is_struct = λ ty. false;
  optimize = false;
}

is_type_safe-AreApart_example :
    (b : Bool) × (is_type_safe plain_layout two_fields 1 ≡ returned b)
    × ((b ≡ true) ↔ (
        (is_collapsed two_fields 1 ≡ false)
        × (is_open (two_fields.nodes 1).node_type ≡ false)
        × AreApart plain_layout two_fields.sets (two_fields.nodes 1).types))
is_type_safe-AreApart_example =
    is_type_safe-AreApart plain_layout two_fields 1 refl
      ((omega arith, tt), (omega arith, tt), ((omega arith, tt), tt, tt))
