-- ===== src/Nodes/Folded.antt =====
-- lib/DSA/DataStructure.cpp: where the handles of a folded node lead to.
use poolalloc_3_1_upstreamed.Prelude.{
  ℕ, zero, suc, ◌+◌, ◌%◌, ◌^◌, ◌<◌, ◌≡◌, ◌≢◌, ◌⊎◌, ap, true, false, ◌||◌, not, Bool-cases, inl, inr,
  leb, ◌==◌, arith,
}
use poolalloc_3_1_upstreamed.Prelude.Results.{returned}
use poolalloc_3_1_upstreamed.Nodes.Graph.{
  Handle, Graph, collapsed_bit, is_forwarding, is_collapsed, size_of, forwarded, resolve, get_node,
}
use poolalloc_3_1_upstreamed.Nodes.Merge.{
  Merger, collapsed_node, fold_node_completely, check_offset_fold_if_needed,
}
use poolalloc_3_1_upstreamed.Nodes.Fold.{folded, IsLeaf, fold_leaf}

pub resolve-stop :
    (fuel : ℕ) (g : Graph) (h : Handle)
    → 0 < fuel
    → is_forwarding g h.node ≡ false
    → resolve fuel g h ≡ returned h
unfolding resolve
resolve-stop zero g h pos end = absurd (omega (arith, pos))
resolve-stop (suc fuel) g h pos end =
    let stop : ((h.node == 0) || not (is_forwarding g h.node)) ≡ true = ground (arith, end) in
    simp (stop)

forwarded-byte :
    (g : Graph) (to offset : ℕ)
    → size_of g to ≡ 1
    → forwarded g offset (record { node = to; offset = 0 })
      ≡ returned (record { node = to; offset = 0 })
unfolding forwarded
forwarded-byte g to offset byte = elim (Bool-cases (leb 1 ((offset + 0) % 2 ^ 32))) [
  | inl outside ↦ simp (byte, outside)
  | inr inside ↦ let none : (offset + 0) % 2 ^ 32 ≡ 0 = ground (arith, inside) in simp (byte, none)
]

-- One step to a node of one byte.
resolve-byte :
    (fuel : ℕ) (g : Graph) (n to offset : ℕ)
    → n ≢ 0
    → to ≢ 0
    → (g.nodes n).forward ≡ record { node = to; offset = 0 }
    → is_forwarding g to ≡ false
    → size_of g to ≡ 1
    → 0 < fuel
    → resolve (suc fuel) g (record { node = n; offset = offset })
      ≡ returned (record { node = to; offset = 0 })
unfolding resolve
resolve-byte fuel g n to offset nz nz_to forward end byte pos =
    let h : Handle = record { node = to; offset = 0 } in
    let go : ((n == 0) || not (not (to == 0))) ≡ false = ground (arith, nz, nz_to) in
    let stop = resolve-stop fuel g h pos end in
    simp (go, forward, stop, forwarded-byte g to offset byte)

-- What a fold of a node leads to.
pub record IsFolded (g : Graph) (n : ℕ) (g' : Graph) : Type 0 where
  pub handles :
      (offset : ℕ)
      → get_node g' (record { node = n; offset = offset })
        ≡ returned (record { node = g.next; offset = 0 })
  pub collapsed : is_collapsed g' g.next ≡ true
  pub one_byte : size_of g' g.next ≡ 1
  pub globals : (g'.nodes g.next).globals ≡ (g.nodes n).globals
  pub others : (m : ℕ) → m ≢ n → m ≢ g.next → g'.nodes m ≡ g.nodes m

-- foldNodeCompletely of a node of the graph that has more than one byte, is not folded and has no
-- links returns, whatever mergeWith does: each handle of the node then leads to a new collapsed node
-- of one byte, which has the globals, at offset 0, and all other nodes are as they were.
pub fold_node_completely-IsFolded :
    (merge : Merger) (g : Graph) (n : ℕ)
    → IsLeaf g n
    → is_collapsed g n ≡ false
    → 1 < size_of g n
    → (g' : Graph) × (fold_node_completely merge g n ≡ returned g') × IsFolded g n g'
fold_node_completely-IsFolded merge g n leaf open_node large =
    let different' : (g.next == n) ≡ false = ground (arith, leaf.old) in
    let self : (n == n) ≡ true = ground arith in
    let self' : (g.next == g.next) ≡ true = ground arith in
    let there : (folded g n).nodes g.next ≡ collapsed_node (g.nodes n) = simp (different', self') in
    (
      folded g n,
      fold_leaf merge g n leaf open_node large,
      record {
        handles = λ offset.
            resolve-byte (g.next + 1) (folded g n) n g.next offset
              (λ e. omega (arith, e, leaf.some_node)) (λ e. omega (arith, e, leaf.old))
              (simp (self)) (ap (λ v. not (v.forward.node == 0)) there) (ap (λ v. v.size) there)
              (omega arith);
        collapsed = ap (λ v. v.node_type collapsed_bit) there;
        one_byte = ap (λ v. v.size) there;
        globals = ap (λ v. v.globals) there;
        others = λ m ne ne'.
            let other : (m == n) ≡ false = ground (arith, ne) in
            let other' : (m == g.next) ≡ false = ground (arith, ne') in simp (other, other');
      },
    )

-- Where an offset leads to once it is checked: it is inside the node, or leads to a collapsed node.
abbrev pub IsChecked : Graph → ℕ → ℕ → Type 0
IsChecked g n offset =
    (r : Handle) × (get_node g (record { node = n; offset = offset }) ≡ returned r)
    × ((r.offset < size_of g r.node) ⊎ (is_collapsed g r.node ≡ true))

-- checkOffsetFoldIfNeeded of an offset and a node of the graph that has more than one byte and no
-- links returns, and the offset then leads inside the node or to a collapsed node.
pub check_offset_fold_if_needed-IsChecked :
    (merge : Merger) (g : Graph) (n offset : ℕ)
    → IsLeaf g n
    → 1 < size_of g n
    → (g' : Graph) × (check_offset_fold_if_needed merge g n offset ≡ returned g')
      × IsChecked g' n offset
unfolding check_offset_fold_if_needed
check_offset_fold_if_needed-IsChecked merge g n offset leaf large =
    let sized : (size_of g n == 0) ≡ false = ground (arith, large) in
    elim (Bool-cases (is_collapsed g n)) [
      | inl closed ↦ (g, simp (closed), as_it_is (inr closed))
      | inr open_node ↦ elim (Bool-cases (leb (size_of g n) offset || leb (2 ^ 31) offset)) [
        | inl outside ↦
            let (g', e, f) = fold_node_completely-IsFolded merge g n leaf open_node large in
            (
              g',
              simp (open_node, sized, leaf.no_forward, outside, e),
              (record { node = g.next; offset = 0 }, f.handles offset, inr f.collapsed),
            )
        | inr inside ↦ (
          g,
          simp (open_node, sized, leaf.no_forward, inside),
          as_it_is (inl (ground (arith, inside))),
        )
      ]
    ]
  where
    as_it_is : (offset < size_of g n) ⊎ (is_collapsed g n ≡ true) → IsChecked g n offset
    as_it_is c = (
      record { node = n; offset = offset },
      resolve-stop (suc g.next) g (record { node = n; offset = offset }) (omega arith)
          leaf.no_forward,
      c,
    )
