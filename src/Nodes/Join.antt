-- ===== src/Nodes/Join.antt =====
-- lib/DSA/DataStructure.cpp: the steps of a merge of two nodes without links.
use poolalloc_3_1_upstreamed.Prelude.{
  ℕ, ◌+◌, ◌-◌, ◌%◌, ◌^◌, ◌<◌, ◌≡◌, ◌≢◌, refl, Bool, true, false, ◌||◌, ◌&&◌, [], Bool-cases, inl,
  inr, leb, ltb, ◌==◌, if◌then◌else◌, arith,
}
use poolalloc_3_1_upstreamed.Prelude.Results.{returned}
use poolalloc_3_1_upstreamed.Nodes.Graph.{
  Handle, Node, Graph, put_node, is_forwarding, is_collapsed, is_array, is_dead, size_of, get_node,
  set_to, grow_size,
}
use poolalloc_3_1_upstreamed.Nodes.Types.{merge_all_types}
use poolalloc_3_1_upstreamed.Nodes.Merge.{
  Merger, fold_as, fold_misfits, join_nodes, merge_nodes, merge_bits, merge_contents,
}

pub set_to-inside :
    (g : Graph) (n offset : ℕ)
    → n ≢ 0
    → is_forwarding g n ≡ false
    → is_dead g n ≡ false
    → offset < size_of g n
    → set_to g n offset ≡ returned (record { node = n; offset = offset })
unfolding set_to
set_to-inside g n offset nz end alive inside =
    let some_node : (n == 0) ≡ false = ground (arith, nz) in
    let below : leb (size_of g n) offset ≡ false = ground (arith, inside) in
    simp (some_node, end, alive, below)

-- Two nodes of which neither is folded, nor an array, are joined as they are.
pub merge_nodes-plain :
    (alloc_size : ℕ → ℕ) (merge : Merger) (g : Graph) (cur nh : Handle)
    → get_node g cur ≡ returned cur
    → get_node g nh ≡ returned nh
    → ltb cur.offset nh.offset ≡ false
    → is_collapsed g cur.node ≡ false
    → is_collapsed g nh.node ≡ false
    → is_array g cur.node ≡ false
    → is_array g nh.node ≡ false
    → merge_nodes alloc_size merge g cur nh
      ≡ join_nodes alloc_size merge g cur nh (cur.offset - nh.offset)
unfolding merge_nodes fold_as fold_misfits
merge_nodes-plain alloc_size merge g cur nh c n order open_cur open_nh plain_cur plain_nh =
    simp (c, n, order, open_cur, open_nh, plain_cur, plain_nh, and_false)
  where
    and_false : (b : Bool) → (b && false) ≡ false
    and_false true = refl
    and_false false = refl

-- What the first node holds behind the merge of a node without types, of which it takes the size,
-- moved by an offset, and the bits.
abbrev pub joined : Graph → ℕ → ℕ → ℕ → Node
joined g n m offset = record (g.nodes n) {
  size = if ltb (size_of g n) (size_of g m + offset) then size_of g m + offset else size_of g n;
  node_type = λ bit. (g.nodes n).node_type bit || (g.nodes m).node_type bit;
}

pub merge_contents-joined :
    (alloc_size : ℕ → ℕ) (g : Graph) (n m offset : ℕ)
    → n ≢ m
    → is_collapsed g n ≡ false
    → (g.nodes m).types ≡ []
    → size_of g m + offset < 2 ^ 32
    → (g' : Graph) × (merge_contents alloc_size g n m offset ≡ returned g')
      × (g'.nodes n ≡ joined g n m offset)
      × ((k : ℕ) → k ≢ n → g'.nodes k ≡ g.nodes k)
      × (g'.next ≡ g.next)
unfolding merge_contents merge_all_types grow_size
merge_contents-joined alloc_size g n m offset ne open_node untyped whole =
    let sum : (size_of g m + offset) % 2 ^ 32 ≡ size_of g m + offset = omega (arith, whole) in
    let self : (n == n) ≡ true = ground arith in
    let other : (m == n) ≡ false = ground (arith, ne) in
    let kept : merge_all_types alloc_size g n offset (g.nodes m).types ≡ returned g =
      rw untyped refl in
    elim (Bool-cases (ltb (size_of g n) (size_of g m + offset))) [
      | inl grows ↦
          let size = size_of g m + offset in
          let not_less : ltb size (size_of g n) ≡ false = ground (arith, grows) in
          (
            merge_bits (put_node g n (record (g.nodes n) { size = size })) n m,
            simp (open_node, kept, sum, grows, not_less),
            simp (self, other, grows),
            (λ k away. let far : (k == n) ≡ false = ground (arith, away) in simp (far)),
            refl,
          )
      | inr fits ↦ (
        merge_bits g n m,
        simp (open_node, kept, sum, fits),
        simp (self, fits),
        (λ k away. let far : (k == n) ≡ false = ground (arith, away) in simp (far)),
        refl,
      )
    ]
