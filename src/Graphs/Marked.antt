-- ===== src/Graphs/Marked.antt =====
-- What the walks of Graphs/Reach that set bits of nodes mark.
use mathlib.Core.Path.{fun_ext, subst}
use poolalloc_3_1_upstreamed.Prelude.{
  ℕ, zero, suc, ◌<◌, ◌≡◌, inl, inr, refl, sym, ap, ◌∙◌, Bool, true, false, ◌||◌, ◌&&◌, Bool-cases,
  List, ◌∷◌, ◌==◌, ==_iff, arith,
}
use poolalloc_3_1_upstreamed.Prelude.Results.{returned}
use poolalloc_3_1_upstreamed.Sets.Members.{mem, self_eq}
use poolalloc_3_1_upstreamed.Nodes.Graph.{Handle, Node, Graph, forwarded, resolve, get_node}
use poolalloc_3_1_upstreamed.Graphs.Walk.{unseen, unseen-cons, walk, walk_mono}
use poolalloc_3_1_upstreamed.Graphs.Reach.{
  edges, with_bit, incomplete_bit, external_bit, mark_incomplete_node, mark_external_node,
}
use poolalloc_3_1_upstreamed.Graphs.Reached.{targets, IsLinked, IsPlace, mark_handles-walk_list}

-- A graph in which the nodes of a list have a bit too.
unfoldable pub flagged : Graph → ℕ → List ℕ → Graph
flagged g bit s = record g {
  nodes = λ m. record (g.nodes m) {
    node_type = λ b. ((b == bit) && mem s m) || (g.nodes m).node_type b;
  };
}

-- Handles lead where they did.
resolve-flagged :
    (fuel : ℕ) (g : Graph) (bit : ℕ) (s : List ℕ) (h : Handle)
    → resolve fuel (flagged g bit s) h ≡ resolve fuel g h
unfolding resolve forwarded flagged
resolve-flagged zero g bit s h = refl
resolve-flagged (suc fuel) g bit s h = rw (resolve-flagged fuel g bit s (g.nodes h.node).forward)

pub get_node-flagged :
    (g : Graph) (bit : ℕ) (s : List ℕ) (h : Handle) → get_node (flagged g bit s) h ≡ get_node g h
unfolding flagged
get_node-flagged g bit s h = resolve-flagged (suc g.next) g bit s h

set_or : (a x o e : Bool) → e ≡ true → (a || ((a && x) || o)) ≡ ((a && (e || x)) || o)
set_or true x o e h = rw h
set_or false x o e h = refl

unset_or : (a x o e : Bool) → e ≡ false → ((a && x) || o) ≡ ((a && (e || x)) || o)
unset_or a x o e h = rw h

-- To set the bit of a node is to add it to the list.
node-flagged :
    (g : Graph) (bit : ℕ) (s : List ℕ) (n m : ℕ)
    → (with_bit (flagged g bit s) bit n).nodes m ≡ (flagged g bit (n ∷ s)).nodes m
unfolding flagged
node-flagged g bit s n m = elim (Bool-cases (m == n)) [
  | inl same ↦ by_node n ((==_iff m n).0 same)
  | inr other ↦ rw other (
      ap (λ (f : ℕ → Bool). record (g.nodes m) { node_type = f })
        (fun_ext (λ b.
          unset_or (b == bit) (mem s m) ((g.nodes m).node_type b) (n == m)
            (ground (arith, other)))))
]
  where
    by_node :
        (k : ℕ)
        → m ≡ k
        → (with_bit (flagged g bit s) bit k).nodes m ≡ (flagged g bit (k ∷ s)).nodes m
    by_node k e =
        subst (λ j. (with_bit (flagged g bit s) bit j).nodes m ≡ (flagged g bit (j ∷ s)).nodes m) e
          (rw (self_eq m) (
            ap (λ (f : ℕ → Bool). record (g.nodes m) { node_type = f })
              (fun_ext (λ b. set_or (b == bit) (mem s m) ((g.nodes m).node_type b) true refl))))

pub with_bit-flagged :
    (g : Graph) (bit : ℕ) (s : List ℕ) (n : ℕ)
    → with_bit (flagged g bit s) bit n ≡ flagged g bit (n ∷ s)
unfolding flagged
with_bit-flagged g bit s n =
    ap (λ (f : ℕ → Node). record g { nodes = f }) (fun_ext (node-flagged g bit s n))

-- A list that has the bit already changes nothing.
pub flagged_same :
    (g : Graph) (bit : ℕ) (s : List ℕ)
    → ((m : ℕ) → mem s m ≡ true → (g.nodes m).node_type bit ≡ true)
    → flagged g bit s ≡ g
unfolding flagged
flagged_same g bit s has =
    ap (λ (f : ℕ → Node). record g { nodes = f })
      (fun_ext
        (λ m. ap (λ (f : ℕ → Bool). record (g.nodes m) { node_type = f }) (fun_ext (λ b. old m b))))
  where
    old : (m b : ℕ) → (((b == bit) && mem s m) || (g.nodes m).node_type b) ≡ (g.nodes m).node_type b
    old m b = elim (Bool-cases (b == bit)) [
      | inl same ↦ elim (Bool-cases (mem s m)) [
        | inl listed ↦
            let e : b ≡ bit = (==_iff b bit).0 same in
            rw (same, listed) (sym (ap (g.nodes m).node_type e ∙ has m listed))
        | inr other ↦ rw (same, other)
      ]
      | inr other ↦ rw other
    ]

pub next-flagged : (g : Graph) (bit : ℕ) (s : List ℕ) → (flagged g bit s).next ≡ g.next
unfolding flagged
next-flagged g bit s = refl

pub flagged_or :
    (g : Graph) (bit : ℕ) (s : List ℕ) (m : ℕ)
    → ((flagged g bit s).nodes m).node_type bit ≡ (mem s m || (g.nodes m).node_type bit)
unfolding flagged
flagged_or g bit s m = rw (self_eq bit) refl

-- The bit of a node, where the list has the nodes that had it.
flagged_bit :
    (g : Graph) (bit : ℕ) (s : List ℕ) (m : ℕ)
    → ((g.nodes m).node_type bit ≡ true → mem s m ≡ true)
    → ((flagged g bit s).nodes m).node_type bit ≡ mem s m
unfolding flagged
flagged_bit g bit s m covers = elim (Bool-cases (mem s m)) [
  | inl listed ↦ rw (self_eq bit, listed)
  | inr other ↦ elim (Bool-cases ((g.nodes m).node_type bit)) [
    | inl had ↦ absurd (ground (arith, covers had, other))
    | inr none ↦ rw (self_eq bit, other, none)
  ]
]

edges-flagged : (g : Graph) (bit : ℕ) (s : List ℕ) (n : ℕ) → edges (flagged g bit s) n ≡ edges g n
unfolding flagged
edges-flagged g bit s n = refl

-- A list that has all nodes with a bit.
abbrev pub Covers : Graph → ℕ → List ℕ → Type 0
Covers g bit s = (m : ℕ) → (g.nodes m).node_type bit ≡ true → mem s m ≡ true

module _ (g : Graph) (linked : IsLinked g) where
  pub mark_incomplete_node-walk :
      (fuel : ℕ) (s : List ℕ) (n : ℕ)
      → Covers g incomplete_bit s
      → unseen g.next s < fuel
      → n < g.next
      → IsPlace g n
      → mark_incomplete_node fuel (flagged g incomplete_bit s) n
        ≡ returned (flagged g incomplete_bit (walk (targets g) fuel s n))
  unfolding mark_incomplete_node walk
  mark_incomplete_node-walk zero s n covers enough lt place = elim enough [ ]
  mark_incomplete_node-walk (suc fuel) s n covers enough lt place =
      let bit = flagged_bit g incomplete_bit s n (covers n) in
      elim (Bool-cases ((n == 0) || mem s n)) [
        | inl stop ↦ simp (bit, stop)
        | inr go ↦
            let new : mem s n ≡ false = ground (arith, go) in
            let less = unseen-cons g.next n s lt new in
            simp (bit, go, with_bit-flagged, edges-flagged)
              (mark_handles-walk_list g (λ t. t) (flagged g incomplete_bit)
                (get_node-flagged g incomplete_bit) fuel (λ t m. mark_incomplete_node fuel t m)
                (λ t m. walk (targets g) fuel t m) (walk_mono (targets g) fuel)
                (Covers g incomplete_bit)
                (λ t j keep m h. walk_mono (targets g) fuel t j m (keep m h))
                (λ t m keep more below at. mark_incomplete_node-walk fuel t m keep more below at)
                (edges g n) (n ∷ s) (λ m h. ground (arith, covers m h))
                (omega (arith, less, enough)) (linked n lt))
      ]

  pub mark_external_node-walk :
      (fuel : ℕ) (s : List ℕ) (n : ℕ)
      → unseen g.next s < fuel
      → n < g.next
      → IsPlace g n
      → mark_external_node fuel (flagged g external_bit s, s) n
        ≡ returned (flagged g external_bit (walk (targets g) fuel s n), walk (targets g) fuel s n)
  unfolding mark_external_node walk
  mark_external_node-walk zero s n enough lt place = elim enough [ ]
  mark_external_node-walk (suc fuel) s n enough lt place = elim (Bool-cases ((n == 0) || mem s n)) [
    | inl stop ↦ simp (stop)
    | inr go ↦
        let new : mem s n ≡ false = ground (arith, go) in
        let less = unseen-cons g.next n s lt new in
        simp (go, with_bit-flagged, edges-flagged)
          (mark_handles-walk_list g (λ t. t.0) (λ t. (flagged g external_bit t, t))
            (λ t h. get_node-flagged g external_bit t h) fuel (λ t m. mark_external_node fuel t m)
            (λ t m. walk (targets g) fuel t m) (walk_mono (targets g) fuel) (λ t. Unit {0})
            (λ t m keep. tt)
            (λ t m keep more below at. mark_external_node-walk fuel t m more below at) (edges g n)
            (n ∷ s) tt (omega (arith, less, enough)) (linked n lt))
  ]
