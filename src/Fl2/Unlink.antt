-- ===== src/Fl2/Unlink.antt =====
-- runtime/FL2Allocator/PoolAllocator.cpp: `UnlinkFreeNode` and `AddNodeToFreeList` on the two lists.
use mathlib.Core.Path.{subst}
use poolalloc_3_1_upstreamed.Prelude.{
  ℕ, ◌≡◌, ◌≢◌, ◌⊎◌, refl, ap, ◌∙◌, false, Bool-cases, inl, inr, List, [], ◌∷◌, ◌++◌, ◌==◌,
  if◌then◌else◌, arith, All-append_right,
}
use poolalloc_3_1_upstreamed.Prelude.Results.{returned, ◌>>=◌}
use poolalloc_3_1_upstreamed.Fl2.Memory.{Traits, State, add_node_to_free_list, unlink_free_node}
use poolalloc_3_1_upstreamed.Fl2.Links.{IsAway, put_self}
use poolalloc_3_1_upstreamed.Fl2.Lists.{
  AreDistinct-across, All-swap, FreeLists, without_object, without_other, unlink_free_node-object,
  unlink_free_node-other,
}
use poolalloc_3_1_upstreamed.Fl2.Added.{
  with_object, with_other, add_node_to_free_list-object, add_node_to_free_list-other,
}

abbrev pub Occurs : ℕ → List ℕ → Type 0
Occurs node [] = ⊥
Occurs node (x ∷ xs) = (x ≡ node) ⊎ Occurs node xs

-- A list less the first place of a node.
abbrev pub remove_node : ℕ → List ℕ → List ℕ
remove_node node [] = []
remove_node node (x ∷ xs) = if x == node then xs else x ∷ remove_node node xs

-- A list divided at a node that occurs in it.
abbrev pub Divided : ℕ → List ℕ → Type 0
Divided node l =
    (xs : List ℕ) × (ys : List ℕ) × (l ≡ xs ++ node ∷ ys) × (remove_node node l ≡ xs ++ ys)

pub divide : (node : ℕ) (l : List ℕ) → Occurs node l → Divided node l
divide node [] o = elim o [ ]
divide node (x ∷ l) o = elim (Bool-cases (x == node)) [
  | inl same ↦ ([], l, ap (λ a. a ∷ l) (ground arith), simp (same))
  | inr other ↦
      let (xs, ys, whole, less) = divide node l (later o (ground arith)) in
      (x ∷ xs, ys, ap (λ k. x ∷ k) whole, simp (other, less))
]
  where
    later : (x ≡ node) ⊎ Occurs node l → x ≢ node → Occurs node l
    later (inl e) ne = absurd (ne e)
    later (inr k) ne = k

remove_node-away : (node : ℕ) (l : List ℕ) → IsAway node l → remove_node node l ≡ l
remove_node-away node [] away = refl
remove_node-away node (x ∷ l) away =
    let other : (x == node) ≡ false = ground (arith, away.0) in
    simp (other, remove_node-away node l away.1)

module _ (t : Traits) (plain : t.compressed ≡ false) where
  -- UnlinkFreeNode of a node that is on one of the two lists of a pool whose pointers are addresses
  -- returns, takes it out of the lists and leaves the order of the rest and the sizes.
  pub unlink_free_node-FreeLists :
      (s : State) (node : ℕ) (objects others : List ℕ)
      → FreeLists s objects others
      → Occurs node objects ⊎ Occurs node others
      → (s' : State) × (unlink_free_node t s node ≡ returned s')
        × FreeLists s' (remove_node node objects) (remove_node node others)
        × (s'.size_at ≡ s.size_at)
  unlink_free_node-FreeLists s node objects others lists (inl o) =
      let (xs, ys, whole, less) = divide node objects o in
      let divided = subst (λ l. FreeLists s l others) whole lists in
      let (e, f) = unlink_free_node-object t plain s xs node ys others divided in
      let across = AreDistinct-across (xs ++ node ∷ ys) others divided.apart in
      let away = All-append_right (λ a. IsAway a others) xs (node ∷ ys) across in
      (without_object s xs node, e, rw (less, remove_node-away node others away.0) f, refl)
  unlink_free_node-FreeLists s node objects others lists (inr o) =
      let (xs, ys, whole, less) = divide node others o in
      let divided = subst (λ l. FreeLists s objects l) whole lists in
      let (e, f) = unlink_free_node-other t plain s objects xs node ys divided in
      let across =
        All-swap objects (xs ++ node ∷ ys)
          (AreDistinct-across objects (xs ++ node ∷ ys) divided.apart) in
      let away = All-append_right (λ a. IsAway a objects) xs (node ∷ ys) across in
      (without_other s xs node, e, rw (less, remove_node-away node objects away.0) f, refl)

  -- In a pool whose pointers are addresses a node that is not null and on neither list can be added
  -- by AddNodeToFreeList and unlinked again: both return, and behind both the lists are as before.
  pub unlink_free_node-add_node_to_free_list :
      (s : State) (node : ℕ) (objects others : List ℕ)
      → FreeLists s objects others
      → node ≢ 0
      → IsAway node (objects ++ others)
      → (s' : State) × ((add_node_to_free_list t s node >>= λ a. unlink_free_node t a node)
          ≡ returned s')
        × FreeLists s' objects others
        × (s'.pool ≡ s.pool)
  unlink_free_node-add_node_to_free_list s node objects others lists nz away =
      elim (Bool-cases (s.size_at node == s.pool.declared_size)) [
        | inl same ↦
            let (e, f) =
              add_node_to_free_list-object t plain s node objects others lists nz away
                (ground arith) in
            let (e', f') =
              unlink_free_node-object t plain (with_object s node) [] node objects others f in
            (
              without_object (with_object s node) [] node,
              ap (λ r. r >>= λ a. unlink_free_node t a node) e ∙ e',
              f',
              object_back,
            )
        | inr different ↦
            let (e, f) =
              add_node_to_free_list-other t plain s node objects others lists nz away
                (ground arith) in
            let (e', f') =
              unlink_free_node-other t plain (with_other s node) objects [] node others f in
            (
              without_other (with_other s node) [] node,
              ap (λ r. r >>= λ a. unlink_free_node t a node) e ∙ e',
              f',
              other_back,
            )
      ]
    where
      object_back : (without_object (with_object s node) [] node).pool ≡ s.pool
      object_back =
          ap (λ h. record s.pool { obj_free_list = h })
            (put_self s.next_at node s.pool.obj_free_list)

      other_back : (without_other (with_other s node) [] node).pool ≡ s.pool
      other_back =
          ap (λ h. record s.pool { other_free_list = h })
            (put_self s.next_at node s.pool.other_free_list)
