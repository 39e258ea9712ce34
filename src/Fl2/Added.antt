-- ===== src/Fl2/Added.antt =====
-- runtime/FL2Allocator/PoolAllocator.cpp: a node that `AddNodeToFreeList` puts on a list of a pool
-- whose pointers are addresses.
use poolalloc_3_1_upstreamed.Prelude.{
  ℕ, ◌≡◌, ◌≢◌, sym, true, false, List, [], ◌∷◌, ◌++◌, ◌==◌, arith, All-append, All-append_left,
  All-append_right,
}
use poolalloc_3_1_upstreamed.Prelude.Results.{returned}
use poolalloc_3_1_upstreamed.Fl2.Memory.{
  Traits, State, put, index_to_fnh_ptr, fnh_ptr_to_index, link_first, add_node_to_free_list,
}
use poolalloc_3_1_upstreamed.Fl2.Links.{IsAway, AreDistinct}
use poolalloc_3_1_upstreamed.Fl2.Relink.{prev_first, Linked-first, Linked-first_other}
use poolalloc_3_1_upstreamed.Fl2.Lists.{
  FreeLists, AreDistinct-append_left, AreDistinct-append_right, AreDistinct-across, All-swap,
}

-- A node in between distinct lists.
AreDistinct-between :
    (xs : List ℕ) (node : ℕ) (ys : List ℕ)
    → AreDistinct (xs ++ ys)
    → IsAway node (xs ++ ys)
    → AreDistinct (xs ++ node ∷ ys)
AreDistinct-between [] node ys apart away = (away, apart)
AreDistinct-between (x ∷ xs) node ys apart away = (
  All-append (λ a. a ≢ x) xs (node ∷ ys) (All-append_left (λ a. a ≢ x) xs ys apart.0)
      ((λ e. away.0 (sym e)), All-append_right (λ a. a ≢ x) xs ys apart.0),
  AreDistinct-between xs node ys apart.1 away.1,
)

-- The state with a node at the front of `ObjFreeList`, or of `OtherFreeList`.
abbrev pub with_object : State → ℕ → State
with_object s node = record s {
  next_at = put s.next_at node s.pool.obj_free_list;
  prev_at = prev_first s.prev_at node s.pool.obj_free_list;
  pool = record s.pool { obj_free_list = node };
}

abbrev pub with_other : State → ℕ → State
with_other s node = record s {
  next_at = put s.next_at node s.pool.other_free_list;
  prev_at = prev_first s.prev_at node s.pool.other_free_list;
  pool = record s.pool { other_free_list = node };
}

module _ (t : Traits) (plain : t.compressed ≡ false) where
  link_first-plain :
      (s : State) (node head : ℕ)
      → link_first t s node node head
        ≡ (record s { next_at = put s.next_at node head; prev_at = prev_first s.prev_at node head })
  unfolding link_first index_to_fnh_ptr
  link_first-plain s node head = simp (plain)

  pub add_node_to_free_list-object :
      (s : State) (node : ℕ) (objects others : List ℕ)
      → FreeLists s objects others
      → node ≢ 0
      → IsAway node (objects ++ others)
      → s.size_at node ≡ s.pool.declared_size
      → (add_node_to_free_list t s node ≡ returned (with_object s node))
        × FreeLists (with_object s node) (node ∷ objects) others
  unfolding add_node_to_free_list fnh_ptr_to_index
  add_node_to_free_list-object s node objects others lists nz away size =
      let same : (s.size_at node == s.pool.declared_size) ≡ true = ground arith in
      (
        simp (plain, same, link_first-plain),
        record {
          object_list =
              Linked-first s.next_at s.prev_at s.pool.obj_free_list node objects nz
                (All-append_left (λ a. a ≢ node) objects others away)
                (AreDistinct-append_left objects others lists.apart) lists.object_list;
          other_list =
              Linked-first_other s.next_at s.prev_at s.pool.obj_free_list node objects
                s.pool.other_free_list others (All-append_right (λ a. a ≢ node) objects others away)
                (AreDistinct-across objects others lists.apart) lists.object_list lists.other_list;
          apart = (away, lists.apart);
        },
      )

  pub add_node_to_free_list-other :
      (s : State) (node : ℕ) (objects others : List ℕ)
      → FreeLists s objects others
      → node ≢ 0
      → IsAway node (objects ++ others)
      → s.size_at node ≢ s.pool.declared_size
      → (add_node_to_free_list t s node ≡ returned (with_other s node))
        × FreeLists (with_other s node) objects (node ∷ others)
  unfolding add_node_to_free_list fnh_ptr_to_index
  add_node_to_free_list-other s node objects others lists nz away size =
      let different : (s.size_at node == s.pool.declared_size) ≡ false = ground arith in
      (
        simp (plain, different, link_first-plain),
        record {
          object_list =
              Linked-first_other s.next_at s.prev_at s.pool.other_free_list node others
                s.pool.obj_free_list objects (All-append_left (λ a. a ≢ node) objects others away)
                (All-swap objects others (AreDistinct-across objects others lists.apart))
                lists.other_list lists.object_list;
          other_list =
              Linked-first s.next_at s.prev_at s.pool.other_free_list node others nz
                (All-append_right (λ a. a ≢ node) objects others away)
                (AreDistinct-append_right objects others lists.apart) lists.other_list;
          apart = AreDistinct-between objects node others lists.apart away;
        },
      )
