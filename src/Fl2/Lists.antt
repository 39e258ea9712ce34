-- ===== src/Fl2/Lists.antt =====
-- runtime/FL2Allocator/PoolAllocator.cpp: the two free lists of a pool whose pointers are addresses.
use poolalloc_3_1_upstreamed.Prelude.{
  ℕ, ◌≡◌, ◌≢◌, sym, ◌∙◌, true, false, Bool-cases, inl, inr, List, [], ◌∷◌, ◌++◌, ◌==◌,
  if◌then◌else◌, arith, All, All-mono, All-append, All-append_left, All-append_right, append_assoc,
}
use poolalloc_3_1_upstreamed.Prelude.Results.{returned}
use poolalloc_3_1_upstreamed.Fl2.Memory.{
  Traits, State, put, index_to_fnh_ptr, fnh_ptr_to_index, relink_next, relink_prev, relink_head,
  unlink_free_node,
}
use poolalloc_3_1_upstreamed.Fl2.Links.{
  Linked, IsAway, AreDistinct, start_without, prev_without, prev-ne,
}
use poolalloc_3_1_upstreamed.Fl2.Relink.{
  Linked-IsAway_zero, next_unlinked, Linked-unlinked, Linked-unlinked_other,
}

-- The nodes of `ObjFreeList`, and those of `OtherFreeList`: no node is on a list twice, or on both.
pub record FreeLists (s : State) (objects others : List ℕ) : Type 0 where
  pub object_list : Linked s.next_at s.prev_at 0 s.pool.obj_free_list objects
  pub other_list : Linked s.next_at s.prev_at 0 s.pool.other_free_list others
  pub apart : AreDistinct (objects ++ others)

pub AreDistinct-append_left : (xs ys : List ℕ) → AreDistinct (xs ++ ys) → AreDistinct xs
AreDistinct-append_left [] ys h = tt
AreDistinct-append_left (x ∷ xs) ys h =
    (All-append_left (λ a. a ≢ x) xs ys h.0, AreDistinct-append_left xs ys h.1)

pub AreDistinct-append_right : (xs ys : List ℕ) → AreDistinct (xs ++ ys) → AreDistinct ys
AreDistinct-append_right [] ys h = h
AreDistinct-append_right (x ∷ xs) ys h = AreDistinct-append_right xs ys h.1

-- The nodes of the first list are away from the second.
pub AreDistinct-across : (xs ys : List ℕ) → AreDistinct (xs ++ ys) → All (λ a. IsAway a ys) xs
AreDistinct-across [] ys h = tt
AreDistinct-across (x ∷ xs) ys h =
    (All-append_right (λ a. a ≢ x) xs ys h.0, AreDistinct-across xs ys h.1)

IsAway-sym : (a : ℕ) (ys : List ℕ) → IsAway a ys → All (λ b. a ≢ b) ys
IsAway-sym a ys h = All-mono (λ b. b ≢ a) (λ b. a ≢ b) ys (λ b ne e. ne (sym e)) h

pub All-swap : (xs ys : List ℕ) → All (λ a. IsAway a ys) xs → All (λ b. IsAway b xs) ys
All-swap xs [] h = tt
All-swap xs (y ∷ ys) h = (
  All-mono (λ a. IsAway a (y ∷ ys)) (λ a. a ≢ y) xs (λ a k e. k.0 (sym e)) h,
  All-swap xs ys (All-mono (λ a. IsAway a (y ∷ ys)) (λ a. IsAway a ys) xs (λ a k. k.1) h),
)

-- Distinct lists less a node.
pub AreDistinct-without :
    (xs : List ℕ) (node : ℕ) (ys : List ℕ) → AreDistinct (xs ++ node ∷ ys) → AreDistinct (xs ++ ys)
AreDistinct-without [] node ys h = h.1
AreDistinct-without (x ∷ xs) node ys h = (
  All-append (λ a. a ≢ x) xs ys (All-append_left (λ a. a ≢ x) xs (node ∷ ys) h.0)
      (All-append_right (λ a. a ≢ x) xs (node ∷ ys) h.0).1,
  AreDistinct-without xs node ys h.1,
)

-- What `UnlinkFreeNode` does to the memory.
abbrev pub unlinked : State → ℕ → State
unlinked s node = record s {
  next_at = next_unlinked s.next_at s.prev_at node;
  prev_at = prev_without s.next_at s.prev_at node;
}

-- The state less a node of `ObjFreeList`, or of `OtherFreeList`.
abbrev pub without_object : State → List ℕ → ℕ → State
without_object s xs node = record (unlinked s node) {
  pool = record s.pool { obj_free_list = start_without s.next_at s.pool.obj_free_list xs node };
}

abbrev pub without_other : State → List ℕ → ℕ → State
without_other s xs node = record (unlinked s node) {
  pool = record s.pool { other_free_list = start_without s.next_at s.pool.other_free_list xs node };
}

module _ (t : Traits) (plain : t.compressed ≡ false) where
  relink_next-if :
      (s : State) (node : ℕ)
      → relink_next t s node ≡ (record s {
        prev_at =
            if s.next_at node == 0
            then s.prev_at
            else put s.prev_at (s.next_at node) (s.prev_at node);
      })
  unfolding relink_next index_to_fnh_ptr
  relink_next-if s node = elim (Bool-cases (s.next_at node == 0)) [
    | inl last ↦ simp (last)
    | inr more ↦ simp (more, plain)
  ]

  unlink_free_node-first :
      (s : State) (node : ℕ)
      → s.prev_at node ≡ 0
      → s.pool.obj_free_list ≡ node
      → unlink_free_node t s node
        ≡ returned
            (record (unlinked s node) { pool = record s.pool { obj_free_list = s.next_at node } })
  unfolding unlink_free_node relink_prev relink_head fnh_ptr_to_index
  unlink_free_node-first s node none_before head =
      let first : (s.prev_at node == 0) ≡ true = ground arith in
      let same : (s.pool.obj_free_list == node) ≡ true = ground arith in
      simp (first, plain, same, relink_next-if)

  unlink_free_node-first_other :
      (s : State) (node : ℕ)
      → s.prev_at node ≡ 0
      → s.pool.obj_free_list ≢ node
      → s.pool.other_free_list ≡ node
      → unlink_free_node t s node
        ≡ returned
            (record (unlinked s node) { pool = record s.pool { other_free_list = s.next_at node } })
  unfolding unlink_free_node relink_prev relink_head fnh_ptr_to_index
  unlink_free_node-first_other s node none_before ne head =
      let first : (s.prev_at node == 0) ≡ true = ground arith in
      let not_object : (s.pool.obj_free_list == node) ≡ false = ground arith in
      let same : (s.pool.other_free_list == node) ≡ true = ground arith in
      simp (first, plain, not_object, same, relink_next-if)

  unlink_free_node-later :
      (s : State) (node : ℕ)
      → s.prev_at node ≢ 0
      → node ≢ s.prev_at node
      → unlink_free_node t s node ≡ returned (unlinked s node)
  unfolding unlink_free_node relink_prev index_to_fnh_ptr
  unlink_free_node-later s node some_before ne =
      let later : (s.prev_at node == 0) ≡ false = ground arith in
      let kept : (node == s.prev_at node) ≡ false = ground arith in
      simp (later, plain, relink_next-if, kept)

  later_in_list :
      (s : State) (h x : ℕ) (xs : List ℕ) (node : ℕ) (ys : List ℕ)
      → Linked s.next_at s.prev_at 0 h (x ∷ xs ++ node ∷ ys)
      → AreDistinct (x ∷ xs ++ node ∷ ys)
      → unlink_free_node t s node ≡ returned (unlinked s node)
  later_in_list s h x xs node ys l apart =
      let away = Linked-IsAway_zero s.next_at s.prev_at x (s.next_at x) (xs ++ node ∷ ys) l.3 in
      let across = AreDistinct-across (x ∷ xs) (node ∷ ys) apart in
      let before =
        All-mono (λ a. IsAway a (node ∷ ys)) (λ a. a ≢ node) (x ∷ xs) (λ a k e. k.0 (sym e))
          across in
      let nz =
        prev-ne s.next_at s.prev_at x (s.next_at x) xs node ys 0 l.3 l.1
          (All-append_left (λ a. a ≢ 0) xs (node ∷ ys) away) in
      let ne = prev-ne s.next_at s.prev_at x (s.next_at x) xs node ys node l.3 before.0 before.1 in
      unlink_free_node-later s node nz (λ e. ne (sym e))

  pub unlink_free_node-object :
      (s : State) (xs : List ℕ) (node : ℕ) (ys others : List ℕ)
      → FreeLists s (xs ++ node ∷ ys) others
      → (unlink_free_node t s node ≡ returned (without_object s xs node))
        × FreeLists (without_object s xs node) (xs ++ ys) others
  unlink_free_node-object s xs node ys others lists =
      let own = AreDistinct-append_left (xs ++ node ∷ ys) others lists.apart in
      let across = AreDistinct-across (xs ++ node ∷ ys) others lists.apart in
      (
        unlinks xs lists.object_list own,
        record {
          object_list =
              Linked-unlinked s.next_at s.prev_at s.pool.obj_free_list xs node ys lists.object_list
                own;
          other_list =
              Linked-unlinked_other s.next_at s.prev_at s.pool.obj_free_list xs node ys
                s.pool.other_free_list others lists.object_list across lists.other_list;
          apart = rw (append_assoc xs ys others) (
              AreDistinct-without xs node (ys ++ others)
                (rw (append_assoc xs (node ∷ ys) others) at lists.apart));
        },
      )
    where
      unlinks :
          (xs : List ℕ)
          → Linked s.next_at s.prev_at 0 s.pool.obj_free_list (xs ++ node ∷ ys)
          → AreDistinct (xs ++ node ∷ ys)
          → unlink_free_node t s node ≡ returned (without_object s xs node)
      unlinks [] l apart = unlink_free_node-first s node l.2 l.0
      unlinks (x ∷ xs) l apart = later_in_list s s.pool.obj_free_list x xs node ys l apart

  pub unlink_free_node-other :
      (s : State) (objects xs : List ℕ) (node : ℕ) (ys : List ℕ)
      → FreeLists s objects (xs ++ node ∷ ys)
      → (unlink_free_node t s node ≡ returned (without_other s xs node))
        × FreeLists (without_other s xs node) objects (xs ++ ys)
  unlink_free_node-other s objects xs node ys lists =
      let own = AreDistinct-append_right objects (xs ++ node ∷ ys) lists.apart in
      let across =
        All-swap objects (xs ++ node ∷ ys)
          (AreDistinct-across objects (xs ++ node ∷ ys) lists.apart) in
      (
        unlinks objects xs lists.object_list across lists.other_list own,
        record {
          object_list =
              Linked-unlinked_other s.next_at s.prev_at s.pool.other_free_list xs node ys
                s.pool.obj_free_list objects lists.other_list across lists.object_list;
          other_list =
              Linked-unlinked s.next_at s.prev_at s.pool.other_free_list xs node ys lists.other_list
                own;
          apart = rw (sym (append_assoc objects xs ys)) (
              AreDistinct-without (objects ++ xs) node ys
                (rw (sym (append_assoc objects xs (node ∷ ys))) at lists.apart));
        },
      )
    where
      object_ne :
          (objects : List ℕ)
          → Linked s.next_at s.prev_at 0 s.pool.obj_free_list objects
          → IsAway node objects
          → node ≢ 0
          → s.pool.obj_free_list ≢ node
      object_ne [] l away nz e = nz (sym e ∙ l)
      object_ne (x ∷ objects) l away nz e = away.0 (sym l.0 ∙ e)

      unlinks :
          (objects xs : List ℕ)
          → Linked s.next_at s.prev_at 0 s.pool.obj_free_list objects
          → All (λ a. IsAway a objects) (xs ++ node ∷ ys)
          → Linked s.next_at s.prev_at 0 s.pool.other_free_list (xs ++ node ∷ ys)
          → AreDistinct (xs ++ node ∷ ys)
          → unlink_free_node t s node ≡ returned (without_other s xs node)
      unlinks objects [] o across l apart =
          unlink_free_node-first_other s node l.2 (object_ne objects o across.0 l.1) l.0
      unlinks objects (x ∷ xs) o across l apart =
          later_in_list s s.pool.other_free_list x xs node ys l apart
