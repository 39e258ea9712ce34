-- ===== src/BitMaskPool/Free.antt =====
-- runtime/PoolAllocator/PoolAllocatorBitMask.cpp: the nodes that `freeElement` frees.
use poolalloc_3_1_upstreamed.Prelude.{
  ◌∙◌, ℕ, zero, suc, ◌+◌, ◌-◌, ◌≤◌, ◌<◌, ◌≡◌, refl, inl, inr, true, false, not, ◌&&◌, ltb, leb,
  ◌==◌, if◌then◌else◌, arith, Bool-cases,
}
use poolalloc_3_1_upstreamed.Flags.{Flags}
use poolalloc_3_1_upstreamed.BitMaskPool.Slab.{
  PoolSlab, is_node_allocated, mark_node_free, is_start_of_allocation, clear_start_bit, ok,
  free_rest, free_element, finish_free, lower_marks, shrink_used_end,
}

-- The nodes from `node` on, up to `end`, belong to one allocation; at `end` stands another, a free
-- node, or `limit`.
pub record IsRest (f : Flags) (node limit end : ℕ) : Type 0 where
  pub from : node ≤ end
  pub upto : end ≤ limit
  pub used : (j : ℕ) → node ≤ j → j < end → is_node_allocated f j ≡ true
  pub inner : (j : ℕ) → node ≤ j → j < end → is_start_of_allocation f j ≡ false
  pub border : end < limit → (not (is_start_of_allocation f end) && is_node_allocated f end) ≡ false

-- The nodes from `node` up to `end` are freed; no other node, and no start bit, changes.
pub record IsCleared (f f' : Flags) (node end : ℕ) : Type 0 where
  pub nodes :
      (j : ℕ)
      → is_node_allocated f' j ≡ (if leb node j && ltb j end then false else is_node_allocated f j)
  pub starts : (j : ℕ) → is_start_of_allocation f' j ≡ is_start_of_allocation f j

free_rest_lem :
    (f : Flags) (node left limit : ℕ)
    → node + left ≡ limit
    → IsRest f node limit (free_rest f node left).1
      × IsCleared f (free_rest f node left).0 node (free_rest f node left).1
unfolding free_rest
free_rest_lem f node zero limit e =
    (ground arith, record { nodes = λ j. ground arith; starts = λ j. refl })
free_rest_lem f node (suc left) limit e =
    elim (Bool-cases (not (is_start_of_allocation f node) && is_node_allocated f node)) [
      | inr stop ↦ rw stop (
        record {
          from = omega arith;
          upto = omega arith;
          used = λ j lo hi. absurd (omega arith);
          inner = λ j lo hi. absurd (omega arith);
          border = λ h. stop;
        },
        record { nodes = λ j. ground arith; starts = λ j. refl },
      )
      | inl more ↦ rw more (
          let (rest, gone) =
            free_rest_lem (mark_node_free f node) (node + 1) left limit (omega arith) in
          (
            record {
              from = omega (arith, rest.from);
              upto = rest.upto;
              used = λ j lo hi. ground (arith, rest.used j);
              inner = λ j lo hi. ground (arith, rest.inner j);
              border = λ h. ground (arith, rest.border h, rest.from);
            },
            record {
              nodes = λ j. ground (arith, gone.nodes j, rest.from);
              starts = λ j. ground (arith, gone.starts j);
            },
          ))
    ]

-- What `freeElement` does to the bits of the slab.
pub record IsFreed (s s' : PoolSlab) (element end : ℕ) : Type 0 where
  pub rest : IsRest s.flags (element + 1) s.used_end end
  pub nodes :
      (j : ℕ)
      → is_node_allocated s'.flags j
        ≡ (if leb element j && ltb j end then false else is_node_allocated s.flags j)
  pub starts :
      (j : ℕ)
      → is_start_of_allocation s'.flags j
        ≡ (if j == element then false else is_start_of_allocation s.flags j)

flags-finish_free :
    (t : PoolSlab) (element end : ℕ) {s' : PoolSlab}
    → finish_free t element end ≡ ok s'
    → s'.flags ≡ t.flags
unfolding finish_free shrink_used_end
flags-finish_free t element end h = ground arith

-- The flags before the loop.
abbrev pub opened : Flags → ℕ → Flags
opened f e = mark_node_free (clear_start_bit (mark_node_free f e) e) e

module _ (s : PoolSlab) (element : ℕ) (plain : s.is_single_array ≡ false)
    (used : is_node_allocated s.flags element ≡ true)
    (start : is_start_of_allocation s.flags element ≡ true) where
  abbrev pub walked : Flags × ℕ
  walked = free_rest (opened s.flags element) (element + 1) (s.used_end - (element + 1))

  -- Where the asserts on the element hold, the rest is the loop and what follows it.
  pub free_element_steps :
      free_element s element ≡ finish_free (lower_marks s element walked) element walked.1
  unfolding free_element
  free_element_steps =
      let still : is_start_of_allocation (mark_node_free s.flags element) element ≡ true =
        ground arith in
      simp (used, plain, still)

  IsFreed-walked :
      (s' : PoolSlab) → element < s.used_end → s'.flags ≡ walked.0 → IsFreed s s' element walked.1
  IsFreed-walked s' below e =
      let (rest, gone) =
        free_rest_lem (opened s.flags element) (element + 1) (s.used_end - (element + 1)) s.used_end
          (omega arith) in
      record {
        rest = record {
          from = rest.from;
          upto = rest.upto;
          used = λ j lo hi. ground (arith, rest.used j);
          inner = λ j lo hi. ground (arith, rest.inner j);
          border = λ h. ground (arith, rest.border h, rest.from);
        };
        nodes = λ j. rw e (ground (arith, gone.nodes j, rest.from));
        starts = λ j. rw e (ground (arith, gone.starts j));
      }

  -- `freeElement` of an element below `UsedEnd` that is the start of an allocation, in a slab that is
  -- no single array: where it returns, it has freed the nodes of that allocation, up to the next
  -- start, free node or `UsedEnd`, and cleared its start bit; all other bits stay.
  pub free_element-IsFreed :
      {s' : PoolSlab}
      → element < s.used_end
      → free_element s element ≡ ok s'
      → (end : ℕ) × IsFreed s s' element end
  unfolding lower_marks
  free_element-IsFreed {s'} below h = (
    walked.1,
    IsFreed-walked s' below (
        flags-finish_free (lower_marks s element walked) element walked.1
          (rw free_element_steps at h)),
  )

-- The cases in which no assert fails behind the loop.
pub data Settles (s : PoolSlab) (element : ℕ) : Type 0 where
  first_free : element ≤ s.first_unused → Settles s element
  first_used : element ≡ s.used_begin → Settles s element
  inside :
      (k : ℕ)
      → element < k
      → k < s.used_end
      → is_start_of_allocation s.flags k ≡ true
      → Settles s element

finish_free-first_unused :
    (t : PoolSlab) (element end : ℕ)
    → t.first_unused ≡ element
    → (s' : PoolSlab) × (finish_free t element end ≡ ok s')
unfolding finish_free shrink_used_end
finish_free-first_unused t element end e = elim (Bool-cases (end == t.used_end)) [
  | inr more ↦ (t, simp (more))
  | inl last ↦ elim (Bool-cases (t.used_begin == t.used_end)) [
    | inl whole ↦ (record t { first_unused = 0; used_begin = 0; used_end = 0 }, simp (last, whole))
    | inr some_left ↦
        let same : (t.first_unused == element) ≡ true = ground arith in
        (record t { first_unused = element; used_end = element }, simp (last, some_left, same))
  ]
]

finish_free-used_begin :
    (t : PoolSlab) (element end : ℕ)
    → t.used_begin ≡ end
    → (s' : PoolSlab) × (finish_free t element end ≡ ok s')
unfolding finish_free shrink_used_end
finish_free-used_begin t element end e = elim (Bool-cases (end == t.used_end)) [
  | inr more ↦ (t, simp (more))
  | inl last ↦
      let whole : (t.used_begin == t.used_end) ≡ true = ground arith in
      (record t { first_unused = 0; used_begin = 0; used_end = 0 }, simp (last, whole))
]

finish_free-inside :
    (t : PoolSlab) (element end : ℕ) → end < t.used_end → finish_free t element end ≡ ok t
unfolding finish_free
finish_free-inside t element end lt = ground arith

module _ (s : PoolSlab) (element : ℕ) (plain : s.is_single_array ≡ false)
    (used : is_node_allocated s.flags element ≡ true)
    (start : is_start_of_allocation s.flags element ≡ true) (below : element < s.used_end) where
  abbrev freed : Flags × ℕ
  freed = walked s element plain used start

  finish_free-Settles :
      Settles s element
      → (s' : PoolSlab) × (finish_free (lower_marks s element freed) element freed.1 ≡ ok s')
  unfolding lower_marks
  finish_free-Settles (first_free le) =
      finish_free-first_unused (lower_marks s element freed) element freed.1 (ground arith)
  finish_free-Settles (first_used e) =
      finish_free-used_begin (lower_marks s element freed) element freed.1 (ground arith)
  finish_free-Settles (inside k lo hi first) =
      let is =
        IsFreed-walked s element plain used start (record s { flags = freed.0 }) below refl in
      let before : freed.1 ≤ k = ground (arith, is.rest.inner k) in
      (
        lower_marks s element freed,
        finish_free-inside (lower_marks s element freed) element freed.1 (omega (arith, before)),
      )

  -- freeElement of an allocated element below UsedEnd that is the start of an allocation, in a slab
  -- that is no single array, returns, if the element is not above FirstUnused, or is at UsedBegin,
  -- or another allocation starts behind it and below UsedEnd; and it has then freed exactly the
  -- nodes of its allocation.
  pub free_element-Settles :
      Settles s element
      → (s' : PoolSlab) × (end : ℕ) × (free_element s element ≡ ok s') × IsFreed s s' element end
  free_element-Settles h =
      let (s', e) = finish_free-Settles h in
      let returns : free_element s element ≡ ok s' =
        free_element_steps s element plain used start ∙ e in
      let (end, is) = free_element-IsFreed s element plain used start below returns in
      (s', end, returns, is)
