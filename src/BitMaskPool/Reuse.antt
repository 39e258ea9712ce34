-- ===== src/BitMaskPool/Reuse.antt =====
-- runtime/PoolAllocator/PoolAllocatorBitMask.cpp: what `freeElement` leaves for the next call of
-- `allocateSingle`.
use native.Mathlib.Decide.{dec_le}
use poolalloc_3_1_upstreamed.Prelude.{
  ℕ, zero, suc, ◌+◌, ◌-◌, ◌≤◌, ◌<◌, ◌≡◌, ◌≢◌, ◌∙◌, inl, inr, true, false, some, ltb, leb, ◌==◌,
  if◌then◌else◌, arith, Bool-cases,
}
use poolalloc_3_1_upstreamed.Flags.{Flags}
use poolalloc_3_1_upstreamed.BitMaskPool.Slab.{
  PoolSlab, short, is_node_allocated, is_start_of_allocation, ok, assert_failed, free_rest,
  free_element, finish_free, lower_marks, shrink_used_end, allocate_single,
}
use poolalloc_3_1_upstreamed.BitMaskPool.Nodes.{last_allocated, last_node_allocated_lem}
use poolalloc_3_1_upstreamed.BitMaskPool.Alloc.{IsAccurate}
use poolalloc_3_1_upstreamed.BitMaskPool.Free.{opened, walked, free_element_steps}

last_allocated-used :
    (f : Flags) (n k : ℕ)
    → k < n
    → is_node_allocated f k ≡ true
    → (is_node_allocated f (last_allocated f n) ≡ true)
      × (k ≤ last_allocated f n)
      × (last_allocated f n < n)
unfolding last_allocated
last_allocated-used f zero k h u = absurd (omega arith)
last_allocated-used f (suc n) k h u = elim (Bool-cases (is_node_allocated f n)) [
  | inl top ↦ rw top (top, omega arith, omega arith)
  | inr free ↦ rw free (
      let below : k < n = ground arith in
      let (a, b, c) = last_allocated-used f n k below u in (a, b, omega arith))
]

last_allocated-below :
    (f : Flags) (n k : ℕ)
    → ((j : ℕ) → k ≤ j → j < n → is_node_allocated f j ≡ false)
    → 0 < k
    → last_allocated f n < k
unfolding last_allocated
last_allocated-below f zero k h pos = pos
last_allocated-below f (suc n) k h pos = elim (Bool-cases (is_node_allocated f n)) [
  | inl top ↦ rw top (elim (dec_le k n) [ yes le ↦ ground (arith, h n le) | no gt ↦ omega arith ])
  | inr free ↦ rw free (last_allocated-below f n k (λ j lo hi. h j lo (omega arith)) pos)
]

-- A slab in good order whose last node in use, `element`, is an allocation of its own, above a free
-- node, on which the `UsedBegin` mark stands nowhere near.
pub record IsTop (s : PoolSlab) (element : ℕ) : Type 0 where
  pub accurate : IsAccurate s
  pub plain : s.is_single_array ≡ false
  pub used : is_node_allocated s.flags element ≡ true
  pub start : is_start_of_allocation s.flags element ≡ true
  pub top : s.used_end ≡ element + 1
  pub hole : s.first_unused < element
  pub begin_ne : s.used_begin ≢ element
  pub begin_lt : s.used_begin < s.used_end

module _ (s : PoolSlab) (element : ℕ) (t : IsTop s element) where
  -- The slab after the marks are lowered.
  abbrev lowered : PoolSlab
  lowered = record s { flags = opened s.flags element }

  walked_top : walked s element t.plain t.used t.start ≡ (opened s.flags element, element + 1)
  unfolding free_rest
  walked_top = let e : s.used_end - (element + 1) ≡ 0 = omega (arith, t.top) in simp e

  free_element_top : free_element s element ≡ shrink_used_end lowered element s.used_end
  unfolding finish_free lower_marks
  free_element_top =
      free_element_steps s element t.plain t.used t.start
      ∙ rw walked_top (ground (arith, t.top, t.hole, t.begin_ne))

  -- The node that `lastNodeAllocated` finds.
  abbrev last : ℕ
  last = last_allocated (opened s.flags element) (element + 1)

  free_element-last : free_element s element ≡ (
      if leb s.first_unused last
      then ok (record lowered { used_end = short last })
      else assert_failed)
  unfolding shrink_used_end
  free_element-last =
      let begin : (s.used_begin == s.used_end) ≡ false = ground (arith, t.begin_lt) in
      let above : (s.first_unused == element) ≡ false = ground (arith, t.hole) in
      free_element_top
      ∙ simp (begin, above, last_node_allocated_lem (opened s.flags element) element)

  allocate_single-last :
      last < s.num_nodes_in_slab
      → (allocate_single (record lowered { used_end = last })).1 ≡ some last
  unfolding allocate_single
  allocate_single-last lt =
      let room : ltb last s.num_nodes_in_slab ≡ true = ground arith in simp (t.plain, room)

  -- In a slab in good order that is no single array, let the last node below UsedEnd be allocated,
  -- the start of an allocation and above FirstUnused, with UsedBegin below UsedEnd and at another
  -- node. If a node from FirstUnused on and below it is in use, freeElement of it returns, UsedEnd
  -- is then the number of a node in use, and the next allocateSingle hands that node out.
  pub free_element_reused :
      (k : ℕ)
      → s.first_unused ≤ k
      → k < element
      → is_node_allocated s.flags k ≡ true
      → (s' : PoolSlab) × (free_element s element ≡ ok s')
        × ((allocate_single s').1 ≡ some s'.used_end)
        × (is_node_allocated s'.flags s'.used_end ≡ true)
  free_element_reused k lo hi u =
      let (used, above, below) =
        last_allocated-used (opened s.flags element) (element + 1) k (omega arith) (ground arith) in
      let inside : last < s.num_nodes_in_slab = omega (arith, t.top, t.accurate.bounded) in
      let fits : leb s.first_unused last ≡ true = ground arith in
      let small : short last ≡ last = omega (arith, t.accurate.short_size) in
      (
        record lowered { used_end = last },
        free_element-last ∙ simp (fits, small),
        allocate_single-last inside,
        used,
      )

  -- In a slab in good order that is no single array, let the last node below UsedEnd be allocated,
  -- the start of an allocation and above FirstUnused, with UsedBegin below UsedEnd and at another
  -- node. If FirstUnused is positive and all nodes from it up to that one are free, the assert
  -- FirstUnused <= UsedEnd in freeElement of it fails.
  pub free_element_asserts :
      0 < s.first_unused
      → ((j : ℕ) → s.first_unused ≤ j → j < element → is_node_allocated s.flags j ≡ false)
      → free_element s element ≡ assert_failed
  free_element_asserts pos clear =
      let low =
        last_allocated-below (opened s.flags element) (element + 1) s.first_unused
          (λ j lo hi. ground (arith, clear j)) pos in
      let above : leb s.first_unused last ≡ false = ground (arith, low) in
      free_element-last ∙ simp above
