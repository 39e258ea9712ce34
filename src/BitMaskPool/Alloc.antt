-- ===== src/BitMaskPool/Alloc.antt =====
-- runtime/PoolAllocator/PoolAllocatorBitMask.cpp: `allocateSingle` on a slab in good order.
use native.Mathlib.Decide.{dec_le}
use poolalloc_3_1_upstreamed.Prelude.{
  ℕ, ◌+◌, ◌-◌, ◌^◌, ◌≤◌, ◌<◌, ◌≡◌, inl, inr, true, false, some, ltb, ◌==◌, if◌then◌else◌, arith,
  Bool-cases,
}
use poolalloc_3_1_upstreamed.Flags.{Flags}
use poolalloc_3_1_upstreamed.BitMaskPool.Slab.{
  PoolSlab, short, is_node_allocated, mark_node_allocated, set_start_bit, allocate_single,
  reuse_first, is_full,
}
use poolalloc_3_1_upstreamed.BitMaskPool.Nodes.{skip_allocated_lem}

-- The marks of a slab agree with its bits: below `FirstUnused` all nodes are in use, `FirstUnused`
-- is free unless it is the end, and from `UsedEnd` on all nodes are free.
pub record IsAccurate (s : PoolSlab) : Type 0 where
  pub ordered : s.first_unused ≤ s.used_end
  pub bounded : s.used_end ≤ s.num_nodes_in_slab
  pub short_size : s.num_nodes_in_slab < 2 ^ 16
  pub filled : (i : ℕ) → i < s.first_unused → is_node_allocated s.flags i ≡ true
  pub first_free :
      s.first_unused < s.num_nodes_in_slab → is_node_allocated s.flags s.first_unused ≡ false
  pub end_free : (i : ℕ) → s.used_end ≤ i → is_node_allocated s.flags i ≡ false

-- `idx` was free and is in use now; no other node changed.
pub record IsTaken (s s' : PoolSlab) (idx : ℕ) : Type 0 where
  pub inside : idx < s.num_nodes_in_slab
  pub was_free : is_node_allocated s.flags idx ≡ false
  pub now_used : is_node_allocated s'.flags idx ≡ true
  pub others :
      (i : ℕ) → (i == idx) ≡ false → is_node_allocated s'.flags i ≡ is_node_allocated s.flags i

abbrev marked : Flags → ℕ → Flags
marked f i = set_start_bit (mark_node_allocated f i) i

-- What `allocateSingle` does where there is room at the end.
abbrev extended : PoolSlab → PoolSlab
extended s = record s {
  flags = marked s.flags s.used_end;
  first_unused =
      if s.first_unused == s.used_end then short (s.first_unused + 1) else s.first_unused;
  used_end = short (s.used_end + 1);
}

module _ (s : PoolSlab) (v : IsAccurate s) where
  module _ (room : s.used_end < s.num_nodes_in_slab) where
    extended-IsTaken : IsTaken s (extended s) s.used_end
    extended-IsTaken = record {
      inside = room;
      was_free = v.end_free s.used_end (omega arith);
      now_used = ground arith;
      others = λ i ne. ground arith;
    }

    short_end : short (s.used_end + 1) ≡ s.used_end + 1
    short_end = omega (arith, v.short_size)

    extended-IsAccurate : IsAccurate (extended s)
    extended-IsAccurate = record {
      ordered = ground (arith, v.ordered, v.short_size);
      bounded = omega (arith, v.short_size);
      short_size = v.short_size;
      filled = λ i lt. ground (arith, v.filled i, v.short_size, v.ordered);
      first_free =
          λ h. ground (arith, v.first_free, v.end_free (s.used_end + 1), v.short_size, v.ordered);
      end_free = λ i ge. ground (arith, v.end_free i, v.short_size);
    }

  reuse_first-IsTaken :
      s.first_unused < s.num_nodes_in_slab → IsTaken s (reuse_first s) s.first_unused
  unfolding reuse_first
  reuse_first-IsTaken h = record {
    inside = h;
    was_free = v.first_free h;
    now_used = ground arith;
    others = λ i ne. ground arith;
  }

  reuse_first-IsAccurate :
      s.first_unused < s.num_nodes_in_slab
      → s.used_end ≡ s.num_nodes_in_slab
      → IsAccurate (reuse_first s)
  unfolding reuse_first
  reuse_first-IsAccurate h e =
      let next =
        skip_allocated_lem (marked s.flags s.first_unused) (s.first_unused + 1)
          (s.num_nodes_in_slab - (s.first_unused + 1)) s.num_nodes_in_slab (omega arith) in
      record {
        ordered = omega (arith, next.upto);
        bounded = v.bounded;
        short_size = v.short_size;
        filled = λ i lt. elim (dec_le (s.first_unused + 1) i) [
          | yes far ↦ next.taken i far lt
          | no near ↦ ground (arith, v.filled i)
        ];
        first_free = next.free;
        end_free = λ i ge. ground (arith, v.end_free i);
      }

  module _ (h : is_full s ≡ false) where
    at_end :
        ltb s.used_end s.num_nodes_in_slab ≡ true
        → allocate_single s ≡ (extended s, some s.used_end)
    unfolding allocate_single is_full
    at_end room = let plain : s.is_single_array ≡ false = ground arith in rw (plain, room)

    at_first :
        ltb s.used_end s.num_nodes_in_slab ≡ false
        → allocate_single s ≡ (reuse_first s, some s.first_unused)
    unfolding allocate_single is_full
    at_first none_left =
        let plain : s.is_single_array ≡ false = ground arith in
        let room : ltb s.first_unused s.num_nodes_in_slab ≡ true =
          ground (arith, v.ordered, v.bounded) in
        rw (plain, none_left, room)

    -- On a slab in good order that is not full, `allocateSingle` hands out one node that was free,
    -- marks it and no other, and leaves the slab in good order.
    pub allocate_single-IsTaken :
        (idx : ℕ) × ((allocate_single s).1 ≡ some idx)
        × IsTaken s (allocate_single s).0 idx
        × IsAccurate (allocate_single s).0
    unfolding is_full
    allocate_single-IsTaken = elim (Bool-cases (ltb s.used_end s.num_nodes_in_slab)) [
      | inl room ↦
          let lt : s.used_end < s.num_nodes_in_slab = ground arith in
          let eq = at_end room in
          (s.used_end, rw eq, rw eq (extended-IsTaken lt), rw eq (extended-IsAccurate lt))
      | inr none_left ↦
          let lt : s.first_unused < s.num_nodes_in_slab = ground (arith, v.ordered, v.bounded) in
          let full : s.used_end ≡ s.num_nodes_in_slab = ground (arith, v.bounded) in
          let eq = at_first none_left in
          (
            s.first_unused,
            rw eq,
            rw eq (reuse_first-IsTaken lt),
            rw eq (reuse_first-IsAccurate lt full),
          )
    ]
