-- ===== src/BitMaskPool/AllocMany.antt =====
-- runtime/PoolAllocator/PoolAllocatorBitMask.cpp: `allocateMultiple` on a slab in good order.
use native.Mathlib.Decide.{dec_le}
use poolalloc_3_1_upstreamed.Prelude.{
  ℕ, zero, suc, ◌+◌, ◌-◌, ◌^◌, ◌≤◌, ◌<◌, ◌≡◌, refl, inl, inr, true, false, ◌&&◌, Option, none, some,
  ltb, leb, ◌==◌, arith, Bool-cases,
}
use poolalloc_3_1_upstreamed.Flags.{Flags}
use poolalloc_3_1_upstreamed.BitMaskPool.Slab.{
  PoolSlab, is_node_allocated, set_start_bit, wrap, skip_run, last_unused, Search, found, nowhere,
  find_run, take_run, Checked, ok, mark_range, allocate_multiple,
}
use poolalloc_3_1_upstreamed.BitMaskPool.Nodes.{allocated-mark_range, allocated-start}
use poolalloc_3_1_upstreamed.BitMaskPool.Alloc.{IsAccurate}

-- The nodes from `r` on, `size` of them, are free.
abbrev pub IsFreeRun : Flags → ℕ → ℕ → Type 0
IsFreeRun f r size = (j : ℕ) → r ≤ j → j < r + size → is_node_allocated f j ≡ false

record Stretch (f : Flags) (node end r : ℕ) : Type 0 where
  from : node ≤ r
  upto : r ≤ end
  clear : (j : ℕ) → node ≤ j → j < r → is_node_allocated f j ≡ false
  taken : r < end → is_node_allocated f r ≡ true

last_unused_lem :
    (f : Flags) (node left end : ℕ)
    → node + left ≡ end
    → end < 2 ^ 32
    → Stretch f node end (last_unused f node left)
unfolding last_unused
last_unused_lem f node zero end e small = ground arith
last_unused_lem f node (suc left) end e small = elim (Bool-cases (is_node_allocated f node)) [
  | inl taken ↦ rw taken (ground arith)
  | inr clear ↦
      let next : wrap (node + 1) ≡ node + 1 = omega arith in
      let rest = last_unused_lem f (node + 1) left end (omega arith) small in
      rw (clear, next)
        (record {
          from = omega (arith, rest.from);
          upto = rest.upto;
          clear = λ j lo hi. elim (dec_le j node) [
            | yes here ↦ let same : j ≡ node = omega arith in rw same clear
            | no later ↦ rest.clear j (omega arith) hi
          ];
          taken = rest.taken;
        })
]

-- A run that cannot be had: one of its nodes is in use.
abbrev pub IsBlocked : Flags → ℕ → ℕ → Type 0
IsBlocked f r size = (j : ℕ) × (r ≤ j) × (j < r + size) × (is_node_allocated f j ≡ true)

-- What the search over the nodes from `idx` on comes to.
data Found (f : Flags) (total size idx : ℕ) : Search → Type 0 where
  at : (r : ℕ) → idx ≤ r → r + size ≤ total → IsFreeRun f r size → Found f total size idx (found r)
  none_there :
      ((r : ℕ) → idx ≤ r → r + size ≤ total → IsBlocked f r size) → Found f total size idx nowhere

-- Where the inner loop goes: the first free node, or one behind which there is no room.
record IsNextRun (f : Flags) (total size node r : ℕ) : Type 0 where
  from : node ≤ r
  upto : r ≤ total
  taken : (j : ℕ) → node ≤ j → j < r → is_node_allocated f j ≡ true
  free : r + size ≤ total → is_node_allocated f r ≡ false

module _ (f : Flags) (total size : ℕ) (pos : 0 < size) (small : total + size < 2 ^ 32) where
  skip_run_lem :
      (node left : ℕ)
      → node ≤ total
      → total < node + left
      → IsNextRun f total size node (skip_run f total size node left)
  unfolding skip_run
  skip_run_lem node zero b enough = absurd (omega arith)
  skip_run_lem node (suc left) b enough =
      let sum : wrap (node + size) ≡ node + size = omega arith in
      let next : wrap (node + 1) ≡ node + 1 = omega arith in
      elim (Bool-cases (leb (node + size) total && is_node_allocated f node)) [
        | inl goes ↦
            let room : node + 1 ≤ total = ground arith in
            let rest = skip_run_lem (node + 1) left room (omega arith) in
            rw (sum, next, goes)
              (record {
                from = omega (arith, rest.from);
                upto = rest.upto;
                taken = λ j lo hi. elim (dec_le j node) [
                  | yes here ↦ let same : j ≡ node = omega arith in rw same (ground (arith, goes))
                  | no after ↦ rest.taken j (omega arith) hi
                ];
                free = rest.free;
              })
        | inr stays ↦
            rw (sum, next, stays)
              (record {
                from = omega arith;
                upto = b;
                taken = λ j lo hi. absurd (omega arith);
                free = λ h. ground (arith, stays);
              })
      ]

  later :
      (idx next : ℕ) {o : Search}
      → idx ≤ next
      → ((r : ℕ) → idx ≤ r → r < next → r + size ≤ total → IsBlocked f r size)
      → Found f total size next o
      → Found f total size idx o
  later idx next lo blocked (at r h k free) = at r (omega arith) k free
  later idx next lo blocked (none_there all) = none_there λ r h k. elim (dec_le next r) [
    | yes far ↦ all r far k
    | no near ↦ blocked r h (omega arith) k
  ]

  find_run-Found :
      (fuel idx : ℕ)
      → idx ≤ total
      → total < idx + fuel
      → (idx + size ≤ total → is_node_allocated f idx ≡ false)
      → Found f total size idx (find_run fuel f total size idx)
  unfolding find_run
  find_run-Found zero idx b h free = absurd (omega arith)
  find_run-Found (suc fuel) idx b h free =
      let sum : wrap (idx + size) ≡ idx + size = omega arith in
      let rounds : wrap (size + (2 ^ 32 - 1)) ≡ size - 1 = omega arith in
      elim (Bool-cases (leb (idx + size) total)) [
        | inr long ↦ rw (sum, long) (none_there (λ r lo hi. absurd (ground arith)))
        | inl fits ↦
            let room : idx + size ≤ total = ground arith in
            let clear = free room in
            let first : wrap (idx + 1) ≡ idx + 1 = omega arith in
            let last = last_unused f (idx + 1) (size - 1) in
            let s =
              last_unused_lem f (idx + 1) (size - 1) (idx + size) (omega arith) (omega arith) in
            let next = skip_run f total size last (total + 1) in
            let n = skip_run_lem last (total + 1) (omega (arith, s.upto)) (omega arith) in
            elim (Bool-cases (last == idx + size)) [
              | inl all ↦
                  rw (sum, rounds, first, fits, clear, all)
                    (at idx (omega arith) room (λ j lo hi. elim (dec_le j idx) [
                      | yes here ↦ let same : j ≡ idx = omega arith in rw same clear
                      | no after ↦ s.clear j (omega arith) (ground arith)
                    ]))
              | inr part ↦
                  rw (sum, rounds, first, fits, clear, part)
                    (later idx next (omega (arith, n.from, s.from))
                      (λ r lo lt fit. elim (dec_le r last) [
                        | yes over ↦
                            let early : last < idx + size = ground (arith, s.upto) in
                            (last, over, omega arith, s.taken early)
                        | no after ↦ (r, omega arith, omega arith, n.taken r (omega arith) lt)
                      ])
                      (find_run-Found fuel next n.upto (omega (arith, n.from, s.from)) n.free))
            ]
      ]

-- A run of nodes was free and is in use now; no other node changed.
pub record IsRunTaken (s s' : PoolSlab) (idx size : ℕ) : Type 0 where
  pub inside : idx + size ≤ s.num_nodes_in_slab
  pub was_free : IsFreeRun s.flags idx size
  pub now_used : (j : ℕ) → idx ≤ j → j < idx + size → is_node_allocated s'.flags j ≡ true
  pub others :
      (j : ℕ)
      → (leb idx j && ltb j (idx + size)) ≡ false
      → is_node_allocated s'.flags j ≡ is_node_allocated s.flags j

-- The outcome of a call of `allocateMultiple`: a run, or none where every run is blocked; no
-- `assert` fails.
pub data AllocatesRun (s : PoolSlab) (size : ℕ) : Checked (PoolSlab × Option ℕ) → Type 0 where
  takes :
      (idx : ℕ) (s' : PoolSlab) → IsRunTaken s s' idx size → AllocatesRun s size (ok (s', some idx))
  refuses :
      ((r : ℕ) → r + size ≤ s.num_nodes_in_slab → IsBlocked s.flags r size)
      → AllocatesRun s size (ok (s, none))

module _ (s : PoolSlab) (size : ℕ) (pos : 0 < size) (small : size + 2 ^ 16 ≤ 2 ^ 32)
    (v : IsAccurate s) where
  abbrev sum_fits : s.num_nodes_in_slab + size < 2 ^ 32
  sum_fits = omega (arith, v.short_size)

  mark_run-IsRunTaken :
      (s' : PoolSlab) (idx : ℕ)
      → s'.flags ≡ mark_range (set_start_bit s.flags idx) idx size
      → idx + size ≤ s.num_nodes_in_slab
      → IsFreeRun s.flags idx size
      → IsRunTaken s s' idx size
  mark_run-IsRunTaken s' idx e fits free =
      let below : idx + size < 2 ^ 32 = omega (arith, fits, v.short_size) in
      let read = λ (j : ℕ). allocated-mark_range (set_start_bit s.flags idx) idx size j below in
      record {
        inside = fits;
        was_free = free;
        now_used = λ j lo hi. rw e (ground (arith, read j));
        others = λ j out. rw (e, read j, out) (allocated-start s.flags idx j);
      }

  -- A run that is found does not reach `UsedEnd`, where the search is made for want of room there.
  take_run-AllocatesRun :
      {o : Search}
      → s.num_nodes_in_slab < s.used_end + size
      → Found s.flags s.num_nodes_in_slab size s.first_unused o
      → AllocatesRun s size (take_run s size o)
  unfolding take_run
  take_run-AllocatesRun full (at r lo fits free) =
      let before : (r == s.used_end) ≡ false = ground arith in
      rw before (takes r _ (mark_run-IsRunTaken _ r refl fits free))
  take_run-AllocatesRun full (none_there all) = refuses λ r fits. elim (dec_le s.first_unused r) [
    | yes behind ↦ all r behind fits
    | no filled ↦ (r, omega arith, omega arith, v.filled r (omega arith))
  ]

  -- On a slab in good order that is no single array, allocateMultiple of at least one node and at
  -- most 2^32 - 2^16, so that no sum of it wraps, hands out a run of nodes that were all free and
  -- marks only these, or there is none; its asserts hold and its loops end.
  pub allocate_multiple-AllocatesRun :
      s.is_single_array ≡ false → AllocatesRun s size (allocate_multiple s size)
  unfolding allocate_multiple
  allocate_multiple-AllocatesRun plain =
      let sum : wrap (s.used_end + size) ≡ s.used_end + size =
        omega (arith, v.bounded, v.short_size) in
      elim (Bool-cases (leb (s.used_end + size) s.num_nodes_in_slab)) [
        | inl room ↦
            simp (plain, sum, room)
              (takes s.used_end _
                (mark_run-IsRunTaken _ s.used_end refl (ground arith) (λ j lo hi. v.end_free j lo)))
        | inr none_left ↦
            simp (plain, sum, none_left)
              (take_run-AllocatesRun (ground arith) (
                find_run-Found s.flags s.num_nodes_in_slab size pos sum_fits
                  (s.num_nodes_in_slab + 1) s.first_unused (omega (arith, v.ordered, v.bounded))
                  (omega arith) (λ h. v.first_free (omega arith))))
      ]
