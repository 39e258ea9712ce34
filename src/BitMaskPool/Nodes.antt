-- ===== src/BitMaskPool/Nodes.antt =====
-- runtime/PoolAllocator/PoolAllocatorBitMask.cpp: the bits of the nodes, and the scans over them.
use native.Mathlib.Decide.{dec_le}
use poolalloc_3_1_upstreamed.Prelude.{
  ℕ, zero, suc, ◌+◌, ◌*◌, ◌/◌, ◌%◌, ◌^◌, ◌≤◌, ◌<◌, ◌≡◌, refl, inl, inr, true, false, ◌&&◌, none,
  some, ltb, leb, ◌==◌, if◌then◌else◌, arith, Bool-cases,
}
use poolalloc_3_1_upstreamed.Flags.{Flags}
use poolalloc_3_1_upstreamed.BitMaskPool.Slab.{
  wrap, is_node_allocated, mark_node_allocated, mark_node_free, set_start_bit,
  is_start_of_allocation, clear_start_bit, skip_allocated, mark_range, highest_set, last_in_words,
  last_node_allocated,
}

-- How each write changes what is read at a node.
pub allocated-mark :
    (f : Flags) (n m : ℕ)
    → is_node_allocated (mark_node_allocated f n) m
      ≡ (if m == n then true else is_node_allocated f m)
allocated-mark f n m = ground arith

pub allocated-mark_free :
    (f : Flags) (n m : ℕ)
    → is_node_allocated (mark_node_free f n) m ≡ (if m == n then false else is_node_allocated f m)
allocated-mark_free f n m = ground arith

pub allocated-start :
    (f : Flags) (n m : ℕ) → is_node_allocated (set_start_bit f n) m ≡ is_node_allocated f m
allocated-start f n m = ground arith

pub allocated-clear_start :
    (f : Flags) (n m : ℕ) → is_node_allocated (clear_start_bit f n) m ≡ is_node_allocated f m
allocated-clear_start f n m = ground arith

pub start-mark :
    (f : Flags) (n m : ℕ)
    → is_start_of_allocation (mark_node_allocated f n) m ≡ is_start_of_allocation f m
start-mark f n m = ground arith

pub start-mark_free :
    (f : Flags) (n m : ℕ)
    → is_start_of_allocation (mark_node_free f n) m ≡ is_start_of_allocation f m
start-mark_free f n m = ground arith

pub start-set_start :
    (f : Flags) (n m : ℕ)
    → is_start_of_allocation (set_start_bit f n) m
      ≡ (if m == n then true else is_start_of_allocation f m)
start-set_start f n m = ground arith

pub start-clear_start :
    (f : Flags) (n m : ℕ)
    → is_start_of_allocation (clear_start_bit f n) m
      ≡ (if m == n then false else is_start_of_allocation f m)
start-clear_start f n m = ground arith

-- A run of marks, whose end is an `unsigned`: the nodes from `first` on, `n` of them, and no other.
pub allocated-mark_range :
    (f : Flags) (first n m : ℕ)
    → first + n < 2 ^ 32
    → is_node_allocated (mark_range f first n) m
      ≡ (if leb first m && ltb m (first + n) then true else is_node_allocated f m)
unfolding mark_range
allocated-mark_range f first zero m small = ground arith
allocated-mark_range f first (suc n) m small =
    let next : wrap (first + 1) ≡ first + 1 = omega arith in
    rw next (
      ground
        (arith, allocated-mark_range (mark_node_allocated f first) (first + 1) n m (omega arith)))

-- The first node from `node` on that is free, or the end.
pub record IsNextFree (f : Flags) (node end r : ℕ) : Type 0 where
  pub from : node ≤ r
  pub upto : r ≤ end
  pub taken : (j : ℕ) → node ≤ j → j < r → is_node_allocated f j ≡ true
  pub free : r < end → is_node_allocated f r ≡ false

pub skip_allocated_lem :
    (f : Flags) (node left end : ℕ)
    → node + left ≡ end
    → IsNextFree f node end (skip_allocated f node left)
unfolding skip_allocated
skip_allocated_lem f node zero end e = ground arith
skip_allocated_lem f node (suc left) end e = elim (Bool-cases (is_node_allocated f node)) [
  | inl taken ↦ rw taken (
      let rest = skip_allocated_lem f (node + 1) left end (omega arith) in
      record {
        from = omega (arith, rest.from);
        upto = rest.upto;
        taken = λ j lo hi. elim (dec_le j node) [
          | yes here ↦ let same : j ≡ node = omega arith in rw same taken
          | no later ↦ rest.taken j (omega arith) hi
        ];
        free = rest.free;
      })
  | inr free ↦ rw free (ground arith)
]

-- The greatest allocated node below `n`, or 0.
unfoldable pub last_allocated : Flags → ℕ → ℕ
last_allocated f zero = 0
last_allocated f (suc n) = if is_node_allocated f n then n else last_allocated f n

last_allocated-word :
    (f : Flags) (w k : ℕ)
    → k ≤ 16
    → last_allocated f (w * 16 + k)
      ≡ elim (highest_set (f w) k) [ none ↦ last_allocated f (w * 16) | some b ↦ w * 16 + b ]
unfolding highest_set last_allocated
last_allocated-word f w zero h = let e : w * 16 + 0 ≡ w * 16 = omega arith in rw e
last_allocated-word f w (suc k) h =
    let e : w * 16 + suc k ≡ suc (w * 16 + k) = omega arith in
    let q : (w * 16 + k) / 16 ≡ w = omega arith in
    let r : (w * 16 + k) % 16 ≡ k = omega arith in
    rw e (
      rw (q, r)
        (elim (Bool-cases (f w k)) [
          | inl set ↦ rw set
          | inr clear ↦ rw clear (last_allocated-word f w k (omega arith))
        ]))

last_in_words-eq : (f : Flags) (w : ℕ) → last_in_words f w ≡ last_allocated f (w * 16)
unfolding last_in_words
last_in_words-eq f zero = unfold last_allocated in refl
last_in_words-eq f (suc w) =
    let e : suc w * 16 ≡ w * 16 + 16 = omega arith in
    rw (e, last_allocated-word f w 16 (omega arith)) (ground (arith, last_in_words-eq f w))

-- The scan by words of lastNodeAllocated returns the number of the greatest allocated node that is
-- not above ScanIdx, the node itself and not one past it, or 0 if there is none.
pub last_node_allocated_lem :
    (f : Flags) (scan : ℕ) → last_node_allocated f scan ≡ last_allocated f (scan + 1)
unfolding last_node_allocated
last_node_allocated_lem f scan =
    let e : scan + 1 ≡ scan / 16 * 16 + (scan % 16 + 1) = omega arith in
    rw (e, last_allocated-word f (scan / 16) (scan % 16 + 1) (omega arith))
      (ground (arith, last_in_words-eq f (scan / 16)))
