-- ===== src/BitMaskPool/Slab.antt =====
-- runtime/PoolAllocator/PoolAllocatorBitMask.cpp: `PoolSlab`, the nodes of one slab.
use poolalloc_3_1_upstreamed.Prelude.{
  ℕ, zero, suc, ◌+◌, ◌-◌, ◌*◌, ◌/◌, ◌%◌, ◌^◌, Bool, true, false, not, ◌&&◌, ◌||◌, Option, none,
  some, ltb, leb, ◌==◌, if◌then◌else◌,
}
use poolalloc_3_1_upstreamed.Flags.{Word, Flags, set_bit}

-- The list links of a slab are kept in the pool. `flags` is `NodeFlagsVector`.
pub record PoolSlab : Type 0 where
  pub is_single_array : Bool
  pub first_unused : ℕ
  pub used_begin : ℕ
  pub used_end : ℕ
  pub num_nodes_in_slab : ℕ
  pub flags : Flags

-- The value of an `unsigned short`.
abbrev pub short : ℕ → ℕ
short n = n % 2 ^ 16

-- The value of an `unsigned`.
abbrev pub wrap : ℕ → ℕ
wrap n = n % 2 ^ 32

-- `NodeNum & 15` is `node % 16`.
abbrev pub is_node_allocated : Flags → ℕ → Bool
is_node_allocated flags node = flags (node / 16) (node % 16)

abbrev pub mark_node_allocated : Flags → ℕ → Flags
mark_node_allocated flags node = set_bit flags (node / 16) (node % 16) true

abbrev pub mark_node_free : Flags → ℕ → Flags
mark_node_free flags node = set_bit flags (node / 16) (node % 16) false

abbrev pub set_start_bit : Flags → ℕ → Flags
set_start_bit flags node = set_bit flags (node / 16) (node % 16 + 16) true

abbrev pub is_start_of_allocation : Flags → ℕ → Bool
is_start_of_allocation flags node = flags (node / 16) (node % 16 + 16)

abbrev pub clear_start_bit : Flags → ℕ → Flags
clear_start_bit flags node = set_bit flags (node / 16) (node % 16 + 16) false

unfoldable pub is_empty : PoolSlab → Bool
is_empty s = s.used_end == 0

unfoldable pub is_full : PoolSlab → Bool
is_full s = s.is_single_array || s.first_unused == s.num_nodes_in_slab

-- `assert_failed` where an `assert` stops the program, `null_read` where a null pointer is read.
pub data Checked (A : Type 0) : Type 0 where
  ok : A → Checked A
  assert_failed null_read : Checked A

infixl 5 ◌>>=◌
abbrev pub ◌>>=◌ : {A B : Type 0} → Checked A → (A → Checked B) → Checked B
ok a >>= f = f a
assert_failed >>= f = assert_failed
null_read >>= f = null_read

-- `while (FU != SlabSize && isNodeAllocated(FU)) ++FU`, with `SlabSize - FU` rounds left.
unfoldable pub skip_allocated : Flags → ℕ → ℕ → ℕ
skip_allocated flags node zero = node
skip_allocated flags node (suc left) =
    if is_node_allocated flags node then skip_allocated flags (node + 1) left else node

-- "Successfully allocate out the first unused node."
unfoldable pub reuse_first : PoolSlab → PoolSlab
reuse_first s =
    let flags' = set_start_bit (mark_node_allocated s.flags s.first_unused) s.first_unused in
    record s {
      flags = flags';
      first_unused =
          skip_allocated flags' (s.first_unused + 1) (s.num_nodes_in_slab - (s.first_unused + 1));
    }

-- `allocateSingle`; `none` is -1.
unfoldable pub allocate_single : PoolSlab → PoolSlab × Option ℕ
allocate_single s =
    if s.is_single_array
    then (s, none)
    else if ltb s.used_end s.num_nodes_in_slab
    then (
      record s {
        flags = set_start_bit (mark_node_allocated s.flags s.used_end) s.used_end;
        first_unused =
            if s.first_unused == s.used_end then short (s.first_unused + 1) else s.first_unused;
        used_end = short (s.used_end + 1);
      },
      some s.used_end,
    )
    else if ltb s.first_unused s.num_nodes_in_slab
    then (reuse_first s, some s.first_unused)
    else (s, none)

-- `for (i = first; i != first + n; ++i) markNodeAllocated(i)`; `NodeFlagsVector` has no end here.
unfoldable pub mark_range : Flags → ℕ → ℕ → Flags
mark_range flags first zero = flags
mark_range flags first (suc n) = mark_range (mark_node_allocated flags first) (wrap (first + 1)) n

-- The `for` over `LastUnused`, with `Idx + Size - LastUnused` rounds left.
unfoldable pub last_unused : Flags → ℕ → ℕ → ℕ
last_unused flags node zero = node
last_unused flags node (suc left) =
    if is_node_allocated flags node then node else last_unused flags (wrap (node + 1)) left

-- The outcome of the search for a run of free nodes.
pub data Search : Type 0 where
  found : ℕ → Search
  nowhere out_of_fuel not_accurate : Search

-- The `while` within: `Idx + Size <= getSlabSize() && isNodeAllocated(Idx)`. One round for each value
-- of the sum up to `getSlabSize()` is enough.
unfoldable pub skip_run : Flags → ℕ → ℕ → ℕ → ℕ → ℕ
skip_run flags total size idx zero = idx
skip_run flags total size idx (suc left) =
    let rest = skip_run flags total size (wrap (idx + 1)) left in
    if leb (wrap (idx + size)) total && is_node_allocated flags idx then rest else idx

-- The outer `while`, with fuel. From `Idx + 1` to `Idx + Size` are `Size - 1` rounds.
unfoldable pub find_run : ℕ → Flags → ℕ → ℕ → ℕ → Search
find_run zero flags total size idx = out_of_fuel
find_run (suc fuel) flags total size idx =
    let last = last_unused flags (wrap (idx + 1)) (wrap (size + (2 ^ 32 - 1))) in
    let rest = find_run fuel flags total size (skip_run flags total size last (total + 1)) in
    if leb (wrap (idx + size)) total
    then if is_node_allocated flags idx
      then not_accurate
      else if last == wrap (idx + size)
      then found idx
      else rest
    else nowhere

-- What `allocateMultiple` does with the run that it found.
unfoldable pub take_run : PoolSlab → ℕ → Search → Checked (PoolSlab × Option ℕ)
take_run s size (found idx) =
    if idx == s.used_end
    then assert_failed
    else ok (
      record s {
        flags = mark_range (set_start_bit s.flags idx) idx size;
        first_unused =
            if idx == s.first_unused then short (s.first_unused + size) else s.first_unused;
      },
      some idx,
    )
take_run s size nowhere = ok (s, none)
take_run s size out_of_fuel = assert_failed
take_run s size not_accurate = assert_failed

-- `allocateMultiple`. Where no sum wraps each round of the search moves on, so a round for each node
-- is enough.
unfoldable pub allocate_multiple : PoolSlab → ℕ → Checked (PoolSlab × Option ℕ)
allocate_multiple s size =
    if s.is_single_array
    then ok (s, none)
    else if leb (wrap (s.used_end + size)) s.num_nodes_in_slab
    then ok (
      record s {
        flags = mark_range (set_start_bit s.flags s.used_end) s.used_end size;
        first_unused =
            if s.first_unused == s.used_end then short (s.first_unused + size) else s.first_unused;
        used_end = short (s.used_end + size);
      },
      some s.used_end,
    )
    else take_run s size
        (find_run (s.num_nodes_in_slab + 1) s.flags s.num_nodes_in_slab size s.first_unused)

-- The highest set bit among the `n` low bits of a word.
unfoldable pub highest_set : Word → ℕ → Option ℕ
highest_set word zero = none
highest_set word (suc n) = if word n then some n else highest_set word n

-- The words below `n`, downwards: "scan the whole flag words now".
unfoldable pub last_in_words : Flags → ℕ → ℕ
last_in_words flags zero = 0
last_in_words flags (suc n) = elim (highest_set (flags n) 16) [
  | none ↦ last_in_words flags n
  | some b ↦ n * 16 + b
]

-- `lastNodeAllocated`: first the low bits of the word of `ScanIdx`, masked up to its own bit.
unfoldable pub last_node_allocated : Flags → ℕ → ℕ
last_node_allocated flags scan = elim (highest_set (flags (scan / 16)) (scan % 16 + 1)) [
  | none ↦ last_in_words flags (scan / 16)
  | some b ↦ scan / 16 * 16 + b
]

-- The loop of `freeElement`, with `UE - ElementEndIdx` rounds left: the flags and `ElementEndIdx`.
unfoldable pub free_rest : Flags → ℕ → ℕ → Flags × ℕ
free_rest flags node zero = (flags, node)
free_rest flags node (suc left) =
    let rest = free_rest (mark_node_free flags node) (node + 1) left in
    if not (is_start_of_allocation flags node) && is_node_allocated flags node
    then rest
    else (flags, node)

-- The last part of `freeElement`, where the freed nodes were the last in use.
unfoldable pub shrink_used_end : PoolSlab → ℕ → ℕ → Checked PoolSlab
shrink_used_end s element ue =
    if s.used_begin == ue
    then ok (record s { first_unused = 0; used_begin = 0; used_end = 0 })
    else if s.first_unused == element
    then ok (record s { first_unused = element; used_end = element })
    else let last = last_node_allocated s.flags element in
      if leb s.first_unused last then ok (record s { used_end = short last }) else assert_failed

-- The fields after the loop of `freeElement`.
unfoldable pub lower_marks : PoolSlab → ℕ → Flags × ℕ → PoolSlab
lower_marks s element (flags', end) = record s {
  flags = flags';
  first_unused = if ltb element s.first_unused then element else s.first_unused;
  used_begin = if element == s.used_begin then end else s.used_begin;
}

unfoldable pub finish_free : PoolSlab → ℕ → ℕ → Checked PoolSlab
finish_free s element end = if end == s.used_end then shrink_used_end s element s.used_end else ok s

-- `freeElement`. A slab whose `UsedEnd` is not behind the element is not one that it is called on:
-- the loop is given no rounds there.
unfoldable pub free_element : PoolSlab → ℕ → Checked PoolSlab
free_element s element =
    if not (is_node_allocated s.flags element) || s.is_single_array
    then assert_failed
    else if not (is_start_of_allocation (mark_node_free s.flags element) element)
    then assert_failed
    else let cleared = clear_start_bit (mark_node_free s.flags element) element in
      let freed =
        free_rest (mark_node_free cleared element) (element + 1) (s.used_end - (element + 1)) in
      finish_free (lower_marks s element freed) element freed.1
