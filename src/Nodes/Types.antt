-- ===== src/Nodes/Types.antt =====
-- lib/DSA/DataStructure.cpp: the types of a node. What LLVM says of a type, the bytes that it takes,
-- is an argument.
use poolalloc_3_1_upstreamed.Prelude.{
  ℕ, ◌+◌, ◌%◌, ◌^◌, none, some, List, [], ◌∷◌, leb, ◌==◌, if◌then◌else◌,
}
use poolalloc_3_1_upstreamed.Prelude.Results.{Result, returned, assert_failed, ◌>>=◌}
use poolalloc_3_1_upstreamed.Sets.Svset.{insert_set}
use poolalloc_3_1_upstreamed.Sets.Super.{get_or_create, set_at}
use poolalloc_3_1_upstreamed.Nodes.Graph.{
  Graph, put_node, is_collapsed, is_array, size_of, grow_size, entry, set_entry,
}

-- The place at an offset, null if there is none.
abbrev pub place_at : Graph → ℕ → ℕ → ℕ
place_at g n offset = elim (entry (g.nodes n).types offset) [ none ↦ 0 | some p ↦ p ]

abbrev pub put_place : Graph → ℕ → ℕ → ℕ → Graph
put_place g n offset p =
    put_node g n (record (g.nodes n) { types = set_entry (g.nodes n).types offset p })

-- The node grows for each type that is new at the offset.
unfoldable pub grow_for : (ℕ → ℕ) → Graph → ℕ → ℕ → List ℕ → Result Graph
grow_for alloc_size g n offset [] = returned g
grow_for alloc_size g n offset (ty ∷ tys) =
    (if leb (size_of g n) (offset + alloc_size ty)
      then grow_size g n ((offset + alloc_size ty) % 2 ^ 32)
      else returned g)
    >>= λ g'. grow_for alloc_size g' n offset tys

-- `mergeTypeInfo` of a set of types. Where neither side has one it reads null, which counts as a
-- failed assert.
unfoldable pub merge_types : (ℕ → ℕ) → Graph → ℕ → ℕ → ℕ → Result Graph
merge_types alloc_size g n place from =
    let offset = if is_array g n then from % size_of g n else from in
    let merged = insert_set (set_at g.sets (place_at g n offset)) (set_at g.sets place) in
    let made = get_or_create g.sets merged in
    if is_collapsed g n
    then returned g
    else if place_at g n offset == 0
    then (if place == 0
        then assert_failed
        else grow_for alloc_size (put_place g n offset place) n offset (set_at g.sets place))
    else if place == 0
    then returned g
    else returned (put_place (record g { sets = made.0 }) n offset made.1)

-- `mergeTypeInfo` of the types of another node.
unfoldable pub merge_all_types : (ℕ → ℕ) → Graph → ℕ → ℕ → List (ℕ × ℕ) → Result Graph
merge_all_types alloc_size g n offset [] = returned g
merge_all_types alloc_size g n offset ((from, place) ∷ types) =
    merge_types alloc_size g n place ((from + offset) % 2 ^ 32) >>= λ g'.
    merge_all_types alloc_size g' n offset types
