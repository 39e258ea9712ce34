-- ===== src/Nodes/Infer.antt =====
-- lib/DSA/DataStructure.cpp: the types that are seen at the offsets of a node. A type of LLVM is a
-- number, null is 0, and what LLVM says of the types is an argument.
use poolalloc_3_1_upstreamed.Prelude.{
  ℕ, zero, suc, ◌+◌, ◌-◌, ◌%◌, ◌^◌, Bool, true, false, ◌||◌, ◌&&◌, not, Option, none, some, List,
  [], ◌∷◌, ltb, leb, ◌==◌, if◌then◌else◌,
}
use poolalloc_3_1_upstreamed.Prelude.Results.{Result, returned, assert_failed, out_of_fuel, ◌>>=◌}
use poolalloc_3_1_upstreamed.Sets.Super.{set_at, get_or_create_with}
use poolalloc_3_1_upstreamed.Nodes.Graph.{
  Graph, put_node, is_collapsed, is_array, size_of, grow_size, entry,
}
use poolalloc_3_1_upstreamed.Nodes.Types.{place_at, put_place}

-- What LLVM says of a type; `fields` gives the offset and the type of each element of a struct.
pub record TypeInfo : Type 0 where
  pub is_void : ℕ → Bool
  pub is_pointer : ℕ → Bool
  pub is_integer : ℕ → Bool
  pub alloc_size : ℕ → ℕ
  pub store_size : ℕ → ℕ
  pub pointer_size : ℕ
  pub fields : ℕ → Option (List (ℕ × ℕ))

unfoldable pub grow_size_for_type : TypeInfo → Graph → ℕ → ℕ → ℕ → Result Graph
grow_size_for_type t g n ty from =
    let offset = if is_array g n && ltb 0 (size_of g n) then from % size_of g n else from in
    if (ty == 0) || t.is_void ty
    then returned g
    else if is_collapsed g n
    then returned g
    else if leb (size_of g n) (offset + t.alloc_size ty)
    then grow_size g n ((offset + t.alloc_size ty) % 2 ^ 32)
    else returned g

-- The fields of a struct, each of which the given function merges.
unfoldable pub merge_fields :
    (Graph → ℕ → ℕ → Result Graph) → Graph → ℕ → List (ℕ × ℕ) → Result Graph
merge_fields merge g offset [] = returned g
merge_fields merge g offset ((at, ty) ∷ fields) =
    merge g ty ((offset + at) % 2 ^ 32) >>= λ g'. merge_fields merge g' offset fields

-- A type that is no struct joins those at its offset.
abbrev pub add_type : Graph → ℕ → ℕ → ℕ → Graph
add_type g n ty offset =
    let made = get_or_create_with g.sets (place_at g n offset) ty in
    put_place (record g { sets = made.0 }) n offset made.1

-- `mergeTypeInfo` of a type: the fuel is the depth of its structs. The assert at the end is that the
-- offset has a type.
unfoldable pub merge_type : ℕ → TypeInfo → Graph → ℕ → ℕ → ℕ → Result Graph
merge_type zero t g n ty offset = out_of_fuel
merge_type (suc fuel) t g n ty offset =
    let merge : Graph → ℕ → ℕ → Result Graph = λ g' ty' at. merge_type fuel t g' n ty' at in
    if (ty == 0) || t.is_void ty
    then returned g
    else if is_collapsed g n
    then returned g
    else grow_size_for_type t g n ty offset >>= λ g1.
        elim (t.fields ty) [
          | some fields ↦ merge_fields merge g1 offset fields
          | none ↦ returned (add_type g1 n ty offset)
        ]
        >>= λ g2. if place_at g2 n offset == 0 then assert_failed else returned g2

-- `markIntPtrFlags`.
unfoldable pub any_type : (ℕ → Bool) → List ℕ → Bool
any_type p [] = false
any_type p (ty ∷ tys) = p ty || any_type p tys

unfoldable pub largest_integer : TypeInfo → List ℕ → ℕ
largest_integer t [] = 0
largest_integer t (ty ∷ tys) =
    let rest = largest_integer t tys in
    if t.is_integer ty && ltb rest (t.store_size ty) then t.store_size ty else rest

abbrev pub types_at : Graph → ℕ → ℕ → List ℕ
types_at g n offset = set_at g.sets (place_at g n offset)

abbrev pub has_entry : Graph → ℕ → ℕ → Bool
has_entry g n offset = elim (entry (g.nodes n).types offset) [ none ↦ false | some p ↦ true ]

-- The inner loop, over as many offsets: whether pointers and integers meet. The null set that the
-- code would read through is empty here.
unfoldable pub overlaps : ℕ → TypeInfo → Graph → ℕ → ℕ → Bool → Bool → Bool
overlaps zero t g n offset pointer integer = false
overlaps (suc count) t g n offset pointer integer =
    let seen = has_entry g n offset in
    let pointer' = pointer || (seen && any_type t.is_pointer (types_at g n offset)) in
    let integer' = integer || (seen && any_type t.is_integer (types_at g n offset)) in
    (seen && pointer' && integer') || overlaps count t g n (offset + 1) pointer' integer'

-- How many offsets the inner loop looks at.
abbrev pub reach : TypeInfo → Graph → ℕ → ℕ → ℕ
reach t g n offset =
    let tys = types_at g n offset in
    let size = if any_type t.is_pointer tys then t.pointer_size else largest_integer t tys in
    let last = (offset + size) % 2 ^ 32 in
    if ltb last (size_of g n) then last - offset else size_of g n - offset

-- The outer loop, over as many offsets.
unfoldable pub meets : ℕ → TypeInfo → Graph → ℕ → ℕ → Bool
meets zero t g n offset = false
meets (suc count) t g n offset =
    let pointer = any_type t.is_pointer (types_at g n offset) in
    let integer = any_type t.is_integer (types_at g n offset) in
    let rest = meets count t g n (offset + 1) in
    if place_at g n offset == 0
    then rest
    else if pointer && integer
    then true
    else if not pointer && not integer
    then rest
    else overlaps (reach t g n offset) t g n offset pointer integer || rest

-- The bits are `UnknownNode`, `IntToPtrNode` and `PtrToIntNode`.
unfoldable pub mark_int_ptr_flags : TypeInfo → Graph → ℕ → Graph
mark_int_ptr_flags t g n =
    if meets (size_of g n) t g n 0
    then put_node g n (record (g.nodes n) {
      node_type = λ bit. (bit == 5) || (bit == 12) || (bit == 13) || (g.nodes n).node_type bit;
    })
    else g
