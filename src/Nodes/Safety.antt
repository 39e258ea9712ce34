-- ===== src/Nodes/Safety.antt =====
-- lib/DSA/TypeSafety.cpp: which nodes are accessed in a type-safe fashion. What LLVM says of types is
-- an argument, and so is the option `TypeInferenceOptimize`.
use poolalloc_3_1_upstreamed.Prelude.{
  ℕ, ◌+◌, ◌%◌, ◌^◌, Bool, true, false, ◌||◌, Option, none, some, List, [], ◌∷◌, ltb, if◌then◌else◌,
}
use poolalloc_3_1_upstreamed.Prelude.Results.{Result, returned, assert_failed, ◌>>=◌}
use poolalloc_3_1_upstreamed.Sets.Svset.{insert}
use poolalloc_3_1_upstreamed.Sets.Super.{set_at}
use poolalloc_3_1_upstreamed.Nodes.Graph.{Graph, is_collapsed}

-- `innermost` is the type of the elements of an array, of an array of arrays and so on, and none of a
-- type that is no array.
pub record Layout : Type 0 where
  pub store_size : ℕ → ℕ
  pub innermost : ℕ → Option ℕ
  pub is_struct : ℕ → Bool
  pub optimize : Bool

-- Whether a type at an offset extends into the next field: the loop over the types of a field.
unfoldable pub extends : Layout → ℕ → ℕ → List ℕ → Result Bool
extends t offset next [] = returned false
extends t offset next (ty ∷ tys) =
    let rest = extends t offset next tys in
    let array : Result Bool = elim (t.innermost ty) [
      | none ↦ returned true
      | some element ↦
          if ltb next (t.store_size element + offset)
          then (if t.is_struct element then rest else assert_failed)
          else returned true
    ] in
    if ltb next ((offset + t.store_size ty % 2 ^ 32) % 2 ^ 32)
    then (if t.optimize then array else returned true)
    else rest

-- `typeFieldsOverlap`: each field is compared with the next one.
unfoldable pub type_fields_overlap : Layout → List (List ℕ) → List (ℕ × ℕ) → Result Bool
type_fields_overlap t sets [] = returned false
type_fields_overlap t sets ((offset, place) ∷ []) = returned false
type_fields_overlap t sets ((offset, place) ∷ (next, place') ∷ fields) =
    let rest = type_fields_overlap t sets ((next, place') ∷ fields) in
    extends t offset next (set_at sets place) >>= λ overlaps.
    if overlaps then returned true else rest

-- `isTypeSafe` of a node, and its reasons: external, incomplete, unknown, from or to an integer.
abbrev pub is_open : (ℕ → Bool) → Bool
is_open bits = bits 11 || bits 6 || bits 5 || bits 12 || bits 13

unfoldable pub is_type_safe : Layout → Graph → ℕ → Result Bool
is_type_safe t g n =
    if is_collapsed g n
    then returned false
    else if is_open (g.nodes n).node_type
    then returned false
    else type_fields_overlap t g.sets (g.nodes n).types >>= λ overlaps.
        returned (if overlaps then false else true)

-- `findTypeSafeDSNodes`.
unfoldable pub find_type_safe_nodes : Layout → Graph → List ℕ → List ℕ → Result (List ℕ)
find_type_safe_nodes t g safe [] = returned safe
find_type_safe_nodes t g safe (n ∷ nodes) = is_type_safe t g n >>= λ s.
    find_type_safe_nodes t g (if s then (insert safe n).0 else safe) nodes
