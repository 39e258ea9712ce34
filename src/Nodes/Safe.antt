-- ===== src/Nodes/Safe.antt =====
-- lib/DSA/TypeSafety.cpp: a node is type-safe exactly when its fields are apart.
use poolalloc_3_1_upstreamed.Prelude.{
  ℕ, ◌+◌, ◌%◌, ◌^◌, ◌<◌, ◌≤◌, ◌≡◌, ◌⊎◌, ◌↔◌, inl, inr, refl, Bool, true, false, Bool-cases, List,
  [], ◌∷◌, ltb, arith, All, All-mono,
}
use poolalloc_3_1_upstreamed.Prelude.Results.{returned}
use poolalloc_3_1_upstreamed.Sets.Super.{set_at}
use poolalloc_3_1_upstreamed.Nodes.Graph.{Graph, is_collapsed}
use poolalloc_3_1_upstreamed.Nodes.Safety.{
  Layout, extends, type_fields_overlap, is_open, is_type_safe,
}

-- Fields by rising offset, of which no type ends at 4 GB or behind.
abbrev pub AreFields : Layout → List (List ℕ) → List (ℕ × ℕ) → Type 0
AreFields t sets [] = Unit
AreFields t sets ((offset, place) ∷ fields) =
    All (λ ty. offset + t.store_size ty < 2 ^ 32) (set_at sets place)
    × All (λ f. offset < f.0) fields
    × AreFields t sets fields

-- Each type of a field ends where any later field begins, or before.
abbrev pub AreApart : Layout → List (List ℕ) → List (ℕ × ℕ) → Type 0
AreApart t sets [] = Unit
AreApart t sets ((offset, place) ∷ fields) =
    All (λ f. All (λ ty. offset + t.store_size ty ≤ f.0) (set_at sets place)) fields
    × AreApart t sets fields

module _ (t : Layout) (plain : t.optimize ≡ false) where
  -- The loop over the types of a field returns, and says whether one goes beyond the next offset.
  extends_lem :
      (offset next : ℕ) (tys : List ℕ)
      → All (λ ty. offset + t.store_size ty < 2 ^ 32) tys
      → ((extends t offset next tys ≡ returned false)
          × All (λ ty. offset + t.store_size ty ≤ next) tys)
        ⊎ ((extends t offset next tys ≡ returned true)
            × ((All (λ ty. offset + t.store_size ty ≤ next) tys) → ⊥))
  unfolding extends
  extends_lem offset next [] small = inl (refl, tt)
  extends_lem offset next (ty ∷ tys) small =
      let fits : (offset + t.store_size ty % 2 ^ 32) % 2 ^ 32 ≡ offset + t.store_size ty =
        omega (arith, small.0) in
      elim (Bool-cases (ltb next (offset + t.store_size ty))) [
        | inl beyond ↦ inr (rw (fits, beyond, plain) refl, λ all. ground (arith, all.0, beyond))
        | inr inside ↦ elim (extends_lem offset next tys small.1) [
          | inl (e, all) ↦ inl (rw (fits, inside) e, (ground (arith, inside), all))
          | inr (e, close) ↦ inr (rw (fits, inside) e, λ all. close all.1)
        ]
      ]

  overlap_lem :
      (sets : List (List ℕ)) (fields : List (ℕ × ℕ))
      → AreFields t sets fields
      → ((type_fields_overlap t sets fields ≡ returned false) × AreApart t sets fields)
        ⊎ ((type_fields_overlap t sets fields ≡ returned true) × (AreApart t sets fields → ⊥))
  unfolding type_fields_overlap
  overlap_lem sets [] are = inl (refl, tt)
  overlap_lem sets ((offset, place) ∷ []) are = inl (refl, (tt, tt))
  overlap_lem sets ((offset, place) ∷ (next, place') ∷ fields) are =
      elim (extends_lem offset next (set_at sets place) are.0) [
        | inl (e, all) ↦ elim (overlap_lem sets ((next, place') ∷ fields) are.2) [
          | inl (apart, rest) ↦ inl (
            rw e apart,
            (
              (
                all,
                All-mono (λ f. next < f.0)
                    (λ f. All (λ ty. offset + t.store_size ty ≤ f.0) (set_at sets place)) fields
                    (λ f lt.
                      All-mono (λ ty. offset + t.store_size ty ≤ next)
                        (λ ty. offset + t.store_size ty ≤ f.0) (set_at sets place)
                        (λ ty le. omega (arith, le, lt)) all)
                    are.2.1,
              ),
              rest,
            ),
          )
          | inr (over, close) ↦ inr (rw e over, λ apart. close apart.1)
        ]
        | inr (e, close) ↦ inr (rw e refl, λ apart. close apart.0.0)
      ]

-- Without TypeInferenceOptimize isTypeSafe of a node, whose fields stand by rising offset and end below
-- 4 GB, returns, and it says true exactly when the node is not collapsed, external, incomplete or
-- unknown, comes from and goes to no integer, and each type of a field ends where any later field
-- begins, or before.
pub is_type_safe-AreApart :
    (t : Layout) (g : Graph) (n : ℕ)
    → t.optimize ≡ false
    → AreFields t g.sets (g.nodes n).types
    → (b : Bool) × (is_type_safe t g n ≡ returned b)
      × ((b ≡ true) ↔ (
          (is_collapsed g n ≡ false)
          × (is_open (g.nodes n).node_type ≡ false)
          × AreApart t g.sets (g.nodes n).types))
unfolding is_type_safe
is_type_safe-AreApart t g n plain are = elim (Bool-cases (is_collapsed g n)) [
  | inl collapsed ↦
      (false, rw collapsed refl, (λ h. ground (arith, h), λ h. ground (arith, h.0, collapsed)))
  | inr whole ↦ elim (Bool-cases (is_open (g.nodes n).node_type)) [
    | inl open_node ↦ (
      false,
      rw (whole, open_node) refl,
      (λ h. ground (arith, h), λ h. ground (arith, h.1, open_node)),
    )
    | inr closed ↦ elim (overlap_lem t plain g.sets (g.nodes n).types are) [
      | inl (e, apart) ↦
          (true, rw (whole, closed, e) refl, (λ h. (whole, closed, apart), λ h. refl))
      | inr (e, over) ↦
          (false, rw (whole, closed, e) refl, (λ h. ground (arith, h), λ h. absurd (over h.2)))
    ]
  ]
]
