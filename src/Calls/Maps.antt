-- ===== src/Calls/Maps.antt =====
-- lib/DSA/DSCallGraph.cpp: what the operations on the maps do.
use mathlib.Core.Path.{subst}
use poolalloc_3_1_upstreamed.Prelude.{
  ℕ, ◌≡◌, refl, sym, false, ◌||◌, ◌&&◌, not, Bool-cases, inl, inr, some, List, [], ◌∷◌, ltb, ◌==◌,
  if◌then◌else◌, arith, All,
}
use poolalloc_3_1_upstreamed.Sets.Members.{mem}
use poolalloc_3_1_upstreamed.Nodes.Graph.{entry, set_entry}
use poolalloc_3_1_upstreamed.Calls.Graph.{at, keys, erase_entry}

module _ (k : ℕ) (v : List ℕ) where
  pub entry-set_entry :
      (m : List (ℕ × List ℕ)) (j : ℕ)
      → entry (set_entry m k v) j ≡ (if k == j then some v else entry m j)
  entry-set_entry [] j = refl
  entry-set_entry ((i, s) ∷ m) j = ground (arith, entry-set_entry m j)

  pub at-set_entry :
      (m : List (ℕ × List ℕ)) (j : ℕ) → at (set_entry m k v) j ≡ (if k == j then v else at m j)
  at-set_entry m j = elim (Bool-cases (k == j)) [
    | inl same ↦ rw (at, entry-set_entry m j, same) refl
    | inr other ↦ rw (at, entry-set_entry m j, other) refl
  ]

  pub keys-set_entry :
      (m : List (ℕ × List ℕ)) (j : ℕ)
      → mem (keys (set_entry m k v)) j ≡ ((k == j) || mem (keys m) j)
  keys-set_entry [] j = refl
  keys-set_entry ((i, s) ∷ m) j = ground (arith, keys-set_entry m j)

  pub set_entry-All :
      (P : List ℕ → Type 0) (m : List (ℕ × List ℕ))
      → P v
      → All (λ e. P e.1) m
      → All (λ e. P e.1) (set_entry m k v)
  set_entry-All P [] new all = (new, tt)
  set_entry-All P ((i, s) ∷ m) new all = elim (Bool-cases (i == k)) [
    | inl same ↦ rw same (new, all.1)
    | inr other ↦ elim (Bool-cases (ltb k i)) [
      | inl less ↦ rw (other, less) (new, all)
      | inr more ↦ rw (other, more) (all.0, set_entry-All P m new all.1)
    ]
  ]

module _ (k : ℕ) where
  pub at-erase_entry :
      (m : List (ℕ × List ℕ)) (j : ℕ) → at (erase_entry m k) j ≡ (if k == j then [] else at m j)
  at-erase_entry [] j = ground arith
  at-erase_entry ((i, s) ∷ m) j = ground (arith, at-erase_entry m j)

  pub keys-erase_entry :
      (m : List (ℕ × List ℕ)) (j : ℕ)
      → mem (keys (erase_entry m k)) j ≡ (not (k == j) && mem (keys m) j)
  keys-erase_entry [] j = ground arith
  keys-erase_entry ((i, s) ∷ m) j = ground (arith, keys-erase_entry m j)

  pub erase_entry-All :
      (P : List ℕ → Type 0) (m : List (ℕ × List ℕ))
      → All (λ e. P e.1) m
      → All (λ e. P e.1) (erase_entry m k)
  erase_entry-All P [] all = tt
  erase_entry-All P ((i, s) ∷ m) all = elim (Bool-cases (i == k)) [
    | inl same ↦ rw same (erase_entry-All P m all.1)
    | inr other ↦ rw other (all.0, erase_entry-All P m all.1)
  ]

-- What holds of every set of a map, and of the empty one, holds of the set of any key.
pub at-All :
    (P : List ℕ → Type 0) (m : List (ℕ × List ℕ)) (j : ℕ) → P [] → All (λ e. P e.1) m → P (at m j)
at-All P [] j empty all = empty
at-All P ((i, s) ∷ m) j empty all = elim (Bool-cases (i == j)) [
  | inl same ↦ rw (at, same) all.0
  | inr other ↦ subst P (sym (at_later i s m j other)) (at-All P m j empty all.1)
]
  where
    at_later :
        (i : ℕ) (s : List ℕ) (m : List (ℕ × List ℕ)) (j : ℕ)
        → (i == j) ≡ false
        → at ((i, s) ∷ m) j ≡ at m j
    at_later i s m j other = rw (at, other) refl

-- A key that is not there has the empty set.
pub at_absent : (m : List (ℕ × List ℕ)) (j : ℕ) → mem (keys m) j ≡ false → at m j ≡ []
at_absent [] j h = refl
at_absent ((i, s) ∷ m) j h = ground (arith, at_absent m j, h)
