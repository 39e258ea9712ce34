-- ===== src/Graphs/Walk.antt =====
-- A walk over a graph that is given by the targets of each node: what the walks of
-- lib/DSA/DSGraph.cpp and lib/DSA/DataStructure.cpp have in common. Null is 0.
use mathlib.Core.Path.{subst}
use poolalloc_3_1_upstreamed.Prelude.{
  ℕ, zero, suc, ◌<◌, ◌≤◌, ◌≡◌, ◌≢◌, ◌⊎◌, inl, inr, true, false, ◌||◌, Bool-cases, List, [], ◌∷◌,
  ◌==◌, ==_iff, if◌then◌else◌, arith, All, All-mono,
}
use poolalloc_3_1_upstreamed.Sets.Members.{mem}

-- How many numbers below `k` are not in a list.
abbrev pub unseen : ℕ → List ℕ → ℕ
unseen zero seen = 0
unseen (suc k) seen = if mem seen k then unseen k seen else suc (unseen k seen)

pub unseen-le :
    (k : ℕ) (s t : List ℕ) → ((m : ℕ) → mem s m ≡ true → mem t m ≡ true) → unseen k t ≤ unseen k s
unseen-le zero s t sub = omega arith
unseen-le (suc k) s t sub = ground (arith, unseen-le k s t sub, sub k)

pub unseen_le : (k : ℕ) (s : List ℕ) → unseen k s ≤ k
unseen_le zero s = omega arith
unseen_le (suc k) s = ground (arith, unseen_le k s)

pub unseen-cons_le : (k n : ℕ) (s : List ℕ) → unseen k (n ∷ s) ≤ unseen k s
unseen-cons_le k n s = unseen-le k s (n ∷ s) (λ m h. ground (arith, h))

pub unseen-cons : (k n : ℕ) (s : List ℕ) → n < k → mem s n ≡ false → unseen k (n ∷ s) < unseen k s
unseen-cons zero n s h new = elim h [ ]
unseen-cons (suc k) n s h new = elim (Bool-cases (n == k)) [
  | inl last ↦
      let e : n ≡ k = ground (arith, last) in
      let new' : mem s k ≡ false = subst (λ j. mem s j ≡ false) e new in
      ground (arith, new', last, unseen-cons_le k n s)
  | inr other ↦
      let below : n < k = ground (arith, other, h) in
      ground (arith, other, unseen-cons k n s below new)
]

unfoldable pub walk_list : (List ℕ → ℕ → List ℕ) → List ℕ → List ℕ → List ℕ
walk_list w seen [] = seen
walk_list w seen (t ∷ ts) = walk_list w (w seen t) ts

pub All-mem {κ} : (P : ℕ → Type κ) (xs : List ℕ) (t : ℕ) → All P xs → mem xs t ≡ true → P t
All-mem P [] t all h = absurd (ground (arith, h))
All-mem P (x ∷ xs) t all h = elim (Bool-cases (x == t)) [
  | inl same ↦ subst P ((==_iff x t).0 same) all.0
  | inr other ↦ All-mem P xs t all.1 (ground (arith, other, h))
]

module _ (targets : ℕ → List ℕ) where
  unfoldable pub walk : ℕ → List ℕ → ℕ → List ℕ
  walk zero seen n = seen
  walk (suc fuel) seen n =
      let deeper = walk_list (λ s t. walk fuel s t) (n ∷ seen) (targets n) in
      if (n == 0) || mem seen n then seen else deeper

  -- A node that can be reached over targets that are not null.
  pub data Route : ℕ → ℕ → Type 0 where
    here : (n : ℕ) → Route n n
    step : {n m : ℕ} (t : ℕ) → mem (targets n) t ≡ true → t ≢ 0 → Route t m → Route n m

  -- Each target of a node is null or in a list.
  abbrev pub Leads : List ℕ → ℕ → Type 0
  Leads s n = All (λ t. (t ≡ 0) ⊎ (mem s t ≡ true)) (targets n)

-- A walk over a list, whose rounds keep what was seen.
module _ (w : List ℕ → ℕ → List ℕ)
    (mono : (s : List ℕ) (t m : ℕ) → mem s m ≡ true → mem (w s t) m ≡ true) where
  pub walk_list_mono :
      (ts : List ℕ) (s : List ℕ) (m : ℕ) → mem s m ≡ true → mem (walk_list w s ts) m ≡ true
  unfolding walk_list
  walk_list_mono [] s m h = h
  walk_list_mono (t ∷ ts) s m h = walk_list_mono ts (w s t) m (mono s t m h)

module _ (targets : ℕ → List ℕ) where
  pub walk_mono :
      (fuel : ℕ) (s : List ℕ) (n m : ℕ) → mem s m ≡ true → mem (walk targets fuel s n) m ≡ true
  unfolding walk
  walk_mono zero s n m h = h
  walk_mono (suc fuel) s n m h = elim (Bool-cases ((n == 0) || mem s n)) [
    | inl stop ↦ rw stop h
    | inr go ↦ rw go (
        walk_list_mono (walk targets fuel) (walk_mono fuel) (targets n) (n ∷ s) m
          (ground (arith, h)))
  ]

  -- What a walk adds can be reached.
  walk_list_sound :
      (w : List ℕ → ℕ → List ℕ)
      → ((s : List ℕ) (t m : ℕ)
          → mem (w s t) m ≡ true
          → (mem s m ≡ true) ⊎ ((t ≢ 0) × Route targets t m))
      → (ts s : List ℕ) (m : ℕ) → mem (walk_list w s ts) m ≡ true
      → (mem s m ≡ true) ⊎ ((t : ℕ) × (mem ts t ≡ true) × (t ≢ 0) × Route targets t m)
  unfolding walk_list
  walk_list_sound w sound [] s m h = inl h
  walk_list_sound w sound (t ∷ ts) s m h = elim (walk_list_sound w sound ts (w s t) m h) [
    | inl first ↦ elim (sound s t m first) [
      | inl old ↦ inl old
      | inr new ↦ inr (t, ground arith, new.0, new.1)
    ]
    | inr later ↦ inr (later.0, ground (arith, later.1), later.2, later.3)
  ]

  pub walk_sound :
      (fuel : ℕ) (s : List ℕ) (n m : ℕ)
      → mem (walk targets fuel s n) m ≡ true
      → (mem s m ≡ true) ⊎ ((n ≢ 0) × Route targets n m)
  unfolding walk
  walk_sound zero s n m h = inl h
  walk_sound (suc fuel) s n m h = elim (Bool-cases ((n == 0) || mem s n)) [
    | inl stop ↦ inl (rw stop at h)
    | inr go ↦
        let some_node : n ≢ 0 = λ e. ground (arith, go, e) in
        elim (walk_list_sound (walk targets fuel) (walk_sound fuel) (targets n) (n ∷ s) m
          (rw go at h)) [
            | inl old ↦ elim (Bool-cases (n == m)) [
              | inl same ↦ inr (some_node, subst (Route targets n) ((==_iff n m).0 same) (here n))
              | inr other ↦ inl (ground (arith, other, old))
            ]
            | inr new ↦ inr (some_node, step new.0 new.1 new.2 new.3)
          ]
  ]

  pub Leads-mono :
      (s s' : List ℕ) (n : ℕ)
      → ((m : ℕ) → mem s m ≡ true → mem s' m ≡ true)
      → Leads targets s n
      → Leads targets s' n
  Leads-mono s s' n sub =
      All-mono (λ t. (t ≡ 0) ⊎ (mem s t ≡ true)) (λ t. (t ≡ 0) ⊎ (mem s' t ≡ true)) (targets n)
        (λ t h. elim h [ inl null ↦ inl null | inr seen ↦ inr (sub t seen) ])
