-- ===== src/Heuristics/Chosen.antt =====
-- lib/PoolAllocate/Heuristic.cpp: which nodes the heuristics choose.
use mathlib.Core.Path.{subst}
use poolalloc_3_1_upstreamed.Prelude.{
  ℕ, ◌<◌, ◌≡◌, ◌≢◌, ◌⊎◌, inl, inr, ◌↔◌, refl, sym, Bool, true, Bool-cases, List, [], ◌∷◌, ◌==◌,
  ==_iff, if◌then◌else◌, arith, All,
}
use poolalloc_3_1_upstreamed.Prelude.Results.{Result, returned}
use poolalloc_3_1_upstreamed.Sets.Members.{mem}
use poolalloc_3_1_upstreamed.Nodes.Graph.{Graph}
use poolalloc_3_1_upstreamed.Graphs.Walk.{walk_list, Route, here, step, Leads, Leads-mono, All-mem}
use poolalloc_3_1_upstreamed.Graphs.Reached.{targets}
use poolalloc_3_1_upstreamed.Heuristics.Pools.{choose}

-- LLVM's depth-first iterator: the external set only grows, and where it has all that its nodes lead
-- to, an iterator adds exactly the nodes that can be reached from its first one.
pub record IsDepthFirst (targets : ℕ → List ℕ) (df : List ℕ → ℕ → List ℕ) (k : ℕ) : Type 0 where
  pub grows : (s : List ℕ) (n m : ℕ) → mem s m ≡ true → mem (df s n) m ≡ true
  pub reaches :
      (s : List ℕ) (n m : ℕ)
      → n < k
      → n ≢ 0
      → ((j : ℕ) → mem s j ≡ true → Leads targets s j)
      → (mem (df s n) m ≡ true) ↔ ((mem s m ≡ true) ⊎ Route targets n m)

-- A node that some target of a list leads to.
abbrev pub FromTarget : (ℕ → List ℕ) → List ℕ → ℕ → Type 0
FromTarget targets ts m = (t : ℕ) × (mem ts t ≡ true) × (t ≢ 0) × Route targets t m

-- A node that some node of the list leads to over at least one link.
abbrev pub FromMemory : Graph → List ℕ → ℕ → Type 0
FromMemory g nodes m = (n : ℕ) × (mem nodes n ≡ true) × FromTarget (targets g) (targets g n) m

Route-snoc :
    (targets : ℕ → List ℕ) (n m t : ℕ)
    → Route targets n m
    → mem (targets m) t ≡ true
    → t ≢ 0
    → Route targets n t
Route-snoc targets n m t (here c) is ne = step t is ne (here t)
Route-snoc targets n m t (step u at ne' route) is ne =
    step u at ne' (Route-snoc targets u m t route is ne)

All-from-mem {κ} : (P : ℕ → Type κ) (xs : List ℕ) → ((t : ℕ) → mem xs t ≡ true → P t) → All P xs
All-from-mem P [] each = tt
All-from-mem P (x ∷ xs) each =
    (each x (ground arith), All-from-mem P xs (λ t h. each t (ground (arith, h))))

-- What leads to nothing else holds all that its nodes reach.
pub closed_Route :
    (targets : ℕ → List ℕ) (s : List ℕ) (a b : ℕ)
    → ((j : ℕ) → mem s j ≡ true → Leads targets s j)
    → Route targets a b
    → mem s a ≡ true
    → mem s b ≡ true
closed_Route targets s a b closed (here c) h = h
closed_Route targets s a b closed (step t is ne route) h =
    elim (All-mem (λ t. (t ≡ 0) ⊎ (mem s t ≡ true)) (targets a) t (closed a h) is) [
      | inl null ↦ absurd (ne null)
      | inr there ↦ closed_Route targets s t b closed route there
    ]

-- One child of a node.
abbrev pub visit : (List ℕ → ℕ → List ℕ) → List ℕ → ℕ → List ℕ
visit df s c = if c == 0 then s else df s c

module _ (targets : ℕ → List ℕ) where
  pub null_child :
      (t : ℕ) (ts : List ℕ) (m : ℕ)
      → (t == 0) ≡ true
      → FromTarget targets (t ∷ ts) m
      → FromTarget targets ts m
  null_child t ts m null (u, is, ne, route) = (u, ground (arith, is, null, ne), ne, route)

  pub later_child :
      (t : ℕ) (ts : List ℕ) (m : ℕ) → FromTarget targets ts m → FromTarget targets (t ∷ ts) m
  later_child t ts m (u, is, ne, route) = (u, ground (arith, is), ne, route)

  -- A child that is not null comes first, or later.
  pub first_child :
      (t : ℕ) (ts : List ℕ) (m : ℕ)
      → t ≢ 0
      → FromTarget targets (t ∷ ts) m ↔ (Route targets t m ⊎ FromTarget targets ts m)
  first_child t ts m ne = (
    λ h. elim (Bool-cases (t == h.0)) [
      | inl same ↦ inl (subst (λ j. Route targets j m) (sym ((==_iff t h.0).0 same)) h.3)
      | inr other ↦ inr (h.0, ground (arith, h.1, other), h.2, h.3)
    ],
    λ h. elim h [ inl route ↦ (t, ground arith, ne, route) | inr later ↦ later_child t ts m later ],
  )

module _ (targets : ℕ → List ℕ) (df : List ℕ → ℕ → List ℕ) (k : ℕ)
    (first : IsDepthFirst targets df k) where
  pub visit_mono : (s : List ℕ) (n m : ℕ) → mem s m ≡ true → mem (visit df s n) m ≡ true
  visit_mono s n m h = elim (Bool-cases (n == 0)) [
    | inl null ↦ rw null h
    | inr node ↦ rw node (first.grows s n m h)
  ]

  -- What an iterator leaves leads to nothing else.
  df-Closed :
      (s : List ℕ) (n : ℕ)
      → n < k
      → n ≢ 0
      → ((j : ℕ) → mem s j ≡ true → Leads targets s j)
      → (j : ℕ) → mem (df s n) j ≡ true
      → Leads targets (df s n) j
  df-Closed s n lt ne closed j h = elim ((first.reaches s n j lt ne closed).0 h) [
    | inl old ↦ Leads-mono targets s (df s n) j (λ m. first.grows s n m) (closed j old)
    | inr route ↦
        All-from-mem (λ t. (t ≡ 0) ⊎ (mem (df s n) t ≡ true)) (targets j)
          (λ t is. elim (Bool-cases (t == 0)) [
            | inl null ↦ inl (ground (arith, null))
            | inr node ↦ inr (
                (first.reaches s n t lt ne closed).1
                  (inr (Route-snoc targets n j t route is (λ e. ground (arith, node, e)))))
          ])
  ]

  -- The loop over the children of a node.
  pub walk_list-visit :
      (ts s : List ℕ)
      → All (λ t. t < k) ts
      → ((j : ℕ) → mem s j ≡ true → Leads targets s j)
      → ((m : ℕ)
          → (mem (walk_list (visit df) s ts) m ≡ true)
            ↔ ((mem s m ≡ true) ⊎ FromTarget targets ts m))
        × ((j : ℕ)
            → mem (walk_list (visit df) s ts) j ≡ true
            → Leads targets (walk_list (visit df) s ts) j)
  unfolding walk_list
  walk_list-visit [] s all closed = (
    (λ m. (inl, λ h. elim h [ inl old ↦ old | inr new ↦ absurd (ground (arith, new.1)) ])),
    closed,
  )
  walk_list-visit (t ∷ ts) s all closed = elim (Bool-cases (t == 0)) [
    | inl null ↦
        let (to, closed') = walk_list-visit ts s all.1 closed in
        rw null (
          (λ m. (
            λ h. elim ((to m).0 h) [
              | inl old ↦ inl old
              | inr new ↦ inr (later_child targets t ts m new)
            ],
            λ h.
                (to m).1 (elim h [
                  | inl old ↦ inl old
                  | inr new ↦ inr (null_child targets t ts m null new)
                ]),
          )),
          closed',
        )
    | inr node ↦
        let ne : t ≢ 0 = λ e. ground (arith, node, e) in
        let (to, closed') = walk_list-visit ts (df s t) all.1 (df-Closed s t all.0 ne closed) in
        let at = λ (m : ℕ). first.reaches s t m all.0 ne closed in
        rw node (
          (λ m. (
            λ h. elim ((to m).0 h) [
              | inl before ↦ elim ((at m).0 before) [
                | inl old ↦ inl old
                | inr route ↦ inr ((first_child targets t ts m ne).1 (inl route))
              ]
              | inr new ↦ inr (later_child targets t ts m new)
            ],
            λ h. (to m).1 (elim h [
              | inl old ↦ inl ((at m).1 (inl old))
              | inr new ↦ elim ((first_child targets t ts m ne).0 new) [
                | inl route ↦ inl ((at m).1 (inr route))
                | inr later ↦ inr later
              ]
            ]),
          )),
          closed',
        )
  ]

-- A loop of AssignToPools chooses the nodes that pass its test.
pub choose_lem :
    (test : ℕ → Result Bool) (P : ℕ → Type 0) (ns : List ℕ)
    → ((n : ℕ) → mem ns n ≡ true → (b : Bool) × (test n ≡ returned b) × ((b ≡ true) ↔ P n))
    → (r : List ℕ) × (choose test ns ≡ returned r)
      × ((m : ℕ) → (mem r m ≡ true) ↔ ((mem ns m ≡ true) × P m))
unfolding choose
choose_lem test P [] each =
    ([], refl, λ m. (λ h. absurd (ground (arith, h)), λ h. absurd (ground (arith, h.0))))
choose_lem test P (n ∷ ns) each =
    let (b, e, is) = each n (ground arith) in
    let (r, e', to) = choose_lem test P ns (λ m h. each m (ground (arith, h))) in
    elim (Bool-cases b) [
      | inl passes ↦ (
        n ∷ r,
        rw (e, e', passes) refl,
        (λ m. (
          λ h. elim (Bool-cases (n == m)) [
            | inl same ↦ (ground (arith, same), subst P ((==_iff n m).0 same) (is.0 passes))
            | inr other ↦
                let (there, p) = (to m).0 (ground (arith, h, other)) in (ground (arith, there), p)
          ],
          λ (there, p). elim (Bool-cases (n == m)) [
            | inl same ↦ ground (arith, same)
            | inr other ↦ ground (arith, (to m).1 (ground (arith, there, other), p))
          ],
        )),
      )
      | inr fails ↦ (
        r,
        rw (e, e', fails) refl,
        (λ m. (
          λ h. let (there, p) = (to m).0 h in (ground (arith, there), p),
          λ (there, p). elim (Bool-cases (n == m)) [
            | inl same ↦
                absurd (ground (arith, fails, is.1 (subst P (sym ((==_iff n m).0 same)) p)))
            | inr other ↦ (to m).1 (ground (arith, there, other), p)
          ],
        )),
      )
    ]
