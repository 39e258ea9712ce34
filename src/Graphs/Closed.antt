-- ===== src/Graphs/Closed.antt =====
-- A walk that has fuel for every node sees exactly what can be reached.
use mathlib.Core.Path.{subst}
use poolalloc_3_1_upstreamed.Prelude.{
  ℕ, zero, suc, ◌<◌, ◌≡◌, ◌≢◌, ◌⊎◌, inl, inr, ◌↔◌, true, false, ◌||◌, Bool-cases, List, [], ◌∷◌,
  ◌==◌, ==_iff, arith, All,
}
use poolalloc_3_1_upstreamed.Sets.Members.{mem}
use poolalloc_3_1_upstreamed.Graphs.Walk.{
  unseen, unseen-le, unseen-cons, walk_list, All-mem, walk, Route, here, step, Leads,
  walk_list_mono, walk_mono, walk_sound, Leads-mono,
}

module _ (targets : ℕ → List ℕ) where
  -- With fuel for each node below `k` that is not seen yet.
  module _ (k : ℕ) (below : (n : ℕ) → n < k → All (λ t. t < k) (targets n)) where
    pub mem-walk :
        (fuel : ℕ) (s : List ℕ) (n : ℕ)
        → unseen k s < fuel
        → (n ≡ 0) ⊎ (mem (walk targets fuel s n) n ≡ true)
    unfolding walk
    mem-walk zero s n enough = elim enough [ ]
    mem-walk (suc fuel) s n enough = elim (Bool-cases (n == 0)) [
      | inl null ↦ inl (ground (arith, null))
      | inr some_node ↦ elim (Bool-cases (mem s n)) [
        | inl old ↦ inr (rw (some_node, old) old)
        | inr new ↦ inr (
            rw (some_node, new)
              (walk_list_mono (walk targets fuel) (walk_mono targets fuel) (targets n) (n ∷ s) n
                (ground arith)))
      ]
    ]

    mem-walk_list :
        (fuel : ℕ) (ts s : List ℕ)
        → unseen k s < fuel
        → All (λ t. (t ≡ 0) ⊎ (mem (walk_list (walk targets fuel) s ts) t ≡ true)) ts
    unfolding walk_list
    mem-walk_list fuel [] s enough = tt
    mem-walk_list fuel (t ∷ ts) s enough =
        let less = unseen-le k s (walk targets fuel s t) (walk_mono targets fuel s t) in
        (
          elim (mem-walk fuel s t enough) [
            | inl null ↦ inl null
            | inr seen ↦ inr (
                walk_list_mono (walk targets fuel) (walk_mono targets fuel) ts
                  (walk targets fuel s t) t seen)
          ],
          mem-walk_list fuel ts (walk targets fuel s t) (omega (arith, less, enough)),
        )

    walk_list_closed :
        (fuel : ℕ)
        → ((s : List ℕ) (n m : ℕ)
            → unseen k s < fuel
            → n < k
            → mem (walk targets fuel s n) m ≡ true
            → (mem s m ≡ true) ⊎ Leads targets (walk targets fuel s n) m)
        → (ts s : List ℕ) (m : ℕ) → unseen k s < fuel
        → All (λ t. t < k) ts
        → mem (walk_list (walk targets fuel) s ts) m ≡ true
        → (mem s m ≡ true) ⊎ Leads targets (walk_list (walk targets fuel) s ts) m
    unfolding walk_list
    walk_list_closed fuel closed [] s m enough all h = inl h
    walk_list_closed fuel closed (t ∷ ts) s m enough all h =
        let s' = walk targets fuel s t in
        let less = unseen-le k s s' (walk_mono targets fuel s t) in
        elim (walk_list_closed fuel closed ts s' m (omega (arith, less, enough)) all.1 h) [
          | inl first ↦ elim (closed s t m enough all.0 first) [
            | inl old ↦ inl old
            | inr leads ↦ inr (
                Leads-mono targets s' (walk_list (walk targets fuel) s' ts) m
                  (walk_list_mono (walk targets fuel) (walk_mono targets fuel) ts s') leads)
          ]
          | inr leads ↦ inr leads
        ]

    -- What a walk adds leads to what is seen.
    pub walk_closed :
        (fuel : ℕ) (s : List ℕ) (n m : ℕ)
        → unseen k s < fuel
        → n < k
        → mem (walk targets fuel s n) m ≡ true
        → (mem s m ≡ true) ⊎ Leads targets (walk targets fuel s n) m
    unfolding walk
    walk_closed zero s n m enough lt h = inl h
    walk_closed (suc fuel) s n m enough lt h = elim (Bool-cases ((n == 0) || mem s n)) [
      | inl stop ↦ inl (rw stop at h)
      | inr go ↦
          let new : mem s n ≡ false = ground (arith, go) in
          let less = unseen-cons k n s lt new in
          let enough' : unseen k (n ∷ s) < fuel = omega (arith, less, enough) in
          let all = mem-walk_list fuel (targets n) (n ∷ s) enough' in
          rw go
            (elim (walk_list_closed fuel (walk_closed fuel) (targets n) (n ∷ s) m enough'
              (below n lt) (rw go at h)) [
                | inl old ↦ elim (Bool-cases (n == m)) [
                  | inl same ↦ inr (
                      subst (Leads targets (walk_list (walk targets fuel) (n ∷ s) (targets n)))
                        ((==_iff n m).0 same) all)
                  | inr other ↦ inl (ground (arith, other, old))
                ]
                | inr leads ↦ inr leads
              ])
    ]

    -- A list that leads to nothing else stays so.
    pub walk-Closed :
        (fuel : ℕ) (s : List ℕ) (n j : ℕ)
        → unseen k s < fuel
        → n < k
        → ((i : ℕ) → mem s i ≡ true → Leads targets s i)
        → mem (walk targets fuel s n) j ≡ true
        → Leads targets (walk targets fuel s n) j
    walk-Closed fuel s n j enough lt closed h = elim (walk_closed fuel s n j enough lt h) [
      | inl old ↦
          Leads-mono targets s (walk targets fuel s n) j (walk_mono targets fuel s n) (closed j old)
      | inr new ↦ new
    ]

    -- A walk from a list that is closed sees what can be reached and nothing else.
    pub walk-Route :
        (fuel : ℕ) (s : List ℕ) (n m : ℕ)
        → unseen k s < fuel
        → n < k
        → n ≢ 0
        → ((j : ℕ) → mem s j ≡ true → Leads targets s j)
        → (mem (walk targets fuel s n) m ≡ true) ↔ ((mem s m ≡ true) ⊎ Route targets n m)
    walk-Route fuel s n m enough lt some_node closed = (
      λ h. elim (walk_sound targets fuel s n m h) [ inl old ↦ inl old | inr new ↦ inr new.1 ],
      λ h. elim h [
        | inl old ↦ walk_mono targets fuel s n m old
        | inr path ↦ elim (mem-walk fuel s n enough) [
          | inl null ↦ absurd (some_node null)
          | inr seen ↦ follow n m path seen
        ]
      ],
    )
      where
        follow :
            (a b : ℕ)
            → Route targets a b
            → mem (walk targets fuel s n) a ≡ true
            → mem (walk targets fuel s n) b ≡ true
        follow a b (here c) h = h
        follow a b (step t is ne path) h =
            elim (All-mem (λ t. (t ≡ 0) ⊎ (mem (walk targets fuel s n) t ≡ true)) (targets a) t
              (walk-Closed fuel s n a enough lt closed h) is) [
                | inl null ↦ absurd (ne null)
                | inr seen ↦ follow t b path seen
              ]
