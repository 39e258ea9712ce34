-- ===== src/Calls/Merged.antt =====
-- lib/DSA/DSCallGraph.cpp: the sets of leaders, and one step of the merge of callers.
use mathlib.Core.Path.{subst}
use poolalloc_3_1_upstreamed.Prelude.{
  ℕ, ◌≡◌, ◌⊎◌, ◌↔◌, refl, sym, ap, ◌∙◌, true, false, ◌||◌, Bool-cases, inl, inr, List, [], ◌∷◌,
  ◌==◌, ==_iff, if◌then◌else◌, arith,
}
use poolalloc_3_1_upstreamed.Prelude.Results.{returned}
use poolalloc_3_1_upstreamed.Sets.Svset.{insert, insert_range}
use poolalloc_3_1_upstreamed.Sets.Members.{
  mem, self_eq, IsAscending, mem-insert, insert-IsAscending,
}
use poolalloc_3_1_upstreamed.Sets.Ranges.{mem-insert_range}
use poolalloc_3_1_upstreamed.Nodes.Graph.{set_entry}
use poolalloc_3_1_upstreamed.Calls.Graph.{Classes, at, erase_entry, remove_ecs}
use poolalloc_3_1_upstreamed.Calls.Maps.{at-set_entry, at-erase_entry}

module _ {C : Type 0} (E : Classes C) (c : C) where
  -- All keys of a list are in the classes.
  abbrev pub AreKnown : List ℕ → Type 0
  AreKnown s = (d : ℕ) → mem s d ≡ true → E.has c d ≡ true

  -- A leader is its own leader.
  abbrev pub AreIdempotent : Type 0
  AreIdempotent = (f : ℕ) → E.has c f ≡ true → E.leader c (E.leader c f) ≡ E.leader c f

  -- A callee of a function of a class.
  abbrev pub FromClass : List (ℕ × List ℕ) → ℕ → ℕ → Type 0
  FromClass m l d = (f : ℕ) × (E.leader c f ≡ l) × (mem (at m f) d ≡ true)

  pub remove_ecs_lem :
      (fs result : List ℕ)
      → AreKnown fs
      → IsAscending result
      → (r : List ℕ) × (remove_ecs E c result fs ≡ returned r)
        × IsAscending r
        × ((l : ℕ)
            → (mem r l ≡ true)
              ↔ ((mem result l ≡ true) ⊎ ((d : ℕ) × (mem fs d ≡ true) × (E.leader c d ≡ l))))
  unfolding remove_ecs
  remove_ecs_lem [] result known up = (
    result,
    refl,
    up,
    λ l. (inl, λ h. elim h [ inl old ↦ old | inr from ↦ absurd (ground (arith, from.1)) ]),
  )
  remove_ecs_lem (f ∷ fs) result known up =
      let (r, e, up', to) =
        remove_ecs_lem fs (insert result (E.leader c f)).0 (λ d h. known d (ground (arith, h)))
          (insert-IsAscending result (E.leader c f) up) in
      (
        r,
        rw (known f (ground (arith, self_eq f))) e,
        up',
        (λ l. (
          λ h. elim ((to l).0 h) [
            | inl now ↦ elim (Bool-cases (E.leader c f == l)) [
              | inl same ↦ inr (f, ground (arith, self_eq f), (==_iff (E.leader c f) l).0 same)
              | inr other ↦ inl (ground (arith, mem-insert result (E.leader c f) l, now, other))
            ]
            | inr from ↦ inr (from.0, ground (arith, from.1), from.2)
          ],
          λ h. (to l).1 (elim h [
            | inl old ↦ inl (ground (arith, mem-insert result (E.leader c f) l, old))
            | inr from ↦ elim (Bool-cases (f == from.0)) [
              | inl same ↦
                  let e : E.leader c f ≡ l = ap (E.leader c) ((==_iff f from.0).0 same) ∙ from.2 in
                  inl (
                    mem-insert result (E.leader c f) l
                    ∙ (ground (arith, (==_iff (E.leader c f) l).1 e)))
              | inr other ↦ inr (from.0, ground (arith, from.1, other), from.2)
            ]
          ]),
        )),
      )

  -- The callers: each step keeps what the classes call.
  module _ (idem : AreIdempotent) where
    unfoldable pub merged : List (ℕ × List ℕ) → ℕ → List (ℕ × List ℕ)
    merged m f =
        erase_entry (set_entry m (E.leader c f) (insert_range (at m (E.leader c f)) (at m f))) f

    pub merged_lem :
        (m : List (ℕ × List ℕ)) (f : ℕ)
        → merged m f
          ≡ erase_entry (set_entry m (E.leader c f) (insert_range (at m (E.leader c f)) (at m f))) f
    unfolding merged
    merged_lem m f = refl

    at-merged :
        (m : List (ℕ × List ℕ)) (f j : ℕ)
        → at (merged m f) j ≡ (
            if f == j
            then []
            else if E.leader c f == j
            then insert_range (at m (E.leader c f)) (at m f)
            else at m j)
    unfolding merged
    at-merged m f j =
        at-erase_entry f (set_entry m (E.leader c f) (insert_range (at m (E.leader c f)) (at m f)))
          j
        ∙ ap (λ (s : List ℕ). if f == j then [] else s)
            (at-set_entry (E.leader c f) (insert_range (at m (E.leader c f)) (at m f)) m j)

    -- The callees behind a step, by the caller.
    mem-merged_gone : (m : List (ℕ × List ℕ)) (f d : ℕ) → mem (at (merged m f) f) d ≡ false
    mem-merged_gone m f d =
        let e : at (merged m f) f ≡ [] = at-merged m f f ∙ rw (self_eq f) refl in
        ap (λ s. mem s d) e

    mem-merged_leader :
        (m : List (ℕ × List ℕ)) (f d : ℕ)
        → (f == E.leader c f) ≡ false
        → mem (at (merged m f) (E.leader c f)) d ≡ (mem (at m (E.leader c f)) d || mem (at m f) d)
    mem-merged_leader m f d apart =
        ap (λ s. mem s d) (at-merged m f (E.leader c f) ∙ rw (apart, self_eq (E.leader c f)) refl)
        ∙ mem-insert_range (at m (E.leader c f)) (at m f) d

    mem-merged_other :
        (m : List (ℕ × List ℕ)) (f j d : ℕ)
        → (f == j) ≡ false
        → (E.leader c f == j) ≡ false
        → mem (at (merged m f) j) d ≡ mem (at m j) d
    mem-merged_other m f j d gone other =
        ap (λ s. mem s d) (at-merged m f j ∙ rw (gone, other) refl)

    pub merged-FromClass :
        (m : List (ℕ × List ℕ)) (f l d : ℕ)
        → E.has c f ≡ true
        → (E.leader c f == f) ≡ false
        → FromClass m l d ↔ FromClass (merged m f) l d
    merged-FromClass m f l d known apart = (to, from)
      where
        turned : (f == E.leader c f) ≡ false
        turned = ground (arith, apart)

        lead : E.leader c (E.leader c f) ≡ E.leader c f
        lead = idem f known

        union :
            mem (at (merged m f) (E.leader c f)) d ≡ (mem (at m (E.leader c f)) d || mem (at m f) d)
        union = mem-merged_leader m f d turned

        to : FromClass m l d → FromClass (merged m f) l d
        to (h, is, there) = elim (Bool-cases (f == h)) [
          | inl same ↦
              let e : f ≡ h = (==_iff f h).0 same in
              let there' : mem (at m f) d ≡ true =
                subst (λ j. mem (at m j) d ≡ true) (sym e) there in
              (E.leader c f, lead ∙ ap (E.leader c) e ∙ is, ground (arith, union, there'))
          | inr other ↦ elim (Bool-cases (E.leader c f == h)) [
            | inl same ↦
                let e : E.leader c f ≡ h = (==_iff (E.leader c f) h).0 same in
                let there' : mem (at m (E.leader c f)) d ≡ true =
                  subst (λ j. mem (at m j) d ≡ true) (sym e) there in
                (E.leader c f, ap (E.leader c) e ∙ is, ground (arith, union, there'))
            | inr third ↦ (h, is, mem-merged_other m f h d other third ∙ there)
          ]
        ]

        from : FromClass (merged m f) l d → FromClass m l d
        from (h, is, there) = elim (Bool-cases (f == h)) [
          | inl same ↦
              let e : f ≡ h = (==_iff f h).0 same in
              let there' : mem (at (merged m f) f) d ≡ true =
                subst (λ j. mem (at (merged m f) j) d ≡ true) (sym e) there in
              absurd (ground (arith, mem-merged_gone m f d, there'))
          | inr other ↦ elim (Bool-cases (E.leader c f == h)) [
            | inl same ↦
                let e : E.leader c f ≡ h = (==_iff (E.leader c f) h).0 same in
                let there' : mem (at (merged m f) (E.leader c f)) d ≡ true =
                  subst (λ j. mem (at (merged m f) j) d ≡ true) (sym e) there in
                elim (Bool-cases (mem (at m (E.leader c f)) d)) [
                  | inl own ↦ (E.leader c f, ap (E.leader c) e ∙ is, own)
                  | inr taken ↦
                      (f, sym lead ∙ ap (E.leader c) e ∙ is, ground (arith, union, there', taken))
                ]
            | inr third ↦ (h, is, sym (mem-merged_other m f h d other third) ∙ there)
          ]
        ]
