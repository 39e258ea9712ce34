-- ===== src/Calls/Callers.antt =====
-- lib/DSA/DSCallGraph.cpp: `removeECFunctions` gives the callees of each class to its leader.
use mathlib.Core.Path.{subst}
use poolalloc_3_1_upstreamed.Prelude.{
  ℕ, ◌≡◌, ◌⊎◌, ◌↔◌, refl, ap, ◌∙◌, true, ◌||◌, ◌&&◌, not, Bool-cases, inl, inr, List, [], ◌∷◌, ◌==◌,
  ==_iff, arith, All,
}
use poolalloc_3_1_upstreamed.Prelude.Results.{returned}
use poolalloc_3_1_upstreamed.Sets.Svset.{insert_range}
use poolalloc_3_1_upstreamed.Sets.Members.{mem, self_eq}
use poolalloc_3_1_upstreamed.Sets.Ranges.{mem-insert_range}
use poolalloc_3_1_upstreamed.Nodes.Graph.{set_entry}
use poolalloc_3_1_upstreamed.Calls.Graph.{Classes, at, keys, merge_callers}
use poolalloc_3_1_upstreamed.Calls.Maps.{
  keys-set_entry, set_entry-All, keys-erase_entry, erase_entry-All, at-All,
}
use poolalloc_3_1_upstreamed.Calls.Merged.{
  AreKnown, AreIdempotent, FromClass, merged, merged_lem, merged-FromClass,
}

module _ {C : Type 0} (E : Classes C) (c : C) (idem : AreIdempotent E c) where
  -- The callees of all callers are in the classes.
  abbrev pub HasKnown : List (ℕ × List ℕ) → Type 0
  HasKnown m = All (λ e. AreKnown E c e.1) m

  union_known : (s t : List ℕ) → AreKnown E c s → AreKnown E c t → AreKnown E c (insert_range s t)
  union_known s t hs ht d h = elim (Bool-cases (mem s d)) [
    | inl left ↦ hs d left
    | inr other ↦ ht d (ground (arith, mem-insert_range s t d, h, other))
  ]

  none_known : AreKnown E c []
  none_known d h = absurd (ground (arith, h))

  merged-HasKnown : (m : List (ℕ × List ℕ)) (f : ℕ) → HasKnown m → HasKnown (merged E c idem m f)
  unfolding merged
  merged-HasKnown m f known =
      let own = λ (j : ℕ). at-All (AreKnown E c) m j none_known known in
      erase_entry-All f (AreKnown E c)
        (set_entry m (E.leader c f) (insert_range (at m (E.leader c f)) (at m f)))
        (set_entry-All (E.leader c f) (insert_range (at m (E.leader c f)) (at m f)) (AreKnown E c) m
          (union_known (at m (E.leader c f)) (at m f) (own (E.leader c f)) (own f)) known)

  keys-merged :
      (m : List (ℕ × List ℕ)) (f j : ℕ)
      → mem (keys (merged E c idem m f)) j
        ≡ (not (f == j) && ((E.leader c f == j) || mem (keys m) j))
  unfolding merged
  keys-merged m f j =
      keys-erase_entry f (set_entry m (E.leader c f) (insert_range (at m (E.leader c f)) (at m f)))
        j
      ∙ ap (λ b. not (f == j) && b)
          (keys-set_entry (E.leader c f) (insert_range (at m (E.leader c f)) (at m f)) m j)

  -- Behind the loop over the callers all callers are leaders, and the classes call what they did.
  pub merge_callers_lem :
      (fs : List ℕ) (m : List (ℕ × List ℕ))
      → AreKnown E c fs
      → HasKnown m
      → ((j : ℕ) → mem (keys m) j ≡ true → (E.leader c j ≡ j) ⊎ (mem fs j ≡ true))
      → (m' : List (ℕ × List ℕ)) × (merge_callers E c m fs ≡ returned m')
        × HasKnown m'
        × ((j : ℕ) → mem (keys m') j ≡ true → E.leader c j ≡ j)
        × ((l d : ℕ) → FromClass E c m l d ↔ FromClass E c m' l d)
  unfolding merge_callers
  merge_callers_lem [] m are known led = (
    m,
    refl,
    known,
    (λ j h. elim (led j h) [ inl is ↦ is | inr rest ↦ absurd (ground (arith, rest)) ]),
    (λ l d. (λ h. h, λ h. h)),
  )
  merge_callers_lem (f ∷ fs) m are known led =
      let has : E.has c f ≡ true = are f (ground (arith, self_eq f)) in
      let rest = λ (d : ℕ) (h : mem fs d ≡ true). are d (ground (arith, h)) in
      elim (Bool-cases (E.leader c f == f)) [
        | inl leads ↦
            let (m', e, known', leaders, same) = merge_callers_lem fs m rest known (λ j h.
              elim (led j h) [
                | inl is ↦ inl is
                | inr listed ↦ elim (Bool-cases (f == j)) [
                  | inl here ↦ inl (
                      subst (λ k. E.leader c k ≡ k) ((==_iff f j).0 here)
                        ((==_iff (E.leader c f) f).0 leads))
                  | inr other ↦ inr (ground (arith, listed, other))
                ]
              ]) in
            (m', rw (has, leads) e, known', leaders, same)
        | inr apart ↦
            let (m', e, known', leaders, same) =
              merge_callers_lem fs (merged E c idem m f) rest (merged-HasKnown m f known) (λ j h.
                elim (Bool-cases (E.leader c f == j)) [
                  | inl is ↦
                      inl (
                        subst (λ k. E.leader c k ≡ k) ((==_iff (E.leader c f) j).0 is) (idem f has))
                  | inr other ↦ elim (led j (ground (arith, keys-merged m f j, h, other))) [
                    | inl leads ↦ inl leads
                    | inr listed ↦ inr (ground (arith, keys-merged m f j, h, listed))
                  ]
                ]) in
            (
              m',
              rw (has, apart)
                  (subst (λ x. merge_callers E c x fs ≡ returned m') (merged_lem E c idem m f) e),
              known',
              leaders,
              (λ l d. (
                λ h. (same l d).0 ((merged-FromClass E c idem m f l d has apart).0 h),
                λ h. (merged-FromClass E c idem m f l d has apart).1 ((same l d).1 h),
              )),
            )
      ]
