-- ===== src/Calls/Quotient.antt =====
-- lib/DSA/DSCallGraph.cpp: `removeECFunctions` makes the graph of the classes.
use mathlib.Core.Path.{subst}
use poolalloc_3_1_upstreamed.Prelude.{
  ℕ, ◌≡◌, ◌≢◌, ◌↔◌, refl, sym, ap, ◌∙◌, true, false, Bool-cases, inl, inr, List, [], ◌∷◌, ◌==◌,
  ==_iff, arith, All,
}
use poolalloc_3_1_upstreamed.Prelude.Results.{returned}
use poolalloc_3_1_upstreamed.Sets.Svset.{erase}
use poolalloc_3_1_upstreamed.Sets.Members.{mem, mem-erase}
use poolalloc_3_1_upstreamed.Calls.Graph.{
  Classes, CallGraph, at, keys, replace_callees, replace_actual, remove_ec_functions,
}
use poolalloc_3_1_upstreamed.Calls.Maps.{at_absent}
use poolalloc_3_1_upstreamed.Calls.Merged.{AreKnown, AreIdempotent, FromClass, remove_ecs_lem}
use poolalloc_3_1_upstreamed.Calls.Callers.{HasKnown, merge_callers_lem}

module _ {C : Type 0} (E : Classes C) (c : C) (idem : AreIdempotent E c) where
  -- The callees of each caller become leaders, without the caller.
  replace_callees_lem :
      (m : List (ℕ × List ℕ))
      → HasKnown E c idem m
      → (m' : List (ℕ × List ℕ)) × (replace_callees E c m ≡ returned m')
        × ((k l : ℕ)
            → (mem (at m' k) l ≡ true)
              ↔ ((k ≢ l) × ((d : ℕ) × (mem (at m k) d ≡ true) × (E.leader c d ≡ l))))
  unfolding replace_callees
  replace_callees_lem [] known =
      ([], refl, λ k l. (λ h. absurd (ground (arith, h)), λ h. absurd (ground (arith, h.1.1))))
  replace_callees_lem ((i, s) ∷ m) known =
      let (s', e, up, to) = remove_ecs_lem E c s [] known.0 tt in
      let (m', e', rest) = replace_callees_lem m known.1 in
      (
        (i, (erase s' i).0) ∷ m',
        rw (e, e') refl,
        (λ k l. elim (Bool-cases (i == k)) [
          | inl same ↦
              let eq : i ≡ k = (==_iff i k).0 same in
              let gone = mem-erase s' i l up in
              let left : at ((i, (erase s' i).0) ∷ m') k ≡ (erase s' i).0 = rw (at, same) refl in
              let right : at ((i, s) ∷ m) k ≡ s = rw (at, same) refl in
              rw (left, right)
                (
                  λ h. (
                    λ ek. ground (arith, gone, h, eq ∙ ek),
                    elim ((to l).0 (ground (arith, gone, h))) [
                      | inl before ↦ absurd (ground (arith, before))
                      | inr from ↦ from
                    ],
                  ),
                  λ h.
                      let apart : (i == l) ≡ false = elim (Bool-cases (i == l)) [
                        | inl is ↦ absurd (h.0 (sym eq ∙ (==_iff i l).0 is))
                        | inr other ↦ other
                      ] in
                      gone ∙ ground (arith, apart, (to l).1 (inr h.1)),
                )
          | inr other ↦
              let left : at ((i, (erase s' i).0) ∷ m') k ≡ at m' k = rw (at, other) refl in
              let right : at ((i, s) ∷ m) k ≡ at m k = rw (at, other) refl in
              rw (left, right) (rest k l)
        ]),
      )

  replace_actual_lem :
      (m : List (ℕ × List ℕ))
      → HasKnown E c idem m
      → (m' : List (ℕ × List ℕ)) × (replace_actual E c m ≡ returned m')
        × ((k l : ℕ)
            → (mem (at m' k) l ≡ true) ↔ ((d : ℕ) × (mem (at m k) d ≡ true) × (E.leader c d ≡ l)))
  unfolding replace_actual
  replace_actual_lem [] known =
      ([], refl, λ k l. (λ h. absurd (ground (arith, h)), λ h. absurd (ground (arith, h.1))))
  replace_actual_lem ((i, s) ∷ m) known =
      let (s', e, up, to) = remove_ecs_lem E c s [] known.0 tt in
      let (m', e', rest) = replace_actual_lem m known.1 in
      (
        (i, s') ∷ m',
        rw (e, e') refl,
        (λ k l. elim (Bool-cases (i == k)) [
          | inl same ↦
              let left : at ((i, s') ∷ m') k ≡ s' = rw (at, same) refl in
              let right : at ((i, s) ∷ m) k ≡ s = rw (at, same) refl in
              rw (left, right)
                (
                  λ h. elim ((to l).0 h) [
                    | inl before ↦ absurd (ground (arith, before))
                    | inr from ↦ from
                  ],
                  λ h. (to l).1 (inr h),
                )
          | inr other ↦
              let left : at ((i, s') ∷ m') k ≡ at m' k = rw (at, other) refl in
              let right : at ((i, s) ∷ m) k ≡ at m k = rw (at, other) refl in
              rw (left, right) (rest k l)
        ]),
      )

  -- A caller that is there.
  caller-key : (m : List (ℕ × List ℕ)) (f d : ℕ) → mem (at m f) d ≡ true → mem (keys m) f ≡ true
  caller-key m f d h = elim (Bool-cases (mem (keys m) f)) [
    | inl there ↦ there
    | inr absent ↦
        let e : mem (at m f) d ≡ false = ap (λ s. mem s d) (at_absent m f absent) in
        absurd (ground (arith, e, h))
  ]

-- If every caller and callee is in the classes and a leader is its own leader, removeECFunctions
-- returns the graph in which a class, by its leader, calls another one exactly when a function of the
-- first called one of the second, and none calls itself; a call site calls exactly the leaders of what
-- it called.
pub remove_ec_functions-Quotient :
    {C : Type 0} (E : Classes C) (g : CallGraph C)
    → AreIdempotent E g.sccs
    → AreKnown E g.sccs (keys g.simple_callees)
    → All (λ e. AreKnown E g.sccs e.1) g.simple_callees
    → All (λ e. AreKnown E g.sccs e.1) g.actual_callees
    → (g' : CallGraph C) × (remove_ec_functions E g ≡ returned g')
      × ((l k : ℕ)
          → (mem (at g'.simple_callees l) k ≡ true) ↔ (
              (l ≢ k)
              × ((d : ℕ) × FromClass E g.sccs g.simple_callees l d × (E.leader g.sccs d ≡ k))))
      × ((cs k : ℕ)
          → (mem (at g'.actual_callees cs) k ≡ true)
            ↔ ((d : ℕ) × (mem (at g.actual_callees cs) d ≡ true) × (E.leader g.sccs d ≡ k)))
unfolding remove_ec_functions
remove_ec_functions-Quotient E g idem known simple actual =
    let c = g.sccs in
    let (m, e, known', leaders, same) =
      merge_callers_lem E c idem (keys g.simple_callees) g.simple_callees known simple
        (λ j h. inr h) in
    let (m', e', to) = replace_callees_lem E c idem m known' in
    let (a, e'', to') = replace_actual_lem E c idem g.actual_callees actual in
    (
      record g { simple_callees = m'; actual_callees = a },
      rw (e, e', e'') refl,
      (λ l k. (
        λ h.
            let (ne, from) = (to l k).0 h in
            let (d, there, is) = from in
            let own = leaders l (caller-key E c idem m l d there) in
            (ne, (d, (same l d).1 (l, own, there), is)),
        λ h.
            let (f, is, there) = (same l h.1.0).0 h.1.1 in
            let own = leaders f (caller-key E c idem m f h.1.0 there) in
            (to l k).1
              (h.0, (h.1.0, subst (λ j. mem (at m j) h.1.0 ≡ true) (sym own ∙ is) there, h.1.2)),
      )),
      to',
    )
