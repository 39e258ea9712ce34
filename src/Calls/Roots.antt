-- ===== src/Calls/Roots.antt =====
-- lib/DSA/DSCallGraph.cpp: the roots that `buildRoots` finds.
use poolalloc_3_1_upstreamed.Prelude.{
  ℕ, ◌<◌, ◌≡◌, refl, ◌∙◌, Bool, true, false, ◌||◌, ◌&&◌, not, Bool-cases, inl, inr, List, [], ◌∷◌,
  ltb, ltb→lt, ◌==◌, arith, All, All-mono,
}
use poolalloc_3_1_upstreamed.Sets.Svset.{insert, insert_range}
use poolalloc_3_1_upstreamed.Sets.Members.{
  mem, IsAscending, mem-insert, insert-IsAscending, mem-above,
}
use poolalloc_3_1_upstreamed.Sets.Ranges.{mem-insert_range, insert_range-IsAscending}
use poolalloc_3_1_upstreamed.Calls.Graph.{
  CallGraph, keys, difference_from, set_difference, insert_each, known_callees, build_roots,
}

-- Whether any caller calls a function.
abbrev pub any_calls : List (ℕ × List ℕ) → ℕ → Bool
any_calls [] f = false
any_calls ((k, s) ∷ m) f = mem s f || any_calls m f

mem-insert_each : (xs s : List ℕ) (k : ℕ) → mem (insert_each s xs) k ≡ (mem s k || mem xs k)
unfolding insert_each
mem-insert_each [] s k = ground arith
mem-insert_each (x ∷ xs) s k =
    mem-insert_each xs (insert s x).0 k ∙ ground (arith, mem-insert s x k)

insert_each-IsAscending : (xs s : List ℕ) → IsAscending s → IsAscending (insert_each s xs)
unfolding insert_each
insert_each-IsAscending [] s up = up
insert_each-IsAscending (x ∷ xs) s up =
    insert_each-IsAscending xs (insert s x).0 (insert-IsAscending s x up)

mem-known_callees :
    (m : List (ℕ × List ℕ)) (s : List ℕ) (k : ℕ)
    → mem (known_callees s m) k ≡ (mem s k || any_calls m k)
unfolding known_callees
mem-known_callees [] s k = ground arith
mem-known_callees ((j, t) ∷ m) s k =
    mem-known_callees m (insert_range s t) k ∙ ground (arith, mem-insert_range s t k)

known_callees-IsAscending :
    (m : List (ℕ × List ℕ)) (s : List ℕ) → IsAscending s → IsAscending (known_callees s m)
unfolding known_callees
known_callees-IsAscending [] s up = up
known_callees-IsAscending ((j, t) ∷ m) s up =
    known_callees-IsAscending m (insert_range s t) (insert_range-IsAscending s t)

-- The difference of two sets, both in order.
difference_from-mem :
    (x : ℕ) (xs : List ℕ) (more : List ℕ → List ℕ) (ys : List ℕ) (k : ℕ)
    → ((zs : List ℕ) → IsAscending zs → mem (more zs) k ≡ (mem xs k && not (mem zs k)))
    → All (λ y. x < y) xs
    → IsAscending ys
    → mem (difference_from x xs more ys) k ≡ (((x == k) || mem xs k) && not (mem ys k))
unfolding difference_from
difference_from-mem x xs more [] k step above up = ground arith
difference_from-mem x xs more (y ∷ ys) k step above up = elim (Bool-cases (ltb x y)) [
  | inl less ↦ elim (Bool-cases (x == k)) [
    | inl same ↦
        let other : (y == k) ≡ false = ground (arith, same, less) in
        let lt = ltb→lt x y less in
        let none : mem ys k ≡ false =
          mem-above ys k
            (All-mono (λ z. y < z) (λ z. k < z) ys (λ z l. ground (arith, l, lt, same)) up.0) in
        rw less (ground (arith, same, other, none))
    | inr other ↦ rw less (ground (arith, other, step (y ∷ ys) up))
  ]
  | inr more_or_same ↦ elim (Bool-cases (ltb y x)) [
    | inl greater ↦ elim (Bool-cases (y == k)) [
      | inl same ↦
          let lt = ltb→lt y x greater in
          let other : (x == k) ≡ false = ground (arith, same, greater) in
          let none : mem xs k ≡ false =
            mem-above xs k
              (All-mono (λ z. x < z) (λ z. k < z) xs (λ z l. ground (arith, l, lt, same)) above) in
          rw (more_or_same, greater)
            (difference_from-mem x xs more ys k step above up.1 ∙ ground (arith, other, none, same))
      | inr other ↦
          rw (more_or_same, greater)
            (difference_from-mem x xs more ys k step above up.1 ∙ ground (arith, other))
    ]
    | inr equal ↦
        let same : (x == y) ≡ true = ground (arith, more_or_same, equal) in
        elim (Bool-cases (x == k)) [
          | inl here ↦
              let too : (y == k) ≡ true = ground (arith, same, here) in
              let none : mem xs k ≡ false =
                mem-above xs k
                  (All-mono (λ z. x < z) (λ z. k < z) xs (λ z l. ground (arith, l, here)) above) in
              rw (more_or_same, equal) (step ys up.1 ∙ ground (arith, none, too, here))
          | inr other ↦
              let too : (y == k) ≡ false = ground (arith, same, other) in
              rw (more_or_same, equal) (step ys up.1 ∙ ground (arith, too, other))
        ]
  ]
]

mem-set_difference :
    (xs ys : List ℕ) (k : ℕ)
    → IsAscending xs
    → IsAscending ys
    → mem (set_difference xs ys) k ≡ (mem xs k && not (mem ys k))
unfolding set_difference
mem-set_difference [] ys k up up' = refl
mem-set_difference (x ∷ xs) ys k up up' =
    difference_from-mem x xs (λ zs. set_difference xs zs) ys k
      (λ zs upz. mem-set_difference xs zs k up.1 upz) up.0 up'

-- The roots that buildRoots finds are exactly the callers that no caller calls, whatever roots there
-- were before.
pub build_roots_lem :
    {C : Type 0} (g : CallGraph C) (f : ℕ)
    → mem (build_roots g).known_roots f
      ≡ (mem (keys g.simple_callees) f && not (any_calls g.simple_callees f))
unfolding build_roots
build_roots_lem g f =
    let callers = insert_each [] (keys g.simple_callees) in
    let callees = known_callees [] g.simple_callees in
    mem-insert_each (set_difference callers callees) [] f
    ∙ mem-set_difference callers callees f (insert_each-IsAscending (keys g.simple_callees) [] tt)
        (known_callees-IsAscending g.simple_callees [] tt)
    ∙ ground (
      arith,
      mem-insert_each (keys g.simple_callees) [] f,
      mem-known_callees g.simple_callees [] f,
    )
