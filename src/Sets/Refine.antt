-- ===== src/Sets/Refine.antt =====
-- include/dsa/svset.h: a sorted vector answers as a set of keys does.
use poolalloc_3_1_upstreamed.Prelude.{
  ℕ, ◌<◌, ◌≡◌, ◌⊎◌, refl, sym, ap, ◌∙◌, Bool, true, false, ◌||◌, ◌&&◌, not, Bool-cases, inl, inr,
  List, [], ◌∷◌, length, get_or, ltb, ◌==◌, if◌then◌else◌, arith, All, All-mono,
}
use poolalloc_3_1_upstreamed.Sets.Svset.{
  lower_bound, insert, count, erase, insert_set, insert_range,
}
use poolalloc_3_1_upstreamed.Sets.Members.{
  mem, IsAscending, not_less, mem-above, mem-set_union, suc_eq, zero_eq, count-mem, mem-insert,
  mem-erase, insert-IsAscending, erase-IsAscending,
}
use poolalloc_3_1_upstreamed.Sets.Ranges.{
  set_union-IsAscending, mem-insert_range, insert_range-IsAscending,
}

-- Whether `insert` says that the key is new.
insert_new-cons :
    (x : ℕ) (xs : List ℕ) (k : ℕ)
    → (insert (x ∷ xs) k).2 ≡ (if ltb x k then (insert xs k).2 else ltb k x)
unfolding insert lower_bound
insert_new-cons x xs k = elim (Bool-cases (ltb x k)) [
  | inl less ↦
      let i = lower_bound xs k in
      elim (Bool-cases ((i == length xs) || ltb k (get_or xs i 0))) [
        | inl new ↦ simp (less, suc_eq, new)
        | inr old ↦ simp (less, suc_eq, old)
      ]
  | inr more ↦ elim (Bool-cases (ltb k x)) [
    | inl new ↦ simp (more, zero_eq, new)
    | inr old ↦ simp (more, zero_eq, old)
  ]
]

insert_new-mem : (xs : List ℕ) (k : ℕ) → IsAscending xs → (insert xs k).2 ≡ not (mem xs k)
unfolding insert lower_bound
insert_new-mem [] k h = refl
insert_new-mem (x ∷ xs) k h = insert_new-cons x xs k ∙ (elim (Bool-cases (ltb x k)) [
  | inl less ↦
      let other : (x == k) ≡ false = ground (arith, less) in
      simp (less, other, insert_new-mem xs k h.1)
  | inr more ↦
      let above =
        All-mono (λ y. x < y) (λ y. k < y) xs (λ y l. omega (arith, l, not_less x k more)) h.0 in
      let none = mem-above xs k above in
      let turned : ltb k x ≡ not ((x == k) || false) = ground (arith, more) in
      simp (more, none, turned)
])

-- Whether `erase` says that the key was there.
erased-mem : (xs : List ℕ) (k : ℕ) → IsAscending xs → ((erase xs k).1 == 1) ≡ mem xs k
unfolding erase count
erased-mem xs k h = by_count (Bool-cases (count xs k)) ∙ count-mem xs k h
  where
    by_count : ((count xs k) ≡ true) ⊎ ((count xs k) ≡ false) → ((erase xs k).1 == 1) ≡ count xs k
    by_count (inl e) = simp (e)
    by_count (inr e) = simp (e)

-- A call.
pub data Op : Type 0 where
  insert_key erase_key ask : ℕ → Op
  insert_other insert_keys : List ℕ → Op
  clear_all : Op

-- A call on a sorted vector: the vector behind it, and what it answers.
abbrev pub step : Op → List ℕ → List ℕ × Bool
step (insert_key k) xs = ((insert xs k).0, (insert xs k).2)
step (erase_key k) xs = ((erase xs k).0, (erase xs k).1 == 1)
step (ask k) xs = (xs, count xs k)
step (insert_other other) xs = (insert_set xs other, true)
step (insert_keys keys) xs = (insert_range xs keys, true)
step clear_all xs = ([], true)

-- The same call on a set of keys.
abbrev pub set_step : Op → (ℕ → Bool) → (ℕ → Bool) × Bool
set_step (insert_key k) p = ((λ j. (k == j) || p j), not (p k))
set_step (erase_key k) p = ((λ j. not (k == j) && p j), p k)
set_step (ask k) p = (p, p k)
set_step (insert_other other) p = ((λ j. mem other j || p j), true)
set_step (insert_keys keys) p = ((λ j. p j || mem keys j), true)
set_step clear_all p = ((λ j. false), true)

-- The other set that is inserted is sorted as well.
abbrev pub IsCall : Op → Type 0
IsCall (insert_other other) = IsAscending other
IsCall (insert_key k) = Unit
IsCall (erase_key k) = Unit
IsCall (ask k) = Unit
IsCall (insert_keys keys) = Unit
IsCall clear_all = Unit

abbrev pub answers : List Op → List ℕ → List Bool
answers [] xs = []
answers (op ∷ ops) xs = (step op xs).1 ∷ answers ops (step op xs).0

abbrev pub set_answers : List Op → (ℕ → Bool) → List Bool
set_answers [] p = []
set_answers (op ∷ ops) p = (set_step op p).1 ∷ set_answers ops (set_step op p).0

step-IsAscending : (op : Op) (xs : List ℕ) → IsCall op → IsAscending xs → IsAscending (step op xs).0
unfolding insert_set
step-IsAscending (insert_key k) xs c h = insert-IsAscending xs k h
step-IsAscending (erase_key k) xs c h = erase-IsAscending xs k h
step-IsAscending (ask k) xs c h = h
step-IsAscending (insert_other other) xs c h = set_union-IsAscending other xs c h
step-IsAscending (insert_keys keys) xs c h = insert_range-IsAscending xs keys
step-IsAscending clear_all xs c h = tt

abbrev Agrees : List ℕ → (ℕ → Bool) → Type 0
Agrees xs p = (j : ℕ) → mem xs j ≡ p j

step-Agrees :
    (op : Op) (xs : List ℕ) (p : ℕ → Bool)
    → IsAscending xs
    → Agrees xs p
    → Agrees (step op xs).0 (set_step op p).0
unfolding insert_set
step-Agrees (insert_key k) xs p h a = λ j. mem-insert xs k j ∙ ap (λ b. (k == j) || b) (a j)
step-Agrees (erase_key k) xs p h a = λ j. mem-erase xs k j h ∙ ap (λ b. not (k == j) && b) (a j)
step-Agrees (ask k) xs p h a = a
step-Agrees (insert_other other) xs p h a =
    λ j. mem-set_union other xs j ∙ ap (λ b. mem other j || b) (a j)
step-Agrees (insert_keys keys) xs p h a =
    λ j. mem-insert_range xs keys j ∙ ap (λ b. b || mem keys j) (a j)
step-Agrees clear_all xs p h a = λ j. refl

step-answer :
    (op : Op) (xs : List ℕ) (p : ℕ → Bool)
    → IsAscending xs
    → Agrees xs p
    → (step op xs).1 ≡ (set_step op p).1
step-answer (insert_key k) xs p h a = insert_new-mem xs k h ∙ ap not (a k)
step-answer (erase_key k) xs p h a = erased-mem xs k h ∙ a k
step-answer (ask k) xs p h a = count-mem xs k h ∙ a k
step-answer (insert_other other) xs p h a = refl
step-answer (insert_keys keys) xs p h a = refl
step-answer clear_all xs p h a = refl

-- From a sorted vector, any sequence of calls of insert, erase and count, of insertions of another
-- sorted vector or of a range in any order, and of clear answers as the set of the keys does, where
-- insert and erase answer whether the set changed.
pub answers-set_answers :
    (ops : List Op) (xs : List ℕ)
    → All IsCall ops
    → IsAscending xs
    → answers ops xs ≡ set_answers ops (count xs)
answers-set_answers ops xs calls h = from ops xs (count xs) calls h (λ j. sym (count-mem xs j h))
  where
    from :
        (ops : List Op) (xs : List ℕ) (p : ℕ → Bool)
        → All IsCall ops
        → IsAscending xs
        → Agrees xs p
        → answers ops xs ≡ set_answers ops p
    from [] xs p calls h a = refl
    from (op ∷ ops) xs p calls h a = rw (step-answer op xs p h a) (
        ap (λ l. (set_step op p).1 ∷ l)
          (from ops (step op xs).0 (set_step op p).0 calls.1 (step-IsAscending op xs calls.0 h)
            (step-Agrees op xs p h a)))
