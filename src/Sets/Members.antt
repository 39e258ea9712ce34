-- ===== src/Sets/Members.antt =====
-- include/dsa/svset.h: which keys are in a sorted vector behind each operation.
use poolalloc_3_1_upstreamed.Prelude.{
  ℕ, suc, ◌<◌, ◌≤◌, ◌≡◌, refl, sym, ap, ◌∙◌, Bool, true, false, ◌||◌, ◌&&◌, not, Bool-cases, inl,
  inr, List, [], ◌∷◌, length, get_or, ltb, ◌==◌, if◌then◌else◌, arith, ltb→lt, All, All-mono,
}
use poolalloc_3_1_upstreamed.Sets.Svset.{
  lower_bound, insert_at, erase_at, insert, find, count, erase, union_from, set_union,
}

abbrev pub mem : List ℕ → ℕ → Bool
mem [] k = false
mem (x ∷ xs) k = (x == k) || mem xs k

abbrev pub IsAscending : List ℕ → Type 0
IsAscending [] = Unit
IsAscending (x ∷ xs) = All (λ y. x < y) xs × IsAscending xs

pub not_less : (x k : ℕ) → ltb x k ≡ false → k ≤ x
not_less x k more = ground (arith, more)

pub if_intro {ℓ} :
    {A : Type ℓ} (P : A → Type 0) (b : Bool) {x y : A}
    → (b ≡ true → P x)
    → (b ≡ false → P y)
    → P (if b then x else y)
if_intro P true h k = h refl
if_intro P false h k = k refl

and_false : (b : Bool) → false ≡ (b && false)
and_false true = refl
and_false false = refl

pub suc_eq : (a b : ℕ) → (suc a == suc b) ≡ (a == b)
suc_eq a b = ground arith

pub zero_eq : (a : ℕ) → (0 == suc a) ≡ false
zero_eq a = ground arith

pub and_left : (a b : Bool) → (not a && b) ≡ true → a ≡ false
and_left true b h = sym h
and_left false b h = refl

pub and_right : (a b : Bool) → (not a && b) ≡ true → b ≡ true
and_right true b h = absurd (ground arith)
and_right false b h = h

pub self_eq : (a : ℕ) → (a == a) ≡ true
self_eq a = ground arith

count-cons :
    (x : ℕ) (xs : List ℕ) (k : ℕ) → count (x ∷ xs) k ≡ (if ltb x k then count xs k else x == k)
unfolding count find lower_bound
count-cons x xs k = elim (Bool-cases (ltb x k)) [
  | inl less ↦
      let i = lower_bound xs k in
      elim (Bool-cases (not (i == length xs) && (get_or xs i 0 == k))) [
        | inl found ↦ simp (less, suc_eq, found)
        | inr none ↦ simp (less, suc_eq, none, self_eq)
      ]
  | inr more ↦ elim (Bool-cases (x == k)) [
    | inl same ↦ simp (more, zero_eq, same)
    | inr other ↦ simp (more, zero_eq, other, self_eq)
  ]
]

insert-cons :
    (x : ℕ) (xs : List ℕ) (k : ℕ)
    → (insert (x ∷ xs) k).0
      ≡ (if ltb x k then x ∷ (insert xs k).0 else if ltb k x then k ∷ x ∷ xs else x ∷ xs)
unfolding insert lower_bound insert_at
insert-cons x xs k = elim (Bool-cases (ltb x k)) [
  | inl less ↦
      let i = lower_bound xs k in
      elim (Bool-cases ((i == length xs) || ltb k (get_or xs i 0))) [
        | inl new ↦ simp (less, suc_eq, new)
        | inr old ↦ simp (less, suc_eq, old)
      ]
  | inr more ↦ elim (Bool-cases (ltb k x)) [
    | inl new ↦ simp (more, zero_eq, new)
    | inr old ↦ simp (more, zero_eq, old)
  ]
]

erase-cons :
    (x : ℕ) (xs : List ℕ) (k : ℕ)
    → (erase (x ∷ xs) k).0 ≡ (if ltb x k then x ∷ (erase xs k).0 else if x == k then xs else x ∷ xs)
unfolding erase find lower_bound erase_at
erase-cons x xs k = elim (Bool-cases (ltb x k)) [
  | inl less ↦
      let i = lower_bound xs k in
      elim (Bool-cases (not (i == length xs) && (get_or xs i 0 == k))) [
        | inl found ↦
            let inside : (i == length xs) ≡ false =
              and_left (i == length xs) (get_or xs i 0 == k) found in
            let here : (get_or xs i 0 == k) ≡ true =
              and_right (i == length xs) (get_or xs i 0 == k) found in
            simp (less, suc_eq, inside, here)
        | inr none ↦ simp (less, suc_eq, none, self_eq)
      ]
  | inr more ↦ elim (Bool-cases (x == k)) [
    | inl same ↦ simp (more, zero_eq, same)
    | inr other ↦ simp (more, zero_eq, other, self_eq)
  ]
]

pub mem-above : (xs : List ℕ) (k : ℕ) → All (λ y. k < y) xs → mem xs k ≡ false
mem-above [] k all = refl
mem-above (x ∷ xs) k all =
    let other : (x == k) ≡ false = ground (arith, all.0) in simp (other, mem-above xs k all.1)

-- A key below the others is none of them.
pub absent : (xs : List ℕ) (k j : ℕ) → All (λ y. k < y) xs → ((k == j) && mem xs j) ≡ false
absent xs k j all = elim (Bool-cases (k == j)) [
  | inl same ↦
      let e : k ≡ j = ground (arith, same) in
      let none : mem xs j ≡ false = ap (mem xs) (sym e) ∙ mem-above xs k all in simp (same, none)
  | inr other ↦ simp (other)
]

pub count-mem : (xs : List ℕ) (k : ℕ) → IsAscending xs → count xs k ≡ mem xs k
unfolding count find lower_bound
count-mem [] k h = refl
count-mem (x ∷ xs) k h = elim (Bool-cases (ltb x k)) [
  | inl less ↦
      let other : (x == k) ≡ false = ground (arith, less) in
      count-cons x xs k ∙ simp (less, other, count-mem xs k h.1)
  | inr more ↦ elim (Bool-cases (x == k)) [
    | inl same ↦ count-cons x xs k ∙ simp (more, same)
    | inr other ↦
        let above = mem-above xs k (
          All-mono (λ y. x < y) (λ y. k < y) xs (λ y lt. omega (arith, lt, not_less x k more))
            h.0) in
        count-cons x xs k ∙ simp (more, other, above)
  ]
]

-- What `insert` does to the keys, and that they stay in order.
pub mem-insert : (xs : List ℕ) (k j : ℕ) → mem (insert xs k).0 j ≡ ((k == j) || mem xs j)
unfolding insert lower_bound insert_at
mem-insert [] k j = refl
mem-insert (x ∷ xs) k j = rw (insert-cons x xs k) (ground (arith, mem-insert xs k j))

insert-All :
    (z : ℕ) (xs : List ℕ) (k : ℕ) → z < k → All (λ y. z < y) xs → All (λ y. z < y) (insert xs k).0
unfolding insert lower_bound insert_at
insert-All z [] k lt all = (lt, tt)
insert-All z (x ∷ xs) k lt all = rw (insert-cons x xs k) (
    if_intro (All (λ y. z < y)) (ltb x k) (λ _. (all.0, insert-All z xs k lt all.1))
      (λ _. if_intro (All (λ y. z < y)) (ltb k x) (λ _. (lt, all)) (λ _. all)))

pub insert-IsAscending : (xs : List ℕ) (k : ℕ) → IsAscending xs → IsAscending (insert xs k).0
unfolding insert lower_bound insert_at
insert-IsAscending [] k h = (tt, tt)
insert-IsAscending (x ∷ xs) k h = rw (insert-cons x xs k) (
    if_intro IsAscending (ltb x k)
      (λ less. (insert-All x xs k (ltb→lt x k less) h.0, insert-IsAscending xs k h.1))
      (λ _.
        if_intro IsAscending (ltb k x)
          (λ less.
            let lt = ltb→lt k x less in
            ((lt, All-mono (λ y. x < y) (λ y. k < y) xs (λ y l. omega (arith, l, lt)) h.0), h))
          (λ _. h)))

-- `erase`.
erase-All : (z : ℕ) (xs : List ℕ) (k : ℕ) → All (λ y. z < y) xs → All (λ y. z < y) (erase xs k).0
unfolding erase find lower_bound
erase-All z [] k all = tt
erase-All z (x ∷ xs) k all = rw (erase-cons x xs k) (
    if_intro (All (λ y. z < y)) (ltb x k) (λ _. (all.0, erase-All z xs k all.1))
      (λ _. if_intro (All (λ y. z < y)) (x == k) (λ _. all.1) (λ _. all)))

pub erase-IsAscending : (xs : List ℕ) (k : ℕ) → IsAscending xs → IsAscending (erase xs k).0
unfolding erase find lower_bound
erase-IsAscending [] k h = tt
erase-IsAscending (x ∷ xs) k h = rw (erase-cons x xs k) (
    if_intro IsAscending (ltb x k) (λ _. (erase-All x xs k h.0, erase-IsAscending xs k h.1))
      (λ _. if_intro IsAscending (x == k) (λ _. h.1) (λ _. h)))

pub mem-erase :
    (xs : List ℕ) (k j : ℕ) → IsAscending xs → mem (erase xs k).0 j ≡ (not (k == j) && mem xs j)
unfolding erase find lower_bound
mem-erase [] k j h = and_false (not (k == j))
mem-erase (x ∷ xs) k j h =
    let rest = mem-erase xs k j h.1 in
    rw (erase-cons x xs k) (
      if_intro (λ l. mem l j ≡ (not (k == j) && ((x == j) || mem xs j))) (ltb x k)
        (λ less. ground (arith, less, rest))
        (λ more.
          if_intro (λ l. mem l j ≡ (not (k == j) && ((x == j) || mem xs j))) (x == k)
            (λ same. ground (arith, same, absent xs x j h.0))
            (λ other.
              let above =
                All-mono (λ y. x < y) (λ y. k < y) xs (λ y l. omega (arith, l, not_less x k more))
                  h.0 in
              ground (arith, more, other, absent xs k j above))))

-- `set_union`.
union_from-mem :
    (x : ℕ) (xs : List ℕ) (more : List ℕ → List ℕ) (ys : List ℕ) (j : ℕ)
    → ((zs : List ℕ) → mem (more zs) j ≡ (mem xs j || mem zs j))
    → mem (union_from x xs more ys) j ≡ (((x == j) || mem xs j) || mem ys j)
unfolding union_from
union_from-mem x xs more [] j h = ground (arith)
union_from-mem x xs more (y ∷ ys) j h =
    ground (arith, h (y ∷ ys), h ys, union_from-mem x xs more ys j h)

pub mem-set_union : (xs ys : List ℕ) (j : ℕ) → mem (set_union xs ys) j ≡ (mem xs j || mem ys j)
unfolding set_union
mem-set_union [] ys j = refl
mem-set_union (x ∷ xs) ys j =
    union_from-mem x xs (λ zs. set_union xs zs) ys j (λ zs. mem-set_union xs zs j)
