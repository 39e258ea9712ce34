-- ===== src/Sets/Ranges.antt =====
-- include/dsa/svset.h: the keys behind the insertion of a set, or of a range in any order.
use poolalloc_3_1_upstreamed.Prelude.{
  ℕ, ◌<◌, ◌≤◌, ◌≡◌, refl, ap, ◌∙◌, ◌||◌, List, [], ◌∷◌, ◌++◌, ltb, ◌==◌, arith, ltb→lt, All,
  All-mono,
}
use poolalloc_3_1_upstreamed.Sets.Svset.{
  union_from, set_union, place, sort, unique_behind, unique, sort_unique, insert_range,
}
use poolalloc_3_1_upstreamed.Sets.Members.{mem, IsAscending, if_intro, not_less}

union_from-All :
    (z x : ℕ) (xs : List ℕ) (more : List ℕ → List ℕ) (ys : List ℕ)
    → z < x
    → All (λ a. z < a) xs
    → ((zs : List ℕ) → All (λ a. z < a) zs → All (λ a. z < a) (more zs))
    → All (λ a. z < a) ys
    → All (λ a. z < a) (union_from x xs more ys)
unfolding union_from
union_from-All z x xs more [] lt own h all = (lt, own)
union_from-All z x xs more (y ∷ ys) lt own h all =
    if_intro (All (λ a. z < a)) (ltb x y) (λ _. (lt, h (y ∷ ys) all))
      (λ _.
        if_intro (All (λ a. z < a)) (ltb y x)
          (λ _. (all.0, union_from-All z x xs more ys lt own h all.1)) (λ _. (lt, h ys all.1)))

set_union-All :
    (z : ℕ) (xs ys : List ℕ)
    → All (λ a. z < a) xs
    → All (λ a. z < a) ys
    → All (λ a. z < a) (set_union xs ys)
unfolding set_union
set_union-All z [] ys own all = all
set_union-All z (x ∷ xs) ys own all =
    union_from-All z x xs (λ zs. set_union xs zs) ys own.0 own.1 (λ zs. set_union-All z xs zs own.1)
      all

below-All : (a b : ℕ) (xs : List ℕ) → a ≤ b → All (λ y. b < y) xs → All (λ y. a < y) xs
below-All a b xs le all = All-mono (λ y. b < y) (λ y. a < y) xs (λ y lt. omega (arith, le, lt)) all

union_from-IsAscending :
    (x : ℕ) (xs : List ℕ) (ys : List ℕ)
    → IsAscending (x ∷ xs)
    → IsAscending ys
    → ((zs : List ℕ) → IsAscending zs → IsAscending (set_union xs zs))
    → IsAscending (union_from x xs (λ zs. set_union xs zs) ys)
unfolding union_from
union_from-IsAscending x xs [] h k more = h
union_from-IsAscending x xs (y ∷ ys) h k more =
    if_intro IsAscending (ltb x y)
      (λ less.
        let lt = ltb→lt x y less in
        (
          set_union-All x xs (y ∷ ys) h.0 (lt, below-All x y ys (omega (arith, lt)) k.0),
          more (y ∷ ys) k,
        ))
      (λ not_first.
        if_intro IsAscending (ltb y x)
          (λ less.
            let lt = ltb→lt y x less in
            let own = below-All y x xs (omega (arith, lt)) h.0 in
            (
              union_from-All y x xs (λ zs. set_union xs zs) ys lt own
                  (λ zs. set_union-All y xs zs own) k.0,
              union_from-IsAscending x xs ys h k.1 more,
            ))
          (λ not_second. (
            set_union-All x xs ys h.0 (below-All x y ys (not_less y x not_second) k.0),
            more ys k.1,
          )))

pub set_union-IsAscending :
    (xs ys : List ℕ) → IsAscending xs → IsAscending ys → IsAscending (set_union xs ys)
unfolding set_union
set_union-IsAscending [] ys h k = k
set_union-IsAscending (x ∷ xs) ys h k =
    union_from-IsAscending x xs ys h k (λ zs. set_union-IsAscending xs zs h.1)

-- `sort_unique`.
IsSorted : List ℕ → Type 0
IsSorted [] = Unit
IsSorted (x ∷ xs) = All (λ y. x ≤ y) xs × IsSorted xs

mem-append : (xs ys : List ℕ) (j : ℕ) → mem (xs ++ ys) j ≡ (mem xs j || mem ys j)
mem-append [] ys j = refl
mem-append (x ∷ xs) ys j = ground (arith, mem-append xs ys j)

mem-place : (k : ℕ) (xs : List ℕ) (j : ℕ) → mem (place k xs) j ≡ ((k == j) || mem xs j)
unfolding place
mem-place k [] j = refl
mem-place k (x ∷ xs) j = ground (arith, mem-place k xs j)

mem-sort : (xs : List ℕ) (j : ℕ) → mem (sort xs) j ≡ mem xs j
unfolding sort
mem-sort [] j = refl
mem-sort (x ∷ xs) j = mem-place x (sort xs) j ∙ ap (λ b. (x == j) || b) (mem-sort xs j)

place-All : (z k : ℕ) (xs : List ℕ) → z ≤ k → All (λ y. z ≤ y) xs → All (λ y. z ≤ y) (place k xs)
unfolding place
place-All z k [] le all = (le, tt)
place-All z k (x ∷ xs) le all =
    if_intro (All (λ y. z ≤ y)) (ltb x k) (λ _. (all.0, place-All z k xs le all.1)) (λ _. (le, all))

place-IsSorted : (k : ℕ) (xs : List ℕ) → IsSorted xs → IsSorted (place k xs)
unfolding place IsSorted
place-IsSorted k [] h = (tt, tt)
place-IsSorted k (x ∷ xs) h =
    if_intro IsSorted (ltb x k)
      (λ less. (place-All x k xs (omega (arith, ltb→lt x k less)) h.0, place-IsSorted k xs h.1))
      (λ more.
        let le = not_less x k more in
        ((le, All-mono (λ y. x ≤ y) (λ y. k ≤ y) xs (λ y l. omega (arith, l, le)) h.0), h))

sort-IsSorted : (xs : List ℕ) → IsSorted (sort xs)
unfolding sort IsSorted
sort-IsSorted [] = tt
sort-IsSorted (x ∷ xs) = place-IsSorted x (sort xs) (sort-IsSorted xs)

mem-unique_behind :
    (k : ℕ) (xs : List ℕ) (j : ℕ)
    → ((k == j) || mem (unique_behind k xs) j) ≡ ((k == j) || mem xs j)
unfolding unique_behind
mem-unique_behind k [] j = refl
mem-unique_behind k (x ∷ xs) j = ground (arith, mem-unique_behind k xs j, mem-unique_behind x xs j)

unique_behind-All :
    (z k : ℕ) (xs : List ℕ)
    → z ≤ k
    → All (λ y. k ≤ y) xs
    → IsSorted xs
    → All (λ y. z < y) (unique_behind k xs)
unfolding unique_behind IsSorted
unique_behind-All z k [] le all h = tt
unique_behind-All z k (x ∷ xs) le all h =
    if_intro (All (λ y. z < y)) (x == k) (λ _. unique_behind-All z k xs le all.1 h.1)
      (λ other.
        let lt : z < x = ground (arith, other, all.0, le) in
        (lt, unique_behind-All z x xs (omega (arith, lt)) h.0 h.1))

unique_behind-IsAscending : (k : ℕ) (xs : List ℕ) → IsSorted xs → IsAscending (unique_behind k xs)
unfolding unique_behind IsSorted
unique_behind-IsAscending k [] h = tt
unique_behind-IsAscending k (x ∷ xs) h =
    if_intro IsAscending (x == k) (λ _. unique_behind-IsAscending k xs h.1)
      (λ _. (unique_behind-All x x xs (omega arith) h.0 h.1, unique_behind-IsAscending x xs h.1))

unique-IsAscending : (xs : List ℕ) → IsSorted xs → IsAscending (unique xs)
unfolding unique IsSorted
unique-IsAscending [] h = tt
unique-IsAscending (x ∷ xs) h =
    (unique_behind-All x x xs (omega arith) h.0 h.1, unique_behind-IsAscending x xs h.1)

mem-unique : (xs : List ℕ) (j : ℕ) → mem (unique xs) j ≡ mem xs j
unfolding unique
mem-unique [] j = refl
mem-unique (x ∷ xs) j = mem-unique_behind x xs j

pub insert_range-IsAscending : (xs keys : List ℕ) → IsAscending (insert_range xs keys)
unfolding insert_range sort_unique
insert_range-IsAscending xs keys =
    unique-IsAscending (sort (xs ++ keys)) (sort-IsSorted (xs ++ keys))

pub mem-insert_range :
    (xs keys : List ℕ) (j : ℕ) → mem (insert_range xs keys) j ≡ (mem xs j || mem keys j)
unfolding insert_range sort_unique
mem-insert_range xs keys j =
    mem-unique (sort (xs ++ keys)) j ∙ mem-sort (xs ++ keys) j ∙ mem-append xs keys j
