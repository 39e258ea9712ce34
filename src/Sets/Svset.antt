-- ===== src/Sets/Svset.antt =====
-- include/dsa/svset.h: a set as a sorted vector. A key is an address, which `<` orders, and an
-- iterator is a position; the end is the length.
use poolalloc_3_1_upstreamed.Prelude.{
  ℕ, zero, suc, Bool, true, false, ◌||◌, ◌&&◌, not, List, [], ◌∷◌, ◌++◌, length, get_or, ltb, ◌==◌,
  if◌then◌else◌,
}

-- `std::lower_bound`: the first position whose key is not less.
unfoldable pub lower_bound : List ℕ → ℕ → ℕ
lower_bound [] k = 0
lower_bound (x ∷ xs) k = let rest = lower_bound xs k in if ltb x k then suc rest else 0

-- `std::upper_bound`: the first position whose key is greater.
unfoldable pub upper_bound : List ℕ → ℕ → ℕ
upper_bound [] k = 0
upper_bound (x ∷ xs) k = let rest = upper_bound xs k in if ltb k x then 0 else suc rest

-- `container_.insert(i, x)` and `container_.erase(i)`.
unfoldable pub insert_at : List ℕ → ℕ → ℕ → List ℕ
insert_at xs zero k = k ∷ xs
insert_at [] (suc i) k = k ∷ []
insert_at (x ∷ xs) (suc i) k = x ∷ insert_at xs i k

unfoldable pub erase_at : List ℕ → ℕ → List ℕ
erase_at [] i = []
erase_at (x ∷ xs) zero = xs
erase_at (x ∷ xs) (suc i) = x ∷ erase_at xs i

-- `insert`: the vector, the position of the key, and whether it is new.
unfoldable pub insert : List ℕ → ℕ → List ℕ × ℕ × Bool
insert xs k =
    let i = lower_bound xs k in
    if (i == length xs) || ltb k (get_or xs i 0)
    then (insert_at xs i k, i, true)
    else (xs, i, false)

unfoldable pub find : List ℕ → ℕ → ℕ
find xs k =
    let i = lower_bound xs k in
    if not (i == length xs) && (get_or xs i 0 == k) then i else length xs

unfoldable pub count : List ℕ → ℕ → Bool
count xs k = not (find xs k == length xs)

-- `erase` of a key: the vector, and how many keys are gone.
unfoldable pub erase : List ℕ → ℕ → List ℕ × ℕ
erase xs k = let i = find xs k in if not (i == length xs) then (erase_at xs i, 1) else (xs, 0)

-- `std::set_union`, with which another set is inserted; `more` is the union of `xs` with a list.
unfoldable pub union_from : ℕ → List ℕ → (List ℕ → List ℕ) → List ℕ → List ℕ
union_from x xs more [] = x ∷ xs
union_from x xs more (y ∷ ys) =
    let rest = union_from x xs more ys in
    if ltb x y then x ∷ more (y ∷ ys) else if ltb y x then y ∷ rest else x ∷ more ys

unfoldable pub set_union : List ℕ → List ℕ → List ℕ
set_union [] ys = ys
set_union (x ∷ xs) ys = union_from x xs (λ zs. set_union xs zs) ys

unfoldable pub insert_set : List ℕ → List ℕ → List ℕ
insert_set xs other = set_union other xs

-- `std::sort`, by insertion, and `std::unique`.
unfoldable pub place : ℕ → List ℕ → List ℕ
place k [] = k ∷ []
place k (x ∷ xs) = let rest = place k xs in if ltb x k then x ∷ rest else k ∷ x ∷ xs

unfoldable pub sort : List ℕ → List ℕ
sort [] = []
sort (x ∷ xs) = place x (sort xs)

unfoldable pub unique_behind : ℕ → List ℕ → List ℕ
unique_behind k [] = []
unique_behind k (x ∷ xs) = if x == k then unique_behind k xs else x ∷ unique_behind x xs

unfoldable pub unique : List ℕ → List ℕ
unique [] = []
unique (x ∷ xs) = x ∷ unique_behind x xs

unfoldable pub sort_unique : List ℕ → List ℕ
sort_unique xs = unique (sort xs)

-- `insert` of a range of keys in any order.
unfoldable pub insert_range : List ℕ → List ℕ → List ℕ
insert_range xs keys = sort_unique (xs ++ keys)

-- `operator<` behind the comparison of the sizes.
unfoldable pub less_keys : List ℕ → List ℕ → Bool
less_keys [] ys = false
less_keys (x ∷ xs) [] = false
less_keys (x ∷ xs) (y ∷ ys) =
    let rest = less_keys xs ys in if ltb y x then false else if ltb x y then true else rest

unfoldable pub less : List ℕ → List ℕ → Bool
less xs ys =
    if ltb (length ys) (length xs)
    then false
    else if ltb (length xs) (length ys)
    then true
    else less_keys xs ys
