-- ===== src/Sets/Super.antt =====
-- include/dsa/super_set.h: one stable place for each set. The places are numbered from 1 in the
-- order in which they are made, and null is 0; `std::set::insert` finds an equivalent set by
-- `operator<`.
use poolalloc_3_1_upstreamed.Prelude.{
  ℕ, zero, suc, ◌≡◌, refl, false, ◌&&◌, not, none, some, List, [], ◌∷◌, length, get_elem?,
  if◌then◌else◌, arith,
}
use poolalloc_3_1_upstreamed.Sets.Svset.{insert, insert_set, less_keys, less}

-- `container.insert(S)`: the container and the place, from 0.
unfoldable pub intern : List (List ℕ) → List ℕ → List (List ℕ) × ℕ
intern [] s = (s ∷ [], 0)
intern (t ∷ sets) s =
    let rest = intern sets s in
    if not (less t s) && not (less s t) then (t ∷ sets, 0) else (t ∷ rest.0, suc rest.1)

unfoldable pub get_or_create : List (List ℕ) → List ℕ → List (List ℕ) × ℕ
get_or_create sets [] = (sets, 0)
get_or_create sets (k ∷ s) = let made = intern sets (k ∷ s) in (made.0, suc made.1)

-- What a place holds.
abbrev pub set_at : List (List ℕ) → ℕ → List ℕ
set_at sets zero = []
set_at sets (suc i) = elim (get_elem? sets i) [ none ↦ [] | some s ↦ s ]

-- `getOrCreate` of a set with a further key.
unfoldable pub get_or_create_with : List (List ℕ) → ℕ → ℕ → List (List ℕ) × ℕ
get_or_create_with sets place k =
    get_or_create sets (insert (insert_set [] (set_at sets place)) k).0

-- Neither of two sets is less than the other exactly when they are the same.
less_keys-equal :
    (xs ys : List ℕ)
    → length xs ≡ length ys
    → less_keys xs ys ≡ false
    → less_keys ys xs ≡ false
    → xs ≡ ys
unfolding less_keys
less_keys-equal [] [] l h k = refl
less_keys-equal [] (y ∷ ys) l h k = absurd (ground (arith, l))
less_keys-equal (x ∷ xs) [] l h k = absurd (ground (arith, l))
less_keys-equal (x ∷ xs) (y ∷ ys) l h k =
    let same : x ≡ y = ground (arith, h, k) in
    let h' : less_keys xs ys ≡ false = ground (arith, h, k) in
    let k' : less_keys ys xs ≡ false = ground (arith, h, k) in
    rw (same, less_keys-equal xs ys (ground (arith, l)) h' k') refl

less_keys_self : (xs : List ℕ) → less_keys xs xs ≡ false
unfolding less_keys
less_keys_self [] = refl
less_keys_self (x ∷ xs) = ground (arith, less_keys_self xs)

pub less-equal : (xs ys : List ℕ) → less xs ys ≡ false → less ys xs ≡ false → xs ≡ ys
unfolding less
less-equal xs ys h k =
    less_keys-equal xs ys (ground (arith, h, k)) (ground (arith, h, k)) (ground (arith, h, k))

pub less_self : (xs : List ℕ) → less xs xs ≡ false
unfolding less
less_self xs = ground (arith, less_keys_self xs)
