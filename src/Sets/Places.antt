-- ===== src/Sets/Places.antt =====
-- include/dsa/super_set.h: equal sets have one place, which stays.
use mathlib.Core.Path.{subst}
use poolalloc_3_1_upstreamed.Prelude.{
  ℕ, zero, suc, ◌≡◌, ◌≢◌, ◌↔◌, refl, sym, ap, ◌∙◌, true, false, ◌&&◌, not, List, [], ◌∷◌, arith,
}
use poolalloc_3_1_upstreamed.Sets.Super.{intern, get_or_create, less-equal, less_self}
use poolalloc_3_1_upstreamed.Sets.Svset.{less}
use poolalloc_3_1_upstreamed.Sets.Members.{if_intro}

-- The first place, from 0, that holds a set.
First : List (List ℕ) → ℕ → List ℕ → Type 0
First [] i s = ⊥
First (t ∷ sets) zero s = t ≡ s
First (t ∷ sets) (suc i) s = (t ≢ s) × First sets i s

First-unique :
    (sets : List (List ℕ)) (i j : ℕ) (s : List ℕ) → First sets i s → First sets j s → i ≡ j
unfolding First
First-unique [] i j s f g = elim f [ ]
First-unique (t ∷ sets) zero zero s f g = refl
First-unique (t ∷ sets) zero (suc j) s f g = absurd (g.0 f)
First-unique (t ∷ sets) (suc i) zero s f g = absurd (f.0 g)
First-unique (t ∷ sets) (suc i) (suc j) s f g = ap suc (First-unique sets i j s f.1 g.1)

First-same : (sets : List (List ℕ)) (i : ℕ) (s u : List ℕ) → First sets i s → First sets i u → s ≡ u
unfolding First
First-same [] i s u f g = elim f [ ]
First-same (t ∷ sets) zero s u f g = sym f ∙ g
First-same (t ∷ sets) (suc i) s u f g = First-same sets i s u f.1 g.1

-- The test of `std::set` finds equal sets.
same_set : (s t : List ℕ) → (not (less t s) && not (less s t)) ≡ true → t ≡ s
same_set s t h = less-equal t s (ground (arith, h)) (ground (arith, h))

other_set : (s t : List ℕ) → (not (less t s) && not (less s t)) ≡ false → t ≢ s
other_set s t h e =
    let both : (not (less t s) && not (less s t)) ≡ true =
      subst (λ u. (not (less u s) && not (less s u)) ≡ true) (sym e) (simp (less_self)) in
    ground (arith, h, both)

intern-First : (sets : List (List ℕ)) (s : List ℕ) → First (intern sets s).0 (intern sets s).1 s
unfolding First intern
intern-First [] s = refl
intern-First (t ∷ sets) s =
    if_intro {A = List (List ℕ) × ℕ} (λ r. First r.0 r.1 s) (not (less t s) && not (less s t))
      (same_set s t) (λ e. (other_set s t e, intern-First sets s))

First-behind :
    (t : List ℕ) (sets sets' : List (List ℕ)) (i : ℕ) (s : List ℕ)
    → ((j : ℕ) → First sets j s → First sets' j s)
    → First (t ∷ sets) i s
    → First (t ∷ sets') i s
unfolding First
First-behind t sets sets' zero s keeps f = f
First-behind t sets sets' (suc i) s keeps f = (f.0, keeps i f.1)

intern-keeps :
    (sets : List (List ℕ)) (u : List ℕ) (i : ℕ) (s : List ℕ)
    → First sets i s
    → First (intern sets u).0 i s
unfolding First intern
intern-keeps [] u i s f = elim f [ ]
intern-keeps (t ∷ sets) u i s f =
    if_intro {A = List (List ℕ) × ℕ} (λ r. First r.0 i s) (not (less t u) && not (less u t))
      (λ _. f) (λ _. First-behind t sets (intern sets u).0 i s (λ j. intern-keeps sets u j s) f)

-- A place as `getOrCreate` gives it.
IsPlace : List (List ℕ) → ℕ → List ℕ → Type 0
IsPlace sets place [] = place ≡ 0
IsPlace sets zero (k ∷ s) = ⊥
IsPlace sets (suc i) (k ∷ s) = First sets i (k ∷ s)

get_or_create-IsPlace :
    (sets : List (List ℕ)) (s : List ℕ)
    → IsPlace (get_or_create sets s).0 (get_or_create sets s).1 s
unfolding IsPlace get_or_create
get_or_create-IsPlace sets [] = refl
get_or_create-IsPlace sets (k ∷ s) = intern-First sets (k ∷ s)

get_or_create-keeps :
    (sets : List (List ℕ)) (u : List ℕ) (place : ℕ) (s : List ℕ)
    → IsPlace sets place s
    → IsPlace (get_or_create sets u).0 place s
unfolding IsPlace get_or_create
get_or_create-keeps sets u place [] h = h
get_or_create-keeps sets [] place (k ∷ s) h = h
get_or_create-keeps sets (j ∷ u) zero (k ∷ s) h = h
get_or_create-keeps sets (j ∷ u) (suc i) (k ∷ s) h = intern-keeps sets (j ∷ u) i (k ∷ s) h

IsPlace-unique :
    (sets : List (List ℕ)) (p q : ℕ) (s : List ℕ) → IsPlace sets p s → IsPlace sets q s → p ≡ q
unfolding IsPlace
IsPlace-unique sets p q [] h k = h ∙ sym k
IsPlace-unique sets zero q (x ∷ s) h k = elim h [ ]
IsPlace-unique sets (suc i) zero (x ∷ s) h k = elim k [ ]
IsPlace-unique sets (suc i) (suc j) (x ∷ s) h k = ap suc (First-unique sets i j (x ∷ s) h k)

IsPlace-same :
    (sets : List (List ℕ)) (p : ℕ) (s u : List ℕ) → IsPlace sets p s → IsPlace sets p u → s ≡ u
unfolding IsPlace
IsPlace-same sets p [] [] h k = refl
IsPlace-same sets zero [] (y ∷ u) h k = elim k [ ]
IsPlace-same sets (suc i) [] (y ∷ u) h k = absurd (ground (arith, h))
IsPlace-same sets zero (x ∷ s) u h k = elim h [ ]
IsPlace-same sets (suc i) (x ∷ s) [] h k = absurd (ground (arith, k))
IsPlace-same sets (suc i) (x ∷ s) (y ∷ u) h k = First-same sets i (x ∷ s) (y ∷ u) h k

-- Further calls of `getOrCreate`.
abbrev pub create_all : List (List ℕ) → List (List ℕ) → List (List ℕ)
create_all sets [] = sets
create_all sets (s ∷ rest) = create_all (get_or_create sets s).0 rest

create_all-keeps :
    (sets between : List (List ℕ)) (place : ℕ) (s : List ℕ)
    → IsPlace sets place s
    → IsPlace (create_all sets between) place s
create_all-keeps sets [] place s h = h
create_all-keeps sets (u ∷ between) place s h =
    create_all-keeps (get_or_create sets u).0 between place s (get_or_create-keeps sets u place s h)

-- Whatever sets are created between two calls of getOrCreate, the two calls return the same place
-- exactly when their sets are equal.
pub get_or_create_unique :
    (sets : List (List ℕ)) (s : List ℕ) (between : List (List ℕ)) (u : List ℕ)
    → ((get_or_create (create_all (get_or_create sets s).0 between) u).1 ≡ (get_or_create sets s).1)
      ↔ (u ≡ s)
get_or_create_unique sets s between u =
    let r = get_or_create sets s in
    let c = create_all r.0 between in
    let q = get_or_create c u in
    let new = get_or_create-IsPlace c u in
    let old =
      get_or_create-keeps c u r.1 s
        (create_all-keeps r.0 between r.1 s (get_or_create-IsPlace sets s)) in
    (
      (λ e. IsPlace-same q.0 r.1 u s (subst (λ p. IsPlace q.0 p u) e new) old),
      (λ e. IsPlace-unique q.0 q.1 r.1 s (subst (λ t. IsPlace q.0 q.1 t) e new) old),
    )
