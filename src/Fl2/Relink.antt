-- ===== src/Fl2/Relink.antt =====
-- runtime/FL2Allocator/PoolAllocator.cpp: what `UnlinkFreeNode` and
-- `AddNodeToFreeList` do to doubly linked lists in the memory.
use mathlib.Core.Path.{subst}
use poolalloc_3_1_upstreamed.Prelude.{
  ℕ, ◌≡◌, ◌≢◌, refl, sym, ap, Bool, true, false, List, [], ◌∷◌, ◌++◌, ◌==◌, if◌then◌else◌, arith,
  All, All-append_left,
}
use poolalloc_3_1_upstreamed.Fl2.Memory.{put}
use poolalloc_3_1_upstreamed.Fl2.Links.{
  Linked, IsAway, AreDistinct, put_self, Linked-put_next, Linked-put_prev, Linked-behind, prev-ne,
  start_without, next_without, prev_without, Linked-without,
}

-- A predicate of the nodes of a list holds of the one before, and of the one behind, a node of it.
prev-All :
    (P : ℕ → Type 0) (next prev : ℕ → ℕ) (p h : ℕ) (xs : List ℕ) (node : ℕ) (ys : List ℕ)
    → Linked next prev p h (xs ++ node ∷ ys)
    → (prev node ≢ 0 → P p)
    → All P xs
    → prev node ≢ 0
    → P (prev node)
prev-All P next prev p h [] node ys l first all nz = subst P (sym l.2) (first nz)
prev-All P next prev p h (x ∷ xs) node ys l first all nz =
    prev-All P next prev x (next x) xs node ys l.3 (λ _. all.0) all.1 nz

next-All :
    (P : ℕ → Type 0) (next prev : ℕ → ℕ) (p h : ℕ) (xs : List ℕ) (node : ℕ) (ys : List ℕ)
    → Linked next prev p h (xs ++ node ∷ ys)
    → All P (xs ++ node ∷ ys)
    → next node ≢ 0
    → P (next node)
next-All P next prev p h [] node [] l all nz = absurd (nz l.3)
next-All P next prev p h [] node (y ∷ ys) l all nz = subst P (sym l.3.0) all.1.0
next-All P next prev p h (x ∷ xs) node ys l all nz =
    next-All P next prev x (next x) xs node ys l.3 all.1 nz

pub Linked-IsAway_zero :
    (next prev : ℕ → ℕ) (p h : ℕ) (xs : List ℕ) → Linked next prev p h xs → IsAway 0 xs
Linked-IsAway_zero next prev p h [] l = tt
Linked-IsAway_zero next prev p h (x ∷ xs) l = (l.1, Linked-IsAway_zero next prev x (next x) xs l.3)

-- The links behind `UnlinkFreeNode`, which writes no `Next` for the first node of a list.
abbrev pub next_unlinked : (ℕ → ℕ) → (ℕ → ℕ) → ℕ → ℕ → ℕ
next_unlinked next prev node = if prev node == 0 then next else next_without next prev node

pub Linked-unlinked :
    (next prev : ℕ → ℕ) (h : ℕ) (xs : List ℕ) (node : ℕ) (ys : List ℕ)
    → Linked next prev 0 h (xs ++ node ∷ ys)
    → AreDistinct (xs ++ node ∷ ys)
    → Linked
        (next_unlinked next prev node)
        (prev_without next prev node)
        0
        (start_without next h xs node)
        (xs ++ ys)
Linked-unlinked next prev h [] node ys l apart =
    let first : (prev node == 0) ≡ true = ground (arith, l.2) in
    subst (λ f. Linked f (prev_without next prev node) 0 (next node) ys)
      (ap (λ (b : Bool). if b then next else next_without next prev node) (sym first))
      (rw l.2 (Linked-behind next prev node 0 (next node) ys apart.1 l.3))
Linked-unlinked next prev h (x ∷ xs) node ys l apart =
    let away = Linked-IsAway_zero next prev 0 h (x ∷ xs ++ node ∷ ys) l in
    let ne =
      prev-ne next prev x (next x) xs node ys 0 l.3 l.1
        (All-append_left (λ a. a ≢ 0) xs (node ∷ ys) away.1) in
    let later : (prev node == 0) ≡ false = ground arith in
    subst (λ f. Linked f (prev_without next prev node) 0 h (x ∷ xs ++ ys))
      (ap (λ (b : Bool). if b then next else next_without next prev node) (sym later))
      (Linked-without next prev 0 h (x ∷ xs) node ys l apart away)

Linked-if_next :
    (b : Bool) (next prev : ℕ → ℕ) (p h : ℕ) (xs : List ℕ) (a v : ℕ)
    → (b ≡ false → IsAway a xs)
    → Linked next prev p h xs
    → Linked (if b then next else put next a v) prev p h xs
Linked-if_next true next prev p h xs a v away l = l
Linked-if_next false next prev p h xs a v away l =
    Linked-put_next next prev p h xs a v (away refl) l

pub Linked-if_prev :
    (b : Bool) (next prev : ℕ → ℕ) (p h : ℕ) (xs : List ℕ) (a v : ℕ)
    → (b ≡ false → IsAway a xs)
    → Linked next prev p h xs
    → Linked next (if b then prev else put prev a v) p h xs
Linked-if_prev true next prev p h xs a v away l = l
Linked-if_prev false next prev p h xs a v away l =
    Linked-put_prev next prev p h xs a v (away refl) l

-- A list with no node in common is as it was.
pub Linked-unlinked_other :
    (next prev : ℕ → ℕ) (h : ℕ) (xs : List ℕ) (node : ℕ) (ys : List ℕ) (k : ℕ) (zs : List ℕ)
    → Linked next prev 0 h (xs ++ node ∷ ys)
    → All (λ a. IsAway a zs) (xs ++ node ∷ ys)
    → Linked next prev 0 k zs
    → Linked (next_unlinked next prev node) (prev_without next prev node) 0 k zs
Linked-unlinked_other next prev h xs node ys k zs l away m =
    let before =
      prev-All (λ a. IsAway a zs) next prev 0 h xs node ys l
        (λ nz. Linked-IsAway_zero next prev 0 k zs m)
        (All-append_left (λ a. IsAway a zs) xs (node ∷ ys) away) in
    let behind = next-All (λ a. IsAway a zs) next prev 0 h xs node ys l away in
    Linked-if_prev (next node == 0) (next_unlinked next prev node) prev 0 k zs (next node)
      (prev node) (λ e. behind (ground arith))
      (Linked-if_next (prev node == 0) next prev 0 k zs (prev node) (next node)
        (λ e. before (ground arith)) m)

-- A node that goes to the front of a list, as `AddNodeToFreeList` links it.
abbrev pub prev_first : (ℕ → ℕ) → ℕ → ℕ → ℕ → ℕ
prev_first prev node h = if h == 0 then put prev node 0 else put (put prev node 0) h node

pub Linked-first :
    (next prev : ℕ → ℕ) (h node : ℕ) (xs : List ℕ)
    → node ≢ 0
    → IsAway node xs
    → AreDistinct xs
    → Linked next prev 0 h xs
    → Linked (put next node h) (prev_first prev node h) 0 node (node ∷ xs)
Linked-first next prev h node xs nz away apart l =
    let rest =
      Linked-put_prev (put next node h) prev 0 h xs node 0 away
        (Linked-put_next next prev 0 h xs node h away l) in
    (
      refl,
      nz,
      start_ne xs away l,
      rw (put_self next node h)
          (Linked-behind (put next node h) (put prev node 0) 0 node h xs apart rest),
    )
  where
    start_ne :
        (xs : List ℕ) → IsAway node xs → Linked next prev 0 h xs → prev_first prev node h node ≡ 0
    start_ne [] away l = ground arith
    start_ne (x ∷ xs) away l = ground (arith, away.0, l.0)

pub Linked-first_other :
    (next prev : ℕ → ℕ) (h node : ℕ) (xs : List ℕ) (k : ℕ) (zs : List ℕ)
    → IsAway node zs
    → All (λ a. IsAway a zs) xs
    → Linked next prev 0 h xs
    → Linked next prev 0 k zs
    → Linked (put next node h) (prev_first prev node h) 0 k zs
Linked-first_other next prev h node xs k zs away across l m =
    Linked-if_prev (h == 0) (put next node h) (put prev node 0) 0 k zs h node
      (start_away xs across l)
      (Linked-put_prev (put next node h) prev 0 k zs node 0 away
        (Linked-put_next next prev 0 k zs node h away m))
  where
    start_away :
        (xs : List ℕ)
        → All (λ a. IsAway a zs) xs
        → Linked next prev 0 h xs
        → (h == 0) ≡ false
        → IsAway h zs
    start_away [] across l e = absurd (ground (arith, l))
    start_away (x ∷ xs) across l e = subst (λ a. IsAway a zs) (sym l.0) across.0
