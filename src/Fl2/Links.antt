-- ===== src/Fl2/Links.antt =====
-- runtime/FL2Allocator/PoolAllocator.cpp: doubly linked lists in the memory.
use mathlib.Core.Path.{subst}
use poolalloc_3_1_upstreamed.Prelude.{
  ℕ, ◌≡◌, ◌≢◌, sym, ap, ◌∙◌, Bool, false, List, [], ◌∷◌, ◌++◌, ◌==◌, if◌then◌else◌, arith, All,
  All-append_left,
}
use poolalloc_3_1_upstreamed.Fl2.Memory.{put}

-- The list that begins at an address, where the first node has `p` before it.
abbrev pub Linked : (ℕ → ℕ) → (ℕ → ℕ) → ℕ → ℕ → List ℕ → Type 0
Linked next prev p a [] = a ≡ 0
Linked next prev p a (x ∷ xs) = (a ≡ x) × (x ≢ 0) × (prev x ≡ p) × Linked next prev x (next x) xs

abbrev pub IsAway : ℕ → List ℕ → Type 0
IsAway a xs = All (λ x. x ≢ a) xs

abbrev pub AreDistinct : List ℕ → Type 0
AreDistinct [] = Unit
AreDistinct (x ∷ xs) = IsAway x xs × AreDistinct xs

pub put_self : (f : ℕ → ℕ) (a v : ℕ) → put f a v a ≡ v
put_self f a v = ground arith

pub put_other : (f : ℕ → ℕ) (a v b : ℕ) → b ≢ a → put f a v b ≡ f b
put_other f a v b ne = ground arith

-- A write elsewhere leaves a list alone.
pub Linked-put_next :
    (next prev : ℕ → ℕ) (p h : ℕ) (xs : List ℕ) (a v : ℕ)
    → IsAway a xs
    → Linked next prev p h xs
    → Linked (put next a v) prev p h xs
Linked-put_next next prev p h [] a v away l = l
Linked-put_next next prev p h (x ∷ xs) a v away l = (
  l.0,
  l.1,
  l.2,
  rw (put_other next a v x away.0) (Linked-put_next next prev x (next x) xs a v away.1 l.3),
)

pub Linked-put_prev :
    (next prev : ℕ → ℕ) (p h : ℕ) (xs : List ℕ) (a v : ℕ)
    → IsAway a xs
    → Linked next prev p h xs
    → Linked next (put prev a v) p h xs
Linked-put_prev next prev p h [] a v away l = l
Linked-put_prev next prev p h (x ∷ xs) a v away l = (
  l.0,
  l.1,
  put_other prev a v x away.0 ∙ l.2,
  Linked-put_prev next prev x (next x) xs a v away.1 l.3,
)

-- The same list behind another node.
pub Linked-behind :
    (next prev : ℕ → ℕ) (p q h : ℕ) (xs : List ℕ)
    → AreDistinct xs
    → Linked next prev p h xs
    → Linked next (if h == 0 then prev else put prev h q) q h xs
Linked-behind next prev p q h [] apart l = l
Linked-behind next prev p q h (x ∷ xs) apart l =
    let some_node : (h == 0) ≡ false = ground (arith, l.0, l.1) in
    let away = subst (λ c. IsAway c xs) (sym l.0) apart.0 in
    subst (λ f. Linked next f q h (x ∷ xs))
      (ap (λ (b : Bool). if b then prev else put prev h q) (sym some_node))
      (
        l.0,
        l.1,
        ap (put prev h q) (sym l.0) ∙ put_self prev h q,
        Linked-put_prev next prev x (next x) xs h q away l.3,
      )

-- The node before one in the list is none that is away from those before it.
pub prev-ne :
    (next prev : ℕ → ℕ) (p h : ℕ) (xs : List ℕ) (node : ℕ) (ys : List ℕ) (a : ℕ)
    → Linked next prev p h (xs ++ node ∷ ys)
    → p ≢ a
    → IsAway a xs
    → prev node ≢ a
prev-ne next prev p h [] node ys a l ne away = λ e. ne (sym l.2 ∙ e)
prev-ne next prev p h (x ∷ xs) node ys a l ne away =
    prev-ne next prev x (next x) xs node ys a l.3 away.0 away.1

-- Where the list begins once the node is out.
abbrev pub start_without : (ℕ → ℕ) → ℕ → List ℕ → ℕ → ℕ
start_without next h [] node = next node
start_without next h (x ∷ xs) node = h

-- What `UnlinkFreeNode` writes into the links.
abbrev pub next_without : (ℕ → ℕ) → (ℕ → ℕ) → ℕ → ℕ → ℕ
next_without next prev node = put next (prev node) (next node)

abbrev pub prev_without : (ℕ → ℕ) → (ℕ → ℕ) → ℕ → ℕ → ℕ
prev_without next prev node = if next node == 0 then prev else put prev (next node) (prev node)

next-ne :
    (next prev : ℕ → ℕ) (p h : ℕ) (xs : List ℕ) (node : ℕ) (ys : List ℕ) (a : ℕ)
    → Linked next prev p h (xs ++ node ∷ ys)
    → a ≢ 0
    → IsAway a (xs ++ node ∷ ys)
    → next node ≢ a
next-ne next prev p h [] node [] a l nz away = λ e. nz (sym e ∙ l.3)
next-ne next prev p h [] node (y ∷ ys) a l nz away = λ e. away.1.0 (sym l.3.0 ∙ e)
next-ne next prev p h (x ∷ xs) node ys a l nz away =
    next-ne next prev x (next x) xs node ys a l.3 nz away.1

prev_without-away :
    (next prev : ℕ → ℕ) (node a : ℕ) → next node ≢ a → prev_without next prev node a ≡ prev a
prev_without-away next prev node a ne = ground arith

-- A list less one of its nodes.
pub Linked-without :
    (next prev : ℕ → ℕ) (p h : ℕ) (xs : List ℕ) (node : ℕ) (ys : List ℕ)
    → Linked next prev p h (xs ++ node ∷ ys)
    → AreDistinct (xs ++ node ∷ ys)
    → IsAway p (xs ++ node ∷ ys)
    → Linked
        (next_without next prev node)
        (prev_without next prev node)
        p
        (start_without next h xs node)
        (xs ++ ys)
Linked-without next prev p h [] node ys l apart away = rw l.2 (
    Linked-put_next next (if next node == 0 then prev else put prev (next node) p) p (next node) ys
      p (next node) away.1 (Linked-behind next prev node p (next node) ys apart.1 l.3))
Linked-without next prev p h (x ∷ []) node ys l apart away =
    let rest = Linked-without next prev x (next x) [] node ys l.3 apart.1 apart.0 in
    let before =
      prev_without-away next prev node x
        (next-ne next prev x (next x) [] node ys x l.3 l.1 apart.0) in
    let to : next_without next prev node x ≡ next node =
      ap (next_without next prev node) (sym l.3.2) ∙ put_self next (prev node) (next node) in
    (l.0, l.1, before ∙ l.2, rw to rest)
Linked-without next prev p h (x ∷ x' ∷ xs) node ys l apart away =
    let rest = Linked-without next prev x (next x) (x' ∷ xs) node ys l.3 apart.1 apart.0 in
    let before =
      prev_without-away next prev node x
        (next-ne next prev x (next x) (x' ∷ xs) node ys x l.3 l.1 apart.0) in
    let out =
      prev-ne next prev x' (next x') xs node ys x l.3.3 apart.0.0
        (All-append_left (λ a. a ≢ x) xs (node ∷ ys) apart.0.1) in
    let to : next_without next prev node x ≡ next x =
      put_other next (prev node) (next node) x (λ e. out (sym e)) in
    (l.0, l.1, before ∙ l.2, rw to rest)
