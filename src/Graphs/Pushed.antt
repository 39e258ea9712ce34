-- ===== src/Graphs/Pushed.antt =====
-- lib/DSA/DSGraph.cpp: which call sites `removeDeadNodes` gives to the globals graph.
use poolalloc_3_1_upstreamed.Prelude.{
  ℕ, zero, suc, ◌+◌, ◌-◌, ◌<◌, ◌≤◌, ◌≡◌, refl, sym, ap, ◌∙◌, Bool, true, false, Bool-cases, inl,
  inr, ◌≢◌, Option, none, some, Option-cases, get_elem?-set_ne, get_elem?-set_self, length-set,
  append_assoc, append-nil, ==_iff, List, [], ◌∷◌, ◌++◌, length, get_elem?, set, take, drop,
  length-drop, ◌==◌, arith,
}
use mathlib.Core.List.{reverse, reverse-append}
use poolalloc_3_1_upstreamed.Graphs.Sites.{CallSite}
use poolalloc_3_1_upstreamed.Graphs.Alive.{swap_sites, site_at, move_dead, drop_dead}
use poolalloc_3_1_upstreamed.Graphs.Dropped.{leading, round}

lt-length {ℓ} : {A : Type ℓ} (xs : List A) (i : ℕ) {a : A} → get_elem? xs i ≡ some a → i < length xs
lt-length [] i e = absurd (ground (arith, e))
lt-length (x ∷ xs) zero e = omega arith
lt-length (x ∷ xs) (suc i) e = omega (arith, lt-length xs i e)

inside {ℓ} :
    {A : Type ℓ} (xs : List A) (i : ℕ) → i < length xs → (a : A) × (get_elem? xs i ≡ some a)
inside [] i lt = elim lt [ ]
inside (x ∷ xs) zero lt = (x, refl)
inside (x ∷ xs) (suc i) lt = inside xs i (omega arith)

-- A swap puts the second place first, and leaves what is at neither.
swap_sites-first :
    (sites : List CallSite) (i j : ℕ)
    → i < length sites
    → j < length sites
    → get_elem? (swap_sites sites i j) i ≡ get_elem? sites j
unfolding swap_sites
swap_sites-first sites i j hi hj =
    let (a, ea) = inside sites i hi in
    let (b, eb) = inside sites j hj in
    elim (Bool-cases (i == j)) [
      | inl same ↦ rw (swap_sites, ea, eb, same) (ap (get_elem? sites) ((==_iff i j).0 same) ∙ eb)
      | inr other ↦
          let ne : j ≢ i = λ e. ground (arith, other, e) in
          rw (swap_sites, ea, eb, other)
            (get_elem?-set_ne (set sites i b) a ne ∙ get_elem?-set_self sites i b hi)
    ]

swap_sites-other :
    (sites : List CallSite) (i j k : ℕ)
    → i ≢ k
    → j ≢ k
    → get_elem? (swap_sites sites i j) k ≡ get_elem? sites k
unfolding swap_sites
swap_sites-other sites i j k ni nj = elim (Option-cases (get_elem? sites i)) [
  | inl out ↦ rw (swap_sites, out) refl
  | inr a ↦ elim (Option-cases (get_elem? sites j)) [
    | inl out ↦ rw (swap_sites, a.1, out) refl
    | inr b ↦ elim (Bool-cases (i == j)) [
      | inl same ↦ rw (swap_sites, a.1, b.1, same) refl
      | inr other ↦
          rw (swap_sites, a.1, b.1, other)
            (get_elem?-set_ne (set sites i b.0) a.0 nj ∙ get_elem?-set_ne sites b.0 ni)
    ]
  ]
]

length-swap_sites : (sites : List CallSite) (i j : ℕ) → length (swap_sites sites i j) ≡ length sites
unfolding swap_sites
length-swap_sites sites i j = elim (Option-cases (get_elem? sites i)) [
  | inl out ↦ rw (swap_sites, out) refl
  | inr a ↦ elim (Option-cases (get_elem? sites j)) [
    | inl out ↦ rw (swap_sites, a.1, out) refl
    | inr b ↦ elim (Bool-cases (i == j)) [
      | inl same ↦ rw (swap_sites, a.1, b.1, same) refl
      | inr other ↦
          rw (swap_sites, a.1, b.1, other)
            (length-set (set sites i b.0) j a.0 ∙ length-set sites i b.0)
    ]
  ]
]

-- The sites at `ci + n` down to `ci + 1`.
backward : ℕ → List CallSite → ℕ → List CallSite
backward zero sites ci = []
backward (suc n) sites ci = site_at sites (ci + suc n) ++ backward n sites ci

site_at_same :
    (s t : List CallSite) (i j : ℕ) → get_elem? s i ≡ get_elem? t j → site_at s i ≡ site_at t j
site_at_same s t i j e = ap (λ (o : Option CallSite). elim o [ none ↦ [] | some c ↦ c ∷ [] ]) e

backward-swap_sites :
    (n : ℕ) (sites : List CallSite) (ci j : ℕ)
    → ci + n < j
    → backward n (swap_sites sites ci j) ci ≡ backward n sites ci
unfolding backward
backward-swap_sites zero sites ci j far = refl
backward-swap_sites (suc n) sites ci j far =
    rw
      (
        site_at_same (swap_sites sites ci j) sites (ci + suc n) (ci + suc n) (
            swap_sites-other sites ci j (ci + suc n) (λ e. omega (arith, e))
              (λ e. omega (arith, e))),
        backward-swap_sites n sites ci j (omega arith),
      )
      refl

module _ (alive : ℕ → Bool) where
  -- From a dead place on the loop pushes that place, and then the others from the last one down.
  pushes :
      (n : ℕ) (sites : List CallSite) (ci : ℕ) (pushed : List CallSite)
      → alive ci ≡ false
      → ci + n < length sites
      → (move_dead (suc n) alive false sites ci pushed).2
        ≡ pushed ++ (site_at sites ci ++ backward n sites ci)
  unfolding backward
  pushes zero sites ci pushed dead far =
      let e = round alive false zero sites ci pushed false dead in
      rw (e, append-nil) (unfold move_dead in refl)
  pushes (suc n) sites ci pushed dead far =
      let e = round alive false (suc n) sites ci pushed false dead in
      let sites' = swap_sites sites ci (ci + suc n) in
      let first =
        site_at_same sites' sites ci (ci + suc n)
          (swap_sites-first sites ci (ci + suc n) (omega arith) far) in
      rw
        (
          e,
          pushes n sites' ci (pushed ++ site_at sites ci) dead
              (omega (arith, length-swap_sites sites ci (ci + suc n))),
          first,
          backward-swap_sites n sites ci (ci + suc n) (omega arith),
        )
        (append_assoc pushed (site_at sites ci) (site_at sites (ci + suc n) ++ backward n sites ci))

  pushes_from :
      (count : ℕ) (sites : List CallSite) (ci n : ℕ)
      → count ≡ leading count alive ci + suc n
      → ci + count ≤ length sites
      → (move_dead count alive false sites ci []).2
        ≡ site_at sites (ci + leading count alive ci)
          ++ backward n sites (ci + leading count alive ci)
  pushes_from zero sites ci n some_dead far = absurd (omega (arith, some_dead))
  pushes_from (suc count) sites ci n some_dead far = elim (Bool-cases (alive ci)) [
    | inl live ↦
        let sum : ci + suc (leading count alive (ci + 1)) ≡ ci + 1 + leading count alive (ci + 1) =
          omega arith in
        let fewer : suc count ≡ suc (leading count alive (ci + 1)) + suc n = rw live at some_dead in
        let e = round alive false count sites ci [] true live in
        rw (live, sum, e)
          (pushes_from count sites (ci + 1) n (omega (arith, fewer)) (omega (arith, far)))
    | inr dead ↦
        let sum : ci + 0 ≡ ci = omega arith in
        let all : suc count ≡ 0 + suc n = rw dead at some_dead in
        let same : count ≡ n = omega (arith, all) in
        rw (dead, sum, same) (pushes n sites ci [] dead (omega (arith, far, same)))
  ]

get_elem?-drop :
    (sites : List CallSite) (e k : ℕ) → get_elem? sites (e + k) ≡ get_elem? (drop e sites) k
get_elem?-drop sites zero k = ap (get_elem? sites) (omega arith)
get_elem?-drop [] (suc e) k = refl
get_elem?-drop (c ∷ sites) (suc e) k =
    let sum : suc e + k ≡ suc (e + k) = omega arith in
    ap (get_elem? (c ∷ sites)) sum ∙ get_elem?-drop sites e k

-- What stands in front of a place does not matter.
backward-drop :
    (n : ℕ) (sites : List CallSite) (e : ℕ) → backward n sites e ≡ backward n (drop e sites) 0
unfolding backward
backward-drop zero sites e = refl
backward-drop (suc n) sites e =
    let sum : suc n ≡ 0 + suc n = omega arith in
    rw
      (
        site_at_same sites (drop e sites) (e + suc n) (0 + suc n)
            (get_elem?-drop sites e (suc n) ∙ ap (get_elem? (drop e sites)) sum),
        backward-drop n sites e,
      )
      refl

take-suc : (xs : List CallSite) (n : ℕ) → take (suc n) xs ≡ take n xs ++ site_at xs n
take-suc [] zero = refl
take-suc [] (suc n) = refl
take-suc (x ∷ xs) zero = refl
take-suc (x ∷ xs) (suc n) = ap (λ ys. x ∷ ys) (take-suc xs n)

reverse-site_at : (xs : List CallSite) (n : ℕ) → reverse (site_at xs n) ≡ site_at xs n
reverse-site_at xs n = elim (Option-cases (get_elem? xs n)) [
  | inl out ↦ rw (site_at, out) refl
  | inr c ↦ rw (site_at, c.1) refl
]

backward-reverse :
    (n : ℕ) (c : CallSite) (xs : List CallSite) → backward n (c ∷ xs) 0 ≡ reverse (take n xs)
unfolding backward
backward-reverse zero c xs = refl
backward-reverse (suc n) c xs =
    let sum : 0 + suc n ≡ suc n = omega arith in
    rw (sum, take-suc xs n, reverse-append (take n xs) (site_at xs n), reverse-site_at xs n)
      (ap (λ ys. site_at xs n ++ ys) (backward-reverse n c xs))

take_all : (xs : List CallSite) → take (length xs) xs ≡ xs
take_all [] = refl
take_all (x ∷ xs) = ap (λ ys. x ∷ ys) (take_all xs)

-- If an aux call is dead, removeDeadNodes without RemoveUnreachableGlobals gives the globals graph all
-- calls from the first dead one on, the alive ones too: the dead one first, then the others from the
-- last one down.
pub drop_dead-pushes :
    (alive : ℕ → Bool) (sites : List CallSite) (c : CallSite) (rest : List CallSite)
    → drop (leading (length sites) alive 0) sites ≡ c ∷ rest
    → (drop_dead alive false sites).1 ≡ c ∷ reverse rest
unfolding drop_dead
drop_dead-pushes alive sites c rest is =
    let e = leading (length sites) alive 0 in
    let sum : 0 + e ≡ e = omega arith in
    let left : length sites - e ≡ suc (length rest) = sym (length-drop e sites) ∙ ap length is in
    let first : site_at sites e ≡ c ∷ [] =
      site_at_same sites (drop e sites) e 0
        (ap (get_elem? sites) (omega arith) ∙ get_elem?-drop sites e 0)
      ∙ rw (site_at, is) refl in
    let others : backward (length rest) sites e ≡ reverse rest =
      backward-drop (length rest) sites e
      ∙ ap (λ ys. backward (length rest) ys 0) is
      ∙ backward-reverse (length rest) c rest
      ∙ ap reverse (take_all rest) in
    let all =
      pushes_from alive (length sites) sites 0 (length rest) (omega (arith, left)) (omega arith) in
    (rw (sum) at all) ∙ rw (first, others) refl
