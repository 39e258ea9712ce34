-- ===== src/Graphs/Dropped.antt =====
-- lib/DSA/DSGraph.cpp: which call sites `removeDeadNodes` keeps.
use poolalloc_3_1_upstreamed.Prelude.{
  ℕ, zero, suc, ◌+◌, ◌≤◌, ◌≡◌, refl, ap, ◌∙◌, Bool, true, false, ◌||◌, Bool-cases, inl, inr,
  Option-cases, List, [], ◌∷◌, ◌++◌, length, get_elem?, set, take, ◌==◌, if◌then◌else◌, arith,
}
use poolalloc_3_1_upstreamed.Graphs.Sites.{CallSite}
use poolalloc_3_1_upstreamed.Graphs.Alive.{swap_sites, site_at, move_dead, drop_dead}

-- How many places from `ci` on are alive, up to the first dead one.
abbrev pub leading : ℕ → (ℕ → Bool) → ℕ → ℕ
leading zero alive ci = 0
leading (suc count) alive ci = if alive ci then suc (leading count alive (ci + 1)) else 0

take-set {ℓ} :
    {A : Type ℓ} (n : ℕ) (xs : List A) (i : ℕ) (v : A) → n ≤ i → take n (set xs i v) ≡ take n xs
take-set zero xs i v h = refl
take-set (suc n) [] i v h = refl
take-set (suc n) (x ∷ xs) zero v h = absurd (omega arith)
take-set (suc n) (x ∷ xs) (suc i) v h = ap (λ ys. x ∷ ys) (take-set n xs i v (omega arith))

take-swap_sites :
    (n : ℕ) (sites : List CallSite) (i j : ℕ)
    → n ≤ i
    → n ≤ j
    → take n (swap_sites sites i j) ≡ take n sites
unfolding swap_sites
take-swap_sites n sites i j hi hj = elim (Option-cases (get_elem? sites i)) [
  | inl out ↦ rw (swap_sites, out) refl
  | inr a ↦ elim (Option-cases (get_elem? sites j)) [
    | inl out ↦ rw (swap_sites, a.1, out) refl
    | inr b ↦ elim (Bool-cases (i == j)) [
      | inl same ↦ rw (swap_sites, a.1, b.1, same) refl
      | inr other ↦
          rw (swap_sites, a.1, b.1, other)
            (take-set n (set sites i b.0) j a.0 hj ∙ take-set n sites i b.0 hi)
    ]
  ]
]

module _ (alive : ℕ → Bool) (ignore : Bool) where
  -- A round, by whether the place is alive.
  pub round :
      (count : ℕ) (sites : List CallSite) (ci : ℕ) (pushed : List CallSite) (live : Bool)
      → alive ci ≡ live
      → move_dead (suc count) alive ignore sites ci pushed
        ≡ move_dead count alive ignore
            (if live then sites else swap_sites sites ci (ci + count))
            (if live then ci + 1 else ci)
            (if live || ignore then pushed else pushed ++ site_at sites ci)
  unfolding move_dead
  round count sites ci pushed live e =
      ap
        (λ (b : Bool).
          move_dead count alive ignore (if b then sites else swap_sites sites ci (ci + count))
            (if b then ci + 1 else ci) (if b || ignore then pushed else pushed ++ site_at sites ci))
        e

  -- From a dead place the loop goes no further, and what is in front stays.
  stays :
      (count : ℕ) (sites : List CallSite) (ci : ℕ) (pushed : List CallSite)
      → alive ci ≡ false
      → ((move_dead count alive ignore sites ci pushed).1 ≡ ci)
        × (take ci (move_dead count alive ignore sites ci pushed).0 ≡ take ci sites)
  stays zero sites ci pushed dead = unfold move_dead in (refl, refl)
  stays (suc count) sites ci pushed dead =
      let (at, front) =
        stays count (swap_sites sites ci (ci + count)) ci
          (if ignore then pushed else pushed ++ site_at sites ci) dead in
      let e = round count sites ci pushed false dead in
      (rw e at, rw e (front ∙ take-swap_sites ci sites ci (ci + count) (omega arith) (omega arith)))

  moved :
      (count : ℕ) (sites : List CallSite) (ci : ℕ) (pushed : List CallSite)
      → ((move_dead count alive ignore sites ci pushed).1 ≡ ci + leading count alive ci)
        × (take (ci + leading count alive ci) (move_dead count alive ignore sites ci pushed).0
            ≡ take (ci + leading count alive ci) sites)
  moved zero sites ci pushed = unfold move_dead in (omega arith, refl)
  moved (suc count) sites ci pushed = elim (Bool-cases (alive ci)) [
    | inl live ↦
        let (at, front) = moved count sites (ci + 1) pushed in
        let sum : ci + suc (leading count alive (ci + 1)) ≡ ci + 1 + leading count alive (ci + 1) =
          omega arith in
        let e = round count sites ci pushed true live in
        (rw (live, sum, e) at, rw (live, sum, e) front)
    | inr dead ↦
        let (at, front) = stays (suc count) sites ci pushed dead in
        let sum : ci + 0 ≡ ci = omega arith in (rw (dead, sum) at, rw (dead, sum) front)
  ]

-- The aux calls that removeDeadNodes keeps are those in front of the first dead one: the alive ones
-- behind it are dropped with it.
pub drop_dead-leading :
    (alive : ℕ → Bool) (ignore : Bool) (sites : List CallSite)
    → (drop_dead alive ignore sites).0 ≡ take (leading (length sites) alive 0) sites
unfolding drop_dead
drop_dead-leading alive ignore sites =
    let (at, front) = moved alive ignore (length sites) sites 0 [] in
    let sum : 0 + leading (length sites) alive 0 ≡ leading (length sites) alive 0 = omega arith in
    ap (λ (n : ℕ). take n (move_dead (length sites) alive ignore sites 0 []).0) (at ∙ sum)
    ∙ (rw (sum) at front)
