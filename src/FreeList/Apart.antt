-- ===== src/FreeList/Apart.antt =====
-- runtime/FreeListAllocator/PageManager.cpp: the pages in use, and the free ones, as ranges.
use native.Mathlib.Nat.{mul-le-mul_right}
use poolalloc_3_1_upstreamed.Prelude.{
  ℕ, zero, suc, ◌+◌, ◌*◌, ◌≤◌, ◌≡◌, refl, ◌⊎◌, inl, inr, Option, none, some, List, [], ◌∷◌, ◌++◌,
  arith, All, All-append, All-mono, append_assoc, append-nil,
}
use poolalloc_3_1_upstreamed.FreeList.Pages.{
  Pages, push_extra, map_eight, take_page, allocate_page, give_page, free_page,
}

-- Two pages that share no byte.
abbrev pub IsDisjoint : ℕ → ℕ → ℕ → Type 0
IsDisjoint size a b = (a + size ≤ b) ⊎ (b + size ≤ a)

abbrev pub AreDisjoint : ℕ → List ℕ → Type 0
AreDisjoint size [] = Unit
AreDisjoint size (p ∷ ps) = All (IsDisjoint size p) ps × AreDisjoint size ps

-- The pages that `FreePages` holds.
abbrev pub free_of : Option (List ℕ) → List ℕ
free_of none = []
free_of (some pages) = pages

-- A page manager and the pages in use, after any calls of `AllocatePage` and `FreePage`. The space
-- that the system gives is to overlap no page that is in use.
pub data Reached (size : ℕ) : Pages → List ℕ → Type 0 where
  begun : Reached size (record { page_size = size; free_pages = none }) []
  allocated :
      {m : Pages} {live : List ℕ} (ptr : ℕ)
      → Reached size m live
      → All (λ p. (ptr + 8 * size ≤ p) ⊎ (p + size ≤ ptr)) live
      → Reached size (allocate_page ptr m).0 ((allocate_page ptr m).1 ∷ live)
  freed :
      {m m' : Pages} (before : List ℕ) (page : ℕ) (behind : List ℕ)
      → Reached size m (before ++ page ∷ behind)
      → free_page m page ≡ some m'
      → Reached size m' (before ++ behind)

IsDisjoint-sym : (size a b : ℕ) → IsDisjoint size a b → IsDisjoint size b a
IsDisjoint-sym size a b (inl h) = inr h
IsDisjoint-sym size a b (inr h) = inl h

All-front :
    (P : ℕ → Type 0) (xs : List ℕ) (p : ℕ) (ys : List ℕ)
    → All P (xs ++ p ∷ ys)
    → P p × All P (xs ++ ys)
All-front P [] p ys h = h
All-front P (x ∷ xs) p ys (h, hs) = let (hp, rest) = All-front P xs p ys hs in (hp, (h, rest))

All-back :
    (P : ℕ → Type 0) (xs : List ℕ) (p : ℕ) (ys : List ℕ)
    → P p
    → All P (xs ++ ys)
    → All P (xs ++ p ∷ ys)
All-back P [] p ys hp h = (hp, h)
All-back P (x ∷ xs) p ys hp (h, hs) = (h, All-back P xs p ys hp hs)

-- A page in the middle may go to the front.
AreDisjoint-front :
    (size : ℕ) (xs : List ℕ) (p : ℕ) (ys : List ℕ)
    → AreDisjoint size (xs ++ p ∷ ys)
    → AreDisjoint size (p ∷ xs ++ ys)
AreDisjoint-front size [] p ys h = h
AreDisjoint-front size (x ∷ xs) p ys (h, hs) =
    let (xp, hx) = All-front (IsDisjoint size x) xs p ys h in
    let (hp, rest) = AreDisjoint-front size xs p ys hs in
    ((IsDisjoint-sym size x p xp, hp), (hx, rest))

-- And back.
AreDisjoint-back :
    (size : ℕ) (xs : List ℕ) (p : ℕ) (ys : List ℕ)
    → AreDisjoint size (p ∷ xs ++ ys)
    → AreDisjoint size (xs ++ p ∷ ys)
AreDisjoint-back size [] p ys h = h
AreDisjoint-back size (x ∷ xs) p ys ((hx, h), (hs, rest)) = (
  All-back (IsDisjoint size x) xs p ys (IsDisjoint-sym size p x hx) hs,
  AreDisjoint-back size xs p ys (h, rest),
)

AreDisjoint-append :
    (size : ℕ) (xs ys : List ℕ)
    → AreDisjoint size xs
    → AreDisjoint size ys
    → All (λ x. All (IsDisjoint size x) ys) xs
    → AreDisjoint size (xs ++ ys)
AreDisjoint-append size [] ys h k across = k
AreDisjoint-append size (x ∷ xs) ys (hx, h) k (ax, across) =
    (All-append (IsDisjoint size x) xs ys hx ax, AreDisjoint-append size xs ys h k across)

-- Behind the first page at `ptr`, and before the page `n`.
abbrev IsExtra : ℕ → ℕ → ℕ → ℕ → Type 0
IsExtra size ptr n a = (ptr + size ≤ a) × (a + size ≤ ptr + n * size)

push_extra-AreDisjoint :
    (size ptr i left : ℕ) (pages : List ℕ)
    → 1 ≤ i
    → All (IsExtra size ptr i) pages
    → AreDisjoint size pages
    → All (IsExtra size ptr (i + left)) (push_extra size ptr i left pages)
      × AreDisjoint size (push_extra size ptr i left pages)
unfolding push_extra
push_extra-AreDisjoint size ptr i zero pages pos extra apart =
    let e : i + 0 ≡ i = omega arith in rw e (extra, apart)
push_extra-AreDisjoint size ptr i (suc left) pages pos extra apart =
    let next : (i + 1) * size ≡ i * size + size = grind arith in
    let above : size ≤ i * size = grind (arith, mul-le-mul_right {m = 1} {n = i} size pos) in
    let sum : i + suc left ≡ i + 1 + left = omega arith in
    rw sum (
      push_extra-AreDisjoint size ptr (i + 1) left ((ptr + i * size) ∷ pages) (omega arith)
        (
          (omega arith, omega (arith, next)),
          All-mono (IsExtra size ptr i) (IsExtra size ptr (i + 1)) pages
              (λ a h. (h.0, omega (arith, h.1, next))) extra,
        )
        (
          All-mono (IsExtra size ptr i) (IsDisjoint size (ptr + i * size)) pages (λ a h. inr h.1)
              extra,
          apart,
        ))

-- The pages that are in use, and the ones that are free, for a page size.
abbrev IsApart : ℕ → Pages → List ℕ → Type 0
IsApart size m live = (m.page_size ≡ size) × AreDisjoint size (live ++ free_of m.free_pages)

map_eight-IsApart :
    (size ptr : ℕ) (m : Pages) (live : List ℕ)
    → m.page_size ≡ size
    → AreDisjoint size live
    → All (λ p. (ptr + 8 * size ≤ p) ⊎ (p + size ≤ ptr)) live
    → IsApart size (map_eight ptr m).0 ((map_eight ptr m).1 ∷ live)
unfolding map_eight
map_eight-IsApart size ptr m live same apart fresh =
    let extra = push_extra-AreDisjoint size ptr 1 7 [] (omega arith) tt tt in
    let pages = push_extra size ptr 1 7 [] in
    rw same (
      refl,
      (
        All-append (IsDisjoint size ptr) live pages
            (All-mono (λ p. (ptr + 8 * size ≤ p) ⊎ (p + size ≤ ptr)) (IsDisjoint size ptr) live
              (λ p h. elim h [ inl lo ↦ inl (omega arith) | inr hi ↦ inr hi ]) fresh)
            (All-mono (IsExtra size ptr 8) (IsDisjoint size ptr) pages (λ a h. inl h.0) extra.0),
        AreDisjoint-append size live pages apart extra.1 (
            All-mono (λ p. (ptr + 8 * size ≤ p) ⊎ (p + size ≤ ptr))
              (λ p. All (IsDisjoint size p) pages) live
              (λ p h.
                All-mono (IsExtra size ptr 8) (IsDisjoint size p) pages
                  (λ a k. elim h [
                    | inl lo ↦ inr (omega (arith, k.1))
                    | inr hi ↦ inl (omega (arith, k.0))
                  ])
                  extra.0)
              fresh),
      ),
    )

take_page-IsApart :
    (size ptr : ℕ) (m : Pages) (live : List ℕ) (free : Option (List ℕ))
    → m.page_size ≡ size
    → AreDisjoint size (live ++ free_of free)
    → All (λ p. (ptr + 8 * size ≤ p) ⊎ (p + size ≤ ptr)) live
    → IsApart size (take_page ptr m free).0 ((take_page ptr m free).1 ∷ live)
unfolding take_page
take_page-IsApart size ptr m live none same apart fresh =
    map_eight-IsApart size ptr m live same (rw (append-nil live) at apart) fresh
take_page-IsApart size ptr m live (some []) same apart fresh =
    map_eight-IsApart size ptr m live same (rw (append-nil live) at apart) fresh
take_page-IsApart size ptr m live (some (p ∷ ps)) same apart fresh =
    (same, AreDisjoint-front size live p ps apart)

give_page-IsApart :
    (size : ℕ) (m : Pages) {m' : Pages} (before : List ℕ) (page : ℕ) (behind : List ℕ)
    (free : Option (List ℕ))
    → m.page_size ≡ size
    → AreDisjoint size ((before ++ page ∷ behind) ++ free_of free)
    → give_page m page free ≡ some m'
    → IsApart size m' (before ++ behind)
unfolding give_page
give_page-IsApart size m before page behind none same apart done = absurd (ground arith)
give_page-IsApart size m {m'} before page behind (some free) same apart done =
    let kept : m'.page_size ≡ size = ground arith in
    let now : m'.free_pages ≡ some (page ∷ free) = ground arith in
    let front =
      AreDisjoint-front size before page (behind ++ free)
        (rw (append_assoc before (page ∷ behind) free) at apart) in
    (
      kept,
      rw now (
          AreDisjoint-back size (before ++ behind) page free
            (rw (append_assoc before behind free) front)),
    )

-- After any calls of `AllocatePage` and `FreePage`, no two of the pages in use and the free pages
-- share a byte. The space that the system gives is to overlap no page in use.
pub allocate_page-IsApart :
    (size : ℕ) {m : Pages} {live : List ℕ}
    → Reached size m live
    → (m.page_size ≡ size) × AreDisjoint size (live ++ free_of m.free_pages)
unfolding allocate_page free_page
allocate_page-IsApart size begun = (refl, tt)
allocate_page-IsApart size (allocated {m = m} {live = live} ptr r fresh) =
    let (same, apart) = allocate_page-IsApart size r in
    take_page-IsApart size ptr m live m.free_pages same apart fresh
allocate_page-IsApart size (freed {m = m} before page behind r done) =
    let (same, apart) = allocate_page-IsApart size r in
    give_page-IsApart size m before page behind m.free_pages same apart done
