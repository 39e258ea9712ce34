-- ===== src/Splay/Order.antt =====
-- include/poolalloc_runtime/Support/SplayTree.h: what one round of `splay` keeps of the order.
use poolalloc_3_1_upstreamed.Prelude.{
  ℕ, ◌≤◌, ◌<◌, ◌≡◌, refl, List, [], ◌∷◌, ◌++◌, append_assoc, append-nil, arith, All, All-append,
  All-append_left, All-append_right, All-mono, length, length-append,
}
use poolalloc_3_1_upstreamed.Splay.Tree.{
  Entry, Tree, leaf, node, Lefts, Rights, plug_left, plug_right, count_internal,
}

module _ {ℓ} {T : Type ℓ} where
  -- The entries of a tree from left to right.
  abbrev pub entries : Tree T → List (Entry T)
  entries leaf = []
  entries (node l e r) = entries l ++ e ∷ entries r

  -- The entries of the left tree, and of the right tree, from left to right.
  abbrev pub before : Lefts T → List (Entry T)
  before [] = []
  before ((ll, e) ∷ ls) = before ls ++ (entries ll ++ e ∷ [])

  abbrev pub after : Rights T → List (Entry T)
  after [] = []
  after ((e, rr) ∷ rs) = e ∷ (entries rr ++ after rs)

  pub entries-plug_left :
      (ls : Lefts T) (x : Tree T) → entries (plug_left ls x) ≡ before ls ++ entries x
  unfolding plug_left
  entries-plug_left [] x = refl
  entries-plug_left ((ll, e) ∷ ls) x = simp (entries-plug_left ls, append_assoc)

  pub entries-plug_right :
      (rs : Rights T) (x : Tree T) → entries (plug_right rs x) ≡ entries x ++ after rs
  unfolding plug_right
  entries-plug_right [] x = simp append-nil
  entries-plug_right ((e, rr) ∷ rs) x = simp (entries-plug_right rs, append_assoc)

  pub length-entries : (t : Tree T) → length (entries t) ≡ count_internal t
  unfolding count_internal
  length-entries leaf = refl
  length-entries (node l e r) =
      omega (arith, length-append (entries l) (e ∷ entries r), length-entries l, length-entries r)

  abbrev pub IsBefore : ℕ → Entry T → Type 0
  IsBefore key e = e.end < key

  abbrev pub IsAfter : ℕ → Entry T → Type 0
  IsAfter key e = key < e.start

  -- Ranges that are not empty, in ascending order, no two of which overlap.
  abbrev pub IsSorted : List (Entry T) → Type 0
  IsSorted [] = Unit
  IsSorted (e ∷ es) = (e.start ≤ e.end) × All (IsAfter e.end) es × IsSorted es

  -- What `IsSorted` says around one entry.
  pub record Mid (xs : List (Entry T)) (e : Entry T) (ys : List (Entry T)) : Type 0 where
    pub left : IsSorted xs
    pub below : All (IsBefore e.start) xs
    pub valid : e.start ≤ e.end
    pub above : All (IsAfter e.end) ys
    pub right : IsSorted ys

  pub Mid-of_sorted :
      (xs : List (Entry T)) (e : Entry T) (ys : List (Entry T))
      → IsSorted (xs ++ e ∷ ys)
      → Mid xs e ys
  Mid-of_sorted [] e ys h = record { left = tt; below = tt; valid = h.0; above = h.1; right = h.2 }
  Mid-of_sorted (x ∷ xs) e ys h =
      let m = Mid-of_sorted xs e ys h.2 in
      record {
        left = (h.0, All-append_left (IsAfter x.end) xs (e ∷ ys) h.1, m.left);
        below = ((All-append_right (IsAfter x.end) xs (e ∷ ys) h.1).0, m.below);
        valid = m.valid;
        above = m.above;
        right = m.right;
      }

  pub IsSorted-append :
      (xs : List (Entry T)) (e : Entry T) (ys : List (Entry T))
      → Mid xs e ys
      → IsSorted (xs ++ e ∷ ys)
  IsSorted-append [] e ys m = (m.valid, m.above, m.right)
  IsSorted-append (x ∷ xs) e ys m = (
    m.left.0,
    All-append (IsAfter x.end) xs (e ∷ ys) m.left.1
        (m.below.0, All-mono (IsAfter e.end) (IsAfter x.end) ys (λ a h. far a h) m.above),
    IsSorted-append xs e ys (record {
      left = m.left.2;
      below = m.below.1;
      valid = m.valid;
      above = m.above;
      right = m.right;
    }),
  )
    where
      far : (a : Entry T) → e.end < a.start → x.end < a.start
      far a h = omega (arith, m.below.0, m.valid)

  -- A key below an entry is below all behind it; a key above an entry is above all before it.
  pub IsAfter-of_lt :
      (key : ℕ) (xs : List (Entry T)) (e : Entry T) (ys : List (Entry T))
      → IsSorted (xs ++ e ∷ ys)
      → key < e.start
      → All (IsAfter key) (e ∷ ys)
  IsAfter-of_lt key xs e ys s h =
      let m = Mid-of_sorted xs e ys s in
      (h, All-mono (IsAfter e.end) (IsAfter key) ys (λ a k. omega (arith, m.valid)) m.above)

  pub IsBefore-of_gt :
      (key : ℕ) (xs : List (Entry T)) (e : Entry T) (ys : List (Entry T))
      → IsSorted (xs ++ e ∷ ys)
      → e.end < key
      → All (IsBefore key) (xs ++ e ∷ [])
  IsBefore-of_gt key xs e ys s h =
      let m = Mid-of_sorted xs e ys s in
      All-append (IsBefore key) xs (e ∷ [])
        (All-mono (IsBefore e.start) (IsBefore key) xs (λ a k. omega (arith, m.valid)) m.below)
        (h, tt)

  pub IsBefore-of_last :
      (key : ℕ) (xs : List (Entry T)) (e : Entry T) (ys : List (Entry T))
      → IsSorted (xs ++ e ∷ ys)
      → e.end < key
      → All (IsBefore key) xs
  IsBefore-of_last key xs e ys s h =
      All-append_left (IsBefore key) xs (e ∷ []) (IsBefore-of_gt key xs e ys s h)

  -- Around an entry that holds the key, the rest lies on the two sides of the key.
  pub sides_of_hit :
      (key : ℕ) (xs : List (Entry T)) (e : Entry T) (ys : List (Entry T))
      → IsSorted (xs ++ e ∷ ys)
      → e.start ≤ key
      → key ≤ e.end
      → All (IsBefore key) xs × All (IsAfter key) ys
  sides_of_hit key xs e ys s h k =
      let m = Mid-of_sorted xs e ys s in
      (
        All-mono (IsBefore e.start) (IsBefore key) xs (λ a b. omega arith) m.below,
        All-mono (IsAfter e.end) (IsAfter key) ys (λ a b. omega arith) m.above,
      )
