-- ===== src/Splay/Rounds.antt =====
-- include/poolalloc_runtime/Support/SplayTree.h: the rounds of `splay`, and `splay` as a whole.
use poolalloc_3_1_upstreamed.Prelude.{
  ℕ, zero, suc, ◌≤◌, ◌<◌, ◌≡◌, refl, sym, ◌∙◌, inl, inr, Option, some, List, [], ◌∷◌, ◌++◌,
  append_assoc, append-nil, arith, ltb→lt, All, All-append, Bool-cases,
}
use poolalloc_3_1_upstreamed.Splay.Tree.{
  Entry, Tree, leaf, node, Lefts, Rights, Turn, stop, go, key_lt, key_gt, zig_left, turn_left,
  zig_right, turn_right, turn, assemble, splay_loop, count_internal, splay, or_leaf,
}
use poolalloc_3_1_upstreamed.Splay.Order.{
  entries, before, after, entries-plug_left, entries-plug_right, IsBefore, IsAfter, IsSorted,
  Mid-of_sorted, IsAfter-of_lt, IsBefore-of_gt, IsBefore-of_last, sides_of_hit,
}

module _ {ℓ} {T : Type ℓ} where
  -- What is behind a round: nothing is lost, the tree to search shrinks, and on a sorted tree
  -- what was linked away lies on its side of the key.
  data Round (key : ℕ) (t : Tree T) (ls : Lefts T) (rs : Rights T) : Turn T → Type ℓ where
    stopped :
        {l r : Tree T} {e : Entry T}
        → entries l ++ e ∷ entries r ≡ entries t
        → (IsSorted (entries t) → All (IsBefore key) (entries l) × All (IsAfter key) (entries r))
        → Round key t ls rs (stop (node l e r))
    linked_right :
        {l r : Tree T} {e : Entry T} (f : Entry T) (s : Tree T)
        → (entries l ++ e ∷ entries r) ++ f ∷ entries s ≡ entries t
        → count_internal (node l e r) < count_internal t
        → (IsSorted (entries t) → key < f.start)
        → Round key t ls rs (go (node l e r) ls ((f, s) ∷ rs))
    linked_left :
        {l r : Tree T} {e : Entry T} (s : Tree T) (f : Entry T)
        → entries s ++ f ∷ (entries l ++ e ∷ entries r) ≡ entries t
        → count_internal (node l e r) < count_internal t
        → (IsSorted (entries t) → f.end < key)
        → Round key t ls rs (go (node l e r) ((s, f) ∷ ls) rs)

  module _ (key : ℕ) (ls : Lefts T) (rs : Rights T) where
    zig_left-Round :
        (ll : Tree T) (f : Entry T) (lr : Tree T) (e : Entry T) (r : Tree T)
        → key < f.start
        → Round key (node (node ll f lr) e r) ls rs (zig_left ll f (node lr e r) ls rs)
    unfolding zig_left count_internal
    zig_left-Round leaf f lr e r h =
        stopped (sym (append_assoc [] (f ∷ entries lr) (e ∷ entries r)))
          (λ s. (tt, (IsAfter-of_lt key [] f (entries lr ++ e ∷ entries r) s h).1))
    zig_left-Round (node a b c) f lr e r h =
        linked_right f (node lr e r)
          (sym (append_assoc (entries (node a b c)) (f ∷ entries lr) (e ∷ entries r))) (omega arith)
          (λ _. h)

    turn_left-Round :
        (l : Tree T) (e : Entry T) (r : Tree T)
        → key < e.start
        → Round key (node l e r) ls rs (turn_left l e r key ls rs)
    unfolding turn_left count_internal
    turn_left-Round leaf e r h =
        stopped refl (λ s. (tt, (IsAfter-of_lt key [] e (entries r) s h).1))
    turn_left-Round (node ll f lr) e r h = elim (Bool-cases (key_lt key f)) [
      | inl lt ↦ rw lt (zig_left-Round ll f lr e r (ltb→lt key f.start lt))
      | inr ge ↦ rw ge (linked_right e r refl (omega arith) (λ _. h))
    ]

    zig_right-Round :
        (l : Tree T) (e : Entry T) (rl : Tree T) (f : Entry T) (rr : Tree T)
        → f.end < key
        → Round key (node l e (node rl f rr)) ls rs (zig_right (node l e rl) f rr ls rs)
    unfolding zig_right count_internal
    zig_right-Round l e rl f leaf h =
        let q = append_assoc (entries l) (e ∷ entries rl) (f ∷ []) in
        stopped q
          (λ s. (IsBefore-of_last key (entries l ++ e ∷ entries rl) f [] (rw (← q) at s) h, tt))
    zig_right-Round l e rl f (node a b c) h =
        linked_left (node l e rl) f
          (append_assoc (entries l) (e ∷ entries rl) (f ∷ entries (node a b c))) (omega arith)
          (λ _. h)

    turn_right-Round :
        (l : Tree T) (e : Entry T) (r : Tree T)
        → e.end < key
        → Round key (node l e r) ls rs (turn_right l e r key ls rs)
    unfolding turn_right count_internal
    turn_right-Round l e leaf h =
        stopped refl (λ s. (IsBefore-of_last key (entries l) e [] s h, tt))
    turn_right-Round l e (node rl f rr) h = elim (Bool-cases (key_gt key f)) [
      | inl lt ↦ rw lt (zig_right-Round l e rl f rr (ltb→lt f.end key lt))
      | inr ge ↦ rw ge (linked_left l e refl (omega arith) (λ _. h))
    ]

    turn-Round :
        (l : Tree T) (e : Entry T) (r : Tree T)
        → Round key (node l e r) ls rs (turn (node l e r) key ls rs)
    unfolding turn
    turn-Round l e r = elim (Bool-cases (key_lt key e)) [
      | inl lt ↦ rw lt (turn_left-Round l e r (ltb→lt key e.start lt))
      | inr ge ↦ rw ge (elim (Bool-cases (key_gt key e)) [
        | inl gt ↦ rw gt (turn_right-Round l e r (ltb→lt e.end key gt))
        | inr le ↦ rw le (
            stopped refl
              (λ s. sides_of_hit key (entries l) e (entries r) s (ground arith) (ground arith)))
      ])
    ]

  -- What a finished search gives: the entries that it was given, and on a sorted tree a root with
  -- all to its left before the key and all to its right behind it.
  pub record Splayed (key : ℕ) (es : List (Entry T)) (l : Tree T) (e : Entry T) (r : Tree T)
      : Type ℓ where
    pub same : entries l ++ e ∷ entries r ≡ es
    pub left : All (IsBefore key) (entries l)
    pub right : All (IsAfter key) (entries r)

  -- The outcome of a search over the entries `es`; `Ok` is what the order needs.
  data Ends (key : ℕ) (es : List (Entry T)) (Ok : Type 0) : Option (Tree T) → Type ℓ where
    ends :
        {l r : Tree T} {e : Entry T}
        → entries l ++ e ∷ entries r ≡ es
        → (Ok → All (IsBefore key) (entries l) × All (IsAfter key) (entries r))
        → Ends key es Ok (some (node l e r))

  moved-Ends :
      {key : ℕ} {es fs : List (Entry T)} {P Q : Type 0} {o : Option (Tree T)}
      → es ≡ fs
      → (Q → P)
      → Ends key es P o
      → Ends key fs Q o
  moved-Ends same weaken (ends e sides) = ends (e ∙ same) (λ q. sides (weaken q))

  abbrev whole : Tree T → Lefts T → Rights T → List (Entry T)
  whole t ls rs = before ls ++ (entries t ++ after rs)

  abbrev IsReady : ℕ → Tree T → Lefts T → Rights T → Type 0
  IsReady key t ls rs =
      IsSorted (entries t) × All (IsBefore key) (before ls) × All (IsAfter key) (after rs)

  module _ (key : ℕ) where
    resume-Ends :
        (fuel : ℕ) {t : Tree T} {ls : Lefts T} {rs : Rights T} {w : Turn T}
        → Round key t ls rs w
        → count_internal t ≤ suc fuel
        → Ends key (whole t ls rs) (IsReady key t ls rs) (elim w [
          | stop t' ↦ some (assemble t' ls rs)
          | go t' ls' rs' ↦ splay_loop fuel t' key ls' rs'
        ])
    unfolding splay_loop assemble count_internal
    resume-Ends fuel {t} {ls} {rs} (stopped {l} {r} {e} same sides) h =
        ends (simp (entries-plug_left, entries-plug_right, ← same, append_assoc)) (λ ok. (
          rw (entries-plug_left ls l)
              (All-append (IsBefore key) (before ls) (entries l) ok.1 (sides ok.0).0),
          rw (entries-plug_right rs r)
              (All-append (IsAfter key) (entries r) (after rs) (sides ok.0).1 ok.2),
        ))
    resume-Ends zero (linked_right f s same smaller side) h = absurd (omega arith)
    resume-Ends zero (linked_left s f same smaller side) h = absurd (omega arith)
    resume-Ends (suc fuel) {t} {ls} {rs} (linked_right {l} {r} {e} f s same smaller side) h =
        moved-Ends (simp (← same, append_assoc))
          (λ ok.
            let sorted = rw (← same) at ok.0 in
            let m = Mid-of_sorted (entries (node l e r)) f (entries s) sorted in
            (
              m.left,
              ok.1,
              All-append (IsAfter key) (f ∷ entries s) (after rs)
                  (IsAfter-of_lt key (entries (node l e r)) f (entries s) sorted (side ok.0)) ok.2,
            ))
          (resume-Ends fuel (turn-Round key ls ((f, s) ∷ rs) l e r) (omega arith))
    resume-Ends (suc fuel) {t} {ls} {rs} (linked_left {l} {r} {e} s f same smaller side) h =
        moved-Ends (simp (← same, append_assoc))
          (λ ok.
            let sorted = rw (← same) at ok.0 in
            let m = Mid-of_sorted (entries s) f (entries (node l e r)) sorted in
            (
              m.right,
              All-append (IsBefore key) (before ls) (entries s ++ f ∷ []) ok.1
                  (IsBefore-of_gt key (entries s) f (entries (node l e r)) sorted (side ok.0)),
              ok.2,
            ))
          (resume-Ends fuel (turn-Round key ((s, f) ∷ ls) rs l e r) (omega arith))

    -- With a round for each node the loop ends.
    splay_loop-Ends :
        (fuel : ℕ) (l : Tree T) (e : Entry T) (r : Tree T)
        → count_internal (node l e r) ≤ fuel
        → Ends key
            (entries (node l e r))
            (IsSorted (entries (node l e r)))
            (splay_loop fuel (node l e r) key [] [])
    unfolding splay_loop count_internal
    splay_loop-Ends zero l e r h = absurd (omega arith)
    splay_loop-Ends (suc fuel) l e r h =
        moved-Ends (append-nil _) (λ s. (s, tt, tt))
          (resume-Ends fuel (turn-Round key [] [] l e r) h)

    -- `splay` of a sorted tree with a root keeps the entries in their order, and brings an entry to
    -- the root such that all entries left of it end before the key, and all right of it start after.
    pub splay-Splayed :
        (l : Tree T) (e : Entry T) (r : Tree T)
        → IsSorted (entries (node l e r))
        → (l' : Tree T) × (e' : Entry T) × (r' : Tree T) × (splay (node l e r) key ≡ node l' e' r')
          × Splayed key (entries (node l e r)) l' e' r'
    unfolding splay
    splay-Splayed l e r s =
        found (splay_loop-Ends (count_internal (node l e r)) l e r (omega arith))
      where
        found :
            {o : Option (Tree T)}
            → Ends key (entries (node l e r)) (IsSorted (entries (node l e r))) o
            → (l' : Tree T) × (e' : Entry T) × (r' : Tree T) × (or_leaf o ≡ node l' e' r')
              × Splayed key (entries (node l e r)) l' e' r'
        found (ends {l = a} {r = c} {e = b} same sides) =
            (a, b, c, refl, record { same = same; left = (sides s).0; right = (sides s).1 })

  -- `splay` keeps the entries and their order, whether or not the tree is sorted.
  pub entries-splay : (t : Tree T) (key : ℕ) → entries (splay t key) ≡ entries t
  unfolding splay
  entries-splay leaf key = refl
  entries-splay (node l e r) key =
      kept (splay_loop-Ends key (count_internal (node l e r)) l e r (omega arith))
    where
      kept :
          {o : Option (Tree T)} {P : Type 0}
          → Ends key (entries (node l e r)) P o
          → entries (or_leaf o) ≡ entries (node l e r)
      kept (ends same sides) = same
