-- ===== src/Splay/Lookup.antt =====
-- include/poolalloc_runtime/Support/SplayTree.h: `__find`, `__insert` and `__remove` against
-- operations on a sorted list of ranges.
use poolalloc_3_1_upstreamed.Prelude.{
  ℕ, ◌≡◌, refl, sym, ap, ◌∙◌, inl, inr, Bool, true, false, Option, none, some, List, [], ◌∷◌, ◌++◌,
  append_assoc, arith, if◌then◌else◌, All, All-append_right, not, Bool-cases,
}
use poolalloc_3_1_upstreamed.Splay.Tree.{Entry, Tree, leaf, node, key_lt, splay}
use poolalloc_3_1_upstreamed.Splay.Order.{entries, IsBefore, IsAfter, IsSorted, Mid, Mid-of_sorted}
use poolalloc_3_1_upstreamed.Splay.Rounds.{Splayed, splay-Splayed}
use poolalloc_3_1_upstreamed.Splay.Range.{
  holds, insert, remove, find, unlink_root, insert_at, set_data, map_insert,
}

module _ {ℓ} {T : Type ℓ} where
  -- The range that holds an address, by linear search.
  unfoldable pub lookup_range : ℕ → List (Entry T) → Option (Entry T)
  lookup_range key [] = none
  lookup_range key (e ∷ es) = if holds key e then some e else lookup_range key es

  -- The list with the range that holds the address taken out.
  unfoldable pub erase_range : ℕ → List (Entry T) → List (Entry T)
  erase_range key [] = []
  erase_range key (e ∷ es) = if holds key e then es else e ∷ erase_range key es

  -- The list with a range put in front of the first that starts behind its start.
  unfoldable pub insert_range : Entry T → List (Entry T) → List (Entry T)
  insert_range n [] = n ∷ []
  insert_range n (e ∷ es) = if key_lt n.start e then n ∷ e ∷ es else e ∷ insert_range n es

  -- `is_some`.
  abbrev pub is_found : Option (Entry T) → Bool
  is_found none = false
  is_found (some _) = true

  is_found-if :
      (hit : Bool) (e : Entry T) (xs ys : List (Entry T))
      → (if hit then xs else ys) ≡ (if is_found (if hit then some e else none) then xs else ys)
  is_found-if true e xs ys = refl
  is_found-if false e xs ys = refl

  module _ (key : ℕ) where
    lookup_range-before :
        (xs ys : List (Entry T))
        → All (IsBefore key) xs
        → lookup_range key (xs ++ ys) ≡ lookup_range key ys
    unfolding lookup_range
    lookup_range-before [] ys h = refl
    lookup_range-before (x ∷ xs) ys h = ground (arith, lookup_range-before xs ys h.1)

    lookup_range-after : (ys : List (Entry T)) → All (IsAfter key) ys → lookup_range key ys ≡ none
    unfolding lookup_range
    lookup_range-after [] h = refl
    lookup_range-after (y ∷ ys) h = ground (arith, lookup_range-after ys h.1)

    erase_range-before :
        (xs ys : List (Entry T))
        → All (IsBefore key) xs
        → erase_range key (xs ++ ys) ≡ xs ++ erase_range key ys
    unfolding erase_range
    erase_range-before [] ys h = refl
    erase_range-before (x ∷ xs) ys h = ground (arith, erase_range-before xs ys h.1)

    erase_range-after : (ys : List (Entry T)) → All (IsAfter key) ys → erase_range key ys ≡ ys
    unfolding erase_range
    erase_range-after [] h = refl
    erase_range-after (y ∷ ys) h = ground (arith, erase_range-after ys h.1)

  insert_range-before :
      (n : Entry T) (xs ys : List (Entry T))
      → All (IsBefore n.start) xs
      → IsSorted xs
      → insert_range n (xs ++ ys) ≡ xs ++ insert_range n ys
  unfolding insert_range
  insert_range-before n [] ys h s = refl
  insert_range-before n (x ∷ xs) ys h s = ground (arith, insert_range-before n xs ys h.1 s.2)

  insert_range-after :
      (n : Entry T) (ys : List (Entry T)) → All (IsAfter n.start) ys → insert_range n ys ≡ n ∷ ys
  unfolding insert_range
  insert_range-after n [] h = refl
  insert_range-after n (y ∷ ys) h = ground (arith)

  module _ {key : ℕ} {es : List (Entry T)} {l : Tree T} {e : Entry T} {r : Tree T}
      (sp : Splayed key es l e r) where
    lookup_range-Splayed : lookup_range key es ≡ (if holds key e then some e else none)
    lookup_range-Splayed =
        rw (← sp.same, lookup_range-before key (entries l) (e ∷ entries r) sp.left)
          (unfold lookup_range in rw (lookup_range-after key (entries r) sp.right))

    erase_range-Splayed :
        erase_range key es ≡ entries l ++ (if holds key e then entries r else e ∷ entries r)
    erase_range-Splayed =
        rw (← sp.same, erase_range-before key (entries l) (e ∷ entries r) sp.left)
          (unfold erase_range in rw (erase_range-after key (entries r) sp.right))

  insert_range-Splayed :
      (n : Entry T) {es : List (Entry T)} {l : Tree T} {e : Entry T} {r : Tree T}
      → Splayed n.start es l e r
      → Mid (entries l) e (entries r)
      → insert_range n es
        ≡ entries l ++ (if key_lt n.start e then n ∷ e ∷ entries r else e ∷ n ∷ entries r)
  insert_range-Splayed n {l} {e} {r} sp m =
      rw (← sp.same, insert_range-before n (entries l) (e ∷ entries r) sp.left m.left)
        (unfold insert_range in rw (insert_range-after n (entries r) sp.right))

  entries-insert_at :
      (n : Entry T) {es : List (Entry T)} {l : Tree T} {e : Entry T} {r : Tree T}
      → Splayed n.start es l e r
      → Mid (entries l) e (entries r)
      → entries (insert_at (node l e r) n).0 ≡ (if holds n.start e then es else insert_range n es)
  unfolding insert_at
  entries-insert_at n {l} {e} {r} sp m = elim (Bool-cases (holds n.start e)) [
    | inl hit ↦ rw hit sp.same
    | inr miss ↦
        rw (miss, insert_range-Splayed n sp m)
          (elim (Bool-cases (key_lt n.start e)) [
            | inl lt ↦ rw lt
            | inr ge ↦ rw ge (append_assoc (entries l) (e ∷ []) (n ∷ entries r))
          ])
  ]

  splay-leaf : (key : ℕ) → splay {T = T} leaf key ≡ leaf
  unfolding splay
  splay-leaf key = refl

  -- `__find` returns the node whose range holds the address, and null exactly when there is none;
  -- the tree that it leaves has the same entries in the same order.
  pub find-lookup_range :
      (t : Tree T) (key : ℕ)
      → IsSorted (entries t)
      → ((find t key).1 ≡ lookup_range key (entries t)) × (entries (find t key).0 ≡ entries t)
  unfolding find lookup_range
  find-lookup_range leaf key s = (rw (splay-leaf key, find), rw (splay-leaf key, find))
  find-lookup_range (node l e r) key s =
      let (a, b, c, eq, sp) = splay-Splayed key l e r s in
      (rw (eq, find) (sym (lookup_range-Splayed sp)), rw (eq, find) sp.same)

  -- `x->right = r` after the search for a key behind the whole left subtree loses nothing.
  entries-unlink_root :
      (key : ℕ) (l r : Tree T)
      → IsSorted (entries l)
      → All (IsBefore key) (entries l)
      → entries (unlink_root l r key) ≡ entries l ++ entries r
  unfolding unlink_root
  entries-unlink_root key leaf r s h = refl
  entries-unlink_root key (node l e q) r s h =
      let (a, b, c, eq, sp) = splay-Splayed key l e q s in
      let none_right : entries c ≡ [] =
        empty (entries c) sp.right
          (All-append_right (IsBefore key) (entries a) (b ∷ entries c) (rw sp.same h)).1
          (Mid-of_sorted (entries a) b (entries c) (rw sp.same s)).right in
      rw (eq, unlink_root)
        (sym (append_assoc (entries a) (b ∷ []) (entries r))
          ∙ ap (λ es. es ++ entries r) (rw none_right at sp.same))
    where
      empty :
          (es : List (Entry T))
          → All (IsAfter key) es
          → All (IsBefore key) es
          → IsSorted es
          → es ≡ []
      empty [] u v w = refl
      empty (x ∷ es) u v w = absurd (omega arith)

  -- `__remove` takes out the range that holds the address, and says whether there was one; all
  -- other ranges stay.
  pub remove-erase_range :
      (t : Tree T) (key : ℕ)
      → IsSorted (entries t)
      → ((remove t key).1 ≡ is_found (lookup_range key (entries t)))
        × (entries (remove t key).0 ≡ erase_range key (entries t))
  unfolding remove lookup_range erase_range
  remove-erase_range leaf key s = (rw (splay-leaf key, remove), rw (splay-leaf key, remove))
  remove-erase_range (node l e r) key s =
      let (a, b, c, eq, sp) = splay-Splayed key l e r s in
      let m = Mid-of_sorted (entries a) b (entries c) (rw sp.same s) in
      let rest = entries-unlink_root key a c m.left sp.left in
      (
        rw (eq, remove, lookup_range-Splayed sp) (ground arith),
        rw (eq, remove, erase_range-Splayed sp) (ground (arith, rest)),
      )

  -- `__insert` of a range whose start lies in none of the ranges of the tree puts it in its place;
  -- any other is refused, and changes no entry.
  pub insert-insert_range :
      (t : Tree T) (n : Entry T)
      → IsSorted (entries t)
      → ((insert t n).1 ≡ not (is_found (lookup_range n.start (entries t))))
        × (entries (insert t n).0 ≡ (
            if is_found (lookup_range n.start (entries t))
            then entries t
            else insert_range n (entries t)))
  unfolding insert lookup_range insert_range
  insert-insert_range leaf n s = (rw (splay-leaf n.start, insert), rw (splay-leaf n.start, insert))
  insert-insert_range (node l e r) n s =
      let (a, b, c, eq, sp) = splay-Splayed n.start l e r s in
      let m = Mid-of_sorted (entries a) b (entries c) (rw sp.same s) in
      (
        rw (eq, insert, lookup_range-Splayed sp) (ground arith),
        rw (eq, insert, lookup_range-Splayed sp)
            (entries-insert_at n sp m ∙ is_found-if (holds n.start b) b _ _),
      )

  set_data-insert_at :
      (t : Tree T) (n : Entry T) (d : T)
      → set_data (insert_at t n) d ≡ insert_at t (record n { value = d })
  unfolding set_data insert_at
  set_data-insert_at leaf n d = refl
  set_data-insert_at (node l e r) n d = elim (Bool-cases (holds n.start e)) [
    | inl hit ↦ rw hit
    | inr miss ↦ rw miss (elim (Bool-cases (key_lt n.start e)) [ inl lt ↦ rw lt | inr ge ↦ rw ge ])
  ]

  -- `RangeSplayMap::insert` is `__insert` of a node that carries the data from the start: where the
  -- insertion fails, no data is written.
  pub map_insert-insert :
      (t : Tree T) (blank : T) (start end : ℕ) (d : T)
      → map_insert t blank start end d ≡ insert t (record { start = start; end = end; value = d })
  unfolding map_insert insert
  map_insert-insert t blank start end d =
      set_data-insert_at (splay t start) (record { start = start; end = end; value = blank }) d
