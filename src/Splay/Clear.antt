-- ===== src/Splay/Clear.antt =====
-- include/poolalloc_runtime/Support/SplayTree.h: `__count`, and the two ways to clear a tree.
use mathlib.Core.List.{Perm, perm_middle, perm_append_comm}
use mathlib.Core.List.Perm
use poolalloc_3_1_upstreamed.Prelude.{
  ℕ, zero, suc, ◌+◌, ◌≤◌, ◌≡◌, refl, some, List, [], ◌∷◌, ◌++◌, append_assoc, append-nil, arith,
}
use poolalloc_3_1_upstreamed.Splay.Tree.{Entry, Tree, leaf, node, count_internal}
use poolalloc_3_1_upstreamed.Splay.Order.{entries}
use poolalloc_3_1_upstreamed.Splay.Range.{push_child, clear_loop, clear, clear_act}

module _ {ℓ} {T : Type ℓ} where
  -- The nodes below a stack of trees, and the entries there.
  abbrev size : List (Tree T) → ℕ
  size [] = 0
  size (t ∷ ts) = count_internal t + size ts

  abbrev pending : List (Tree T) → List (Entry T)
  pending [] = []
  pending (t ∷ ts) = entries t ++ pending ts

  -- No null pointer is ever pushed.
  abbrev NoLeaf : List (Tree T) → Type 0
  NoLeaf [] = Unit
  NoLeaf (leaf ∷ ts) = ⊥
  NoLeaf (node l e r ∷ ts) = NoLeaf ts

  push_child-laws :
      (t : Tree T) (ts : List (Tree T))
      → NoLeaf ts
      → NoLeaf (push_child t ts)
        × (size (push_child t ts) ≡ count_internal t + size ts)
        × (pending (push_child t ts) ≡ entries t ++ pending ts)
  unfolding push_child count_internal
  push_child-laws leaf ts h = (h, omega arith, refl)
  push_child-laws (node l e r) ts h = (h, refl, refl)

  -- From the order of the stack to the order of the tree.
  reorder :
      (l : Tree T) (e : Entry T) (r : Tree T) (rest : List (Entry T))
      → Perm (e ∷ (entries r ++ (entries l ++ rest))) ((entries l ++ e ∷ entries r) ++ rest)
  reorder l e r rest =
      let swapped = Perm.append (perm_append_comm (entries r) (entries l)) (Perm.refl rest) in
      Perm.trans (Perm.cons e (simp append_assoc at swapped))
        (rw append_assoc (Perm.symm (perm_middle (entries l) (entries r ++ rest))))

  clear_loop-perm :
      (fuel : ℕ) (ts : List (Tree T))
      → NoLeaf ts
      → size ts ≤ fuel
      → (es : List (Entry T)) × (clear_loop fuel ts ≡ some es) × Perm es (pending ts)
  unfolding clear_loop count_internal
  clear_loop-perm fuel [] h k = ([], refl, Perm.nil)
  clear_loop-perm fuel (leaf ∷ ts) h k = absurd h
  clear_loop-perm zero (node l e r ∷ ts) h k = absurd (omega arith)
  clear_loop-perm (suc fuel) (node l e r ∷ ts) h k =
      let (hl, sl, pl) = push_child-laws l ts h in
      let (hr, sr, pr) = push_child-laws r (push_child l ts) hl in
      let (es, eq, p) = clear_loop-perm fuel (push_child r (push_child l ts)) hr (omega arith) in
      (
        e ∷ es,
        rw (eq, clear_loop),
        Perm.trans (Perm.cons e (rw (pr, pl) at p)) (reorder l e r (pending ts)),
      )

  -- `__clear()` destroys each node exactly once, by a loop that ends, and leaves an empty tree.
  pub clear-perm :
      (t : Tree T) → (es : List (Entry T)) × (clear t ≡ (leaf, some es)) × Perm es (entries t)
  unfolding clear count_internal
  clear-perm leaf = ([], refl, Perm.nil)
  clear-perm (node l e r) =
      let (es, eq, p) =
        clear_loop-perm (count_internal (node l e r)) (node l e r ∷ []) tt (omega arith) in
      (es, rw eq, rw append-nil at p)

  -- `__clear(act)` ends and destroys each node once, but calls the action for the root only.
  pub clear_act-root :
      (l : Tree T) (e : Entry T) (r : Tree T)
      → (es : List (Entry T)) × (clear_act (node l e r) ≡ (e ∷ [], some es))
        × Perm es (entries (node l e r))
  unfolding clear_act
  clear_act-root l e r =
      let (ls, el, pl) = clear-perm l in
      let (rs, er, pr) = clear-perm r in
      (
        ls ++ (rs ++ e ∷ []),
        rw (el, er) refl,
        Perm.append pl (Perm.trans (perm_append_comm rs (e ∷ [])) (Perm.cons e pr)),
      )
