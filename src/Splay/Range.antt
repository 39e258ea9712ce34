-- ===== src/Splay/Range.antt =====
-- include/poolalloc_runtime/Support/SplayTree.h: the operations of `RangeSplayTree`, and the
-- classes `RangeSplaySet` and `RangeSplayMap` over it. An operation returns the new `Tree` member
-- with its result; a returned node is always the root, so the result says whether it is null.
use poolalloc_3_1_upstreamed.Prelude.{
  ℕ, zero, suc, Bool, true, false, not, ◌&&◌, Option, none, some, List, [], ◌∷◌, ◌++◌,
  if◌then◌else◌,
}
use poolalloc_3_1_upstreamed.Splay.Tree.{
  Entry, Tree, leaf, node, key_lt, key_gt, splay, count_internal,
}

module _ {ℓ} {T : Type ℓ} where
  -- `!key_lt(key, t) && !key_gt(key, t)`.
  abbrev pub holds : ℕ → Entry T → Bool
  holds key e = not (key_lt key e) && not (key_gt key e)

  -- `__insert` after its call of `splay`; `n` is the node that is constructed.
  unfoldable pub insert_at : Tree T → Entry T → Tree T × Bool
  insert_at leaf n = (node leaf n leaf, true)
  insert_at (node l e r) n =
      if holds n.start e
      then (node l e r, false)
      else if key_lt n.start e
      then (node l n (node leaf e r), true)
      else (node (node l e leaf) n r, true)

  -- `__insert`.
  unfoldable pub insert : Tree T → Entry T → Tree T × Bool
  unfolding insert_at
  insert t n = insert_at (splay t n.start) n

  -- `x->right = r`.
  unfoldable pub set_right : Tree T → Tree T → Tree T
  set_right leaf r = leaf
  set_right (node l e _) r = node l e r

  -- What is left when the root goes.
  unfoldable pub unlink_root : Tree T → Tree T → ℕ → Tree T
  unfolding set_right
  unlink_root leaf r key = r
  unlink_root (node a b c) r key = set_right (splay (node a b c) key) r

  unfoldable pub remove_at : Tree T → ℕ → Tree T × Bool
  unfolding unlink_root
  remove_at leaf key = (leaf, false)
  remove_at (node l e r) key =
      if holds key e then (unlink_root l r key, true) else (node l e r, false)

  -- `__remove`.
  unfoldable pub remove : Tree T → ℕ → Tree T × Bool
  unfolding remove_at
  remove t key = remove_at (splay t key) key

  unfoldable pub find_at : Tree T → ℕ → Tree T × Option (Entry T)
  find_at leaf key = (leaf, none)
  find_at (node l e r) key = (node l e r, if holds key e then some e else none)

  -- `__find`.
  unfoldable pub find : Tree T → ℕ → Tree T × Option (Entry T)
  unfolding find_at
  find t key = find_at (splay t key) key

  -- The nodes that `push_back` puts on the stack; the back of the vector is the head of the list.
  unfoldable pub push_child : Tree T → List (Tree T) → List (Tree T)
  push_child leaf stack = stack
  push_child (node l e r) stack = node l e r ∷ stack

  -- The loop of `__clear_internal(tree)`, with fuel; the nodes that were destroyed, in order.
  unfoldable pub clear_loop : ℕ → List (Tree T) → Option (List (Entry T))
  unfolding push_child
  clear_loop fuel [] = some []
  clear_loop fuel (leaf ∷ stack) = none
  clear_loop zero (node l e r ∷ stack) = none
  clear_loop (suc fuel) (node l e r ∷ stack) =
      elim (clear_loop fuel (push_child r (push_child l stack))) [
        | none ↦ none
        | some es ↦ some (e ∷ es)
      ]

  -- `__clear()`.
  unfoldable pub clear : Tree T → Tree T × Option (List (Entry T))
  unfolding clear_loop
  clear leaf = (leaf, some [])
  clear (node l e r) = (leaf, clear_loop (count_internal (node l e r)) (node l e r ∷ []))

  -- `__clear_internal(t, act)`: the entries that `act` is called with, and those that are destroyed,
  -- in order. The calls for the children have one argument, so they are those of `clear`.
  unfoldable pub clear_act : Tree T → List (Entry T) × Option (List (Entry T))
  unfolding clear
  clear_act leaf = ([], some [])
  clear_act (node l e r) = (
    e ∷ [],
    elim (clear l).1 [
      | none ↦ none
      | some ls ↦ elim (clear r).1 [ none ↦ none | some rs ↦ some (ls ++ (rs ++ e ∷ [])) ]
    ],
  )

  -- `RangeSplayMap::insert`: `n` carries a default value, which is overwritten at the root.
  unfoldable pub set_data : Tree T × Bool → T → Tree T × Bool
  set_data (leaf, ok) d = (leaf, ok)
  set_data (node l e r, false) d = (node l e r, false)
  set_data (node l e r, true) d = (node l (record e { value = d }) r, true)

  unfoldable pub map_insert : Tree T → T → ℕ → ℕ → T → Tree T × Bool
  unfolding set_data
  map_insert t blank start end d =
      set_data (insert t (record { start = start; end = end; value = blank })) d

-- `RangeSplaySet::insert`.
unfoldable pub set_insert : Tree (Unit {0}) → ℕ → ℕ → Tree (Unit {0}) × Bool
set_insert t start end = insert t (record { start = start; end = end; value = tt })
