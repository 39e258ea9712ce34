-- ===== src/Splay/Tree.antt =====
-- include/poolalloc_runtime/Support/SplayTree.h: the nodes of a `RangeSplayTree` and `splay`.
-- A tree is a value: a null pointer is `leaf`, and `range_tree_node` is `node` with its entry.
use poolalloc_3_1_upstreamed.Prelude.{
  ℕ, zero, suc, ◌+◌, Bool, Option, none, some, List, [], ◌∷◌, ltb, if◌then◌else◌,
}

-- The fields `start`, `end` (the last valid address) and `data` of a node.
pub record Entry {ℓ} (T : Type ℓ) : Type ℓ where
  pub start : ℕ
  pub end : ℕ
  pub value : T

pub data Tree {ℓ} (T : Type ℓ) : Type ℓ where
  leaf : Tree T
  node : Tree T → Entry T → Tree T → Tree T

-- The links behind `l` and `r` in `splay`: the left tree is a chain of right links, each node
-- with its left child; the right tree is a chain of left links, each with its right child.
-- The node that was linked last comes first.
abbrev pub Lefts {ℓ} : Type ℓ → Type ℓ
Lefts T = List (Tree T × Entry T)

abbrev pub Rights {ℓ} : Type ℓ → Type ℓ
Rights T = List (Entry T × Tree T)

-- One round of the `while (1)`: `stop` at a `break`, `go` after a link.
pub data Turn {ℓ} (T : Type ℓ) : Type ℓ where
  stop : Tree T → Turn T
  go : Tree T → Lefts T → Rights T → Turn T

module _ {ℓ} {T : Type ℓ} where
  -- `key_lt` and `key_gt`: a key inside the range of a node is neither.
  abbrev pub key_lt : ℕ → Entry T → Bool
  key_lt key e = ltb key e.start

  abbrev pub key_gt : ℕ → Entry T → Bool
  key_gt key e = ltb e.end key

  -- `l->right = x`, read from the top of the left tree (`N.right`).
  unfoldable pub plug_left : Lefts T → Tree T → Tree T
  plug_left [] x = x
  plug_left ((ll, e) ∷ ls) x = plug_left ls (node ll e x)

  -- `r->left = x`, read from the top of the right tree (`N.left`).
  unfoldable pub plug_right : Rights T → Tree T → Tree T
  plug_right [] x = x
  plug_right ((e, rr) ∷ rs) x = plug_right rs (node x e rr)

  -- After `t = y` of "rotate right": break if there is no left child, else link right.
  unfoldable pub zig_left : Tree T → Entry T → Tree T → Lefts T → Rights T → Turn T
  zig_left leaf e r ls rs = stop (node leaf e r)
  zig_left (node a b c) e r ls rs = go (node a b c) ls ((e, r) ∷ rs)

  -- `key_lt(key, t)`.
  unfoldable pub turn_left : Tree T → Entry T → Tree T → ℕ → Lefts T → Rights T → Turn T
  turn_left leaf e r key ls rs = stop (node leaf e r)
  turn_left (node ll f lr) e r key ls rs =
      if key_lt key f then zig_left ll f (node lr e r) ls rs else go (node ll f lr) ls ((e, r) ∷ rs)

  -- After `t = y` of "rotate left".
  unfoldable pub zig_right : Tree T → Entry T → Tree T → Lefts T → Rights T → Turn T
  zig_right l e leaf ls rs = stop (node l e leaf)
  zig_right l e (node a b c) ls rs = go (node a b c) ((l, e) ∷ ls) rs

  -- `key_gt(key, t)`.
  unfoldable pub turn_right : Tree T → Entry T → Tree T → ℕ → Lefts T → Rights T → Turn T
  turn_right l e leaf key ls rs = stop (node l e leaf)
  turn_right l e (node rl f rr) key ls rs =
      if key_gt key f
      then zig_right (node l e rl) f rr ls rs
      else go (node rl f rr) ((l, e) ∷ ls) rs

  unfoldable pub turn : Tree T → ℕ → Lefts T → Rights T → Turn T
  unfolding turn_left turn_right zig_left zig_right
  turn leaf key ls rs = stop leaf
  turn (node l e r) key ls rs =
      if key_lt key e
      then turn_left l e r key ls rs
      else if key_gt key e
      then turn_right l e r key ls rs
      else stop (node l e r)

  -- The last four assignments of `splay`.
  unfoldable pub assemble : Tree T → Lefts T → Rights T → Tree T
  unfolding plug_left plug_right
  assemble leaf ls rs = leaf
  assemble (node l e r) ls rs = node (plug_left ls l) e (plug_right rs r)

  -- The loop, with fuel; `none` means that the fuel ran out.
  unfoldable pub splay_loop : ℕ → Tree T → ℕ → Lefts T → Rights T → Option (Tree T)
  unfolding turn assemble
  splay_loop zero t key ls rs = none
  splay_loop (suc fuel) t key ls rs = elim (turn t key ls rs) [
    | stop t' ↦ some (assemble t' ls rs)
    | go t' ls' rs' ↦ splay_loop fuel t' key ls' rs'
  ]

  -- `count_internal`.
  unfoldable pub count_internal : Tree T → ℕ
  count_internal leaf = 0
  count_internal (node l e r) = 1 + count_internal l + count_internal r

  abbrev pub or_leaf : Option (Tree T) → Tree T
  or_leaf none = leaf
  or_leaf (some t) = t

  -- `splay`, with a round for each node.
  unfoldable pub splay : Tree T → ℕ → Tree T
  unfolding splay_loop count_internal
  splay leaf key = leaf
  splay (node l e r) key = or_leaf (splay_loop (count_internal (node l e r)) (node l e r) key [] [])
