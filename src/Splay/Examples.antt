-- ===== src/Splay/Examples.antt =====
-- include/poolalloc_runtime/Support/SplayTree.h: a tree of three ranges, and the theorems there.
use mathlib.Core.List.{Perm}
use poolalloc_3_1_upstreamed.Prelude.{ℕ, ◌≡◌, refl, inr, true, none, some, List, [], ◌∷◌, arith}
use poolalloc_3_1_upstreamed.Splay.Tree.{
  Entry, Tree, leaf, node, splay, splay_loop, turn, turn_left, turn_right, zig_left, zig_right,
  assemble, plug_left, plug_right, count_internal,
}
use poolalloc_3_1_upstreamed.Splay.Order.{entries, IsSorted}
use poolalloc_3_1_upstreamed.Splay.Rounds.{Splayed, splay-Splayed}
use poolalloc_3_1_upstreamed.Splay.Range.{insert, remove, clear}
use poolalloc_3_1_upstreamed.Splay.Lookup.{
  lookup_range, erase_range, insert_range, remove-erase_range, insert-insert_range,
}
use poolalloc_3_1_upstreamed.Splay.Clear.{clear-perm}
use poolalloc_3_1_upstreamed.Splay.Refine.{
  inserts, removes, finds, done, found, run, list_run, list_step, run-list_run,
}

abbrev range : ℕ → ℕ → Entry ℕ
range start end = record { start = start; end = end; value = 0 }

abbrev sample : Tree ℕ
sample = node (node leaf (range 10 19) leaf) (range 30 39) (node leaf (range 50 59) leaf)

sample-IsSorted : IsSorted (entries sample)
sample-IsSorted = omega arith

-- A search for 12 brings the range that holds it to the root.
splay_12 :
    splay sample 12
    ≡ node leaf (range 10 19) (node leaf (range 30 39) (node leaf (range 50 59) leaf))
unfolding splay splay_loop turn turn_left turn_right zig_left zig_right assemble plug_left
    plug_right count_internal
splay_12 = refl

splay-Splayed_example :
    (l' : Tree ℕ) × (e' : Entry ℕ) × (r' : Tree ℕ) × (splay sample 12 ≡ node l' e' r')
    × Splayed 12 (entries sample) l' e' r'
splay-Splayed_example =
    splay-Splayed 12 (node leaf (range 10 19) leaf) (range 30 39) (node leaf (range 50 59) leaf)
      sample-IsSorted

remove-erase_range_example :
    ((remove sample 35).1 ≡ true) × (entries (remove sample 35).0 ≡ range 10 19 ∷ range 50 59 ∷ [])
unfolding lookup_range erase_range
remove-erase_range_example = remove-erase_range sample 35 sample-IsSorted

insert-insert_range_example :
    ((insert sample (range 20 29)).1 ≡ true)
    × (entries (insert sample (range 20 29)).0
        ≡ range 10 19 ∷ range 20 29 ∷ range 30 39 ∷ range 50 59 ∷ [])
unfolding lookup_range insert_range
insert-insert_range_example = insert-insert_range sample (range 20 29) sample-IsSorted

clear-perm_example :
    (es : List (Entry ℕ)) × (clear sample ≡ (leaf, some es)) × Perm es (entries sample)
clear-perm_example = clear-perm sample

run-list_run_example :
    run sample (inserts (range 20 29) ∷ finds 25 ∷ removes 12 ∷ finds 12 ∷ [])
    ≡ done true ∷ found (some (range 20 29)) ∷ done true ∷ found none ∷ []
unfolding list_run list_step lookup_range erase_range insert_range
run-list_run_example =
    run-list_run sample (inserts (range 20 29) ∷ finds 25 ∷ removes 12 ∷ finds 12 ∷ [])
      sample-IsSorted ((omega arith, inr (omega arith)), (tt, (tt, (tt, tt))))
