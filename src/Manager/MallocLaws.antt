-- ===== src/Manager/MallocLaws.antt =====
-- include/poolalloc_runtime/PoolAllocator.h: an object's life in a `MallocSlabManager`.
use poolalloc_3_1_upstreamed.Prelude.{
  ℕ, ◌+◌, ◌-◌, ◌≤◌, ◌<◌, ◌≡◌, refl, ap, ◌∙◌, none, some, List, [], ◌∷◌, map, arith, All,
}
use poolalloc_3_1_upstreamed.Splay.Tree.{Entry, Tree, node}
use poolalloc_3_1_upstreamed.Splay.Order.{entries, IsSorted}
use poolalloc_3_1_upstreamed.Splay.Range.{clear_act, set_insert, insert, find}
use poolalloc_3_1_upstreamed.Splay.Lookup.{
  lookup_range, erase_range, insert_range, find-lookup_range, remove-erase_range,
  insert-insert_range,
}
use poolalloc_3_1_upstreamed.Splay.Clear.{clear_act-root}
use poolalloc_3_1_upstreamed.Splay.Refine.{IsApart, insert_range-IsSorted}
use poolalloc_3_1_upstreamed.Manager.Malloc.{
  MallocSlabManager, request, slab_alloc, release_found, slab_free, slab_getbounds, block_of,
  destroy,
}

abbrev Ranges : Type 0
Ranges = List (Entry (Unit {0}))

-- What the manager knows of the objects that are out.
abbrev pub live : MallocSlabManager → Ranges
live m = entries m.objs

-- The range that `slab_alloc` records for `num` objects at `x`.
abbrev pub range_at : MallocSlabManager → ℕ → ℕ → Entry (Unit {0})
range_at m num x = record { start = x; end = x + request m num - 1; value = tt }

lookup_range-apart :
    (n : Entry (Unit {0})) (obj : ℕ) (es : Ranges)
    → n.start ≤ obj
    → obj ≤ n.end
    → All (IsApart n) es
    → lookup_range obj es ≡ none
unfolding lookup_range
lookup_range-apart n obj [] h k a = refl
lookup_range-apart n obj (e ∷ es) h k a = ground (arith, lookup_range-apart n obj es h k a.1)

lookup_range-insert_range :
    (n : Entry (Unit {0})) (obj : ℕ) (es : Ranges)
    → n.start ≤ obj
    → obj ≤ n.end
    → All (IsApart n) es
    → (lookup_range obj (insert_range n es) ≡ some n) × (erase_range obj (insert_range n es) ≡ es)
unfolding lookup_range erase_range insert_range
lookup_range-insert_range n obj [] h k a = ground arith
lookup_range-insert_range n obj (e ∷ es) h k a =
    ground (arith, lookup_range-insert_range n obj es h k a.1)

-- With the live ranges sorted, any pointer into an object of at least one byte just handed out,
-- which overlaps no other, has its bounds, and freeing it gives back the whole block and leaves the
-- other objects.
pub slab_free-slab_alloc :
    (m : MallocSlabManager) (num x obj : ℕ)
    → IsSorted (live m)
    → 0 < request m num
    → All (IsApart (range_at m num x)) (live m)
    → x ≤ obj
    → obj < x + request m num
    → let m' = (slab_alloc m num x).0 in
      ((slab_getbounds m' obj).1 ≡ some (range_at m num x))
      × ((slab_free m' obj).1 ≡ some (record { address = x; bytes = request m num }))
      × (live (slab_free m' obj).0 ≡ live m)
unfolding slab_alloc slab_free slab_getbounds set_insert release_found
slab_free-slab_alloc m num x obj s pos apart h k =
    let n = range_at m num x in
    let unused = lookup_range-apart n x (live m) (omega arith) (omega arith) apart in
    let inserted = rw unused at (insert-insert_range m.objs n s).1 in
    let t = (insert m.objs n).0 in
    let sorted : IsSorted (entries t) =
      rw inserted (insert_range-IsSorted n (live m) (omega arith) apart s) in
    let there = lookup_range-insert_range n obj (live m) h (omega arith) apart in
    let seen = find-lookup_range t obj sorted in
    let bounds = seen.0 ∙ (ap (lookup_range obj) inserted ∙ there.0) in
    let gone = remove-erase_range (find t obj).0 obj (rw seen.1 sorted) in
    (
      bounds,
      rw (bounds, release_found) (ap some (ground arith)),
      rw (bounds, release_found) (gone.1 ∙ (ap (erase_range obj) (seen.1 ∙ inserted) ∙ there.1)),
    )

-- The destructor gives back the block of the object at the root, and of no other.
pub destroy-root :
    (m : MallocSlabManager) (l : Tree (Unit {0})) (e : Entry (Unit {0})) (r : Tree (Unit {0}))
    → m.objs ≡ node l e r
    → destroy m ≡ block_of e ∷ []
unfolding destroy
destroy-root m l e r is =
    let (es, acts, p) = clear_act-root l e r in
    ap (λ (t : Tree (Unit {0})). map block_of (clear_act t).0) is ∙ ap (λ a. map block_of a.0) acts
