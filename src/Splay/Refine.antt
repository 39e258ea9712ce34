-- ===== src/Splay/Refine.antt =====
-- include/poolalloc_runtime/Support/SplayTree.h: the splay tree as a map from addresses to ranges,
-- over any sequence of calls.
use poolalloc_3_1_upstreamed.Prelude.{
  ℕ, ◌≤◌, ◌<◌, ◌≡◌, refl, ap, ◌⊎◌, inl, inr, Bool, true, not, Option, List, [], ◌∷◌, arith,
  if◌then◌else◌, All, All-mono, Bool-cases,
}
use poolalloc_3_1_upstreamed.Splay.Tree.{Entry, Tree, key_lt}
use poolalloc_3_1_upstreamed.Splay.Order.{entries, IsAfter, IsSorted}
use poolalloc_3_1_upstreamed.Splay.Range.{holds, insert, remove, find}
use poolalloc_3_1_upstreamed.Splay.Lookup.{
  lookup_range, erase_range, insert_range, is_found, find-lookup_range, remove-erase_range,
  insert-insert_range,
}

module _ {ℓ} {T : Type ℓ} where
  -- Two ranges that share no address.
  abbrev pub IsApart : Entry T → Entry T → Type 0
  IsApart n e = (n.end < e.start) ⊎ (e.end < n.start)

  All-erase_range :
      (P : Entry T → Type 0) (key : ℕ) (es : List (Entry T)) → All P es → All P (erase_range key es)
  unfolding erase_range
  All-erase_range P key [] h = tt
  All-erase_range P key (e ∷ es) h = elim (Bool-cases (holds key e)) [
    | inl hit ↦ rw hit h.1
    | inr miss ↦ rw miss (h.0, All-erase_range P key es h.1)
  ]

  erase_range-IsSorted :
      (key : ℕ) (es : List (Entry T)) → IsSorted es → IsSorted (erase_range key es)
  unfolding erase_range
  erase_range-IsSorted key [] h = tt
  erase_range-IsSorted key (e ∷ es) h = elim (Bool-cases (holds key e)) [
    | inl hit ↦ rw hit h.2
    | inr miss ↦
        rw miss (h.0, All-erase_range (IsAfter e.end) key es h.1, erase_range-IsSorted key es h.2)
  ]

  All-insert_range :
      (P : Entry T → Type 0) (n : Entry T) (es : List (Entry T))
      → P n
      → All P es
      → All P (insert_range n es)
  unfolding insert_range
  All-insert_range P n [] p h = (p, tt)
  All-insert_range P n (e ∷ es) p h = elim (Bool-cases (key_lt n.start e)) [
    | inl lt ↦ rw lt (p, h)
    | inr ge ↦ rw ge (h.0, All-insert_range P n es p h.1)
  ]

  pub insert_range-IsSorted :
      (n : Entry T) (es : List (Entry T))
      → n.start ≤ n.end
      → All (IsApart n) es
      → IsSorted es
      → IsSorted (insert_range n es)
  unfolding insert_range
  insert_range-IsSorted n [] v a h = (v, tt, tt)
  insert_range-IsSorted n (e ∷ es) v a h = elim (Bool-cases (key_lt n.start e)) [
    | inl lt ↦
        let first : n.end < e.start = ground arith in
        rw lt (v, (first, All-mono (IsAfter e.end) (IsAfter n.end) es (λ b k. omega arith) h.1), h)
    | inr ge ↦
        let last : e.end < n.start = ground arith in
        rw ge (
          h.0,
          All-insert_range (IsAfter e.end) n es last h.1,
          insert_range-IsSorted n es v a.1 h.2,
        )
  ]

-- The calls of a client, and what they return.
pub data Call {ℓ} (T : Type ℓ) : Type ℓ where
  inserts : Entry T → Call T
  removes finds : ℕ → Call T

pub data Answer {ℓ} (T : Type ℓ) : Type ℓ where
  done : Bool → Answer T
  found : Option (Entry T) → Answer T

module _ {ℓ} {T : Type ℓ} where
  -- One call on the tree.
  unfoldable pub step : Tree T → Call T → Tree T × Answer T
  step t (inserts n) = let (t', ok) = insert t n in (t', done ok)
  step t (removes key) = let (t', ok) = remove t key in (t', done ok)
  step t (finds key) = let (t', e) = find t key in (t', found e)

  unfoldable pub run : Tree T → List (Call T) → List (Answer T)
  unfolding step
  run t [] = []
  run t (c ∷ cs) = (step t c).1 ∷ run (step t c).0 cs

  -- One call on a sorted list of ranges.
  unfoldable pub list_step : List (Entry T) → Call T → List (Entry T) × Answer T
  list_step es (inserts n) = (
    if is_found (lookup_range n.start es) then es else insert_range n es,
    done (not (is_found (lookup_range n.start es))),
  )
  list_step es (removes key) = (erase_range key es, done (is_found (lookup_range key es)))
  list_step es (finds key) = (es, found (lookup_range key es))

  unfoldable pub list_run : List (Entry T) → List (Call T) → List (Answer T)
  unfolding list_step
  list_run es [] = []
  list_run es (c ∷ cs) = (list_step es c).1 ∷ list_run (list_step es c).0 cs

  -- What an allocator promises of a call: a range that it inserts overlaps none that is there,
  -- unless its start is taken.
  abbrev pub Fits : List (Entry T) → Call T → Type 0
  Fits es (inserts n) =
      (n.start ≤ n.end) × ((is_found (lookup_range n.start es) ≡ true) ⊎ All (IsApart n) es)
  Fits es (removes key) = Unit
  Fits es (finds key) = Unit

  abbrev pub AllFit : List (Entry T) → List (Call T) → Type 0
  AllFit es [] = Unit
  AllFit es (c ∷ cs) = Fits es c × AllFit (list_step es c).0 cs

  list_step-IsSorted :
      (es : List (Entry T)) (c : Call T) → Fits es c → IsSorted es → IsSorted (list_step es c).0
  unfolding list_step
  list_step-IsSorted es (inserts n) (v, inl taken) s = rw taken s
  list_step-IsSorted es (inserts n) (v, inr apart) s =
      elim (Bool-cases (is_found (lookup_range n.start es))) [
        | inl taken ↦ rw taken s
        | inr free ↦ rw free (insert_range-IsSorted n es v apart s)
      ]
  list_step-IsSorted es (removes key) h s = erase_range-IsSorted key es s
  list_step-IsSorted es (finds key) h s = s

  step-list_step :
      (t : Tree T) (c : Call T)
      → IsSorted (entries t)
      → ((step t c).1 ≡ (list_step (entries t) c).1)
        × (entries (step t c).0 ≡ (list_step (entries t) c).0)
  unfolding step list_step
  step-list_step t (inserts n) s =
      let (answer, rest) = insert-insert_range t n s in (ap done answer, rest)
  step-list_step t (removes key) s =
      let (answer, rest) = remove-erase_range t key s in (ap done answer, rest)
  step-list_step t (finds key) s =
      let (answer, rest) = find-lookup_range t key s in (ap found answer, rest)

  -- From a tree whose ranges are sorted, over any sequence of calls, where each inserted range
  -- overlaps none that is held or starts in one, the splay tree answers as the sorted list of its
  -- ranges.
  pub run-list_run :
      (t : Tree T) (cs : List (Call T))
      → IsSorted (entries t)
      → AllFit (entries t) cs
      → run t cs ≡ list_run (entries t) cs
  unfolding run list_run
  run-list_run t [] s h = refl
  run-list_run t (c ∷ cs) s h =
      let (answer, rest) = step-list_step t c s in
      let sorted = rw (← rest) at (list_step-IsSorted (entries t) c h.0 s) in
      let later = run-list_run (step t c).0 cs sorted (rw rest h.1) in
      rw (answer, ← rest) (ap (λ r. (list_step (entries t) c).1 ∷ r) later)
