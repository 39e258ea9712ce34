-- ===== src/Fl2/Search.antt =====
-- runtime/FL2Allocator/PoolAllocator.cpp: the search of `OtherFreeList` ends and finds a node of it.
use mathlib.Core.Path.{subst}
use poolalloc_3_1_upstreamed.Prelude.{
  ℕ, zero, suc, ◌%◌, ◌^◌, ◌<◌, ◌≡◌, ◌≢◌, ◌⊎◌, refl, sym, ap, ◌∙◌, Bool, true, false, Bool-cases,
  inl, inr, none, some, List, [], ◌∷◌, length, ltb, leb, ◌==◌, if◌then◌else◌, arith,
}
use poolalloc_3_1_upstreamed.Prelude.Results.{Result, returned, ◌>>=◌}
use poolalloc_3_1_upstreamed.Fl2.Memory.{
  Traits, State, index_to_fnh_ptr, fnh_ptr_to_index, add_node_to_free_list, unlink_free_node,
}
use poolalloc_3_1_upstreamed.Fl2.Alloc.{split_node, take_node, first_fit, take_found, take_other}
use poolalloc_3_1_upstreamed.Fl2.Links.{Linked}
use poolalloc_3_1_upstreamed.Fl2.Lists.{FreeLists, unlink_free_node-other}
use poolalloc_3_1_upstreamed.Fl2.Unlink.{Occurs, divide}

-- A computation that returns.
abbrev pub Returns : {A : Type 0} → Result A → Type 0
Returns {A = A} r = (a : A) × (r ≡ returned a)

pub Returns->>= :
    {A B : Type 0} {r : Result A} {f : A → Result B}
    → Returns r
    → ((a : A) → Returns (f a))
    → Returns (r >>= f)
Returns->>= {f = f} (a, e) h = let (b, e') = h a in (b, ap (λ r. r >>= f) e ∙ e')

pub Returns-if :
    {A : Type 0} (b : Bool) {x y : Result A}
    → (b ≡ true → Returns x)
    → (b ≡ false → Returns y)
    → Returns (if b then x else y)
Returns-if true h k = h refl
Returns-if false h k = k refl

module _ (t : Traits) (plain : t.compressed ≡ false) where
  pub add_node_to_free_list-Returns :
      (s : State) (node : ℕ) → Returns (add_node_to_free_list t s node)
  unfolding add_node_to_free_list fnh_ptr_to_index
  add_node_to_free_list-Returns s node =
      rw plain
        (Returns-if (s.size_at node == s.pool.declared_size) (λ _. (_, refl)) (λ _. (_, refl)))

  pub take_node-Returns :
      (s : State) (node size bytes : ℕ) (split : Bool)
      → Returns (unlink_free_node t s node)
      → Returns (take_node t s node size bytes split)
  unfolding take_node split_node
  take_node-Returns s node size bytes split unlinks = Returns->>= unlinks (λ s'.
      Returns-if split (λ _. Returns->>= (add_node_to_free_list-Returns _ _) (λ s''. (_, refl)))
        (λ _. (_, refl)))

  -- The node that is found is null or on the list.
  first_fit-Occurs :
      (fuel : ℕ) (s : State) (p h bytes : ℕ) (xs : List ℕ)
      → Linked s.next_at s.prev_at p h xs
      → length xs < fuel
      → (r : ℕ) × (first_fit fuel t s h bytes ≡ returned r) × ((r ≡ 0) ⊎ Occurs r xs)
  unfolding first_fit index_to_fnh_ptr
  first_fit-Occurs zero s p h bytes xs l enough = absurd (omega arith)
  first_fit-Occurs (suc fuel) s p h bytes [] l enough = (0, simp (l), inl refl)
  first_fit-Occurs (suc fuel) s p h bytes (x ∷ xs) l enough =
      let some_node : (x == 0) ≡ false = ground (arith, l.1) in
      elim (Bool-cases (ltb (s.size_at x) bytes)) [
        | inl small ↦
            let (r, e, found) =
              first_fit-Occurs fuel s x (s.next_at x) bytes xs l.3 (omega (arith, enough)) in
            (r, simp (l.0, some_node, small, plain, e), later found)
        | inr fits ↦ (x, simp (l.0, some_node, fits), inr (inl refl))
      ]
    where
      later : {r : ℕ} → (r ≡ 0) ⊎ Occurs r xs → (r ≡ 0) ⊎ Occurs r (x ∷ xs)
      later (inl e) = inl e
      later (inr o) = inr (inr o)

  unlink_free_node-Returns :
      (s : State) (node : ℕ) (objects others : List ℕ)
      → FreeLists s objects others
      → Occurs node others
      → Returns (unlink_free_node t s node)
  unlink_free_node-Returns s node objects others lists o =
      let (xs, ys, whole, _) = divide node others o in
      (
        _,
        (unlink_free_node-other t plain s objects xs node ys
            (subst (λ l. FreeLists s objects l) whole lists)).0,
      )

  pub index_to_fnh_ptr-plain : (base p : ℕ) → index_to_fnh_ptr t base p ≡ p
  unfolding index_to_fnh_ptr
  index_to_fnh_ptr-plain base p = simp (plain)

  take_found-Returns :
      (s : State) (bytes node : ℕ) (objects others : List ℕ)
      → FreeLists s objects others
      → (node ≡ 0) ⊎ Occurs node others
      → Returns (take_found t s bytes node)
  unfolding take_found
  take_found-Returns s bytes node objects others lists (inl e) = rw e (none, refl)
  take_found-Returns s bytes node objects others lists (inr o) =
      Returns-if (node == 0) (λ _. (none, refl))
        (λ _.
          Returns->>=
            (take_node-Returns s node _ bytes _
              (unlink_free_node-Returns s node objects others lists o))
            (λ a. (some a, refl)))

  head-Occurs :
      (s : State) (others : List ℕ)
      → Linked s.next_at s.prev_at 0 s.pool.other_free_list others
      → s.pool.other_free_list ≢ 0
      → Occurs s.pool.other_free_list others
  head-Occurs s [] l nz = nz l
  head-Occurs s (x ∷ xs) l nz = inl (sym l.0)

  -- A round of the loop returns.
  pub take_other-Returns :
      (fuel : ℕ) (s : State) (bytes : ℕ) (objects others : List ℕ)
      → FreeLists s objects others
      → length others < fuel
      → Returns (take_other fuel t s bytes)
  unfolding take_other
  take_other-Returns fuel s bytes objects others lists enough =
      let first = s.pool.other_free_list in
      let (r, e, found) = first_fit-Occurs fuel s 0 first bytes others lists.other_list enough in
      rw (index_to_fnh_ptr-plain) (
        Returns-if (first == 0) (λ _. (none, refl))
          (λ nz.
            Returns-if (leb bytes (s.size_at first % 2 ^ 32))
              (λ _.
                Returns->>=
                  (take_node-Returns s first _ bytes _ (
                    unlink_free_node-Returns s first objects others lists
                      (head-Occurs s others lists.other_list (ground (arith, nz)))))
                  (λ a. (some a, refl)))
              (λ _. rw e (take_found-Returns s bytes r objects others lists found))))
