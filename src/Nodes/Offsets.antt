-- ===== src/Nodes/Offsets.antt =====
-- include/dsa/DSNode.h: where handles lead to.
use mathlib.Core.Path.{subst}
use poolalloc_3_1_upstreamed.Prelude.{
  ℕ, zero, suc, ◌+◌, ◌%◌, ◌^◌, ◌<◌, ◌≡◌, ◌≢◌, ◌⊎◌, refl, sym, ap, true, false, ◌||◌, not,
  Bool-cases, inl, inr, leb, ◌==◌, arith,
}
use poolalloc_3_1_upstreamed.Prelude.Results.{
  Result, returned, aborted, assert_failed, out_of_fuel, ◌>>=◌,
}
use poolalloc_3_1_upstreamed.Nodes.Graph.{Handle, Graph, is_forwarding, size_of, forwarded, resolve}

-- A handle that leads to null or to a node that forwards no further.
abbrev pub IsResolved : Graph → Handle → Type 0
IsResolved g r = (r.node ≡ 0) ⊎ (is_forwarding g r.node ≡ false)

value_of : Result Handle → Handle → Handle
value_of (returned h) d = h
value_of aborted d = d
value_of assert_failed d = d
value_of out_of_fuel d = d

returned-ne : (h : Handle) → assert_failed ≢ returned h
returned-ne h e = ground (arith, e)

forwarded-node :
    (g : Graph) (offset : ℕ) (f r : Handle)
    → forwarded g offset f ≡ returned r
    → (r.node ≡ f.node) × ((r.offset < size_of g r.node) ⊎ (r.offset ≡ 0))
unfolding forwarded value_of
forwarded-node g offset f r e =
    by_test (Bool-cases (leb (size_of g f.node) sum)) (Bool-cases (leb (size_of g f.node) 1))
  where
    sum : ℕ
    sum = (offset + f.offset) % 2 ^ 32

    collapsed :
        returned (record { node = f.node; offset = 0 }) ≡ returned r
        → (r.node ≡ f.node) × ((r.offset < size_of g r.node) ⊎ (r.offset ≡ 0))
    collapsed e =
        (sym (ap (λ q. (value_of q f).node) e), inr (sym (ap (λ q. (value_of q f).offset) e)))

    kept :
        returned (record { node = f.node; offset = sum }) ≡ returned r
        → leb (size_of g f.node) sum ≡ false
        → (r.node ≡ f.node) × ((r.offset < size_of g r.node) ⊎ (r.offset ≡ 0))
    kept e inside =
        let same : f.node ≡ r.node = ap (λ q. (value_of q f).node) e in
        let at : sum ≡ r.offset = ap (λ q. (value_of q f).offset) e in
        let below : sum < size_of g f.node = ground (arith, inside) in
        (
          sym same,
          inl (subst (λ o. o < size_of g r.node) at (subst (λ n. sum < size_of g n) same below)),
        )

    by_test :
        ((leb (size_of g f.node) sum ≡ true) ⊎ (leb (size_of g f.node) sum ≡ false))
        → ((leb (size_of g f.node) 1 ≡ true) ⊎ (leb (size_of g f.node) 1 ≡ false))
        → (r.node ≡ f.node) × ((r.offset < size_of g r.node) ⊎ (r.offset ≡ 0))
    by_test (inl outside) (inl small) = collapsed (simp (outside, small) at e)
    by_test (inl outside) (inr large) = absurd (returned-ne r (simp (outside, large) at e))
    by_test (inr inside) c = kept (simp (inside) at e) inside

stops-IsResolved :
    (g : Graph) (h : Handle)
    → ((h.node == 0) || not (is_forwarding g h.node)) ≡ true
    → IsResolved g h
stops-IsResolved g h stop = elim (Bool-cases (h.node == 0)) [
  | inl null ↦ inl (ground (arith, null))
  | inr some_node ↦ inr (ground (arith, some_node, stop))
]

-- Where getNode returns, with any fuel, it leads to null or to a node that forwards no further; it is
-- the handle itself, or has an offset inside the node or 0.
pub resolve-IsResolved :
    (fuel : ℕ) (g : Graph) (h r : Handle)
    → resolve fuel g h ≡ returned r
    → IsResolved g r × ((h ≡ r) ⊎ ((r.offset < size_of g r.node) ⊎ (r.offset ≡ 0)))
unfolding resolve value_of
resolve-IsResolved zero g h r e = absurd (ground (arith, e))
resolve-IsResolved (suc fuel) g h r e =
    elim (Bool-cases ((h.node == 0) || not (is_forwarding g h.node))) [
      | inl stop ↦
          let same : h ≡ r = ap (λ q. value_of q h) (simp (stop) at e) in
          (subst (IsResolved g) same (stops-IsResolved g h stop), inl same)
      | inr go ↦
          follow (resolve fuel g (g.nodes h.node).forward)
            (λ f. resolve-IsResolved fuel g (g.nodes h.node).forward f) (simp (go) at e)
    ]
  where
    follow :
        (x : Result Handle)
        → ((f : Handle)
            → x ≡ returned f
            → IsResolved g f
              × (((g.nodes h.node).forward ≡ f) ⊎ ((f.offset < size_of g f.node) ⊎ (f.offset ≡ 0))))
        → (x >>= λ f. forwarded g h.offset f) ≡ returned r
        → IsResolved g r × ((h ≡ r) ⊎ ((r.offset < size_of g r.node) ⊎ (r.offset ≡ 0)))
    follow (returned f) before e =
        let (node, inside) = forwarded-node g h.offset f r e in
        (
          subst (λ n. (n ≡ 0) ⊎ (is_forwarding g n ≡ false)) (sym node) (before f refl).0,
          inr inside,
        )
    follow aborted before e = absurd (ground (arith, e))
    follow assert_failed before e = absurd (ground (arith, e))
    follow out_of_fuel before e = absurd (ground (arith, e))
