-- ===== src/Graphs/Missed.antt =====
-- lib/DSA/DSGraph.cpp: a path that `PathExistsToClonedNode` misses.
use poolalloc_3_1_upstreamed.Prelude.{
  ℕ, suc, ◌+◌, ◌-◌, ◌<◌, ◌≡◌, ◌≢◌, refl, sym, ap, ◌∙◌, Bool, true, false, ◌==◌, Option, none, some,
  [], ◌∷◌, if◌then◌else◌, arith,
}
use poolalloc_3_1_upstreamed.Prelude.Results.{returned, ◌>>=◌}
use poolalloc_3_1_upstreamed.Sets.Members.{self_eq}
use poolalloc_3_1_upstreamed.Nodes.Graph.{Handle, Graph, get_node}
use poolalloc_3_1_upstreamed.Graphs.Walk.{Route, here, step}
use poolalloc_3_1_upstreamed.Graphs.Reach.{edges}
use poolalloc_3_1_upstreamed.Graphs.Reached.{target, targets}
use poolalloc_3_1_upstreamed.Graphs.Scc.{
  Finder, new_finder, put_info, info_of, global_bit, visit_for_sccs, visit_edges, finish_visit,
  close_scc, scan_stack, any_edge, path_exists,
}

ne_false : (a b : ℕ) → a ≢ b → (a == b) ≡ false
ne_false a b h = ground (arith, h)

module _ (cloned : ℕ → Bool) (g : Graph) (f : Finder) (fuel : ℕ) where
  visit_seen :
      (n : ℕ) (v : ℕ × Bool)
      → f.node_info n ≡ some v
      → visit_for_sccs (suc fuel) cloned g f n ≡ returned (f, v)
  unfolding visit_for_sccs
  visit_seen n v e = rw (e, visit_for_sccs)

  visit_cloned :
      (n : ℕ)
      → f.node_info n ≡ none
      → cloned n ≡ true
      → visit_for_sccs (suc fuel) cloned g f n
        ≡ returned (
          put_info
              (put_info (record f { cur_node_id = f.cur_node_id + 1 }) n (f.cur_node_id, false))
              n
              (f.cur_node_id, true),
          (f.cur_node_id, true),
        )
  unfolding visit_for_sccs
  visit_cloned n e c = rw (e, visit_for_sccs, c)

  visit_new :
      (n : ℕ)
      → f.node_info n ≡ none
      → cloned n ≡ false
      → (g.nodes n).node_type global_bit ≡ false
      → visit_for_sccs (suc fuel) cloned g f n ≡ (
          visit_edges
            (λ f' m. visit_for_sccs fuel cloned g f' m)
            g
            (record (put_info
              (record f { cur_node_id = f.cur_node_id + 1 })
              n
              (f.cur_node_id, false)) { scc_stack = n ∷ f.scc_stack })
            f.cur_node_id
            false
            (edges g n)
          >>= λ s. finish_visit g s.0 n f.cur_node_id s.1 s.2)
  unfolding visit_for_sccs
  visit_new n e c t = rw (e, visit_for_sccs, c, t)

module _ (cloned : ℕ → Bool) (g : Graph) (a b d : ℕ) (ha hb hd : Handle) (oa ob od : ℕ)
    (a_ne : a ≢ 0) (b_ne : b ≢ 0) (d_ne : d ≢ 0) (ab : a ≢ b) (ad : a ≢ d) (bd : b ≢ d)
    (b_edges : edges g b ≡ ha ∷ []) (a_edges : edges g a ≡ hb ∷ hd ∷ [])
    (to_a : get_node g ha ≡ returned (record { node = a; offset = oa }))
    (to_b : get_node g hb ≡ returned (record { node = b; offset = ob }))
    (to_d : get_node g hd ≡ returned (record { node = d; offset = od })) (a_new : cloned a ≡ false)
    (b_new : cloned b ≡ false) (d_cloned : cloned d ≡ true)
    (a_local : (g.nodes a).node_type global_bit ≡ false)
    (b_local : (g.nodes b).node_type global_bit ≡ false) where
  -- On the way through the first node: its number is 1, and it is on the stack.
  begun : (ℕ → Option (ℕ × Bool)) → Finder
  begun info = record { cur_node_id = 2; scc_stack = b ∷ []; node_info = info }

  -- The second node sees the cloned one, and forgets it since the first is on the stack.
  visit_a :
      (info : ℕ → Option (ℕ × Bool)) (fuel : ℕ)
      → info a ≡ none
      → info d ≡ none
      → info b ≡ some (1, false)
      → (f' : Finder) × (visit_for_sccs (suc (suc fuel)) cloned g (begun info) a
          ≡ returned (f', (2, false)))
        × (f'.scc_stack ≡ a ∷ b ∷ [])
        × (f'.node_info a ≡ some (2, false))
        × (f'.node_info b ≡ some (1, false))
  unfolding begun visit_edges finish_visit
  visit_a info fuel na nd nb =
      let f1 : Finder = record {
        cur_node_id = 3;
        scc_stack = a ∷ b ∷ [];
        node_info = λ m. if m == a then some (2, false) else info m;
      } in
      let b1 : f1.node_info b ≡ some (1, false) = rw (ne_false b a (λ e. ab (sym e))) nb in
      let d1 : f1.node_info d ≡ none = rw (ne_false d a (λ e. ad (sym e))) nd in
      let f2 : Finder =
        put_info (put_info (record f1 { cur_node_id = 4 }) d (3, false)) d (3, true) in
      let a2 : f2.node_info a ≡ some (2, false) = rw (ne_false a d ad, self_eq a) refl in
      let here : info_of f2 a ≡ (2, false) = rw (info_of, a2) refl in
      (
        f2,
        visit_new cloned g (begun info) (suc fuel) a na a_new a_local
            ∙ simp
                (
                  a_edges,
                  to_b,
                  to_d,
                  ne_false b 0 b_ne,
                  ne_false d 0 d_ne,
                  visit_seen cloned g f1 fuel b (1, false) b1,
                  visit_cloned cloned g f1 fuel d d1 d_cloned,
                )
                (ap (λ (v : ℕ × Bool). returned (f2, v)) here),
        refl,
        a2,
        rw (ne_false b d bd) b1,
      )

  -- The first node then looks at its own edges only, and takes the second one off the stack.
  finish_b :
      (f2 : Finder)
      → f2.scc_stack ≡ a ∷ b ∷ []
      → f2.node_info a ≡ some (2, false)
      → f2.node_info b ≡ some (1, false)
      → (f : Finder) × (finish_visit g f2 b 1 1 false ≡ returned (f, (1, false)))
  unfolding finish_visit close_scc scan_stack any_edge
  finish_b f2 stack a2 b2 =
      let a3 : info_of f2 a ≡ (2, false) = rw (info_of, a2) refl in
      let b3 : info_of f2 b ≡ (1, false) = rw (info_of, b2) refl in
      let f : Finder = put_info (record f2 { scc_stack = b ∷ [] }) b (1, false) in
      let closed : info_of f b ≡ (1, false) = rw (info_of, self_eq b) refl in
      (
        f,
        simp (stack, ne_false a b ab, self_eq b, b_edges, to_a, ne_false a 0 a_ne, a3, b3)
            (ap (λ (v : ℕ × Bool). returned (f, v)) closed),
      )

  visit_b :
      (fuel : ℕ)
      → (f : Finder) × (visit_for_sccs (suc (suc (suc fuel))) cloned g new_finder b
          ≡ returned (f, (1, false)))
  unfolding visit_edges begun
  visit_b fuel =
      let info : ℕ → Option (ℕ × Bool) =
        λ m. if m == b then some (1, false) else new_finder.node_info m in
      let (f2, e, stack, a2, b2) =
        visit_a info fuel (rw (ne_false a b ab, ne_false a 0 a_ne) refl)
          (rw (ne_false d b (λ e. bd (sym e)), ne_false d 0 d_ne) refl) (rw (self_eq b) refl) in
      let (f, done) = finish_b f2 stack a2 b2 in
      (
        f,
        visit_new cloned g new_finder (suc (suc fuel)) b (rw (ne_false b 0 b_ne) refl) b_new b_local
            ∙ simp (b_edges, to_a, ne_false a 0 a_ne, e) done,
      )

  to_target :
      (h : Handle) (n o : ℕ)
      → get_node g h ≡ returned (record { node = n; offset = o })
      → target g h ≡ n
  to_target h n o e = rw (target, e) refl

  -- From a fresh finder, take a node whose only link leads to a second node, which has exactly two
  -- links, the first back to the first node and the second to a third node, which is cloned; the
  -- three are different and not null, and the first two are neither cloned nor global.
  -- PathExistsToClonedNode of the first node says that no path exists, and there is one.
  pub path_exists_misses :
      0 < g.next
      → ((f : Finder) × (path_exists cloned g new_finder b ≡ returned (f, false)))
        × Route (targets g) b d
  unfolding path_exists
  path_exists_misses lt =
      let enough : suc (suc g.next) ≡ suc (suc (suc (g.next - 1))) = omega arith in
      let (f, e) = visit_b (g.next - 1) in
      (
        (f, rw (enough, e) refl),
        step a (rw (b_edges, to_target ha a oa to_a) (ground arith)) a_ne (
            step d (rw (a_edges, to_target hb b ob to_b, to_target hd d od to_d) (ground arith))
              d_ne (here d)),
      )
