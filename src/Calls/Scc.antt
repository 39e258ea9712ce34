-- ===== src/Calls/Scc.antt =====
-- lib/DSA/DSCallGraph.cpp: Tarjan's algorithm. Which functions are declarations is an argument; the
-- stack has its top first, and the fuel is the depth of the recursion.
use poolalloc_3_1_upstreamed.Prelude.{
  ℕ, zero, suc, ◌+◌, Bool, false, ◌&&◌, not, Option, none, some, List, [], ◌∷◌, ltb, ◌==◌,
  if◌then◌else◌,
}
use poolalloc_3_1_upstreamed.Prelude.Results.{Result, returned, assert_failed, out_of_fuel, ◌>>=◌}
use poolalloc_3_1_upstreamed.Sets.Members.{mem}
use poolalloc_3_1_upstreamed.Calls.Graph.{
  Classes, CallGraph, at, keys, leader_value, remove_ec_functions,
}

-- What the recursion shares: `Stack`, `NextID`, `ValMap` and the classes.
pub record Search (C : Type 0) : Type 0 where
  pub stack : List ℕ
  pub next_id : ℕ
  pub val_map : ℕ → Option ℕ
  pub classes : C

-- The functions from the top of the stack down to `f`, and the rest of the stack.
unfoldable pub pop_to : ℕ → List ℕ → List ℕ × List ℕ
pop_to f [] = ([], [])
pop_to f (n ∷ stack) =
    let rest = pop_to f stack in if n == f then (n ∷ [], stack) else (n ∷ rest.0, rest.1)

-- The first of them that is no declaration, or null.
unfoldable pub first_defined : (ℕ → Bool) → List ℕ → ℕ
first_defined is_declaration [] = 0
first_defined is_declaration (f ∷ fs) =
    let rest = first_defined is_declaration fs in if is_declaration f then rest else f

module _ {C : Type 0} (E : Classes C) (is_declaration : ℕ → Bool) (callees : ℕ → List ℕ) where
  -- Each function joins the class of the leader; the asserts are that it stays the leader.
  unfoldable pub join_all : C → ℕ → List ℕ → Result C
  join_all c leader [] = returned c
  join_all c leader (f ∷ fs) =
      let c' = E.add c f in
      leader_value E c' f >>= λ temp.
      let c'' = E.union_sets c' leader temp in
      leader_value E c'' leader >>= λ l. leader_value E c'' temp >>= λ l'.
      if (l == leader) && (l' == leader) then join_all c'' leader fs else assert_failed

  unfoldable pub close_micro_scc : Search C → ℕ → Result (Search C)
  close_micro_scc s f =
      let popped = pop_to f s.stack in
      let first = first_defined is_declaration popped.0 in
      let c = E.add s.classes first in
      if first == 0
      then assert_failed
      else leader_value E c first >>= λ leader.
          if is_declaration leader
          then assert_failed
          else join_all c leader popped.0 >>= λ c'.
              returned (record s { stack = popped.1; classes = c' })

  abbrev pub is_back : List ℕ → ℕ → Bool
  is_back [] f = false
  is_back (n ∷ stack) f = n == f

  abbrev pub rest_of : List ℕ → List ℕ
  rest_of [] = []
  rest_of (n ∷ stack) = stack

  -- The end of `tarjan_rec`, with `MyID` and `Min`.
  unfoldable pub finish_rec : Search C → ℕ → ℕ → ℕ → Result (Search C × ℕ)
  finish_rec s f id least =
      if not (least == id)
      then returned (s, least)
      else (if is_back s.stack f
          then returned (record s { stack = rest_of s.stack; classes = E.add s.classes f })
          else close_micro_scc s f)
        >>= λ s'. returned (s', id)

  -- The edges: `M` is the result of the call, the number of a function on the stack, or `Min`.
  unfoldable pub visit_callees :
      (Search C → ℕ → Result (Search C × ℕ)) → Search C → ℕ → List ℕ → Result (Search C × ℕ)
  visit_callees visit s least [] = returned (s, least)
  visit_callees visit s least (f ∷ fs) =
      elim (s.val_map f) [
        | none ↦ visit s f
        | some id ↦ returned (s, if mem s.stack f then id else least)
      ]
      >>= λ m. visit_callees visit m.0 (if ltb m.1 least then m.1 else least) fs

  -- `tarjan_rec`: `ValMap[F]` is `MyID` throughout, since no function is visited twice.
  unfoldable pub tarjan_rec : ℕ → Search C → ℕ → Result (Search C × ℕ)
  tarjan_rec zero s f = out_of_fuel
  tarjan_rec (suc fuel) s f =
      let id = s.next_id in
      let entered : Search C = record s {
        stack = f ∷ s.stack;
        next_id = id + 1;
        val_map = λ n. if n == f then some id else s.val_map n;
      } in
      let walk = visit_callees (λ t n. tarjan_rec fuel t n) entered id (callees f) >>= λ m.
      elim (m.0.val_map f) [
        | none ↦ assert_failed
        | some id' ↦ if id' == id then finish_rec m.0 f id m.1 else assert_failed
      ] in
      elim (s.val_map f) [ some id' ↦ assert_failed | none ↦ walk ]

  unfoldable pub visit_keys : ℕ → Search C → List ℕ → Result (Search C)
  visit_keys fuel s [] = returned s
  visit_keys fuel s (f ∷ fs) =
      elim (s.val_map f) [ some id ↦ returned s | none ↦ tarjan_rec fuel s f >>= λ m. returned m.0 ]
      >>= λ s'. visit_keys fuel s' fs

-- `buildSCCs`.
unfoldable pub build_sccs :
    {C : Type 0} → Classes C → (ℕ → Bool) → ℕ → CallGraph C → Result (CallGraph C)
build_sccs E is_declaration fuel g =
    visit_keys E is_declaration (at g.simple_callees) fuel
      (record { stack = []; next_id = 1; val_map = λ n. none; classes = g.sccs })
      (keys g.simple_callees)
    >>= λ s. remove_ec_functions E (record g { sccs = s.classes })
