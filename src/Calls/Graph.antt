-- ===== src/Calls/Graph.antt =====
-- include/dsa/DSCallGraph.h and lib/DSA/DSCallGraph.cpp: the call graph. Functions and call sites are
-- numbers, function 0 is null, and the maps are lists by rising keys. LLVM's `EquivalenceClasses` and
-- the function that a call site stands in are arguments.
use poolalloc_3_1_upstreamed.Prelude.{
  ℕ, ◌+◌, Bool, none, some, List, [], ◌∷◌, ◌++◌, map, length, ltb, ◌==◌, if◌then◌else◌,
}
use poolalloc_3_1_upstreamed.Prelude.Results.{Result, returned, assert_failed, ◌>>=◌}
use poolalloc_3_1_upstreamed.Sets.Svset.{insert, insert_range, erase, count}
use poolalloc_3_1_upstreamed.Nodes.Graph.{entry, set_entry}

-- `llvm::EquivalenceClasses`: what is called of it. `has` says whether a value was inserted; `leader`
-- is `getLeaderValue` of such a value, and `members` are those of its class.
pub record Classes (C : Type 0) : Type 0 where
  pub add : C → ℕ → C
  pub union_sets : C → ℕ → ℕ → C
  pub has : C → ℕ → Bool
  pub leader : C → ℕ → ℕ
  pub members : C → ℕ → List ℕ

-- `DSCallGraph`.
pub record CallGraph (C : Type 0) : Type 0 where
  pub actual_callees : List (ℕ × List ℕ)
  pub simple_callees : List (ℕ × List ℕ)
  pub sccs : C
  pub known_roots : List ℕ
  pub incomplete_callees : List ℕ
  pub complete_sites : List ℕ

-- `M[k]`, where a new entry is the empty set, and the set of a key that may not be there.
abbrev pub at : List (ℕ × List ℕ) → ℕ → List ℕ
at m k = elim (entry m k) [ none ↦ [] | some s ↦ s ]

abbrev pub keys : List (ℕ × List ℕ) → List ℕ
keys m = map (λ e. e.0) m

-- `M.erase` of a key.
abbrev pub erase_entry : List (ℕ × List ℕ) → ℕ → List (ℕ × List ℕ)
erase_entry [] k = []
erase_entry ((j, s) ∷ m) k = if j == k then erase_entry m k else (j, s) ∷ erase_entry m k

abbrev pub insert_callee : List (ℕ × List ℕ) → ℕ → ℕ → List (ℕ × List ℕ)
insert_callee m k f = set_entry m k (insert (at m k) f).0

-- `callee_size`, `size` and `flat_size`.
abbrev pub callee_size : {C : Type 0} → CallGraph C → ℕ → ℕ
callee_size g cs = length (at g.actual_callees cs)

unfoldable pub sum_sizes : List (ℕ × List ℕ) → ℕ
sum_sizes [] = 0
sum_sizes ((k, s) ∷ m) = length s + sum_sizes m

abbrev pub size : {C : Type 0} → CallGraph C → ℕ
size g = sum_sizes g.actual_callees

abbrev pub flat_size : {C : Type 0} → CallGraph C → ℕ
flat_size g = length g.simple_callees

abbrev pub called_from_incomplete_site : {C : Type 0} → CallGraph C → ℕ → Bool
called_from_incomplete_site g f = count g.incomplete_callees f

abbrev pub callee_mark_complete : {C : Type 0} → CallGraph C → ℕ → CallGraph C
callee_mark_complete g cs = record g { complete_sites = (insert g.complete_sites cs).0 }

abbrev pub callee_is_complete : {C : Type 0} → CallGraph C → ℕ → Bool
callee_is_complete g cs = count g.complete_sites cs

abbrev pub insure_entry : {C : Type 0} → CallGraph C → ℕ → CallGraph C
insure_entry g f = record g {
  simple_callees = set_entry g.simple_callees f (at g.simple_callees f);
}

abbrev pub build_incomplete_callee_set : {C : Type 0} → CallGraph C → List ℕ → CallGraph C
build_incomplete_callee_set g callees = record g {
  incomplete_callees = insert_range g.incomplete_callees callees;
}

-- `std::set_difference`; `more` is the difference of `xs` and a list.
unfoldable pub difference_from : ℕ → List ℕ → (List ℕ → List ℕ) → List ℕ → List ℕ
difference_from x xs more [] = x ∷ xs
difference_from x xs more (y ∷ ys) =
    let rest = difference_from x xs more ys in
    if ltb x y then x ∷ more (y ∷ ys) else if ltb y x then rest else more ys

unfoldable pub set_difference : List ℕ → List ℕ → List ℕ
set_difference [] ys = []
set_difference (x ∷ xs) ys = difference_from x xs (λ zs. set_difference xs zs) ys

unfoldable pub insert_each : List ℕ → List ℕ → List ℕ
insert_each s [] = s
insert_each s (x ∷ xs) = insert_each (insert s x).0 xs

-- `buildRoots`.
unfoldable pub known_callees : List ℕ → List (ℕ × List ℕ) → List ℕ
known_callees s [] = s
known_callees s ((k, callees) ∷ m) = known_callees (insert_range s callees) m

unfoldable pub build_roots : {C : Type 0} → CallGraph C → CallGraph C
build_roots g = record g {
  known_roots =
      insert_each [] (
        set_difference (insert_each [] (keys g.simple_callees))
          (known_callees [] g.simple_callees));
}

module _ {C : Type 0} (E : Classes C) where
  -- `getLeaderValue`, which asserts that the value is there.
  abbrev pub leader_value : C → ℕ → Result ℕ
  leader_value c v = if E.has c v then returned (E.leader c v) else assert_failed

  -- `scc_begin` to `scc_end`, of a leader.
  unfoldable pub scc : CallGraph C → ℕ → Result (List ℕ)
  scc g f =
      leader_value g.sccs f >>= λ l. if f == l then returned (E.members g.sccs f) else assert_failed

  -- `addFullFunctionSet`.
  unfoldable pub add_sccs : CallGraph C → List ℕ → List ℕ → Result (List ℕ)
  add_sccs g s [] = returned s
  add_sccs g s (f ∷ fs) = scc g f >>= λ fs'. add_sccs g (insert_range s fs') fs

  -- `removeECs`.
  unfoldable pub remove_ecs : C → List ℕ → List ℕ → Result (List ℕ)
  remove_ecs c result [] = returned result
  remove_ecs c result (f ∷ fs) = leader_value c f >>= λ l. remove_ecs c (insert result l).0 fs

  -- `removeECFunctions`: the callers. A leader that is new in the map is left alone when it is met.
  unfoldable pub merge_callers : C → List (ℕ × List ℕ) → List ℕ → Result (List (ℕ × List ℕ))
  merge_callers c m [] = returned m
  merge_callers c m (f ∷ fs) = leader_value c f >>= λ l.
      merge_callers c
        (if l == f then m else erase_entry (set_entry m l (insert_range (at m l) (at m f))) f) fs

  -- The callees of each caller, without itself.
  unfoldable pub replace_callees : C → List (ℕ × List ℕ) → Result (List (ℕ × List ℕ))
  replace_callees c [] = returned []
  replace_callees c ((k, s) ∷ m) =
      remove_ecs c [] s >>= λ s'. replace_callees c m >>= λ m'. returned ((k, (erase s' k).0) ∷ m')

  unfoldable pub replace_actual : C → List (ℕ × List ℕ) → Result (List (ℕ × List ℕ))
  replace_actual c [] = returned []
  replace_actual c ((k, s) ∷ m) =
      remove_ecs c [] s >>= λ s'. replace_actual c m >>= λ m'. returned ((k, s') ∷ m')

  unfoldable pub remove_ec_functions : CallGraph C → Result (CallGraph C)
  remove_ec_functions g =
      merge_callers g.sccs g.simple_callees (keys g.simple_callees) >>= λ callers.
      replace_callees g.sccs callers >>= λ simple.
      replace_actual g.sccs g.actual_callees >>= λ actual.
      returned (record g { simple_callees = simple; actual_callees = actual })

module _ {C : Type 0} (E : Classes C) (parent : ℕ → ℕ) where
  -- `insert` of a call site and a function, which may be null.
  unfoldable pub insert_call : CallGraph C → ℕ → ℕ → Result (CallGraph C)
  insert_call g cs f =
      let sccs' = E.add (E.add g.sccs (parent cs)) f in
      leader_value E sccs' (parent cs) >>= λ caller. leader_value E sccs' f >>= λ callee.
      let entered = set_entry g.simple_callees caller (at g.simple_callees caller) in
      returned (record g {
        sccs = sccs';
        simple_callees = if f == 0 then entered else insert_callee entered caller callee;
        actual_callees =
            if f == 0 then g.actual_callees else insert_callee g.actual_callees cs callee;
      })

  unfoldable pub insert_calls : CallGraph C → ℕ → List ℕ → Result (CallGraph C)
  insert_calls g cs [] = returned g
  insert_calls g cs (f ∷ fs) = insert_call g cs f >>= λ g'. insert_calls g' cs fs

  unfoldable pub add_full_function_set : CallGraph C → ℕ → List ℕ → Result (List ℕ)
  add_full_function_set g cs s = add_sccs E g s (at g.actual_callees cs) >>= λ s'.
      leader_value E g.sccs (parent cs) >>= λ l. scc E g l >>= λ fs. returned (insert_range s' fs)

  -- `addFullFunctionList`.
  unfoldable pub add_full_function_list : CallGraph C → ℕ → List ℕ → Result (List ℕ)
  add_full_function_list g cs fs = add_full_function_set g cs [] >>= λ s. returned (fs ++ s)
