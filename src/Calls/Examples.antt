-- ===== src/Calls/Examples.antt =====
-- lib/DSA/DSCallGraph.cpp: the theorems on a call graph of three functions, of which the first two
-- call each other.
use poolalloc_3_1_upstreamed.Prelude.{
  ℕ, ◌≡◌, ◌≢◌, ◌↔◌, refl, true, false, ◌&&◌, not, List, [], ◌∷◌, ◌++◌, ◌==◌, if◌then◌else◌, arith,
}
use poolalloc_3_1_upstreamed.Prelude.Results.{Result, returned}
use poolalloc_3_1_upstreamed.Sets.Members.{mem}
use poolalloc_3_1_upstreamed.Calls.Graph.{
  Classes, CallGraph, at, keys, remove_ecs, merge_callers, replace_callees, replace_actual,
  remove_ec_functions, build_roots,
}
use poolalloc_3_1_upstreamed.Sets.Svset.{
  insert, insert_range, sort_unique, sort, unique, unique_behind, place, lower_bound, insert_at,
  erase, find, erase_at,
}
use poolalloc_3_1_upstreamed.Calls.Scc.{
  build_sccs, visit_keys, tarjan_rec, visit_callees, finish_rec, close_micro_scc, pop_to,
  first_defined, join_all,
}
use poolalloc_3_1_upstreamed.Calls.Merged.{FromClass}
use poolalloc_3_1_upstreamed.Calls.Quotient.{remove_ec_functions-Quotient}
use poolalloc_3_1_upstreamed.Calls.Roots.{any_calls, build_roots_lem}

-- Classes as lists, each with its leader first.
abbrev class_of : List (List ℕ) → ℕ → List ℕ
class_of [] v = []
class_of (s ∷ c) v = if mem s v then s else class_of c v

abbrev without : List (List ℕ) → ℕ → List (List ℕ)
without [] v = []
without (s ∷ c) v = if mem s v then c else s ∷ without c v

abbrev first : List ℕ → ℕ
first [] = 0
first (v ∷ s) = v

abbrev listed : Classes (List (List ℕ))
listed = record {
  add = λ c v. if mem (class_of c v) v then c else (v ∷ []) ∷ c;
  union_sets = λ c a b.
      if first (class_of c a) == first (class_of c b)
      then c
      else (class_of c a ++ class_of c b) ∷ without (without c a) b;
  has = λ c v. mem (class_of c v) v;
  leader = λ c v. first (class_of c v);
  members = class_of;
}

abbrev two_classes : CallGraph (List (List ℕ))
two_classes = record {
  actual_callees = (10, 2 ∷ []) ∷ (11, 3 ∷ []) ∷ [];
  simple_callees = (1, 2 ∷ 3 ∷ []) ∷ (2, 1 ∷ []) ∷ (3, []) ∷ [];
  sccs = (1 ∷ 2 ∷ []) ∷ (3 ∷ []) ∷ [];
  known_roots = [];
  incomplete_callees = [];
  complete_sites = [];
}

remove_ec_functions-Quotient_example :
    (g' : CallGraph (List (List ℕ))) × (remove_ec_functions listed two_classes ≡ returned g')
    × ((l k : ℕ)
        → (mem (at g'.simple_callees l) k ≡ true) ↔ (
            (l ≢ k)
            × ((d : ℕ) × FromClass listed two_classes.sccs two_classes.simple_callees l d
                × (listed.leader two_classes.sccs d ≡ k))))
    × ((cs k : ℕ)
        → (mem (at g'.actual_callees cs) k ≡ true) ↔ (
            (d : ℕ) × (mem (at two_classes.actual_callees cs) d ≡ true)
            × (listed.leader two_classes.sccs d ≡ k)))
remove_ec_functions-Quotient_example =
    remove_ec_functions-Quotient listed two_classes (λ f h. ground arith) (λ d h. ground arith)
      (λ d h. ground arith, (λ d h. ground arith, (λ d h. ground arith, tt)))
      (λ d h. ground arith, (λ d h. ground arith, tt))

build_roots_lem_example :
    mem (build_roots two_classes).known_roots 1
    ≡ (mem (keys two_classes.simple_callees) 1 && not (any_calls two_classes.simple_callees 1))
build_roots_lem_example = build_roots_lem two_classes 1

-- Tarjan's algorithm from no classes at all, where no function is a declaration.
abbrev unclassed : CallGraph (List (List ℕ))
unclassed = record two_classes { sccs = [] }

abbrev simple_of : Result (CallGraph (List (List ℕ))) → List (ℕ × List ℕ)
simple_of r = elim r [ Result.returned g ↦ g.simple_callees | _ ↦ [] ]

found : simple_of (build_sccs listed (λ f. false) 4 unclassed) ≡ (2, 3 ∷ []) ∷ (3, []) ∷ []
unfolding build_sccs visit_keys tarjan_rec visit_callees finish_rec close_micro_scc pop_to
    first_defined join_all remove_ec_functions merge_callers replace_callees replace_actual
    remove_ecs insert insert_range sort_unique sort unique unique_behind place lower_bound insert_at
    erase find erase_at
found = refl
