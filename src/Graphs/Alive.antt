-- ===== src/Graphs/Alive.antt =====
-- lib/DSA/DSGraph.cpp: what `removeDeadNodes` finds alive, and which call sites it drops. What the
-- globals graph gets is a list of call sites, before the cloner copies them.
use poolalloc_3_1_upstreamed.Prelude.{
  ℕ, zero, suc, ◌+◌, Bool, true, false, ◌||◌, ◌&&◌, not, ◌==◌, none, some, List, [], ◌∷◌, ◌++◌,
  length, get_elem?, set, take, if◌then◌else◌,
}
use poolalloc_3_1_upstreamed.Prelude.Results.{Result, returned, assert_failed, out_of_fuel, ◌>>=◌}
use poolalloc_3_1_upstreamed.Sets.Members.{mem}
use poolalloc_3_1_upstreamed.Nodes.Graph.{Handle, Graph, is_forwarding, get_node}
use poolalloc_3_1_upstreamed.Graphs.Sites.{CallSite, swap, is_direct_call, get_callee_node}
use poolalloc_3_1_upstreamed.Graphs.Scc.{global_bit}
use poolalloc_3_1_upstreamed.Graphs.Reach.{edges, mark_reachable, mark_reachable_from_call}

-- `Alive` and `Visited`.
pub record Found : Type 0 where
  pub alive : List ℕ
  pub visited : List ℕ

-- The first handle from which an alive node can be reached ends the loop.
unfoldable pub any_reaches :
    (Found → ℕ → Result (Found × Bool)) → Graph → Found → List Handle → Result (Found × Bool)
any_reaches reach g s [] = returned (s, false)
any_reaches reach g s (h ∷ hs) = get_node g h >>= λ r. reach s r.node >>= λ t.
    let rest = any_reaches reach g t.0 hs in if t.1 then returned t else rest

-- `CanReachAliveNodes`.
unfoldable pub can_reach_alive : ℕ → Graph → Bool → Found → ℕ → Result (Found × Bool)
can_reach_alive zero g ignore s n = out_of_fuel
can_reach_alive (suc fuel) g ignore s n =
    let deeper =
      any_reaches (λ t m. can_reach_alive fuel g ignore t m) g
        (record s { visited = n ∷ s.visited }) (edges g n)
      >>= λ t.
          if t.1
          then (mark_reachable g t.0.alive n >>= λ alive.
              returned (record t.0 { alive = alive }, true))
          else returned (t.0, false) in
    if n == 0
    then returned (s, false)
    else if is_forwarding g n
    then assert_failed
    else if ignore && (g.nodes n).node_type global_bit
    then returned (s, false)
    else if mem s.alive n
    then returned (s, true)
    else if mem s.visited n
    then returned (s, false)
    else deeper

abbrev pub reaches_alive : Graph → Bool → Found → ℕ → Result (Found × Bool)
reaches_alive g ignore = can_reach_alive (suc g.next) g ignore

-- `CallSiteUsesAliveArgs`.
unfoldable pub call_uses_alive : Graph → Bool → Found → CallSite → Result (Found × Bool)
call_uses_alive g ignore s c =
    any_reaches (reaches_alive g ignore) g s (c.ret_val ∷ c.va_val ∷ []) >>= λ t.
    if t.1
    then returned t
    else (if is_direct_call c
        then returned t
        else get_callee_node g c >>= λ n. reaches_alive g ignore t.0 n)
      >>= λ u. if u.1 then returned u else any_reaches (reaches_alive g ignore) g u.0 c.call_args

-- `GlobalNodes` from `i` on: the last one takes the place of one that is alive.
abbrev pub last_first : List ℕ → List ℕ
last_first [] = []
last_first (n ∷ []) = n ∷ []
last_first (n ∷ m ∷ ns) = elim (last_first (m ∷ ns)) [ [] ↦ n ∷ [] | last ∷ init ↦ last ∷ n ∷ init ]

unfoldable pub scan_globals :
    ℕ → Graph → Bool → Found → List ℕ → List ℕ → Result (Found × List ℕ × Bool)
scan_globals zero g ignore s kept rest = returned (s, kept ++ rest, false)
scan_globals (suc count) g ignore s kept [] = returned (s, kept, false)
scan_globals (suc count) g ignore s kept (n ∷ rest) = reaches_alive g ignore s n >>= λ t.
    scan_globals count g ignore t.0 (if t.1 then kept else kept ++ n ∷ [])
      (if t.1 then last_first rest else rest)
    >>= λ u. returned (u.0, u.1, t.1 || u.2)

-- The calls, each with whether it is in `AuxFCallsAlive`.
unfoldable pub scan_calls :
    Graph → Bool → Found → List (CallSite × Bool) → Result (Found × List (CallSite × Bool) × Bool)
scan_calls g ignore s [] = returned (s, [], false)
scan_calls g ignore s ((c, alive) ∷ calls) =
    (if alive
      then returned (s, false)
      else if not (is_direct_call c)
      then returned (s, true)
      else call_uses_alive g ignore s c)
    >>= λ t.
        (if t.1
          then (mark_reachable_from_call g t.0.alive c >>= λ a. returned (record t.0 { alive = a }))
          else returned t.0)
        >>= λ s'. scan_calls g ignore s' calls >>= λ u.
            returned (u.0, (c, alive || t.1) ∷ u.1, t.1 || u.2)

-- The loop until nothing is found any more. `ignore` is the flag `RemoveUnreachableGlobals`.
unfoldable pub find_alive :
    ℕ
    → Graph
    → Bool
    → List ℕ
    → List ℕ
    → List (CallSite × Bool)
    → Result (List ℕ × List ℕ × List (CallSite × Bool))
find_alive zero g ignore alive globals calls = out_of_fuel
find_alive (suc fuel) g ignore alive globals calls =
    let s : Found = record { alive = alive; visited = [] } in
    (if ignore
      then returned (s, globals, false)
      else scan_globals (length globals) g ignore s [] globals)
    >>= λ t. scan_calls g ignore t.0 calls >>= λ u.
        let more = find_alive fuel g ignore u.0.alive t.1 u.1 in
        if t.2 || u.2 then more else returned (u.0.alive, t.1, u.1)

-- `std::swap` of two places of a list.
unfoldable pub swap_sites : List CallSite → ℕ → ℕ → List CallSite
swap_sites sites i j = elim (get_elem? sites i) [
  | none ↦ sites
  | some a ↦ elim (get_elem? sites j) [
    | none ↦ sites
    | some b ↦ if i == j then sites else set (set sites i (swap a b).0) j (swap a b).1
  ]
]

abbrev pub site_at : List CallSite → ℕ → List CallSite
site_at sites i = elim (get_elem? sites i) [ none ↦ [] | some c ↦ c ∷ [] ]

-- The loop that moves dead calls to the end, over as many places as lie between `CI` and `Erase`.
-- `AuxFCallsAlive` has the addresses of elements of the list, so it says which places are alive.
unfoldable pub move_dead :
    ℕ → (ℕ → Bool) → Bool → List CallSite → ℕ → List CallSite → List CallSite × ℕ × List CallSite
move_dead zero alive ignore sites ci pushed = (sites, ci, pushed)
move_dead (suc count) alive ignore sites ci pushed =
    move_dead count alive ignore (if alive ci then sites else swap_sites sites ci (ci + count))
      (if alive ci then ci + 1 else ci)
      (if alive ci || ignore then pushed else pushed ++ site_at sites ci)

-- The calls that stay, and those for the globals graph.
unfoldable pub drop_dead : (ℕ → Bool) → Bool → List CallSite → List CallSite × List CallSite
drop_dead alive ignore sites =
    let moved = move_dead (length sites) alive ignore sites 0 [] in (take moved.1 moved.0, moved.2)
