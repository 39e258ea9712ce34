-- ===== src/Graphs/Sites.antt =====
-- include/dsa/DSSupport.h: call sites. An instruction and a function are numbers; function 0 is none.
-- The order of call sites by operator< and the mapping constructors are left out.
use poolalloc_3_1_upstreamed.Prelude.{ℕ, Bool, not, ◌||◌, ◌==◌, List, [], ◌∷◌, if◌then◌else◌}
use poolalloc_3_1_upstreamed.Prelude.Results.{Result, returned, assert_failed, ◌>>=◌}
use poolalloc_3_1_upstreamed.Sets.Svset.{insert, insert_range}
use poolalloc_3_1_upstreamed.Nodes.Graph.{Handle, Graph, get_node, copy_handle}
use poolalloc_3_1_upstreamed.Nodes.Merge.{Merger, handle_merge_with}

-- `DSCallSite`.
pub record CallSite : Type 0 where
  pub site : ℕ
  pub callee_f : ℕ
  pub callee_n : Handle
  pub ret_val : Handle
  pub va_val : Handle
  pub call_args : List Handle
  pub mapped_sites : List ℕ

abbrev pub is_direct_call : CallSite → Bool
is_direct_call c = not (c.callee_f == 0)

-- `swap`, of two different call sites.
abbrev pub swap : CallSite → CallSite → CallSite × CallSite
swap a b = (b, a)

-- `getCalleeNode`.
abbrev pub get_callee_node : Graph → CallSite → Result ℕ
get_callee_node g c = get_node g c.callee_n >>= λ r.
    if is_direct_call c || (r.node == 0) then assert_failed else returned r.node

-- `getCalleeFunc`.
abbrev pub get_callee_func : Graph → CallSite → Result ℕ
get_callee_func g c = get_node g c.callee_n >>= λ r.
    if not (r.node == 0) || not (is_direct_call c) then assert_failed else returned c.callee_f

-- `DSNodeHandle::mergeWith`: a null handle is set.
unfoldable pub merge_handle : Merger → Graph → Handle → Handle → Result (Graph × Handle)
merge_handle merge g h other =
    if h.node == 0
    then (copy_handle g other >>= λ c. returned (g, c))
    else handle_merge_with merge g h other >>= λ g'. returned (g', h)

-- The arguments that both have are merged, and the others of the second are added.
unfoldable pub merge_args :
    Merger → Graph → List Handle → List Handle → Result (Graph × List Handle)
merge_args merge g [] others = returned (g, others)
merge_args merge g (h ∷ hs) [] = returned (g, h ∷ hs)
merge_args merge g (h ∷ hs) (o ∷ others) = merge_handle merge g h o >>= λ m.
    merge_args merge m.0 hs others >>= λ rest. returned (rest.0, m.1 ∷ rest.1)

-- `mergeWith`.
unfoldable pub merge_sites : Merger → Graph → CallSite → CallSite → Result (Graph × CallSite)
merge_sites merge g c d = merge_handle merge g c.ret_val d.ret_val >>= λ ret.
    merge_handle merge ret.0 c.va_val d.va_val >>= λ va.
    merge_args merge va.0 c.call_args d.call_args >>= λ args. returned (
      args.0,
      record c {
        ret_val = ret.1;
        va_val = va.1;
        call_args = args.1;
        mapped_sites = insert_range (insert c.mapped_sites d.site).0 d.mapped_sites;
      },
    )
