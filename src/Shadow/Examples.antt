-- ===== src/Shadow/Examples.antt =====
-- runtime/DynamicTypeChecks/TypeRuntime.cpp: the theorems at a fresh shadow memory.
use poolalloc_3_1_upstreamed.Prelude.{◌≡◌, refl, some, [], ◌∷◌, arith}
use poolalloc_3_1_upstreamed.Shadow.Memory.{Shadow, mask_address, type_mismatch, too_many_accessed}
use poolalloc_3_1_upstreamed.Shadow.Runtime.{
  shadow_init, track_store_inst, get_type_tag, check_type, set_va_info,
}
use poolalloc_3_1_upstreamed.Shadow.Tags.{check_type-track_store_inst}
use poolalloc_3_1_upstreamed.Shadow.VarArgs.{
  accesses, late, accesses-late, messages, accesses-set_va_info,
}

abbrev fresh : Shadow
fresh = shadow_init []

-- Four bytes of type 5 at 100.
check_type-track_store_inst_example :
    let s = track_store_inst fresh 100 5 4 in check_type s 5 4 (get_type_tag s 100 4) 100 1 ≡ some s
unfolding mask_address
check_type-track_store_inst_example =
    check_type-track_store_inst fresh 100 5 4 1 (omega arith) (omega arith) (omega arith)

-- Three arguments are read where one was passed: the second of these accesses prints nothing.
accesses-late_example :
    (accesses (set_va_info fresh 7 1 (λ i. 5)) 7 1 (5 ∷ 5 ∷ 5 ∷ [])).reports
    ≡ too_many_accessed 1 2 1 ∷ []
unfolding late shadow_init
accesses-late_example =
    accesses-late fresh 7 1 1 (λ i. 5) (5 ∷ 5 ∷ 5 ∷ []) (refl, (refl, (refl, tt)))

-- A mismatch is printed too.
mismatch :
    (accesses (set_va_info fresh 7 1 (λ i. 5)) 7 1 (5 ∷ 6 ∷ [])).reports ≡ type_mismatch 1 6 5 ∷ []
unfolding messages shadow_init
mismatch = accesses-set_va_info fresh 7 1 1 (λ i. 5) (5 ∷ 6 ∷ [])
