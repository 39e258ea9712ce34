-- ===== src/Shadow/Runtime.antt =====
-- runtime/DynamicTypeChecks/TypeRuntime.cpp: tracking, copying and checking type tags. `tag` names
-- the instruction, and only stands in messages.
use poolalloc_3_1_upstreamed.Prelude.{
  ℕ, zero, suc, ◌+◌, ◌-◌, ◌%◌, ◌^◌, Bool, true, false, Option, none, some, List, ltb, ◌==◌,
  if◌then◌else◌,
}
use poolalloc_3_1_upstreamed.Shadow.Memory.{
  size_of_shadow, uninit_tag, inner_tag, any_tag, Tags, mask_address, memset, memcpy, from, Report,
  type_mismatch, found_middle, alignment_mismatch, too_many_accessed, VaInfo, Shadow, report,
}

abbrev pub with_tags : Shadow → Tags → Shadow
with_tags s mem = record s { shadow_begin = mem }

-- `shadow_begin[p] = typeNumber; memset(&shadow_begin[p + 1], 0xFE, size - 1)`.
unfoldable pub write_value : Tags → ℕ → ℕ → ℕ → Tags
write_value mem p type_number size =
    memset (memset mem p type_number 1) (p + 1) inner_tag ((size + 2 ^ 64 - 1) % 2 ^ 64)

-- `shadowInit`: fresh pages of zeros, and no variable argument lists.
unfoldable pub shadow_init : List Report → Shadow
shadow_init printed = record {
  shadow_begin = λ a. uninit_tag;
  va_info_map = λ l. record { num_elements = 0; counter = 0; metadata = λ i. 0 };
  reports = printed;
}

unfoldable pub track_global : Shadow → ℕ → ℕ → ℕ → Shadow
track_global s ptr type_number size =
    with_tags s (write_value s.shadow_begin (mask_address ptr) type_number size)

unfoldable pub track_store_inst : Shadow → ℕ → ℕ → ℕ → Shadow
track_store_inst s ptr type_number size =
    with_tags s (write_value s.shadow_begin (mask_address ptr) type_number size)

-- The loop of `trackArray`, with `count - i` rounds left; `p` is the element before.
unfoldable pub replicate_tags : Tags → ℕ → ℕ → ℕ → ℕ → Tags
replicate_tags mem p p1 size zero = mem
replicate_tags mem p p1 size (suc n) =
    replicate_tags (memcpy mem (p + size) (from mem p1) size) (p + size) p1 size n

unfoldable pub track_array : Shadow → ℕ → ℕ → ℕ → Shadow
track_array s ptr size count =
    with_tags s
      (replicate_tags s.shadow_begin (mask_address ptr) (mask_address ptr) size (count - 1))

unfoldable pub track_init_inst : Shadow → ℕ → ℕ → Shadow
track_init_inst s ptr size =
    if ptr == 0 then s else with_tags s (memset s.shadow_begin (mask_address ptr) any_tag size)

unfoldable pub track_un_init_inst : Shadow → ℕ → ℕ → Shadow
track_un_init_inst s ptr size =
    with_tags s (memset s.shadow_begin (mask_address ptr) uninit_tag size)

unfoldable pub compare_types : Shadow → ℕ → ℕ → ℕ → Shadow
compare_types s source dest tag =
    if source == dest then s else report s (type_mismatch tag source dest)

unfoldable pub compare_number : Shadow → ℕ → ℕ → ℕ → Shadow
compare_number s num_args_passed arg_accessed tag =
    if ltb num_args_passed arg_accessed
    then report s (too_many_accessed tag arg_accessed num_args_passed)
    else s

abbrev pub set_va : Shadow → ℕ → VaInfo → Shadow
set_va s va_list v = record s { va_info_map = λ l. if l == va_list then v else s.va_info_map l }

unfoldable pub check_va_arg_type : Shadow → ℕ → ℕ → ℕ → Shadow
check_va_arg_type s va_list type_accessed tag =
    let v = s.va_info_map va_list in
    let counted = compare_number s v.num_elements v.counter tag in
    let compared = compare_types counted type_accessed (v.metadata v.counter) tag in
    set_va compared va_list (record v { counter = v.counter + 1 })

unfoldable pub set_va_info : Shadow → ℕ → ℕ → Tags → Shadow
set_va_info s va_list total_count metadata =
    set_va s va_list (record { num_elements = total_count; counter = 0; metadata = metadata })

unfoldable pub copy_va_info : Shadow → ℕ → ℕ → Shadow
copy_va_info s dst src = set_va s dst (s.va_info_map src)

-- `getTypeTag`: what is copied to `dest`; `none` where the assert fails.
unfoldable pub get_type_tag : Shadow → ℕ → ℕ → Option Tags
get_type_tag s ptr size =
    if ltb (mask_address ptr + size) size_of_shadow
    then some (from s.shadow_begin (mask_address ptr))
    else none

-- The first of `n` tags from `i` on, an `unsigned`, that is not the one given.
unfoldable pub first_other : Tags → ℕ → ℕ → ℕ → Option ℕ
first_other metadata wanted i zero = none
first_other metadata wanted i (suc n) =
    let rest = first_other metadata wanted ((i + 1) % 2 ^ 32) n in
    if metadata i == wanted then rest else some (metadata i)

-- How a loop of `checkType` ends: at another tag, behind the last one, or never.
pub data Scan : Type 0 where
  other : ℕ → Scan
  all_same endless : Scan

-- `for (unsigned i = 1; i < size; ++i)`. No `unsigned` is above 2^32 - 1, so from a size of 2^32 on the
-- loop begins again when `i` has had all values.
unfoldable pub scan_within : Tags → ℕ → ℕ → Bool → Scan
scan_within metadata wanted size true = elim (first_other metadata wanted 1 (size - 1)) [
  | some found ↦ other found
  | none ↦ all_same
]
scan_within metadata wanted size false = elim (first_other metadata wanted 1 (2 ^ 32)) [
  | some found ↦ other found
  | none ↦ endless
]

abbrev pub scan_tags : Tags → ℕ → ℕ → Scan
scan_tags metadata wanted size = scan_within metadata wanted size (ltb size (2 ^ 32))

-- `checkType` where the first tag is another; `none` where the loop does not end.
unfoldable pub check_other : Shadow → ℕ → ℕ → Tags → ℕ → ℕ → Option Shadow
check_other s type_number size metadata ptr tag =
    if metadata 0 == any_tag
    then elim (scan_tags metadata any_tag size) [
      | all_same ↦ some (track_store_inst s ptr type_number size)
      | other found ↦ some (
          track_store_inst (report s (alignment_mismatch tag type_number found)) ptr type_number
            size)
      | endless ↦ none
    ]
    else if metadata 0 == inner_tag
    then some (report s (found_middle tag type_number))
    else some (report s (type_mismatch tag type_number (metadata 0)))

-- `checkType` where the first tag is the one expected; `none` as before.
unfoldable pub check_same : Shadow → ℕ → ℕ → Tags → ℕ → Option Shadow
check_same s type_number size metadata tag = elim (scan_tags metadata inner_tag size) [
  | all_same ↦ some s
  | other found ↦ some (report s (alignment_mismatch tag type_number (metadata 0)))
  | endless ↦ none
]

-- `checkType`, `none` where its assert fails or its loop does not end; a null `metadata` is `none`.
unfoldable pub check_type : Shadow → ℕ → ℕ → Option Tags → ℕ → ℕ → Option Shadow
check_type s type_number size none ptr tag = if ptr == 0 then some s else none
check_type s type_number size (some metadata) ptr tag =
    if type_number == metadata 0
    then check_same s type_number size metadata tag
    else check_other s type_number size metadata ptr tag

unfoldable pub copy_type_info : Shadow → ℕ → ℕ → ℕ → Shadow
copy_type_info s dstptr srcptr size =
    with_tags s
      (memcpy s.shadow_begin (mask_address dstptr) (from s.shadow_begin (mask_address srcptr)) size)

unfoldable pub set_type_info : Shadow → ℕ → Option Tags → ℕ → ℕ → Shadow
set_type_info s dstptr none size type = track_store_inst s dstptr type size
set_type_info s dstptr (some metadata) size type =
    with_tags s (memcpy s.shadow_begin (mask_address dstptr) metadata size)
