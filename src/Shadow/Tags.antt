-- ===== src/Shadow/Tags.antt =====
-- runtime/DynamicTypeChecks/TypeRuntime.cpp: what `checkType` says of memory that was tracked.
use poolalloc_3_1_upstreamed.Prelude.{
  ℕ, zero, suc, ◌+◌, ◌-◌, ◌≤◌, ◌<◌, ◌%◌, ◌^◌, ◌≡◌, ◌≢◌, refl, sym, ap, ◌∙◌, true, false, Option,
  none, some, List, ltb, arith,
}
use poolalloc_3_1_upstreamed.Shadow.Memory.{
  size_of_shadow, inner_tag, any_tag, Tags, mask_address, memset, memcpy, from, Report,
  type_mismatch, Shadow, report, inside,
}
use poolalloc_3_1_upstreamed.Shadow.Runtime.{
  scan_within, write_value, track_store_inst, track_init_inst, get_type_tag, first_other, all_same,
  scan_tags, check_other, check_same, check_type, copy_type_info,
}

first_other-none :
    (m : Tags) (w i n : ℕ)
    → i + n ≤ 2 ^ 32
    → ((j : ℕ) → i ≤ j → j < i + n → m j ≡ w)
    → first_other m w i n ≡ none
unfolding first_other
first_other-none m w i zero small h = refl
first_other-none m w i (suc zero) small h = rw (h i (omega arith) (omega arith)) (ground arith)
first_other-none m w i (suc (suc n)) small h =
    let next : (i + 1) % 2 ^ 32 ≡ i + 1 = omega arith in
    let rest =
      first_other-none m w (i + 1) (suc n) (omega arith)
        (λ j lo hi. h j (omega arith) (omega arith)) in
    rw (h i (omega arith) (omega arith), next) (ground (arith, rest))

scan_tags-all_same :
    (m : Tags) (w size : ℕ)
    → 0 < size
    → size < 2 ^ 32
    → ((j : ℕ) → 1 ≤ j → j < size → m j ≡ w)
    → scan_tags m w size ≡ all_same
unfolding scan_within
scan_tags-all_same m w size pos small h =
    let fits : ltb size (2 ^ 32) ≡ true = ground (arith, small) in
    let none_other =
      first_other-none m w 1 (size - 1) (omega arith) (λ j lo hi. h j lo (omega arith)) in
    ap (scan_within m w size) fits ∙ (rw (scan_within, none_other) refl)

first_other-same :
    (m m' : Tags) (w i n : ℕ)
    → i + n < 2 ^ 32
    → ((j : ℕ) → i ≤ j → j < i + n → m j ≡ m' j)
    → first_other m w i n ≡ first_other m' w i n
unfolding first_other
first_other-same m m' w i zero small h = refl
first_other-same m m' w i (suc n) small h =
    let here = h i (omega arith) (omega arith) in
    let next : (i + 1) % 2 ^ 32 ≡ i + 1 = omega arith in
    let rest =
      first_other-same m m' w (i + 1) n (omega arith)
        (λ j lo hi. h j (omega arith) (omega arith)) in
    rw next (ground (arith, here, rest))

scan_tags-same :
    (m m' : Tags) (w size : ℕ)
    → 0 < size
    → size < 2 ^ 32
    → ((j : ℕ) → j < size → m j ≡ m' j)
    → scan_tags m w size ≡ scan_tags m' w size
unfolding scan_within
scan_tags-same m m' w size pos small h =
    let fits : ltb size (2 ^ 32) ≡ true = ground (arith, small) in
    let same = first_other-same m m' w 1 (size - 1) (omega arith) (λ j lo hi. h j (omega arith)) in
    ap (scan_within m w size) fits
    ∙ (rw (scan_within, same) refl)
    ∙ ap (scan_within m' w size) (sym fits)

module _ (s : Shadow) (ptr t size tag : ℕ) (pos : 0 < size) (small : size < 2 ^ 32)
    (fits : mask_address ptr + size < size_of_shadow) where
  abbrev stored : Shadow
  stored = track_store_inst s ptr t size

  abbrev tags_at : Tags
  tags_at = from stored.shadow_begin (mask_address ptr)

  stored_first : tags_at 0 ≡ t
  unfolding track_store_inst write_value memset
  stored_first = ground arith

  stored_rest : (j : ℕ) → 1 ≤ j → j < size → tags_at j ≡ inner_tag
  unfolding track_store_inst write_value memset
  stored_rest j lo hi = ground arith

  get_stored : get_type_tag stored ptr size ≡ some tags_at
  unfolding get_type_tag
  get_stored = let e : ltb (mask_address ptr + size) size_of_shadow ≡ true = ground arith in rw e

  -- A value of at least one byte and less than 2^32, at a masked address so that its end is below
  -- the size of the shadow memory, that is stored and loaded with the same type passes the check
  -- without a message, and no tag changes.
  pub check_type-track_store_inst :
      check_type stored t size (get_type_tag stored ptr size) ptr tag ≡ some stored
  unfolding check_type check_same
  check_type-track_store_inst =
      rw (get_stored, check_type)
        (ground
          (arith, stored_first, scan_tags-all_same tags_at inner_tag size pos small stored_rest))

  -- A value of at least one byte and less than 2^32, inside the shadow memory, that was stored with a type (neither of
  -- the two special tags), and is loaded and checked with any other type, is reported, once, with
  -- both types, and no tag changes.
  pub check_type_mismatch :
      (u : ℕ)
      → u ≢ t
      → t ≢ any_tag
      → t ≢ inner_tag
      → check_type stored u size (get_type_tag stored ptr size) ptr tag
        ≡ some (report stored (type_mismatch tag u t))
  unfolding check_type check_other
  check_type_mismatch u other typed whole =
      rw (get_stored, check_type) (ground (arith, stored_first))

-- Memory inside the shadow memory, at least one byte and less than 2^32, not at null, that is initialized and has no
-- type passes the check of any type, and takes that type.
pub check_type-track_init_inst :
    (s : Shadow) (ptr t size tag : ℕ)
    → 0 < size
    → size < 2 ^ 32
    → mask_address ptr + size < size_of_shadow
    → ptr ≢ 0
    → t ≢ any_tag
    → let s' = track_init_inst s ptr size in
      check_type s' t size (get_type_tag s' ptr size) ptr tag
      ≡ some (track_store_inst s' ptr t size)
unfolding check_type check_other track_init_inst memset get_type_tag
check_type-track_init_inst s ptr t size tag pos small fits there typed =
    let s' = track_init_inst s ptr size in
    let m = from s'.shadow_begin (mask_address ptr) in
    let all = scan_tags-all_same m any_tag size pos small (λ j lo hi. ground arith) in
    ground (arith, all)

-- What a check printed so far.
abbrev pub printed : Option Shadow → Option (List Report)
printed none = none
printed (some s) = some s.reports

check_type-printed :
    (s s' : Shadow) (m m' : Tags) (t size ptr ptr' tag : ℕ)
    → 0 < size
    → size < 2 ^ 32
    → s.reports ≡ s'.reports
    → ((j : ℕ) → j < size → m j ≡ m' j)
    → printed (check_type s t size (some m) ptr tag)
      ≡ printed (check_type s' t size (some m') ptr' tag)
unfolding check_type check_same check_other track_store_inst
check_type-printed s s' m m' t size ptr ptr' tag pos small same agree =
    let any = scan_tags-same m m' any_tag size pos small agree in
    let inner = scan_tags-same m m' inner_tag size pos small agree in
    ground (arith, agree 0, any, inner)

-- After the tags of a block of less than 2^32 bytes are copied, a check of the copy prints what a check of the original
-- would, whatever the type; a tag outside the copy is as it was.
pub check_type-copy_type_info :
    (s : Shadow) (dst src size t tag a : ℕ)
    → 0 < size
    → size < 2 ^ 32
    → inside (mask_address dst) size a ≡ false
    → let s' = copy_type_info s dst src size in
      (printed (check_type s' t size (some (from s'.shadow_begin (mask_address dst))) dst tag)
        ≡ printed (check_type s t size (some (from s.shadow_begin (mask_address src))) src tag))
      × (s'.shadow_begin a ≡ s.shadow_begin a)
unfolding copy_type_info memcpy
check_type-copy_type_info s dst src size t tag a pos small out =
    let s' = copy_type_info s dst src size in
    (
      check_type-printed s' s (from s'.shadow_begin (mask_address dst))
          (from s.shadow_begin (mask_address src)) t size dst src tag pos small refl
          (λ j lt.
            let e : mask_address dst + j - mask_address dst ≡ j = omega arith in ground (arith, e)),
      rw out,
    )
