-- ===== src/Shadow/Memory.antt =====
-- runtime/DynamicTypeChecks/TypeRuntime.cpp: the shadow memory, one type tag for each byte of the
-- program's memory, for a 64-bit machine.
use poolalloc_3_1_upstreamed.Prelude.{
  ℕ, ◌+◌, ◌-◌, ◌%◌, ◌^◌, Bool, ◌&&◌, List, ◌∷◌, ltb, leb, if◌then◌else◌,
}

-- `SIZE` and `BASE`.
abbrev pub size_of_shadow : ℕ
size_of_shadow = 2 ^ 46

abbrev pub base : ℕ
base = 0x2aaaad01e000

abbrev pub uninit_tag : ℕ
uninit_tag = 0x00

-- The tag of the bytes of a value behind its first.
abbrev pub inner_tag : ℕ
inner_tag = 0xFE

-- The tag of memory that is initialized and has no type yet.
abbrev pub any_tag : ℕ
any_tag = 0xFF

-- `TypeTagTy *`: what stands at each offset.
abbrev pub Tags : Type 0
Tags = ℕ → ℕ

-- `maskAddress`; the difference is a `uintptr_t`.
unfoldable pub mask_address : ℕ → ℕ
mask_address ptr = if ltb ptr base then ptr else (ptr + 2 ^ 64 - size_of_shadow) % 2 ^ 64

-- `memset` and `memcpy`, of the C library: `n` bytes from `at` on.
abbrev pub inside : ℕ → ℕ → ℕ → Bool
inside at n a = leb at a && ltb a (at + n)

unfoldable pub memset : Tags → ℕ → ℕ → ℕ → Tags
memset mem at v n a = if inside at n a then v else mem a

unfoldable pub memcpy : Tags → ℕ → Tags → ℕ → Tags
memcpy mem at source n a = if inside at n a then source (a - at) else mem a

-- The bytes from an address on.
abbrev pub from : Tags → ℕ → Tags
from mem at i = mem (at + i)

-- The messages that the library prints.
pub data Report : Type 0 where
  -- tag, expected and found type
  type_mismatch : ℕ → ℕ → ℕ → Report
  -- tag and expected type: the middle of an object was found
  found_middle : ℕ → ℕ → Report
  -- tag, expected and found type: a later byte is wrong
  alignment_mismatch : ℕ → ℕ → ℕ → Report
  -- tag, accessed and passed arguments
  too_many_accessed : ℕ → ℕ → ℕ → Report

-- `struct va_info`.
pub record VaInfo : Type 0 where
  pub num_elements : ℕ
  pub counter : ℕ
  pub metadata : Tags

-- The shadow memory, `VA_InfoMap`, and what was printed, the latest first.
pub record Shadow : Type 0 where
  pub shadow_begin : Tags
  pub va_info_map : ℕ → VaInfo
  pub reports : List Report

abbrev pub report : Shadow → Report → Shadow
report s r = record s { reports = r ∷ s.reports }
