-- ===== src/Manager/BitMask.antt =====
-- include/poolalloc_runtime/PoolAllocator.h: `BitMaskSlabManager`.
use poolalloc_3_1_upstreamed.Prelude.{
  ℕ, zero, suc, ◌+◌, ◌-◌, ◌*◌, ◌/◌, ◌%◌, ◌^◌, Bool, true, false, not, ◌||◌, Option, none, some,
  List, [], ◌∷◌, ltb, ◌==◌, if◌then◌else◌,
}
use poolalloc_3_1_upstreamed.Flags.{Word, Flags, set_bit, first_clear, all_set}

-- `slab_metadata`.
pub record SlabMetadata : Type 0 where
  pub data_ptr : ℕ
  pub free_bitmask : Flags

-- The template's parameters, and `objsize`.
pub record Config : Type 0 where
  pub page_size : ℕ
  pub page_shift_amount : ℕ
  pub load : ℕ
  pub objsize : ℕ

-- `slabmetadata` in the order in which its iterator runs; `mapped_pages` with null, 0, for a page
-- that is not there; `cur_alloc_slab` by the key of the slab that it points to.
pub record BitMaskSlabManager : Type 0 where
  pub config : Config
  pub open config use *
  pub slabmetadata : List (ℕ × SlabMetadata)
  pub mapped_pages : ℕ → ℕ
  pub cur_alloc_slab : Option ℕ
  pub totalslots : ℕ
  pub totalallocs : ℕ

unfoldable pub num_objs_per_slab : Config → ℕ
num_objs_per_slab c = (c.page_size * 2 ^ c.page_shift_amount) / c.objsize

-- `numIntsPerSlabMeta`, with `sizeof(unsigned) * 8` written out.
unfoldable pub num_ints_per_slab_meta : Config → ℕ
num_ints_per_slab_meta c = (num_objs_per_slab c + 31) / 32

unfoldable pub lookup_slab : ℕ → List (ℕ × SlabMetadata) → Option SlabMetadata
lookup_slab key [] = none
lookup_slab key ((k, s) ∷ m) = if k == key then some s else lookup_slab key m

unfoldable pub update_slab : ℕ → SlabMetadata → List (ℕ × SlabMetadata) → List (ℕ × SlabMetadata)
update_slab key s [] = (key, s) ∷ []
update_slab key s ((k, s') ∷ m) = if k == key then (k, s) ∷ m else (k, s') ∷ update_slab key s m

-- The key of `getSlabForObj(obj)`: the slab on whose pages the object lies.
unfoldable pub slab_key : BitMaskSlabManager → ℕ → ℕ
slab_key m obj = m.mapped_pages (obj - obj % m.page_size)

unfoldable pub get_slab_for_obj : BitMaskSlabManager → ℕ → Option SlabMetadata
get_slab_for_obj m obj = lookup_slab (slab_key m obj) m.slabmetadata

unfoldable pub get_obj_loc : Config → SlabMetadata → ℕ → ℕ
get_obj_loc c slab obj = (obj - slab.data_ptr) / c.objsize

-- The loop over `x`: the bytes of a word, `n` of them left. A byte that is not all ones is searched
-- bit by bit.
unfoldable pub find_in_word : Word → ℕ → ℕ → Option ℕ
find_in_word zone x zero = none
find_in_word zone x (suc n) =
    let rest = find_in_word zone (x + 1) n in
    if all_set zone (x * 8) 8
    then rest
    else elim (first_clear zone (x * 8) 8) [ none ↦ rest | some b ↦ some b ]

-- The loop over `y`: the words, `n` of them left. `none` is `~0`.
unfoldable pub find_in_words : Flags → ℕ → ℕ → Option ℕ
find_in_words mask y zero = none
find_in_words mask y (suc n) =
    let rest = find_in_words mask (y + 1) n in
    if all_set (mask y) 0 32
    then rest
    else elim (find_in_word (mask y) 0 4) [ none ↦ rest | some b ↦ some (y * 4 + b) ]

unfoldable pub find_free : Config → SlabMetadata → Option ℕ
find_free c slab = find_in_words slab.free_bitmask 0 (num_ints_per_slab_meta c)

-- `sizeof(unsigned)`, by which `isFree`, `setFree` and `setUsed` divide, is 4.
unfoldable pub is_free : SlabMetadata → ℕ → Bool
is_free slab loc = not (slab.free_bitmask (loc / 4) (loc % 4))

unfoldable pub mark : SlabMetadata → ℕ → Bool → SlabMetadata
mark slab loc used = record slab {
  free_bitmask = set_bit slab.free_bitmask (loc / 4) (loc % 4) used;
}

-- `setFree` and `setUsed` on the slab with a key. The counter is an `unsigned`.
unfoldable pub set_free : BitMaskSlabManager → ℕ → SlabMetadata → ℕ → BitMaskSlabManager
set_free m key slab loc = record m {
  slabmetadata = update_slab key (mark slab loc false) m.slabmetadata;
  totalallocs = (m.totalallocs + 2 ^ 32 - 1) % 2 ^ 32;
}

unfoldable pub set_used : BitMaskSlabManager → ℕ → SlabMetadata → ℕ → BitMaskSlabManager
set_used m key slab loc = record m {
  slabmetadata = update_slab key (mark slab loc true) m.slabmetadata;
  totalallocs = (m.totalallocs + 1) % 2 ^ 32;
}

-- `if (findFree(&ii->second))`: a location that is not 0; `~0` is not 0 either.
unfoldable pub has_free : Config → SlabMetadata → Bool
has_free c slab = elim (find_free c slab) [ none ↦ true | some loc ↦ not (loc == 0) ]

unfoldable pub pick_slab : Config → List (ℕ × SlabMetadata) → Option ℕ → Option ℕ
pick_slab c [] cur = cur
pick_slab c ((key, slab) ∷ rest) cur = if has_free c slab then some key else pick_slab c rest cur

-- The loop over `x` that enters the pages of a new slab, `n` of them left.
unfoldable pub map_pages : Config → ℕ → ℕ → ℕ → (ℕ → ℕ) → ℕ → ℕ
map_pages c mem x zero pages = pages
map_pages c mem x (suc n) pages =
    map_pages c mem (x + 1) n (λ p. if p == mem + x * c.page_size then mem else pages p)

-- `createOrSetNewSlab`, where `getPages` returned `mem`. The test is
-- `!totalslots || ((totalallocs * 100) / totalslots > load)`.
unfoldable pub create_or_set_new_slab : BitMaskSlabManager → ℕ → BitMaskSlabManager
create_or_set_new_slab m mem =
    if m.totalslots == 0 || ltb m.load (((m.totalallocs * 100) % 2 ^ 32) / m.totalslots)
    then record m {
      slabmetadata =
          update_slab mem (record { data_ptr = mem; free_bitmask = λ w b. false }) m.slabmetadata;
      cur_alloc_slab = some mem;
      totalslots = (m.totalslots + num_objs_per_slab m.config) % 2 ^ 32;
      mapped_pages = map_pages m.config mem 0 (2 ^ m.page_shift_amount) m.mapped_pages;
    }
    else record m { cur_alloc_slab = pick_slab m.config m.slabmetadata m.cur_alloc_slab }

-- What a call comes to: `aborted` at `abort()` or a null slab, `deeper` where the recursion of
-- `slab_alloc` is not followed any further.
pub data Outcome : Type 0 where
  returned : BitMaskSlabManager → ℕ → Outcome
  aborted deeper : Outcome

-- `if (!CurAllocSlab) createOrSetNewSlab();`
unfoldable pub ensure_slab : BitMaskSlabManager → ℕ → BitMaskSlabManager
ensure_slab m mem = elim m.cur_alloc_slab [ none ↦ create_or_set_new_slab m mem | some k ↦ m ]

-- `slab_alloc` behind its check of `num`, with the addresses that `getPages` returns in turn; each
-- call of itself takes one.
unfoldable pub alloc_one : List ℕ → BitMaskSlabManager → Outcome
alloc_one [] m = deeper
alloc_one (mem ∷ mems) m =
    let m' = ensure_slab m mem in
    elim m'.cur_alloc_slab [
      | none ↦ aborted
      | some key ↦ elim (lookup_slab key m'.slabmetadata) [
        | none ↦ aborted
        | some slab ↦ elim (find_free m'.config slab) [
          | none ↦ alloc_one mems (record m' { cur_alloc_slab = none })
          | some loc ↦
              returned (set_used m' key slab loc) (slab.data_ptr + (loc * m'.objsize) % 2 ^ 32)
        ]
      ]
    ]

unfoldable pub slab_alloc : List ℕ → BitMaskSlabManager → ℕ → Outcome
slab_alloc mems m num = if ltb 1 num then aborted else alloc_one mems m

-- `slab_free`, `none` at `abort()`.
unfoldable pub slab_free : BitMaskSlabManager → ℕ → Option BitMaskSlabManager
slab_free m obj = elim (get_slab_for_obj m obj) [
  | none ↦ none
  | some slab ↦ some (set_free m (slab_key m obj) slab (get_obj_loc m.config slab obj))
]

unfoldable pub slab_valid : BitMaskSlabManager → ℕ → Bool
slab_valid m obj = elim (get_slab_for_obj m obj) [
  | none ↦ false
  | some slab ↦ not (is_free slab (get_obj_loc m.config slab obj))
]

unfoldable pub slab_managed : BitMaskSlabManager → ℕ → Bool
slab_managed m obj = elim (get_slab_for_obj m obj) [ none ↦ false | some slab ↦ true ]
