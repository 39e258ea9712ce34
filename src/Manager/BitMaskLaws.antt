-- ===== src/Manager/BitMaskLaws.antt =====
-- include/poolalloc_runtime/PoolAllocator.h: what `findFree` finds, and what `setUsed` marks.
use native.Mathlib.Decide.{dec_le}
use poolalloc_3_1_upstreamed.Prelude.{
  ℕ, zero, suc, ◌+◌, ◌*◌, ◌%◌, ◌^◌, ◌≤◌, ◌<◌, ◌≡◌, refl, true, false, some, List, [], ◌∷◌, arith,
}
use poolalloc_3_1_upstreamed.Flags.{
  Word, Flags, SetBelow, first_clear_complete, all_set_full, all_set_clear,
}
use poolalloc_3_1_upstreamed.Manager.BitMask.{
  SlabMetadata, Config, BitMaskSlabManager, num_ints_per_slab_meta, lookup_slab, update_slab,
  find_in_word, find_in_words, find_free, mark, set_used, returned, alloc_one, ensure_slab,
  slab_alloc,
}

-- Bit `b` of word `y` is the first of `n` words that is clear.
pub record IsFirstClear (mask : Flags) (n y b : ℕ) : Type 0 where
  pub word_in : y < n
  pub bit_in : b < 32
  pub clear : mask y b ≡ false
  pub below : SetBelow (mask y) 0 b
  pub full : (w : ℕ) → w < y → SetBelow (mask w) 0 32

find_in_word_complete :
    (zone : Word) (x n b : ℕ)
    → x * 8 ≤ b
    → b < (x + n) * 8
    → zone b ≡ false
    → SetBelow zone 0 b
    → find_in_word zone x n ≡ some b
unfolding find_in_word
find_in_word_complete zone x zero b lo hi clear h = absurd (omega arith)
find_in_word_complete zone x (suc n) b lo hi clear h = elim (dec_le (x * 8 + 8) b) [
  | yes later ↦
      rw (all_set_full zone (x * 8) 8 (λ j l k. h j (omega arith) (omega arith)))
        (find_in_word_complete zone (x + 1) n b (omega arith) (omega arith) clear h)
  | no here ↦ rw (all_set_clear zone (x * 8) 8 b lo (omega arith) clear) (
      rw
        (first_clear_complete zone (x * 8) 8 b lo (omega arith) clear
          (λ j l k. h j (omega arith) k))
        refl)
]

find_in_words_complete :
    (mask : Flags) (i n y b : ℕ)
    → i ≤ y
    → IsFirstClear mask (i + n) y b
    → find_in_words mask i n ≡ some (y * 4 + b)
unfolding find_in_words
find_in_words_complete mask i zero y b lo f = absurd (omega (arith, f.word_in))
find_in_words_complete mask i (suc n) y b lo f = elim (dec_le y i) [
  | yes here ↦
      let e : i ≡ y = omega arith in
      rw (e, all_set_clear (mask y) 0 32 b (omega arith) (omega (arith, f.bit_in)) f.clear)
        (rw
          (find_in_word_complete (mask y) 0 4 b (omega arith) (omega (arith, f.bit_in)) f.clear
            f.below)
          (ground arith))
  | no later ↦ rw (all_set_full (mask i) 0 32 (f.full i (omega arith))) (
      find_in_words_complete mask (i + 1) n y b (omega arith) (record {
        word_in = omega (arith, f.word_in);
        bit_in = f.bit_in;
        clear = f.clear;
        below = f.below;
        full = f.full;
      }))
]

-- `findFree` finds the first clear bit; what it makes of bit `b` of word `y` is the number
-- `y * sizeof(unsigned) + b`.
pub find_free_complete :
    (c : Config) (slab : SlabMetadata) (y b : ℕ)
    → IsFirstClear slab.free_bitmask (num_ints_per_slab_meta c) y b
    → find_free c slab ≡ some (y * 4 + b)
unfolding find_free
find_free_complete c slab y b f =
    find_in_words_complete slab.free_bitmask 0 (num_ints_per_slab_meta c) y b (omega arith)
      (record {
        word_in = omega (arith, f.word_in);
        bit_in = f.bit_in;
        clear = f.clear;
        below = f.below;
        full = f.full;
      })

-- Under the key of a slab stands what was last written there.
lookup_slab-update_slab :
    (key : ℕ) (s : SlabMetadata) (m : List (ℕ × SlabMetadata))
    → lookup_slab key (update_slab key s m) ≡ some s
unfolding lookup_slab update_slab
lookup_slab-update_slab key s [] = ground arith
lookup_slab-update_slab key s ((k, t) ∷ m) = ground (arith, lookup_slab-update_slab key s m)

-- `setUsed` of that number marks another bit wherever `b` is 4 or more.
IsFirstClear-mark :
    (slab : SlabMetadata) (n y b : ℕ)
    → 4 ≤ b
    → IsFirstClear slab.free_bitmask n y b
    → IsFirstClear (mark slab (y * 4 + b) true).free_bitmask n y b
unfolding mark
IsFirstClear-mark slab n y b h f = record {
  word_in = f.word_in;
  bit_in = f.bit_in;
  clear = ground (arith, f.clear);
  below = λ j l k. ground (arith, f.below j l k);
  full = λ w lt j l k. ground (arith, f.full w lt j l k);
}

module _ (m : BitMaskSlabManager) (key : ℕ) (slab : SlabMetadata) (y b : ℕ) (mem : ℕ)
    (current : m.cur_alloc_slab ≡ some key) (kept : lookup_slab key m.slabmetadata ≡ some slab)
    (first : IsFirstClear slab.free_bitmask (num_ints_per_slab_meta m.config) y b) where
  ensure_slab_current : ensure_slab m mem ≡ m
  unfolding ensure_slab
  ensure_slab_current = ground arith

  slab_alloc_current :
      slab_alloc (mem ∷ []) m 1
      ≡ returned
          (set_used m key slab (y * 4 + b))
          (slab.data_ptr + ((y * 4 + b) * m.objsize) % 2 ^ 32)
  unfolding slab_alloc alloc_one
  slab_alloc_current =
      ground (arith, ensure_slab_current, find_free_complete m.config slab y b first)

-- Once the four low bits of every word up to the first with a clear bit are taken, `slab_alloc`
-- marks a bit other than the one that it found, so the next call hands out the same object again.
pub slab_alloc_repeats :
    (m : BitMaskSlabManager) (key : ℕ) (slab : SlabMetadata) (y b mem : ℕ)
    → m.cur_alloc_slab ≡ some key
    → lookup_slab key m.slabmetadata ≡ some slab
    → IsFirstClear slab.free_bitmask (num_ints_per_slab_meta m.config) y b
    → 4 ≤ b
    → let p = slab.data_ptr + ((y * 4 + b) * m.objsize) % 2 ^ 32 in
      (m1 : BitMaskSlabManager) × (m2 : BitMaskSlabManager) × (slab_alloc (mem ∷ []) m 1
        ≡ returned m1 p)
      × (slab_alloc (mem ∷ []) m1 1 ≡ returned m2 p)
slab_alloc_repeats m key slab y b mem current kept first high =
    let m1 = set_used m key slab (y * 4 + b) in
    let slab1 = mark slab (y * 4 + b) true in
    (
      m1,
      set_used m1 key slab1 (y * 4 + b),
      slab_alloc_current m key slab y b mem current kept first,
      unfold set_used mark in
          slab_alloc_current m1 key slab1 y b mem current
            (lookup_slab-update_slab key slab1 m.slabmetadata)
            (IsFirstClear-mark slab (num_ints_per_slab_meta m.config) y b high first),
    )
