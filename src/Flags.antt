-- ===== src/Flags.antt =====
-- Arrays of 32-bit words that are read and written bit by bit, as `NodeFlagsVector` of
-- runtime/PoolAllocator and `free_bitmask` of include/poolalloc_runtime are: a word is the
-- function from a bit's number to the bit.
use native.Mathlib.Decide.{dec_le}
use poolalloc_3_1_upstreamed.Prelude.{
  ℕ, zero, suc, ◌+◌, ◌≡◌, refl, Bool, true, false, ◌&&◌, ◌==◌, if◌then◌else◌, arith, ◌<◌, ◌≤◌,
  Option, none, some,
}

abbrev pub Word : Type 0
Word = ℕ → Bool

abbrev pub Flags : Type 0
Flags = ℕ → Word

-- `flags[word] |= 1 << bit` and `flags[word] &= ~(1 << bit)`.
abbrev pub set_bit : Flags → ℕ → ℕ → Bool → Flags
set_bit flags word bit v w b = if w == word && b == bit then v else flags w b

-- The first number from `i` on, of `n` numbers, at which the word has a clear bit.
unfoldable pub first_clear : Word → ℕ → ℕ → Option ℕ
first_clear word i zero = none
first_clear word i (suc n) = if word i then first_clear word (i + 1) n else some i

-- No clear bit among `n` from `i` on: the comparison of a part of a word with all ones.
unfoldable pub all_set : Word → ℕ → ℕ → Bool
all_set word i zero = true
all_set word i (suc n) = word i && all_set word (i + 1) n

-- The bits from `i` up to `b` are set.
abbrev pub SetBelow : Word → ℕ → ℕ → Type 0
SetBelow word i b = (j : ℕ) → i ≤ j → j < b → word j ≡ true

SetBelow-tail : (word : Word) (i b : ℕ) → SetBelow word i b → SetBelow word (i + 1) b
SetBelow-tail word i b h j lo hi = h j (omega arith) hi

pub first_clear_complete :
    (word : Word) (i n b : ℕ)
    → i ≤ b
    → b < i + n
    → word b ≡ false
    → SetBelow word i b
    → first_clear word i n ≡ some b
unfolding first_clear
first_clear_complete word i zero b lo hi clear h = absurd (omega arith)
first_clear_complete word i (suc n) b lo hi clear h = elim (dec_le b i) [
  | yes here ↦ let e : i ≡ b = omega arith in rw (e, clear)
  | no later ↦ rw (h i (omega arith) (omega arith)) (
      first_clear_complete word (i + 1) n b (omega arith) (omega arith) clear
        (SetBelow-tail word i b h))
]

pub all_set_full : (word : Word) (i n : ℕ) → SetBelow word i (i + n) → all_set word i n ≡ true
unfolding all_set
all_set_full word i zero h = refl
all_set_full word i (suc n) h =
    rw (h i (omega arith) (omega arith))
      (all_set_full word (i + 1) n (λ j lo hi. h j (omega arith) (omega arith)))

pub all_set_clear :
    (word : Word) (i n b : ℕ) → i ≤ b → b < i + n → word b ≡ false → all_set word i n ≡ false
unfolding all_set
all_set_clear word i zero b lo hi clear = absurd (omega arith)
all_set_clear word i (suc n) b lo hi clear = elim (dec_le b i) [
  | yes here ↦ let e : i ≡ b = omega arith in rw (e, clear)
  | no later ↦
      rw (all_set_clear word (i + 1) n b (omega arith) (omega arith) clear) (and_false (word i))
]
  where
    and_false : (x : Bool) → (x && false) ≡ false
    and_false true = refl
    and_false false = refl
