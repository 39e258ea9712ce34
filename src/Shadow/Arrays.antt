-- ===== src/Shadow/Arrays.antt =====
-- runtime/DynamicTypeChecks/TypeRuntime.cpp: `trackArray`.
use poolalloc_3_1_upstreamed.Prelude.{
  ℕ, zero, suc, ◌+◌, ◌-◌, ◌*◌, ◌≤◌, ◌<◌, ◌≡◌, refl, inl, inr, ◌∙◌, false, ltb, arith, Bool-cases,
}
use poolalloc_3_1_upstreamed.Shadow.Memory.{Tags, mask_address, memcpy, from, Shadow, inside}
use poolalloc_3_1_upstreamed.Shadow.Runtime.{replicate_tags, track_array}

-- The loop leaves what lies before the element that it writes next.
replicate_tags-before :
    (mem : Tags) (p p1 size n a : ℕ) → a < p + size → replicate_tags mem p p1 size n a ≡ mem a
unfolding replicate_tags memcpy
replicate_tags-before mem p p1 size zero a h = refl
replicate_tags-before mem p p1 size (suc n) a h =
    replicate_tags-before (memcpy mem (p + size) (from mem p1) size) (p + size) p1 size n a
      (omega arith)
    ∙ ground arith

-- Element `k` after the one at `p` is a copy of the one at `p1`.
replicate_tags-at :
    (mem : Tags) (p p1 size n k j : ℕ)
    → p1 ≤ p
    → k < n
    → j < size
    → replicate_tags mem p p1 size n (p + size + k * size + j) ≡ mem (p1 + j)
unfolding replicate_tags memcpy
replicate_tags-at mem p p1 size zero k j le lt h = elim lt [ ]
replicate_tags-at mem p p1 size (suc n) zero j le lt h =
    replicate_tags-before (memcpy mem (p + size) (from mem p1) size) (p + size) p1 size n
      (p + size + 0 * size + j) (omega arith)
    ∙ (let e : p1 + (p + size + 0 * size + j - (p + size)) ≡ p1 + j = omega arith in
        ground (arith, e))
replicate_tags-at mem p p1 size (suc n) (suc k) j le lt h =
    let e : p + size + suc k * size + j ≡ p + size + size + k * size + j = grind arith in
    rw e (
      replicate_tags-at (memcpy mem (p + size) (from mem p1) size) (p + size) p1 size n k j
        (omega arith) (omega arith) h
      ∙ ground arith)

-- It leaves what lies behind the last element that it writes.
replicate_tags-behind :
    (mem : Tags) (p p1 size n a : ℕ)
    → p + size + n * size ≤ a
    → replicate_tags mem p p1 size n a ≡ mem a
unfolding replicate_tags memcpy
replicate_tags-behind mem p p1 size zero a h = refl
replicate_tags-behind mem p p1 size (suc n) a h =
    let e : suc n * size ≡ size + n * size = grind arith in
    replicate_tags-behind (memcpy mem (p + size) (from mem p1) size) (p + size) p1 size n a
      (omega (arith, e))
    ∙ (let above : p + size + size ≤ a = omega (arith, e) in ground arith)

mul_pred : (n size : ℕ) → 0 < n → n * size ≡ size + (n - 1) * size
mul_pred zero size h = elim h [ ]
mul_pred (suc n) size h = let e : suc n - 1 ≡ n = omega arith in rw e (omega arith)

-- `trackArray` gives every element the tags of the first, and changes no tag outside the array.
pub track_array_lem :
    (s : Shadow) (ptr size count k j a : ℕ)
    → k < count
    → j < size
    → inside (mask_address ptr) (count * size) a ≡ false
    → let p = mask_address ptr in
      let mem = (track_array s ptr size count).shadow_begin in
      (mem (p + k * size + j) ≡ s.shadow_begin (p + j)) × (mem a ≡ s.shadow_begin a)
unfolding track_array
track_array_lem s ptr size count k j a k_lt j_lt out = (element k j k_lt j_lt, outside a out)
  where
    p : ℕ
    p = mask_address ptr

    element :
        (k j : ℕ)
        → k < count
        → j < size
        → replicate_tags s.shadow_begin p p size (count - 1) (p + k * size + j)
          ≡ s.shadow_begin (p + j)
    element zero j lt h =
        let e : p + 0 * size + j ≡ p + j = omega arith in
        rw e (replicate_tags-before s.shadow_begin p p size (count - 1) (p + j) (omega arith))
    element (suc k) j lt h =
        let e : p + suc k * size + j ≡ p + size + k * size + j = grind arith in
        rw e
          (replicate_tags-at s.shadow_begin p p size (count - 1) k j (omega arith) (omega arith) h)

    outside :
        (a : ℕ)
        → inside p (count * size) a ≡ false
        → replicate_tags s.shadow_begin p p size (count - 1) a ≡ s.shadow_begin a
    outside a out = elim (Bool-cases (ltb a p)) [
      | inl below ↦ replicate_tags-before s.shadow_begin p p size (count - 1) a (ground arith)
      | inr above ↦
          let e : count * size ≡ size + (count - 1) * size = mul_pred count size (omega arith) in
          replicate_tags-behind s.shadow_begin p p size (count - 1) a (ground (arith, e))
    ]
