-- ===== src/Shadow/VarArgs.antt =====
-- runtime/DynamicTypeChecks/TypeRuntime.cpp: the checks of variable arguments.
use mathlib.Core.Path.{subst}
use native.Mathlib.Decide.{dec_le}
use poolalloc_3_1_upstreamed.Prelude.{
  zero, suc, ◌-◌, sym, ℕ, ◌+◌, ◌≤◌, ◌≡◌, refl, ap, ◌∙◌, true, false, ltb, ◌==◌, if◌then◌else◌,
  arith, List, [], ◌∷◌, length,
}
use poolalloc_3_1_upstreamed.Shadow.Memory.{
  Tags, Shadow, VaInfo, Report, too_many_accessed, type_mismatch,
}
use poolalloc_3_1_upstreamed.Shadow.Runtime.{
  check_va_arg_type, set_va_info, compare_number, compare_types,
}

-- The accesses of one list, in order, each with the type it reads.
unfoldable pub accesses : Shadow → ℕ → ℕ → List ℕ → Shadow
accesses s va_list tag [] = s
accesses s va_list tag (t ∷ ts) = accesses (check_va_arg_type s va_list t tag) va_list tag ts

-- The messages of the accesses from number `i` on, the latest first: one for each access whose
-- number, counted from 0, is above `n`, and one for each type that is not the one passed.
unfoldable pub messages : ℕ → ℕ → Tags → ℕ → List ℕ → List Report → List Report
messages tag n passed i [] rest = rest
messages tag n passed i (t ∷ ts) rest =
    let counted = if ltb n i then too_many_accessed tag i n ∷ rest else rest in
    messages tag n passed (i + 1) ts
      (if t == passed i then counted else type_mismatch tag t (passed i) ∷ counted)

module _ (s : Shadow) (va_list t tag : ℕ) (v : VaInfo) (e : s.va_info_map va_list ≡ v) where
  counter-check :
      (check_va_arg_type s va_list t tag).va_info_map va_list ≡ record v { counter = v.counter + 1 }
  unfolding check_va_arg_type
  counter-check = rw e (let same : (va_list == va_list) ≡ true = ground arith in simp same)

  reports-check : (check_va_arg_type s va_list t tag).reports ≡ (
      let counted =
        if ltb v.num_elements v.counter
        then too_many_accessed tag v.counter v.num_elements ∷ s.reports
        else s.reports in
      if t == v.metadata v.counter
      then counted
      else type_mismatch tag t (v.metadata v.counter) ∷ counted)
  unfolding check_va_arg_type compare_number compare_types
  reports-check = rw e (ground arith)

accesses-messages :
    (s : Shadow) (va_list tag : ℕ) (ts : List ℕ) (v : VaInfo)
    → s.va_info_map va_list ≡ v
    → (accesses s va_list tag ts).reports
      ≡ messages tag v.num_elements v.metadata v.counter ts s.reports
unfolding accesses messages
accesses-messages s va_list tag [] v e = refl
accesses-messages s va_list tag (t ∷ ts) v e =
    accesses-messages (check_va_arg_type s va_list t tag) va_list tag ts
      (record v { counter = v.counter + 1 }) (counter-check s va_list t tag v e)
    ∙ ap (messages tag v.num_elements v.metadata (v.counter + 1) ts)
        (reports-check s va_list t tag v e)

set_va_info-at :
    (s : Shadow) (va_list n : ℕ) (passed : Tags)
    → (set_va_info s va_list n passed).va_info_map va_list
      ≡ record { num_elements = n; counter = 0; metadata = passed }
unfolding set_va_info
set_va_info-at s va_list n passed =
    let same : (va_list == va_list) ≡ true = ground arith in simp same

-- After `setVAInfo` the checks of any sequence of accesses print these messages and no others.
pub accesses-set_va_info :
    (s : Shadow) (va_list tag n : ℕ) (passed : Tags) (ts : List ℕ)
    → (accesses (set_va_info s va_list n passed) va_list tag ts).reports
      ≡ messages tag n passed 0 ts s.reports
unfolding set_va_info
accesses-set_va_info s va_list tag n passed ts =
    accesses-messages (set_va_info s va_list n passed) va_list tag ts
      (record { num_elements = n; counter = 0; metadata = passed })
      (set_va_info-at s va_list n passed)

-- The types agree with those passed, from number `i` on.
abbrev pub Agree : Tags → ℕ → List ℕ → Type 0
Agree passed i [] = Unit
Agree passed i (t ∷ ts) = (t ≡ passed i) × Agree passed (i + 1) ts

-- The messages of the accesses with the numbers from `n + 1` to `n + count`, the latest first.
unfoldable pub late : ℕ → ℕ → ℕ → List Report → List Report
late tag n zero rest = rest
late tag n (suc count) rest = too_many_accessed tag (n + 1 + count) n ∷ late tag n count rest

messages-late_from :
    (tag n : ℕ) (passed : Tags) (j : ℕ) (ts : List ℕ) (rest : List Report)
    → Agree passed (n + 1 + j) ts
    → messages tag n passed (n + 1 + j) ts (late tag n j rest) ≡ late tag n (j + length ts) rest
unfolding messages late
messages-late_from tag n passed j [] rest a = let e : j + 0 ≡ j = omega arith in rw e
messages-late_from tag n passed j (t ∷ ts) rest a =
    let match : (t == passed (n + 1 + j)) ≡ true = ground (arith, a.0) in
    let many : ltb n (n + 1 + j) ≡ true = ground arith in
    let next : n + 1 + j + 1 ≡ n + 1 + suc j = omega arith in
    let count : j + suc (length ts) ≡ suc j + length ts = omega arith in
    rw (match, many, next, count) (messages-late_from tag n passed (suc j) ts rest (rw next at a.1))

messages-late_first :
    (tag n : ℕ) (passed : Tags) (ts : List ℕ) (rest : List Report)
    → Agree passed (n + 1 + 0) ts
    → messages tag n passed (n + 1 + 0) ts rest ≡ late tag n (0 + length ts) rest
unfolding late
messages-late_first tag n passed ts rest a = messages-late_from tag n passed 0 ts rest a

messages-late :
    (tag n : ℕ) (passed : Tags) (i : ℕ) (ts : List ℕ) (rest : List Report)
    → Agree passed i ts
    → i ≤ n + 1
    → messages tag n passed i ts rest ≡ late tag n (i + length ts - (n + 1)) rest
unfolding messages
messages-late tag n passed i [] rest a h =
    let e : i + 0 - (n + 1) ≡ 0 = omega arith in rw e (unfold late in refl)
messages-late tag n passed i (t ∷ ts) rest a h = elim (dec_le (n + 1) i) [
  | yes last ↦
      let here : i ≡ n + 1 + 0 = omega arith in
      let count : i + length (t ∷ ts) - (n + 1) ≡ 0 + length (t ∷ ts) = omega arith in
      rw count (
        subst (λ k. messages tag n passed k (t ∷ ts) rest ≡ late tag n (0 + length (t ∷ ts)) rest)
          (sym here) (messages-late_first tag n passed (t ∷ ts) rest (rw here at a)))
  | no before ↦
      let match : (t == passed i) ≡ true = ground (arith, a.0) in
      let few : ltb n i ≡ false = ground arith in
      let count : i + suc (length ts) ≡ i + 1 + length ts = omega arith in
      rw (match, few, count) (messages-late tag n passed (i + 1) ts rest a.1 (omega arith))
]

-- After setVAInfo with n arguments any sequence of accesses, each with the type that stands in its
-- place, prints nothing for the first n + 1 of them, one more than was passed, and one message for
-- each later one, with its number, counted from 0, and n.
pub accesses-late :
    (s : Shadow) (va_list tag n : ℕ) (passed : Tags) (ts : List ℕ)
    → Agree passed 0 ts
    → (accesses (set_va_info s va_list n passed) va_list tag ts).reports
      ≡ late tag n (length ts - (n + 1)) s.reports
accesses-late s va_list tag n passed ts a =
    let e : 0 + length ts - (n + 1) ≡ length ts - (n + 1) = omega arith in
    accesses-set_va_info s va_list tag n passed ts
    ∙ messages-late tag n passed 0 ts s.reports a (omega arith)
    ∙ ap (λ (k : ℕ). late tag n k s.reports) e
