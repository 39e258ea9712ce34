-- ===== src/Sets/Examples.antt =====
-- include/dsa/svset.h and include/dsa/super_set.h: the theorems at small sets.
use poolalloc_3_1_upstreamed.Prelude.{ℕ, ◌≡◌, ◌↔◌, arith, List, [], ◌∷◌}
use poolalloc_3_1_upstreamed.Sets.Super.{get_or_create}
use poolalloc_3_1_upstreamed.Sets.Svset.{count}
use poolalloc_3_1_upstreamed.Sets.Refine.{
  Op, insert_key, erase_key, ask, insert_other, insert_keys, answers, set_answers,
  answers-set_answers,
}
use poolalloc_3_1_upstreamed.Sets.Places.{create_all, get_or_create_unique}

abbrev some_calls : List Op
some_calls =
    insert_key 5
    ∷ insert_other (2 ∷ 5 ∷ 9 ∷ [])
    ∷ erase_key 5
    ∷ insert_keys (8 ∷ 2 ∷ 8 ∷ [])
    ∷ ask 5
    ∷ ask 8
    ∷ []

answers-set_answers_example :
    answers some_calls (3 ∷ 7 ∷ []) ≡ set_answers some_calls (count (3 ∷ 7 ∷ []))
answers-set_answers_example =
    answers-set_answers some_calls (3 ∷ 7 ∷ [])
      (
        tt,
        (
          ((omega arith, (omega arith, tt)), ((omega arith, tt), (tt, tt))),
          (tt, (tt, (tt, (tt, tt)))),
        ),
      )
      ((omega arith, tt), (tt, tt))

abbrev pair : List ℕ
pair = 4 ∷ 6 ∷ []

abbrev single : List ℕ
single = 1 ∷ []

get_or_create_unique_example :
    ((get_or_create (create_all (get_or_create [] pair).0 (single ∷ [])) pair).1
      ≡ (get_or_create [] pair).1)
    ↔ (pair ≡ pair)
get_or_create_unique_example = get_or_create_unique [] pair (single ∷ []) pair
