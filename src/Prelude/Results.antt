-- ===== src/Prelude/Results.antt =====
-- What a call of a runtime library comes to.
-- `out_of_fuel` where a list is longer than the fuel, or a loop takes more rounds.
pub data Result (A : Type 0) : Type 0 where
  returned : A → Result A
  aborted assert_failed out_of_fuel : Result A

infixl 5 ◌>>=◌
abbrev pub ◌>>=◌ : {A B : Type 0} → Result A → (A → Result B) → Result B
returned a >>= f = f a
aborted >>= f = aborted
assert_failed >>= f = assert_failed
out_of_fuel >>= f = out_of_fuel
