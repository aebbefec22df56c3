-- ===== src/Base/Float.antt =====
-- The `float` arithmetic of the machine, which the program does not implement. A value is the bit
-- pattern of an IEEE single; the operations are a parameter of the definitions that use them.
use Prim.Native.Nat.{ℕ}
use mathlib.Core.Path.{◌≡◌}
use mathlib.Core.Bool.{Bool, true}
use octopuslb.Base.Int.{ℤ}

pub record Floats : Type 0 where
  pub add : ℕ → ℕ → ℕ
  pub mul : ℕ → ℕ → ℕ
  pub div : ℕ → ℕ → ℕ
  pub lt : ℕ → ℕ → Bool
  pub le : ℕ → ℕ → Bool
  pub of_int : ℤ → ℕ
  pub to_int : ℕ → ℤ

-- The order of IEEE numbers is transitive (a comparison with a NaN is false).
abbrev pub LtTrans : Floats → Type 0
LtTrans f = (a b c : ℕ) → f.lt a b ≡ true → f.lt b c ≡ true → f.lt a c ≡ true

-- The bit patterns of the constants that the source uses.
abbrev pub float_zero : ℕ
float_zero = 0

abbrev pub float_hundred : ℕ
float_hundred = 0x42c8_0000

abbrev pub float_minus_one : ℕ
float_minus_one = 0xbf80_0000

abbrev pub float_minus_two : ℕ
float_minus_two = 0xc000_0000
