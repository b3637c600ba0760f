-- ===== src/Base/Float.antt =====
-- Python's floats, as the program uses them: a parameter of the model.
use Prim.Native.Nat.{ℕ}
use mathlib.Core.Path.{◌≡◌}
use mathlib.Core.Bool.{Bool, true, false, not}
use linux_iso_seeder.Base.Text.{Text}
use linux_iso_seeder.Base.Outcome.{Result}
use linux_iso_seeder.Base.Int.{ℤ}

pub record Float : Type 1 where
  pub F : Type 0
  -- 0.0 and 1.0
  pub zero_float : F
  pub one_float : F
  -- `a < b`, `a <= b`, `a - b`, `a * b`, `a / b * 100`
  pub lt : F → F → Bool
  pub le : F → F → Bool
  pub minus : F → F → F
  pub times : F → F → F
  pub percent : F → F → F
  -- `float(n)`, the ints it raises OverflowError for, and `round(a, 3)`
  pub from_int : ℤ → F
  pub is_too_large : ℤ → Bool
  pub round3 : F → F
  -- The literal of so many thousandths, and `float(text)`.
  pub literal : ℕ → F
  pub float_of : Text → Result F
  -- `"%.3f" % a`
  pub show3 : F → Text

-- `a >= b`, where neither is a NaN.
abbrev pub ge : (fl : Float) → fl.F → fl.F → Bool
ge fl a b = not (fl.lt a b)

-- Ratios are never NaN: `<` orders them.
pub record IsOrdered (fl : Float) : Type 0 where
  pub lt_irrefl : (a : fl.F) → fl.lt a a ≡ false
  pub lt_trans : (a b c : fl.F) → fl.lt a b ≡ true → fl.lt b c ≡ true → fl.lt a c ≡ true
  pub ge_trans : (a b c : fl.F) → fl.lt a b ≡ false → fl.lt b c ≡ false → fl.lt a c ≡ false
