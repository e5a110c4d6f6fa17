-- ===== src/Py/Value.antt =====
-- The values that parameters take.
use spark_rapids_ml.Base.{ℕ, zero, String, Bool, true, false, not, List}

-- `negsuc n` is -(n + 1).
pub data ℤ : Type 0 where
  pos : ℕ → ℤ
  negsuc : ℕ → ℤ

-- `F` is the type of Python's floats.
pub data Value (F : Type 0) : Type 0 where
  none_value : Value F
  bool : Bool → Value F
  int : ℤ → Value F
  float : F → Value F
  str : String → Value F
  strs : List String → Value F

-- The operations on floats that the code uses.
pub record Floats (F : Type 0) : Type 0 where
  pub is_zero : F → Bool
  pub of_int : ℤ → F
  pub multiply : F → F → F
  -- 1.0 and 1 / 3.0
  pub one : F
  pub third : F

-- v == 0
abbrev pub equals_zero : {F : Type 0} → Floats F → Value F → Bool
equals_zero O (bool b) = not b
equals_zero O (int (pos zero)) = true
equals_zero O (float x) = O.is_zero x
equals_zero O _ = false
