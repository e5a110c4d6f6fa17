-- ===== src/Params/Columns.antt =====
-- `_CumlParams._get_input_columns`.
use spark_rapids_ml.Base.{
  String, ◌≡◌, Bool, true, false, ◌&&◌, Option, none, some, List, [], ◌∷◌, arith, if◌then◌else◌,
}
use spark_rapids_ml.Py.{Result, ok, err, value_error, bind}
use spark_rapids_ml.Py.Value.{Value, none_value}
use spark_rapids_ml.Params.Spark.{SparkParams}

module _ {F : Type 0} where
  -- A variable that holds None, or a value.
  abbrev pub to_option : Value F → Option (Value F)
  to_option none_value = none
  to_option v = some v

-- (input_col, input_cols)
abbrev pub InputColumns : Type 0 → Type 0
InputColumns F = Option (Value F) × Option (Value F)

module _ {F : Type 0} (P : SparkParams F) where
  abbrev pub available : P.State → String → Bool
  available s k = P.has_param s k && P.is_defined s k

  unfoldable pub get_input_columns : P.State → Result (InputColumns F)
  get_input_columns s =
      if available s "inputCols"
      then bind (P.get s "inputCols") (λ v. ok (none, to_option v))
      else if available s "inputCol"
      then bind (P.get s "inputCol") (λ v. ok (to_option v, none))
      else if available s "featuresCols"
      then bind (P.get s "featuresCols") (λ v. ok (none, to_option v))
      else if available s "featuresCol"
      then bind (P.get s "featuresCol") (λ v. ok (to_option v, none))
      else err value_error

  abbrev pub first_available : P.State → List (String × Bool) → Option (String × Bool)
  first_available s [] = none
  first_available s ((k, many) ∷ names) =
      if available s k then some (k, many) else first_available s names

  abbrev pub shaped : Bool → Value F → InputColumns F
  shaped many v = if many then (none, to_option v) else (to_option v, none)

  -- The params in the order of their precedence, and whether each names many columns.
  abbrev pub column_params : List (String × Bool)
  column_params =
      ("inputCols", true)
      ∷ ("inputCol", false)
      ∷ ("featuresCols", true)
      ∷ ("featuresCol", false)
      ∷ []

  abbrev pub columns_of : P.State → Option (String × Bool) → Result (InputColumns F)
  columns_of s none = err value_error
  columns_of s (some (k, many)) = bind (P.get s k) (λ v. ok (shaped many v))

  -- The input columns are those of the first param of `inputCols`, `inputCol`, `featuresCols` and
  -- `featuresCol` that the class has and that is set or has a default, in the second place if it
  -- names many columns and in the first if it names one. If there is none of them, the call
  -- raises `ValueError`.
  pub get_input_columns-first :
      (s : P.State) → get_input_columns s ≡ columns_of s (first_available s column_params)
  unfolding get_input_columns
  get_input_columns-first s = ground arith
