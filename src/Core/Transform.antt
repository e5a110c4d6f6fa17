-- ===== src/Core/Transform.antt =====
-- `_CumlModel._pre_process_data` and `_CumlModelWithColumns._transform`: the columns that a model
-- adds to a dataset.
use spark_rapids_ml.Base.{
  String, Bool, true, false, Option, none, some, List, [], ◌∷◌, str_eq, if◌then◌else◌,
}
use spark_rapids_ml.Py.{Result, ok, err, value_error, key_error, type_error, other_error, bind}
use spark_rapids_ml.Py.Dict.{Dict, get, put, remove}
use spark_rapids_ml.Py.Value.{Value, str, strs}

-- A column of a dataset: vectors, arrays, or numbers and all else. `C` is the type of its content.
pub data Content (C : Type 0) : Type 0 where
  vectors arrays others : C → Content C

-- A data frame, from names to columns. `withColumn` is `put`, and `drop` is `remove`.
abbrev pub Dataset : Type 0 → Type 0
Dataset C = Dict (Content C)

abbrev pub tmp_name : String
tmp_name = "cuml_values_c3BhcmstcmFwaWRzLW1sCg=="

abbrev pub struct_name : String
struct_name = "_prediction_struct_c3BhcmtjdW1sCg=="

-- (dataset, select_cols, input_is_multi_cols)
pub record Prepared (C : Type 0) : Type 0 where
  pub dataset : Dataset C
  pub select_cols : List String
  pub input_is_multi_cols : Bool

-- What the model's function makes of the selected columns: the predictions, and the probabilities.
abbrev pub Predict : Type 0 → Type 0
Predict C = Dataset C → List String → Bool → Result (C × C)

-- The columns that a transform adds: one for a single prediction, or one for the prediction and
-- perhaps one for the probabilities.
pub data Target : Type 0 where
  single : String → Target
  structured : String → Option String → Target

module _ {C : Type 0} where
  -- withColumnRenamed, where no column has the new name
  unfoldable pub rename : Dataset C → String → String → Dataset C
  rename [] a b = []
  rename ((k, c) ∷ d) a b =
      let rest = rename d a b in if str_eq k a then (b, c) ∷ rest else (k, c) ∷ rest

  abbrev pub prepared_single : Dataset C → String → Result (Prepared C)
  prepared_single d c =
      ok (record { dataset = d; select_cols = c ∷ []; input_is_multi_cols = false })

  -- The branches on the type of a single input column. A vector column becomes an array column.
  unfoldable pub prepare_single : Dataset C → String → Option (Content C) → Result (Prepared C)
  unfolding rename
  prepare_single d c none = err key_error
  prepare_single d c (some (vectors x)) =
      prepared_single (remove (put (rename d c tmp_name) c (arrays x)) tmp_name) c
  prepare_single d c (some (arrays x)) = prepared_single d c
  prepare_single d c (some (others x)) = err value_error

  unfoldable pub prepare :
      {F : Type 0} → Dataset C → Option (Value F) × Option (Value F) → Result (Prepared C)
  unfolding prepare_single
  prepare d (some (str c), _) = prepare_single d c (get d c)
  prepare d (some _, _) = err key_error
  prepare d (none, some (strs names)) =
      ok (record { dataset = d; select_cols = names; input_is_multi_cols = true })
  prepare d (none, some _) = err type_error
  prepare d (none, none) = err other_error

  -- A model of a single prediction adds one column, and the others go through a column of structs,
  -- which is dropped at the end.
  unfoldable pub add_columns : Dataset C → Target → C → C → C → Dataset C
  add_columns d (single pred_name) structs prediction probability =
      put d pred_name (others prediction)
  add_columns d (structured pred_name none) structs prediction probability =
      remove (put (put d struct_name (others structs)) pred_name (others prediction)) struct_name
  add_columns d (structured pred_name (some probability_col)) structs prediction probability =
      remove
        (put (put (put d struct_name (others structs)) pred_name (others prediction))
          probability_col (vectors probability))
        struct_name

  unfoldable pub transform :
      {F : Type 0}
      → Predict C
      → (C × C → C)
      → Option (Value F) × Option (Value F)
      → Result Target
      → Dataset C
      → Result (Dataset C)
  unfolding add_columns
  transform predict struct columns target d = bind (prepare d columns) (λ p. bind target (λ t.
      bind (predict p.dataset p.select_cols p.input_is_multi_cols) (λ (prediction, probability).
        ok (add_columns p.dataset t (struct (prediction, probability)) prediction probability))))
