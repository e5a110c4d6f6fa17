-- ===== src/Core/Labels.antt =====
-- Label columns: `_CumlEstimatorSupervised._pre_process_label` and `_pre_process_data`, and the
-- `_pre_process_label` of classification.RandomForestClassifier.
use spark_rapids_ml.Base.{ℕ, String, ◌≡◌, Bool, true, false, Option, some, [], ◌∷◌, ◌++◌}
use spark_rapids_ml.Py.{Result, ok, err, value_error, bind}
use spark_rapids_ml.Py.Value.{Value}
use spark_rapids_ml.Core.Columns.{
  FloatKind, float, double, DataType, integral, floating, Schema, Column, col, alias, cast,
  cast_int, column_name, column_type, label_alias,
}
use spark_rapids_ml.Core.Features.{Selection, type_at, pre_process_columns}

-- The branches on the type of the label column and the feature type.
unfoldable pub label_column : String → DataType → FloatKind → Result Column
label_column l integral k = ok (alias (cast (col l) k) label_alias)
label_column l (floating float) float = ok (alias (col l) label_alias)
label_column l (floating double) double = ok (alias (col l) label_alias)
label_column l (floating _) k = ok (alias (cast (col l) k) label_alias)
label_column l _ k = err value_error

-- The label column itself, whatever its type, is cast to an int.
unfoldable pub class_label_column : String → DataType → FloatKind → Result Column
class_label_column l integral k = ok (alias (cast_int (col l)) label_alias)
class_label_column l (floating _) k = ok (alias (cast_int (col l)) label_alias)
class_label_column l _ k = err value_error

unfoldable pub pre_process_label : Schema → String → FloatKind → Result Column
unfolding label_column
pre_process_label schema l k = bind (type_at schema l) (λ t. label_column l t k)

unfoldable pub class_pre_process_label : Schema → String → FloatKind → Result Column
unfolding class_label_column
class_pre_process_label schema l k = bind (type_at schema l) (λ t. class_label_column l t k)

-- `_CumlEstimatorSupervised._pre_process_data`, over either way to treat the label.
unfoldable pub supervised_pre_process :
    {F : Type 0}
    → (Schema → String → FloatKind → Result Column)
    → Schema
    → (String → Result ℕ)
    → Option (Value F) × Option (Value F)
    → String
    → Result Selection
supervised_pre_process label schema first_length columns l =
    bind (pre_process_columns schema first_length columns) (λ s.
      bind (label schema l s.feature_type)
        (λ c. ok (record s { select_cols = s.select_cols ++ (c ∷ []) })))

-- The random forest classifier has its own `_pre_process_label`.
abbrev pub label_step : Bool → Schema → String → FloatKind → Result Column
label_step true = class_pre_process_label
label_step false = pre_process_label

-- The type that the label column has to have, by the feature type.
abbrev pub label_type : Bool → FloatKind → DataType
label_type true k = integral
label_type false k = floating k

-- A column under the label's alias of the given type.
unfoldable pub IsLabel : Schema → DataType → Column → Type 0
IsLabel schema t c = (column_name c ≡ label_alias) × (column_type schema c ≡ some t)

-- The columns of the features are selected as without a label, and one more behind them.
unfoldable pub AppendsLabel :
    {F : Type 0}
    → Schema
    → (String → Result ℕ)
    → Option (Value F) × Option (Value F)
    → (FloatKind → DataType)
    → Selection
    → Type 0
AppendsLabel schema first_length columns t s' =
    (s : Selection) × (c : Column) × (pre_process_columns schema first_length columns ≡ ok s)
    × (s' ≡ record s { select_cols = s.select_cols ++ (c ∷ []) })
    × IsLabel schema (t s.feature_type) c
