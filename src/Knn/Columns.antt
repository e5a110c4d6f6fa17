-- ===== src/Knn/Columns.antt =====
-- `_pre_process_data` of knn.NearestNeighborsModel.
use spark_rapids_ml.Base.{String, ℕ, Option, none, some, List, [], ◌∷◌, ◌++◌}
use spark_rapids_ml.Py.{Result, ok, bind}
use spark_rapids_ml.Py.Dict.{get}
use spark_rapids_ml.Py.Value.{Value, str}
use spark_rapids_ml.Core.Columns.{
  float, DataType, vector, Schema, Column, col, alias, vector_to_array, data_alias, label_alias,
  row_number_alias,
}
use spark_rapids_ml.Core.Features.{Selection, pre_process_columns}

-- select_cols[0] = column
abbrev pub replace_first : Column → List Column → List Column
replace_first column [] = []
replace_first column (c ∷ columns) = column ∷ columns

-- A column of vectors is converted to an array of floats, and any other selection is kept.
abbrev pub as_float32 : String → Option DataType → List Column → List Column
as_float32 c (some vector) columns =
    replace_first (alias (vector_to_array (col c) float) data_alias) columns
as_float32 c _ columns = columns

unfoldable pub data_columns :
    {F : Type 0} → Schema → Option (Value F) × Option (Value F) → List Column → List Column
data_columns schema (some (str c), _) columns = as_float32 c (get schema c) columns
data_columns schema _ columns = columns

-- `id_col` is the param's value where it is defined.
abbrev pub id_column : Option String → Column
id_column (some id_col) = alias (col id_col) row_number_alias
id_column none = col row_number_alias

unfoldable pub knn_pre_process :
    {F : Type 0}
    → Schema
    → (String → Result ℕ)
    → Option (Value F) × Option (Value F)
    → Option String
    → Result Selection
unfolding data_columns
knn_pre_process schema first_length columns id_col =
    bind (pre_process_columns schema first_length columns) (λ s. ok (record s {
      select_cols =
          data_columns schema columns s.select_cols ++ (col label_alias ∷ id_column id_col ∷ []);
    }))
