-- ===== src/Knn/ColumnsLaws.antt =====
-- Which columns the k-nearest-neighbours stage reads.
use spark_rapids_ml.Base.{String, ◌≡◌, refl, ℕ, Option, none, some, [], ◌∷◌, arith}
use spark_rapids_ml.Py.{Result, ok, err, value_error}
use spark_rapids_ml.Py.Dict.{get}
use spark_rapids_ml.Py.Value.{Value, str}
use spark_rapids_ml.Core.Columns.{
  FloatKind, float, double, DataType, integral, floating, array_of, array_other, vector, other_type,
  Schema, Column, col, alias, vector_to_array, column_name, column_type, data_alias, label_alias,
  row_number_alias,
}
use spark_rapids_ml.Core.Features.{Selection, type_at, single_column, pre_process_columns}
use spark_rapids_ml.Knn.Columns.{data_columns, knn_pre_process}

-- The type of the data column for the type of the input column.
abbrev pub data_type : DataType → Option DataType
data_type (array_of k) = some (array_of k)
data_type array_other = some array_other
data_type vector = some (array_of float)
data_type _ = none

-- What is selected for a single input column whose data column has this type, if it has one.
abbrev pub Selects : Schema → String → Option DataType → Result Selection → Type 0
Selects schema id_col none res = res ≡ err value_error
Selects schema id_col (some t) res =
    (s : Selection) × (column : Column) × (res ≡ ok s)
    × (s.select_cols ≡ column ∷ col label_alias ∷ alias (col id_col) row_number_alias ∷ [])
    × (column_name column ≡ data_alias)
    × (column_type schema column ≡ some t)

abbrev one : Column → String → ℕ → FloatKind → Selection
one column id_col n k = record {
  select_cols = column ∷ col label_alias ∷ alias (col id_col) row_number_alias ∷ [];
  multi_col_names = none;
  dimension = n;
  feature_type = k;
}

-- For a single input column of arrays or vectors, the data, the label and the id are selected, in
-- this order, under the aliases that the tasks read. A column of vectors is converted to arrays of
-- floats; a column of arrays keeps the type of its elements, doubles included. Any other input
-- column is refused with `ValueError`. Assumed: the column is there, and a value is in the first row.
pub knn_pre_process-Selects :
    {F : Type 0} (schema : Schema) (first_length : String → Result ℕ) (c id_col : String)
    (rest : Option (Value F)) (t : DataType) (n : ℕ)
    → get schema c ≡ some t
    → first_length c ≡ ok n
    → Selects schema id_col
        (data_type t)
        (knn_pre_process schema first_length (some (str c), rest) (some id_col))
unfolding knn_pre_process pre_process_columns type_at single_column data_columns
knn_pre_process-Selects schema fl c id_col rest (array_of k) n e f = (
  one (alias (col c) data_alias) id_col n k,
  alias (col c) data_alias,
  ground arith,
  refl,
  refl,
  e,
)
knn_pre_process-Selects schema fl c id_col rest array_other n e f = (
  one (alias (col c) data_alias) id_col n float,
  alias (col c) data_alias,
  ground arith,
  refl,
  refl,
  e,
)
knn_pre_process-Selects schema fl c id_col rest vector n e f = (
  one (alias (vector_to_array (col c) float) data_alias) id_col n double,
  alias (vector_to_array (col c) float) data_alias,
  ground arith,
  refl,
  refl,
  ground arith,
)
knn_pre_process-Selects schema fl c id_col rest integral n e f = ground arith
knn_pre_process-Selects schema fl c id_col rest (floating k) n e f = ground arith
knn_pre_process-Selects schema fl c id_col rest other_type n e f = ground arith
