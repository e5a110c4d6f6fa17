-- ===== src/Core/Features.antt =====
-- `_CumlCaller._pre_process_data`.
use spark_rapids_ml.Base.{ℕ, String, Option, none, some, List, [], ◌∷◌, length}
use spark_rapids_ml.Py.{Result, ok, err, value_error, key_error, type_error, other_error, bind}
use spark_rapids_ml.Py.Dict.{get}
use spark_rapids_ml.Py.Value.{Value, str, strs}
use spark_rapids_ml.Core.Columns.{
  FloatKind, float, double, DataType, integral, floating, array_of, array_other, vector, Schema,
  Column, col, alias, cast, vector_to_array, data_alias,
}

-- (select_cols, multi_col_names, dimension, feature_type)
pub record Selection : Type 0 where
  pub select_cols : List Column
  pub multi_col_names : Option (List String)
  pub dimension : ℕ
  pub feature_type : FloatKind

-- dataset.schema[name].dataType
unfoldable pub type_at : Schema → String → Result DataType
type_at schema name = elim (get schema name) [ none ↦ err key_error | some t ↦ ok t ]

-- The branches on the type of a single input column.
unfoldable pub single_column : String → DataType → Result (Column × FloatKind)
single_column c (array_of k) = ok (alias (col c) data_alias, k)
single_column c array_other = ok (alias (col c) data_alias, float)
single_column c vector = ok (alias (vector_to_array (col c) double) data_alias, double)
single_column c _ = err value_error

-- The branches on the type of one of many columns, with the feature type so far.
unfoldable pub one_column : String → FloatKind → DataType → Result (Column × FloatKind)
one_column c k integral = ok (alias (cast (col c) k) c, k)
one_column c k (floating float) = ok (col c, k)
one_column c k (floating double) = ok (col c, double)
one_column c k _ = err value_error

-- The loop over the input columns.
unfoldable pub many_columns : Schema → FloatKind → List String → Result (List Column × FloatKind)
unfolding one_column
many_columns schema k [] = ok ([], k)
many_columns schema k (c ∷ names) = bind (bind (type_at schema c) (one_column c k)) (λ (column, k').
    bind (many_columns schema k' names) (λ (columns, k''). ok (column ∷ columns, k'')))

-- `first_length` is the length of a column's value in the first row; it fails if there is no row.
unfoldable pub pre_process_columns :
    {F : Type 0}
    → Schema
    → (String → Result ℕ)
    → Option (Value F) × Option (Value F)
    → Result Selection
unfolding single_column many_columns
pre_process_columns schema first_length (some (str c), _) =
    bind (bind (type_at schema c) (single_column c)) (λ (column, k). bind (first_length c) (λ n.
      ok (record {
        select_cols = column ∷ [];
        multi_col_names = none;
        dimension = n;
        feature_type = k;
      })))
pre_process_columns schema first_length (some _, _) = err key_error
pre_process_columns schema first_length (none, some (strs names)) =
    bind (many_columns schema float names) (λ (columns, k). ok (record {
      select_cols = columns;
      multi_col_names = some names;
      dimension = length names;
      feature_type = k;
    }))
pre_process_columns schema first_length (none, some _) = err type_error
pre_process_columns schema first_length (none, none) = err other_error
