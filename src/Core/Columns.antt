-- ===== src/Core/Columns.antt =====
-- Schemas, column expressions and their types, as pyspark.sql has them.
use spark_rapids_ml.Base.{String, Option, none, some}
use spark_rapids_ml.Py.Dict.{Dict, get}

-- FloatType and DoubleType
pub data FloatKind : Type 0 where
  float double : FloatKind

pub data DataType : Type 0 where
  -- Byte, Short, Integer and Long
  integral : DataType
  floating : FloatKind → DataType
  -- by the element type
  array_of : FloatKind → DataType
  array_other : DataType
  vector : DataType
  other_type : DataType

abbrev pub Schema : Type 0
Schema = Dict DataType

pub data Column : Type 0 where
  col : String → Column
  alias : Column → String → Column
  -- casts to a floating type, and to IntegerType
  cast : Column → FloatKind → Column
  cast_int : Column → Column
  -- vector_to_array with the dtype of its elements
  vector_to_array : Column → FloatKind → Column

-- The name of a column of the result of a `select`.
abbrev pub column_name : Column → String
column_name (col name) = name
column_name (alias c name) = name
column_name (cast c k) = column_name c
column_name (cast_int c) = column_name c
column_name (vector_to_array c k) = column_name c

-- The type of a column expression over a dataset; `none` where Spark cannot resolve it.
abbrev pub column_type : Schema → Column → Option DataType
column_type schema (col name) = get schema name
column_type schema (alias c name) = column_type schema c
column_type schema (cast c k) = elim (column_type schema c) [
  | none ↦ none
  | some t ↦ some (floating k)
]
column_type schema (cast_int c) = elim (column_type schema c) [
  | none ↦ none
  | some t ↦ some integral
]
column_type schema (vector_to_array c k) = elim (column_type schema c) [
  | none ↦ none
  | some t ↦ some (array_of k)
]

-- `Alias` of core.py
abbrev pub data_alias : String
data_alias = "cuml_values"

abbrev pub label_alias : String
label_alias = "cuml_label"

abbrev pub row_number_alias : String
row_number_alias = "unique_id"
