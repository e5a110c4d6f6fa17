-- ===== src/Core/SingleColumn.antt =====
-- What `_CumlCaller._pre_process_data` selects where there is a single input column.
use mathlib.Core.Path.{subst}
use spark_rapids_ml.Base.{ℕ, String, ◌≡◌, refl, ◌⊎◌, Option, none, some, [], ◌∷◌, arith, inl, inr}
use spark_rapids_ml.Py.{Result, ok, bind, bind-eq-ok, ok-injective}
use spark_rapids_ml.Py.Dict.{get}
use spark_rapids_ml.Py.Value.{Value, str}
use spark_rapids_ml.Core.Columns.{
  FloatKind, float, double, DataType, array_of, array_other, vector, Schema, Column, col, alias,
  vector_to_array, column_name, column_type, data_alias,
}
use spark_rapids_ml.Core.Features.{Selection, type_at, single_column, pre_process_columns}
use spark_rapids_ml.Core.Selection.{type_at-get}

-- One column is selected, under the alias of the data, and the dimension is the length of the
-- first row's value. The column is an array of the feature type, or an array of another type and
-- the feature type is float.
unfoldable pub SingleSelected : Schema → (String → Result ℕ) → String → Selection → Type 0
SingleSelected schema first_length c s =
    (column : Column) × (s.select_cols ≡ column ∷ [])
    × (column_name column ≡ data_alias)
    × (first_length c ≡ ok s.dimension)
    × (s.multi_col_names ≡ none)
    × ((column_type schema column ≡ some (array_of s.feature_type))
        ⊎ ((column_type schema column ≡ some array_other) × (s.feature_type ≡ float)))

abbrev single_result : Column → FloatKind → ℕ → Selection
single_result column k n = record {
  select_cols = column ∷ [];
  multi_col_names = none;
  dimension = n;
  feature_type = k;
}

vector_type :
    (schema : Schema) (c : String)
    → get schema c ≡ some vector
    → column_type schema (alias (vector_to_array (col c) double) data_alias)
      ≡ some (array_of double)
vector_type schema c e = ground arith

typed_single :
    (schema : Schema) (first_length : String → Result ℕ) (c : String) (t : DataType) (n : ℕ)
    (s : Selection)
    → get schema c ≡ some t
    → first_length c ≡ ok n
    → bind (single_column c t) (λ (column, k). ok (single_result column k n)) ≡ ok s
    → SingleSelected schema first_length c s
unfolding single_column SingleSelected
typed_single schema fl c (array_of k) n s e f h =
    subst (SingleSelected schema fl c) (ok-injective h)
      (alias (col c) data_alias, refl, refl, f, refl, inl e)
typed_single schema fl c array_other n s e f h =
    subst (SingleSelected schema fl c) (ok-injective h)
      (alias (col c) data_alias, refl, refl, f, refl, inr (e, refl))
typed_single schema fl c vector n s e f h = subst (SingleSelected schema fl c) (ok-injective h) (
  alias (vector_to_array (col c) double) data_alias,
  refl,
  refl,
  f,
  refl,
  inl (vector_type schema c e),
)
typed_single schema fl c _ n s e f h = cc

-- If a single column is pre-processed without an error, one column is selected, under the alias of
-- the data, and the dimension is the length of the first row's value. The selected column is an
-- array of the feature type, or an array of another type and the feature type is float.
pub pre_process_columns-single :
    {F : Type 0} (schema : Schema) (first_length : String → Result ℕ) (c : String)
    (rest : Option (Value F)) (s : Selection)
    → pre_process_columns schema first_length (some (str c), rest) ≡ ok s
    → SingleSelected schema first_length c s
unfolding pre_process_columns
pre_process_columns-single schema first_length c rest s h =
    let ((column, k), p, h₁) = bind-eq-ok (bind (type_at schema c) (single_column c)) _ h in
    let (n, q, h₂) = bind-eq-ok (first_length c) _ h₁ in
    let (t, e, r) = bind-eq-ok (type_at schema c) (single_column c) p in
    typed_single schema first_length c t n s (type_at-get schema c t e) q (rw r h₂)
