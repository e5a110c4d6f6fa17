-- ===== src/Core/Selection.antt =====
-- What `_CumlCaller._pre_process_data` selects where there are many input columns.
use mathlib.Core.Path.{subst}
use spark_rapids_ml.Base.{ℕ, String, ◌≡◌, refl, none, some, List, [], ◌∷◌, map, arith, length, All}
use spark_rapids_ml.Py.{Result, ok, err, bind, ok-injective}
use spark_rapids_ml.Py.Dict.{get}
use spark_rapids_ml.Py.Value.{strs}
use spark_rapids_ml.Core.Columns.{
  FloatKind, float, double, DataType, integral, floating, Schema, Column, col, alias, cast,
  column_name, column_type,
}
use spark_rapids_ml.Core.Features.{
  Selection, type_at, one_column, many_columns, pre_process_columns,
}

-- A column of floating type that is no wider than `k`.
abbrev pub Fits : Schema → FloatKind → Column → Type 0
Fits schema float c = column_type schema c ≡ some (floating float)
Fits schema double c = (k : FloatKind) × (column_type schema c ≡ some (floating k))

-- The loop never narrows the feature type.
abbrev pub Widens : FloatKind → FloatKind → Type 0
Widens double float = ⊥
Widens _ _ = Unit {0}

widen :
    (schema : Schema) (k k' : FloatKind) (c : Column)
    → Widens k k'
    → Fits schema k c
    → Fits schema k' c
widen schema float float c w h = h
widen schema float double c w h = (float, h)
widen schema double float c w h = elim w [ ]
widen schema double double c w h = h

Widens-trans : (i j k : FloatKind) → Widens i j → Widens j k → Widens i k
Widens-trans double float k w v = elim w [ ]
Widens-trans double double k w v = v
Widens-trans float j float w v = tt
Widens-trans float j double w v = tt

-- What the branches for one column give.
abbrev SelectsOne : Schema → String → FloatKind → Result (Column × FloatKind) → Type 0
SelectsOne schema c k (err e) = Unit
SelectsOne schema c k (ok (column, k')) =
    (column_name column ≡ c) × Fits schema k' column × Widens k k'

-- What the loop gives: the columns keep their names and their order, all are of floating type,
-- none is wider than the feature type, and that has only been widened.
abbrev pub SelectsMany :
    Schema → List String → FloatKind → Result (List Column × FloatKind) → Type 0
SelectsMany schema names k (err e) = Unit
SelectsMany schema names k (ok (columns, k')) =
    (map column_name columns ≡ names) × All (Fits schema k') columns × Widens k k'

cast_type :
    (schema : Schema) (c : String) (k : FloatKind) (t : DataType)
    → get schema c ≡ some t
    → column_type schema (alias (cast (col c) k) c) ≡ some (floating k)
cast_type schema c k t e = ground arith

one_column-Selects :
    (schema : Schema) (c : String) (k : FloatKind) (t : DataType)
    → get schema c ≡ some t
    → SelectsOne schema c k (one_column c k t)
unfolding one_column
one_column-Selects schema c float integral e = (refl, cast_type schema c float integral e, tt)
one_column-Selects schema c double integral e =
    (refl, (double, cast_type schema c double integral e), tt)
one_column-Selects schema c float (floating float) e = (refl, e, tt)
one_column-Selects schema c double (floating float) e = (refl, (float, e), tt)
one_column-Selects schema c float (floating double) e = (refl, (double, e), tt)
one_column-Selects schema c double (floating double) e = (refl, (double, e), tt)
one_column-Selects schema c k _ e = tt

cons-Selects :
    (schema : Schema) (c : String) (names : List String) (k k' : FloatKind) (column : Column)
    (r : Result (List Column × FloatKind))
    → SelectsOne schema c k (ok (column, k'))
    → SelectsMany schema names k' r
    → SelectsMany schema (c ∷ names) k (bind r (λ (columns, k''). ok (column ∷ columns, k'')))
cons-Selects schema c names k k' column (err e) h g = tt
cons-Selects schema c names k k' column (ok (columns, k'')) (n, f, w) (m, all, v) =
    (rw (n, m), (widen schema k' k'' column v f, all), Widens-trans k k' k'' w v)

step-Selects :
    (schema : Schema) (c : String) (names : List String) (k : FloatKind)
    (r : Result (Column × FloatKind))
    → SelectsOne schema c k r
    → ((k' : FloatKind) → SelectsMany schema names k' (many_columns schema k' names))
    → SelectsMany schema (c ∷ names) k (
        bind r (λ (column, k').
          bind (many_columns schema k' names) (λ (columns, k''). ok (column ∷ columns, k''))))
step-Selects schema c names k (err e) h ih = tt
step-Selects schema c names k (ok (column, k')) h ih =
    cons-Selects schema c names k k' column (many_columns schema k' names) h (ih k')

pub type_at-get :
    (schema : Schema) (c : String) (t : DataType) → type_at schema c ≡ ok t → get schema c ≡ some t
unfolding type_at
type_at-get schema c t h = ground arith

typed-Selects :
    (schema : Schema) (c : String) (names : List String) (k : FloatKind) (r : Result DataType)
    → type_at schema c ≡ r
    → ((k' : FloatKind) → SelectsMany schema names k' (many_columns schema k' names))
    → SelectsMany schema (c ∷ names) k (
        bind (bind r (one_column c k)) (λ (column, k').
          bind (many_columns schema k' names) (λ (columns, k''). ok (column ∷ columns, k''))))
typed-Selects schema c names k (err x) e ih = tt
typed-Selects schema c names k (ok t) e ih =
    step-Selects schema c names k (one_column c k t)
      (one_column-Selects schema c k t (type_at-get schema c t e)) ih

many_columns-Selects :
    (schema : Schema) (names : List String) (k : FloatKind)
    → SelectsMany schema names k (many_columns schema k names)
unfolding many_columns
many_columns-Selects schema [] float = (refl, tt, tt)
many_columns-Selects schema [] double = (refl, tt, tt)
many_columns-Selects schema (c ∷ names) k =
    typed-Selects schema c names k (type_at schema c) refl (many_columns-Selects schema names)

-- The columns have the names of the input columns in their order, all are of type float or double,
-- none is a double column unless the feature type is double, and the dimension is their number.
unfoldable pub ManySelected : Schema → List String → Selection → Type 0
ManySelected schema names s =
    (map column_name s.select_cols ≡ names)
    × All (Fits schema s.feature_type) s.select_cols
    × (s.multi_col_names ≡ some names)
    × (s.dimension ≡ length names)

many_result :
    (schema : Schema) (names : List String) (s : Selection) (r : Result (List Column × FloatKind))
    → SelectsMany schema names float r
    → bind r (λ (columns, k). ok (record {
      select_cols = columns;
      multi_col_names = some names;
      dimension = length names;
      feature_type = k;
    }))
      ≡ ok s
    → ManySelected schema names s
unfolding ManySelected
many_result schema names s (err e) g h = cc
many_result schema names s (ok (columns, k)) (n, f, w) h =
    subst (ManySelected schema names) (ok-injective h) (n, f, refl, refl)

-- If many columns are pre-processed without an error, the selected columns have the names of the
-- input columns in their order, all are of type float or double, none is a double column unless
-- the feature type is double, and the dimension is the number of input columns.
pub pre_process_columns-many :
    (F : Type 0) (schema : Schema) (first_length : String → Result ℕ) (names : List String)
    (s : Selection)
    → pre_process_columns {F = F} schema first_length (none, some (strs names)) ≡ ok s
    → ManySelected schema names s
unfolding pre_process_columns
pre_process_columns-many F schema first_length names s h =
    many_result schema names s (many_columns schema float names)
      (many_columns-Selects schema names float) h
