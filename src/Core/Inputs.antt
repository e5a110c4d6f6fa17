-- ===== src/Core/Inputs.antt =====
-- The loop of `_train_udf` in `_CumlCaller._call_cuml_fit_func` over the pandas frames of a
-- partition: what is handed to the fit function.
use spark_rapids_ml.Base.{ℕ, String, Option, none, some, List, [], ◌∷◌}
use spark_rapids_ml.Py.{Result, ok, err, key_error, bind}
use spark_rapids_ml.Py.Dict.{Dict, get}
use spark_rapids_ml.Core.Columns.{data_alias, label_alias, row_number_alias}

-- A pandas frame with columns of type `Y`.
pub record Pdf (Y : Type 0) : Type 0 where
  pub columns : Dict Y
  -- shape[0]
  pub num_rows : ℕ

-- Some columns of the frame, or a column of arrays as one array of type `X`.
pub data Features (X Y : Type 0) : Type 0 where
  many : Dict Y → Features X Y
  stacked : X → Features X Y

-- (features, label, row_number)
pub record Input (X Y : Type 0) : Type 0 where
  pub features : Features X Y
  pub label : Option Y
  pub row_number : Option Y

abbrev pub with_named : {Y : Type 0} → String → Option Y → Result (Dict Y) → Result (Dict Y)
with_named c none rest = err key_error
with_named c (some y) rest = bind rest (λ d. ok ((c, y) ∷ d))

-- pdf[names]
unfoldable pub select : {Y : Type 0} → Dict Y → List String → Result (Dict Y)
select d [] = ok []
select d (c ∷ names) = with_named c (get d c) (select d names)

-- np.array(list(pdf[alias.data]), order=array_order)
abbrev pub stack : {X Y : Type 0} → (Y → Result X) → Option Y → Result (Features X Y)
stack to_array none = err key_error
stack to_array (some y) = bind (to_array y) (λ x. ok (stacked x))

-- `if multi_col_names`: an empty list is false
unfoldable pub read_features :
    {X Y : Type 0} → (Y → Result X) → Option (List String) → Dict Y → Result (Features X Y)
unfolding select
read_features to_array none d = stack to_array (get d data_alias)
read_features to_array (some []) d = stack to_array (get d data_alias)
read_features to_array (some (c ∷ names)) d = bind (select d (c ∷ names)) (λ e. ok (many e))

unfoldable pub read_input :
    {X Y : Type 0} → (Y → Result X) → Option (List String) → Pdf Y → Result (Input X Y)
unfolding read_features
read_input to_array multi_col_names pdf =
    bind (read_features to_array multi_col_names pdf.columns) (λ f. ok (record {
      features = f;
      label = get pdf.columns label_alias;
      row_number = get pdf.columns row_number_alias;
    }))

unfoldable pub read_inputs :
    {X Y : Type 0}
    → (Y → Result X)
    → Option (List String)
    → List (Pdf Y)
    → Result (List (Input X Y))
unfolding read_input
read_inputs to_array multi_col_names [] = ok []
read_inputs to_array multi_col_names (pdf ∷ pdf_iter) =
    bind (read_input to_array multi_col_names pdf)
      (λ i. bind (read_inputs to_array multi_col_names pdf_iter) (λ rest. ok (i ∷ rest)))
