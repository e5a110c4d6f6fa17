-- ===== src/Core/Predict.antt =====
-- `predict_udf` of `_CumlModelWithColumns._transform`: the predictions, by the tasks that run on the
-- partitions of the rows.
use spark_rapids_ml.Base.{ℕ, String, Option, none, some, List, [], ◌∷◌, map, flatten, replicate}
use spark_rapids_ml.Py.{Result, ok, err, key_error, bind}
use spark_rapids_ml.Py.Dict.{Dict, get}
use spark_rapids_ml.Core.Transform.{Content, vectors, arrays, others, Dataset, Predict}
use spark_rapids_ml.Core.Udf.{Udf, map_in_pandas}

abbrev pub cells_of : {A : Type 0} → Content (List A) → List A
cells_of (vectors x) = x
cells_of (arrays x) = x
cells_of (others x) = x

-- The rows with a further cell in front.
abbrev pub with_cells : {A : Type 0} → String → List A → List (Dict A) → List (Dict A)
with_cells c [] rows = []
with_cells c (x ∷ xs) [] = []
with_cells c (x ∷ xs) (row ∷ rows) = ((c, x) ∷ row) ∷ with_cells c xs rows

abbrev pub with_field :
    {A : Type 0}
    → String
    → Option (Content (List A))
    → Result (List (Dict A))
    → Result (List (Dict A))
with_field c none rest = err key_error
with_field c (some x) rest = bind rest (λ rows. ok (with_cells c (cells_of x) rows))

-- struct(*select_cols), for a dataset of `n` rows
unfoldable pub struct_rows :
    {A : Type 0} → ℕ → Dataset (List A) → List String → Result (List (Dict A))
struct_rows n d [] = ok (replicate n [])
struct_rows n d (c ∷ names) = with_field c (get d c) (struct_rows n d names)

-- The rows are divided into partitions and batches by Spark, and each task yields the predictions
-- for its batches. Where the model has no probabilities the second cell is not used.
module _ {A X Object : Type 0} (U : Udf (Dict A) X (A × A) Object)
    (divide : List (Dict A) → List (List (List (Dict A)))) where
  unfoldable pub predict_udf : ℕ → Predict (List A)
  predict_udf n d select_cols input_is_multi_cols = bind (struct_rows n d select_cols) (λ rows.
      bind (map_in_pandas U 0 select_cols input_is_multi_cols (divide rows))
        (λ result. let ys = flatten (flatten result) in ok (map (λ y. y.0) ys, map (λ y. y.1) ys)))
