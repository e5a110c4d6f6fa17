-- ===== src/Knn/Stage.antt =====
-- `_cuml_fit` of knn.NearestNeighborsModel in the task of a partition, and the stage that
-- `kneighbors` runs with `partially_collect=False`.
use spark_rapids_ml.Base.{ℕ, false, Option, none, some, List, [], ◌∷◌, ◌++◌}
use spark_rapids_ml.Py.{Result, ok, err, key_error, type_error, bind}
use spark_rapids_ml.Py.Dict.{Dict, get}
use spark_rapids_ml.Py.Value.{pos, Value, int}
use spark_rapids_ml.Utils.Partitions.{Codec}
use spark_rapids_ml.Core.Inputs.{Features, Input, Pdf}
use spark_rapids_ml.Core.Train.{FitParams, Stage, call_cuml_fit_func}
use spark_rapids_ml.Knn.Fit.{Row, RankStat, Request, Neighbors, KnnResult, cuml_fit}
use spark_rapids_ml.Knn.Query.{PartRow, data_frame}

-- params[param_alias.cuml_init]["n_neighbors"], where "verbose" is read too
unfoldable pub count_of : {F : Type 0} → Option (Value F) → Result ℕ
count_of none = err key_error
count_of (some (int (pos k))) = ok k
count_of (some _) = err type_error

abbrev pub with_verbose : {F A : Type 0} → Option (Value F) → Result A → Result A
with_verbose none r = err key_error
with_verbose (some v) r = r

unfoldable pub n_neighbors_of : {F : Type 0} → Dict (Value F) → Result ℕ
n_neighbors_of params =
    bind (count_of (get params "n_neighbors")) (λ k. with_verbose (get params "verbose") (ok k))

-- Features as rows, and the numbers of a column of labels or ids.
pub record RowReading (X Y A : Type 0) : Type 0 where
  pub feature_rows : Features X Y → List A
  pub integers : Y → List ℕ

module _ {X Y A : Type 0} (V : RowReading X Y A) where
  -- The rows that the masks of a batch select from, which have one length.
  unfoldable pub zip_batch : List A → List ℕ → List ℕ → List (Row A)
  zip_batch (x ∷ xs) (l ∷ ls) (n ∷ ns) =
      record { x = x; label = l; row_number = n } ∷ zip_batch xs ls ns
  zip_batch _ _ _ = []

  -- A batch without labels or row numbers cannot be indexed.
  abbrev pub batch_rows : List A → Option Y → Option Y → Result (List (Row A))
  batch_rows xs (some l) (some n) = ok (zip_batch xs (V.integers l) (V.integers n))
  batch_rows xs _ _ = err type_error

  unfoldable pub all_batches : List (Input X Y) → Result (List (List (Row A)))
  unfolding zip_batch
  all_batches [] = ok []
  all_batches (i ∷ dfs) =
      bind (batch_rows (V.feature_rows i.features) i.label i.row_number)
        (λ rows. bind (all_batches dfs) (λ rest. ok (rows ∷ rest)))

module _ {F X Y A D M Comms : Type 0} (V : RowReading X Y A) (J : Codec M RankStat)
    (cuml : Comms → ℕ → Request A → Result (Neighbors D)) (all_gather : ℕ → M → List M)
    (isdata isquery : ℕ) where
  unfoldable pub knn_task : ℕ → ℕ → List (Input X Y) → FitParams F Comms → Result (KnnResult D)
  knn_task rank gpu dfs params = bind (n_neighbors_of params.cuml_init) (λ k.
      bind (all_batches V dfs) (λ batches.
        cuml_fit J (cuml params.comms rank) (all_gather rank) isdata isquery rank params.num_cols k
          batches))

  abbrev pub knn_stage : Stage F X Y Comms (KnnResult D) → Stage F X Y Comms (KnnResult D)
  knn_stage S = record S { partially_collect = false; fit = knn_task }

-- The rows of the data frames that the tasks yield.
unfoldable pub part_rows : {D : Type 0} → List (KnnResult D) → Result (List (PartRow D))
part_rows [] = ok []
part_rows (r ∷ results) =
    bind (data_frame r) (λ rows. bind (part_rows results) (λ rest. ok (rows ++ rest)))

-- self._call_cuml_fit_func(union_df, partially_collect=False)
unfoldable pub collected :
    {F X Y Comms D : Type 0}
    → Stage F X Y Comms (KnnResult D)
    → List (List (Pdf Y))
    → Result (List (PartRow D))
unfolding part_rows
collected S dataset = bind (call_cuml_fit_func S dataset) part_rows
