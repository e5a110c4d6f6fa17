-- ===== src/Models/Task.antt =====
-- The fit functions of PCA and of KMeans in the task of a partition.
use spark_rapids_ml.Base.{ℕ, String, some, List, [], ◌∷◌, map}
use spark_rapids_ml.Py.{Result, ok, err, index_error, type_error, bind}
use spark_rapids_ml.Py.Dict.{Dict}
use spark_rapids_ml.Py.Value.{Value}
use spark_rapids_ml.Utils.Partitions.{Codec, Part}
use spark_rapids_ml.Utils.Arrays.{NumPy}
use spark_rapids_ml.Core.Inputs.{Features, many, stacked, Input}
use spark_rapids_ml.Core.Train.{FitParams}
use spark_rapids_ml.Models.Rows.{Attribute}
use spark_rapids_ml.Models.Fitting.{
  PcaRequest, PcaAnswer, pca_fit, Inputs, frames, arrays, Concated, kmeans_fit,
}

module _ {F X Y M Comms : Type 0} where
  -- `all_gather` is that of the task of a rank, and `cuml` is PCAMG with its handle.
  unfoldable pub pca_task :
      Codec M (List Part)
      → (Comms → Dict (Value F) → PcaRequest (Features X Y) → Result (PcaAnswer F))
      → (ℕ → M → List M)
      → ℕ
      → ℕ
      → List (Input X Y)
      → FitParams F Comms
      → Result (Dict (Attribute F))
  pca_task J cuml all_gather rank gpu dfs params =
      pca_fit J (cuml params.comms) (some (rank, all_gather rank)) params.cuml_init
        params.part_sizes params.num_cols (map (λ i. i.features) dfs)

module _ {X Y : Type 0} where
  -- pd.concat refuses what is not a frame.
  unfoldable pub frames_of : List (Input X Y) → Result (List (Dict Y))
  frames_of [] = ok []
  frames_of (i ∷ dfs) = elim i.features [
    | many d ↦ bind (frames_of dfs) (λ ds. ok (d ∷ ds))
    | stacked x ↦ err type_error
  ]

  -- The features of a partition are of one kind, since the names of the columns are those of the
  -- stage: the case of a frame after an array does not arise.
  unfoldable pub arrays_of : List (Input X Y) → Result (List X)
  arrays_of [] = ok []
  arrays_of (i ∷ dfs) = elim i.features [
    | many d ↦ err type_error
    | stacked x ↦ bind (arrays_of dfs) (λ xs. ok (x ∷ xs))
  ]

  -- isinstance(df_list[0], pd.DataFrame)
  unfoldable pub df_list : List (Input X Y) → Result (Inputs (Dict Y) X)
  unfolding frames_of arrays_of
  df_list [] = err index_error
  df_list (i ∷ dfs) = elim i.features [
    | many d ↦ bind (frames_of (i ∷ dfs)) (λ ds. ok (frames ds))
    | stacked x ↦ bind (arrays_of (i ∷ dfs)) (λ xs. ok (arrays xs))
  ]

module _ {F Y Comms : Type 0} (N : NumPy) where
  -- `concat` is pd.concat, and `cuml` is KMeansMG with its handle.
  unfoldable pub kmeans_task :
      (List (Dict Y) → Result (Dict Y))
      → (Comms → Dict (Value F) → Concated (Dict Y) N.Array → Result (List (List F) × String))
      → ℕ
      → ℕ
      → List (Input N.Array Y)
      → FitParams F Comms
      → Result (Dict (Attribute F))
  kmeans_task concat cuml rank gpu dfs params =
      bind (df_list dfs) (λ batches.
        kmeans_fit N concat (cuml params.comms) params.cuml_init params.num_cols batches)
