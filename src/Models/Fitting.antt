-- ===== src/Models/Fitting.antt =====
-- The fit functions of KMeans and of PCA: what cuML is given, and the row that is returned.
use spark_rapids_ml.Base.{ℕ, String, Option, List, [], ◌∷◌}
use spark_rapids_ml.Py.{Result, ok, err, index_error, bind}
use spark_rapids_ml.Py.Dict.{Dict}
use spark_rapids_ml.Py.Value.{Value}
use spark_rapids_ml.Utils.Partitions.{Codec, Part, build}
use spark_rapids_ml.Utils.Arrays.{NumPy, c_order, concat_and_free}
use spark_rapids_ml.Models.Rows.{Attribute, Fitted, kmeans_fitted, pca_fitted, fit_row}

-- The batches of a worker: data frames, or arrays. The first one tells which.
pub data Inputs (Frame Array : Type 0) : Type 0 where
  frames : List Frame → Inputs Frame Array
  arrays : List Array → Inputs Frame Array

-- What `KMeansMG.fit` is given after the construction.
pub data Concated (Frame Array : Type 0) : Type 0 where
  concated_frame : Frame → Concated Frame Array
  concated_array : Array → Concated Frame Array

module _ {Frame : Type 0} (N : NumPy) where
  -- pd.concat, or _concat_and_free in the order of KMeans; without a batch the first is missing
  unfoldable pub concat_inputs :
      (List Frame → Result Frame) → Inputs Frame N.Array → Result (Concated Frame N.Array)
  concat_inputs concat (frames []) = err index_error
  concat_inputs concat (arrays []) = err index_error
  concat_inputs concat (frames (f ∷ fs)) = bind (concat (f ∷ fs)) (λ all. ok (concated_frame all))
  concat_inputs concat (arrays (a ∷ others)) =
      bind (concat_and_free N c_order (a ∷ others)).0 (λ all. ok (concated_array all))

module _ {F Frame : Type 0} (N : NumPy) where
  -- `cuml` is KMeansMG with its params: it returns the centers and the name of the dtype.
  unfoldable pub kmeans_fit :
      (List Frame → Result Frame)
      → (Dict (Value F) → Concated Frame N.Array → Result (List (List F) × String))
      → Dict (Value F)
      → ℕ
      → Inputs Frame N.Array
      → Result (Dict (Attribute F))
  unfolding concat_inputs
  kmeans_fit concat cuml cuml_init num_cols dfs = bind (concat_inputs N concat dfs) (λ concated.
      bind (cuml cuml_init concated)
        (λ (centers, dtype). ok (fit_row (kmeans_fitted centers num_cols dtype))))

-- The arguments of `PCAMG.fit`.
pub record PcaRequest (X : Type 0) : Type 0 where
  pub inputs : List X
  pub m : ℕ
  pub n : ℕ
  pub parts_rank_size : List Part
  pub rank : ℕ

-- What is read from cuML's object.
pub record PcaAnswer (F : Type 0) : Type 0 where
  pub mean : List F
  pub components : List (List F)
  pub explained_variance_ratio : List F
  pub singular_values : List F
  pub dtype : String

abbrev pub pca_row : {F : Type 0} → PcaAnswer F → ℕ → Fitted F
pca_row r num_cols =
    pca_fitted r.mean r.components r.explained_variance_ratio r.singular_values num_cols r.dtype

module _ {M X F : Type 0} where
  -- `context` is the barrier task's, which `PartitionDescriptor.build` asks for.
  unfoldable pub pca_fit :
      Codec M (List Part)
      → (Dict (Value F) → PcaRequest X → Result (PcaAnswer F))
      → Option (ℕ × (M → List M))
      → Dict (Value F)
      → List ℕ
      → ℕ
      → List X
      → Result (Dict (Attribute F))
  pca_fit J cuml context cuml_init part_sizes num_cols inputs =
      bind (build J context part_sizes num_cols) (λ pdesc.
        bind
          (cuml cuml_init (record {
            inputs = inputs;
            m = pdesc.m;
            n = pdesc.n;
            parts_rank_size = pdesc.parts_rank_size;
            rank = pdesc.rank;
          }))
          (λ r. ok (fit_row (pca_row r num_cols))))
