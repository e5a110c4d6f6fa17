-- ===== src/Models/FittingLaws.antt =====
-- What cuML is given by the fit functions of KMeans and PCA.
use spark_rapids_ml.Base.{ℕ, ◌≡◌, refl, String, some, List, ◌∷◌, get_elem?, sum, flatten, map, All}
use spark_rapids_ml.Py.{Result, ok}
use spark_rapids_ml.Py.Dict.{Dict}
use spark_rapids_ml.Py.Value.{Value}
use spark_rapids_ml.Utils.Partitions.{
  Codec, IsFaithful, Part, rank_size, messages_from, parts_from, build-Describes, Describes,
}
use spark_rapids_ml.Utils.Arrays.{
  IsFaithful as IsNumPy, NumPy, c_order, concat_and_free-rows, HasColumns,
}
use spark_rapids_ml.Models.Rows.{kmeans_fitted, fit_row}
use spark_rapids_ml.Models.Fitting.{
  arrays, Concated, concated_array, concat_inputs, kmeans_fit, PcaRequest, PcaAnswer, pca_row,
  pca_fit,
}

module _ {M X F : Type 0} where
  -- Each worker gives `PCAMG.fit` its own arrays with the row count of all the workers together, the
  -- parts of all of them in the order of their ranks, and its own rank, and returns the row of what
  -- cuML answers. Assumed: it receives the messages of all workers, with its own at its rank, and they
  -- are read back as they were written.
  pub pca_fit-row :
      (J : Codec M (List Part)) (cuml : Dict (Value F) → PcaRequest X → Result (PcaAnswer F))
      (workers : List (List ℕ)) (all_gather : M → List M) (rank num_cols : ℕ) (part_sizes : List ℕ)
      (cuml_init : Dict (Value F)) (inputs : List X) (r : PcaAnswer F)
      → IsFaithful J
      → all_gather (J.dumps (rank_size rank part_sizes)) ≡ messages_from J 0 workers
      → get_elem? workers rank ≡ some part_sizes
      → cuml cuml_init (record {
        inputs = inputs;
        m = sum (flatten workers);
        n = num_cols;
        parts_rank_size = parts_from 0 workers;
        rank = rank;
      })
        ≡ ok r
      → pca_fit J cuml (some (rank, all_gather)) cuml_init part_sizes num_cols inputs
        ≡ ok (fit_row (pca_row r num_cols))
  unfolding pca_fit Describes
  pca_fit-row J cuml workers all_gather rank num_cols part_sizes cuml_init inputs r L gathered own
        answered =
      let (d, built, (m, n, k, parts), _) =
        build-Describes J workers all_gather rank num_cols rank part_sizes part_sizes L gathered
          own in
      rw (built, m, n, k, parts, answered) refl

module _ {F Frame : Type 0} (N : NumPy) where
  -- A worker of KMeans gives cuML one array with the rows of all its batches, in their order, and
  -- returns the row of what cuML answers. Assumed: there is a batch, all arrays have the number of
  -- columns, and cuML's answer depends on the rows alone.
  pub kmeans_fit-row :
      (concat : List Frame → Result Frame)
      (cuml : Dict (Value F) → Concated Frame N.Array → Result (List (List F) × String))
      (cuml_init : Dict (Value F)) (num_cols : ℕ) (a : N.Array) (others : List N.Array)
      (centers : List (List F)) (dtype : String)
      → IsNumPy N
      → All (HasColumns N num_cols) (a ∷ others)
      → ((b : N.Array)
          → N.rows b ≡ flatten (map N.rows (a ∷ others))
          → cuml cuml_init (concated_array b) ≡ ok (centers, dtype))
      → kmeans_fit N concat cuml cuml_init num_cols (arrays (a ∷ others))
        ≡ ok (fit_row (kmeans_fitted centers num_cols dtype))
  unfolding kmeans_fit concat_inputs
  kmeans_fit-row concat cuml cuml_init num_cols a others centers dtype L wide answered =
      let (b, joined_b, same) = concat_and_free-rows N c_order num_cols a others L wide in
      rw (joined_b, answered b same) refl
