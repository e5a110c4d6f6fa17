-- ===== src/Tree/Task.antt =====
-- `_rf_fit` of `_RandomForestEstimator._get_cuml_fit_func` in the task of a partition: the batches
-- are joined, and the partition's id is the worker's rank.
use spark_rapids_ml.Base.{ℕ, Bool, Option, List, [], ◌∷◌, map}
use spark_rapids_ml.Py.{Result, ok, err, index_error, type_error, bind}
use spark_rapids_ml.Py.Dict.{Dict}
use spark_rapids_ml.Py.Value.{Floats}
use spark_rapids_ml.Utils.Partitions.{Codec}
use spark_rapids_ml.Core.Inputs.{Features, many, stacked, Input}
use spark_rapids_ml.Core.Train.{FitParams}
use spark_rapids_ml.Tree.Fit.{Forests, ForestRow, rf_fit}

-- pd.concat of frames and of labels, and _concat_and_free of arrays and of labels
pub record BatchJoins (X Y : Type 0) : Type 0 where
  pub concat_frames : List (Dict Y) → Result (Dict Y)
  pub concat_labels : List (Option Y) → Result Y
  pub free_arrays : List X → Result X
  pub free_labels : List (Option Y) → Result Y

-- (X, y)
abbrev pub JoinedInputs : Type 0 → Type 0 → Type 0
JoinedInputs X Y = Features X Y × Y

module _ {X Y : Type 0} where
  -- All batches of a partition are read in one way; frames are not joined with arrays.
  unfoldable pub all_frames : List (Features X Y) → Result (List (Dict Y))
  all_frames [] = ok []
  all_frames (many d ∷ xs) = bind (all_frames xs) (λ rest. ok (d ∷ rest))
  all_frames (stacked x ∷ xs) = err type_error

  unfoldable pub all_arrays : List (Features X Y) → Result (List X)
  all_arrays [] = ok []
  all_arrays (many d ∷ xs) = err type_error
  all_arrays (stacked x ∷ xs) = bind (all_arrays xs) (λ rest. ok (x ∷ rest))

  module _ (J : BatchJoins X Y) where
    -- The first of X_list tells how they are joined.
    unfoldable pub join_lists : List (Features X Y) → List (Option Y) → Result (JoinedInputs X Y)
    unfolding all_frames all_arrays
    join_lists [] y_list = err index_error
    join_lists (many d ∷ xs) y_list =
        bind (bind (all_frames (many d ∷ xs)) J.concat_frames)
          (λ x. bind (J.concat_labels y_list) (λ y. ok (many x, y)))
    join_lists (stacked a ∷ xs) y_list =
        bind (bind (all_arrays (stacked a ∷ xs)) J.free_arrays)
          (λ x. bind (J.free_labels y_list) (λ y. ok (stacked x, y)))

    unfoldable pub join_inputs : List (Input X Y) → Result (JoinedInputs X Y)
    unfolding join_lists
    join_inputs dfs = join_lists (map (λ i. i.features) dfs) (map (λ i. i.label) dfs)

module _ {F X Y M Comms : Type 0} (O : Floats F) (J : BatchJoins X Y)
    (W : Forests F (JoinedInputs X Y)) (pickle : Codec M W.Forest) where
  -- `all_gather` is that of the task of a rank.
  unfoldable pub rf_task :
      Bool
      → ℕ
      → List ℕ
      → (ℕ → M → List M)
      → ℕ
      → ℕ
      → List (Input X Y)
      → FitParams F Comms
      → Result (Option (ForestRow M))
  rf_task is_classification total_trees shares all_gather part_id gpu dfs params =
      rf_fit O W pickle is_classification total_trees shares part_id (all_gather part_id)
        params.cuml_init (join_inputs J dfs)
