-- ===== src/Tree/Fit.antt =====
-- `_RandomForestEstimator._get_cuml_fit_func` and `_RandomForestModel._get_cuml_transform_func`.
use spark_rapids_ml.Base.{
  ℕ, zero, suc, String, Bool, false, Option, none, some, List, [], ◌∷◌, str_eq, ◌==◌, if◌then◌else◌,
  get_elem?,
}
use spark_rapids_ml.Py.{Result, ok, err, key_error, index_error, bind}
use spark_rapids_ml.Py.Dict.{Dict, get, put, remove}
use spark_rapids_ml.Py.Value.{Value, float, str, Floats}
use spark_rapids_ml.Utils.Partitions.{Codec}

-- cuML's random forests. `Data` is the joined training data of a worker.
pub record Forests (F Data : Type 0) : Type 1 where
  pub Forest : Type 0
  pub Tree : Type 0
  pub trees : Forest → List Tree
  -- the constructor for a classifier or a regressor, with `n_estimators` and the other params,
  -- then `fit`, and the model as it is serialized
  pub train : Bool → ℕ → Dict (Value F) → Data → Result Forest
  -- `_concatenate_treelite_handle`, and the model as it is serialized
  pub concatenate : List Forest → Result Forest
  pub dtype : Forest → String
  pub n_cols : Forest → ℕ
  pub num_classes : Forest → ℕ

-- The row that worker 0 returns; `num_classes` is there for a classifier alone.
pub record ForestRow (M : Type 0) : Type 0 where
  pub treelite_model : M
  pub dtype : String
  pub n_cols : ℕ
  pub num_classes : Option ℕ

module _ {F : Type 0} (O : Floats F) where
  abbrev pub is_auto : Value F → Bool
  is_auto (str s) = str_eq s "auto"
  is_auto _ = false

  unfoldable pub auto_max_features : Bool → ℕ → Value F
  auto_max_features is_classification total_trees =
      if total_trees == 1
      then float O.one
      else if is_classification
      then str "sqrt"
      else float O.third

  -- rf_params["max_features"] in place of "auto"
  abbrev pub with_max_features :
      Bool → ℕ → Dict (Value F) → Option (Value F) → Result (Dict (Value F))
  with_max_features is_classification total_trees params none = err key_error
  with_max_features is_classification total_trees params (some v) = ok (
      if is_auto v
      then put params "max_features" (auto_max_features is_classification total_trees)
      else params)

  -- rf_params.pop("n_estimators"), and the value of max_features
  unfoldable pub rf_params : Bool → ℕ → Dict (Value F) → Result (Dict (Value F))
  unfolding auto_max_features
  rf_params is_classification total_trees params = elim (get params "n_estimators") [
    | none ↦ err key_error
    | some n ↦
        let params' = remove params "n_estimators" in
        with_max_features is_classification total_trees params' (get params' "max_features")
  ]

module _ {F Data M : Type 0} (O : Floats F) (W : Forests F Data) (pickle : Codec M W.Forest) where
  abbrev pub nth_share : Option ℕ → Result ℕ
  nth_share none = err index_error
  nth_share (some n) = ok n

  -- The forest that a worker trains, with its share of the trees if it has one.
  -- The batches are joined last, which may fail.
  unfoldable pub train_share : Bool → ℕ → Dict (Value F) → Option ℕ → Result Data → Result W.Forest
  train_share is_classification total_trees params share joined =
      bind (rf_params O is_classification total_trees params) (λ given.
        bind (nth_share share) (λ n_estimators.
          bind joined (λ batch. W.train is_classification n_estimators given batch)))

  unfoldable pub load_forests : List M → Result (List W.Forest)
  load_forests [] = ok []
  load_forests (message ∷ messages) =
      bind (pickle.loads message) (λ f. bind (load_forests messages) (λ fs. ok (f ∷ fs)))

  abbrev pub row_of : Bool → W.Forest → ForestRow M
  row_of is_classification f = record {
    treelite_model = pickle.dumps f;
    dtype = W.dtype f;
    n_cols = W.n_cols f;
    num_classes = if is_classification then some (W.num_classes f) else none;
  }

  -- Worker 0 joins the forests of all workers; the others return an empty dict.
  abbrev pub join_forests : Bool → ℕ → List M → Result (Option (ForestRow M))
  join_forests is_classification zero messages =
      bind (load_forests messages)
        (λ fs. bind (W.concatenate fs) (λ f. ok (some (row_of is_classification f))))
  join_forests is_classification (suc part_id) messages = ok none

  unfoldable pub rf_fit :
      Bool
      → ℕ
      → List ℕ
      → ℕ
      → (M → List M)
      → Dict (Value F)
      → Result Data
      → Result (Option (ForestRow M))
  unfolding train_share load_forests
  rf_fit is_classification total_trees shares part_id all_gather params joined =
      bind (train_share is_classification total_trees params (get_elem? shares part_id) joined)
        (λ f. join_forests is_classification part_id (all_gather (pickle.dumps f)))

  -- `_construct_rf`, which a model's transform calls on each executor
  unfoldable pub construct_rf : M → Result W.Forest
  construct_rf treelite_model = bind (pickle.loads treelite_model) (λ f. W.concatenate (f ∷ []))
