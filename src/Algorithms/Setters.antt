-- ===== src/Algorithms/Setters.antt =====
-- The setters of the estimators and models, each a call of `set_params`.
use spark_rapids_ml.Base.{ℕ, String, Bool, false, [], ◌∷◌, ltb, if◌then◌else◌}
use spark_rapids_ml.Py.{Result, err, value_error, runtime_error, Exec, raise}
use spark_rapids_ml.Py.Value.{ℤ, pos, negsuc, Value, int, str}
use spark_rapids_ml.Params.Spark.{SparkParams}
use spark_rapids_ml.Params.Class.{CumlClass}
use spark_rapids_ml.Params.Values.{Instance}
use spark_rapids_ml.Params.Set.{set_params, set_spark}

-- 0x07FFFFFFF
abbrev pub max_seed : ℕ
max_seed = 0x07FFFFFFF

abbrev pub exceeds : ℤ → ℕ → Bool
exceeds (pos n) bound = ltb bound n
exceeds (negsuc n) bound = false

module _ {F : Type 0} {P : SparkParams F} (C : CumlClass F) where
  -- setK, setMaxIter, setTol, setRegParam, setElasticNetParam, setLoss, setStandardization,
  -- setPredictionCol, setOutputCol, setIdCol and the like: one keyword.
  unfoldable pub set_one : String → Value F → Exec (Instance P) Unit
  set_one k v = set_params C ((k, v) ∷ [])

  -- setSeed of KMeans and of the random forests
  unfoldable pub set_seed : ℤ → Exec (Instance P) Unit
  unfolding set_one
  set_seed n = if exceeds n max_seed then raise value_error else set_one "seed" (int n)

  -- setFeaturesCol: one name, or many
  unfoldable pub set_features_col : Value F → Exec (Instance P) Unit
  unfolding set_one
  set_features_col (str c) = set_one "featuresCol" (str c)
  set_features_col v = set_one "featuresCols" v

  -- setInputCol: one name, or many
  unfoldable pub set_input_col : Value F → Exec (Instance P) Unit
  unfolding set_one
  set_input_col (str c) = set_one "inputCol" (str c)
  set_input_col v = set_one "inputCols" v

  -- setWeightCol of KMeans
  unfoldable pub set_weight_col : String → Exec (Instance P) Unit
  set_weight_col c = raise value_error

module _ {F : Type 0} {P : SparkParams F} where
  -- setNumTrees of RandomForestClassifier, which calls `_set` and not `set_params`
  unfoldable pub set_num_trees : Value F → Exec (Instance P) Unit
  set_num_trees v = set_spark "numTrees" v

  -- setLabelCol of the random forests, and setProbabilityCol of the classifier
  unfoldable pub set_label_col : Value F → Exec (Instance P) Unit
  set_label_col v = set_spark "labelCol" v

  unfoldable pub set_probability_col : Value F → Exec (Instance P) Unit
  set_probability_col v = set_spark "probabilityCol" v

module _ {F : Type 0} (P : SparkParams F) where
  -- getFeaturesCol
  unfoldable pub get_features_col : P.State → Result (Value F)
  get_features_col s =
      if P.is_defined s "featuresCols"
      then P.get s "featuresCols"
      else if P.is_defined s "featuresCol"
      then P.get s "featuresCol"
      else err runtime_error
