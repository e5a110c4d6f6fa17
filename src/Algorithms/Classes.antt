-- ===== src/Algorithms/Classes.antt =====
-- The class methods of the algorithms. The signatures of the cuML classes are arguments.
use spark_rapids_ml.Base.{none, some, [], ◌∷◌}
use spark_rapids_ml.Py.Dict.{put}
use spark_rapids_ml.Params.Class.{Signature, CumlClass}

-- clustering.KMeansClass
abbrev pub kmeans_class : {F : Type 0} → Signature F → CumlClass F
kmeans_class kmeans = record {
  cuml_cls = kmeans ∷ [];
  param_excludes = "handle" ∷ "output_type" ∷ [];
  param_mapping =
      ("distanceMeasure", none)
      ∷ ("initMode", some "init")
      ∷ ("k", some "n_clusters")
      ∷ ("initSteps", some "")
      ∷ ("maxIter", some "max_iter")
      ∷ ("seed", some "random_state")
      ∷ ("tol", some "tol")
      ∷ ("weightCol", none)
      ∷ [];
  param_value_mapping = [];
}

-- feature.PCAClass
abbrev pub pca_class : {F : Type 0} → Signature F → CumlClass F
pca_class pca = record {
  cuml_cls = pca ∷ [];
  param_excludes =
      "copy" ∷ "handle" ∷ "iterated_power" ∷ "output_type" ∷ "random_state" ∷ "tol" ∷ [];
  param_mapping = ("k", some "n_components") ∷ [];
  param_value_mapping = [];
}

-- regression.LinearRegressionClass
abbrev pub linear_regression_class :
    {F : Type 0} → Signature F → Signature F → Signature F → CumlClass F
linear_regression_class linear_regression ridge cd = record {
  cuml_cls = linear_regression ∷ ridge ∷ cd ∷ [];
  param_excludes = "handle" ∷ "output_type" ∷ [];
  param_mapping =
      ("aggregationDepth", some "")
      ∷ ("elasticNetParam", some "l1_ratio")
      ∷ ("epsilon", some "")
      ∷ ("fitIntercept", some "fit_intercept")
      ∷ ("loss", some "loss")
      ∷ ("maxBlockSizeInMB", some "")
      ∷ ("maxIter", some "max_iter")
      ∷ ("regParam", some "alpha")
      ∷ ("solver", some "solver")
      ∷ ("standardization", some "normalize")
      ∷ ("tol", some "tol")
      ∷ ("weightCol", none)
      ∷ [];
  param_value_mapping =
      ("loss", ("squaredError", some "squared_loss") ∷ ("huber", none) ∷ [])
      ∷ ("solver", ("auto", some "eig") ∷ ("normal", some "eig") ∷ ("l-bfgs", none) ∷ [])
      ∷ [];
}

-- tree._RandomForestClass; the first value is str(1 / 3.0).
abbrev pub random_forest_class : {F : Type 0} → Signature F → CumlClass F
random_forest_class base_random_forest = record {
  cuml_cls = base_random_forest ∷ [];
  param_excludes =
      "handle" ∷ "output_type" ∷ "accuracy_metric" ∷ "dtype" ∷ "criterion"
      ∷ "min_weight_fraction_leaf" ∷ "max_leaf_nodes" ∷ "min_impurity_split" ∷ "oob_score"
      ∷ "n_jobs" ∷ "warm_start" ∷ "class_weight" ∷ [];
  param_mapping =
      ("maxBins", some "n_bins")
      ∷ ("maxDepth", some "max_depth")
      ∷ ("numTrees", some "n_estimators")
      ∷ ("impurity", some "split_criterion")
      ∷ ("featureSubsetStrategy", some "max_features")
      ∷ ("bootstrap", some "bootstrap")
      ∷ ("seed", some "random_state")
      ∷ ("minInstancesPerNode", some "min_samples_leaf")
      ∷ ("minInfoGain", some "")
      ∷ ("maxMemoryInMB", some "")
      ∷ ("cacheNodeIds", some "")
      ∷ ("checkpointInterval", some "")
      ∷ ("subsamplingRate", some "")
      ∷ ("minWeightFractionPerNode", some "")
      ∷ ("weightCol", none)
      ∷ ("leafCol", none)
      ∷ [];
  param_value_mapping =
      (
        "max_features",
        ("onethird", some "0.3333333333333333")
            ∷ ("all", some "1.0")
            ∷ ("auto", some "auto")
            ∷ ("sqrt", some "sqrt")
            ∷ ("log2", some "log2")
            ∷ [],
      )
      ∷ [];
}

-- regression._RandomForestRegressorClass
abbrev pub random_forest_regressor_class : {F : Type 0} → Signature F → CumlClass F
random_forest_regressor_class base_random_forest =
    let base = random_forest_class base_random_forest in
    record base {
      param_value_mapping =
          put base.param_value_mapping "split_criterion" (("variance", some "mse") ∷ []);
    }

-- knn.NearestNeighborsClass
abbrev pub nearest_neighbors_class : {F : Type 0} → Signature F → Signature F → CumlClass F
nearest_neighbors_class nearest_neighbors nearest_neighbors_mg = record {
  cuml_cls = nearest_neighbors ∷ nearest_neighbors_mg ∷ [];
  param_excludes =
      "handle" ∷ "algorithm" ∷ "metric" ∷ "p" ∷ "algo_params" ∷ "metric_expanded" ∷ "metric_params"
      ∷ "output_type" ∷ [];
  param_mapping = ("k", some "n_neighbors") ∷ [];
  param_value_mapping = [];
}
