-- ===== src/Tests/Setters.antt =====
-- Setters of KMeans and of the random forest classifier, over a table.
use spark_rapids_ml.Base.{ℕ, ◌≡◌, refl, String, none, some, List, [], ◌∷◌}
use spark_rapids_ml.Py.{ok}
use spark_rapids_ml.Py.Dict.{get, put}
use spark_rapids_ml.Py.Value.{pos, Value, int, str, strs}
use spark_rapids_ml.Params.Class.{CumlClass}
use spark_rapids_ml.Params.Values.{Instance, set_cuml_param}
use spark_rapids_ml.Params.Set.{sets_both_sides, set_spark, set_param, set_each, set_params}
use spark_rapids_ml.Algorithms.Classes.{kmeans_class}
use spark_rapids_ml.Algorithms.Setters.{set_one, set_features_col, set_num_trees, get_features_col}
use spark_rapids_ml.Algorithms.FeaturesCol.{get_features_col-set_many, set_num_trees-unsynced}
use spark_rapids_ml.Tests.Table.{table_params, table-IsLawful}

abbrev kmeans : CumlClass ℕ
kmeans = kmeans_class []

-- `featuresCols` is declared, and holds `columns` if it is set.
abbrev estimator : List (String × Value ℕ) → Instance table_params
estimator values = record {
  spark = record {
    declared =
        ("featuresCol", some (str "features"))
        ∷ ("featuresCols", none)
        ∷ ("seed", some (int (pos 1)))
        ∷ ("numTrees", some (int (pos 20)))
        ∷ [];
    values = values;
  };
  cuml = ("random_state", int (pos 1)) ∷ ("n_estimators", int (pos 20)) ∷ [];
  num_workers = int (pos 1);
}

abbrev names : List String
names = "x" ∷ "y" ∷ []

many_runs : (set_features_col {P = table_params} kmeans (strs names) (estimator [])).0 ≡ ok tt
unfolding set_features_col set_one set_params set_each set_param sets_both_sides set_spark
    set_cuml_param get put
many_runs = refl

get_features_col-set_many_example :
    get_features_col table_params (set_features_col kmeans (strs names) (estimator [])).1.spark
    ≡ ok (strs names)
unfolding get
get_features_col-set_many_example =
    get_features_col-set_many kmeans table-IsLawful (estimator []) names refl refl many_runs

abbrev with_columns : Instance table_params
with_columns = estimator (("featuresCols", strs names) ∷ [])

single_runs : (set_features_col {P = table_params} kmeans (str "z") with_columns).0 ≡ ok tt
unfolding set_features_col set_one set_params set_each set_param sets_both_sides set_spark
    set_cuml_param get put
single_runs = refl

trees_run : (set_num_trees {P = table_params} (int (pos 50)) (estimator [])).0 ≡ ok tt
unfolding set_num_trees set_spark get
trees_run = refl

set_num_trees-unsynced_example :
    (table_params.get
        (set_num_trees {P = table_params} (int (pos 50)) (estimator [])).1.spark
        "numTrees"
      ≡ ok (int (pos 50)))
    × ((set_num_trees {P = table_params} (int (pos 50)) (estimator [])).1.cuml
        ≡ (estimator []).cuml)
set_num_trees-unsynced_example =
    set_num_trees-unsynced table-IsLawful (int (pos 50)) (estimator []) trees_run
