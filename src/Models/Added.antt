-- ===== src/Models/Added.antt =====
-- The columns that the transforms of the models of clustering.py, feature.py, regression.py, tree.py
-- and classification.py add.
use spark_rapids_ml.Base.{String, ◌≡◌, true, false, Option, some}
use spark_rapids_ml.Py.{Result, ok}
use spark_rapids_ml.Py.Value.{str}
use spark_rapids_ml.Params.Spark.{SparkParams}
use spark_rapids_ml.Utils.Devices.{Dtype, dtype_to_pyspark_type}
use spark_rapids_ml.Core.Transform.{Target, single, structured}
use spark_rapids_ml.Core.Names.{
  Mixins, of_base, of_kmeans, of_pca, get_prediction_name, target, target-added,
}
use spark_rapids_ml.Models.Rows.{
  Algorithm, kmeans, pca, linear_regression, random_forest_regressor, random_forest_classifier,
}

-- _CumlModelSupervised has the prediction column.
unfoldable pub mixins_of : Algorithm → Mixins
mixins_of kmeans = record {
  has_prediction_col = true;
  has_output_col = false;
  has_probability_col = false;
  schema_of = of_kmeans;
}
mixins_of pca = record {
  has_prediction_col = false;
  has_output_col = true;
  has_probability_col = false;
  schema_of = of_pca;
}
mixins_of random_forest_classifier = record {
  has_prediction_col = true;
  has_output_col = false;
  has_probability_col = true;
  schema_of = of_base;
}
mixins_of _ = record {
  has_prediction_col = true;
  has_output_col = false;
  has_probability_col = false;
  schema_of = of_base;
}

module _ {F : Type 0} (P : SparkParams F) where
  unfoldable pub model_target : Algorithm → Option Dtype → P.State → Result Target
  model_target a dtype s = target P (mixins_of a) dtype s

  -- The param that names the column of the predictions.
  abbrev pub name_param : Algorithm → String
  name_param pca = "outputCol"
  name_param _ = "predictionCol"

  -- The params that hold the names, as far as the model reads them.
  abbrev pub HasNames : Algorithm → P.State → String → Type 0
  HasNames random_forest_classifier s probability_col =
      P.get s "probabilityCol" ≡ ok (str probability_col)
  HasNames _ s probability_col = Unit

  abbrev pub columns_added : Algorithm → String → String → Target
  columns_added random_forest_classifier pred_name probability_col =
      structured pred_name (some probability_col)
  columns_added _ pred_name probability_col = single pred_name

  -- The random forest classifier adds the prediction column and the probability column under the
  -- names that are set, PCA adds the output column alone, and KMeans, linear regression and the
  -- random forest regressor the prediction column alone. Assumed: Spark has a type for the model's
  -- dtype, and the params hold the names.
  pub model_target-columns :
      (a : Algorithm) (dtype : Dtype) (s : P.State) (t pred_name probability_col : String)
      → dtype_to_pyspark_type dtype ≡ ok t
      → P.get s (name_param a) ≡ ok (str pred_name)
      → HasNames a s probability_col
      → model_target a (some dtype) s ≡ ok (columns_added a pred_name probability_col)
  unfolding model_target mixins_of get_prediction_name
  model_target-columns kmeans dtype s t pred_name pc h p q =
      target-added P (mixins_of kmeans) dtype s t pred_name pc h p (λ e. cc)
  model_target-columns pca dtype s t pred_name pc h p q =
      target-added P (mixins_of pca) dtype s t pred_name pc h p (λ e. cc)
  model_target-columns linear_regression dtype s t pred_name pc h p q =
      target-added P (mixins_of linear_regression) dtype s t pred_name pc h p (λ e. cc)
  model_target-columns random_forest_regressor dtype s t pred_name pc h p q =
      target-added P (mixins_of random_forest_regressor) dtype s t pred_name pc h p (λ e. cc)
  model_target-columns random_forest_classifier dtype s t pred_name pc h p q =
      target-added P (mixins_of random_forest_classifier) dtype s t pred_name pc h p (λ e. q)
