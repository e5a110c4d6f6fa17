-- ===== src/Models/PredictLaws.antt =====
-- From the row of a fit to the predictions of a dataset.
use spark_rapids_ml.Base.{
  ℕ, String, ◌≡◌, ◌≢◌, sym, ap, ◌∙◌, true, Option, some, List, map, flatten, length, All,
}
use spark_rapids_ml.Py.{Result, ok, bind}
use spark_rapids_ml.Py.Dict.{Dict, get}
use spark_rapids_ml.Py.Value.{Value, str}
use spark_rapids_ml.Params.Spark.{SparkParams}
use spark_rapids_ml.Utils.Devices.{Dtype, dtype_to_pyspark_type, set_gpu_device}
use spark_rapids_ml.Core.Transform.{Dataset, Prepared, prepare, transform, tmp_name}
use spark_rapids_ml.Core.TransformLaws.{added, read_as, names_of, are_many}
use spark_rapids_ml.Core.Udf.{Udf, IsRowWise}
use spark_rapids_ml.Core.Predict.{predict_udf}
use spark_rapids_ml.Core.TableLaws.{IsTable, AreRows}
use spark_rapids_ml.Core.PredictLaws.{scores, transform-rows}
use spark_rapids_ml.Models.Rows.{Attribute, Fitted, algorithm_of, fit_row, construct}
use spark_rapids_ml.Models.Objects.{
  CumlObject, HasDtype, object_of, construct_object, construct_object-Fitted,
}
use spark_rapids_ml.Models.Added.{
  model_target, model_target-columns, name_param, HasNames, columns_added,
}
use spark_rapids_ml.Models.Predict.{Predictor, model_udf}
use spark_rapids_ml.Models.Scores.{Predicts, model_predict-map}

module _ {F Forest X A : Type 0} (C : Predictor F Forest X A) (astype : String → F → F)
    (load_forest : String → Result Forest) (U : Udf (Dict A) X (A × A) (CumlObject F Forest))
    (divide : List (Dict A) → List (List (List (Dict A)))) where
  -- A task finds its device.
  abbrev pub FindsDevices : Type 0
  FindsDevices =
      (i : ℕ)
      → (gpu : ℕ) × (set_gpu_device U.parse_address U.total_gpus (some (U.context i)) U.is_local
            true
          ≡ ok gpu)

  model_udf-IsRowWise :
      (params : Dict (Value F)) (f : Fitted F) (object : CumlObject F Forest)
      (attributes : Dict (Attribute F)) (score : X → A × A)
      → HasDtype astype load_forest f
      → object_of astype load_forest params f ≡ ok object
      → construct (algorithm_of f) (fit_row f) ≡ ok attributes
      → Predicts C f object score
      → FindsDevices
      → IsRowWise (model_udf C astype load_forest U (algorithm_of f) params attributes) object score
  unfolding model_udf
  model_udf-IsRowWise params f object attributes score typed o e h devices = record {
    device = devices;
    construct_lem = λ gpu.
        ap (λ r. bind r (construct_object astype load_forest (algorithm_of f) params)) (sym e)
        ∙ construct_object-Fitted astype load_forest params f typed
        ∙ o;
    transform_lem = λ xs.
        model_predict-map C astype load_forest params f object score attributes xs typed o e h;
  }

  module _ (P : SparkParams F) where
    -- The model that is made of the row of a fit transforms a dataset: the column of the predictions,
    -- under the name that is set, holds at each row what cuML predicts for what the row has in the
    -- input columns, with an object that has what cuML's object had after the fit, and that of a
    -- classifier's probabilities what cuML gives as such. For PCA the projected mean is added. Every
    -- other column is as it was, but a single input column of vectors has become one of arrays.
    -- Assumed: the fitted numbers are of the object's dtype, cuML predicts row by row, Spark has a type
    -- for the dtype and divides the rows in their order, the params hold the names, every task finds
    -- a device, the input columns can be prepared and are a table, and neither the name that is looked
    -- up nor that of an input column is the one that a column has in between.
    pub model-transform :
        (params : Dict (Value F)) (f : Fitted F) (object : CumlObject F Forest)
        (attributes : Dict (Attribute F)) (score : X → A × A) (struct : List A × List A → List A)
        (columns : Option (Value F) × Option (Value F)) (d : Dataset (List A))
        (p : Prepared (List A)) (n : ℕ) (dtype : Dtype) (s : P.State)
        (t pred_name probability_col k : String)
        → HasDtype astype load_forest f
        → object_of astype load_forest params f ≡ ok object
        → construct (algorithm_of f) (fit_row f) ≡ ok attributes
        → Predicts C f object score
        → FindsDevices
        → ((rows : List (Dict A)) → flatten (flatten (divide rows)) ≡ rows)
        → dtype_to_pyspark_type dtype ≡ ok t
        → P.get s (name_param P (algorithm_of f)) ≡ ok (str pred_name)
        → HasNames P (algorithm_of f) s probability_col
        → prepare d columns ≡ ok p
        → All (λ c. tmp_name ≢ c) (names_of columns)
        → IsTable n d (names_of columns)
        → tmp_name ≢ k
        → (rows : List (Dict A)) × (out : Dataset (List A)) × (length rows ≡ n)
          × AreRows d (names_of columns) 0 rows
          × (transform
                (predict_udf
                  (model_udf C astype load_forest U (algorithm_of f) params attributes)
                  divide
                  n)
                struct
                columns
                (model_target P (algorithm_of f) (some dtype) s)
                d
              ≡ ok out)
          × (get out k
              ≡ added
                  (columns_added P (algorithm_of f) pred_name probability_col)
                  (map
                    (λ y. y.0)
                    (scores U divide score (are_many columns) (names_of columns) rows))
                  (map
                    (λ y. y.1)
                    (scores U divide score (are_many columns) (names_of columns) rows))
                  k
                  (read_as columns k (get d k)))
    unfolding model_udf
    model-transform params f object attributes score struct columns d p n dtype s t pred_name
          probability_col k typed o e h devices divided q named names prepared fresh table ne =
        let W = model_udf-IsRowWise params f object attributes score typed o e h devices in
        let (rows, out, l, same, ran, found) =
          transform-rows (model_udf C astype load_forest U (algorithm_of f) params attributes)
            divide {F = F} struct columns
            (columns_added P (algorithm_of f) pred_name probability_col) d p n object score k W
            divided prepared fresh table ne in
        (
          rows,
          out,
          l,
          same,
          rw
              (model_target-columns P (algorithm_of f) dtype s t pred_name probability_col q named
                names)
              ran,
          found,
        )
