-- ===== src/Models/Predict.antt =====
-- The second of the functions of `_get_cuml_transform_func`: what a model's object makes of a batch;
-- and the udf of a model.
use spark_rapids_ml.Base.{String, List, [], ◌∷◌, map}
use spark_rapids_ml.Py.{Result, ok, err, attribute_error, bind}
use spark_rapids_ml.Py.Dict.{Dict, get}
use spark_rapids_ml.Py.Value.{Value}
use spark_rapids_ml.Core.Udf.{Udf}
use spark_rapids_ml.Models.Rows.{Attribute, Algorithm, pca, random_forest_classifier}
use spark_rapids_ml.Models.Objects.{
  CumlObject, pca_object, numbers_field, matrix_field, text_field, construct_object,
}
use spark_rapids_ml.Models.Pca.{Projection, transformed_mean, transform_internal}

-- What `predict_proba` returns: a data frame for many columns, and an array otherwise. A row becomes
-- a cell of type `A`.
pub data Probabilities (A : Type 0) : Type 0 where
  probabilities_frame probabilities_array : List A → Probabilities A

-- cuML's predictions, and the cells that results are put in.
pub record Predictor (F Forest X A : Type 0) : Type 0 where
  pub predict : CumlObject F Forest → List X → Result (List A)
  pub predict_proba : CumlObject F Forest → List X → Result (Probabilities A)
  -- PCA's transform, on rows of numbers
  pub projection : Projection F
  pub row : X → List F
  pub cell : List F → A
  -- the value of a missing cell in pandas
  pub nan : A

-- pd.Series(probs.values.tolist()) or pd.Series(list(probs))
abbrev pub probability_series : {A : Type 0} → Probabilities A → List A
probability_series (probabilities_frame rows) = rows
probability_series (probabilities_array rows) = rows

-- pd.DataFrame of two series, which are joined by their positions
unfoldable pub data_frame_of : {A : Type 0} → A → List A → List A → List (A × A)
data_frame_of nan [] [] = []
data_frame_of nan (p ∷ ps) [] = (p, nan) ∷ data_frame_of nan ps []
data_frame_of nan [] (q ∷ qs) = (nan, q) ∷ data_frame_of nan [] qs
data_frame_of nan (p ∷ ps) (q ∷ qs) = (p, q) ∷ data_frame_of nan ps qs

module _ {F Forest X A : Type 0} (C : Predictor F Forest X A) where
  -- A series of predictions alone; the second cell is not used.
  abbrev pub prediction_series : List A → List (A × A)
  prediction_series ps = map (λ p. (p, C.nan)) ps

  -- `_predict` of the classifier
  unfoldable pub class_predict : CumlObject F Forest → List X → Result (List (A × A))
  class_predict object xs = bind (C.predict object xs) (λ ps.
      bind (C.predict_proba object xs)
        (λ probs. ok (data_frame_of C.nan ps (probability_series probs))))

  -- `_predict` of linear regression and the random forest regressor, and `_transform_internal` of
  -- KMeans
  unfoldable pub predict_series : CumlObject F Forest → List X → Result (List (A × A))
  predict_series object xs = bind (C.predict object xs) (λ ps. ok (prediction_series ps))

  -- pca_object.transform, on a row
  unfoldable pub object_transform : CumlObject F Forest → Result (List F → List F)
  object_transform (pca_object params components mean singular n_cols dtype) =
      ok (C.projection.cuml_transform mean components)
  object_transform _ = err attribute_error

  module _ (astype : String → F → F) where
    -- The mean that is added, which is computed of the model's mean and components.
    unfoldable pub model_mean : Dict (Attribute F) → Result (List F)
    unfolding numbers_field matrix_field text_field
    model_mean model = bind (numbers_field (get model "mean_")) (λ mean.
        bind (matrix_field (get model "components_")) (λ components.
          bind (text_field (get model "dtype"))
            (λ dtype. ok (transformed_mean C.projection astype dtype mean components))))

    -- `_transform_internal` of PCA, with cuML's object
    unfoldable pub pca_predict :
        Dict (Attribute F) → CumlObject F Forest → List X → Result (List (A × A))
    unfolding model_mean object_transform
    pca_predict model object xs = bind (model_mean model) (λ mean.
        bind (object_transform object) (λ transform. ok (
          prediction_series
            (map C.cell (transform_internal C.projection transform mean (map C.row xs))))))

    unfoldable pub model_predict :
        Algorithm → Dict (Attribute F) → CumlObject F Forest → List X → Result (List (A × A))
    unfolding class_predict predict_series pca_predict
    model_predict random_forest_classifier model object xs = class_predict object xs
    model_predict pca model object xs = pca_predict model object xs
    model_predict _ model object xs = predict_series object xs

-- The udf of a model whose attributes are these. The machine, and how a task reads a row, are those of
-- `U`.
module _ {F Forest R X A : Type 0} (C : Predictor F Forest X A) (astype : String → F → F)
    (load_forest : String → Result Forest) where
  unfoldable pub model_udf :
      Udf R X (A × A) (CumlObject F Forest)
      → Algorithm
      → Dict (Value F)
      → Dict (Attribute F)
      → Udf R X (A × A) (CumlObject F Forest)
  model_udf U a params model = record U {
    construct = λ gpu. construct_object astype load_forest a params model;
    transform = model_predict C astype a model;
  }
