-- ===== src/Models/Scores.antt =====
-- What a model's object makes of a batch, row by row.
use spark_rapids_ml.Base.{String, ◌≡◌, refl, sym, ap, ◌∙◌, List, [], ◌∷◌, map, All}
use spark_rapids_ml.Py.{Result, ok, ok-injective}
use spark_rapids_ml.Py.Dict.{Dict, get, put}
use spark_rapids_ml.Py.Value.{Value}
use spark_rapids_ml.Models.Rows.{
  Attribute, Fitted, kmeans_fitted, pca_fitted, linear_fitted, regressor_fitted, classifier_fitted,
  algorithm_of, fit_row, construct,
}
use spark_rapids_ml.Models.Objects.{
  CumlObject, HasDtype, IsOfDtype, object_of, cast-IsOfDtype, cast_matrix-IsOfDtype,
}
use spark_rapids_ml.Models.Pca.{transformed_mean, transform_internal, add_arrays}
use spark_rapids_ml.Models.Predict.{
  Probabilities, Predictor, probability_series, data_frame_of, prediction_series, model_predict,
  class_predict, predict_series, pca_predict,
}

module _ {F Forest X A : Type 0} (C : Predictor F Forest X A) where
  data_frame_of-map :
      (score : X → A × A) (xs : List X)
      → data_frame_of C.nan (map (λ x. (score x).0) xs) (map (λ x. (score x).1) xs) ≡ map score xs
  unfolding data_frame_of
  data_frame_of-map score [] = refl
  data_frame_of-map score (x ∷ xs) = ap (λ l. score x ∷ l) (data_frame_of-map score xs)

  prediction_series-map :
      (score : X → A × A) (xs : List X)
      → ((x : X) → (score x).1 ≡ C.nan)
      → prediction_series C (map (λ x. (score x).0) xs) ≡ map score xs
  prediction_series-map score [] h = refl
  prediction_series-map score (x ∷ xs) h =
      rw (prediction_series-map score xs h) (ap (λ b. ((score x).0, b) ∷ map score xs) (sym (h x)))

  -- The sums of the numbers of two arrays.
  abbrev pub sums : List F → List F → List F
  sums [] ys = []
  sums (x ∷ xs) [] = []
  sums (x ∷ xs) (y ∷ ys) = C.projection.add x y ∷ sums xs ys

  add_arrays-sums : (xs ys : List F) → add_arrays C.projection xs ys ≡ sums xs ys
  unfolding add_arrays
  add_arrays-sums [] ys = refl
  add_arrays-sums (x ∷ xs) [] = refl
  add_arrays-sums (x ∷ xs) (y ∷ ys) = ap (λ l. C.projection.add x y ∷ l) (add_arrays-sums xs ys)

  -- A row in the space of the components, with the mean added back.
  abbrev pub projected : List F → List (List F) → X → A
  projected mean components x = C.cell (
      sums (C.projection.cuml_transform mean components (C.row x))
        (C.projection.matmul_transposed mean components))

  -- What cuML computes with an object, row by row.
  abbrev pub Predicts : Fitted F → CumlObject F Forest → (X → A × A) → Type 0
  Predicts (classifier_fitted model num_classes n_cols dtype) object score =
      (xs : List X)
      → (C.predict object xs ≡ ok (map (λ x. (score x).0) xs))
        × ((q : Probabilities A) × (C.predict_proba object xs ≡ ok q)
            × (probability_series q ≡ map (λ x. (score x).1) xs))
  Predicts (pca_fitted mean components ratio singular n_cols dtype) object score =
      (x : X) → score x ≡ (projected mean components x, C.nan)
  Predicts _ object score =
      ((xs : List X) → C.predict object xs ≡ ok (map (λ x. (score x).0) xs))
      × ((x : X) → (score x).1 ≡ C.nan)

  transform_internal-map :
      (mean : List F) (components : List (List F)) (score : X → A × A) (xs : List X)
      → ((x : X) → score x ≡ (projected mean components x, C.nan))
      → prediction_series C (
          map C.cell (
            transform_internal C.projection
              (C.projection.cuml_transform mean components)
              (C.projection.matmul_transposed mean components)
              (map C.row xs)))
        ≡ map score xs
  unfolding transform_internal
  transform_internal-map mean components score [] h = refl
  transform_internal-map mean components score (x ∷ xs) h =
      rw
        (
          add_arrays-sums (C.projection.cuml_transform mean components (C.row x))
              (C.projection.matmul_transposed mean components),
          transform_internal-map mean components score xs h,
        )
        (ap (λ y. y ∷ map score xs) (sym (h x)))

  module _ (astype : String → F → F) (load_forest : String → Result Forest) where
    transformed_mean-IsOfDtype :
        (dtype : String) (mean : List F) (components : List (List F))
        → IsOfDtype astype load_forest dtype mean
        → All (IsOfDtype astype load_forest dtype) components
        → transformed_mean C.projection astype dtype mean components
          ≡ C.projection.matmul_transposed mean components
    unfolding transformed_mean
    transformed_mean-IsOfDtype dtype mean components m c =
        ap (λ l. C.projection.matmul_transposed l (map (map (astype dtype)) components))
          (cast-IsOfDtype astype load_forest dtype mean m)
        ∙ ap (C.projection.matmul_transposed mean)
            (cast_matrix-IsOfDtype astype load_forest dtype components c)

    pub model_predict-map :
        (params : Dict (Value F)) (f : Fitted F) (object : CumlObject F Forest) (score : X → A × A)
        (attributes : Dict (Attribute F)) (xs : List X)
        → HasDtype astype load_forest f
        → object_of astype load_forest params f ≡ ok object
        → construct (algorithm_of f) (fit_row f) ≡ ok attributes
        → Predicts f object score
        → model_predict C astype (algorithm_of f) attributes object xs ≡ ok (map score xs)
    unfolding model_predict class_predict predict_series pca_predict construct fit_row get put
    model_predict-map params (kmeans_fitted centers n_cols dtype) object score attributes xs typed o
          e (h, n) =
        rw (h xs, prediction_series-map score xs n) refl
    model_predict-map params (linear_fitted coef intercept n_cols dtype) object score attributes xs
          typed o e (h, n) =
        rw (h xs, prediction_series-map score xs n) refl
    model_predict-map params (regressor_fitted model n_cols dtype) object score attributes xs typed
          o e (h, n) =
        rw (h xs, prediction_series-map score xs n) refl
    model_predict-map params (classifier_fitted model num_classes n_cols dtype) object score
          attributes xs typed o e h =
        let (p, (q, r, s)) = h xs in rw (p, r, s, data_frame_of-map score xs) refl
    model_predict-map params (pca_fitted mean components ratio singular n_cols dtype) object score
          attributes xs (m, c, s) o e h =
        rw
          (← ok-injective e, ← ok-injective o, transformed_mean-IsOfDtype dtype mean components m c)
          (ap ok (transform_internal-map mean components score xs h))
