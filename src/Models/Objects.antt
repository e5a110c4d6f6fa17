-- ===== src/Models/Objects.antt =====
-- The first of the functions of `_get_cuml_transform_func`: it makes cuML's object on a task, of the
-- attributes of the model.
use spark_rapids_ml.Base.{
  ℕ, ◌≡◌, refl, String, Bool, true, false, Option, some, List, [], ◌∷◌, map, All,
}
use spark_rapids_ml.Py.{Result, ok, err, attribute_error, bind}
use spark_rapids_ml.Py.Dict.{Dict, get, put}
use spark_rapids_ml.Py.Value.{Value}
use spark_rapids_ml.Models.Rows.{
  Attribute, count, number, numbers, matrix, text, Algorithm, kmeans, pca, linear_regression,
  random_forest_regressor, random_forest_classifier, Fitted, kmeans_fitted, pca_fitted,
  linear_fitted, regressor_fitted, classifier_fitted, algorithm_of, fit_row, construct,
}

-- cuML's objects, with the params of their constructors where these are given, and the attributes
-- that are set. `Forest` is the type of what is read of a forest's bytes.
pub data CumlObject (F Forest : Type 0) : Type 0 where
  kmeans_object : Dict (Value F) → List (List F) → ℕ → String → CumlObject F Forest
  -- components, mean, singular values
  pca_object : Dict (Value F) → List (List F) → List F → List F → ℕ → String → CumlObject F Forest
  -- coefficients and intercept
  linear_object : List F → F → ℕ → String → CumlObject F Forest
  -- cuML's classifier or regressor, with one forest
  forest_object : Bool → Forest → CumlObject F Forest

-- A field of the model, of a certain type.
module _ {F : Type 0} where
  unfoldable pub number_field : Option (Attribute F) → Result F
  number_field (some (number x)) = ok x
  number_field _ = err attribute_error

  unfoldable pub numbers_field : Option (Attribute F) → Result (List F)
  numbers_field (some (numbers l)) = ok l
  numbers_field _ = err attribute_error

  unfoldable pub matrix_field : Option (Attribute F) → Result (List (List F))
  matrix_field (some (matrix m)) = ok m
  matrix_field _ = err attribute_error

  unfoldable pub count_field : Option (Attribute F) → Result ℕ
  count_field (some (count n)) = ok n
  count_field _ = err attribute_error

  unfoldable pub text_field : Option (Attribute F) → Result String
  text_field (some (text s)) = ok s
  text_field _ = err attribute_error

-- `astype` rounds a number to a dtype, and `load_forest` is pickle.loads of base64.b64decode, and
-- the loading of the bytes.
module _ {F Forest : Type 0} (astype : String → F → F) (load_forest : String → Result Forest) where
  abbrev pub cast : String → List F → List F
  cast dtype l = map (astype dtype) l

  abbrev pub cast_matrix : String → List (List F) → List (List F)
  cast_matrix dtype m = map (cast dtype) m

  unfoldable pub construct_forest : Bool → Dict (Attribute F) → Result (CumlObject F Forest)
  unfolding text_field
  construct_forest is_classification model =
      bind (bind (text_field (get model "treelite_model")) load_forest)
        (λ forest. ok (forest_object is_classification forest))

  unfoldable pub construct_kmeans :
      Dict (Value F) → Dict (Attribute F) → Result (CumlObject F Forest)
  unfolding matrix_field count_field text_field
  construct_kmeans params model = bind (matrix_field (get model "cluster_centers_")) (λ centers.
      bind (count_field (get model "n_cols")) (λ n_cols.
        bind (text_field (get model "dtype"))
          (λ dtype. ok (kmeans_object params (cast_matrix dtype centers) n_cols dtype))))

  unfoldable pub construct_pca : Dict (Value F) → Dict (Attribute F) → Result (CumlObject F Forest)
  unfolding numbers_field matrix_field count_field text_field
  construct_pca params model = bind (matrix_field (get model "components_")) (λ components.
      bind (numbers_field (get model "mean_")) (λ mean.
        bind (numbers_field (get model "singular_values_")) (λ singular.
          bind (count_field (get model "n_cols")) (λ n_cols.
            bind (text_field (get model "dtype")) (λ dtype. ok (
              pca_object params (cast_matrix dtype components) (cast dtype mean)
                (cast dtype singular) n_cols dtype))))))

  unfoldable pub construct_lr : Dict (Attribute F) → Result (CumlObject F Forest)
  unfolding number_field numbers_field count_field text_field
  construct_lr model = bind (numbers_field (get model "coef_")) (λ coef.
      bind (number_field (get model "intercept_")) (λ intercept.
        bind (count_field (get model "n_cols")) (λ n_cols.
          bind (text_field (get model "dtype"))
            (λ dtype. ok (linear_object (cast dtype coef) intercept n_cols dtype)))))

  unfoldable pub construct_object :
      Algorithm → Dict (Value F) → Dict (Attribute F) → Result (CumlObject F Forest)
  unfolding construct_kmeans construct_pca construct_lr construct_forest
  construct_object kmeans params model = construct_kmeans params model
  construct_object pca params model = construct_pca params model
  construct_object linear_regression params model = construct_lr model
  construct_object random_forest_regressor params model = construct_forest false model
  construct_object random_forest_classifier params model = construct_forest true model

  -- The numbers of a fitted object are of its dtype.
  abbrev pub IsOfDtype : String → List F → Type 0
  IsOfDtype dtype l = All (λ x. astype dtype x ≡ x) l

  abbrev pub HasDtype : Fitted F → Type 0
  HasDtype (kmeans_fitted centers n_cols dtype) = All (IsOfDtype dtype) centers
  HasDtype (pca_fitted mean components ratio singular n_cols dtype) =
      IsOfDtype dtype mean × All (IsOfDtype dtype) components × IsOfDtype dtype singular
  HasDtype (linear_fitted coef intercept n_cols dtype) = IsOfDtype dtype coef
  HasDtype (regressor_fitted model n_cols dtype) = Unit
  HasDtype (classifier_fitted model num_classes n_cols dtype) = Unit

  -- The object that a transform has to use.
  abbrev pub object_of : Dict (Value F) → Fitted F → Result (CumlObject F Forest)
  object_of params (kmeans_fitted centers n_cols dtype) =
      ok (kmeans_object params centers n_cols dtype)
  object_of params (pca_fitted mean components ratio singular n_cols dtype) =
      ok (pca_object params components mean singular n_cols dtype)
  object_of params (linear_fitted coef intercept n_cols dtype) =
      ok (linear_object coef intercept n_cols dtype)
  object_of params (regressor_fitted model n_cols dtype) =
      bind (load_forest model) (λ forest. ok (forest_object false forest))
  object_of params (classifier_fitted model num_classes n_cols dtype) =
      bind (load_forest model) (λ forest. ok (forest_object true forest))

  pub cast-IsOfDtype : (dtype : String) (l : List F) → IsOfDtype dtype l → cast dtype l ≡ l
  cast-IsOfDtype dtype [] h = refl
  cast-IsOfDtype dtype (x ∷ l) (h, hs) = rw (h, cast-IsOfDtype dtype l hs) refl

  pub cast_matrix-IsOfDtype :
      (dtype : String) (m : List (List F)) → All (IsOfDtype dtype) m → cast_matrix dtype m ≡ m
  cast_matrix-IsOfDtype dtype [] h = refl
  cast_matrix-IsOfDtype dtype (l ∷ m) (h, hs) =
      rw (cast-IsOfDtype dtype l h, cast_matrix-IsOfDtype dtype m hs) refl

  -- A transform on a task uses an object that has the centers, the components, mean and singular
  -- values, the coefficients and the intercept, or the forest that cuML's object had after the fit:
  -- the row of the fit makes a model, and the model's attributes make the object. The number of
  -- columns and the dtype are the same but for forests, which have none, and KMeans and PCA have the
  -- model's params. Assumed: the fitted numbers are of the object's dtype.
  pub construct_object-Fitted :
      (params : Dict (Value F)) (f : Fitted F)
      → HasDtype f
      → bind (construct (algorithm_of f) (fit_row f)) (construct_object (algorithm_of f) params)
        ≡ object_of params f
  unfolding construct fit_row get put construct_object construct_forest
  construct_object-Fitted params (kmeans_fitted centers n_cols dtype) h =
      rw (cast_matrix-IsOfDtype dtype centers h) refl
  construct_object-Fitted params (pca_fitted mean components ratio singular n_cols dtype)
        (h, k, l) =
      rw
        (
          cast-IsOfDtype dtype mean h,
          cast_matrix-IsOfDtype dtype components k,
          cast-IsOfDtype dtype singular l,
        )
        refl
  construct_object-Fitted params (linear_fitted coef intercept n_cols dtype) h =
      rw (cast-IsOfDtype dtype coef h) refl
  construct_object-Fitted params (regressor_fitted model n_cols dtype) h = refl
  construct_object-Fitted params (classifier_fitted model num_classes n_cols dtype) h = refl
