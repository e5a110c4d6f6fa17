-- ===== src/Models/Rows.antt =====
-- The rows that the fit functions return, and the models that are made of them: the `_out_schema`
-- of the estimators, `_CumlModel.__init__` and `from_row`, and the constructors of the models.
use spark_rapids_ml.Base.{
  ℕ, String, Bool, true, false, ◌&&◌, Option, none, some, List, [], ◌∷◌, if◌then◌else◌,
}
use spark_rapids_ml.Py.{Result, ok, err, type_error, bind}
use spark_rapids_ml.Py.Dict.{Dict, get, put, contains}

-- The values of a model's attributes. A forest is a text.
pub data Attribute (F : Type 0) : Type 0 where
  count : ℕ → Attribute F
  number : F → Attribute F
  numbers : List F → Attribute F
  matrix : List (List F) → Attribute F
  text : String → Attribute F

pub data Algorithm : Type 0 where
  kmeans pca linear_regression random_forest_regressor random_forest_classifier : Algorithm

-- What cuML's object holds after a fit, with `n_cols` and the name of the dtype at the end.
pub data Fitted (F : Type 0) : Type 0 where
  kmeans_fitted : List (List F) → ℕ → String → Fitted F
  -- mean, components, explained variance ratio, singular values
  pca_fitted : List F → List (List F) → List F → List F → ℕ → String → Fitted F
  -- coefficients and intercept
  linear_fitted : List F → F → ℕ → String → Fitted F
  -- the joined forest; a classifier has a number of classes
  regressor_fitted : String → ℕ → String → Fitted F
  classifier_fitted : String → ℕ → ℕ → String → Fitted F

abbrev pub algorithm_of : {F : Type 0} → Fitted F → Algorithm
algorithm_of (kmeans_fitted centers n_cols dtype) = kmeans
algorithm_of (pca_fitted mean components ratio singular n_cols dtype) = pca
algorithm_of (linear_fitted coef intercept n_cols dtype) = linear_regression
algorithm_of (regressor_fitted model n_cols dtype) = random_forest_regressor
algorithm_of (classifier_fitted model num_classes n_cols dtype) = random_forest_classifier

-- The dicts that the fit functions return, each of which becomes the one row of a data frame.
abbrev pub kmeans_dict : {F : Type 0} → List (List F) → ℕ → String → Dict (Attribute F)
kmeans_dict centers n_cols dtype =
    ("cluster_centers_", matrix centers) ∷ ("n_cols", count n_cols) ∷ ("dtype", text dtype) ∷ []

abbrev pub pca_dict :
    {F : Type 0} → List F → List (List F) → List F → List F → ℕ → String → Dict (Attribute F)
pca_dict mean components ratio singular n_cols dtype =
    ("mean_", numbers mean)
    ∷ ("components_", matrix components)
    ∷ ("explained_variance_ratio_", numbers ratio)
    ∷ ("singular_values_", numbers singular)
    ∷ ("n_cols", count n_cols)
    ∷ ("dtype", text dtype)
    ∷ []

abbrev pub linear_dict : {F : Type 0} → List F → F → ℕ → String → Dict (Attribute F)
linear_dict coef intercept n_cols dtype =
    ("coef_", numbers coef)
    ∷ ("intercept_", number intercept)
    ∷ ("dtype", text dtype)
    ∷ ("n_cols", count n_cols)
    ∷ []

-- A classifier's number of classes is added at the end.
abbrev pub forest_dict : {F : Type 0} → String → Option ℕ → ℕ → String → Dict (Attribute F)
forest_dict model none n_cols dtype =
    ("treelite_model", text model) ∷ ("dtype", text dtype) ∷ ("n_cols", count n_cols) ∷ []
forest_dict model (some num_classes) n_cols dtype =
    ("treelite_model", text model)
    ∷ ("dtype", text dtype)
    ∷ ("n_cols", count n_cols)
    ∷ ("num_classes", count num_classes)
    ∷ []

unfoldable pub fit_row : {F : Type 0} → Fitted F → Dict (Attribute F)
fit_row (kmeans_fitted centers n_cols dtype) = kmeans_dict centers n_cols dtype
fit_row (pca_fitted mean components ratio singular n_cols dtype) =
    pca_dict mean components ratio singular n_cols dtype
fit_row (linear_fitted coef intercept n_cols dtype) = linear_dict coef intercept n_cols dtype
fit_row (regressor_fitted model n_cols dtype) = forest_dict model none n_cols dtype
fit_row (classifier_fitted model num_classes n_cols dtype) =
    forest_dict model (some num_classes) n_cols dtype

-- The types of the fields of `_out_schema`.
pub data FieldType : Type 0 where
  double_field integer_field string_field double_array double_matrix : FieldType

abbrev pub kmeans_schema : Dict FieldType
kmeans_schema =
    ("cluster_centers_", double_matrix) ∷ ("n_cols", integer_field) ∷ ("dtype", string_field) ∷ []

abbrev pub pca_schema : Dict FieldType
pca_schema =
    ("mean_", double_array)
    ∷ ("components_", double_matrix)
    ∷ ("explained_variance_ratio_", double_array)
    ∷ ("singular_values_", double_array)
    ∷ ("n_cols", integer_field)
    ∷ ("dtype", string_field)
    ∷ []

abbrev pub linear_schema : Dict FieldType
linear_schema =
    ("coef_", double_array)
    ∷ ("intercept_", double_field)
    ∷ ("n_cols", integer_field)
    ∷ ("dtype", string_field)
    ∷ []

abbrev pub forest_schema : Bool → Dict FieldType
forest_schema is_classification =
    ("treelite_model", string_field)
    ∷ ("n_cols", integer_field)
    ∷ ("dtype", string_field)
    ∷ (if is_classification then ("num_classes", integer_field) ∷ [] else [])

unfoldable pub out_fields : Algorithm → Dict FieldType
out_fields kmeans = kmeans_schema
out_fields pca = pca_schema
out_fields linear_regression = linear_schema
out_fields random_forest_regressor = forest_schema false
out_fields random_forest_classifier = forest_schema true

-- The attributes that a model's constructor takes and hands to `_CumlModel.__init__`, besides
-- `n_cols` and `dtype`.
abbrev pub kmeans_init : List String
kmeans_init = "cluster_centers_" ∷ []

abbrev pub pca_init : List String
pca_init = "mean_" ∷ "components_" ∷ "explained_variance_ratio_" ∷ "singular_values_" ∷ []

abbrev pub linear_init : List String
linear_init = "coef_" ∷ "intercept_" ∷ []

abbrev pub regressor_init : List String
regressor_init = "treelite_model" ∷ []

abbrev pub classifier_init : List String
classifier_init = "treelite_model" ∷ "num_classes" ∷ []

unfoldable pub own_attributes : Algorithm → List String
own_attributes kmeans = kmeans_init
own_attributes pca = pca_init
own_attributes linear_regression = linear_init
own_attributes random_forest_regressor = regressor_init
own_attributes random_forest_classifier = classifier_init

abbrev pub parameters : Algorithm → List String
unfolding own_attributes
parameters a = "n_cols" ∷ "dtype" ∷ own_attributes a

module _ {F : Type 0} where
  -- No keyword is unexpected.
  unfoldable pub expected : List String → Dict (Attribute F) → Bool
  expected names [] = true
  expected names ((k, v) ∷ kwargs) = contains names k && expected names kwargs

  abbrev pub argument : Option (Attribute F) → Result (Attribute F)
  argument none = err type_error
  argument (some v) = ok v

  -- The arguments of the names, each of which is required.
  unfoldable pub arguments : List String → Dict (Attribute F) → Result (Dict (Attribute F))
  arguments [] kwargs = ok []
  arguments (k ∷ names) kwargs =
      bind (argument (get kwargs k))
        (λ v. bind (arguments names kwargs) (λ rest. ok ((k, v) ∷ rest)))

  -- `_CumlModel.__init__`
  unfoldable pub base_init : Attribute F → Attribute F → Dict (Attribute F) → Dict (Attribute F)
  base_init dtype n_cols model_attributes = put (put model_attributes "dtype" dtype) "n_cols" n_cols

  -- The call `cls(**attributes)` of a model's constructor. The result is `_model_attributes`.
  unfoldable pub construct : Algorithm → Dict (Attribute F) → Result (Dict (Attribute F))
  unfolding expected arguments base_init own_attributes
  construct a kwargs =
      if expected (parameters a) kwargs
      then bind (argument (get kwargs "n_cols")) (λ n_cols.
        bind (argument (get kwargs "dtype")) (λ dtype.
          bind (arguments (own_attributes a) kwargs) (λ own. ok (base_init dtype n_cols own))))
      else err type_error
