-- ===== src/Core/Names.antt =====
-- `_CumlModelWithColumns` of core.py: `_is_single_pred`, `_has_probability_col`,
-- `_get_prediction_name` and `_out_schema`, which tell the columns that a transform adds; and
-- `numFeatures` of `_CumlModelSupervised`.
use text.Mathlib.Text.{find?}
use spark_rapids_ml.Base.{
  ℕ, zero, suc, ◌≡◌, refl, String, Bool, true, false, not, Option, none, some, List, ◌∷◌, ◌<>◌,
  if◌then◌else◌,
}
use spark_rapids_ml.Py.{
  Result, ok, err, value_error, type_error, assertion_error, bind, ok-injective,
}
use spark_rapids_ml.Py.Value.{ℤ, pos, negsuc, Value, str}
use spark_rapids_ml.Params.Spark.{SparkParams}
use spark_rapids_ml.Utils.Devices.{
  Dtype, float32, float64, int32, int16, other_dtype, dtype_to_pyspark_type,
}
use spark_rapids_ml.Core.Transform.{Target, single, structured}

-- Whose `_out_schema` a model class has: that of _CumlModelWithColumns, or one that KMeansModel or
-- PCAModel defines.
pub data SchemaOf : Type 0 where
  of_base of_kmeans of_pca : SchemaOf

-- The mixins of pyspark that a model class has, and its `_out_schema`.
pub record Mixins : Type 0 where
  pub has_prediction_col : Bool
  pub has_output_col : Bool
  pub has_probability_col : Bool
  pub schema_of : SchemaOf

-- What `_out_schema` returns.
pub data OutSchema : Type 0 where
  schema_string : String → OutSchema
  struct_type : List String → OutSchema

-- `"," in schema`, or more than one name
unfoldable pub is_single_pred : OutSchema → Bool
is_single_pred (schema_string s) = elim (find? s ",") [ none ↦ true | some i ↦ false ]
is_single_pred (struct_type (a ∷ b ∷ names)) = false
is_single_pred (struct_type names) = true

abbrev pub schema_text : SchemaOf → Bool → String → String
schema_text of_kmeans has_probability_col t = "int"
schema_text of_pca has_probability_col t = "array<" <> (t <> ">")
schema_text of_base true t = "prediction " <> (t <> (", probability array<" <> (t <> ">")))
schema_text of_base false t = t

-- A dtype that is None is refused.
abbrev pub dtype_schema : SchemaOf → Bool → Option Dtype → Result OutSchema
dtype_schema schema_of has_probability_col none = err assertion_error
dtype_schema schema_of has_probability_col (some dtype) =
    bind (dtype_to_pyspark_type dtype)
      (λ t. ok (schema_string (schema_text schema_of has_probability_col t)))

-- KMeansModel does not look at the dtype.
abbrev pub schema_for : SchemaOf → Bool → Option Dtype → Result OutSchema
schema_for of_kmeans has_probability_col dtype = ok (schema_string "int")
schema_for of_pca has_probability_col dtype = dtype_schema of_pca has_probability_col dtype
schema_for of_base has_probability_col dtype = dtype_schema of_base has_probability_col dtype

unfoldable pub out_schema : Mixins → Option Dtype → Result OutSchema
out_schema M dtype = schema_for M.schema_of M.has_probability_col dtype

-- What `withColumn` takes for a name.
abbrev pub as_name : {F : Type 0} → Value F → Result String
as_name (str s) = ok s
as_name _ = err type_error

-- n_cols if n_cols else -1
unfoldable pub num_features : Option ℕ → ℤ
num_features none = negsuc 0
num_features (some zero) = negsuc 0
num_features (some (suc n)) = pos (suc n)

module _ {F : Type 0} (P : SparkParams F) where
  unfoldable pub get_prediction_name : Mixins → P.State → Result (Value F)
  get_prediction_name M s =
      if M.has_prediction_col
      then P.get s "predictionCol"
      else if M.has_output_col
      then P.get s "outputCol"
      else err value_error

  abbrev pub probability_name : Mixins → P.State → Result (Option String)
  probability_name M s =
      if M.has_probability_col
      then bind (bind (P.get s "probabilityCol") as_name) (λ name. ok (some name))
      else ok none

  abbrev pub target_of : Mixins → P.State → Bool → String → Result Target
  target_of M s true pred_name = ok (single pred_name)
  target_of M s false pred_name = bind (probability_name M s) (λ pc. ok (structured pred_name pc))

  -- The columns that the transform of a model adds.
  unfoldable pub target : Mixins → Option Dtype → P.State → Result Target
  unfolding is_single_pred out_schema get_prediction_name
  target M dtype s = bind (out_schema M dtype) (λ schema.
      bind (bind (get_prediction_name M s) as_name)
        (λ pred_name. target_of M s (is_single_pred schema) pred_name))

-- Whether a model has a probability column and a schema with probabilities.
abbrev pub adds_probability : SchemaOf → Bool → Bool
adds_probability of_base b = b
adds_probability _ b = false

is_single_pred-schema_text :
    (k : SchemaOf) (has_probability_col : Bool) (dtype : Dtype) (t : String)
    → dtype_to_pyspark_type dtype ≡ ok t
    → is_single_pred (schema_string (schema_text k has_probability_col t))
      ≡ not (adds_probability k has_probability_col)
unfolding is_single_pred dtype_to_pyspark_type
is_single_pred-schema_text of_kmeans b dtype t h = refl
is_single_pred-schema_text of_pca b float32 t h = rw (← ok-injective h) refl
is_single_pred-schema_text of_pca b float64 t h = rw (← ok-injective h) refl
is_single_pred-schema_text of_pca b int32 t h = rw (← ok-injective h) refl
is_single_pred-schema_text of_pca b int16 t h = rw (← ok-injective h) refl
is_single_pred-schema_text of_base true float32 t h = rw (← ok-injective h) refl
is_single_pred-schema_text of_base true float64 t h = rw (← ok-injective h) refl
is_single_pred-schema_text of_base true int32 t h = rw (← ok-injective h) refl
is_single_pred-schema_text of_base true int16 t h = rw (← ok-injective h) refl
is_single_pred-schema_text of_base false float32 t h = rw (← ok-injective h) refl
is_single_pred-schema_text of_base false float64 t h = rw (← ok-injective h) refl
is_single_pred-schema_text of_base false int32 t h = rw (← ok-injective h) refl
is_single_pred-schema_text of_base false int16 t h = rw (← ok-injective h) refl
is_single_pred-schema_text k b other_dtype t h = cc

-- The schema of a model whose dtype Spark has a type for.
schema_for-text :
    (k : SchemaOf) (b : Bool) (dtype : Dtype) (t : String)
    → dtype_to_pyspark_type dtype ≡ ok t
    → schema_for k b (some dtype) ≡ ok (schema_string (schema_text k b t))
schema_for-text of_kmeans b dtype t h = refl
schema_for-text of_pca b dtype t h = rw h refl
schema_for-text of_base b dtype t h = rw h refl

module _ {F : Type 0} (P : SparkParams F) where
  -- The columns of a model that adds probabilities, or does not.
  abbrev pub added_target : Bool → String → String → Target
  added_target true pred_name probability_col = structured pred_name (some probability_col)
  added_target false pred_name probability_col = single pred_name

  target_of-added :
      (M : Mixins) (s : P.State) (pred_name probability_col : String) (k : SchemaOf) (b : Bool)
      → M.has_probability_col ≡ b
      → (M.has_probability_col ≡ true → P.get s "probabilityCol" ≡ ok (str probability_col))
      → target_of P M s (not (adds_probability k b)) pred_name
        ≡ ok (added_target (adds_probability k b) pred_name probability_col)
  target_of-added M s pred_name probability_col of_base true e q = rw (e, q e) refl
  target_of-added M s pred_name probability_col of_base false e q = refl
  target_of-added M s pred_name probability_col of_kmeans b e q = refl
  target_of-added M s pred_name probability_col of_pca b e q = refl

  pub target-added :
      (M : Mixins) (dtype : Dtype) (s : P.State) (t pred_name probability_col : String)
      → dtype_to_pyspark_type dtype ≡ ok t
      → get_prediction_name P M s ≡ ok (str pred_name)
      → (M.has_probability_col ≡ true → P.get s "probabilityCol" ≡ ok (str probability_col))
      → target P M (some dtype) s
        ≡ ok (
            added_target
              (adds_probability M.schema_of M.has_probability_col)
              pred_name
              probability_col)
  unfolding target out_schema
  target-added M dtype s t pred_name probability_col h p q =
      rw
        (
          schema_for-text M.schema_of M.has_probability_col dtype t h,
          p,
          is_single_pred-schema_text M.schema_of M.has_probability_col dtype t h,
        )
        (target_of-added M s pred_name probability_col M.schema_of M.has_probability_col refl q)
