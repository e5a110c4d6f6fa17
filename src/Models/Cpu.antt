-- ===== src/Models/Cpu.antt =====
-- `cpu` and `predict` of KMeansModel, PCAModel and LinearRegressionModel: the model of pyspark.ml that
-- is made once and kept.
use spark_rapids_ml.Base.{
  ℕ, suc, ◌<◌, ◌≡◌, refl, Bool, true, false, Option, none, some, List, All, length, get_elem?,
  if◌then◌else◌,
}
use spark_rapids_ml.Py.{Result, ok, err, assertion_error, Exec, ◌>>=◌, return}
use spark_rapids_ml.Params.Spark.{SparkParams}
use spark_rapids_ml.Models.Pca.{DenseMatrix, entry, pc}
use spark_rapids_ml.Models.PcaLaws.{
  component_value, entry-pc, pc-num_rows, pc-num_cols, pc-is_transposed,
}

-- What the constructor of the JVM's model is given.
pub data JavaArguments (F : Type 0) : Type 0 where
  java_kmeans : List (List F) → JavaArguments F
  java_pca : DenseMatrix F → List F → JavaArguments F
  -- coefficients, intercept and scale
  java_linear : List F → F → F → JavaArguments F

-- The attributes of the three models that `cpu` reads; `scale` is 1.0.
pub data CpuAttributes (F : Type 0) : Type 0 where
  kmeans_attributes : List (List F) → CpuAttributes F
  -- components, number of columns, explained variance ratio
  pca_attributes : List (List F) → ℕ → List F → CpuAttributes F
  linear_attributes : List F → F → CpuAttributes F

unfoldable pub java_arguments : {F : Type 0} → F → CpuAttributes F → JavaArguments F
unfolding pc
java_arguments scale (kmeans_attributes centers) = java_kmeans centers
java_arguments scale (pca_attributes components n_cols variance) =
    java_pca (pc components n_cols) variance
java_arguments scale (linear_attributes coef intercept) = java_linear coef intercept scale

-- A model of pyspark.ml, with the uid that java_uid makes and its params.
pub record SparkModel {F : Type 0} (P : SparkParams F) : Type 0 where
  pub uid : ℕ
  pub java : JavaArguments F
  pub params : P.State

-- `_kmeans_spark_model`, `_pca_ml_model` or `_lr_ml_model`, the model's own Spark params, and the
-- next uid.
pub record CpuState {F : Type 0} (P Q : SparkParams F) : Type 0 where
  pub cpu_model : Option (SparkModel Q)
  pub spark : P.State
  pub next_uid : ℕ

module _ {F : Type 0} (P Q : SparkParams F) (scale : F) (has_jvm : Bool) (initial : Q.State)
    (copy_values : P.State → Q.State → Q.State) where
  -- KMeans does not copy the values of the params.
  unfoldable pub copied : CpuAttributes F → P.State → Q.State
  copied (kmeans_attributes centers) spark = initial
  copied (pca_attributes components n_cols variance) spark = copy_values spark initial
  copied (linear_attributes coef intercept) spark = copy_values spark initial

  abbrev pub new_model : CpuAttributes F → CpuState P Q → SparkModel Q
  new_model attributes s = record {
    uid = s.next_uid;
    java = java_arguments scale attributes;
    params = copied attributes s.spark;
  }

  abbrev pub make_cpu : CpuAttributes F → Exec (CpuState P Q) (SparkModel Q)
  make_cpu attributes s =
      if has_jvm
      then (
        ok (new_model attributes s),
        record {
          cpu_model = some (new_model attributes s);
          spark = s.spark;
          next_uid = suc s.next_uid;
        },
      )
      else (err assertion_error, s)

  abbrev pub cached : CpuAttributes F → Option (SparkModel Q) → Exec (CpuState P Q) (SparkModel Q)
  cached attributes none = make_cpu attributes
  cached attributes (some m) = return m

  unfoldable pub cpu : CpuAttributes F → Exec (CpuState P Q) (SparkModel Q)
  unfolding copied java_arguments
  cpu attributes s = cached attributes s.cpu_model s

  -- `predict` of KMeans and linear regression, with that of pyspark's model
  unfoldable pub predict :
      {V Y : Type 0} → (SparkModel Q → V → Result Y) → CpuAttributes F → V → Exec (CpuState P Q) Y
  unfolding cpu
  predict spark_predict attributes value = cpu attributes >>= (λ m s. (spark_predict m value, s))

  -- What the constructor of the JVM's model has to be given. The matrix of PCA has a column for each
  -- component, and stands in its cells as they are.
  abbrev pub IsOf : CpuAttributes F → JavaArguments F → Type 0
  IsOf (kmeans_attributes centers) java = java ≡ java_kmeans centers
  IsOf (pca_attributes components n_cols variance) java =
      (m : DenseMatrix F) × (java ≡ java_pca m variance)
      × (m.num_rows ≡ n_cols)
      × (m.num_cols ≡ length components)
      × (m.is_transposed ≡ false)
      × ((i j : ℕ) → i < n_cols → entry m i j ≡ component_value (get_elem? components j) i)
  IsOf (linear_attributes coef intercept) java = java ≡ java_linear coef intercept scale

  -- PCA's components have as many values as the model has columns.
  abbrev pub IsRectangular : CpuAttributes F → Type 0
  IsRectangular (pca_attributes components n_cols variance) =
      All (λ c. length c ≡ n_cols) components
  IsRectangular _ = Unit

  -- The params that a new model has: for PCA and linear regression those of this model.
  abbrev pub params_for : CpuAttributes F → P.State → Q.State
  params_for (kmeans_attributes centers) spark = initial
  params_for (pca_attributes components n_cols variance) spark = copy_values spark initial
  params_for (linear_attributes coef intercept) spark = copy_values spark initial

  -- The kept model is one of the attributes.
  abbrev pub KeepsRight : CpuAttributes F → Option (SparkModel Q) → Type 0
  KeepsRight attributes none = Unit
  KeepsRight attributes (some m) = IsOf attributes m.java

  -- The model is the kept one, or a new one with its params.
  abbrev pub IsKeptOrNew : CpuAttributes F → P.State → Option (SparkModel Q) → SparkModel Q → Type 0
  IsKeptOrNew attributes spark none m = m.params ≡ params_for attributes spark
  IsKeptOrNew attributes spark (some kept) m = m ≡ kept

  java_arguments-IsOf :
      (attributes : CpuAttributes F)
      → IsRectangular attributes
      → IsOf attributes (java_arguments scale attributes)
  unfolding java_arguments
  java_arguments-IsOf (kmeans_attributes centers) h = refl
  java_arguments-IsOf (pca_attributes components n_cols variance) h = (
    pc components n_cols,
    refl,
    pc-num_rows components n_cols,
    pc-num_cols components n_cols,
    pc-is_transposed components n_cols,
    λ i j lt. entry-pc components n_cols i j h lt,
  )
  java_arguments-IsOf (linear_attributes coef intercept) h = refl

  copied-params_for :
      (attributes : CpuAttributes F) (spark : P.State)
      → copied attributes spark ≡ params_for attributes spark
  unfolding copied
  copied-params_for (kmeans_attributes centers) spark = refl
  copied-params_for (pca_attributes components n_cols variance) spark = refl
  copied-params_for (linear_attributes coef intercept) spark = refl

  -- The model is returned and kept, and later calls use it.
  abbrev pub IsReused :
      {V Y : Type 0}
      → (SparkModel Q → V → Result Y)
      → CpuAttributes F
      → CpuState P Q
      → P.State
      → V
      → SparkModel Q
      → CpuState P Q
      → Type 0
  IsReused spark_predict attributes s spark value m s' =
      (cpu attributes s ≡ (ok m, s'))
      × IsOf attributes m.java
      × IsKeptOrNew attributes s.spark s.cpu_model m
      × (s'.cpu_model ≡ some m)
      × (cpu attributes (record s' { spark = spark }) ≡ (ok m, record s' { spark = spark }))
      × (predict spark_predict attributes value (record s' { spark = spark })
          ≡ (spark_predict m value, record s' { spark = spark }))

  module _ {V Y : Type 0} (spark_predict : SparkModel Q → V → Result Y)
      (attributes : CpuAttributes F) (old spark : P.State) (uid : ℕ) (value : V) where
    keeps_model :
        (c : Option (SparkModel Q))
        → has_jvm ≡ true
        → IsRectangular attributes
        → KeepsRight attributes c
        → (m : SparkModel Q) × (s' : CpuState P Q) × IsReused spark_predict attributes
            (record { cpu_model = c; spark = old; next_uid = uid })
            spark
            value
            m
            s'
    unfolding cpu predict
    keeps_model none jvm h right = (
      new_model attributes (record { cpu_model = none; spark = old; next_uid = uid }),
      record {
        cpu_model =
            some (new_model attributes (record { cpu_model = none; spark = old; next_uid = uid }));
        spark = old;
        next_uid = suc uid;
      },
      (
        rw jvm refl,
        java_arguments-IsOf attributes h,
        copied-params_for attributes old,
        refl,
        refl,
        refl,
      ),
    )
    keeps_model (some m) jvm h right = (
      m,
      record { cpu_model = some m; spark = old; next_uid = uid },
      (refl, right, refl, refl, refl, refl),
    )

  -- With a JVM and a kept model that is one of the attributes, if there is one, `cpu` returns the kept
  -- model, or makes one: of the centers, of the coefficients, the intercept and the scale, or of the
  -- explained variance and a matrix whose columns are the components, and with this model's params
  -- copied, but for KMeans. It keeps the model: a second call and a prediction use the same one and
  -- change nothing, even if Spark params have been set in between. Assumed: PCA's components have as
  -- many values as the model has columns.
  pub cpu-cpu :
      {V Y : Type 0} (spark_predict : SparkModel Q → V → Result Y) (attributes : CpuAttributes F)
      (s : CpuState P Q) (spark : P.State) (value : V)
      → has_jvm ≡ true
      → IsRectangular attributes
      → KeepsRight attributes s.cpu_model
      → (m : SparkModel Q) × (s' : CpuState P Q) × IsReused spark_predict attributes s spark value m
          s'
  cpu-cpu spark_predict attributes s spark value jvm h right =
      keeps_model spark_predict attributes s.spark spark s.next_uid value s.cpu_model jvm h right
