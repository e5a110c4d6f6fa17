-- ===== src/Models/Pca.antt =====
-- feature.PCAModel: the constructor, `pc`, and what is added to cuML's results in a transform.
use spark_rapids_ml.Base.{
  ℕ, ◌+◌, ◌*◌, String, Bool, false, Option, List, [], ◌∷◌, map, length, flatten, get_elem?,
}
use spark_rapids_ml.Py.{Exec}
use spark_rapids_ml.Py.Value.{pos, int}
use spark_rapids_ml.Params.Spark.{SparkParams}
use spark_rapids_ml.Params.Class.{CumlClass}
use spark_rapids_ml.Params.Values.{Instance}
use spark_rapids_ml.Params.Set.{set_params}

-- pyspark.ml.linalg.DenseMatrix
pub record DenseMatrix (F : Type 0) : Type 0 where
  pub num_rows : ℕ
  pub num_cols : ℕ
  pub values : List F
  pub is_transposed : Bool

-- The entry in a row and a column of a matrix that is stored by columns.
unfoldable pub entry : {F : Type 0} → DenseMatrix F → ℕ → ℕ → Option F
entry m i j = get_elem? m.values (i + j * m.num_rows)

-- Each column is one principal component.
unfoldable pub pc : {F : Type 0} → List (List F) → ℕ → DenseMatrix F
pc components n_cols = record {
  num_rows = n_cols;
  num_cols = length components;
  values = flatten components;
  is_transposed = false;
}

-- The last step of the constructor.
unfoldable pub set_n_components :
    {F E : Type 0} {P : SparkParams F} → CumlClass F → List E → Exec (Instance P) Unit
set_n_components C components = set_params C (("n_components", int (pos (length components))) ∷ [])

-- Numbers, and the functions of numpy and cuML that the transform calls.
pub record Projection (F : Type 0) : Type 0 where
  pub add : F → F → F
  -- np.matmul of a vector and the transpose of a matrix
  pub matmul_transposed : List F → List (List F) → List F
  -- the transform of cuML's object with this mean and these components, on one row
  pub cuml_transform : List F → List (List F) → List F → List F

module _ {F : Type 0} (A : Projection F) where
  -- The sum of two arrays of one length.
  unfoldable pub add_arrays : List F → List F → List F
  add_arrays (x ∷ xs) (y ∷ ys) = A.add x y ∷ add_arrays xs ys
  add_arrays _ _ = []

  -- np.matmul(np.array(self.mean_, self.dtype), np.array(self.components_, self.dtype).T), where
  -- `astype` rounds a number to a dtype
  unfoldable pub transformed_mean : (String → F → F) → String → List F → List (List F) → List F
  transformed_mean astype dtype mean components =
      A.matmul_transposed (map (astype dtype) mean) (map (map (astype dtype)) components)

  -- `_transform_internal`, on the rows of a batch, with the transform of `pca_object` on one row
  unfoldable pub transform_internal : (List F → List F) → List F → List (List F) → List (List F)
  unfolding add_arrays
  transform_internal transform mean [] = []
  transform_internal transform mean (x ∷ rows) =
      add_arrays (transform x) mean ∷ transform_internal transform mean rows
