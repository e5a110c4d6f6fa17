-- ===== src/Regression/Task.antt =====
-- The fit function of LinearRegression in the task of a partition.
use spark_rapids_ml.Base.{ℕ, String, some, List}
use spark_rapids_ml.Py.{Result, ok, bind}
use spark_rapids_ml.Py.Dict.{Dict}
use spark_rapids_ml.Py.Value.{Value, Floats}
use spark_rapids_ml.Utils.Partitions.{Codec, Part, PartitionDescriptor, build}
use spark_rapids_ml.Core.Inputs.{Input}
use spark_rapids_ml.Core.Train.{FitParams}
use spark_rapids_ml.Models.Rows.{Attribute, Fitted, linear_fitted, fit_row}
use spark_rapids_ml.Regression.Fit.{Solver, linear_regression_fit}

-- What is read from cuML's object.
pub record LinearAnswer (F : Type 0) : Type 0 where
  pub coef : List F
  pub intercept : F
  pub n_cols : ℕ
  pub dtype : String

abbrev pub linear_row : {F : Type 0} → LinearAnswer F → Fitted F
linear_row r = linear_fitted r.coef r.intercept r.n_cols r.dtype

module _ {F X Y M Comms : Type 0} where
  -- `all_gather` is that of the task of a rank, and `train` constructs the solver with its handle and
  -- its parameters and fits it.
  unfoldable pub linear_task :
      Floats F
      → Codec M (List Part)
      → (Comms
          → Solver
          → Dict (Value F)
          → List (Input X Y)
          → PartitionDescriptor
          → Result (LinearAnswer F))
      → (ℕ → M → List M)
      → ℕ
      → ℕ
      → List (Input X Y)
      → FitParams F Comms
      → Result (Dict (Attribute F))
  linear_task O J train all_gather rank gpu dfs params =
      bind (build J (some (rank, all_gather rank)) params.part_sizes params.num_cols) (λ pdesc.
        bind (linear_regression_fit O (train params.comms) params.cuml_init dfs pdesc)
          (λ r. ok (fit_row (linear_row r))))
