-- ===== src/Regression/Fit.antt =====
-- `LinearRegression._pre_process_data` and `_get_cuml_fit_func`.
use spark_rapids_ml.Base.{ℕ, String, true, false, none, some, List, [], ◌∷◌, ◌==◌, if◌then◌else◌}
use spark_rapids_ml.Py.{Result, ok, err, key_error, runtime_error, type_error, bind}
use spark_rapids_ml.Py.Dict.{Dict, get, put, restrict}
use spark_rapids_ml.Py.Value.{pos, Value, bool, int, float, Floats, equals_zero}
use spark_rapids_ml.Core.Features.{Selection}
use spark_rapids_ml.Utils.Partitions.{PartitionDescriptor}

-- d[k]
unfoldable pub lookup {ℓ} : {V : Type ℓ} → Dict V → String → Result V
lookup d k = elim (get d k) [ none ↦ err key_error | some v ↦ ok v ]

-- The cuML class that is trained.
pub data Solver : Type 0 where
  linear_regression_mg ridge_mg cd_mg : Solver

unfoldable pub supported_params : Solver → List String
supported_params linear_regression_mg = "algorithm" ∷ "fit_intercept" ∷ "normalize" ∷ "verbose" ∷ []
supported_params ridge_mg = "alpha" ∷ "solver" ∷ "fit_intercept" ∷ "normalize" ∷ "verbose" ∷ []
supported_params cd_mg =
    "loss" ∷ "alpha" ∷ "l1_ratio" ∷ "fit_intercept" ∷ "max_iter" ∷ "normalize" ∷ "tol" ∷ "shuffle"
    ∷ "verbose" ∷ []

module _ {F : Type 0} (O : Floats F) where
  -- v * (float)(m)
  unfoldable pub scale : Value F → ℕ → Result (Value F)
  scale (bool true) m = ok (float (O.multiply (O.of_int (pos 1)) (O.of_int (pos m))))
  scale (bool false) m = ok (float (O.multiply (O.of_int (pos 0)) (O.of_int (pos m))))
  scale (int n) m = ok (float (O.multiply (O.of_int n) (O.of_int (pos m))))
  scale (float x) m = ok (float (O.multiply x (O.of_int (pos m))))
  scale _ m = err type_error

  -- The check on data with one column, which reads `l1_ratio` only where `alpha` is not 0.
  unfoldable pub pre_process_data : Dict (Value F) → Selection → Result Selection
  pre_process_data cuml s =
      if s.dimension == 1
      then bind (lookup cuml "alpha") (λ a.
        if equals_zero O a
        then err runtime_error
        else bind (lookup cuml "l1_ratio")
            (λ r. if equals_zero O r then err runtime_error else ok s))
      else ok s

  -- The branches of `_linear_regression_fit`: the class, and its parameters before the filter.
  unfoldable pub choose_solver : Dict (Value F) → ℕ → Result (Solver × Dict (Value F))
  choose_solver params m = bind (lookup params "alpha") (λ a.
      if equals_zero O a
      then ok (linear_regression_mg, params)
      else bind (lookup params "l1_ratio") (λ r.
        if equals_zero O r
        then bind (scale a m) (λ scaled. ok (ridge_mg, put params "alpha" scaled))
        else ok (cd_mg, params)))

  -- The class and the parameters that its constructor is given.
  unfoldable pub solver_params : Dict (Value F) → ℕ → Result (Solver × Dict (Value F))
  solver_params params m =
      bind (choose_solver params m)
        (λ (solver, given). ok (solver, restrict given (supported_params solver)))

  -- `train` constructs the cuML object with its parameters, and fits it to the worker's batches.
  unfoldable pub linear_regression_fit :
      {Batch Fitted : Type 0}
      → (Solver → Dict (Value F) → List Batch → PartitionDescriptor → Result Fitted)
      → Dict (Value F)
      → List Batch
      → PartitionDescriptor
      → Result Fitted
  linear_regression_fit train params batches pdesc =
      bind (solver_params params pdesc.m) (λ (solver, given). train solver given batches pdesc)
