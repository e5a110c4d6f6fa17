-- ===== src/Tests/Regressions.antt =====
-- A ridge regression of two workers, from the partitions to the model.
use spark_rapids_ml.Base.{ℕ, none, some, [], ◌∷◌}
use spark_rapids_ml.Py.{ok}
use spark_rapids_ml.Py.Dict.{Dict, get}
use spark_rapids_ml.Py.Value.{Value, float, str}
use spark_rapids_ml.Core.Train.{Stage}
use spark_rapids_ml.Models.Rows
use spark_rapids_ml.Models.Rows.{Attribute}
use spark_rapids_ml.Regression.Task.{LinearAnswer}
use spark_rapids_ml.Regression.TaskLaws.{linear_stage}
use spark_rapids_ml.Tests.Models.{messages}
use spark_rapids_ml.Tests.Columns.{numbers}
use spark_rapids_ml.Tests.Jobs.{two_workers, all_parts}

abbrev ridge_params : Dict (Value ℕ)
ridge_params =
    ("alpha", float 3) ∷ ("l1_ratio", float 0) ∷ ("solver", str "eig") ∷ ("tol", float 1) ∷ []

abbrev ridge_workers : Stage ℕ ℕ ℕ Unit (Dict (Attribute ℕ))
ridge_workers = record (two_workers (ok [])) { cuml_params = ridge_params }

-- cuML's solver: its intercept is the `alpha` that it is given, which is 3 times 2 rows.
abbrev trained : Dict (Value ℕ) → LinearAnswer ℕ
trained given = record {
  coef = 1 ∷ [];
  intercept = elim (get given "alpha") [ none ↦ 0 | some v ↦ elim v [ float x ↦ x | _ ↦ 0 ] ];
  n_cols = 1;
  dtype = "float32";
}

abbrev ridge : LinearAnswer ℕ
ridge = record { coef = 1 ∷ []; intercept = 6; n_cols = 1; dtype = "float32" }

abbrev ridge_job : Stage ℕ ℕ ℕ Unit (Dict (Attribute ℕ))
ridge_job =
    linear_stage numbers messages (λ comms solver given dfs pdesc. ok (trained given)) all_parts
      ridge_workers
