-- ===== src/Regression/TaskLaws.antt =====
-- The fit of LinearRegression, from the partitions of the dataset to the attributes of the model.
use spark_rapids_ml.Base.{ℕ, String, ◌≡◌, some, List, sum, flatten}
use spark_rapids_ml.Py.{Result, ok}
use spark_rapids_ml.Py.Dict.{Dict, get}
use spark_rapids_ml.Py.Value.{Value, Floats}
use spark_rapids_ml.Utils.Partitions.{Codec, Part, PartitionDescriptor, parts_from}
use spark_rapids_ml.Core.Inputs.{Input}
use spark_rapids_ml.Core.Train.{Stage}
use spark_rapids_ml.Models.Rows.{Attribute, count, number, numbers, text}
use spark_rapids_ml.Regression.Fit.{Solver}
use spark_rapids_ml.Regression.FitLaws.{expected_value, solver_for, product}
use spark_rapids_ml.Regression.Task.{LinearAnswer, linear_task}

-- What the worker of a rank knows of the dataset, if these are the rows of all workers.
abbrev pub descriptor : List (List ℕ) → ℕ → ℕ → PartitionDescriptor
descriptor workers cols rank = record {
  m = sum (flatten workers);
  n = cols;
  rank = rank;
  parts_rank_size = parts_from 0 workers;
}

module _ {F X Y M Comms : Type 0} (O : Floats F) (J : Codec M (List Part))
    (train : Comms
      → Solver
      → Dict (Value F)
      → List (Input X Y)
      → PartitionDescriptor
      → Result (LinearAnswer F))
    (all_gather : ℕ → M → List M) where
  -- A stage whose tasks fit LinearRegression.
  abbrev pub linear_stage :
      Stage F X Y Comms (Dict (Attribute F)) → Stage F X Y Comms (Dict (Attribute F))
  linear_stage S = record S { fit = linear_task O J train all_gather }

  module _ (S : Stage F X Y Comms (Dict (Attribute F))) (a r : Value F) (x : F) where
    -- cuML answers every worker, which constructs the solver that `alpha` and `l1_ratio` choose with
    -- the parameters that it has, where ridge regression's `alpha` is multiplied by the number of all
    -- rows, and fits it to the worker's batches.
    abbrev pub Answers :
        (ℕ → Comms) → List (List ℕ) → (ℕ → List (Input X Y) → LinearAnswer F) → Type 0
    Answers comms workers answer =
        (rank : ℕ) (inputs : List (Input X Y)) (given : Dict (Value F))
        → ((k : String)
            → get given k
              ≡ expected_value (solver_for O a r) S.cuml_params
                  (product O x (sum (flatten workers))) k)
        → train (comms rank) (solver_for O a r) given inputs (descriptor workers S.dimension rank)
          ≡ ok (answer rank inputs)

    -- The attributes of a model, by their names, are what is read from cuML's object.
    abbrev pub Answered : Dict (Attribute F) → LinearAnswer F → Type 0
    Answered attributes answer =
        (get attributes "coef_" ≡ some (numbers answer.coef))
        × (get attributes "intercept_" ≡ some (number answer.intercept))
        × (get attributes "n_cols" ≡ some (count answer.n_cols))
        × (get attributes "dtype" ≡ some (text answer.dtype))
