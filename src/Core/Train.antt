-- ===== src/Core/Train.antt =====
-- `_CumlCaller._call_cuml_fit_func` and `_CumlEstimator._fit`: the tasks of the barrier stage, and
-- the model that is made of their results.
use spark_rapids_ml.Base.{
  ℕ, suc, String, Bool, false, Option, none, some, List, [], ◌∷◌, ◌++◌, map, ◌==◌, if◌then◌else◌,
  length,
}
use spark_rapids_ml.Py.{Result, ok, err, index_error, type_error, bind}
use spark_rapids_ml.Py.Dict.{Dict, get}
use spark_rapids_ml.Py.Value.{pos, Value, none_value, bool, int}
use spark_rapids_ml.Params.Spark.{SparkParams}
use spark_rapids_ml.Params.Values.{Instance}
use spark_rapids_ml.Params.Lifecycle.{copy_cuml_params}
use spark_rapids_ml.Core.Inputs.{Pdf, Input, read_inputs}
use spark_rapids_ml.Utils.Devices.{TaskContext, set_gpu_device, initialize_cuml_logging}

-- `_CumlParams.num_workers`: what was set, or else what is inferred.
unfoldable pub num_workers : {F : Type 0} → ℕ → Value F → Result ℕ
num_workers inferred none_value = ok inferred
num_workers inferred (int (pos n)) = ok n
num_workers inferred _ = err type_error

-- The dict of params that a fit function is given.
pub record FitParams (F Comms : Type 0) : Type 0 where
  pub cuml_init : Dict (Value F)
  -- the handle and the event loop of the CumlContext
  pub comms : Comms
  pub part_sizes : List ℕ
  pub num_cols : ℕ

-- What the driver sends to the tasks, and the machine that they run on. `X` is the type of arrays,
-- `Y` that of columns, and `R` that of the results.
pub record Stage (F X Y Comms R : Type 0) : Type 0 where
  pub cuml_params : Dict (Value F)
  pub multi_col_names : Option (List String)
  pub dimension : ℕ
  pub workers : ℕ
  pub is_local : Bool
  pub enable_nccl : Bool
  pub require_ucx : Bool
  pub partially_collect : Bool
  -- the context of a task, by its partition
  pub context : ℕ → TaskContext
  pub total_gpus : ℕ
  pub parse_address : String → Result ℕ
  -- np.array of the values of a column
  pub to_array : Y → Result X
  -- CumlContext(partition_id, num_workers, context, enable_nccl, require_ucx), entered
  pub enter : ℕ → ℕ → Bool → Bool → Result Comms
  -- __exit__
  pub leave : Comms → Result (Unit {0})
  -- the fit function, in the task of a partition and on a device
  pub fit : ℕ → ℕ → List (Input X Y) → FitParams F Comms → Result R
  pub repartition : ℕ → List (List (Pdf Y)) → List (List (Pdf Y))

-- cuml_params.get("verbose", False)
abbrev pub verbose_of : {F : Type 0} → Option (Value F) → Value F
verbose_of none = bool false
verbose_of (some v) = v

module _ {F X Y Comms R : Type 0} (S : Stage F X Y Comms R) where
  -- The body of the with statement.
  unfoldable pub fit_inputs : ℕ → ℕ → Comms → List (Pdf Y) → Result R
  fit_inputs partition_id gpu comms batches =
      bind (read_inputs S.to_array S.multi_col_names batches) (λ inputs.
        S.fit partition_id gpu inputs (record {
          cuml_init = S.cuml_params;
          comms = comms;
          part_sizes = map (λ pdf. pdf.num_rows) batches;
          num_cols = S.dimension;
        }))

  -- The context is left whether or not the body raises. What is raised there comes first.
  abbrev pub after_exit : Result (Unit {0}) → Result R → Result R
  after_exit (err e) result = err e
  after_exit (ok _) result = result

  -- The result of the task of a partition.
  unfoldable pub task_result : ℕ → List (Pdf Y) → Result R
  unfolding fit_inputs
  task_result partition_id batches =
      bind (initialize_cuml_logging (verbose_of (get S.cuml_params "verbose"))) (λ level.
        bind
          (set_gpu_device S.parse_address S.total_gpus (some (S.context partition_id)) S.is_local
            false)
          (λ gpu.
            bind (S.enter partition_id S.workers S.enable_nccl S.require_ucx)
              (λ comms. after_exit (S.leave comms) (fit_inputs partition_id gpu comms batches))))

  -- What a task yields of its result.
  abbrev pub yielded : ℕ → R → List R
  yielded partition_id result =
      if S.partially_collect then if partition_id == 0 then result ∷ [] else [] else result ∷ []

  -- The tasks of the partitions from `i` on. If one fails, the stage fails.
  unfoldable pub run_tasks : ℕ → List (List (Pdf Y)) → Result (List R)
  unfolding task_result
  run_tasks i [] = ok []
  run_tasks i (batches ∷ partitions) =
      bind (task_result i batches)
        (λ result. bind (run_tasks (suc i) partitions) (λ rest. ok (yielded i result ++ rest)))

  abbrev pub partitioned : List (List (Pdf Y)) → List (List (Pdf Y))
  partitioned dataset =
      if length dataset == S.workers then dataset else S.repartition S.workers dataset

  unfoldable pub call_cuml_fit_func : List (List (Pdf Y)) → Result (List R)
  unfolding run_tasks
  call_cuml_fit_func dataset = run_tasks 0 (partitioned dataset)

  -- collect()[0]
  abbrev pub first_row : List R → Result R
  first_row [] = err index_error
  first_row (r ∷ rows) = ok r

  unfoldable pub fit_estimator :
      {P Q : SparkParams F}
      → (P.State → Q.State → Q.State)
      → (R → Result (Instance Q))
      → Instance P
      → List (List (Pdf Y))
      → Result (Instance Q)
  fit_estimator copy_values create_model s dataset =
      bind (bind (call_cuml_fit_func dataset) first_row) (λ row. bind (create_model row) (λ model.
        ok (
          copy_cuml_params s (record {
            spark = copy_values s.spark model.spark;
            cuml = model.cuml;
            num_workers = s.num_workers;
          }))))
