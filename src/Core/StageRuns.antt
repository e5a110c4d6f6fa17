-- ===== src/Core/StageRuns.antt =====
-- When the tasks of a stage return, and what the driver gets then.
use mathlib.Core.Path.{subst}
use spark_rapids_ml.Base.{
  ℕ, suc, ◌+◌, ◌≤◌, ◌<◌, ◌≡◌, refl, sym, ap, ◌∙◌, true, false, Option, some, List, [], ◌∷◌, map,
  arith, length, get_elem?,
}
use spark_rapids_ml.Py.{ok, bind}
use spark_rapids_ml.Py.Dict.{get}
use spark_rapids_ml.Py.Value.{ℤ}
use spark_rapids_ml.Utils.Devices.{set_gpu_device, initialize_cuml_logging}
use spark_rapids_ml.Core.Inputs.{Pdf, Input, read_inputs}
use spark_rapids_ml.Core.Train.{
  FitParams, Stage, verbose_of, fit_inputs, task_result, partitioned, call_cuml_fit_func, first_row,
}
use spark_rapids_ml.Core.TrainLaws.{Repartitions, length-partitioned}
use spark_rapids_ml.Core.FitReturns.{TasksReturn, run_tasks-first}

module _ {F X Y Comms R : Type 0} (S : Stage F X Y Comms R) where
  -- The params that the fit function is given in a task.
  abbrev pub fit_params : Comms → List (Pdf Y) → FitParams F Comms
  fit_params comms batches = record {
    cuml_init = S.cuml_params;
    comms = comms;
    part_sizes = map (λ pdf. pdf.num_rows) batches;
    num_cols = S.dimension;
  }

  -- The tasks come as far as the fit function: the verbosity is one that is known, every task finds
  -- a device, and every one enters its context and can leave it.
  pub record IsReady : Type 0 where
    pub level : Option ℤ
    pub logging : initialize_cuml_logging (verbose_of (get S.cuml_params "verbose")) ≡ ok level
    pub gpu : ℕ → ℕ
    pub device :
        (i : ℕ)
        → i < S.workers
        → set_gpu_device S.parse_address S.total_gpus (some (S.context i)) S.is_local false
          ≡ ok (gpu i)
    pub comms : ℕ → Comms
    pub entered :
        (i : ℕ) → i < S.workers → S.enter i S.workers S.enable_nccl S.require_ucx ≡ ok (comms i)
    pub left : (i : ℕ) → i < S.workers → S.leave (comms i) ≡ ok tt

  -- The fit function returns this in the task of a partition, on what the task has read.
  abbrev pub FitsTo : IsReady → ℕ → List (Pdf Y) → R → Type 0
  FitsTo ready i batches r =
      (inputs : List (Input X Y)) × (read_inputs S.to_array S.multi_col_names batches ≡ ok inputs)
      × (S.fit i (ready.gpu i) inputs (fit_params (ready.comms i) batches) ≡ ok r)

  pub task_result-fit :
      (ready : IsReady) (i : ℕ) (batches : List (Pdf Y)) (r : R)
      → i < S.workers
      → FitsTo ready i batches r
      → task_result S i batches ≡ ok r
  unfolding task_result fit_inputs
  task_result-fit ready i batches r lt (inputs, p, q) =
      rw (ready.logging, ready.device i lt, ready.entered i lt, ready.left i lt, p, q) refl

  -- The tasks of the partitions from `i` on return, if the fit function does in each of them.
  abbrev FitEach : IsReady → ℕ → List (List (Pdf Y)) → Type 0
  FitEach ready i [] = Unit
  FitEach ready i (batches ∷ partitions) =
      ((r : R) × FitsTo ready i batches r) × FitEach ready (suc i) partitions

  FitEach-TasksReturn :
      (ready : IsReady) (i : ℕ) (partitions : List (List (Pdf Y)))
      → i + length partitions ≤ S.workers
      → FitEach ready i partitions
      → (results : List R) × TasksReturn S i partitions results
  FitEach-TasksReturn ready i [] le h = ([], tt)
  FitEach-TasksReturn ready i (p ∷ partitions) le ((r, q), h) =
      let (results, t) = FitEach-TasksReturn ready (suc i) partitions (omega arith) h in
      (r ∷ results, (task_result-fit ready i p r (omega arith) q, t))

  all-FitEach :
      (ready : IsReady) (i : ℕ) (partitions : List (List (Pdf Y)))
      → ((j : ℕ) (batches : List (Pdf Y))
          → get_elem? partitions j ≡ some batches
          → (r : R) × FitsTo ready (i + j) batches r)
      → FitEach ready i partitions
  all-FitEach ready i [] h = tt
  all-FitEach ready i (p ∷ partitions) h = (
    subst (λ k. (r : R) × FitsTo ready k p r) (omega arith) (h 0 p refl),
    all-FitEach ready (suc i) partitions
        (λ j b e. subst (λ k. (r : R) × FitsTo ready k b r) (omega arith) (h (suc j) b e)),
  )

  -- If the fit function returns in the task of every partition, and a dataset that is repartitioned
  -- has as many partitions as are asked for, the driver gets the row that it has
  -- returned in the first one.
  pub first_row-fit :
      (ready : IsReady) (dataset : List (List (Pdf Y))) (batches : List (Pdf Y))
      (partitions : List (List (Pdf Y))) (r : R)
      → Repartitions S
      → S.partially_collect ≡ true
      → partitioned S dataset ≡ batches ∷ partitions
      → FitsTo ready 0 batches r
      → ((j : ℕ) (b : List (Pdf Y))
          → get_elem? partitions j ≡ some b
          → (r : R) × FitsTo ready (suc j) b r)
      → bind (call_cuml_fit_func S dataset) (first_row S) ≡ ok r
  unfolding call_cuml_fit_func
  first_row-fit ready dataset batches partitions r again b e q h =
      let count : suc (length partitions) ≡ S.workers =
        ap length (sym e) ∙ length-partitioned S dataset again in
      let (results, t) = FitEach-TasksReturn ready 1 partitions (omega arith) (
        all-FitEach ready 1 partitions
          (λ j p f. subst (λ k. (r : R) × FitsTo ready k p r) (omega arith) (h j p f))) in
      rw
        (
          e,
          run_tasks-first S (batches ∷ partitions) r results b
              (task_result-fit ready 0 batches r (omega arith) q, t),
        )
        refl
