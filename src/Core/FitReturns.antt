-- ===== src/Core/FitReturns.antt =====
-- When a fit returns.
use spark_rapids_ml.Base.{ℕ, suc, ◌≡◌, refl, String, true, none, some, List, [], ◌∷◌, if◌then◌else◌}
use spark_rapids_ml.Py.{Result, ok}
use spark_rapids_ml.Py.Dict.{get, has, NodupKeys}
use spark_rapids_ml.Params.Spark.{SparkParams}
use spark_rapids_ml.Params.Values.{Instance}
use spark_rapids_ml.Params.Lifecycle.{copy_cuml_params}
use spark_rapids_ml.Params.Reset.{get-copy_cuml_params}
use spark_rapids_ml.Core.Inputs.{Pdf}
use spark_rapids_ml.Core.Train.{
  Stage, task_result, run_tasks, partitioned, call_cuml_fit_func, fit_estimator,
}
use spark_rapids_ml.Core.TrainLaws.{yielded-later, yielded-first}

module _ {F X Y Comms R : Type 0} (S : Stage F X Y Comms R) where
  -- The tasks of the partitions from `i` on return these results.
  abbrev pub TasksReturn : ℕ → List (List (Pdf Y)) → List R → Type 0
  TasksReturn i [] [] = Unit
  TasksReturn i (batches ∷ partitions) (r ∷ results) =
      (task_result S i batches ≡ ok r) × TasksReturn (suc i) partitions results
  TasksReturn i _ _ = ⊥

  run_tasks-empty :
      (i : ℕ) (partitions : List (List (Pdf Y))) (results : List R)
      → S.partially_collect ≡ true
      → TasksReturn (suc i) partitions results
      → run_tasks S (suc i) partitions ≡ ok []
  unfolding run_tasks
  run_tasks-empty i [] results b t = refl
  run_tasks-empty i (p ∷ partitions) [] b t = elim t [ ]
  run_tasks-empty i (p ∷ partitions) (r ∷ results) b (e, t) =
      rw (e, run_tasks-empty (suc i) partitions results b t, yielded-later S i r b)

  pub run_tasks-first :
      (partitions : List (List (Pdf Y))) (r : R) (results : List R)
      → S.partially_collect ≡ true
      → TasksReturn 0 partitions (r ∷ results)
      → run_tasks S 0 partitions ≡ ok (r ∷ [])
  unfolding run_tasks
  run_tasks-first [] r results b t = elim t [ ]
  run_tasks-first (p ∷ partitions) r results b (e, t) =
      rw (e, run_tasks-empty 0 partitions results b t, yielded-first S r b)

  module _ {P Q : SparkParams F} where
    -- If every task returns, and the constructor makes a model of the first task's result, then the
    -- fit returns a model. It has the estimator's number of workers, the Spark params that pyspark
    -- copies into it, and the model's own cuML params, each with the estimator's value where the
    -- estimator has it too. Assumed: the estimator collects one result, and no cuML param of the
    -- estimator stands twice.
    pub fit_estimator-returns :
        (copy_values : P.State → Q.State → Q.State) (create_model : R → Result (Instance Q))
        (s : Instance P) (dataset : List (List (Pdf Y))) (r : R) (results : List R)
        (model : Instance Q) (k : String)
        → S.partially_collect ≡ true
        → TasksReturn 0 (partitioned S dataset) (r ∷ results)
        → create_model r ≡ ok model
        → NodupKeys s.cuml
        → (fitted : Instance Q) × (fit_estimator S copy_values create_model s dataset ≡ ok fitted)
          × (fitted.num_workers ≡ s.num_workers)
          × (fitted.spark ≡ copy_values s.spark model.spark)
          × (get fitted.cuml k ≡ (
              if has model.cuml k
              then elim (get s.cuml k) [ none ↦ get model.cuml k | some v ↦ some v ]
              else none))
    unfolding fit_estimator call_cuml_fit_func copy_cuml_params
    fit_estimator-returns copy_values create_model s dataset r results model k b t c u =
        let to : Instance Q = record {
          spark = copy_values s.spark model.spark;
          cuml = model.cuml;
          num_workers = s.num_workers;
        } in
        (
          copy_cuml_params {P = P} {Q = Q} s to,
          rw (run_tasks-first (partitioned S dataset) r results b t, c),
          refl,
          refl,
          get-copy_cuml_params {P = P} {Q = Q} s to k u,
        )
