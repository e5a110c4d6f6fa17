-- ===== src/Core/TrainLaws.antt =====
-- Which results the driver collects, and which model it makes of them.
use spark_rapids_ml.Base.{
  ℕ, suc, ◌<◌, String, ◌≡◌, refl, sym, ap, ◌∙◌, true, false, none, some, List, [], ◌∷◌, arith,
  if◌then◌else◌, length, length-append,
}
use spark_rapids_ml.Py.{Result, ok, bind, bind-eq-ok, ok-injective}
use spark_rapids_ml.Py.Dict.{get, has, NodupKeys}
use spark_rapids_ml.Params.Spark.{SparkParams}
use spark_rapids_ml.Params.Values.{Instance}
use spark_rapids_ml.Params.Lifecycle.{copy_cuml_params}
use spark_rapids_ml.Params.Reset.{get-copy_cuml_params}
use spark_rapids_ml.Core.Inputs.{Pdf}
use spark_rapids_ml.Core.Train.{
  Stage, task_result, yielded, run_tasks, partitioned, call_cuml_fit_func, first_row, fit_estimator,
}

module _ {F X Y Comms R : Type 0} (S : Stage F X Y Comms R) where
  -- A dataset that is repartitioned has as many partitions as are asked for.
  abbrev pub Repartitions : Type 0
  Repartitions = (n : ℕ) (d : List (List (Pdf Y))) → length (S.repartition n d) ≡ n

  pub length-partitioned :
      (d : List (List (Pdf Y))) → Repartitions → length (partitioned S d) ≡ S.workers
  length-partitioned d h = ground (arith, h S.workers d)

  length-yielded : (i : ℕ) (r : R) → S.partially_collect ≡ false → length (yielded S i r) ≡ 1
  length-yielded i r b = rw b refl

  pub yielded-later : (i : ℕ) (r : R) → S.partially_collect ≡ true → yielded S (suc i) r ≡ []
  yielded-later i r b = rw b (ground arith)

  pub yielded-first : (r : R) → S.partially_collect ≡ true → yielded S 0 r ≡ r ∷ []
  yielded-first r b = rw b refl

  length-run_tasks :
      (i : ℕ) (partitions : List (List (Pdf Y))) (rows : List R)
      → S.partially_collect ≡ false
      → run_tasks S i partitions ≡ ok rows
      → length rows ≡ length partitions
  unfolding run_tasks
  length-run_tasks i [] rows b h = rw (← ok-injective h) refl
  length-run_tasks i (p ∷ partitions) rows b h =
      let (r, q, h₁) = bind-eq-ok (task_result S i p) _ h in
      let (rest, t, h₂) = bind-eq-ok (run_tasks S (suc i) partitions) _ h₁ in
      ap length (sym (ok-injective h₂))
      ∙ length-append (yielded S i r) rest
      ∙ omega (arith, length-yielded i r b, length-run_tasks (suc i) partitions rest b t)

  run_tasks-later :
      (i : ℕ) (partitions : List (List (Pdf Y))) (rows : List R)
      → S.partially_collect ≡ true
      → run_tasks S (suc i) partitions ≡ ok rows
      → rows ≡ []
  unfolding run_tasks
  run_tasks-later i [] rows b h = sym (ok-injective h)
  run_tasks-later i (p ∷ partitions) rows b h =
      let (r, q, h₁) = bind-eq-ok (task_result S (suc i) p) _ h in
      let (rest, t, h₂) = bind-eq-ok (run_tasks S (suc (suc i)) partitions) _ h₁ in
      sym (ok-injective h₂) ∙ rw (yielded-later i r b) (run_tasks-later (suc i) partitions rest b t)

  -- The first partition's task has made the only row.
  abbrev FirstOnly : List (List (Pdf Y)) → List R → Type 0
  FirstOnly partitions rows =
      (batches : List (Pdf Y)) × (rest : List (List (Pdf Y))) × (r : R) × (partitions
        ≡ batches ∷ rest)
      × (task_result S 0 batches ≡ ok r)
      × (rows ≡ r ∷ [])

  run_tasks-FirstOnly :
      (partitions : List (List (Pdf Y))) (rows : List R)
      → S.partially_collect ≡ true
      → 0 < length partitions
      → run_tasks S 0 partitions ≡ ok rows
      → FirstOnly partitions rows
  unfolding run_tasks
  run_tasks-FirstOnly [] rows b pos h = elim pos [ ]
  run_tasks-FirstOnly (p ∷ partitions) rows b pos h =
      let (r, q, h₁) = bind-eq-ok (task_result S 0 p) _ h in
      let (rest, t, h₂) = bind-eq-ok (run_tasks S 1 partitions) _ h₁ in
      let none_later : rest ≡ [] = run_tasks-later 0 partitions rest b t in
      (p, partitions, r, refl, q, sym (ok-injective h₂) ∙ rw (yielded-first r b, none_later) refl)

  -- If every result is collected and the stage returns, there is one row for each worker.
  -- Assumed: a dataset that is repartitioned has as many partitions as are asked for.
  pub length-call_cuml_fit_func :
      (dataset : List (List (Pdf Y))) (rows : List R)
      → Repartitions
      → S.partially_collect ≡ false
      → call_cuml_fit_func S dataset ≡ ok rows
      → length rows ≡ S.workers
  unfolding call_cuml_fit_func
  length-call_cuml_fit_func dataset rows P b h =
      length-run_tasks 0 (partitioned S dataset) rows b h ∙ length-partitioned dataset P

  module _ {P Q : SparkParams F} where
    -- If a fit returns a model, then the constructor has made it of the result of the first
    -- partition's task, and it has the estimator's number of workers. Its cuML params are those that
    -- the constructor gave it, each with the estimator's value where the estimator has it too.
    -- Assumed: the estimator collects one result, there is a worker, no cuML param of the estimator
    -- stands twice, and a dataset that is repartitioned has as many partitions as are asked for.
    pub fit_estimator-model :
        (copy_values : P.State → Q.State → Q.State) (create_model : R → Result (Instance Q))
        (s : Instance P) (dataset : List (List (Pdf Y))) (fitted : Instance Q) (k : String)
        → Repartitions
        → S.partially_collect ≡ true
        → 0 < S.workers
        → NodupKeys s.cuml
        → fit_estimator S copy_values create_model s dataset ≡ ok fitted
        → (batches : List (Pdf Y)) × (rest : List (List (Pdf Y))) × (r : R) × (model : Instance Q)
          × (partitioned S dataset ≡ batches ∷ rest)
          × (task_result S 0 batches ≡ ok r)
          × (create_model r ≡ ok model)
          × (fitted.num_workers ≡ s.num_workers)
          × (get fitted.cuml k ≡ (
              if has model.cuml k
              then elim (get s.cuml k) [ none ↦ get model.cuml k | some v ↦ some v ]
              else none))
    unfolding fit_estimator call_cuml_fit_func copy_cuml_params
    fit_estimator-model copy_values create_model s dataset fitted k again b pos u h =
        let (row, p, h₁) = bind-eq-ok (bind (call_cuml_fit_func S dataset) (first_row S)) _ h in
        let (rows, q, h₂) = bind-eq-ok (call_cuml_fit_func S dataset) _ p in
        let (model, c, h₃) = bind-eq-ok (create_model row) _ h₁ in
        let (batches, rest, r, e, t, f) =
          run_tasks-FirstOnly (partitioned S dataset) rows b
            (omega (arith, length-partitioned dataset again)) q in
        let same : r ≡ row = ok-injective (rw f at h₂) in
        (
          batches,
          rest,
          r,
          model,
          e,
          t,
          rw same c,
          ap (λ i. i.num_workers) (sym (ok-injective h₃)),
          ap (λ i. get i.cuml k) (sym (ok-injective h₃))
              ∙ get-copy_cuml_params {P = P} {Q = Q} s
                  (record {
                    spark = copy_values s.spark model.spark;
                    cuml = model.cuml;
                    num_workers = s.num_workers;
                  })
                  k u,
        )
