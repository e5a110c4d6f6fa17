-- ===== src/Knn/StageLaws.antt =====
-- The stage of `kneighbors` yields what its workers compute.
use spark_rapids_ml.Base.{ℕ, suc, ◌+◌, ◌≤◌, ◌≡◌, refl, List, [], ◌∷◌, arith, length}
use spark_rapids_ml.Py.{Result, ok, bind-eq-ok}
use spark_rapids_ml.Utils.Partitions.{Codec, IsFaithful}
use spark_rapids_ml.Core.Inputs.{Pdf, Input, read_inputs}
use spark_rapids_ml.Core.Train.{Stage, run_tasks, partitioned, call_cuml_fit_func}
use spark_rapids_ml.Core.TrainLaws.{Repartitions, length-partitioned}
use spark_rapids_ml.Core.StageRuns.{IsReady, task_result-fit}
use spark_rapids_ml.Knn.Fit.{Row, RankStat, Request, Neighbors, KnnResult}
use spark_rapids_ml.Knn.Query.{PartRow, knn_rows, data_frame}
use spark_rapids_ml.Knn.QueryLaws.{
  Answer, Cluster, task, task_lem, AllAnswered, all_rows_for, parts_of, knn_rows-all_rows_for,
}
use spark_rapids_ml.Knn.Stage.{
  n_neighbors_of, RowReading, all_batches, knn_task, knn_stage, part_rows, collected,
}

module _ {F X Y A D M Comms : Type 0} (V : RowReading X Y A) (J : Codec M RankStat)
    (cuml : Comms → ℕ → Request A → Result (Neighbors D)) (all_gather : ℕ → M → List M)
    (isdata isquery k : ℕ) (S : Stage F X Y Comms (KnnResult D)) where
  -- A partition is read as these batches of rows.
  abbrev pub IsReadAs : List (Pdf Y) → List (List (Row A)) → Type 0
  IsReadAs batches w =
      (inputs : List (Input X Y)) × (read_inputs S.to_array S.multi_col_names batches ≡ ok inputs)
      × (all_batches V inputs ≡ ok w)

  abbrev pub AreReadAs : List (List (Pdf Y)) → List (List (List (Row A))) → Type 0
  AreReadAs [] [] = Unit
  AreReadAs (p ∷ partitions) (w ∷ ws) = IsReadAs p w × AreReadAs partitions ws
  AreReadAs _ _ = ⊥

  -- What stands around the workers of the stage.
  abbrev pub cluster : (ℕ → Comms) → Cluster A D M
  cluster comms = record {
    codec = J;
    all_gather = all_gather;
    cuml = λ rank. cuml (comms rank) rank;
    isdata = isdata;
    isquery = isquery;
    ncols = S.dimension;
    n_neighbors = k;
  }

  abbrev pub stage : Stage F X Y Comms (KnnResult D)
  stage = knn_stage V J cuml all_gather isdata isquery S

  run_tasks-parts :
      (ready : IsReady stage) (workers : List (List (List (Row A)))) (i : ℕ)
      (partitions : List (List (Pdf Y))) (ws : List (List (List (Row A))))
      (rest : List (List (Answer D)))
      → IsFaithful J
      → n_neighbors_of S.cuml_params ≡ ok k
      → i + length partitions ≤ S.workers
      → AreReadAs partitions ws
      → AllAnswered (cluster ready.comms) workers i ws rest
      → (results : List (KnnResult D)) × (run_tasks stage i partitions ≡ ok results)
        × (part_rows results ≡ ok (parts_of (cluster ready.comms) workers ws rest))
  unfolding run_tasks part_rows knn_task
  run_tasks-parts ready workers i [] [] [] L n le h a = ([], refl, refl)
  run_tasks-parts ready workers i [] [] (x ∷ rest) L n le h a = elim a [ ]
  run_tasks-parts ready workers i [] (w ∷ ws) rest L n le h a = elim h [ ]
  run_tasks-parts ready workers i (p ∷ partitions) [] rest L n le h a = elim h [ ]
  run_tasks-parts ready workers i (p ∷ partitions) (w ∷ ws) [] L n le h a = elim a [ ]
  run_tasks-parts ready workers i (p ∷ partitions) (w ∷ ws) (x ∷ rest) L n le ((inputs, e, b), h)
        (a, others) =
      let (r, t, f) =
        bind-eq-ok (task (cluster ready.comms) i w) data_frame
          (task_lem (cluster ready.comms) workers i w x L a) in
      let (results, q, g) =
        run_tasks-parts ready workers (suc i) partitions ws rest L n (omega arith) h others in
      let fitted = task_result-fit stage ready i p r (omega arith) (inputs, e, rw (n, b) t) in
      (r ∷ results, rw (fitted, q) refl, rw (f, g) refl)

  -- The stage of `kneighbors` returns, and its rows hold one row for each query of each worker, in
  -- the order of the ranks: the query's id, the ids of the items that cuML has found for it, and
  -- the distances. Assumed: a dataset that is repartitioned has as many partitions as are asked
  -- for; the tasks come as far as the fit function; `n_neighbors` and `verbose` are given; every
  -- partition is read as the batches of a worker; every worker has a batch, receives the messages of
  -- all the workers and is answered by cuML at positions among the items of all; and messages are
  -- read back as they were written.
  pub collected-all_rows_for :
      (ready : IsReady stage) (dataset : List (List (Pdf Y))) (workers : List (List (List (Row A))))
      (answers : List (List (Answer D)))
      → IsFaithful J
      → Repartitions S
      → n_neighbors_of S.cuml_params ≡ ok k
      → AreReadAs (partitioned S dataset) workers
      → AllAnswered (cluster ready.comms) workers 0 workers answers
      → (rows : List (PartRow D)) × (collected stage dataset ≡ ok rows)
        × (knn_rows rows ≡ all_rows_for (cluster ready.comms) workers workers answers)
  unfolding collected call_cuml_fit_func
  collected-all_rows_for ready dataset workers answers L again n h a =
      let (results, q, g) =
        run_tasks-parts ready workers 0 (partitioned S dataset) workers answers L n
          (omega (arith, length-partitioned S dataset again)) h a in
      (
        parts_of (cluster ready.comms) workers workers answers,
        rw q g,
        knn_rows-all_rows_for (cluster ready.comms) workers workers answers,
      )
