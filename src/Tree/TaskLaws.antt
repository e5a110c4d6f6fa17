-- ===== src/Tree/TaskLaws.antt =====
-- The fit of a random forest, from the partitions of the dataset to the forest of the model.
use mathlib.Core.Path.{subst}
use spark_rapids_ml.Base.{
  ℕ, zero, suc, ◌≤◌, ◌<◌, ◌≡◌, refl, Bool, true, Option, none, some, List, [], ◌∷◌, map, length,
  flatten, get_elem?, All,
}
use spark_rapids_ml.Py.{ok, bind}
use spark_rapids_ml.Py.Value.{Floats}
use spark_rapids_ml.Utils.Partitions.{Codec, IsFaithful}
use spark_rapids_ml.Core.Inputs.{Pdf, Input, read_inputs}
use spark_rapids_ml.Core.Train.{Stage, partitioned, call_cuml_fit_func, first_row}
use spark_rapids_ml.Core.TrainLaws.{Repartitions}
use spark_rapids_ml.Core.StageRuns.{IsReady, first_row-fit}
use spark_rapids_ml.Tree.Estimators.{estimators_per_worker}
use spark_rapids_ml.Tree.Fit.{Forests, ForestRow, construct_rf}
use spark_rapids_ml.Tree.FitLaws.{
  IsLawful, Trained, share_of, forest_of, sent, rf_fit-trees, rf_fit-later,
}
use spark_rapids_ml.Tree.Task.{BatchJoins, JoinedInputs, join_inputs, rf_task}

module _ {F X Y M Comms : Type 0} (O : Floats F) (J : BatchJoins X Y)
    (W : Forests F (JoinedInputs X Y)) (pickle : Codec M W.Forest) where
  -- A stage whose tasks train forests.
  abbrev pub forest_stage :
      Stage F X Y Comms (Option (ForestRow M))
      → Bool
      → ℕ
      → List ℕ
      → (ℕ → M → List M)
      → Stage F X Y Comms (Option (ForestRow M))
  forest_stage S b n shares all_gather = record S {
    fit = rf_task O J W pickle b n shares all_gather;
  }

  module _ (S : Stage F X Y Comms (Option (ForestRow M))) (b : Bool) (n : ℕ) where
    -- A worker reads and joins its batches, and trains its share of the trees on them.
    abbrev pub Works : List (Pdf Y) → ℕ × JoinedInputs X Y × W.Forest → Type 0
    Works batches (share, d, f) =
        (inputs : List (Input X Y)) × (read_inputs S.to_array S.multi_col_names batches ≡ ok inputs)
        × (join_inputs J inputs ≡ ok d)
        × Trained O W pickle b n S.cuml_params (share, d, f)

    abbrev pub AllWork : List (List (Pdf Y)) → List (ℕ × JoinedInputs X Y × W.Forest) → Type 0
    AllWork [] [] = Unit
    AllWork (batches ∷ partitions) (w ∷ workers) = Works batches w × AllWork partitions workers
    AllWork _ _ = ⊥

    AllWork-Trained :
        (partitions : List (List (Pdf Y))) (workers : List (ℕ × JoinedInputs X Y × W.Forest))
        → AllWork partitions workers
        → All (Trained O W pickle b n S.cuml_params) workers
    AllWork-Trained [] [] h = tt
    AllWork-Trained [] (w ∷ workers) h = elim h [ ]
    AllWork-Trained (p ∷ partitions) [] h = elim h [ ]
    AllWork-Trained (p ∷ partitions) ((share, d, f) ∷ workers) ((inputs, r, j, t), h) =
        (t, AllWork-Trained partitions workers h)

    abbrev WorksAt : Option (List (Pdf Y)) → ℕ × JoinedInputs X Y × W.Forest → Type 0
    WorksAt none w = Unit
    WorksAt (some batches) w = Works batches w

    -- The worker of a partition has a share.
    AllWork-at :
        (partitions : List (List (Pdf Y))) (workers : List (ℕ × JoinedInputs X Y × W.Forest))
        (j : ℕ) (batches : List (Pdf Y))
        → AllWork partitions workers
        → get_elem? partitions j ≡ some batches
        → (w : ℕ × JoinedInputs X Y × W.Forest) × (get_elem? (map (share_of O W pickle) workers) j
            ≡ some w.0)
          × Works batches w
    AllWork-at [] workers j batches h e = cc
    AllWork-at (p ∷ partitions) [] j batches h e = elim h [ ]
    AllWork-at (p ∷ partitions) (w ∷ workers) zero batches (works, h) e =
        (w, refl, subst (λ o. WorksAt o w) e works)
    AllWork-at (p ∷ partitions) (w ∷ workers) (suc j) batches (works, h) e =
        AllWork-at partitions workers j batches h e

    -- The fit of a random forest returns a row, and a model that is made from the row is a forest
    -- with all the trees of all workers in the order of their ranks, as many as the estimator was
    -- asked for. Assumed: one result is collected, and a dataset that is repartitioned has as many
    -- partitions as are asked for; the tasks come as far as the fit function; there
    -- is at least one tree for each worker; every worker reads and joins its batches and its
    -- training returns; and worker 0 receives the forests of all workers in the order of their
    -- ranks.
    pub forest_fit-trees :
        (all_gather : ℕ → M → List M) (dataset : List (List (Pdf Y))) (batches : List (Pdf Y))
        (partitions : List (List (Pdf Y))) (share : ℕ) (d : JoinedInputs X Y) (f : W.Forest)
        (workers : List (ℕ × JoinedInputs X Y × W.Forest))
        (ready : IsReady
          (forest_stage S b n (share ∷ map (share_of O W pickle) workers) all_gather))
        → IsLawful W
        → IsFaithful pickle
        → Repartitions S
        → S.partially_collect ≡ true
        → partitioned S dataset ≡ batches ∷ partitions
        → 0 < S.workers
        → S.workers ≤ n
        → estimators_per_worker n S.workers ≡ ok (share ∷ map (share_of O W pickle) workers)
        → AllWork (batches ∷ partitions) ((share, d, f) ∷ workers)
        → all_gather 0 (pickle.dumps f) ≡ sent O W pickle ((share, d, f) ∷ workers)
        → (row : ForestRow M) × (g : W.Forest) × (bind
              (call_cuml_fit_func
                (forest_stage S b n (share ∷ map (share_of O W pickle) workers) all_gather)
                dataset)
              (first_row
                (forest_stage S b n (share ∷ map (share_of O W pickle) workers) all_gather))
            ≡ ok (some row))
          × (construct_rf O W pickle row.treelite_model ≡ ok g)
          × (W.trees g ≡ flatten (map W.trees (f ∷ map (forest_of O W pickle) workers)))
          × (length (W.trees g) ≡ n)
    unfolding rf_task
    forest_fit-trees all_gather dataset batches partitions share d f workers ready L P again c e pos
          le shared ((inputs, read, joined, t), h) gathered =
        let shares = share ∷ map (share_of O W pickle) workers in
        let (row, fits, g, made, same, count) =
          rf_fit-trees O W pickle b n S.workers S.cuml_params (all_gather 0) share d f workers L P
            pos le shared (t, AllWork-Trained partitions workers h) gathered in
        let first =
          first_row-fit (forest_stage S b n shares all_gather) ready dataset batches partitions
            (some row) again c e (inputs, read, rw joined fits)
            (λ j p q.
              let ((share', d', f'), found, (inputs', read', joined', t')) =
                AllWork-at partitions workers j p h q in
              (
                none,
                (
                  inputs',
                  read',
                  rw joined' (
                      rf_fit-later O W pickle b n shares j share' (all_gather (suc j)) S.cuml_params
                        d' f' found t'),
                ),
              )) in
        (row, g, first, made, same, count)
