-- ===== src/Tests/Neighbors.antt =====
-- The stage of `kneighbors` on two workers.
use spark_rapids_ml.Base.{
  ℕ, zero, suc, ◌≡◌, refl, arith, true, false, none, some, List, [], ◌∷◌, replicate,
  length-replicate,
}
use spark_rapids_ml.Py.{Result, ok}
use spark_rapids_ml.Py.Dict.{get}
use spark_rapids_ml.Py.Value.{pos, bool, int}
use spark_rapids_ml.Utils.Devices.{set_gpu_device, initialize_cuml_logging}
use spark_rapids_ml.Core.Columns.{data_alias, label_alias, row_number_alias}
use spark_rapids_ml.Core.Inputs.{Pdf, many, stacked, read_inputs}
use spark_rapids_ml.Core.Train.{Stage}
use spark_rapids_ml.Core.StageRuns.{IsReady}
use spark_rapids_ml.Knn.Fit.{RankStat, Request, Neighbors, KnnResult, labelled}
use spark_rapids_ml.Knn.FitLaws.{stat_messages}
use spark_rapids_ml.Knn.Positions.{ids_at}
use spark_rapids_ml.Knn.Query.{PartRow, knn_rows}
use spark_rapids_ml.Knn.Stage.{
  RowReading, all_batches, n_neighbors_of, count_of, knn_stage, collected,
}
use spark_rapids_ml.Knn.StageLaws.{collected-all_rows_for}
use spark_rapids_ml.Tests.Models.{messages, messages-IsFaithful}
use spark_rapids_ml.Tests.Workers.{rows_of_workers}

abbrev lists : RowReading (List ℕ) (List ℕ) ℕ
lists = record { feature_rows = λ f. elim f [ many d ↦ [] | stacked x ↦ x ]; integers = λ y. y }

abbrev batch_pdf : List ℕ → List ℕ → List ℕ → Pdf (List ℕ)
batch_pdf xs labels ids = record {
  columns = (data_alias, xs) ∷ (label_alias, labels) ∷ (row_number_alias, ids) ∷ [];
  num_rows = 2;
}

abbrev union_of_two : List (List (Pdf (List ℕ)))
union_of_two =
    (batch_pdf (20 ∷ 21 ∷ []) (0 ∷ 1 ∷ []) (70 ∷ 71 ∷ []) ∷ [])
    ∷ (batch_pdf (22 ∷ []) (0 ∷ []) (72 ∷ []) ∷ [])
    ∷ []

-- The items of both workers are neighbours of the first one's query; the second has none.
abbrev found : Unit {0} → ℕ → Request ℕ → Result (Neighbors ℕ)
found comms zero request = ok (((1 ∷ 2 ∷ []) ∷ []) ∷ [], ((1 ∷ 0 ∷ []) ∷ []) ∷ [])
found comms (suc rank) request = ok ([] ∷ [], [] ∷ [])

abbrev stats : ℕ → RankStat → List RankStat
stats rank m = stat_messages 0 1 messages 0 rows_of_workers

abbrev query_stage : Stage ℕ (List ℕ) (List ℕ) Unit (KnnResult ℕ)
query_stage = record {
  cuml_params = ("n_neighbors", int (pos 2)) ∷ ("verbose", bool false) ∷ [];
  multi_col_names = none;
  dimension = 1;
  workers = 2;
  is_local = true;
  enable_nccl = true;
  require_ucx = true;
  partially_collect = false;
  context = λ i. record { resources = []; partition_id = i };
  total_gpus = 2;
  parse_address = λ a. ok 0;
  to_array = λ y. ok y;
  enter = λ rank nranks nccl ucx. ok tt;
  leave = λ c. ok tt;
  fit = λ rank gpu inputs params. ok (record { query_ids = []; indices = []; distances = [] });
  repartition = λ n d. replicate n [];
}

ready_queries : IsReady (knn_stage lists messages found stats 0 1 query_stage)
unfolding set_gpu_device initialize_cuml_logging get
ready_queries = record {
  level = some (pos 4);
  logging = refl;
  gpu = λ i. i;
  device = λ i lt. refl;
  comms = λ i. tt;
  entered = λ i lt. refl;
  left = λ i lt. refl;
}

collected-all_rows_for_example :
    (rows : List (PartRow ℕ)) × (collected
        (knn_stage lists messages found stats 0 1 query_stage)
        union_of_two
      ≡ ok rows)
    × (knn_rows rows
        ≡ record { query_id = 71; indices = 72 ∷ 70 ∷ []; distances = 1 ∷ 2 ∷ [] } ∷ [])
unfolding n_neighbors_of count_of read_inputs all_batches get labelled ids_at
collected-all_rows_for_example =
    collected-all_rows_for lists messages found stats 0 1 2 query_stage ready_queries union_of_two
      rows_of_workers (((1 ∷ 2 ∷ [], 1 ∷ 0 ∷ []) ∷ []) ∷ [] ∷ []) messages-IsFaithful
      (λ n d. length-replicate n []) refl ((_, refl, refl), ((_, refl, refl), tt))
      ((refl, refl, ((omega arith, (omega arith, tt)), tt), refl), ((refl, refl, tt, refl), tt))
