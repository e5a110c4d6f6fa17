-- ===== src/Knn/Query.antt =====
-- `kneighbors` of knn.NearestNeighborsModel, from the data frames of items and queries to that of
-- the neighbours.
use spark_rapids_ml.Base.{
  ℕ, suc, String, Bool, ◌&&◌, List, [], ◌∷◌, ◌++◌, length, ◌==◌, if◌then◌else◌,
}
use spark_rapids_ml.Py.{Result, ok, err, value_error, bind}
use spark_rapids_ml.Knn.Ids.{Frame}
use spark_rapids_ml.Knn.Fit.{Row, KnnResult}
use spark_rapids_ml.Knn.Frames.{union_queries}
use spark_rapids_ml.Knn.Join.{KnnRow}

-- A row of the stage's result: the queries of one part, their neighbours and the distances.
pub record PartRow (D : Type 0) : Type 0 where
  pub query_ids : List ℕ
  pub indices : List (List ℕ)
  pub distances : List (List D)

module _ {D : Type 0} where
  unfoldable pub zip_parts :
      List (List ℕ) → List (List (List ℕ)) → List (List (List D)) → List (PartRow D)
  zip_parts (q ∷ qs) (i ∷ is) (d ∷ ds) =
      record { query_ids = q; indices = i; distances = d } ∷ zip_parts qs is ds
  zip_parts _ _ _ = []

  -- pd.DataFrame(data=result): the columns have one length
  unfoldable pub data_frame : KnnResult D → Result (List (PartRow D))
  unfolding zip_parts
  data_frame r =
      if length r.query_ids == length r.indices && length r.query_ids == length r.distances
      then ok (zip_parts r.query_ids r.indices r.distances)
      else err value_error

  -- zip(row[query_id_col_name], row["indices"], row["distances"]), as long as the shortest
  unfoldable pub zip_rows : List ℕ → List (List ℕ) → List (List D) → List (KnnRow D)
  zip_rows (q ∷ qs) (i ∷ is) (d ∷ ds) =
      record { query_id = q; indices = i; distances = d } ∷ zip_rows qs is ds
  zip_rows _ _ _ = []

  -- pipelinedrdd.flatMap(…)
  unfoldable pub knn_rows : List (PartRow D) → List (KnnRow D)
  unfolding zip_rows
  knn_rows [] = []
  knn_rows (row ∷ rows) = zip_rows row.query_ids row.indices row.distances ++ knn_rows rows

  -- The tasks of the workers from rank `i` on, each of which yields the rows of its result.
  unfoldable pub run_workers :
      {W : Type 0} → (ℕ → W → Result (KnnResult D)) → ℕ → List W → Result (List (PartRow D))
  unfolding data_frame
  run_workers task i [] = ok []
  run_workers task i (w ∷ workers) =
      bind (bind (task i w) data_frame)
        (λ rows. bind (run_workers task (suc i) workers) (λ rest. ok (rows ++ rest)))

-- What Spark does with the data frames: it spreads the selected columns of the union over the
-- workers, in batches, and moves and sorts the rows of the result.
pub record Spreading (A X D : Type 0) : Type 0 where
  pub spread : Frame A → List (List (List (Row X)))
  pub repartition : ℕ → List (PartRow D) → List (PartRow D)
  pub sort : List (KnnRow D) → List (KnnRow D)

-- What `kneighbors` returns. The neighbours are computed when they are read.
pub record Found (A D : Type 0) : Type 0 where
  pub item_df_withid : Frame A
  pub query_df_withid : Frame A
  pub knn_df : Result (List (KnnRow D))

module _ {A X D : Type 0} where
  -- The rows of the data frame of the neighbours, which are computed by the workers' tasks.
  abbrev pub knn_df_of :
      Spreading A X D
      → (ℕ → List (List (Row X)) → Result (KnnResult D))
      → ℕ
      → Frame A
      → Result (List (KnnRow D))
  knn_df_of S task partitions union_df =
      bind (run_workers task 0 (S.spread union_df))
        (λ rows. ok (S.sort (knn_rows (S.repartition partitions rows))))

  -- `item_df_withid` and `processed_item_df` are fields of the model, and `partitions` is the number
  -- of partitions of `query_df`.
  unfoldable pub kneighbors :
      Spreading A X D
      → (ℕ → List (List (Row X)) → Result (KnnResult D))
      → (ℕ → A)
      → Bool
      → String
      → Frame A
      → Frame A
      → ℕ
      → Frame A
      → Result (Found A D)
  kneighbors S task of_number is_set id_col item_df_withid processed_item_df partitions query_df =
      bind (union_queries of_number is_set id_col processed_item_df query_df)
        (λ (queries, union_df). ok (record {
          item_df_withid = item_df_withid;
          query_df_withid = queries;
          knn_df = knn_df_of S task partitions union_df;
        }))
