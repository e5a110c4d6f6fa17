-- ===== src/Knn/FitQuery.antt =====
-- From `fit` to the neighbours that `kneighbors` finds.
use spark_rapids_ml.Base.{
  ℕ, ◌≡◌, refl, String, Bool, false, List, [], ◌∷◌, ◌++◌, map, length, All, Permᴰ, same_order,
  map-Permᴰ,
}
use spark_rapids_ml.Py.{ok}
use spark_rapids_ml.Py.Dict.{contains}
use spark_rapids_ml.Core.Columns.{label_alias}
use spark_rapids_ml.Utils.Partitions.{IsFaithful}
use spark_rapids_ml.Knn.Ids.{Frame, ensure_id_col}
use spark_rapids_ml.Knn.Fit.{Row}
use spark_rapids_ml.Knn.Frames.{fit_items, union_queries}
use spark_rapids_ml.Knn.Join.{KnnRow}
use spark_rapids_ml.Knn.Query.{Spreading, Found, kneighbors}
use spark_rapids_ml.Knn.QueryLaws.{Answer, Cluster, task, item_ids, AllAnswered, all_rows_for}
use spark_rapids_ml.Knn.QueryRows.{Ascends, IsSpreading, kneighbors-rows}
use spark_rapids_ml.Knn.QueryIds.{
  IsReading, union_of, id_of, labelled_rows, with_literal-labelled, union_queries-union_of,
  item_rows, query_rows, ids,
}

module _ {A X D M : Type 0} (C : Cluster X D M) (S : Spreading A X D) (of_number : ℕ → A)
    (read : List String → List A → Row X) where
  -- What holds of the frame of the neighbours.
  abbrev pub IsComplete : Frame A → Frame A → List (List (Answer D)) → List (KnnRow D) → Type 0
  IsComplete items queries answers rows =
      Permᴰ rows (
        all_rows_for C (S.spread (union_of of_number items queries))
          (S.spread (union_of of_number items queries)) answers)
      × Permᴰ (map (λ r. r.query_id) rows) (map (id_of of_number read items.columns 1) queries.rows)
      × Permᴰ (item_ids C (S.spread (union_of of_number items queries)))
          (map (id_of of_number read items.columns 0) items.rows)
      × Ascends (map (λ r. r.query_id) rows)

  -- After a fit, `kneighbors` returns, and when its data frame is read, the tasks return. It has one
  -- row for each row of the queries, by its id, and these ascend. Each row has the distances that cuML
  -- has found for the query, and the ids of the items at the positions that cuML has found, among the
  -- items of all the workers, whose ids are those of the rows of the items. Assumed: the ids can be
  -- added, no column has the name of the label, the workers tell items and queries by the labels 0 and
  -- 1, items and queries have the same number of columns, and each row a cell for each column; every
  -- worker has a batch and receives all messages, which are read back as they were written; cuML finds
  -- neighbours for each query, at positions within the items; and Spark reads, moves and sorts the rows
  -- without losing one.
  pub fit-kneighbors :
      (is_set : Bool) (id_col : String) (item_df query_df items queries : Frame A) (partitions : ℕ)
      (answers : List (List (Answer D)))
      → IsFaithful C.codec
      → IsSpreading S
      → IsReading of_number read S
      → C.isdata ≡ 0
      → C.isquery ≡ 1
      → ensure_id_col of_number is_set id_col item_df ≡ ok items
      → ensure_id_col of_number is_set id_col query_df ≡ ok queries
      → contains items.columns label_alias ≡ false
      → contains queries.columns label_alias ≡ false
      → length items.columns ≡ length queries.columns
      → All (λ row. length row ≡ length items.columns) items.rows
      → All (λ row. length row ≡ length items.columns) queries.rows
      → AllAnswered C
          (S.spread (union_of of_number items queries))
          0
          (S.spread (union_of of_number items queries))
          answers
      → (processed : Frame A) × (found : Found A D) × (rows : List (KnnRow D)) × (fit_items
            of_number is_set id_col item_df
          ≡ ok (items, processed))
        × (kneighbors S (task C) of_number is_set id_col items processed partitions query_df
            ≡ ok found)
        × (found.knn_df ≡ ok rows)
        × IsComplete items queries answers rows
  unfolding fit_items
  fit-kneighbors is_set id_col item_df query_df items queries partitions answers F I R isdata
        isquery p q u v e wide wide_queries h =
      let processed : Frame A = record {
        columns = items.columns ++ (label_alias ∷ []);
        rows = labelled_rows of_number items.rows 0;
      } in
      let united : union_queries of_number is_set id_col processed query_df
          ≡ ok (queries, union_of of_number items queries) =
        union_queries-union_of of_number is_set id_col items query_df queries q v e in
      let (found, rows, called, computed, exact, queried, sorted) =
        kneighbors-rows C S of_number is_set id_col items processed query_df queries
          (union_of of_number items queries) partitions answers F I united h in
      (
        processed,
        found,
        rows,
        rw (p, with_literal-labelled of_number items 0 u) refl,
        called,
        computed,
        (
          exact,
          Permᴰ.trans queried (
              Permᴰ.trans
                (map-Permᴰ (λ r. r.row_number)
                  (rw isquery (query_rows S of_number read items queries R u wide wide_queries)))
                (same_order (ids of_number read items.columns queries.rows 1))),
          Permᴰ.trans
              (map-Permᴰ (λ r. r.row_number)
                (rw isdata (item_rows S of_number read items queries R u wide wide_queries)))
              (same_order (ids of_number read items.columns items.rows 0)),
          sorted,
        ),
      )
