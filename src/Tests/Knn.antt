-- ===== src/Tests/Knn.antt =====
-- The neighbours of one query among two items: the columns, the neighbours and the join.
use mathlib.Core.List.Permᴰ
use spark_rapids_ml.Base.{ℕ, ◌≡◌, refl, arith, true, none, some, List, [], ◌∷◌, map, Permᴰ}
use spark_rapids_ml.Py.{Result, ok}
use spark_rapids_ml.Py.Dict.{Dict, get}
use spark_rapids_ml.Py.Value.{str}
use spark_rapids_ml.Core.Columns.{label_alias, Schema, vector, array_of, float}
use spark_rapids_ml.Knn.Ids.{Frame, ensure_id_col}
use spark_rapids_ml.Knn.Fit.{KnnResult, Row, RankStat, labelled}
use spark_rapids_ml.Knn.FitLaws.{stat_messages}
use spark_rapids_ml.Knn.Frames.{fit_items, union_queries, with_literal, set_cell, union}
use spark_rapids_ml.Knn.Columns.{knn_pre_process}
use spark_rapids_ml.Knn.ColumnsLaws.{Selects, knn_pre_process-Selects}
use spark_rapids_ml.Knn.Join.{Joined, KnnRow, Pair, Joins}
use spark_rapids_ml.Knn.JoinLaws.{matches, IsInner}
use spark_rapids_ml.Knn.Query.{
  Found, kneighbors, run_workers, data_frame, zip_parts, knn_rows, zip_rows,
}
use spark_rapids_ml.Knn.JoinQuery.{
  struct_of, AreJoined, exact_nearest_neighbors_join, exact_nearest_neighbors_join-rows,
}
use spark_rapids_ml.Knn.QueryLaws.{Answer, Cluster, task}
use spark_rapids_ml.Knn.QueryIds.{union_of}
use spark_rapids_ml.Knn.FitQuery.{IsComplete, fit-kneighbors}
use spark_rapids_ml.Tests.Models.{messages, messages-IsFaithful}
use spark_rapids_ml.Tests.Sorting.{
  read_row, one_worker, one_worker-IsSpreading, one_worker-IsReading,
}

abbrev vector_schema : Schema
vector_schema = ("features", vector) ∷ []

knn_pre_process-Selects_example :
    Selects vector_schema "id"
      (some (array_of float))
      (knn_pre_process {F = ℕ} vector_schema (λ c. ok 3) (some (str "features"), none) (some "id"))
unfolding get
knn_pre_process-Selects_example =
    knn_pre_process-Selects vector_schema (λ c. ok 3) "features" "id" none vector 3 refl refl

abbrev item_df : Frame ℕ
item_df = record { columns = "id" ∷ "x" ∷ []; rows = (10 ∷ 1 ∷ []) ∷ (11 ∷ 2 ∷ []) ∷ [] }

abbrev query_df : Frame ℕ
query_df = record { columns = "id" ∷ "x" ∷ []; rows = (20 ∷ 5 ∷ []) ∷ [] }

abbrev workers : List (List (List (Row (List ℕ))))
workers = one_worker.spread (union_of (λ n. n) item_df query_df)

-- The second item is the nearest one.
abbrev nearest : List (Answer ℕ)
nearest = (1 ∷ 2 ∷ [], 1 ∷ 0 ∷ []) ∷ []

abbrev cluster : Cluster (List ℕ) ℕ RankStat
cluster = record {
  codec = messages;
  all_gather = λ rank m. stat_messages 0 1 messages 0 workers;
  cuml = λ rank request. ok (map (λ a. a.0) nearest ∷ [], map (λ a. a.1) nearest ∷ []);
  isdata = 0;
  isquery = 1;
  ncols = 2;
  n_neighbors = 2;
}

fit-kneighbors_example :
    (processed : Frame ℕ) × (found : Found ℕ ℕ) × (rows : List (KnnRow ℕ)) × (fit_items
        (λ n. n)
        true
        "id"
        item_df
      ≡ ok (item_df, processed))
    × (kneighbors one_worker (task cluster) (λ n. n) true "id" item_df processed 1 query_df
        ≡ ok found)
    × (found.knn_df ≡ ok rows)
    × IsComplete cluster one_worker (λ n. n) read_row item_df query_df (nearest ∷ []) rows
unfolding ensure_id_col labelled
fit-kneighbors_example =
    fit-kneighbors cluster one_worker (λ n. n) read_row true "id" item_df query_df item_df query_df
      1 (nearest ∷ []) messages-IsFaithful one_worker-IsSpreading one_worker-IsReading refl refl
      refl refl refl refl refl (refl, (refl, tt)) (refl, tt)
      ((refl, refl, ((omega arith, (omega arith, tt)), tt), refl), tt)

-- A join that makes all the pairs in the order of the left side.
abbrev nested : Joins
nested = record { join = λ p xs ys. matches p xs ys }

nested-IsInner : IsInner nested
nested-IsInner = record { join-matches = λ p xs ys. Permᴰ.refl (matches p xs ys) }

abbrev item : ℕ → ℕ → Dict ℕ
item i x = ("id", i) ∷ ("x", x) ∷ []

abbrev pair : ℕ → ℕ → Pair ℕ
pair i d = record { query_id = 20; item_id = some i; distance = some d }

abbrev knn_row : KnnRow ℕ
knn_row = record { query_id = 20; indices = 11 ∷ 10 ∷ []; distances = 1 ∷ 2 ∷ [] }

-- The task finds both items for the query.
abbrev found_task : ℕ → List (List (Row (List ℕ))) → Result (KnnResult ℕ)
found_task rank batches = ok (record {
  query_ids = (20 ∷ []) ∷ [];
  indices = ((11 ∷ 10 ∷ []) ∷ []) ∷ [];
  distances = ((1 ∷ 2 ∷ []) ∷ []) ∷ [];
})

abbrev labelled_items : Frame ℕ
labelled_items = record {
  columns = "id" ∷ "x" ∷ label_alias ∷ [];
  rows = (10 ∷ 1 ∷ 0 ∷ []) ∷ (11 ∷ 2 ∷ 0 ∷ []) ∷ [];
}

abbrev found : Found ℕ ℕ
found = record { item_df_withid = item_df; query_df_withid = query_df; knn_df = ok (knn_row ∷ []) }

kneighbors_run :
    kneighbors one_worker found_task (λ n. n) true "id" item_df labelled_items 1 query_df ≡ ok found
unfolding kneighbors union_queries ensure_id_col with_literal set_cell union run_workers data_frame
    zip_parts knn_rows zip_rows
kneighbors_run = refl

exact_nearest_neighbors_join-rows_example :
    (joined expected : List (Joined ℕ ℕ)) × (exact_nearest_neighbors_join
        (λ n. some n)
        nested
        one_worker
        found_task
        (λ n. n)
        true
        "id"
        item_df
        labelled_items
        1
        query_df
      ≡ ok (ok joined))
    × Permᴰ joined expected
    × AreJoined true "id"
        (((item 11 2, pair 11 1), item 20 5) ∷ ((item 10 1, pair 10 2), item 20 5) ∷ [])
        expected
unfolding get struct_of
exact_nearest_neighbors_join-rows_example =
    exact_nearest_neighbors_join-rows (λ n. some n) nested one_worker found_task (λ n. n) true "id"
      item_df labelled_items query_df 1 found ((20, (11, 1) ∷ (10, 2) ∷ [], []) ∷ [])
      (((item 11 2, pair 11 1), item 20 5) ∷ ((item 10 1, pair 10 2), item 20 5) ∷ [])
      nested-IsInner kneighbors_run refl refl (refl, (refl, tt)) (refl, (refl, tt))
