-- ===== src/Knn/QueryLaws.antt =====
-- What the workers of `kneighbors` yield.
use mathlib.Core.List.{map-append}
use spark_rapids_ml.Base.{
  ℕ, suc, ◌≡◌, refl, ap, ◌∙◌, List, [], ◌∷◌, ◌++◌, map, arith, length, flatten, All, flatten-append,
}
use spark_rapids_ml.Py.{Result, ok, bind}
use spark_rapids_ml.Utils.Partitions.{Codec, IsFaithful}
use spark_rapids_ml.Knn.Fit.{
  Row, RankStat, Request, Neighbors, KnnResult, labelled, stat_of, cuml_fit,
}
use spark_rapids_ml.Knn.FitLaws.{
  local_of, stat_messages, exact_request, all_rows, cuml_fit-ids, labelled-append,
}
use spark_rapids_ml.Knn.Positions.{ids_at, InRange}
use spark_rapids_ml.Knn.Join.{KnnRow}
use spark_rapids_ml.Knn.Query.{PartRow, zip_rows, knn_rows, run_workers, data_frame}

-- cuML's answer for a query: the distances and the positions of its neighbours.
abbrev pub Answer : Type 0 → Type 0
Answer D = List D × List ℕ

-- What stands around the workers: their messages, cuML on each of them, and what it is asked for.
pub record Cluster (X D M : Type 0) : Type 0 where
  pub codec : Codec M RankStat
  pub all_gather : ℕ → M → List M
  pub cuml : ℕ → Request X → Result (Neighbors D)
  pub isdata : ℕ
  pub isquery : ℕ
  pub ncols : ℕ
  pub n_neighbors : ℕ

module _ {X D M : Type 0} (C : Cluster X D M) where
  abbrev pub task : ℕ → List (List (Row X)) → Result (KnnResult D)
  task rank batches =
      cuml_fit C.codec (C.cuml rank) (C.all_gather rank) C.isdata C.isquery rank C.ncols
        C.n_neighbors batches

  abbrev pub item_ids : List (List (List (Row X))) → List ℕ
  item_ids workers = map (λ r. r.row_number) (all_rows C.isdata C.isquery C.isdata workers)

  abbrev pub query_ids : List (List (Row X)) → List ℕ
  query_ids batches = map (λ r. r.row_number) (labelled C.isquery (flatten batches))

  -- The worker of this rank has a batch and receives the messages of all the workers, and cuML finds
  -- neighbours for each of its queries, at positions among the items of all the workers.
  abbrev pub IsAnswered :
      List (List (List (Row X))) → ℕ → List (List (Row X)) → List (Answer D) → Type 0
  IsAnswered workers rank [] answers = ⊥
  IsAnswered workers rank (rows ∷ batches) answers =
      (C.all_gather rank
          (C.codec.dumps (stat_of rank (local_of C.isdata C.isquery (rows ∷ batches))))
        ≡ stat_messages C.isdata C.isquery C.codec 0 workers)
      × (C.cuml rank
            (exact_request C.isdata C.isquery workers (rows ∷ batches) rank C.ncols C.n_neighbors)
          ≡ ok (map (λ a. a.0) answers ∷ [], map (λ a. a.1) answers ∷ []))
      × All (InRange (item_ids workers)) (map (λ a. a.1) answers)
      × (length answers ≡ length (query_ids (rows ∷ batches)))

  abbrev pub AllAnswered :
      List (List (List (Row X))) → ℕ → List (List (List (Row X))) → List (List (Answer D)) → Type 0
  AllAnswered workers rank [] [] = Unit
  AllAnswered workers rank (w ∷ ws) (a ∷ rest) =
      IsAnswered workers rank w a × AllAnswered workers (suc rank) ws rest
  AllAnswered workers rank _ _ = ⊥

  -- The rows that one worker's queries have to get, and those of all the workers.
  abbrev pub rows_for : List (List (List (Row X))) → List ℕ → List (Answer D) → List (KnnRow D)
  rows_for workers (q ∷ qs) ((distances, positions) ∷ answers) =
      record { query_id = q; indices = ids_at (item_ids workers) positions; distances = distances }
      ∷ rows_for workers qs answers
  rows_for workers _ _ = []

  abbrev pub all_rows_for :
      List (List (List (Row X)))
      → List (List (List (Row X)))
      → List (List (Answer D))
      → List (KnnRow D)
  all_rows_for workers (w ∷ ws) (a ∷ rest) =
      rows_for workers (query_ids w) a ++ all_rows_for workers ws rest
  all_rows_for workers _ _ = []

  abbrev part_of : List (List (List (Row X))) → List (List (Row X)) → List (Answer D) → PartRow D
  part_of workers w answers = record {
    query_ids = query_ids w;
    indices = map (ids_at (item_ids workers)) (map (λ a. a.1) answers);
    distances = map (λ a. a.0) answers;
  }

  abbrev pub parts_of :
      List (List (List (Row X)))
      → List (List (List (Row X)))
      → List (List (Answer D))
      → List (PartRow D)
  parts_of workers (w ∷ ws) (a ∷ rest) = part_of workers w a ∷ parts_of workers ws rest
  parts_of workers _ _ = []

  pub task_lem :
      (workers : List (List (List (Row X)))) (rank : ℕ) (w : List (List (Row X)))
      (answers : List (Answer D))
      → IsFaithful C.codec
      → IsAnswered workers rank w answers
      → bind (task rank w) data_frame ≡ ok (part_of workers w answers ∷ [])
  unfolding data_frame
  task_lem workers rank [] answers F h = elim h [ ]
  task_lem workers rank (rows ∷ batches) answers F (gathered, answered, inside, e) =
      rw
        (cuml_fit-ids C.codec (C.cuml rank) (C.all_gather rank) C.isdata C.isquery rank C.ncols
          C.n_neighbors workers rows batches _ _ F gathered answered inside)
        refl

  pub run_workers-parts :
      (workers : List (List (List (Row X)))) (rank : ℕ) (ws : List (List (List (Row X))))
      (rest : List (List (Answer D)))
      → IsFaithful C.codec
      → AllAnswered workers rank ws rest
      → run_workers task rank ws ≡ ok (parts_of workers ws rest)
  unfolding run_workers
  run_workers-parts workers rank [] [] F h = refl
  run_workers-parts workers rank [] (a ∷ rest) F h = elim h [ ]
  run_workers-parts workers rank (w ∷ ws) [] F h = elim h [ ]
  run_workers-parts workers rank (w ∷ ws) (a ∷ rest) F (h, hs) =
      rw (task_lem workers rank w a F h, run_workers-parts workers (suc rank) ws rest F hs) refl

  zip_rows-rows_for :
      (workers : List (List (List (Row X)))) (qs : List ℕ) (answers : List (Answer D))
      → zip_rows qs
          (map (ids_at (item_ids workers)) (map (λ a. a.1) answers))
          (map (λ a. a.0) answers)
        ≡ rows_for workers qs answers
  unfolding zip_rows
  zip_rows-rows_for workers [] answers = refl
  zip_rows-rows_for workers (q ∷ qs) [] = refl
  zip_rows-rows_for workers (q ∷ qs) ((d, p) ∷ answers) =
      rw (zip_rows-rows_for workers qs answers) refl

  pub knn_rows-all_rows_for :
      (workers ws : List (List (List (Row X)))) (rest : List (List (Answer D)))
      → knn_rows (parts_of workers ws rest) ≡ all_rows_for workers ws rest
  unfolding knn_rows
  knn_rows-all_rows_for workers [] rest = refl
  knn_rows-all_rows_for workers (w ∷ ws) [] = refl
  knn_rows-all_rows_for workers (w ∷ ws) (a ∷ rest) =
      rw (zip_rows-rows_for workers (query_ids w) a, knn_rows-all_rows_for workers ws rest) refl

  query_id-rows_for :
      (workers : List (List (List (Row X)))) (qs : List ℕ) (answers : List (Answer D))
      → length answers ≡ length qs
      → map (λ r. r.query_id) (rows_for workers qs answers) ≡ qs
  query_id-rows_for workers [] answers e = refl
  query_id-rows_for workers (q ∷ qs) [] e = absurd (omega arith)
  query_id-rows_for workers (q ∷ qs) (a ∷ answers) e =
      ap (λ l. q ∷ l) (query_id-rows_for workers qs answers (omega arith))

  pub query_id-all_rows_for :
      (workers : List (List (List (Row X)))) (rank : ℕ) (ws : List (List (List (Row X))))
      (rest : List (List (Answer D)))
      → AllAnswered workers rank ws rest
      → map (λ r. r.query_id) (all_rows_for workers ws rest)
        ≡ map (λ r. r.row_number) (all_rows C.isdata C.isquery C.isquery ws)
  unfolding labelled
  query_id-all_rows_for workers rank [] [] h = refl
  query_id-all_rows_for workers rank [] (a ∷ rest) h = elim h [ ]
  query_id-all_rows_for workers rank (w ∷ ws) [] h = elim h [ ]
  query_id-all_rows_for workers rank ([] ∷ ws) (a ∷ rest) (h, hs) = elim h [ ]
  query_id-all_rows_for workers rank ((rows ∷ batches) ∷ ws) (a ∷ rest) ((_, _, _, e), hs) =
      map-append _ (rows_for workers (query_ids (rows ∷ batches)) a) (all_rows_for workers ws rest)
      ∙ rw
          (
            query_id-rows_for workers (query_ids (rows ∷ batches)) a e,
            query_id-all_rows_for workers (suc rank) ws rest hs,
          )
          (simp (flatten-append, labelled-append, map-append))
