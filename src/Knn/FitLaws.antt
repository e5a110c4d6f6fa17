-- ===== src/Knn/FitLaws.antt =====
-- The neighbours that a worker returns are named by the ids of the items.
use spark_rapids_ml.Base.{
  flatten-append, ℕ, suc, ◌≡◌, refl, ap, ◌∙◌, List, [], ◌∷◌, ◌++◌, map, arith, length, sum, flatten,
  get_elem?, All, length-append, length-map,
}
use mathlib.Core.List.{append_assoc, append-nil, map-append}
use spark_rapids_ml.Py.{Result, ok}
use spark_rapids_ml.Utils.Partitions.{Codec, IsFaithful, Part, sizes}
use spark_rapids_ml.Knn.Rows.{find-id2row}
use spark_rapids_ml.Knn.Fit.{
  Row, RankStat, Request, Neighbors, Local, labelled, gather_batches, empty_local, stat_of,
  load_stats, item_parts_to_ranks, query_parts_to_ranks, request_of, answer, cuml_fit,
}
use spark_rapids_ml.Knn.Positions.{ids_at, InRange, transformed-ids_at}

module _ {X : Type 0} where
  pub labelled-append :
      (l : ℕ) (xs ys : List (Row X)) → labelled l (xs ++ ys) ≡ labelled l xs ++ labelled l ys
  unfolding labelled
  labelled-append l [] ys = refl
  labelled-append l (x ∷ xs) ys = ground (arith, labelled-append l xs ys)

  module _ (isdata isquery : ℕ) where
    -- What a worker has to gather from its batches.
    abbrev pub local_of : List (List (Row X)) → Local X
    local_of batches = record {
      item = map (λ r. r.x) (labelled isdata (flatten batches));
      query = map (λ r. r.x) (labelled isquery (flatten batches));
      item_row_number = map (λ r. r.row_number) (labelled isdata (flatten batches));
      query_row_number = map (λ r. r.row_number) (labelled isquery (flatten batches));
    }

    abbrev join : Local X → Local X → Local X
    join a b = record {
      item = a.item ++ b.item;
      query = a.query ++ b.query;
      item_row_number = a.item_row_number ++ b.item_row_number;
      query_row_number = a.query_row_number ++ b.query_row_number;
    }

    gather_batches-join :
        (batches : List (List (Row X))) (acc : Local X)
        → gather_batches isdata isquery batches acc ≡ join acc (local_of batches)
    unfolding gather_batches
    gather_batches-join [] acc = simp append-nil
    gather_batches-join (rows ∷ batches) acc =
        gather_batches-join batches _ ∙ simp (labelled-append, map-append, append_assoc)

    -- The workers' statistics in the order of their ranks, from rank `i` on.
    abbrev pub stats_from : ℕ → List (List (List (Row X))) → List RankStat
    stats_from i [] = []
    stats_from i (w ∷ workers) = stat_of i (local_of w) ∷ stats_from (suc i) workers

    abbrev pub stat_messages :
        {M : Type 0} → Codec M RankStat → ℕ → List (List (List (Row X))) → List M
    stat_messages J i [] = []
    stat_messages J i (w ∷ workers) =
        J.dumps (stat_of i (local_of w)) ∷ stat_messages J (suc i) workers

    load_stats-stat_messages :
        {M : Type 0} (J : Codec M RankStat) (i : ℕ) (workers : List (List (List (Row X))))
        → IsFaithful J
        → load_stats J (stat_messages J i workers) ≡ ok (stats_from i workers)
    unfolding load_stats
    load_stats-stat_messages J i [] F = refl
    load_stats-stat_messages J i (w ∷ workers) F =
        rw (F.loads-dumps (stat_of i (local_of w)), load_stats-stat_messages J (suc i) workers F)

    -- The rows with a label, of all the workers, in the order of their ranks.
    abbrev pub all_rows : ℕ → List (List (List (Row X))) → List (Row X)
    all_rows l workers = labelled l (flatten (flatten workers))

    flatten-stats_from :
        (i : ℕ) (workers : List (List (List (Row X))))
        → flatten (flatten (map (λ s. s.item_row_number) (stats_from i workers)))
          ≡ map (λ r. r.row_number) (all_rows isdata workers)
    unfolding labelled
    flatten-stats_from i [] = refl
    flatten-stats_from i (w ∷ workers) =
        ap (λ l. map (λ r. r.row_number) (labelled isdata (flatten w)) ++ l)
          (flatten-stats_from (suc i) workers)
        ∙ simp (flatten-append, labelled-append, map-append)

    -- One part for each worker, with the number of its rows of a label.
    abbrev pub counts_from : ℕ → ℕ → List (List (List (Row X))) → List Part
    counts_from l i [] = []
    counts_from l i (w ∷ workers) =
        (i, length (labelled l (flatten w))) ∷ counts_from l (suc i) workers

    item_parts-stats_from :
        (i : ℕ) (workers : List (List (List (Row X))))
        → item_parts_to_ranks (stats_from i workers) ≡ counts_from isdata i workers
    unfolding item_parts_to_ranks
    item_parts-stats_from i [] = refl
    item_parts-stats_from i (w ∷ workers) =
        rw (length-map, item_parts-stats_from (suc i) workers) refl

    query_parts-stats_from :
        (i : ℕ) (workers : List (List (List (Row X))))
        → query_parts_to_ranks (stats_from i workers) ≡ counts_from isquery i workers
    unfolding query_parts_to_ranks
    query_parts-stats_from i [] = refl
    query_parts-stats_from i (w ∷ workers) =
        rw (length-map, query_parts-stats_from (suc i) workers) refl

    sum-counts_from :
        (l i : ℕ) (workers : List (List (List (Row X))))
        → sum (sizes (counts_from l i workers)) ≡ length (all_rows l workers)
    unfolding labelled
    sum-counts_from l i [] = refl
    sum-counts_from l i (w ∷ workers) =
        rw (sum-counts_from l (suc i) workers, flatten-append, labelled-append, length-append) refl

    -- The request that a worker has to make: its own items and queries, where all of them are, and
    -- how many there are of each.
    abbrev pub exact_request :
        List (List (List (Row X))) → List (List (Row X)) → ℕ → ℕ → ℕ → Request X
    exact_request workers w rank ncols n_neighbors = record {
      index = map (λ r. r.x) (labelled isdata (flatten w)) ∷ [];
      index_parts_to_ranks = counts_from isdata 0 workers;
      index_nrows = length (all_rows isdata workers);
      query = map (λ r. r.x) (labelled isquery (flatten w)) ∷ [];
      query_parts_to_ranks = counts_from isquery 0 workers;
      query_nrows = length (all_rows isquery workers);
      ncols = ncols;
      rank = rank;
      n_neighbors = n_neighbors;
    }

    request_of-exact :
        (workers : List (List (List (Row X)))) (w : List (List (Row X)))
        (rank ncols n_neighbors : ℕ)
        → request_of (stats_from 0 workers) (local_of w) rank ncols n_neighbors
          ≡ exact_request workers w rank ncols n_neighbors
    request_of-exact workers w rank ncols n_neighbors =
        rw (item_parts-stats_from, query_parts-stats_from, sum-counts_from, sum-counts_from) refl

module _ {X D : Type 0} where
  answer-ids :
      {M : Type 0} (J : Codec M RankStat) (kneighbors : Request X → Result (Neighbors D))
      (isdata isquery rank ncols n_neighbors : ℕ) (workers : List (List (List (Row X))))
      (w : List (List (Row X))) (distances : List (List (List D))) (positions : List (List ℕ))
      → IsFaithful J
      → kneighbors (exact_request isdata isquery workers w rank ncols n_neighbors)
        ≡ ok (distances, positions ∷ [])
      → All (InRange (map (λ r. r.row_number) (all_rows isdata isquery isdata workers))) positions
      → answer J kneighbors rank ncols n_neighbors
          (local_of isdata isquery w)
          (stat_messages isdata isquery J 0 workers)
        ≡ ok (record {
          query_ids = map (λ r. r.row_number) (labelled isquery (flatten w)) ∷ [];
          indices =
              map
                (ids_at (map (λ r. r.row_number) (all_rows isdata isquery isdata workers)))
                positions
              ∷ [];
          distances = distances;
        })
  unfolding answer
  answer-ids J kneighbors isdata isquery rank ncols n_neighbors workers w distances positions F
        answered inside =
      rw
        (
          load_stats-stat_messages isdata isquery J 0 workers F,
          request_of-exact isdata isquery workers w rank ncols n_neighbors,
          answered,
          transformed-ids_at _ _
              (λ j.
                find-id2row _ j
                ∙ ap (λ l. get_elem? l j) (flatten-stats_from isdata isquery 0 workers))
              positions inside,
        )
        refl

  -- Each worker has batches, sends its statistics, and receives those of all workers in the order of
  -- their ranks. Then it asks cuML for the neighbours of its queries with the right parts and
  -- totals. Where cuML answers with positions among the items of all workers, the worker returns
  -- its queries' ids, the distances as they are, and for each position the id of the item that
  -- stands there. Assumed: the messages are read back as they were written, and the positions are
  -- within the items.
  pub cuml_fit-ids :
      {M : Type 0} (J : Codec M RankStat) (kneighbors : Request X → Result (Neighbors D))
      (all_gather : M → List M) (isdata isquery rank ncols n_neighbors : ℕ)
      (workers : List (List (List (Row X)))) (rows : List (Row X)) (batches : List (List (Row X)))
      (distances : List (List (List D))) (positions : List (List ℕ))
      → IsFaithful J
      → all_gather (J.dumps (stat_of rank (local_of isdata isquery (rows ∷ batches))))
        ≡ stat_messages isdata isquery J 0 workers
      → kneighbors (exact_request isdata isquery workers (rows ∷ batches) rank ncols n_neighbors)
        ≡ ok (distances, positions ∷ [])
      → All (InRange (map (λ r. r.row_number) (all_rows isdata isquery isdata workers))) positions
      → cuml_fit J kneighbors all_gather isdata isquery rank ncols n_neighbors (rows ∷ batches)
        ≡ ok (record {
          query_ids = map (λ r. r.row_number) (labelled isquery (flatten (rows ∷ batches))) ∷ [];
          indices =
              map
                (ids_at (map (λ r. r.row_number) (all_rows isdata isquery isdata workers)))
                positions
              ∷ [];
          distances = distances;
        })
  unfolding cuml_fit
  cuml_fit-ids J kneighbors all_gather isdata isquery rank ncols n_neighbors workers rows batches
        distances positions F gathered answered inside =
      rw (gather_batches-join isdata isquery (rows ∷ batches) empty_local, gathered)
        (answer-ids J kneighbors isdata isquery rank ncols n_neighbors workers (rows ∷ batches)
          distances positions F answered inside)
