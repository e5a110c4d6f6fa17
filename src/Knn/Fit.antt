-- ===== src/Knn/Fit.antt =====
-- `_cuml_fit` of knn.NearestNeighborsModel: what each worker of the barrier stage computes.
use spark_rapids_ml.Base.{ℕ, none, some, List, [], ◌∷◌, ◌++◌, map, ◌==◌, if◌then◌else◌, length, sum}
use spark_rapids_ml.Py.{Result, ok, err, index_error, key_error, bind}
use spark_rapids_ml.Utils.Partitions.{Codec, Part, sizes}
use spark_rapids_ml.Knn.Rows.{IndexDict, find, id2row}

-- A row of the union of items and queries: its features, its label and its id.
pub record Row (X : Type 0) : Type 0 where
  pub x : X
  pub label : ℕ
  pub row_number : ℕ

-- `(rank, item_size, query_size, item_row_number)`, the message of a worker.
pub record RankStat : Type 0 where
  pub rank : ℕ
  pub item_size : List ℕ
  pub query_size : List ℕ
  pub item_row_number : List (List ℕ)

-- The arguments of `NearestNeighborsMG.kneighbors`.
pub record Request (X : Type 0) : Type 0 where
  pub index : List (List X)
  pub index_parts_to_ranks : List Part
  pub index_nrows : ℕ
  pub query : List (List X)
  pub query_parts_to_ranks : List Part
  pub query_nrows : ℕ
  pub ncols : ℕ
  pub rank : ℕ
  pub n_neighbors : ℕ

-- The distances and the positions, by part and by query.
abbrev pub Neighbors : Type 0 → Type 0
Neighbors D = List (List (List D)) × List (List (List ℕ))

pub record KnnResult (D : Type 0) : Type 0 where
  pub query_ids : List (List ℕ)
  pub indices : List (List (List ℕ))
  pub distances : List (List (List D))

-- What a worker gathers from its batches.
pub record Local (X : Type 0) : Type 0 where
  pub item : List X
  pub query : List X
  pub item_row_number : List ℕ
  pub query_row_number : List ℕ

module _ {X : Type 0} where
  -- x_array[label_array == label] and row_number_array[label_array == label], row by row
  unfoldable pub labelled : ℕ → List (Row X) → List (Row X)
  labelled l [] = []
  labelled l (r ∷ rows) = let rest = labelled l rows in if r.label == l then r ∷ rest else rest

  -- The loop over the batches; the arrays of the batches are joined as they come.
  unfoldable pub gather_batches : ℕ → ℕ → List (List (Row X)) → Local X → Local X
  unfolding labelled
  gather_batches isdata isquery [] acc = acc
  gather_batches isdata isquery (rows ∷ batches) acc =
      gather_batches isdata isquery batches (record {
        item = acc.item ++ map (λ r. r.x) (labelled isdata rows);
        query = acc.query ++ map (λ r. r.x) (labelled isquery rows);
        item_row_number = acc.item_row_number ++ map (λ r. r.row_number) (labelled isdata rows);
        query_row_number = acc.query_row_number ++ map (λ r. r.row_number) (labelled isquery rows);
      })

  abbrev pub empty_local : Local X
  empty_local = record { item = []; query = []; item_row_number = []; query_row_number = [] }

  -- Each worker has one item part and one query part.
  abbrev pub stat_of : ℕ → Local X → RankStat
  stat_of rank l = record {
    rank = rank;
    item_size = length l.item ∷ [];
    query_size = length l.query ∷ [];
    item_row_number = l.item_row_number ∷ [];
  }

unfoldable pub load_stats : {M : Type 0} → Codec M RankStat → List M → Result (List RankStat)
load_stats J [] = ok []
load_stats J (message ∷ messages) =
    bind (J.loads message) (λ s. bind (load_stats J messages) (λ rest. ok (s ∷ rest)))

abbrev pub ranked : ℕ → List ℕ → List Part
ranked rank ns = map (λ size. (rank, size)) ns

unfoldable pub item_parts_to_ranks : List RankStat → List Part
item_parts_to_ranks [] = []
item_parts_to_ranks (s ∷ stats) = ranked s.rank s.item_size ++ item_parts_to_ranks stats

unfoldable pub query_parts_to_ranks : List RankStat → List Part
query_parts_to_ranks [] = []
query_parts_to_ranks (s ∷ stats) = ranked s.rank s.query_size ++ query_parts_to_ranks stats

-- [id2row[cuid] for cuid in row], and the loops around it
unfoldable pub ids_of_row : IndexDict ℕ → List ℕ → Result (List ℕ)
ids_of_row d [] = ok []
ids_of_row d (j ∷ row) = elim (find d j) [
  | none ↦ err key_error
  | some v ↦ bind (ids_of_row d row) (λ rest. ok (v ∷ rest))
]

unfoldable pub ids_of_rows : IndexDict ℕ → List (List ℕ) → Result (List (List ℕ))
ids_of_rows d [] = ok []
ids_of_rows d (row ∷ rows) =
    bind (ids_of_row d row) (λ ids. bind (ids_of_rows d rows) (λ rest. ok (ids ∷ rest)))

unfoldable pub transformed_indices :
    IndexDict ℕ → List (List (List ℕ)) → Result (List (List (List ℕ)))
transformed_indices d [] = ok []
transformed_indices d (two_d ∷ indices) =
    bind (ids_of_rows d two_d)
      (λ rows. bind (transformed_indices d indices) (λ rest. ok (rows ∷ rest)))

module _ {X : Type 0} where
  abbrev pub request_of : List RankStat → Local X → ℕ → ℕ → ℕ → Request X
  request_of stats l rank ncols n_neighbors = record {
    index = l.item ∷ [];
    index_parts_to_ranks = item_parts_to_ranks stats;
    index_nrows = sum (sizes (item_parts_to_ranks stats));
    query = l.query ∷ [];
    query_parts_to_ranks = query_parts_to_ranks stats;
    query_nrows = sum (sizes (query_parts_to_ranks stats));
    ncols = ncols;
    rank = rank;
    n_neighbors = n_neighbors;
  }

module _ {X D : Type 0} where
  -- From the messages of all workers on. cuML's `kneighbors` is a parameter.
  unfoldable pub answer :
      {M : Type 0}
      → Codec M RankStat
      → (Request X → Result (Neighbors D))
      → ℕ
      → ℕ
      → ℕ
      → Local X
      → List M
      → Result (KnnResult D)
  answer J kneighbors rank ncols n_neighbors l messages = bind (load_stats J messages) (λ stats.
      bind (kneighbors (request_of stats l rank ncols n_neighbors)) (λ (distances, indices).
        bind (transformed_indices (id2row (map (λ s. s.item_row_number) stats)) indices) (λ ids.
          ok (record {
            query_ids = l.query_row_number ∷ [];
            indices = ids;
            distances = distances;
          }))))

  -- Without a batch, the first element of an empty list is read.
  unfoldable pub cuml_fit :
      {M : Type 0}
      → Codec M RankStat
      → (Request X → Result (Neighbors D))
      → (M → List M)
      → ℕ
      → ℕ
      → ℕ
      → ℕ
      → ℕ
      → List (List (Row X))
      → Result (KnnResult D)
  cuml_fit J kneighbors all_gather isdata isquery rank ncols n_neighbors [] = err index_error
  cuml_fit J kneighbors all_gather isdata isquery rank ncols n_neighbors (rows ∷ batches) =
      let l = gather_batches isdata isquery (rows ∷ batches) empty_local in
      answer J kneighbors rank ncols n_neighbors l (all_gather (J.dumps (stat_of rank l)))
