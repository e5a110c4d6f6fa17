-- ===== src/Knn/Join.antt =====
-- `exactNearestNeighborsJoin` of knn.NearestNeighborsModel.
use spark_rapids_ml.Base.{
  ℕ, String, Bool, false, Option, none, some, List, [], ◌∷◌, ◌++◌, map, ◌==◌, if◌then◌else◌,
}
use spark_rapids_ml.Py.Dict.{Dict, get, remove}

-- A row of the data frame of the neighbours.
pub record KnnRow (D : Type 0) : Type 0 where
  pub query_id : ℕ
  pub indices : List ℕ
  pub distances : List D

-- One neighbour of a query; a missing one is null.
pub record Pair (D : Type 0) : Type 0 where
  pub query_id : ℕ
  pub item_id : Option ℕ
  pub distance : Option D

module _ {D : Type 0} where
  -- explode(arrays_zip(indices, distances)): the shorter array is filled up with nulls
  unfoldable pub zip_arrays : ℕ → List ℕ → List D → List (Pair D)
  zip_arrays q [] [] = []
  zip_arrays q (i ∷ is) [] =
      record { query_id = q; item_id = some i; distance = none } ∷ zip_arrays q is []
  zip_arrays q [] (d ∷ ds) =
      record { query_id = q; item_id = none; distance = some d } ∷ zip_arrays q [] ds
  zip_arrays q (i ∷ is) (d ∷ ds) =
      record { query_id = q; item_id = some i; distance = some d } ∷ zip_arrays q is ds

  unfoldable pub knn_pairs : List (KnnRow D) → List (Pair D)
  unfolding zip_arrays
  knn_pairs [] = []
  knn_pairs (r ∷ rows) = zip_arrays r.query_id r.indices r.distances ++ knn_pairs rows

-- Spark's inner join, in an order of its own.
pub record Joins : Type 1 where
  pub join : {A B : Type 0} → (A → B → Bool) → List A → List B → List (A × B)

-- A null is equal to nothing.
abbrev pub equal_ids : Option ℕ → Option ℕ → Bool
equal_ids (some i) (some j) = i == j
equal_ids _ _ = false

-- (item_df, query_df, distCol)
pub record Joined (A D : Type 0) : Type 0 where
  pub item : Dict A
  pub query : Dict A
  pub distance : Option D

-- A data frame is the list of its rows, each a struct of cells. `number` reads an id from a cell.
module _ {A : Type 0} where
  abbrev pub id_in : (A → Option ℕ) → Option A → Option ℕ
  id_in number none = none
  id_in number (some a) = number a

  -- The id column is dropped unless the user has set it.
  abbrev pub visible : Bool → String → Dict A → Dict A
  visible is_set id_col row = if is_set then row else remove row id_col

module _ {A D : Type 0} (number : A → Option ℕ) (is_set : Bool) (id_col : String) where
  abbrev pub is_item : Dict A → Pair D → Bool
  is_item item p = equal_ids (id_in number (get item id_col)) p.item_id

  abbrev pub is_query : Dict A × Pair D → Dict A → Bool
  is_query (item, p) query = equal_ids (some p.query_id) (id_in number (get query id_col))

  abbrev pub joined_row : (Dict A × Pair D) × Dict A → Joined A D
  joined_row ((item, p), query) = record {
    item = visible is_set id_col item;
    query = visible is_set id_col query;
    distance = p.distance;
  }

  -- `kneighbors` has returned the items and queries with their ids, and the neighbours.
  unfoldable pub exact_join :
      Joins → List (Dict A) → List (Dict A) → List (KnnRow D) → List (Joined A D)
  unfolding knn_pairs
  exact_join J items queries rows =
      map joined_row (J.join is_query (J.join is_item items (knn_pairs rows)) queries)
