-- ===== src/Knn/JoinQuery.antt =====
-- `exactNearestNeighborsJoin` as a whole: the call of `kneighbors`, and the join of what it returns.
use spark_rapids_ml.Base.{
  ℕ, String, ◌≡◌, refl, sym, ap, ◌∙◌, Bool, Option, none, some, List, [], ◌∷◌, ◌++◌, map, All,
  Permᴰ, true, false, flat, str_eq, if◌then◌else◌,
}
use spark_rapids_ml.Py.{Result, ok, bind}
use spark_rapids_ml.Py.Dict.{Dict, get, get-remove}
use spark_rapids_ml.Knn.Ids.{Frame}
use spark_rapids_ml.Knn.Fit.{Row, KnnResult}
use spark_rapids_ml.Knn.Query.{Spreading, Found, kneighbors}
use spark_rapids_ml.Knn.Join.{
  KnnRow, Pair, zip_arrays, knn_pairs, Joins, Joined, visible, joined_row, exact_join,
}
use spark_rapids_ml.Knn.JoinLaws.{IsInner, IsOnly, exact_join-rows}

module _ {A : Type 0} where
  -- struct("*"): the cells under the names of the columns
  unfoldable pub struct_of : List String → List A → Dict A
  struct_of (c ∷ columns) (x ∷ cells) = (c, x) ∷ struct_of columns cells
  struct_of _ _ = []

  abbrev pub structs : Frame A → List (Dict A)
  structs df = map (struct_of df.columns) df.rows

-- A query, with its neighbours and their distances, and further items without a distance.
abbrev pub Neighbours : Type 0 → Type 0
Neighbours D = ℕ × List (ℕ × D) × List ℕ

module _ {D : Type 0} where
  abbrev pub row_for : Neighbours D → KnnRow D
  row_for (q, near, rest) = record {
    query_id = q;
    indices = map (λ n. n.0) near ++ rest;
    distances = map (λ n. n.1) near;
  }

  -- The pairs of the query with its neighbours, and with the further items.
  abbrev pub pairs_for : Neighbours D → List (Pair D)
  pairs_for (q, near, rest) =
      map (λ n. record { query_id = q; item_id = some n.0; distance = some n.1 }) near
      ++ map (λ i. record { query_id = q; item_id = some i; distance = none }) rest

  zip_arrays-rest :
      (q : ℕ) (rest : List ℕ)
      → zip_arrays {D = D} q rest []
        ≡ map (λ i. record { query_id = q; item_id = some i; distance = none }) rest
  unfolding zip_arrays
  zip_arrays-rest q [] = refl
  zip_arrays-rest q (i ∷ rest) =
      ap (λ l. record { query_id = q; item_id = some i; distance = none } ∷ l)
        (zip_arrays-rest q rest)

  zip_arrays-pairs_for :
      (q : ℕ) (near : List (ℕ × D)) (rest : List ℕ)
      → zip_arrays q (map (λ n. n.0) near ++ rest) (map (λ n. n.1) near) ≡ pairs_for (q, near, rest)
  unfolding zip_arrays
  zip_arrays-pairs_for q [] rest = zip_arrays-rest q rest
  zip_arrays-pairs_for q ((i, d) ∷ near) rest =
      ap (λ l. record { query_id = q; item_id = some i; distance = some d } ∷ l)
        (zip_arrays-pairs_for q near rest)

  knn_pairs-pairs_for :
      (groups : List (Neighbours D)) → knn_pairs (map row_for groups) ≡ flat pairs_for groups
  unfolding knn_pairs
  knn_pairs-pairs_for [] = refl
  knn_pairs-pairs_for ((q, near, rest) ∷ groups) =
      rw (zip_arrays-pairs_for q near rest, knn_pairs-pairs_for groups) refl

module _ {A : Type 0} where
  -- What a joined row has of an item or a query under a name.
  abbrev pub shown : Bool → String → String → Option A → Option A
  shown true id_col k o = o
  shown false id_col k o = if str_eq id_col k then none else o

  get-visible :
      (is_set : Bool) (id_col : String) (row : Dict A) (k : String)
      → get (visible is_set id_col row) k ≡ shown is_set id_col k (get row k)
  get-visible true id_col row k = refl
  get-visible false id_col row k = get-remove row id_col k

module _ {A D : Type 0} (is_set : Bool) (id_col : String) where
  abbrev pub IsJoined : (Dict A × Pair D) × Dict A → Joined A D → Type 0
  IsJoined ((item, p), query) j =
      (j.distance ≡ p.distance)
      × ((k : String) → get j.item k ≡ shown is_set id_col k (get item k))
      × ((k : String) → get j.query k ≡ shown is_set id_col k (get query k))

  -- The rows are those of the pairs, one for each.
  abbrev pub AreJoined : List ((Dict A × Pair D) × Dict A) → List (Joined A D) → Type 0
  AreJoined [] [] = Unit
  AreJoined (m ∷ matched) (j ∷ joined) = IsJoined m j × AreJoined matched joined
  AreJoined _ _ = ⊥

  AreJoined-joined_row :
      (number : A → Option ℕ) (matched : List ((Dict A × Pair D) × Dict A))
      → AreJoined matched (map (joined_row number is_set id_col) matched)
  AreJoined-joined_row number [] = tt
  AreJoined-joined_row number (((item, p), query) ∷ matched) = (
    (refl, get-visible is_set id_col item, get-visible is_set id_col query),
    AreJoined-joined_row number matched,
  )

module _ {A X D : Type 0} (number : A → Option ℕ) (J : Joins) (S : Spreading A X D)
    (task : ℕ → List (List (Row X)) → Result (KnnResult D)) (of_number : ℕ → A) (is_set : Bool)
    (id_col : String) where
  -- The join of what `kneighbors` returns, whose rows are computed when they are read.
  abbrev pub join_found : Found A D → Result (List (Joined A D))
  join_found found = bind found.knn_df (λ rows. ok (
      exact_join number is_set id_col J (structs found.item_df_withid)
        (structs found.query_df_withid) rows))

  unfoldable pub exact_nearest_neighbors_join :
      Frame A → Frame A → ℕ → Frame A → Result (Result (List (Joined A D)))
  exact_nearest_neighbors_join item_df_withid processed_item_df partitions query_df =
      bind
        (kneighbors S task of_number is_set id_col item_df_withid processed_item_df partitions
          query_df)
        (λ found. ok (join_found found))

  -- If `kneighbors` returns, and its neighbours can be computed, the join has one row for each pair of a
  -- query and a neighbour, in some order, also where a neighbour comes without a distance: the cells of
  -- the item and of the query of these ids, but those of the id column only if it was given, and the
  -- distance of the pair or null. `matched` lists the pairs with their items and queries. Assumed:
  -- no query has more distances than neighbours, exactly one item and exactly one query has the ids of
  -- each pair, and Spark's inner join makes all the matching pairs, in any order.
  pub exact_nearest_neighbors_join-rows :
      (items processed query_df : Frame A) (partitions : ℕ) (found : Found A D)
      (groups : List (Neighbours D)) (matched : List ((Dict A × Pair D) × Dict A))
      → IsInner J
      → kneighbors S task of_number is_set id_col items processed partitions query_df ≡ ok found
      → found.knn_df ≡ ok (map row_for groups)
      → map (λ m. m.0.1) matched ≡ flat pairs_for groups
      → All (λ m. IsOnly number id_col (structs found.item_df_withid) m.0.1.item_id m.0.0) matched
      → All
          (λ m. IsOnly number id_col (structs found.query_df_withid) (some m.0.1.query_id) m.1)
          matched
      → (joined expected : List (Joined A D)) × (exact_nearest_neighbors_join items processed
            partitions query_df
          ≡ ok (ok joined))
        × Permᴰ joined expected
        × AreJoined is_set id_col matched expected
  unfolding exact_nearest_neighbors_join
  exact_nearest_neighbors_join-rows items processed query_df partitions found groups matched I
        called computed pairs one_item one_query =
      (
        exact_join number is_set id_col J (structs found.item_df_withid)
            (structs found.query_df_withid) (map row_for groups),
        map (joined_row number is_set id_col) matched,
        rw (called, computed) refl,
        exact_join-rows number is_set id_col J (structs found.item_df_withid)
            (structs found.query_df_withid) (map row_for groups) matched I
            (pairs ∙ sym (knn_pairs-pairs_for groups)) one_item one_query,
        AreJoined-joined_row is_set id_col number matched,
      )
