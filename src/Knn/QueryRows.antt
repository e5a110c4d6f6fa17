-- ===== src/Knn/QueryRows.antt =====
-- The data frame of the neighbours has a row for each query, whatever Spark does with the order.
use spark_rapids_ml.Base.{
  ℕ, ◌≡◌, ◌≤◌, refl, ap, String, Bool, List, [], ◌∷◌, ◌++◌, map, Permᴰ, same_order, flat,
  flat-Permᴰ, map-Permᴰ,
}
use spark_rapids_ml.Py.{ok}
use spark_rapids_ml.Utils.Partitions.{IsFaithful}
use spark_rapids_ml.Knn.Ids.{Frame}
use spark_rapids_ml.Knn.FitLaws.{all_rows}
use spark_rapids_ml.Knn.Frames.{union_queries}
use spark_rapids_ml.Knn.Join.{KnnRow}
use spark_rapids_ml.Knn.Query.{PartRow, zip_rows, knn_rows, Spreading, Found, kneighbors}
use spark_rapids_ml.Knn.QueryLaws.{
  Answer, Cluster, task, AllAnswered, parts_of, all_rows_for, run_workers-parts,
  knn_rows-all_rows_for, query_id-all_rows_for,
}

abbrev pub StartsAfter : ℕ → List ℕ → Type 0
StartsAfter n [] = Unit
StartsAfter n (m ∷ ns) = n ≤ m

abbrev pub Ascends : List ℕ → Type 0
Ascends [] = Unit
Ascends (n ∷ ns) = StartsAfter n ns × Ascends ns

-- What Spark is relied on for: moving rows and sorting them loses none, and what is sorted ascends.
pub record IsSpreading {A X D : Type 0} (S : Spreading A X D) : Type 0 where
  pub repartition-rows : (n : ℕ) (rows : List (PartRow D)) → Permᴰ (S.repartition n rows) rows
  pub sort-rows : (rows : List (KnnRow D)) → Permᴰ (S.sort rows) rows
  pub sort-Ascends : (rows : List (KnnRow D)) → Ascends (map (λ r. r.query_id) (S.sort rows))

abbrev rows_in : {D : Type 0} → PartRow D → List (KnnRow D)
rows_in row = zip_rows row.query_ids row.indices row.distances

module _ {D : Type 0} where
  knn_rows-flat : (rows : List (PartRow D)) → knn_rows rows ≡ flat rows_in rows
  unfolding knn_rows
  knn_rows-flat [] = refl
  knn_rows-flat (row ∷ rows) = ap (λ l. rows_in row ++ l) (knn_rows-flat rows)

  knn_rows-Permᴰ : {xs ys : List (PartRow D)} → Permᴰ xs ys → Permᴰ (knn_rows xs) (knn_rows ys)
  knn_rows-Permᴰ {xs = xs} {ys = ys} d =
      rw (knn_rows-flat xs, knn_rows-flat ys) (flat-Permᴰ rows_in d)

module _ {A X D M : Type 0} (C : Cluster X D M) (S : Spreading A X D) where
  pub kneighbors-rows :
      (of_number : ℕ → A) (is_set : Bool) (id_col : String)
      (items processed query_df queries union_df : Frame A) (partitions : ℕ)
      (answers : List (List (Answer D)))
      → IsFaithful C.codec
      → IsSpreading S
      → union_queries of_number is_set id_col processed query_df ≡ ok (queries, union_df)
      → AllAnswered C (S.spread union_df) 0 (S.spread union_df) answers
      → (found : Found A D) × (rows : List (KnnRow D)) × (kneighbors S
            (task C)
            of_number
            is_set
            id_col
            items
            processed
            partitions
            query_df
          ≡ ok found)
        × (found.knn_df ≡ ok rows)
        × Permᴰ rows (all_rows_for C (S.spread union_df) (S.spread union_df) answers)
        × Permᴰ
            (map (λ r. r.query_id) rows)
            (map (λ r. r.row_number) (all_rows C.isdata C.isquery C.isquery (S.spread union_df)))
        × Ascends (map (λ r. r.query_id) rows)
  unfolding kneighbors
  kneighbors-rows of_number is_set id_col items processed query_df queries union_df partitions
        answers F I u h =
      let expected = all_rows_for C (S.spread union_df) (S.spread union_df) answers in
      let parts = parts_of C (S.spread union_df) (S.spread union_df) answers in
      let rows = S.sort (knn_rows (S.repartition partitions parts)) in
      let moved : Permᴰ rows expected = Permᴰ.trans (I.sort-rows _) (
        Permᴰ.trans (knn_rows-Permᴰ (I.repartition-rows partitions parts))
          (same_order (knn_rows-all_rows_for C (S.spread union_df) (S.spread union_df) answers))) in
      (
        record { item_df_withid = items; query_df_withid = queries; knn_df = ok rows },
        rows,
        rw (u, run_workers-parts C (S.spread union_df) 0 (S.spread union_df) answers F h) refl,
        refl,
        moved,
        Permᴰ.trans (map-Permᴰ (λ r. r.query_id) moved) (
            same_order
              (query_id-all_rows_for C (S.spread union_df) 0 (S.spread union_df) answers h)),
        I.sort-Ascends (knn_rows (S.repartition partitions parts)),
      )
