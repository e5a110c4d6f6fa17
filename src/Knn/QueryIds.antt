-- ===== src/Knn/QueryIds.antt =====
-- The items and queries that the workers see are those of the data frames.
use mathlib.Core.List.{append-nil, map-append}
use spark_rapids_ml.Base.{
  ℕ, ◌≡◌, ◌≢◌, refl, sym, ap, ◌∙◌, String, Bool, false, List, [], ◌∷◌, ◌++◌, map, arith, length,
  flatten, All, Permᴰ, same_order, flat, flat-Permᴰ,
}
use spark_rapids_ml.Py.{ok}
use spark_rapids_ml.Py.Dict.{contains}
use spark_rapids_ml.Core.Columns.{label_alias}
use spark_rapids_ml.Knn.Ids.{Frame, ensure_id_col}
use spark_rapids_ml.Knn.Fit.{Row, labelled}
use spark_rapids_ml.Knn.FitLaws.{labelled-append}
use spark_rapids_ml.Knn.Frames.{
  union_queries, with_literal, union, set_cell, set_cell-new, same_width,
}
use spark_rapids_ml.Knn.Query.{Spreading}

module _ {X : Type 0} (l : ℕ) where
  -- A row that has the label, as a list of none or one.
  abbrev with_label : Row X → List (Row X)
  with_label r = labelled l (r ∷ [])

  labelled-flat : (rows : List (Row X)) → labelled l rows ≡ flat with_label rows
  unfolding labelled
  labelled-flat [] = refl
  labelled-flat (r ∷ rows) = ground (arith, labelled-flat rows)

  labelled-Permᴰ : {xs ys : List (Row X)} → Permᴰ xs ys → Permᴰ (labelled l xs) (labelled l ys)
  labelled-Permᴰ {xs = xs} {ys = ys} d =
      rw (labelled-flat xs, labelled-flat ys) (flat-Permᴰ with_label d)

  labelled-same : (rows : List (Row X)) → All (λ r. r.label ≡ l) rows → labelled l rows ≡ rows
  unfolding labelled
  labelled-same [] h = refl
  labelled-same (r ∷ rows) (h, hs) = ground (arith, labelled-same rows hs)

  labelled-none :
      (k : ℕ) (rows : List (Row X)) → k ≢ l → All (λ r. r.label ≡ k) rows → labelled l rows ≡ []
  unfolding labelled
  labelled-none k [] ne h = refl
  labelled-none k (r ∷ rows) ne (h, hs) = ground (arith, labelled-none k rows ne hs)

-- How the rows of a data frame are read by the workers: all of them are, and the last cell is the
-- label if that is the last column.
pub record IsReading {A X D : Type 0} (of_number : ℕ → A) (read : List String → List A → Row X)
    (S : Spreading A X D) : Type 0 where
  pub spread-rows :
      (df : Frame A) → Permᴰ (flatten (flatten (S.spread df))) (map (read df.columns) df.rows)
  pub read-label :
      (columns : List String) (cells : List A) (n : ℕ)
      → contains columns label_alias ≡ false
      → length cells ≡ length columns
      → (read (columns ++ (label_alias ∷ [])) (cells ++ (of_number n ∷ []))).label ≡ n

module _ {A : Type 0} (of_number : ℕ → A) where
  abbrev pub labelled_rows : List (List A) → ℕ → List (List A)
  labelled_rows rows n = map (λ row. row ++ (of_number n ∷ [])) rows

  -- The items with the label 0, and then the queries with the label 1.
  abbrev pub union_of : Frame A → Frame A → Frame A
  union_of items queries = record {
    columns = items.columns ++ (label_alias ∷ []);
    rows = labelled_rows items.rows 0 ++ labelled_rows queries.rows 1;
  }

  set_cell-labelled :
      (columns : List String) (rows : List (List A)) (n : ℕ)
      → contains columns label_alias ≡ false
      → map (λ row. set_cell columns row label_alias (of_number n)) rows ≡ labelled_rows rows n
  set_cell-labelled columns [] n h = refl
  set_cell-labelled columns (row ∷ rows) n h =
      rw (set_cell-new columns row label_alias (of_number n) h, set_cell-labelled columns rows n h)
        refl

  pub with_literal-labelled :
      (df : Frame A) (n : ℕ)
      → contains df.columns label_alias ≡ false
      → with_literal df label_alias (of_number n)
        ≡ record { columns = df.columns ++ (label_alias ∷ []); rows = labelled_rows df.rows n }
  unfolding with_literal
  with_literal-labelled df n h = rw (h, set_cell-labelled df.columns df.rows n h) refl

  pub union_queries-union_of :
      (is_set : Bool) (id_col : String) (items query_df queries : Frame A)
      → ensure_id_col of_number is_set id_col query_df ≡ ok queries
      → contains queries.columns label_alias ≡ false
      → length items.columns ≡ length queries.columns
      → union_queries of_number is_set id_col
          (record {
            columns = items.columns ++ (label_alias ∷ []);
            rows = labelled_rows items.rows 0;
          })
          query_df
        ≡ ok (queries, union_of items queries)
  unfolding union_queries union
  union_queries-union_of is_set id_col items query_df queries q v e =
      rw (q, with_literal-labelled queries 1 v, same_width items.columns queries.columns e) refl

module _ {A X : Type 0} (of_number : ℕ → A) (read : List String → List A → Row X) where
  -- The id that a worker reads of a row with the label `n`.
  abbrev pub id_of : List String → ℕ → List A → ℕ
  id_of columns n row =
      (read (columns ++ (label_alias ∷ [])) (row ++ (of_number n ∷ []))).row_number

  pub ids :
      (columns : List String) (rows : List (List A)) (n : ℕ)
      → map
          (λ r. r.row_number)
          (map (read (columns ++ (label_alias ∷ []))) (labelled_rows of_number rows n))
        ≡ map (id_of columns n) rows
  ids columns [] n = refl
  ids columns (row ∷ rows) n = ap (λ l. id_of columns n row ∷ l) (ids columns rows n)

zero-ne-one : ◌≢◌ {A = ℕ} 0 1
zero-ne-one h = omega arith

module _ {A X D : Type 0} (S : Spreading A X D) (of_number : ℕ → A)
    (read : List String → List A → Row X) where
  labels :
      (columns : List String) (rows : List (List A)) (n : ℕ)
      → IsReading of_number read S
      → contains columns label_alias ≡ false
      → All (λ row. length row ≡ length columns) rows
      → All
          (λ r. r.label ≡ n)
          (map (read (columns ++ (label_alias ∷ []))) (labelled_rows of_number rows n))
  labels columns [] n R u h = tt
  labels columns (row ∷ rows) n R u (h, hs) =
      (R.read-label columns row n u h, labels columns rows n R u hs)

  module _ (items queries : Frame A) (R : IsReading of_number read S)
      (u : contains items.columns label_alias ≡ false)
      (wide : All (λ row. length row ≡ length items.columns) items.rows)
      (wide_queries : All (λ row. length row ≡ length items.columns) queries.rows) where
    abbrev read_rows : List (List A) → ℕ → List (Row X)
    read_rows rows n =
        map (read (items.columns ++ (label_alias ∷ []))) (labelled_rows of_number rows n)

    split_labelled :
        (l : ℕ)
        → labelled l (
            map
              (read (items.columns ++ (label_alias ∷ [])))
              (labelled_rows of_number items.rows 0 ++ labelled_rows of_number queries.rows 1))
          ≡ labelled l (read_rows items.rows 0) ++ labelled l (read_rows queries.rows 1)
    split_labelled l =
        ap (labelled l) (
          map-append _ (labelled_rows of_number items.rows 0)
            (labelled_rows of_number queries.rows 1))
        ∙ labelled-append l (read_rows items.rows 0) (read_rows queries.rows 1)

    pub query_rows :
        Permᴰ (labelled 1 (flatten (flatten (S.spread (union_of of_number items queries))))) (
          map (read (items.columns ++ (label_alias ∷ []))) (labelled_rows of_number queries.rows 1))
    query_rows = Permᴰ.trans (labelled-Permᴰ 1 (R.spread-rows (union_of of_number items queries))) (
        same_order (
          split_labelled 1
          ∙ rw
              (
                labelled-none 1 0 _ zero-ne-one (labels items.columns items.rows 0 R u wide),
                labelled-same 1 _ (labels items.columns queries.rows 1 R u wide_queries),
              )
              refl))

    pub item_rows :
        Permᴰ
          (labelled 0 (flatten (flatten (S.spread (union_of of_number items queries)))))
          (map (read (items.columns ++ (label_alias ∷ []))) (labelled_rows of_number items.rows 0))
    item_rows = Permᴰ.trans (labelled-Permᴰ 0 (R.spread-rows (union_of of_number items queries))) (
        same_order (
          split_labelled 0
          ∙ rw
              (
                labelled-same 0 _ (labels items.columns items.rows 0 R u wide),
                labelled-none 0 1 _ (λ e. zero-ne-one (sym e))
                    (labels items.columns queries.rows 1 R u wide_queries),
              )
              (append-nil _)))
