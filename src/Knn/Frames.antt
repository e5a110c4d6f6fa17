-- ===== src/Knn/Frames.antt =====
-- The data frames of knn.py: `NearestNeighbors._fit`, and the union that `kneighbors` makes.
use spark_rapids_ml.Base.{
  ltb, Bool-cases, inl, inr, length-append, ℕ, zero, suc, ◌-◌, ◌≡◌, refl, ap, ◌∙◌, String, Bool,
  true, false, Option, none, some, List, [], ◌∷◌, ◌++◌, arith, str_eq, ◌==◌, if◌then◌else◌, length,
  map, get_elem?, get_elem?-append_left, get_elem?-append_right, length-map,
}
use spark_rapids_ml.Py.{Result, ok, err, other_error, bind}
use spark_rapids_ml.Py.Dict.{contains}
use spark_rapids_ml.Core.Columns.{label_alias}
use spark_rapids_ml.Knn.Ids.{Frame, ensure_id_col}

pub same_width :
    (xs ys : List String)
    → length xs ≡ length ys
    → (length (xs ++ (label_alias ∷ [])) == length (ys ++ (label_alias ∷ []))) ≡ true
same_width xs ys e =
    ground (arith, length-append xs (label_alias ∷ []), length-append ys (label_alias ∷ []))

module _ {ℓ} {A : Type ℓ} where
  -- The cells of a row once the column `name` is set to `a`: an old column keeps its place, and a
  -- new one stands at the end.
  unfoldable pub set_cell : List String → List A → String → A → List A
  set_cell (c ∷ columns) (x ∷ cells) name a =
      let rest = set_cell columns cells name a in if str_eq c name then a ∷ cells else x ∷ rest
  set_cell _ cells name a = cells ++ (a ∷ [])

  -- df.withColumn(name, lit(a))
  unfoldable pub with_literal : Frame A → String → A → Frame A
  unfolding set_cell
  with_literal df name a = record {
    columns = if contains df.columns name then df.columns else df.columns ++ (name ∷ []);
    rows = map (λ row. set_cell df.columns row name a) df.rows;
  }

  -- df.union(other), by the positions of the columns
  unfoldable pub union : Frame A → Frame A → Result (Frame A)
  union df other =
      if length df.columns == length other.columns
      then ok (record { columns = df.columns; rows = df.rows ++ other.rows })
      else err other_error

  pub set_cell-new :
      (columns : List String) (cells : List A) (name : String) (a : A)
      → contains columns name ≡ false
      → set_cell columns cells name a ≡ cells ++ (a ∷ [])
  unfolding set_cell
  set_cell-new [] cells name a h = refl
  set_cell-new (c ∷ columns) [] name a h = refl
  set_cell-new (c ∷ columns) (x ∷ cells) name a h =
      ground (arith, set_cell-new columns cells name a)

  module _ (of_number : ℕ → A) (is_set : Bool) (id_col : String) where
    -- (item_df_withid, processed_item_df), where the label of the items is 0
    unfoldable pub fit_items : Frame A → Result (Frame A × Frame A)
    fit_items item_df =
        bind (ensure_id_col of_number is_set id_col item_df)
          (λ df. ok (df, with_literal df label_alias (of_number 0)))

    -- (query_df_withid, union_df), where the label of the queries is 1
    unfoldable pub union_queries : Frame A → Frame A → Result (Frame A × Frame A)
    union_queries processed_item_df query_df =
        bind (ensure_id_col of_number is_set id_col query_df) (λ df.
          bind (union processed_item_df (with_literal df label_alias (of_number 1)))
            (λ union_df. ok (df, union_df)))

    -- Every row has a cell for each column.
    abbrev pub labelled_row : A → Option (List A) → Option (List A)
    labelled_row label none = none
    labelled_row label (some row) = some (row ++ (label ∷ []))

    get_elem?-labelled :
        (columns : List String) (rows : List (List A)) (i : ℕ) (label : A)
        → contains columns label_alias ≡ false
        → get_elem? (map (λ row. set_cell columns row label_alias label) rows) i
          ≡ labelled_row label (get_elem? rows i)
    get_elem?-labelled columns [] i label h = refl
    get_elem?-labelled columns (row ∷ rows) zero label h =
        ap some (set_cell-new columns row label_alias label h)
    get_elem?-labelled columns (row ∷ rows) (suc i) label h =
        get_elem?-labelled columns rows i label h

    get_elem?-union :
        (xs ys : List (List A)) (n i : ℕ)
        → length xs ≡ n
        → get_elem? (xs ++ ys) i ≡ (if ltb i n then get_elem? xs i else get_elem? ys (i - n))
    get_elem?-union xs ys n i e = elim (Bool-cases (ltb i n)) [
      | inl b ↦ rw b (get_elem?-append_left xs ys i (ground arith))
      | inr b ↦
          rw b (get_elem?-append_right xs ys i (ground arith) ∙ ap (λ k. get_elem? ys (i - k)) e)
    ]

    -- The dataset that the k-nearest-neighbours stage reads has the items in front, each with its id
    -- and the label 0, and then the queries, each with its id and the label 1, in their orders, cell
    -- by cell as they stand. Assumed: the ids can be added, no column has the name of the label, and
    -- items and queries have the same number of columns.
    pub union_queries-rows :
        (item_df query_df items queries : Frame A) (i : ℕ)
        → ensure_id_col of_number is_set id_col item_df ≡ ok items
        → ensure_id_col of_number is_set id_col query_df ≡ ok queries
        → contains items.columns label_alias ≡ false
        → contains queries.columns label_alias ≡ false
        → length items.columns ≡ length queries.columns
        → (processed : Frame A) × (union_df : Frame A) × (fit_items item_df ≡ ok (items, processed))
          × (union_queries processed query_df ≡ ok (queries, union_df))
          × (union_df.columns ≡ items.columns ++ (label_alias ∷ []))
          × (get_elem? union_df.rows i ≡ (
              if ltb i (length items.rows)
              then labelled_row (of_number 0) (get_elem? items.rows i)
              else labelled_row (of_number 1) (get_elem? queries.rows (i - length items.rows))))
    unfolding fit_items union_queries with_literal union
    union_queries-rows item_df query_df items queries i p q u v e = (
      record {
        columns = items.columns ++ (label_alias ∷ []);
        rows = map (λ row. set_cell items.columns row label_alias (of_number 0)) items.rows;
      },
      record {
        columns = items.columns ++ (label_alias ∷ []);
        rows =
            map (λ row. set_cell items.columns row label_alias (of_number 0)) items.rows
            ++ map (λ row. set_cell queries.columns row label_alias (of_number 1)) queries.rows;
      },
      rw (p, u) refl,
      rw (q, v, same_width items.columns queries.columns e),
      refl,
      get_elem?-union _ _ (length items.rows) i (length-map _ items.rows)
          ∙ rw
              (
                get_elem?-labelled items.columns items.rows i (of_number 0) u,
                get_elem?-labelled queries.columns queries.rows (i - length items.rows)
                    (of_number 1) v,
              )
              refl,
    )
