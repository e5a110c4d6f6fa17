-- ===== src/Knn/Ids.antt =====
-- The id column: `_ensureIdCol` and `_df_zip_with_index`.
use spark_rapids_ml.Base.{
  ℕ, zero, suc, ◌+◌, String, ◌≡◌, refl, Bool, false, not, ◌&&◌, Option, none, some, List, [], ◌∷◌,
  arith, if◌then◌else◌, get_elem?,
}
use spark_rapids_ml.Py.{Result, ok, err, value_error}
use spark_rapids_ml.Py.Dict.{contains}

-- A dataset: its column names, and its rows in the order of its partitions.
pub record Frame {ℓ} (A : Type ℓ) : Type ℓ where
  pub columns : List String
  pub rows : List (List A)

-- `of_index` makes a cell of a row number.
module _ {ℓ} {A : Type ℓ} (of_index : ℕ → A) where
  -- rdd.zipWithIndex, with the index in front of each row
  unfoldable pub zip_with_index : ℕ → List (List A) → List (List A)
  zip_with_index i [] = []
  zip_with_index i (row ∷ rows) = (of_index i ∷ row) ∷ zip_with_index (suc i) rows

  unfoldable pub df_zip_with_index : Frame A → String → Frame A
  unfolding zip_with_index
  df_zip_with_index df id_col = record {
    columns = id_col ∷ df.columns;
    rows = zip_with_index 0 df.rows;
  }

  -- `is_set` says whether the param `id_col` is set, and `id_col` is its value or default.
  unfoldable pub ensure_id_col : Bool → String → Frame A → Result (Frame A)
  unfolding df_zip_with_index
  ensure_id_col is_set id_col df =
      if not is_set && contains df.columns id_col
      then err value_error
      else ok (if is_set then df else df_zip_with_index df id_col)

  abbrev pub with_index : ℕ → Option (List A) → Option (List A)
  with_index i none = none
  with_index i (some row) = some (of_index i ∷ row)

  get_elem?-zip_with_index :
      (i j k : ℕ) (rows : List (List A))
      → k ≡ i + j
      → get_elem? (zip_with_index i rows) j ≡ with_index k (get_elem? rows j)
  unfolding zip_with_index
  get_elem?-zip_with_index i j k [] e = refl
  get_elem?-zip_with_index i zero k (row ∷ rows) e = let e' : i ≡ k = omega arith in rw e' refl
  get_elem?-zip_with_index i (suc j) k (row ∷ rows) e =
      get_elem?-zip_with_index (suc i) j k rows (omega arith)

  -- If no id column is set and no column has the default name, the dataset gets one of that name in
  -- front of the others, and the row at position `i` gets `i` in front of its cells.
  pub ensure_id_col-rows :
      (id_col : String) (df : Frame A) (i : ℕ)
      → contains df.columns id_col ≡ false
      → (df' : Frame A) × (ensure_id_col false id_col df ≡ ok df')
        × (df'.columns ≡ id_col ∷ df.columns)
        × (get_elem? df'.rows i ≡ with_index i (get_elem? df.rows i))
  unfolding ensure_id_col
  ensure_id_col-rows id_col df i h = (
    df_zip_with_index df id_col,
    rw h refl,
    refl,
    get_elem?-zip_with_index 0 i i df.rows (omega arith),
  )
