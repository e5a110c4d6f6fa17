-- ===== src/Knn/Positions.antt =====
-- The positions that cuML answers with, and the ids that `id2row` gives for them.
use spark_rapids_ml.Base.{
  ℕ, zero, suc, ◌<◌, ◌≡◌, refl, none, some, List, [], ◌∷◌, map, arith, length, get_elem?, All,
}
use spark_rapids_ml.Py.{ok}
use spark_rapids_ml.Knn.Rows.{IndexDict, find}
use spark_rapids_ml.Knn.Fit.{ids_of_row, ids_of_rows, transformed_indices}

-- The ids at the given positions.
unfoldable pub ids_at : List ℕ → List ℕ → List ℕ
ids_at ids [] = []
ids_at ids (j ∷ row) = elim (get_elem? ids j) [
  | none ↦ ids_at ids row
  | some v ↦ v ∷ ids_at ids row
]

abbrev pub InRange : List ℕ → List ℕ → Type 0
InRange ids row = All (λ j. j < length ids) row

get_elem?-lt : (ids : List ℕ) (j : ℕ) → j < length ids → (v : ℕ) × (get_elem? ids j ≡ some v)
get_elem?-lt [] j h = elim h [ ]
get_elem?-lt (v ∷ ids) zero h = (v, refl)
get_elem?-lt (v ∷ ids) (suc j) h = get_elem?-lt ids j (omega arith)

module _ (d : IndexDict ℕ) (ids : List ℕ) (same : (j : ℕ) → find d j ≡ get_elem? ids j) where
  ids_of_row-ids_at : (row : List ℕ) → InRange ids row → ids_of_row d row ≡ ok (ids_at ids row)
  unfolding ids_of_row ids_at
  ids_of_row-ids_at [] h = refl
  ids_of_row-ids_at (j ∷ row) (lt, h) =
      let (v, e) = get_elem?-lt ids j lt in ground (arith, same j, e, ids_of_row-ids_at row h)

  ids_of_rows-ids_at :
      (rows : List (List ℕ))
      → All (InRange ids) rows
      → ids_of_rows d rows ≡ ok (map (ids_at ids) rows)
  unfolding ids_of_rows
  ids_of_rows-ids_at [] h = refl
  ids_of_rows-ids_at (row ∷ rows) (h, hs) = rw (ids_of_row-ids_at row h, ids_of_rows-ids_at rows hs)

  pub transformed-ids_at :
      (rows : List (List ℕ))
      → All (InRange ids) rows
      → transformed_indices d (rows ∷ []) ≡ ok (map (ids_at ids) rows ∷ [])
  unfolding transformed_indices
  transformed-ids_at rows h = rw (ids_of_rows-ids_at rows h)
