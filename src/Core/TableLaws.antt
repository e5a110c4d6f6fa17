-- ===== src/Core/TableLaws.antt =====
-- The columns of a dataset as a table, and the rows that are read from it.
use spark_rapids_ml.Base.{
  ℕ, suc, ◌≡◌, ◌≢◌, refl, sym, ap, ◌∙◌, String, Option, none, some, List, [], ◌∷◌, ◌+◌, zero, arith,
  eq_iff, length, replicate, length-replicate, get_elem?, All, str_eq, Bool-cases, inl, inr,
}
use spark_rapids_ml.Py.{ok}
use spark_rapids_ml.Py.Dict.{Dict, get}
use spark_rapids_ml.Py.Value.{Value, str}
use spark_rapids_ml.Core.Transform.{Content, vectors, arrays, others, Dataset, tmp_name}
use spark_rapids_ml.Core.TransformLaws.{read_as, HasColumnsOf}
use spark_rapids_ml.Core.Predict.{cells_of, with_cells, struct_rows}

module _ {A : Type 0} where
  -- Every column has a cell for each of the `n` rows.
  abbrev pub IsTable : ℕ → Dataset (List A) → List String → Type 0
  IsTable n d [] = Unit
  IsTable n d (c ∷ names) =
      ((x : Content (List A)) × (get d c ≡ some x) × (length (cells_of x) ≡ n)) × IsTable n d names

  -- The row has the `i`-th cell of each of the columns.
  abbrev pub IsRow : Dataset (List A) → List String → ℕ → Dict A → Type 0
  IsRow d [] i row = Unit
  IsRow d (c ∷ names) i row =
      ((x : Content (List A)) × (get d c ≡ some x) × (get row c ≡ get_elem? (cells_of x) i))
      × IsRow d names i row

  -- The rows of the columns from the `i`-th on.
  abbrev pub AreRows : Dataset (List A) → List String → ℕ → List (Dict A) → Type 0
  AreRows d names i [] = Unit
  AreRows d names i (row ∷ rows) = IsRow d names i row × AreRows d names (suc i) rows

  get-with_cell :
      (d : Dataset (List A)) (c b : String) (i : ℕ) (row : Dict A) (a : A) (x y : Content (List A))
      → get d c ≡ some x
      → get_elem? (cells_of x) i ≡ some a
      → get d b ≡ some y
      → get row b ≡ get_elem? (cells_of y) i
      → get ((c, a) ∷ row) b ≡ get_elem? (cells_of y) i
  unfolding get
  get-with_cell d c b i row a x y p q r s =
      let same : c ≡ b → x ≡ y = λ e. cc in ground (arith, eq_iff c b, same)

  with_cell-IsRow :
      (d : Dataset (List A)) (c : String) (names : List String) (i : ℕ) (row : Dict A) (a : A)
      (x : Content (List A))
      → get d c ≡ some x
      → get_elem? (cells_of x) i ≡ some a
      → IsRow d names i row
      → IsRow d names i ((c, a) ∷ row)
  with_cell-IsRow d c [] i row a x p q h = tt
  with_cell-IsRow d c (b ∷ names) i row a x p q ((y, r, s), h) =
      ((y, r, get-with_cell d c b i row a x y p q r s), with_cell-IsRow d c names i row a x p q h)

  get-head : (c : String) (a : A) (row : Dict A) → get ((c, a) ∷ row) c ≡ some a
  unfolding get
  get-head c a row = ground (arith, eq_iff c c)

  with_cells-AreRows :
      (d : Dataset (List A)) (c : String) (names : List String) (i : ℕ) (x : Content (List A))
      (xs : List A) (rows : List (Dict A))
      → get d c ≡ some x
      → ((j : ℕ) → get_elem? (cells_of x) (i + j) ≡ get_elem? xs j)
      → length xs ≡ length rows
      → AreRows d names i rows
      → AreRows d (c ∷ names) i (with_cells c xs rows)
        × (length (with_cells c xs rows) ≡ length rows)
  with_cells-AreRows d c names i x [] [] p q l h = (tt, refl)
  with_cells-AreRows d c names i x [] (row ∷ rows) p q l h = absurd (omega arith)
  with_cells-AreRows d c names i x (a ∷ xs) [] p q l h = absurd (omega arith)
  with_cells-AreRows d c names i x (a ∷ xs) (row ∷ rows) p q l (r, h) =
      let here : get_elem? (cells_of x) i ≡ some a =
        ap (get_elem? (cells_of x)) (omega arith) ∙ q 0 in
      let (t, same) =
        with_cells-AreRows d c names (suc i) x xs rows p
          (λ j. ap (get_elem? (cells_of x)) (omega arith) ∙ q (suc j)) (omega arith) h in
      (
        (((x, p, get-head c a row ∙ sym here), with_cell-IsRow d c names i row a x p here r), t),
        ap suc same,
      )

  replicate-AreRows : (d : Dataset (List A)) (n i : ℕ) → AreRows d [] i (replicate n [])
  replicate-AreRows d zero i = tt
  replicate-AreRows d (suc n) i = (tt, replicate-AreRows d n (suc i))

  -- The columns of a table are read as `n` rows with the cells of all of them.
  pub struct_rows-AreRows :
      (n : ℕ) (d : Dataset (List A)) (names : List String)
      → IsTable n d names
      → (rows : List (Dict A)) × (struct_rows n d names ≡ ok rows)
        × (length rows ≡ n)
        × AreRows d names 0 rows
  unfolding struct_rows
  struct_rows-AreRows n d [] h =
      (replicate n [], refl, length-replicate n [], replicate-AreRows d n 0)
  struct_rows-AreRows n d (c ∷ names) ((x, p, l), h) =
      let (rows, e, same, t) = struct_rows-AreRows n d names h in
      let (t', same') =
        with_cells-AreRows d c names 0 x (cells_of x) rows p
          (λ j. ap (get_elem? (cells_of x)) (omega arith)) (l ∙ sym same) t in
      (with_cells c (cells_of x) rows, rw (p, e) refl, same' ∙ same, t')

module _ {F A : Type 0} (columns : Option (Value F) × Option (Value F)) where
  -- A column that becomes one of arrays keeps its cells.
  read_as-cells :
      (c : String) (x : Content (List A))
      → (y : Content (List A)) × (read_as columns c (some x) ≡ some y) × (cells_of y ≡ cells_of x)
  read_as-cells c x = column_as columns x
    where
      column_as :
          (columns : Option (Value F) × Option (Value F)) (x : Content (List A))
          → (y : Content (List A)) × (read_as columns c (some x) ≡ some y)
            × (cells_of y ≡ cells_of x)
      column_as (some (str b), rest) (vectors x) = elim (Bool-cases (str_eq b c)) [
        | inl e ↦ (arrays x, rw e refl, refl)
        | inr e ↦ (vectors x, rw e refl, refl)
      ]
      column_as (some (str b), rest) (arrays x) = (arrays x, ground arith, refl)
      column_as (some (str b), rest) (others x) = (others x, ground arith, refl)
      column_as (some _, rest) x = (x, refl, refl)
      column_as (none, rest) x = (x, refl, refl)

  module _ (d d' : Dataset (List A)) (same : HasColumnsOf columns d d') where
    pub IsTable-prepared :
        (n : ℕ) (names : List String)
        → All (λ c. tmp_name ≢ c) names
        → IsTable n d names
        → IsTable n d' names
    IsTable-prepared n [] ne h = tt
    IsTable-prepared n (c ∷ names) (k, ne) ((x, e, l), h) =
        let (y, q, cells) = read_as-cells c x in
        (
          (y, same c k ∙ ap (read_as columns c) e ∙ q, ap length cells ∙ l),
          IsTable-prepared n names ne h,
        )

    IsRow-prepared :
        (n : ℕ) (names : List String) (i : ℕ) (row : Dict A)
        → All (λ c. tmp_name ≢ c) names
        → IsTable n d names
        → IsRow d' names i row
        → IsRow d names i row
    IsRow-prepared n [] i row ne h r = tt
    IsRow-prepared n (c ∷ names) i row (k, ne) ((x, e, l), h) ((z, f, g), r) =
        let (y, q, cells) = read_as-cells c x in
        let found : get d' c ≡ some y = same c k ∙ ap (read_as columns c) e ∙ q in
        let one : z ≡ y = cc in
        (
          (x, e, g ∙ ap (λ u. get_elem? (cells_of u) i) one ∙ ap (λ l. get_elem? l i) cells),
          IsRow-prepared n names i row ne h r,
        )

    pub AreRows-prepared :
        (n : ℕ) (names : List String) (i : ℕ) (rows : List (Dict A))
        → All (λ c. tmp_name ≢ c) names
        → IsTable n d names
        → AreRows d' names i rows
        → AreRows d names i rows
    AreRows-prepared n names i [] ne h r = tt
    AreRows-prepared n names i (row ∷ rows) ne h (r, rs) =
        (IsRow-prepared n names i row ne h r, AreRows-prepared n names (suc i) rows ne h rs)
