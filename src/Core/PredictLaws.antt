-- ===== src/Core/PredictLaws.antt =====
-- The prediction of every row of a transformed dataset.
use spark_rapids_ml.Base.{
  ℕ, ◌≡◌, ◌≢◌, refl, ap, ◌∙◌, String, Bool, true, false, Option, none, some, List, [], ◌∷◌, map,
  flatten, length, All,
}
use spark_rapids_ml.Py.{ok, ok-injective}
use spark_rapids_ml.Py.Dict.{Dict, get}
use spark_rapids_ml.Py.Value.{Value, str, strs}
use spark_rapids_ml.Core.Transform.{
  Content, vectors, arrays, others, Dataset, Prepared, prepare, prepare_single, Target, transform,
  tmp_name, add_columns,
}
use spark_rapids_ml.Core.TransformLaws.{
  added, read_as, get-add_columns, get-prepare, names_of, are_many, prepare-names, HasColumnsOf,
}
use spark_rapids_ml.Core.Udf.{Udf, map_in_pandas, IsRowWise, map_in_pandas-rows}
use spark_rapids_ml.Core.Predict.{struct_rows, predict_udf}
use spark_rapids_ml.Core.TableLaws.{
  IsTable, AreRows, struct_rows-AreRows, IsTable-prepared, AreRows-prepared,
}

-- A selection of a single column has a name.
abbrev IsSelection : Bool → List String → Type 0
IsSelection true names = Unit
IsSelection false (c ∷ []) = Unit
IsSelection false _ = ⊥

prepare_single-IsSelection :
    {C : Type 0} (d : Dataset C) (c : String) (o : Option (Content C)) (p : Prepared C)
    → prepare_single d c o ≡ ok p
    → IsSelection p.input_is_multi_cols p.select_cols
unfolding prepare_single
prepare_single-IsSelection d c none p h = cc
prepare_single-IsSelection d c (some (vectors x)) p h = rw (← ok-injective h) tt
prepare_single-IsSelection d c (some (arrays x)) p h = rw (← ok-injective h) tt
prepare_single-IsSelection d c (some (others x)) p h = cc

prepare-IsSelection :
    {F C : Type 0} (d : Dataset C) (columns : Option (Value F) × Option (Value F)) (p : Prepared C)
    → prepare d columns ≡ ok p
    → IsSelection p.input_is_multi_cols p.select_cols
unfolding prepare
prepare-IsSelection d (some (str c), rest) p h = prepare_single-IsSelection d c (get d c) p h
prepare-IsSelection d (none, some (strs names)) p h = rw (← ok-injective h) tt
prepare-IsSelection d (some _, rest) p h = cc
prepare-IsSelection d (none, some _) p h = cc
prepare-IsSelection d (none, none) p h = cc

module _ {A X Object : Type 0} (U : Udf (Dict A) X (A × A) Object)
    (divide : List (Dict A) → List (List (List (Dict A)))) where
  -- What a task reads of a row.
  abbrev pub feature : Bool → List String → Dict A → X
  feature true names row = U.cells names row
  feature false [] row = U.cells [] row
  feature false (c ∷ names) row = U.array c row

  map_in_pandas-IsSelection :
      (object : Object) (score : X → A × A) (b : Bool) (names : List String)
      (partitions : List (List (List (Dict A))))
      → IsRowWise U object score
      → IsSelection b names
      → (result : List (List (List (A × A)))) × (map_in_pandas U 0 names b partitions ≡ ok result)
        × (flatten (flatten result)
            ≡ map score (map (feature b names) (flatten (flatten partitions))))
  map_in_pandas-IsSelection object score true names partitions W h =
      let (result, other, e, e', f, f') = map_in_pandas-rows U object score names partitions W "" in
      (result, e, f)
  map_in_pandas-IsSelection object score false (c ∷ []) partitions W h =
      let (other, result, e', e, f', f) = map_in_pandas-rows U object score [] partitions W c in
      (result, e, f)
  map_in_pandas-IsSelection object score false [] partitions W h = elim h [ ]
  map_in_pandas-IsSelection object score false (c ∷ b ∷ names) partitions W h = elim h [ ]

  -- The scores of the rows, as the tasks read them.
  abbrev pub scores : (X → A × A) → Bool → List String → List (Dict A) → List (A × A)
  scores score b names rows = map score (map (feature b names) rows)

  -- If the input columns are a table of `n` rows, the transform returns, and the prediction column
  -- holds at each row the prediction for what the row has in the input columns, and the probability
  -- column, if the model adds one, the probability, however Spark divides the rows into partitions and
  -- batches. Every other column is as it was, but a single input column of vectors has become one of
  -- arrays. Assumed: the input columns can be prepared, the rows are divided in their order, a device is
  -- found for every task, cuML's object is the same on each and transforms row by row, and neither the
  -- name that is looked up nor that of an input column is the one that a column has in between.
  pub transform-rows :
      {F : Type 0} (struct : List A × List A → List A)
      (columns : Option (Value F) × Option (Value F)) (t : Target) (d : Dataset (List A))
      (p : Prepared (List A)) (n : ℕ) (object : Object) (score : X → A × A) (k : String)
      → IsRowWise U object score
      → ((rows : List (Dict A)) → flatten (flatten (divide rows)) ≡ rows)
      → prepare d columns ≡ ok p
      → All (λ c. tmp_name ≢ c) (names_of columns)
      → IsTable n d (names_of columns)
      → tmp_name ≢ k
      → (rows : List (Dict A)) × (out : Dataset (List A)) × (length rows ≡ n)
        × AreRows d (names_of columns) 0 rows
        × (transform (predict_udf U divide n) struct columns (ok t) d ≡ ok out)
        × (get out k
            ≡ added t
                (map (λ y. y.0) (scores score (are_many columns) (names_of columns) rows))
                (map (λ y. y.1) (scores score (are_many columns) (names_of columns) rows))
                k
                (read_as columns k (get d k)))
  unfolding transform predict_udf
  transform-rows struct columns t d p n object score k W divided e fresh h ne =
      let same : HasColumnsOf columns d p.dataset = λ j m. get-prepare d columns j p m e in
      let (names, many) = prepare-names d columns p e in
      let (rows, read, l, cells) =
        struct_rows-AreRows n p.dataset (names_of columns)
          (IsTable-prepared columns d p.dataset same n (names_of columns) fresh h) in
      let (result, ran, f) =
        map_in_pandas-IsSelection object score p.input_is_multi_cols p.select_cols (divide rows) W
          (prepare-IsSelection d columns p e) in
      let ys = scores score (are_many columns) (names_of columns) rows in
      let found : flatten (flatten result) ≡ ys =
        f
        ∙ ap (scores score p.input_is_multi_cols p.select_cols) (divided rows)
        ∙ ap (λ l. scores score p.input_is_multi_cols l rows) names
        ∙ ap (λ b. scores score b (names_of columns) rows) many in
      let prediction = map (λ y. y.0) ys in
      let probability = map (λ y. y.1) ys in
      (
        rows,
        add_columns p.dataset t (struct (prediction, probability)) prediction probability,
        l,
        AreRows-prepared columns d p.dataset same n (names_of columns) 0 rows fresh h cells,
        rw (e, ap (struct_rows n p.dataset) names ∙ read, ran, found) refl,
        get-add_columns p.dataset t (struct (prediction, probability)) prediction probability k
            ∙ ap (added t prediction probability k) (get-prepare d columns k p ne e),
      )
