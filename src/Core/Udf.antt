-- ===== src/Core/Udf.antt =====
-- `_CumlModel._transform` of core.py: the udf that runs on the partitions of a dataset.
use mathlib.Core.List.{map-append}
use spark_rapids_ml.Base.{
  ℕ, suc, ◌≡◌, refl, String, Bool, true, false, some, List, [], ◌∷◌, ◌++◌, map, flatten,
  flatten-append,
}
use spark_rapids_ml.Py.{Result, ok, err, index_error, bind}
use spark_rapids_ml.Utils.Devices.{TaskContext, set_gpu_device}

-- What the tasks run: the machine, and the functions that `_get_cuml_transform_func` returns. `R` is
-- the type of a row, `X` that of its features and `Y` that of the rows of the result.
pub record Udf (R X Y Object : Type 0) : Type 0 where
  pub total_gpus : ℕ
  pub parse_address : String → Result ℕ
  pub is_local : Bool
  pub context : ℕ → TaskContext
  -- construct_cuml_object_func, on a device
  pub construct : ℕ → Result Object
  -- cuml_transform_func
  pub transform : Object → List X → Result (List Y)
  -- the cells of many columns of a row, and the array in a column
  pub cells : List String → R → X
  pub array : String → R → X

module _ {R X Y Object : Type 0} (U : Udf R X Y Object) where
  -- pdf[select_cols], or np.array(list(pdf[select_cols[0]]))
  unfoldable pub features : List String → Bool → List R → Result (List X)
  features select_cols true pdf = ok (map (U.cells select_cols) pdf)
  features [] false pdf = err index_error
  features (c ∷ select_cols) false pdf = ok (map (U.array c) pdf)

  -- What is yielded for the batches of a partition.
  unfoldable pub transform_batches :
      Object → List String → Bool → List (List R) → Result (List (List Y))
  unfolding features
  transform_batches object select_cols is_multi [] = ok []
  transform_batches object select_cols is_multi (pdf ∷ pdf_iter) =
      bind (bind (features select_cols is_multi pdf) (U.transform object)) (λ result.
        bind (transform_batches object select_cols is_multi pdf_iter) (λ rest. ok (result ∷ rest)))

  unfoldable pub transform_udf : ℕ → List String → Bool → List (List R) → Result (List (List Y))
  unfolding transform_batches
  transform_udf i select_cols is_multi pdf_iter =
      bind (set_gpu_device U.parse_address U.total_gpus (some (U.context i)) U.is_local true)
        (λ gpu.
          bind (U.construct gpu) (λ object. transform_batches object select_cols is_multi pdf_iter))

  -- dataset.mapInPandas, on the partitions from `i` on
  unfoldable pub map_in_pandas :
      ℕ → List String → Bool → List (List (List R)) → Result (List (List (List Y)))
  unfolding transform_udf
  map_in_pandas i select_cols is_multi [] = ok []
  map_in_pandas i select_cols is_multi (partition ∷ partitions) =
      bind (transform_udf i select_cols is_multi partition) (λ result.
        bind (map_in_pandas (suc i) select_cols is_multi partitions) (λ rest. ok (result ∷ rest)))

  -- What the code relies on: a device is found for every task, the object is the same on each, and it
  -- transforms row by row.
  pub record IsRowWise (object : Object) (score : X → Y) : Type 0 where
    pub device :
        (i : ℕ)
        → (gpu : ℕ) × (set_gpu_device U.parse_address U.total_gpus
              (some (U.context i))
              U.is_local
              true
            ≡ ok gpu)
    pub construct_lem : (gpu : ℕ) → U.construct gpu ≡ ok object
    pub transform_lem : (xs : List X) → U.transform object xs ≡ ok (map score xs)

  module _ (object : Object) (score : X → Y) (W : IsRowWise object score)
      (select_cols : List String) (is_multi : Bool) (feature : R → X)
      (read : (pdf : List R) → features select_cols is_multi pdf ≡ ok (map feature pdf)) where
    abbrev scores : List R → List Y
    scores rows = map score (map feature rows)

    scores-append : (xs ys : List R) → scores (xs ++ ys) ≡ scores xs ++ scores ys
    scores-append xs ys = simp map-append

    transform_batches-map :
        (batches : List (List R))
        → transform_batches object select_cols is_multi batches ≡ ok (map scores batches)
    unfolding transform_batches
    transform_batches-map [] = refl
    transform_batches-map (pdf ∷ batches) =
        rw (read pdf, W.transform_lem (map feature pdf), transform_batches-map batches)

    map_in_pandas-map :
        (i : ℕ) (partitions : List (List (List R)))
        → map_in_pandas i select_cols is_multi partitions ≡ ok (map (map scores) partitions)
    unfolding map_in_pandas transform_udf
    map_in_pandas-map i [] = refl
    map_in_pandas-map i (partition ∷ partitions) =
        let (gpu, e) = W.device i in
        rw (
          e,
          W.construct_lem gpu,
          transform_batches-map partition,
          map_in_pandas-map (suc i) partitions,
        )

    flatten-scores :
        (batches : List (List R)) → flatten (map scores batches) ≡ scores (flatten batches)
    flatten-scores [] = refl
    flatten-scores (pdf ∷ batches) =
        rw (flatten-scores batches, scores-append pdf (flatten batches)) refl

    flatten-partitions :
        (partitions : List (List (List R)))
        → flatten (flatten (map (map scores) partitions)) ≡ scores (flatten (flatten partitions))
    flatten-partitions [] = refl
    flatten-partitions (partition ∷ partitions) =
        rw
          (
            flatten-append (map scores partition) (flatten (map (map scores) partitions)),
            flatten-scores partition,
            flatten-partitions partitions,
            flatten-append partition (flatten partitions),
            scores-append (flatten partition) (flatten (flatten partitions)),
          )
          refl

  -- For many columns and for a single one the udf returns, and the rows of the result are the scores of the rows of the dataset, in
  -- their order, however the rows are divided into partitions and batches. Assumed: a device is found
  -- for every task, and cuML's object is the same on each and transforms row by row.
  pub map_in_pandas-rows :
      (object : Object) (score : X → Y) (select_cols : List String)
      (partitions : List (List (List R)))
      → IsRowWise object score
      → (c : String)
      → (result : List (List (List Y))) × (single : List (List (List Y))) × (map_in_pandas 0
            select_cols true partitions
          ≡ ok result)
        × (map_in_pandas 0 (c ∷ []) false partitions ≡ ok single)
        × (flatten (flatten result)
            ≡ map score (map (U.cells select_cols) (flatten (flatten partitions))))
        × (flatten (flatten single) ≡ map score (map (U.array c) (flatten (flatten partitions))))
  unfolding features
  map_in_pandas-rows object score select_cols partitions W c = (
    map (map (λ rows. map score (map (U.cells select_cols) rows))) partitions,
    map (map (λ rows. map score (map (U.array c) rows))) partitions,
    map_in_pandas-map object score W select_cols true (U.cells select_cols) (λ pdf. refl) 0
        partitions,
    map_in_pandas-map object score W (c ∷ []) false (U.array c) (λ pdf. refl) 0 partitions,
    flatten-partitions object score W select_cols true (U.cells select_cols) (λ pdf. refl)
        partitions,
    flatten-partitions object score W (c ∷ []) false (U.array c) (λ pdf. refl) partitions,
  )
