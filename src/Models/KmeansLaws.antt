-- ===== src/Models/KmeansLaws.antt =====
-- The fit of KMeans, from the partitions of the dataset to the attributes of the model.
use spark_rapids_ml.Base.{
  ℕ, ◌≡◌, refl, String, ◌⊎◌, inl, inr, true, Option, none, some, List, [], ◌∷◌, map, flatten, All,
  get_elem?,
}
use spark_rapids_ml.Py.{Result, ok, err, type_error, ok-injective, bind-eq-ok}
use spark_rapids_ml.Py.Dict.{Dict, get}
use spark_rapids_ml.Py.Value.{Value}
use spark_rapids_ml.Utils.Arrays.{IsFaithful, NumPy, HasColumns}
use spark_rapids_ml.Core.Columns.{data_alias}
use spark_rapids_ml.Core.Inputs.{
  Pdf, Features, many, stacked, stack, Input, read_features, read_input, read_inputs,
}
use spark_rapids_ml.Core.Train.{Stage, partitioned}
use spark_rapids_ml.Core.TrainLaws.{Repartitions}
use spark_rapids_ml.Core.StageRuns.{IsReady}
use spark_rapids_ml.Models.Rows.{Attribute, Fitted, kmeans_fitted, fit_row}
use spark_rapids_ml.Models.Jobs.{IsReadable, ModelHolds, job-ModelHolds}
use spark_rapids_ml.Models.Fitting.{arrays, Concated, concated_array}
use spark_rapids_ml.Models.FittingLaws.{kmeans_fit-row}
use spark_rapids_ml.Models.Task.{arrays_of, df_list, kmeans_task}

module _ {X Y : Type 0} where
  -- The arrays among the features of the inputs.
  abbrev pub stacked_in : List (Input X Y) → List X
  stacked_in [] = []
  stacked_in (i ∷ dfs) = elim i.features [
    | many d ↦ stacked_in dfs
    | stacked x ↦ x ∷ stacked_in dfs
  ]

  Features-cases : (f : Features X Y) → ((d : Dict Y) × (f ≡ many d)) ⊎ ((x : X) × (f ≡ stacked x))
  Features-cases (many d) = inl (d, refl)
  Features-cases (stacked x) = inr (x, refl)

  stack-stacked :
      (to_array : Y → Result X) (column : Option Y) (f : Features X Y)
      → stack to_array column ≡ ok f
      → (x : X) × (f ≡ stacked x)
  stack-stacked to_array none f e = cc
  stack-stacked to_array (some y) f e =
      let (x, _, same) = bind-eq-ok (to_array y) (λ x. ok (stacked x)) e in (x, cc)

  read_input-stacked :
      (to_array : Y → Result X) (pdf : Pdf Y) (i : Input X Y)
      → read_input to_array none pdf ≡ ok i
      → (x : X) × (i.features ≡ stacked x)
  unfolding read_input read_features
  read_input-stacked to_array pdf i e =
      let (f, read, same) = bind-eq-ok (stack to_array (get pdf.columns data_alias)) _ e in
      let (x, q) = stack-stacked to_array (get pdf.columns data_alias) f read in
      (x, rw (← ok-injective same) q)

  arrays_of-stacked :
      (f : Features X Y) (l r : Option Y) (dfs : List (Input X Y)) (x : X)
      → f ≡ stacked x
      → arrays_of dfs ≡ ok (stacked_in dfs)
      → arrays_of (record { features = f; label = l; row_number = r } ∷ dfs)
        ≡ ok (stacked_in (record { features = f; label = l; row_number = r } ∷ dfs))
  unfolding arrays_of
  arrays_of-stacked (many d) l r dfs x q h = cc
  arrays_of-stacked (stacked y) l r dfs x q h = rw h refl

  -- Without the names of several columns, a task reads arrays alone.
  read_inputs-arrays :
      (to_array : Y → Result X) (batches : List (Pdf Y)) (inputs : List (Input X Y))
      → read_inputs to_array none batches ≡ ok inputs
      → arrays_of inputs ≡ ok (stacked_in inputs)
  unfolding read_inputs arrays_of
  read_inputs-arrays to_array [] inputs e = rw (← ok-injective e) refl
  read_inputs-arrays to_array (pdf ∷ batches) inputs e =
      let (i, first, h) = bind-eq-ok (read_input to_array none pdf) _ e in
      let (rest, others, same) = bind-eq-ok (read_inputs to_array none batches) _ h in
      let (x, q) = read_input-stacked to_array pdf i first in
      rw (← ok-injective same) (
        arrays_of-stacked i.features i.label i.row_number rest x q
          (read_inputs-arrays to_array batches rest others))

  df_list-arrays :
      (inputs : List (Input X Y)) (a : X) (others : List X)
      → arrays_of inputs ≡ ok (a ∷ others)
      → df_list inputs ≡ ok (arrays (a ∷ others))
  unfolding df_list arrays_of
  df_list-arrays [] a others e = cc
  df_list-arrays (i ∷ dfs) a others e = elim (Features-cases i.features) [
    | inl (d, q) ↦
        (let refused : arrays_of (i ∷ dfs) ≡ err type_error = rw (arrays_of, q) refl in cc)
    | inr (x, q) ↦ rw (df_list, q, e) refl
  ]

module _ {F Y Comms : Type 0} (N : NumPy) (concat : List (Dict Y) → Result (Dict Y))
    (cuml : Comms
      → Dict (Value F)
      → Concated (Dict Y) N.Array
      → Result (List (List F) × String)) where
  -- A stage whose tasks fit KMeans.
  abbrev pub kmeans_stage :
      Stage F N.Array Y Comms (Dict (Attribute F)) → Stage F N.Array Y Comms (Dict (Attribute F))
  kmeans_stage S = record S { fit = kmeans_task N concat cuml }

  module _ (S : Stage F N.Array Y Comms (Dict (Attribute F))) where
    -- The rows of the arrays that a task has read.
    abbrev pub rows_in : List (Input N.Array Y) → List N.Row
    rows_in inputs = flatten (map N.rows (stacked_in inputs))

    -- A worker has at least one array, and all its arrays have the number of columns.
    abbrev pub AreBlocks : List (Input N.Array Y) → Type 0
    AreBlocks inputs =
        (a : N.Array) × (others : List N.Array) × (stacked_in inputs ≡ a ∷ others)
        × All (HasColumns N S.dimension) (a ∷ others)

    -- cuML answers every worker, by the rows of the one array that it is given.
    abbrev pub Answers : (ℕ → Comms) → (ℕ → List N.Row → List (List F) × String) → Type 0
    Answers comms answer =
        (rank : ℕ) (joined : N.Array)
        → cuml (comms rank) S.cuml_params (concated_array joined) ≡ ok (answer rank (N.rows joined))

    abbrev pub kmeans_row : List (List F) × String → Fitted F
    kmeans_row (centers, dtype) = kmeans_fitted centers S.dimension dtype

    kmeans_task-row :
        (comms : ℕ → Comms) (answer : ℕ → List N.Row → List (List F) × String) (rank gpu : ℕ)
        (part_sizes : List ℕ) (inputs : List (Input N.Array Y))
        → IsFaithful N
        → Answers comms answer
        → arrays_of inputs ≡ ok (stacked_in inputs)
        → AreBlocks inputs
        → kmeans_task N concat cuml rank gpu inputs (record {
          cuml_init = S.cuml_params;
          comms = comms rank;
          part_sizes = part_sizes;
          num_cols = S.dimension;
        })
          ≡ ok (fit_row (kmeans_row (answer rank (rows_in inputs))))
    unfolding kmeans_task
    kmeans_task-row comms answer rank gpu part_sizes inputs L answered read (a, others, e, wide) =
        let given : df_list inputs ≡ ok (arrays (a ∷ others)) =
          df_list-arrays inputs a others (rw (← e) read) in
        rw (given, e)
          (kmeans_fit-row N concat (cuml (comms rank)) S.cuml_params S.dimension a others
            (answer rank (flatten (map N.rows (a ∷ others)))).0
            (answer rank (flatten (map N.rows (a ∷ others)))).1 L wide
            (λ b same. rw (answered rank b, same) refl))

    -- A fit of KMeans on a column of arrays returns, and the model that the driver makes of the
    -- collected row has for its attributes the centers and the dtype that cuML has answered worker 0,
    -- which was given one array with the rows of all its batches in their order, and the number of
    -- columns. Assumed: one result is collected, and a dataset that is repartitioned has as many
    -- partitions as are asked for; the tasks come as far as the fit function and their frames can be
    -- read; every worker has a batch and its arrays have the number of columns; numpy joins arrays;
    -- cuML answers, and by the rows alone.
    pub kmeans_fit-attributes :
        (ready : IsReady (kmeans_stage S)) (dataset : List (List (Pdf Y))) (batches : List (Pdf Y))
        (partitions : List (List (Pdf Y))) (answer : ℕ → List N.Row → List (List F) × String)
        → IsFaithful N
        → Repartitions S
        → S.partially_collect ≡ true
        → S.multi_col_names ≡ none
        → partitioned (kmeans_stage S) dataset ≡ batches ∷ partitions
        → IsReadable S (batches ∷ partitions)
        → ((rank : ℕ) (part : List (Pdf Y)) (inputs : List (Input N.Array Y))
            → get_elem? (batches ∷ partitions) rank ≡ some part
            → read_inputs S.to_array none part ≡ ok inputs
            → AreBlocks inputs)
        → Answers ready.comms answer
        → ModelHolds
            (kmeans_stage S)
            dataset
            batches
            (λ inputs. kmeans_row (answer 0 (rows_in inputs)))
    kmeans_fit-attributes ready dataset batches partitions answer L again b single e readable blocks
          answered =
        job-ModelHolds (kmeans_stage S) ready dataset batches partitions
          (λ rank inputs. kmeans_row (answer rank (rows_in inputs))) again b e readable
          (λ rank part inputs f read.
            let arrays_read : read_inputs S.to_array none part ≡ ok inputs = rw (← single) read in
            (
              inputs,
              read,
              kmeans_task-row ready.comms answer rank (ready.gpu rank)
                  (map (λ pdf. pdf.num_rows) part) inputs L answered
                  (read_inputs-arrays S.to_array part inputs arrays_read)
                  (blocks rank part inputs f arrays_read),
            ))
