-- ===== src/Models/Jobs.antt =====
-- `_CumlEstimator._fit_internal` of the estimators whose tasks return a model's row: the tasks of the
-- workers, the collected row and the model that is made of it.
use spark_rapids_ml.Base.{ℕ, suc, ◌≡◌, refl, true, some, List, ◌∷◌, map, get_elem?}
use spark_rapids_ml.Py.{ok, bind}
use spark_rapids_ml.Py.Dict.{Dict}
use spark_rapids_ml.Utils.Partitions.{Codec, Part, rank_size, messages_from}
use spark_rapids_ml.Core.Inputs.{Pdf, Input, read_inputs}
use spark_rapids_ml.Core.Train.{Stage, partitioned, call_cuml_fit_func, first_row}
use spark_rapids_ml.Core.TrainLaws.{Repartitions}
use spark_rapids_ml.Core.StageRuns.{IsReady, FitsTo, first_row-fit}
use spark_rapids_ml.Models.Rows.{Attribute, Fitted, algorithm_of, fit_row, out_fields, construct}
use spark_rapids_ml.Models.RowsLaws.{SameFields, construct-fit_row}

-- The rows of the frames of every worker.
abbrev pub frame_rows : {Y : Type 0} → List (List (Pdf Y)) → List (List ℕ)
frame_rows partitions = map (λ batches. map (λ pdf. pdf.num_rows) batches) partitions

-- Every worker receives the messages of all workers in the order of their ranks.
abbrev pub Gathers : {M : Type 0} → Codec M (List Part) → (ℕ → M → List M) → List (List ℕ) → Type 0
Gathers J all_gather workers =
    (rank : ℕ) (own : List ℕ)
    → get_elem? workers rank ≡ some own
    → all_gather rank (J.dumps (rank_size rank own)) ≡ messages_from J 0 workers

module _ {F X Y Comms : Type 0} (S : Stage F X Y Comms (Dict (Attribute F))) where
  -- Every partition can be read.
  abbrev pub IsReadable : List (List (Pdf Y)) → Type 0
  IsReadable partitions =
      (rank : ℕ) (batches : List (Pdf Y))
      → get_elem? partitions rank ≡ some batches
      → (inputs : List (Input X Y)) × (read_inputs S.to_array S.multi_col_names batches ≡ ok inputs)

  -- The task of every worker returns the row of what cuML has fitted to its inputs.
  abbrev pub FitsEach : IsReady S → List (List (Pdf Y)) → (ℕ → List (Input X Y) → Fitted F) → Type 0
  FitsEach ready partitions answer =
      (rank : ℕ) (batches : List (Pdf Y)) (inputs : List (Input X Y))
      → get_elem? partitions rank ≡ some batches
      → read_inputs S.to_array S.multi_col_names batches ≡ ok inputs
      → FitsTo S ready rank batches (fit_row (answer rank inputs))

  -- The model of a dataset: the stage's first row, read by the constructor of the algorithm's model.
  -- Its attributes are those of what cuML fitted to the inputs of worker 0.
  abbrev pub ModelHolds :
      List (List (Pdf Y)) → List (Pdf Y) → (List (Input X Y) → Fitted F) → Type 0
  ModelHolds dataset batches fitted =
      (inputs : List (Input X Y)) × (attributes : Dict (Attribute F)) × (read_inputs S.to_array
          S.multi_col_names batches
        ≡ ok inputs)
      × (bind (bind (call_cuml_fit_func S dataset) (first_row S))
            (construct (algorithm_of (fitted inputs)))
          ≡ ok attributes)
      × SameFields (out_fields (algorithm_of (fitted inputs))) attributes (fit_row (fitted inputs))

  pub job-ModelHolds :
      (ready : IsReady S) (dataset : List (List (Pdf Y))) (batches : List (Pdf Y))
      (partitions : List (List (Pdf Y))) (answer : ℕ → List (Input X Y) → Fitted F)
      → Repartitions S
      → S.partially_collect ≡ true
      → partitioned S dataset ≡ batches ∷ partitions
      → IsReadable (batches ∷ partitions)
      → FitsEach ready (batches ∷ partitions) answer
      → ModelHolds dataset batches (answer 0)
  job-ModelHolds ready dataset batches partitions answer again b e readable fits =
      let (inputs, r) = readable 0 batches refl in
      let (_, _, (attributes, made, same, _)) = construct-fit_row (answer 0 inputs) in
      let first =
        first_row-fit S ready dataset batches partitions (fit_row (answer 0 inputs)) again b e
          (fits 0 batches inputs refl r)
          (λ j p f.
            let (others, q) = readable (suc j) p f in
            (fit_row (answer (suc j) others), fits (suc j) p others f q)) in
      (inputs, attributes, r, rw first made, same)
