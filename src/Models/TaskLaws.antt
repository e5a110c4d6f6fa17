-- ===== src/Models/TaskLaws.antt =====
-- The fit of PCA, from the partitions of the dataset to the attributes of the model.
use spark_rapids_ml.Base.{
  ℕ, ◌≡◌, true, some, List, ◌∷◌, map, sum, flatten, get_elem?, get_elem?-map-some,
}
use spark_rapids_ml.Py.{Result, ok, bind}
use spark_rapids_ml.Py.Dict.{Dict, get}
use spark_rapids_ml.Py.Value.{Value}
use spark_rapids_ml.Utils.Partitions.{Codec, IsFaithful, Part, parts_from}
use spark_rapids_ml.Core.Inputs.{Pdf, Features, Input, read_inputs}
use spark_rapids_ml.Core.Train.{Stage, partitioned, call_cuml_fit_func, first_row}
use spark_rapids_ml.Core.TrainLaws.{Repartitions}
use spark_rapids_ml.Core.StageRuns.{IsReady, FitsTo}
use spark_rapids_ml.Models.Rows.{
  Attribute, count, numbers, matrix, text, pca, fit_row, out_fields, construct,
}
use spark_rapids_ml.Models.Jobs.{frame_rows, Gathers, IsReadable, job-ModelHolds}
use spark_rapids_ml.Models.Fitting.{PcaRequest, PcaAnswer, pca_row}
use spark_rapids_ml.Models.FittingLaws.{pca_fit-row}
use spark_rapids_ml.Models.Task.{pca_task}

module _ {F X Y M Comms : Type 0} (J : Codec M (List Part))
    (cuml : Comms → Dict (Value F) → PcaRequest (Features X Y) → Result (PcaAnswer F))
    (all_gather : ℕ → M → List M) where
  -- A stage whose tasks fit PCA.
  abbrev pub pca_stage :
      Stage F X Y Comms (Dict (Attribute F)) → Stage F X Y Comms (Dict (Attribute F))
  pca_stage S = record S { fit = pca_task J cuml all_gather }

  module _ (S : Stage F X Y Comms (Dict (Attribute F))) where
    -- What PCAMG is asked by the worker of a rank, if these are the rows of all workers.
    abbrev pub request : List (List ℕ) → ℕ → List (Input X Y) → PcaRequest (Features X Y)
    request workers rank inputs = record {
      inputs = map (λ i. i.features) inputs;
      m = sum (flatten workers);
      n = S.dimension;
      parts_rank_size = parts_from 0 workers;
      rank = rank;
    }

    -- cuML answers every worker.
    abbrev pub Answers : (ℕ → Comms) → List (List ℕ) → (ℕ → List (Input X Y) → PcaAnswer F) → Type 0
    Answers comms workers answer =
        (rank : ℕ) (inputs : List (Input X Y))
        → cuml (comms rank) S.cuml_params (request workers rank inputs) ≡ ok (answer rank inputs)

    -- The attributes of a model, by their names, are what is read from cuML's object.
    abbrev pub Answered : Dict (Attribute F) → PcaAnswer F → Type 0
    Answered attributes r =
        (get attributes "mean_" ≡ some (numbers r.mean))
        × (get attributes "components_" ≡ some (matrix r.components))
        × (get attributes "explained_variance_ratio_" ≡ some (numbers r.explained_variance_ratio))
        × (get attributes "singular_values_" ≡ some (numbers r.singular_values))
        × (get attributes "n_cols" ≡ some (count S.dimension))
        × (get attributes "dtype" ≡ some (text r.dtype))

    pca-FitsTo :
        (ready : IsReady (pca_stage S)) (partitions : List (List (Pdf Y)))
        (answer : ℕ → List (Input X Y) → PcaAnswer F) (rank : ℕ) (batches : List (Pdf Y))
        (inputs : List (Input X Y))
        → IsFaithful J
        → Gathers J all_gather (frame_rows partitions)
        → Answers ready.comms (frame_rows partitions) answer
        → get_elem? partitions rank ≡ some batches
        → read_inputs S.to_array S.multi_col_names batches ≡ ok inputs
        → FitsTo
            (pca_stage S)
            ready
            rank
            batches
            (fit_row (pca_row (answer rank inputs) S.dimension))
    unfolding pca_task
    pca-FitsTo ready partitions answer rank batches inputs L gathered answered e r =
        let own =
          get_elem?-map-some (λ batches. map (λ pdf. pdf.num_rows) batches) partitions rank batches
            e in
        (
          inputs,
          r,
          pca_fit-row J (cuml (ready.comms rank)) (frame_rows partitions) (all_gather rank) rank
              S.dimension (map (λ pdf. pdf.num_rows) batches) S.cuml_params
              (map (λ i. i.features) inputs) (answer rank inputs) L
              (gathered rank (map (λ pdf. pdf.num_rows) batches) own) own (answered rank inputs),
        )

    -- A fit of PCA returns, and the model that the driver makes of the collected row has the mean, the
    -- components, the explained variance ratio, the singular values and the dtype that cuML has
    -- answered worker 0, each under its own name, and the dimension as `n_cols`. Worker 0 was asked
    -- with its own batches and with the row count and the parts of all workers. Assumed: one result is collected, and a dataset that is
    -- repartitioned has as many partitions as are asked for; the tasks come as
    -- far as the fit function and their frames can be read; every worker receives the messages of
    -- all in the order of their ranks, and they are read back as they were written; cuML answers.
    pub pca_fit-attributes :
        (ready : IsReady (pca_stage S)) (dataset : List (List (Pdf Y))) (batches : List (Pdf Y))
        (partitions : List (List (Pdf Y))) (answer : ℕ → List (Input X Y) → PcaAnswer F)
        → IsFaithful J
        → Repartitions S
        → S.partially_collect ≡ true
        → partitioned (pca_stage S) dataset ≡ batches ∷ partitions
        → IsReadable S (batches ∷ partitions)
        → Gathers J all_gather (frame_rows (batches ∷ partitions))
        → Answers ready.comms (frame_rows (batches ∷ partitions)) answer
        → (inputs : List (Input X Y)) × (attributes : Dict (Attribute F)) × (read_inputs S.to_array
              S.multi_col_names batches
            ≡ ok inputs)
          × (bind
                (bind (call_cuml_fit_func (pca_stage S) dataset) (first_row (pca_stage S)))
                (construct pca)
              ≡ ok attributes)
          × Answered attributes (answer 0 inputs)
    unfolding fit_row out_fields get
    pca_fit-attributes ready dataset batches partitions answer L again b e readable gathered
          answered =
        let (
          inputs,
          attributes,
          r,
          made,
          (mean, (components, (ratio, (singular, (n, (dtype, _)))))),
        ) =
          job-ModelHolds (pca_stage S) ready dataset batches partitions
            (λ rank inputs. pca_row (answer rank inputs) S.dimension) again b e readable
            (λ rank p inputs f r.
              pca-FitsTo ready (batches ∷ partitions) answer rank p inputs L gathered answered f
                r) in
        (inputs, attributes, r, made, (mean, components, ratio, singular, n, dtype))
