-- ===== src/Tests/Jobs.antt =====
-- Fits of random forests and of PCA, from the partitions to the model.
use spark_rapids_ml.Base.{
  ℕ, ◌≡◌, refl, arith, true, false, Option, none, some, List, [], ◌∷◌, flatten, length, replicate,
  length-replicate, zero, suc, get_elem?,
}
use spark_rapids_ml.Py.{Result, ok, err, type_error, bind, ok-injective}
use spark_rapids_ml.Py.Dict.{Dict, get, remove}
use spark_rapids_ml.Py.Value.{pos}
use spark_rapids_ml.Utils.Partitions.{messages_from}
use spark_rapids_ml.Utils.Devices.{set_gpu_device, initialize_cuml_logging}
use spark_rapids_ml.Core.Columns.{data_alias, label_alias}
use spark_rapids_ml.Core.Inputs.{Pdf, Features, stacked, Input, read_inputs}
use spark_rapids_ml.Core.Train.{Stage, call_cuml_fit_func, first_row}
use spark_rapids_ml.Core.StageRuns.{IsReady}
use spark_rapids_ml.Tree.Fit.{Forests, ForestRow, train_share, construct_rf, rf_params}
use spark_rapids_ml.Tree.FitLaws
use spark_rapids_ml.Tree.Task.{BatchJoins, JoinedInputs, join_inputs}
use spark_rapids_ml.Tree.TaskLaws.{forest_stage, forest_fit-trees}
use spark_rapids_ml.Models.Rows
use spark_rapids_ml.Models.Rows.{Attribute, count, matrix, text, pca, construct}
use spark_rapids_ml.Models.Fitting.{PcaAnswer}
use spark_rapids_ml.Models.TaskLaws.{pca_stage, pca_fit-attributes}
use spark_rapids_ml.Tests.Models.{
  messages, messages-IsFaithful, numbers, forest_params, shares, map-id,
}

-- A batch with one row of each.
abbrev pub batch_of : ℕ → Pdf ℕ
batch_of x = record { columns = (data_alias, x) ∷ (label_alias, x) ∷ []; num_rows = 1 }

-- Two workers on one machine with two GPUs, whose fit function is filled in.
abbrev pub two_workers : {R : Type 0} → Result R → Stage ℕ ℕ ℕ Unit R
two_workers r = record {
  cuml_params = forest_params;
  multi_col_names = none;
  dimension = 1;
  workers = 2;
  is_local = true;
  enable_nccl = true;
  require_ucx = false;
  partially_collect = true;
  context = λ i. record { resources = []; partition_id = i };
  total_gpus = 2;
  parse_address = λ a. ok 0;
  to_array = λ y. ok y;
  enter = λ rank nranks nccl ucx. ok tt;
  leave = λ c. ok tt;
  fit = λ rank gpu inputs params. r;
  repartition = λ n d. replicate n (batch_of 5 ∷ []);
}

abbrev first_label : List (Option ℕ) → Result ℕ
first_label (some y ∷ ys) = ok y
first_label ys = err type_error

abbrev first_array : List ℕ → Result ℕ
first_array (x ∷ xs) = ok x
first_array [] = err type_error

abbrev joins : BatchJoins ℕ ℕ
joins = record {
  concat_frames = λ ds. err type_error;
  concat_labels = first_label;
  free_arrays = first_array;
  free_labels = first_label;
}

-- A tree is the label that it was trained on.
abbrev label_forests : Forests ℕ (JoinedInputs ℕ ℕ)
label_forests = record {
  Forest = List ℕ;
  Tree = ℕ;
  trees = λ f. f;
  train = λ b n params d. ok (replicate n d.1);
  concatenate = λ fs. ok (flatten fs);
  dtype = λ f. "float32";
  n_cols = λ f. 2;
  num_classes = λ f. 3;
}

label_forests-IsLawful : FitLaws.IsLawful label_forests
label_forests-IsLawful = record {
  length-train = λ b n params d f h. rw (← ok-injective h) (length-replicate n d.1);
  concatenate_lem = λ f fs. (flatten (f ∷ fs), refl, rw (map-id fs) refl);
}

abbrev gathered : ℕ → List ℕ → List (List ℕ)
gathered rank m = (7 ∷ 7 ∷ []) ∷ (8 ∷ []) ∷ []

abbrev forest_job : Stage ℕ ℕ ℕ Unit (Option (ForestRow (List ℕ)))
forest_job =
    forest_stage numbers joins label_forests messages (two_workers (ok none)) true 3 (2 ∷ 1 ∷ [])
      gathered

abbrev pub two_batches : List (List (Pdf ℕ))
two_batches = (batch_of 7 ∷ []) ∷ (batch_of 8 ∷ []) ∷ []

pub again : (n : ℕ) (d : List (List (Pdf ℕ))) → length (replicate n (batch_of 5 ∷ [])) ≡ n
again n d = length-replicate n (batch_of 5 ∷ [])

ready_forest : IsReady forest_job
unfolding set_gpu_device initialize_cuml_logging get
ready_forest = record {
  level = some (pos 4);
  logging = refl;
  gpu = λ i. i;
  device = λ i lt. refl;
  comms = λ i. tt;
  entered = λ i lt. refl;
  left = λ i lt. refl;
}

trained_labels :
    (n y : ℕ) (x : Features ℕ ℕ)
    → train_share numbers label_forests messages true 3 forest_params (some n) (ok (x, y))
      ≡ ok (replicate n y)
unfolding train_share rf_params get remove
trained_labels n y x = refl

read_one : (x : ℕ) → List (Input ℕ ℕ)
read_one x = record { features = stacked x; label = some x; row_number = none } ∷ []

reads : (x : ℕ) → read_inputs (λ y. ok y) none (batch_of x ∷ []) ≡ ok (read_one x)
unfolding read_inputs get read_one
reads x = refl

joined : (x : ℕ) → join_inputs joins (read_one x) ≡ ok (stacked x, x)
unfolding join_inputs read_one
joined x = refl

forest_fit-trees_example :
    (row : ForestRow (List ℕ)) × (g : List ℕ) × (bind
        (call_cuml_fit_func forest_job two_batches)
        (first_row forest_job)
      ≡ ok (some row))
    × (construct_rf numbers label_forests messages row.treelite_model ≡ ok g)
    × (g ≡ 7 ∷ 7 ∷ 8 ∷ [])
    × (length g ≡ 3)
forest_fit-trees_example =
    forest_fit-trees numbers joins label_forests messages (two_workers (ok none)) true 3 gathered
      two_batches (batch_of 7 ∷ []) ((batch_of 8 ∷ []) ∷ []) 2 (stacked 7, 7) (7 ∷ 7 ∷ [])
      ((1, (stacked 8, 8), 8 ∷ []) ∷ []) ready_forest label_forests-IsLawful messages-IsFaithful
      again refl refl (omega arith) (omega arith) shares
      (
        (read_one 7, reads 7, joined 7, trained_labels 2 7 (stacked 7)),
        ((read_one 8, reads 8, joined 8, trained_labels 1 8 (stacked 8)), tt),
      )
      refl

-- Each worker has one row.
abbrev pub all_parts : ℕ → List (ℕ × ℕ) → List (List (ℕ × ℕ))
all_parts rank m = messages_from messages 0 ((1 ∷ []) ∷ (1 ∷ []) ∷ [])

abbrev axes : PcaAnswer ℕ
axes = record {
  mean = 1 ∷ 2 ∷ [];
  components = (3 ∷ 4 ∷ []) ∷ [];
  explained_variance_ratio = 5 ∷ [];
  singular_values = 6 ∷ [];
  dtype = "float64";
}

abbrev pca_job : Stage ℕ ℕ ℕ Unit (Dict (Attribute ℕ))
pca_job = pca_stage messages (λ comms params request. ok axes) all_parts (two_workers (ok []))

ready_pca : IsReady pca_job
unfolding set_gpu_device initialize_cuml_logging get
ready_pca = record {
  level = some (pos 4);
  logging = refl;
  gpu = λ i. i;
  device = λ i lt. refl;
  comms = λ i. tt;
  entered = λ i lt. refl;
  left = λ i lt. refl;
}

pub readable :
    (rank : ℕ) (batches : List (Pdf ℕ))
    → get_elem? two_batches rank ≡ some batches
    → (inputs : List (Input ℕ ℕ)) × (read_inputs (λ y. ok y) none batches ≡ ok inputs)
readable zero batches e =
    let same : batch_of 7 ∷ [] ≡ batches = cc in (read_one 7, rw (← same) (reads 7))
readable (suc zero) batches e =
    let same : batch_of 8 ∷ [] ≡ batches = cc in (read_one 8, rw (← same) (reads 8))
readable (suc (suc i)) batches e = cc

pca_fit-attributes_example :
    (inputs : List (Input ℕ ℕ)) × (attributes : Dict (Attribute ℕ)) × (read_inputs
        (λ y. ok y)
        none
        (batch_of 7 ∷ [])
      ≡ ok inputs)
    × (bind (bind (call_cuml_fit_func pca_job two_batches) (first_row pca_job)) (construct pca)
        ≡ ok attributes)
    × ((get attributes "mean_" ≡ some (Rows.numbers (1 ∷ 2 ∷ [])))
        × (get attributes "components_" ≡ some (matrix ((3 ∷ 4 ∷ []) ∷ [])))
        × (get attributes "explained_variance_ratio_" ≡ some (Rows.numbers (5 ∷ [])))
        × (get attributes "singular_values_" ≡ some (Rows.numbers (6 ∷ [])))
        × (get attributes "n_cols" ≡ some (count 1))
        × (get attributes "dtype" ≡ some (text "float64")))
pca_fit-attributes_example =
    pca_fit-attributes messages (λ comms params request. ok axes) all_parts (two_workers (ok []))
      ready_pca two_batches (batch_of 7 ∷ []) ((batch_of 8 ∷ []) ∷ []) (λ rank inputs. axes)
      messages-IsFaithful again refl refl readable (λ rank own e. refl) (λ rank inputs. refl)
