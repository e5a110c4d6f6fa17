-- ===== src/Tests/Clusters.antt =====
-- A KMeans of two workers, from the partitions to the model.
use spark_rapids_ml.Base.{
  ℕ, zero, suc, ◌≡◌, refl, String, none, some, true, false, List, [], ◌∷◌, replicate, get_elem?,
  map, flatten,
}
use spark_rapids_ml.Py.{Result, ok, err, value_error, ok-injective}
use spark_rapids_ml.Py.Dict.{Dict, get}
use spark_rapids_ml.Py.Value.{Value, pos}
use spark_rapids_ml.Utils.Devices.{set_gpu_device, initialize_cuml_logging}
use spark_rapids_ml.Core.Inputs.{Pdf, stacked, Input, read_inputs}
use spark_rapids_ml.Core.Train.{Stage}
use spark_rapids_ml.Core.StageRuns.{IsReady}
use spark_rapids_ml.Models.Rows.{Attribute, kmeans_fitted}
use spark_rapids_ml.Models.Jobs.{IsReadable, ModelHolds}
use spark_rapids_ml.Models.Fitting.{Concated, concated_array, concated_frame}
use spark_rapids_ml.Models.KmeansLaws.{stacked_in, kmeans_stage, AreBlocks, kmeans_fit-attributes}
use spark_rapids_ml.Tests.Arrays.{Block, blocks, blocks-IsFaithful}
use spark_rapids_ml.Tests.Jobs.{batch_of, two_batches, again}

-- A cell as an array with one row and three columns.
abbrev block_of : ℕ → Block
block_of y = (1 ∷ 3 ∷ [], y ∷ [])

abbrev cluster_workers : Stage ℕ Block ℕ Unit (Dict (Attribute ℕ))
cluster_workers = record {
  cuml_params = [];
  multi_col_names = none;
  dimension = 3;
  workers = 2;
  is_local = true;
  enable_nccl = true;
  require_ucx = false;
  partially_collect = true;
  context = λ i. record { resources = []; partition_id = i };
  total_gpus = 2;
  parse_address = λ a. ok 0;
  to_array = λ y. ok (block_of y);
  enter = λ rank nranks nccl ucx. ok tt;
  leave = λ c. ok tt;
  fit = λ rank gpu inputs params. ok [];
  repartition = λ n d. replicate n (batch_of 5 ∷ []);
}

-- cuML's only center is the rows that it is given.
abbrev cluster :
    Unit {0} → Dict (Value ℕ) → Concated (Dict ℕ) Block → Result (List (List ℕ) × String)
cluster comms params (concated_frame d) = err value_error
cluster comms params (concated_array a) = ok (a.1 ∷ [], "float32")

abbrev cluster_job : Stage ℕ Block ℕ Unit (Dict (Attribute ℕ))
cluster_job = kmeans_stage blocks (λ ds. err value_error) cluster cluster_workers

ready_clusters : IsReady cluster_job
unfolding set_gpu_device initialize_cuml_logging get
ready_clusters = record {
  level = some (pos 4);
  logging = refl;
  gpu = λ i. i;
  device = λ i lt. refl;
  comms = λ i. tt;
  entered = λ i lt. refl;
  left = λ i lt. refl;
}

read_block : ℕ → List (Input Block ℕ)
read_block x = record { features = stacked (block_of x); label = some x; row_number = none } ∷ []

reads : (x : ℕ) → read_inputs (λ y. ok (block_of y)) none (batch_of x ∷ []) ≡ ok (read_block x)
unfolding read_inputs get read_block
reads x = refl

IsReadable-two_batches : IsReadable cluster_workers two_batches
IsReadable-two_batches zero part e =
    let same : batch_of 7 ∷ [] ≡ part = cc in (read_block 7, rw (← same) (reads 7))
IsReadable-two_batches (suc zero) part e =
    let same : batch_of 8 ∷ [] ≡ part = cc in (read_block 8, rw (← same) (reads 8))
IsReadable-two_batches (suc (suc i)) part e = cc

read_block-AreBlocks :
    (x : ℕ) (inputs : List (Input Block ℕ))
    → read_inputs (λ y. ok (block_of y)) none (batch_of x ∷ []) ≡ ok inputs
    → AreBlocks blocks (λ ds. err value_error) cluster cluster_workers inputs
unfolding read_inputs get
read_block-AreBlocks x inputs read =
    rw (← ok-injective read) (block_of x, [], refl, ((1, refl), tt))

are_blocks :
    (rank : ℕ) (part : List (Pdf ℕ)) (inputs : List (Input Block ℕ))
    → get_elem? two_batches rank ≡ some part
    → read_inputs (λ y. ok (block_of y)) none part ≡ ok inputs
    → AreBlocks blocks (λ ds. err value_error) cluster cluster_workers inputs
are_blocks zero part inputs e read =
    let same : batch_of 7 ∷ [] ≡ part = cc in read_block-AreBlocks 7 inputs (rw same read)
are_blocks (suc zero) part inputs e read =
    let same : batch_of 8 ∷ [] ≡ part = cc in read_block-AreBlocks 8 inputs (rw same read)
are_blocks (suc (suc i)) part inputs e read = cc

kmeans_fit-attributes_example :
    ModelHolds cluster_job two_batches
      (batch_of 7 ∷ [])
      (λ inputs. kmeans_fitted (flatten (map blocks.rows (stacked_in inputs)) ∷ []) 3 "float32")
kmeans_fit-attributes_example =
    kmeans_fit-attributes blocks (λ ds. err value_error) cluster cluster_workers ready_clusters
      two_batches (batch_of 7 ∷ []) ((batch_of 8 ∷ []) ∷ []) (λ rank rows. (rows ∷ [], "float32"))
      blocks-IsFaithful again refl refl refl IsReadable-two_batches are_blocks (λ rank joined. refl)
