-- ===== src/Tests/Contexts.antt =====
-- The contexts of two workers that exchange their ids and ports.
use spark_rapids_ml.Base.{ℕ, zero, suc, ◌<◌, ◌≡◌, refl, arith, true, false, none, some, [], ◌∷◌}
use spark_rapids_ml.Py.{ok, err, other_error}
use spark_rapids_ml.Py.Dict.{get}
use spark_rapids_ml.Py.Value.{pos}
use spark_rapids_ml.Utils.Devices.{set_gpu_device, initialize_cuml_logging}
use spark_rapids_ml.Common.Context.{Barrier, CumlContext, nccl_uid}
use spark_rapids_ml.Common.Stage.{
  IsCollective, IsWorker, context_stage, EndsUp, nearest_neighbors, context_stage-EndsUp,
}
use spark_rapids_ml.Core.Train.{Stage}
use spark_rapids_ml.Core.StageRuns.{IsReady}
use spark_rapids_ml.Tests.Stages.{
  Text, id_text, pair_text, blank, base64, json, base64-IsFaithful, json-IsFaithful, interfaces,
}

-- Worker 0 has the id 3, and all listen on the port 80.
abbrev workers : ℕ → Barrier Text ℕ
workers i = record {
  partition_id = i;
  all_gather = λ m. pair_text (id_text 3) 80 ∷ pair_text blank 80 ∷ [];
  addresses = "a" ∷ "b" ∷ [];
  unique_id = 3;
  listener_port = 80;
  empty = blank;
  base64 = base64;
  json = json;
  environ = [];
  interfaces = interfaces;
}

abbrev plain : Stage ℕ ℕ ℕ (CumlContext ℕ) ℕ
plain = record {
  cuml_params = [];
  multi_col_names = none;
  dimension = 1;
  workers = 2;
  is_local = true;
  enable_nccl = true;
  require_ucx = true;
  partially_collect = false;
  context = λ i. record { resources = []; partition_id = i };
  total_gpus = 2;
  parse_address = λ a. ok 0;
  to_array = λ y. ok y;
  enter = λ rank nranks nccl ucx. err other_error;
  leave = λ c. ok tt;
  fit = λ rank gpu inputs params. ok 0;
  repartition = λ n d. d;
}

collective : IsCollective workers 2 true
unfolding nccl_uid
collective i lt = refl

is_worker : (i : ℕ) → i < 2 → IsWorker workers i
unfolding nccl_uid
is_worker zero lt = record {
  id-dumps = refl;
  base64 = base64-IsFaithful;
  json = json-IsFaithful;
  address = "a";
  addressed = refl;
  interfaces = (omega arith, (omega arith, tt));
}
is_worker (suc zero) lt = record {
  id-dumps = refl;
  base64 = base64-IsFaithful;
  json = json-IsFaithful;
  address = "b";
  addressed = refl;
  interfaces = (omega arith, (omega arith, tt));
}
is_worker (suc (suc i)) lt = absurd (omega arith)

abbrev same_device : ℕ → ℕ
same_device i = i

context_stage-EndsUp_example :
    (ready : IsReady (context_stage workers plain nearest_neighbors)) × (ready.gpu ≡ same_device)
    × EndsUp workers plain 2 true true 1 (ready.comms 1)
unfolding set_gpu_device initialize_cuml_logging get
context_stage-EndsUp_example =
    context_stage-EndsUp workers plain nearest_neighbors (some (pos 4)) same_device 1 refl
      (λ j lt. refl) (collective, is_worker) (omega arith)
