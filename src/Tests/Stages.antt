-- ===== src/Tests/Stages.antt =====
-- Files, fits and communicators, with concrete counterparts of what the code calls.
use spark_rapids_ml.Base.{
  arith, ℕ, ◌≡◌, refl, String, Bool, true, false, none, some, List, [], ◌∷◌, ◌<>◌, length,
  replicate,
}
use spark_rapids_ml.Py.{Result, ok, err, value_error, bind}
use spark_rapids_ml.Py.Dict.{Dict, get, put}
use spark_rapids_ml.Py.Value.{pos, none_value, float, int}
use spark_rapids_ml.Params.Values.{Instance}
use spark_rapids_ml.Params.Lifecycle.{copy_cuml_params, copy_known}
use spark_rapids_ml.Utils.Partitions.{Codec, IsFaithful}
use spark_rapids_ml.Utils.Devices.{set_gpu_device, initialize_cuml_logging}
use spark_rapids_ml.Core.Persist.{
  ParamsIo, IsRestored, Files, Model, save_model, load_model, Restores, load-save_model,
}
use spark_rapids_ml.Models.Rows.{
  Attribute, count, number, numbers, text, linear_regression, linear_fitted, fit_row, construct,
}
use spark_rapids_ml.Core.Columns.{data_alias}
use spark_rapids_ml.Core.Inputs.{Pdf, read_inputs}
use spark_rapids_ml.Core.Train.{Stage, task_result, run_tasks, call_cuml_fit_func, fit_estimator}
use spark_rapids_ml.Common.Context.{
  Barrier, CumlContext, nccl_uid, init, enter, exit, get_ifname_from_ip,
}
use spark_rapids_ml.Common.ContextLaws.{Opened, Closed, endpoints, has_transports, enter-Opened}
use spark_rapids_ml.Tests.Table.{Table, table_params}
use spark_rapids_ml.Core.FitReturns.{fit_estimator-returns}
use spark_rapids_ml.Tests.Models.{messages, messages-IsFaithful}

abbrev table : Table
table = record { declared = ("k", some (int (pos 2))) ∷ []; values = [] }

abbrev saved : Instance table_params
saved = record {
  spark = record { declared = ("k", some (int (pos 2))) ∷ []; values = ("k", int (pos 4)) ∷ [] };
  cuml = ("n_clusters", int (pos 4)) ∷ [];
  num_workers = int (pos 2);
}

abbrev fresh : Instance table_params
fresh = record {
  spark = table;
  cuml = ("n_clusters", int (pos 2)) ∷ ("tol", float 1) ∷ [];
  num_workers = none_value;
}

abbrev table_io : ParamsIo table_params
table_io = record { Saved = Table; save_params = λ s. s; get_and_set_params = λ s m. ok m }

table-IsRestored : IsRestored table_io
table-IsRestored = record { get-restored = λ s f h. (s, refl, λ k. refl) }

abbrev no_files : Files table_io (Dict (Attribute ℕ))
no_files = record { metadata = []; texts = [] }

abbrev coefficients : Dict (Attribute ℕ)
coefficients =
    ("coef_", numbers (3 ∷ 4 ∷ []))
    ∷ ("intercept_", number 5)
    ∷ ("dtype", text "float32")
    ∷ ("n_cols", count 2)
    ∷ []

abbrev line : Model table_params
line = record { own = saved; model_attributes = coefficients }

line_made :
    construct linear_regression (fit_row (linear_fitted (3 ∷ 4 ∷ []) 5 2 "float32"))
    ≡ ok coefficients
unfolding construct fit_row get put
line_made = refl

load-save_model_example :
    (model : Model table_params) × (load_model table_io messages
        (λ a b. a <> b)
        "a"
        linear_regression
        (λ attributes. ok fresh)
        (save_model table_io messages (λ a b. a <> b) "a" line no_files)
      ≡ ok model)
    × (model.model_attributes ≡ coefficients)
    × Restores table_io saved model.own
load-save_model_example =
    load-save_model table_io messages (λ a b. a <> b) "a" (linear_fitted (3 ∷ 4 ∷ []) 5 2 "float32")
      line fresh (λ attributes. ok fresh) no_files table-IsRestored messages-IsFaithful line_made
      refl (λ k. refl)

abbrev batch : ℕ → Pdf ℕ
batch x = record { columns = (data_alias, x) ∷ []; num_rows = 1 }

-- A task counts its batches.
abbrev stage : Bool → Stage ℕ ℕ ℕ Unit ℕ
stage partially_collect = record {
  cuml_params = saved.cuml;
  multi_col_names = none;
  dimension = 1;
  workers = 2;
  is_local = true;
  enable_nccl = true;
  require_ucx = false;
  partially_collect = partially_collect;
  context = λ i. record { resources = []; partition_id = i };
  total_gpus = 2;
  parse_address = λ a. ok 0;
  to_array = λ y. ok y;
  enter = λ rank nranks nccl ucx. ok tt;
  leave = λ c. ok tt;
  fit = λ rank gpu inputs params. ok (length inputs);
  repartition = λ n d. replicate n (batch 5 ∷ []);
}

abbrev two_partitions : List (List (Pdf ℕ))
two_partitions = (batch 4 ∷ batch 4 ∷ []) ∷ (batch 6 ∷ []) ∷ []

stage_run : call_cuml_fit_func (stage false) two_partitions ≡ ok (2 ∷ 1 ∷ [])
unfolding call_cuml_fit_func run_tasks task_result initialize_cuml_logging set_gpu_device get
    read_inputs
stage_run = refl

fit_task : (i : ℕ) → task_result (stage true) i (batch 4 ∷ batch 4 ∷ []) ≡ ok 2
unfolding task_result initialize_cuml_logging set_gpu_device get read_inputs
fit_task i = refl

fit_later_task : (i : ℕ) → task_result (stage true) i (batch 6 ∷ []) ≡ ok 1
unfolding task_result initialize_cuml_logging set_gpu_device get read_inputs
fit_later_task i = refl

fit_estimator-returns_example :
    (model : Instance table_params) × (fit_estimator
        (stage true)
        {P = table_params}
        {Q = table_params}
        (λ s t. t)
        (λ r. ok fresh)
        saved
        two_partitions
      ≡ ok model)
    × (model.num_workers ≡ saved.num_workers)
    × (model.spark ≡ fresh.spark)
    × (get model.cuml "n_clusters" ≡ some (int (pos 4)))
unfolding get
fit_estimator-returns_example =
    fit_estimator-returns (stage true) {P = table_params} {Q = table_params} (λ s t. t)
      (λ r. ok fresh) saved two_partitions 2 (1 ∷ []) fresh "n_clusters" refl
      (fit_task 0, (fit_later_task 1, tt)) refl (refl, tt)

abbrev fitted : Instance table_params
fitted = record {
  spark = table;
  cuml = ("n_clusters", int (pos 4)) ∷ ("tol", float 1) ∷ [];
  num_workers = int (pos 2);
}

fit_run :
    fit_estimator
      (stage true)
      {P = table_params}
      {Q = table_params}
      (λ s t. t)
      (λ r. ok fresh)
      saved
      two_partitions
    ≡ ok fitted
unfolding fit_estimator call_cuml_fit_func run_tasks task_result initialize_cuml_logging
    set_gpu_device copy_cuml_params copy_known get put read_inputs
fit_run = refl

-- Texts that are built up as the program builds them.
pub data Text : Type 0 where
  blank : Text
  id_text : ℕ → Text
  pair_text : Text → ℕ → Text

abbrev read_id : Text → Result ℕ
read_id (id_text n) = ok n
read_id _ = err value_error

abbrev read_pair : Text → Result (Text × ℕ)
read_pair (pair_text m n) = ok (m, n)
read_pair _ = err value_error

abbrev pub base64 : Codec Text ℕ
base64 = record { dumps = id_text; loads = read_id }

abbrev pub json : Codec Text (Text × ℕ)
json = record { dumps = λ (m, n). pair_text m n; loads = read_pair }

pub base64-IsFaithful : IsFaithful base64
base64-IsFaithful = record { loads-dumps = λ u. refl }

pub json-IsFaithful : IsFaithful json
json-IsFaithful = record { loads-dumps = λ m. refl }

abbrev pub interfaces : Dict (List String)
interfaces = ("lo", "127.0.0.1" ∷ []) ∷ ("eth0", "10.0.0.2" ∷ []) ∷ []

-- The second of two workers. The first one's id is 3.
abbrev barrier : Barrier Text ℕ
barrier = record {
  partition_id = 1;
  all_gather = λ m. pair_text (id_text 3) 80 ∷ m ∷ [];
  addresses = "a" ∷ "b" ∷ [];
  unique_id = 4;
  listener_port = 81;
  empty = blank;
  base64 = base64;
  json = json;
  environ = [];
  interfaces = interfaces;
}

abbrev endpoint_ports : List (Text × ℕ)
endpoint_ports = (id_text 3, 80) ∷ (blank, 81) ∷ []

enter-Opened_example :
    (c : CumlContext ℕ) × (bind (init barrier 1 2 true true) enter ≡ ok c)
    × Opened barrier 1 2 3 (endpoints barrier true endpoint_ports) c
    × (has_transports barrier true c.environ ≡ true)
    × (c' : CumlContext ℕ) × (exit c ≡ ok c')
    × Closed barrier true c'
unfolding nccl_uid
enter-Opened_example =
    enter-Opened barrier 1 2 80 true 3 "b" ((blank, 81) ∷ []) base64-IsFaithful json-IsFaithful refl
      refl (omega arith, (omega arith, tt))

ifname_run : get_ifname_from_ip interfaces "10.0.0.2" ≡ ok "eth0"
unfolding get_ifname_from_ip
ifname_run = refl
