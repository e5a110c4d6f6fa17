-- ===== src/Common/Stage.antt =====
-- A stage whose tasks enter a `CumlContext` each: `with CumlContext(...) as cc` in
-- `_CumlCaller._call_cuml_fit_func` of core.py.
use spark_rapids_ml.Base.{
  ℕ, zero, suc, ◌<◌, ◌≡◌, refl, String, Bool, true, false, Option, none, some, List, [], ◌∷◌, arith,
  get_elem?,
}
use spark_rapids_ml.Py.{Result, ok, err, bind}
use spark_rapids_ml.Py.Dict.{get}
use spark_rapids_ml.Py.Value.{ℤ}
use spark_rapids_ml.Utils.Partitions.{IsFaithful}
use spark_rapids_ml.Utils.Devices.{set_gpu_device, initialize_cuml_logging}
use spark_rapids_ml.Common.Context.{
  Barrier, CumlContext, no_handle, no_comm, no_loop, nccl_uid, init, enter, exit,
}
use spark_rapids_ml.Common.ContextLaws.{
  Opened, HasAddresses, message, messages, endpoints, enter-Opened,
}
use spark_rapids_ml.Core.Train.{Stage, verbose_of}
use spark_rapids_ml.Core.StageRuns.{IsReady}

-- The classes that define `_require_nccl_ucx`: _CumlCaller, for all that do not override it,
-- _RandomForestEstimator and NearestNeighborsModel.
pub data Caller : Type 0 where
  cuml_caller random_forest nearest_neighbors : Caller

-- (enable_nccl, require_ucx)
abbrev pub require_nccl_ucx : Caller → Bool × Bool
require_nccl_ucx cuml_caller = (true, false)
require_nccl_ucx random_forest = (false, false)
require_nccl_ucx nearest_neighbors = (true, true)

module _ {M U : Type 0} (barrier : ℕ → Barrier M U) where
  unfoldable pub enter_context : ℕ → ℕ → Bool → Bool → Result (CumlContext U)
  enter_context rank nranks enable require_ucx =
      bind (init (barrier rank) rank nranks enable require_ucx) enter

  unfoldable pub leave_context : CumlContext U → Result (Unit {0})
  leave_context cc = bind (exit cc) (λ _. ok tt)

  -- What the workers from rank `i` on send, and there are `n` of them: their part of the unique id
  -- and their port.
  abbrev pub sent_from : ℕ → ℕ → List (M × ℕ)
  sent_from i zero = []
  sent_from i (suc n) = (nccl_uid (barrier i), (barrier i).listener_port) ∷ sent_from (suc i) n

  -- `allGather` of the barrier stage: every worker receives what all have sent, by their ranks.
  abbrev pub IsCollective : ℕ → Bool → Type 0
  IsCollective n require_ucx =
      (i : ℕ)
      → i < n
      → (barrier i).all_gather
          (message (barrier i) require_ucx (nccl_uid (barrier i), (barrier i).listener_port))
        ≡ messages (barrier i) require_ucx (sent_from 0 n)

  -- A worker of the stage: its own rank, a codec that it shares with worker 0 and that is faithful,
  -- an address, and network interfaces with addresses.
  pub record IsWorker (i : ℕ) : Type 0 where
    pub id-dumps : nccl_uid (barrier 0) ≡ (barrier i).base64.dumps (barrier 0).unique_id
    pub base64 : IsFaithful (barrier i).base64
    pub json : IsFaithful (barrier i).json
    pub address : String
    pub addressed : get_elem? (barrier i).addresses i ≡ some address
    pub interfaces : HasAddresses (barrier i).interfaces

  -- The context of a task that enters it, and one that is not enabled for all others.
  abbrev context_or : ℕ → Result (CumlContext U) → CumlContext U
  context_or i (ok c) = c
  context_or i (err e) = record {
    enable = false;
    rank = i;
    nranks = 0;
    require_ucx = false;
    handle = no_handle;
    nccl_unique_id = none;
    nccl_comm = no_comm;
    loop = no_loop;
    ips = [];
    ports = [];
    environ = [];
  }

  -- The context of the task of a rank.
  abbrev pub context_of : ℕ → Bool → Bool → ℕ → CumlContext U
  context_of n enable require_ucx i = context_or i (enter_context i n enable require_ucx)

  module _ {F X Y R : Type 0} (S : Stage F X Y (CumlContext U) R) where
    abbrev pub context_stage : Caller → Stage F X Y (CumlContext U) R
    context_stage caller = record S {
      enable_nccl = (require_nccl_ucx caller).0;
      require_ucx = (require_nccl_ucx caller).1;
      enter = enter_context;
      leave = leave_context;
    }

    enter_context-Opened :
        (n i : ℕ) (require_ucx : Bool)
        → IsCollective n require_ucx
        → i < n
        → IsWorker i
        → (c : CumlContext U) × (enter_context i n true require_ucx ≡ ok c)
          × (leave_context c ≡ ok tt)
          × Opened
              (barrier i)
              i
              n
              (barrier 0).unique_id
              (endpoints (barrier i) require_ucx (sent_from 0 n))
              c
    unfolding enter_context leave_context
    enter_context-Opened zero i require_ucx gathers lt worker = absurd (omega arith)
    enter_context-Opened (suc n) i require_ucx gathers lt worker =
        let (c, e, o, _, c', left, _) =
          enter-Opened (barrier i) i (suc n) (barrier 0).listener_port require_ucx
            (barrier 0).unique_id worker.address (sent_from 1 n) worker.base64 worker.json
            (rw worker.id-dumps at gathers i lt) worker.addressed worker.interfaces in
        (c, e, rw left refl, rw worker.id-dumps o)

    -- What the tasks need of the network: nothing, if no communicator is enabled.
    abbrev pub Connects : ℕ → Bool → Bool → Type 0
    Connects n true require_ucx = IsCollective n require_ucx × ((i : ℕ) → i < n → IsWorker i)
    Connects n false require_ucx = Unit

    -- The context of the task of a rank, once it is entered.
    abbrev pub EndsUp : ℕ → Bool → Bool → ℕ → CumlContext U → Type 0
    EndsUp n true require_ucx i c =
        Opened (barrier i) i n (barrier 0).unique_id
          (endpoints (barrier i) require_ucx (sent_from 0 n)) c
    EndsUp n false require_ucx i c = (c.nccl_comm ≡ no_comm) × (c.handle ≡ no_handle)

    enter_context-EndsUp :
        (n i : ℕ) (enable require_ucx : Bool)
        → Connects n enable require_ucx
        → i < n
        → (c : CumlContext U) × (enter_context i n enable require_ucx ≡ ok c)
          × (leave_context c ≡ ok tt)
          × EndsUp n enable require_ucx i c
    unfolding enter_context leave_context init enter exit
    enter_context-EndsUp n i true require_ucx (gathers, workers) lt =
        enter_context-Opened n i require_ucx gathers lt (workers i lt)
    enter_context-EndsUp n i false require_ucx h lt =
        (context_of n false require_ucx i, refl, refl, (refl, refl))

    -- The tasks of a stage come as far as the fit function, each in its own context, and leave it
    -- again. If the class requires NCCL, all of them join the communicator of worker 0's unique
    -- id, each under its own rank and with the number of workers, and if it does not, as the random
    -- forests, none has a communicator or a handle. Assumed: the verbosity is known and each task
    -- finds its device; and, if NCCL is required, every worker receives what all have sent in the order of their ranks, with codecs
    -- that are read back as they were written, an address, and network interfaces with addresses.
    pub context_stage-EndsUp :
        (caller : Caller) (level : Option ℤ) (gpu : ℕ → ℕ) (i : ℕ)
        → initialize_cuml_logging (verbose_of (get S.cuml_params "verbose")) ≡ ok level
        → ((j : ℕ)
            → j < S.workers
            → set_gpu_device S.parse_address S.total_gpus (some (S.context j)) S.is_local false
              ≡ ok (gpu j))
        → Connects S.workers (require_nccl_ucx caller).0 (require_nccl_ucx caller).1
        → i < S.workers
        → (ready : IsReady (context_stage caller)) × (ready.gpu ≡ gpu)
          × EndsUp S.workers
              (require_nccl_ucx caller).0
              (require_nccl_ucx caller).1
              i
              (ready.comms i)
    context_stage-EndsUp caller level gpu i logging device connects lt = (
      record {
        level = level;
        logging = logging;
        gpu = gpu;
        device = device;
        comms = context_of S.workers (require_nccl_ucx caller).0 (require_nccl_ucx caller).1;
        entered = λ j h.
            let (c, e, l, o) =
              enter_context-EndsUp S.workers j (require_nccl_ucx caller).0
                (require_nccl_ucx caller).1 connects h in
            rw e refl;
        left = λ j h.
            let (c, e, l, o) =
              enter_context-EndsUp S.workers j (require_nccl_ucx caller).0
                (require_nccl_ucx caller).1 connects h in
            rw e l;
      },
      refl,
      let (c, e, l, o) =
            enter_context-EndsUp S.workers i (require_nccl_ucx caller).0 (require_nccl_ucx caller).1
              connects lt in
          rw e o,
    )
