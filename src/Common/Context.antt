-- ===== src/Common/Context.antt =====
-- `CumlContext` of cuml_context.py: the NCCL and UCX communicators of a worker.
use spark_rapids_ml.Base.{
  get_elem?, ℕ, String, Bool, true, false, Option, none, some, List, [], ◌∷◌, str_eq, ◌==◌,
  if◌then◌else◌,
}
use spark_rapids_ml.Py.{
  Result, ok, err, index_error, value_error, assertion_error, attribute_error, bind,
}
use spark_rapids_ml.Py.Dict.{Dict, has, put}
use spark_rapids_ml.Utils.Partitions.{Codec}

-- The NCCL communicator of a worker. It is initialised with the unique id and a rank.
pub data Comm (U : Type 0) : Type 0 where
  no_comm : Comm U
  initialised : U → ℕ → ℕ → Comm U
  destroyed : Comm U

pub data Handle : Type 0 where
  no_handle new_handle : Handle
  -- with the communicators of NCCL alone, or with those of UCX too
  collective : Handle
  point_to_point : List (String × ℕ) → Handle
  deleted : Handle

pub data Loop : Type 0 where
  no_loop running closed : Loop

-- `U` is the type of unique ids. An id is there once the object is made with `enable`.
pub record CumlContext (U : Type 0) : Type 0 where
  pub enable : Bool
  pub rank : ℕ
  pub nranks : ℕ
  pub require_ucx : Bool
  pub handle : Handle
  pub nccl_unique_id : Option U
  pub nccl_comm : Comm U
  pub loop : Loop
  pub ips : List String
  pub ports : List ℕ
  -- os.environ of the process, as the constructor leaves it
  pub environ : Dict String

-- The barrier context of a task, with what NCCL and UCX give it. `M` is the type of messages.
pub record Barrier (M U : Type 0) : Type 0 where
  pub partition_id : ℕ
  pub all_gather : M → List M
  -- the address of each task, without its port
  pub addresses : List String
  -- nccl.get_unique_id, and the port that UCX listens on
  pub unique_id : U
  pub listener_port : ℕ
  pub empty : M
  pub base64 : Codec M U
  pub json : Codec M (M × ℕ)
  -- os.environ before, and psutil.net_if_addrs()
  pub environ : Dict String
  pub interfaces : Dict (List String)

-- `get_ifname_from_ip`: the first interface whose first address is the target.
unfoldable pub get_ifname_from_ip : Dict (List String) → String → Result String
get_ifname_from_ip [] target = err value_error
get_ifname_from_ip ((ifname, []) ∷ interfaces) target = err index_error
get_ifname_from_ip ((ifname, address ∷ rest) ∷ interfaces) target =
    if str_eq address target then ok ifname else get_ifname_from_ip interfaces target

-- UCX_TLS is set unless it is there.
unfoldable pub with_ucx_tls : Dict String → Dict String
with_ucx_tls environ =
    if has environ "UCX_TLS" then environ else put environ "UCX_TLS" "tcp,cuda_copy,cuda_ipc"

-- The interface's name is set if it is found. Only a `ValueError` is caught.
unfoldable pub with_ifname : Dict String → Result String → Result (Dict String)
with_ifname environ (ok ifname) = ok (put environ "UCXPY_IFNAME" ifname)
with_ifname environ (err value_error) = ok environ
with_ifname environ (err e) = err e

unfoldable pub ucx_environment : Dict (List String) → String → Dict String → Result (Dict String)
unfolding with_ucx_tls with_ifname get_ifname_from_ip
ucx_environment interfaces my_ip environ =
    if has (with_ucx_tls environ) "UCXPY_IFNAME"
    then ok (with_ucx_tls environ)
    else with_ifname (with_ucx_tls environ) (get_ifname_from_ip interfaces my_ip)

module _ {M U : Type 0} (B : Barrier M U) where
  -- Worker 0 makes the id; the others send the empty string.
  unfoldable pub nccl_uid : M
  nccl_uid = if B.partition_id == 0 then B.base64.dumps B.unique_id else B.empty

  -- messages[0]
  unfoldable pub first_message : List M → Result M
  first_message [] = err index_error
  first_message (m ∷ messages) = ok m

  -- self._ips[self._rank], which is read for the environment variables
  abbrev pub address_at : Option String → Result String
  address_at none = err index_error
  address_at (some ip) = ok ip

  -- [json.loads(msg)[1] for msg in msgs]
  unfoldable pub load_ports : List M → Result (List ℕ)
  load_ports [] = ok []
  load_ports (m ∷ messages) =
      bind (B.json.loads m) (λ (uid, port). bind (load_ports messages) (λ ports. ok (port ∷ ports)))

  -- `__init__`
  unfoldable pub init : ℕ → ℕ → Bool → Bool → Result (CumlContext U)
  unfolding nccl_uid first_message load_ports
  init rank nranks false require_ucx = ok (record {
    enable = false;
    rank = rank;
    nranks = nranks;
    require_ucx = require_ucx;
    handle = no_handle;
    nccl_unique_id = none;
    nccl_comm = no_comm;
    loop = no_loop;
    ips = [];
    ports = [];
    environ = B.environ;
  })
  init rank nranks true false =
      bind (bind (first_message (B.all_gather nccl_uid)) B.base64.loads) (λ uid. ok (record {
        enable = true;
        rank = rank;
        nranks = nranks;
        require_ucx = false;
        handle = new_handle;
        nccl_unique_id = some uid;
        nccl_comm = no_comm;
        loop = no_loop;
        ips = [];
        ports = [];
        environ = B.environ;
      }))
  init rank nranks true true =
      let messages = B.all_gather (B.json.dumps (nccl_uid, B.listener_port)) in
      bind (address_at (get_elem? B.addresses rank)) (λ my_ip.
        bind (ucx_environment B.interfaces my_ip B.environ) (λ environ.
          bind (bind (first_message messages) B.json.loads) (λ (encoded, port).
            bind (B.base64.loads encoded) (λ uid. bind (load_ports messages) (λ ports. ok (record {
              enable = true;
              rank = rank;
              nranks = nranks;
              require_ucx = true;
              handle = new_handle;
              nccl_unique_id = some uid;
              nccl_comm = no_comm;
              loop = no_loop;
              ips = B.addresses;
              ports = ports;
              environ = environ;
            }))))))

-- zip
unfoldable pub zip_ports : List String → List ℕ → List (String × ℕ)
zip_ports (ip ∷ ips) (port ∷ ports) = (ip, port) ∷ zip_ports ips ports
zip_ports _ _ = []

abbrev stopped : Loop → Loop
stopped no_loop = no_loop
stopped _ = closed

module _ {U : Type 0} where
  abbrev entered : CumlContext U → Bool → U → CumlContext U
  entered c false uid = record c {
    nccl_comm = initialised uid c.rank c.nranks;
    handle = collective;
  }
  entered c true uid = record c {
    nccl_comm = initialised uid c.rank c.nranks;
    handle = point_to_point (zip_ports c.ips c.ports);
    loop = running;
  }

  abbrev with_id : CumlContext U → Option U → Result (CumlContext U)
  with_id c none = err attribute_error
  with_id c (some uid) = ok (entered c c.require_ucx uid)

  -- `__enter__`
  unfoldable pub enter : CumlContext U → Result (CumlContext U)
  unfolding zip_ports
  enter c = if c.enable then with_id c c.nccl_unique_id else ok c

  abbrev destroy : CumlContext U → Comm U → Result (CumlContext U)
  destroy c (initialised uid rank nranks) =
      ok (record c { nccl_comm = destroyed; handle = deleted; loop = stopped c.loop })
  destroy c _ = err assertion_error

  -- `__exit__`
  unfoldable pub exit : CumlContext U → Result (CumlContext U)
  exit c = if c.enable then destroy c c.nccl_comm else ok c
