-- ===== src/Common/ContextLaws.antt =====
-- The workers' communicators agree, and are given back.
use spark_rapids_ml.Base.{
  ◌<◌, ◌⊎◌, length, Option, ◌≢◌, ◌++◌, All, Bool-cases, inl, inr, str_eq, eq_iff, arith, none,
  String, ℕ, ◌≡◌, refl, Bool, true, false, some, List, [], ◌∷◌, if◌then◌else◌, map, get_elem?,
}
use spark_rapids_ml.Py.{ok, err, value_error, bind}
use spark_rapids_ml.Py.{ok-injective}
use spark_rapids_ml.Py.Dict.{Dict, has, put, get-put}
use spark_rapids_ml.Utils.Partitions.{IsFaithful}
use spark_rapids_ml.Common.Context.{
  initialised, destroyed, Handle, collective, point_to_point, deleted, no_loop, running, closed,
  CumlContext, Barrier, nccl_uid, load_ports, init, zip_ports, enter, exit, get_ifname_from_ip,
  with_ucx_tls, with_ifname, ucx_environment,
}

-- Every interface has an address.
abbrev pub HasAddresses : Dict (List String) → Type 0
HasAddresses interfaces = All (λ (name, addresses). 0 < length addresses) interfaces

found_or_not :
    (interfaces : Dict (List String)) (ip : String)
    → HasAddresses interfaces
    → ((name : String) × (get_ifname_from_ip interfaces ip ≡ ok name))
      ⊎ (get_ifname_from_ip interfaces ip ≡ err value_error)
unfolding get_ifname_from_ip
found_or_not [] ip h = inr refl
found_or_not ((name, []) ∷ interfaces) ip (h, hs) = elim h [ ]
found_or_not ((name, a ∷ rest) ∷ interfaces) ip (h, hs) = elim (Bool-cases (str_eq a ip)) [
  | inl b ↦ inl (name, rw b refl)
  | inr b ↦ rw b (found_or_not interfaces ip hs)
]

has-with_ucx_tls : (environ : Dict String) → has (with_ucx_tls environ) "UCX_TLS" ≡ true
unfolding with_ucx_tls
has-with_ucx_tls environ = elim (Bool-cases (has environ "UCX_TLS")) [
  | inl b ↦ rw b b
  | inr b ↦ rw (b, has, get-put environ "UCX_TLS" "UCX_TLS" "tcp,cuda_copy,cuda_ipc") refl
]

has-put_ifname :
    (environ : Dict String) (name : String)
    → has environ "UCX_TLS" ≡ true
    → has (put environ "UCXPY_IFNAME" name) "UCX_TLS" ≡ true
has-put_ifname environ name h = rw (has, get-put environ "UCXPY_IFNAME" "UCX_TLS" name) h

ucx_environment-ok :
    (interfaces : Dict (List String)) (ip : String) (environ : Dict String)
    → HasAddresses interfaces
    → (after : Dict String) × (ucx_environment interfaces ip environ ≡ ok after)
      × (has after "UCX_TLS" ≡ true)
unfolding ucx_environment with_ifname
ucx_environment-ok interfaces ip environ h =
    elim (Bool-cases (has (with_ucx_tls environ) "UCXPY_IFNAME")) [
      | inl b ↦ (with_ucx_tls environ, rw b refl, has-with_ucx_tls environ)
      | inr b ↦ elim (found_or_not interfaces ip h) [
        | inl (name, e) ↦ (
          put (with_ucx_tls environ) "UCXPY_IFNAME" name,
          rw (b, e) refl,
          has-put_ifname (with_ucx_tls environ) name (has-with_ucx_tls environ),
        )
        | inr e ↦ (with_ucx_tls environ, rw (b, e) refl, has-with_ucx_tls environ)
      ]
    ]

module _ {M U : Type 0} (B : Barrier M U) where
  -- What a worker sends, by whether UCX is required.
  abbrev pub message : Bool → M × ℕ → M
  message true m = B.json.dumps m
  message false (uid, port) = uid

  abbrev pub messages : Bool → List (M × ℕ) → List M
  messages require_ucx ms = map (message require_ucx) ms

  abbrev pub ports_of : List (M × ℕ) → List ℕ
  ports_of ms = map (λ (uid, port). port) ms

  abbrev pub endpoints : Bool → List (M × ℕ) → Handle
  endpoints true ms = point_to_point (zip_ports B.addresses (ports_of ms))
  endpoints false ms = collective

  load_ports-messages :
      (ms : List (M × ℕ)) → IsFaithful B.json → load_ports B (messages true ms) ≡ ok (ports_of ms)
  unfolding load_ports
  load_ports-messages [] read = refl
  load_ports-messages (m ∷ ms) read = rw (read.loads-dumps m, load_ports-messages ms read)

  abbrev opened : ℕ → ℕ → Bool → U → List (M × ℕ) → Dict String → CumlContext U
  opened rank nranks require_ucx uid ms environ = record {
    enable = true;
    rank = rank;
    nranks = nranks;
    require_ucx = require_ucx;
    handle = endpoints require_ucx ms;
    nccl_unique_id = some uid;
    nccl_comm = initialised uid rank nranks;
    loop = if require_ucx then running else no_loop;
    ips = if require_ucx then B.addresses else [];
    ports = if require_ucx then ports_of ms else [];
    environ = environ;
  }

  abbrev left : CumlContext U → Bool → CumlContext U
  left c require_ucx = record c {
    nccl_comm = destroyed;
    handle = deleted;
    loop = if require_ucx then closed else no_loop;
  }

  -- A context that was entered, and given back.
  abbrev pub Opened : ℕ → ℕ → U → Handle → CumlContext U → Type 0
  Opened rank nranks uid handle c =
      (c.nccl_comm ≡ initialised uid rank nranks) × (c.handle ≡ handle)

  abbrev pub Closed : Bool → CumlContext U → Type 0
  Closed require_ucx c =
      (c.nccl_comm ≡ destroyed)
      × (c.handle ≡ deleted)
      × (c.loop ≡ (if require_ucx then closed else no_loop))

  -- UCX's transports are set where it is required.
  abbrev pub has_transports : Bool → Dict String → Bool
  has_transports true environ = has environ "UCX_TLS"
  has_transports false environ = true

  -- Whatever worker 0's unique id is, every worker whose context is enabled, and who receives the
  -- messages with worker 0's in front, joins the communicator of that id under its own rank, and its
  -- handle is for NCCL alone, or has an endpoint for each pair of an address and a port, and then
  -- UCX_TLS is in the environment. When the context is left, the communicator is destroyed, the handle
  -- deleted and the event loop closed if there is one. Assumed: each worker's address is known, and
  -- every network interface has an address.
  pub enter-Opened :
      (rank nranks port : ℕ) (require_ucx : Bool) (uid : U) (ip : String) (ms : List (M × ℕ))
      → IsFaithful B.base64
      → IsFaithful B.json
      → B.all_gather (message require_ucx (nccl_uid B, B.listener_port))
        ≡ messages require_ucx ((B.base64.dumps uid, port) ∷ ms)
      → get_elem? B.addresses rank ≡ some ip
      → HasAddresses B.interfaces
      → (c : CumlContext U) × (bind (init B rank nranks true require_ucx) enter ≡ ok c)
        × Opened rank nranks uid (endpoints require_ucx ((B.base64.dumps uid, port) ∷ ms)) c
        × (has_transports require_ucx c.environ ≡ true)
        × (c' : CumlContext U) × (exit c ≡ ok c')
        × Closed require_ucx c'
  unfolding init enter exit
  enter-Opened rank nranks port false uid ip ms E read h a wide = (
    opened rank nranks false uid ((B.base64.dumps uid, port) ∷ ms) B.environ,
    rw (h, E.loads-dumps uid),
    (refl, refl),
    refl,
    left (opened rank nranks false uid ((B.base64.dumps uid, port) ∷ ms) B.environ) false,
    refl,
    (refl, refl, refl),
  )
  enter-Opened rank nranks port true uid ip ms E read h a wide =
      let (after, set, transports) = ucx_environment-ok B.interfaces ip B.environ wide in
      let c = opened rank nranks true uid ((B.base64.dumps uid, port) ∷ ms) after in
      (
        c,
        rw (
          a,
          set,
          h,
          read.loads-dumps (B.base64.dumps uid, port),
          E.loads-dumps uid,
          load_ports-messages ms read,
        ),
        (refl, refl),
        transports,
        left c true,
        refl,
        (refl, refl, refl),
      )

abbrev pub first_address_of : List String → Option String
first_address_of [] = none
first_address_of (a ∷ rest) = some a

abbrev pub addresses_of : String × List String → List String
addresses_of (name, addresses) = addresses

-- The interface is there, with the target as its first address, and none before it is.
abbrev pub Found : Dict (List String) → String → String → Type 0
Found interfaces target name =
    (before : Dict (List String)) × (after : Dict (List String)) × (rest : List String)
    × (interfaces ≡ before ++ ((name, target ∷ rest) ∷ after))
    × All (λ i. first_address_of (addresses_of i) ≢ some target) before

-- If a name is returned for an address, then it is that of the first interface whose first address
-- is that address.
pub get_ifname_from_ip-Found :
    (interfaces : Dict (List String)) (target name : String)
    → get_ifname_from_ip interfaces target ≡ ok name
    → Found interfaces target name
unfolding get_ifname_from_ip
get_ifname_from_ip-Found [] target name h = cc
get_ifname_from_ip-Found ((i, []) ∷ interfaces) target name h = cc
get_ifname_from_ip-Found ((i, a ∷ rest) ∷ interfaces) target name h =
    elim (Bool-cases (str_eq a target)) [
      | inl e ↦
          let here : a ≡ target = ground (arith, eq_iff a target) in
          let same : i ≡ name = ok-injective (rw e at h) in
          ([], interfaces, rest, rw (here, same) refl, tt)
      | inr e ↦
          let (before, after, more, p, q) =
            get_ifname_from_ip-Found interfaces target name (rw e at h) in
          (
            (i, a ∷ rest) ∷ before,
            after,
            more,
            rw p refl,
            ((λ r. ground (arith, eq_iff a target)), q),
          )
    ]
