-- ===== src/State.antt =====
-- vsearch/state.py and `pick` of vsearch/processes.py, as far as they look at the content of cluster.json,
-- which is a record here.
pub mod Env
pub mod Tests
pub mod Machines
pub mod Stopping
use distributed_vector_searc.Prelude.{
  ℕ, zero, suc, ◌+◌, Bool, true, false, not, ◌&&◌, List, [], ◌∷◌, ◌++◌, map, Option, none, some,
  Result, Error, ok, err, if◌then◌else◌, any, get_elem?, set, concat,
}
use distributed_vector_searc.Python.Text.{Text, codes, show_nat}
use distributed_vector_searc.Python.Json.{Fields}
use distributed_vector_searc.Actions.{
  Act, after, recover, ◌>>=◌, ◌>>◌, give, raise, update, attempt, each,
}
use distributed_vector_searc.Health.{ServerHealth}

-- The record of one server: a key that is missing is `none`, and so is a pid that is None.
pub record Server : Type 0 where
  pub host : Option Text
  pub port : ℕ
  pub peer : Option Text
  pub pid : Option ℕ

-- A file that was ingested.
pub record Source : Type 0 where
  pub sha256 : Text
  pub passages : ℕ
  pub namespace : Option Text
  pub source : Text

-- What has been loaded, by its name: the vectors of words, documents or memories.
pub data Dataset : Type 0 where
  glove : (limit : ℕ) (dir : Text) → Dataset
  documents : (embedder : Text) (dim passages : ℕ) (sources : List (Text × Source)) → Dataset
  memory : (embedder : Text) (dim : ℕ) → Dataset

-- The content of cluster.json. An attached cluster has no seed.
pub record State : Type 0 where
  pub seed : Option ℕ
  pub server_args : Fields
  pub servers : List (List Server)
  pub dataset : Option Dataset
  pub managed_by : Option Text

-- `StatusResponse`, as far as it is used.
pub record ServerStatus : Type 0 where
  pub size : ℕ
  pub last_seq : ℕ
  pub snapshot_seq : ℕ

-- `server.get('host', '127.0.0.1')`
unfoldable pub host_of : Option Text → Text
host_of none = codes "127.0.0.1"
host_of (some host) = host

unfoldable pub address : Server → Text
unfolding host_of show_nat
address server = host_of server.host ++ codes ":" ++ show_nat server.port

-- `managed_by(state)` where it is tested: an empty text is false.
unfoldable pub non_empty : Option Text → Option Text
non_empty none = none
non_empty (some []) = none
non_empty (some (c ∷ text)) = some (c ∷ text)

unfoldable pub managed_by : State → Option Text
unfolding non_empty
managed_by state = non_empty state.managed_by

unfoldable pub refuse_if_managed : State → Text → Result (Unit {0})
unfolding managed_by
refuse_if_managed state action = elim (managed_by state) [
  | none ↦ ok tt
  | some manager ↦ err (
      Error.user_error (
        codes "this cluster's servers are run by "
        ++ manager
        ++ codes ", so vsearch cannot "
        ++ action
        ++ codes " them; do it there (e.g. docker compose)"))
]

-- `enumerate`, from a first number.
unfoldable pub enumerate : {A : Type 0} → ℕ → List A → List (ℕ × A)
enumerate n [] = []
enumerate n (x ∷ xs) = (n, x) ∷ enumerate (suc n) xs

unfoldable pub servers : State → List (ℕ × ℕ × Server)
unfolding enumerate
servers state = concat (
    map (λ group. map (λ s. (group.0, s.0, s.1)) (enumerate 0 group.1)) (enumerate 0 state.servers))

unfoldable pub shard_addresses : State → List (List Text)
unfolding address
shard_addresses state = map (map address) state.servers

-- `server.get("peer") or address(server)`
unfoldable pub peer_address : Server → Text
unfolding address non_empty
peer_address server = elim (non_empty server.peer) [ none ↦ address server | some peer ↦ peer ]

-- The two arguments of the coordinator that `connect` makes.
unfoldable pub connect : State → List (List Text) × List (List Text)
unfolding shard_addresses peer_address
connect state = (shard_addresses state, map (map peer_address) state.servers)

-- The text of the error of `pick`.
unfoldable pub no_such : ℕ → ℕ → Text
unfolding show_nat
no_such shard replica =
    codes "there is no shard "
    ++ show_nat shard
    ++ codes " replica "
    ++ show_nat replica
    ++ codes " in this cluster"

-- The numbers of a server are natural numbers here, so the first test of `pick` is never true.
unfoldable pub pick : State → ℕ → ℕ → Result Server
unfolding no_such
pick state shard replica = elim (get_elem? state.servers shard) [
  | none ↦ err (Error.user_error (no_such shard replica))
  | some group ↦ elim (get_elem? group replica) [
    | none ↦ err (Error.user_error (no_such shard replica))
    | some server ↦ ok server
  ]
]
