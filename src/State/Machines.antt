-- ===== src/State/Machines.antt =====
-- vsearch/state.py, vsearch/processes.py and `cluster_health` of vsearch/health.py, as far as they act on
-- the world: the network, the processes and cluster.json are the parameter `Machines`. The directory of
-- the cluster is left out of the texts.
use distributed_vector_searc.Prelude.{
  ℕ, ◌+◌, Bool, true, false, List, [], ◌∷◌, ◌++◌, Option, none, some, Error, get_elem?, set, ok,
  err,
}
use distributed_vector_searc.Python.Text.{codes, Text, show_nat}
use distributed_vector_searc.Python.Json.{Fields}
use distributed_vector_searc.Actions.{Act, ◌>>=◌, give, raise, update, each}
use distributed_vector_searc.Health.{ServerHealth}
use distributed_vector_searc.State.{Server, State, ServerStatus, address, servers}

-- What the world does: cluster.json, if it is there; the answer to a `Status` call, where none is a
-- `grpc.RpcError`; whether the process of a pid is the server of a port (`waitpid` and `ps`); the start
-- of a server on its port, with its seed and arguments, for a shard and a replica, with its pid; and whether an
-- address answers in time.
pub record Machines (W : Type 0) : Type 0 where
  pub read : Act W (Option State)
  pub write : State → W → W
  pub status : Text → W → W × Option ServerStatus
  pub is_ours : ℕ → ℕ → W → W × Bool
  pub popen : (shard replica port seed : ℕ) → (server_args : Fields) → Act W ℕ
  pub wait_until_ready : Text → ℕ → W → W × Bool

module _ {W : Type 0} (machines : Machines W) where
  unfoldable pub read_state : Act W State
  read_state = do
    found ← machines.read
    elim found [
      | none ↦ raise (Error.user_error (codes "no cluster; start one with: vsearch cluster up"))
      | some state ↦ give state
    ]

  unfoldable pub write_state : State → Act W (Unit {0})
  write_state state = update (machines.write state)

  unfoldable pub server_status : Server → Act W (Option ServerStatus)
  unfolding address
  server_status server w = let (w', reply) = machines.status (address server) w in (w', ok reply)

  -- The statuses of all servers, or none if one of them does not answer.
  unfoldable pub all_up : List (Option ServerStatus) → Option (List ServerStatus)
  all_up [] = some []
  all_up (none ∷ replies) = none
  all_up (some reply ∷ replies) =
      let rest = all_up replies in
      elim rest [ none ↦ none | some statuses ↦ some (reply ∷ statuses) ]

  unfoldable pub writable : State → Act W (List ServerStatus)
  unfolding servers server_status all_up each
  writable state = do
    replies ← each (λ s. server_status s.2) (servers state)
    elim (all_up replies) [
      | none ↦ raise (
          Error.user_error
            (codes "a server is down, and writes need every replica; see: vsearch status"))
      | some statuses ↦ give statuses
    ]

  unfoldable pub is_running : Server → Act W Bool
  is_running server w = elim server.pid [
    | none ↦ (w, ok false)
    | some pid ↦ let (w', running) = machines.is_ours pid server.port w in (w', ok running)
  ]

  unfoldable pub server_health : ℕ → ℕ → Server → Option ServerStatus → Bool → ServerHealth
  unfolding address
  server_health shard replica server none running = record {
    shard = shard;
    replica = replica;
    address = address server;
    up = false;
    process = running;
    size = 0;
    last_seq = 0;
    snapshot_seq = 0;
  }
  server_health shard replica server (some reply) running = record {
    shard = shard;
    replica = replica;
    address = address server;
    up = true;
    process = running;
    size = reply.size;
    last_seq = reply.last_seq;
    snapshot_seq = reply.snapshot_seq;
  }

  -- The body of the loop of `cluster_health`.
  unfoldable pub ask_server : ℕ × ℕ × Server → Act W ServerHealth
  unfolding server_status is_running server_health
  ask_server (shard, replica, server) = do
    reply ← server_status server
    running ← is_running server
    give (server_health shard replica server reply running)

  unfoldable pub cluster_health : State → Act W (List ServerHealth)
  unfolding servers ask_server each
  cluster_health state = each ask_server (servers state)

  unfoldable pub log_path : ℕ → ℕ → Text
  unfolding show_nat
  log_path shard replica =
      codes "logs/shard-" ++ show_nat shard ++ codes "-replica-" ++ show_nat replica ++ codes ".log"

  unfoldable pub set_pid : ℕ → List Server → ℕ → List Server
  set_pid pid group replica = elim (get_elem? group replica) [
    | none ↦ group
    | some server ↦ set group replica (record server { pid = some pid })
  ]

  -- The state with the pid of a server.
  unfoldable pub with_pid : State → ℕ → ℕ → ℕ → State
  unfolding set_pid
  with_pid state shard replica pid = elim (get_elem? state.servers shard) [
    | none ↦ state
    | some group ↦ record state { servers = set state.servers shard (set_pid pid group replica) }
  ]

  -- `spawn`: the state that it leaves. None plus a number raises a `TypeError`.
  unfoldable pub spawn : State → ℕ → ℕ → Server → Act W State
  unfolding with_pid
  spawn state shard replica server = elim state.seed [
    | none ↦ raise Error.type_error
    | some seed ↦ do
      pid ← machines.popen shard replica server.port (seed + shard) state.server_args
      give (with_pid state shard replica pid)
  ]

  unfoldable pub wait_for : List (ℕ × ℕ × Server) → ℕ → Act W (Unit {0})
  unfolding address show_nat log_path
  wait_for [] timeout w = (w, ok tt)
  wait_for ((shard, replica, server) ∷ targets) timeout w =
      let (w', ready) = machines.wait_until_ready (address server) timeout w in
      elim ready [
        | true ↦ wait_for targets timeout w'
        | false ↦ (
          w',
          err (
              Error.user_error (
                codes "shard "
                ++ show_nat shard
                ++ codes " replica "
                ++ show_nat replica
                ++ codes " did not start; see "
                ++ log_path shard replica)),
        )
      ]
