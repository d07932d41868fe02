-- ===== src/Ops/Changing.antt =====
-- `restart_server` and `repair` of vsearch/ops.py.
use distributed_vector_searc.Prelude.{
  ℕ, Bool, true, false, List, [], ◌∷◌, ◌++◌, map, Option, none, some, Error, ok, err, if◌then◌else◌,
  leb, ltb, max, keep, concat, nat_ord,
}
use distributed_vector_searc.Actions.{Act, ◌>>=◌, ◌>>◌, lift, give, raise, attempt, update}
use distributed_vector_searc.Health.{ServerHealth, shards_of, alive_of, group_of}
use distributed_vector_searc.State.Machines.{Machines, write_state, spawn, cluster_health, wait_for}
use distributed_vector_searc.Python.Text.{show_nat, Text, codes, join_with, grouped}
use distributed_vector_searc.Health.Describe.{name_of, new_line}
use distributed_vector_searc.Client.Repair.{ReplicaSync}
use distributed_vector_searc.Ops.{
  Searcher, Settings, count_of, Session, count_up, find_server, on_world,
}
use distributed_vector_searc.Ops.Looking.{health, pick_server, cluster_state}
use distributed_vector_searc.State.{managed_by, State, Server}

-- `err.code()` is that of a `grpc.RpcError`.
unfoldable pub is_rpc : Error → Bool
is_rpc Error.rpc_unavailable = true
is_rpc Error.rpc_deadline_exceeded = true
is_rpc Error.rpc_failed = true
is_rpc e = false

-- `max((server.last_seq for server in alive), default=0)`
unfoldable pub newest_of : List ServerHealth → ℕ
newest_of [] = 0
newest_of (s ∷ alive) = max s.last_seq (newest_of alive)

unfoldable pub behind_part : ℕ → ℕ → ServerHealth → Text
unfolding name_of show_nat
behind_part shard newest s =
    name_of shard s.replica
    ++ codes " (seq "
    ++ show_nat s.last_seq
    ++ codes " of "
    ++ show_nat newest
    ++ codes ")"

-- The servers of a shard that are up and behind the newest of it.
unfoldable pub behind_in : List ServerHealth → List ServerHealth
unfolding newest_of
behind_in alive = keep (λ s. ltb s.last_seq (newest_of alive)) alive

unfoldable pub behind_parts : List ServerHealth → ℕ → List Text
unfolding behind_in newest_of behind_part
behind_parts health shard =
    let alive = alive_of (group_of health shard) in
    map (behind_part shard (newest_of alive)) (behind_in alive)

unfoldable pub behind : List ServerHealth → List Text
unfolding shards_of behind_parts
behind health = concat (map (behind_parts health) (shards_of health))

unfoldable pub synced_line : ReplicaSync → Text
unfolding show_nat
synced_line sync =
    codes "shard "
    ++ show_nat sync.shard
    ++ codes ": "
    ++ sync.replica
    ++ codes " caught up from "
    ++ sync.source
    ++ codes " via "
    ++ sync.method
    ++ codes " ("
    ++ show_nat sync.records_applied
    ++ codes " log records), now at seq "
    ++ show_nat sync.last_seq

module _ {W : Type 0} (machines : Machines W) (searcher : Searcher W) (settings : Settings) where
  -- `self._restarts[shard, replica] += 1` and the start of the server, whose handle is kept.
  unfoldable pub start_server : State → ℕ → ℕ → Server → Act (Session W) State
  unfolding count_up spawn
  start_server state shard replica server = do
    update (λ s. record s { restarts = count_up s.restarts (shard, replica) })
    state' ← on_world (spawn machines state shard replica server)
    update (λ s. record s { spawned = s.spawned ++ (shard, replica) ∷ [] })
    give state'

  -- `except UserError: raise ToolError(...)`
  unfoldable pub late : ℕ → ℕ → Error → Act (Session W) (Unit {0})
  unfolding name_of show_nat
  late shard replica (Error.user_error text) = raise (
      Error.tool_error (
        name_of shard replica
        ++ codes " was started but did not answer within "
        ++ show_nat settings.start_timeout
        ++ codes " s. Read its log to see why."))
  late shard replica e = raise e

  -- What follows the checks of `restart_server`.
  unfoldable pub restart : State → ℕ → ℕ → Server → Act (Session W) Text
  unfolding start_server write_state wait_for late show_nat health find_server grouped name_of
  restart state shard replica server = do
    state' ← start_server state shard replica server
    on_world (write_state machines state')
    attempt (on_world (wait_for machines ((shard, replica, server) ∷ []) settings.start_timeout))
        (late shard replica)
    now ← health machines searcher
    back ← lift (find_server now (shard, replica))
    give (
        name_of shard replica
        ++ codes " restarted and answering: it recovered "
        ++ grouped back.size
        ++ codes " vectors from its disk and is at seq "
        ++ show_nat back.last_seq
        ++ codes ".")

  unfoldable pub reached : ℕ → ℕ → Text
  unfolding name_of show_nat
  reached shard replica =
      name_of shard replica
      ++ codes " was already restarted "
      ++ show_nat settings.max_restarts
      ++ codes
          " times in this run and did not stay up. Do not try again: read its log and report it."

  -- The checks of `restart_server` once the server is known to be down and its process gone.
  unfoldable pub restart_within : State → ℕ → ℕ → Server → Act (Session W) Text
  unfolding restart count_of name_of reached
  restart_within state shard replica server s =
      if leb settings.max_restarts (count_of s.restarts (shard, replica))
      then (s, err (Error.tool_error (reached shard replica)))
      else if settings.dry_run
      then (s, ok (codes "DRY RUN: would restart " ++ name_of shard replica ++ codes "."))
      else restart state shard replica server s

  -- Why a server cannot be restarted, from what is seen of it.
  unfoldable pub refusal : Text → State → ServerHealth → Option Text
  unfolding managed_by
  refusal name state current =
      if current.up
      then some (name ++ codes " is already up; there is nothing to restart.")
      else elim (managed_by state) [
        | some manager ↦ some (
            name
            ++ codes " is run by "
            ++ manager
            ++ codes ", which restarts servers itself; this agent cannot. Check its status again "
            ++ codes "shortly, or report that it is not coming back.")
        | none ↦
            if current.process
            then some (
                name
                ++ codes " does not answer but its process is still running. This agent cannot "
                ++ codes "stop processes: report it for a person to look at.")
            else none
      ]

  unfoldable pub restart_server : ℕ → ℕ → Act (Session W) Text
  unfolding pick_server cluster_health find_server refusal restart_within name_of
  restart_server shard replica = do
    state ← cluster_state machines searcher
    server ← pick_server machines searcher state shard replica
    seen ← on_world (cluster_health machines state)
    current ← lift (find_server seen (shard, replica))
    elim (refusal (name_of shard replica) state current) [
      | some text ↦ raise (Error.tool_error text)
      | none ↦ restart_within state shard replica server
    ]

  -- `except grpc.RpcError as err: raise ToolError(...)`
  unfoldable pub repair_failed : Error → Act (Session W) (List ReplicaSync)
  unfolding is_rpc
  repair_failed e =
      raise
        (if is_rpc e then Error.tool_error (codes "repair failed: " ++ searcher.detail e) else e)

  -- The calls of a coordinator in `repair`, when some replica is behind.
  unfoldable pub repair_now : Act (Session W) Text
  unfolding synced_line join_with repair_failed
  repair_now = do
    state ← cluster_state machines searcher
    synced ← attempt (on_world (searcher.repair state)) repair_failed
    give (join_with new_line (map synced_line synced))

  unfoldable pub repair : Act (Session W) Text
  unfolding health behind repair_now join_with
  repair = do
    now ← health machines searcher
    elim (behind now) [
      | [] ↦ give (codes "Nothing to repair: the replicas that are up already agree.")
      | part ∷ parts ↦
          if settings.dry_run
          then give (
              codes "DRY RUN: would bring up to date: "
              ++ join_with (codes "; ") (part ∷ parts)
              ++ codes ".")
          else repair_now
    ]
