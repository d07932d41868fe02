-- ===== src/Client.antt =====
-- `GrpcCoordinator` of vsearch/client.py: its state, the calls of the servers, and what it learns from
-- them before a write. A clock reading is a number of ticks.
pub mod Replicas
pub mod Search
pub mod Write
pub mod Repair
pub mod Tests
use distributed_vector_searc.Prelude.{
  ℕ, zero, suc, ◌+◌, Bool, true, false, List, [], ◌∷◌, ◌++◌, map, Option, none, some, Result, Error,
  ok, err, ◌>>=◌, ◌==◌, if◌then◌else◌, length, replicate, get_elem?, set, all, max,
}
use distributed_vector_searc.Python.Text.{Text}

-- `_Replica`, less its channel: `down_until` is the time until which it is tried last.
pub record Replica : Type 0 where
  pub address : Text
  pub peer : Text
  pub down_until : ℕ

-- An entry of `_last_seqs`: None, `_UNCHECKED`, or the last write that all replicas have applied.
pub data Position : Type 0 where
  unknown unchecked : Position
  at : (seq : ℕ) → Position

pub record Coordinator : Type 0 where
  pub replicas : List (List Replica)
  pub retry_after : ℕ
  pub size : ℕ
  pub shard_sizes : List ℕ
  pub failovers : ℕ
  pub next_replica : List ℕ
  pub last_seqs : List Position

-- The messages of the protocol.
pub record Status : Type 0 where
  pub size : ℕ
  pub durable : Bool
  pub next_global_id : ℕ
  pub last_seq : ℕ

pub record SyncResult : Type 0 where
  pub method : Text
  pub records_applied : ℕ
  pub last_seq : ℕ

pub record Hit (D : Type 0) : Type 0 where
  pub global_id : ℕ
  pub distance : D
  pub payload : Text

pub record SearchRequest (V : Type 0) : Type 0 where
  pub query : V
  pub k : ℕ
  pub with_payloads : Bool
  pub filter : Text

-- `vectors` stands for `dim` and `values`.
pub record AddRequest (V : Type 0) : Type 0 where
  pub global_ids : List ℕ
  pub vectors : List V
  pub seq : ℕ
  pub payloads : List Text

-- The servers and the clock, in a state `W`: a call goes to an address, and its outcome is fixed when it
-- is sent. `add` gives the size that the server reports.
pub record Calls (W V D : Type 0) : Type 0 where
  pub monotonic : W → W × ℕ
  pub status : W → Text → W × Result Status
  pub search : W → Text → SearchRequest V → W × Result (List (Hit D))
  pub add : W → Text → AddRequest V → W × Result ℕ
  pub sync_from : W → Text → Text → W × Result SyncResult

-- `err.code() in RETRYABLE`
unfoldable pub is_retryable : Error → Bool
is_retryable Error.rpc_unavailable = true
is_retryable Error.rpc_deadline_exceeded = true
is_retryable e = false

-- `_Replica(address, peer)`: `peer or address`.
unfoldable pub new_replica : Text × Text → Replica
new_replica (address, []) = record { address = address; peer = address; down_until = 0 }
new_replica (address, c ∷ peer) = record { address = address; peer = c ∷ peer; down_until = 0 }

-- Every replica with its address and its peer address, empty for None.
unfoldable pub new_coordinator : List (List (Text × Text)) → ℕ → Coordinator
unfolding new_replica
new_coordinator shards retry_after = record {
  replicas = map (map new_replica) shards;
  retry_after = retry_after;
  size = 0;
  shard_sizes = replicate (length shards) 0;
  failovers = 0;
  next_replica = replicate (length shards) 0;
  last_seqs = replicate (length shards) unknown;
}

-- `refresh`: nothing is known of the positions.
unfoldable pub refresh : Coordinator → Coordinator
refresh c = record c { last_seqs = replicate (length c.replicas) unknown }

unfoldable pub max_next_id : ℕ → List Status → ℕ
max_next_id size [] = size
max_next_id size (status ∷ statuses) = max_next_id (max size status.next_global_id) statuses

-- What `_check_shards` makes of the statuses of one shard.
unfoldable pub agreed : ℕ → List Status → Result Position
agreed shard statuses = elim (all (λ s. s.durable) statuses) [
  | false ↦ ok unchecked
  | true ↦ elim statuses [
    | [] ↦ err Error.stop_iteration
    | first ∷ others ↦
        if all (λ s. s.last_seq == first.last_seq) others
        then ok (at first.last_seq)
        else err (Error.replicas_out_of_sync shard)
  ]
]

unfoldable pub learn : ℕ → List Status → Coordinator → Coordinator × Result (Unit {0})
unfolding max_next_id agreed
learn shard statuses c =
    let sized : Coordinator = record c { size = max_next_id c.size statuses } in
    elim (agreed shard statuses) [
      | ok position ↦ (record sized { last_seqs = set c.last_seqs shard position }, ok tt)
      | err e ↦ (sized, err e)
    ]

unfoldable pub is_known : Option Position → Bool
is_known none = false
is_known (some unknown) = false
is_known (some unchecked) = true
is_known (some (at seq)) = true

module _ {W V D : Type 0} (calls : Calls W V D) where
  -- The statuses of a group, unless a call raises.
  unfoldable pub statuses_of : W → List Replica → W × Result (List Status)
  statuses_of w [] = (w, ok [])
  statuses_of w (replica ∷ group) =
      let (w', answer) = calls.status w replica.address in
      elim answer [
        | err e ↦ (w', err e)
        | ok status ↦
            let (w'', rest) = statuses_of w' group in
            (w'', rest >>= λ statuses. ok (status ∷ statuses))
      ]

  -- `_check_shards`, from `shard` on.
  unfoldable pub check_from :
      ℕ → List (List Replica) → Coordinator → W → Coordinator × W × Result (Unit {0})
  unfolding statuses_of learn is_known
  check_from shard [] c w = (c, w, ok tt)
  check_from shard (group ∷ groups) c w = elim (is_known (get_elem? c.last_seqs shard)) [
    | true ↦ check_from (suc shard) groups c w
    | false ↦
        let (w', answers) = statuses_of w group in
        elim answers [
          | err e ↦ (c, w', err e)
          | ok statuses ↦
              let (c', learned) = learn shard statuses c in
              elim learned [ err e ↦ (c', w', err e) | ok _ ↦ check_from (suc shard) groups c' w' ]
        ]
  ]

  unfoldable pub check_shards : Coordinator → W → Coordinator × W × Result (Unit {0})
  unfolding check_from
  check_shards c w = check_from 0 c.replicas c w
