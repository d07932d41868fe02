-- ===== src/Server.antt =====
-- `ShardServicer` and `catch_up` of vsearch/server.py. Requests to a shard run one at a time, under its
-- lock, so a handler is one step on the shard. A float32 value is its 32-bit pattern.
pub mod Sync
pub mod Tests
use distributed_vector_searc.Prelude.{
  ℕ, zero, suc, ◌+◌, ◌*◌, ◌/◌, ◌%◌, Bool, true, false, ◌&&◌, not, List, [], ◌∷◌, ◌++◌, map, concat,
  Option, none, some, Result, Error, ok, err, ◌>>=◌, ◌==◌, if◌then◌else◌, length, take, drop, any,
}
use distributed_vector_searc.Python.Text.{Text, codes}
use distributed_vector_searc.Python.Json.{Json, Fields, obj}
use distributed_vector_searc.Filtering.Key.{Filter, normalize_filter}
use distributed_vector_searc.Filtering.Wire.{decode_filter}
use distributed_vector_searc.Storage.Record.{Matrix, LogRecord, split_rows}
use distributed_vector_searc.Storage.Durable.{
  ShardOps, DurableShard, Disk, add_batch, records_after, snapshot_bytes, install_snapshot,
  open_shard,
}

-- `SNAPSHOT_CHUNK_BYTES`
abbrev pub snapshot_chunk_bytes : ℕ
snapshot_chunk_bytes = 1048576

-- What the server uses of a shard besides `ShardOps`; `V` is the type of a query.
pub record ShardReads (S V D : Type 0) : Type 0 where
  pub size : S → ℕ
  pub next_global_id : S → ℕ
  pub search : S → V → ℕ → Option Filter → S × Result (List (D × ℕ))
  pub search_with_payloads : S → V → ℕ → Option Filter → S × Result (List (D × (ℕ × Text)))

-- The shard of a servicer.
pub data Served (S : Type 0) : Type 0 where
  in_memory : S → Served S
  durable : DurableShard S → Served S

pub data Code : Type 0 where
  invalid_argument failed_precondition unavailable : Code

-- The response to a request, the status that `context.abort` ends it with, or another exception.
pub data Response (A : Type 0) : Type 0 where
  answered : A → Response A
  aborted : Code → Response A
  raised : Error → Response A

pub record AddRequest : Type 0 where
  pub global_ids : List ℕ
  pub dim : ℕ
  pub values : List ℕ
  pub seq : ℕ
  pub payloads : List Text

pub record SearchRequest (V : Type 0) : Type 0 where
  pub query : V
  pub k : ℕ
  pub with_payloads : Bool
  pub filter : Text

pub record StatusResponse : Type 0 where
  pub size : ℕ
  pub durable : Bool
  pub next_global_id : ℕ
  pub last_seq : ℕ
  pub snapshot_seq : ℕ

-- `.reshape(-1, dim)`
unfoldable pub reshaped : ℕ → List ℕ → Result Matrix
unfolding split_rows
reshaped zero values = err Error.value_error
reshaped (suc dim) values =
    if length values % suc dim == 0
    then ok (record { dim = suc dim; rows = split_rows (length values / suc dim) (suc dim) values })
    else err Error.value_error

-- `payloads and len(payloads) != len(ids)`
unfoldable pub is_mismatch : List Text → List ℕ → Bool
is_mismatch [] ids = false
is_mismatch (text ∷ payloads) ids = not (length (text ∷ payloads) == length ids)

unfoldable pub response_of : {A : Type 0} → Result A → Response A
response_of (ok value) = answered value
response_of (err e) = raised e

-- `except OutOfOrderWrite`
unfoldable pub numbered_response : {A : Type 0} → Result A → Response A
numbered_response (ok value) = answered value
numbered_response (err Error.out_of_order) = aborted failed_precondition
numbered_response (err e) = raised e

-- The chunks of a snapshot, on fuel.
unfoldable pub chunks_of : ℕ → List ℕ → List (List ℕ)
chunks_of fuel [] = []
chunks_of zero (b ∷ bytes) = []
chunks_of (suc fuel) (b ∷ bytes) =
    take snapshot_chunk_bytes (b ∷ bytes) ∷ chunks_of fuel (drop snapshot_chunk_bytes (b ∷ bytes))

-- `payloads if any(payloads) else []`
abbrev pub has_text : Text → Bool
has_text [] = false
has_text (c ∷ text) = true

unfoldable pub log_message : LogRecord → LogRecord
log_message r = record r { payloads = if any has_text r.payloads then r.payloads else [] }

module _ {S V D : Type 0} (o : ShardOps S) (reads : ShardReads S V D)
    (loads : Text → Result Json) where
  unfoldable pub shard_of : Served S → S
  shard_of (in_memory s) = s
  shard_of (durable d) = d.shard

  -- A durable shard passes its searches on.
  unfoldable pub with_shard : Served S → S → Served S
  with_shard (in_memory s) s' = in_memory s'
  with_shard (durable d) s' = durable (record d { shard = s' })

  -- `Add`, once the vectors have their shape: a seq of 0 is none.
  unfoldable pub add_rows : Served S → List ℕ → Matrix → List Text → ℕ → Served S × Response ℕ
  unfolding add_batch response_of numbered_response
  add_rows (in_memory s) ids vectors payloads zero =
      let (s', result) = o.add_batch s ids vectors (some payloads) in
      (in_memory s', response_of (result >>= λ done. ok (reads.size s')))
  add_rows (in_memory s) ids vectors payloads (suc seq) = (in_memory s, aborted failed_precondition)
  add_rows (durable d) ids vectors payloads zero =
      let (d', result) = add_batch o d ids vectors (some payloads) none in
      (durable d', response_of (result >>= λ done. ok (reads.size d'.shard)))
  add_rows (durable d) ids vectors payloads (suc seq) =
      let (d', result) = add_batch o d ids vectors (some payloads) (some (suc seq)) in
      (durable d', numbered_response (result >>= λ done. ok (reads.size d'.shard)))

  -- `Add`
  unfoldable pub handle_add : Served S → AddRequest → Served S × Response ℕ
  unfolding reshaped is_mismatch add_rows
  handle_add served request = elim (reshaped request.dim request.values) [
    | err e ↦ (served, raised e)
    | ok vectors ↦ elim (is_mismatch request.payloads request.global_ids) [
      | true ↦ (served, aborted invalid_argument)
      | false ↦ add_rows served request.global_ids vectors request.payloads request.seq
    ]
  ]

  -- `Search`
  unfoldable pub handle_search :
      Served S → SearchRequest V → Served S × Response (List (D × (ℕ × Text)))
  unfolding decode_filter shard_of with_shard response_of
  handle_search served request = elim (decode_filter loads request.filter) [
    | err e ↦ (served, aborted invalid_argument)
    | ok filter ↦ elim (request.with_payloads) [
      | true ↦
          let (s', hits) =
            reads.search_with_payloads (shard_of served) request.query request.k filter in
          (with_shard served s', response_of hits)
      | false ↦
          let (s', hits) = reads.search (shard_of served) request.query request.k filter in
          (with_shard served s', response_of (hits >>= λ hs. ok (map (λ h. (h.0, (h.1, []))) hs)))
    ]
  ]

  -- `Status`
  unfoldable pub handle_status : Served S → StatusResponse
  handle_status (in_memory s) = record {
    size = reads.size s;
    durable = false;
    next_global_id = reads.next_global_id s;
    last_seq = 0;
    snapshot_seq = 0;
  }
  handle_status (durable d) = record {
    size = reads.size d.shard;
    durable = true;
    next_global_id = reads.next_global_id d.shard;
    last_seq = d.last_seq;
    snapshot_seq = d.snapshot_seq;
  }

  -- `FetchLog`
  unfoldable pub handle_fetch_log : Served S → ℕ → Response (List LogRecord)
  unfolding records_after log_message
  handle_fetch_log (in_memory s) after_seq = aborted failed_precondition
  handle_fetch_log (durable d) after_seq = elim (records_after o d after_seq) [
    | err e ↦ raised e
    | ok records ↦ elim records [
      | none ↦ aborted failed_precondition
      | some found ↦ answered (map log_message found)
    ]
  ]

  -- `FetchSnapshot`: the chunks, and the seq that each of them carries.
  unfoldable pub handle_fetch_snapshot : Served S → Served S × Response (List (List ℕ) × ℕ)
  unfolding snapshot_bytes chunks_of
  handle_fetch_snapshot (in_memory s) = (in_memory s, aborted failed_precondition)
  handle_fetch_snapshot (durable d) =
      let (d', bytes, seq) = snapshot_bytes o d in
      (durable d', answered (chunks_of (length bytes) bytes, seq))
