-- ===== src/Server/Sync.antt =====
-- `catch_up` and `SyncFrom` of vsearch/server.py: a durable shard copies from a peer, in a state `P`.
pub mod CaughtUp
pub mod Messages
pub mod Numbered
pub mod Rounds
pub mod Steady
pub mod Wire
use distributed_vector_searc.Prelude.{
  ℕ, zero, suc, List, [], ◌∷◌, concat, Option, none, some, Result, Error, ok, err, ◌>>=◌,
}
use distributed_vector_searc.Python.Text.{Text}
use distributed_vector_searc.Storage.Record.{LogRecord}
use distributed_vector_searc.Storage.Durable.{ShardOps, DurableShard, add_batch, install_snapshot}
use distributed_vector_searc.Server.{
  Served, in_memory, durable, Response, answered, aborted, raised, failed_precondition, unavailable,
}

-- How a stream ends: with all that there is, with FAILED_PRECONDITION, or with another status.
pub data StreamEnd : Type 0 where
  complete refused broken : StreamEnd

-- What arrives of a peer's log after a seq, and of its snapshot.
pub record Peer (P : Type 0) : Type 0 where
  pub fetch_log : P → ℕ → P × List LogRecord × StreamEnd
  pub fetch_snapshot : P → P × List (List ℕ) × StreamEnd

pub data Method : Type 0 where
  log snapshot : Method

module _ {S : Type 0} (o : ShardOps S) where
  -- The records as they arrive, each at its own place in the order of the writes.
  unfoldable pub apply_records : List LogRecord → DurableShard S → DurableShard S × Result ℕ
  unfolding add_batch
  apply_records [] d = (d, ok 0)
  apply_records (r ∷ records) d =
      let (d', result) = add_batch o d r.global_ids r.vectors (some r.payloads) (some r.seq) in
      elim result [
        | err e ↦ (d', err e)
        | ok _ ↦
            let (d'', rest) = apply_records records d' in
            (d'', rest >>= λ applied. ok (suc applied))
      ]

module _ {S P : Type 0} (o : ShardOps S) (peer : Peer P) where
  -- The snapshot of the peer, in place of all that the shard has.
  unfoldable pub copy_snapshot : P → DurableShard S → P × DurableShard S × Result (Unit {0})
  unfolding install_snapshot
  copy_snapshot p d =
      let (p', chunks, end) = peer.fetch_snapshot p in
      elim end [
        | complete ↦ let (d', result) = install_snapshot o d (concat chunks) in (p', d', result)
        | refused ↦ (p', d, err Error.rpc_failed)
        | broken ↦ (p', d, err Error.rpc_failed)
      ]

  -- The loop of `catch_up`, with the attempts that are left.
  unfoldable pub catch_up_loop :
      ℕ → Method → P → DurableShard S → P × DurableShard S × Result (Method × ℕ)
  unfolding apply_records copy_snapshot
  catch_up_loop zero method p d = (p, d, err Error.runtime_error)
  catch_up_loop (suc attempts) method p d =
      let (p', records, end) = peer.fetch_log p d.last_seq in
      let (d', applied) = apply_records o records d in
      elim applied [
        | err e ↦ (p', d', err e)
        | ok count ↦ elim end [
          | complete ↦ (p', d', ok (method, count))
          | broken ↦ (p', d', err Error.rpc_failed)
          | refused ↦
              let (p'', d'', copied) = copy_snapshot p' d' in
              elim copied [
                | err e ↦ (p'', d'', err e)
                | ok _ ↦ catch_up_loop attempts snapshot p'' d''
              ]
        ]
      ]

  unfoldable pub catch_up : P → DurableShard S → P × DurableShard S × Result (Method × ℕ)
  unfolding catch_up_loop
  catch_up p d = catch_up_loop 3 log p d

  -- `SyncFrom`: the method, the records applied and the last seq.
  unfoldable pub sync_response : DurableShard S → Result (Method × ℕ) → Response (Method × ℕ × ℕ)
  sync_response d (ok (method, applied)) = answered (method, applied, d.last_seq)
  sync_response d (err Error.rpc_failed) = aborted unavailable
  sync_response d (err e) = raised e

  unfoldable pub handle_sync_from : P → Served S → P × Served S × Response (Method × ℕ × ℕ)
  unfolding catch_up sync_response
  handle_sync_from p (in_memory s) = (p, in_memory s, aborted failed_precondition)
  handle_sync_from p (durable d) =
      let (p', d', result) = catch_up p d in (p', durable d', sync_response d' result)
