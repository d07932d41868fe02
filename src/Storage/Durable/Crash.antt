-- ===== src/Storage/Durable/Crash.antt =====
-- A crash in the middle of a write.
use distributed_vector_searc.Prelude.{
  ℕ, ◌+◌, ◌<◌, ◌≡◌, refl, ap, sym, List, [], ◌++◌, Option, Bool, true, false, if◌then◌else◌, Result,
  ok, length, take, append-nil, subst, ◌⊎◌, inl, inr,
}
use distributed_vector_searc.Python.Text.{Text}
use distributed_vector_searc.Storage.Record.{Matrix, encode_record}
use distributed_vector_searc.Storage.Record.RoundTrip.{IsWritable}
use distributed_vector_searc.Storage.Log.{Entry, torn-EndsLog}
use distributed_vector_searc.Storage.Durable.{
  ShardOps, ShardLaws, Disk, DurableShard, snapshotted, checkpoint, apply_logged, after_write,
  is_due, in_order, add_batch,
}
use distributed_vector_searc.Storage.Durable.Recovery.{
  IsRecoverable, Recovers, open_shard-Recovers, empty-EndsLog,
}
use distributed_vector_searc.Storage.Durable.Writes.{
  written, written-IsRecoverable, checkpoint-IsRecoverable, snapshotted-IsRecoverable,
}

-- What the disk may hold if the process dies during a write of `bytes`: part of the record, the whole
-- record, or also the snapshot that was due, before the log is emptied and after.
pub data CrashDisk {S : Type 0} (o : ShardOps S) (d d' : DurableShard S) (bytes : List ℕ)
    : Disk → Type 0 where
  torn :
      (k : ℕ)
      → k < length bytes
      → CrashDisk o d d' bytes
          (record { snapshot = d.disk.snapshot; wal = d.disk.wal ++ take k bytes })
  appended : CrashDisk o d d' bytes d'.disk
  snapshot_written : CrashDisk o d d' bytes (snapshotted o d')
  log_emptied : CrashDisk o d d' bytes (checkpoint o d').disk

module _ {S : Type 0} (o : ShardOps S) (laws : ShardLaws o) where
  open laws use {IsStorable}

  same_disk :
      (disk disk' : Disk) (d : DurableShard S)
      → disk ≡ disk'
      → Recovers o laws disk d
      → Recovers o laws disk' d
  same_disk disk disk' d e r = subst (λ x. Recovers o laws x d) e r

  -- Opening the disk of a shard that can be recovered gives its state again.
  pub IsRecoverable-Recovers :
      (d : DurableShard S) → IsRecoverable o laws d → Recovers o laws d.disk d
  IsRecoverable-Recovers d inv =
      same_disk (record { snapshot = d.disk.snapshot; wal = d.disk.wal ++ [] }) d.disk d
        (ap (λ b. record { snapshot = d.disk.snapshot; wal = b }) (append-nil d.disk.wal))
        (open_shard-Recovers o laws d [] inv empty-EndsLog)

  snapshotted-Recovers :
      (d : DurableShard S) → IsRecoverable o laws d → Recovers o laws (snapshotted o d) d
  snapshotted-Recovers d inv =
      let r =
        IsRecoverable-Recovers (record d { disk = snapshotted o d; snapshot_seq = d.last_seq })
          (snapshotted-IsRecoverable o laws d inv) in
      record {
        opened = r.opened;
        opens = r.opens;
        opened_seq = r.opened_seq;
        opened_shard = r.opened_shard;
        again = r.again;
      }

  checkpoint-Recovers :
      (d : DurableShard S) → IsStorable d.shard → Recovers o laws (checkpoint o d).disk d
  unfolding checkpoint
  checkpoint-Recovers d storable =
      let r =
        IsRecoverable-Recovers (checkpoint o d) (checkpoint-IsRecoverable o laws d storable) in
      record {
        opened = r.opened;
        opens = r.opens;
        opened_seq = r.opened_seq;
        opened_shard = r.opened_shard;
        again = r.again;
      }

  -- Take a durable shard that can be recovered (its log is a run of whole records, and replaying
  -- them over its snapshot gives its state, and these shards can be saved), a batch that fits a
  -- record, the bytes of that record under the next sequence number, and suppose that the shard's
  -- own add_batch accepts the batch. Let the process die in this write with any proper part of the
  -- record in the log, with the whole record, or with the snapshot of the new state also in place,
  -- before or after the log is emptied. Then opening the disk succeeds and gives the sequence
  -- number and the shard of before the write, or those of after it, up to what a snapshot forgets,
  -- and what was opened can be recovered again.
  pub add_batch-atomic :
      (d : DurableShard S) (global_ids : List ℕ) (vectors : Matrix) (payloads : Option (List Text))
      (bytes : List ℕ) (disk : Disk)
      → IsRecoverable o laws d
      → IsWritable global_ids vectors payloads
      → encode_record (d.last_seq + 1) global_ids vectors payloads ≡ ok bytes
      → (o.add_batch d.shard global_ids vectors payloads).1 ≡ ok tt
      → CrashDisk o d (written o d global_ids vectors payloads bytes) bytes disk
      → Recovers o laws disk d
        ⊎ Recovers o laws disk (written o d global_ids vectors payloads bytes)
  add_batch-atomic d global_ids vectors payloads bytes _ inv w enc accepts (torn k h) =
      let e : Entry = record {
        seq = d.last_seq + 1;
        global_ids = global_ids;
        vectors = vectors;
        payloads = payloads;
        bytes = bytes;
        writable = w;
        encoded = enc;
      } in
      inl (open_shard-Recovers o laws d (take k bytes) inv (torn-EndsLog e k h))
  add_batch-atomic d global_ids vectors payloads bytes _ inv w enc accepts appended = inr (
      IsRecoverable-Recovers _
        (written-IsRecoverable o laws d global_ids vectors payloads bytes inv w enc accepts))
  add_batch-atomic d global_ids vectors payloads bytes _ inv w enc accepts snapshot_written = inr (
      snapshotted-Recovers _
        (written-IsRecoverable o laws d global_ids vectors payloads bytes inv w enc accepts))
  add_batch-atomic d global_ids vectors payloads bytes _ inv w enc accepts log_emptied =
      let inv' =
        written-IsRecoverable o laws d global_ids vectors payloads bytes inv w enc accepts in
      inr (checkpoint-Recovers _ inv'.storable)

  -- What such a write returns, and the state that it leaves.
  pub record Acknowledged (d : DurableShard S) (global_ids : List ℕ) (vectors : Matrix)
      (payloads : Option (List Text)) (result : DurableShard S × Result (Unit {0})) : Type 0 where
    pub returns : result.1 ≡ ok tt
    pub next_seq : result.0.last_seq ≡ d.last_seq + 1
    pub applied_shard : result.0.shard ≡ (o.add_batch d.shard global_ids vectors payloads).0
    pub durable : Recovers o laws result.0.disk result.0
    pub recoverable : IsRecoverable o laws result.0

  after_write-Acknowledged :
      (d d' : DurableShard S) (global_ids : List ℕ) (vectors : Matrix)
      (payloads : Option (List Text)) (b : Bool)
      → d'.last_seq ≡ d.last_seq + 1
      → d'.shard ≡ (o.add_batch d.shard global_ids vectors payloads).0
      → IsRecoverable o laws d'
      → Acknowledged d global_ids vectors payloads (if b then checkpoint o d' else d', ok tt)
  unfolding checkpoint
  after_write-Acknowledged d d' global_ids vectors payloads true h k inv = record {
    returns = refl;
    next_seq = h;
    applied_shard = k;
    durable =
        IsRecoverable-Recovers (checkpoint o d') (checkpoint-IsRecoverable o laws d' inv.storable);
    recoverable = checkpoint-IsRecoverable o laws d' inv.storable;
  }
  after_write-Acknowledged d d' global_ids vectors payloads false h k inv = record {
    returns = refl;
    next_seq = h;
    applied_shard = k;
    durable = IsRecoverable-Recovers d' inv;
    recoverable = inv;
  }

  pub add_batch-at :
      (d : DurableShard S) (global_ids : List ℕ) (vectors : Matrix) (payloads : Option (List Text))
      (seq : Option ℕ) (bytes : List ℕ)
      → in_order seq (d.last_seq + 1) ≡ true
      → encode_record (d.last_seq + 1) global_ids vectors payloads ≡ ok bytes
      → (o.add_batch d.shard global_ids vectors payloads).1 ≡ ok tt
      → add_batch o d global_ids vectors payloads seq ≡ (
          let d' = written o d global_ids vectors payloads bytes in
          (if is_due o d' then checkpoint o d' else d', ok tt))
  unfolding add_batch apply_logged after_write
  add_batch-at d global_ids vectors payloads seq bytes h k accepts =
      rw (h, add_batch) (rw k (rw (accepts, apply_logged) refl))

  -- For a durable shard that can be recovered, a batch that fits a record and can be encoded, a
  -- caller's sequence number that is absent or the next one, and a shard whose add_batch accepts
  -- the batch: add_batch returns without error, the last sequence number grows by one, the shard is
  -- the one that its own add_batch gives, opening the disk that is left, with or without a
  -- checkpoint that was due, gives that state back, and the new state can be recovered again.
  pub add_batch-Acknowledged :
      (d : DurableShard S) (global_ids : List ℕ) (vectors : Matrix) (payloads : Option (List Text))
      (seq : Option ℕ) (bytes : List ℕ)
      → IsRecoverable o laws d
      → IsWritable global_ids vectors payloads
      → in_order seq (d.last_seq + 1) ≡ true
      → encode_record (d.last_seq + 1) global_ids vectors payloads ≡ ok bytes
      → (o.add_batch d.shard global_ids vectors payloads).1 ≡ ok tt
      → Acknowledged d global_ids vectors payloads (add_batch o d global_ids vectors payloads seq)
  add_batch-Acknowledged d global_ids vectors payloads seq bytes inv w h k accepts =
      let d' = written o d global_ids vectors payloads bytes in
      subst (Acknowledged d global_ids vectors payloads)
        (sym (add_batch-at d global_ids vectors payloads seq bytes h k accepts))
        (after_write-Acknowledged d d' global_ids vectors payloads (is_due o d') refl refl
          (written-IsRecoverable o laws d global_ids vectors payloads bytes inv w k accepts))
