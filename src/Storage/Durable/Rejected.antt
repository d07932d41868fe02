-- ===== src/Storage/Durable/Rejected.antt =====
-- A write that the shard does not accept, after it has been logged.
use distributed_vector_searc.Prelude.{
  ℕ, ◌+◌, ◌≡◌, refl, ap, sym, ◌∙◌, List, [], ◌∷◌, ◌++◌, Option, some, arith, Error, ok, err, length,
  append-nil, leb, ◌==◌, true, false,
}
use distributed_vector_searc.Python.Text.{Text}
use distributed_vector_searc.Storage.Record.{Matrix, LogRecord, encode_record, read_records}
use distributed_vector_searc.Storage.Record.RoundTrip.{IsWritable}
use distributed_vector_searc.Storage.Log.{
  Entry, entry_record, log_bytes, log_records, read_records_lem,
}
use distributed_vector_searc.Storage.Durable.{
  ShardOps, ShardLaws, Disk, DurableShard, Replay, replay, replay_record, applied, load_base,
  open_shard, apply_logged, after_write, in_order, add_batch,
}
use distributed_vector_searc.Storage.Durable.Replaying.{
  replay-snoc, log_bytes-snoc, log_records-snoc,
}
use distributed_vector_searc.Storage.Durable.Recovery.{start, IsRecoverable, empty-EndsLog}
use distributed_vector_searc.Storage.Durable.Writes.{add_batch-logged}

module _ {S : Type 0} (o : ShardOps S) (laws : ShardLaws o) where
  open laws use {add_result}

  applied-err :
      (q : Replay S) (r : LogRecord) (e : Error)
      → (o.add_batch q.shard r.global_ids r.vectors (some r.payloads)).1 ≡ err e
      → r.seq ≡ q.last_seq + 1
      → replay_record o q r ≡ err e
  unfolding replay_record applied
  applied-err q r e h k =
      rw (later r.seq q.last_seq k, replay_record)
        (rw (next r.seq q.last_seq k) (rw (h, applied) refl))
    where
      later : (m n : ℕ) → m ≡ n + 1 → leb m n ≡ false
      later m n h = ground arith

      next : (m n : ℕ) → m ≡ n + 1 → (m == n + 1) ≡ true
      next m n h = ground arith

  open_shard-err :
      (every : ℕ) (disk : Disk) (base : S) (base_seq : ℕ) (records : List LogRecord) (intact : ℕ)
      (e : Error)
      → load_base o disk.snapshot ≡ ok (base, base_seq)
      → read_records disk.wal ≡ ok (records, intact)
      → replay o records (start base base_seq) ≡ err e
      → open_shard o every disk ≡ err e
  unfolding open_shard
  open_shard-err every disk base base_seq records intact e h k l =
      rw (h, open_shard) (rw k (rw l refl))

  logged-poisons :
      (d : DurableShard S) (every : ℕ) (r : Entry) (e : Error)
      → IsRecoverable o laws d
      → r.seq ≡ d.last_seq + 1
      → (o.add_batch d.shard r.global_ids r.vectors r.payloads).1 ≡ err e
      → open_shard o every (record { snapshot = d.disk.snapshot; wal = d.disk.wal ++ r.bytes })
        ≡ err e
  logged-poisons d every r e inv h rejects =
      let disk : Disk = record { snapshot = d.disk.snapshot; wal = d.disk.wal ++ r.bytes } in
      let entries = inv.entries ++ r ∷ [] in
      let whole : disk.wal ≡ log_bytes entries ++ [] =
        ap (λ b. b ++ r.bytes) inv.wal
        ∙ sym (log_bytes-snoc inv.entries r)
        ∙ sym (append-nil (log_bytes entries)) in
      let rejected =
        ap (λ x. x.1)
          (add_batch-logged o laws inv.end.shard r.global_ids r.vectors r.payloads r.writable)
        ∙ add_result inv.end.shard d.shard r.global_ids r.vectors r.payloads inv.same_shard
        ∙ rejects in
      open_shard-err every disk inv.base d.snapshot_seq (log_records entries)
        (length (log_bytes entries)) e inv.base_loads
        (ap read_records whole ∙ read_records_lem entries [] empty-EndsLog)
        (ap (λ rs. replay o rs (start inv.base d.snapshot_seq)) (log_records-snoc inv.entries r)
          ∙ replay-snoc o (log_records inv.entries) (entry_record r) (start inv.base d.snapshot_seq)
              inv.end (err e) inv.replayed
              (applied-err inv.end (entry_record r) e rejected
                (h ∙ ap (λ n. n + 1) (sym inv.same_seq))))

  pub add_batch-err :
      (d : DurableShard S) (global_ids : List ℕ) (vectors : Matrix) (payloads : Option (List Text))
      (seq : Option ℕ) (bytes : List ℕ) (e : Error)
      → in_order seq (d.last_seq + 1) ≡ true
      → encode_record (d.last_seq + 1) global_ids vectors payloads ≡ ok bytes
      → (o.add_batch d.shard global_ids vectors payloads).1 ≡ err e
      → add_batch o d global_ids vectors payloads seq ≡ (
        record d {
          disk = record { snapshot = d.disk.snapshot; wal = d.disk.wal ++ bytes };
          shard = (o.add_batch d.shard global_ids vectors payloads).0;
        },
        err e,
      )
  unfolding add_batch apply_logged after_write
  add_batch-err d global_ids vectors payloads seq bytes e h k rejects =
      rw (h, add_batch) (rw k (rw (rejects, apply_logged) refl))

  -- If a durable shard can be recovered, and a batch in order fits and is encoded as a record but
  -- the shard's own add_batch raises an error for it, then the write raises that error, and opening
  -- the disk that it leaves raises the same error again, with any snapshot interval.
  pub add_batch-rejected :
      (d : DurableShard S) (global_ids : List ℕ) (vectors : Matrix) (payloads : Option (List Text))
      (seq : Option ℕ) (bytes : List ℕ) (e : Error) (every : ℕ)
      → IsRecoverable o laws d
      → IsWritable global_ids vectors payloads
      → in_order seq (d.last_seq + 1) ≡ true
      → encode_record (d.last_seq + 1) global_ids vectors payloads ≡ ok bytes
      → (o.add_batch d.shard global_ids vectors payloads).1 ≡ err e
      → ((add_batch o d global_ids vectors payloads seq).1 ≡ err e)
        × (open_shard o every (add_batch o d global_ids vectors payloads seq).0.disk ≡ err e)
  add_batch-rejected d global_ids vectors payloads seq bytes e every inv w h k rejects =
      let same = add_batch-err d global_ids vectors payloads seq bytes e h k rejects in
      let r : Entry = record {
        seq = d.last_seq + 1;
        global_ids = global_ids;
        vectors = vectors;
        payloads = payloads;
        bytes = bytes;
        writable = w;
        encoded = k;
      } in
      (
        ap (λ x. x.1) same,
        ap (λ x. open_shard o every x.0.disk) same ∙ logged-poisons d every r e inv refl rejects,
      )
