-- ===== src/Storage/Durable/Writes.antt =====
-- A write keeps the log and the shard together, and so does a checkpoint.
use distributed_vector_searc.Prelude.{
  All-imp, ◌<◌, ℕ, ◌+◌, ◌≡◌, refl, ap, sym, ◌∙◌, List, [], ◌∷◌, ◌++◌, Option, none, some, arith, ok,
  length, replicate, subst, leb, ◌==◌, true, false, ◌≤◌, All,
}
use distributed_vector_searc.Python.Text.{Text}
use distributed_vector_searc.Storage.Record.{Matrix, LogRecord, encode_record}
use distributed_vector_searc.Storage.Record.RoundTrip.{IsWritable}
use distributed_vector_searc.Storage.Record.Payloads.{logged_payloads}
use distributed_vector_searc.Storage.Durable.Encodable.{encode_record-CanEncode}
use distributed_vector_searc.Storage.Log.{Entry, entry_record, log_records}
use distributed_vector_searc.Storage.Durable.{
  ShardOps, ShardLaws, DurableShard, Replay, replay, replay_record, applied, load_base, snapshotted,
  checkpoint,
}
use distributed_vector_searc.Storage.Durable.Replaying.{
  Ascending, Ascending-snoc, replay-covers, replay_covered, replay-snoc, log_bytes-snoc,
  log_records-snoc,
}
use distributed_vector_searc.Storage.Durable.Recovery.{start, IsRecoverable}

-- The state after a write that the shard accepts.
abbrev pub written :
    {S : Type 0}
    → ShardOps S
    → DurableShard S
    → List ℕ
    → Matrix
    → Option (List Text)
    → List ℕ
    → DurableShard S
written o d global_ids vectors payloads bytes = record d {
  disk = record { snapshot = d.disk.snapshot; wal = d.disk.wal ++ bytes };
  shard = (o.add_batch d.shard global_ids vectors payloads).0;
  last_seq = d.last_seq + 1;
  vectors_since_snapshot = d.vectors_since_snapshot + length global_ids;
}

module _ {S : Type 0} (o : ShardOps S) (laws : ShardLaws o) where
  open laws use {
    IsStorable, restore, add_storable, same_storable, load_save, restore_twice, add_shard,
    add_result, add_blank,
  }

  restored-IsStorable : (s : S) → IsStorable s → IsStorable (restore s)
  restored-IsStorable s h = same_storable s (restore s) (sym (restore_twice s)) h

  -- After a checkpoint every durable shard whose shard can be saved can be recovered from its snapshot
  -- and its empty log, whatever its disk held before.
  pub checkpoint-IsRecoverable :
      (d : DurableShard S) → IsStorable d.shard → IsRecoverable o laws (checkpoint o d)
  unfolding checkpoint snapshotted load_base replay
  checkpoint-IsRecoverable d storable = record {
    entries = [];
    wal = refl;
    base = restore d.shard;
    base_loads = load_save d.shard d.last_seq storable;
    end = start (restore d.shard) d.last_seq;
    replayed = refl;
    same_seq = refl;
    same_shard = restore_twice d.shard;
    storable = storable;
    base_storable = restored-IsStorable d.shard storable;
    ascending = tt;
  }

  -- Between the new snapshot and the emptying of the log, the old records are all covered.
  pub snapshotted-IsRecoverable :
      (d : DurableShard S)
      → IsRecoverable o laws d
      → IsRecoverable o laws (record d { disk = snapshotted o d; snapshot_seq = d.last_seq })
  unfolding snapshotted load_base
  snapshotted-IsRecoverable d inv =
      let base = start (restore d.shard) d.last_seq in
      let covers =
        replay-covers o (log_records inv.entries) (start inv.base d.snapshot_seq) inv.end
          inv.replayed in
      record {
        entries = inv.entries;
        wal = inv.wal;
        base = restore d.shard;
        base_loads = load_save d.shard d.last_seq inv.storable;
        end = base;
        replayed =
            replay_covered o (log_records inv.entries) base
              (subst (λ n. All (λ r. r.seq ≤ n) (log_records inv.entries)) inv.same_seq covers.1);
        same_seq = refl;
        same_shard = restore_twice d.shard;
        storable = inv.storable;
        base_storable = restored-IsStorable d.shard inv.storable;
        ascending = inv.ascending;
      }

  -- The log keeps a payload for each vector, which is as good as what was given.
  pub add_batch-logged :
      (s : S) (global_ids : List ℕ) (vectors : Matrix) (payloads : Option (List Text))
      → IsWritable global_ids vectors payloads
      → o.add_batch s global_ids vectors (some (logged_payloads payloads (length vectors.rows)))
        ≡ o.add_batch s global_ids vectors payloads
  add_batch-logged s global_ids vectors none w =
      ap (λ n. o.add_batch s global_ids vectors (some (replicate n []))) (sym w.counted)
      ∙ sym (add_blank s global_ids vectors)
  add_batch-logged s global_ids vectors (some payloads) w = refl

  applied-ok :
      (q : Replay S) (r : LogRecord)
      → (o.add_batch q.shard r.global_ids r.vectors (some r.payloads)).1 ≡ ok tt
      → r.seq ≡ q.last_seq + 1
      → replay_record o q r
        ≡ ok (record {
          shard = (o.add_batch q.shard r.global_ids r.vectors (some r.payloads)).0;
          last_seq = r.seq;
          replayed_records = q.replayed_records + 1;
          vectors_since_snapshot = q.vectors_since_snapshot + length r.global_ids;
        })
  unfolding replay_record applied
  applied-ok q r h k =
      rw (later r.seq q.last_seq k, replay_record)
        (rw (next r.seq q.last_seq k) (rw (h, applied) refl))
    where
      later : (m n : ℕ) → m ≡ n + 1 → leb m n ≡ false
      later m n h = ground arith

      next : (m n : ℕ) → m ≡ n + 1 → (m == n + 1) ≡ true
      next m n h = ground arith

  pub written-IsRecoverable :
      (d : DurableShard S) (global_ids : List ℕ) (vectors : Matrix) (payloads : Option (List Text))
      (bytes : List ℕ)
      → IsRecoverable o laws d
      → IsWritable global_ids vectors payloads
      → encode_record (d.last_seq + 1) global_ids vectors payloads ≡ ok bytes
      → (o.add_batch d.shard global_ids vectors payloads).1 ≡ ok tt
      → IsRecoverable o laws (written o d global_ids vectors payloads bytes)
  written-IsRecoverable d global_ids vectors payloads bytes inv w enc accepts =
      let e : Entry = record {
        seq = d.last_seq + 1;
        global_ids = global_ids;
        vectors = vectors;
        payloads = payloads;
        bytes = bytes;
        writable = w;
        encoded = enc;
      } in
      let after = o.add_batch inv.end.shard global_ids vectors payloads in
      let covers =
        replay-covers o (log_records inv.entries) (start inv.base d.snapshot_seq) inv.end
          inv.replayed in
      let accepted : after.1 ≡ ok tt =
        add_result inv.end.shard d.shard global_ids vectors payloads inv.same_shard ∙ accepts in
      let same = add_batch-logged inv.end.shard global_ids vectors payloads w in
      let next =
        applied-ok inv.end (entry_record e) (ap (λ x. x.1) same ∙ accepted)
          (ap (λ n. n + 1) (sym inv.same_seq)) in
      record {
        entries = inv.entries ++ e ∷ [];
        wal = ap (λ b. b ++ bytes) inv.wal ∙ sym (log_bytes-snoc inv.entries e);
        base = inv.base;
        base_loads = inv.base_loads;
        end = record {
          shard =
              (o.add_batch inv.end.shard global_ids vectors
                (some (logged_payloads payloads (length vectors.rows)))).0;
          last_seq = d.last_seq + 1;
          replayed_records = inv.end.replayed_records + 1;
          vectors_since_snapshot = inv.end.vectors_since_snapshot + length global_ids;
        };
        replayed =
            ap (λ rs. replay o rs (start inv.base d.snapshot_seq)) (log_records-snoc inv.entries e)
            ∙ replay-snoc o (log_records inv.entries) (entry_record e)
                (start inv.base d.snapshot_seq) inv.end _ inv.replayed next;
        same_seq = refl;
        same_shard =
            ap (λ x. restore x.0) same
            ∙ add_shard inv.end.shard d.shard global_ids vectors payloads inv.same_shard;
        storable =
            add_storable d.shard global_ids vectors payloads inv.storable
              (encode_record-CanEncode (d.last_seq + 1) global_ids vectors payloads bytes enc);
        base_storable = inv.base_storable;
        ascending = subst Ascending (sym (log_records-snoc inv.entries e)) (
            Ascending-snoc (log_records inv.entries) (entry_record e) inv.ascending (
              All-imp (λ r. r.seq ≤ inv.end.last_seq) (λ r. r.seq < d.last_seq + 1)
                (log_records inv.entries) (λ r h. omega (arith, h, inv.same_seq)) covers.1));
      }
