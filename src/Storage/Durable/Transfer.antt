-- ===== src/Storage/Durable/Transfer.antt =====
-- What one replica hands to another: a snapshot, or the records of its log.
use distributed_vector_searc.Prelude.{
  ℕ, ◌≡◌, ◌≤◌, refl, ap, ◌∙◌, sym, [], ◌++◌, some, arith, Result, ok, keep, ltb, false, append-nil,
}
use distributed_vector_searc.Storage.Record.{read_records}
use distributed_vector_searc.Storage.Log.{log_bytes, log_records, read_records_lem}
use distributed_vector_searc.Storage.Durable.{
  ShardOps, ShardLaws, DurableShard, load_base, replay, records_after, install_snapshot,
}
use distributed_vector_searc.Storage.Durable.Recovery.{start, IsRecoverable, empty-EndsLog}

module _ {S : Type 0} (o : ShardOps S) (laws : ShardLaws o) where
  open laws use {IsStorable, restore, restore_twice, same_storable, load_save}

  -- The state of a shard and its sequence number, taken over from a snapshot of them.
  pub record Installed (s : S) (seq : ℕ) (result : DurableShard S × Result (Unit {0}))
      : Type 0 where
    pub returns : result.1 ≡ ok tt
    pub same_shard : result.0.shard ≡ restore s
    pub same_seq : result.0.last_seq ≡ seq
    pub covered : result.0.snapshot_seq ≡ seq
    pub recoverable : IsRecoverable o laws result.0

  -- Installing the snapshot of a shard that can be saved and a sequence number in any durable shard
  -- returns without error, leaves that shard, up to what a snapshot forgets, and that sequence
  -- number, and the new state can be recovered from the disk.
  pub install_snapshot-Installed :
      (d : DurableShard S) (s : S) (seq : ℕ)
      → IsStorable s
      → Installed s seq (install_snapshot o d (o.save_snapshot s seq))
  unfolding install_snapshot load_base replay
  install_snapshot-Installed d s seq storable =
      rw (load_save s seq storable, install_snapshot)
        (record {
          returns = refl;
          same_shard = refl;
          same_seq = refl;
          covered = refl;
          recoverable = record {
            entries = [];
            wal = refl;
            base = restore s;
            base_loads = load_save s seq storable;
            end = start (restore s) seq;
            replayed = refl;
            same_seq = refl;
            same_shard = refl;
            storable = same_storable s (restore s) (sym (restore_twice s)) storable;
            base_storable = same_storable s (restore s) (sym (restore_twice s)) storable;
            ascending = tt;
          };
        })

  -- If a durable shard can be recovered, then asking it for the records after a sequence number
  -- that its snapshot does not go beyond returns, without error, exactly the records of its log
  -- with a larger sequence number, in order.
  pub records_after_lem :
      (d : DurableShard S) (after_seq : ℕ) (inv : IsRecoverable o laws d)
      → d.snapshot_seq ≤ after_seq
      → records_after o d after_seq
        ≡ ok (some (keep (λ r. ltb after_seq r.seq) (log_records inv.entries)))
  unfolding records_after
  records_after_lem d after_seq inv h =
      let whole : d.disk.wal ≡ log_bytes inv.entries ++ [] =
        inv.wal ∙ sym (append-nil (log_bytes inv.entries)) in
      let reads = ap read_records whole ∙ read_records_lem inv.entries [] empty-EndsLog in
      rw (room _ _ h, records_after) (rw reads refl)
    where
      room : (m n : ℕ) → m ≤ n → ltb n m ≡ false
      room m n h = ground arith
