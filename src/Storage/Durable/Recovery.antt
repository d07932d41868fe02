-- ===== src/Storage/Durable/Recovery.antt =====
-- A durable shard recovers from its disk what it has acknowledged.
use distributed_vector_searc.Prelude.{
  ℕ, ◌≡◌, refl, ap, sym, ◌∙◌, List, [], ◌++◌, ok, length, take, take-append,
}
use distributed_vector_searc.Storage.Record.{LogRecord, read_records, read_record}
use distributed_vector_searc.Storage.Log.{Entry, log_bytes, log_records, EndsLog, read_records_lem}
use distributed_vector_searc.Storage.Durable.{
  ShardOps, ShardLaws, Disk, DurableShard, Replay, replay, load_base, open_shard,
}
use distributed_vector_searc.Storage.Durable.Replaying.{Ascending}

-- The replay loop at its start.
abbrev pub start : {S : Type 0} → S → ℕ → Replay S
start base seq = record {
  shard = base;
  last_seq = seq;
  replayed_records = 0;
  vectors_since_snapshot = 0;
}

abbrev pub recovered : {S : Type 0} → ℕ → Disk → ℕ → ℕ → Replay S → DurableShard S
recovered every disk base_seq intact end = record {
  disk = record { snapshot = disk.snapshot; wal = take intact disk.wal };
  shard = end.shard;
  last_seq = end.last_seq;
  snapshot_seq = base_seq;
  snapshot_every = every;
  vectors_since_snapshot = end.vectors_since_snapshot;
  replayed_records = end.replayed_records;
}

pub empty-EndsLog : EndsLog []
unfolding read_record
empty-EndsLog = refl

module _ {S : Type 0} (o : ShardOps S) (laws : ShardLaws o) where
  open laws use {restore, IsStorable, same_storable}

  -- The log is a run of whole records, and replaying them over the snapshot gives the shard.
  pub record IsRecoverable (d : DurableShard S) : Type 0 where
    pub entries : List Entry
    pub wal : d.disk.wal ≡ log_bytes entries
    pub base : S
    pub base_loads : load_base o d.disk.snapshot ≡ ok (base, d.snapshot_seq)
    pub end : Replay S
    pub replayed : replay o (log_records entries) (start base d.snapshot_seq) ≡ ok end
    pub same_seq : end.last_seq ≡ d.last_seq
    pub same_shard : restore end.shard ≡ restore d.shard
    pub storable : IsStorable d.shard
    pub base_storable : IsStorable base
    pub ascending : Ascending (log_records entries)

  -- Opening the disk gives the state of `d` again, and one that can be recovered in turn.
  pub record Recovers (disk : Disk) (d : DurableShard S) : Type 0 where
    pub opened : DurableShard S
    pub opens : open_shard o d.snapshot_every disk ≡ ok opened
    pub opened_seq : opened.last_seq ≡ d.last_seq
    pub opened_shard : restore opened.shard ≡ restore d.shard
    pub again : IsRecoverable opened

  pub open_shard-at :
      (every : ℕ) (disk : Disk) (base : S) (base_seq : ℕ) (records : List LogRecord) (intact : ℕ)
      (end : Replay S)
      → load_base o disk.snapshot ≡ ok (base, base_seq)
      → read_records disk.wal ≡ ok (records, intact)
      → replay o records (start base base_seq) ≡ ok end
      → open_shard o every disk ≡ ok (recovered every disk base_seq intact end)
  unfolding open_shard
  open_shard-at every disk base base_seq records intact end h k l =
      rw (h, open_shard) (rw k (rw l refl))

  -- If a durable shard can be recovered, then opening its snapshot with its log and any bytes after
  -- it in which no record is found succeeds with the shard's own sequence number and, up to what a
  -- snapshot forgets, its state; and what was opened can be recovered again.
  pub open_shard-Recovers :
      (d : DurableShard S) (tail : List ℕ)
      → IsRecoverable d
      → EndsLog tail
      → Recovers (record { snapshot = d.disk.snapshot; wal = d.disk.wal ++ tail }) d
  open_shard-Recovers d tail inv h =
      let disk : Disk = record { snapshot = d.disk.snapshot; wal = d.disk.wal ++ tail } in
      let whole = ap (λ b. b ++ tail) inv.wal in
      let size = length (log_bytes inv.entries) in
      let reads : read_records disk.wal ≡ ok (log_records inv.entries, size) =
        ap read_records whole ∙ read_records_lem inv.entries tail h in
      record {
        opened = recovered d.snapshot_every disk d.snapshot_seq size inv.end;
        opens =
            open_shard-at d.snapshot_every disk inv.base d.snapshot_seq (log_records inv.entries)
              size inv.end inv.base_loads reads inv.replayed;
        opened_seq = inv.same_seq;
        opened_shard = inv.same_shard;
        again = record {
          entries = inv.entries;
          wal = ap (take size) whole ∙ take-append (log_bytes inv.entries) tail;
          base = inv.base;
          base_loads = inv.base_loads;
          end = inv.end;
          replayed = inv.replayed;
          same_seq = refl;
          same_shard = refl;
          storable = same_storable d.shard inv.end.shard (sym inv.same_shard) inv.storable;
          base_storable = inv.base_storable;
          ascending = inv.ascending;
        };
      }
