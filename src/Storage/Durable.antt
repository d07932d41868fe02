-- ===== src/Storage/Durable.antt =====
-- `DurableShard` of vsearch/storage.py over an interface for the shard that it keeps.
-- A disk is the snapshot file, if there is one, and the log file. The temporary file that a snapshot
-- is written to first is not part of it: `os.replace` puts the finished file in place in one step.
pub mod Encodable
pub mod Replaying
pub mod Recovery
pub mod Writes
pub mod Crash
pub mod Rejected
pub mod Transfer
pub mod Runs
use distributed_vector_searc.Prelude.{
  ℕ, zero, suc, ◌+◌, ◌≡◌, Bool, true, false, ◌&&◌, not, List, [], ◌∷◌, ◌++◌, Option, none, some,
  Result, Error, ok, err, ◌>>=◌, leb, ltb, ◌==◌, if◌then◌else◌, length, take, replicate, keep, All,
}
use distributed_vector_searc.Python.Text.{Text}
use distributed_vector_searc.Python.Utf8.{encode}
use distributed_vector_searc.Storage.Record.{Matrix, LogRecord, encode_record, read_records}

-- What `DurableShard` uses of a shard: `Shard()`, `add_batch`, which may raise part way through, and
-- the contents of a snapshot file, written and loaded.
pub record ShardOps (S : Type 0) : Type 0 where
  pub new : S
  pub add_batch : S → List ℕ → Matrix → Option (List Text) → S × Result (Unit {0})
  pub save_snapshot : S → ℕ → List ℕ
  pub load_snapshot : List ℕ → Result (S × ℕ)

-- Payloads without a surrogate.
abbrev pub CanEncode : Option (List Text) → Type 0
CanEncode none = Unit
CanEncode (some texts) = All (λ text. (bytes : List ℕ) × (encode text ≡ ok bytes)) texts

-- What it relies on. A shard that can be saved stays one in a write of payloads that can be encoded. A loaded
-- shard need not be the saved one, but it is as good: `restore` forgets what a snapshot does not keep, and
-- writes do not depend on that.
pub record ShardLaws {S : Type 0} (o : ShardOps S) : Type 1 where
  pub IsStorable : S → Type 0
  pub restore : S → S
  pub new_storable : IsStorable o.new
  pub same_storable : (s t : S) → restore s ≡ restore t → IsStorable s → IsStorable t
  pub add_storable :
      (s : S) (ids : List ℕ) (vectors : Matrix) (payloads : Option (List Text))
      → IsStorable s
      → CanEncode payloads
      → IsStorable (o.add_batch s ids vectors payloads).0
  pub load_save :
      (s : S) (seq : ℕ)
      → IsStorable s
      → o.load_snapshot (o.save_snapshot s seq) ≡ ok (restore s, seq)
  pub restore_twice : (s : S) → restore (restore s) ≡ restore s
  pub add_shard :
      (s t : S) (ids : List ℕ) (vectors : Matrix) (payloads : Option (List Text))
      → restore s ≡ restore t
      → restore (o.add_batch s ids vectors payloads).0
        ≡ restore (o.add_batch t ids vectors payloads).0
  pub add_result :
      (s t : S) (ids : List ℕ) (vectors : Matrix) (payloads : Option (List Text))
      → restore s ≡ restore t
      → (o.add_batch s ids vectors payloads).1 ≡ (o.add_batch t ids vectors payloads).1
  pub add_blank :
      (s : S) (ids : List ℕ) (vectors : Matrix)
      → o.add_batch s ids vectors none
        ≡ o.add_batch s ids vectors (some (replicate (length ids) []))
  pub add_empty :
      (s : S) (ids : List ℕ) (vectors : Matrix)
      → o.add_batch s ids vectors (some []) ≡ o.add_batch s ids vectors none

pub record Disk : Type 0 where
  pub snapshot : Option (List ℕ)
  pub wal : List ℕ

pub record DurableShard (S : Type 0) : Type 0 where
  pub disk : Disk
  pub shard : S
  pub last_seq : ℕ
  pub snapshot_seq : ℕ
  pub snapshot_every : ℕ
  pub vectors_since_snapshot : ℕ
  pub replayed_records : ℕ

-- The variables of the replay loop.
pub record Replay (S : Type 0) : Type 0 where
  pub shard : S
  pub last_seq : ℕ
  pub replayed_records : ℕ
  pub vectors_since_snapshot : ℕ

-- The test of the sequence number that a caller may give.
abbrev pub in_order : Option ℕ → ℕ → Bool
in_order none expected = true
in_order (some seq) expected = seq == expected

module _ {S : Type 0} (o : ShardOps S) where
  open o use {new, save_snapshot, load_snapshot}

  -- One record beyond what is already there.
  unfoldable pub applied : Replay S → LogRecord → Result (Replay S)
  applied p r =
      let (shard', result) = o.add_batch p.shard r.global_ids r.vectors (some r.payloads) in
      elim result [
        | ok _ ↦ ok (record {
          shard = shard';
          last_seq = r.seq;
          replayed_records = p.replayed_records + 1;
          vectors_since_snapshot = p.vectors_since_snapshot + length r.global_ids;
        })
        | err e ↦ err e
      ]

  unfoldable pub replay_record : Replay S → LogRecord → Result (Replay S)
  unfolding applied
  replay_record p r =
      if leb r.seq p.last_seq
      then ok p
      else if r.seq == p.last_seq + 1
      then applied p r
      else err Error.runtime_error

  unfoldable pub replay : List LogRecord → Replay S → Result (Replay S)
  unfolding replay_record
  replay [] p = ok p
  replay (r ∷ records) p = do next ← replay_record p r; replay records next

  unfoldable pub load_base : Option (List ℕ) → Result (S × ℕ)
  load_base none = ok (new, 0)
  load_base (some bytes) = load_snapshot bytes

  -- `DurableShard(data_dir)`: the constructor. `WriteAheadLog` cuts a torn tail off the log.
  unfoldable pub open_shard : ℕ → Disk → Result (DurableShard S)
  unfolding load_base replay read_records
  open_shard snapshot_every disk = do
    (base, base_seq) ← load_base disk.snapshot
    (records, intact_bytes) ← read_records disk.wal
    recovered ← replay records (record {
      shard = base;
      last_seq = base_seq;
      replayed_records = 0;
      vectors_since_snapshot = 0;
    })
    ok (record {
      disk = record disk { wal = take intact_bytes disk.wal };
      shard = recovered.shard;
      last_seq = recovered.last_seq;
      snapshot_seq = base_seq;
      snapshot_every = snapshot_every;
      vectors_since_snapshot = recovered.vectors_since_snapshot;
      replayed_records = recovered.replayed_records;
    })

  -- The disk after `save_snapshot` and before `wal.reset()`.
  unfoldable pub snapshotted : DurableShard S → Disk
  snapshotted d = record (d.disk) { snapshot = some (save_snapshot d.shard d.last_seq) }

  unfoldable pub checkpoint : DurableShard S → DurableShard S
  unfolding snapshotted
  checkpoint d = record d {
    disk = record (snapshotted d) { wal = [] };
    snapshot_seq = d.last_seq;
    vectors_since_snapshot = 0;
  }

  -- `self.snapshot_every and self.vectors_since_snapshot >= self.snapshot_every`
  abbrev pub is_due : DurableShard S → Bool
  is_due d = ltb 0 d.snapshot_every && leb d.snapshot_every d.vectors_since_snapshot

  -- The state after the record is in the log and in memory, before a checkpoint that is due.
  unfoldable pub apply_logged :
      DurableShard S
      → List ℕ
      → Matrix
      → Option (List Text)
      → List ℕ
      → DurableShard S × Result (Unit {0})
  apply_logged d global_ids vectors payloads bytes =
      let disk' : Disk = record { snapshot = d.disk.snapshot; wal = d.disk.wal ++ bytes } in
      let (shard', result) = o.add_batch d.shard global_ids vectors payloads in
      elim result [
        | err e ↦ (record d { disk = disk'; shard = shard' }, err e)
        | ok _ ↦ (
          record d {
            disk = disk';
            shard = shard';
            last_seq = d.last_seq + 1;
            vectors_since_snapshot = d.vectors_since_snapshot + length global_ids;
          },
          ok tt,
        )
      ]

  unfoldable pub after_write :
      DurableShard S × Result (Unit {0}) → DurableShard S × Result (Unit {0})
  unfolding checkpoint
  after_write (d, ok _) = (if is_due d then checkpoint d else d, ok tt)
  after_write (d, err e) = (d, err e)

  unfoldable pub add_batch :
      DurableShard S
      → List ℕ
      → Matrix
      → Option (List Text)
      → Option ℕ
      → DurableShard S × Result (Unit {0})
  unfolding encode_record apply_logged after_write
  add_batch d global_ids vectors payloads seq =
      if in_order seq (d.last_seq + 1)
      then (elim (encode_record (d.last_seq + 1) global_ids vectors payloads) [
        | err e ↦ (d, err e)
        | ok bytes ↦ after_write (apply_logged d global_ids vectors payloads bytes)
      ])
      else (d, err Error.out_of_order)

  -- `none` when the log no longer holds all of the records asked for.
  unfoldable pub records_after : DurableShard S → ℕ → Result (Option (List LogRecord))
  unfolding read_records
  records_after d after_seq = if ltb after_seq d.snapshot_seq then ok none else do
    (records, end) ← read_records d.disk.wal
    ok (some (keep (λ r. ltb after_seq r.seq) records))

  -- The snapshot file and the seq that it covers; a checkpoint first if there is none.
  unfoldable pub snapshot_bytes : DurableShard S → DurableShard S × List ℕ × ℕ
  unfolding checkpoint
  snapshot_bytes d = elim d.disk.snapshot [
    | some bytes ↦ (d, bytes, d.snapshot_seq)
    | none ↦ let d' = checkpoint d in (d', save_snapshot d.shard d.last_seq, d'.snapshot_seq)
  ]

  -- The file is in place and the log empty before the new state is loaded from it.
  unfoldable pub install_snapshot : DurableShard S → List ℕ → DurableShard S × Result (Unit {0})
  install_snapshot d bytes =
      let disk' : Disk = record { snapshot = some bytes; wal = [] } in
      elim (load_snapshot bytes) [
        | err e ↦ (record d { disk = disk' }, err e)
        | ok (shard', seq) ↦ (
          record d {
            disk = disk';
            shard = shard';
            last_seq = seq;
            snapshot_seq = seq;
            vectors_since_snapshot = 0;
          },
          ok tt,
        )
      ]
