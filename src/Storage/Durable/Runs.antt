-- ===== src/Storage/Durable/Runs.antt =====
-- The life of a durable shard of vsearch/storage.py: writes, checkpoints, snapshots that replicas hand on, restarts
-- and crashes.
use distributed_vector_searc.Prelude.{
  ℕ, ◌+◌, ◌≡◌, refl, ap, sym, subst, List, [], Option, none, some, Error, ok, err, Bool-cases, inl,
  inr, Result-cases, true, false,
}
use distributed_vector_searc.Python.Text.{Text}
use distributed_vector_searc.Storage.Record.{Matrix, encode_record}
use distributed_vector_searc.Storage.Record.RoundTrip.{IsWritable}
use distributed_vector_searc.Storage.Log.{read_records_lem}
use distributed_vector_searc.Storage.Durable.{
  ShardOps, ShardLaws, Disk, DurableShard, replay, load_base, open_shard, checkpoint, add_batch,
  snapshot_bytes, install_snapshot, in_order,
}
use distributed_vector_searc.Storage.Durable.Recovery.{
  IsRecoverable, Recovers, start, recovered, open_shard-at, empty-EndsLog,
}
use distributed_vector_searc.Storage.Durable.Writes.{written, checkpoint-IsRecoverable}
use distributed_vector_searc.Storage.Durable.Rejected.{add_batch-err}
use distributed_vector_searc.Storage.Durable.Crash.{
  CrashDisk, IsRecoverable-Recovers, add_batch-atomic, add_batch-Acknowledged,
}

-- The states of durable shards that start in empty directories. A write is one that returned; a crash is one
-- during a write that the shard would have accepted.
pub data Reachable {S : Type 0} (o : ShardOps S) : DurableShard S → Type 0 where
  created :
      (every : ℕ) (d : DurableShard S)
      → open_shard o every (record { snapshot = none; wal = [] }) ≡ ok d
      → Reachable o d
  wrote :
      (d d' : DurableShard S) (global_ids : List ℕ) (vectors : Matrix)
      (payloads : Option (List Text)) (seq : Option ℕ)
      → Reachable o d
      → IsWritable global_ids vectors payloads
      → add_batch o d global_ids vectors payloads seq ≡ (d', ok tt)
      → Reachable o d'
  took_checkpoint : (d : DurableShard S) → Reachable o d → Reachable o (checkpoint o d)
  gave_snapshot : (d : DurableShard S) → Reachable o d → Reachable o (snapshot_bytes o d).0
  took_snapshot :
      (d peer d' : DurableShard S)
      → Reachable o d
      → Reachable o peer
      → install_snapshot o d (snapshot_bytes o peer).1 ≡ (d', ok tt)
      → Reachable o d'
  restarted :
      (d d' : DurableShard S)
      → Reachable o d
      → open_shard o d.snapshot_every d.disk ≡ ok d'
      → Reachable o d'
  crashed :
      (d d' : DurableShard S) (global_ids : List ℕ) (vectors : Matrix)
      (payloads : Option (List Text)) (bytes : List ℕ) (disk : Disk)
      → Reachable o d
      → IsWritable global_ids vectors payloads
      → encode_record (d.last_seq + 1) global_ids vectors payloads ≡ ok bytes
      → (o.add_batch d.shard global_ids vectors payloads).1 ≡ ok tt
      → CrashDisk o d (written o d global_ids vectors payloads bytes) bytes disk
      → open_shard o d.snapshot_every disk ≡ ok d'
      → Reachable o d'

module _ {S : Type 0} (o : ShardOps S) (laws : ShardLaws o) where
  open laws use {IsStorable, restore, restore_twice, new_storable, same_storable, load_save}

  created-IsRecoverable :
      (every : ℕ) (d : DurableShard S)
      → open_shard o every (record { snapshot = none; wal = [] }) ≡ ok d
      → IsRecoverable o laws d
  unfolding load_base replay
  created-IsRecoverable every d e =
      let empty : Disk = record { snapshot = none; wal = [] } in
      let found =
        open_shard-at o laws every empty o.new 0 [] 0 (start o.new 0) refl
          (read_records_lem [] [] empty-EndsLog) refl in
      let same : recovered every empty 0 0 (start o.new 0) ≡ d = cc in
      subst (IsRecoverable o laws) same (record {
        entries = [];
        wal = refl;
        base = o.new;
        base_loads = refl;
        end = start o.new 0;
        replayed = refl;
        same_seq = refl;
        same_shard = refl;
        storable = new_storable;
        base_storable = new_storable;
        ascending = tt;
      })

  opened-IsRecoverable :
      (disk : Disk) (d d' : DurableShard S)
      → Recovers o laws disk d
      → open_shard o d.snapshot_every disk ≡ ok d'
      → IsRecoverable o laws d'
  opened-IsRecoverable disk d d' r e =
      let opens = r.opens in
      let same : r.opened ≡ d' = cc in subst (IsRecoverable o laws) same r.again

  late-err :
      (d : DurableShard S) (global_ids : List ℕ) (vectors : Matrix) (payloads : Option (List Text))
      (seq : Option ℕ)
      → in_order seq (d.last_seq + 1) ≡ false
      → (add_batch o d global_ids vectors payloads seq).1 ≡ err Error.out_of_order
  unfolding add_batch
  late-err d global_ids vectors payloads seq h = rw (h, add_batch) refl

  unencoded-err :
      (d : DurableShard S) (global_ids : List ℕ) (vectors : Matrix) (payloads : Option (List Text))
      (seq : Option ℕ) (e : Error)
      → in_order seq (d.last_seq + 1) ≡ true
      → encode_record (d.last_seq + 1) global_ids vectors payloads ≡ err e
      → (add_batch o d global_ids vectors payloads seq).1 ≡ err e
  unfolding add_batch
  unencoded-err d global_ids vectors payloads seq e h k = rw (h, add_batch) (rw k refl)

  -- A write that returns has been logged and applied.
  wrote-IsRecoverable :
      (d d' : DurableShard S) (global_ids : List ℕ) (vectors : Matrix)
      (payloads : Option (List Text)) (seq : Option ℕ)
      → IsRecoverable o laws d
      → IsWritable global_ids vectors payloads
      → add_batch o d global_ids vectors payloads seq ≡ (d', ok tt)
      → IsRecoverable o laws d'
  wrote-IsRecoverable d d' global_ids vectors payloads seq inv w e =
      let returned = ap (λ x. x.1) e in
      elim (Bool-cases (in_order seq (d.last_seq + 1))) [
        | inr late ↦ let raised = late-err d global_ids vectors payloads seq late in cc
        | inl next ↦
            elim (Result-cases (encode_record (d.last_seq + 1) global_ids vectors payloads)) [
              | inl (f, failed) ↦
                  let raised = unencoded-err d global_ids vectors payloads seq f next failed in cc
              | inr (bytes, enc) ↦
                  elim (Result-cases (o.add_batch d.shard global_ids vectors payloads).1) [
                    | inl (f, rejects) ↦
                        let raised =
                          ap (λ x. x.1)
                            (add_batch-err o laws d global_ids vectors payloads seq bytes f next enc
                              rejects) in
                        cc
                    | inr (_, accepts) ↦
                        let done =
                          add_batch-Acknowledged o laws d global_ids vectors payloads seq bytes inv
                            w next enc accepts in
                        subst (IsRecoverable o laws) (ap (λ x. x.0) e) done.recoverable
                  ]
            ]
      ]

  snapshot_bytes-IsRecoverable :
      (d : DurableShard S) → IsRecoverable o laws d → IsRecoverable o laws (snapshot_bytes o d).0
  unfolding snapshot_bytes
  snapshot_bytes-IsRecoverable d inv = from d.disk.snapshot
    where
      from :
          (snapshot : Option (List ℕ))
          → IsRecoverable o laws (
              let given : DurableShard S × List ℕ × ℕ = elim snapshot [
                | some bytes ↦ (d, bytes, d.snapshot_seq)
                | none ↦
                    let d' = checkpoint o d in
                    (d', o.save_snapshot d.shard d.last_seq, d'.snapshot_seq)
              ] in
              given.0)
      from (some bytes) = inv
      from none = checkpoint-IsRecoverable o laws d inv.storable

  -- A snapshot that another shard gives is loaded as a shard that can be saved.
  pub record Loads (bytes : List ℕ) : Type 0 where
    pub shard : S
    pub seq : ℕ
    pub loads : o.load_snapshot bytes ≡ ok (shard, seq)
    pub storable : IsStorable shard

  snapshot_bytes-Loads :
      (d : DurableShard S) → IsRecoverable o laws d → Loads (snapshot_bytes o d).1
  unfolding snapshot_bytes load_base
  snapshot_bytes-Loads d inv = from d.disk.snapshot inv.base_loads
    where
      from :
          (snapshot : Option (List ℕ))
          → load_base o snapshot ≡ ok (inv.base, d.snapshot_seq)
          → Loads (
              let given : DurableShard S × List ℕ × ℕ = elim snapshot [
                | some bytes ↦ (d, bytes, d.snapshot_seq)
                | none ↦
                    let d' = checkpoint o d in
                    (d', o.save_snapshot d.shard d.last_seq, d'.snapshot_seq)
              ] in
              given.1)
      from (some bytes) e = record {
        shard = inv.base;
        seq = d.snapshot_seq;
        loads = e;
        storable = inv.base_storable;
      }
      from none e = record {
        shard = restore d.shard;
        seq = d.last_seq;
        loads = load_save d.shard d.last_seq inv.storable;
        storable =
            same_storable d.shard (restore d.shard) (sym (restore_twice d.shard)) inv.storable;
      }

  installed-IsRecoverable :
      (d : DurableShard S) (bytes : List ℕ)
      → Loads bytes
      → IsRecoverable o laws (install_snapshot o d bytes).0
  unfolding install_snapshot load_base replay
  installed-IsRecoverable d bytes l =
      rw (l.loads, install_snapshot)
        (record {
          entries = [];
          wal = refl;
          base = l.shard;
          base_loads = l.loads;
          end = start l.shard l.seq;
          replayed = refl;
          same_seq = refl;
          same_shard = refl;
          storable = l.storable;
          base_storable = l.storable;
          ascending = tt;
        })

  -- A durable shard that can be reached can be recovered.
  pub Reachable-IsRecoverable : {d : DurableShard S} → Reachable o d → IsRecoverable o laws d
  Reachable-IsRecoverable (created every d e) = created-IsRecoverable every d e
  Reachable-IsRecoverable (wrote d d' global_ids vectors payloads seq r w e) =
      wrote-IsRecoverable d d' global_ids vectors payloads seq (Reachable-IsRecoverable r) w e
  Reachable-IsRecoverable (took_checkpoint d r) =
      checkpoint-IsRecoverable o laws d (Reachable-IsRecoverable r).storable
  Reachable-IsRecoverable (gave_snapshot d r) =
      snapshot_bytes-IsRecoverable d (Reachable-IsRecoverable r)
  Reachable-IsRecoverable (took_snapshot d peer d' r p e) =
      subst (IsRecoverable o laws) (ap (λ x. x.0) e) (
        installed-IsRecoverable d (snapshot_bytes o peer).1
          (snapshot_bytes-Loads peer (Reachable-IsRecoverable p)))
  Reachable-IsRecoverable (restarted d d' r e) =
      opened-IsRecoverable d.disk d d' (IsRecoverable-Recovers o laws d (Reachable-IsRecoverable r))
        e
  Reachable-IsRecoverable
        (crashed d d' global_ids vectors payloads bytes disk r w enc accepts c e) =
      elim (add_batch-atomic o laws d global_ids vectors payloads bytes disk
        (Reachable-IsRecoverable r) w enc accepts c) [
          | inl before ↦ opened-IsRecoverable disk d d' before e
          | inr after ↦
              opened-IsRecoverable disk (written o d global_ids vectors payloads bytes) d' after e
        ]
