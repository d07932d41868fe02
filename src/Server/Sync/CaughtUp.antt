-- ===== src/Server/Sync/CaughtUp.antt =====
-- The shard of a replica that takes over the records of a peer's log: `SyncFrom` of vsearch/server.py.
use distributed_vector_searc.Prelude.{
  ℕ, suc, ◌+◌, ◌≡◌, refl, ap, sym, ◌∙◌, subst, true, false, List, [], ◌∷◌, Option, some, Result,
  Error, ok, err, >>=-eq-ok, ◌==◌, leb, ltb, keep, Bool-cases, Result-cases, inl, inr, arith,
}
use distributed_vector_searc.Python.Text.{Text}
use distributed_vector_searc.Storage.Record.{Matrix, LogRecord, encode_record}
use distributed_vector_searc.Storage.Log.{log_records}
use distributed_vector_searc.Storage.Durable.{
  ShardOps, ShardLaws, DurableShard, Replay, replay, replay_record, applied, checkpoint,
  apply_logged, after_write, is_due, add_batch, records_after,
}
use distributed_vector_searc.Storage.Durable.Replaying.{replay-covers, replay-split}
use distributed_vector_searc.Storage.Durable.Recovery.{start, IsRecoverable}
use distributed_vector_searc.Storage.Durable.Transfer.{records_after_lem}
use distributed_vector_searc.Server.Sync.{apply_records}
use distributed_vector_searc.Server.Sync.Numbered.{add_batch-last_seq}

module _ {S : Type 0} (o : ShardOps S) where
  after_write-shard :
      (out : DurableShard S × Result (Unit {0})) → (after_write o out).0.shard ≡ out.0.shard
  unfolding after_write checkpoint
  after_write-shard (d, err e) = refl
  after_write-shard (d, ok u) = elim (Bool-cases (is_due o d)) [
    | inl e ↦ rw e refl
    | inr e ↦ rw e refl
  ]

  apply_logged-shard :
      (d : DurableShard S) (ids : List ℕ) (vectors : Matrix) (payloads : Option (List Text))
      (bytes : List ℕ)
      → (apply_logged o d ids vectors payloads bytes).0.shard
        ≡ (o.add_batch d.shard ids vectors payloads).0
  unfolding apply_logged
  apply_logged-shard d ids vectors payloads bytes =
      elim (Result-cases (o.add_batch d.shard ids vectors payloads).1) [
        | inl (e, k) ↦ rw (k, apply_logged) refl
        | inr (u, k) ↦ rw (k, apply_logged) refl
      ]

  -- A write that succeeds is that of the shard.
  pub add_batch-shard :
      (d : DurableShard S) (ids : List ℕ) (vectors : Matrix) (payloads : Option (List Text))
      (seq : ℕ)
      → (add_batch o d ids vectors payloads (some seq)).1 ≡ ok tt
      → (add_batch o d ids vectors payloads (some seq)).0.shard
        ≡ (o.add_batch d.shard ids vectors payloads).0
  unfolding add_batch
  add_batch-shard d ids vectors payloads seq h = elim (Bool-cases (seq == d.last_seq + 1)) [
    | inr e ↦ let refused : err Error.out_of_order ≡ ok tt = rw (e, add_batch) at h in cc
    | inl e ↦ elim (Result-cases (encode_record (d.last_seq + 1) ids vectors payloads)) [
      | inl (x, k) ↦ let refused : err x ≡ ok tt = rw k at (rw (e, add_batch) at h) in cc
      | inr (bytes, k) ↦
          rw (e, add_batch)
            (rw k (
              after_write-shard (apply_logged o d ids vectors payloads bytes)
              ∙ apply_logged-shard d ids vectors payloads bytes))
    ]
  ]

  -- A replay of the next record is the write of the shard.
  pub replay_record-next :
      (q next : Replay S) (r : LogRecord)
      → replay_record o q r ≡ ok next
      → r.seq ≡ suc q.last_seq
      → (next.last_seq ≡ r.seq)
        × (next.shard ≡ (o.add_batch q.shard r.global_ids r.vectors (some r.payloads)).0)
        × ((o.add_batch q.shard r.global_ids r.vectors (some r.payloads)).1 ≡ ok tt)
  unfolding replay_record applied
  replay_record-next q next r e h =
      let ran : applied o q r ≡ ok next =
        rw (new r.seq q.last_seq h) at (rw (later r.seq q.last_seq h, replay_record) at e) in
      elim (Result-cases (o.add_batch q.shard r.global_ids r.vectors (some r.payloads)).1) [
        | inl (x, k) ↦ let refused : err x ≡ ok next = rw (k, applied) at ran in cc
        | inr (u, k) ↦
            let done = rw (k, applied) at ran in
            (
              sym (ap (λ x. elim x [ err f ↦ r.seq | ok y ↦ y.last_seq ]) done),
              sym (ap (λ x. elim x [ err f ↦ next.shard | ok y ↦ y.shard ]) done),
              k,
            )
      ]
    where
      later : (m n : ℕ) → m ≡ suc n → leb m n ≡ false
      later m n h = ground (arith, h)

      new : (m n : ℕ) → m ≡ suc n → (m == n + 1) ≡ true
      new m n h = ground (arith, h)

module _ {S : Type 0} (o : ShardOps S) (laws : ShardLaws o) where
  open laws use {restore, add_shard}

  -- Where a replay and a replica are at the same place, they stay together over the records of a peer.
  apply_records-replay :
      (records : List LogRecord) (q end : Replay S) (d : DurableShard S) (count : ℕ)
      → replay o records q ≡ ok end
      → q.last_seq ≡ d.last_seq
      → restore q.shard ≡ restore d.shard
      → (apply_records o records d).1 ≡ ok count
      → ((apply_records o records d).0.last_seq ≡ end.last_seq)
        × (restore (apply_records o records d).0.shard ≡ restore end.shard)
  unfolding apply_records replay
  apply_records-replay [] q end d count e same_seq same_shard h =
      let same : q ≡ end = cc in
      (sym same_seq ∙ ap (λ x. x.last_seq) same, sym same_shard ∙ ap (λ x. restore x.shard) same)
  apply_records-replay (r ∷ records) q end d count e same_seq same_shard h =
      let (next, first, rest) = >>=-eq-ok (replay_record o q r) _ e in
      let (d', result) = add_batch o d r.global_ids r.vectors (some r.payloads) (some r.seq) in
      elim (Result-cases result) [
        | inl (f, k) ↦ let refused : err f ≡ ok count = rw (k, apply_records) at h in cc
        | inr (u, k) ↦
            let (fewer, ran, last) =
              >>=-eq-ok (apply_records o records d').1 (λ n. ok (suc n))
                (rw (k, apply_records) at h) in
            let (named, moved) =
              add_batch-last_seq o d r.global_ids r.vectors (some r.payloads) r.seq k in
            let written = add_batch-shard o d r.global_ids r.vectors (some r.payloads) r.seq k in
            let (number, replayed, accepted) =
              replay_record-next o q next r first (named ∙ ap suc (sym same_seq)) in
            let shards : restore next.shard ≡ restore d'.shard =
              ap restore replayed
              ∙ add_shard q.shard d.shard r.global_ids r.vectors (some r.payloads) same_shard
              ∙ sym (ap restore written) in
            rw (k, apply_records)
              (apply_records-replay records next end d' fewer rest (number ∙ named ∙ sym moved)
                shards ran)
      ]

  -- Let a peer be recoverable and give its log records after a replica's last sequence number, and
  -- let the replica have, up to what a snapshot forgets, the shard that the peer's snapshot and log
  -- give up to that number. If taking over the records returns, then the replica has the peer's
  -- last sequence number and, up to what a snapshot forgets, the peer's shard.
  pub apply_records-CaughtUp :
      (peer d : DurableShard S) (inv : IsRecoverable o laws peer) (records : List LogRecord)
      (past : Replay S) (count : ℕ)
      → records_after o peer d.last_seq ≡ ok (some records)
      → replay o
          (keep (λ r. leb r.seq past.last_seq) (log_records inv.entries))
          (start inv.base peer.snapshot_seq)
        ≡ ok past
      → past.last_seq ≡ d.last_seq
      → restore past.shard ≡ restore d.shard
      → (apply_records o records d).1 ≡ ok count
      → ((apply_records o records d).0.last_seq ≡ peer.last_seq)
        × (restore (apply_records o records d).0.shard ≡ restore peer.shard)
  apply_records-CaughtUp peer d inv records past count given before same_seq same_shard h =
      let all = log_records inv.entries in
      let first = start inv.base peer.snapshot_seq in
      let covers = replay-covers o (keep (λ r. leb r.seq past.last_seq) all) first past before in
      let asked =
        records_after_lem o laws peer d.last_seq inv (omega (arith, covers.0, same_seq)) in
      let which : keep (λ r. ltb d.last_seq r.seq) all ≡ records = cc in
      let onward : replay o records past ≡ ok inv.end =
        subst (λ rs. replay o rs past ≡ ok inv.end) which
          (subst (λ n. replay o (keep (λ r. ltb n r.seq) all) past ≡ ok inv.end) same_seq
            (replay-split o all first past inv.end before inv.replayed)) in
      let (number, shards) =
        apply_records-replay records past inv.end d count onward same_seq same_shard h in
      (number ∙ inv.same_seq, shards ∙ inv.same_shard)
