-- ===== src/Server/Sync/Messages.antt =====
-- A replica that takes over the messages of a peer's log, for `catch_up` of vsearch/server.py.
use distributed_vector_searc.Prelude.{
  ℕ, suc, ◌+◌, ◌<◌, ◌≡◌, refl, ap, sym, subst, ◌∙◌, true, List, [], ◌∷◌, some, Result, ok,
  >>=-eq-ok, ◌>>=◌, ◌==◌, length, map, All, arith,
}
use distributed_vector_searc.Storage.Record.{LogRecord, encode_record}
use distributed_vector_searc.Storage.Log.{Entry, entry_record, log_records}
use distributed_vector_searc.Storage.Durable.{
  ShardOps, ShardLaws, DurableShard, Replay, replay, replay_record, add_batch,
}
use distributed_vector_searc.Storage.Durable.Replaying.{replay_record-number, Ascending}
use distributed_vector_searc.Storage.Durable.Crash.{add_batch-at}
use distributed_vector_searc.Server.{log_message}
use distributed_vector_searc.Server.Sync.{apply_records}
use distributed_vector_searc.Server.Sync.Numbered.{add_batch-last_seq}
use distributed_vector_searc.Server.Sync.CaughtUp.{add_batch-shard, replay_record-next}
use distributed_vector_searc.Server.Sync.Wire.{
  encode_record-section, logged-section, add_batch-message, length-entry_payloads,
}

module _ {S : Type 0} (o : ShardOps S) (laws : ShardLaws o) where
  open laws use {restore, add_shard, add_result}

  -- A replica at the place of a replay.
  pub record IsAt (p : Replay S) (d : DurableShard S) : Type 0 where
    pub same_seq : d.last_seq ≡ p.last_seq
    pub same_shard : restore d.shard ≡ restore p.shard

  apply_records-cons :
      (r : LogRecord) (records : List LogRecord) (d d' : DurableShard S)
      → add_batch o d r.global_ids r.vectors (some r.payloads) (some r.seq) ≡ (d', ok tt)
      → apply_records o (r ∷ records) d ≡ (
        (apply_records o records d').0,
        (apply_records o records d').1 >>= λ applied. ok (suc applied),
      )
  unfolding apply_records
  apply_records-cons r records d d' h =
      let rest : DurableShard S → DurableShard S × Result ℕ = λ x. (
        (apply_records o records x).0,
        (apply_records o records x).1 >>= λ applied. ok (suc applied),
      ) in
      rw (ap (λ x. x.1) h, apply_records) (ap rest (ap (λ x. x.0) h))

  -- One record: the message is written, and leaves the replica at the place of the replay.
  apply_message :
      (e : Entry) (q next : Replay S) (d : DurableShard S)
      → replay_record o q (entry_record e) ≡ ok next
      → q.last_seq < e.seq
      → IsAt q d
      → (d' : DurableShard S) × (add_batch o d e.global_ids e.vectors
            (some (log_message (entry_record e)).payloads)
            (some e.seq)
          ≡ (d', ok tt))
        × IsAt next d'
  apply_message e q next d first later at =
      let r = entry_record e in
      let number : e.seq ≡ q.last_seq + 1 = replay_record-number o q next r first later in
      let (moved, replayed, accepted) =
        replay_record-next o q next r first (omega (arith, number)) in
      let place : d.last_seq + 1 ≡ e.seq = omega (arith, number, at.same_seq) in
      let encoded =
        ap (λ n. encode_record n e.global_ids e.vectors (some r.payloads)) place
        ∙ encode_record-section e.seq e.global_ids e.vectors (some r.payloads) e.payloads
            (logged-section e.payloads (length e.vectors.rows))
        ∙ e.encoded in
      let accepts =
        add_result d.shard q.shard e.global_ids e.vectors (some r.payloads) at.same_shard
        ∙ accepted in
      let wrote =
        add_batch-at o laws d e.global_ids e.vectors (some r.payloads) (some e.seq) e.bytes
          (same_number e.seq (d.last_seq + 1) place) encoded accepts in
      let returned = ap (λ x. x.1) wrote in
      let (named, last) =
        add_batch-last_seq o d e.global_ids e.vectors (some r.payloads) e.seq returned in
      let shard = add_batch-shard o d e.global_ids e.vectors (some r.payloads) e.seq returned in
      let kept = ap (λ x. x.0) wrote in
      (
        _,
        add_batch-message o laws d r (some e.seq) (length-entry_payloads e) ∙ wrote,
        record {
          same_seq =
              sym (ap (λ x. x.last_seq) kept) ∙ last ∙ omega (arith, moved, number, at.same_seq);
          same_shard =
              sym (ap (λ x. restore x.shard) kept)
              ∙ ap restore shard
              ∙ add_shard d.shard q.shard e.global_ids e.vectors (some r.payloads) at.same_shard
              ∙ sym (ap restore replayed);
        },
      )
    where
      same_number : (a b : ℕ) → b ≡ a → (a == b) ≡ true
      same_number a b h = ground (arith, h)

  -- The messages of a log are all taken over.
  pub apply_messages :
      (entries : List Entry) (q end : Replay S) (d : DurableShard S)
      → replay o (log_records entries) q ≡ ok end
      → Ascending (log_records entries)
      → All (λ r. q.last_seq < r.seq) (log_records entries)
      → IsAt q d
      → ((apply_records o (map log_message (log_records entries)) d).1 ≡ ok (length entries))
        × IsAt end (apply_records o (map log_message (log_records entries)) d).0
  unfolding apply_records replay log_message
  apply_messages [] q end d e ascending later at =
      let same : q ≡ end = cc in (refl, subst (λ x. IsAt x d) same at)
  apply_messages (first ∷ entries) q end d e ascending later at =
      let (next, one, rest) = >>=-eq-ok (replay_record o q (entry_record first)) _ e in
      let (d', wrote, at') = apply_message first q next d one later.0 at in
      let number = replay_record-number o q next (entry_record first) one later.0 in
      let (moved, _, _) =
        replay_record-next o q next (entry_record first) one (omega (arith, number)) in
      let later' =
        subst (λ n. All (λ r. n < r.seq) (log_records entries)) (sym moved) ascending.0 in
      let (count, at'') = apply_messages entries next end d' rest ascending.1 later' at' in
      let cons =
        apply_records-cons (log_message (entry_record first))
          (map log_message (log_records entries)) d d' wrote in
      (
        ap (λ x. x.1) cons ∙ ap (λ r. r >>= λ applied. ok (suc applied)) count,
        subst (IsAt end) (sym (ap (λ x. x.0) cons)) at'',
      )
