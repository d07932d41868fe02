-- ===== src/Server/Sync/Rounds.antt =====
-- The rounds of `catch_up` of vsearch/server.py, and the chunks of a snapshot.
use distributed_vector_searc.Prelude.{
  ℕ, zero, suc, ◌<◌, ◌≤◌, ◌≡◌, refl, ap, ◌∙◌, List, [], ◌∷◌, ◌++◌, ok, Bool, Bool-cases, inl, inr,
  length, keep, All, arith, ltb, concat, take, drop, take-append-drop, length-drop, ltb→lt,
}
use distributed_vector_searc.Storage.Record.{LogRecord}
use distributed_vector_searc.Storage.Log.{Entry, entry_record, log_records}
use distributed_vector_searc.Storage.Durable.{ShardOps, DurableShard, install_snapshot}
use distributed_vector_searc.Server.{chunks_of, snapshot_chunk_bytes}
use distributed_vector_searc.Server.Sync.{
  Peer, complete, refused, Method, snapshot, apply_records, copy_snapshot, catch_up_loop,
}

-- A chunk takes at least a byte, so the chunks of a snapshot are all of it.
pub chunks_of_lem :
    (fuel : ℕ) (bytes : List ℕ) → length bytes ≤ fuel → concat (chunks_of fuel bytes) ≡ bytes
unfolding chunks_of
chunks_of_lem fuel [] h = refl
chunks_of_lem zero (b ∷ bytes) h = absurd (omega arith)
chunks_of_lem (suc fuel) (b ∷ bytes) h =
    let rest = drop snapshot_chunk_bytes (b ∷ bytes) in
    ap (λ t. take snapshot_chunk_bytes (b ∷ bytes) ++ t)
      (chunks_of_lem fuel rest (omega (arith, h, length-drop snapshot_chunk_bytes (b ∷ bytes))))
    ∙ take-append-drop snapshot_chunk_bytes (b ∷ bytes)

pub keep-log_records :
    (p : LogRecord → Bool) (entries : List Entry)
    → keep p (log_records entries) ≡ log_records (keep (λ e. p (entry_record e)) entries)
keep-log_records p [] = refl
keep-log_records p (e ∷ entries) = elim (Bool-cases (p (entry_record e))) [
  | inl h ↦ rw h (ap (◌∷◌ (entry_record e)) (keep-log_records p entries))
  | inr h ↦ rw h (keep-log_records p entries)
]

pub keep-later :
    (seq : ℕ) (records : List LogRecord)
    → All (λ r. seq < r.seq) (keep (λ r. ltb seq r.seq) records)
keep-later seq [] = tt
keep-later seq (r ∷ records) = elim (Bool-cases (ltb seq r.seq)) [
  | inl e ↦ rw e (ltb→lt seq r.seq e, keep-later seq records)
  | inr e ↦ rw e (keep-later seq records)
]

module _ {S P : Type 0} (o : ShardOps S) (peer : Peer P) where
  -- A round in which the log is sent.
  pub loop_sent :
      (attempts : ℕ) (method : Method) (p p' : P) (d : DurableShard S) (records : List LogRecord)
      (count : ℕ)
      → peer.fetch_log p d.last_seq ≡ (p', records, complete)
      → (apply_records o records d).1 ≡ ok count
      → catch_up_loop o peer (suc attempts) method p d
        ≡ (p', (apply_records o records d).0, ok (method, count))
  unfolding catch_up_loop
  loop_sent attempts method p p' d records count h ran =
      let ran' = ap (λ x. (apply_records o x.1 d).1) h ∙ ran in
      rw (ran', catch_up_loop)
        (rw (ap (λ x. x.2) h) (λ i. ((h i).0, (apply_records o (h i).1 d).0, ok (method, count))))

  -- A round in which the log is refused and the snapshot is copied.
  pub loop_copied :
      (attempts : ℕ) (method : Method) (p p' p'' : P) (d d' : DurableShard S)
      → peer.fetch_log p d.last_seq ≡ (p', [], refused)
      → copy_snapshot o peer p' d ≡ (p'', d', ok tt)
      → catch_up_loop o peer (suc attempts) method p d
        ≡ catch_up_loop o peer attempts snapshot p'' d'
  unfolding catch_up_loop apply_records
  loop_copied attempts method p p' p'' d d' h copied =
      let ran : (apply_records o (peer.fetch_log p d.last_seq).1 d).1 ≡ ok 0 =
        ap (λ x. (apply_records o x.1 d).1) h in
      let taken = ap (λ x. copy_snapshot o peer x.0 (apply_records o x.1 d).0) h ∙ copied in
      rw (ran, catch_up_loop)
        (rw (ap (λ x. x.2) h) (
          rw (ap (λ x. x.2) taken)
            (ap (λ x. catch_up_loop o peer attempts snapshot x.0 x.1) taken)))

  pub copy_snapshot-done :
      (p p' : P) (d d' : DurableShard S) (chunks : List (List ℕ))
      → peer.fetch_snapshot p ≡ (p', chunks, complete)
      → install_snapshot o d (concat chunks) ≡ (d', ok tt)
      → copy_snapshot o peer p d ≡ (p', d', ok tt)
  unfolding copy_snapshot
  copy_snapshot-done p p' d d' chunks h k =
      let installed = λ (bytes : List ℕ). install_snapshot o d bytes in
      rw (ap (λ x. x.2) h, copy_snapshot)
        (λ i. ((h i).0, (installed (concat (h i).1)).0, (installed (concat (h i).1)).1))
      ∙ (λ i. (p', (k i).0, (k i).1))
