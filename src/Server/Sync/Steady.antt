-- ===== src/Server/Sync/Steady.antt =====
-- `catch_up` of vsearch/server.py with a peer that is a durable shard behind the handlers `FetchLog` and
-- `FetchSnapshot`, and has no writes in the meantime.
use distributed_vector_searc.Prelude.{
  ℕ, suc, ◌<◌, ◌≤◌, ◌≡◌, refl, ap, sym, subst, ◌∙◌, true, List, [], Option, none, some, Result, ok,
  Bool-cases, Option-cases, inl, inr, length, map, keep, All, arith, leb, ltb, concat, ltb→lt,
}
use distributed_vector_searc.Python.Text.{Text}
use distributed_vector_searc.Python.Json.{Json}
use distributed_vector_searc.Storage.Record.{LogRecord}
use distributed_vector_searc.Storage.Log.{Entry, log_records}
use distributed_vector_searc.Storage.Durable.{
  ShardOps, ShardLaws, DurableShard, Replay, replay, records_after, load_base, install_snapshot,
  checkpoint,
}
use distributed_vector_searc.Storage.Durable.Replaying.{
  keep-within, Ascending, Ascending-keep, replay-split, replay-covers, replay_covered,
}
use distributed_vector_searc.Storage.Durable.Recovery.{start, IsRecoverable}
use distributed_vector_searc.Storage.Durable.Transfer.{records_after_lem}
use distributed_vector_searc.Server.{
  ShardReads, Served, durable, Response, answered, aborted, raised, failed_precondition,
  handle_fetch_log, handle_fetch_snapshot, log_message, chunks_of,
}
use distributed_vector_searc.Server.Sync.{
  Peer, StreamEnd, complete, refused, broken, Method, log, snapshot, catch_up_loop, catch_up,
}
use distributed_vector_searc.Server.Sync.Messages.{IsAt, apply_messages}
use distributed_vector_searc.Server.Sync.Rounds.{
  chunks_of_lem, keep-log_records, keep-later, loop_sent, loop_copied, copy_snapshot-done,
}

-- What arrives of a response.
abbrev log_stream :
    {S : Type 0}
    → DurableShard S
    → Response (List LogRecord)
    → DurableShard S × List LogRecord × StreamEnd
log_stream p (answered records) = (p, records, complete)
log_stream p (aborted failed_precondition) = (p, [], refused)
log_stream p (aborted code) = (p, [], broken)
log_stream p (raised e) = (p, [], broken)

abbrev snapshot_stream :
    {S : Type 0}
    → DurableShard S
    → Served S × Response (List (List ℕ) × ℕ)
    → DurableShard S × List (List ℕ) × StreamEnd
snapshot_stream p (durable p', answered (chunks, seq)) = (p', chunks, complete)
snapshot_stream p (served, response) = (p, [], broken)

-- The log entries after a number.
abbrev entries_after : ℕ → List Entry → List Entry
entries_after seq entries = keep (λ e. ltb seq e.seq) entries

module _ {S V D : Type 0} (o : ShardOps S) (laws : ShardLaws o) (reads : ShardReads S V D)
    (loads : Text → Result Json) where
  open laws use {restore}

  -- A peer that is a durable shard, behind its handlers.
  abbrev pub durable_peer : Peer (DurableShard S)
  durable_peer = record {
    fetch_log = λ p after_seq. log_stream p (handle_fetch_log o reads loads (durable p) after_seq);
    fetch_snapshot = λ p. snapshot_stream p (handle_fetch_snapshot o reads loads (durable p));
  }

  -- A replica has what the peer's snapshot and log give up to the replica's last number.
  pub record IsPast (peer d : DurableShard S) (inv : IsRecoverable o laws peer) : Type 0 where
    pub past : Replay S
    pub replayed :
        replay o
          (keep (λ r. leb r.seq past.last_seq) (log_records inv.entries))
          (start inv.base peer.snapshot_seq)
        ≡ ok past
    pub at : IsAt o laws past d

  -- A replica that has the last write of the peer and its shard.
  pub record CaughtUp (peer : DurableShard S)
      (result : DurableShard S × DurableShard S × Result (Method × ℕ)) : Type 0 where
    pub applied : Method × ℕ
    pub returns : result.2 ≡ ok applied
    pub same_seq : result.1.last_seq ≡ peer.last_seq
    pub same_shard : restore result.1.shard ≡ restore peer.shard

  fetch_log-given :
      (peer d : DurableShard S) (inv : IsRecoverable o laws peer)
      → peer.snapshot_seq ≤ d.last_seq
      → durable_peer.fetch_log peer d.last_seq
        ≡ (peer, map log_message (log_records (entries_after d.last_seq inv.entries)), complete)
  unfolding handle_fetch_log
  fetch_log-given peer d inv h =
      rw (records_after_lem o laws peer d.last_seq inv h, handle_fetch_log)
        (rw (keep-log_records (λ r. ltb d.last_seq r.seq) inv.entries) refl)

  -- A round that the peer's log serves is the last.
  round-CaughtUp :
      (attempts : ℕ) (method : Method) (peer d : DurableShard S) (inv : IsRecoverable o laws peer)
      → IsPast peer d inv
      → CaughtUp peer (catch_up_loop o durable_peer (suc attempts) method peer d)
  round-CaughtUp attempts method peer d inv p =
      let all = log_records inv.entries in
      let first = start inv.base peer.snapshot_seq in
      let covers =
        replay-covers o (keep (λ r. leb r.seq p.past.last_seq) all) first p.past p.replayed in
      let given = fetch_log-given peer d inv (omega (arith, covers.0, p.at.same_seq)) in
      let later = entries_after d.last_seq inv.entries in
      let records = keep-log_records (λ r. ltb d.last_seq r.seq) inv.entries in
      let onward : replay o (log_records later) p.past ≡ ok inv.end =
        subst (λ rs. replay o rs p.past ≡ ok inv.end) records
          (subst (λ n. replay o (keep (λ r. ltb n r.seq) all) p.past ≡ ok inv.end)
            (sym p.at.same_seq)
            (replay-split o all first p.past inv.end p.replayed inv.replayed)) in
      let ascending =
        subst Ascending records (Ascending-keep (λ r. ltb d.last_seq r.seq) all inv.ascending) in
      let beyond : All (λ r. p.past.last_seq < r.seq) (log_records later) =
        subst (λ n. All (λ r. n < r.seq) (log_records later)) p.at.same_seq
          (subst (All (λ r. d.last_seq < r.seq)) records (keep-later d.last_seq all)) in
      let (count, at) = apply_messages o laws later p.past inv.end d onward ascending beyond p.at in
      let ended =
        loop_sent o durable_peer attempts method peer peer d _ (length later) given count in
      subst (CaughtUp peer) (sym ended) (record {
        applied = (method, length later);
        returns = refl;
        same_seq = at.same_seq ∙ inv.same_seq;
        same_shard = at.same_shard ∙ inv.same_shard;
      })

  fetch_log-refused :
      (peer d : DurableShard S)
      → ltb d.last_seq peer.snapshot_seq ≡ true
      → durable_peer.fetch_log peer d.last_seq ≡ (peer, [], refused)
  unfolding handle_fetch_log records_after
  fetch_log-refused peer d h = rw (h, handle_fetch_log) refl

  fetch_snapshot-given :
      (peer : DurableShard S) (bytes : List ℕ)
      → peer.disk.snapshot ≡ some bytes
      → durable_peer.fetch_snapshot peer ≡ (peer, chunks_of (length bytes) bytes, complete)
  unfolding handle_fetch_snapshot
  fetch_snapshot-given peer bytes h =
      ap (λ g. snapshot_stream peer (durable g.0, answered (chunks_of (length g.1) g.1, g.2)))
        (given peer.disk.snapshot h)
    where
      given :
          (file : Option (List ℕ))
          → file ≡ some bytes
          → (let g : DurableShard S × List ℕ × ℕ = elim file [
            | some b ↦ (peer, b, peer.snapshot_seq)
            | none ↦
                let p' = checkpoint o peer in
                (p', o.save_snapshot peer.shard peer.last_seq, p'.snapshot_seq)
          ] in
              g)
            ≡ (peer, bytes, peer.snapshot_seq)
      given none e = cc
      given (some b) e = let same : b ≡ bytes = cc in ap (λ x. (peer, x, peer.snapshot_seq)) same

  -- The replica after it has installed a snapshot.
  abbrev copied : DurableShard S → List ℕ → S → ℕ → DurableShard S
  copied d bytes shard seq = record d {
    disk = record { snapshot = some bytes; wal = [] };
    shard = shard;
    last_seq = seq;
    snapshot_seq = seq;
    vectors_since_snapshot = 0;
  }

  install_snapshot-ok :
      (d : DurableShard S) (bytes : List ℕ) (shard : S) (seq : ℕ)
      → o.load_snapshot bytes ≡ ok (shard, seq)
      → install_snapshot o d bytes ≡ (copied d bytes shard seq, ok tt)
  unfolding install_snapshot
  install_snapshot-ok d bytes shard seq h = rw (h, install_snapshot) refl

  -- A replica with a copy of the snapshot is at the start of the peer's log.
  copied-IsPast :
      (peer d : DurableShard S) (inv : IsRecoverable o laws peer) (bytes : List ℕ)
      → IsPast peer (copied d bytes inv.base peer.snapshot_seq) inv
  copied-IsPast peer d inv bytes = record {
    past = start inv.base peer.snapshot_seq;
    replayed =
        replay_covered o (keep (λ r. leb r.seq peer.snapshot_seq) (log_records inv.entries))
          (start inv.base peer.snapshot_seq)
          (keep-within o peer.snapshot_seq (log_records inv.entries));
    at = record { same_seq = refl; same_shard = refl };
  }

  snapshot-CaughtUp :
      (peer d : DurableShard S) (inv : IsRecoverable o laws peer) (bytes : List ℕ)
      → ltb d.last_seq peer.snapshot_seq ≡ true
      → peer.disk.snapshot ≡ some bytes
      → CaughtUp peer (catch_up o durable_peer peer d)
  unfolding catch_up load_base
  snapshot-CaughtUp peer d inv bytes h e =
      let loads_base : load_base o (some bytes) ≡ ok (inv.base, peer.snapshot_seq) =
        subst (λ file. load_base o file ≡ ok (inv.base, peer.snapshot_seq)) e inv.base_loads in
      let d' = copied d bytes inv.base peer.snapshot_seq in
      let whole : concat (chunks_of (length bytes) bytes) ≡ bytes =
        chunks_of_lem (length bytes) bytes (omega arith) in
      let installed =
        ap (install_snapshot o d) whole
        ∙ install_snapshot-ok d bytes inv.base peer.snapshot_seq loads_base in
      let taken =
        copy_snapshot-done o durable_peer peer peer d d' (chunks_of (length bytes) bytes)
          (fetch_snapshot-given peer bytes e) installed in
      let next =
        loop_copied o durable_peer 2 log peer peer peer d d' (fetch_log-refused peer d h) taken in
      let last = round-CaughtUp 1 snapshot peer d' inv (copied-IsPast peer d inv bytes) in
      subst (CaughtUp peer) (sym next) last

  -- Let a peer's durable shard be recoverable and have no writes in the meantime, and, if the
  -- replica is not behind the peer's snapshot, let it have, up to what a snapshot forgets, the
  -- shard that the peer's snapshot and log give up to the replica's last number. Then catch_up
  -- through the peer's handlers FetchLog and FetchSnapshot returns without error, and leaves the
  -- replica with the peer's last sequence number and, up to what a snapshot forgets, the peer's
  -- shard.
  pub catch_up-CaughtUp :
      (peer d : DurableShard S) (inv : IsRecoverable o laws peer)
      → (peer.snapshot_seq ≤ d.last_seq → IsPast peer d inv)
      → CaughtUp peer (catch_up o durable_peer peer d)
  unfolding catch_up load_base
  catch_up-CaughtUp peer d inv p = elim (Bool-cases (ltb d.last_seq peer.snapshot_seq)) [
    | inr reached ↦ round-CaughtUp 2 log peer d inv (p (ground (arith, reached)))
    | inl behind ↦ elim (Option-cases peer.disk.snapshot) [
      | inr (bytes, e) ↦ snapshot-CaughtUp peer d inv bytes behind e
      | inl e ↦
          let loads_base : load_base o none ≡ ok (inv.base, peer.snapshot_seq) =
            subst (λ file. load_base o file ≡ ok (inv.base, peer.snapshot_seq)) e inv.base_loads in
          let zero_seq : 0 ≡ peer.snapshot_seq = ground (arith, loads_base) in
          absurd (omega (arith, zero_seq, ltb→lt d.last_seq peer.snapshot_seq behind))
    ]
  ]
