-- ===== src/Server/Tests.antt =====
-- Runs of the handlers over a shard that is the list of its ids.
use distributed_vector_searc.Prelude.{
  ℕ, ◌≡◌, refl, List, [], ◌∷◌, length, Result, Error, ok, err, nat_ord, some, arith,
}
use distributed_vector_searc.Python.Text.{Text}
use distributed_vector_searc.Python.Json.{Json}
use distributed_vector_searc.Storage.Record.{LogRecord}
use distributed_vector_searc.Storage.Tests.{id_shard, id_shard_laws, fresh, one_vector}
use distributed_vector_searc.Storage.Durable.{DurableShard, replay, load_base}
use distributed_vector_searc.Storage.Durable.Recovery.{start, IsRecoverable}
use distributed_vector_searc.Server.Sync.Steady.{CaughtUp, durable_peer, catch_up-CaughtUp}
use distributed_vector_searc.Server.{ShardReads, in_memory, aborted, invalid_argument, handle_add}
use distributed_vector_searc.Server.Sync.{apply_records, catch_up}

abbrev reads : ShardReads (List ℕ) ℕ ℕ
reads = record {
  size = length;
  next_global_id = length;
  search = λ s query k filter. (s, ok []);
  search_with_payloads = λ s query k filter. (s, ok []);
}

abbrev no_json : Text → Result Json
no_json text = err Error.value_error

mismatch_refused :
    (handle_add id_shard reads no_json (in_memory []) (record {
      global_ids = 4 ∷ [];
      dim = 1;
      values = 7 ∷ [];
      seq = 0;
      payloads = [] ∷ [] ∷ [];
    })).1
    ≡ aborted invalid_argument
unfolding handle_add
mismatch_refused = refl

abbrev first_record : LogRecord
first_record = record { seq = 1; global_ids = 7 ∷ []; vectors = one_vector; payloads = [] ∷ [] }

applied_one : (apply_records id_shard (first_record ∷ []) fresh).1 ≡ ok 1
unfolding apply_records
applied_one = refl

-- A peer that has one write more, in its snapshot.
abbrev saved_peer : DurableShard (List ℕ)
saved_peer = record {
  disk = record { snapshot = some (1 ∷ 7 ∷ []); wal = [] };
  shard = 7 ∷ [];
  last_seq = 1;
  snapshot_seq = 1;
  snapshot_every = 1;
  vectors_since_snapshot = 0;
  replayed_records = 0;
}

saved_peer_loads : load_base id_shard (some (1 ∷ 7 ∷ [])) ≡ ok (7 ∷ [], 1)
unfolding load_base
saved_peer_loads = refl

saved_peer_replayed : replay id_shard [] (start (7 ∷ []) 1) ≡ ok (start (7 ∷ []) 1)
unfolding replay
saved_peer_replayed = refl

abbrev saved_peer_inv : IsRecoverable id_shard id_shard_laws saved_peer
saved_peer_inv = record {
  entries = [];
  wal = refl;
  base = 7 ∷ [];
  base_loads = saved_peer_loads;
  end = start (7 ∷ []) 1;
  replayed = saved_peer_replayed;
  same_seq = refl;
  same_shard = refl;
  storable = tt;
  base_storable = tt;
  ascending = tt;
}

catch_up-CaughtUp_example :
    CaughtUp id_shard id_shard_laws reads no_json saved_peer
      (catch_up id_shard (durable_peer id_shard id_shard_laws reads no_json) saved_peer fresh)
catch_up-CaughtUp_example =
    catch_up-CaughtUp id_shard id_shard_laws reads no_json saved_peer fresh saved_peer_inv
      (λ h. absurd (omega (arith, h)))
