-- ===== src/Storage/Tests.antt =====
-- Runs of the write-ahead log and of a durable shard over a small shard of ids, with one write.
use distributed_vector_searc.Prelude.{
  ℕ, ◌≡◌, refl, ap, List, [], ◌∷◌, ◌++◌, Option, none, some, arith, Error, ok, err, ◌==◌,
  if◌then◌else◌, take, ◌⊎◌, keep, ltb,
}
use distributed_vector_searc.Python.Text.{Text, codes}
use distributed_vector_searc.Storage.Record.{
  Matrix, encode_record, read_record, read_records, optional_section,
}
use distributed_vector_searc.Storage.Record.RoundTrip.{IsWritable, logged}
use distributed_vector_searc.Storage.Record.Written.{read_record-encode_record}
use distributed_vector_searc.Storage.Log.{
  Entry, log_bytes, log_records, read_records_lem, torn-EndsLog, entry_record,
}
use distributed_vector_searc.Storage.Durable.{
  install_snapshot, records_after, ShardOps, ShardLaws, DurableShard, add_batch, open_shard,
  load_base, replay,
}
use distributed_vector_searc.Storage.Durable.Recovery.{IsRecoverable, Recovers, start}
use distributed_vector_searc.Storage.Durable.Writes.{written, written-IsRecoverable}
use distributed_vector_searc.Storage.Durable.Crash.{
  torn, Acknowledged, add_batch-atomic, add_batch-Acknowledged,
}
use distributed_vector_searc.Storage.Durable.Transfer.{
  Installed, install_snapshot-Installed, records_after_lem,
}
use distributed_vector_searc.Storage.Durable.Rejected.{add_batch-rejected}

abbrev pub one_vector : Matrix
one_vector = record { dim = 1; rows = (1065353216 ∷ []) ∷ [] }

abbrev two_values : Matrix
two_values = record { dim = 2; rows = (1065353216 ∷ 0 ∷ []) ∷ [] }

abbrev pub one_payload : Option (List Text)
one_payload = some (codes "{}" ∷ [])

abbrev record_bytes : List ℕ
record_bytes =
    34 ∷ 0 ∷ 0 ∷ 0 ∷ 249 ∷ 169 ∷ 79 ∷ 214 ∷ 1 ∷ 0 ∷ 0 ∷ 0 ∷ 0 ∷ 0 ∷ 0 ∷ 0 ∷ 1 ∷ 0 ∷ 0 ∷ 0 ∷ 1 ∷ 0
    ∷ 0 ∷ 0 ∷ 7 ∷ 0 ∷ 0 ∷ 0 ∷ 0 ∷ 0 ∷ 0 ∷ 0 ∷ 0 ∷ 0 ∷ 128 ∷ 63 ∷ 2 ∷ 0 ∷ 0 ∷ 0 ∷ 123 ∷ 125 ∷ []

abbrev wide_bytes : List ℕ
wide_bytes =
    32 ∷ 0 ∷ 0 ∷ 0 ∷ 86 ∷ 128 ∷ 3 ∷ 99 ∷ 1 ∷ 0 ∷ 0 ∷ 0 ∷ 0 ∷ 0 ∷ 0 ∷ 0 ∷ 1 ∷ 0 ∷ 0 ∷ 0 ∷ 2 ∷ 0 ∷ 0
    ∷ 0 ∷ 7 ∷ 0 ∷ 0 ∷ 0 ∷ 0 ∷ 0 ∷ 0 ∷ 0 ∷ 0 ∷ 0 ∷ 128 ∷ 63 ∷ 0 ∷ 0 ∷ 0 ∷ 0 ∷ []

pub encode_record_run : encode_record 1 (7 ∷ []) one_vector one_payload ≡ ok record_bytes
unfolding encode_record
encode_record_run = refl

encode_record_wide : encode_record 1 (7 ∷ []) two_values none ≡ ok wide_bytes
unfolding encode_record
encode_record_wide = refl

optional_section_run : optional_section one_payload ≡ ok (2 ∷ 0 ∷ 0 ∷ 0 ∷ 123 ∷ 125 ∷ [])
unfolding optional_section
optional_section_run = refl

pub one_vector-IsWritable : IsWritable (7 ∷ []) one_vector one_payload
one_vector-IsWritable = record {
  counted = refl;
  ids_fit = (omega arith, tt);
  shaped = (refl, tt);
  values_fit = (omega arith, tt);
  texts_fit = refl;
}

two_values-IsWritable : IsWritable (7 ∷ []) two_values none
two_values-IsWritable = record {
  counted = refl;
  ids_fit = (omega arith, tt);
  shaped = (refl, tt);
  values_fit = (omega arith, (omega arith, tt));
  texts_fit = tt;
}

abbrev pub one_entry : Entry
one_entry = record {
  seq = 1;
  global_ids = 7 ∷ [];
  vectors = one_vector;
  payloads = one_payload;
  bytes = record_bytes;
  writable = one_vector-IsWritable;
  encoded = encode_record_run;
}

read_record-encode_record_example :
    read_record (record_bytes ++ 1 ∷ 2 ∷ [])
    ≡ ok (some (logged 1 (7 ∷ []) one_vector one_payload, 42))
read_record-encode_record_example =
    read_record-encode_record 1 (7 ∷ []) one_vector one_payload record_bytes (1 ∷ 2 ∷ [])
      one_vector-IsWritable encode_record_run

read_records_lem_example :
    read_records (log_bytes (one_entry ∷ one_entry ∷ []) ++ take 20 record_bytes)
    ≡ ok (log_records (one_entry ∷ one_entry ∷ []), 84)
read_records_lem_example =
    read_records_lem (one_entry ∷ one_entry ∷ []) (take 20 record_bytes)
      (torn-EndsLog one_entry 20 (omega arith))

-- A shard that keeps the ids of vectors of one value, and raises for any other.
abbrev pub id_shard : ShardOps (List ℕ)
id_shard = record {
  new = [];
  add_batch = λ s ids vectors payloads.
      if vectors.dim == 1 then (s ++ ids, ok tt) else (s, err Error.value_error);
  save_snapshot = λ s seq. seq ∷ s;
  load_snapshot = λ bytes. elim bytes [ [] ↦ err Error.decode_error | seq ∷ s ↦ ok (s, seq) ];
}

abbrev pub id_shard_laws : ShardLaws id_shard
id_shard_laws = record {
  IsStorable = λ s. Unit {0};
  restore = λ s. s;
  new_storable = tt;
  same_storable = λ s t e h. tt;
  add_storable = λ s ids vectors payloads h k. tt;
  load_save = λ s seq h. refl;
  restore_twice = λ s. refl;
  add_shard =
      λ s t ids vectors payloads h. ap (λ x. (id_shard.add_batch x ids vectors payloads).0) h;
  add_result =
      λ s t ids vectors payloads h. ap (λ x. (id_shard.add_batch x ids vectors payloads).1) h;
  add_blank = λ s ids vectors. refl;
  add_empty = λ s ids vectors. refl;
}

-- A shard on an empty disk that takes a snapshot at every write.
abbrev pub fresh : DurableShard (List ℕ)
fresh = record {
  disk = record { snapshot = none; wal = [] };
  shard = [];
  last_seq = 0;
  snapshot_seq = 0;
  snapshot_every = 1;
  vectors_since_snapshot = 0;
  replayed_records = 0;
}

fresh-IsRecoverable : IsRecoverable id_shard id_shard_laws fresh
unfolding load_base replay
fresh-IsRecoverable = record {
  entries = [];
  wal = refl;
  base = [];
  base_loads = refl;
  end = start [] 0;
  replayed = refl;
  same_seq = refl;
  same_shard = refl;
  storable = tt;
  base_storable = tt;
  ascending = tt;
}

add_batch-atomic_example :
    Recovers id_shard id_shard_laws (record { snapshot = none; wal = take 20 record_bytes }) fresh
    ⊎ Recovers id_shard id_shard_laws
        (record { snapshot = none; wal = take 20 record_bytes })
        (written id_shard fresh (7 ∷ []) one_vector one_payload record_bytes)
add_batch-atomic_example =
    add_batch-atomic id_shard id_shard_laws fresh (7 ∷ []) one_vector one_payload record_bytes
      (record { snapshot = none; wal = take 20 record_bytes }) fresh-IsRecoverable
      one_vector-IsWritable encode_record_run refl (torn 20 (omega arith))

add_batch-Acknowledged_example :
    Acknowledged id_shard id_shard_laws fresh
      (7 ∷ [])
      one_vector
      one_payload
      (add_batch id_shard fresh (7 ∷ []) one_vector one_payload (some 1))
add_batch-Acknowledged_example =
    add_batch-Acknowledged id_shard id_shard_laws fresh (7 ∷ []) one_vector one_payload (some 1)
      record_bytes fresh-IsRecoverable one_vector-IsWritable refl encode_record_run refl

add_batch-rejected_example :
    ((add_batch id_shard fresh (7 ∷ []) two_values none none).1 ≡ err Error.value_error)
    × (open_shard id_shard 0 (add_batch id_shard fresh (7 ∷ []) two_values none none).0.disk
        ≡ err Error.value_error)
add_batch-rejected_example =
    add_batch-rejected id_shard id_shard_laws fresh (7 ∷ []) two_values none none wide_bytes
      Error.value_error 0 fresh-IsRecoverable two_values-IsWritable refl encode_record_wide refl

install_snapshot-Installed_example :
    Installed id_shard id_shard_laws (7 ∷ []) 4 (install_snapshot id_shard fresh (4 ∷ 7 ∷ []))
install_snapshot-Installed_example =
    install_snapshot-Installed id_shard id_shard_laws fresh (7 ∷ []) 4 tt

abbrev pub after_one : DurableShard (List ℕ)
after_one = written id_shard fresh (7 ∷ []) one_vector one_payload record_bytes

after_one-IsRecoverable : IsRecoverable id_shard id_shard_laws after_one
after_one-IsRecoverable =
    written-IsRecoverable id_shard id_shard_laws fresh (7 ∷ []) one_vector one_payload record_bytes
      fresh-IsRecoverable one_vector-IsWritable encode_record_run refl

pub records_after_run : records_after id_shard after_one 0 ≡ ok (some (entry_record one_entry ∷ []))
unfolding records_after
records_after_run = refl

records_after_lem_example :
    records_after id_shard after_one 0
    ≡ ok (some (keep (λ r. ltb 0 r.seq) (log_records after_one-IsRecoverable.entries)))
records_after_lem_example =
    records_after_lem id_shard id_shard_laws after_one 0 after_one-IsRecoverable (omega arith)
