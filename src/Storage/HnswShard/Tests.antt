-- ===== src/Storage/HnswShard/Tests.antt =====
-- A durable shard with an HNSW index over numbers, its files as lists of numbers, and a write to it.
use distributed_vector_searc.Prelude.{
  ℕ, zero, suc, ◌≡◌, refl, List, [], ◌∷◌, ◌++◌, Option, none, some, Result, Error, ok, err, ◌>>=◌,
  length, take, drop, take_of_length, drop_of_length, nat_ord,
}
use distributed_vector_searc.Hnsw.{Selection, heuristic, closest}
use distributed_vector_searc.Storage.Snapshot.{LayerArrays, Meta, Snapshot}
use distributed_vector_searc.Storage.Snapshot.Tests.{line}
use distributed_vector_searc.Hnsw.{Hnsw}
use distributed_vector_searc.Hnsw.Insert.{insert}
use distributed_vector_searc.Cluster.Shard.{Shard}
use distributed_vector_searc.Cluster.Shard
use distributed_vector_searc.Storage.Durable.{DurableShard, open_shard, add_batch}
use distributed_vector_searc.Storage.Durable.Runs.{Reachable, created, wrote}
use distributed_vector_searc.Storage.Tests.{one_vector, one_payload, one_vector-IsWritable}
use distributed_vector_searc.Storage.HnswShard.Same.{loaded}
use distributed_vector_searc.Storage.HnswShard.Storable.{hnsw_shard-reopened}
use distributed_vector_searc.Storage.HnswShard.{
  SnapshotFile, Machinery, HnswParams, hnsw_shard, fresh_index,
}

-- A list with its length before it, and what follows.
put : List ℕ → List ℕ → List ℕ
put xs rest = length xs ∷ (xs ++ rest)

get : List ℕ → Result (List ℕ × List ℕ)
get [] = err Error.value_error
get (n ∷ rest) = ok (take n rest, drop n rest)

get-put : (xs rest : List ℕ) → get (put xs rest) ≡ ok (xs, rest)
unfolding get put
get-put xs rest =
    rw (take_of_length (length xs) xs rest refl, drop_of_length (length xs) xs rest refl) refl

put_layers : List LayerArrays → List ℕ → List ℕ
put_layers [] rest = rest
put_layers (l ∷ layers) rest =
    put l.nodes (put l.offsets (put l.neighbors (put_layers layers rest)))

get_layers : ℕ → List ℕ → Result (List LayerArrays × List ℕ)
get_layers zero rest = ok ([], rest)
get_layers (suc n) bytes = do
  (nodes, b) ← get bytes
  (offsets, c) ← get b
  (neighbors, d) ← get c
  (layers, e) ← get_layers n d
  ok (record { nodes = nodes; offsets = offsets; neighbors = neighbors } ∷ layers, e)

get_layers-put_layers :
    (layers : List LayerArrays) (rest : List ℕ)
    → get_layers (length layers) (put_layers layers rest) ≡ ok (layers, rest)
unfolding get_layers put_layers
get_layers-put_layers [] rest = refl
get_layers-put_layers (l ∷ layers) rest =
    let after = put_layers layers rest in
    rw
      (
        get-put l.nodes (put l.offsets (put l.neighbors after)),
        get-put l.offsets (put l.neighbors after),
        get-put l.neighbors after,
        get_layers-put_layers layers rest,
      )
      refl

put_payloads : Option (List ℕ × List ℕ) → List ℕ → List ℕ
put_payloads none rest = 0 ∷ rest
put_payloads (some (offsets, blob)) rest = 1 ∷ put offsets (put blob rest)

get_payloads : List ℕ → Result (Option (List ℕ × List ℕ) × List ℕ)
get_payloads (zero ∷ rest) = ok (none, rest)
get_payloads (suc n ∷ bytes) = do
  (offsets, b) ← get bytes
  (blob, c) ← get b
  ok (some (offsets, blob), c)
get_payloads [] = err Error.value_error

get_payloads-put_payloads :
    (payloads : Option (List ℕ × List ℕ)) (rest : List ℕ)
    → get_payloads (put_payloads payloads rest) ≡ ok (payloads, rest)
unfolding get_payloads put_payloads
get_payloads-put_payloads none rest = refl
get_payloads-put_payloads (some (offsets, blob)) rest =
    rw (get-put offsets (put blob rest), get-put blob rest) refl

selection_number : Option Selection → ℕ
selection_number none = 0
selection_number (some heuristic) = 1
selection_number (some closest) = 2

number_selection : ℕ → Option Selection
number_selection zero = none
number_selection (suc zero) = some heuristic
number_selection (suc (suc n)) = some closest

number_selection_lem :
    (selection : Option Selection) → number_selection (selection_number selection) ≡ selection
unfolding number_selection selection_number
number_selection_lem none = refl
number_selection_lem (some heuristic) = refl
number_selection_lem (some closest) = refl

entry_number : Option ℕ → ℕ
entry_number none = 0
entry_number (some node) = suc node

number_entry : ℕ → Option ℕ
number_entry zero = none
number_entry (suc node) = some node

number_entry_lem : (entry : Option ℕ) → number_entry (entry_number entry) ≡ entry
unfolding number_entry entry_number
number_entry_lem none = refl
number_entry_lem (some node) = refl

put_meta : Meta ℕ → List ℕ
put_meta m =
    m.format
    ∷ m.last_seq
    ∷ m.max_links
    ∷ m.ef_construction
    ∷ m.ef_search
    ∷ selection_number m.neighbor_selection
    ∷ entry_number m.entry_point
    ∷ m.levels
    ∷ m.rng_state
    ∷ []

get_meta : List ℕ → Result (Meta ℕ)
get_meta (a ∷ b ∷ c ∷ d ∷ e ∷ f ∷ g ∷ h ∷ i ∷ rest) = ok (record {
  format = a;
  last_seq = b;
  max_links = c;
  ef_construction = d;
  ef_search = e;
  neighbor_selection = number_selection f;
  entry_point = number_entry g;
  levels = h;
  rng_state = i;
})
get_meta _ = err Error.value_error

get_meta-put_meta : (m : Meta ℕ) → get_meta (put_meta m) ≡ ok m
unfolding get_meta put_meta
get_meta-put_meta m =
    rw (number_selection_lem m.neighbor_selection, number_entry_lem m.entry_point) refl

write_arrays : Snapshot ℕ ℕ → List ℕ
write_arrays a = put a.vectors (
    put a.global_ids
      (put_payloads a.payloads (length a.layers ∷ put_layers a.layers (put_meta a.meta))))

first_number : List ℕ → Result (ℕ × List ℕ)
first_number [] = err Error.value_error
first_number (n ∷ rest) = ok (n, rest)

read_arrays : List ℕ → Result (Snapshot ℕ ℕ)
unfolding first_number
read_arrays bytes = do
  (vectors, b) ← get bytes
  (global_ids, c) ← get b
  (payloads, d) ← get_payloads c
  (count, e) ← first_number d
  (layers, f) ← get_layers count e
  meta ← get_meta f
  ok (record {
    vectors = vectors;
    global_ids = global_ids;
    payloads = payloads;
    layers = layers;
    meta = meta;
  })

read_arrays-write_arrays : (a : Snapshot ℕ ℕ) → read_arrays (write_arrays a) ≡ ok a
unfolding read_arrays write_arrays
read_arrays-write_arrays a =
    let e = put_layers a.layers (put_meta a.meta) in
    let c = put_payloads a.payloads (length a.layers ∷ e) in
    rw
      (
        get-put a.vectors (put a.global_ids c),
        get-put a.global_ids c,
        get_payloads-put_payloads a.payloads (length a.layers ∷ e),
        get_layers-put_layers a.layers (put_meta a.meta),
        get_meta-put_meta a.meta,
      )
      refl

abbrev files : SnapshotFile ℕ ℕ
files = record { savez = write_arrays; read = read_arrays; read_savez = read_arrays-write_arrays }

abbrev machinery : Machinery ℕ ℕ ℕ
machinery = record {
  space = line;
  heap = record { order = λ entries. entries };
  draw = λ rng. (0, rng);
  loads = λ text. err Error.decode_error;
  vector = λ values. elim values [ [] ↦ 0 | v ∷ others ↦ v ];
  file = files;
}

abbrev params : HnswParams ℕ
params = record {
  max_links = 4;
  ef_construction = 10;
  ef_search = 8;
  neighbor_selection = heuristic;
  rng = 99;
}

-- A new directory, with a snapshot at every write.
abbrev created_shard : DurableShard (Shard (Hnsw ℕ ℕ))
created_shard = record {
  disk = record { snapshot = none; wal = [] };
  shard = (hnsw_shard machinery params).new;
  last_seq = 0;
  snapshot_seq = 0;
  snapshot_every = 1;
  vectors_since_snapshot = 0;
  replayed_records = 0;
}

created_run :
    open_shard (hnsw_shard machinery params) 1 (record { snapshot = none; wal = [] })
    ≡ ok created_shard
unfolding open_shard
created_run = refl

abbrev wrote_shard : DurableShard (Shard (Hnsw ℕ ℕ))
wrote_shard =
    (add_batch (hnsw_shard machinery params) created_shard (7 ∷ []) one_vector one_payload none).0

wrote_run :
    (add_batch (hnsw_shard machinery params) created_shard (7 ∷ []) one_vector one_payload none).1
    ≡ ok tt
unfolding add_batch Shard.add_batch insert Shard.new_shard fresh_index
wrote_run = refl

wrote-Reachable : Reachable (hnsw_shard machinery params) wrote_shard
wrote-Reachable =
    wrote created_shard wrote_shard (7 ∷ []) one_vector one_payload none
      (created 1 created_shard created_run) one_vector-IsWritable (λ i. (wrote_shard, wrote_run i))

hnsw_shard-reopened_example :
    (opened : DurableShard (Shard (Hnsw ℕ ℕ))) × (open_shard
        (hnsw_shard machinery params)
        wrote_shard.snapshot_every
        wrote_shard.disk
      ≡ ok opened)
    × (opened.last_seq ≡ wrote_shard.last_seq)
    × (loaded 8 opened.shard ≡ loaded 8 wrote_shard.shard)
hnsw_shard-reopened_example = hnsw_shard-reopened machinery params wrote_shard wrote-Reachable
